-- ===== src/Crc/Step.antt =====
-- The rounds of the bitwise CRC are linear over exclusive or, invertible on 16-bit words, and
-- shift out a low byte of zeros.
use modbus_vault.Base.{
  ℕ, zero, suc, ◌+◌, ◌*◌, ◌/◌, ◌%◌, ◌^◌, ◌<◌, bit_xor, ◌≡◌, refl, sym, ap, ap₂, ◌∙◌, inl, inr,
  arith,
}
use modbus_vault.Base.{◌==◌, if◌then◌else◌, Bool-cases}
use modbus_vault.Base.Bits.{
  bit_xor-half, bit_xor-parity, bit_xor_comm, bit_xor_assoc, bit_xor-zero, bit_xor-lt,
  bit_xor-injective, bit_xor-shr,
}
use native.Mathlib.Nat.{pow-suc}
use modbus_vault.Crc.{bit_round, bit_rounds}

-- The polynomial folded in by a round, as a word.
abbrev fold : ℕ → ℕ
fold bit = if bit == 0 then 0 else 0xA001

bit_round-fold : (x : ℕ) → bit_round x ≡ bit_xor (x / 2) (fold (x % 2))
unfolding bit_round
bit_round-fold x = elim (Bool-cases (x % 2 == 0)) [
  | inl e ↦ rw e (sym (bit_xor-zero (x / 2)))
  | inr e ↦ rw e
]

-- Four words change places two by two.
xor_middle :
    (a b c d : ℕ) → bit_xor (bit_xor a b) (bit_xor c d) ≡ bit_xor (bit_xor a c) (bit_xor b d)
xor_middle a b c d =
    bit_xor_assoc a b (bit_xor c d)
    ∙ ap (bit_xor a)
        (sym (bit_xor_assoc b c d) ∙ ap (λ t. bit_xor t d) (bit_xor_comm b c) ∙ bit_xor_assoc c b d)
    ∙ sym (bit_xor_assoc a c (bit_xor b d))

fold_xor : (x y : ℕ) → x < 2 → y < 2 → fold ((x + y) % 2) ≡ bit_xor (fold x) (fold y)
fold_xor zero zero p q = refl
fold_xor zero (suc zero) p q = refl
fold_xor (suc zero) zero p q = refl
fold_xor (suc zero) (suc zero) p q = refl
fold_xor zero (suc (suc y)) p q = absurd (omega arith)
fold_xor (suc zero) (suc (suc y)) p q = absurd (omega arith)
fold_xor (suc (suc x)) y p q = absurd (omega arith)

pub bit_round-bit_xor : (a b : ℕ) → bit_round (bit_xor a b) ≡ bit_xor (bit_round a) (bit_round b)
bit_round-bit_xor a b =
    bit_round-fold (bit_xor a b)
    ∙ ap₂ bit_xor (bit_xor-half a b) (
        ap fold (bit_xor-parity a b ∙ digits)
        ∙ fold_xor (a % 2) (b % 2) (omega arith) (omega arith))
    ∙ xor_middle (a / 2) (b / 2) (fold (a % 2)) (fold (b % 2))
    ∙ ap₂ bit_xor (sym (bit_round-fold a)) (sym (bit_round-fold b))
  where
    digits : (a + b) % 2 ≡ (a % 2 + b % 2) % 2
    digits = omega arith

pub bit_rounds-bit_xor :
    (n a b : ℕ) → bit_rounds n (bit_xor a b) ≡ bit_xor (bit_rounds n a) (bit_rounds n b)
unfolding bit_rounds
bit_rounds-bit_xor zero a b = refl
bit_rounds-bit_xor (suc n) a b =
    ap (bit_rounds n) (bit_round-bit_xor a b) ∙ bit_rounds-bit_xor n (bit_round a) (bit_round b)

-- A round of an even word is a shift, so eight rounds of a word with a low byte of zeros are the
-- shift by eight.
bit_round-double : (h : ℕ) → bit_round (2 * h) ≡ h
unfolding bit_round
bit_round-double h = ground arith

bit_rounds-shift : (n h : ℕ) → bit_rounds n (2 ^ n * h) ≡ h
unfolding bit_rounds
bit_rounds-shift zero h = omega arith
bit_rounds-shift (suc n) h =
    ap (λ t. bit_rounds n (bit_round t)) doubled
    ∙ ap (bit_rounds n) (bit_round-double (2 ^ n * h))
    ∙ bit_rounds-shift n h
  where
    doubled : 2 ^ suc n * h ≡ 2 * (2 ^ n * h)
    doubled = ap (λ t. t * h) (pow-suc 2 n) ∙ (grind arith)

pub bit_rounds-high : (h : ℕ) → bit_rounds 8 (256 * h) ≡ h
bit_rounds-high h = bit_rounds-shift 8 h

-- A round keeps 16 bits.
pub bit_round-lt : (x : ℕ) → x < 2 ^ 16 → bit_round x < 2 ^ 16
unfolding bit_round
bit_round-lt x h = ground (arith, bit_xor-lt 16 (x / 2) 0xA001)

pub bit_rounds-lt : (n x : ℕ) → x < 2 ^ 16 → bit_rounds n x < 2 ^ 16
unfolding bit_rounds
bit_rounds-lt zero x h = h
bit_rounds-lt (suc n) x h = bit_rounds-lt n (bit_round x) (bit_round-lt x h)

-- The top bit of a round's result tells whether the polynomial was folded in.
fold-top : (y : ℕ) → y < 2 ^ 15 → bit_xor y 0xA001 / 2 ^ 15 ≡ 1
fold-top y p = bit_xor-shr 15 y 0xA001 ∙ ap (λ t. bit_xor t 1) zero_high
  where
    zero_high : y / 2 ^ 15 ≡ 0
    zero_high = omega arith

bit_round-top : (x : ℕ) → x < 2 ^ 16 → bit_round x / 2 ^ 15 ≡ x % 2
unfolding bit_round
bit_round-top x h = ground (arith, fold-top (x / 2))

-- A round is injective on 16-bit words.
pub bit_round-injective : (x y : ℕ) → x < 2 ^ 16 → y < 2 ^ 16 → bit_round x ≡ bit_round y → x ≡ y
bit_round-injective x y p q h = omega (arith, parity, halves)
  where
    parity : x % 2 ≡ y % 2
    parity = sym (bit_round-top x p) ∙ ap (λ t. t / 2 ^ 15) h ∙ bit_round-top y q

    halves : x / 2 ≡ y / 2
    halves = bit_xor-injective (x / 2) (y / 2) (fold (x % 2)) (
        sym (bit_round-fold x)
        ∙ h
        ∙ bit_round-fold y
        ∙ ap (λ t. bit_xor (y / 2) (fold t)) (sym parity))

pub bit_rounds-injective :
    (n x y : ℕ) → x < 2 ^ 16 → y < 2 ^ 16 → bit_rounds n x ≡ bit_rounds n y → x ≡ y
unfolding bit_rounds
bit_rounds-injective zero x y p q h = h
bit_rounds-injective (suc n) x y p q h =
    bit_round-injective x y p q
      (bit_rounds-injective n (bit_round x) (bit_round y) (bit_round-lt x p) (bit_round-lt y q) h)
