-- ===== src/Crc/Detection.antt =====
-- What the CRC detects: it is a 16-bit word, a change of one byte changes it, and a string with its
-- own CRC behind it, low byte first, has the CRC zero.
use modbus_vault.Base.{
  ℕ, ◌+◌, ◌*◌, ◌^◌, ◌<◌, bit_xor, ◌≡◌, ◌↔◌, refl, sym, ap, ◌∙◌, List, [], ◌∷◌, ◌++◌, arith,
}
use modbus_vault.Base.Words.{IsByte, AreBytes}
use modbus_vault.Base.Bits.{
  bit_xor_comm, bit_xor_assoc, bit_xor_self, bit_xor-zero, bit_xor-lt, bit_xor-injective,
  bit_xor_fields,
}
use modbus_vault.Crc.{bit_round, bit_rounds, byte_round, crc_from, crc16}
use modbus_vault.Crc.Step.{bit_rounds-high, bit_rounds-lt, bit_rounds-injective}

abbrev pub IsWord16 : ℕ → Type 0
IsWord16 w = w < 2 ^ 16

byte-word : {b : ℕ} → IsByte b → IsWord16 b
byte-word h = omega arith

byte_round-word : (crc byte : ℕ) → IsWord16 crc → IsByte byte → IsWord16 (byte_round crc byte)
unfolding byte_round
byte_round-word crc byte p q =
    bit_rounds-lt 8 (bit_xor crc byte) (bit_xor-lt 16 crc byte p (byte-word q))

pub crc_from-word :
    (crc : ℕ) (bytes : List ℕ) → IsWord16 crc → AreBytes bytes → IsWord16 (crc_from crc bytes)
unfolding crc_from
crc_from-word crc [] p q = p
crc_from-word crc (b ∷ bs) p q =
    crc_from-word (byte_round crc b) bs (byte_round-word crc b p q.0) q.1

pub crc_from-append :
    (crc : ℕ) (xs ys : List ℕ) → crc_from crc (xs ++ ys) ≡ crc_from (crc_from crc xs) ys
unfolding crc_from
crc_from-append crc [] ys = refl
crc_from-append crc (x ∷ xs) ys = crc_from-append (byte_round crc x) xs ys

-- The CRC of a string of bytes fits the `uint16_t` that holds it.
pub crc16-lt : (bytes : List ℕ) → AreBytes bytes → crc16 bytes < 2 ^ 16
unfolding crc16
crc16-lt bytes h = crc_from-word 0xFFFF bytes (omega arith) h

-- Different registers stay different over the same bytes.
pub crc_from-injective :
    (a b : ℕ) (bytes : List ℕ)
    → IsWord16 a
    → IsWord16 b
    → AreBytes bytes
    → crc_from a bytes ≡ crc_from b bytes
    → a ≡ b
unfolding crc_from byte_round
crc_from-injective a b [] p q r h = h
crc_from-injective a b (x ∷ xs) p q r h = bit_xor-injective a b x (
    bit_rounds-injective 8 (bit_xor a x) (bit_xor b x) (bit_xor-lt 16 a x p (byte-word r.0))
      (bit_xor-lt 16 b x q (byte-word r.0))
      (crc_from-injective (byte_round a x) (byte_round b x) xs (byte_round-word a x p r.0)
        (byte_round-word b x q r.0) r.1 h))

-- From one register, different bytes give different registers.
byte_round-injective :
    (crc x y : ℕ) → IsWord16 crc → IsByte x → IsByte y → byte_round crc x ≡ byte_round crc y → x ≡ y
unfolding byte_round
byte_round-injective crc x y p q r h = bit_xor-injective x y crc (
    bit_xor_comm x crc
    ∙ bit_rounds-injective 8 (bit_xor crc x) (bit_xor crc y) (bit_xor-lt 16 crc x p (byte-word q))
        (bit_xor-lt 16 crc y p (byte-word r)) h
    ∙ bit_xor_comm crc y)

-- A change of one byte, wherever it stands, changes the CRC: two strings of bytes that differ in
-- at most that byte and have one CRC are equal.
pub crc16-single_byte :
    (front back : List ℕ) (x y : ℕ)
    → AreBytes front
    → AreBytes back
    → IsByte x
    → IsByte y
    → crc16 (front ++ x ∷ back) ≡ crc16 (front ++ y ∷ back)
    → x ≡ y
unfolding crc16 crc_from
crc16-single_byte front back x y f b p q h = byte_round-injective reg x y reg_word p q (
    crc_from-injective (byte_round reg x) (byte_round reg y) back (byte_round-word reg x reg_word p)
      (byte_round-word reg y reg_word q) b
      (sym (crc_from-append 0xFFFF front (x ∷ back)) ∙ h ∙ crc_from-append 0xFFFF front (y ∷ back)))
  where
    reg : ℕ
    reg = crc_from 0xFFFF front

    reg_word : IsWord16 reg
    reg_word = crc_from-word 0xFFFF front (omega arith) f

-- Two bytes bring the register to zero exactly when they are the register, low byte first.
closes : (lo hi : ℕ) → IsByte lo → crc_from (hi * 2 ^ 8 + lo) (lo ∷ hi ∷ []) ≡ 0
unfolding crc_from byte_round bit_rounds bit_round
closes lo hi p = ap (λ t. bit_rounds 8 (bit_xor t hi)) first ∙ ap (bit_rounds 8) (bit_xor_self hi)
  where
    cleared : bit_xor (hi * 2 ^ 8 + lo) lo ≡ 256 * hi
    cleared =
        ap (λ t. bit_xor t lo) (swapped ∙ sym (bit_xor_fields 8 hi lo p))
        ∙ bit_xor_assoc (256 * hi) lo lo
        ∙ ap (bit_xor (256 * hi)) (bit_xor_self lo)
        ∙ bit_xor-zero (256 * hi)
      where
        swapped : hi * 2 ^ 8 + lo ≡ 256 * hi + lo
        swapped = omega arith

    first : bit_rounds 8 (bit_xor (hi * 2 ^ 8 + lo) lo) ≡ hi
    first = ap (bit_rounds 8) cleared ∙ bit_rounds-high hi

-- The CRC of bytes with two more behind them is zero exactly when these are the CRC of the bytes, its
-- low byte first.
pub crc16-residue_iff :
    (bytes : List ℕ) (lo hi : ℕ)
    → AreBytes bytes
    → IsByte lo
    → IsByte hi
    → (crc16 (bytes ++ lo ∷ hi ∷ []) ≡ 0) ↔ (crc16 bytes ≡ hi * 2 ^ 8 + lo)
unfolding crc16
crc16-residue_iff bytes lo hi f p q = (to_word, to_zero)
  where
    reg : ℕ
    reg = crc_from 0xFFFF bytes

    whole : crc_from 0xFFFF (bytes ++ lo ∷ hi ∷ []) ≡ crc_from reg (lo ∷ hi ∷ [])
    whole = crc_from-append 0xFFFF bytes (lo ∷ hi ∷ [])

    to_word : crc_from 0xFFFF (bytes ++ lo ∷ hi ∷ []) ≡ 0 → reg ≡ hi * 2 ^ 8 + lo
    to_word h =
        crc_from-injective reg (hi * 2 ^ 8 + lo) (lo ∷ hi ∷ [])
          (crc_from-word 0xFFFF bytes (omega arith) f) (omega arith) (p, (q, tt))
          (sym whole ∙ h ∙ sym (closes lo hi p))

    to_zero : reg ≡ hi * 2 ^ 8 + lo → crc_from 0xFFFF (bytes ++ lo ∷ hi ∷ []) ≡ 0
    to_zero e = whole ∙ ap (λ t. crc_from t (lo ∷ hi ∷ [])) e ∙ closes lo hi p
