-- ===== src/Base/Bits.antt =====
-- Laws of `bit_xor` and `bit_and` at variables, from the recursion on binary digits that the
-- native operations stand for: one equation for the lowest digit, and what follows from it.
use Prim.Native.Nat.{
  ℕ, zero, suc, ◌+◌, ◌-◌, ◌*◌, ◌/◌, ◌%◌, ◌^◌, ◌≤◌, ◌<◌, min, max, bit_and, bit_or, bit_xor, digits,
  bitwise, bit_and-bitwise, bit_or-bitwise, bit_xor-bitwise, differ,
}
use mathlib.Core.Path.{◌≡◌, refl, sym, ◌∙◌, ap, ap₂}
use native.Mathlib.Omega.{arith}
use native.Mathlib.Nat.{le_refl, pow-suc, one-le-pow, mul_comm, div-div-eq-div-mul}

module _ (base : ℕ → ℕ) (op : ℕ → ℕ → ℕ) where
  -- Any count of digits that covers the first number gives the same result.
  more_digits : (a b m n : ℕ) → a ≤ m → m ≤ n → digits base op m a b ≡ digits base op n a b
  more_digits zero b zero zero p q = refl
  more_digits zero b zero (suc n) p q = refl
  more_digits zero b (suc m) zero p q = absurd (omega arith)
  more_digits zero b (suc m) (suc n) p q = refl
  more_digits (suc a) b zero n p q = absurd (omega arith)
  more_digits (suc a) b (suc m) zero p q = absurd (omega arith)
  more_digits (suc a) b (suc m) (suc n) p q =
      ap (λ t. t * 2 + op (suc a % 2) (b % 2))
        (more_digits (suc a / 2) (b / 2) m n (omega arith) (omega arith))

  low_digit :
      (a b : ℕ)
      → bitwise base op (suc a) b ≡ bitwise base op (suc a / 2) (b / 2) * 2 + op (suc a % 2) (b % 2)
  low_digit a b =
      omega (arith, more_digits (suc a / 2) (b / 2) (suc a / 2) a (le_refl _) (omega arith))

-- The exclusive or of two digits, as arithmetic.
differ_digit : (x y : ℕ) → x < 2 → y < 2 → differ x y ≡ (x + y) % 2
differ_digit zero y p q = omega arith
differ_digit (suc zero) zero p q = refl
differ_digit (suc zero) (suc zero) p q = refl
differ_digit (suc zero) (suc (suc y)) p q = absurd (omega arith)
differ_digit (suc (suc x)) y p q = absurd (omega arith)

xor_low : (a b : ℕ) → bit_xor a b ≡ bit_xor (a / 2) (b / 2) * 2 + differ (a % 2) (b % 2)
xor_low zero b = simp bit_xor-bitwise (omega arith)
xor_low (suc a) b = simp bit_xor-bitwise (low_digit (λ y. y) differ a b)

pub bit_xor_step : (a b : ℕ) → bit_xor a b ≡ bit_xor (a / 2) (b / 2) * 2 + (a + b) % 2
bit_xor_step a b =
    omega (arith, xor_low a b, differ_digit (a % 2) (b % 2) (omega arith) (omega arith))

-- A conjunction is its lowest digit and twice the conjunction of the rest.
pub bit_and_halved : (m n : ℕ) → bit_and m n ≡ min (m % 2) (n % 2) + 2 * bit_and (m / 2) (n / 2)
bit_and_halved zero n = simp bit_and-bitwise (omega arith)
bit_and_halved (suc m) n = simp bit_and-bitwise (omega (arith, low_digit (λ y. 0) min m n))

pub zero-bit_xor : (b : ℕ) → bit_xor 0 b ≡ b
zero-bit_xor b = bit_xor-bitwise 0 b

-- The two digits above the lowest, and the lowest itself.
pub bit_xor-half : (a b : ℕ) → bit_xor a b / 2 ≡ bit_xor (a / 2) (b / 2)
bit_xor-half a b = omega (arith, bit_xor_step a b)

pub bit_xor-parity : (a b : ℕ) → bit_xor a b % 2 ≡ (a + b) % 2
bit_xor-parity a b = omega (arith, bit_xor_step a b)

-- Numbers below `n + 1` have `n` binary digits at most: induction on a bound of the arguments.
xor_zero_upto : (n a : ℕ) → a ≤ n → bit_xor a 0 ≡ a
xor_zero_upto n zero h = zero-bit_xor 0
xor_zero_upto zero (suc a) h = absurd (omega arith)
xor_zero_upto (suc n) (suc a) h =
    omega (arith, bit_xor_step (suc a) 0, xor_zero_upto n (suc a / 2) (omega arith))

pub bit_xor-zero : (a : ℕ) → bit_xor a 0 ≡ a
bit_xor-zero a = xor_zero_upto a a (le_refl a)

xor_comm_upto : (n a b : ℕ) → a ≤ n → bit_xor a b ≡ bit_xor b a
xor_comm_upto n zero b h = omega (arith, zero-bit_xor b, bit_xor-zero b)
xor_comm_upto zero (suc a) b h = absurd (omega arith)
xor_comm_upto (suc n) (suc a) b h = omega (
  arith,
  bit_xor_step (suc a) b,
  bit_xor_step b (suc a),
  xor_comm_upto n (suc a / 2) (b / 2) (omega arith),
)

pub bit_xor_comm : (a b : ℕ) → bit_xor a b ≡ bit_xor b a
bit_xor_comm a b = xor_comm_upto a a b (le_refl a)

xor_assoc_upto : (n a b c : ℕ) → a ≤ n → bit_xor (bit_xor a b) c ≡ bit_xor a (bit_xor b c)
xor_assoc_upto n zero b c h = rw (zero-bit_xor b, zero-bit_xor (bit_xor b c))
xor_assoc_upto zero (suc a) b c h = absurd (omega arith)
xor_assoc_upto (suc n) (suc a) b c h = omega (
  arith,
  bit_xor_step (bit_xor (suc a) b) c,
  bit_xor_step (suc a) (bit_xor b c),
  ap (λ t. bit_xor t (c / 2)) (bit_xor-half (suc a) b),
  ap (bit_xor (suc a / 2)) (bit_xor-half b c),
  bit_xor-parity (suc a) b,
  bit_xor-parity b c,
  xor_assoc_upto n (suc a / 2) (b / 2) (c / 2) (omega arith),
)

pub bit_xor_assoc : (a b c : ℕ) → bit_xor (bit_xor a b) c ≡ bit_xor a (bit_xor b c)
bit_xor_assoc a b c = xor_assoc_upto a a b c (le_refl a)

xor_self_upto : (n a : ℕ) → a ≤ n → bit_xor a a ≡ 0
xor_self_upto n zero h = zero-bit_xor 0
xor_self_upto zero (suc a) h = absurd (omega arith)
xor_self_upto (suc n) (suc a) h =
    omega (arith, bit_xor_step (suc a) (suc a), xor_self_upto n (suc a / 2) (omega arith))

pub bit_xor_self : (a : ℕ) → bit_xor a a ≡ 0
bit_xor_self a = xor_self_upto a a (le_refl a)

-- Exclusive or with a fixed word undoes itself, so it is injective.
pub bit_xor_cancel : (a b : ℕ) → bit_xor (bit_xor a b) b ≡ a
bit_xor_cancel a b = bit_xor_assoc a b b ∙ ap (bit_xor a) (bit_xor_self b) ∙ bit_xor-zero a

pub bit_xor-injective : (a b c : ℕ) → bit_xor a c ≡ bit_xor b c → a ≡ b
bit_xor-injective a b c h = sym (bit_xor_cancel a c) ∙ ap (λ t. bit_xor t c) h ∙ bit_xor_cancel b c

-- The exclusive or of two words of `n` bits has `n` bits.
pub bit_xor-lt : (n a b : ℕ) → a < 2 ^ n → b < 2 ^ n → bit_xor a b < 2 ^ n
bit_xor-lt zero a b p q =
    let a0 : a ≡ 0 = omega arith in let b0 : b ≡ 0 = omega arith in rw (a0, b0) (omega arith)
bit_xor-lt (suc n) a b p q = omega (
  arith,
  pow-suc 2 n,
  bit_xor_step a b,
  bit_xor-lt n (a / 2) (b / 2) (omega (arith, pow-suc 2 n)) (omega (arith, pow-suc 2 n)),
)

-- A mask of `n` ones keeps a word of `n` bits.
pub bit_and_ones : (n a : ℕ) → a < 2 ^ n → bit_and a (2 ^ n - 1) ≡ a
bit_and_ones zero a h = let e : a ≡ 0 = omega arith in rw e (bit_and-bitwise 0 (2 ^ 0 - 1))
bit_and_ones (suc n) a h = omega (
  arith,
  pow-suc 2 n,
  one-le-pow n 2 (omega arith),
  bit_and_halved a (2 ^ suc n - 1),
  ap (bit_and (a / 2)) (halves (2 ^ n) (2 ^ suc n) (pow-suc 2 n) (one-le-pow n 2 (omega arith))),
  bit_and_ones n (a / 2) (omega (arith, pow-suc 2 n)),
)
  where
    halves : (p q : ℕ) → q ≡ p * 2 → 1 ≤ p → (q - 1) / 2 ≡ p - 1
    halves p q e h = omega arith

-- Exclusive or goes through a shift to the right.
pub bit_xor-shr : (n a b : ℕ) → bit_xor a b / 2 ^ n ≡ bit_xor (a / 2 ^ n) (b / 2 ^ n)
bit_xor-shr zero a b = omega (arith, ap₂ bit_xor (shift_none a) (shift_none b))
  where
    shift_none : (x : ℕ) → x / 2 ^ 0 ≡ x
    shift_none x = omega arith
bit_xor-shr (suc n) a b =
    shift_more (bit_xor a b)
    ∙ ap (λ t. t / 2 ^ n) (bit_xor-half a b)
    ∙ bit_xor-shr n (a / 2) (b / 2)
    ∙ ap₂ bit_xor (sym (shift_more a)) (sym (shift_more b))
  where
    shift_more : (x : ℕ) → x / 2 ^ suc n ≡ x / 2 / 2 ^ n
    shift_more x =
        ap (λ t. x / t) (pow-suc 2 n ∙ mul_comm (2 ^ n) 2) ∙ sym (div-div-eq-div-mul x 2 (2 ^ n))

-- Words with no bit in common: exclusive or joins two fields.
pub bit_xor_fields : (n q r : ℕ) → r < 2 ^ n → bit_xor (2 ^ n * q) r ≡ 2 ^ n * q + r
bit_xor_fields zero q r h =
    let e : r ≡ 0 = omega arith in rw e (omega (arith, bit_xor-zero (2 ^ 0 * q)))
bit_xor_fields (suc n) q r h = omega (
  arith,
  pow-suc 2 n,
  doubled,
  bit_xor_step (2 ^ suc n * q) r,
  ap (λ t. bit_xor t (r / 2)) halved,
  bit_xor_fields n q (r / 2) (omega (arith, pow-suc 2 n)),
)
  where
    doubled : 2 ^ suc n * q ≡ 2 * (2 ^ n * q)
    doubled = ap (λ t. t * q) (pow-suc 2 n) ∙ (grind arith)

    halved : 2 ^ suc n * q / 2 ≡ 2 ^ n * q
    halved = omega (arith, doubled)

or_low : (a b : ℕ) → bit_or a b ≡ bit_or (a / 2) (b / 2) * 2 + max (a % 2) (b % 2)
or_low zero b = simp bit_or-bitwise (omega arith)
or_low (suc a) b = simp bit_or-bitwise (low_digit (λ y. y) max a b)

or_zero_upto : (n a : ℕ) → a ≤ n → bit_or a 0 ≡ a
or_zero_upto n zero h = bit_or-bitwise 0 0
or_zero_upto zero (suc a) h = absurd (omega arith)
or_zero_upto (suc n) (suc a) h =
    omega (arith, or_low (suc a) 0, or_zero_upto n (suc a / 2) (omega arith))

bit_or-zero : (a : ℕ) → bit_or a 0 ≡ a
bit_or-zero a = or_zero_upto a a (le_refl a)

-- Inclusive or joins two fields too.
pub bit_or_fields : (n q r : ℕ) → r < 2 ^ n → bit_or (q * 2 ^ n) r ≡ q * 2 ^ n + r
bit_or_fields zero q r h =
    let e : r ≡ 0 = omega arith in rw e (omega (arith, bit_or-zero (q * 2 ^ 0)))
bit_or_fields (suc n) q r h = omega (
  arith,
  pow-suc 2 n,
  ap (λ t. q * t) (pow-suc 2 n),
  or_low (q * 2 ^ suc n) r,
  ap (λ t. bit_or t (r / 2)) halved,
  bit_or_fields n q (r / 2) (omega (arith, pow-suc 2 n)),
)
  where
    halved : q * 2 ^ suc n / 2 ≡ q * 2 ^ n
    halved = omega (arith, ap (λ t. q * t) (pow-suc 2 n))

-- A mask whose low digits are zero masks the digits above them.
pub bit_and_high : (n x m : ℕ) → bit_and x (2 ^ n * m) ≡ 2 ^ n * bit_and (x / 2 ^ n) m
bit_and_high zero x m = omega (arith, ap₂ bit_and (whole x) (unit m))
  where
    whole : (t : ℕ) → t ≡ t / 2 ^ 0
    whole t = omega arith

    unit : (t : ℕ) → 2 ^ 0 * t ≡ t
    unit t = omega arith
bit_and_high (suc n) x m =
    bit_and_halved x (2 ^ suc n * m)
    ∙ omega (
      arith,
      ap (bit_and (x / 2)) halved,
      doubled,
      ap (λ t. 2 ^ n * bit_and t m) shifted,
      scaled,
      bit_and_high n (x / 2) m,
    )
  where
    doubled : 2 ^ suc n * m ≡ 2 * (2 ^ n * m)
    doubled = ap (λ t. t * m) (pow-suc 2 n) ∙ (grind arith)

    halved : 2 ^ suc n * m / 2 ≡ 2 ^ n * m
    halved = omega (arith, doubled)

    shifted : x / 2 / 2 ^ n ≡ x / 2 ^ suc n
    shifted =
        div-div-eq-div-mul x 2 (2 ^ n) ∙ ap (λ t. x / t) (mul_comm 2 (2 ^ n) ∙ sym (pow-suc 2 n))

    scaled : 2 ^ suc n * bit_and (x / 2 ^ suc n) m ≡ 2 * (2 ^ n * bit_and (x / 2 ^ suc n) m)
    scaled = ap (λ t. t * bit_and (x / 2 ^ suc n) m) (pow-suc 2 n) ∙ (grind arith)
