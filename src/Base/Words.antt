-- ===== src/Base/Words.antt =====
-- Machine words: the widths of the program's integer types. On the ESP32 `size_t` is 32 bits wide.
use Prim.Native.Nat.{ℕ, zero, suc, ◌-◌, ◌+◌, ◌*◌, ◌/◌, ◌%◌, ◌^◌, ◌<◌}
use native.Mathlib.Omega.{arith}
use mathlib.Core.List.{List, [], ◌∷◌, ◌++◌}
use modbus_vault.Base.Lists.{take, drop, get_or, splice, replicate}

abbrev pub u8 : ℕ → ℕ
u8 n = n % 2 ^ 8

abbrev pub u16 : ℕ → ℕ
u16 n = n % 2 ^ 16

abbrev pub u32 : ℕ → ℕ
u32 n = n % 2 ^ 32

-- `a - b` on `uint32_t`
abbrev pub sub32 : ℕ → ℕ → ℕ
sub32 a b = (a + 2 ^ 32 - b) % 2 ^ 32

-- The little-endian words at the start of a buffer.
abbrev pub read16 : List ℕ → ℕ
read16 bytes = get_or bytes 0 0 + 2 ^ 8 * get_or bytes 1 0

abbrev pub read32 : List ℕ → ℕ
read32 bytes = read16 bytes + 2 ^ 16 * (get_or bytes 2 0 + 2 ^ 8 * get_or bytes 3 0)

abbrev pub write16 : ℕ → List ℕ
write16 w = w % 2 ^ 8 ∷ w / 2 ^ 8 % 2 ^ 8 ∷ []

abbrev pub write32 : ℕ → List ℕ
write32 w = w % 2 ^ 8 ∷ w / 2 ^ 8 % 2 ^ 8 ∷ w / 2 ^ 16 % 2 ^ 8 ∷ w / 2 ^ 24 % 2 ^ 8 ∷ []

abbrev pub IsByte : ℕ → Type 0
IsByte b = b < 256

abbrev pub AreBytes : List ℕ → Type 0
AreBytes [] = Unit {0}
AreBytes (b ∷ bs) = IsByte b × AreBytes bs

pub AreBytes-append : (xs ys : List ℕ) → AreBytes xs → AreBytes ys → AreBytes (xs ++ ys)
AreBytes-append [] ys p q = q
AreBytes-append (x ∷ xs) ys p q = (p.0, AreBytes-append xs ys p.1 q)

-- The bytes on either side of a boundary.
pub AreBytes-split : (xs ys : List ℕ) → AreBytes (xs ++ ys) → AreBytes xs × AreBytes ys
AreBytes-split [] ys p = (tt, p)
AreBytes-split (x ∷ xs) ys p = let rest = AreBytes-split xs ys p.1 in ((p.0, rest.0), rest.1)

pub AreBytes-take : (n : ℕ) (xs : List ℕ) → AreBytes xs → AreBytes (take n xs)
AreBytes-take zero xs p = tt
AreBytes-take (suc n) [] p = tt
AreBytes-take (suc n) (x ∷ xs) p = (p.0, AreBytes-take n xs p.1)

pub AreBytes-drop : (n : ℕ) (xs : List ℕ) → AreBytes xs → AreBytes (drop n xs)
AreBytes-drop zero xs p = p
AreBytes-drop (suc n) [] p = tt
AreBytes-drop (suc n) (x ∷ xs) p = AreBytes-drop n xs p.1

pub AreBytes-splice :
    (xs : List ℕ) (i : ℕ) (ys : List ℕ) → AreBytes xs → AreBytes ys → AreBytes (splice xs i ys)
AreBytes-splice [] i ys p q = tt
AreBytes-splice (x ∷ xs) zero [] p q = p
AreBytes-splice (x ∷ xs) zero (y ∷ ys) p q = (q.0, AreBytes-splice xs zero ys p.1 q.1)
AreBytes-splice (x ∷ xs) (suc i) ys p q = (p.0, AreBytes-splice xs i ys p.1 q)

pub AreBytes-zeros : (n : ℕ) → AreBytes (replicate n 0)
AreBytes-zeros zero = tt
AreBytes-zeros (suc n) = (omega arith, AreBytes-zeros n)

pub write16-bytes : (w : ℕ) → AreBytes (write16 w)
write16-bytes w = (omega arith, (omega arith, tt))

pub write32-bytes : (w : ℕ) → AreBytes (write32 w)
write32-bytes w = (omega arith, (omega arith, (omega arith, (omega arith, tt))))
