-- ===== src/Base/Lists.antt =====
-- C arrays as lists, measured and indexed by native numbers, under the library's names.
use Prim.Native.Nat.{ℕ, zero, suc, ◌+◌, ◌-◌, ◌≤◌, ◌<◌, min}
use mathlib.Core.Path.{◌≡◌, refl, sym, ap, ◌∙◌}
use mathlib.Core.Logic.{◌≢◌, ◌↔◌, ◌⊎◌, inl, inr}
use mathlib.Core.List.{List, [], ◌∷◌, ◌++◌}
use mathlib.Core.Option.{Option, none, some}
use native.Mathlib.Omega.{arith}
use native.Mathlib.Nat.{zero-add}

module _ {ℓ} {A : Type ℓ} where
  abbrev pub length : List A → ℕ
  length [] = 0
  length (x ∷ xs) = suc (length xs)

  abbrev pub get_elem? : List A → ℕ → Option A
  get_elem? [] i = none
  get_elem? (x ∷ xs) zero = some x
  get_elem? (x ∷ xs) (suc i) = get_elem? xs i

  abbrev pub get_or : List A → ℕ → A → A
  get_or [] i d = d
  get_or (x ∷ xs) zero d = x
  get_or (x ∷ xs) (suc i) d = get_or xs i d

  -- A write out of bounds changes nothing.
  abbrev pub set : List A → ℕ → A → List A
  set [] i v = []
  set (x ∷ xs) zero v = v ∷ xs
  set (x ∷ xs) (suc i) v = x ∷ set xs i v

  abbrev pub take : ℕ → List A → List A
  take zero xs = []
  take (suc n) [] = []
  take (suc n) (x ∷ xs) = x ∷ take n xs

  abbrev pub drop : ℕ → List A → List A
  drop zero xs = xs
  drop (suc n) [] = []
  drop (suc n) (x ∷ xs) = drop n xs

  abbrev pub replicate : ℕ → A → List A
  replicate zero a = []
  replicate (suc n) a = a ∷ replicate n a

module _ {ℓ} {A : Type ℓ} where
  pub length-append : (xs ys : List A) → length (xs ++ ys) ≡ length xs + length ys
  length-append [] ys = omega arith
  length-append (x ∷ xs) ys = omega (arith, length-append xs ys)

  pub length-set : (xs : List A) (i : ℕ) (v : A) → length (set xs i v) ≡ length xs
  length-set [] i v = refl
  length-set (x ∷ xs) zero v = refl
  length-set (x ∷ xs) (suc i) v = ap suc (length-set xs i v)

  pub get_or-set_self :
      (xs : List A) (i : ℕ) (v d : A) → i < length xs → get_or (set xs i v) i d ≡ v
  get_or-set_self [] i v d h = absurd (omega arith)
  get_or-set_self (x ∷ xs) zero v d h = refl
  get_or-set_self (x ∷ xs) (suc i) v d h = get_or-set_self xs i v d (omega arith)

  pub get_or-set_ne :
      (xs : List A) (i j : ℕ) (v d : A) → i ≢ j → get_or (set xs i v) j d ≡ get_or xs j d
  get_or-set_ne [] i j v d h = refl
  get_or-set_ne (x ∷ xs) zero zero v d h = absurd (h refl)
  get_or-set_ne (x ∷ xs) zero (suc j) v d h = refl
  get_or-set_ne (x ∷ xs) (suc i) zero v d h = refl
  get_or-set_ne (x ∷ xs) (suc i) (suc j) v d h = get_or-set_ne xs i j v d (λ e. h (ap suc e))

  pub take-append-drop : (n : ℕ) (xs : List A) → take n xs ++ drop n xs ≡ xs
  take-append-drop zero xs = refl
  take-append-drop (suc n) [] = refl
  take-append-drop (suc n) (x ∷ xs) = rw (take-append-drop n xs)

  pub length-take : (n : ℕ) (xs : List A) → length (take n xs) ≡ min n (length xs)
  length-take zero xs = omega arith
  length-take (suc n) [] = omega arith
  length-take (suc n) (x ∷ xs) = omega (arith, length-take n xs)

  pub length-drop : (n : ℕ) (xs : List A) → length (drop n xs) ≡ length xs - n
  length-drop zero xs = omega arith
  length-drop (suc n) [] = omega arith
  length-drop (suc n) (x ∷ xs) = omega (arith, length-drop n xs)

  pub length-replicate : (n : ℕ) (a : A) → length (replicate n a) ≡ n
  length-replicate zero a = refl
  length-replicate (suc n) a = ap suc (length-replicate n a)

  -- The head of an append, taken and dropped by its own length.
  pub take-append : (xs ys : List A) → take (length xs) (xs ++ ys) ≡ xs
  take-append [] ys = refl
  take-append (x ∷ xs) ys = ap (◌∷◌ x) (take-append xs ys)

  pub drop-append : (xs ys : List A) → drop (length xs) (xs ++ ys) ≡ ys
  drop-append [] ys = refl
  drop-append (x ∷ xs) ys = drop-append xs ys

  -- A read past the head of an append is a read of its tail.
  pub get_or-append_right :
      (xs ys : List A) (i : ℕ) (d : A) → get_or (xs ++ ys) (length xs + i) d ≡ get_or ys i d
  get_or-append_right [] ys i d = ap (λ k. get_or ys k d) (omega arith)
  get_or-append_right (x ∷ xs) ys i d =
      ap (λ k. get_or (x ∷ xs ++ ys) k d) (to_suc (length xs)) ∙ get_or-append_right xs ys i d
    where
      to_suc : (n : ℕ) → suc n + i ≡ suc (n + i)
      to_suc n = omega arith

module _ {ℓ} {A : Type ℓ} where
  -- `memcpy` to position `i` of an array: the bytes that fall past its end are not written.
  abbrev pub splice : List A → ℕ → List A → List A
  splice [] i ys = []
  splice (x ∷ xs) zero [] = x ∷ xs
  splice (x ∷ xs) zero (y ∷ ys) = y ∷ splice xs zero ys
  splice (x ∷ xs) (suc i) ys = x ∷ splice xs i ys

  pub length-splice : (xs : List A) (i : ℕ) (ys : List A) → length (splice xs i ys) ≡ length xs
  length-splice [] i ys = refl
  length-splice (x ∷ xs) zero [] = refl
  length-splice (x ∷ xs) zero (y ∷ ys) = ap suc (length-splice xs zero ys)
  length-splice (x ∷ xs) (suc i) ys = ap suc (length-splice xs i ys)

  -- What stands before the written range stays, and the range holds what was written.
  pub take-splice :
      (xs : List A) (i : ℕ) (ys : List A)
      → i + length ys ≤ length xs
      → take (i + length ys) (splice xs i ys) ≡ take i xs ++ ys
  take-splice [] zero [] h = refl
  take-splice [] zero (y ∷ ys) h = absurd (omega arith)
  take-splice [] (suc i) ys h = absurd (omega arith)
  take-splice (x ∷ xs) zero [] h = refl
  take-splice (x ∷ xs) zero (y ∷ ys) h =
      rw (zero-add (suc (length ys)))
        (ap (◌∷◌ y) (rw (zero-add (length ys)) at (take-splice xs zero ys (omega arith))))
  take-splice (x ∷ xs) (suc i) ys h =
      ap (λ k. take k (x ∷ splice xs i ys)) carry ∙ ap (◌∷◌ x) (take-splice xs i ys (omega arith))
    where
      carry : suc i + length ys ≡ suc (i + length ys)
      carry = omega arith

  pub take-splice_before :
      (xs : List A) (i j : ℕ) (ys : List A) → j ≤ i → take j (splice xs i ys) ≡ take j xs
  take-splice_before xs i zero ys h = refl
  take-splice_before [] i (suc j) ys h = refl
  take-splice_before (x ∷ xs) zero (suc j) ys h = absurd (omega arith)
  take-splice_before (x ∷ xs) (suc i) (suc j) ys h =
      ap (◌∷◌ x) (take-splice_before xs i j ys (omega arith))

  pub take-zero-append : (xs : List A) → take 0 xs ++ xs ≡ xs
  take-zero-append xs = refl

-- A read after a write gives what was written or what was there.
pub get_or-set_cases {ℓ} :
    {A : Type ℓ} (xs : List A) (i j : ℕ) (v d : A)
    → (get_or (set xs i v) j d ≡ v) ⊎ (get_or (set xs i v) j d ≡ get_or xs j d)
get_or-set_cases [] i j v d = inr refl
get_or-set_cases (x ∷ xs) zero zero v d = inl refl
get_or-set_cases (x ∷ xs) zero (suc j) v d = inr refl
get_or-set_cases (x ∷ xs) (suc i) zero v d = inr refl
get_or-set_cases (x ∷ xs) (suc i) (suc j) v d = get_or-set_cases xs i j v d

-- No entry of the list is `a`; no two entries are equal.
abbrev pub NotIn : ℕ → List ℕ → Type 0
NotIn a [] = Unit {0}
NotIn a (x ∷ xs) = (a ≢ x) × NotIn a xs

abbrev pub Distinct : List ℕ → Type 0
Distinct [] = Unit {0}
Distinct (x ∷ xs) = NotIn x xs × Distinct xs

pub NotIn-append : (a : ℕ) (xs ys : List ℕ) → NotIn a (xs ++ ys) ↔ (NotIn a xs × NotIn a ys)
NotIn-append a [] ys = (λ h. (tt, h), λ h. h.1)
NotIn-append a (x ∷ xs) ys = (
  λ h. let p = (NotIn-append a xs ys).0 h.1 in ((h.0, p.0), p.1),
  λ h. (h.0.0, (NotIn-append a xs ys).1 (h.0.1, h.1)),
)

middle_step :
    (i x : ℕ) (xs ys : List ℕ)
    → Distinct (xs ++ i ∷ ys) ↔ (NotIn i (xs ++ ys) × Distinct (xs ++ ys))
    → Distinct (x ∷ xs ++ i ∷ ys) ↔ (NotIn i (x ∷ xs ++ ys) × Distinct (x ∷ xs ++ ys))
middle_step i x xs ys rest = (front, back)
  where
    front : Distinct (x ∷ xs ++ i ∷ ys) → NotIn i (x ∷ xs ++ ys) × Distinct (x ∷ xs ++ ys)
    front h =
        let p = (NotIn-append x xs (i ∷ ys)).0 h.0 in
        let q = rest.0 h.1 in
        (((λ e. p.1.0 (sym e)), q.0), ((NotIn-append x xs ys).1 (p.0, p.1.1), q.1))

    back : NotIn i (x ∷ xs ++ ys) × Distinct (x ∷ xs ++ ys) → Distinct (x ∷ xs ++ i ∷ ys)
    back h =
        let p = (NotIn-append x xs ys).0 h.1.0 in
        ((NotIn-append x xs (i ∷ ys)).1 (p.0, ((λ e. h.0.0 (sym e)), p.1)), rest.1 (h.0.1, h.1.1))

-- An entry may be moved to the front and back.
pub Distinct-middle :
    (i : ℕ) (xs ys : List ℕ) → Distinct (xs ++ i ∷ ys) ↔ (NotIn i (xs ++ ys) × Distinct (xs ++ ys))
Distinct-middle i [] ys = (λ h. h, λ h. h)
Distinct-middle i (x ∷ xs) ys = middle_step i x xs ys (Distinct-middle i xs ys)

module _ {ℓ} {A : Type ℓ} where
  drop-nil : (n : ℕ) → drop {A = A} n [] ≡ []
  drop-nil zero = refl
  drop-nil (suc n) = refl

  pub drop-add : (n m : ℕ) (xs : List A) → drop (n + m) xs ≡ drop m (drop n xs)
  drop-add zero m xs = ap (λ k. drop k xs) (zero-add m)
  drop-add (suc n) m [] = drop-nil (suc n + m) ∙ sym (drop-nil m)
  drop-add (suc n) m (x ∷ xs) = ap (λ k. drop k (x ∷ xs)) (carry n m) ∙ drop-add n m xs
    where
      carry : (a b : ℕ) → suc a + b ≡ suc (a + b)
      carry a b = omega arith

  -- What stands behind the written range stays.
  pub drop-splice :
      (xs : List A) (i : ℕ) (ys : List A)
      → i + length ys ≤ length xs
      → drop i (splice xs i ys) ≡ ys ++ drop (i + length ys) xs
  drop-splice [] zero [] h = refl
  drop-splice [] zero (y ∷ ys) h = absurd (omega arith)
  drop-splice [] (suc i) ys h = absurd (omega arith)
  drop-splice (x ∷ xs) zero [] h = refl
  drop-splice (x ∷ xs) zero (y ∷ ys) h =
      ap (◌∷◌ y)
        (drop-splice xs zero ys (omega arith) ∙ ap (λ k. ys ++ drop k xs) (zero-add (length ys)))
      ∙ ap (λ k. y ∷ ys ++ drop k (x ∷ xs)) (sym (zero-add (suc (length ys))))
  drop-splice (x ∷ xs) (suc i) ys h =
      drop-splice xs i ys (omega arith) ∙ ap (λ k. ys ++ drop k (x ∷ xs)) carry
    where
      carry : suc (i + length ys) ≡ suc i + length ys
      carry = omega arith

  -- A copy to the start of an array stands before what it did not reach.
  pub splice-front :
      (xs ys : List A) → length ys ≤ length xs → splice xs 0 ys ≡ ys ++ drop (length ys) xs
  splice-front xs ys h =
      drop-splice xs 0 ys (omega arith) ∙ ap (λ k. ys ++ drop k xs) (zero-add (length ys))

  -- A write that ends before position `k` leaves what stands from there on.
  pub drop-splice_behind :
      (xs : List A) (i : ℕ) (ys : List A) (k : ℕ)
      → i + length ys ≤ k
      → drop k (splice xs i ys) ≡ drop k xs
  drop-splice_behind [] i ys k h = refl
  drop-splice_behind (x ∷ xs) zero [] k h = refl
  drop-splice_behind (x ∷ xs) zero (y ∷ ys) zero h = absurd (omega arith)
  drop-splice_behind (x ∷ xs) zero (y ∷ ys) (suc k) h =
      drop-splice_behind xs zero ys k (omega arith)
  drop-splice_behind (x ∷ xs) (suc i) ys zero h = absurd (omega arith)
  drop-splice_behind (x ∷ xs) (suc i) ys (suc k) h = drop-splice_behind xs i ys k (omega arith)

  take-nil : (m : ℕ) → take {A = A} m [] ≡ []
  take-nil zero = refl
  take-nil (suc m) = refl

  pub drop-take : (n m : ℕ) (xs : List A) → drop n (take (n + m) xs) ≡ take m (drop n xs)
  drop-take zero m xs = ap (λ k. take k xs) (zero-add m)
  drop-take (suc n) m [] = ap (drop (suc n)) (take-nil (suc n + m)) ∙ sym (take-nil m)
  drop-take (suc n) m (x ∷ xs) =
      ap (λ k. drop (suc n) (take k (x ∷ xs))) (carry n m) ∙ drop-take n m xs
    where
      carry : (a b : ℕ) → suc a + b ≡ suc (a + b)
      carry a b = omega arith
