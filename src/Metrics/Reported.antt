-- ===== src/Metrics/Reported.antt =====
-- What components/metrics/metrics.c counts: each statistic by the callback's calls; and, behind the
-- event bus as it is initialised, something else.
use modbus_vault.Base.{
  ℕ, zero, suc, ◌+◌, ◌^◌, ◌≤◌, ◌<◌, ◌≡◌, inl, inr, refl, ◌∙◌, true, List, [], ◌∷◌, some,
  if◌then◌else◌, ==_self, ◌==◌, Bool-cases, arith, length, get_or, take, length-set,
  get_or-set_self, get_or-set_ne, lt→ltb,
}
use modbus_vault.Base.Counts.{occurrences}
use modbus_vault.Base.Words.{u32}
use modbus_vault.Base.{esp_ok}
use modbus_vault.Metrics.{stat_max}
use modbus_vault.Metrics.Counters.{increment, reset_all, reset_below, get_snapshot}

-- The callbacks for a run of statistics, one after the other.
abbrev pub count_all : List ℕ → List ℕ → List ℕ
count_all [] counters = counters
count_all (stat ∷ stats) counters = count_all stats (increment stat counters)

length-increment :
    (stat : ℕ) (counters : List ℕ) → length (increment stat counters) ≡ length counters
unfolding increment
length-increment stat counters =
    ground (arith, length-set counters stat (u32 (get_or counters stat 0 + 1)))

get_or-increment :
    (i stat : ℕ) (counters : List ℕ)
    → length counters ≡ stat_max
    → i < stat_max
    → get_or (increment stat counters) i 0
      ≡ (if stat == i then u32 (get_or counters i 0 + 1) else get_or counters i 0)
unfolding increment
get_or-increment i stat counters full inside = elim (Bool-cases (stat == i)) [
  | inl same ↦
      let e : stat ≡ i = ground (arith, same) in
      rw (e, lt→ltb i stat_max inside, ==_self i)
        (get_or-set_self counters i (u32 (get_or counters i 0 + 1)) 0 (omega arith))
  | inr apart ↦ ground (
    arith,
    apart,
    get_or-set_ne counters stat i (u32 (get_or counters stat 0 + 1)) 0
        (λ e. ground (arith, e, apart)),
  )
]

count_all-counts :
    (i : ℕ) (stats counters : List ℕ)
    → length counters ≡ stat_max
    → i < stat_max
    → get_or counters i 0 < 2 ^ 32
    → get_or (count_all stats counters) i 0 ≡ u32 (get_or counters i 0 + occurrences i stats)
count_all-counts i [] counters full inside small = omega arith
count_all-counts i (s ∷ stats) counters full inside small = ground (
  arith,
  count_all-counts i stats (increment s counters) (length-increment s counters ∙ full) inside
      (ground (arith, get_or-increment i s counters full inside)),
  get_or-increment i s counters full inside,
)

length-reset : (idx : ℕ) (counters : List ℕ) → length (reset_below idx counters) ≡ length counters
unfolding reset_below
length-reset zero counters = refl
length-reset (suc idx) counters =
    length-set (reset_below idx counters) idx 0 ∙ length-reset idx counters

get_or-reset :
    (idx i : ℕ) (counters : List ℕ)
    → length counters ≡ stat_max
    → idx ≤ stat_max
    → i < idx
    → get_or (reset_below idx counters) i 0 ≡ 0
unfolding reset_below
get_or-reset zero i counters full inside h = absurd (omega arith)
get_or-reset (suc idx) i counters full inside h = elim (Bool-cases (idx == i)) [
  | inl same ↦
      let e : idx ≡ i = ground (arith, same) in
      rw e (get_or-set_self (reset_below i counters) i 0 0 (omega (arith, length-reset i counters)))
  | inr apart ↦
      get_or-set_ne (reset_below idx counters) idx i 0 0 (λ e. ground (arith, e, apart))
      ∙ get_or-reset idx i counters full (omega arith) (ground (arith, apart))
]

get_or-take : (n i : ℕ) (xs : List ℕ) → i < n → get_or (take n xs) i 0 ≡ get_or xs i 0
get_or-take zero i xs h = absurd (omega arith)
get_or-take (suc n) i [] h = refl
get_or-take (suc n) zero (x ∷ xs) h = refl
get_or-take (suc n) (suc i) (x ∷ xs) h = get_or-take n i xs (omega arith)

-- After a reset and any run of callbacks a snapshot into 28 bytes or more holds, for each
-- statistic, how often it was reported, modulo 2 ^ 32.
pub snapshot-counts :
    (counters stats : List ℕ) (buf_length i : ℕ)
    → length counters ≡ stat_max
    → 28 ≤ buf_length
    → i < stat_max
    → (copy : List ℕ) × (get_snapshot true buf_length (count_all stats (reset_all counters))
        ≡ (esp_ok, some (copy, 28)))
      × (get_or copy i 0 ≡ u32 (occurrences i stats))
unfolding get_snapshot reset_all
snapshot-counts counters stats buf_length i full wide inside = (
  take stat_max (count_all stats (reset_all counters)),
  ground arith,
  get_or-take stat_max i (count_all stats (reset_all counters)) inside
      ∙ omega (
        arith,
        count_all-counts i stats (reset_below stat_max counters)
            (length-reset stat_max counters ∙ full) inside (omega (arith, cleared)),
        cleared,
      ),
)
  where
    cleared : get_or (reset_below stat_max counters) i 0 ≡ 0
    cleared = get_or-reset stat_max i counters full (omega arith) inside
