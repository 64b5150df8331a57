-- ===== src/Blackbox/Recover/Search.antt =====
-- The binary search for the sector that was begun last.
use modbus_vault.Base.{
  ℕ, zero, suc, ◌+◌, ◌-◌, ◌*◌, ◌/◌, ◌≤◌, ◌<◌, ◌≡◌, ◌⊎◌, inl, inr, refl, ap, ◌∙◌, true, List, some,
  arith, esp_ok,
}
use native.Mathlib.Decide.{dec_lt}
use modbus_vault.Base.Words.{u32}
use modbus_vault.Blackbox.{ok, Driver, State, error_map}
use modbus_vault.Blackbox.Entry.{header_magic, header_size, magic_of, id_of}
use modbus_vault.Blackbox.Recover.{
  Probe, newer, older, search_loop, binary_search, probe, can_search, set_parameters, keep_search,
}

module _ {F : Type 0} (driver : Driver F) (look : ℕ → Probe) where
  abbrev middle : ℕ → ℕ → ℕ
  middle low high = low + (high - 1 - low) / 2

  search_end :
      (fuel low high head max_id : ℕ)
      → high ≤ low
      → search_loop driver fuel look low high head max_id ≡ some (ok, head, max_id)
  unfolding search_loop
  search_end zero low high head max_id h = ground arith
  search_end (suc fuel) low high head max_id h = ground arith

  search_newer :
      (fuel low high head max_id id : ℕ)
      → low < high
      → look (middle low high) ≡ newer id
      → search_loop driver (suc fuel) look low high head max_id
        ≡ search_loop driver fuel look (middle low high + 1) high (middle low high) id
  unfolding search_loop
  search_newer fuel low high head max_id id h found = ground (arith, found)

  search_older :
      (fuel low high head max_id : ℕ)
      → low < high
      → look (middle low high) ≡ older
      → search_loop driver (suc fuel) look low high head max_id
        ≡ search_loop driver fuel look low (middle low high) head max_id
  unfolding search_loop
  search_older fuel low high head max_id h found = ground (arith, found)

  module _ (ids : ℕ → ℕ) (k n : ℕ) (run : (j : ℕ) → j < k → look j ≡ newer (ids j))
      (past : (j : ℕ) → k ≤ j → j < n → look j ≡ older) where
    begun : (m : ℕ) → m < k → (m + 1 < k) ⊎ ((suc m ≡ k) × (ids m ≡ ids m))
    begun m h = elim (dec_lt (m + 1) k) [ yes l ↦ inl l | no l ↦ inr (omega arith, refl) ]

    search_loop-finds :
        (fuel low high head max_id : ℕ)
        → low ≤ k
        → k ≤ high
        → high ≤ n
        → high ≤ low + fuel
        → (low < k) ⊎ ((suc head ≡ k) × (max_id ≡ ids head))
        → (j : ℕ) × (suc j ≡ k)
          × (search_loop driver fuel look low high head max_id ≡ some (ok, j, ids j))
    search_loop-finds zero low high head max_id a b c d (inl l) = absurd (omega arith)
    search_loop-finds zero low high head max_id a b c d (inr (e, i)) = (
      head,
      e,
      search_end zero low high head max_id (omega arith) ∙ ap (λ t. some (ok, head, t)) i,
    )
    search_loop-finds (suc fuel) low high head max_id a b c d known = elim (dec_lt low high) [
      | no stop ↦ elim known [
        | inl l ↦ absurd (omega arith)
        | inr (e, i) ↦ (
          head,
          e,
          search_end (suc fuel) low high head max_id (omega arith) ∙ ap (λ t. some (ok, head, t)) i,
        )
      ]
      | yes more ↦ elim (dec_lt (middle low high) k) [
        | yes inside ↦
            let (j, last, eq) =
              search_loop-finds fuel (middle low high + 1) high (middle low high)
                (ids (middle low high)) (omega arith) b c (omega arith)
                (begun (middle low high) inside) in
            (
              j,
              last,
              search_newer fuel low high head max_id (ids (middle low high)) more
                    (run (middle low high) inside)
                  ∙ eq,
            )
        | no outside ↦
            let (j, last, eq) =
              search_loop-finds fuel low (middle low high) head max_id a (omega arith) (omega arith)
                (omega arith) known in
            (
              j,
              last,
              search_older fuel low high head max_id more
                    (past (middle low high) (omega arith) (omega arith))
                  ∙ eq,
            )
      ]
    ]

module _ {F : Type 0} (driver : Driver F) where
  binary_search-loop :
      (s : State F) (bytes : List ℕ)
      → can_search s.logger ≡ true
      → driver.read_func s.flash 0 header_size ≡ (esp_ok, bytes)
      → magic_of bytes ≡ header_magic
      → binary_search driver s
        ≡ keep_search driver s (
            search_loop driver
              (s.logger.config.size / s.logger.config.sector_buf_size)
              (probe driver s (id_of bytes))
              0
              (s.logger.config.size / s.logger.config.sector_buf_size)
              0
              (id_of bytes))
  unfolding binary_search error_map
  binary_search-loop s bytes can first magic = ground (arith, can, first, magic)

  -- Where the log was begun at the first sector, the headers of the first `k` sectors can be read and
  -- have ids from that of the first on, and those of the others can be read and have none, the search
  -- ends, and finds the last of the `k` sectors: the write offset of the parameters is its start, and
  -- their last id is the id at its start.
  pub binary_search-finds :
      (s : State F) (bytes : List ℕ) (ids : ℕ → ℕ) (k : ℕ)
      → can_search s.logger ≡ true
      → driver.read_func s.flash 0 header_size ≡ (esp_ok, bytes)
      → magic_of bytes ≡ header_magic
      → 1 ≤ k
      → k ≤ s.logger.config.size / s.logger.config.sector_buf_size
      → ((j : ℕ) → j < k → probe driver s (id_of bytes) j ≡ newer (ids j))
      → ((j : ℕ)
          → k ≤ j
          → j < s.logger.config.size / s.logger.config.sector_buf_size
          → probe driver s (id_of bytes) j ≡ older)
      → (j : ℕ) × (suc j ≡ k)
        × (binary_search driver s
            ≡ some
                (ok, set_parameters driver s (u32 (j * s.logger.config.sector_buf_size)) (ids j)))
  binary_search-finds s bytes ids k can first magic some_sector inside run past =
      let n = s.logger.config.size / s.logger.config.sector_buf_size in
      let (j, last, eq) =
        search_loop-finds driver (probe driver s (id_of bytes)) ids k n run past n 0 n 0
          (id_of bytes) (omega arith) inside (omega arith) (omega arith) (inl (omega arith)) in
      (j, last, binary_search-loop s bytes can first magic ∙ ap (keep_search driver s) eq)
