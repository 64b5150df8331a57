-- ===== src/Blackbox/Recover/Tests.antt =====
-- The recovery of a log with one entry in the first of two sectors.
use modbus_vault.Base.{
  ℕ, suc, ◌*◌, ◌≡◌, refl, subst, List, ◌++◌, [], ◌∷◌, take, replicate, some, arith,
}
use modbus_vault.Base.Words.{u32}
use modbus_vault.Blackbox.{ok, State, error_map}
use modbus_vault.Blackbox.Entry.{header, tail, id_of}
use modbus_vault.Blackbox.Entry.Codec.{entry, body}
use modbus_vault.Blackbox.Recover.{newer, older, probe, probe_header, binary_search, set_parameters}
use modbus_vault.Blackbox.Recover.Search.{binary_search-finds}
use modbus_vault.Blackbox.Tests.{logger, flash_driver, state_of}

abbrev flushed : List ℕ
flushed = (entry 7 (1 ∷ 2 ∷ []) ++ replicate 44 255) ++ replicate 64 255

abbrev state : State (List ℕ)
state = state_of logger flushed

probe-first : probe flash_driver state (id_of (take 12 flushed)) 0 ≡ newer 7
unfolding probe probe_header entry body header tail error_map
probe-first = refl

probe-second : probe flash_driver state (id_of (take 12 flushed)) 1 ≡ older
unfolding probe probe_header entry body header tail error_map
probe-second = refl

binary_search-finds_example :
    (j : ℕ) × (suc j ≡ 1)
    × (binary_search flash_driver state
        ≡ some (ok, set_parameters flash_driver state (u32 (j * 64)) 7))
unfolding entry body header
binary_search-finds_example =
    binary_search-finds flash_driver state (take 12 flushed) (λ j. 7) 1 refl refl refl (omega arith)
      (omega arith)
      (λ j h.
        subst (λ i. probe flash_driver state (id_of (take 12 flushed)) i ≡ newer 7)
          (omega (arith, h)) probe-first)
      (λ j h h'.
        subst (λ i. probe flash_driver state (id_of (take 12 flushed)) i ≡ older)
          (omega (arith, h, h')) probe-second)
