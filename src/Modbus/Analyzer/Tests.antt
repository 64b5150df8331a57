-- ===== src/Modbus/Analyzer/Tests.antt =====
-- The theorems on the analyzer with the pool as it starts.
use modbus_vault.Base.{
  ℕ, zero, suc, ◌%◌, ◌/◌, ◌≡◌, refl, true, List, [], ◌∷◌, ◌++◌, some, none, arith,
}
use modbus_vault.Base.{esp_err_invalid_crc}
use modbus_vault.Crc.{crc16}
use modbus_vault.Metrics.{modbus_no_mem_errors}
use modbus_vault.SlabPool.Chain.{init-boot, init-IsRoomy, upfrom, IsFree}
use modbus_vault.Modbus.Parser.{check_crc}
use modbus_vault.Modbus.Slicer.Tests.{slicer, pool}
use modbus_vault.Modbus.Analyzer.{Analyzer, handle_event, frame_bytes}
use modbus_vault.Modbus.Analyzer.Delivery.{frame_event, handle_event-valid_frame}
use modbus_vault.Modbus.Analyzer.Leak.{IsBad, IsIdle, AreBad, handle_events, bad_frames-starve}

abbrev analyzer : Analyzer
analyzer = record { slicer = slicer; pool = pool; published = []; handed = []; has_frame_cb = true }

handle_event-valid_frame_example :
    let frame = 1 ∷ 3 ∷ [] ++ crc16 (1 ∷ 3 ∷ []) % 256 ∷ crc16 (1 ∷ 3 ∷ []) / 256 ∷ [] in
    let a' = handle_event analyzer (frame_event frame 100) in
    (a'.handed ≡ record { slab_ptr = 0; timestamp_us = 100 } ∷ [])
    × (frame_bytes a'.pool 0 ≡ frame)
    × (a'.published ≡ [])
    × (a'.slicer.slab_ptr ≡ none)
    × IsFree a'.pool (upfrom 1 31)
handle_event-valid_frame_example =
    handle_event-valid_frame analyzer 0 (upfrom 1 31) 1 (3 ∷ []) 100 init-boot.1 init-IsRoomy refl
      refl refl (omega arith, (omega arith, tt)) (omega arith) (omega arith)

-- A frame of four bytes with a wrong CRC, as often as there are slabs.
abbrev bad : List ℕ
bad = 1 ∷ 3 ∷ 0 ∷ 0 ∷ []

bad-IsBad : IsBad bad
unfolding check_crc crc16
bad-IsBad = record { not_empty = omega arith; small = omega arith; refused = refused }
  where
    refused : check_crc (some bad) ≡ esp_err_invalid_crc
    refused = refl

abbrev repeat : ℕ → List (List ℕ × ℕ)
repeat zero = []
repeat (suc n) = (bad, 100) ∷ repeat n

repeat-AreBad : (n : ℕ) → AreBad (repeat n)
repeat-AreBad zero = tt
repeat-AreBad (suc n) = (bad-IsBad, repeat-AreBad n)

analyzer-IsIdle : IsIdle analyzer (upfrom 0 32)
analyzer-IsIdle = record {
  idle = refl;
  callback = refl;
  free_nodes = init-boot.1;
  roomy = init-IsRoomy;
}

bad_frames-starve_example :
    let a1 = handle_events analyzer (repeat 32) in
    let a2 = handle_event a1 (frame_event (1 ∷ 3 ∷ []) 200) in
    IsIdle a2 []
    × (a2.handed ≡ [])
    × (a2.published
        ≡ a1.published ++ record { stat = modbus_no_mem_errors; timestamp_us = 200 } ∷ [])
bad_frames-starve_example =
    bad_frames-starve analyzer (upfrom 0 32) (repeat 32) 1 (3 ∷ []) 200 analyzer-IsIdle refl
      (repeat-AreBad 32)
