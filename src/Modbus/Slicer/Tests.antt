-- ===== src/Modbus/Slicer/Tests.antt =====
-- The theorems on the slicer at 9600 baud and the pool as it starts.
use modbus_vault.Base.{ℕ, ◌≡◌, refl, true, List, [], ◌∷◌, ◌++◌, some, none, arith}
use modbus_vault.SlabPool.{Pool, boot, init, slab_at}
use modbus_vault.SlabPool.Chain.{init-boot, init-IsRoomy, upfrom}
use modbus_vault.Modbus.Slicer.{Config, Slicer, Result, frame_ok, feed, feed_all, timeout}
use modbus_vault.Modbus.Slicer.Fill.{contents}
use modbus_vault.Modbus.Slicer.Frames.{frame-assembled, fed_bytes}

abbrev config : Config
config = record { baudrate = 9600; bit_length = 10; has_time_func = true; has_frame_func = true }

abbrev pub slicer : Slicer
slicer = record {
  config = config;
  slab_ptr = none;
  start_timestamp_us = 0;
  last_byte_timestamp_us = 0;
  t3_5_us = 4374;
}

abbrev pub pool : Pool
pool = (init true boot).1

abbrev chunks : List (List ℕ × ℕ)
chunks = (2 ∷ 3 ∷ [], 200) ∷ ([], 300) ∷ (4 ∷ [], 400) ∷ []

frame-assembled_example :
    let run = feed_all slicer pool ((1 ∷ [], 100) ∷ chunks) in
    let cut = timeout run.slicer run.pool in
    (run.frames ≡ [])
    × (cut.frame ≡ some (record { slab_ptr = some 0; timestamp_us = 100; error = frame_ok }))
    × (contents (slab_at cut.pool 0) ≡ 1 ∷ [] ++ fed_bytes chunks)
    × (cut.slicer.slab_ptr ≡ none)
unfolding fed_bytes
frame-assembled_example =
    frame-assembled slicer pool 0 (upfrom 1 31) 1 [] 100 chunks init-boot.1 refl refl
      (init-IsRoomy 0) (omega arith)

abbrev first : Result
first = feed slicer pool (some (1 ∷ [])) 100
