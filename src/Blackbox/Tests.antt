-- ===== src/Blackbox/Tests.antt =====
-- A small logger over a flash of 128 bytes in two sectors, for the theorems on the log.
use modbus_vault.Base.{
  ℕ, ◌+◌, ◌≡◌, ◌⊎◌, inl, inr, refl, Bool, true, false, List, [], ◌∷◌, ◌++◌, none, some,
  if◌then◌else◌, ltb, arith, length, take, drop, replicate, splice, esp_ok, esp_err_invalid_size,
}
use modbus_vault.Base.Words.{u32}
use modbus_vault.Crc.{crc16}
use modbus_vault.Blackbox.{
  BbErr, ok, err_no_mem, err_timeout, succeeds, Config, Logger, Driver, State, default_parameters,
  error_map,
}
use modbus_vault.Blackbox.Entry.{aligned_size, align_num_up, header, tail}
use modbus_vault.Blackbox.Entry.Codec.{entry, body}
use modbus_vault.Blackbox.Batch.{LogEntry, Holds}
use modbus_vault.Blackbox.Write.{write, stored, store_entry}
use modbus_vault.Blackbox.Write.Append.{next_entry, stored-Holds, write-appends}
use modbus_vault.Blackbox.Flush.{flush, chunk_size}
use modbus_vault.Blackbox.Flush.Split.{Split}
use modbus_vault.Blackbox.Flush.Chunk.{chunk_size-longest}
use modbus_vault.Blackbox.Flush.Room.{IsSound}
use modbus_vault.Blackbox.Flush.Batch.{flush-drains}
use modbus_vault.Blackbox.Flush.End.{flush-stuck_at_end}
use modbus_vault.Blackbox.Replay.{read, next_replay, has_replay_data}
use modbus_vault.Blackbox.Replay.Progress.{
  Stands, read-entry, next_replay-entry, next_replay-drops_backlog,
}

abbrev pub config : Config
config = record {
  size = 128;
  address_align = 4;
  sector_buf_size = 64;
  batch_buf_size = 64;
  writes_over = true;
  has_partition = true;
  has_sector_buf = true;
  has_batch_buf = true;
  has_write_func = true;
  has_read_func = true;
  has_erase_func = true;
  has_replay_func = true;
}

abbrev pub logger : Logger
logger = record {
  has_config = true;
  config = config;
  parameters = default_parameters;
  write_offset = 0;
  replay_offset = 0;
  last_id = 0;
  last_erased_sector = none;
  batch_len = 0;
  batch_buf = replicate 64 0;
  sector_buf = replicate 64 0;
  has_sector_lock = true;
  has_write_lock = true;
  has_timer = true;
  timer_runs = false;
}

-- A flash of 128 bytes that refuses what does not lie within it.
abbrev pub flash_driver : Driver (List ℕ)
flash_driver = record {
  read_func = λ flash at size.
      if ltb 128 (at + size)
      then (esp_err_invalid_size, [])
      else (esp_ok, take size (drop at flash));
  write_func = λ flash at bytes.
      if ltb 128 (at + length bytes)
      then (esp_err_invalid_size, flash)
      else (esp_ok, splice flash at bytes);
  erase_func = λ flash at size.
      if ltb 128 (at + size)
      then (esp_err_invalid_size, flash)
      else (esp_ok, splice flash at (replicate size 255));
}

abbrev pub state_of : Logger → List ℕ → State (List ℕ)
state_of l flash = record { logger = l; flash = flash; notified = 0 }

pub logger-Holds : Holds logger []
logger-Holds = record { entries = refl; buffer = refl; inside = omega arith; small = omega arith }

abbrev logged : Logger
logged = stored logger (1 ∷ 2 ∷ [])

logged-Holds : Holds logged (record { id = 1; bytes = 1 ∷ 2 ∷ [] } ∷ [])
unfolding aligned_size align_num_up
logged-Holds =
    stored-Holds logger [] (1 ∷ 2 ∷ []) logger-Holds (inl refl) (omega arith) (omega arith)

config-IsSound : IsSound config
config-IsSound = record {
  sector = omega arith;
  sector_small = omega arith;
  small = omega arith;
  align = inl refl;
}

write-appends_example :
    (s' : State (List ℕ)) × (write flash_driver true true
        (state_of logger (replicate 128 255))
        (some (1 ∷ 2 ∷ []))
      ≡ some (ok, s'))
    × Holds s'.logger ([] ++ next_entry logger (1 ∷ 2 ∷ []) ∷ [])
    × (s'.logger.last_id ≡ u32 (0 + 1))
    × (s'.logger.timer_runs ≡ true)
    × (s'.flash ≡ replicate 128 255)
unfolding aligned_size align_num_up
write-appends_example =
    write-appends flash_driver true (state_of logger (replicate 128 255)) [] (1 ∷ 2 ∷ [])
      logger-Holds (inl refl) refl (omega arith) (omega arith)

flush-drains_example :
    (e : BbErr) × (s' : State (List ℕ)) × (front : List LogEntry) × (back : List LogEntry) × (flush
        flash_driver true
        (state_of logged (replicate 128 0))
      ≡ some (e, s'))
    × (record { id = 1; bytes = 1 ∷ 2 ∷ [] } ∷ [] ≡ front ++ back)
    × Holds s'.logger back
    × ((succeeds e ≡ false) ⊎ (back ≡ []))
    × (s'.logger.config ≡ logged.config)
unfolding stored aligned_size align_num_up
flush-drains_example =
    flush-drains flash_driver (state_of logged (replicate 128 0))
      (record { id = 1; bytes = 1 ∷ 2 ∷ [] } ∷ []) refl logged-Holds config-IsSound (omega arith)

chunk_size-longest_example :
    Split 4
      (record { id = 1; bytes = 1 ∷ 2 ∷ [] } ∷ [])
      (take 20 logged.batch_buf)
      64
      (chunk_size (take 20 logged.batch_buf ++ 9 ∷ []) (length (take 20 logged.batch_buf)) 64 4)
unfolding stored aligned_size align_num_up store_entry header tail crc16
chunk_size-longest_example =
    chunk_size-longest 4 (record { id = 1; bytes = 1 ∷ 2 ∷ [] } ∷ []) (take 20 logged.batch_buf)
      (9 ∷ []) 64 (inl refl) logged-Holds.entries (omega arith) (omega arith)

abbrev flushed : List ℕ
flushed = (entry 7 (1 ∷ 2 ∷ []) ++ replicate 44 255) ++ replicate 64 255

abbrev replaying : Logger
replaying = record logger { write_offset = 20 }

read-entry_example :
    ((read flash_driver true (state_of replaying flushed) 0 16).err
      ≡ (if ltb 16 2 then err_no_mem else ok))
    × ((read flash_driver true (state_of replaying flushed) 0 16).entry
        ≡ (if ltb 16 2 then none else some (1 ∷ 2 ∷ [])))
unfolding entry body header tail
read-entry_example =
    read-entry flash_driver (state_of replaying flushed) 0 16 7 (1 ∷ 2 ∷ []) (replicate 44 255) refl
      refl refl (omega arith) (omega arith) (omega arith, (omega arith, tt))

-- A callback that keeps what it is handed.
abbrev keep : List (List ℕ) → List ℕ → Bool × List (List ℕ)
keep w bytes = (true, bytes ∷ w)

flushed-Stands :
    Stands flash_driver (state_of replaying flushed) 0 7 (1 ∷ 2 ∷ []) (replicate 44 255)
unfolding entry body header tail
flushed-Stands = record {
  can = refl;
  flash = refl;
  whole = refl;
  fits = omega arith;
  small = omega arith;
  are = (omega arith, (omega arith, tt));
}

next_replay-entry_example :
    ((next_replay flash_driver keep true (state_of replaying flushed) [] 16).0 ≡ ok)
    × ((next_replay flash_driver keep true (state_of replaying flushed) [] 16).2
        ≡ (1 ∷ 2 ∷ []) ∷ [])
    × ((next_replay flash_driver keep true
          (state_of replaying flushed)
          []
          16).1.logger.replay_offset
        ≡ u32 (0 + aligned_size 2 4))
    × ((next_replay flash_driver keep true (state_of replaying flushed) [] 16).1.logger.write_offset
        ≡ 20)
next_replay-entry_example =
    next_replay-entry flash_driver keep (state_of replaying flushed) [] 16 7 (1 ∷ 2 ∷ [])
      (replicate 44 255) refl flushed-Stands (omega arith)

next_replay-drops_backlog_example :
    (has_replay_data (next_replay flash_driver keep true (state_of replaying flushed) [] 1).1.logger
      ≡ false)
    × ((next_replay flash_driver keep true (state_of replaying flushed) [] 1).0
        ≡ (if true then err_no_mem else err_timeout))
    × ((next_replay flash_driver keep true (state_of replaying flushed) [] 1).2 ≡ [])
next_replay-drops_backlog_example =
    next_replay-drops_backlog flash_driver keep true (state_of replaying flushed) [] 1 7
      (1 ∷ 2 ∷ []) (replicate 44 255) refl flushed-Stands (inr (omega arith))

abbrev at_end : Logger
at_end = record logged { write_offset = 128; last_erased_sector = some 1 }

at_end-Holds : Holds at_end (record { id = 1; bytes = 1 ∷ 2 ∷ [] } ∷ [])
unfolding stored
at_end-Holds = record {
  entries = logged-Holds.entries;
  buffer = logged-Holds.buffer;
  inside = logged-Holds.inside;
  small = logged-Holds.small;
}

flush-stuck_at_end_example :
    (e : BbErr) × (s' : State (List ℕ)) × (flush flash_driver true
        (state_of at_end (replicate 128 0))
      ≡ some (e, s'))
    × (succeeds e ≡ false)
    × (s'.logger.write_offset ≡ 128)
    × (s'.logger.replay_offset ≡ at_end.replay_offset)
    × (s'.logger.batch_len ≡ at_end.batch_len)
    × Holds s'.logger (record { id = 1; bytes = 1 ∷ 2 ∷ [] } ∷ [])
unfolding stored aligned_size align_num_up error_map
flush-stuck_at_end_example =
    flush-stuck_at_end flash_driver (state_of at_end (replicate 128 0))
      (record { id = 1; bytes = 1 ∷ 2 ∷ [] } ∷ []) 2 refl at_end-Holds config-IsSound refl refl
      (omega arith) (λ flash bytes h. ground arith)
