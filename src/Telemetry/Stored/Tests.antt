-- ===== src/Telemetry/Stored/Tests.antt =====
-- A record of two bytes, stored into the small logger.
use modbus_vault.Base.{
  ℕ, ◌≡◌, refl, ap, inl, Bool, true, false, List, [], ◌∷◌, ◌++◌, Option, none, some, arith,
}
use modbus_vault.Base.{esp_ok}
use modbus_vault.Rtos.Bounded.{Bounded, bounded}
use modbus_vault.SlabPool.{Pool, free}
use modbus_vault.Modbus.Analyzer.{AnalyzerFrame}
use modbus_vault.Blackbox.{BbErr, succeeds, State}
use modbus_vault.Blackbox.Entry.{aligned_size, align_num_up}
use modbus_vault.Blackbox.Batch.{Holds}
use modbus_vault.Blackbox.Write.{write}
use modbus_vault.Blackbox.Write.Append.{next_entry}
use modbus_vault.Blackbox.Tests.{flash_driver, logger, logger-Holds, state_of}
use modbus_vault.Telemetry.{Env, System, TelemetryRecord, store}
use modbus_vault.Telemetry.Stored.{IsLog, store-appends}

abbrev LogState : Type 0
LogState = State (List ℕ)

-- What a write returns, with the log as it was where it does not end.
abbrev written : LogState → Option (BbErr × LogState) → Bool × LogState
written w none = (false, w)
written w (some (e, s)) = (succeeds e, s)

abbrev logging : Env LogState
logging = record {
  pack = λ raw now slab. (esp_ok, slab);
  write_log = λ bytes w. written w (write flash_driver true true w (some bytes));
  next_replay = λ callback slab w. (false, slab, w);
  publish = λ topic bytes w. (true, w);
  report = λ stat now w. w;
  lock_free = λ w. (true, w);
}

logging-IsLog : IsLog logging flash_driver
logging-IsLog = record {
  log = λ w. w;
  writes =
      λ bytes w e s returns. (ap (λ o. (written w o).0) returns, ap (λ o. (written w o).1) returns);
}

abbrev one_slab : Pool
one_slab = record {
  slabs = record { buffer = 1 ∷ 2 ∷ 3 ∷ []; length = 2 } ∷ [];
  next = none ∷ [];
  free_list = none;
  has_lock = true;
  is_initialized = true;
}

abbrev logged : TelemetryRecord
logged = record { slab_ptr = 0; timestamp_us = 7 }

abbrev idle : System (Bounded AnalyzerFrame) (Bounded TelemetryRecord) LogState
idle = record {
  pool = one_slab;
  raw_frame_queue = record { items = []; capacity = 32 };
  live_queue = record { items = []; capacity = 16 };
  logging_queue = record { items = []; capacity = 32 };
  is_online_flag = false;
  has_state_lock = true;
  has_record_callback = true;
  has_replay_callback = true;
  world = state_of logger [];
}

store-appends_example :
    ((store bounded bounded logging logged idle).0 ≡ true)
    × Holds
        (logging-IsLog.log (store bounded bounded logging logged idle).1.world).logger
        ([] ++ next_entry logger (1 ∷ 2 ∷ []) ∷ [])
    × ((logging-IsLog.log (store bounded bounded logging logged idle).1.world).flash ≡ [])
    × ((store bounded bounded logging logged idle).1.pool ≡ free one_slab (some 0))
unfolding logging-IsLog aligned_size align_num_up
store-appends_example =
    store-appends bounded bounded logging flash_driver logging-IsLog logged idle [] logger-Holds
      (inl refl) refl (omega arith) (omega arith)
