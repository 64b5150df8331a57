-- ===== src/Telemetry/Tests.antt =====
-- Runs of the telemetry path on small queues.
use modbus_vault.Base.{ℕ, ◌+◌, ◌≡◌, ◌⊎◌, refl, true, false, List, [], ◌∷◌, ◌++◌, some, arith}
use modbus_vault.Base.{esp_ok}
use modbus_vault.Base.Counts.{occurrences}
use modbus_vault.Rtos.Bounded.{Bounded, bounded, bounded-IsQueue}
use modbus_vault.SlabPool.{Pool, init, boot, alloc, take_node, link_nodes}
use modbus_vault.SlabPool.Ownership.{start-IsPartition}
use modbus_vault.SlabPool.Books.{one, Books, Books-same, Books-alloc}
use modbus_vault.Modbus.Analyzer.{AnalyzerFrame}
use modbus_vault.Telemetry.{Env, System, TelemetryRecord, pipeline_round, logger_round}
use modbus_vault.Telemetry.Ledger.{Accounts, queued}
use modbus_vault.Telemetry.Pipeline.{IsJammed, pipeline_round-Passed}
use modbus_vault.Telemetry.Services.{logged, logger_round-loses_third}
use modbus_vault.Telemetry.Steps.{Shop, starts}
use modbus_vault.Telemetry.Conservation.{alloc-in_no_queue}

-- A world that keeps the logs.
abbrev keeper : Env (List (List ℕ))
keeper = record {
  pack = λ raw now slab. (esp_ok, slab);
  write_log = λ bytes w. (true, w ++ bytes ∷ []);
  next_replay = λ callback slab w. (false, slab, w);
  publish = λ topic bytes w. (true, w);
  report = λ stat now w. w;
  lock_free = λ w. (true, w);
}

-- The pool with so many slabs allocated.
abbrev fresh : Pool
fresh = (init true boot).1

abbrev pool1 : Pool
pool1 = (alloc fresh).1

abbrev pool2 : Pool
pool2 = (alloc pool1).1

abbrev pool3 : Pool
pool3 = (alloc pool2).1

abbrev nobody : ℕ → ℕ
nobody i = 0

fresh-Books : Books fresh nobody
fresh-Books = record { held = []; partition = start-IsPartition; counts = λ i. refl }

pool3-Books : Books pool3 (λ i. one 2 i + (one 1 i + (one 0 i + 0)))
unfolding alloc take_node init link_nodes boot
pool3-Books =
    Books-alloc pool2 _ (some 2) refl
      (Books-alloc pool1 _ (some 1) refl (Books-alloc fresh nobody (some 0) refl fresh-Books))

abbrev record_of : ℕ → TelemetryRecord
record_of i = record { slab_ptr = i; timestamp_us = 7 }

abbrev FrameQueue : Type 0
FrameQueue = Bounded AnalyzerFrame

abbrev RecordQueue : Type 0
RecordQueue = Bounded TelemetryRecord

abbrev waiting :
    Pool → List AnalyzerFrame → List TelemetryRecord → System FrameQueue RecordQueue (List (List ℕ))
waiting p raw logs = record {
  pool = p;
  raw_frame_queue = record { items = raw; capacity = 32 };
  live_queue = record { items = []; capacity = 16 };
  logging_queue = record { items = logs; capacity = 32 };
  is_online_flag = false;
  has_state_lock = true;
  has_record_callback = true;
  has_replay_callback = true;
  world = [];
}

abbrev three_logs : System FrameQueue RecordQueue (List (List ℕ))
three_logs = waiting pool3 [] (record_of 0 ∷ record_of 1 ∷ record_of 2 ∷ [])

three_logs-Accounts : Accounts bounded bounded bounded-IsQueue bounded-IsQueue three_logs []
unfolding bounded-IsQueue
three_logs-Accounts = Books-same pool3 _ _ pool3-Books (λ i. omega arith)

logger_round-loses_third_example :
    Accounts bounded bounded bounded-IsQueue bounded-IsQueue
      (logger_round bounded bounded keeper three_logs)
      (2 ∷ [])
    × ((logger_round bounded bounded keeper three_logs).logging_queue.items ≡ [])
    × ((logger_round bounded bounded keeper three_logs).world
        ≡ logged bounded bounded bounded-IsQueue bounded-IsQueue keeper
            (record_of 1)
            pool3
            (logged bounded bounded bounded-IsQueue bounded-IsQueue keeper (record_of 0) pool3 []))
unfolding bounded-IsQueue
logger_round-loses_third_example =
    logger_round-loses_third bounded bounded bounded-IsQueue bounded-IsQueue keeper three_logs []
      (record_of 0) (record_of 1) (record_of 2) [] three_logs-Accounts refl

abbrev one_frame : System FrameQueue RecordQueue (List (List ℕ))
one_frame = waiting pool1 (record { slab_ptr = 0; timestamp_us = 5 } ∷ []) []

one_frame-Accounts : Accounts bounded bounded bounded-IsQueue bounded-IsQueue one_frame []
unfolding bounded-IsQueue alloc take_node init link_nodes boot
one_frame-Accounts =
    Books-same pool1 _ _ (Books-alloc fresh nobody (some 0) refl fresh-Books) (λ i. omega arith)

pipeline_round-Passed_example :
    Accounts bounded bounded bounded-IsQueue bounded-IsQueue
      (pipeline_round bounded bounded keeper one_frame)
      []
    ⊎ ((i : ℕ) × Accounts bounded bounded bounded-IsQueue bounded-IsQueue
          (pipeline_round bounded bounded keeper one_frame)
          (i ∷ [])
        × IsJammed bounded bounded bounded-IsQueue bounded-IsQueue keeper one_frame)
pipeline_round-Passed_example =
    pipeline_round-Passed bounded bounded bounded-IsQueue bounded-IsQueue keeper one_frame []
      one_frame-Accounts

abbrev shop : Shop FrameQueue RecordQueue (List (List ℕ))
shop = record { system = waiting fresh [] []; analyzer_has = [] }

alloc-in_no_queue_example :
    (queued bounded bounded bounded-IsQueue bounded-IsQueue (waiting fresh [] []) 0 ≡ 0)
    × (occurrences 0 shop.analyzer_has ≡ 0)
unfolding bounded-IsQueue alloc take_node init link_nodes boot
alloc-in_no_queue_example =
    alloc-in_no_queue bounded bounded bounded-IsQueue bounded-IsQueue keeper {s = shop} 0
      (starts shop refl refl refl refl refl) refl
