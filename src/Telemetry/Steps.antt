-- ===== src/Telemetry/Steps.antt =====
-- The telemetry path as a whole: the analyzer, the router, the pipeline, the logger and the live
-- service take their steps in any order, on one pool.
use modbus_vault.Base.{ℕ, ◌≡◌, Bool, true, List, [], ◌∷◌, ◌++◌, some}
use modbus_vault.Rtos.{QueueOps, IsQueue}
use modbus_vault.SlabPool.{Slab, init, boot, alloc, free, set_slab}
use modbus_vault.SlabPool.Ownership.{hold}
use modbus_vault.Modbus.Analyzer.{AnalyzerFrame}
use modbus_vault.Telemetry.Replay.{process_replay_quota}
use modbus_vault.Telemetry.{
  System, Env, TelemetryRecord, enqueue_raw_frame, pipeline_round, logger_round, process_live_quota,
  set_online,
}

-- The system, with the slabs that the analyzer has.
pub record Shop (R Q W : Type 0) : Type 0 where
  pub system : System R Q W
  pub analyzer_has : List ℕ

module _ {R Q W : Type 0} (raw : QueueOps R AnalyzerFrame) (ops : QueueOps Q TelemetryRecord)
    (env : Env W) where
  -- A step of one of the tasks. The analyzer allocates, writes, frees what it has, and hands a frame
  -- on; the others take their rounds; the link comes and goes.
  pub data Step (s t : Shop R Q W) : Type 0 where
    analyzer_allocates :
        t ≡ record {
          system = record s.system { pool = (alloc s.system.pool).1 };
          analyzer_has = hold (alloc s.system.pool).0 s.analyzer_has;
        }
        → Step s t
    analyzer_writes :
        (i : ℕ) (slab : Slab)
        → t ≡ record s { system = record s.system { pool = set_slab s.system.pool i slab } }
        → Step s t
    analyzer_frees :
        (before after : List ℕ) (i : ℕ)
        → s.analyzer_has ≡ before ++ i ∷ after
        → t ≡ record {
          system = record s.system { pool = free s.system.pool (some i) };
          analyzer_has = before ++ after;
        }
        → Step s t
    analyzer_hands_on :
        (before after : List ℕ) (frame : AnalyzerFrame)
        → s.analyzer_has ≡ before ++ frame.slab_ptr ∷ after
        → t ≡ record {
          system = enqueue_raw_frame raw ops env (some frame) s.system;
          analyzer_has = before ++ after;
        }
        → Step s t
    pipeline_runs : t ≡ record s { system = pipeline_round raw ops env s.system } → Step s t
    logger_runs : t ≡ record s { system = logger_round raw ops env s.system } → Step s t
    live_runs : t ≡ record s { system = process_live_quota raw ops env s.system } → Step s t
    replay_runs :
        (leftover : ℕ)
        → t ≡ record s { system = (process_replay_quota raw ops env leftover s.system).1 }
        → Step s t
    link_changes :
        (online : Bool)
        → t ≡ record s { system = set_online raw ops env online s.system }
        → Step s t

module _ {R Q W : Type 0} (raw : QueueOps R AnalyzerFrame) (ops : QueueOps Q TelemetryRecord)
    (raw_queue : IsQueue raw) (queue : IsQueue ops) (env : Env W) where
  -- What the steps lead to from a pool just initialised and empty queues.
  pub data Reach : Shop R Q W → Type 0 where
    starts :
        (s : Shop R Q W)
        → s.system.pool ≡ (init true boot).1
        → raw_queue.items s.system.raw_frame_queue ≡ []
        → queue.items s.system.live_queue ≡ []
        → queue.items s.system.logging_queue ≡ []
        → s.analyzer_has ≡ []
        → Reach s
    steps : {s t : Shop R Q W} → Reach s → Step raw ops env s t → Reach t
