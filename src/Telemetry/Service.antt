-- ===== src/Telemetry/Service.antt =====
-- components/telemetry_service/telemetry_service.c: a round of its task, and the report of the counters
-- that its timer calls.
use modbus_vault.Base.{
  ℕ, sym, subst, Bool, true, false, List, [], ◌∷◌, ◌++◌, Option, none, some, if◌then◌else◌, if_both,
  ltb, take,
}
use modbus_vault.Base.Words.{write32}
use modbus_vault.Rtos.{QueueOps, IsQueue}
use modbus_vault.Metrics.{telemetry_publish_errors}
use modbus_vault.Metrics.Counters.{get_snapshot}
use modbus_vault.SlabPool.{slab_pool_max_data_size}
use modbus_vault.Modbus.Analyzer.{AnalyzerFrame}
use modbus_vault.Telemetry.{
  System, Env, TelemetryRecord, topics_status, is_online, process_live_quota,
}
use modbus_vault.Telemetry.Replay.{process_replay_quota}
use modbus_vault.Telemetry.Ledger.{Accounts}
use modbus_vault.Telemetry.Pipeline.{is_online-keeps}
use modbus_vault.Telemetry.Live.{process_live_quota-Accounts, process_replay_quota-Accounts}

-- Counters as the bytes of their `uint32_t`.
abbrev pub counter_bytes : List ℕ → List ℕ
counter_bytes [] = []
counter_bytes (c ∷ counters) = write32 c ++ counter_bytes counters

module _ {R Q W : Type 0} (raw : QueueOps R AnalyzerFrame) (ops : QueueOps Q TelemetryRecord)
    (env : Env W) where
  -- `telemetry_service_publish_status` on a buffer outside the pool.
  unfoldable pub publish_status : List ℕ → ℕ → System R Q W → System R Q W
  publish_status bytes now s =
      let (published, w) = env.publish topics_status bytes s.world in
      record s { world = if published then w else env.report telemetry_publish_errors now w }

  -- What follows the snapshot, which has failed or not.
  unfoldable pub report_copy : Option (List ℕ × ℕ) → ℕ → System R Q W → System R Q W
  report_copy none now s = s
  report_copy (some (copy, size)) now s =
      let (online, t) = is_online raw ops env s in
      if online then publish_status (take size (counter_bytes copy)) now t else t

  -- `handle_system_metrics_internal`, on the counters of metrics and the time.
  unfoldable pub handle_system_metrics : List ℕ → ℕ → System R Q W → System R Q W
  unfolding report_copy
  handle_system_metrics counters now s =
      report_copy (get_snapshot true slab_pool_max_data_size counters).1 now s

  -- A round of `telemetry_service_task`, with whether it notifies itself of more to replay.
  unfoldable pub service_round : ℕ → System R Q W → Bool × System R Q W
  service_round leftover s =
      let t = if ltb 0 (ops.waiting s.live_queue) then process_live_quota raw ops env s else s in
      let (online, u) = is_online raw ops env t in
      if online then process_replay_quota raw ops env leftover u else (false, u)

module _ {R Q W : Type 0} (raw : QueueOps R AnalyzerFrame) (ops : QueueOps Q TelemetryRecord)
    (raw_queue : IsQueue raw) (queue : IsQueue ops) (env : Env W) where
  abbrev Holds : List ℕ → System R Q W → Type 0
  Holds outside s = Accounts raw ops raw_queue queue s outside

  is_online-Holds :
      (s : System R Q W) (outside : List ℕ)
      → Holds outside s
      → Holds outside (is_online raw ops env s).1
  is_online-Holds s outside b =
      let (w, eq) = is_online-keeps raw ops raw_queue queue env s in
      subst (Holds outside) (sym eq) b

  report_copy-Holds :
      (copy : Option (List ℕ × ℕ)) (now : ℕ) (s : System R Q W) (outside : List ℕ)
      → Holds outside s
      → Holds outside (report_copy raw ops env copy now s)
  unfolding report_copy publish_status
  report_copy-Holds none now s outside b = b
  report_copy-Holds (some (copy, size)) now s outside b =
      let t_holds = is_online-Holds s outside b in
      if_both (Holds outside) (is_online raw ops env s).0 _ _ t_holds t_holds

  -- A round of the telemetry service loses no slab, whatever is waiting and whether there is a link,
  -- and neither does a report of the counters.
  pub service_round-Accounts :
      (leftover now : ℕ) (counters outside : List ℕ) (s : System R Q W)
      → Accounts raw ops raw_queue queue s outside
      → Accounts raw ops raw_queue queue (service_round raw ops env leftover s).1 outside
        × Accounts raw ops raw_queue queue
            (handle_system_metrics raw ops env counters now s)
            outside
  service_round-Accounts leftover now counters outside s b = (round, report)
    where
      round : Holds outside (service_round raw ops env leftover s).1
      round =
          unfold service_round in
          let t : System R Q W =
            if ltb 0 (ops.waiting s.live_queue) then process_live_quota raw ops env s else s in
          let t_holds : Holds outside t =
            if_both (Holds outside) (ltb 0 (ops.waiting s.live_queue)) _ _
              (process_live_quota-Accounts raw ops raw_queue queue env s outside b) b in
          let u_holds = is_online-Holds t outside t_holds in
          if_both (λ (r : Bool × System R Q W). Holds outside r.1) (is_online raw ops env t).0 _ _
            (process_replay_quota-Accounts raw ops raw_queue queue env leftover
              (is_online raw ops env t).1 outside u_holds)
            u_holds

      report : Holds outside (handle_system_metrics raw ops env counters now s)
      report =
          unfold handle_system_metrics in
          report_copy-Holds (get_snapshot true slab_pool_max_data_size counters).1 now s outside b
