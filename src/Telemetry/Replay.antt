-- ===== src/Telemetry/Replay.antt =====
-- The replay of the backlog: the quota of telemetry_service.c, the callbacks of controller/router.c
-- and `logger_service_fetch_next_replay`.
use modbus_vault.Base.{ℕ, Bool, false, List, Option, none, some, if◌then◌else◌}
use modbus_vault.Rtos.{QueueOps}
use modbus_vault.Metrics.{telemetry_publish_errors}
use modbus_vault.SlabPool.{slab_at, set_slab, alloc, free}
use modbus_vault.Modbus.Analyzer.{AnalyzerFrame}
use modbus_vault.Telemetry.{System, Env, TelemetryRecord, topics_replay, is_online}

module _ {R Q W : Type 0} (raw : QueueOps R AnalyzerFrame) (ops : QueueOps Q TelemetryRecord)
    (env : Env W) where
  -- `replay_callback` of the router, on the bytes in the slab; the record's time is what stood in
  -- the local variable of `router_publish_replay`.
  unfoldable pub replay_callback : ℕ → W → List ℕ → Bool × W
  replay_callback leftover w bytes =
      let (published, w') = env.publish topics_replay bytes w in
      (published, if published then w' else env.report telemetry_publish_errors leftover w')

  unfoldable pub replay_into : ℕ → Option ℕ → System R Q W → Bool × System R Q W
  unfolding replay_callback
  replay_into leftover none s = (false, s)
  replay_into leftover (some i) s =
      let (ready, slab, w) =
        env.next_replay (replay_callback leftover) (slab_at s.pool i) s.world in
      (ready, record s { pool = free (set_slab s.pool i slab) (some i); world = w })

  -- `logger_service_fetch_next_replay` as `router_publish_replay` calls it.
  unfoldable pub publish_replay : ℕ → System R Q W → Bool × System R Q W
  unfolding replay_into
  publish_replay leftover s =
      let (slab, p) = alloc s.pool in replay_into leftover slab (record s { pool = p })

  -- `process_replay_quota_internal`, with its quota of one; the callback, where there is one, is
  -- `router_publish_replay`.
  unfoldable pub process_replay_quota : ℕ → System R Q W → Bool × System R Q W
  unfolding is_online publish_replay
  process_replay_quota leftover s =
      let (online, t) = is_online raw ops env s in
      if s.has_replay_callback
      then if online then publish_replay leftover t else (false, t)
      else (false, s)
