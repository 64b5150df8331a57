-- ===== src/Telemetry.antt =====
-- components/telemetry_pipeline, telemetry_service, logger_service and controller/router.c: the way
-- of a slab from the analyzer's frame to its free. Each round of a task, and each call from another
-- task, is a step on the state that they share. The notifications that wake the tasks are left out:
-- a round may come at any time.
pub mod Ledger
pub mod Pipeline
pub mod Services
pub mod Replay
pub mod Live
pub mod Service
pub mod Lifecycle
pub mod Start
pub mod Log
pub mod Stored
pub mod Released
pub mod Topics
pub mod Steps
pub mod Conservation
mod Tests
use modbus_vault.Base.{
  ℕ, zero, suc, ◌+◌, ◌-◌, Bool, true, false, ◌&&◌, List, [], ◌∷◌, Option, none, some, if◌then◌else◌,
  ◌==◌, take,
}
use modbus_vault.Base.{EspErr, is_ok}
use modbus_vault.Rtos.{QueueOps}
use modbus_vault.Metrics.{Stat, telemetry_publish_errors, logger_write_errors}
use modbus_vault.SlabPool.{Pool, Slab, slab_at, set_slab, alloc, free}
use modbus_vault.Modbus.Analyzer.{AnalyzerFrame}

-- `telemetry_pipeline_record_t`
pub record TelemetryRecord : Type 0 where
  pub slab_ptr : ℕ
  pub timestamp_us : ℕ

-- `telemetry_service_topics_t`
pub data Topic : Type 0 where
  topics_live topics_replay topics_status : Topic

-- What the steps call: the packing of a frame (`serializer_pack`), the log
-- (`blackbox_logger_write` on the bytes of a slab, whether it returns BLACKBOX_LOGGER_OK), the
-- next entry of its backlog (`blackbox_logger_next_replay` into a slab, with its callback), the
-- publication of bytes (`mqtt_bridge_publish`, whether it returns ESP_OK), the report of an error
-- event (`event_bus_publish`), and whether the state lock is free at this moment.
pub record Env (W : Type 0) : Type 0 where
  pub pack : Slab → ℕ → Slab → EspErr × Slab
  pub write_log : List ℕ → W → Bool × W
  pub next_replay : (W → List ℕ → Bool × W) → Slab → W → Bool × Slab × W
  pub publish : Topic → List ℕ → W → Bool × W
  pub report : Stat → ℕ → W → W
  pub lock_free : W → Bool × W

-- The statics of the files: the pool, the three queues, the flag of the telemetry service with its
-- lock, and whether the pipeline and the telemetry service have their callbacks.
pub record System (R Q W : Type 0) : Type 0 where
  pub pool : Pool
  pub raw_frame_queue : R
  pub live_queue : Q
  pub logging_queue : Q
  pub is_online_flag : Bool
  pub has_state_lock : Bool
  pub has_record_callback : Bool
  pub has_replay_callback : Bool
  pub world : W

abbrev pub live_quota : ℕ
live_quota = 2

abbrev pub store_quota : ℕ
store_quota = 2

-- `slab_ptr->data`, of `slab_ptr->length` bytes
abbrev pub slab_bytes : Pool → ℕ → List ℕ
slab_bytes p i = take ((slab_at p i).length) ((slab_at p i).buffer)

module _ {R Q W : Type 0} (raw : QueueOps R AnalyzerFrame) (ops : QueueOps Q TelemetryRecord)
    (env : Env W) where
  -- `telemetry_pipeline_enqueue_raw_frame`; `none` is a NULL `raw_frame_ptr`.
  unfoldable pub enqueue_raw_frame : Option AnalyzerFrame → System R Q W → System R Q W
  enqueue_raw_frame none s = s
  enqueue_raw_frame (some frame) s = record s {
    raw_frame_queue = (raw.send s.raw_frame_queue frame).1;
  }

  -- `telemetry_service_enqueue_live`
  unfoldable pub enqueue_live : TelemetryRecord → System R Q W → Bool × System R Q W
  enqueue_live r s = let (sent, q) = ops.send s.live_queue r in (sent, record s { live_queue = q })

  -- `logger_service_enqueue`
  unfoldable pub enqueue_log : TelemetryRecord → System R Q W → Bool × System R Q W
  enqueue_log r s =
      let (sent, q) = ops.send s.logging_queue r in (sent, record s { logging_queue = q })

  -- `telemetry_service_is_online`: offline, if the lock is not free at once.
  unfoldable pub is_online : System R Q W → Bool × System R Q W
  is_online s =
      if s.has_state_lock
      then (let (taken, w) = env.lock_free s.world in
          (taken && s.is_online_flag, record s { world = w }))
      else (false, s)

  -- `telemetry_service_set_online`, less the notification of the task.
  unfoldable pub set_online : Bool → System R Q W → System R Q W
  set_online online s =
      if s.has_state_lock
      then (let (taken, w) = env.lock_free s.world in
          if taken then record s { is_online_flag = online; world = w } else record s { world = w })
      else s

  -- `router_dispatch`, whose results are ignored.
  unfoldable pub dispatch : TelemetryRecord → System R Q W → System R Q W
  unfolding is_online enqueue_live enqueue_log
  dispatch r s =
      let (online, t) = is_online s in if online then (enqueue_live r t).1 else (enqueue_log r t).1

  -- The packed frame in slab `i` is handed on, or its slab freed.
  unfoldable pub packed : AnalyzerFrame → ℕ → EspErr × Slab → System R Q W → System R Q W
  unfolding dispatch
  packed frame i (e, slab) s =
      let t = record s { pool = set_slab s.pool i slab } in
      if is_ok e && s.has_record_callback
      then dispatch (record { slab_ptr = i; timestamp_us = frame.timestamp_us }) t
      else record t { pool = free t.pool (some i) }

  unfoldable pub pack_frame : AnalyzerFrame → Option ℕ → System R Q W → System R Q W
  unfolding packed
  pack_frame frame none s = s
  pack_frame frame (some i) s =
      packed frame i
        (env.pack (slab_at s.pool frame.slab_ptr) frame.timestamp_us (slab_at s.pool i)) s

  unfoldable pub process_frame : Option AnalyzerFrame → System R Q W → System R Q W
  unfolding pack_frame
  process_frame none s = s
  process_frame (some frame) s =
      let (slab, p) = alloc s.pool in
      let t = pack_frame frame slab (record s { pool = p }) in
      record t { pool = free t.pool (some frame.slab_ptr) }

  -- A round of `telemetry_pipeline_task`.
  unfoldable pub pipeline_round : System R Q W → System R Q W
  unfolding process_frame
  pipeline_round s =
      let (frame, q) = raw.receive s.raw_frame_queue in
      process_frame frame (record s { raw_frame_queue = q })

  -- `logger_service_store`
  unfoldable pub store : TelemetryRecord → System R Q W → Bool × System R Q W
  store r s =
      let (stored, w) = env.write_log (slab_bytes s.pool r.slab_ptr) s.world in
      (
        stored,
        record s {
          world = if stored then w else env.report logger_write_errors r.timestamp_us w;
          pool = free s.pool (some r.slab_ptr);
        },
      )

  -- The `while` of `logger_service_task`, from the number of logs still in the quota on: the queue
  -- is read before the quota is looked at.
  unfoldable pub store_quota_left : ℕ → System R Q W → System R Q W
  unfolding store
  store_quota_left zero s = record s { logging_queue = (ops.receive s.logging_queue).1 }
  store_quota_left (suc left) s =
      let (r, q) = ops.receive s.logging_queue in
      elim r [
        | none ↦ record s { logging_queue = q }
        | some r ↦ store_quota_left left (store r (record s { logging_queue = q })).1
      ]

  -- A round of `logger_service_task`.
  unfoldable pub logger_round : System R Q W → System R Q W
  unfolding store_quota_left
  logger_round s = store_quota_left store_quota s

  -- `publish_to_topic_helper`
  unfoldable pub publish_to_topic : TelemetryRecord → Topic → System R Q W → Bool × System R Q W
  publish_to_topic r topic s =
      let (published, w) = env.publish topic (slab_bytes s.pool r.slab_ptr) s.world in
      (
        published,
        record s {
          world = if published then w else env.report telemetry_publish_errors r.timestamp_us w;
        },
      )

  -- The loop of `process_live_quota_internal`, from the number of records still in the quota on.
  unfoldable pub live_quota_left : ℕ → System R Q W → System R Q W
  unfolding is_online publish_to_topic
  live_quota_left zero s = s
  live_quota_left (suc left) s =
      let (online, t) = is_online s in
      elim online [
        | false ↦ t
        | true ↦
            let (r, q) = ops.receive t.live_queue in
            elim r [
              | none ↦ record t { live_queue = q }
              | some r ↦
                  let u = (publish_to_topic r topics_live (record t { live_queue = q })).1 in
                  live_quota_left left (record u { pool = free u.pool (some r.slab_ptr) })
            ]
      ]

  -- `process_live_quota_internal`
  unfoldable pub process_live_quota : System R Q W → System R Q W
  unfolding live_quota_left
  process_live_quota s = live_quota_left live_quota s
