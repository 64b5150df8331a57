-- ===== src/Telemetry/Lifecycle.antt =====
-- `telemetry_service_init` and `telemetry_service_deinit` of
-- components/telemetry_service/telemetry_service.c, on top of the MQTT bridge. What is left of the
-- service is in Service.
use modbus_vault.Base.{ℕ, Bool, true, false, List, Option, none, some, if◌then◌else◌}
use modbus_vault.Base.{is_ok}
use modbus_vault.Mqtt.{Bridge, MqttEvent, Client}
use modbus_vault.Mqtt
use modbus_vault.Telemetry.Topics.{generate_topics}

-- The statics of the file; of a handle, whether there is one.
pub record Service : Type 0 where
  pub is_online_flag : Bool
  pub has_state_lock : Bool
  pub has_replay_cb : Bool
  pub bridge : Bridge
  pub has_live_queue : Bool
  pub topics : List (List ℕ)
  pub has_metrics_timer : Bool

-- The calls that give handles, and those that take them back.
pub data Handle : Type 0 where
  state_lock live_queue metrics_timer : Handle

pub record Kernel (W : Type 0) : Type 0 where
  pub create : Handle → W → Bool × W
  pub start_timer : W → Bool × W
  pub delete : Handle → W → W

module _ {W : Type 0} (client : Client W) (kernel : Kernel W) where
  abbrev pub State : Type 0
  State = Service × W

  -- A part of the initialisation, made only where what went before succeeded.
  abbrev pub next : (State → Bool × State) → Bool × State → Bool × State
  next f (is_init, s) = if is_init then f s else (false, s)

  unfoldable pub make_lock : State → Bool × State
  make_lock (s, w) =
      let (made, w') = kernel.create state_lock w in
      (made, (record s { has_state_lock = made }, w'))

  -- The bridge, whose callback is `telemetry_service_set_online`; `between` are the events of its
  -- client that come before it is set up.
  unfoldable pub make_bridge : List (MqttEvent × Bool) → State → Bool × State
  make_bridge between (s, w) =
      let (e, b, w') = Mqtt.init client (some true) between s.bridge w in
      (is_ok e, (record s { has_replay_cb = true; bridge = b }, w'))

  unfoldable pub make_queue : State → Bool × State
  make_queue (s, w) =
      let (made, w') = kernel.create live_queue w in
      (made, (record s { has_live_queue = made }, w'))

  unfoldable pub make_topics : List ℕ → State → Bool × State
  make_topics device_id (s, w) =
      let (e, topics) = generate_topics (some device_id) s.topics in
      (is_ok e, (record s { topics = topics }, w))

  unfoldable pub make_timer : State → Bool × State
  make_timer (s, w) =
      let (made, w1) = kernel.create metrics_timer w in
      let (started, w2) = kernel.start_timer w1 in
      if made then (started, (record s { has_metrics_timer = true }, w2)) else (false, (s, w1))

  -- `telemetry_service_init`; the device's id is `none` where an argument is NULL.
  unfoldable pub init : Option (List ℕ) → List (MqttEvent × Bool) → State → Bool × State
  unfolding make_lock make_bridge make_queue make_topics make_timer
  init none between (s, w) = (false, (record s { is_online_flag = false }, w))
  init (some device_id) between (s, w) = next make_timer (
      next (make_topics device_id) (
        next make_queue
          (next (make_bridge between) (make_lock (record s { is_online_flag = false }, w)))))

  -- `telemetry_service_deinit`
  abbrev drop_handle : Bool → Handle → W → W
  drop_handle held handle w = if held then kernel.delete handle w else w

  unfoldable pub deinit : State → State
  deinit (s, w) =
      let (b, w1) = Mqtt.deinit client s.bridge w in
      (
        record s {
          bridge = b;
          has_live_queue = false;
          has_state_lock = false;
          has_metrics_timer = false;
        },
        drop_handle s.has_metrics_timer metrics_timer
            (drop_handle s.has_state_lock state_lock (drop_handle s.has_live_queue live_queue w1)),
      )
