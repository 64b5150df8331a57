-- ===== src/Mqtt.antt =====
-- components/mqtt_bridge/mqtt_bridge.c: the link to the broker, on a bridge that is given (not NULL).
-- The MQTT client of ESP-IDF and the callback on a change of the link are parameters. An argument
-- `taken` says whether the lock was taken, where the code looks at that.
pub mod Events
pub mod Handles
pub mod Online
mod Tests
use modbus_vault.Base.{
  ℕ, zero, suc, Bool, true, false, not, ◌&&◌, List, [], ◌∷◌, Option, none, some, if◌then◌else◌,
  ◌==◌, length,
}
use modbus_vault.Base.{
  EspErr, esp_ok, esp_fail, esp_err_no_mem, esp_err_invalid_arg, esp_err_timeout, is_ok,
}

-- `mqtt_bridge_t`; of a handle or a callback, whether there is one.
pub record Bridge : Type 0 where
  pub has_client : Bool
  pub has_lock : Bool
  pub has_notify : Bool
  pub mqtt_connected : Bool

-- The events that `mqtt_event_handler` tells apart.
pub data MqttEvent : Type 0 where
  event_connected event_disconnected event_other : MqttEvent

-- The calls of `mqtt_bridge_init`, in their order, and those of `mqtt_bridge_deinit`.
pub data SetUpCall : Type 0 where
  create_mutex client_init register_event client_start : SetUpCall

pub data TearDownCall : Type 0 where
  client_stop unregister_event client_destroy delete_mutex : TearDownCall

-- The client, and the callback. `esp_ok` stands for a handle, another error for NULL, where a call
-- returns a handle; `publish` tells whether the id that it returns is not negative.
pub record Client (W : Type 0) : Type 0 where
  pub set_up : SetUpCall → W → EspErr × W
  pub tear_down : TearDownCall → W → W
  pub publish : List ℕ → List ℕ → ℕ → W → Bool × W
  pub notify : Bool → W → W

-- `mqtt_bridge_is_connected`
abbrev pub is_connected : Bridge → Bool
is_connected b = b.has_lock && b.mqtt_connected

-- The handle that a call of the initialisation leaves behind.
abbrev pub hold : SetUpCall → Bridge → Bridge
hold create_mutex b = record b { has_lock = true }
hold client_init b = record b { has_client = true }
hold _ b = b

-- What a call that fails leaves behind: a handle that is NULL.
abbrev pub lose : SetUpCall → Bridge → Bridge
lose create_mutex b = record b { has_lock = false }
lose client_init b = record b { has_client = false }
lose _ b = b

-- The error that the initialisation makes of a call's failure.
abbrev pub failure : SetUpCall → EspErr → EspErr
failure create_mutex e = esp_err_no_mem
failure client_init e = esp_fail
failure _ e = e

abbrev pub set_up_calls : List SetUpCall
set_up_calls = create_mutex ∷ client_init ∷ register_event ∷ client_start ∷ []

module _ {W : Type 0} (client : Client W) where
  -- A change of the link, and the callback on it.
  unfoldable pub change : Bool → Bool → Bridge × W → Bridge × W
  change online taken (b, w) =
      if taken
      then (
        record b { mqtt_connected = online },
        if b.has_notify then client.notify online w else w,
      )
      else (b, w)

  -- `mqtt_event_handler`, on an event that is given.
  unfoldable pub handle_event : MqttEvent → Bool → Bridge × W → Bridge × W
  unfolding change
  handle_event event_connected taken (b, w) =
      if b.has_lock then change true taken (b, w) else (b, w)
  handle_event event_disconnected taken (b, w) =
      if b.has_lock then change false taken (b, w) else (b, w)
  handle_event event_other taken s = s

  unfoldable pub handle_events : List (MqttEvent × Bool) → Bridge × W → Bridge × W
  handle_events [] s = s
  handle_events ((e, taken) ∷ es) s = handle_events es (handle_event e taken s)

  -- The rest of `mqtt_bridge_publish` once the link was seen to be up.
  unfoldable pub send : Bool → List ℕ → List ℕ → ℕ → Bridge × W → EspErr × Bridge × W
  send taken topic bytes qos (b, w) =
      if taken
      then (let (accepted, w') = client.publish topic bytes qos w in
          (if accepted then esp_ok else esp_fail, b, w'))
      else (esp_err_timeout, b, w)

  abbrev pub can_publish : Bridge → List ℕ → Bool
  can_publish b bytes = b.has_client && b.has_lock && not (length bytes == 0)

  -- `mqtt_bridge_publish`; `none` is a NULL `data_ptr`, and `between` are the events that the handler
  -- takes between the look at the link and the lock.
  unfoldable pub publish :
      Bool
      → List (MqttEvent × Bool)
      → List ℕ
      → Option (List ℕ)
      → ℕ
      → Bridge × W
      → EspErr × Bridge × W
  publish taken between topic none qos (b, w) = (esp_err_invalid_arg, b, w)
  publish taken between topic (some bytes) qos (b, w) =
      if can_publish b bytes
      then (if is_connected b
          then send taken topic bytes qos (handle_events between (b, w))
          else (esp_fail, b, w))
      else (esp_err_invalid_arg, b, w)

  -- `mqtt_bridge_deinit`
  unfoldable pub deinit : Bridge → W → Bridge × W
  deinit b w =
      let w1 =
        if b.has_client
        then client.tear_down client_destroy
            (client.tear_down unregister_event (client.tear_down client_stop w))
        else w in
      (
        record b { has_client = false; has_lock = false },
        if b.has_lock then client.tear_down delete_mutex w1 else w1,
      )

  -- The calls up to the first that fails.
  unfoldable pub set_up_from : List SetUpCall → Bridge → W → EspErr × Bridge × W
  set_up_from [] b w = (esp_ok, b, w)
  set_up_from (c ∷ calls) b w =
      let (e, w') = client.set_up c w in
      if is_ok e then set_up_from calls (hold c b) w' else (failure c e, lose c b, w')

  -- The end of `mqtt_bridge_init`. The client has been started, and its events may have come before
  -- this: `between` are those.
  unfoldable pub finish : Bool → List (MqttEvent × Bool) → EspErr × Bridge × W → EspErr × Bridge × W
  finish has_cb between (e, b, w) =
      if is_ok e
      then (let (b', w') = handle_events between (b, w) in
          (e, record b' { mqtt_connected = false; has_notify = has_cb }, w'))
      else (let (b', w') = deinit b w in (e, b', w'))

  -- `mqtt_bridge_init`; `none` is a NULL `config_ptr`, and a configuration has a callback or not.
  unfoldable pub init : Option Bool → List (MqttEvent × Bool) → Bridge → W → EspErr × Bridge × W
  init none between b w = finish false between (esp_err_invalid_arg, b, w)
  init (some has_cb) between b w = finish has_cb between (set_up_from set_up_calls b w)
