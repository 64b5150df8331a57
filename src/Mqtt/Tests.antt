-- ===== src/Mqtt/Tests.antt =====
-- A client that accepts every message and keeps count of what it is told, and a telemetry service
-- that is told of its link.
use modbus_vault.Base.{◌≡◌, refl, Bool, true, false, List, [], ◌∷◌, ◌++◌, some}
use modbus_vault.Base.{EspErr, esp_ok, esp_fail}
use modbus_vault.Rtos.Bounded.{Bounded, bounded}
use modbus_vault.SlabPool.{boot}
use modbus_vault.Modbus.Analyzer.{AnalyzerFrame}
use modbus_vault.Telemetry.{Env, System, TelemetryRecord, set_online}
use modbus_vault.Mqtt.{
  Bridge, MqttEvent, event_connected, event_disconnected, event_other, Client, SetUpCall, init,
  set_up_from, finish, handle_event, handle_events, change,
}
use modbus_vault.Mqtt.Handles.{init-loses_link}
use modbus_vault.Mqtt.Online.{events-agree}

-- The world is what the callback was told.
abbrev teller : (SetUpCall → EspErr) → Client (List Bool)
teller answer = record {
  set_up = λ c w. (answer c, w);
  tear_down = λ c w. w;
  publish = λ topic bytes qos w. (true, w);
  notify = λ online w. w ++ online ∷ [];
}

abbrev willing : Client (List Bool)
willing = teller (λ c. esp_ok)

abbrev refused : SetUpCall → EspErr
refused SetUpCall.client_start = esp_fail
refused _ = esp_ok

abbrev empty : Bridge
empty = record { has_client = false; has_lock = false; has_notify = false; mqtt_connected = false }

abbrev up : Bridge
up = record { has_client = true; has_lock = true; has_notify = true; mqtt_connected = false }

abbrev flapping : List (MqttEvent × Bool)
flapping =
    (event_connected, true)
    ∷ (event_other, true)
    ∷ (event_disconnected, true)
    ∷ (event_connected, true)
    ∷ []

init_up : init willing (some true) [] empty [] ≡ (esp_ok, up, [])
unfolding init finish set_up_from handle_events
init_up = refl

flaps :
    handle_events willing flapping (up, [])
    ≡ (record up { mqtt_connected = true }, true ∷ false ∷ true ∷ [])
unfolding handle_events handle_event change
flaps = refl

init-loses_link_example :
    let r = init willing (some true) flapping empty [] in
    (r.0 ≡ esp_ok) × (r.1.mqtt_connected ≡ false) × (r.2 ≡ [])
unfolding set_up_from
init-loses_link_example = init-loses_link willing true flapping empty [] refl refl

abbrev linked : Bridge
linked = record up { mqtt_connected = true }

-- A world that is whether the state lock is free.
abbrev env : Env Bool
env = record {
  pack = λ raw now slab. (esp_ok, slab);
  write_log = λ bytes w. (true, w);
  next_replay = λ callback slab w. (false, slab, w);
  publish = λ topic bytes w. (true, w);
  report = λ stat now w. w;
  lock_free = λ w. (w, w);
}

abbrev always_free : Env Bool
always_free = record env { lock_free = λ w. (true, w) }

abbrev Service : Type 0
Service = System (Bounded AnalyzerFrame) (Bounded TelemetryRecord) Bool

abbrev service : Service
service = record {
  pool = boot;
  raw_frame_queue = record { items = []; capacity = 32 };
  live_queue = record { items = []; capacity = 16 };
  logging_queue = record { items = []; capacity = 32 };
  is_online_flag = false;
  has_state_lock = true;
  has_record_callback = true;
  has_replay_callback = true;
  world = false;
}

abbrev telling : Env Bool → Client Service
telling e = record {
  set_up = λ c s. (esp_ok, s);
  tear_down = λ c s. s;
  publish = λ topic bytes qos s. (true, s);
  notify = set_online bounded bounded e;
}

events-agree_example :
    let (b, s) = handle_events (telling always_free) flapping (up, service) in
    s.is_online_flag ≡ b.mqtt_connected
events-agree_example =
    events-agree bounded bounded always_free (telling always_free) flapping up service
      (λ online s. refl) (λ w. refl) refl refl refl refl
