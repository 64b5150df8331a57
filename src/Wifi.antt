-- ===== src/Wifi.antt =====
-- components/wifi_manager/wifi_manager.c: the state of the Wi-Fi link, which the handler of ESP-IDF's
-- events keeps, and the one-shot timer that tries to connect again. ESP-IDF is a parameter, with what
-- the timer is set to as its documented content.
pub mod Retry
pub mod Handles
mod Tests
use modbus_vault.Base.{
  ℕ, ◌*◌, ◌%◌, ◌^◌, ◌≡◌, Bool, true, false, List, [], ◌∷◌, Option, none, some, if◌then◌else◌, ltb,
}
use modbus_vault.Base.{EspErr, esp_ok, esp_fail, esp_err_no_mem, esp_err_invalid_arg, is_ok}

-- WIFI_MANAGE_MINIMUM_RECONNECT_TIMEOUT_US and WIFI_MANAGE_MAXIMUM_RECONNECT_TIMEOUT_US
abbrev pub min_timeout_us : ℕ
min_timeout_us = 1_000_000

abbrev pub max_timeout_us : ℕ
max_timeout_us = 60_000_000

-- `wifi_state_t`
pub data WifiState : Type 0 where
  idle connecting connected disconnected : WifiState

-- The events that `wifi_event_handler` tells apart.
pub data WifiEvent : Type 0 where
  sta_start sta_disconnected sta_got_ip other_event : WifiEvent

-- The statics of the file; of a handle, whether there is one.
pub record Manager : Type 0 where
  pub has_lock : Bool
  pub state : WifiState
  pub has_timer : Bool
  pub timeout_us : ℕ
  pub has_wifi_ctx : Bool
  pub has_ip_ctx : Bool

-- The statics as the program starts with them.
abbrev pub boot : Manager
boot = record {
  has_lock = false;
  state = idle;
  has_timer = false;
  timeout_us = min_timeout_us;
  has_wifi_ctx = false;
  has_ip_ctx = false;
}

-- The calls of `wifi_manager_init`, in their order.
pub data SetUpCall : Type 0 where
  create_mutex netif_init create_event_loop create_netif wifi_init : SetUpCall
  register_wifi register_ip set_storage set_mode set_config wifi_start create_timer : SetUpCall

-- The calls of `wifi_manager_deinit`.
pub data TearDownCall : Type 0 where
  delete_timer wifi_stop wifi_deinit unregister_ip unregister_wifi delete_mutex : TearDownCall

-- ESP-IDF. `esp_ok` stands for a handle, another error for NULL, where a call returns a handle;
-- `expire` is the time running out for which the timer was set.
pub record Idf (W : Type 0) : Type 0 where
  pub set_up : SetUpCall → W → EspErr × W
  pub tear_down : TearDownCall → W → EspErr × W
  pub connect : W → W
  pub stop_timer : W → W
  pub start_once : ℕ → W → W
  pub expire : W → W

-- The timer is set to a time or not. A timer that is set has to be stopped before it is set again.
pub record IsIdf {W : Type 0} (idf : Idf W) : Type 0 where
  pub armed : W → Option ℕ
  pub stopped : (w : W) → armed (idf.stop_timer w) ≡ none
  pub started : (t : ℕ) (w : W) → armed w ≡ none → armed (idf.start_once t w) ≡ some t

-- `wifi_manager_set_state_helper`
abbrev pub set_state : WifiState → Manager → Manager
set_state state m = if m.has_lock then record m { state = state } else m

-- `wifi_manager_get_state`
abbrev pub get_state : Manager → WifiState
get_state m = if m.has_lock then m.state else idle

abbrev pub is_connected : WifiState → Bool
is_connected connected = true
is_connected _ = false

-- The states in which the timer's callback sets the timer again.
abbrev pub is_waiting : WifiState → Bool
is_waiting disconnected = true
is_waiting connecting = true
is_waiting _ = false

-- The next time to wait for: `<<` is on `uint64_t`.
unfoldable pub next_timeout : ℕ → ℕ
next_timeout t = if ltb (t * 2 % 2 ^ 64) max_timeout_us then t * 2 % 2 ^ 64 else max_timeout_us

-- The handle that a call of the initialisation leaves behind.
abbrev pub hold : SetUpCall → Manager → Manager
hold create_mutex m = record m { has_lock = true }
hold register_wifi m = record m { has_wifi_ctx = true }
hold register_ip m = record m { has_ip_ctx = true }
hold create_timer m = record m { has_timer = true }
hold _ m = m

-- The error that the initialisation makes of a call's failure.
abbrev pub failure : SetUpCall → EspErr → EspErr
failure create_mutex e = esp_err_no_mem
failure create_netif e = esp_fail
failure _ e = e

abbrev pub set_up_calls : List SetUpCall
set_up_calls =
    create_mutex ∷ netif_init ∷ create_event_loop ∷ create_netif ∷ wifi_init ∷ register_wifi
    ∷ register_ip ∷ set_storage ∷ set_mode ∷ set_config ∷ wifi_start ∷ create_timer ∷ []

module _ {W : Type 0} (idf : Idf W) where
  -- `wifi_manager_trigger_reconnect`
  unfoldable pub trigger_reconnect : Manager × W → Manager × W
  trigger_reconnect (m, w) =
      if m.has_timer
      then (let t = next_timeout m.timeout_us in
          (record m { timeout_us = t }, idf.start_once t (idf.stop_timer w)))
      else (m, w)

  -- `wifi_event_handler`
  unfoldable pub handle_event : WifiEvent → Manager × W → Manager × W
  unfolding trigger_reconnect
  handle_event sta_start (m, w) = (set_state connecting m, idf.connect w)
  handle_event sta_disconnected (m, w) = trigger_reconnect (set_state disconnected m, w)
  handle_event sta_got_ip (m, w) =
      (record (set_state connected m) { timeout_us = min_timeout_us }, w)
  handle_event other_event (m, w) = (m, w)

  unfoldable pub handle_events : List WifiEvent → Manager × W → Manager × W
  handle_events [] s = s
  handle_events (e ∷ es) s = handle_events es (handle_event e s)

  -- The second half of the timer's callback: the state is read again.
  unfoldable pub rearm : Manager × W → Manager × W
  rearm (m, w) = if is_waiting (get_state m) then trigger_reconnect (m, w) else (m, w)

  -- `reconnect_timer_callback`, with the events that the handler takes before the state is read for
  -- the second time.
  unfoldable pub timer_callback : List WifiEvent → Manager × W → Manager × W
  timer_callback between (m, w) =
      rearm (handle_events between (m, if is_connected (get_state m) then w else idf.connect w))

  -- `wifi_manager_deinit`
  abbrev forget : Bool → TearDownCall → W → W
  forget held call w = if held then (idf.tear_down call w).1 else w

  unfoldable pub deinit : Manager → W → Manager × W
  deinit m w =
      let w1 = forget m.has_timer delete_timer (if m.has_timer then idf.stop_timer w else w) in
      let (stopped, w2) = idf.tear_down wifi_stop w1 in
      let w3 = forget (is_ok stopped) wifi_deinit w2 in
      let w4 = forget m.has_ip_ctx unregister_ip w3 in
      let w5 = forget m.has_wifi_ctx unregister_wifi w4 in
      (
        record m { has_timer = false; has_ip_ctx = false; has_wifi_ctx = false; has_lock = false },
        forget m.has_lock delete_mutex w5,
      )

  -- The calls up to the first that fails.
  unfoldable pub set_up_from : List SetUpCall → Manager → W → EspErr × Manager × W
  set_up_from [] m w = (esp_ok, m, w)
  set_up_from (c ∷ calls) m w =
      let (e, w') = idf.set_up c w in
      if is_ok e then set_up_from calls (hold c m) w' else (failure c e, m, w')

  unfoldable pub give_up : EspErr × Manager × W → EspErr × Manager × W
  give_up (e, m, w) = if is_ok e then (e, m, w) else (let (m', w') = deinit m w in (e, m', w'))

  -- `wifi_manager_init`; whether a configuration was given.
  unfoldable pub init : Bool → Manager → W → EspErr × Manager × W
  init given m w =
      give_up (if given then set_up_from set_up_calls m w else (esp_err_invalid_arg, m, w))
