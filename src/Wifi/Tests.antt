-- ===== src/Wifi/Tests.antt =====
-- A link whose timer is the time that it is set to, and an initialisation that fails on the way.
use modbus_vault.Base.{
  ℕ, ◌^◌, ◌≡◌, refl, true, false, inl, List, [], ◌∷◌, Option, none, some, arith,
}
use modbus_vault.Base.{EspErr, esp_ok, esp_fail}
use modbus_vault.Wifi.{
  Manager, Idf, IsIdf, SetUpCall, boot, idle, connecting, disconnected, sta_start, sta_disconnected,
  sta_got_ip, init, set_up_from, give_up, deinit, handle_event, handle_events, rearm,
  timer_callback, trigger_reconnect, next_timeout,
}
use modbus_vault.Wifi.Retry.{
  Step, event, time_out, step, run, run-Retries, IsUp, Retries, Lost, failed_attempts,
  failed_attempts-quadruple,
}

abbrev starts : SetUpCall → EspErr
starts SetUpCall.wifi_start = esp_fail
starts _ = esp_ok

-- The timer alone; `refused` is what ESP-IDF answers to the calls of the initialisation.
abbrev idf : (SetUpCall → EspErr) → Idf (Option ℕ)
idf answer = record {
  set_up = λ c w. (answer c, w);
  tear_down = λ c w. (esp_ok, w);
  connect = λ w. w;
  stop_timer = λ w. none;
  start_once = λ t w. some t;
  expire = λ w. none;
}

abbrev all_well : Idf (Option ℕ)
all_well = idf (λ c. esp_ok)

all_well-IsIdf : IsIdf all_well
all_well-IsIdf = record { armed = λ w. w; stopped = λ w. refl; started = λ t w h. refl }

abbrev up : Manager
up = record {
  has_lock = true;
  state = idle;
  has_timer = true;
  timeout_us = 1_000_000;
  has_wifi_ctx = true;
  has_ip_ctx = true;
}

up-IsUp : IsUp up
up-IsUp = record { locked = refl; timed = refl; timeout = (omega arith, omega arith) }

init_ready : init all_well true boot none ≡ (esp_ok, up, none)
unfolding init give_up set_up_from
init_ready = refl

init_fails : init (idf starts) true boot none ≡ (esp_fail, boot, none)
unfolding init give_up set_up_from deinit
init_fails = refl

-- The first time that is waited for is two seconds; one failed attempt makes eight of them.
waits :
    run all_well (event sta_start ∷ event sta_disconnected ∷ failed_attempts 1) (up, none)
    ≡ (record up { state = disconnected; timeout_us = 8_000_000 }, some 8_000_000)
unfolding run step handle_event handle_events rearm timer_callback trigger_reconnect next_timeout
waits = refl

abbrev steps : List Step
steps =
    event sta_start ∷ event sta_disconnected ∷ time_out (sta_got_ip ∷ sta_disconnected ∷ []) ∷ []

run-Retries_example :
    IsUp (run all_well steps (up, none)).0
    × Retries all_well all_well-IsIdf (run all_well steps (up, none))
run-Retries_example = run-Retries all_well all_well-IsIdf steps up none up-IsUp (inl refl)

abbrev lost : Manager
lost = record up { state = disconnected; timeout_us = 2_000_000 }

failed_attempts-quadruple_example :
    Lost all_well all_well-IsIdf
      (4 ^ 3)
      2_000_000
      (run all_well (failed_attempts 3) (lost, some 2_000_000))
unfolding all_well-IsIdf
failed_attempts-quadruple_example =
    failed_attempts-quadruple all_well all_well-IsIdf 3 lost (some 2_000_000)
      (record { locked = refl; timed = refl; timeout = (omega arith, omega arith) }) refl refl

abbrev timeless : Manager
timeless = record up { state = connecting; has_timer = false }
