-- ===== src/Controller/Tests.antt =====
-- Runs of the controller over parts that write down what is done to them.
use modbus_vault.Base.{
  ℕ, ◌≡◌, refl, Bool, true, false, List, [], ◌∷◌, ◌++◌, none, some, if◌then◌else◌,
}
use modbus_vault.Base.{EspErr, esp_ok, esp_fail}
use modbus_vault.Controller.{
  InitStep, Parts, Controller, state_init, state_fault, state_uninitialized, step_wifi, system_init,
  system_deinit, take_all_down, init_loop, handle, run,
}
use modbus_vault.Controller.Stopping.{calm, stopped, failed, stop_request-overwritten}

-- How many calls there were; the step of the Wi-Fi fails if there were none before the start.
abbrev bring_up : Bool → InitStep → List ℕ → EspErr × List ℕ
bring_up wifi step_wifi w = (if wifi then esp_ok else esp_fail, w ++ 4 ∷ [])
bring_up wifi _ w = (esp_ok, w ++ 1 ∷ [])

parts_of : Bool → Parts (List ℕ)
parts_of wifi = record {
  bring_up = bring_up wifi;
  take_down = λ part w. w ++ 2 ∷ [];
  start_tasks = λ w. (true, w ++ 3 ∷ []);
  stop_tasks = λ w. w ++ 5 ∷ [];
}

-- The fourth step fails, and eight parts are taken down.
failed_init :
    system_init (parts_of false) []
    ≡ some (esp_fail, 1 ∷ 1 ∷ 1 ∷ 4 ∷ 2 ∷ 2 ∷ 2 ∷ 2 ∷ 2 ∷ 2 ∷ 2 ∷ 2 ∷ [])
unfolding system_init init_loop system_deinit take_all_down parts_of
failed_init = refl

abbrev idle : Controller (List ℕ)
idle = record { current_state = state_uninitialized; has_mutex = false; world = [] }

abbrev up : List ℕ
up = 1 ∷ 1 ∷ 1 ∷ 4 ∷ 1 ∷ 1 ∷ 1 ∷ 1 ∷ 1 ∷ 1 ∷ 3 ∷ []

abbrev locked : Controller (List ℕ)
locked = record { current_state = state_init; has_mutex = true; world = [] }

stop_request-overwritten_example :
    (handle (parts_of true) (calm (some true)) state_init locked
      ≡ handle (parts_of true) (calm none) state_init locked)
    × (handle (parts_of true) (calm (some true)) state_fault locked
        ≡ handle (parts_of true) (calm none) state_fault locked)
    × (run
          (parts_of true)
          (record (calm none) { delayed_request = some true } ∷ calm none ∷ calm none ∷ [])
          state_fault
          (failed (parts_of true) [])
        ≡ some (true, stopped (parts_of true) []))
stop_request-overwritten_example =
    stop_request-overwritten (parts_of true) (some true) locked [] refl
