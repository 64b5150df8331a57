-- ===== src/Controller.antt =====
-- components/controller: system_init.c brings the parts of the program up in order and takes them
-- down again; controller.c runs a state machine around that. What the parts do is a parameter.
pub mod Order
pub mod Stopping
mod Tests
use modbus_vault.Base.{
  ℕ, zero, suc, Bool, true, false, ◌&&◌, List, [], ◌∷◌, Option, none, some, if◌then◌else◌,
}
use modbus_vault.Base.{EspErr, esp_ok, esp_fail, is_ok}

-- `init_step_t`
pub data InitStep : Type 0 where
  step_default_config step_nvs step_config step_tele_plin step_tele_serv step_log_serv : InitStep
  step_wifi step_event_bus step_metrics step_slab step_complete : InitStep

-- The `*_deinit` calls, and `system_config_reset`.
pub data Part : Type 0 where
  telemetry_service logger_service telemetry_pipeline wifi_manager event_bus slab_pool : Part
  system_config nvs_manager : Part

-- `controller_state_t`
pub data ControllerState : Type 0 where
  state_uninitialized state_init state_running state_fault state_stopping : ControllerState

-- What the parts do: the call of each step of the initialisation, the calls that take the parts down,
-- and the start (`pdPASS` or not) and stop of all tasks.
pub record Parts (W : Type 0) : Type 0 where
  pub bring_up : InitStep → W → EspErr × W
  pub take_down : Part → W → W
  pub start_tasks : W → Bool × W
  pub stop_tasks : W → W

-- The step that a step of the `switch` sets.
abbrev pub next_step : InitStep → InitStep
next_step step_default_config = step_nvs
next_step step_nvs = step_config
next_step step_config = step_wifi
next_step step_wifi = step_slab
next_step step_slab = step_event_bus
next_step step_event_bus = step_metrics
next_step step_metrics = step_tele_plin
next_step step_tele_plin = step_tele_serv
next_step step_tele_serv = step_log_serv
next_step step_log_serv = step_complete
next_step step_complete = step_complete

abbrev pub is_complete : InitStep → Bool
is_complete step_complete = true
is_complete _ = false

-- The order in which `system_deinit` takes the parts down.
abbrev pub down_order : List Part
down_order =
    telemetry_service ∷ logger_service ∷ telemetry_pipeline ∷ wifi_manager ∷ event_bus ∷ slab_pool
    ∷ system_config ∷ nvs_manager ∷ []

-- The state of controller.c, and the rest of the program.
pub record Controller (W : Type 0) : Type 0 where
  pub current_state : ControllerState
  pub has_mutex : Bool
  pub world : W

-- What happens around a round of the loop: whether the lock is taken in time by the read and by the
-- write of the state, and the stops that are requested while the round works and in the delay at its
-- end, their locks taken or not.
pub record Moment : Type 0 where
  pub get_taken : Bool
  pub set_taken : Bool
  pub request : Option Bool
  pub delayed_request : Option Bool

-- `controller_get_state`
abbrev pub get_state : {W : Type 0} → Bool → Controller W → ControllerState
get_state taken c = if c.has_mutex && taken then c.current_state else state_uninitialized

-- `set_state_helper`, for a lock that is taken in time or not.
unfoldable pub set_state : {W : Type 0} → Bool → ControllerState → Controller W → Controller W
set_state taken state c = if c.has_mutex && taken then record c { current_state = state } else c

-- `controller_request_stop`, if it is called.
unfoldable pub requested : {W : Type 0} → Option Bool → Controller W → Controller W
unfolding set_state
requested none c = c
requested (some taken) c = set_state taken state_stopping c

module _ {W : Type 0} (parts : Parts W) where
  unfoldable pub take_all_down : List Part → W → W
  take_all_down [] w = w
  take_all_down (part ∷ rest) w = take_all_down rest (parts.take_down part w)

  -- `system_deinit`
  unfoldable pub system_deinit : W → W
  unfolding take_all_down
  system_deinit w = take_all_down down_order w

  -- The `while` of `system_init`, from a step on.
  unfoldable pub init_loop : ℕ → InitStep → W → Option (EspErr × W)
  unfolding system_deinit
  init_loop zero step w = none
  init_loop (suc fuel) step w = elim (is_complete step) [
    | true ↦ some (esp_ok, w)
    | false ↦
        let (e, w') = parts.bring_up step w in
        elim (is_ok e) [
          | true ↦ init_loop fuel (next_step step) w'
          | false ↦ some (e, system_deinit w')
        ]
  ]

  -- There are ten steps before the last.
  unfoldable pub system_init : W → Option (EspErr × W)
  unfolding init_loop
  system_init w = init_loop 11 step_default_config w

  start_all : EspErr × W → EspErr × W
  start_all (e, w) =
      if is_ok e
      then (let (started, w') = parts.start_tasks w in (if started then esp_ok else esp_fail, w'))
      else (e, w)

  started : Option (EspErr × W) → Option (EspErr × W)
  unfolding start_all
  started none = none
  started (some r) = some (start_all r)

  -- `handle_init_helper`
  unfoldable pub handle_init : W → Option (EspErr × W)
  unfolding started
  handle_init w = started (system_init w)

  -- `handle_deinit_helper`
  unfoldable pub handle_deinit : W → W
  handle_deinit w = system_deinit (parts.stop_tasks w)

  -- After the initialisation, and a stop that was requested in the meantime.
  unfoldable pub initialised : Moment → Controller W → Option (EspErr × W) → Option (Controller W)
  unfolding set_state requested
  initialised m c none = none
  initialised m c (some (e, w)) = some (
      set_state m.set_taken (if is_ok e then state_running else state_fault)
        (requested m.request (record c { world = w })))

  -- The `switch` of `controller_run`.
  unfoldable pub handle : Moment → ControllerState → Controller W → Option (Controller W)
  unfolding initialised
  handle m state_init c = initialised m c (handle_init c.world)
  handle m state_running c = some (requested m.request c)
  handle m state_fault c = some (set_state m.set_taken state_init (requested m.request c))
  handle m state_stopping c = some (
      set_state m.set_taken state_uninitialized
        (requested m.request (record c { world = handle_deinit c.world })))
  handle m state_uninitialized c = some (requested m.request c)

  -- The `while` of `controller_run`, for the moments that come: whether it has ended, and with what.
  -- `value` is `state_loop_value`.
  unfoldable pub run : List Moment → ControllerState → Controller W → Option (Bool × Controller W)
  unfolding handle requested
  run moments state_uninitialized c = some (true, record c { has_mutex = false })
  run [] value c = some (false, c)
  run (m ∷ moments) value c = elim (handle m (get_state m.get_taken c) c) [
    | none ↦ none
    | some c' ↦ run moments (get_state m.get_taken c) (requested m.delayed_request c')
  ]

  -- `controller_run`, for a mutex that is created or not, and the locks of its first two accesses.
  unfoldable pub controller_run :
      Bool → Bool → Bool → List Moment → Controller W → Option (Bool × Controller W)
  unfolding run set_state
  controller_run created set_taken get_taken moments c =
      if created
      then (let c' = set_state set_taken state_init (record c { has_mutex = true }) in
          run moments (get_state get_taken c') c')
      else some (true, c)
