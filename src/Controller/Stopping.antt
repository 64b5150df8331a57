-- ===== src/Controller/Stopping.antt =====
-- Requests to stop in components/controller/controller.c: one that comes while the system runs is
-- followed, one that comes while it is brought up is overwritten.
use modbus_vault.Base.{
  ℕ, ◌≡◌, refl, sym, ap, ◌∙◌, Bool, true, false, List, ◌∷◌, Option, none, some, arith,
  if◌then◌else◌, ◌++◌, replicate,
}
use modbus_vault.Base.{EspErr, is_ok}
use modbus_vault.Controller.Order.{all_down}
use modbus_vault.Controller.{
  Parts, Moment, Controller, ControllerState, state_init, state_running, state_fault,
  state_uninitialized, set_state, requested, initialised, handle, handle_init, handle_deinit, run,
  system_deinit, take_all_down,
}

-- A moment at which the lock is free, with a stop requested or without.
abbrev pub calm : Option Bool → Moment
calm request = record {
  get_taken = true;
  set_taken = true;
  request = request;
  delayed_request = none;
}

-- The moments of a system that runs for a while and is then asked to stop.
abbrev pub stop_after : ℕ → List Moment → List Moment
stop_after rounds m = replicate rounds (calm none) ++ calm (some true) ∷ calm none ∷ calm none ∷ m

module _ {W : Type 0} (parts : Parts W) where
  set_state-requested :
      (state : ControllerState) (request : Option Bool) (c : Controller W)
      → c.has_mutex ≡ true
      → set_state true state (requested request c) ≡ set_state true state c
  unfolding set_state requested
  set_state-requested state none c locked = refl
  set_state-requested state (some false) c locked = ground (arith, locked)
  set_state-requested state (some true) c locked = ground (arith, locked)

  initialised-requested :
      (request : Option Bool) (c : Controller W) (r : Option (EspErr × W))
      → c.has_mutex ≡ true
      → initialised parts (calm request) c r ≡ initialised parts (calm none) c r
  unfolding initialised
  initialised-requested request c none locked = refl
  initialised-requested request c (some (e, w)) locked = ap some (
      set_state-requested (if is_ok e then state_running else state_fault) request
        (record c { world = w }) locked
      ∙ sym (
          set_state-requested (if is_ok e then state_running else state_fault) none
            (record c { world = w }) locked))

  abbrev pub running : W → Controller W
  running w = record { current_state = state_running; has_mutex = true; world = w }

  -- The controller once the loop has ended: the tasks were stopped, and then the eight parts were taken
  -- down.
  abbrev pub stopped : W → Controller W
  stopped w = record {
    current_state = state_uninitialized;
    has_mutex = false;
    world = all_down parts (parts.stop_tasks w);
  }

  abbrev pub failed : W → Controller W
  failed w = record { current_state = state_fault; has_mutex = true; world = w }

  -- A stop that is requested while the system is brought up, or in a round that follows a failure,
  -- between its read of the state and its write of the new one, leaves no trace: what the round does
  -- and the state behind it are as without the request. One that is requested in the delay behind the
  -- round that follows a failure is obeyed: the loop stops the tasks, takes the eight parts down and
  -- ends.
  pub stop_request-overwritten :
      (request : Option Bool) (c : Controller W) (m : List Moment)
      → c.has_mutex ≡ true
      → (handle parts (calm request) state_init c ≡ handle parts (calm none) state_init c)
        × (handle parts (calm request) state_fault c ≡ handle parts (calm none) state_fault c)
        × (run parts
              (record (calm none) { delayed_request = some true } ∷ calm none ∷ calm none ∷ m)
              state_fault
              (failed c.world)
            ≡ some (true, stopped c.world))
  unfolding handle run set_state requested handle_deinit system_deinit take_all_down
  stop_request-overwritten request c m locked = (
    initialised-requested request c (handle_init parts c.world) locked,
    ap some (
        set_state-requested state_init request c locked
        ∙ sym (set_state-requested state_init none c locked)),
    refl,
  )

  -- The loop behind the first initialisation.
  go_on : List Moment → Controller W → Option (EspErr × W) → Option (Bool × Controller W)
  unfolding initialised set_state requested
  go_on moments c r = elim (initialised parts (calm none) c r) [
    | none ↦ none
    | some c' ↦ run parts moments state_init c'
  ]

  -- A read of the state whose lock is not free in time ends the loop, with everything left as it is.
  pub run-ends_unlocked :
      (c : Controller W) (set_taken : Bool) (m : List Moment)
      → run parts
          (record {
            get_taken = false;
            set_taken = set_taken;
            request = none;
            delayed_request = none;
          }
            ∷ m)
          state_running
          c
        ≡ some (true, record c { has_mutex = false })
  unfolding run handle requested
  run-ends_unlocked c set_taken m = ground arith
