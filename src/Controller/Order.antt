-- ===== src/Controller/Order.antt =====
-- The order of components/controller/system_init.c: the steps of the initialisation one after the
-- other, up to the first that fails.
use modbus_vault.Base.{◌≡◌, true, false, List, [], ◌∷◌, if◌then◌else◌}
use modbus_vault.Base.{EspErr, esp_ok, is_ok}
use modbus_vault.Controller.{
  InitStep, Parts, step_default_config, step_nvs, step_config, step_wifi, step_slab, step_event_bus,
  step_metrics, step_tele_plin, step_tele_serv, step_log_serv, next_step, is_complete,
  telemetry_service, logger_service, telemetry_pipeline, wifi_manager, event_bus, slab_pool,
  system_config, nvs_manager,
}

abbrev pub init_order : List InitStep
init_order =
    step_default_config ∷ step_nvs ∷ step_config ∷ step_wifi ∷ step_slab ∷ step_event_bus
    ∷ step_metrics ∷ step_tele_plin ∷ step_tele_serv ∷ step_log_serv ∷ []

module _ {W : Type 0} (parts : Parts W) where
  -- The eight parts taken down, the telemetry service first and nvs_manager last.
  abbrev pub all_down : W → W
  all_down w =
      let services : W =
        parts.take_down telemetry_pipeline
          (parts.take_down logger_service (parts.take_down telemetry_service w)) in
      let buses : W =
        parts.take_down slab_pool
          (parts.take_down event_bus (parts.take_down wifi_manager services)) in
      parts.take_down nvs_manager (parts.take_down system_config buses)

  -- The steps of a list in order; the first that fails ends them, and the eight parts are taken down.
  abbrev pub in_order : List InitStep → W → EspErr × W
  in_order [] w = (esp_ok, w)
  in_order (step ∷ steps) w =
      let (e, w') = parts.bring_up step w in if is_ok e then in_order steps w' else (e, all_down w')

  -- The list is the way of the `switch` from a step on.
  abbrev IsWay : InitStep → List InitStep → Type 0
  IsWay step [] = is_complete step ≡ true
  IsWay step (s ∷ steps) = (s ≡ step) × (is_complete step ≡ false) × IsWay (next_step step) steps
