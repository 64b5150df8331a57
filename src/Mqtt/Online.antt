-- ===== src/Mqtt/Online.antt =====
-- The link of components/mqtt_bridge/mqtt_bridge.c as components/telemetry_service/telemetry_service.c
-- is told of it: `telemetry_service_set_online` is the bridge's callback.
use modbus_vault.Base.{◌≡◌, refl, ap, ◌∙◌, Bool, true, false, List, [], ◌∷◌, arith}
use modbus_vault.Rtos.{QueueOps}
use modbus_vault.Modbus.Analyzer.{AnalyzerFrame}
use modbus_vault.Telemetry.{System, Env, TelemetryRecord, set_online}
use modbus_vault.Mqtt.{
  Bridge, MqttEvent, event_connected, event_disconnected, Client, change, handle_event,
  handle_events,
}
use modbus_vault.Mqtt.Events.{changes, last_or, changed, notify_all, handle_events-changed}

module _ {R Q W : Type 0} (raw : QueueOps R AnalyzerFrame) (ops : QueueOps Q TelemetryRecord)
    (env : Env W) where
  -- A client whose callback is `telemetry_service_set_online`.
  abbrev pub Notifies : Client (System R Q W) → Type 0
  Notifies client =
      (online : Bool) (s : System R Q W) → client.notify online s ≡ set_online raw ops env online s

  told :
      (client : Client (System R Q W)) (xs : List Bool) (s : System R Q W)
      → Notifies client
      → ((w : W) → (env.lock_free w).0 ≡ true)
      → s.has_state_lock ≡ true
      → (notify_all client xs s).is_online_flag ≡ last_or s.is_online_flag xs
  told client [] s notifies free locked = refl
  told client (x ∷ xs) s notifies free locked =
      let (flag, lock) = told_one x s free locked in
      told client xs (client.notify x s) notifies free
        (ap (λ t. t.has_state_lock) (notifies x s) ∙ lock)
      ∙ ap (λ f. last_or f xs) (ap (λ t. t.is_online_flag) (notifies x s) ∙ flag)
    where
      told_one :
          (x : Bool) (s : System R Q W)
          → ((w : W) → (env.lock_free w).0 ≡ true)
          → s.has_state_lock ≡ true
          → ((set_online raw ops env x s).is_online_flag ≡ x)
            × ((set_online raw ops env x s).has_state_lock ≡ true)
      told_one x s free locked = unfold set_online in ground (arith, free s.world)

  -- As long as the state lock is free whenever it is asked for, the flag of the telemetry service
  -- agrees with the bridge after any events of the client, if it did before.
  pub events-agree :
      (client : Client (System R Q W)) (es : List (MqttEvent × Bool)) (b : Bridge)
      (s : System R Q W)
      → Notifies client
      → ((w : W) → (env.lock_free w).0 ≡ true)
      → s.has_state_lock ≡ true
      → b.has_lock ≡ true
      → b.has_notify ≡ true
      → s.is_online_flag ≡ b.mqtt_connected
      → let (b', s') = handle_events client es (b, s) in s'.is_online_flag ≡ b'.mqtt_connected
  events-agree client es b s notifies free has_state locked has_cb agree =
      rw (handle_events-changed client es b s locked) (agreed (changes es))
    where
      agreed :
          (xs : List Bool)
          → (changed client xs (b, s)).1.is_online_flag
            ≡ (changed client xs (b, s)).0.mqtt_connected
      agreed xs =
          unfold changed in
          rw has_cb (told client xs s notifies free has_state ∙ ap (λ f. last_or f xs) agree)

  -- A change of the link that comes while the state lock is taken by somebody reaches the bridge, but
  -- not the telemetry service: its flag stays as it was.
  pub busy_lock-disagrees :
      (client : Client (System R Q W)) (b : Bridge) (s : System R Q W)
      → Notifies client
      → (env.lock_free s.world).0 ≡ false
      → b.has_lock ≡ true
      → b.has_notify ≡ true
      → ((handle_event client event_connected true (b, s)).0.mqtt_connected ≡ true)
        × ((handle_event client event_connected true (b, s)).1.is_online_flag ≡ s.is_online_flag)
        × ((handle_event client event_disconnected true (b, s)).0.mqtt_connected ≡ false)
        × ((handle_event client event_disconnected true (b, s)).1.is_online_flag ≡ s.is_online_flag)
  unfolding handle_event change
  busy_lock-disagrees client b s notifies busy locked has_cb =
      rw (locked, has_cb)
        (
          refl,
          ap (λ t. t.is_online_flag) (notifies true s) ∙ kept true,
          refl,
          ap (λ t. t.is_online_flag) (notifies false s) ∙ kept false,
        )
    where
      kept : (x : Bool) → (set_online raw ops env x s).is_online_flag ≡ s.is_online_flag
      kept x = unfold set_online in ground (arith, busy)
