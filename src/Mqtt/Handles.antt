-- ===== src/Mqtt/Handles.antt =====
-- The initialisation of components/mqtt_bridge/mqtt_bridge.c, the events that come before it ends, and
-- what a publication depends on.
use modbus_vault.Base.{
  ℕ, ◌<◌, ◌≡◌, ◌≢◌, ◌↔◌, refl, ap, ◌∙◌, Bool, true, false, Bool-cases, ◌⊎◌, inl, inr, List, [], ◌∷◌,
  Option, none, some, arith, length,
}
use modbus_vault.Base.{EspErr, esp_ok, esp_err_invalid_arg, is_ok}
use modbus_vault.Mqtt.{
  Bridge, MqttEvent, Client, SetUpCall, change, handle_event, handle_events, publish, send,
  set_up_calls, set_up_from, deinit, finish, init, hold, failure,
}
use modbus_vault.Mqtt.Events.{handle-has_lock}

abbrev hold_all : List SetUpCall → Bridge → Bridge
hold_all [] b = b
hold_all (c ∷ calls) b = hold_all calls (hold c b)

failure_lem : (c : SetUpCall) (e : EspErr) → is_ok e ≡ false → is_ok (failure c e) ≡ false
failure_lem c e h = ground arith

hold-has_notify : (c : SetUpCall) (b : Bridge) → (hold c b).has_notify ≡ b.has_notify
hold-has_notify c b = ground arith

module _ {W : Type 0} (client : Client W) where
  -- Either all calls are made, or one fails and with it the whole.
  set_up-cases :
      (calls : List SetUpCall) (b : Bridge) (w : W)
      → let r = set_up_from client calls b w in
        ((r.0 ≡ esp_ok) × (r.1 ≡ hold_all calls b)) ⊎ (is_ok r.0 ≡ false)
  unfolding set_up_from
  set_up-cases [] b w = inl (refl, refl)
  set_up-cases (c ∷ calls) b w = elim (Bool-cases (is_ok (client.set_up c w).0)) [
    | inl h ↦ rw h (set_up-cases calls (hold c b) (client.set_up c w).1)
    | inr h ↦ rw h (inr (failure_lem c (client.set_up c w).0 h))
  ]

  -- The handles and success, or none and an error.
  abbrev pub Outcome : EspErr × Bridge × W → Type 0
  Outcome (e, b, w) =
      ((e ≡ esp_ok) × (b.has_lock ≡ true) × (b.has_client ≡ true))
      ⊎ ((e ≢ esp_ok) × (b.has_lock ≡ false) × (b.has_client ≡ false))

  events-keep :
      (es : List (MqttEvent × Bool)) (b : Bridge) (w : W)
      → let b' = (handle_events client es (b, w)).0 in
        (b'.has_lock ≡ b.has_lock) × (b'.has_notify ≡ b.has_notify) × (b'.has_client ≡ b.has_client)
  unfolding handle_events
  events-keep [] b w = (refl, refl, refl)
  events-keep ((e, taken) ∷ es) b w =
      let (b', w') = handle_event client e taken (b, w) in
      let (l1, n1, c1) = handle-has_lock client e taken b w in
      let (l2, n2, c2) = events-keep es b' w' in (l2 ∙ l1, n2 ∙ n1, c2 ∙ c1)

  finish-Outcome :
      (has_cb : Bool) (between : List (MqttEvent × Bool)) (e : EspErr) (b : Bridge) (w : W)
      → ((e ≡ esp_ok) × (b.has_lock ≡ true) × (b.has_client ≡ true)) ⊎ (is_ok e ≡ false)
      → Outcome (finish client has_cb between (e, b, w))
  unfolding finish deinit
  finish-Outcome has_cb between e b w (inl (fine, locked, clientful)) =
      let (l, n, c) = events-keep between b w in rw fine (inl (refl, l ∙ locked, c ∙ clientful))
  finish-Outcome has_cb between e b w (inr failed) =
      rw failed (inr ((λ fine. absurd (ground (arith, fine, failed))), refl, refl))

  -- The initialisation either succeeds, and the bridge has its lock and its client, or it fails, and
  -- none of them is left, whatever events come meanwhile.
  pub init-Outcome :
      (config : Option Bool) (between : List (MqttEvent × Bool)) (b : Bridge) (w : W)
      → Outcome (init client config between b w)
  unfolding init
  init-Outcome none between b w = finish-Outcome false between esp_err_invalid_arg b w (inr refl)
  init-Outcome (some has_cb) between b w =
      let (e, b', w') = set_up_from client set_up_calls b w in
      finish-Outcome has_cb between e b' w' (elim (set_up-cases set_up_calls b w) [
        | inl (fine, held) ↦ inl (fine, rw held refl, rw held refl)
        | inr failed ↦ inr failed
      ])

  set_up-has_notify :
      (calls : List SetUpCall) (b : Bridge) (w : W)
      → is_ok (set_up_from client calls b w).0 ≡ true
      → (set_up_from client calls b w).1.has_notify ≡ b.has_notify
  unfolding set_up_from
  set_up-has_notify [] b w h = refl
  set_up-has_notify (c ∷ calls) b w h = elim (Bool-cases (is_ok (client.set_up c w).0)) [
    | inl fine ↦ rw fine (
        set_up-has_notify calls (hold c b) (client.set_up c w).1 (rw fine at h)
        ∙ hold-has_notify c b)
    | inr failed ↦
        absurd (ground (arith, failure_lem c (client.set_up c w).0 failed, (rw failed at h)))
  ]

  -- Without a callback the events change nothing but the bridge.
  unheard :
      (es : List (MqttEvent × Bool)) (b : Bridge) (w : W)
      → b.has_notify ≡ false
      → (handle_events client es (b, w)).1 ≡ w
  unfolding handle_events
  unheard [] b w h = refl
  unheard ((e, taken) ∷ es) b w h =
      let (b', w') = handle_event client e taken (b, w) in
      let (l, n, c) = handle-has_lock client e taken b w in
      unheard es b' w' (n ∙ h) ∙ event-unheard e taken b w h
    where
      event-unheard :
          (e : MqttEvent) (taken : Bool) (b : Bridge) (w : W)
          → b.has_notify ≡ false
          → (handle_event client e taken (b, w)).1 ≡ w
      event-unheard e taken b w h = unfold handle_event change in ground arith

  -- The events that come after the client was started and before the initialisation has ended are
  -- lost: on a bridge that has had no callback, the bridge shows no link, and nothing was reported.
  pub init-loses_link :
      (has_cb : Bool) (between : List (MqttEvent × Bool)) (b : Bridge) (w : W)
      → b.has_notify ≡ false
      → (set_up_from client set_up_calls b w).0 ≡ esp_ok
      → let r = init client (some has_cb) between b w in
        (r.0 ≡ esp_ok)
        × (r.1.mqtt_connected ≡ false)
        × (r.2 ≡ (set_up_from client set_up_calls b w).2)
  unfolding init finish
  init-loses_link has_cb between b w silent fine =
      let (e, b', w') = set_up_from client set_up_calls b w in
      let quiet : b'.has_notify ≡ false =
        set_up-has_notify set_up_calls b w (ap is_ok fine) ∙ silent in
      rw fine (refl, refl, unheard between b' w' quiet)

  -- A publication succeeds exactly if there are a client, a lock and bytes, the link was up when it
  -- was looked at, the lock was taken and the client accepted the bytes; the events that come after
  -- the look do not count.
  pub publish-ok_iff :
      (taken : Bool) (between : List (MqttEvent × Bool)) (topic bytes : List ℕ) (qos : ℕ)
      (b : Bridge) (w : W)
      → ((publish client taken between topic (some bytes) qos (b, w)).0 ≡ esp_ok) ↔ (
          (b.has_client ≡ true)
          × (b.has_lock ≡ true)
          × (0 < length bytes)
          × (b.mqtt_connected ≡ true)
          × (taken ≡ true)
          × ((client.publish topic bytes qos (handle_events client between (b, w)).1).0 ≡ true))
  unfolding publish send
  publish-ok_iff taken between topic bytes qos b w = ground arith
