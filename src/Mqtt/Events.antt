-- ===== src/Mqtt/Events.antt =====
-- What the events of the client come to in components/mqtt_bridge/mqtt_bridge.c: the state of the link
-- and the calls of the callback.
use modbus_vault.Base.{
  ◌≡◌, refl, ap, sym, ◌∙◌, Bool, true, false, Bool-cases, inl, inr, List, [], ◌∷◌, if◌then◌else◌,
  if_true, arith,
}
use modbus_vault.Mqtt.{
  Bridge, MqttEvent, event_connected, event_disconnected, event_other, Client, change, handle_event,
  handle_events,
}

-- The changes of the link that events report, of those for which the lock was taken.
abbrev pub changes : List (MqttEvent × Bool) → List Bool
changes [] = []
changes ((e, false) ∷ es) = changes es
changes ((event_connected, true) ∷ es) = true ∷ changes es
changes ((event_disconnected, true) ∷ es) = false ∷ changes es
changes ((event_other, true) ∷ es) = changes es

-- The last of them, or what was before.
abbrev pub last_or : Bool → List Bool → Bool
last_or online [] = online
last_or online (x ∷ xs) = last_or x xs

module _ {W : Type 0} (client : Client W) where
  abbrev pub notify_all : List Bool → W → W
  notify_all [] w = w
  notify_all (x ∷ xs) w = notify_all xs (client.notify x w)

  -- What changes of the link make of a bridge and its world.
  unfoldable pub changed : List Bool → Bridge × W → Bridge × W
  changed xs (b, w) = (
    record b { mqtt_connected = last_or b.mqtt_connected xs },
    if b.has_notify then notify_all xs w else w,
  )

  changed-nil : (b : Bridge) (w : W) → changed [] (b, w) ≡ (b, w)
  unfolding changed
  changed-nil b w = elim (Bool-cases b.has_notify) [ inl h ↦ rw h refl | inr h ↦ rw h refl ]

  changed-cons :
      (x : Bool) (xs : List Bool) (b : Bridge) (w : W)
      → changed xs (change client x true (b, w)) ≡ changed (x ∷ xs) (b, w)
  unfolding changed change
  changed-cons x xs b w = elim (Bool-cases b.has_notify) [ inl h ↦ rw h refl | inr h ↦ rw h refl ]

  change-cons :
      (e : MqttEvent) (x taken : Bool) (es : List (MqttEvent × Bool)) (b : Bridge) (w : W)
      → changes ((e, true) ∷ es) ≡ x ∷ changes es
      → changed (changes es) (change client x taken (b, w))
        ≡ changed (changes ((e, taken) ∷ es)) (b, w)
  unfolding change
  change-cons e x false es b w h = refl
  change-cons e x true es b w h =
      changed-cons x (changes es) b w ∙ ap (λ xs. changed xs (b, w)) (sym h)

  handle-locked :
      (e : MqttEvent) (taken : Bool) (es : List (MqttEvent × Bool)) (b : Bridge) (w : W)
      → b.has_lock ≡ true
      → changed (changes es) (handle_event client e taken (b, w))
        ≡ changed (changes ((e, taken) ∷ es)) (b, w)
  unfolding handle_event
  handle-locked event_connected taken es b w locked =
      ap (changed (changes es)) (if_true b.has_lock (change client true taken (b, w)) (b, w) locked)
      ∙ change-cons event_connected true taken es b w refl
  handle-locked event_disconnected taken es b w locked =
      ap (changed (changes es))
        (if_true b.has_lock (change client false taken (b, w)) (b, w) locked)
      ∙ change-cons event_disconnected false taken es b w refl
  handle-locked event_other true es b w locked = refl
  handle-locked event_other false es b w locked = refl

  pub handle-has_lock :
      (e : MqttEvent) (taken : Bool) (b : Bridge) (w : W)
      → let b' = (handle_event client e taken (b, w)).0 in
        (b'.has_lock ≡ b.has_lock) × (b'.has_notify ≡ b.has_notify) × (b'.has_client ≡ b.has_client)
  unfolding handle_event change
  handle-has_lock e taken b w = ground arith

  -- A bridge with a lock reports each change of the link, in their order and once each, to the
  -- callback if there is one, and shows the last of them.
  pub handle_events-changed :
      (es : List (MqttEvent × Bool)) (b : Bridge) (w : W)
      → b.has_lock ≡ true
      → handle_events client es (b, w) ≡ changed (changes es) (b, w)
  unfolding handle_events
  handle_events-changed [] b w locked = sym (changed-nil b w)
  handle_events-changed ((e, taken) ∷ es) b w locked =
      let (b', w') = handle_event client e taken (b, w) in
      handle_events-changed es b' w' ((handle-has_lock e taken b w).0 ∙ locked)
      ∙ handle-locked e taken es b w locked
