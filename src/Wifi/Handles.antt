-- ===== src/Wifi/Handles.antt =====
-- What components/wifi_manager/wifi_manager.c holds after its initialisation, and what a link that is
-- lost before the timer exists comes to.
use modbus_vault.Base.{
  ◌≡◌, ◌≢◌, refl, ◌∙◌, Bool, true, false, Bool-cases, ◌⊎◌, inl, inr, List, [], ◌∷◌, none, arith,
}
use modbus_vault.Base.{EspErr, esp_ok, esp_err_invalid_arg, is_ok}
use modbus_vault.Wifi.{
  Manager, Idf, IsIdf, disconnected, SetUpCall, sta_disconnected, hold, failure, set_up_calls,
  set_up_from, deinit, give_up, init, handle_event, trigger_reconnect,
}

-- The handles of a manager, and none.
abbrev pub Ready : Manager → Type 0
Ready m =
    (m.has_lock ≡ true) × (m.has_timer ≡ true) × (m.has_wifi_ctx ≡ true) × (m.has_ip_ctx ≡ true)

abbrev pub Released : Manager → Type 0
Released m =
    (m.has_lock ≡ false) × (m.has_timer ≡ false) × (m.has_wifi_ctx ≡ false) × (m.has_ip_ctx ≡ false)

abbrev hold_all : List SetUpCall → Manager → Manager
hold_all [] m = m
hold_all (c ∷ calls) m = hold_all calls (hold c m)

failure_lem : (c : SetUpCall) (e : EspErr) → is_ok e ≡ false → is_ok (failure c e) ≡ false
failure_lem c e h = ground arith

-- What the calls of the initialisation do not change.
abbrev pub Same : Manager → Manager → Type 0
Same m m' = (m'.state ≡ m.state) × (m'.timeout_us ≡ m.timeout_us)

hold-Same : (c : SetUpCall) (m : Manager) → Same m (hold c m)
hold-Same c m = ground arith

module _ {W : Type 0} (idf : Idf W) where
  -- All handles and success, or none and an error.
  abbrev pub Outcome : Manager → EspErr × Manager × W → Type 0
  Outcome m0 (e, m, w) = Same m0 m × (((e ≡ esp_ok) × Ready m) ⊎ ((e ≢ esp_ok) × Released m))

  -- Either all calls are made, or one fails and with it the whole.
  set_up-cases :
      (calls : List SetUpCall) (m : Manager) (w : W)
      → let r = set_up_from idf calls m w in
        Same m r.1 × (((r.0 ≡ esp_ok) × (r.1 ≡ hold_all calls m)) ⊎ (is_ok r.0 ≡ false))
  unfolding set_up_from
  set_up-cases [] m w = ((refl, refl), inl (refl, refl))
  set_up-cases (c ∷ calls) m w =
      let (e, w') = idf.set_up c w in
      let rest = set_up-cases calls (hold c m) w' in
      elim (Bool-cases (is_ok (idf.set_up c w).0)) [
        | inl h ↦ rw h (ground (arith, rest, hold-Same c m))
        | inr h ↦ rw h ((refl, refl), inr (failure_lem c e h))
      ]

  deinit-Released : (m : Manager) (w : W) → Released (deinit idf m w).0 × Same m (deinit idf m w).0
  unfolding deinit
  deinit-Released m w = ((refl, refl, refl, refl), (refl, refl))

  settled :
      (m0 : Manager) (e : EspErr) (m : Manager) (w : W)
      → Same m0 m
      → ((e ≡ esp_ok) × Ready m) ⊎ (is_ok e ≡ false)
      → Outcome m0 (give_up idf (e, m, w))
  unfolding give_up
  settled m0 e m w same (inl (fine, ready)) = rw fine (same, inl (refl, ready))
  settled m0 e m w same (inr failed) =
      let (released, kept) = deinit-Released m w in
      rw failed (
        (kept.0 ∙ same.0, kept.1 ∙ same.1),
        inr ((λ fine. absurd (ground (arith, fine, failed))), released),
      )

  -- The initialisation either succeeds, and the manager has its lock, its timer and both of its
  -- handlers, or it fails, and none of them is left; it changes neither the state of the link nor
  -- the time to wait for.
  pub init-all_or_nothing : (given : Bool) (m : Manager) (w : W) → Outcome m (init idf given m w)
  unfolding init
  init-all_or_nothing false m w = settled m esp_err_invalid_arg m w (refl, refl) (inr refl)
  init-all_or_nothing true m w =
      let (e, m', w') = set_up_from idf set_up_calls m w in
      let (same, cases) = set_up-cases set_up_calls m w in
      settled m e m' w' same (elim cases [
        | inl (fine, held) ↦ inl (fine, rw held (refl, refl, refl, refl))
        | inr failed ↦ inr failed
      ])

module _ {W : Type 0} (idf : Idf W) (laws : IsIdf idf) where
  -- A link that is lost before the initialisation has made the timer is not sought again: when the
  -- timer is there, the link is down and the timer is not set.
  pub early_loss-stuck :
      (m : Manager) (w : W)
      → m.has_lock ≡ true
      → m.has_timer ≡ false
      → laws.armed w ≡ none
      → let (m', w') = handle_event idf sta_disconnected (m, w) in
        ((hold SetUpCall.create_timer m').state ≡ disconnected) × (laws.armed w' ≡ none)
  unfolding handle_event trigger_reconnect
  early_loss-stuck m w locked timeless off = rw (locked, timeless) (refl, off)
