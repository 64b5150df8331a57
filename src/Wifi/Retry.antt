-- ===== src/Wifi/Retry.antt =====
-- The retries of components/wifi_manager/wifi_manager.c: whenever the link is lost the timer is set,
-- and how the time that it is set to grows.
use native.Mathlib.Decide.{dec_lt}
use native.Mathlib.Nat.{mul-le-mul_left, pow-suc}
use modbus_vault.Base.{
  ℕ, zero, suc, ◌*◌, ◌^◌, ◌≤◌, ◌≡◌, refl, ap, ◌∙◌, Bool, true, false, Bool-cases, ◌⊎◌, inl, inr,
  List, [], ◌∷◌, if◌then◌else◌, some, arith, min,
}
use modbus_vault.Wifi.{
  Manager, WifiEvent, sta_start, sta_disconnected, sta_got_ip, other_event, WifiState, connecting,
  disconnected, Idf, IsIdf, min_timeout_us, max_timeout_us, next_timeout, trigger_reconnect,
  handle_event, handle_events, rearm, timer_callback, get_state, set_state, is_connected,
  is_waiting,
}

-- What happens to the manager: an event; the end of the time that the timer was set to, with the
-- events that come before its callback reads the state again; a call of
-- `wifi_manager_trigger_reconnect`.
pub data Step : Type 0 where
  event : WifiEvent → Step
  time_out : List WifiEvent → Step
  trigger : Step

abbrev pub is_lost : WifiState → Bool
is_lost disconnected = true
is_lost _ = false

abbrev pub failed_attempts : ℕ → List Step
failed_attempts zero = []
failed_attempts (suc n) = time_out [] ∷ event sta_disconnected ∷ failed_attempts n

-- The time to wait for grows from one second on up to a minute.
abbrev pub IsTimeout : ℕ → Type 0
IsTimeout t = (min_timeout_us ≤ t) × (t ≤ max_timeout_us)

-- A manager that is set up.
pub record IsUp (m : Manager) : Type 0 where
  pub locked : m.has_lock ≡ true
  pub timed : m.has_timer ≡ true
  pub timeout : IsTimeout m.timeout_us

pub next_timeout-lem : (t : ℕ) → t ≤ max_timeout_us → next_timeout t ≡ min (2 * t) max_timeout_us
unfolding next_timeout
next_timeout-lem t h = ground arith

-- A limit on the way does not show where the result is limited too.
quadruple :
    (k t : ℕ)
    → 1 ≤ k
    → min (k * min (4 * t) max_timeout_us) max_timeout_us ≡ min (k * (4 * t)) max_timeout_us
quadruple k t h = elim (dec_lt (4 * t) max_timeout_us) [
  | yes below ↦ ap (λ x. min (k * x) max_timeout_us) (omega (arith, below))
  | no above ↦
      let full : min (4 * t) max_timeout_us ≡ max_timeout_us = omega (arith, above) in
      let more : k * max_timeout_us ≤ k * (4 * t) = mul-le-mul_left k (omega (arith, above)) in
      ap (λ x. min (k * x) max_timeout_us) full ∙ omega (arith, more, h)
]

pow-positive : (n : ℕ) → 1 ≤ 4 ^ n
pow-positive zero = omega arith
pow-positive (suc n) = omega (arith, pow-positive n)

powers : (n t : ℕ) → 4 ^ n * (4 * t) ≡ 4 ^ suc n * t
powers n t = rw (pow-suc 4 n) (ground arith)

module _ {W : Type 0} (idf : Idf W) where
  unfoldable pub step : Step → Manager × W → Manager × W
  step (event e) s = handle_event idf e s
  step (time_out between) (m, w) = timer_callback idf between (m, idf.expire w)
  step trigger s = trigger_reconnect idf s

  unfoldable pub run : List Step → Manager × W → Manager × W
  run [] s = s
  run (x ∷ xs) s = run xs (step x s)

module _ {W : Type 0} (idf : Idf W) (laws : IsIdf idf) where
  abbrev pub Armed : Manager × W → Type 0
  Armed (m, w) = laws.armed w ≡ some m.timeout_us

  -- While the link is lost the timer is set.
  abbrev pub Retries : Manager × W → Type 0
  Retries (m, w) = (is_lost m.state ≡ false) ⊎ Armed (m, w)

  trigger-IsUp :
      (m : Manager) (w : W)
      → IsUp m
      → IsUp (trigger_reconnect idf (m, w)).0
        × Armed (trigger_reconnect idf (m, w))
        × ((trigger_reconnect idf (m, w)).0.state ≡ m.state)
        × ((trigger_reconnect idf (m, w)).0.timeout_us ≡ min (2 * m.timeout_us) max_timeout_us)
  unfolding trigger_reconnect
  trigger-IsUp m w up =
      let t : ℕ = next_timeout m.timeout_us in
      let grown : t ≡ min (2 * m.timeout_us) max_timeout_us =
        next_timeout-lem m.timeout_us up.timeout.1 in
      rw up.timed (
        record {
          locked = up.locked;
          timed = refl;
          timeout = (omega (arith, grown, up.timeout), omega (arith, grown));
        },
        laws.started t (idf.stop_timer w) (laws.stopped w),
        refl,
        grown,
      )

  set_state-IsUp : (state : WifiState) (m : Manager) → IsUp m → IsUp (set_state state m)
  set_state-IsUp state m up =
      rw up.locked (record { locked = refl; timed = up.timed; timeout = up.timeout })

  event-IsUp :
      (e : WifiEvent) (m : Manager) (w : W)
      → IsUp m
      → IsUp (handle_event idf e (m, w)).0 × (Retries (m, w) → Retries (handle_event idf e (m, w)))
  unfolding handle_event
  event-IsUp sta_start m w up = (set_state-IsUp connecting m up, rw up.locked λ h. inl refl)
  event-IsUp sta_disconnected m w up =
      let moved = trigger-IsUp (set_state disconnected m) w (set_state-IsUp disconnected m up) in
      (moved.0, λ h. inr moved.1)
  event-IsUp sta_got_ip m w up = rw up.locked (
    record { locked = refl; timed = up.timed; timeout = (omega arith, omega arith) },
    λ h. inl refl,
  )
  event-IsUp other_event m w up = (up, λ h. h)

  events-IsUp :
      (es : List WifiEvent) (m : Manager) (w : W) → IsUp m → IsUp (handle_events idf es (m, w)).0
  unfolding handle_events
  events-IsUp [] m w up = up
  events-IsUp (e ∷ es) m w up =
      let (m', w') = handle_event idf e (m, w) in events-IsUp es m' w' (event-IsUp e m w up).0

  rearm-IsUp :
      (m : Manager) (w : W) → IsUp m → IsUp (rearm idf (m, w)).0 × Retries (rearm idf (m, w))
  unfolding rearm
  rearm-IsUp m w up = elim (Bool-cases (is_waiting (get_state m))) [
    | inl waits ↦ rw waits ((trigger-IsUp m w up).0, inr (trigger-IsUp m w up).1)
    | inr stays ↦ rw stays (up, inl (ground (arith, (rw up.locked at stays))))
  ]

  step-IsUp :
      (x : Step) (m : Manager) (w : W)
      → IsUp m
      → Retries (m, w)
      → IsUp (step idf x (m, w)).0 × Retries (step idf x (m, w))
  unfolding step timer_callback
  step-IsUp (event e) m w up h = ((event-IsUp e m w up).0, (event-IsUp e m w up).1 h)
  step-IsUp (time_out between) m w up h =
      let w1 : W =
        if is_connected (get_state m) then idf.expire w else idf.connect (idf.expire w) in
      let (m', w') = handle_events idf between (m, w1) in
      rearm-IsUp m' w' (events-IsUp between m w1 up)
  step-IsUp trigger m w up h = ((trigger-IsUp m w up).0, inr (trigger-IsUp m w up).1)

  -- A manager that is set up, and whose timer is set if its link is lost, stays so, whatever happens:
  -- the time to wait for is between a second and a minute, and whenever the link is lost, the timer
  -- is set to that time.
  pub run-Retries :
      (xs : List Step) (m : Manager) (w : W)
      → IsUp m
      → Retries (m, w)
      → IsUp (run idf xs (m, w)).0 × Retries (run idf xs (m, w))
  unfolding run
  run-Retries [] m w up h = (up, h)
  run-Retries (x ∷ xs) m w up h =
      let (m', w') = step idf x (m, w) in
      let next = step-IsUp x m w up h in run-Retries xs m' w' next.0 next.1

  -- A lost link, with the time to wait for doubled.
  abbrev pub Lost : ℕ → ℕ → Manager × W → Type 0
  Lost factor t s =
      IsUp s.0
      × Armed s
      × (s.0.state ≡ disconnected)
      × (s.0.timeout_us ≡ min (factor * t) max_timeout_us)

  event-Lost :
      (m : Manager) (w : W)
      → IsUp m
      → Lost 2 m.timeout_us (handle_event idf sta_disconnected (m, w))
  unfolding handle_event
  event-Lost m w up =
      let (up', armed, state, grown) =
        trigger-IsUp (set_state disconnected m) w (set_state-IsUp disconnected m up) in
      (up', armed, state ∙ rw up.locked refl, grown ∙ rw up.locked refl)

  callback_lost :
      (m : Manager) (w : W)
      → IsUp m
      → m.state ≡ disconnected
      → step idf (time_out []) (m, w) ≡ trigger_reconnect idf (m, idf.connect (idf.expire w))
  unfolding step timer_callback rearm handle_events
  callback_lost m w up lost = rw (up.locked, lost) refl

  -- An attempt to connect that fails: the timer runs out, and the driver reports the failure.
  attempt-Lost :
      (m : Manager) (w : W)
      → IsUp m
      → m.state ≡ disconnected
      → Lost 4 m.timeout_us (handle_event idf sta_disconnected (step idf (time_out []) (m, w)))
  attempt-Lost m w up lost =
      let w1 : W = idf.connect (idf.expire w) in
      let (m1, w2) = trigger_reconnect idf (m, w1) in
      let (up1, armed1, state1, grown1) = trigger-IsUp m w1 up in
      let (up2, armed2, state2, grown2) = event-Lost m1 w2 up1 in
      rw (callback_lost m w up lost) (up2, armed2, state2, omega (arith, grown1, grown2))

  -- Once the link is lost, each attempt to connect that fails makes the time to wait for four times
  -- as long, up to a minute, and the timer is set to it.
  pub failed_attempts-quadruple :
      (n : ℕ) (m : Manager) (w : W)
      → IsUp m
      → m.state ≡ disconnected
      → Armed (m, w)
      → Lost (4 ^ n) m.timeout_us (run idf (failed_attempts n) (m, w))
  unfolding run step
  failed_attempts-quadruple zero m w up lost armed = (up, armed, lost, omega (arith, up.timeout))
  failed_attempts-quadruple (suc n) m w up lost armed =
      let (m', w') = handle_event idf sta_disconnected (step idf (time_out []) (m, w)) in
      let (up', armed', lost', grown) = attempt-Lost m w up lost in
      let (up'', armed'', lost'', total) = failed_attempts-quadruple n m' w' up' lost' armed' in
      (
        up'',
        armed'',
        lost'',
        total
            ∙ rw grown (
                quadruple (4 ^ n) m.timeout_us (pow-positive n)
                ∙ ap (λ x. min x max_timeout_us) (powers n m.timeout_us)),
      )
