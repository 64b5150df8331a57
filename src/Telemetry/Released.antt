-- ===== src/Telemetry/Released.antt =====
-- What components/telemetry_service/telemetry_service.c creates it takes back: on whatever way its
-- initialisation ends.
mod Tests
use modbus_vault.Base.{
  ℕ, suc, ◌+◌, ◌≡◌, ◌≢◌, ◌⊎◌, inl, inr, Bool-cases, refl, sym, ap, ◌∙◌, Bool, true, false, List, [],
  ◌∷◌, Option, none, some, if◌then◌else◌, if_both, arith,
}
use modbus_vault.Base.{EspErr, esp_err_invalid_arg, is_ok}
use modbus_vault.Mqtt.{MqttEvent, Client}
use modbus_vault.Mqtt
use modbus_vault.Telemetry.Topics.{generate_topics}
use modbus_vault.Telemetry.Lifecycle.{
  Service, Handle, state_lock, live_queue, metrics_timer, Kernel, State, next, make_lock,
  make_bridge, make_queue, make_topics, make_timer, init, deinit,
}

abbrev pub has : Handle → Service → Bool
has state_lock s = s.has_state_lock
has live_queue s = s.has_live_queue
has metrics_timer s = s.has_metrics_timer

abbrev one_if : Bool → ℕ
one_if true = 1
one_if false = 0

-- How many state locks, live queues and timers of the service there are; a call of the kernel makes
-- or deletes one, and a call of the MQTT client none, whatever handles of its own it makes.
pub record IsKernel {W : Type 0} (client : Client W) (kernel : Kernel W) : Type 0 where
  pub alive : Handle → W → ℕ
  pub created :
      (h : Handle) (w : W)
      → alive h (kernel.create h w).1 ≡ alive h w + one_if (kernel.create h w).0
  pub created_others :
      (h other : Handle) (w : W) → h ≢ other → alive other (kernel.create h w).1 ≡ alive other w
  pub started : (h : Handle) (w : W) → alive h (kernel.start_timer w).1 ≡ alive h w
  pub deleted : (h : Handle) (w : W) (n : ℕ) → alive h w ≡ suc n → alive h (kernel.delete h w) ≡ n
  pub deleted_others :
      (h other : Handle) (w : W) → h ≢ other → alive other (kernel.delete h w) ≡ alive other w
  pub set_up : (h : Handle) (c : Mqtt.SetUpCall) (w : W) → alive h (client.set_up c w).1 ≡ alive h w
  pub torn_down :
      (h : Handle) (c : Mqtt.TearDownCall) (w : W) → alive h (client.tear_down c w) ≡ alive h w
  pub notified : (h : Handle) (online : Bool) (w : W) → alive h (client.notify online w) ≡ alive h w

module _ {W : Type 0} (client : Client W) (kernel : Kernel W) (laws : IsKernel client kernel) where
  events-alive :
      (h : Handle) (es : List (MqttEvent × Bool)) (b : Mqtt.Bridge) (w : W)
      → laws.alive h (Mqtt.handle_events client es (b, w)).1 ≡ laws.alive h w
  unfolding Mqtt.handle_events Mqtt.handle_event Mqtt.change
  events-alive h [] b w = refl
  events-alive h ((e, taken) ∷ es) b w =
      let (b', w') = Mqtt.handle_event client e taken (b, w) in
      let once : laws.alive h w' ≡ laws.alive h w =
        ground (arith, laws.notified h true w, laws.notified h false w) in
      events-alive h es b' w' ∙ once

  calls-alive :
      (h : Handle) (calls : List Mqtt.SetUpCall) (b : Mqtt.Bridge) (w : W)
      → laws.alive h (Mqtt.set_up_from client calls b w).2 ≡ laws.alive h w
  unfolding Mqtt.set_up_from
  calls-alive h [] b w = refl
  calls-alive h (c ∷ calls) b w =
      let (e, w') = client.set_up c w in
      if_both (λ (r : EspErr × Mqtt.Bridge × W). laws.alive h r.2 ≡ laws.alive h w) (is_ok e) _ _
        (calls-alive h calls (Mqtt.hold c b) w' ∙ laws.set_up h c w) (laws.set_up h c w)

  unbridged :
      (h : Handle) (b : Mqtt.Bridge) (w : W)
      → laws.alive h (Mqtt.deinit client b w).1 ≡ laws.alive h w
  unfolding Mqtt.deinit
  unbridged h b w =
      let w1 = client.tear_down Mqtt.client_stop w in
      let w2 = client.tear_down Mqtt.unregister_event w1 in
      let w3 = client.tear_down Mqtt.client_destroy w2 in
      let ended : laws.alive h w3 ≡ laws.alive h w =
        laws.torn_down h Mqtt.client_destroy w2
        ∙ laws.torn_down h Mqtt.unregister_event w1
        ∙ laws.torn_down h Mqtt.client_stop w in
      ground
        (arith, ended, laws.torn_down h Mqtt.delete_mutex w3, laws.torn_down h Mqtt.delete_mutex w)

  finished :
      (h : Handle) (has_cb : Bool) (between : List (MqttEvent × Bool)) (e : EspErr)
      (b : Mqtt.Bridge) (w : W)
      → laws.alive h (Mqtt.finish client has_cb between (e, b, w)).2 ≡ laws.alive h w
  unfolding Mqtt.finish
  finished h has_cb between e b w =
      if_both (λ (r : EspErr × Mqtt.Bridge × W). laws.alive h r.2 ≡ laws.alive h w) (is_ok e) _ _
        (events-alive h between b w) (unbridged h b w)

  bridged :
      (h : Handle) (config : Option Bool) (between : List (MqttEvent × Bool)) (b : Mqtt.Bridge)
      (w : W)
      → laws.alive h (Mqtt.init client config between b w).2 ≡ laws.alive h w
  unfolding Mqtt.init
  bridged h none between b w = finished h false between esp_err_invalid_arg b w
  bridged h (some has_cb) between b w =
      let (e, b', w') = Mqtt.set_up_from client Mqtt.set_up_calls b w in
      finished h has_cb between e b' w' ∙ calls-alive h Mqtt.set_up_calls b w

  -- The service holds what there is besides `before`.
  abbrev pub Owns : (Handle → ℕ) → Service × W → Type 0
  Owns before (s, w) =
      (laws.alive state_lock w ≡ before state_lock + one_if s.has_state_lock)
      × (laws.alive live_queue w ≡ before live_queue + one_if s.has_live_queue)
      × (laws.alive metrics_timer w ≡ before metrics_timer + one_if s.has_metrics_timer)

  next-keeps :
      (P Q : Service × W → Type 0) (f : Service × W → Bool × (Service × W))
      (r : Bool × (Service × W))
      → ((s : Service × W) → P s → Q (f s).1)
      → ((s : Service × W) → P s → Q s)
      → P r.1
      → Q (next client kernel f r).1
  next-keeps P Q f (true, s) made kept p = made s p
  next-keeps P Q f (false, s) made kept p = kept s p

  -- What is still to be made.
  abbrev LockLess : Service × W → Type 0
  LockLess s =
      (s.0.has_state_lock ≡ false) × (s.0.has_live_queue ≡ false) × (s.0.has_metrics_timer ≡ false)

  abbrev QueueLess : (Handle → ℕ) → Service × W → Type 0
  QueueLess before s =
      Owns before s × (s.0.has_live_queue ≡ false) × (s.0.has_metrics_timer ≡ false)

  abbrev TimerLess : (Handle → ℕ) → Service × W → Type 0
  TimerLess before s = Owns before s × (s.0.has_metrics_timer ≡ false)

  make_lock-QueueLess :
      (before : Handle → ℕ) (s : Service) (w : W)
      → Owns before (s, w)
      → LockLess (s, w)
      → QueueLess before (make_lock client kernel (s, w)).1
  unfolding make_lock
  make_lock-QueueLess before s w (lock, queue, timer) (no_lock, no_queue, no_timer) = (
    (
      laws.created state_lock w ∙ omega (arith, lock, (ap one_if no_lock)),
      laws.created_others state_lock live_queue w (ground arith) ∙ queue,
      laws.created_others state_lock metrics_timer w (ground arith) ∙ timer,
    ),
    no_queue,
    no_timer,
  )

  make_bridge-QueueLess :
      (before : Handle → ℕ) (between : List (MqttEvent × Bool)) (s : Service × W)
      → QueueLess before s
      → QueueLess before (make_bridge client kernel between s).1
  unfolding make_bridge
  make_bridge-QueueLess before between (s, w) ((lock, queue, timer), no_queue, no_timer) = (
    (
      bridged state_lock (some true) between s.bridge w ∙ lock,
      bridged live_queue (some true) between s.bridge w ∙ queue,
      bridged metrics_timer (some true) between s.bridge w ∙ timer,
    ),
    no_queue,
    no_timer,
  )

  make_queue-TimerLess :
      (before : Handle → ℕ) (s : Service × W)
      → QueueLess before s
      → TimerLess before (make_queue client kernel s).1
  unfolding make_queue
  make_queue-TimerLess before (s, w) ((lock, queue, timer), no_queue, no_timer) = (
    (
      laws.created_others live_queue state_lock w (ground arith) ∙ lock,
      laws.created live_queue w ∙ omega (arith, queue, (ap one_if no_queue)),
      laws.created_others live_queue metrics_timer w (ground arith) ∙ timer,
    ),
    no_timer,
  )

  make_topics-TimerLess :
      (before : Handle → ℕ) (device_id : List ℕ) (s : Service × W)
      → TimerLess before s
      → TimerLess before (make_topics client kernel device_id s).1
  unfolding make_topics
  make_topics-TimerLess before device_id (s, w) h = h

  make_timer-Owns :
      (before : Handle → ℕ) (s : Service × W)
      → TimerLess before s
      → Owns before (make_timer client kernel s).1
  unfolding make_timer
  make_timer-Owns before (s, w) ((lock, queue, timer), no_timer) =
      let (made, w1) = kernel.create metrics_timer w in
      let lock1 = laws.created_others metrics_timer state_lock w (ground arith) ∙ lock in
      let queue1 = laws.created_others metrics_timer live_queue w (ground arith) ∙ queue in
      elim (Bool-cases (kernel.create metrics_timer w).0) [
        | inl fine ↦ rw fine (
          laws.started state_lock w1 ∙ lock1,
          laws.started live_queue w1 ∙ queue1,
          laws.started metrics_timer w1
              ∙ laws.created metrics_timer w
              ∙ omega (arith, timer, (ap one_if no_timer), (ap one_if fine)),
        )
        | inr failed ↦
            rw failed (
              lock1,
              queue1,
              laws.created metrics_timer w ∙ omega (arith, timer, (ap one_if failed)),
            )
      ]

  init-Owns :
      (before : Handle → ℕ) (device_id : Option (List ℕ)) (between : List (MqttEvent × Bool))
      (s : Service) (w : W)
      → Owns before (s, w)
      → LockLess (s, w)
      → Owns before (init client kernel device_id between (s, w)).1
  unfolding init
  init-Owns before none between s w h less = h
  init-Owns before (some device_id) between s w h less =
      next-keeps (TimerLess before) (Owns before) (make_timer client kernel) _
        (make_timer-Owns before) (λ s p. p.0)
        (next-keeps (TimerLess before) (TimerLess before) (make_topics client kernel device_id) _
          (make_topics-TimerLess before device_id) (λ s p. p)
          (next-keeps (QueueLess before) (TimerLess before) (make_queue client kernel) _
            (make_queue-TimerLess before) (λ s p. (p.0, p.2))
            (next-keeps (QueueLess before) (QueueLess before) (make_bridge client kernel between) _
              (make_bridge-QueueLess before between) (λ s p. p)
              (make_lock-QueueLess before (record s { is_online_flag = false }) w h less))))

  abbrev dropped : Bool → Handle → W → W
  dropped held h w = if held then kernel.delete h w else w

  dropped-own :
      (held : Bool) (h : Handle) (w : W) (n : ℕ)
      → laws.alive h w ≡ n + one_if held
      → laws.alive h (dropped held h w) ≡ n
  dropped-own true h w n e = laws.deleted h w n (omega (arith, e))
  dropped-own false h w n e = omega (arith, e)

  dropped-other :
      (held : Bool) (h other : Handle) (w : W)
      → h ≢ other
      → laws.alive other (dropped held h w) ≡ laws.alive other w
  dropped-other true h other w ne = laws.deleted_others h other w ne
  dropped-other false h other w ne = refl

  -- On whatever way the initialisation of a service ends that holds no handle, the reverse of it
  -- leaves as many state locks, live queues and metrics timers as there were before. The handles of
  -- its MQTT bridge are not counted.
  pub deinit-init :
      (device_id : Option (List ℕ)) (between : List (MqttEvent × Bool)) (s : Service) (w : W)
      → (s.has_state_lock ≡ false) × (s.has_live_queue ≡ false) × (s.has_metrics_timer ≡ false)
      → let w' = (deinit client kernel (init client kernel device_id between (s, w)).1).1 in
        (laws.alive state_lock w' ≡ laws.alive state_lock w)
        × (laws.alive live_queue w' ≡ laws.alive live_queue w)
        × (laws.alive metrics_timer w' ≡ laws.alive metrics_timer w)
  deinit-init device_id between s w less =
      let (s1, w1) = (init client kernel device_id between (s, w)).1 in
      given_back s1 w1 (
        init-Owns (λ h. laws.alive h w) device_id between s w
          (
            omega (arith, (ap one_if less.0)),
            omega (arith, (ap one_if less.1)),
            omega (arith, (ap one_if less.2)),
          )
          less)
    where
      given_back :
          (s1 : Service) (w1 : W)
          → Owns (λ h. laws.alive h w) (s1, w1)
          → let w' = (deinit client kernel (s1, w1)).1 in
            (laws.alive state_lock w' ≡ laws.alive state_lock w)
            × (laws.alive live_queue w' ≡ laws.alive live_queue w)
            × (laws.alive metrics_timer w' ≡ laws.alive metrics_timer w)
      given_back s1 w1 (lock, queue, timer) =
          unfold deinit in
          let w2 : W = (Mqtt.deinit client s1.bridge w1).1 in
          let w3 : W = dropped s1.has_live_queue live_queue w2 in
          let w4 : W = dropped s1.has_state_lock state_lock w3 in
          (
            dropped-other s1.has_metrics_timer metrics_timer state_lock w4 (ground arith)
                ∙ dropped-own s1.has_state_lock state_lock w3 (laws.alive state_lock w) (
                    dropped-other s1.has_live_queue live_queue state_lock w2 (ground arith)
                    ∙ unbridged state_lock s1.bridge w1
                    ∙ lock),
            dropped-other s1.has_metrics_timer metrics_timer live_queue w4 (ground arith)
                ∙ dropped-other s1.has_state_lock state_lock live_queue w3 (ground arith)
                ∙ dropped-own s1.has_live_queue live_queue w2 (laws.alive live_queue w)
                    (unbridged live_queue s1.bridge w1 ∙ queue),
            dropped-own s1.has_metrics_timer metrics_timer w4 (laws.alive metrics_timer w) (
                dropped-other s1.has_state_lock state_lock metrics_timer w3 (ground arith)
                ∙ dropped-other s1.has_live_queue live_queue metrics_timer w2 (ground arith)
                ∙ unbridged metrics_timer s1.bridge w1
                ∙ timer),
          )
