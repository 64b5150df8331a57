-- ===== src/Telemetry/Live.antt =====
-- Slabs at the end of their way in telemetry_service: each record that is published, or refused by
-- the link, is freed, and so is the slab that a replay is read into.
use modbus_vault.Base.{Option, none, Bool, if_both}
use modbus_vault.Base.{
  ℕ, zero, suc, ◌+◌, ◌≡◌, inl, inr, Bool-cases, refl, sym, ap, subst, List, ◌∷◌, some, arith,
}
use modbus_vault.Rtos.{QueueOps, IsQueue}
use modbus_vault.SlabPool.{free, alloc, set_slab, slab_at}
use modbus_vault.SlabPool.Books.{one, Books-same, Books-alloc, Books-free, Books-set_slab}
use modbus_vault.Modbus.Analyzer.{AnalyzerFrame}
use modbus_vault.Telemetry.{
  System, Env, TelemetryRecord, is_online, publish_to_topic, live_quota_left, process_live_quota,
  live_quota, topics_live,
}
use modbus_vault.Telemetry.Replay.{
  replay_callback, replay_into, publish_replay, process_replay_quota,
}
use modbus_vault.Telemetry.Ledger.{in_queue, receive-cases, record_slab, Accounts}
use modbus_vault.Telemetry.Pipeline.{Accounts-free, is_online-keeps}

module _ {R Q W : Type 0} (raw : QueueOps R AnalyzerFrame) (ops : QueueOps Q TelemetryRecord)
    (raw_queue : IsQueue raw) (queue : IsQueue ops) (env : Env W) where
  -- The record taken from the live queue, published and freed.
  abbrev published : TelemetryRecord → System R Q W → System R Q W
  published r t =
      let u =
        (publish_to_topic raw ops env r topics_live
          (record t { live_queue = (ops.receive t.live_queue).1 })).1 in
      record u { pool = free u.pool (some r.slab_ptr) }

  published-Accounts :
      (t : System R Q W) (outside : List ℕ) (r : TelemetryRecord)
      → ((i : ℕ)
          → in_queue ops queue record_slab t.live_queue i
            ≡ one r.slab_ptr i + in_queue ops queue record_slab (ops.receive t.live_queue).1 i)
      → Accounts raw ops raw_queue queue t outside
      → Accounts raw ops raw_queue queue (published r t) outside
  unfolding publish_to_topic
  published-Accounts t outside r moved b =
      Accounts-free raw ops raw_queue queue env
        (publish_to_topic raw ops env r topics_live
          (record t { live_queue = (ops.receive t.live_queue).1 })).1
        (r.slab_ptr ∷ outside) outside r.slab_ptr
        (Books-same t.pool _ _ b (λ i. omega (arith, moved i))) (λ j. refl)

  live_quota_left-Accounts :
      (left : ℕ) (s : System R Q W) (outside : List ℕ)
      → Accounts raw ops raw_queue queue s outside
      → Accounts raw ops raw_queue queue (live_quota_left raw ops env left s) outside
  unfolding live_quota_left
  live_quota_left-Accounts zero s outside b = b
  live_quota_left-Accounts (suc left) s outside b =
      let (w, eq) = is_online-keeps raw ops raw_queue queue env s in
      let t = (is_online raw ops env s).1 in
      let books : Accounts raw ops raw_queue queue t outside =
        subst (λ t. Accounts raw ops raw_queue queue t outside) (sym eq) b in
      elim (Bool-cases (is_online raw ops env s).0) [
        | inl online ↦ elim (receive-cases ops queue record_slab t.live_queue) [
          | inl (empty, same) ↦
              rw (live_quota_left, online, ap (λ e. e.0) same)
                (subst (λ q. Accounts raw ops raw_queue queue (record t { live_queue = q }) outside)
                  (sym (ap (λ e. e.1) same)) books)
          | inr (r, rest, items, got, others, moved) ↦
              rw (live_quota_left, online, got)
                (live_quota_left-Accounts left (published r t) outside
                  (published-Accounts t outside r moved books))
        ]
        | inr offline ↦ rw (live_quota_left, offline) books
      ]

  -- A round on the live queue loses no slab.
  pub process_live_quota-Accounts :
      (s : System R Q W) (outside : List ℕ)
      → Accounts raw ops raw_queue queue s outside
      → Accounts raw ops raw_queue queue (process_live_quota raw ops env s) outside
  unfolding process_live_quota
  process_live_quota-Accounts s outside b = live_quota_left-Accounts live_quota s outside b

  replay_into-Accounts :
      (leftover : ℕ) (o : Option ℕ) (s : System R Q W) (outside : List ℕ)
      → (alloc s.pool).0 ≡ o
      → Accounts raw ops raw_queue queue s outside
      → Accounts raw ops raw_queue queue
          (replay_into raw ops env leftover o (record s { pool = (alloc s.pool).1 })).1
          outside
  unfolding replay_into
  replay_into-Accounts leftover none s outside eq b =
      Books-same (alloc s.pool).1 _ _ (Books-alloc s.pool _ none eq b) (λ j. omega arith)
  replay_into-Accounts leftover (some i) s outside eq b =
      let t : System R Q W = record s { pool = (alloc s.pool).1 } in
      let (ready, slab, w) =
        env.next_replay (replay_callback raw ops env leftover) (slab_at t.pool i) t.world in
      Books-free (set_slab t.pool i slab) _ _ i
        (Books-set_slab t.pool _ i slab (Books-alloc s.pool _ (some i) eq b)) (λ j. refl)

  -- A round on the backlog gives back the slab that it takes.
  pub process_replay_quota-Accounts :
      (leftover : ℕ) (s : System R Q W) (outside : List ℕ)
      → Accounts raw ops raw_queue queue s outside
      → Accounts raw ops raw_queue queue (process_replay_quota raw ops env leftover s).1 outside
  unfolding process_replay_quota publish_replay
  process_replay_quota-Accounts leftover s outside b =
      let (w, eq) = is_online-keeps raw ops raw_queue queue env s in
      let t = (is_online raw ops env s).1 in
      let books : Accounts raw ops raw_queue queue t outside =
        subst (λ t. Accounts raw ops raw_queue queue t outside) (sym eq) b in
      if_both (λ (r : Bool × System R Q W). Accounts raw ops raw_queue queue r.1 outside)
        s.has_replay_callback _ _
        (elim (Bool-cases (is_online raw ops env s).0) [
          | inl online ↦
              rw online (replay_into-Accounts leftover (alloc t.pool).0 t outside refl books)
          | inr offline ↦ rw offline books
        ])
        b
