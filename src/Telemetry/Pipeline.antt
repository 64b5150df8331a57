-- ===== src/Telemetry/Pipeline.antt =====
-- Slabs on their way through telemetry_pipeline and router.c: a round of the pipeline's task loses
-- none while the queues behind it have room.
use modbus_vault.Base.{
  ℕ, ◌+◌, ◌≤◌, ◌≡◌, ◌⊎◌, inl, inr, Bool-cases, refl, sym, ap, subst, ◌&&◌, List, ◌∷◌, Option, none,
  some, arith, length, is_ok, EspErr,
}
use modbus_vault.Base.Counts.{occurrences}
use modbus_vault.Rtos.{QueueOps, IsQueue}
use modbus_vault.SlabPool.{Slab, alloc, free, set_slab, slab_at}
use modbus_vault.SlabPool.Books.{one, Books-same, Books-alloc, Books-free, Books-set_slab}
use modbus_vault.Modbus.Analyzer.{AnalyzerFrame}
use modbus_vault.Telemetry.{
  System, Env, TelemetryRecord, is_online, enqueue_live, enqueue_log, dispatch, packed, pack_frame,
  process_frame, pipeline_round,
}
use modbus_vault.Telemetry.Ledger.{
  in_queue, send-cases, receive-cases, frame_slab, record_slab, Accounts,
}

module _ {R Q W : Type 0} (raw : QueueOps R AnalyzerFrame) (ops : QueueOps Q TelemetryRecord)
    (raw_queue : IsQueue raw) (queue : IsQueue ops) (env : Env W) where
  -- One of the queues behind the pipeline is full.
  abbrev pub IsJammed : System R Q W → Type 0
  IsJammed s =
      (queue.capacity s.live_queue ≤ length (queue.items s.live_queue))
      ⊎ (queue.capacity s.logging_queue ≤ length (queue.items s.logging_queue))

  -- Of the slabs outside, slab `i` is in a queue now; or it is still outside, and a queue was full.
  abbrev pub Placed : System R Q W → System R Q W → ℕ → List ℕ → Type 0
  Placed s t i outside =
      Accounts raw ops raw_queue queue t outside
      ⊎ (Accounts raw ops raw_queue queue t (i ∷ outside) × IsJammed s)

  pub is_online-keeps :
      (s : System R Q W) → (w : W) × ((is_online raw ops env s).1 ≡ record s { world = w })
  unfolding is_online
  is_online-keeps s = elim (Bool-cases s.has_state_lock) [
    | inl locked ↦ ((env.lock_free s.world).1, ground (arith, locked))
    | inr free ↦ (s.world, ground (arith, free))
  ]

  enqueue_live-Placed :
      (r : TelemetryRecord) (s : System R Q W) (outside : List ℕ)
      → Accounts raw ops raw_queue queue s (r.slab_ptr ∷ outside)
      → Placed s (enqueue_live raw ops env r s).1 r.slab_ptr outside
  unfolding enqueue_live
  enqueue_live-Placed r s outside b = elim (send-cases ops queue record_slab s.live_queue r) [
    | inl (room, sent, moved) ↦ inl (Books-same s.pool _ _ b (λ i. omega (arith, moved i)))
    | inr (full, same) ↦ inr (
      Books-same s.pool _ _ b
          (λ i. omega (arith, ap (λ e. in_queue ops queue record_slab e.1 i) same)),
      inl full,
    )
  ]

  enqueue_log-Placed :
      (r : TelemetryRecord) (s : System R Q W) (outside : List ℕ)
      → Accounts raw ops raw_queue queue s (r.slab_ptr ∷ outside)
      → Placed s (enqueue_log raw ops env r s).1 r.slab_ptr outside
  unfolding enqueue_log
  enqueue_log-Placed r s outside b = elim (send-cases ops queue record_slab s.logging_queue r) [
    | inl (room, sent, moved) ↦ inl (Books-same s.pool _ _ b (λ i. omega (arith, moved i)))
    | inr (full, same) ↦ inr (
      Books-same s.pool _ _ b
          (λ i. omega (arith, ap (λ e. in_queue ops queue record_slab e.1 i) same)),
      inr full,
    )
  ]

  dispatch-cases :
      (r : TelemetryRecord) (s : System R Q W)
      → (w : W) × ((dispatch raw ops env r s
            ≡ (enqueue_live raw ops env r (record s { world = w })).1)
          ⊎ (dispatch raw ops env r s ≡ (enqueue_log raw ops env r (record s { world = w })).1))
  unfolding dispatch
  dispatch-cases r s =
      let (w, eq) = is_online-keeps s in
      elim (Bool-cases (is_online raw ops env s).0) [
        | inl online ↦ (w, inl (rw online (ap (λ t. (enqueue_live raw ops env r t).1) eq)))
        | inr offline ↦ (w, inr (rw offline (ap (λ t. (enqueue_log raw ops env r t).1) eq)))
      ]

  -- The router takes a record's slab from outside to a queue, if there is room.
  pub dispatch-Placed :
      (r : TelemetryRecord) (s : System R Q W) (outside : List ℕ)
      → Accounts raw ops raw_queue queue s (r.slab_ptr ∷ outside)
      → Placed s (dispatch raw ops env r s) r.slab_ptr outside
  dispatch-Placed r s outside b =
      let (w, which) = dispatch-cases r s in
      elim which [
        | inl live ↦
            subst (λ t. Placed s t r.slab_ptr outside) (sym live)
              (enqueue_live-Placed r (record s { world = w }) outside b)
        | inr log ↦
            subst (λ t. Placed s t r.slab_ptr outside) (sym log)
              (enqueue_log-Placed r (record s { world = w }) outside b)
      ]

  pub Accounts-free :
      (s : System R Q W) (outside outside' : List ℕ) (k : ℕ)
      → Accounts raw ops raw_queue queue s outside
      → ((j : ℕ) → occurrences j outside ≡ one k j + occurrences j outside')
      → Accounts raw ops raw_queue queue (record s { pool = free s.pool (some k) }) outside'
  Accounts-free s outside outside' k b split =
      Books-free s.pool _ _ k b (λ j. omega (arith, split j))

  -- The packed frame's slab is in a queue or freed, if there is room.
  packed-Placed :
      (frame : AnalyzerFrame) (i : ℕ) (r : EspErr × Slab) (s : System R Q W) (outside : List ℕ)
      → Accounts raw ops raw_queue queue s (i ∷ outside)
      → Placed s (packed raw ops env frame i r s) i outside
  unfolding packed
  packed-Placed frame i (e, slab) s outside b =
      let t : System R Q W = record s { pool = set_slab s.pool i slab } in
      let written : Accounts raw ops raw_queue queue t (i ∷ outside) =
        Books-set_slab s.pool _ i slab b in
      elim (Bool-cases (is_ok e && s.has_record_callback)) [
        | inl good ↦ rw good (
            dispatch-Placed (record { slab_ptr = i; timestamp_us = frame.timestamp_us }) t outside
              written)
        | inr bad ↦ rw bad (inl (Accounts-free t (i ∷ outside) outside i written (λ j. refl)))
      ]

  -- What a round of the pipeline leaves of the slabs outside: no more than there were; or one more,
  -- and a queue was full.
  abbrev pub Passed : System R Q W → System R Q W → List ℕ → Type 0
  Passed s t outside =
      Accounts raw ops raw_queue queue t outside
      ⊎ ((i : ℕ) × Accounts raw ops raw_queue queue t (i ∷ outside) × IsJammed s)

  pack_frame-Passed :
      (frame : AnalyzerFrame) (o : Option ℕ) (s : System R Q W) (outside : List ℕ)
      → (alloc s.pool).0 ≡ o
      → Accounts raw ops raw_queue queue s outside
      → Passed s (pack_frame raw ops env frame o (record s { pool = (alloc s.pool).1 })) outside
  unfolding pack_frame
  pack_frame-Passed frame none s outside eq b =
      inl (Books-same (alloc s.pool).1 _ _ (Books-alloc s.pool _ none eq b) (λ j. omega arith))
  pack_frame-Passed frame (some i) s outside eq b =
      let t : System R Q W = record s { pool = (alloc s.pool).1 } in
      elim (packed-Placed frame i
        (env.pack (slab_at t.pool frame.slab_ptr) frame.timestamp_us (slab_at t.pool i)) t outside
        (Books-same (alloc s.pool).1 _ _ (Books-alloc s.pool _ (some i) eq b) (λ j. omega arith))) [
          | inl placed ↦ inl placed
          | inr (lost, jammed) ↦ inr (i, lost, jammed)
        ]

  process_frame-Passed :
      (frame : AnalyzerFrame) (s : System R Q W) (outside : List ℕ)
      → Accounts raw ops raw_queue queue s (frame.slab_ptr ∷ outside)
      → Passed s (process_frame raw ops env (some frame) s) outside
  unfolding process_frame
  process_frame-Passed frame s outside b =
      let t =
        pack_frame raw ops env frame (alloc s.pool).0 (record s { pool = (alloc s.pool).1 }) in
      elim (pack_frame-Passed frame (alloc s.pool).0 s (frame.slab_ptr ∷ outside) refl b) [
        | inl passed ↦
            inl
              (Accounts-free t (frame.slab_ptr ∷ outside) outside frame.slab_ptr passed (λ j. refl))
        | inr (i, lost, jammed) ↦ inr (
          i,
          Accounts-free t (i ∷ frame.slab_ptr ∷ outside) (i ∷ outside) frame.slab_ptr lost
              (λ j. omega arith),
          jammed,
        )
      ]

  -- A round of the pipeline's task, where every slab is free, in a queue or outside, leaves it so,
  -- with the same slabs outside; or with one more outside, which nobody will free, if the live or
  -- the logging queue was full.
  pub pipeline_round-Passed :
      (s : System R Q W) (outside : List ℕ)
      → Accounts raw ops raw_queue queue s outside
      → Passed s (pipeline_round raw ops env s) outside
  unfolding pipeline_round
  pipeline_round-Passed s outside b =
      elim (receive-cases raw raw_queue frame_slab s.raw_frame_queue) [
        | inl (empty, same) ↦ rw same (inl b)
        | inr (frame, rest, items, got, left, moved) ↦ rw got (
            process_frame-Passed frame
              (record s { raw_frame_queue = (raw.receive s.raw_frame_queue).1 }) outside
              (Books-same s.pool _ _ b (λ i. omega (arith, moved i))))
      ]
