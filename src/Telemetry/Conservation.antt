-- ===== src/Telemetry/Conservation.antt =====
-- The telemetry path as a whole: the analyzer, the router, the pipeline, the logger and the live
-- service in any order, on one pool.
use modbus_vault.Base.{
  ℕ, ◌+◌, ◌≡◌, inl, inr, refl, sym, ap, subst, ◌∙◌, Bool, true, List, [], ◌∷◌, ◌++◌, some, arith,
  Bool-cases,
}
use modbus_vault.Base.Counts.{occurrences, occurrences-append}
use modbus_vault.Rtos.{QueueOps, IsQueue}
use modbus_vault.SlabPool.{init, boot, alloc, free}
use modbus_vault.SlabPool.Ownership.{hold, IsPartition, start-IsPartition}
use modbus_vault.SlabPool.Books.{
  one, Books-same, Books-alloc, Books-set_slab, Books-once, occurrences-hold,
}
use modbus_vault.Modbus.Analyzer.{AnalyzerFrame}
use modbus_vault.Telemetry.{System, Env, TelemetryRecord, enqueue_raw_frame, set_online}
use modbus_vault.Telemetry.Steps.{
  Shop, Step, Reach, analyzer_allocates, analyzer_writes, analyzer_frees, analyzer_hands_on,
  pipeline_runs, logger_runs, live_runs, replay_runs, link_changes, starts, steps,
}
use modbus_vault.Telemetry.Ledger.{
  in_queue, in_items, send-cases, record_slab, frame_slab, queued, Accounts,
}
use modbus_vault.Telemetry.Pipeline.{Accounts-free, pipeline_round-Passed}
use modbus_vault.Telemetry.Services.{logger_round-Accounts}
use modbus_vault.Telemetry.Live.{process_live_quota-Accounts, process_replay_quota-Accounts}

module _ {R Q W : Type 0} (raw : QueueOps R AnalyzerFrame) (ops : QueueOps Q TelemetryRecord)
    (raw_queue : IsQueue raw) (queue : IsQueue ops) (env : Env W) where
  -- What changes hands.
  moved :
      (lost before after : List ℕ) (i j : ℕ) (has : List ℕ)
      → has ≡ before ++ i ∷ after
      → occurrences j (lost ++ has) ≡ one i j + occurrences j (lost ++ (before ++ after))
  moved lost before after i j has eq = omega (
    arith,
    occurrences-append j lost has,
    ap (occurrences j) eq,
    occurrences-append j before (i ∷ after),
    occurrences-append j lost (before ++ after),
    occurrences-append j before after,
  )

  set_online-keeps :
      (online : Bool) (s : System R Q W)
      → (flag : Bool) × (w : W) × (set_online raw ops env online s
          ≡ record s { is_online_flag = flag; world = w })
  unfolding set_online
  set_online-keeps online s = elim (Bool-cases s.has_state_lock) [
    | inl locked ↦ elim (Bool-cases (env.lock_free s.world).0) [
      | inl taken ↦ (online, (env.lock_free s.world).1, ground (arith, locked, taken))
      | inr busy ↦ (s.is_online_flag, (env.lock_free s.world).1, ground (arith, locked, busy))
    ]
    | inr free ↦ (s.is_online_flag, s.world, ground (arith, free))
  ]

  -- Every slab is free, in one queue, with the analyzer, or lost.
  abbrev pub Conserved : Shop R Q W → Type 0
  Conserved s = (lost : List ℕ) × Accounts raw ops raw_queue queue s.system (lost ++ s.analyzer_has)

  Step-Conserved : (s t : Shop R Q W) → Conserved s → Step raw ops env s t → Conserved t
  unfolding enqueue_raw_frame
  Step-Conserved s t (lost, b) (analyzer_allocates eq) = subst Conserved (sym eq) (
    lost,
    Books-same (alloc s.system.pool).1 _ _
        (Books-alloc s.system.pool _ (alloc s.system.pool).0 refl b)
        (λ j. omega (
          arith,
          occurrences-append j lost s.analyzer_has,
          occurrences-append j lost (hold (alloc s.system.pool).0 s.analyzer_has),
          occurrences-hold (alloc s.system.pool).0 s.analyzer_has j,
        )),
  )
  Step-Conserved s t (lost, b) (analyzer_writes i slab eq) =
      subst Conserved (sym eq) (lost, Books-set_slab s.system.pool _ i slab b)
  Step-Conserved s t (lost, b) (analyzer_frees before after i has eq) = subst Conserved (sym eq) (
    lost,
    Accounts-free raw ops raw_queue queue env s.system (lost ++ s.analyzer_has)
        (lost ++ (before ++ after)) i b (λ j. moved lost before after i j s.analyzer_has has),
  )
  Step-Conserved s t (lost, b) (analyzer_hands_on before after frame has eq) =
      elim (send-cases raw raw_queue frame_slab s.system.raw_frame_queue frame) [
        | inl (room, sent, more) ↦ subst Conserved (sym eq) (
          lost,
          Books-same s.system.pool _ _ b (λ j.
              omega (arith, more j, moved lost before after frame.slab_ptr j s.analyzer_has has)),
        )
        | inr (full, same) ↦ subst Conserved (sym eq) (
          frame.slab_ptr ∷ lost,
          Books-same s.system.pool _ _ b (λ j. omega (
            arith,
            ap (λ e. in_queue raw raw_queue frame_slab e.1 j) same,
            moved lost before after frame.slab_ptr j s.analyzer_has has,
          )),
        )
      ]
  Step-Conserved s t (lost, b) (pipeline_runs eq) =
      elim (pipeline_round-Passed raw ops raw_queue queue env s.system (lost ++ s.analyzer_has) b) [
        | inl passed ↦ subst Conserved (sym eq) (lost, passed)
        | inr (i, more, jammed) ↦ subst Conserved (sym eq) (i ∷ lost, more)
      ]
  Step-Conserved s t (lost, b) (logger_runs eq) =
      elim (logger_round-Accounts raw ops raw_queue queue env s.system (lost ++ s.analyzer_has) b) [
        | inl stored ↦ subst Conserved (sym eq) (lost, stored)
        | inr (i, more) ↦ subst Conserved (sym eq) (i ∷ lost, more)
      ]
  Step-Conserved s t (lost, b) (live_runs eq) = subst Conserved (sym eq) (
    lost,
    process_live_quota-Accounts raw ops raw_queue queue env s.system (lost ++ s.analyzer_has) b,
  )
  Step-Conserved s t (lost, b) (replay_runs leftover eq) = subst Conserved (sym eq) (
    lost,
    process_replay_quota-Accounts raw ops raw_queue queue env leftover s.system
        (lost ++ s.analyzer_has) b,
  )
  Step-Conserved s t (lost, b) (link_changes online eq) =
      let (flag, w, same) = set_online-keeps online s.system in
      subst Conserved (sym (eq ∙ ap (λ u. record s { system = u }) same)) (lost, b)

  starts-Conserved :
      (s : Shop R Q W)
      → s.system.pool ≡ (init true boot).1
      → raw_queue.items s.system.raw_frame_queue ≡ []
      → queue.items s.system.live_queue ≡ []
      → queue.items s.system.logging_queue ≡ []
      → s.analyzer_has ≡ []
      → Conserved s
  starts-Conserved s pool no_frame no_live no_log nothing = (
    [],
    record {
      held = [];
      partition =
          subst (λ p. IsPartition (record { pool = p; held = [] })) (sym pool) start-IsPartition;
      counts = λ i. omega (
        arith,
        ap (λ xs. in_items frame_slab xs i) no_frame,
        ap (λ xs. in_items record_slab xs i) no_live,
        ap (λ xs. in_items record_slab xs i) no_log,
        ap (occurrences i) nothing,
      );
    },
  )

  Reach-Conserved : {s : Shop R Q W} → Reach raw ops raw_queue queue env s → Conserved s
  Reach-Conserved (starts s pool no_frame no_live no_log nothing) =
      starts-Conserved s pool no_frame no_live no_log nothing
  Reach-Conserved (steps {s} {t} reached last) = Step-Conserved s t (Reach-Conserved reached) last

  -- After any steps of the tasks, in any order and whatever the packing, the log, the link and the
  -- locks do, a slab that the pool hands out is in none of the three queues, and the analyzer does
  -- not have it.
  pub alloc-in_no_queue :
      {s : Shop R Q W} (i : ℕ)
      → Reach raw ops raw_queue queue env s
      → (alloc s.system.pool).0 ≡ some i
      → (queued raw ops raw_queue queue s.system i ≡ 0) × (occurrences i s.analyzer_has ≡ 0)
  alloc-in_no_queue {s} i reached eq =
      let (lost, b) = Reach-Conserved reached in
      let after = Books-alloc s.system.pool _ (some i) eq b in
      let once = Books-once (alloc s.system.pool).1 _ after i in
      let own : one i i ≡ 1 = ground arith in
      (
        omega (arith, once, own, occurrences-append i lost s.analyzer_has),
        omega (arith, once, own, occurrences-append i lost s.analyzer_has),
      )
