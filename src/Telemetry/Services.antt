-- ===== src/Telemetry/Services.antt =====
-- Slabs at the end of their way in logger_service: each record that is stored is freed, and the
-- task loses the third.
use modbus_vault.Base.{
  ℕ, zero, suc, ◌+◌, ◌≡◌, ◌⊎◌, inl, inr, refl, sym, ap, subst, ◌∙◌, List, [], ◌∷◌, some, arith,
  if◌then◌else◌,
}
use modbus_vault.Rtos.{QueueOps, IsQueue}
use modbus_vault.Metrics.{logger_write_errors}
use modbus_vault.SlabPool.{Pool, free}
use modbus_vault.SlabPool.Books.{one, Books-same}
use modbus_vault.Modbus.Analyzer.{AnalyzerFrame}
use modbus_vault.Telemetry.{
  System, Env, TelemetryRecord, slab_bytes, store, store_quota_left, logger_round,
}
use modbus_vault.Telemetry.Ledger.{in_queue, in_items, record_slab, Accounts}
use modbus_vault.Telemetry.Pipeline.{Accounts-free}

free-slabs : (p : Pool) (k : ℕ) → (free p (some k)).slabs ≡ p.slabs
unfolding free
free-slabs p k = ground arith

module _ {R Q W : Type 0} (raw : QueueOps R AnalyzerFrame) (ops : QueueOps Q TelemetryRecord)
    (raw_queue : IsQueue raw) (queue : IsQueue ops) (env : Env W) where
  -- The world once the bytes of a record's slab were given to the log.
  abbrev pub logged : TelemetryRecord → Pool → W → W
  logged r p w =
      let (stored, w') = env.write_log (slab_bytes p r.slab_ptr) w in
      if stored then w' else env.report logger_write_errors r.timestamp_us w'

  -- The system with the first item of the logging queue taken out.
  abbrev behind : System R Q W → System R Q W
  behind s = record s { logging_queue = (ops.receive s.logging_queue).1 }

  quota-step :
      (left : ℕ) (s : System R Q W) (r : TelemetryRecord) (rest : List TelemetryRecord)
      → queue.items s.logging_queue ≡ r ∷ rest
      → store_quota_left raw ops env (suc left) s
        ≡ store_quota_left raw ops env left (store raw ops env r (behind s)).1
  unfolding store_quota_left
  quota-step left s r rest items =
      let (got, others, same) = queue.receive-cons s.logging_queue r rest items in
      rw (store_quota_left, got) refl

  quota-last : (s : System R Q W) → store_quota_left raw ops env 0 s ≡ behind s
  unfolding store_quota_left
  quota-last s = refl

  quota-empty :
      (left : ℕ) (s : System R Q W)
      → queue.items s.logging_queue ≡ []
      → store_quota_left raw ops env left s ≡ s
  unfolding store_quota_left
  quota-empty zero s items =
      ap (λ e. record s { logging_queue = e.1 }) (queue.receive-nil s.logging_queue items)
  quota-empty (suc left) s items =
      let stays = queue.receive-nil s.logging_queue items in
      rw (store_quota_left, ap (λ e. e.0) stays) (ap (λ e. record s { logging_queue = e.1 }) stays)

  -- A record that is stored: its slab is free again.
  store-Accounts :
      (s : System R Q W) (outside : List ℕ) (r : TelemetryRecord) (rest : List TelemetryRecord)
      → Accounts raw ops raw_queue queue s outside
      → queue.items s.logging_queue ≡ r ∷ rest
      → Accounts raw ops raw_queue queue (store raw ops env r (behind s)).1 outside
        × (queue.items (store raw ops env r (behind s)).1.logging_queue ≡ rest)
        × ((store raw ops env r (behind s)).1.world ≡ logged r s.pool s.world)
        × ((store raw ops env r (behind s)).1.pool.slabs ≡ s.pool.slabs)
  unfolding store
  store-Accounts s outside r rest b items =
      let (got, left, same) = queue.receive-cons s.logging_queue r rest items in
      let moved : (i : ℕ)
          → in_queue ops queue record_slab s.logging_queue i
            ≡ one r.slab_ptr i + in_queue ops queue record_slab (behind s).logging_queue i =
        λ i. ap (λ xs. in_items record_slab xs i) (items ∙ ap (◌∷◌ r) (sym left)) in
      (
        Accounts-free raw ops raw_queue queue env (behind s) (r.slab_ptr ∷ outside) outside
            r.slab_ptr (Books-same s.pool _ _ b (λ i. omega (arith, moved i))) (λ j. refl),
        left,
        refl,
        free-slabs s.pool r.slab_ptr,
      )

  -- The log sees the same bytes in a pool with the same slabs.
  logged-same :
      (r : TelemetryRecord) (p p' : Pool) (w : W)
      → p'.slabs ≡ p.slabs
      → logged r p' w ≡ logged r p w
  logged-same r p p' w same = ap (λ slabs. logged r (record p { slabs = slabs }) w) same

  -- A round of the logger's task that finds three records or more gives the first two to the log,
  -- in order, and takes the third out of the queue too: its slab is outside from then on, where
  -- nobody has it, and its bytes do not reach the log.
  pub logger_round-loses_third :
      (s : System R Q W) (outside : List ℕ) (a b c : TelemetryRecord) (rest : List TelemetryRecord)
      → Accounts raw ops raw_queue queue s outside
      → queue.items s.logging_queue ≡ a ∷ b ∷ c ∷ rest
      → Accounts raw ops raw_queue queue (logger_round raw ops env s) (c.slab_ptr ∷ outside)
        × (queue.items (logger_round raw ops env s).logging_queue ≡ rest)
        × ((logger_round raw ops env s).world ≡ logged b s.pool (logged a s.pool s.world))
  unfolding logger_round
  logger_round-loses_third s outside a b c rest books items =
      let (books1, items1, world1, slabs1) =
        store-Accounts s outside a (b ∷ c ∷ rest) books items in
      let t = (store raw ops env a (behind s)).1 in
      let (books2, items2, world2, slabs2) = store-Accounts t outside b (c ∷ rest) books1 items1 in
      let u = (store raw ops env b (behind t)).1 in
      let (got, left, same) = queue.receive-cons u.logging_queue c rest items2 in
      let eq : logger_round raw ops env s ≡ behind u =
        quota-step 1 s a (b ∷ c ∷ rest) items ∙ quota-step 0 t b (c ∷ rest) items1 ∙ quota-last u in
      (
        subst (λ v. Accounts raw ops raw_queue queue v (c.slab_ptr ∷ outside)) (sym eq)
            (Books-same u.pool _ _ books2 (λ i.
              omega
                (arith, ap (λ xs. in_items record_slab xs i) (items2 ∙ ap (◌∷◌ c) (sym left))))),
        ap (λ v. queue.items v.logging_queue) eq ∙ left,
        ap (λ v. v.world) eq
            ∙ world2
            ∙ logged-same b s.pool t.pool t.world slabs1
            ∙ ap (logged b s.pool) world1,
      )

  -- Whatever is in the queue, a round leaves one more slab outside at most.
  pub logger_round-Accounts :
      (s : System R Q W) (outside : List ℕ)
      → Accounts raw ops raw_queue queue s outside
      → Accounts raw ops raw_queue queue (logger_round raw ops env s) outside
        ⊎ ((c : ℕ) × Accounts raw ops raw_queue queue (logger_round raw ops env s) (c ∷ outside))
  unfolding logger_round
  logger_round-Accounts s outside b = go (queue.items s.logging_queue) refl
    where
      go :
          (items : List TelemetryRecord)
          → queue.items s.logging_queue ≡ items
          → Accounts raw ops raw_queue queue (logger_round raw ops env s) outside
            ⊎ ((c : ℕ) × Accounts raw ops raw_queue queue
                  (logger_round raw ops env s)
                  (c ∷ outside))
      go [] eq =
          inl (subst (λ t. Accounts raw ops raw_queue queue t outside) (sym (quota-empty 2 s eq)) b)
      go (r ∷ []) eq =
          let (books, items, _, _) = store-Accounts s outside r [] b eq in
          inl (
            subst (λ t. Accounts raw ops raw_queue queue t outside)
              (sym
                (quota-step 1 s r [] eq ∙ quota-empty 1 (store raw ops env r (behind s)).1 items))
              books)
      go (r ∷ r' ∷ []) eq =
          let (books, items, _, _) = store-Accounts s outside r (r' ∷ []) b eq in
          let t = (store raw ops env r (behind s)).1 in
          let (books', items', _, _) = store-Accounts t outside r' [] books items in
          inl (
            subst (λ t. Accounts raw ops raw_queue queue t outside)
              (sym (
                quota-step 1 s r (r' ∷ []) eq
                ∙ quota-step 0 t r' [] items
                ∙ quota-empty 0 (store raw ops env r' (behind t)).1 items'))
              books')
      go (r ∷ r' ∷ c ∷ rest) eq =
          inr (c.slab_ptr, (logger_round-loses_third s outside r r' c rest b eq).0)
