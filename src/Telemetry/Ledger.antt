-- ===== src/Telemetry/Ledger.antt =====
-- The slabs of the telemetry path: how often each is in one of the three queues, and the books of
-- the pool with those that are outside of them.
use modbus_vault.Base.{
  ℕ, ◌+◌, ◌≤◌, ◌<◌, ◌≡◌, ◌⊎◌, inl, inr, refl, sym, ap, ◌∙◌, true, false, List, [], ◌∷◌, ◌++◌, none,
  some, arith, length,
}
use native.Mathlib.Decide.{dec_lt}
use modbus_vault.Base.Counts.{occurrences}
use modbus_vault.Rtos.{QueueOps, IsQueue}
use modbus_vault.SlabPool.Books.{one, Books}
use modbus_vault.Modbus.Analyzer.{AnalyzerFrame}
use modbus_vault.Telemetry.{System, TelemetryRecord}

module _ {A : Type 0} (slab_of : A → ℕ) where
  -- How often a slab is in a list of items.
  abbrev pub in_items : List A → ℕ → ℕ
  in_items [] i = 0
  in_items (a ∷ items) i = one (slab_of a) i + in_items items i

  pub in_items-append :
      (xs ys : List A) (i : ℕ) → in_items (xs ++ ys) i ≡ in_items xs i + in_items ys i
  in_items-append [] ys i = omega arith
  in_items-append (x ∷ xs) ys i = omega (arith, in_items-append xs ys i)

module _ {Q A : Type 0} (ops : QueueOps Q A) (queue : IsQueue ops) (slab_of : A → ℕ) where
  abbrev pub in_queue : Q → ℕ → ℕ
  in_queue q i = in_items slab_of (queue.items q) i

  -- A send puts the item behind the others, or finds the queue full and changes nothing.
  pub send-cases :
      (q : Q) (a : A)
      → ((length (queue.items q) < queue.capacity q)
          × ((ops.send q a).0 ≡ true)
          × ((i : ℕ) → in_queue (ops.send q a).1 i ≡ one (slab_of a) i + in_queue q i))
        ⊎ ((queue.capacity q ≤ length (queue.items q)) × (ops.send q a ≡ (false, q)))
  send-cases q a = elim (dec_lt (length (queue.items q)) (queue.capacity q)) [
    | yes room ↦
        let (sent, there, same) = queue.send-room q a room in
        inl (
          room,
          sent,
          λ i.
              ap (λ xs. in_items slab_of xs i) there
              ∙ in_items-append slab_of (queue.items q) (a ∷ []) i
              ∙ (omega arith),
        )
    | no full ↦ inr (omega (arith, full), queue.send-full q a (omega (arith, full)))
  ]

  -- A receive takes the first item out, or finds the queue empty and changes nothing.
  pub receive-cases :
      (q : Q)
      → ((queue.items q ≡ []) × (ops.receive q ≡ (none, q)))
        ⊎ ((a : A) × (rest : List A) × (queue.items q ≡ a ∷ rest)
            × ((ops.receive q).0 ≡ some a)
            × (queue.items (ops.receive q).1 ≡ rest)
            × ((i : ℕ) → in_queue q i ≡ one (slab_of a) i + in_queue (ops.receive q).1 i))
  receive-cases q = go (queue.items q) refl
    where
      go :
          (items : List A)
          → queue.items q ≡ items
          → ((queue.items q ≡ []) × (ops.receive q ≡ (none, q)))
            ⊎ ((a : A) × (rest : List A) × (queue.items q ≡ a ∷ rest)
                × ((ops.receive q).0 ≡ some a)
                × (queue.items (ops.receive q).1 ≡ rest)
                × ((i : ℕ) → in_queue q i ≡ one (slab_of a) i + in_queue (ops.receive q).1 i))
      go [] eq = inl (eq, queue.receive-nil q eq)
      go (a ∷ rest) eq =
          let (got, left, same) = queue.receive-cons q a rest eq in
          inr (
            a,
            rest,
            eq,
            got,
            left,
            λ i.
                ap (λ xs. in_items slab_of xs i) eq
                ∙ ap (λ xs. one (slab_of a) i + in_items slab_of xs i) (sym left),
          )

abbrev pub frame_slab : AnalyzerFrame → ℕ
frame_slab frame = frame.slab_ptr

abbrev pub record_slab : TelemetryRecord → ℕ
record_slab r = r.slab_ptr

module _ {R Q W : Type 0} (raw : QueueOps R AnalyzerFrame) (ops : QueueOps Q TelemetryRecord)
    (raw_queue : IsQueue raw) (queue : IsQueue ops) where
  -- How often a slab is in one of the queues.
  abbrev pub queued : System R Q W → ℕ → ℕ
  queued s i =
      in_queue raw raw_queue frame_slab s.raw_frame_queue i
      + in_queue ops queue record_slab s.live_queue i
      + in_queue ops queue record_slab s.logging_queue i

  -- Every slab is free, in one of the queues, or in the list `outside`, once: with the analyzer, or
  -- with nobody.
  abbrev pub Accounts : System R Q W → List ℕ → Type 0
  Accounts s outside = Books s.pool (λ i. queued s i + occurrences i outside)
