-- ===== src/EventBus/Dispatch.antt =====
-- The task of components/event_bus/event_bus.c empties its queue and ends the round: every item is
-- dispatched, in the order in which the items were queued.
use modbus_vault.Base.{
  ℕ, zero, suc, ◌<◌, ◌≡◌, refl, ap, ◌∙◌, false, List, [], ◌∷◌, Option, some, arith, length,
}
use modbus_vault.Rtos.{QueueOps, IsQueue}
use modbus_vault.EventBus.{Bus, Subscriber, Task, receive_event, drain, drained, task_round}

-- What the items lead to, one behind the other.
abbrev pub deliver_all :
    {C W : Type 0}
    → (C → ℕ → List ℕ → W → W)
    → List (Subscriber C)
    → List (List ℕ)
    → Task W
    → Task W
deliver_all call subscribers [] t = t
deliver_all call subscribers (item ∷ items) t =
    deliver_all call subscribers items (receive_event call subscribers item t)

module _ {Q C W : Type 0} (ops : QueueOps Q (List ℕ)) (call : C → ℕ → List ℕ → W → W) where
  module _ (queue : IsQueue ops) where
    -- The queue is empty and its items are delivered.
    abbrev pub Drains :
        List (Subscriber C) → List (List ℕ) → Task W → Q → Option (Q × Task W) → Type 0
    Drains subscribers items t q result =
        (q' : Q) × (result ≡ some (q', deliver_all call subscribers items t))
        × (queue.items q' ≡ [])
        × (queue.capacity q' ≡ queue.capacity q)

    pub drain-Drains :
        (fuel : ℕ) (subscribers : List (Subscriber C)) (q : Q) (items : List (List ℕ)) (t : Task W)
        → queue.items q ≡ items
        → length items < fuel
        → Drains subscribers items t q (drain ops call fuel subscribers q t)
    unfolding drain
    drain-Drains zero subscribers q items t h enough = absurd (omega arith)
    drain-Drains (suc fuel) subscribers q [] t h enough =
        let stays = queue.receive-nil q h in
        (q, rw (drain, ap (λ r. r.0) stays, ap (λ r. r.1) stays) refl, h, refl)
    drain-Drains (suc fuel) subscribers q (item ∷ items) t h enough =
        let (head, rest, capacity) = queue.receive-cons q item items h in
        let (q', eq, empty, same) =
          drain-Drains fuel subscribers (ops.receive q).1 items
            (receive_event call subscribers item t) rest (omega arith) in
        (q', rw (drain, head) eq, empty, same ∙ capacity)

    -- A round of the task ends for fuel above the number of queued items, leaves an empty queue, and
    -- has delivered the items in order.
    pub task_round-Drains :
        (fuel : ℕ) (b : Bus Q C) (q : Q) (t : Task W)
        → b.has_stop_bit ≡ false
        → b.event_queue ≡ some q
        → length (queue.items q) < fuel
        → (q' : Q) × (task_round ops call fuel b t
            ≡ some (
              record b { event_queue = some q'; has_event_bit = false },
              deliver_all call b.subscribers (queue.items q) t,
            ))
          × (queue.items q' ≡ [])
          × (queue.capacity q' ≡ queue.capacity q)
    unfolding task_round drained
    task_round-Drains fuel b q t runs created enough =
        let (q', eq, empty, same) =
          drain-Drains fuel b.subscribers q (queue.items q) t refl enough in
        (q', ground (arith, runs, created, eq), empty, same)
