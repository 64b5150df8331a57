-- ===== src/Rtos.antt =====
-- The queue of FreeRTOS that the components use: `xQueueSend` and `xQueueReceive` without waiting,
-- and `uxQueueMessagesWaiting`. It is an interface with the documented behaviour as laws; a list with
-- a capacity is an instance.
pub mod Bounded
use modbus_vault.Base.{
  ℕ, suc, ◌≤◌, ◌<◌, ◌≡◌, Bool, true, false, List, [], ◌∷◌, ◌++◌, Option, none, some, length,
}

pub record QueueOps (Q A : Type 0) : Type 0 where
  pub send : Q → A → Bool × Q
  pub receive : Q → Option A × Q
  pub waiting : Q → ℕ

-- What the documentation promises: the items come out in the order in which they went in, and an
-- item that finds the queue full is refused.
pub record IsQueue {Q A : Type 0} (ops : QueueOps Q A) : Type 0 where
  pub items : Q → List A
  pub capacity : Q → ℕ
  pub send-room :
      (q : Q) (a : A)
      → length (items q) < capacity q
      → ((ops.send q a).0 ≡ true)
        × (items (ops.send q a).1 ≡ items q ++ a ∷ [])
        × (capacity (ops.send q a).1 ≡ capacity q)
  pub send-full : (q : Q) (a : A) → capacity q ≤ length (items q) → ops.send q a ≡ (false, q)
  pub receive-nil : (q : Q) → items q ≡ [] → ops.receive q ≡ (none, q)
  pub receive-cons :
      (q : Q) (a : A) (rest : List A)
      → items q ≡ a ∷ rest
      → ((ops.receive q).0 ≡ some a)
        × (items (ops.receive q).1 ≡ rest)
        × (capacity (ops.receive q).1 ≡ capacity q)
  pub waiting-length : (q : Q) → ops.waiting q ≡ length (items q)
