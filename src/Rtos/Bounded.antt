-- ===== src/Rtos/Bounded.antt =====
-- A list with a capacity is a queue.
use modbus_vault.Base.{
  ℕ, ◌≤◌, ◌<◌, ◌≡◌, refl, Bool, true, false, List, [], ◌∷◌, ◌++◌, Option, none, some, if◌then◌else◌,
  ltb, length, arith,
}
use modbus_vault.Rtos.{QueueOps, IsQueue}

pub record Bounded (A : Type 0) : Type 0 where
  pub items : List A
  pub capacity : ℕ

module _ {A : Type 0} where
  pub send : Bounded A → A → Bool × Bounded A
  send q a =
      if ltb (length q.items) q.capacity
      then (true, record q { items = q.items ++ a ∷ [] })
      else (false, q)

  abbrev take_first : List A → ℕ → Option A × Bounded A
  take_first [] capacity = (none, record { items = []; capacity = capacity })
  take_first (a ∷ rest) capacity = (some a, record { items = rest; capacity = capacity })

  unfoldable pub bounded : QueueOps (Bounded A) A
  unfolding send
  bounded = record {
    send = send;
    receive = λ q. take_first q.items q.capacity;
    waiting = λ q. length q.items;
  }

  pub send-room :
      (q : Bounded A) (a : A)
      → length q.items < q.capacity
      → ((send q a).0 ≡ true)
        × ((send q a).1.items ≡ q.items ++ a ∷ [])
        × ((send q a).1.capacity ≡ q.capacity)
  unfolding send
  send-room q a h = (ground arith, ground arith, ground arith)

  pub send-full : (q : Bounded A) (a : A) → q.capacity ≤ length q.items → send q a ≡ (false, q)
  unfolding send
  send-full q a h = ground arith

  pub take_first-nil : (q : Bounded A) → q.items ≡ [] → take_first q.items q.capacity ≡ (none, q)
  take_first-nil q h = ground (arith, h)

  pub take_first-cons :
      (q : Bounded A) (a : A) (rest : List A)
      → q.items ≡ a ∷ rest
      → ((take_first q.items q.capacity).0 ≡ some a)
        × ((take_first q.items q.capacity).1.items ≡ rest)
        × ((take_first q.items q.capacity).1.capacity ≡ q.capacity)
  take_first-cons q a rest h = (ground (arith, h), ground (arith, h), ground (arith, h))

  unfoldable pub bounded-IsQueue : IsQueue bounded
  unfolding bounded
  bounded-IsQueue = record {
    items = λ q. q.items;
    capacity = λ q. q.capacity;
    send-room = send-room;
    send-full = send-full;
    receive-nil = take_first-nil;
    receive-cons = take_first-cons;
    waiting-length = λ q. refl;
  }
