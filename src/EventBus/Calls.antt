-- ===== src/EventBus/Calls.antt =====
-- What the subscribers of components/event_bus/event_bus.c see of the events that are queued: which
-- callbacks are called, in which order and on what.
use modbus_vault.Base.{
  ℕ, ◌<◌, ◌≡◌, refl, sym, ap, ◌∙◌, Bool, false, List, [], ◌∷◌, ◌++◌, Option, none, some,
  if◌then◌else◌, ◌==◌, length, arith, splice,
}
use modbus_vault.Base.Words.{read32}
use modbus_vault.Rtos.{QueueOps, IsQueue}
use modbus_vault.EventBus.{
  Bus, Subscriber, Task, deliver, dispatch, receive_event, task_round, type_of,
}
use modbus_vault.EventBus.Dispatch.{deliver_all, task_round-Drains}

-- A call of a callback, with its context and the event.
pub record Call (C : Type 0) : Type 0 where
  pub cb : C
  pub ctx : ℕ
  pub event : List ℕ

-- The event that each item makes of the one before it, whose bytes it covers from the front.
abbrev pub events : List ℕ → List (List ℕ) → List (List ℕ)
events before [] = []
events before (item ∷ items) = splice before 0 item ∷ events (splice before 0 item) items

module _ {C : Type 0} where
  abbrev if_wanted : Option C → ℕ → List ℕ → Bool → List (Call C)
  if_wanted none ctx event wanted = []
  if_wanted (some cb) ctx event wanted =
      if wanted then record { cb = cb; ctx = ctx; event = event } ∷ [] else []

  -- The calls of an event: one for each slot with a callback for the type that the event begins with.
  abbrev pub calls_of : List (Subscriber C) → List ℕ → List (Call C)
  calls_of [] event = []
  calls_of (s ∷ rest) event =
      if_wanted s.cb s.ctx event (s.event_type == read32 event) ++ calls_of rest event

  abbrev pub all_calls : List (Subscriber C) → List (List ℕ) → List (Call C)
  all_calls subscribers [] = []
  all_calls subscribers (event ∷ rest) = calls_of subscribers event ++ all_calls subscribers rest

module _ {C W : Type 0} (call : C → ℕ → List ℕ → W → W) where
  abbrev pub make : List (Call C) → W → W
  make [] w = w
  make (c ∷ calls) w = make calls (call c.cb c.ctx c.event w)

  make-append : (xs ys : List (Call C)) (w : W) → make (xs ++ ys) w ≡ make ys (make xs w)
  make-append [] ys w = refl
  make-append (x ∷ xs) ys w = make-append xs ys (call x.cb x.ctx x.event w)

  deliver-make :
      (s : Subscriber C) (event : List ℕ) (w : W)
      → deliver call s event w ≡ make (if_wanted s.cb s.ctx event (s.event_type == read32 event)) w
  unfolding deliver type_of
  deliver-make s event w = ground arith

  dispatch-make :
      (subscribers : List (Subscriber C)) (event : List ℕ) (w : W)
      → dispatch call subscribers event w ≡ make (calls_of subscribers event) w
  unfolding dispatch
  dispatch-make [] event w = refl
  dispatch-make (s ∷ rest) event w =
      dispatch-make rest event (deliver call s event w)
      ∙ ap (make (calls_of rest event)) (deliver-make s event w)
      ∙ sym (
          make-append (if_wanted s.cb s.ctx event (s.event_type == read32 event))
            (calls_of rest event) w)

  deliver_all-make :
      (subscribers : List (Subscriber C)) (items : List (List ℕ)) (t : Task W)
      → (deliver_all call subscribers items t).world
        ≡ make (all_calls subscribers (events t.event items)) t.world
  unfolding receive_event
  deliver_all-make subscribers [] t = refl
  deliver_all-make subscribers (item ∷ items) t =
      let event = splice t.event 0 item in
      deliver_all-make subscribers items (receive_event call subscribers item t)
      ∙ ap (make (all_calls subscribers (events event items)))
          (dispatch-make subscribers event t.world)
      ∙ sym (
          make-append (calls_of subscribers event) (all_calls subscribers (events event items))
            t.world)

module _ {Q C W : Type 0} (ops : QueueOps Q (List ℕ)) (call : C → ℕ → List ℕ → W → W)
    (queue : IsQueue ops) where
  -- A round of the task that is not asked to stop ends for fuel above the number of queued items and
  -- leaves an empty queue. Item by item, and for each slot by slot, it has called the callbacks
  -- whose slot is for the type of the event, with the slot's context and the event: the item over
  -- the front of the event before it.
  pub task_round-calls :
      (fuel : ℕ) (b : Bus Q C) (q : Q) (t : Task W)
      → b.has_stop_bit ≡ false
      → b.event_queue ≡ some q
      → length (queue.items q) < fuel
      → (q' : Q) × (t' : Task W) × (task_round ops call fuel b t
          ≡ some (record b { event_queue = some q'; has_event_bit = false }, t'))
        × (queue.items q' ≡ [])
        × (t'.world ≡ make call (all_calls b.subscribers (events t.event (queue.items q))) t.world)
  task_round-calls fuel b q t runs created enough =
      let (q', returns, empty, same) =
        task_round-Drains ops call queue fuel b q t runs created enough in
      (
        q',
        deliver_all call b.subscribers (queue.items q) t,
        returns,
        empty,
        deliver_all-make call b.subscribers (queue.items q) t,
      )
