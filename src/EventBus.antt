-- ===== src/EventBus.antt =====
-- components/event_bus/event_bus.c: events are queued by their publishers and dispatched to the
-- subscribers by the bus's task. The queue is FreeRTOS's; a callback is a function on the world of
-- the subscribers, which the bus does not look into.
pub mod Dispatch
pub mod Calls
pub mod Slots
pub mod Payload
mod Tests
use modbus_vault.Base.{
  ℕ, zero, suc, ◌+◌, Bool, true, false, not, ◌&&◌, List, [], ◌∷◌, Option, none, some, if◌then◌else◌,
  ltb, ◌==◌, drop, take, splice, set, replicate,
}
use modbus_vault.Base.Words.{read32, write32}
use modbus_vault.Base.{EspErr, esp_ok, esp_err_no_mem, esp_err_invalid_arg}
use modbus_vault.Rtos.{QueueOps}

abbrev pub max_subscribers : ℕ
max_subscribers = 8

-- An `event_bus_t` is the list of its bytes: `type` at 0, `payload` at 4, `size` at 8 and
-- `timestamp_us` at 16.
abbrev pub event_size : ℕ
event_size = 24

-- `sizeof (event_bus_event_t)`, an enum
abbrev pub event_type_size : ℕ
event_type_size = 4

-- `EVENT_BUS_EVENT_ERROR`
abbrev pub event_error : ℕ
event_error = 0

unfoldable pub type_of : List ℕ → ℕ
type_of event = read32 event

unfoldable pub data_of : List ℕ → ℕ
data_of event = read32 (drop 4 event)

-- `subscriber_t`; `C` stands for the callbacks.
pub record Subscriber (C : Type 0) : Type 0 where
  pub event_type : ℕ
  pub cb : Option C
  pub ctx : ℕ

abbrev pub empty_slot : {C : Type 0} → Subscriber C
empty_slot = record { event_type = 0; cb = none; ctx = 0 }

-- The statics of the file: the queue with the size of its items, the subscribers, and what the task
-- has been notified of.
pub record Bus (Q C : Type 0) : Type 0 where
  pub event_queue : Option Q
  pub item_size : ℕ
  pub subscribers : List (Subscriber C)
  pub has_event_bit : Bool
  pub has_stop_bit : Bool
  pub has_task : Bool

module _ {C : Type 0} where
  -- `event_bus_subscribe`: the first slot without a callback, from slot `idx` on.
  unfoldable pub subscribe_from :
      ℕ → ℕ → C → ℕ → List (Subscriber C) → Option ℕ × List (Subscriber C)
  subscribe_from idx type cb ctx [] = (none, [])
  subscribe_from idx type cb ctx (s ∷ rest) = elim s.cb [
    | none ↦ (some idx, record { event_type = type; cb = some cb; ctx = ctx } ∷ rest)
    | some taken ↦
        let (slot, rest') = subscribe_from (idx + 1) type cb ctx rest in (slot, s ∷ rest')
  ]

  -- A slot's callback and context cleared.
  abbrev pub clear_slot : List (Subscriber C) → ℕ → List (Subscriber C)
  clear_slot [] slot = []
  clear_slot (s ∷ rest) zero = record s { cb = none; ctx = 0 } ∷ rest
  clear_slot (s ∷ rest) (suc slot) = s ∷ clear_slot rest slot

module _ {Q C : Type 0} where
  pub deinit : Bus Q C → Bus Q C
  deinit b = record b { event_queue = none; subscribers = replicate max_subscribers empty_slot }

  -- `event_bus_init`; `create` is `xQueueCreate` on the count and the size of the items.
  unfoldable pub init : (ℕ → ℕ → Option Q) → ℕ → Bus Q C → EspErr × Bus Q C
  unfolding deinit
  init create zero b = (esp_err_invalid_arg, deinit b)
  init create (suc n) b = elim (create (suc n) event_type_size) [
    | none ↦ (esp_err_no_mem, deinit b)
    | some q ↦ (
      esp_ok,
      record b {
        event_queue = some q;
        item_size = event_type_size;
        subscribers = replicate max_subscribers empty_slot;
      },
    )
  ]

  -- The slot, or `none` for -1.
  unfoldable pub subscribe : ℕ → C → ℕ → Bus Q C → Option ℕ × Bus Q C
  unfolding subscribe_from
  subscribe type cb ctx b =
      let (slot, subscribers) = subscribe_from 0 type cb ctx b.subscribers in
      (slot, record b { subscribers = subscribers })

  -- `event_bus_unsubscribe`, for a slot that is not negative.
  unfoldable pub unsubscribe : ℕ → Bus Q C → Bool × Bus Q C
  unsubscribe slot b =
      if ltb slot max_subscribers
      then (true, record b { subscribers = clear_slot b.subscribers slot })
      else (false, b)

  -- `event_bus_stop_task`
  pub stop_task : Bus Q C → Bus Q C
  stop_task b = if b.has_task then record b { has_stop_bit = true } else b

module _ {Q C : Type 0} (ops : QueueOps Q (List ℕ)) where
  -- The queue copies as many bytes as its items have; a full queue is not an error of its own.
  publish_to : Option Q → List ℕ → Bus Q C → Bool × Bus Q C
  publish_to none event b = (false, b)
  publish_to (some q) event b =
      let (sent, q') = ops.send q (take b.item_size event) in
      if sent
      then (true, record b { event_queue = some q'; has_event_bit = true })
      else (false, record b { event_queue = some q' })

  -- `event_bus_publish`; `none` is a NULL `event_ptr`.
  unfoldable pub publish : Option (List ℕ) → Bus Q C → Bool × Bus Q C
  unfolding publish_to
  publish none b = (false, b)
  publish (some event) b = publish_to b.event_queue event b

-- What the task works on: its local variable `event`, and the world of the subscribers.
pub record Task (W : Type 0) : Type 0 where
  pub event : List ℕ
  pub world : W

module _ {C W : Type 0} (call : C → ℕ → List ℕ → W → W) where
  -- One subscriber sees the event if it is of its type.
  unfoldable pub deliver : Subscriber C → List ℕ → W → W
  unfolding type_of
  deliver s event w = elim s.cb [
    | none ↦ w
    | some cb ↦ if s.event_type == type_of event then call cb s.ctx event w else w
  ]

  -- The `for` loop over the slots.
  unfoldable pub dispatch : List (Subscriber C) → List ℕ → W → W
  dispatch [] event w = w
  dispatch (s ∷ rest) event w = dispatch rest event (deliver s event w)

  -- An item is copied over the local variable, which keeps what the item does not cover.
  unfoldable pub receive_event : List (Subscriber C) → List ℕ → Task W → Task W
  receive_event subscribers item t =
      let event = splice t.event 0 item in
      record { event = event; world = dispatch subscribers event t.world }

module _ {Q C W : Type 0} (ops : QueueOps Q (List ℕ)) (call : C → ℕ → List ℕ → W → W) where
  -- The `while (xQueueReceive (...))` of the task.
  unfoldable pub drain : ℕ → List (Subscriber C) → Q → Task W → Option (Q × Task W)
  drain zero subscribers q t = none
  drain (suc fuel) subscribers q t = elim (ops.receive q).0 [
    | none ↦ some ((ops.receive q).1, t)
    | some item ↦ drain fuel subscribers (ops.receive q).1 (receive_event call subscribers item t)
  ]

  drained : Bus Q C → Option (Q × Task W) → Option (Bus Q C × Task W)
  drained b none = none
  drained b (some (q, t)) = some (record b { event_queue = some q; has_event_bit = false }, t)

  -- A round of `event_bus_task` once it is notified: the stop bit ends it, else the queue is
  -- emptied.
  unfoldable pub task_round : ℕ → Bus Q C → Task W → Option (Bus Q C × Task W)
  unfolding drained
  task_round fuel b t =
      if b.has_stop_bit
      then some (record b { has_task = false; has_stop_bit = false; has_event_bit = false }, t)
      else elim b.event_queue [ none ↦ none | some q ↦ drained b (drain fuel b.subscribers q t) ]
