-- ===== src/Metrics/Stale.antt =====
-- The errors that reach the counters of components/metrics/metrics.c over the event bus: each is
-- counted under the statistic that the bus's task found in its local variable.
use modbus_vault.Base.{
  ℕ, zero, suc, ◌≤◌, ◌≡◌, refl, ap, ap₂, ◌∙◌, false, List, [], ◌∷◌, Option, some, arith, length,
  take, splice, replicate, length-splice,
}
use modbus_vault.Base.Words.{write32}
use modbus_vault.Rtos.{QueueOps, IsQueue}
use modbus_vault.EventBus.{
  Bus, Subscriber, Task, init, event_type_size, event_error, empty_slot, type_of, data_of, deliver,
  dispatch, receive_event, task_round, subscribe, subscribe_from,
}
use modbus_vault.EventBus.Dispatch.{deliver_all, task_round-Drains}
use modbus_vault.EventBus.Payload.{items_of, publish_all, Holds, data_of-splice, publish_all-Holds}
use modbus_vault.Metrics.Counters
use modbus_vault.Metrics.Counters.{Callback, on_error_callback, call, increment}

-- The slots once the metrics have subscribed to a bus without subscribers.
abbrev metrics_slots : List (Subscriber Callback)
metrics_slots =
    record { event_type = event_error; cb = some on_error_callback; ctx = 0 }
    ∷ replicate 7 empty_slot

-- Every event is of the type EVENT_BUS_EVENT_ERROR.
abbrev pub AllErrors : List (List ℕ) → Type 0
AllErrors [] = Unit {0}
AllErrors (e ∷ events) = (take event_type_size e ≡ write32 event_error) × AllErrors events

-- So many reports of one statistic.
abbrev pub count_same : ℕ → ℕ → List ℕ → List ℕ
count_same zero stat counters = counters
count_same (suc n) stat counters = count_same n stat (increment stat counters)

type_of-splice :
    (event : List ℕ)
    → event_type_size ≤ length event
    → type_of (splice event 0 (write32 event_error)) ≡ event_error
unfolding type_of
type_of-splice [] h = absurd (omega arith)
type_of-splice (a ∷ []) h = absurd (omega arith)
type_of-splice (a ∷ b ∷ []) h = absurd (omega arith)
type_of-splice (a ∷ b ∷ c ∷ []) h = absurd (omega arith)
type_of-splice (a ∷ b ∷ c ∷ d ∷ rest) h = refl

-- An error event that arrives.
abbrev arrived : Task (List ℕ) → Task (List ℕ)
arrived t = receive_event call metrics_slots (write32 event_error) t

arrived-counts :
    (t : Task (List ℕ))
    → event_type_size ≤ length t.event
    → ((arrived t).world ≡ increment (data_of t.event) t.world)
      × (data_of (arrived t).event ≡ data_of t.event)
      × (length (arrived t).event ≡ length t.event)
unfolding receive_event dispatch deliver call
arrived-counts t long = (
  rw (type_of-splice t.event long, data_of-splice t.event (write32 event_error) (omega arith)) refl,
  data_of-splice t.event (write32 event_error) (omega arith),
  length-splice t.event 0 (write32 event_error),
)

deliver_all-counts :
    (events : List (List ℕ)) (t : Task (List ℕ))
    → AllErrors events
    → event_type_size ≤ length t.event
    → (deliver_all call metrics_slots (items_of event_type_size events) t).world
      ≡ count_same (length events) (data_of t.event) t.world
deliver_all-counts [] t h long = refl
deliver_all-counts (e ∷ events) t h long =
    let (counted, payload, same) = arrived-counts t long in
    ap
      (λ item.
        (deliver_all call metrics_slots (items_of event_type_size events)
          (receive_event call metrics_slots item t)).world)
      h.0
    ∙ deliver_all-counts events (arrived t) h.1 (omega (arith, same))
    ∙ ap₂ (count_same (length events)) payload counted

length-items : (events : List (List ℕ)) → length (items_of event_type_size events) ≡ length events
length-items [] = refl
length-items (e ∷ events) = ap suc (length-items events)

module _ {Q : Type 0} (ops : QueueOps Q (List ℕ)) (queue : IsQueue ops) where
  -- The bus and the counters as the program sets them up.
  abbrev pub set_up : (ℕ → ℕ → Option Q) → ℕ → Bus Q Callback → List ℕ → Bus Q Callback × List ℕ
  set_up create n b counters =
      let (err, b', counters') = Counters.init (init create (suc n) b).1 counters in (b', counters')

  set_up-Holds :
      (create : ℕ → ℕ → Option Q) (n : ℕ) (b : Bus Q Callback) (q : Q) (counters : List ℕ)
      → create (suc n) event_type_size ≡ some q
      → queue.items q ≡ []
      → suc n ≤ queue.capacity q
      → ((set_up create n b counters).0.subscribers ≡ metrics_slots)
        × ((set_up create n b counters).0.has_stop_bit ≡ b.has_stop_bit)
        × Holds ops queue (set_up create n b counters).0 [] (suc n)
  unfolding init Counters.init subscribe subscribe_from
  set_up-Holds create n b q counters made empty wide = (
    ap (λ o. (started o).subscribers) made,
    ap (λ o. (started o).has_stop_bit) made,
    record {
      queue_of = q;
      created = ap (λ o. (started o).event_queue) made;
      item_size = ap (λ o. (started o).item_size) made;
      holds = empty;
      has_room = omega arith;
    },
  )
    where
      started : Option Q → Bus Q Callback
      started o = (set_up (λ count size. o) n b counters).0

  -- Error events that are published to the bus after the metrics have subscribed, as many as its
  -- queue was created for or fewer, are all counted under the payload that the local variable of
  -- the bus's task had before, whatever statistics they report.
  pub errors-counted_stale :
      (create : ℕ → ℕ → Option Q) (n : ℕ) (b : Bus Q Callback) (q : Q) (counters event : List ℕ)
      (events : List (List ℕ))
      → create (suc n) event_type_size ≡ some q
      → queue.items q ≡ []
      → suc n ≤ queue.capacity q
      → b.has_stop_bit ≡ false
      → event_type_size ≤ length event
      → AllErrors events
      → length events ≤ suc n
      → (b' : Bus Q Callback) × (event' : List ℕ) × (task_round ops call
            (suc (length events))
            (publish_all ops events (set_up create n b counters).0)
            (record { event = event; world = (set_up create n b counters).1 })
          ≡ some (
            b',
            record {
              event = event';
              world = count_same (length events) (data_of event) (set_up create n b counters).1;
            },
          ))
  errors-counted_stale create n b q counters event events made empty wide runs long errors few =
      let (slots, stop, start) = set_up-Holds create n b q counters made empty wide in
      let bus = (set_up create n b counters).0 in
      let t : Task (List ℕ) = record { event = event; world = (set_up create n b counters).1 } in
      let (slots', stop', h) = publish_all-Holds ops queue events bus [] (fewer bus start) in
      let (q', eq, _, _) =
        task_round-Drains ops call queue (suc (length events)) (publish_all ops events bus)
          h.queue_of t (stop' ∙ stop ∙ runs) h.created
          (omega (arith, ap length h.holds, length-items events)) in
      (
        record (publish_all ops events bus) { event_queue = some q'; has_event_bit = false },
        (deliver_all call metrics_slots (items_of event_type_size events) t).event,
        eq
            ∙ ap₂
                (λ xs items. some (
                  record (publish_all ops events bus) {
                    event_queue = some q';
                    has_event_bit = false;
                  },
                  deliver_all call xs items t,
                ))
                (slots' ∙ slots) h.holds
            ∙ ap
                (λ w. some (
                  record (publish_all ops events bus) {
                    event_queue = some q';
                    has_event_bit = false;
                  },
                  record {
                    event =
                        (deliver_all call metrics_slots (items_of event_type_size events) t).event;
                    world = w;
                  },
                ))
                (deliver_all-counts events t errors long),
      )
    where
      fewer :
          (bus : Bus Q Callback)
          → Holds ops queue bus [] (suc n)
          → Holds ops queue bus [] (length events)
      fewer bus h = record {
        queue_of = h.queue_of;
        created = h.created;
        item_size = h.item_size;
        holds = h.holds;
        has_room = omega (arith, h.has_room);
      }
