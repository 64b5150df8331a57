-- ===== src/EventBus/Tests.antt =====
-- Runs of the event bus on small queues.
use modbus_vault.Base.{
  ℕ, ◌≡◌, refl, true, false, List, [], ◌∷◌, ◌++◌, Option, none, some, arith, replicate,
}
use modbus_vault.Base.Words.{write32}
use modbus_vault.Rtos.Bounded.{Bounded, bounded, bounded-IsQueue}
use modbus_vault.EventBus.{
  Bus, Subscriber, Task, task_round, event_error, empty_slot, data_of, drain, receive_event,
  dispatch, deliver,
}
use modbus_vault.EventBus.Calls.{all_calls, events, make, task_round-calls}

-- A subscriber that notes the payloads that it sees.
abbrev note_payload : ℕ → ℕ → List ℕ → List ℕ → List ℕ
unfolding data_of
note_payload cb ctx event seen = seen ++ cb ∷ ctx ∷ data_of event ∷ []

abbrev queue_of : List (List ℕ) → Bounded (List ℕ)
queue_of items = record { items = items; capacity = 3 }

abbrev two_subscribers : List (Subscriber ℕ)
two_subscribers =
    record { event_type = event_error; cb = some 70; ctx = 1 }
    ∷ record { event_type = 9; cb = some 71; ctx = 2 }
    ∷ replicate 6 empty_slot

abbrev bus_of : List (List ℕ) → Bus (Bounded (List ℕ)) ℕ
bus_of items = record {
  event_queue = some (queue_of items);
  item_size = 4;
  subscribers = two_subscribers;
  has_event_bit = true;
  has_stop_bit = false;
  has_task = true;
}

-- The local variable of the task, with the payload 5.
abbrev waiting : Task (List ℕ)
waiting = record { event = write32 7 ++ write32 5 ++ replicate 16 0; world = [] }

abbrev two_items : List (List ℕ)
two_items = write32 0 ∷ write32 9 ∷ []

-- Each subscriber saw the event of its type.
seen_by : Option (Bus (Bounded (List ℕ)) ℕ × Task (List ℕ)) → List ℕ
seen_by none = []
seen_by (some r) = r.1.world

both_seen :
    seen_by (task_round bounded note_payload 3 (bus_of two_items) waiting)
    ≡ 70 ∷ 1 ∷ 5 ∷ 71 ∷ 2 ∷ 5 ∷ []
unfolding task_round seen_by drain bounded receive_event dispatch deliver note_payload
both_seen = refl

task_round-calls_example :
    (q' : Bounded (List ℕ)) × (t' : Task (List ℕ)) × (task_round bounded note_payload 3
        (bus_of two_items)
        waiting
      ≡ some (record (bus_of two_items) { event_queue = some q'; has_event_bit = false }, t'))
    × (q'.items ≡ [])
    × (t'.world ≡ make note_payload (all_calls two_subscribers (events waiting.event two_items)) [])
unfolding bounded-IsQueue
task_round-calls_example =
    task_round-calls bounded note_payload bounded-IsQueue 3 (bus_of two_items) (queue_of two_items)
      waiting refl refl (omega arith)
