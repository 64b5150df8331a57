-- ===== src/EventBus/Payload.antt =====
-- What of an event travels through the queue of components/event_bus/event_bus.c, whose items have
-- the size of `event_bus_event_t`: the type, and nothing behind it.
use modbus_vault.Base.{
  ℕ, suc, ◌+◌, ◌≤◌, ◌≡◌, refl, sym, ap, subst, ◌∙◌, true, List, [], ◌∷◌, ◌++◌, append_assoc,
  append-nil, map, Option, some, arith, length, length-append, take, length-take, splice,
  drop-splice_behind,
}
use modbus_vault.Rtos.{QueueOps, IsQueue}
use modbus_vault.EventBus.{Bus, init, event_type_size, publish, publish_to, data_of}

-- The items that a list of events becomes.
abbrev pub items_of : ℕ → List (List ℕ) → List (List ℕ)
items_of size events = map (take size) events

abbrev pub AllShort : List (List ℕ) → Type 0
AllShort [] = Unit {0}
AllShort (item ∷ items) = (length item ≤ event_type_size) × AllShort items

pub items_of-AllShort : (events : List (List ℕ)) → AllShort (items_of event_type_size events)
items_of-AllShort [] = tt
items_of-AllShort (e ∷ events) = (omega (arith, length-take 4 e), items_of-AllShort events)

-- An item that is no longer than the type leaves the payload of the local variable alone.
pub data_of-splice :
    (event item : List ℕ)
    → length item ≤ event_type_size
    → data_of (splice event 0 item) ≡ data_of event
unfolding data_of
data_of-splice event item h = rw (drop-splice_behind event 0 item 4 (omega arith)) refl

module _ {Q C : Type 0} (ops : QueueOps Q (List ℕ)) where
  -- The publications, one after the other.
  abbrev pub publish_all : List (List ℕ) → Bus Q C → Bus Q C
  publish_all [] b = b
  publish_all (e ∷ events) b = publish_all events (publish ops (some e) b).1

  module _ (queue : IsQueue ops) where
    -- The queue of the bus holds these items, and has room for so many more.
    pub record Holds (b : Bus Q C) (items : List (List ℕ)) (room : ℕ) : Type 0 where
      pub queue_of : Q
      pub created : b.event_queue ≡ some queue_of
      pub item_size : b.item_size ≡ event_type_size
      pub holds : queue.items queue_of ≡ items
      pub has_room : length items + room ≤ queue.capacity queue_of

    pub publish-Holds :
        (b : Bus Q C) (items : List (List ℕ)) (room : ℕ) (e : List ℕ)
        → Holds b items (suc room)
        → ((publish ops (some e) b).0 ≡ true)
          × ((publish ops (some e) b).1.subscribers ≡ b.subscribers)
          × ((publish ops (some e) b).1.has_stop_bit ≡ b.has_stop_bit)
          × Holds (publish ops (some e) b).1 (items ++ take event_type_size e ∷ []) room
    unfolding publish publish_to
    publish-Holds b items room e h =
        let (sent, there, same) =
          queue.send-room h.queue_of (take b.item_size e)
            (ground (arith, ap length h.holds, h.has_room)) in
        (
          ground (arith, h.created, sent),
          ground (arith, h.created, sent),
          ground (arith, h.created, sent),
          record {
            queue_of = (ops.send h.queue_of (take b.item_size e)).1;
            created = ground (arith, h.created, sent);
            item_size = ground (arith, h.created, sent, h.item_size);
            holds =
                there
                ∙ ap (λ xs. xs ++ take b.item_size e ∷ []) h.holds
                ∙ ap (λ n. items ++ take n e ∷ []) h.item_size;
            has_room =
                omega (arith, same, h.has_room, length-append items (take event_type_size e ∷ []));
          },
        )

    pub publish_all-Holds :
        (events : List (List ℕ)) (b : Bus Q C) (items : List (List ℕ))
        → Holds b items (length events)
        → ((publish_all events b).subscribers ≡ b.subscribers)
          × ((publish_all events b).has_stop_bit ≡ b.has_stop_bit)
          × Holds (publish_all events b) (items ++ items_of event_type_size events) 0
    publish_all-Holds [] b items h =
        (refl, refl, subst (λ xs. Holds b xs 0) (sym (append-nil items)) h)
    publish_all-Holds (e ∷ events) b items h =
        let (sent, subs, stop, next) = publish-Holds b items (length events) e h in
        let (subs', stop', rest) =
          publish_all-Holds events (publish ops (some e) b).1 (items ++ take event_type_size e ∷ [])
            next in
        (
          subs' ∙ subs,
          stop' ∙ stop,
          subst (λ xs. Holds (publish_all events (publish ops (some e) b).1) xs 0)
              (append_assoc items (take event_type_size e ∷ []) (items_of event_type_size events))
              rest,
        )

    -- A bus that has just been initialised.
    pub init-Holds :
        (create : ℕ → ℕ → Option Q) (n : ℕ) (b : Bus Q C) (q : Q)
        → create (suc n) event_type_size ≡ some q
        → queue.items q ≡ []
        → suc n ≤ queue.capacity q
        → Holds (init create (suc n) b).1 [] (suc n)
    unfolding init
    init-Holds create n b q made empty wide = record {
      queue_of = q;
      created = ground (arith, made);
      item_size = ground (arith, made);
      holds = empty;
      has_room = omega arith;
    }
