-- ===== src/EventBus/Slots.antt =====
-- The subscriber slots of components/event_bus/event_bus.c: a subscription takes the first free
-- slot, and its slot number gives the slot back.
use modbus_vault.Base.{
  ℕ, ◌+◌, ◌<◌, ◌≡◌, ◌≢◌, ◌⊎◌, inl, inr, refl, sym, ap, ◌∙◌, true, List, [], ◌∷◌, ◌++◌, map, Option,
  none, some, Option-cases, arith, length, length-append, lt→ltb,
}
use modbus_vault.EventBus.{
  Bus, Subscriber, subscribe_from, subscribe, clear_slot, unsubscribe, max_subscribers,
}

module _ {C : Type 0} where
  -- No slot of the list is free.
  abbrev pub AllTaken : List (Subscriber C) → Type 0
  AllTaken [] = Unit {0}
  AllTaken (s ∷ rest) = (s.cb ≢ none) × AllTaken rest

  abbrev pub taken_by : ℕ → C → ℕ → Subscriber C
  taken_by type cb ctx = record { event_type = type; cb = some cb; ctx = ctx }

  -- The list splits at its first free slot.
  abbrev pub FirstFree :
      ℕ → ℕ → C → ℕ → List (Subscriber C) → Option ℕ × List (Subscriber C) → Type 0
  FirstFree idx type cb ctx xs r =
      (before : List (Subscriber C)) × (s : Subscriber C) × (after : List (Subscriber C)) × (xs
        ≡ before ++ s ∷ after)
      × AllTaken before
      × (s.cb ≡ none)
      × (r ≡ (some (idx + length before), before ++ taken_by type cb ctx ∷ after))

  pub subscribe_from-FirstFree :
      (idx type : ℕ) (cb : C) (ctx : ℕ) (xs : List (Subscriber C))
      → FirstFree idx type cb ctx xs (subscribe_from idx type cb ctx xs)
        ⊎ (AllTaken xs × (subscribe_from idx type cb ctx xs ≡ (none, xs)))
  unfolding subscribe_from
  subscribe_from-FirstFree idx type cb ctx [] = inr (tt, refl)
  subscribe_from-FirstFree idx type cb ctx (s ∷ rest) = elim (Option-cases s.cb) [
    | inl vacant ↦ inl ([], s, rest, refl, tt, vacant, ground (arith, vacant))
    | inr (c, taken) ↦ elim (subscribe_from-FirstFree (idx + 1) type cb ctx rest) [
      | inl (before, t, after, parts, full, vacant, eq) ↦ inl (
        s ∷ before,
        t,
        after,
        ap (◌∷◌ s) parts,
        (ground (arith, taken), full),
        vacant,
        ground (arith, taken, eq),
      )
      | inr (full, eq) ↦ inr ((ground (arith, taken), full), ground (arith, taken, eq))
    ]
  ]

  abbrev callbacks : List (Subscriber C) → List (Option C)
  callbacks xs = map (λ s. s.cb) xs

  clear_slot-middle :
      (before after : List (Subscriber C)) (s t : Subscriber C)
      → s.cb ≡ none
      → callbacks (clear_slot (before ++ t ∷ after) (length before))
        ≡ callbacks (before ++ s ∷ after)
  clear_slot-middle [] after s t vacant = ap (λ c. c ∷ callbacks after) (sym vacant)
  clear_slot-middle (b ∷ before) after s t vacant =
      ap (◌∷◌ b.cb) (clear_slot-middle before after s t vacant)

module _ {Q C : Type 0} where
  -- The bus with another list of subscribers.
  abbrev pub with_subscribers : Bus Q C → List (Subscriber C) → Bus Q C
  with_subscribers b xs = record b { subscribers = xs }

  -- The number is that of the first free slot; the others are as before, and the subscriber with
  -- that number can leave again.
  pub record Subscribed (b : Bus Q C) (type : ℕ) (cb : C) (ctx : ℕ) : Type 0 where
    pub before : List (Subscriber C)
    pub vacant : Subscriber C
    pub after : List (Subscriber C)
    pub slots : b.subscribers ≡ before ++ vacant ∷ after
    pub is_first : AllTaken before
    pub is_free : vacant.cb ≡ none
    pub takes :
        subscribe type cb ctx b
        ≡ (some (length before), with_subscribers b (before ++ taken_by type cb ctx ∷ after))
    pub leaves :
        (xs : List (Subscriber C)) × (unsubscribe (length before) (subscribe type cb ctx b).1
          ≡ (true, with_subscribers b xs))
        × (callbacks xs ≡ callbacks b.subscribers)

  -- A subscription to a bus with its 8 slots takes the first free slot, and leaving that slot makes
  -- the callbacks what they were; if no slot is free it fails and changes nothing.
  pub subscribe-Subscribed :
      (b : Bus Q C) (type : ℕ) (cb : C) (ctx : ℕ)
      → length b.subscribers ≡ max_subscribers
      → Subscribed b type cb ctx ⊎ (AllTaken b.subscribers × (subscribe type cb ctx b ≡ (none, b)))
  unfolding subscribe unsubscribe
  subscribe-Subscribed b type cb ctx slots =
      elim (subscribe_from-FirstFree 0 type cb ctx b.subscribers) [
        | inl (before, s, after, parts, full, vacant, eq) ↦
            let zeroes : 0 + length before ≡ length before = omega arith in
            let inside : length before < max_subscribers =
              omega (arith, ap length parts, length-append before (s ∷ after)) in
            inl (record {
              before = before;
              vacant = s;
              after = after;
              slots = parts;
              is_first = full;
              is_free = vacant;
              takes = ground (arith, eq, zeroes);
              leaves = (
                clear_slot (before ++ taken_by type cb ctx ∷ after) (length before),
                ground (arith, eq, lt→ltb (length before) max_subscribers inside),
                clear_slot-middle before after s (taken_by type cb ctx) vacant
                    ∙ ap callbacks (sym parts),
              );
            })
        | inr (full, eq) ↦ inr (full, ground (arith, eq))
      ]
