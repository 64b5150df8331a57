-- ===== src/Blackbox/Flush/Drain.antt =====
-- A flush takes a run of entries from the front of the batch: the loop ends, and what it leaves is
-- what it did not write.
use modbus_vault.Base.{
  ℕ, zero, suc, ◌+◌, ◌-◌, ◌*◌, ◌/◌, ◌^◌, ◌<◌, ◌≡◌, ◌⊎◌, inl, inr, Bool-cases, refl, sym, ap, ap₂,
  subst, ◌∙◌, true, false, List, [], ◌++◌, some, leb, arith, length, take, drop, append_assoc,
}
use native.Mathlib.Nat.{mul-div_cancel}
use modbus_vault.Base.Words.{u32, sub32}
use modbus_vault.Blackbox.{BbErr, succeeds, Driver}
use modbus_vault.Blackbox.Batch.{LogEntry, IsBatch}
use modbus_vault.Blackbox.Flush.{Progress, flush_round, flush_loop}
use modbus_vault.Blackbox.Flush.Room.{
  IsSound, Pending, measure, room-bounds, split, size-bound, rest-left,
}
use modbus_vault.Blackbox.Flush.Rounds.{
  Kept, failed, written, skipped, RoundMoved, round_size, room_of, next_of, next_start,
  flush_round-Moved,
}

-- What a round leaves: some entries at the front are gone, the others are still to be written, and
-- the round failed or there are fewer to come.
pub record Step {F : Type 0} (p q : Progress F) (es : List LogEntry) (e : BbErr) : Type 0 where
  pub front : List LogEntry
  pub back : List LogEntry
  pub entries : es ≡ front ++ back
  pub pending : Pending q back
  pub config : q.state.logger.config ≡ p.state.logger.config
  pub ends : (succeeds e ≡ false) ⊎ (measure q < measure p)

-- At the start of a sector the room is the sector.
pub at_start :
    (j ss : ℕ)
    → 0 < ss
    → j * ss < 2 ^ 30
    → ss < 2 ^ 30
    → sub32 (u32 ((j * ss / ss + 1) * ss)) (j * ss) ≡ ss
at_start j ss positive small ss_small =
    ap (λ k. sub32 (u32 ((k + 1) * ss)) (j * ss)) (mul-div_cancel j positive)
    ∙ omega (arith, expanded)
  where
    expanded : (j + 1) * ss ≡ j * ss + ss
    expanded = grind arith

module _ {F : Type 0} where
  -- A round that leaves the batch as it was.
  pub Pending-same :
      (p q : Progress F) (es : List LogEntry)
      → Pending p es
      → Kept p.state q.state
      → q.write_size ≡ p.write_size
      → q.buffer_offset ≡ p.buffer_offset
      → q.write_offset + p.write_size < 2 ^ 30
      → Pending q es
  Pending-same p q es h k ws bo wo = record {
    sound = subst IsSound (sym k.config) h.sound;
    batch =
        subst
          (λ c.
            IsBatch (c.address_align) es
              (take q.write_size (drop q.buffer_offset q.state.logger.batch_buf)))
          (sym k.config)
          (subst (IsBatch (p.state.logger.config.address_align) es)
            (ap₂ take (sym ws) (ap₂ drop (sym bo) (sym k.batch_buf))) h.batch);
    count = ap₂ (◌+◌) bo ws ∙ h.count ∙ sym k.batch_len;
    buffer = ap length k.batch_buf ∙ h.buffer ∙ sym (ap (λ c. c.batch_buf_size) k.config);
    inside = omega (arith, h.inside, k.batch_len, ap (λ c. c.batch_buf_size) k.config);
    offset = omega (arith, wo, ws);
  }

  -- A round that wrote the chunk.
  Pending-written :
      (p q : Progress F) (es : List LogEntry) (h : Pending p es)
      → Kept p.state q.state
      → q.write_offset ≡ u32 (p.write_offset + round_size p (room_of p))
      → q.write_size ≡ sub32 p.write_size (round_size p (room_of p))
      → q.buffer_offset ≡ u32 (p.buffer_offset + round_size p (room_of p))
      → Pending q (split p es h).back
  Pending-written p q es h k wo ws bo = record {
    sound = subst IsSound (sym k.config) h.sound;
    batch =
        subst
          (λ c.
            IsBatch (c.address_align) (split p es h).back
              (take q.write_size (drop q.buffer_offset q.state.logger.batch_buf)))
          (sym k.config)
          (subst (IsBatch (p.state.logger.config.address_align) (split p es h).back)
            (rest-left p es h ∙ ap₂ take (sym size') (ap₂ drop (sym offset') (sym k.batch_buf)))
            (split p es h).rest_batch);
    count = omega (arith, size', offset', h.count, k.batch_len, size-bound p es h);
    buffer = ap length k.batch_buf ∙ h.buffer ∙ sym (ap (λ c. c.batch_buf_size) k.config);
    inside = omega (arith, h.inside, k.batch_len, ap (λ c. c.batch_buf_size) k.config);
    offset = omega (arith, wo, size', h.offset, size-bound p es h);
  }
    where
      size' : q.write_size ≡ p.write_size - round_size p (room_of p)
      size' = omega (arith, ws, size-bound p es h, h.offset)

      offset' : q.buffer_offset ≡ p.buffer_offset + round_size p (room_of p)
      offset' = omega (arith, bo, size-bound p es h, h.count, h.inside, h.sound.small)

  -- The write goes on at the start of a sector.
  next_of-start :
      (p : Progress F) (es : List LogEntry)
      → Pending p es
      → (j : ℕ) × (next_of p ≡ j * p.state.logger.config.sector_buf_size)
        × (next_of p + p.state.logger.config.batch_buf_size < 2 ^ 30)
  next_of-start p es h = elim (Bool-cases (leb (p.state.logger.config.size) (next_start p))) [
    | inl past ↦ (0, ground (arith, past), ground (arith, past, h.sound.small))
    | inr inside ↦ (
      p.write_offset / p.state.logger.config.sector_buf_size + 1,
      ground (arith, inside, (room-bounds p es h).4),
      ground (arith, inside, h.sound.small),
    )
  ]

  whole_room :
      (p q : Progress F) (es : List LogEntry)
      → Pending p es
      → Kept p.state q.state
      → q.write_offset ≡ next_of p
      → room_of q ≡ q.state.logger.config.sector_buf_size
  whole_room p q es h k wo =
      let (j, start_of, small) = next_of-start p es h in
      subst
        (λ c.
          sub32 (u32 ((q.write_offset / c.sector_buf_size + 1) * c.sector_buf_size)) q.write_offset
          ≡ c.sector_buf_size)
        (sym k.config)
        (subst
          (λ o.
            sub32
              (u32 (
                (o / p.state.logger.config.sector_buf_size + 1)
                * p.state.logger.config.sector_buf_size))
              o
            ≡ p.state.logger.config.sector_buf_size)
          (sym (wo ∙ start_of))
          (at_start j p.state.logger.config.sector_buf_size h.sound.sector
            (omega (arith, start_of, small)) h.sound.sector_small))

  -- Each round takes whole entries from the front of what is pending.
  pub flush_round-Step :
      (driver : Driver F) (p q : Progress F) (es : List LogEntry) (e : BbErr)
      → Pending p es
      → RoundMoved driver p (room_of p) (next_of p) (e, q)
      → Step p q es e
  flush_round-Step driver p q es e h (failed bad wo ws bo, k) = record {
    front = [];
    back = es;
    entries = refl;
    pending = Pending-same p q es h k ws bo (omega (arith, wo, h.offset));
    config = k.config;
    ends = inl bad;
  }
  flush_round-Step driver p q es e h (written good positive wo ws bo, k) = record {
    front = (split p es h).front;
    back = (split p es h).back;
    entries = (split p es h).entries;
    pending = Pending-written p q es h k wo ws bo;
    config = k.config;
    ends = inr (ground (arith, ws, size-bound p es h, h.offset, positive));
  }
  flush_round-Step driver p q es e h (skipped good empty less wo ws bo, k) = record {
    front = [];
    back = es;
    entries = refl;
    pending = Pending-same p q es h k ws bo (
        let (j, start_of, small) = next_of-start p es h in
        omega (arith, wo, small, h.count, h.inside));
    config = k.config;
    ends = inr (ground (arith, whole_room p q es h k wo, less, ws));
  }

-- What the loop leaves: the entries at the front are written, the others are still in the batch,
-- and none is if there was no error.
pub record Drained {F : Type 0} (p q : Progress F) (es : List LogEntry) (e : BbErr) : Type 0 where
  pub front : List LogEntry
  pub back : List LogEntry
  pub entries : es ≡ front ++ back
  pub pending : Pending q back
  pub config : q.state.logger.config ≡ p.state.logger.config
  pub done : (succeeds e ≡ false) ⊎ (q.write_size ≡ 0)

module _ {F : Type 0} (driver : Driver F) where
  abbrev pub Ends : ℕ → Progress F → List LogEntry → Type 0
  Ends fuel p es =
      (e : BbErr) × (q : Progress F) × (flush_loop driver fuel p ≡ some (e, q)) × Drained p q es e

  Drained-Step :
      (p q r : Progress F) (es : List LogEntry) (e e' : BbErr) (step : Step p q es e)
      → Drained q r step.back e'
      → Drained p r es e'
  Drained-Step p q r es e e' step d = record {
    front = step.front ++ d.front;
    back = d.back;
    entries =
        step.entries
        ∙ ap (λ t. step.front ++ t) d.entries
        ∙ sym (append_assoc step.front d.front d.back);
    pending = d.pending;
    config = d.config ∙ step.config;
    done = d.done;
  }

  pub Step-Drained :
      (p q : Progress F) (es : List LogEntry) (e : BbErr) (step : Step p q es e)
      → (succeeds e ≡ false) ⊎ (q.write_size ≡ 0)
      → Drained p q es e
  Step-Drained p q es e step done = record {
    front = step.front;
    back = step.back;
    entries = step.entries;
    pending = step.pending;
    config = step.config;
    done = done;
  }

  -- One round of the loop: it ends, or the rest of it follows.
  pub flush_loop-cases :
      (fuel : ℕ) (p : Progress F)
      → (((succeeds (flush_round driver p).0 ≡ false) ⊎ ((flush_round driver p).1.write_size ≡ 0))
          × (flush_loop driver (suc fuel) p ≡ some (flush_round driver p)))
        ⊎ ((succeeds (flush_round driver p).0 ≡ true)
            × (flush_loop driver (suc fuel) p ≡ flush_loop driver fuel (flush_round driver p).1))
  unfolding flush_loop
  flush_loop-cases fuel p = ground arith

  pub flush_loop-Ends :
      (fuel : ℕ) (p : Progress F) (es : List LogEntry)
      → Pending p es
      → measure p < fuel
      → Ends fuel p es
  flush_loop-Ends zero p es h enough = absurd (omega arith)
  flush_loop-Ends (suc fuel) p es h enough =
      let r = flush_round driver p in
      let step = flush_round-Step driver p r.1 es r.0 h (flush_round-Moved driver p) in
      elim (flush_loop-cases fuel p) [
        | inl (done, eq) ↦ (r.0, r.1, eq, Step-Drained p r.1 es r.0 step done)
        | inr (good, eq) ↦
            let (e, q, found, d) =
              flush_loop-Ends fuel r.1 step.back step.pending
                (ground (arith, step.ends, good, enough)) in
            (e, q, eq ∙ found, Drained-Step p r.1 q es r.0 e step d)
      ]
