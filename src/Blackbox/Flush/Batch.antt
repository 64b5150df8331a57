-- ===== src/Blackbox/Flush/Batch.antt =====
-- `blackbox_logger_flush` on the batch as a list of entries.
use modbus_vault.Base.{
  Bool, ℕ, zero, suc, ◌+◌, ◌≤◌, ◌≡◌, ◌⊎◌, inl, inr, refl, sym, ap, subst, ◌∙◌, true, false, List,
  [], ◌∷◌, ◌++◌, some, if◌then◌else◌, ltb, ◌&&◌, arith, length, take, drop, splice, take-splice,
  length-splice, length-append, length-take, length-drop,
}
use modbus_vault.Base.Words.{sub32}
use modbus_vault.Blackbox.{BbErr, err_invalid_arg, succeeds, Driver, State}
use modbus_vault.Blackbox.Entry.Codec.{length-entry}
use modbus_vault.Blackbox.Batch.{LogEntry, entry_of, IsBatch, Holds}
use modbus_vault.Blackbox.Flush.{
  Progress, start_flush, finish_flush, flush_fuel, flush_loop, flush, can_flush,
}
use modbus_vault.Blackbox.Flush.Room.{IsSound, Pending}
use modbus_vault.Blackbox.Flush.Drain.{Drained, flush_loop-Ends}

IsBatch-nil : (align : ℕ) (es : List LogEntry) → IsBatch align es [] → es ≡ []
IsBatch-nil align [] h = refl
IsBatch-nil align (e ∷ es) (pad, rest, split, padded, batch) = absurd (
    omega
      (arith, ap length split, length-append (entry_of e) (pad ++ rest), length-entry e.id e.bytes))

-- The move of what is left to the front of the buffer.
abbrev moved : List ℕ → ℕ → ℕ → List ℕ
moved buf from count =
    if ltb 0 count && ltb 0 from then splice buf 0 (take count (drop from buf)) else buf

length-moved : (buf : List ℕ) (from count : ℕ) → length (moved buf from count) ≡ length buf
length-moved buf from count = ground (arith, length-splice buf 0 (take count (drop from buf)))

spliced :
    (buf : List ℕ) (from count : ℕ)
    → from + count ≤ length buf
    → take count (splice buf 0 (take count (drop from buf))) ≡ take count (drop from buf)
spliced buf from count h =
    ap (λ k. take k (splice buf 0 (take count (drop from buf)))) (omega (arith, whole))
    ∙ take-splice buf 0 (take count (drop from buf)) (omega (arith, whole))
  where
    whole : length (take count (drop from buf)) ≡ count
    whole = omega (arith, length-take count (drop from buf), length-drop from buf)

take-moved :
    (buf : List ℕ) (from count : ℕ)
    → from + count ≤ length buf
    → take count (moved buf from count) ≡ take count (drop from buf)
take-moved buf from zero h = refl
take-moved buf zero (suc count) h = ground arith
take-moved buf (suc from) (suc count) h = ground (arith, spliced buf (suc from) (suc count) h)

module _ {F : Type 0} (driver : Driver F) where
  pub start-Pending :
      (s : State F) (es : List LogEntry)
      → Holds s.logger es
      → IsSound s.logger.config
      → s.logger.write_offset ≤ s.logger.config.size
      → Pending (start_flush driver s) es
  start-Pending s es h sound offset = record {
    sound = sound;
    batch = h.entries;
    count = omega arith;
    buffer = h.buffer;
    inside = h.inside;
    offset = omega (arith, offset, sound.small, h.inside);
  }

  pub finish-Holds :
      (q : Progress F) (es : List LogEntry) → Pending q es → Holds (finish_flush driver q).logger es
  unfolding finish_flush
  finish-Holds q es h = record {
    entries =
        subst (IsBatch (q.state.logger.config.address_align) es)
          (sym (
            ap (λ n. take n (moved q.state.logger.batch_buf q.buffer_offset n)) left
            ∙ take-moved q.state.logger.batch_buf q.buffer_offset q.write_size
                (omega (arith, h.count, h.inside, h.buffer))))
          h.batch;
    buffer =
        length-moved q.state.logger.batch_buf q.buffer_offset
          (sub32 q.state.logger.batch_len q.buffer_offset)
        ∙ h.buffer;
    inside = omega (arith, left, h.count, h.inside);
    small = omega (arith, h.sound.small);
  }
    where
      left : sub32 q.state.logger.batch_len q.buffer_offset ≡ q.write_size
      left = omega (arith, h.count, h.inside, h.sound.small)

  pub flush-loops :
      (s : State F) (e : BbErr) (q : Progress F)
      → can_flush s.logger ≡ true
      → flush_loop driver (flush_fuel driver s.logger) (start_flush driver s) ≡ some (e, q)
      → flush driver true s ≡ some (e, finish_flush driver q)
  unfolding flush
  flush-loops s e q can loops = ground (arith, can, loops)

  Drained-back :
      (p q : Progress F) (es : List LogEntry) (e : BbErr) (d : Drained p q es e)
      → (succeeds e ≡ false) ⊎ (d.back ≡ [])
  Drained-back p q es e d = elim d.done [
    | inl bad ↦ inl bad
    | inr empty ↦ inr (
        IsBatch-nil q.state.logger.config.address_align d.back (
          subst
            (λ n.
              IsBatch (q.state.logger.config.address_align) d.back
                (take n (drop q.buffer_offset q.state.logger.batch_buf)))
            empty d.pending.batch))
  ]

  -- A flush of a batch of entries, whatever the flash answers, ends within its rounds, and takes some
  -- of the entries away at the front: those behind them are still in the batch, in order and
  -- whole; none is left if there was no error. The configuration is as before.
  pub flush-drains :
      (s : State F) (es : List LogEntry)
      → can_flush s.logger ≡ true
      → Holds s.logger es
      → IsSound s.logger.config
      → s.logger.write_offset ≤ s.logger.config.size
      → (e : BbErr) × (s' : State F) × (front : List LogEntry) × (back : List LogEntry) × (flush
            driver true s
          ≡ some (e, s'))
        × (es ≡ front ++ back)
        × Holds s'.logger back
        × ((succeeds e ≡ false) ⊎ (back ≡ []))
        × (s'.logger.config ≡ s.logger.config)
  unfolding finish_flush
  flush-drains s es can h sound offset =
      let p = start_flush driver s in
      let (e, q, loops, d) =
        flush_loop-Ends driver (flush_fuel driver s.logger) p es (start-Pending s es h sound offset)
          (ground arith) in
      (
        e,
        finish_flush driver q,
        d.front,
        d.back,
        flush-loops s e q can loops,
        d.entries,
        finish-Holds q d.back d.pending,
        Drained-back p q es e d,
        d.config,
      )

  -- With nothing in the batch a flush changes nothing.
  pub flush-nothing :
      (taken : Bool) (s : State F)
      → can_flush s.logger ≡ false
      → flush driver taken s ≡ some (err_invalid_arg, s)
  unfolding flush
  flush-nothing taken s h = ground (arith, h)
