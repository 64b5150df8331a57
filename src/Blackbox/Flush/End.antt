-- ===== src/Blackbox/Flush/End.antt =====
-- The flush of a logger whose last chunk ended at the very end of the partition.
use modbus_vault.Base.{
  ℕ, suc, ◌+◌, ◌*◌, ◌/◌, ◌≤◌, ◌<◌, ◌≡◌, inl, inr, sym, ap, subst, ◌∙◌, true, false, List, some,
  arith, length, take, drop, length-take, length-drop,
}
use modbus_vault.Base.Words.{u32, sub32}
use modbus_vault.Blackbox.{BbErr, succeeds, Driver, State, error_map}
use modbus_vault.Blackbox.Batch.{LogEntry, Holds}
use modbus_vault.Blackbox.Flush.{
  Progress, start_flush, finish_flush, flush_loop, flush, can_flush, flush_round, write_round,
  write_chunk, skip_sector, keep_round, erase_sector,
}
use modbus_vault.Blackbox.Flush.Room.{IsSound, Pending, size-bound}
use modbus_vault.Blackbox.Flush.Rounds.{
  Moved, failed, written, skipped, round_size, room_of, next_of, write_round-cases,
  flush_round-Moved,
}
use modbus_vault.Blackbox.Flush.Drain.{at_start, flush_loop-cases, Pending-same}
use modbus_vault.Blackbox.Flush.Batch.{start-Pending, finish-Holds, flush-loops}

module _ {F : Type 0} (driver : Driver F) where
  -- The flash refuses a write at the offset, as `esp_partition_write` does past the end.
  abbrev pub Refuses : ℕ → Type 0
  Refuses offset =
      (flash : F) (bytes : List ℕ)
      → 0 < length bytes
      → succeeds (error_map (driver.write_func flash offset bytes).0) ≡ false

  write_chunk-refused :
      (p : Progress F) (e : BbErr) (s : State F) (size : ℕ)
      → succeeds (
          error_map
            (driver.write_func s.flash p.write_offset
              (take size (drop p.buffer_offset s.logger.batch_buf))).0)
        ≡ false
      → succeeds (keep_round driver (write_chunk driver p (e, s) size)).0 ≡ false
  unfolding write_chunk keep_round
  write_chunk-refused p e s size refused = ground (arith, refused)

  skip_sector-refused :
      (p : Progress F) (room next : ℕ)
      → p.state.logger.config.sector_buf_size ≤ room
      → succeeds (keep_round driver (skip_sector driver p room next)).0 ≡ false
  unfolding skip_sector keep_round
  skip_sector-refused p room next h = ground arith

  erase_sector-batch :
      (s : State F) (sector : ℕ)
      → (erase_sector driver s sector).1.logger.batch_buf ≡ s.logger.batch_buf
  unfolding erase_sector
  erase_sector-batch s sector = ground arith

  write_round-replay :
      (p : Progress F) (sector room next : ℕ)
      → (write_round driver p sector room next).1.replay_offset ≡ p.replay_offset
  unfolding write_round write_chunk skip_sector keep_round
  write_round-replay p sector room next = ground arith

  flush_round-ahead :
      (p : Progress F)
      → p.replay_offset ≤ p.write_offset
      → flush_round driver p
        ≡ write_round driver p
            (p.write_offset / p.state.logger.config.sector_buf_size)
            (room_of p)
            (next_of p)
  unfolding flush_round
  flush_round-ahead p h = ground arith

  module _ (p : Progress F) (es : List LogEntry) (h : Pending p es)
      (refuses : Refuses p.write_offset)
      (whole : room_of p ≡ p.state.logger.config.sector_buf_size) where
    round-refused :
        (sector : ℕ) → succeeds (write_round driver p sector (room_of p) (next_of p)).0 ≡ false
    round-refused sector = elim (write_round-cases driver p sector (room_of p) (next_of p)) [
      | inl (some_chunk, eq) ↦
          let erased = erase_sector driver p.state sector in
          ap (λ r. succeeds r.0) eq
          ∙ write_chunk-refused p erased.0 erased.1 (round_size p (room_of p)) (
              refuses erased.1.flash
                (take (round_size p (room_of p)) (drop p.buffer_offset erased.1.logger.batch_buf))
                (omega (
                  arith,
                  length-take (round_size p (room_of p))
                      (drop p.buffer_offset erased.1.logger.batch_buf),
                  length-drop p.buffer_offset erased.1.logger.batch_buf,
                  ap length (erase_sector-batch p.state sector),
                  size-bound p es h,
                  h.count,
                  h.inside,
                  h.buffer,
                  some_chunk,
                )))
      | inr (empty, eq) ↦
          ap (λ r. succeeds r.0) eq
          ∙ skip_sector-refused p (room_of p) (next_of p) (omega (arith, whole))
    ]

    round-failed :
        Moved p
          (flush_round driver p).1
          (round_size p (room_of p))
          (room_of p)
          (next_of p)
          (flush_round driver p).0
        → p.replay_offset ≤ p.write_offset
        → (succeeds (flush_round driver p).0 ≡ false)
          × ((flush_round driver p).1.write_offset ≡ p.write_offset)
          × ((flush_round driver p).1.write_size ≡ p.write_size)
          × ((flush_round driver p).1.buffer_offset ≡ p.buffer_offset)
          × ((flush_round driver p).1.replay_offset ≡ p.replay_offset)
    round-failed moved ahead = elim moved [
      | failed bad wo ws bo ↦ (
        bad,
        wo,
        ws,
        bo,
        ap (λ r. r.1.replay_offset) (flush_round-ahead p ahead)
            ∙ write_round-replay p (p.write_offset / p.state.logger.config.sector_buf_size)
                (room_of p) (next_of p),
      )
      | written good a b c d ↦ absurd (ground (arith, good, refused))
      | skipped good a b c d e ↦ absurd (ground (arith, good, refused))
    ]
      where
        refused : succeeds (flush_round driver p).0 ≡ false
        refused =
            ap (λ r. succeeds r.0) (flush_round-ahead p ahead)
            ∙ round-refused (p.write_offset / p.state.logger.config.sector_buf_size)

  whole-start :
      (s : State F) (es : List LogEntry) (j : ℕ)
      → IsSound s.logger.config
      → s.logger.config.size ≡ j * s.logger.config.sector_buf_size
      → s.logger.write_offset ≡ s.logger.config.size
      → room_of (start_flush driver s) ≡ s.logger.config.sector_buf_size
  whole-start s es j sound sectors at_end =
      subst
        (λ o.
          sub32 (u32 ((o / s.logger.config.sector_buf_size + 1) * s.logger.config.sector_buf_size))
            o
          ≡ s.logger.config.sector_buf_size)
        (sym (at_end ∙ sectors))
        (at_start j s.logger.config.sector_buf_size sound.sector
          (omega (arith, sound.small, sectors)) sound.sector_small)

  stops :
      (p : Progress F)
      → succeeds (flush_round driver p).0 ≡ false
      → flush_loop driver (2 * p.state.logger.batch_len + 2) p ≡ some (flush_round driver p)
  stops p bad =
      ap (λ n. flush_loop driver n p) more
      ∙ elim (flush_loop-cases driver (2 * p.state.logger.batch_len + 1) p) [
        | inl (_, eq) ↦ eq
        | inr (good, eq) ↦ absurd (ground (arith, bad, good))
      ]
    where
      more : 2 * p.state.logger.batch_len + 2 ≡ suc (2 * p.state.logger.batch_len + 1)
      more = omega arith

  -- A logger whose write offset is the size of the partition, where the flash refuses every write,
  -- does not get away from there: a flush fails, writes nothing, and leaves both offsets and the
  -- entries of the batch as they were. The partition is a whole number of sectors.
  pub flush-stuck_at_end :
      (s : State F) (es : List LogEntry) (j : ℕ)
      → can_flush s.logger ≡ true
      → Holds s.logger es
      → IsSound s.logger.config
      → s.logger.config.size ≡ j * s.logger.config.sector_buf_size
      → s.logger.write_offset ≡ s.logger.config.size
      → s.logger.replay_offset ≤ s.logger.config.size
      → Refuses s.logger.write_offset
      → (e : BbErr) × (s' : State F) × (flush driver true s ≡ some (e, s'))
        × (succeeds e ≡ false)
        × (s'.logger.write_offset ≡ s.logger.write_offset)
        × (s'.logger.replay_offset ≡ s.logger.replay_offset)
        × (s'.logger.batch_len ≡ s.logger.batch_len)
        × Holds s'.logger es
  unfolding finish_flush
  flush-stuck_at_end s es j can h sound sectors at_end ahead refuses =
      let p = start_flush driver s in
      let r = flush_round driver p in
      let pending = start-Pending driver s es h sound (omega (arith, at_end)) in
      let whole = whole-start s es j sound sectors at_end in
      let (moved, kept) = flush_round-Moved driver p in
      let (bad, wo, ws, bo, ro) =
        round-failed p es pending refuses whole moved (omega (arith, ahead, at_end)) in
      let left = Pending-same p r.1 es pending kept ws bo (omega (arith, wo, pending.offset)) in
      (
        r.0,
        finish_flush driver r.1,
        flush-loops driver s r.0 r.1 can (stops p bad),
        bad,
        wo,
        ro,
        omega (arith, bo, kept.batch_len, h.inside, h.small),
        finish-Holds driver r.1 es left,
      )
