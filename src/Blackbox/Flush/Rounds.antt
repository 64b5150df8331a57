-- ===== src/Blackbox/Flush/Rounds.antt =====
-- The rounds of `blackbox_logger_flush`: what one does to the offsets and to the batch, and that the
-- loop ends.
use modbus_vault.Base.{
  ℕ, ◌+◌, ◌*◌, ◌/◌, ◌<◌, ◌≡◌, ◌⊎◌, inl, inr, Bool-cases, refl, sym, subst, true, false, ltb, ◌==◌,
  ◌&&◌, arith, drop,
}
use modbus_vault.Base.Words.{u32, sub32}
use modbus_vault.Blackbox.{BbErr, err_no_mem, succeeds, Driver, State}
use modbus_vault.Blackbox.Flush.{
  Progress, erase_sector, write_chunk, skip_sector, keep_round, write_round, flush_round,
  chunk_size, wrap_offset,
}

module _ {F : Type 0} where
  -- The batch and the configuration stay through a flush's rounds.
  pub record Kept (s t : State F) : Type 0 where
    pub config : t.logger.config ≡ s.logger.config
    pub batch_buf : t.logger.batch_buf ≡ s.logger.batch_buf
    pub batch_len : t.logger.batch_len ≡ s.logger.batch_len

  -- What became of the variables of the loop in a round with a chunk of `size`: it failed and they
  -- stayed, the chunk was written, or there was none and the write moved to `next`.
  pub data Moved (p q : Progress F) (size room next : ℕ) (e : BbErr) : Type 0 where
    failed :
        succeeds e ≡ false
        → q.write_offset ≡ p.write_offset
        → q.write_size ≡ p.write_size
        → q.buffer_offset ≡ p.buffer_offset
        → Moved p q size room next e
    written :
        succeeds e ≡ true
        → 0 < size
        → q.write_offset ≡ u32 (p.write_offset + size)
        → q.write_size ≡ sub32 p.write_size size
        → q.buffer_offset ≡ u32 (p.buffer_offset + size)
        → Moved p q size room next e
    skipped :
        succeeds e ≡ true
        → size ≡ 0
        → room < p.state.logger.config.sector_buf_size
        → q.write_offset ≡ next
        → q.write_size ≡ p.write_size
        → q.buffer_offset ≡ p.buffer_offset
        → Moved p q size room next e

  -- The size of the chunk that a round takes.
  abbrev pub round_size : Progress F → ℕ → ℕ
  round_size p room =
      chunk_size (drop p.buffer_offset p.state.logger.batch_buf) p.write_size room
        p.state.logger.config.address_align

  -- The room from the write offset to the end of its sector, and the start of the next one.
  abbrev pub next_start : Progress F → ℕ
  next_start p = u32 (
      (p.write_offset / p.state.logger.config.sector_buf_size + 1)
      * p.state.logger.config.sector_buf_size)

  abbrev pub room_of : Progress F → ℕ
  room_of p = sub32 (next_start p) p.write_offset

  abbrev pub next_of : Progress F → ℕ
  next_of p = wrap_offset p.state.logger.config (next_start p)

  module _ (driver : Driver F) where
    erase_sector-Kept : (s : State F) (sector : ℕ) → Kept s (erase_sector driver s sector).1
    unfolding erase_sector
    erase_sector-Kept s sector = record {
      config = ground arith;
      batch_buf = ground arith;
      batch_len = ground arith;
    }

    write_chunk-Kept :
        (p : Progress F) (e : BbErr) (s : State F) (size : ℕ)
        → Kept p.state s
        → Kept p.state (write_chunk driver p (e, s) size).1.state
    unfolding write_chunk
    write_chunk-Kept p e s size k = record {
      config = ground (arith, k.config);
      batch_buf = ground (arith, k.batch_buf);
      batch_len = ground (arith, k.batch_len);
    }

    write_chunk-Moved :
        (p : Progress F) (e : BbErr) (s : State F) (size room next : ℕ)
        → 0 < size
        → Moved p
            (write_chunk driver p (e, s) size).1
            size
            room
            next
            (write_chunk driver p (e, s) size).0
    unfolding write_chunk
    write_chunk-Moved p e s size room next h = ground arith

    skip_sector-Moved :
        (p : Progress F) (size room next : ℕ)
        → size ≡ 0
        → Moved p
            (skip_sector driver p room next).1
            size
            room
            next
            (skip_sector driver p room next).0
    unfolding skip_sector
    skip_sector-Moved p size room next e = ground arith

    skip_sector-Kept :
        (p : Progress F) (room next : ℕ) → Kept p.state (skip_sector driver p room next).1.state
    unfolding skip_sector
    skip_sector-Kept p room next = record {
      config = ground arith;
      batch_buf = ground arith;
      batch_len = ground arith;
    }

    keep_round-Moved :
        (p q : Progress F) (size room next : ℕ) (e : BbErr)
        → Moved p q size room next e
        → Moved p (keep_round driver (e, q)).1 size room next (keep_round driver (e, q)).0
    unfolding keep_round
    keep_round-Moved p q size room next e (failed a b c d) = ground arith
    keep_round-Moved p q size room next e (written a b c d f) = ground arith
    keep_round-Moved p q size room next e (skipped a b c d f g) = ground arith

    keep_round-Kept :
        (p q : Progress F) (e : BbErr)
        → Kept p.state q.state
        → Kept p.state (keep_round driver (e, q)).1.state
    unfolding keep_round
    keep_round-Kept p q e k = record {
      config = ground (arith, k.config);
      batch_buf = ground (arith, k.batch_buf);
      batch_len = ground (arith, k.batch_len);
    }

    abbrev pub RoundMoved : Progress F → ℕ → ℕ → BbErr × Progress F → Type 0
    RoundMoved p room next r =
        Moved p r.1 (round_size p room) room next r.0 × Kept p.state r.1.state

    pub write_round-cases :
        (p : Progress F) (sector room next : ℕ)
        → ((0 < round_size p room)
            × (write_round driver p sector room next
                ≡ keep_round driver (
                    write_chunk driver p (erase_sector driver p.state sector) (round_size p room))))
          ⊎ ((round_size p room ≡ 0)
              × (write_round driver p sector room next
                  ≡ keep_round driver (skip_sector driver p room next)))
    unfolding write_round
    write_round-cases p sector room next = ground arith

    write_round-Moved :
        (p : Progress F) (sector room next : ℕ)
        → RoundMoved p room next (write_round driver p sector room next)
    write_round-Moved p sector room next = elim (write_round-cases p sector room next) [
      | inl (h, eq) ↦
          let erased = erase_sector driver p.state sector in
          let w = write_chunk driver p erased (round_size p room) in
          subst (RoundMoved p room next) (sym eq) (
            keep_round-Moved p w.1 (round_size p room) room next w.0
                (write_chunk-Moved p erased.0 erased.1 (round_size p room) room next h),
            keep_round-Kept p w.1 w.0 (
                write_chunk-Kept p erased.0 erased.1 (round_size p room)
                  (erase_sector-Kept p.state sector)),
          )
      | inr (h, eq) ↦
          let w = skip_sector driver p room next in
          subst (RoundMoved p room next) (sym eq) (
            keep_round-Moved p w.1 (round_size p room) room next w.0
                (skip_sector-Moved p (round_size p room) room next h),
            keep_round-Kept p w.1 w.0 (skip_sector-Kept p room next),
          )
    ]

    RoundMoved-replay :
        (p : Progress F) (replay_offset : ℕ) (r : BbErr × Progress F)
        → RoundMoved (record p { replay_offset = replay_offset }) (room_of p) (next_of p) r
        → RoundMoved p (room_of p) (next_of p) r
    RoundMoved-replay p replay_offset r (failed a b c d, k) = (
      failed a b c d,
      record { config = k.config; batch_buf = k.batch_buf; batch_len = k.batch_len },
    )
    RoundMoved-replay p replay_offset r (written a b c d e, k) = (
      written a b c d e,
      record { config = k.config; batch_buf = k.batch_buf; batch_len = k.batch_len },
    )
    RoundMoved-replay p replay_offset r (skipped a b c d e f, k) = (
      skipped a b c d e f,
      record { config = k.config; batch_buf = k.batch_buf; batch_len = k.batch_len },
    )

    flush_round-cases :
        (p : Progress F)
        → (flush_round driver p ≡ (err_no_mem, p))
          ⊎ ((replay_offset : ℕ) × (flush_round driver p
                ≡ write_round driver
                    (record p { replay_offset = replay_offset })
                    (p.write_offset / p.state.logger.config.sector_buf_size)
                    (room_of p)
                    (next_of p)))
    unfolding flush_round
    flush_round-cases p =
        elim (Bool-cases (
          (p.write_offset / p.state.logger.config.sector_buf_size
            == p.replay_offset / p.state.logger.config.sector_buf_size)
          && ltb p.write_offset p.replay_offset)) [
            | inr free ↦ inr (p.replay_offset, ground (arith, free))
            | inl behind ↦ elim (Bool-cases (p.state.logger.config.writes_over)) [
              | inl over ↦ inr (
                wrap_offset (p.state.logger.config) (
                    u32 (
                      (p.replay_offset / p.state.logger.config.sector_buf_size + 1)
                      * p.state.logger.config.sector_buf_size)),
                ground (arith, behind, over),
              )
              | inr stop ↦ inl (ground (arith, behind, stop))
            ]
          ]

    -- Every round fails and leaves the offsets, or writes the chunk that fits the sector, or goes to
    -- the next sector; it keeps the batch.
    pub flush_round-Moved :
        (p : Progress F) → RoundMoved p (room_of p) (next_of p) (flush_round driver p)
    flush_round-Moved p = elim (flush_round-cases p) [
      | inl eq ↦
          subst (RoundMoved p (room_of p) (next_of p)) (sym eq) (
            failed refl refl refl refl,
            record { config = refl; batch_buf = refl; batch_len = refl },
          )
      | inr (replay_offset, eq) ↦ subst (RoundMoved p (room_of p) (next_of p)) (sym eq) (
          RoundMoved-replay p replay_offset _ (
            write_round-Moved (record p { replay_offset = replay_offset })
              (p.write_offset / p.state.logger.config.sector_buf_size) (room_of p) (next_of p)))
    ]
