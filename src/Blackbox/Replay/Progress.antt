-- ===== src/Blackbox/Replay/Progress.antt =====
-- Reading back an entry that was flushed, and what a step of the replay makes of it.
use modbus_vault.Base.{
  ℕ, ◌+◌, ◌^◌, ◌≤◌, ◌<◌, ◌≡◌, ◌⊎◌, sym, ap, ap₂, subst, ◌∙◌, Bool, true, false, List, ◌++◌, none,
  some, if◌then◌else◌, ltb, arith, length, take, drop, splice, splice-front, append_assoc,
  length-append, esp_ok,
}
use modbus_vault.Base.Words.{u32, AreBytes}
use modbus_vault.Blackbox.{
  BbErr, ok, err_no_mem, err_timeout, err_process_fail, Driver, State, Logger, error_map,
}
use modbus_vault.Blackbox.Entry.{aligned_size, header_size, length_of, validate_entry}
use modbus_vault.Blackbox.Entry.Codec.{entry, length-entry, length_of-entry, data_of-entry}
use modbus_vault.Blackbox.Entry.Validate.{validate_entry-entry}
use modbus_vault.Blackbox.Replay.{
  can_read, read_size, read, copy_entry, ReadResult, next_replay, process, take_entry,
  has_replay_data,
}

-- An entry in the sector buffer is copied to the caller where it fits.
copy_entry-entry :
    (l : Logger) (id : ℕ) (bytes rest : List ℕ) (capacity : ℕ)
    → l.sector_buf ≡ entry id bytes ++ rest
    → length bytes < 2 ^ 32
    → ((copy_entry l ok capacity).err ≡ (if ltb capacity (length bytes) then err_no_mem else ok))
      × ((copy_entry l ok capacity).entry
          ≡ (if ltb capacity (length bytes) then none else some bytes))
unfolding copy_entry
copy_entry-entry l id bytes rest capacity buf small =
    (ground (arith, len, copied), ground (arith, len, copied))
  where
    len : length_of l.sector_buf ≡ length bytes
    len = ap length_of buf ∙ length_of-entry id bytes rest small

    copied : take (length_of l.sector_buf) (drop header_size l.sector_buf) ≡ bytes
    copied = ap₂ (λ n b. take n (drop header_size b)) len buf ∙ data_of-entry id bytes rest

module _ {F : Type 0} (driver : Driver F) where
  -- What a read that the flash answers does.
  read-flash :
      (s : State F) (offset capacity : ℕ) (bytes : List ℕ)
      → can_read s.logger offset ≡ true
      → driver.read_func s.flash offset (read_size s.logger.config offset) ≡ (esp_ok, bytes)
      → read driver true s offset capacity
        ≡ copy_entry
            (record (s.logger) { sector_buf = splice s.logger.sector_buf 0 bytes })
            (validate_entry
              (some (splice s.logger.sector_buf 0 bytes))
              (read_size s.logger.config offset))
            capacity
  unfolding read error_map
  read-flash s offset capacity bytes can flash = ground (arith, can, flash)

  abbrev IsCopy : ReadResult → ℕ → List ℕ → Type 0
  IsCopy r capacity bytes =
      (r.err ≡ (if ltb capacity (length bytes) then err_no_mem else ok))
      × (r.entry ≡ (if ltb capacity (length bytes) then none else some bytes))

  -- Where the flash gives the bytes of an entry, with any bytes behind them, a read succeeds and
  -- copies its data if they fit the caller's buffer, and else tells that they do not.
  pub read-entry :
      (s : State F) (offset capacity id : ℕ) (bytes rest : List ℕ)
      → can_read s.logger offset ≡ true
      → driver.read_func s.flash offset (read_size s.logger.config offset)
        ≡ (esp_ok, entry id bytes ++ rest)
      → length (entry id bytes ++ rest) ≡ read_size s.logger.config offset
      → read_size s.logger.config offset ≤ length s.logger.sector_buf
      → read_size s.logger.config offset < 2 ^ 32
      → AreBytes bytes
      → ((read driver true s offset capacity).err
          ≡ (if ltb capacity (length bytes) then err_no_mem else ok))
        × ((read driver true s offset capacity).entry
            ≡ (if ltb capacity (length bytes) then none else some bytes))
  read-entry s offset capacity id bytes rest can flash whole fits small are =
      subst (λ r. IsCopy r capacity bytes)
        (sym (read-flash s offset capacity (entry id bytes ++ rest) can flash))
        (subst
          (λ e.
            IsCopy
              (copy_entry
                (record (s.logger) {
                  sector_buf = splice s.logger.sector_buf 0 (entry id bytes ++ rest);
                })
                e capacity)
              capacity bytes)
          (sym valid)
          (copy_entry-entry
            (record (s.logger) {
              sector_buf = splice s.logger.sector_buf 0 (entry id bytes ++ rest);
            })
            id bytes behind capacity buf (omega (arith, covered, small))))
    where
      behind : List ℕ
      behind = rest ++ drop (length (entry id bytes ++ rest)) s.logger.sector_buf

      covered : 18 + length bytes ≤ read_size s.logger.config offset
      covered = omega (arith, whole, length-append (entry id bytes) rest, length-entry id bytes)

      buf : splice s.logger.sector_buf 0 (entry id bytes ++ rest) ≡ entry id bytes ++ behind
      buf =
          splice-front s.logger.sector_buf (entry id bytes ++ rest) (omega (arith, whole, fits))
          ∙ append_assoc (entry id bytes) rest
              (drop (length (entry id bytes ++ rest)) s.logger.sector_buf)

      valid :
          validate_entry
            (some (splice s.logger.sector_buf 0 (entry id bytes ++ rest)))
            (read_size s.logger.config offset)
          ≡ ok
      valid =
          ap (λ b. validate_entry (some b) (read_size s.logger.config offset)) buf
          ∙ validate_entry-entry id bytes behind (read_size s.logger.config offset) are covered
              small

  copy_entry-logger : (l : Logger) (e : BbErr) (capacity : ℕ) → (copy_entry l e capacity).logger ≡ l
  unfolding copy_entry
  copy_entry-logger l e capacity = ground arith

  -- A read changes the sector buffer only.
  read-keeps :
      (taken : Bool) (s : State F) (offset capacity : ℕ)
      → ((read driver taken s offset capacity).logger.replay_offset ≡ s.logger.replay_offset)
        × ((read driver taken s offset capacity).logger.write_offset ≡ s.logger.write_offset)
        × ((read driver taken s offset capacity).logger.config ≡ s.logger.config)
  unfolding read copy_entry
  read-keeps taken s offset capacity = (ground arith, ground arith, ground arith)

  -- The flash has the bytes of an entry at an offset that can be read, with any bytes behind them.
  pub record Stands (s : State F) (offset id : ℕ) (bytes rest : List ℕ) : Type 0 where
    pub can : can_read s.logger offset ≡ true
    pub flash :
        driver.read_func s.flash offset (read_size s.logger.config offset)
        ≡ (esp_ok, entry id bytes ++ rest)
    pub whole : length (entry id bytes ++ rest) ≡ read_size s.logger.config offset
    pub fits : read_size s.logger.config offset ≤ length s.logger.sector_buf
    pub small : read_size s.logger.config offset < 2 ^ 32
    pub are : AreBytes bytes

  read-IsCopy :
      (s : State F) (offset capacity id : ℕ) (bytes rest : List ℕ)
      → Stands s offset id bytes rest
      → IsCopy (read driver true s offset capacity) capacity bytes
  read-IsCopy s offset capacity id bytes rest h =
      read-entry s offset capacity id bytes rest h.can h.flash h.whole h.fits h.small h.are

  -- A read whose lock is not free in time copies nothing.
  read-late :
      (s : State F) (offset capacity : ℕ)
      → can_read s.logger offset ≡ true
      → ((read driver false s offset capacity).err ≡ err_timeout)
        × ((read driver false s offset capacity).entry ≡ none)
  unfolding read
  read-late s offset capacity can = (ground (arith, can), ground (arith, can))

  module _ {W : Type 0} (callback : W → List ℕ → Bool × W) where
    -- What a step of the replay makes of the bytes that were read.
    next_replay-found :
        (s : State F) (w : W) (capacity : ℕ) (bytes : List ℕ)
        → has_replay_data s.logger ≡ true
        → (read driver true s s.logger.replay_offset capacity).entry ≡ some bytes
        → ((next_replay driver callback true s w capacity).0
            ≡ (if (callback w bytes).0 then ok else err_process_fail))
          × ((next_replay driver callback true s w capacity).2 ≡ (callback w bytes).1)
          × ((next_replay driver callback true s w capacity).1.logger.replay_offset ≡ (
              if (callback w bytes).0
              then u32 (
                  s.logger.replay_offset
                  + aligned_size (length bytes) s.logger.config.address_align)
              else s.logger.replay_offset))
          × ((next_replay driver callback true s w capacity).1.logger.write_offset
              ≡ s.logger.write_offset)
    unfolding next_replay take_entry process
    next_replay-found s w capacity bytes has found =
        let k = read-keeps true s s.logger.replay_offset capacity in
        (
          ground (arith, has, found),
          ground (arith, has, found),
          ground (arith, has, found, k, ap (λ c. c.address_align) k.2),
          ground (arith, has, found, k),
        )

    -- A read that fails, for whatever reason, ends the backlog.
    next_replay-failed :
        (taken : Bool) (s : State F) (w : W) (capacity : ℕ)
        → has_replay_data s.logger ≡ true
        → (read driver taken s s.logger.replay_offset capacity).entry ≡ none
        → (has_replay_data (next_replay driver callback taken s w capacity).1.logger ≡ false)
          × ((next_replay driver callback taken s w capacity).0
              ≡ (read driver taken s s.logger.replay_offset capacity).err)
          × ((next_replay driver callback taken s w capacity).2 ≡ w)
    unfolding next_replay take_entry
    next_replay-failed taken s w capacity has failed =
        (ground (arith, has, failed), ground (arith, has, failed), ground (arith, has, failed))

    -- Where the flash has an entry at the replay offset that fits the caller's buffer, a step of the
    -- replay hands its data to the callback, once. If the callback took it, the replay stands behind
    -- the entry with its padding; if not, it stays where it was, and the caller is told.
    pub next_replay-entry :
        (s : State F) (w : W) (capacity id : ℕ) (bytes rest : List ℕ)
        → has_replay_data s.logger ≡ true
        → Stands s s.logger.replay_offset id bytes rest
        → length bytes ≤ capacity
        → ((next_replay driver callback true s w capacity).0
            ≡ (if (callback w bytes).0 then ok else err_process_fail))
          × ((next_replay driver callback true s w capacity).2 ≡ (callback w bytes).1)
          × ((next_replay driver callback true s w capacity).1.logger.replay_offset ≡ (
              if (callback w bytes).0
              then u32 (
                  s.logger.replay_offset
                  + aligned_size (length bytes) s.logger.config.address_align)
              else s.logger.replay_offset))
          × ((next_replay driver callback true s w capacity).1.logger.write_offset
              ≡ s.logger.write_offset)
    next_replay-entry s w capacity id bytes rest has there fits =
        next_replay-found s w capacity bytes has (
          (read-IsCopy s s.logger.replay_offset capacity id bytes rest there).1
          ∙ ground (arith, fits))

    -- Where the flash has a good entry at the replay offset, and the lock is not free in time or the
    -- entry does not fit the caller's buffer, a step of the replay drops it with all that is behind
    -- it: nothing is left to replay, the callback did not run, and the caller gets the error of the
    -- time or of the buffer.
    pub next_replay-drops_backlog :
        (taken : Bool) (s : State F) (w : W) (capacity id : ℕ) (bytes rest : List ℕ)
        → has_replay_data s.logger ≡ true
        → Stands s s.logger.replay_offset id bytes rest
        → (taken ≡ false) ⊎ (capacity < length bytes)
        → (has_replay_data (next_replay driver callback taken s w capacity).1.logger ≡ false)
          × ((next_replay driver callback taken s w capacity).0
              ≡ (if taken then err_no_mem else err_timeout))
          × ((next_replay driver callback taken s w capacity).2 ≡ w)
    next_replay-drops_backlog false s w capacity id bytes rest has there why =
        let (late, nothing) = read-late s s.logger.replay_offset capacity there.can in
        let (ended, told, same) = next_replay-failed false s w capacity has nothing in
        (ended, told ∙ late, same)
    next_replay-drops_backlog true s w capacity id bytes rest has there why =
        let large : capacity < length bytes = ground (arith, why) in
        let (error, copied) = read-IsCopy s s.logger.replay_offset capacity id bytes rest there in
        let (ended, told, same) =
          next_replay-failed true s w capacity has (copied ∙ ground (arith, large)) in
        (ended, told ∙ error ∙ ground (arith, large), same)
