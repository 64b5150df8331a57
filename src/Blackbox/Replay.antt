-- ===== src/Blackbox/Replay.antt =====
-- Reading an entry back, and the replay of the entries between the replay offset and the write
-- offset. The callback works on a world of the caller's.
pub mod Progress
use modbus_vault.Base.{
  ℕ, zero, suc, ◌+◌, ◌-◌, Bool, true, false, not, ◌&&◌, List, [], ◌∷◌, Option, none, some,
  if◌then◌else◌, ltb, leb, ◌==◌, length, take, drop, splice,
}
use modbus_vault.Base.{EspErr}
use modbus_vault.Base.Words.{u32, sub32}
use modbus_vault.Blackbox.{
  BbErr, ok, err_invalid_arg, err_no_mem, err_timeout, err_invalid_entry, err_process_fail,
  succeeds, Config, Logger, Driver, State, error_map,
}
use modbus_vault.Blackbox.Entry.{aligned_size, header_size, length_of, validate_entry}

-- `blackbox_logger_has_replay_data`
abbrev pub has_replay_data : Logger → Bool
has_replay_data l = not (l.write_offset == l.replay_offset)

-- What `blackbox_logger_read` leaves: its error, the logger with the bytes in its sector buffer, and
-- the data that it copied to the caller.
pub record ReadResult : Type 0 where
  pub err : BbErr
  pub logger : Logger
  pub entry : Option (List ℕ)

abbrev pub can_read : Logger → ℕ → Bool
can_read l offset =
    l.has_sector_lock
    && l.has_config
    && l.config.has_sector_buf
    && l.config.has_read_func
    && ltb offset l.config.size

-- The entry at the start of the sector buffer, if it is one and fits the caller's buffer.
unfoldable pub copy_entry : Logger → BbErr → ℕ → ReadResult
copy_entry l e capacity =
    if succeeds e
    then if ltb capacity (length_of l.sector_buf)
      then record { err = err_no_mem; logger = l; entry = none }
      else record {
        err = ok;
        logger = l;
        entry = some (take (length_of l.sector_buf) (drop header_size l.sector_buf));
      }
    else record { err = e; logger = l; entry = none }

-- The batch buffer's size, or what is left of the partition.
abbrev pub read_size : Config → ℕ → ℕ
read_size c offset =
    let remaining = sub32 c.size offset in
    if ltb remaining c.batch_buf_size then remaining else c.batch_buf_size

module _ {F : Type 0} (driver : Driver F) where
  -- `blackbox_logger_read`, for whether the sector lock is taken.
  unfoldable pub read : Bool → State F → ℕ → ℕ → ReadResult
  unfolding copy_entry
  read taken s offset capacity =
      let l = s.logger in
      if can_read l offset
      then if taken
        then (let size = read_size l.config offset in
            let (e, bytes) = driver.read_func s.flash offset size in
            let l' = record l { sector_buf = splice l.sector_buf 0 bytes } in
            copy_entry l'
              (if succeeds (error_map e)
                then validate_entry (some l'.sector_buf) size
                else error_map e)
              capacity)
        else record { err = err_timeout; logger = l; entry = none }
      else record { err = err_invalid_arg; logger = l; entry = none }

  module _ {W : Type 0} (callback : W → List ℕ → Bool × W) where
    -- What the callback made of the entry: the replay moves on only past one that was processed.
    pub process : State F → Logger → Bool × W → ℕ → BbErr × State F × W
    process s l (done, w) data_length =
        if done
        then (
          ok,
          record s {
            logger = record l {
              replay_offset =
                  u32 (l.replay_offset + aligned_size data_length l.config.address_align);
            };
          },
          w,
        )
        else (err_process_fail, record s { logger = l }, w)

    -- Whatever the error of the read, the replay skips to the write offset.
    pub take_entry : State F → ReadResult → W → BbErr × State F × W
    take_entry s r w = elim r.entry [
      | none ↦ (
        r.err,
        record s { logger = record (r.logger) { replay_offset = r.logger.write_offset } },
        w,
      )
      | some bytes ↦ process s r.logger (callback w bytes) (length bytes)
    ]

    -- `blackbox_logger_next_replay`, with its pointers set.
    unfoldable pub next_replay : Bool → State F → W → ℕ → BbErr × State F × W
    unfolding take_entry process
    next_replay taken s w capacity =
        if has_replay_data s.logger
        then take_entry s (read taken s s.logger.replay_offset capacity) w
        else (err_invalid_entry, s, w)

    -- `blackbox_logger_iterate_replay`, with the locks of its calls; `none` if the rounds run out.
    pub iterate_replay : ℕ → (ℕ → Bool) → State F → W → ℕ → Option (BbErr × State F × W)
    iterate_replay zero taken s w capacity = none
    iterate_replay (suc fuel) taken s w capacity =
        let (e, s', w') = next_replay (taken fuel) s w capacity in
        let rest = iterate_replay fuel taken s' w' capacity in
        if succeeds e then rest else some (e, s', w')
