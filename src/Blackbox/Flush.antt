-- ===== src/Blackbox/Flush.antt =====
-- `blackbox_logger_flush` and `get_entries_chunk_size_with_ceiling_helper`: the batch goes to flash
-- in chunks of whole entries that do not cross the end of a sector.
pub mod Split
pub mod Chunk
pub mod Rounds
pub mod Room
pub mod Drain
pub mod Batch
pub mod End
mod Tests
use modbus_vault.Base.{
  ℕ, zero, suc, ◌+◌, ◌-◌, ◌*◌, ◌/◌, Bool, true, false, not, ◌&&◌, List, [], ◌∷◌, ◌++◌, Option, none,
  some, if◌then◌else◌, ltb, leb, ◌==◌, length, take, drop, splice,
}
use modbus_vault.Base.{EspErr}
use modbus_vault.Base.Words.{u32, sub32}
use modbus_vault.Blackbox.{
  BbErr, ok, err_invalid_arg, err_no_mem, err_timeout, err_erase_fail, err_write_fail, succeeds,
  Config, Logger, Driver, State, error_map, update_parameters,
}
use modbus_vault.Blackbox.Entry.{aligned_size, header_magic, magic_of, length_of}

-- The loop of `get_entries_chunk_size_with_ceiling_helper` from `buf_offset` on; the bytes are those
-- from there. `buf_size` rounds are enough, since an entry is longer than 0 (Chunk).
pub chunk_loop : ℕ → List ℕ → ℕ → ℕ → ℕ → ℕ → ℕ → ℕ
chunk_loop zero bytes buf_offset buf_size ceiling align max_size = max_size
chunk_loop (suc fuel) bytes buf_offset buf_size ceiling align max_size =
    let size = aligned_size (length_of bytes) align in
    let rest =
      chunk_loop fuel (drop size bytes) (u32 (buf_offset + size)) buf_size ceiling align
        (u32 (max_size + size)) in
    if ltb buf_offset buf_size
      && magic_of bytes == header_magic
      && leb (u32 (max_size + size)) ceiling
    then rest
    else max_size

pub chunk_size : List ℕ → ℕ → ℕ → ℕ → ℕ
chunk_size bytes buf_size ceiling align = chunk_loop (suc buf_size) bytes 0 buf_size ceiling align 0

-- The variables of the loop.
pub record Progress (F : Type 0) : Type 0 where
  pub state : State F
  pub write_offset_old : ℕ
  pub write_offset : ℕ
  pub replay_offset : ℕ
  pub buffer_offset : ℕ
  pub write_size : ℕ

-- `0` for the offset at or past the end of the partition.
abbrev pub wrap_offset : Config → ℕ → ℕ
wrap_offset c offset = if leb c.size offset then 0 else offset

-- Whether the logger is to be flushed at all.
abbrev pub can_flush : Logger → Bool
can_flush l =
    l.has_write_lock
    && l.has_config
    && l.config.has_partition
    && l.config.has_write_func
    && l.config.has_erase_func
    && l.config.has_batch_buf
    && not (l.batch_len == 0)
    && not (l.config.sector_buf_size == 0)

abbrev is_sector : Option ℕ → ℕ → Bool
is_sector none n = false
is_sector (some m) n = m == n

module _ {F : Type 0} (driver : Driver F) where
  -- The sector of the write is erased unless it was the last to be.
  pub erase_sector : State F → ℕ → BbErr × State F
  erase_sector s sector =
      let l = s.logger in
      if is_sector l.last_erased_sector sector
      then (ok, s)
      else let (e, flash) =
          driver.erase_func s.flash (u32 (sector * l.config.sector_buf_size))
            l.config.sector_buf_size in
        (
          error_map e,
          record s { logger = record l { last_erased_sector = some sector }; flash = flash },
        )

  -- The chunk goes to the write offset.
  pub write_chunk : Progress F → BbErr × State F → ℕ → BbErr × Progress F
  write_chunk p (e, s) size =
      if succeeds e
      then (let (w, flash) =
            driver.write_func s.flash p.write_offset
              (take size (drop p.buffer_offset s.logger.batch_buf)) in
          let p' = record p { state = record s { flash = flash } } in
          if succeeds (error_map w)
          then (
            ok,
            record p' {
              write_offset = u32 (p.write_offset + size);
              write_size = sub32 p.write_size size;
              buffer_offset = u32 (p.buffer_offset + size);
            },
          )
          else (err_write_fail, p'))
      else (err_erase_fail, record p { state = s })

  -- Where no entry fits, the write moves to the next sector, unless it stands at the start of one.
  pub skip_sector : Progress F → ℕ → ℕ → BbErr × Progress F
  skip_sector p remaining next =
      if ltb remaining p.state.logger.config.sector_buf_size
      then (ok, record p { write_offset = next })
      else (err_no_mem, p)

  -- What the loop keeps in the logger after a round without an error.
  pub keep_round : BbErr × Progress F → BbErr × Progress F
  keep_round (e, p) =
      if succeeds e
      then (
        e,
        record p {
          write_offset_old = p.state.logger.write_offset;
          state = record (p.state) {
            logger = record (p.state.logger) {
              replay_offset = p.replay_offset;
              write_offset = p.write_offset;
            };
          };
        },
      )
      else (e, p)

  -- One chunk, for the sector of the write and the room left in it.
  pub write_round : Progress F → ℕ → ℕ → ℕ → BbErr × Progress F
  unfolding erase_sector write_chunk skip_sector keep_round
  write_round p sector remaining next =
      let l = p.state.logger in
      let size =
        chunk_size (drop p.buffer_offset l.batch_buf) p.write_size remaining
          l.config.address_align in
      keep_round (
        if ltb 0 size
        then write_chunk p (erase_sector p.state sector) size
        else skip_sector p remaining next)

  -- The body of the loop: a write that catches up with the replay in its sector pushes the replay to
  -- the next sector, or stops, as the build is configured.
  pub flush_round : Progress F → BbErr × Progress F
  unfolding write_round
  flush_round p =
      let c = p.state.logger.config in
      let sector = p.write_offset / c.sector_buf_size in
      let replay_sector = p.replay_offset / c.sector_buf_size in
      let next_start = u32 ((sector + 1) * c.sector_buf_size) in
      let remaining = sub32 next_start p.write_offset in
      let next = wrap_offset c next_start in
      if sector == replay_sector && ltb p.write_offset p.replay_offset
      then if c.writes_over
        then write_round
            (record p {
              replay_offset = wrap_offset c (u32 ((replay_sector + 1) * c.sector_buf_size));
            })
            sector remaining next
        else (err_no_mem, p)
      else write_round p sector remaining next

  -- `do … while ((write_size > 0) && (err == OK))`; `none` if the rounds run out.
  pub flush_loop : ℕ → Progress F → Option (BbErr × Progress F)
  flush_loop zero p = none
  flush_loop (suc fuel) p =
      let (e, p') = flush_round p in
      let rest = flush_loop fuel p' in
      if ltb 0 p'.write_size && succeeds e then rest else some (e, p')

  abbrev pub start_flush : State F → Progress F
  start_flush s = record {
    state = s;
    write_offset_old = s.logger.write_offset;
    write_offset = s.logger.write_offset;
    replay_offset = s.logger.replay_offset;
    buffer_offset = 0;
    write_size = s.logger.batch_len;
  }

  -- The parameters keep the offset of the last write, the logger goes on behind it, and what was not
  -- written moves to the front of the batch.
  pub finish_flush : Progress F → State F
  finish_flush p =
      let l = p.state.logger in
      let hint =
        update_parameters
          (record l { replay_offset = p.replay_offset; write_offset = p.write_offset_old }) in
      let remaining = sub32 l.batch_len p.buffer_offset in
      let batch_buf =
        if ltb 0 remaining && ltb 0 p.buffer_offset
        then splice l.batch_buf 0 (take remaining (drop p.buffer_offset l.batch_buf))
        else l.batch_buf in
      record (p.state) {
        logger = record hint {
          write_offset = p.write_offset;
          batch_buf = batch_buf;
          batch_len = remaining;
        };
        notified =
            if l.config.has_replay_func && ltb 0 p.buffer_offset
            then p.state.notified + 1
            else p.state.notified;
      }

  -- Two rounds for each byte of the batch: each round writes a byte or more, or moves to the start
  -- of a sector, where the next one writes or stops.
  abbrev pub flush_fuel : Logger → ℕ
  flush_fuel l = 2 * l.batch_len + 2

  -- `blackbox_logger_flush`, for whether the write lock is taken in time. `none` if the rounds run
  -- out.
  pub flush : Bool → State F → Option (BbErr × State F)
  flush taken s =
      if can_flush s.logger
      then if taken
        then elim (flush_loop (flush_fuel s.logger) (start_flush s)) [
          | none ↦ none
          | some (e, p) ↦ some (e, finish_flush p)
        ]
        else some (err_timeout, s)
      else some (err_invalid_arg, s)
