-- ===== src/Blackbox/Write.antt =====
-- `blackbox_logger_write`: an entry goes behind the batch, which is flushed first if it would not
-- fit. The two locks that a call may wait for are taken in time or not.
pub mod Store
pub mod Append
use modbus_vault.Base.{
  ℕ, zero, suc, ◌+◌, ◌-◌, Bool, true, false, not, ◌&&◌, List, [], ◌∷◌, ◌++◌, Option, none, some,
  if◌then◌else◌, ltb, ◌==◌, length, take, drop, splice,
}
use modbus_vault.Base.Words.{u32}
use modbus_vault.Crc.{crc16}
use modbus_vault.Blackbox.{
  BbErr, ok, err_invalid_arg, err_no_mem, err_timeout, succeeds, Config, Logger, Driver, State,
}
use modbus_vault.Blackbox.Entry.{aligned_size, header, tail, header_size}
use modbus_vault.Blackbox.Flush.{flush}

-- The pointers that the call needs, and an entry that is not empty; `none` is a NULL `data_ptr`.
abbrev pub can_write : Logger → Option (List ℕ) → Bool
can_write l none = false
can_write l (some bytes) =
    l.has_write_lock
    && l.has_timer
    && l.has_config
    && l.config.has_batch_buf
    && not (length bytes == 0)

-- The three copies into the batch buffer at `at`, the CRC of the first two read from there.
unfoldable pub store_entry : List ℕ → ℕ → ℕ → List ℕ → List ℕ
store_entry buf at id bytes =
    let buf1 = splice buf at (header id (length bytes)) in
    let buf2 = splice buf1 (at + header_size) bytes in
    let crc = crc16 (take (header_size + length bytes) (drop at buf2)) in
    splice buf2 (at + header_size + length bytes) (tail crc)

-- The logger with the entry in its batch: the next id, and the flush timer started anew.
unfoldable pub stored : Logger → List ℕ → Logger
stored l bytes = record l {
  batch_buf = store_entry l.batch_buf l.batch_len (u32 (l.last_id + 1)) bytes;
  batch_len = u32 (l.batch_len + aligned_size (length bytes) l.config.address_align);
  last_id = u32 (l.last_id + 1);
  timer_runs = true;
}

module _ {F : Type 0} (driver : Driver F) where
  unfoldable pub store : Bool → State F → List ℕ → BbErr × State F
  unfolding stored
  store taken s bytes =
      if taken then (ok, record s { logger = stored s.logger bytes }) else (err_timeout, s)

  -- After the flush that makes room.
  pub store_flushed : Bool → Option (BbErr × State F) → List ℕ → Option (BbErr × State F)
  store_flushed taken none bytes = none
  store_flushed taken (some (e, s)) bytes =
      some (if succeeds e then store taken s bytes else (e, s))

  -- `blackbox_logger_write`, for whether the lock of the flush and that of the write are taken.
  unfoldable pub write : Bool → Bool → State F → Option (List ℕ) → Option (BbErr × State F)
  write flush_taken taken s none = some (err_invalid_arg, s)
  write flush_taken taken s (some bytes) =
      let l = s.logger in
      let size = aligned_size (length bytes) l.config.address_align in
      if can_write l (some bytes)
      then if ltb l.config.batch_buf_size size
        then some (err_no_mem, s)
        else if ltb l.config.batch_buf_size (u32 (l.batch_len + size))
        then store_flushed taken
            (flush driver flush_taken (record s { logger = record l { timer_runs = false } })) bytes
        else some (store taken s bytes)
      else some (err_invalid_arg, s)
