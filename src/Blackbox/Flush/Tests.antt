-- ===== src/Blackbox/Flush/Tests.antt =====
-- A flush that runs to the end of the partition.
use modbus_vault.Base.{ℕ, ◌≡◌, refl, true, if◌then◌else◌, List, Option, none, some, replicate}
use modbus_vault.Crc.{crc16}
use modbus_vault.Blackbox.{BbErr, succeeds, Logger, State, error_map}
use modbus_vault.Blackbox.Entry.{aligned_size, align_num_up, header, tail}
use modbus_vault.Blackbox.Write.{stored, store_entry}
use modbus_vault.Blackbox.Flush.{
  flush, flush_loop, flush_round, write_round, keep_round, write_chunk, skip_sector, erase_sector,
  finish_flush, chunk_size, chunk_loop,
}
use modbus_vault.Blackbox.Tests.{logger, flash_driver, state_of}

-- An entry of 64 bytes in all fills the second sector, and the write offset is then the size of the
-- partition.
abbrev filling : Logger
filling = stored (record logger { write_offset = 64 }) (replicate 46 1)

abbrev offset_of : Option (BbErr × State (List ℕ)) → ℕ
offset_of none = 0
offset_of (some (e, s)) = if succeeds e then s.logger.write_offset else 0

flush-reaches_end : offset_of (flush flash_driver true (state_of filling (replicate 128 0))) ≡ 128
unfolding flush flush_loop flush_round write_round keep_round write_chunk skip_sector erase_sector
    finish_flush chunk_size chunk_loop stored aligned_size align_num_up store_entry header tail
    crc16 error_map
flush-reaches_end = refl
