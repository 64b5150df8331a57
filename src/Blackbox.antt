-- ===== src/Blackbox.antt =====
-- components/blackbox_logger: the log of telemetry on flash. This file has the data; each child is
-- a group of the functions of blackbox_logger.c, with its theorems below it.
pub mod Entry
pub mod Batch
pub mod Write
pub mod Flush
pub mod Replay
pub mod Recover
pub mod Lifecycle
pub mod Tests
use modbus_vault.Base.{ℕ, zero, suc, ◌+◌, Bool, true, false, List, Option, none, some, EspErr}
use modbus_vault.Base.{
  esp_ok, esp_fail, esp_err_no_mem, esp_err_invalid_arg, esp_err_timeout, esp_err_invalid_crc,
}

-- `blackbox_logger_err_t`
pub data BbErr : Type 0 where
  ok err_fail err_invalid_arg err_no_mem err_timeout err_invalid_crc err_invalid_entry : BbErr
  err_erase_fail err_write_fail err_process_fail : BbErr

abbrev pub succeeds : BbErr → Bool
succeeds ok = true
succeeds _ = false

-- `blackbox_logger_parameters_t`
pub record Parameters : Type 0 where
  pub write_offset : ℕ
  pub replay_offset : ℕ
  pub last_id : ℕ
  pub is_dirty : Bool

-- `blackbox_logger_default_parameters`
abbrev pub default_parameters : Parameters
default_parameters = record { write_offset = 0; replay_offset = 0; last_id = 0; is_dirty = false }

-- The constants of `blackbox_logger_config_t`: the partition's size, the sizes of the buffers, which
-- pointers are set, and CONFIG_ENABLE_BLACKBOX_LOGGER_WRITING_OVER_OLD_ENTRIES.
pub record Config : Type 0 where
  pub size : ℕ
  pub address_align : ℕ
  pub sector_buf_size : ℕ
  pub batch_buf_size : ℕ
  pub writes_over : Bool
  pub has_partition : Bool
  pub has_sector_buf : Bool
  pub has_batch_buf : Bool
  pub has_write_func : Bool
  pub has_read_func : Bool
  pub has_erase_func : Bool
  pub has_replay_func : Bool

-- `blackbox_logger_t` with the configuration that it points to, and the two buffers. Of the handles
-- it says whether they are not NULL, and of the timer whether it runs. `last_erased_sector` is
-- `none` for -1.
pub record Logger : Type 0 where
  pub has_config : Bool
  pub config : Config
  pub parameters : Parameters
  pub write_offset : ℕ
  pub replay_offset : ℕ
  pub last_id : ℕ
  pub last_erased_sector : Option ℕ
  pub batch_len : ℕ
  pub batch_buf : List ℕ
  pub sector_buf : List ℕ
  pub has_sector_lock : Bool
  pub has_write_lock : Bool
  pub has_timer : Bool
  pub timer_runs : Bool

-- The hooks of the configuration, over an abstract flash. A read gives the bytes that it left in the
-- buffer, also where it fails.
pub record Driver (F : Type 0) : Type 0 where
  pub read_func : F → ℕ → ℕ → EspErr × List ℕ
  pub write_func : F → ℕ → List ℕ → EspErr × F
  pub erase_func : F → ℕ → ℕ → EspErr × F

-- The logger, the flash, and how often `on_replay_available_func` ran.
pub record State (F : Type 0) : Type 0 where
  pub logger : Logger
  pub flash : F
  pub notified : ℕ

-- `esp_to_blackbox_error_map`
unfoldable pub error_map : EspErr → BbErr
error_map esp_ok = ok
error_map esp_err_invalid_arg = err_invalid_arg
error_map esp_err_no_mem = err_no_mem
error_map esp_err_timeout = err_timeout
error_map esp_err_invalid_crc = err_invalid_crc
error_map esp_fail = err_fail
error_map _ = err_fail

-- `update_parameters_internal`, with the pointers set.
abbrev pub update_parameters : Logger → Logger
update_parameters l = record l {
  parameters = record {
    write_offset = l.write_offset;
    replay_offset = l.replay_offset;
    last_id = l.last_id;
    is_dirty = true;
  };
}

-- `blackbox_logger_has_replay_data` is in Replay; `blackbox_logger_get_parameters_defaults` gives
-- `default_parameters`.
