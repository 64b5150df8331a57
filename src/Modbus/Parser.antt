-- ===== src/Modbus/Parser.antt =====
-- components/modbus_analyzer/modbus_parser.c: the frame check. `none` is a NULL pointer; a frame is
-- the list of its `length` bytes.
pub mod Frames
mod Tests
use modbus_vault.Base.{
  ℕ, zero, suc, ◌+◌, ◌-◌, ◌*◌, ◌^◌, bit_or, List, Option, none, some, ltb, ◌==◌, if◌then◌else◌,
  length, take, get_or,
}
use modbus_vault.Base.{
  EspErr, esp_ok, esp_err_invalid_arg, esp_err_invalid_size, esp_err_invalid_crc,
}
use modbus_vault.Crc.{crc16}

abbrev pub minimum_frame_length : ℕ
minimum_frame_length = 4

-- `(data_ptr[length - 1U] << 8U) | data_ptr[length - 2U]`
abbrev pub received_crc : List ℕ → ℕ
received_crc frame =
    bit_or (get_or frame (length frame - 1) 0 * 2 ^ 8) (get_or frame (length frame - 2) 0)

unfoldable pub check_crc : Option (List ℕ) → EspErr
check_crc none = esp_err_invalid_arg
check_crc (some frame) =
    if ltb (length frame) minimum_frame_length
    then esp_err_invalid_size
    else if crc16 (take (length frame - 2) frame) == received_crc frame
    then esp_ok
    else esp_err_invalid_crc
