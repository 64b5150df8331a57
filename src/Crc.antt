-- ===== src/Crc.antt =====
-- components/utils/utils.c: `calculate_modbus_crc16`, in both of its builds.
-- `crc16` is the build without a table, `crc16_lut` the build with
-- CONFIG_ENABLE_MODBUS_CRC16_LUT. A call's pointer and length are the list of the bytes read.
mod Table
pub mod Step
pub mod Equivalence
pub mod Detection
mod Tests
use modbus_vault.Base.{ℕ, zero, suc, ◌/◌, ◌%◌, ◌^◌, bit_xor, List, [], ◌∷◌}
use modbus_vault.Base.{◌==◌, if◌then◌else◌, get_or}
use modbus_vault.Base.Words.{u8}
use Table.{lut}

-- One round of the inner loop: shift right, and fold the polynomial in if a one fell out.
pub bit_round : ℕ → ℕ
bit_round crc = if crc % 2 == 0 then crc / 2 else bit_xor (crc / 2) 0xA001

pub bit_rounds : ℕ → ℕ → ℕ
bit_rounds zero crc = crc
bit_rounds (suc n) crc = bit_rounds n (bit_round crc)

-- The body of the outer loop.
pub byte_round : ℕ → ℕ → ℕ
byte_round crc byte = bit_rounds 8 (bit_xor crc byte)

pub crc_from : ℕ → List ℕ → ℕ
crc_from crc [] = crc
crc_from crc (b ∷ bs) = crc_from (byte_round crc b) bs

unfoldable pub crc16 : List ℕ → ℕ
unfolding crc_from byte_round bit_rounds bit_round
crc16 bytes = crc_from 0xFFFF bytes

-- The table build: `lutIndex` is a `uint8_t`.
pub lut_round : ℕ → ℕ → ℕ
lut_round crc byte = bit_xor (crc / 2 ^ 8) (get_or lut (u8 (bit_xor byte crc)) 0)

pub lut_from : ℕ → List ℕ → ℕ
lut_from crc [] = crc
lut_from crc (b ∷ bs) = lut_from (lut_round crc b) bs

pub crc16_lut : List ℕ → ℕ
crc16_lut bytes = lut_from 0xFFFF bytes
