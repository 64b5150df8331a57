-- ===== src/Crc/Tests.antt =====
-- The CRC of an example of the Modbus standard, and the two builds at a short string.
use modbus_vault.Base.{◌≡◌, refl, [], ◌∷◌, arith}
use modbus_vault.Crc.{crc16, crc16_lut}
use modbus_vault.Crc.Equivalence.{crc16_lut-eq-crc16}

-- The request to read ten registers of slave 1, and its CRC, low byte first on the wire.
crc16-request : crc16 (0x01 ∷ 0x03 ∷ 0x00 ∷ 0x00 ∷ 0x00 ∷ 0x0A ∷ []) ≡ 0xCDC5
unfolding crc16
crc16-request = refl

crc16_lut-eq-crc16_example : crc16_lut (0x01 ∷ 0x03 ∷ []) ≡ crc16 (0x01 ∷ 0x03 ∷ [])
crc16_lut-eq-crc16_example = crc16_lut-eq-crc16 (0x01 ∷ 0x03 ∷ []) (omega arith, (omega arith, tt))
