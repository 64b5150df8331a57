-- ===== src/Modbus/Parser/Tests.antt =====
-- The frame check on the request to read ten registers of slave 1.
use modbus_vault.Base.{ℕ, List, [], ◌∷◌, arith}
use modbus_vault.Base.Words.{AreBytes}

abbrev request : List ℕ
request = 0x01 ∷ 0x03 ∷ 0x00 ∷ 0x00 ∷ 0x00 ∷ 0x0A ∷ []

request-bytes : AreBytes request
request-bytes =
    (omega arith, (omega arith, (omega arith, (omega arith, (omega arith, (omega arith, tt))))))
