-- ===== src/Crc/Equivalence.antt =====
-- The two builds of `calculate_modbus_crc16` agree: a step by the table is the eight rounds of the
-- bitwise build, by linearity and a check of the 256 table entries.
use modbus_vault.Base.{
  ℕ, zero, suc, ◌*◌, ◌/◌, ◌%◌, ◌^◌, ◌<◌, bit_xor, ◌≡◌, refl, sym, ap, ap₂, ◌∙◌, Bool, true, List,
  [], ◌∷◌, ◌&&◌, arith, ◌==◌, ==_iff, get_or,
}
use modbus_vault.Base.Words.{u8, IsByte, AreBytes}
use modbus_vault.Base.Bits.{bit_xor_comm, bit_xor-zero, bit_xor-shr, bit_xor_fields}
use modbus_vault.Crc.{
  bit_round, bit_rounds, byte_round, crc_from, crc16, lut_round, lut_from, crc16_lut,
}
use modbus_vault.Crc.Table.{lut}
use modbus_vault.Crc.Step.{bit_rounds-bit_xor, bit_rounds-high}

all_below : ℕ → (ℕ → Bool) → Bool
all_below zero p = true
all_below (suc n) p = p n && all_below n p

all_below-at : (n x : ℕ) (p : ℕ → Bool) → all_below n p ≡ true → x < n → p x ≡ true
unfolding all_below
all_below-at zero x p h lt = absurd (omega arith)
all_below-at (suc n) x p h lt = ground (arith, all_below-at n x p)

-- Every entry of the table is the eight rounds of its index.
table_check : all_below 256 (λ x. bit_rounds 8 x == get_or lut x 0) ≡ true
unfolding all_below bit_rounds bit_round lut
table_check = refl

lut-bit_rounds : (x : ℕ) → x < 256 → bit_rounds 8 x ≡ get_or lut x 0
lut-bit_rounds x h = (==_iff _ _).0 (all_below-at 256 x _ table_check h)

-- One byte through the table is one byte through the eight rounds.
pub lut_round-byte_round : (crc byte : ℕ) → IsByte byte → lut_round crc byte ≡ byte_round crc byte
unfolding lut_round byte_round
lut_round-byte_round crc byte h =
    ap₂ bit_xor (sym high) (ap (λ t. get_or lut (u8 t) 0) (bit_xor_comm byte crc) ∙ sym low)
    ∙ sym (bit_rounds-bit_xor 8 (256 * (x / 256)) (x % 256))
    ∙ ap (bit_rounds 8) whole
  where
    x : ℕ
    x = bit_xor crc byte

    whole : bit_xor (256 * (x / 256)) (x % 256) ≡ x
    whole = omega (arith, bit_xor_fields 8 (x / 256) (x % 256) (omega arith))

    byte_high : byte / 256 ≡ 0
    byte_high = omega arith

    high : bit_rounds 8 (256 * (x / 256)) ≡ crc / 2 ^ 8
    high =
        bit_rounds-high (x / 256)
        ∙ bit_xor-shr 8 crc byte
        ∙ ap (bit_xor (crc / 256)) byte_high
        ∙ bit_xor-zero (crc / 256)

    low : bit_rounds 8 (x % 256) ≡ get_or lut (u8 x) 0
    low = lut-bit_rounds (x % 256) (omega arith)

lut_from-crc_from :
    (crc : ℕ) (bytes : List ℕ) → AreBytes bytes → lut_from crc bytes ≡ crc_from crc bytes
unfolding lut_from crc_from
lut_from-crc_from crc [] h = refl
lut_from-crc_from crc (b ∷ bs) h =
    ap (λ c. lut_from c bs) (lut_round-byte_round crc b h.0)
    ∙ lut_from-crc_from (byte_round crc b) bs h.1

-- On every string of bytes the table build computes what the bitwise build computes.
pub crc16_lut-eq-crc16 : (bytes : List ℕ) → AreBytes bytes → crc16_lut bytes ≡ crc16 bytes
unfolding crc16_lut crc16
crc16_lut-eq-crc16 bytes h = lut_from-crc_from 0xFFFF bytes h
