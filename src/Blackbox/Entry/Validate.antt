-- ===== src/Blackbox/Entry/Validate.antt =====
-- What `validate_entry_internal` accepts: every entry as it is written, whatever stands behind it;
-- and of what it accepts, that the entry lies within the bytes that were given.
use modbus_vault.Base.{
  ℕ, ◌+◌, ◌^◌, ◌≤◌, ◌<◌, ◌≡◌, refl, sym, ap, ◌∙◌, List, ◌++◌, some, arith, length, take, drop,
  drop-add,
}
use modbus_vault.Base.Words.{u32, AreBytes}
use modbus_vault.Crc.{crc16}
use modbus_vault.Crc.Detection.{crc16-lt}
use modbus_vault.Blackbox.{ok}
use modbus_vault.Blackbox.Entry.{
  header_magic, tail_magic, header_size, read16, read32, magic_of, length_of, tail, check_tail,
  validate_entry,
}
use modbus_vault.Blackbox.Entry.Codec.{
  body, entry, body-bytes, magic_of-entry, length_of-entry, take-entry, drop-entry,
}

-- The two words of the tail, read back.
tail-crc : (crc : ℕ) (rest : List ℕ) → crc < 2 ^ 16 → read16 (tail crc ++ rest) ≡ crc
unfolding tail
tail-crc crc rest h = omega arith

check_tail-entry :
    (id : ℕ) (bytes rest : List ℕ) (size : ℕ)
    → AreBytes bytes
    → 18 + length bytes ≤ size
    → size < 2 ^ 32
    → check_tail (entry id bytes ++ rest) size (header_size + length bytes) ≡ ok
unfolding check_tail
check_tail-entry id bytes rest size h fits small = ground (
  arith,
  ap read16 (drop-entry id bytes rest)
      ∙ tail-crc (crc16 (body id bytes)) rest (crc16-lt (body id bytes) (body-bytes id bytes h)),
  ap crc16 (take-entry id bytes rest),
  ap read32 (drop-add (header_size + length bytes) 2 (entry id bytes ++ rest))
      ∙ ap (λ t. read32 (drop 2 t)) (drop-entry id bytes rest)
      ∙ tail-magic,
)
  where
    tail-magic : read32 (drop 2 (tail (crc16 (body id bytes)) ++ rest)) ≡ tail_magic
    tail-magic = unfold tail in refl

-- An entry as it is written passes, whatever bytes stand behind it, if the size given covers it.
pub validate_entry-entry :
    (id : ℕ) (bytes rest : List ℕ) (size : ℕ)
    → AreBytes bytes
    → 18 + length bytes ≤ size
    → size < 2 ^ 32
    → validate_entry (some (entry id bytes ++ rest)) size ≡ ok
unfolding validate_entry
validate_entry-entry id bytes rest size h fits small = ground (
  arith,
  magic_of-entry id bytes rest,
  ap (check_tail (entry id bytes ++ rest) size) at
      ∙ check_tail-entry id bytes rest size h fits small,
)
  where
    at : u32 (header_size + length_of (entry id bytes ++ rest)) ≡ header_size + length bytes
    at = omega (arith, length_of-entry id bytes rest (omega arith))

check_tail_sound :
    (bytes : List ℕ) (size at : ℕ)
    → at + 6 < 2 ^ 32
    → check_tail bytes size at ≡ ok
    → (at + 6 ≤ size)
      × (read16 (drop at bytes) ≡ crc16 (take at bytes))
      × (read32 (drop (at + 2) bytes) ≡ tail_magic)
unfolding check_tail
check_tail_sound bytes size at small h = ground arith

accepted :
    (bytes : List ℕ) (size : ℕ)
    → validate_entry (some bytes) size ≡ ok
    → (magic_of bytes ≡ header_magic)
      × (check_tail bytes size (u32 (header_size + length_of bytes)) ≡ ok)
unfolding validate_entry
accepted bytes size h = ground arith

-- What passes is an entry that lies within the size given, with its magic, its CRC and its second
-- magic in place, if its length is one that does not wrap the 32-bit sum with header and tail.
pub validate_entry_sound :
    (bytes : List ℕ) (size : ℕ)
    → length_of bytes + 18 < 2 ^ 32
    → validate_entry (some bytes) size ≡ ok
    → (18 + length_of bytes ≤ size)
      × (magic_of bytes ≡ header_magic)
      × (read16 (drop (header_size + length_of bytes) bytes)
          ≡ crc16 (take (header_size + length_of bytes) bytes))
      × (read32 (drop (header_size + length_of bytes + 2) bytes) ≡ tail_magic)
validate_entry_sound bytes size small h =
    let passed = accepted bytes size h in
    let inside =
      check_tail_sound bytes size (header_size + length_of bytes) (omega arith)
        (ap (check_tail bytes size) (sym at) ∙ passed.1) in
    (omega (arith, inside.0), passed.0, inside.1, inside.2)
  where
    at : u32 (header_size + length_of bytes) ≡ header_size + length_of bytes
    at = omega arith
