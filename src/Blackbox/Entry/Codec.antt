-- ===== src/Blackbox/Entry/Codec.antt =====
-- The bytes of an entry, and the fields read back from them.
use modbus_vault.Base.{
  ℕ, ◌+◌, ◌^◌, ◌<◌, ◌≡◌, refl, sym, ap, ap₂, ◌∙◌, List, ◌++◌, arith, length, take, drop,
  length-append, take-append, drop-append, append_assoc,
}
use modbus_vault.Base.Words.{AreBytes, AreBytes-append, write32-bytes}
use modbus_vault.Crc.{crc16}
use modbus_vault.Blackbox.Entry.{
  header_magic, header_size, read16, read32, write16, write32, magic_of, id_of, length_of, header,
  tail,
}

-- What `blackbox_logger_write` stores for the data: the header and the data, then the tail with
-- their CRC.
unfoldable pub body : ℕ → List ℕ → List ℕ
unfolding header
body id bytes = header id (length bytes) ++ bytes

unfoldable pub entry : ℕ → List ℕ → List ℕ
unfolding body tail
entry id bytes = body id bytes ++ tail (crc16 (body id bytes))

pub read16-write16 : (w : ℕ) (rest : List ℕ) → w < 2 ^ 16 → read16 (write16 w ++ rest) ≡ w
read16-write16 w rest h = omega arith

pub read32-write32 : (w : ℕ) (rest : List ℕ) → w < 2 ^ 32 → read32 (write32 w ++ rest) ≡ w
read32-write32 w rest h = omega arith

pub length-body : (id : ℕ) (bytes : List ℕ) → length (body id bytes) ≡ header_size + length bytes
unfolding body
length-body id bytes = omega arith

pub length-entry : (id : ℕ) (bytes : List ℕ) → length (entry id bytes) ≡ 18 + length bytes
unfolding entry
length-entry id bytes =
    omega
      (arith, length-append (body id bytes) (tail (crc16 (body id bytes))), length-body id bytes)

pub body-bytes : (id : ℕ) (bytes : List ℕ) → AreBytes bytes → AreBytes (body id bytes)
unfolding body
body-bytes id bytes h =
    AreBytes-append (header id (length bytes)) bytes
      (AreBytes-append (write32 header_magic) (write32 id ++ write32 (length bytes))
        (write32-bytes header_magic)
        (AreBytes-append (write32 id) (write32 (length bytes)) (write32-bytes id)
          (write32-bytes (length bytes))))
      h

module _ (id : ℕ) (bytes rest : List ℕ) where
  pub magic_of-entry : magic_of (entry id bytes ++ rest) ≡ header_magic
  unfolding entry
  magic_of-entry = refl

  pub id_of-entry : id < 2 ^ 32 → id_of (entry id bytes ++ rest) ≡ id
  unfolding entry
  id_of-entry h = omega arith

  pub length_of-entry : length bytes < 2 ^ 32 → length_of (entry id bytes ++ rest) ≡ length bytes
  unfolding entry
  length_of-entry h = omega arith

  -- The tail stands behind the header and the data.
  entry-split : entry id bytes ++ rest ≡ body id bytes ++ (tail (crc16 (body id bytes)) ++ rest)
  unfolding entry
  entry-split = append_assoc (body id bytes) (tail (crc16 (body id bytes))) rest

  pub take-entry : take (header_size + length bytes) (entry id bytes ++ rest) ≡ body id bytes
  take-entry =
      ap₂ take (sym (length-body id bytes)) entry-split
      ∙ take-append (body id bytes) (tail (crc16 (body id bytes)) ++ rest)

  pub drop-entry :
      drop (header_size + length bytes) (entry id bytes ++ rest)
      ≡ tail (crc16 (body id bytes)) ++ rest
  drop-entry =
      ap₂ drop (sym (length-body id bytes)) entry-split
      ∙ drop-append (body id bytes) (tail (crc16 (body id bytes)) ++ rest)

  -- The data of an entry, as `blackbox_logger_read` copies it.
  pub data_of-entry : take (length bytes) (drop header_size (entry id bytes ++ rest)) ≡ bytes
  unfolding entry
  data_of-entry =
      ap (take (length bytes)) (append_assoc bytes (tail (crc16 (body id bytes))) rest)
      ∙ take-append bytes (tail (crc16 (body id bytes)) ++ rest)
