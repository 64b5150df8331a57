-- ===== src/SystemConfig/Certs/Packed.antt =====
-- What tools/scripts/provisionDevice.py packs is what components/system_config/system_config.c loads.
use modbus_vault.Base.{
  ◌==◌, ℕ, suc, ◌+◌, ◌-◌, ◌%◌, ◌^◌, ◌<◌, ◌≡◌, sym, ap, ◌∙◌, true, ==_self, List, [], ◌∷◌, ◌++◌,
  append_assoc, arith, length, length-append, length-replicate, take, take-append, drop,
  drop-append, replicate,
}
use modbus_vault.Base.Words.{
  AreBytes, AreBytes-append, AreBytes-zeros, read16, read32, write16, write32, write32-bytes,
}
use modbus_vault.Crc.{crc16}
use modbus_vault.Crc.Detection.{crc16-lt}
use modbus_vault.Nvs.Layout.{read16-write16}
use modbus_vault.SystemConfig.Certs.{
  CertHeader, header_magic, header_of, crc_place, crc_fits, blob_header, struct_pack, payload,
  padded_payload, create_provisioning_blob,
}

-- The header that the tool writes.
abbrev pub packed_header : ℕ → ℕ → ℕ → CertHeader
packed_header a b c = record {
  magic = header_magic;
  cli_offset = 32;
  cli_length = a;
  key_offset = 32 + a;
  key_length = b;
  ca_offset = 32 + a + b;
  ca_length = c;
}

header_of-packed :
    (a b c : ℕ) (rest : List ℕ)
    → 32 + a + b + c < 2 ^ 32
    → header_of (blob_header a (32 + a) b (32 + a + b) c ++ rest) ≡ packed_header a b c
header_of-packed a b c rest h = λ i. record {
  magic = header_magic;
  cli_offset = 32;
  cli_length = first i;
  key_offset = second i;
  key_length = third i;
  ca_offset = fourth i;
  ca_length = fifth i;
}
  where
    image : List ℕ
    image = blob_header a (32 + a) b (32 + a + b) c ++ rest

    first : read32 (drop 8 image) ≡ a
    first = omega arith

    second : read32 (drop 12 image) ≡ 32 + a
    second = omega arith

    third : read32 (drop 16 image) ≡ b
    third = omega arith

    fourth : read32 (drop 20 image) ≡ 32 + a + b
    fourth = omega arith

    fifth : read32 (drop 24 image) ≡ c
    fifth = omega arith

-- The CRC stands right behind the bytes that the tool fills up.
crc_place-packed :
    (a b c : ℕ)
    → 64 + a + b + c < 2 ^ 32
    → let n = 32 + a + b + c in crc_place (packed_header a b c) ≡ n + (32 - (n + 2) % 32) % 32
unfolding crc_place
crc_place-packed a b c h = ground arith

-- Bytes with their CRC behind them, at the place that their header names.
crc_fits-at :
    (bytes rest : List ℕ)
    → AreBytes bytes
    → crc_place (header_of ((bytes ++ write16 (crc16 bytes)) ++ rest)) ≡ length bytes
    → crc_fits ((bytes ++ write16 (crc16 bytes)) ++ rest) ≡ true
unfolding crc_fits
crc_fits-at bytes rest good place =
    ap (λ k. crc16 (take k image) == read16 (drop k image)) place
    ∙ ap (λ xs. crc16 (take (length bytes) xs) == read16 (drop (length bytes) xs))
        (append_assoc bytes (write16 (crc16 bytes)) rest)
    ∙ ap (λ xs. crc16 xs == read16 (drop (length bytes) (bytes ++ stored)))
        (take-append bytes stored)
    ∙ ap (λ xs. crc16 bytes == read16 xs) (drop-append bytes stored)
    ∙ ap (λ w. crc16 bytes == w) (read16-write16 (crc16 bytes) rest (crc16-lt bytes good))
    ∙ ==_self (crc16 bytes)
  where
    image : List ℕ
    image = (bytes ++ write16 (crc16 bytes)) ++ rest

    stored : List ℕ
    stored = write16 (crc16 bytes) ++ rest

struct_pack-AreBytes : (ws : List ℕ) → AreBytes (struct_pack ws)
struct_pack-AreBytes [] = tt
struct_pack-AreBytes (w ∷ ws) =
    AreBytes-append (write32 w) (struct_pack ws) (write32-bytes w) (struct_pack-AreBytes ws)

blob_header-AreBytes : (a b c d e : ℕ) → AreBytes (blob_header a b c d e)
blob_header-AreBytes a b c d e =
    AreBytes-append (struct_pack (header_magic ∷ 32 ∷ a ∷ b ∷ c ∷ d ∷ e ∷ [])) (replicate 4 0)
      (struct_pack-AreBytes (header_magic ∷ 32 ∷ a ∷ b ∷ c ∷ d ∷ e ∷ [])) (AreBytes-zeros 4)

module _ (client key ca : List ℕ) where
  abbrev pub blob_size : ℕ
  blob_size = 32 + suc (length client) + suc (length key) + suc (length ca)

  length-payload : length (payload client key ca) ≡ blob_size
  unfolding payload
  length-payload = omega (
    arith,
    length-append (client ++ 0 ∷ []) ((key ++ 0 ∷ []) ++ (ca ++ 0 ∷ [])),
    length-append (key ++ 0 ∷ []) (ca ++ 0 ∷ []),
    length-append client (0 ∷ []),
    length-append key (0 ∷ []),
    length-append ca (0 ∷ []),
  )

  payload-AreBytes : AreBytes client → AreBytes key → AreBytes ca → AreBytes (payload client key ca)
  unfolding payload
  payload-AreBytes p q r =
      let a = length (client ++ 0 ∷ []) in
      let b = length (key ++ 0 ∷ []) in
      let c = length (ca ++ 0 ∷ []) in
      AreBytes-append (blob_header a (32 + a) b (32 + a + b) c)
        ((client ++ 0 ∷ []) ++ ((key ++ 0 ∷ []) ++ (ca ++ 0 ∷ [])))
        (blob_header-AreBytes a (32 + a) b (32 + a + b) c)
        (AreBytes-append (client ++ 0 ∷ []) ((key ++ 0 ∷ []) ++ (ca ++ 0 ∷ [])) (ended client p)
          (AreBytes-append (key ++ 0 ∷ []) (ca ++ 0 ∷ []) (ended key q) (ended ca r)))
    where
      ended : (xs : List ℕ) → AreBytes xs → AreBytes (xs ++ 0 ∷ [])
      ended xs p = AreBytes-append xs (0 ∷ []) p (omega arith, tt)

  length-padded :
      length (padded_payload (payload client key ca)) ≡ blob_size + (32 - (blob_size + 2) % 32) % 32
  unfolding padded_payload
  length-padded =
      length-append (payload client key ca)
        (replicate ((32 - (length (payload client key ca) + 2) % 32) % 32) 0)
      ∙ ap (λ k. length (payload client key ca) + k)
          (length-replicate {A = ℕ} ((32 - (length (payload client key ca) + 2) % 32) % 32) 0)
      ∙ ap (λ n. n + (32 - (n + 2) % 32) % 32) length-payload

  abbrev pub blob_header_of : CertHeader
  blob_header_of =
      packed_header (length (client ++ 0 ∷ [])) (length (key ++ 0 ∷ [])) (length (ca ++ 0 ∷ []))

  sizes :
      32 + length (client ++ 0 ∷ []) + length (key ++ 0 ∷ []) + length (ca ++ 0 ∷ []) ≡ blob_size
  sizes =
      omega (
        arith,
        length-append client (0 ∷ []),
        length-append key (0 ∷ []),
        length-append ca (0 ∷ []),
      )

  pub header_of-blob :
      (rest : List ℕ)
      → 64 + blob_size < 2 ^ 32
      → header_of (create_provisioning_blob client key ca ++ rest) ≡ blob_header_of
  unfolding create_provisioning_blob payload padded_payload
  header_of-blob rest small =
      let filled = (32 - (length (payload client key ca) + 2) % 32) % 32 in
      header_of-packed (length (client ++ 0 ∷ [])) (length (key ++ 0 ∷ [])) (length (ca ++ 0 ∷ []))
        (((((client ++ 0 ∷ []) ++ ((key ++ 0 ∷ []) ++ (ca ++ 0 ∷ []))) ++ replicate filled 0)
            ++ write16 (crc16 (padded_payload (payload client key ca))))
          ++ rest)
        (omega (arith, sizes))

  crc_place-blob :
      (rest : List ℕ)
      → 64 + blob_size < 2 ^ 32
      → crc_place (header_of (create_provisioning_blob client key ca ++ rest))
        ≡ length (padded_payload (payload client key ca))
  crc_place-blob rest small =
      ap crc_place (header_of-blob rest small)
      ∙ crc_place-packed (length (client ++ 0 ∷ [])) (length (key ++ 0 ∷ []))
          (length (ca ++ 0 ∷ [])) (omega (arith, sizes))
      ∙ ap (λ n. n + (32 - (n + 2) % 32) % 32) sizes
      ∙ sym length-padded

  -- What the tool packs fits in the place that it takes.
  pub crc_fits-blob :
      (rest : List ℕ)
      → AreBytes client
      → AreBytes key
      → AreBytes ca
      → 64 + blob_size < 2 ^ 32
      → crc_fits (create_provisioning_blob client key ca ++ rest) ≡ true
  unfolding create_provisioning_blob
  crc_fits-blob rest p q r small =
      crc_fits-at (padded_payload (payload client key ca)) rest
        (unfold padded_payload in
          AreBytes-append (payload client key ca)
            (replicate ((32 - (length (payload client key ca) + 2) % 32) % 32) 0)
            (payload-AreBytes p q r)
            (AreBytes-zeros ((32 - (length (payload client key ca) + 2) % 32) % 32)))
        (crc_place-blob rest small)
