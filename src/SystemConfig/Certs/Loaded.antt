-- ===== src/SystemConfig/Certs/Loaded.antt =====
-- What components/system_config/system_config.c makes of the partition that
-- tools/scripts/provisionDevice.py packs, and that it takes back each mapping that it makes.
use modbus_vault.Base.{
  ℕ, ◌+◌, ◌-◌, ◌%◌, ◌^◌, ◌<◌, ◌≡◌, refl, ap, ◌∙◌, true, if_true, List, [], ◌∷◌, ◌++◌, append_assoc,
  none, some, length, take, take-append, drop, drop-append, drop-add, replicate, ◌==◌,
}
use modbus_vault.Base.{esp_ok}
use modbus_vault.Base.Words.{AreBytes, write16}
use modbus_vault.Crc.{crc16}
use modbus_vault.SystemConfig.Certs.{
  header_magic, header_of, crc_fits, payload, padded_payload, create_provisioning_blob, MqttCerts,
  Slice, Mmu, assigned, check, mapped, load_mqtt_certs,
}
use modbus_vault.SystemConfig.Certs.Packed.{packed_header, blob_size, header_of-blob, crc_fits-blob}

-- The bytes that a buffer of the client's configuration shows.
abbrev pub shown : List ℕ → Slice → List ℕ
shown image s = elim s.start [ none ↦ [] | some n ↦ take s.size (drop n image) ]

regroup :
    (c k a z x rest : List ℕ)
    → ((((c ++ (k ++ a)) ++ z) ++ x) ++ rest) ≡ c ++ (k ++ (a ++ (z ++ (x ++ rest))))
regroup c k a z x rest = simp append_assoc

-- A piece behind others.
drop-pieces :
    (n : ℕ) (image xs ys : List ℕ) → drop n image ≡ xs ++ ys → drop (n + length xs) image ≡ ys
drop-pieces n image xs ys h =
    drop-add n (length xs) image ∙ ap (drop (length xs)) h ∙ drop-append xs ys

module _ (client key ca rest : List ℕ) where
  abbrev pub blob_image : List ℕ
  blob_image = create_provisioning_blob client key ca ++ rest

  abbrev behind : List ℕ
  behind =
      replicate ((32 - (length (payload client key ca) + 2) % 32) % 32) 0
      ++ (write16 (crc16 (padded_payload (payload client key ca))) ++ rest)

  drop-header :
      drop 32 (create_provisioning_blob client key ca ++ rest)
      ≡ (client ++ 0 ∷ []) ++ ((key ++ 0 ∷ []) ++ ((ca ++ 0 ∷ []) ++ behind))
  unfolding create_provisioning_blob payload padded_payload
  drop-header =
      regroup (client ++ 0 ∷ []) (key ++ 0 ∷ []) (ca ++ 0 ∷ [])
        (replicate ((32 - (length (payload client key ca) + 2) % 32) % 32) 0)
        (write16 (crc16 (padded_payload (payload client key ca)))) rest

  abbrev pub Shows : MqttCerts → Type 0
  Shows c =
      (shown blob_image c.certificate ≡ client ++ 0 ∷ [])
      × (shown blob_image c.key ≡ key ++ 0 ∷ [])
      × (shown blob_image c.ca ≡ ca ++ 0 ∷ [])

  Shows-assigned :
      (c : MqttCerts)
      → Shows (
          assigned
            (packed_header
              (length (client ++ 0 ∷ []))
              (length (key ++ 0 ∷ []))
              (length (ca ++ 0 ∷ [])))
            c)
  Shows-assigned c =
      let first = drop-header in
      let second =
        drop-pieces 32 blob_image (client ++ 0 ∷ []) ((key ++ 0 ∷ []) ++ ((ca ++ 0 ∷ []) ++ behind))
          first in
      let third =
        drop-pieces (32 + length (client ++ 0 ∷ [])) blob_image (key ++ 0 ∷ [])
          ((ca ++ 0 ∷ []) ++ behind) second in
      (
        ap (take (length (client ++ 0 ∷ []))) first
            ∙ take-append (client ++ 0 ∷ []) ((key ++ 0 ∷ []) ++ ((ca ++ 0 ∷ []) ++ behind)),
        ap (take (length (key ++ 0 ∷ []))) second
            ∙ take-append (key ++ 0 ∷ []) ((ca ++ 0 ∷ []) ++ behind),
        ap (take (length (ca ++ 0 ∷ []))) third ∙ take-append (ca ++ 0 ∷ []) behind,
      )

module _ {W : Type 0} (mmu : Mmu W) where
  check-fits :
      (handle : ℕ) (image : List ℕ) (c : MqttCerts) (w : W)
      → (header_of image).magic ≡ header_magic
      → crc_fits image ≡ true
      → check mmu handle image c w
        ≡ (esp_ok, assigned (header_of image) (record c { map_handle = handle }), w)
  unfolding check
  check-fits handle image c w magic fits =
      if_true ((header_of image).magic == header_magic) _ _ (ap (λ m. m == header_magic) magic)
      ∙ if_true (crc_fits image) _ _ fits

  load-maps :
      (handle : ℕ) (image : List ℕ) (c : MqttCerts) (w w' : W)
      → c.map_handle ≡ 0
      → mmu.found w ≡ true
      → mmu.mmap w ≡ (esp_ok, handle, image, w')
      → load_mqtt_certs mmu c w ≡ check mmu handle image c w'
  unfolding load_mqtt_certs mapped
  load-maps handle image c w w' unmapped there maps =
      if_true (c.map_handle == 0) _ _ (ap (λ n. n == 0) unmapped)
      ∙ if_true (mmu.found w) _ _ there
      ∙ ap (mapped mmu c) maps

  -- A partition that the tool has packed and that is found and mapped, is loaded: the client's
  -- configuration shows the certificate, the key and the certificate of the broker, each with the
  -- zero behind it that the tool adds.
  pub load_mqtt_certs-blob :
      (client key ca rest : List ℕ) (c : MqttCerts) (w w' : W) (handle : ℕ)
      → AreBytes client
      → AreBytes key
      → AreBytes ca
      → 64 + blob_size client key ca < 2 ^ 32
      → c.map_handle ≡ 0
      → mmu.found w ≡ true
      → mmu.mmap w ≡ (esp_ok, handle, create_provisioning_blob client key ca ++ rest, w')
      → let r = load_mqtt_certs mmu c w in
        (r.0 ≡ esp_ok) × (r.1.map_handle ≡ handle) × Shows client key ca rest r.1
  load_mqtt_certs-blob client key ca rest c w w' handle p q r small unmapped there maps =
      let image' = create_provisioning_blob client key ca ++ rest in
      let c' : MqttCerts = record c { map_handle = handle } in
      let head = header_of-blob client key ca rest small in
      let loaded =
        load-maps handle image' c w w' unmapped there maps
        ∙ check-fits handle image' c w' (ap (λ h. h.magic) head)
            (crc_fits-blob client key ca rest p q r small)
        ∙ ap (λ h. (esp_ok, assigned h c', w')) head in
      let shows = Shows-assigned client key ca rest c' in rw loaded (refl, refl, shows)
