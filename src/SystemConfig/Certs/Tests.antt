-- ===== src/SystemConfig/Certs/Tests.antt =====
-- A partition that the tool has packed, and one whose mapping is counted.
use modbus_vault.Base.{ℕ, ◌≡◌, refl, true, List, [], ◌∷◌, ◌++◌, arith, length, replicate, splice}
use modbus_vault.Base.{esp_ok, esp_err_invalid_crc}
use modbus_vault.Crc.{crc16}
use modbus_vault.SystemConfig.Certs.{
  MqttCerts, Mmu, no_slice, create_provisioning_blob, payload, padded_payload, load_mqtt_certs,
  mapped, check, crc_fits, crc_place,
}
use modbus_vault.SystemConfig.Certs.Loaded.{Shows, load_mqtt_certs-blob}
use modbus_vault.SystemConfig.Certs.Unmapped.{IsMmu}

abbrev client : List ℕ
client = 45 ∷ 45 ∷ []

abbrev key : List ℕ
key = 7 ∷ 8 ∷ 9 ∷ []

abbrev ca : List ℕ
ca = 1 ∷ []

-- An erased partition behind what was packed.
abbrev erased : List ℕ
erased = replicate 4 255

-- The world is the handles that are mapped; each mapping has the handle 5.
abbrev pub partition : List ℕ → Mmu (List ℕ)
partition image = record {
  found = λ w. true;
  mmap = λ w. (esp_ok, 5, image, 5 ∷ w);
  munmap = λ handle w. elim w [ [] ↦ [] | h ∷ rest ↦ rest ];
}

abbrev blank : MqttCerts
blank = record { map_handle = 0; certificate = no_slice; key = no_slice; ca = no_slice }

blob_aligned : length (create_provisioning_blob client key ca) ≡ 64
unfolding create_provisioning_blob payload padded_payload
blob_aligned = refl

abbrev pub damaged : List ℕ
damaged = splice (create_provisioning_blob client key ca) 40 (77 ∷ [])

-- What does not fit its CRC stays mapped until the reset.
damaged_stays :
    load_mqtt_certs (partition damaged) blank []
    ≡ (esp_err_invalid_crc, record blank { map_handle = 5 }, 5 ∷ [])
unfolding create_provisioning_blob payload padded_payload load_mqtt_certs mapped check crc_fits
    crc_place crc16
damaged_stays = refl

load_mqtt_certs-blob_example :
    let r =
      load_mqtt_certs (partition (create_provisioning_blob client key ca ++ erased)) blank [] in
    (r.0 ≡ esp_ok) × (r.1.map_handle ≡ 5) × Shows client key ca erased r.1
load_mqtt_certs-blob_example =
    load_mqtt_certs-blob (partition (create_provisioning_blob client key ca ++ erased)) client key
      ca erased blank [] (5 ∷ []) 5 (omega arith, (omega arith, tt))
      (omega arith, (omega arith, (omega arith, tt))) (omega arith, tt) (omega arith) refl refl refl

unfoldable pub partition-IsMmu : (image : List ℕ) → IsMmu (partition image)
partition-IsMmu image = record {
  mappings = λ w. w;
  maps = λ w h. ((λ e. absurd (omega (arith, e))), refl);
  maps_not = λ w h. absurd (cc);
  unmaps = λ w handle rest h. rw h refl;
}
