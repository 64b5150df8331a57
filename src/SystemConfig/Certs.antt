-- ===== src/SystemConfig/Certs.antt =====
-- `system_config_load_mqtt_certs` of components/system_config/system_config.c and its reverse in
-- `system_config_reset`: the certificates and the key in a flash partition that is mapped into memory.
-- The partition and the mapping are ESP-IDF's. A pointer into the mapping is the offset in it.
pub mod Loaded
pub mod Unmapped
pub mod Packed
pub mod Tests
use modbus_vault.Base.{
  ℕ, zero, suc, ◌+◌, ◌-◌, ◌*◌, ◌%◌, Bool, true, false, not, List, [], ◌∷◌, ◌++◌, Option, none, some,
  if◌then◌else◌, ◌==◌, length, take, drop, replicate,
}
use modbus_vault.Base.Words.{u32, read16, read32, write16, write32}
use modbus_vault.Base.{
  EspErr, esp_ok, esp_err_invalid_state, esp_err_invalid_crc, esp_err_not_found, is_ok,
}
use modbus_vault.Crc.{crc16}

-- SYSTEM_CONFIG_MTLS_HEADER_MAGIC
abbrev pub header_magic : ℕ
header_magic = 0x43455254

-- `cert_header_t`
pub record CertHeader : Type 0 where
  pub magic : ℕ
  pub cli_offset : ℕ
  pub cli_length : ℕ
  pub key_offset : ℕ
  pub key_length : ℕ
  pub ca_offset : ℕ
  pub ca_length : ℕ

-- `header_ptr`, at the start of what is mapped.
abbrev pub header_of : List ℕ → CertHeader
header_of image = record {
  magic = read32 image;
  cli_offset = read32 (drop 4 image);
  cli_length = read32 (drop 8 image);
  key_offset = read32 (drop 12 image);
  key_length = read32 (drop 16 image);
  ca_offset = read32 (drop 20 image);
  ca_length = read32 (drop 24 image);
}

-- A buffer of the client's configuration: where it starts in the mapping, and its length.
pub record Slice : Type 0 where
  pub start : Option ℕ
  pub size : ℕ

abbrev pub no_slice : Slice
no_slice = record { start = none; size = 0 }

-- `certs_map_handle`, and the certificates and key in `global_config.mqtt`.
pub record MqttCerts : Type 0 where
  pub map_handle : ℕ
  pub certificate : Slice
  pub key : Slice
  pub ca : Slice

-- `esp_partition_find_first`, whether there is the partition; `esp_partition_mmap` with the handle
-- and the bytes that the mapping shows; and `esp_partition_munmap`.
pub record Mmu (W : Type 0) : Type 0 where
  pub found : W → Bool
  pub mmap : W → EspErr × ℕ × List ℕ × W
  pub munmap : ℕ → W → W

-- Where the CRC stands: behind what the header spans and the bytes that fill it up to 32, less the
-- two of the CRC.
unfoldable pub crc_place : CertHeader → ℕ
crc_place h =
    let unpadded = u32 (h.ca_offset + h.ca_length) in
    let padding = (32 - u32 (unpadded + 2) % 32) % 32 in u32 (unpadded + padding)

-- The checks on what is mapped. A read past the end of the mapping is a read of zeros here.
unfoldable pub crc_fits : List ℕ → Bool
unfolding crc_place
crc_fits image =
    let offset = crc_place (header_of image) in
    crc16 (take offset image) == read16 (drop offset image)

abbrev pub assigned : CertHeader → MqttCerts → MqttCerts
assigned h c = record c {
  certificate = record { start = some h.cli_offset; size = h.cli_length };
  key = record { start = some h.key_offset; size = h.key_length };
  ca = record { start = some h.ca_offset; size = h.ca_length };
}

module _ {W : Type 0} (mmu : Mmu W) where
  -- What follows the mapping.
  unfoldable pub check : ℕ → List ℕ → MqttCerts → W → EspErr × MqttCerts × W
  unfolding crc_fits
  check handle image c w =
      if (header_of image).magic == header_magic
      then (if crc_fits image
          then (esp_ok, assigned (header_of image) (record c { map_handle = handle }), w)
          else (esp_err_invalid_crc, record c { map_handle = handle }, w))
      else (esp_err_invalid_state, record c { map_handle = 0 }, mmu.munmap handle w)

  unfoldable pub mapped : MqttCerts → EspErr × ℕ × List ℕ × W → EspErr × MqttCerts × W
  unfolding check
  mapped c (e, handle, image, w) = if is_ok e then check handle image c w else (e, c, w)

  -- `system_config_load_mqtt_certs`
  unfoldable pub load_mqtt_certs : MqttCerts → W → EspErr × MqttCerts × W
  unfolding mapped
  load_mqtt_certs c w =
      if c.map_handle == 0
      then (if mmu.found w then mapped c (mmu.mmap w) else (esp_err_not_found, c, w))
      else (esp_err_invalid_state, c, w)

  -- The part of `system_config_reset` on the certificates.
  unfoldable pub reset_certs : MqttCerts → W → MqttCerts × W
  reset_certs c w = if c.map_handle == 0 then (c, w) else (
    record { map_handle = 0; certificate = no_slice; key = no_slice; ca = no_slice },
    mmu.munmap c.map_handle w,
  )

-- `create_provisioning_blob` of tools/scripts/provisionDevice.py, which makes the partition, for the
-- stripped contents of the three files. Its `crc16_modbus` is the loop of `crc16`.
-- `struct.pack` on 32-bit words
abbrev pub struct_pack : List ℕ → List ℕ
struct_pack [] = []
struct_pack (w ∷ ws) = write32 w ++ struct_pack ws

abbrev pub blob_header : ℕ → ℕ → ℕ → ℕ → ℕ → List ℕ
blob_header client_size offset_key key_size offset_ca ca_size =
    struct_pack (header_magic ∷ 32 ∷ client_size ∷ offset_key ∷ key_size ∷ offset_ca ∷ ca_size ∷ [])
    ++ replicate 4 0

unfoldable pub payload : List ℕ → List ℕ → List ℕ → List ℕ
payload client key ca =
    let client_data = client ++ 0 ∷ [] in
    let key_data = key ++ 0 ∷ [] in
    let ca_data = ca ++ 0 ∷ [] in
    let offset_key = 32 + length client_data in
    let offset_ca = offset_key + length key_data in
    blob_header (length client_data) offset_key (length key_data) offset_ca (length ca_data)
    ++ (client_data ++ (key_data ++ ca_data))

unfoldable pub padded_payload : List ℕ → List ℕ
padded_payload bytes = bytes ++ replicate ((32 - (length bytes + 2) % 32) % 32) 0

unfoldable pub create_provisioning_blob : List ℕ → List ℕ → List ℕ → List ℕ
unfolding payload padded_payload
create_provisioning_blob client key ca =
    let bytes = padded_payload (payload client key ca) in bytes ++ write16 (crc16 bytes)
