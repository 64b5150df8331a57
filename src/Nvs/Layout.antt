-- ===== src/Nvs/Layout.antt =====
-- The bytes of the configuration of components/nvs_manager/nvs_manager.c: what a sealed one holds,
-- and where the values stand.
use modbus_vault.Base.{
  ℕ, ◌+◌, ◌^◌, ◌<◌, ◌≡◌, refl, sym, ap, ◌∙◌, ==_self, List, [], ◌∷◌, ◌++◌, arith, length, take,
  drop, splice, length-splice, take-splice, take-splice_before, drop-splice,
}
use modbus_vault.Base.Words.{
  AreBytes, AreBytes-take, AreBytes-splice, write16-bytes, write32-bytes, read16, read32, write16,
  write32,
}
use modbus_vault.Base.{esp_ok}
use modbus_vault.Crc.{crc16}
use modbus_vault.Crc.Detection.{crc16-lt}
use modbus_vault.Nvs.{config_size, crc_offset, config_version, config_crc, seal, check}

pub read32-take : (xs : List ℕ) → read32 (take 4 xs) ≡ read32 xs
read32-take [] = refl
read32-take (a ∷ []) = refl
read32-take (a ∷ b ∷ []) = refl
read32-take (a ∷ b ∷ c ∷ []) = refl
read32-take (a ∷ b ∷ c ∷ d ∷ rest) = refl

pub read16-write16 : (w : ℕ) (rest : List ℕ) → w < 2 ^ 16 → read16 (write16 w ++ rest) ≡ w
read16-write16 w rest h = omega arith

check_passes :
    (config : List ℕ)
    → read32 config ≡ config_version
    → read16 (drop crc_offset config) ≡ config_crc config
    → check config ≡ esp_ok
unfolding check
check_passes config version crc = rw (version, crc, ==_self (crc16 (take crc_offset config))) refl

abbrev with_crc : List ℕ → ℕ → List ℕ
with_crc config w = splice config crc_offset (write16 w)

-- A configuration of the version with its CRC written passes the checks.
pub check-with_crc :
    (config : List ℕ)
    → length config ≡ config_size
    → AreBytes config
    → read32 config ≡ config_version
    → check (with_crc config (config_crc config)) ≡ esp_ok
unfolding config_crc
check-with_crc config full bytes versioned =
    let crc = crc16 (take crc_offset config) in
    check_passes (with_crc config crc) (version crc) (
      stored crc (crc16-lt (take crc_offset config) (AreBytes-take crc_offset config bytes))
      ∙ sym (covered crc))
  where
    version : (w : ℕ) → read32 (with_crc config w) ≡ config_version
    version w =
        sym (read32-take (with_crc config w))
        ∙ ap read32 (take-splice_before config crc_offset 4 (write16 w) (omega arith))
        ∙ read32-take config
        ∙ versioned

    covered : (w : ℕ) → crc16 (take crc_offset (with_crc config w)) ≡ crc16 (take crc_offset config)
    covered w = ap crc16 (take-splice_before config crc_offset crc_offset (write16 w) (omega arith))

    stored : (w : ℕ) → w < 2 ^ 16 → read16 (drop crc_offset (with_crc config w)) ≡ w
    stored w h =
        ap read16 (drop-splice config crc_offset (write16 w) (omega arith))
        ∙ read16-write16 w (drop (crc_offset + 2) config) h

read32-versioned :
    (config : List ℕ)
    → length config ≡ config_size
    → read32 (splice config 0 (write32 config_version)) ≡ config_version
read32-versioned config full =
    sym (read32-take (splice config 0 (write32 config_version)))
    ∙ ap read32 (take-splice config 0 (write32 config_version) (omega arith))

pub length-seal : (config : List ℕ) → length (seal config) ≡ length config
unfolding seal
length-seal config =
    let versioned = splice config 0 (write32 config_version) in
    length-splice versioned crc_offset (write16 (config_crc versioned))
    ∙ length-splice config 0 (write32 config_version)

-- What is saved passes the checks of a load.
pub check-seal :
    (config : List ℕ) → length config ≡ config_size → AreBytes config → check (seal config) ≡ esp_ok
unfolding seal
check-seal config full bytes =
    check-with_crc (splice config 0 (write32 config_version))
      (length-splice config 0 (write32 config_version) ∙ full)
      (AreBytes-splice config 0 (write32 config_version) bytes (write32-bytes config_version))
      (read32-versioned config full)

pub seal-AreBytes : (config : List ℕ) → AreBytes config → AreBytes (seal config)
unfolding seal
seal-AreBytes config bytes =
    let versioned = splice config 0 (write32 config_version) in
    AreBytes-splice versioned crc_offset (write16 (config_crc versioned))
      (AreBytes-splice config 0 (write32 config_version) bytes (write32-bytes config_version))
      (write16-bytes (config_crc versioned))
