-- ===== src/Nvs/Ready.antt =====
-- The defaults of components/nvs_manager/nvs_manager.c before its initialisation: however they are
-- set they are a configuration of the version.
use modbus_vault.Base.{
  ℕ, ◌+◌, ◌-◌, ◌≤◌, ◌≡◌, ◌⊎◌, inl, inr, Bool-cases, refl, sym, ap, subst, ◌∙◌, List, [], ◌∷◌,
  Option, none, some, arith, length, splice, replicate, ◌==◌, leb, length-splice, length-replicate,
  take-splice_before,
}
use modbus_vault.Base.Words.{
  read32, write16, write32, write16-bytes, write32-bytes, AreBytes-splice, AreBytes-zeros,
}
use modbus_vault.Nvs.{
  Manager, KeyMap, config_map, find_from, find_map, config_size, config_version, crc_offset,
  config_crc, store_value, boot,
}
use modbus_vault.Nvs.Layout.{check-with_crc, read32-take}
use modbus_vault.Nvs.Calls.{fits, set_default, default_found, take_defaults}
use modbus_vault.Nvs.Valid.{IsConfig, IsValid, IsValue, IsFound, fits-IsFound, store_value-IsConfig}

-- The entries of the map stand behind the version.
abbrev AllBehind : List KeyMap → Type 0
AllBehind [] = Unit {0}
AllBehind (entry ∷ rest) = (4 ≤ entry.offset) × AllBehind rest

abbrev IsBehind : Option (KeyMap × List ℕ) → Type 0
IsBehind none = Unit {0}
IsBehind (some (entry, bytes)) = 4 ≤ entry.offset

map-AllBehind : AllBehind config_map
map-AllBehind = (
  omega arith,
  (
    omega arith,
    (omega arith, (omega arith, (omega arith, (omega arith, (omega arith, (omega arith, tt)))))),
  ),
)

fits-IsBehind :
    (entries : List KeyMap) (key : ℕ) (value : Option (List ℕ))
    → AllBehind entries
    → IsBehind (fits (find_from entries key) value)
fits-IsBehind [] key value h = tt
fits-IsBehind (entry ∷ rest) key none h = elim (Bool-cases (entry.key == key)) [
  | inl same ↦ rw same tt
  | inr apart ↦ rw apart (fits-IsBehind rest key none h.1)
]
fits-IsBehind (entry ∷ rest) key (some bytes) h = elim (Bool-cases (entry.key == key)) [
  | inl same ↦ elim (Bool-cases (leb (length bytes) entry.size)) [
    | inl small ↦ rw (same, small) h.0
    | inr large ↦ rw (same, large) tt
  ]
  | inr apart ↦ rw apart (fits-IsBehind rest key (some bytes) h.1)
]

-- A manager that may be initialised: its defaults are a configuration of the version.
abbrev pub IsReady : Manager → Type 0
IsReady m =
    IsConfig m.app_config × IsConfig m.default_config × (read32 m.default_config ≡ config_version)

read32-store_value :
    (entry : KeyMap) (bytes config : List ℕ)
    → 4 ≤ entry.offset
    → read32 (store_value entry bytes config) ≡ read32 config
unfolding store_value
read32-store_value entry bytes config h =
    let zeros : List ℕ = replicate (entry.size - length bytes) 0 in
    let first : List ℕ = splice config entry.offset bytes in
    sym (read32-take (splice first (entry.offset + length bytes) zeros))
    ∙ ap read32 (take-splice_before first (entry.offset + length bytes) 4 zeros (omega arith))
    ∙ ap read32 (take-splice_before config entry.offset 4 bytes (omega arith))
    ∙ read32-take config

default_found-cases :
    (entry : KeyMap) (bytes : List ℕ) (m : Manager)
    → ((default_found (some (entry, bytes)) m).1 ≡ m)
      ⊎ ((default_found (some (entry, bytes)) m).1
          ≡ record m { default_config = store_value entry bytes m.default_config })
unfolding default_found
default_found-cases entry bytes m = ground arith

default_found-IsReady :
    (found : Option (KeyMap × List ℕ)) (m : Manager)
    → IsFound found
    → IsBehind found
    → IsReady m
    → IsReady (default_found found m).1
unfolding default_found
default_found-IsReady none m bytes behind h = h
default_found-IsReady (some (entry, value)) m bytes behind h =
    elim (default_found-cases entry value m) [
      | inl same ↦ subst IsReady (sym same) h
      | inr stored ↦ subst IsReady (sym stored) (
        h.0,
        store_value-IsConfig entry value m.default_config bytes h.1,
        read32-store_value entry value m.default_config behind ∙ h.2,
      )
    ]

-- The statics of the program, and what setting defaults makes of them.
pub data Configured : Manager → Type 0 where
  starts : (m : Manager) → m ≡ boot → Configured m
  sets :
      {m : Manager} (n : Manager) (key : ℕ) (value : Option (List ℕ))
      → Configured m
      → IsValue value
      → n ≡ (set_default key value m).1
      → Configured n

boot-IsReady : IsReady boot
unfolding boot
boot-IsReady = (
  (length-replicate {A = ℕ} config_size 0, AreBytes-zeros config_size),
  (
    length-splice (replicate config_size 0) 0 (write32 config_version)
        ∙ length-replicate {A = ℕ} config_size 0,
    AreBytes-splice (replicate config_size 0) 0 (write32 config_version)
        (AreBytes-zeros config_size) (write32-bytes config_version),
  ),
  refl,
)

pub Configured-IsReady : (m : Manager) → Configured m → IsReady m
unfolding set_default
Configured-IsReady m (starts _ eq) = subst IsReady (sym eq) boot-IsReady
Configured-IsReady n (sets {m} _ key value before bytes eq) = subst IsReady (sym eq) (
    default_found-IsReady (fits (find_map key) value) m (fits-IsFound (find_map key) value bytes)
      (fits-IsBehind config_map key value map-AllBehind) (Configured-IsReady m before))

-- With the defaults as its shadow.
pub take_defaults-IsValid : (m : Manager) → IsReady m → IsValid (take_defaults m)
unfolding take_defaults
take_defaults-IsValid m h = (
  h.0,
  (
    length-splice m.default_config crc_offset (write16 (config_crc m.default_config)) ∙ h.1.0,
    AreBytes-splice m.default_config crc_offset (write16 (config_crc m.default_config)) h.1.1
        (write16-bytes (config_crc m.default_config)),
  ),
  check-with_crc m.default_config h.1.0 h.1.1 h.2,
)
