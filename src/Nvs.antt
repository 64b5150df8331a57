-- ===== src/Nvs.antt =====
-- components/nvs_manager: the settings of the program as one blob in NVS, with a version and a CRC.
-- The hooks on NVS are those of `nvs_manager_ops_t`, over an abstract flash. A lock that a call may
-- wait for is taken in time or not.
pub mod Calls
pub mod Layout
pub mod Saved
pub mod Valid
pub mod Access
pub mod Ready
pub mod Start
pub mod Places
pub mod Lost
pub mod Tests
use modbus_vault.Base.{
  ℕ, zero, suc, ◌+◌, ◌-◌, Bool, true, false, not, ◌&&◌, List, [], ◌∷◌, ◌++◌, Option, none, some,
  if◌then◌else◌, ltb, leb, ◌==◌, length, take, drop, splice, replicate,
}
use modbus_vault.Base.Words.{read16, read32, write16, write32}
use modbus_vault.Base.{
  EspErr, esp_ok, esp_err_invalid_arg, esp_err_timeout, esp_err_invalid_version,
  esp_err_invalid_crc, is_ok,
}
use modbus_vault.Crc.{crc16}

-- An `app_config_t` is the list of its 372 bytes; the CRC stands at 368, two bytes of padding behind
-- it.
abbrev pub config_size : ℕ
config_size = 372

abbrev pub crc_offset : ℕ
crc_offset = 368

-- `NVS_MANAGER_CONFIG_VERSION`
abbrev pub config_version : ℕ
config_version = 1

-- `key_map_t`; a key of `nvs_keys_t` is its number.
pub record KeyMap : Type 0 where
  pub key : ℕ
  pub offset : ℕ
  pub size : ℕ

abbrev pub config_map : List KeyMap
config_map =
    record { key = 0; offset = 4; size = 32 }
    ∷ record { key = 1; offset = 36; size = 64 }
    ∷ record { key = 2; offset = 100; size = 128 }
    ∷ record { key = 3; offset = 228; size = 64 }
    ∷ record { key = 4; offset = 292; size = 64 }
    ∷ record { key = 5; offset = 356; size = 4 }
    ∷ record { key = 6; offset = 360; size = 4 }
    ∷ record { key = 7; offset = 364; size = 4 }
    ∷ []

-- `find_map_helper` from an entry of the map on
abbrev pub find_from : List KeyMap → ℕ → Option KeyMap
find_from [] key = none
find_from (entry ∷ rest) key = if entry.key == key then some entry else find_from rest key

abbrev pub find_map : ℕ → Option KeyMap
find_map key = find_from config_map key

-- The CRC over what stands before it.
unfoldable pub config_crc : List ℕ → ℕ
config_crc config = crc16 (take crc_offset config)

-- The configuration with the version and the CRC that `save_config_internal` gives it.
unfoldable pub seal : List ℕ → List ℕ
unfolding config_crc
seal config =
    let versioned = splice config 0 (write32 config_version) in
    splice versioned crc_offset (write16 (config_crc versioned))

-- The checks of `load_config_internal` on what was read.
unfoldable pub check : List ℕ → EspErr
unfolding config_crc
check config =
    if read32 config == config_version
    then (if read16 (drop crc_offset config) == config_crc config
        then esp_ok
        else esp_err_invalid_crc)
    else esp_err_invalid_version

-- The copy of a value to its place, the rest of the place cleared.
unfoldable pub store_value : KeyMap → List ℕ → List ℕ → List ℕ
store_value entry value config =
    splice (splice config entry.offset value) (entry.offset + length value)
      (replicate (entry.size - length value) 0)

-- `nvs_manager_ops_t`: which hooks there are, and what they do to the flash.
pub record Ops (F : Type 0) : Type 0 where
  pub has_init : Bool
  pub has_open : Bool
  pub has_read : Bool
  pub has_write : Bool
  pub has_erase : Bool
  pub has_commit : Bool
  pub has_close : Bool
  pub has_deinit : Bool
  pub init : F → EspErr × F
  pub open_storage : F → EspErr × ℕ × F
  pub read : ℕ → List ℕ → F → EspErr × List ℕ × F
  pub write : ℕ → List ℕ → F → EspErr × F
  pub erase : F → EspErr × F
  pub commit : ℕ → F → EspErr × F
  pub close : ℕ → F → F
  pub deinit : F → F

-- `nvs_instance` with the other statics of the file, `config_lock` and `default_config`.
pub record Manager : Type 0 where
  pub has_ops : Bool
  pub app_config : List ℕ
  pub shadow_app_config : List ℕ
  pub handle : ℕ
  pub has_timer : Bool
  pub is_dirty : Bool
  pub has_lock : Bool
  pub default_config : List ℕ

pub record State (F : Type 0) : Type 0 where
  pub manager : Manager
  pub flash : F

-- The statics as the program starts with them.
unfoldable pub boot : Manager
boot = record {
  has_ops = false;
  app_config = replicate config_size 0;
  shadow_app_config = replicate config_size 0;
  handle = 0;
  has_timer = false;
  is_dirty = false;
  has_lock = false;
  default_config = splice (replicate config_size 0) 0 (write32 config_version);
}

module _ {F : Type 0} (ops : Ops F) where
  abbrev pub can_save : Manager → Bool
  can_save m = not (m.handle == 0) && m.has_ops && ops.has_write && ops.has_commit && m.has_lock

  -- After the commit.
  pub committed : Manager → EspErr × F → EspErr × State F
  committed m (e, f) =
      if is_ok e
      then (
        e,
        record {
          manager = record m { is_dirty = false; shadow_app_config = m.app_config };
          flash = f;
        },
      )
      else (e, record { manager = m; flash = f })

  -- After the write.
  pub written : Manager → EspErr × F → EspErr × State F
  unfolding committed
  written m (e, f) =
      if is_ok e
      then committed m (ops.commit m.handle f)
      else (e, record { manager = m; flash = f })

  -- `save_config_internal`, which is also `nvs_manager_flush_cfg`
  unfoldable pub save_config : Bool → State F → EspErr × State F
  unfolding written
  save_config taken s =
      if can_save s.manager
      then (if taken
          then (let sealed = seal s.manager.app_config in
              written (record s.manager { app_config = sealed })
                (ops.write s.manager.handle sealed s.flash))
          else (esp_err_timeout, s))
      else (esp_err_invalid_arg, s)

  abbrev pub can_load : Manager → Bool
  can_load m = not (m.handle == 0) && m.has_ops && ops.has_read && m.has_lock

  -- What was read becomes the shadow if it is in order, and is replaced by the shadow otherwise.
  pub settle : EspErr → State F → EspErr × State F
  settle e s =
      let m = s.manager in
      if is_ok e
      then (e, record s { manager = record m { shadow_app_config = m.app_config } })
      else (e, record s { manager = record m { app_config = m.shadow_app_config } })

  pub loaded : Manager → EspErr × List ℕ × F → EspErr × State F
  unfolding settle
  loaded m (e, config, f) =
      settle (if is_ok e then check config else e)
        (record { manager = record m { app_config = config; is_dirty = false }; flash = f })

  -- `load_config_internal`
  unfoldable pub load_config : Bool → State F → EspErr × State F
  unfolding loaded settle
  load_config taken s =
      let m = s.manager in
      if can_load m
      then (if taken
          then loaded m (ops.read m.handle m.app_config s.flash)
          else settle esp_err_timeout s)
      else settle esp_err_invalid_arg s
