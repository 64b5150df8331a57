-- ===== src/Nvs/Calls.antt =====
-- The calls of components/nvs_manager/nvs_manager.c around saving and loading: the timer's
-- callback, access by key, initialisation and its reverse.
use modbus_vault.Base.{
  ℕ, Bool, true, false, not, ◌&&◌, List, [], ◌∷◌, Option, none, some, if◌then◌else◌, leb, ◌==◌,
  length, take, drop, splice, replicate,
}
use modbus_vault.Base.Words.{write16}
use modbus_vault.Base.{
  EspErr, esp_ok, esp_err_no_mem, esp_err_invalid_arg, esp_err_invalid_state, esp_err_timeout,
  esp_err_nvs_no_free_pages, esp_err_nvs_new_version_found, is_ok,
}
use modbus_vault.Nvs.{
  Ops, Manager, State, KeyMap, find_map, store_value, config_crc, crc_offset, config_size,
  save_config, load_config,
}

-- The entry of a key and a value that fits it; `none` is a NULL `value_void_ptr`.
abbrev pub fits : Option KeyMap → Option (List ℕ) → Option (KeyMap × List ℕ)
fits none value = none
fits (some entry) none = none
fits (some entry) (some value) = if leb (length value) entry.size then some (entry, value) else none

unfoldable pub default_found : Option (KeyMap × List ℕ) → Manager → EspErr × Manager
default_found none m = (esp_err_invalid_arg, m)
default_found (some (entry, bytes)) m =
    if m.has_lock
    then (esp_err_invalid_state, m)
    else (esp_ok, record m { default_config = store_value entry bytes m.default_config })

-- `nvs_manager_set_default`
unfoldable pub set_default : ℕ → Option (List ℕ) → Manager → EspErr × Manager
unfolding default_found
set_default key value m = default_found (fits (find_map key) value) m

-- `write_to_cfg_struct_helper` on the configuration, and the dirty flag.
unfoldable pub write_found : Bool → Option (KeyMap × List ℕ) → Manager → EspErr × Manager
write_found taken none m = (esp_err_invalid_arg, m)
write_found taken (some (entry, bytes)) m =
    if m.has_lock
    then (if taken
        then (
          esp_ok,
          record m { app_config = store_value entry bytes m.app_config; is_dirty = true },
        )
        else (esp_err_timeout, m))
    else (esp_err_invalid_arg, m)

-- `nvs_manager_write_cfg`
unfoldable pub write_cfg : Bool → ℕ → Option (List ℕ) → Manager → EspErr × Manager
unfolding write_found
write_cfg taken key value m = write_found taken (fits (find_map key) value) m

unfoldable pub read_found : Bool → Option KeyMap → Bool → Manager → EspErr × Option (List ℕ)
read_found taken none given m = (esp_err_invalid_arg, none)
read_found taken (some entry) given m =
    if given && m.has_lock
    then (if taken
        then (esp_ok, some (take entry.size (drop entry.offset m.app_config)))
        else (esp_err_timeout, none))
    else (esp_err_invalid_arg, none)

-- `nvs_manager_read_cfg`: the error and what it copies, for a destination that is given or NULL.
unfoldable pub read_cfg : Bool → ℕ → Bool → Manager → EspErr × Option (List ℕ)
unfolding read_found
read_cfg taken key given m = read_found taken (find_map key) given m

-- `memcmp (...) != 0`
abbrev pub differs : List ℕ → List ℕ → Bool
differs [] [] = false
differs [] (y ∷ ys) = true
differs (x ∷ xs) [] = true
differs (x ∷ xs) (y ∷ ys) = if x == y then differs xs ys else true

-- The statics zeroed, `default_config` kept.
abbrev pub zeroed : Manager → Manager
zeroed m = record {
  has_ops = false;
  app_config = replicate config_size 0;
  shadow_app_config = replicate config_size 0;
  handle = 0;
  has_timer = false;
  is_dirty = false;
  has_lock = false;
  default_config = m.default_config;
}

-- The shadow filled with the defaults, under their CRC.
unfoldable pub take_defaults : Manager → Manager
unfolding config_crc
take_defaults m =
    let defaults = splice m.default_config crc_offset (write16 (config_crc m.default_config)) in
    record m { default_config = defaults; shadow_app_config = defaults }

abbrev pub wants_reset : EspErr → Bool
wants_reset esp_err_nvs_no_free_pages = true
wants_reset esp_err_nvs_new_version_found = true
wants_reset _ = false

module _ {F : Type 0} (ops : Ops F) where
  -- The test and the save of the timer's callback, for whether the lock is taken by each.
  unfoldable pub save_changes : Bool → Bool → State F → State F
  save_changes compare_taken save_taken s =
      if s.manager.has_lock
        && compare_taken
        && differs s.manager.app_config s.manager.shadow_app_config
      then (save_config ops save_taken s).1
      else s

  abbrev pub clear_dirty : State F → State F
  clear_dirty s = record s { manager = record s.manager { is_dirty = false } }

  -- `check_dirty_commit_callback`
  unfoldable pub check_dirty_commit : Bool → Bool → State F → State F
  check_dirty_commit compare_taken save_taken s =
      if s.manager.is_dirty then clear_dirty (save_changes compare_taken save_taken s) else s

  closed : State F → State F
  closed s =
      if not (s.manager.handle == 0) && ops.has_close
      then record s { flash = ops.close s.manager.handle s.flash }
      else s

  released : State F → State F
  released s = if ops.has_deinit then record s { flash = ops.deinit s.flash } else s

  -- `nvs_manager_deinit`
  unfoldable pub deinit : Bool → State F → State F
  unfolding closed released
  deinit taken s =
      let saved = (save_config ops taken s).1 in
      let down = if saved.manager.has_ops then released (closed saved) else saved in
      record { manager = zeroed down.manager; flash = down.flash }

  unfoldable pub opened : State F → EspErr × ℕ × F → EspErr × State F
  opened s (e, handle, f) =
      if is_ok e
      then (
        esp_ok,
        (load_config ops true
            (record { manager = record s.manager { handle = handle }; flash = f })).1,
      )
      else (e, record s { flash = f })

  -- Opening and loading, where the init of the flash succeeded.
  unfoldable pub open_and_load : EspErr → State F → EspErr × State F
  unfolding opened
  open_and_load e s = if is_ok e then opened s (ops.open_storage s.flash) else (e, s)

  unfoldable pub reset_flash : EspErr × State F → EspErr × State F
  reset_flash (e, s) =
      if wants_reset e
      then (let (erased, f) = ops.erase s.flash in
          if is_ok erased
          then (let (again, f') = ops.init f in (again, record s { flash = f' }))
          else (erased, record s { flash = f }))
      else (e, s)

  -- `create` and `start` are what the two calls on the timer return.
  unfoldable pub start_timer : EspErr → EspErr → EspErr × State F → EspErr × State F
  start_timer create start (e, s) =
      if is_ok e
      then (if is_ok create
          then (start, record s { manager = record s.manager { has_timer = true } })
          else (create, s))
      else (e, s)

  unfoldable pub give_up : EspErr × State F → EspErr × State F
  give_up (e, s) = if is_ok e then (e, s) else (e, deinit true s)

  -- `nvs_manager_init`, for an `ops_ptr` that is given or NULL, and a mutex that is created or not.
  unfoldable pub init : Bool → Bool → EspErr → EspErr → State F → EspErr × State F
  unfolding open_and_load reset_flash start_timer give_up
  init given created create start s =
      if given && ops.has_init && ops.has_erase && ops.has_open
      then (if created
          then (let (e, f) = ops.init s.flash in
              let m = take_defaults (record s.manager { has_lock = true; has_ops = true }) in
              give_up (
                start_timer create start
                  (reset_flash (open_and_load e (record { manager = m; flash = f })))))
          else give_up
              (esp_err_no_mem, record s { manager = record s.manager { has_lock = false } }))
      else give_up (esp_err_invalid_arg, s)
