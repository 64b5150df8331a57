-- ===== src/SystemConfig.antt =====
-- components/system_config/system_config.c: the settings of the program, put together from the build,
-- from NVS and from a partition with certificates, and the logger's parameters, which a timer saves.
-- A setting of the build is a parameter, and so is ESP-IDF. For each call of nvs_manager that waits
-- for its lock an argument says whether it was taken.
pub mod Certs
pub mod Defaults
pub mod Kept
pub mod Timer
pub mod Setup
pub mod Provisioner
pub mod Strings
pub mod Credentials
pub mod Saved
pub mod LongSsid
mod Tests
use modbus_vault.Base.{
  ℕ, zero, suc, Bool, true, false, not, ◌&&◌, List, [], ◌∷◌, ◌++◌, Option, none, some,
  if◌then◌else◌, ◌==◌, get_or,
}
use modbus_vault.Base.Words.{read32, write32}
use modbus_vault.Base.{EspErr, esp_ok, is_ok}
use modbus_vault.Blackbox.{Parameters, default_parameters}
use modbus_vault.Nvs.{Manager}
use modbus_vault.Nvs.Calls.{set_default, write_cfg, read_cfg}
use modbus_vault.SystemConfig.Certs.{MqttCerts, Mmu, load_mqtt_certs, reset_certs}

-- `nvs_keys_t`
abbrev pub key_wifi_ssid : ℕ
key_wifi_ssid = 0

abbrev pub key_wifi_pass : ℕ
key_wifi_pass = 1

abbrev pub key_mqtt_uri : ℕ
key_mqtt_uri = 2

abbrev pub key_mqtt_user : ℕ
key_mqtt_user = 3

abbrev pub key_mqtt_pass : ℕ
key_mqtt_pass = 4

abbrev pub key_write_offset : ℕ
key_write_offset = 5

abbrev pub key_replay_offset : ℕ
key_replay_offset = 6

abbrev pub key_last_id : ℕ
key_last_id = 7

-- What the build sets: CONFIG_WIFI_MODE_USE_MANUAL_SETTING, CONFIG_WIFI_MODE_USE_PROVISIONING (which no
-- Kconfig file has, so that it is false in each build), CONFIG_MQTT_TRANSPORT_SECURE, and the strings
-- with their zeros.
pub record Kconfig : Type 0 where
  pub is_manual : Bool
  pub uses_provisioning : Bool
  pub is_secure : Bool
  pub wifi_ssid : List ℕ
  pub wifi_password : List ℕ
  pub mqtt_uri : List ℕ
  pub mqtt_user : List ℕ
  pub mqtt_password : List ℕ

-- The empty string
abbrev pub empty_string : List ℕ
empty_string = 0 ∷ []

-- The defaults that `system_config_setup_defaults` sets, in their order.
abbrev pub defaults : Kconfig → List (ℕ × List ℕ)
defaults k =
    (key_wifi_ssid, if k.is_manual then k.wifi_ssid else empty_string)
    ∷ (key_wifi_pass, if k.is_manual then k.wifi_password else empty_string)
    ∷ (key_mqtt_uri, k.mqtt_uri)
    ∷ (key_mqtt_user, k.mqtt_user)
    ∷ (key_mqtt_pass, k.mqtt_password)
    ∷ (key_write_offset, write32 default_parameters.write_offset)
    ∷ (key_replay_offset, write32 default_parameters.replay_offset)
    ∷ (key_last_id, write32 default_parameters.last_id)
    ∷ []

-- The calls of `nvs_manager_set_default` up to the first that fails.
unfoldable pub set_defaults : List (ℕ × List ℕ) → Manager → EspErr × Manager
set_defaults [] m = (esp_ok, m)
set_defaults ((key, value) ∷ rest) m =
    let (e, m') = set_default key (some value) m in
    if is_ok e then set_defaults rest m' else (e, m')

-- `system_config_setup_defaults`
unfoldable pub setup_defaults : Kconfig → Manager → EspErr × Manager
unfolding set_defaults
setup_defaults k m = set_defaults (defaults k) m

-- Whether the lock of nvs_manager is taken by three calls.
pub record Taken : Type 0 where
  pub first : Bool
  pub second : Bool
  pub third : Bool

abbrev pub all_taken : Taken
all_taken = record { first = true; second = true; third = true }

-- `save_parameters_callback`, on the parameters and the statics of nvs_manager.
unfoldable pub save_parameters : Taken → Parameters → Manager → Manager
save_parameters t p m =
    if p.is_dirty
    then (let m1 = (write_cfg t.first key_replay_offset (some (write32 p.replay_offset)) m).1 in
        let m2 = (write_cfg t.second key_write_offset (some (write32 p.write_offset)) m1).1 in
        (write_cfg t.third key_last_id (some (write32 p.last_id)) m2).1)
    else m

-- A word that is read, or what was there if the read fails.
abbrev pub word_or : ℕ → EspErr × Option (List ℕ) → ℕ
word_or old (e, none) = old
word_or old (e, some bytes) = read32 bytes

-- The logger's parameters as `system_config_setup` loads them.
unfoldable pub load_parameters : Taken → Manager → Parameters → Parameters
load_parameters t m p = record p {
  write_offset = word_or p.write_offset (read_cfg t.first key_write_offset true m);
  replay_offset = word_or p.replay_offset (read_cfg t.second key_replay_offset true m);
  last_id = word_or p.last_id (read_cfg t.third key_last_id true m);
}

-- The parts of `global_config` that are loaded, with the other statics of the file; a string is the
-- buffer that holds it.
pub record SystemConfig : Type 0 where
  pub parameters : Parameters
  pub ssid : List ℕ
  pub password : List ℕ
  pub mqtt_uri : List ℕ
  pub mqtt_user : List ℕ
  pub mqtt_pass : List ℕ
  pub certs : MqttCerts
  pub has_save_timer : Bool

abbrev pub bytes_or : List ℕ → EspErr × Option (List ℕ) → List ℕ
bytes_or old (e, none) = old
bytes_or old (e, some bytes) = bytes

-- The credentials of the Wi-Fi, and the settings of MQTT.
unfoldable pub load_wifi : Taken → Manager → SystemConfig → SystemConfig
load_wifi t m c = record c {
  ssid = bytes_or c.ssid (read_cfg t.first key_wifi_ssid true m);
  password = bytes_or c.password (read_cfg t.second key_wifi_pass true m);
}

unfoldable pub load_mqtt : Taken → Manager → SystemConfig → SystemConfig
load_mqtt t m c = record c {
  mqtt_uri = bytes_or c.mqtt_uri (read_cfg t.first key_mqtt_uri true m);
  mqtt_user = bytes_or c.mqtt_user (read_cfg t.second key_mqtt_user true m);
  mqtt_pass = bytes_or c.mqtt_pass (read_cfg t.third key_mqtt_pass true m);
}

-- `strlen (...) == 0` on the SSID, under `#if CONFIG_WIFI_MODE_USE_PROVISIONING`.
abbrev pub needs_provisioning : Kconfig → SystemConfig → Bool
needs_provisioning k c = k.uses_provisioning && (get_or c.ssid 0 0 == 0)

-- ESP-IDF and the provisioner: the partition with the certificates, `ble_provisioner_start`, and the
-- timer that saves the parameters.
pub record Platform (W : Type 0) : Type 0 where
  pub mmu : Mmu W
  pub start_provisioner : W → EspErr × W
  pub create_timer : W → EspErr × W
  pub start_timer : W → EspErr × W
  pub delete_timer : W → W

-- `none` as a result is the wait for the provisioner, which ends with a restart, in a build with
-- CONFIG_WIFI_MODE_USE_PROVISIONING.
abbrev pub Result : Type 0 → Type 0
Result W = Option EspErr × SystemConfig × W

module _ {W : Type 0} (platform : Platform W) where
  unfoldable pub start_saving : EspErr × SystemConfig × W → Result W
  start_saving (e, c, w) =
      if is_ok e
      then (let (created, w1) = platform.create_timer w in
          if is_ok created
          then (let (started, w2) = platform.start_timer w1 in
              (some started, record c { has_save_timer = true }, w2))
          else (some created, c, w1))
      else (some e, c, w)

  -- The certificates, in a build with them, and all that follows.
  unfoldable pub finish_setup : Kconfig → Taken → Manager → EspErr × SystemConfig × W → Result W
  unfolding start_saving
  finish_setup k t m (e, c, w) =
      if is_ok e && k.is_secure
      then (let (loaded, certs, w') = load_mqtt_certs platform.mmu c.certs w in
          start_saving (loaded, load_mqtt t m (record c { certs = certs }), w'))
      else start_saving (e, load_mqtt t m c, w)

  -- `system_config_setup`, which sets the pointers of the configuration besides.
  unfoldable pub setup : Kconfig → Taken → Taken → Taken → Manager → SystemConfig → W → Result W
  unfolding finish_setup
  setup k t1 t2 t3 m c w =
      let c' = load_wifi t2 m (record c { parameters = load_parameters t1 m c.parameters }) in
      if needs_provisioning k c'
      then (let (e, w') = platform.start_provisioner w in
          if is_ok e then (none, c', w') else finish_setup k t3 m (e, c', w'))
      else finish_setup k t3 m (esp_ok, c', w)

  -- `system_config_reset`
  unfoldable pub reset : SystemConfig → W → SystemConfig × W
  reset c w =
      let w1 = if c.has_save_timer then platform.delete_timer w else w in
      let (certs, w2) = reset_certs platform.mmu c.certs w1 in
      (record c { has_save_timer = false; certs = certs }, w2)
