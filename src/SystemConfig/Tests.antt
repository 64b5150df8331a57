-- ===== src/SystemConfig/Tests.antt =====
-- A small build, parameters of a logger, and credentials that come in over Bluetooth.
use modbus_vault.Base.{
  ℕ, suc, ◌-◌, ◌≡◌, refl, true, false, List, [], ◌∷◌, ◌++◌, arith, replicate, get_or, ◌==◌,
}
use modbus_vault.Base.{EspErr, esp_ok}
use modbus_vault.Base.Words.{AreBytes-zeros}
use modbus_vault.Blackbox.{Parameters, default_parameters}
use modbus_vault.Nvs.{State, boot, save_config, load_config}
use modbus_vault.Nvs.Calls.{write_cfg, write_found, read_cfg}
use modbus_vault.Nvs.Places.{padded}
use modbus_vault.Nvs.Tests.{Cell, cell_ops, cell_ops-IsStore, whole, at_work, cell}
use modbus_vault.SystemConfig.Certs.{no_slice}
use modbus_vault.SystemConfig.Certs.Tests.{partition, damaged, partition-IsMmu}
use modbus_vault.SystemConfig.Certs.Unmapped.{Blank}
use modbus_vault.SystemConfig.Timer.{IsTimed}
use modbus_vault.SystemConfig.Setup.{IsPlatform, reset-setup}
use modbus_vault.SystemConfig.{
  Platform, setup, reset, Kconfig, SystemConfig, all_taken, setup_defaults, save_parameters,
  load_parameters, load_wifi, key_wifi_ssid,
}
use modbus_vault.SystemConfig.Defaults.{settings, Shows, setup_defaults-Shows}
use modbus_vault.SystemConfig.Saved.{load_parameters-saved}
use modbus_vault.SystemConfig.Provisioner.{
  wifi_cred_recv, handle_event, write_credentials, StartCall, start, start_from,
}
use modbus_vault.SystemConfig.Strings.{event_data, ssid_entry, pass_entry, NoZero}
use modbus_vault.SystemConfig.Credentials.{provisioned-loaded}
use modbus_vault.SystemConfig.LongSsid.{long_ssid-forgotten}

abbrev build : Kconfig
build = record {
  is_manual = true;
  uses_provisioning = false;
  is_secure = false;
  wifi_ssid = 104 ∷ 0 ∷ [];
  wifi_password = 112 ∷ 119 ∷ 0 ∷ [];
  mqtt_uri = 109 ∷ 0 ∷ [];
  mqtt_user = 0 ∷ [];
  mqtt_password = 0 ∷ [];
}

setup_defaults-Shows_example :
    ((setup_defaults build boot).0 ≡ esp_ok)
    × Shows (settings build) (setup_defaults build boot).1.default_config
unfolding boot
setup_defaults-Shows_example =
    setup_defaults-Shows build boot
      (record {
        ssid = omega arith;
        password = omega arith;
        uri = omega arith;
        user = omega arith;
        pass = omega arith;
      })
      refl refl

abbrev written : Parameters
written = record { write_offset = 4096; replay_offset = 32; last_id = 300; is_dirty = true }

abbrev running : State Cell
running = record { manager = at_work; flash = cell false false }

load_parameters-saved_example :
    let saved =
      save_config
        (cell_ops whole)
        true
        (record running { manager = save_parameters all_taken written at_work }) in
    let loaded =
      load_config (cell_ops whole) true (record { manager = at_work; flash = saved.1.flash }) in
    (loaded.0 ≡ esp_ok)
    × (load_parameters all_taken loaded.1.manager default_parameters
        ≡ record written { is_dirty = false })
unfolding save_config cell_ops save_parameters write_cfg write_found
load_parameters-saved_example =
    load_parameters-saved (cell_ops whole) cell_ops-IsStore written default_parameters running
      at_work refl (omega arith) (omega arith) (omega arith) (refl, refl) (AreBytes-zeros 372) refl
      refl refl refl

abbrev pad : List ℕ
pad = replicate 30 0

abbrev received : List ℕ
received = event_data (104 ∷ []) pad (112 ∷ 119 ∷ []) []

abbrev config : SystemConfig
config = record {
  parameters = default_parameters;
  ssid = [];
  password = [];
  mqtt_uri = [];
  mqtt_user = [];
  mqtt_pass = [];
  certs = record { map_handle = 0; certificate = no_slice; key = no_slice; ca = no_slice };
  has_save_timer = false;
}

provisioned-loaded_example :
    let after = handle_event (cell_ops whole) all_taken (wifi_cred_recv received) running in
    let loaded =
      load_config (cell_ops whole) true (record { manager = at_work; flash = after.1.flash }) in
    let c' = load_wifi all_taken loaded.1.manager config in
    (loaded.0 ≡ esp_ok)
    × (c'.ssid ≡ padded ssid_entry (104 ∷ 0 ∷ []))
    × ((get_or c'.ssid 0 0 == 0) ≡ false)
    × (c'.password ≡ padded pass_entry (112 ∷ 119 ∷ 0 ∷ []))
unfolding save_config cell_ops write_credentials write_cfg write_found
provisioned-loaded_example =
    provisioned-loaded (cell_ops whole) cell_ops-IsStore (104 ∷ []) pad (112 ∷ 119 ∷ []) [] running
      at_work config
      (record {
        field = refl;
        ssid_text = (ground arith, tt);
        password_text = (ground arith, (ground arith, tt));
        password_short = omega arith;
      })
      (omega arith) (refl, refl) (ground arith) (AreBytes-zeros 372) refl refl refl refl

abbrev long_ssid : List ℕ
long_ssid = replicate 32 104

long_ssid-NoZero : NoZero long_ssid
long_ssid-NoZero = ground arith

long_ssid-forgotten_example :
    let after =
      handle_event
        (cell_ops whole)
        all_taken
        (wifi_cred_recv (long_ssid ++ ((112 ∷ []) ++ 0 ∷ [])))
        running in
    read_cfg true key_wifi_ssid true after.1.manager ≡ read_cfg true key_wifi_ssid true at_work
long_ssid-forgotten_example =
    long_ssid-forgotten (cell_ops whole) all_taken long_ssid (112 ∷ []) [] running refl
      long_ssid-NoZero (ground arith, tt) (refl, refl)

-- The provisioner starts nothing behind a call that fails.
abbrev deaf : StartCall → ℕ → EspErr × ℕ
deaf StartCall.set_mode n = (EspErr.esp_fail, suc n)
deaf c n = (esp_ok, suc n)

start_stops : start deaf 0 ≡ (EspErr.esp_fail, 5)
unfolding start start_from
start_stops = refl

-- A platform whose partition is damaged, and which counts its timers behind the mappings.
abbrev platform : Platform (ℕ × List ℕ)
platform = record {
  mmu = record {
    found = λ w. true;
    mmap = λ (timers, w).
        let (e, handle, image, w') = (partition damaged).mmap w in (e, handle, image, (timers, w'));
    munmap = λ handle (timers, w). (timers, (partition damaged).munmap handle w);
  };
  start_provisioner = λ w. (esp_ok, w);
  create_timer = λ (timers, w). (esp_ok, (suc timers, w));
  start_timer = λ w. (esp_ok, w);
  delete_timer = λ (timers, w). (timers - 1, w);
}

platform-IsPlatform : IsPlatform platform
unfolding partition-IsMmu
platform-IsPlatform = record {
  is_mmu = record {
    mappings = λ w. w.1;
    maps = λ w fine. (partition-IsMmu damaged).maps w.1 fine;
    maps_not = λ w failed. (partition-IsMmu damaged).maps_not w.1 failed;
    unmaps = λ w handle rest e. (partition-IsMmu damaged).unmaps w.1 handle rest e;
  };
  start_provisioner = λ w. refl;
  create_timer = λ w. refl;
  start_timer = λ w. refl;
  delete_timer = λ w. refl;
}

platform-IsTimed : IsTimed platform
platform-IsTimed = record {
  timers = λ w. w.0;
  mmap = λ w. refl;
  munmap = λ handle w. refl;
  start_provisioner = λ w. refl;
  created = λ w fine. refl;
  created_not = λ w failed. absurd (ground (arith, failed));
  start_timer = λ w. refl;
  deleted = λ w n e. omega (arith, e);
}

abbrev secure : Kconfig
secure = record build { is_secure = true }

reset-setup_example :
    let (result, c1, w1) =
      setup platform secure all_taken all_taken all_taken at_work config (2, 3 ∷ []) in
    let (c2, w2) = reset platform c1 w1 in
    (w2.0 ≡ 2)
    × (c2.has_save_timer ≡ false)
    × (c2.certs.map_handle ≡ 0)
    × Blank c2.certs
    × (w2.1 ≡ 3 ∷ [])
unfolding platform-IsPlatform platform-IsTimed
reset-setup_example =
    reset-setup platform platform-IsPlatform platform-IsTimed secure all_taken all_taken all_taken
      at_work config (2, 3 ∷ []) refl refl (refl, refl, refl)
