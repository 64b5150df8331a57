-- ===== src/SystemConfig/Provisioner.antt =====
-- components/system_config/ble_provisioner.c: the credentials of the Wi-Fi that come in over Bluetooth.
-- ESP-IDF is a parameter. The data of an event is the memory from it on, since the code looks for the
-- zeros at the end of its strings.
use modbus_vault.Base.{
  ℕ, suc, Bool, true, false, List, [], ◌∷◌, some, if◌then◌else◌, ◌==◌, take, drop,
}
use modbus_vault.Base.{EspErr, esp_ok, esp_fail, is_ok}
use modbus_vault.Nvs.{Ops, Manager, State, save_config}
use modbus_vault.Nvs.Calls.{write_cfg}
use modbus_vault.SystemConfig.{Taken, key_wifi_ssid, key_wifi_pass}

abbrev pub strlen : List ℕ → ℕ
strlen [] = 0
strlen (b ∷ bytes) = if b == 0 then 0 else suc (strlen bytes)

-- A string with its zero.
abbrev pub c_string : List ℕ → List ℕ
c_string memory = take (suc (strlen memory)) memory

-- `password` of `wifi_sta_config_t` stands behind the 32 bytes of `ssid`.
abbrev pub password_offset : ℕ
password_offset = 32

-- The events that `provisioning_event_handler` tells apart.
pub data ProvEvent : Type 0 where
  wifi_cred_recv : List ℕ → ProvEvent
  prov_end prov_other : ProvEvent

-- The two writes of the credentials.
unfoldable pub write_credentials : Taken → List ℕ → Manager → Manager
write_credentials t memory m =
    let m1 = (write_cfg t.first key_wifi_ssid (some (c_string memory)) m).1 in
    (write_cfg t.second key_wifi_pass (some (c_string (drop password_offset memory))) m1).1

module _ {F : Type 0} (ops : Ops F) where
  -- `provisioning_event_handler`, with whether the device restarts; errors are only logged.
  unfoldable pub handle_event : Taken → ProvEvent → State F → Bool × State F
  handle_event t (wifi_cred_recv memory) s = (
    false,
    (save_config ops t.third (record s { manager = write_credentials t memory s.manager })).1,
  )
  handle_event t prov_end s = (true, s)
  handle_event t prov_other s = (false, s)

-- The calls of `ble_provisioner_start`, in their order.
pub data StartCall : Type 0 where
  netif_init create_event_loop wifi_init create_netif set_mode : StartCall
  register_events prov_init start_provisioning : StartCall

abbrev pub start_calls : List StartCall
start_calls =
    netif_init ∷ create_event_loop ∷ wifi_init ∷ create_netif ∷ set_mode ∷ register_events
    ∷ prov_init ∷ start_provisioning ∷ []

-- The error that is made of a call's failure: `create_netif` returns NULL.
abbrev pub failure : StartCall → EspErr → EspErr
failure create_netif e = esp_fail
failure _ e = e

module _ {W : Type 0} (call : StartCall → W → EspErr × W) where
  unfoldable pub start_from : List StartCall → W → EspErr × W
  start_from [] w = (esp_ok, w)
  start_from (c ∷ calls) w =
      let (e, w') = call c w in if is_ok e then start_from calls w' else (failure c e, w')

  -- `ble_provisioner_start`
  unfoldable pub start : W → EspErr × W
  unfolding start_from
  start w = start_from start_calls w
