-- ===== src/SystemConfig/Credentials.antt =====
-- What becomes of the credentials that components/system_config/ble_provisioner.c stores: they are in
-- force after the restart, unless the SSID fills its field.
use modbus_vault.Base.{
  ℕ, suc, ◌+◌, ◌-◌, ◌≤◌, ◌<◌, ◌≡◌, refl, sym, ap, ap₂, subst, ◌⊎◌, ◌∙◌, Bool, inl, inr, true, false,
  List, [], ◌∷◌, ◌++◌, Option, none, some, arith, length, length-append, drop, splice, replicate,
  get_or, ◌==◌, ==_ne,
}
use modbus_vault.Base.{esp_ok, is_ok}
use modbus_vault.Base.Words.{
  AreBytes, AreBytes-take, AreBytes-drop, AreBytes-splice, AreBytes-zeros,
}
use modbus_vault.Nvs.{
  Ops, Manager, State, KeyMap, config_size, seal, find_map, store_value, save_config, load_config,
  can_load, crc_offset,
}
use modbus_vault.Nvs.Calls.{write_cfg, write_found, read_cfg, fits}
use modbus_vault.Nvs.Access.{read_cfg-write_cfg}
use modbus_vault.Nvs.Places.{padded}
use modbus_vault.Nvs.Saved.{IsStore, load_config-save_config}
use modbus_vault.SystemConfig.{
  SystemConfig, Taken, all_taken, key_wifi_ssid, key_wifi_pass, load_wifi, bytes_or,
}
use modbus_vault.SystemConfig.Kept.{Open, write_cfg-Open}
use modbus_vault.SystemConfig.Provisioner.{
  strlen, c_string, password_offset, write_credentials, wifi_cred_recv, handle_event,
}
use modbus_vault.SystemConfig.Strings.{
  NoZero, ssid_entry, pass_entry, place-seal, event_data, AreShort, ssid-string, password-string,
  read-place,
}

-- What the handler writes is what is read back.
write_credentials-read :
    (ssid pad password rest : List ℕ) (m : Manager)
    → AreShort ssid pad password
    → Open m
    → let w = write_credentials all_taken (event_data ssid pad password rest) m in
      (read_cfg true key_wifi_ssid true w ≡ (esp_ok, some (padded ssid_entry (ssid ++ 0 ∷ []))))
      × (read_cfg true key_wifi_pass true w
          ≡ (esp_ok, some (padded pass_entry (password ++ 0 ∷ []))))
unfolding write_credentials
write_credentials-read ssid pad password rest m short is_open =
    let memory = event_data ssid pad password rest in
    let small : length (ssid ++ 0 ∷ []) ≤ 32 =
      omega (arith, short.field, length-append ssid (0 ∷ pad), length-append ssid (0 ∷ [])) in
    let small' : length (password ++ 0 ∷ []) ≤ 64 =
      omega (arith, short.password_short, length-append password (0 ∷ [])) in
    let m1 = (write_cfg true key_wifi_ssid (some (ssid ++ 0 ∷ [])) m).1 in
    let open1 = write_cfg-Open true key_wifi_ssid (some (ssid ++ 0 ∷ [])) m is_open in
    let (fine, own, others) =
      read_cfg-write_cfg key_wifi_ssid ssid_entry (ssid ++ 0 ∷ []) m refl small is_open.0
        is_open.1 in
    let (fine', own', others') =
      read_cfg-write_cfg key_wifi_pass pass_entry (password ++ 0 ∷ []) m1 refl small' open1.0
        open1.1 in
    (
      strings key_wifi_ssid ∙ others' key_wifi_ssid (λ e. absurd (omega (arith, e))) ∙ own,
      strings key_wifi_pass ∙ own',
    )
  where
    strings :
        (key : ℕ)
        → read_cfg true key true (write_credentials all_taken (event_data ssid pad password rest) m)
          ≡ read_cfg true key true
              (write_cfg true key_wifi_pass
                (some (password ++ 0 ∷ []))
                (write_cfg true key_wifi_ssid (some (ssid ++ 0 ∷ [])) m).1).1
    strings key =
        unfold write_credentials in
        ap₂
          (λ x y.
            read_cfg true key true
              (write_cfg true key_wifi_pass (some y) (write_cfg true key_wifi_ssid (some x) m).1).1)
          (ssid-string ssid pad password rest short) (password-string ssid pad password rest short)

pub write_credentials-Open :
    (t : Taken) (memory : List ℕ) (m : Manager) → Open m → Open (write_credentials t memory m)
unfolding write_credentials
write_credentials-Open t memory m h =
    write_cfg-Open t.second key_wifi_pass _ _
      (write_cfg-Open t.first key_wifi_ssid (some (c_string memory)) m h)

pub write_found-cases :
    (taken : Bool) (entry : KeyMap) (bytes : List ℕ) (m : Manager)
    → let config = (write_found taken (fits (some entry) (some bytes)) m).1.app_config in
      (config ≡ m.app_config) ⊎ (config ≡ store_value entry bytes m.app_config)
unfolding write_found
write_found-cases taken entry bytes m = ground arith

pub write_found-bytes :
    (taken : Bool) (o : Option KeyMap) (bytes : List ℕ) (m : Manager)
    → AreBytes m.app_config
    → AreBytes bytes
    → AreBytes (write_found taken (fits o (some bytes)) m).1.app_config
write_found-bytes taken none bytes m p q = unfold write_found in p
write_found-bytes taken (some entry) bytes m p q = elim (write_found-cases taken entry bytes m) [
  | inl same ↦ subst AreBytes (sym same) p
  | inr stored ↦ subst AreBytes (sym stored) (
      unfold store_value in
      AreBytes-splice (splice m.app_config entry.offset bytes) (entry.offset + length bytes)
        (replicate (entry.size - length bytes) 0)
        (AreBytes-splice m.app_config entry.offset bytes p q)
        (AreBytes-zeros (entry.size - length bytes)))
]

write_credentials-bytes :
    (t : Taken) (memory : List ℕ) (m : Manager)
    → AreBytes memory
    → AreBytes m.app_config
    → AreBytes (write_credentials t memory m).app_config
unfolding write_credentials write_cfg
write_credentials-bytes t memory m p q =
    write_found-bytes t.second (find_map key_wifi_pass) (c_string (drop password_offset memory)) _
      (write_found-bytes t.first (find_map key_wifi_ssid) (c_string memory) m q
        (AreBytes-take (suc (strlen memory)) memory p))
      (AreBytes-take (suc (strlen (drop password_offset memory))) (drop password_offset memory)
        (AreBytes-drop password_offset memory p))

pub write_found-handle :
    (taken : Bool) (o : Option (KeyMap × List ℕ)) (m : Manager)
    → (write_found taken o m).1.handle ≡ m.handle
unfolding write_found
write_found-handle taken none m = refl
write_found-handle taken (some (entry, bytes)) m = ground arith

write_credentials-handle :
    (t : Taken) (memory : List ℕ) (m : Manager) → (write_credentials t memory m).handle ≡ m.handle
unfolding write_credentials write_cfg
write_credentials-handle t memory m =
    write_found-handle t.second
      (fits (find_map key_wifi_pass) (some (c_string (drop password_offset memory)))) _
    ∙ write_found-handle t.first (fits (find_map key_wifi_ssid) (some (c_string memory))) m

ssid-starts :
    (ssid : List ℕ)
    → 0 < length ssid
    → NoZero ssid
    → (get_or (padded ssid_entry (ssid ++ 0 ∷ [])) 0 0 == 0) ≡ false
ssid-starts [] some_ssid h = absurd (omega (arith, some_ssid))
ssid-starts (b ∷ ssid) some_ssid h = ==_ne b 0 h.0

-- A place between the version and the CRC, as a read of its key sees it after the restart.
pub read-loaded :
    (key : ℕ) (e : KeyMap) (w m : Manager)
    → find_map key ≡ some e
    → 4 ≤ e.offset
    → e.offset + e.size ≤ crc_offset
    → w.has_lock ≡ true
    → m.has_lock ≡ true
    → read_cfg true key true (record m {
      app_config = seal w.app_config;
      shadow_app_config = seal w.app_config;
      is_dirty = false;
    })
      ≡ read_cfg true key true w
read-loaded key e w m found behind before open_w open_m =
    read-place key e
      (record m {
        app_config = seal w.app_config;
        shadow_app_config = seal w.app_config;
        is_dirty = false;
      })
      found open_m
    ∙ ap (λ bytes. (esp_ok, some bytes)) (place-seal e w.app_config behind before)
    ∙ sym (read-place key e w found open_w)

module _ {F : Type 0} (ops : Ops F) where
  -- Credentials that fit with their zeros, and that the handler has saved, are in force after the
  -- restart: whatever manager then loads the configuration, the setup finds the SSID, which is not
  -- the empty string, and the password.
  pub provisioned-loaded :
      IsStore ops
      → (ssid pad password rest : List ℕ) (s : State F) (m : Manager) (c : SystemConfig)
      → AreShort ssid pad password
      → 0 < length ssid
      → Open s.manager
      → AreBytes (event_data ssid pad password rest)
      → AreBytes s.manager.app_config
      → is_ok
          (save_config ops true (record s {
            manager = write_credentials all_taken (event_data ssid pad password rest) s.manager;
          })).0
        ≡ true
      → can_load ops m ≡ true
      → m.handle ≡ s.manager.handle
      → length m.app_config ≡ config_size
      → let after =
          handle_event ops all_taken (wifi_cred_recv (event_data ssid pad password rest)) s in
        let loaded = load_config ops true (record { manager = m; flash = after.1.flash }) in
        let c' = load_wifi all_taken loaded.1.manager c in
        (loaded.0 ≡ esp_ok)
        × (c'.ssid ≡ padded ssid_entry (ssid ++ 0 ∷ []))
        × ((get_or c'.ssid 0 0 == 0) ≡ false)
        × (c'.password ≡ padded pass_entry (password ++ 0 ∷ []))
  unfolding handle_event load_wifi
  provisioned-loaded store ssid pad password rest s m c short some_ssid is_open data_bytes bytes
        saved able same sized =
      let memory = event_data ssid pad password rest in
      let w : Manager = write_credentials all_taken memory s.manager in
      let open_w : Open w = write_credentials-Open all_taken memory s.manager is_open in
      let (f', back) =
        load_config-save_config ops store (record s { manager = w }) m open_w.1
          (write_credentials-bytes all_taken memory s.manager data_bytes bytes) saved able
          (same ∙ sym (write_credentials-handle all_taken memory s.manager)) sized in
      let open_m : m.has_lock ≡ true = ground (arith, able) in
      let (ssid_written, password_written) =
        write_credentials-read ssid pad password rest s.manager short is_open in
      let ssid_there = ap (bytes_or c.ssid) (
        read-loaded key_wifi_ssid ssid_entry w m refl (omega arith) (omega arith) open_w.0 open_m
        ∙ ssid_written) in
      let password_there = ap (bytes_or c.password) (
        read-loaded key_wifi_pass pass_entry w m refl (omega arith) (omega arith) open_w.0 open_m
        ∙ password_written) in
      (
        ap (λ r. r.0) back,
        ap (λ r. (load_wifi all_taken r.1.manager c).ssid) back ∙ ssid_there,
        ap (λ r. get_or (load_wifi all_taken r.1.manager c).ssid 0 0 == 0) back
            ∙ ap (λ x. get_or x 0 0 == 0) ssid_there
            ∙ ssid-starts ssid some_ssid short.ssid_text,
        ap (λ r. (load_wifi all_taken r.1.manager c).password) back ∙ password_there,
      )
