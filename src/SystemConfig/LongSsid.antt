-- ===== src/SystemConfig/LongSsid.antt =====
-- An SSID that fills its field, in components/system_config/ble_provisioner.c: the string that is
-- stored runs on into the password, and is refused.
use modbus_vault.Base.{
  ℕ, ◌≡◌, inl, inr, refl, sym, ap, ◌∙◌, Bool, true, false, List, [], ◌∷◌, ◌++◌, append_assoc, some,
  arith, length, length-append, leb, drop,
}
use modbus_vault.Base.{esp_ok}
use modbus_vault.Nvs.{Ops, Manager, State, save_config}
use modbus_vault.Nvs.Calls.{write_cfg, write_found, read_cfg}
use modbus_vault.Nvs.Places.{place, place-before}
use modbus_vault.Nvs.Saved.{save_config-keeps}
use modbus_vault.SystemConfig.{Taken, key_wifi_ssid, key_wifi_pass}
use modbus_vault.SystemConfig.Kept.{Open}
use modbus_vault.SystemConfig.Provisioner.{
  c_string, password_offset, write_credentials, wifi_cred_recv, handle_event,
}
use modbus_vault.SystemConfig.Strings.{
  NoZero, c_string-ended, ssid_entry, pass_entry, place-seal, read-place,
}
use modbus_vault.SystemConfig.Credentials.{write_found-cases, write_credentials-Open}

NoZero-append : (xs ys : List ℕ) → NoZero xs → NoZero ys → NoZero (xs ++ ys)
NoZero-append [] ys p q = q
NoZero-append (x ∷ xs) ys p q = (p.0, NoZero-append xs ys p.1 q)

-- The string from the SSID on is longer than the place of the SSID.
too_long :
    (ssid password rest : List ℕ)
    → length ssid ≡ 32
    → NoZero ssid
    → NoZero password
    → leb (length (c_string (ssid ++ (password ++ 0 ∷ rest)))) 32 ≡ false
too_long ssid password rest full p q =
    ap (λ xs. leb (length (c_string xs)) 32) (sym (append_assoc ssid password (0 ∷ rest)))
    ∙ ap (λ xs. leb (length xs) 32)
        (c_string-ended (ssid ++ password) rest (NoZero-append ssid password p q))
    ∙ ground (arith, length-append (ssid ++ password) (0 ∷ []), length-append ssid password, full)

refused :
    (taken : Bool) (value : List ℕ) (m : Manager)
    → leb (length value) 32 ≡ false
    → (write_cfg taken key_wifi_ssid (some value) m).1 ≡ m
unfolding write_cfg write_found
refused taken value m large = rw large refl

-- A write of the password leaves the place of the SSID.
password-apart :
    (taken : Bool) (value : List ℕ) (m : Manager)
    → place ssid_entry (write_cfg taken key_wifi_pass (some value) m).1.app_config
      ≡ place ssid_entry m.app_config
unfolding write_cfg
password-apart taken value m = elim (write_found-cases taken pass_entry value m) [
  | inl same ↦ ap (place ssid_entry) same
  | inr stored ↦
      ap (place ssid_entry) stored
      ∙ place-before pass_entry value m.app_config ssid_entry (omega arith)
]

module _ {F : Type 0} (ops : Ops F) where
  saved-place :
      (taken : Bool) (s : State F)
      → place ssid_entry (save_config ops taken s).1.manager.app_config
        ≡ place ssid_entry s.manager.app_config
  saved-place taken s = elim (save_config-keeps ops taken s).1 [
    | inl same ↦ ap (place ssid_entry) same
    | inr sealed ↦
        ap (place ssid_entry) sealed
        ∙ place-seal ssid_entry s.manager.app_config (omega arith) (omega arith)
  ]

  -- An SSID that has all of its 32 characters is not stored: whatever locks the handler gets, a read
  -- of the SSID gives what it gave before. Of the password that came with it nothing is said.
  pub long_ssid-forgotten :
      (t : Taken) (ssid password rest : List ℕ) (s : State F)
      → length ssid ≡ 32
      → NoZero ssid
      → NoZero password
      → Open s.manager
      → let after = handle_event ops t (wifi_cred_recv (ssid ++ (password ++ 0 ∷ rest))) s in
        read_cfg true key_wifi_ssid true after.1.manager
        ≡ read_cfg true key_wifi_ssid true s.manager
  unfolding handle_event
  long_ssid-forgotten t ssid password rest s full p q is_open =
      let memory = ssid ++ (password ++ 0 ∷ rest) in
      let w : Manager = write_credentials t memory s.manager in
      let open_w = write_credentials-Open t memory s.manager is_open in
      let s1 : State F = record s { manager = w } in
      read-place key_wifi_ssid ssid_entry (save_config ops t.third s1).1.manager refl
        ((save_config-keeps ops t.third s1).0 ∙ open_w.0)
      ∙ ap (λ xs. (esp_ok, some xs))
          (saved-place t.third s1 ∙ untouched memory (too_long ssid password rest full p q))
      ∙ sym (read-place key_wifi_ssid ssid_entry s.manager refl is_open.0)
    where
      untouched :
          (memory : List ℕ)
          → leb (length (c_string memory)) 32 ≡ false
          → place ssid_entry (write_credentials t memory s.manager).app_config
            ≡ place ssid_entry s.manager.app_config
      untouched memory large =
          unfold write_credentials in
          password-apart t.second (c_string (drop password_offset memory))
            (write_cfg t.first key_wifi_ssid (some (c_string memory)) s.manager).1
          ∙ ap (λ m. place ssid_entry m.app_config)
              (refused t.first (c_string memory) s.manager large)
