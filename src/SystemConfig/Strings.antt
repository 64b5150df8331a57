-- ===== src/SystemConfig/Strings.antt =====
-- The strings that components/system_config/ble_provisioner.c takes out of an event's data, and the
-- places of the settings in the configuration.
use modbus_vault.Base.{
  ℕ, ◌+◌, ◌≤◌, ◌≡◌, ◌≢◌, refl, sym, ap, ◌∙◌, true, List, [], ◌∷◌, ◌++◌, append_assoc, some, arith,
  length, take, drop, drop-append, drop-take, splice, take-splice_before, drop-splice_behind, ==_ne,
}
use modbus_vault.Base.{esp_ok}
use modbus_vault.Base.Words.{write16, write32}
use modbus_vault.Nvs.{Manager, KeyMap, config_version, find_map, crc_offset, config_crc, seal}
use modbus_vault.Nvs.Calls.{read_cfg, read_found}
use modbus_vault.Nvs.Places.{place}
use modbus_vault.SystemConfig.Provisioner.{c_string, password_offset}

-- A string has no zero in it.
abbrev pub NoZero : List ℕ → Type 0
NoZero [] = Unit {0}
NoZero (b ∷ bytes) = (b ≢ 0) × NoZero bytes

pub c_string-ended :
    (string rest : List ℕ) → NoZero string → c_string (string ++ 0 ∷ rest) ≡ string ++ 0 ∷ []
c_string-ended [] rest h = refl
c_string-ended (b ∷ string) rest h =
    rw (==_ne b 0 h.0) (ap (◌∷◌ b) (c_string-ended string rest h.1))

abbrev pub ssid_entry : KeyMap
ssid_entry = record { key = 0; offset = 4; size = 32 }

abbrev pub pass_entry : KeyMap
pass_entry = record { key = 1; offset = 36; size = 64 }

-- The version and the CRC stand outside the places between them.
pub place-seal :
    (e : KeyMap) (config : List ℕ)
    → 4 ≤ e.offset
    → e.offset + e.size ≤ crc_offset
    → place e (seal config) ≡ place e config
unfolding seal
place-seal e config behind before =
    let versioned = splice config 0 (write32 config_version) in
    sym (drop-take e.offset e.size (splice versioned crc_offset (write16 (config_crc versioned))))
    ∙ ap (drop e.offset) (
        take-splice_before versioned crc_offset (e.offset + e.size) (write16 (config_crc versioned))
          before)
    ∙ drop-take e.offset e.size versioned
    ∙ ap (take e.size)
        (drop-splice_behind config 0 (write32 config_version) e.offset (omega (arith, behind)))

-- The memory of an event: the SSID and the bytes up to the end of its field, then the password.
abbrev pub event_data : List ℕ → List ℕ → List ℕ → List ℕ → List ℕ
event_data ssid pad password rest = (ssid ++ 0 ∷ pad) ++ (password ++ 0 ∷ rest)

-- Credentials that fit with their zeros.
pub record AreShort (ssid pad password : List ℕ) : Type 0 where
  pub field : length (ssid ++ 0 ∷ pad) ≡ 32
  pub ssid_text : NoZero ssid
  pub password_text : NoZero password
  pub password_short : length password ≤ 63

pub ssid-string :
    (ssid pad password rest : List ℕ)
    → AreShort ssid pad password
    → c_string (event_data ssid pad password rest) ≡ ssid ++ 0 ∷ []
ssid-string ssid pad password rest short =
    ap c_string (append_assoc ssid (0 ∷ pad) (password ++ 0 ∷ rest))
    ∙ c_string-ended ssid (pad ++ (password ++ 0 ∷ rest)) short.ssid_text

pub password-string :
    (ssid pad password rest : List ℕ)
    → AreShort ssid pad password
    → c_string (drop password_offset (event_data ssid pad password rest)) ≡ password ++ 0 ∷ []
password-string ssid pad password rest short =
    ap (λ n. c_string (drop n (event_data ssid pad password rest))) (sym short.field)
    ∙ ap c_string (drop-append (ssid ++ 0 ∷ pad) (password ++ 0 ∷ rest))
    ∙ c_string-ended password rest short.password_text

-- A place, as a read of its key sees it.
pub read-place :
    (key : ℕ) (e : KeyMap) (m : Manager)
    → find_map key ≡ some e
    → m.has_lock ≡ true
    → read_cfg true key true m ≡ (esp_ok, some (place e m.app_config))
unfolding read_cfg read_found
read-place key e m found locked = rw (found, locked) refl
