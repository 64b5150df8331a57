-- ===== src/SystemConfig/Defaults.antt =====
-- The defaults that components/system_config/system_config.c gives to nvs_manager: each in its place.
use modbus_vault.Base.{
  ℕ, ◌+◌, ◌≤◌, ◌≡◌, inl, inr, refl, ap, ◌∙◌, Bool, true, false, if◌then◌else◌, List, [], ◌∷◌, some,
  arith, length, le→leb,
}
use modbus_vault.Base.{esp_ok}
use modbus_vault.Nvs.{Manager, KeyMap, config_size, find_map, store_value}
use modbus_vault.Nvs.Calls.{set_default, default_found, fits}
use modbus_vault.Nvs.Access.{Apart}
use modbus_vault.Nvs.Places.{place, padded, place-store_value, place-before, place-behind}
use modbus_vault.SystemConfig.{Kconfig, defaults, set_defaults, setup_defaults}
use modbus_vault.SystemConfig.Kept.{length-store_value}

-- A place in the configuration: after the version the SSID of 32 bytes, the password of 64, three
-- settings of MQTT, and three words.
abbrev entry_at : ℕ → ℕ → ℕ → KeyMap
entry_at key offset size = record { key = key; offset = offset; size = size }

-- A string of the build, or an empty one where the credentials are not set by hand.
abbrev by_hand : Bool → List ℕ → List ℕ
by_hand true value = value
by_hand false value = 0 ∷ []

abbrev no_bytes : List ℕ
no_bytes = 0 ∷ 0 ∷ 0 ∷ 0 ∷ []

-- What the places are to hold.
abbrev pub settings : Kconfig → List (KeyMap × List ℕ)
settings k =
    (entry_at 0 4 32, by_hand k.is_manual k.wifi_ssid)
    ∷ (entry_at 1 36 64, by_hand k.is_manual k.wifi_password)
    ∷ (entry_at 2 100 128, k.mqtt_uri)
    ∷ (entry_at 3 228 64, k.mqtt_user)
    ∷ (entry_at 4 292 64, k.mqtt_password)
    ∷ (entry_at 5 356 4, no_bytes)
    ∷ (entry_at 6 360 4, no_bytes)
    ∷ (entry_at 7 364 4, no_bytes)
    ∷ []

by_hand-if : (b : Bool) (value : List ℕ) → (if b then value else 0 ∷ []) ≡ by_hand b value
by_hand-if true value = refl
by_hand-if false value = refl

length-by_hand :
    (b : Bool) (value : List ℕ) (n : ℕ) → 1 ≤ n → length value ≤ n → length (by_hand b value) ≤ n
length-by_hand true value n room small = small
length-by_hand false value n room small = room

-- Each value stands in its place, the rest of the place cleared.
abbrev pub Shows : List (KeyMap × List ℕ) → List ℕ → Type 0
Shows [] config = Unit {0}
Shows ((e, value) ∷ rest) config = (place e config ≡ padded e value) × Shows rest config

abbrev store_all : List (KeyMap × List ℕ) → List ℕ → List ℕ
store_all [] config = config
store_all ((e, value) ∷ rest) config = store_all rest (store_value e value config)

abbrev AllApart : KeyMap → List (KeyMap × List ℕ) → Type 0
AllApart e [] = Unit {0}
AllApart e ((other, value) ∷ rest) = Apart other e × (length value ≤ other.size) × AllApart e rest

abbrev Fit : List (KeyMap × List ℕ) → Type 0
Fit [] = Unit {0}
Fit ((e, value) ∷ rest) =
    (e.offset + e.size ≤ config_size) × (length value ≤ e.size) × AllApart e rest × Fit rest

place-store_all :
    (e : KeyMap) (xs : List (KeyMap × List ℕ)) (config : List ℕ)
    → AllApart e xs
    → place e (store_all xs config) ≡ place e config
place-store_all e [] config h = refl
place-store_all e ((other, value) ∷ rest) config (inl before, small, h) =
    place-store_all e rest (store_value other value config) h
    ∙ place-behind other value config e small before
place-store_all e ((other, value) ∷ rest) config (inr behind, small, h) =
    place-store_all e rest (store_value other value config) h
    ∙ place-before other value config e behind

store_all-Shows :
    (xs : List (KeyMap × List ℕ)) (config : List ℕ)
    → Fit xs
    → length config ≡ config_size
    → Shows xs (store_all xs config)
store_all-Shows [] config h full = tt
store_all-Shows ((e, value) ∷ rest) config (inside, small, apart, h) full = (
  place-store_all e rest (store_value e value config) apart
      ∙ place-store_value e value config (omega (arith, inside, full)) small,
  store_all-Shows rest (store_value e value config) h (length-store_value e value config ∙ full),
)

-- The keys of a list are those of the entries.
abbrev Keyed : List (ℕ × List ℕ) → List (KeyMap × List ℕ) → Type 0
Keyed [] [] = Unit {0}
Keyed [] (y ∷ ys) = ◌≡◌ {A = ℕ} 0 1
Keyed (x ∷ xs) [] = ◌≡◌ {A = ℕ} 0 1
Keyed ((key, value) ∷ xs) ((e, stored) ∷ ys) =
    (find_map key ≡ some e) × (value ≡ stored) × Keyed xs ys

set_default-fits :
    (key : ℕ) (e : KeyMap) (value : List ℕ) (m : Manager)
    → find_map key ≡ some e
    → length value ≤ e.size
    → m.has_lock ≡ false
    → set_default key (some value) m
      ≡ (esp_ok, record m { default_config = store_value e value m.default_config })
unfolding set_default default_found
set_default-fits key e value m found small unlocked =
    ap (λ o. default_found (fits o (some value)) m) found ∙ stored
  where
    stored :
        default_found (fits (some e) (some value)) m
        ≡ (esp_ok, record m { default_config = store_value e value m.default_config })
    stored = ground (arith, le→leb (length value) e.size small, unlocked)

set_defaults-stores :
    (xs : List (ℕ × List ℕ)) (ys : List (KeyMap × List ℕ)) (m : Manager)
    → Keyed xs ys
    → Fit ys
    → m.has_lock ≡ false
    → set_defaults xs m ≡ (esp_ok, record m { default_config = store_all ys m.default_config })
unfolding set_defaults
set_defaults-stores [] [] m keyed fit unlocked = refl
set_defaults-stores [] (y ∷ ys) m keyed fit unlocked = absurd (omega (arith, keyed))
set_defaults-stores (x ∷ xs) [] m keyed fit unlocked = absurd (omega (arith, keyed))
set_defaults-stores ((key, value) ∷ xs) ((e, stored) ∷ ys) m (found, same, keyed)
      (inside, small, apart, fit) unlocked =
    rw (same, set_default-fits key e stored m found small unlocked)
      (set_defaults-stores xs ys
        (record m { default_config = store_value e stored m.default_config }) keyed fit unlocked)

-- Strings of the build that fit their places.
pub record AreSmall (k : Kconfig) : Type 0 where
  pub ssid : length k.wifi_ssid ≤ 32
  pub password : length k.wifi_password ≤ 64
  pub uri : length k.mqtt_uri ≤ 128
  pub user : length k.mqtt_user ≤ 64
  pub pass : length k.mqtt_password ≤ 64

keyed : (k : Kconfig) → Keyed (defaults k) (settings k)
keyed k = (
  refl,
  by_hand-if k.is_manual k.wifi_ssid,
  (
    refl,
    by_hand-if k.is_manual k.wifi_password,
    (refl, refl, (refl, refl, (refl, refl, (refl, refl, (refl, refl, (refl, refl, tt)))))),
  ),
)

settings-Fit : (k : Kconfig) → AreSmall k → Fit (settings k)
settings-Fit k small = ground (
  arith,
  small,
  length-by_hand k.is_manual k.wifi_ssid 32 (omega arith) small.ssid,
  length-by_hand k.is_manual k.wifi_password 64 (omega arith) small.password,
)

-- Before nvs_manager has its lock, the defaults can be set where the strings of the build fit, and
-- each of the eight stands in its place of the default configuration, the rest of its place cleared:
-- the build's SSID and password if they are set by hand, and else two empty strings; the URI, the
-- user and the password of MQTT; and zeros for the three words of the logger.
pub setup_defaults-Shows :
    (k : Kconfig) (m : Manager)
    → AreSmall k
    → m.has_lock ≡ false
    → length m.default_config ≡ config_size
    → ((setup_defaults k m).0 ≡ esp_ok) × Shows (settings k) (setup_defaults k m).1.default_config
unfolding setup_defaults
setup_defaults-Shows k m small unlocked full =
    let fit = settings-Fit k small in
    rw (set_defaults-stores (defaults k) (settings k) m (keyed k) fit unlocked)
      (refl, store_all-Shows (settings k) m.default_config fit full)
