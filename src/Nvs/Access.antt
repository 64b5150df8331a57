-- ===== src/Nvs/Access.antt =====
-- The values of components/nvs_manager/nvs_manager.c by their keys: each has a place of its own.
use modbus_vault.Base.{
  ℕ, ◌+◌, ◌≤◌, ◌≡◌, ◌≢◌, ◌⊎◌, inl, inr, Bool-cases, refl, ap, ◌∙◌, true, List, [], ◌∷◌, Option,
  none, some, arith, length, ◌==◌, le→leb,
}
use modbus_vault.Base.{esp_ok}
use modbus_vault.Nvs.{Manager, KeyMap, config_map, find_from, find_map, config_size, store_value}
use modbus_vault.Nvs.Calls.{write_cfg, write_found, read_cfg, read_found, fits}
use modbus_vault.Nvs.Places.{padded, place-store_value, place-before, place-behind}

-- The entries from `n` on, one behind the other, up to the CRC.
abbrev pub AllFrom : ℕ → List KeyMap → Type 0
AllFrom n [] = Unit {0}
AllFrom n (entry ∷ rest) = (n ≤ entry.offset) × AllFrom n rest

abbrev pub InOrder : List KeyMap → Type 0
InOrder [] = Unit {0}
InOrder (entry ∷ rest) =
    AllFrom (entry.offset + entry.size) rest
    × (entry.offset + entry.size ≤ config_size)
    × InOrder rest

found-from :
    (n : ℕ) (entries : List KeyMap) (key : ℕ) (e : KeyMap)
    → AllFrom n entries
    → find_from entries key ≡ some e
    → n ≤ e.offset
found-from n [] key e h found = absurd (ground (arith, found))
found-from n (x ∷ rest) key e h found = elim (Bool-cases (x.key == key)) [
  | inl same ↦ ground (arith, h.0, (rw same at found))
  | inr apart ↦ found-from n rest key e h.1 (rw apart at found)
]

pub found-inside :
    (entries : List KeyMap) (key : ℕ) (e : KeyMap)
    → InOrder entries
    → find_from entries key ≡ some e
    → e.offset + e.size ≤ config_size
found-inside [] key e h found = absurd (ground (arith, found))
found-inside (x ∷ rest) key e h found = elim (Bool-cases (x.key == key)) [
  | inl same ↦ ground (arith, h.1, (rw same at found))
  | inr apart ↦ found-inside rest key e h.2 (rw apart at found)
]

-- The places of two keys do not overlap.
abbrev pub Apart : KeyMap → KeyMap → Type 0
Apart a b = (a.offset + a.size ≤ b.offset) ⊎ (b.offset + b.size ≤ a.offset)

pub found-Apart :
    (entries : List KeyMap) (k l : ℕ) (a b : KeyMap)
    → InOrder entries
    → k ≢ l
    → find_from entries k ≡ some a
    → find_from entries l ≡ some b
    → Apart a b
found-Apart [] k l a b h ne p q = absurd (ground (arith, p))
found-Apart (x ∷ rest) k l a b h ne p q = elim (Bool-cases (x.key == k)) [
  | inl k_here ↦ elim (Bool-cases (x.key == l)) [
    | inl l_here ↦ absurd (ground (arith, k_here, l_here, ne))
    | inr l_later ↦ inl (
        ground
          (arith, (rw k_here at p), found-from (x.offset + x.size) rest l b h.0 (rw l_later at q)))
  ]
  | inr k_later ↦ elim (Bool-cases (x.key == l)) [
    | inl l_here ↦ inr (
        ground
          (arith, (rw l_here at q), found-from (x.offset + x.size) rest k a h.0 (rw k_later at p)))
    | inr l_later ↦ found-Apart rest k l a b h.2 ne (rw k_later at p) (rw l_later at q)
  ]
]

pub map-InOrder : InOrder config_map
map-InOrder = ground arith

pub write_found-fits :
    (entry : KeyMap) (value : List ℕ) (m : Manager)
    → length value ≤ entry.size
    → m.has_lock ≡ true
    → write_found true (fits (some entry) (some value)) m
      ≡ (esp_ok, record m { app_config = store_value entry value m.app_config; is_dirty = true })
unfolding write_found
write_found-fits entry value m small locked =
    ground (arith, le→leb (length value) entry.size small, locked)

read_found-own :
    (entry : KeyMap) (value : List ℕ) (m : Manager)
    → m.has_lock ≡ true
    → length value ≤ entry.size
    → entry.offset + entry.size ≤ length m.app_config
    → read_found true
        (some entry)
        true
        (record m { app_config = store_value entry value m.app_config; is_dirty = true })
      ≡ (esp_ok, some (padded entry value))
unfolding read_found
read_found-own entry value m locked small inside =
    rw locked
      (ap (λ bytes. (esp_ok, some bytes)) (place-store_value entry value m.app_config inside small))

-- A read of another key sees its place as it was.
read_found-other :
    (key other : ℕ) (entry : KeyMap) (value : List ℕ) (m : Manager) (o : Option KeyMap)
    → find_map key ≡ some entry
    → find_map other ≡ o
    → key ≢ other
    → length value ≤ entry.size
    → read_found true o true
        (record m { app_config = store_value entry value m.app_config; is_dirty = true })
      ≡ read_found true o true m
unfolding read_found
read_found-other key other entry value m none p q ne small = refl
read_found-other key other entry value m (some b) p q ne small = elim (Bool-cases m.has_lock) [
  | inl locked ↦ rw locked (
      ap (λ bytes. (esp_ok, some bytes))
        (elim (found-Apart config_map key other entry b map-InOrder ne p q) [
          | inl behind ↦ place-behind entry value m.app_config b small behind
          | inr before ↦ place-before entry value m.app_config b before
        ]))
  | inr free ↦ rw free refl
]

-- A value that fits its key can be written where the lock is taken; then a read of the key returns
-- it, the rest of its place cleared, and a read of any other key what it did before.
pub read_cfg-write_cfg :
    (key : ℕ) (entry : KeyMap) (value : List ℕ) (m : Manager)
    → find_map key ≡ some entry
    → length value ≤ entry.size
    → m.has_lock ≡ true
    → length m.app_config ≡ config_size
    → ((write_cfg true key (some value) m).0 ≡ esp_ok)
      × (read_cfg true key true (write_cfg true key (some value) m).1
          ≡ (esp_ok, some (padded entry value)))
      × ((other : ℕ)
          → key ≢ other
          → read_cfg true other true (write_cfg true key (some value) m).1
            ≡ read_cfg true other true m)
unfolding write_cfg read_cfg
read_cfg-write_cfg key entry value m found small locked full = (
  ap (λ r. r.0) stored,
  ap (λ r. read_found true (find_map key) true r.1) stored ∙ own,
  λ other ne.
      ap (λ r. read_found true (find_map other) true r.1) stored
      ∙ read_found-other key other entry value m (find_map other) found refl ne small,
)
  where
    stored :
        write_found true (fits (find_map key) (some value)) m
        ≡ (esp_ok, record m { app_config = store_value entry value m.app_config; is_dirty = true })
    stored =
        ap (λ o. write_found true (fits o (some value)) m) found
        ∙ write_found-fits entry value m small locked

    own :
        read_found true
          (find_map key)
          true
          (record m { app_config = store_value entry value m.app_config; is_dirty = true })
        ≡ (esp_ok, some (padded entry value))
    own =
        ap
          (λ o.
            read_found true o true
              (record m { app_config = store_value entry value m.app_config; is_dirty = true }))
          found
        ∙ read_found-own entry value m locked small
            (rw full (found-inside config_map key entry map-InOrder found))
