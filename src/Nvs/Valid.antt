-- ===== src/Nvs/Valid.antt =====
-- The invariant of components/nvs_manager/nvs_manager.c: the shadow is a configuration that would
-- pass the checks of a load, so that falling back on it is safe.
use modbus_vault.Base.{
  ℕ, ◌+◌, ◌-◌, ◌≡◌, ◌⊎◌, inl, inr, Bool-cases, sym, subst, ◌∙◌, Bool, true, false, leb, List,
  Option, none, some, arith, length, splice, replicate, length-splice,
}
use modbus_vault.Base.Words.{AreBytes, AreBytes-splice, AreBytes-zeros}
use modbus_vault.Base.{esp_ok}
use modbus_vault.Nvs.{
  Ops, Manager, State, KeyMap, find_map, config_size, seal, check, store_value, save_config,
  written, committed,
}
use modbus_vault.Nvs.Layout.{check-seal, length-seal, seal-AreBytes}
use modbus_vault.Nvs.Calls.{write_cfg, write_found, fits, save_changes, clear_dirty}

abbrev pub IsConfig : List ℕ → Type 0
IsConfig config = (length config ≡ config_size) × AreBytes config

-- Both structures are configurations, and the shadow passes the checks.
abbrev pub IsValid : Manager → Type 0
IsValid m =
    IsConfig m.app_config × IsConfig m.shadow_app_config × (check m.shadow_app_config ≡ esp_ok)

pub store_value-IsConfig :
    (entry : KeyMap) (value config : List ℕ)
    → AreBytes value
    → IsConfig config
    → IsConfig (store_value entry value config)
unfolding store_value
store_value-IsConfig entry value config bytes (full, h) =
    let zeros = replicate (entry.size - length value) 0 in
    let first = splice config entry.offset value in
    (
      length-splice first (entry.offset + length value) zeros
          ∙ length-splice config entry.offset value
          ∙ full,
      AreBytes-splice first (entry.offset + length value) zeros
          (AreBytes-splice config entry.offset value h bytes) (AreBytes-zeros _),
    )

-- A value of bytes, or NULL.
abbrev pub IsValue : Option (List ℕ) → Type 0
IsValue none = Unit {0}
IsValue (some value) = AreBytes value

abbrev pub IsFound : Option (KeyMap × List ℕ) → Type 0
IsFound none = Unit {0}
IsFound (some (entry, bytes)) = AreBytes bytes

pub fits-IsFound :
    (o : Option KeyMap) (value : Option (List ℕ)) → IsValue value → IsFound (fits o value)
fits-IsFound none value h = tt
fits-IsFound (some entry) none h = tt
fits-IsFound (some entry) (some value) h = elim (Bool-cases (leb (length value) entry.size)) [
  | inl small ↦ rw small h
  | inr large ↦ rw large tt
]

write_found-cases :
    (taken : Bool) (entry : KeyMap) (value : List ℕ) (m : Manager)
    → ((write_found taken (some (entry, value)) m).1 ≡ m)
      ⊎ ((write_found taken (some (entry, value)) m).1
          ≡ record m { app_config = store_value entry value m.app_config; is_dirty = true })
unfolding write_found
write_found-cases taken entry value m = ground arith

write_found-IsValid :
    (taken : Bool) (found : Option (KeyMap × List ℕ)) (m : Manager)
    → IsFound found
    → IsValid m
    → IsValid (write_found taken found m).1
unfolding write_found
write_found-IsValid taken none m bytes h = h
write_found-IsValid taken (some (entry, value)) m bytes h =
    elim (write_found-cases taken entry value m) [
      | inl same ↦ subst IsValid (sym same) h
      | inr stored ↦
          subst IsValid (sym stored)
            (store_value-IsConfig entry value m.app_config bytes h.0, h.1, h.2)
    ]

module _ {F : Type 0} (ops : Ops F) where
  abbrev sealed : Manager → Manager
  sealed m = record m { app_config = seal m.app_config }

  abbrev saved_manager : Manager → Manager
  saved_manager m = record m {
    app_config = seal m.app_config;
    shadow_app_config = seal m.app_config;
    is_dirty = false;
  }

  save_config-cases :
      (taken : Bool) (s : State F)
      → ((save_config ops taken s).1.manager ≡ s.manager)
        ⊎ ((save_config ops taken s).1.manager ≡ sealed s.manager)
        ⊎ ((save_config ops taken s).1.manager ≡ saved_manager s.manager)
  unfolding save_config written committed
  save_config-cases taken s = ground arith

  seal-IsConfig : (config : List ℕ) → IsConfig config → IsConfig (seal config)
  seal-IsConfig config (full, bytes) = (length-seal config ∙ full, seal-AreBytes config bytes)

  save_config-IsValid :
      (taken : Bool) (s : State F) → IsValid s.manager → IsValid (save_config ops taken s).1.manager
  save_config-IsValid taken s h = elim (save_config-cases taken s) [
    | inl same ↦ subst IsValid (sym same) h
    | inr (inl failed) ↦ subst IsValid (sym failed) (seal-IsConfig _ h.0, h.1, h.2)
    | inr (inr good) ↦
        subst IsValid (sym good)
          (seal-IsConfig _ h.0, seal-IsConfig _ h.0, check-seal _ h.0.0 h.0.1)
  ]

  pub save_changes-cases :
      (a b : Bool) (s : State F)
      → (save_changes ops a b s ≡ s) ⊎ (save_changes ops a b s ≡ (save_config ops b s).1)
  unfolding save_changes
  save_changes-cases a b s = ground arith

  -- What the clients and the timer do to a manager.
  pub data Step (s t : State F) : Type 0 where
    writes :
        (taken : Bool) (key : ℕ) (value : Option (List ℕ))
        → IsValue value
        → t ≡ record s { manager = (write_cfg taken key value s.manager).1 }
        → Step s t
    flushes : (taken : Bool) → t ≡ (save_config ops taken s).1 → Step s t
    saves_changes : (a b : Bool) → t ≡ save_changes ops a b s → Step s t
    clears_dirty : t ≡ clear_dirty ops s → Step s t

  -- The callback of the timer is two steps, between which others may come.
  pub data Reach (s : State F) : State F → Type 0 where
    here : (t : State F) → t ≡ s → Reach s t
    step : {t u : State F} → Reach s t → Step t u → Reach s u

  Step-IsValid : (s t : State F) → IsValid s.manager → Step s t → IsValid t.manager
  unfolding write_cfg
  Step-IsValid s t h (writes taken key value bytes eq) =
      subst (λ t. IsValid t.manager) (sym eq)
        (write_found-IsValid taken (fits (find_map key) value) s.manager
          (fits-IsFound (find_map key) value bytes) h)
  Step-IsValid s t h (flushes taken eq) =
      subst (λ t. IsValid t.manager) (sym eq) (save_config-IsValid taken s h)
  Step-IsValid s t h (saves_changes a b eq) = elim (save_changes-cases a b s) [
    | inl same ↦ subst (λ t. IsValid t.manager) (sym (eq ∙ same)) h
    | inr saved ↦ subst (λ t. IsValid t.manager) (sym (eq ∙ saved)) (save_config-IsValid b s h)
  ]
  Step-IsValid s t h (clears_dirty eq) = subst (λ t. IsValid t.manager) (sym eq) h

  pub Reach-IsValid : (s t : State F) → IsValid s.manager → Reach s t → IsValid t.manager
  Reach-IsValid s t h (here _ eq) = subst (λ t. IsValid t.manager) (sym eq) h
  Reach-IsValid s u h (step {t} reached last) = Step-IsValid t u (Reach-IsValid s t h reached) last
