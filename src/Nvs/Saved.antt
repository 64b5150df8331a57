-- ===== src/Nvs/Saved.antt =====
-- What components/nvs_manager/nvs_manager.c saves is what it loads, and a load that fails falls back
-- on the shadow.
use modbus_vault.Base.{ℕ, ◌≡◌, ◌⊎◌, refl, sym, ap, ◌∙◌, Bool, true, false, List, arith, length}
use modbus_vault.Base.Words.{AreBytes}
use modbus_vault.Base.{EspErr, esp_ok, is_ok}
use modbus_vault.Nvs.{
  Ops, Manager, State, config_size, seal, check, can_load, save_config, load_config, written,
  committed, loaded, settle,
}
use modbus_vault.Nvs.Layout.{check-seal, length-seal}

module _ {F : Type 0} (ops : Ops F) where
  -- A blob that was written and committed is what a read into a buffer of its size returns.
  pub record IsStore : Type 0 where
    pub read-commit-write :
        (handle : ℕ) (blob buffer : List ℕ) (f : F)
        → is_ok (ops.write handle blob f).0 ≡ true
        → is_ok (ops.commit handle (ops.write handle blob f).1).0 ≡ true
        → length buffer ≡ length blob
        → (f' : F) × (ops.read handle buffer (ops.commit handle (ops.write handle blob f).1).1
            ≡ (esp_ok, blob, f'))

  -- What a save that succeeds has done.
  pub record Saves (s : State F) : Type 0 where
    pub writes : is_ok (ops.write s.manager.handle (seal s.manager.app_config) s.flash).0 ≡ true
    pub commits :
        is_ok
          (ops.commit s.manager.handle
            (ops.write s.manager.handle (seal s.manager.app_config) s.flash).1).0
        ≡ true
    pub keeps : (save_config ops true s).1 ≡ record {
      manager = record s.manager {
        app_config = seal s.manager.app_config;
        shadow_app_config = seal s.manager.app_config;
        is_dirty = false;
      };
      flash =
          (ops.commit s.manager.handle
            (ops.write s.manager.handle (seal s.manager.app_config) s.flash).1).1;
    }

  pub save_config-Saves : (s : State F) → is_ok (save_config ops true s).0 ≡ true → Saves s
  unfolding save_config written committed
  save_config-Saves s good = record {
    writes = ground (arith, good);
    commits = ground (arith, good);
    keeps = ground (arith, good);
  }

  -- A save keeps the lock, and the configuration but for its version and its CRC.
  pub save_config-keeps :
      (taken : Bool) (s : State F)
      → let m = (save_config ops taken s).1.manager in
        (m.has_lock ≡ s.manager.has_lock)
        × ((m.app_config ≡ s.manager.app_config) ⊎ (m.app_config ≡ seal s.manager.app_config))
  unfolding save_config written committed
  save_config-keeps taken s = ground arith

  load_config-reads :
      (m : Manager) (f : F)
      → can_load ops m ≡ true
      → load_config ops true (record { manager = m; flash = f })
        ≡ loaded ops m (ops.read m.handle m.app_config f)
  unfolding load_config
  load_config-reads m f able = rw able refl

  loaded-checked :
      (m : Manager) (config : List ℕ) (f : F)
      → check config ≡ esp_ok
      → loaded ops m (esp_ok, config, f) ≡ (
        esp_ok,
        record {
          manager = record m { app_config = config; shadow_app_config = config; is_dirty = false };
          flash = f;
        },
      )
  unfolding loaded settle
  loaded-checked m config f good = rw good refl

  -- Where the hooks are a store, a configuration that was saved is loaded again, with the version
  -- and the CRC that the save gave it, by whatever manager has the handle, and becomes its shadow.
  pub load_config-save_config :
      IsStore
      → (s : State F) (m : Manager) → length s.manager.app_config ≡ config_size
      → AreBytes s.manager.app_config
      → is_ok (save_config ops true s).0 ≡ true
      → can_load ops m ≡ true
      → m.handle ≡ s.manager.handle
      → length m.app_config ≡ config_size
      → (f' : F) × (load_config ops true
            (record { manager = m; flash = (save_config ops true s).1.flash })
          ≡ (
            esp_ok,
            record {
              manager = record m {
                app_config = seal s.manager.app_config;
                shadow_app_config = seal s.manager.app_config;
                is_dirty = false;
              };
              flash = f';
            },
          ))
  load_config-save_config store s m full bytes saved able same sized =
      let saves = save_config-Saves s saved in
      let (f', back) =
        store.read-commit-write s.manager.handle (seal s.manager.app_config) m.app_config s.flash
          saves.writes saves.commits (sized ∙ sym full ∙ sym (length-seal s.manager.app_config)) in
      let kept : (save_config ops true s).1.flash ≡ _ = ap (λ t. t.flash) saves.keeps in
      (
        f',
        load_config-reads m (save_config ops true s).1.flash able
            ∙ ap (λ f. loaded ops m (ops.read m.handle m.app_config f)) kept
            ∙ ap
                (λ h. loaded ops m (
                  ops.read h m.app_config
                    (ops.commit s.manager.handle
                      (ops.write s.manager.handle (seal s.manager.app_config) s.flash).1).1))
                same
            ∙ ap (loaded ops m) back
            ∙ loaded-checked m (seal s.manager.app_config) f'
                (check-seal s.manager.app_config full bytes),
      )

  -- What a read leads to.
  pub loaded-cases :
      (m : Manager) (e : EspErr) (config : List ℕ) (f : F)
      → ((is_ok (loaded ops m (e, config, f)).0 ≡ false)
          × ((loaded ops m (e, config, f)).1.manager
              ≡ record m { app_config = m.shadow_app_config; is_dirty = false }))
        ⊎ ((is_ok (loaded ops m (e, config, f)).0 ≡ true)
            × (check config ≡ esp_ok)
            × ((loaded ops m (e, config, f)).1.manager
                ≡ record m { app_config = config; shadow_app_config = config; is_dirty = false }))
  unfolding loaded settle
  loaded-cases m e config f = ground arith

  -- A load leaves the configuration equal to the shadow. If it succeeds the shadow passes the checks,
  -- and if it fails, for whatever reason, the shadow is what it was.
  pub load_config-settles :
      (taken : Bool) (s : State F)
      → ((load_config ops taken s).1.manager.app_config
          ≡ (load_config ops taken s).1.manager.shadow_app_config)
        × (((is_ok (load_config ops taken s).0 ≡ true)
              × (check (load_config ops taken s).1.manager.shadow_app_config ≡ esp_ok))
            ⊎ ((is_ok (load_config ops taken s).0 ≡ false)
                × ((load_config ops taken s).1.manager.shadow_app_config
                    ≡ s.manager.shadow_app_config)))
  unfolding load_config settle loaded
  load_config-settles taken s = (ground arith, ground arith)
