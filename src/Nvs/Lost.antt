-- ===== src/Nvs/Lost.antt =====
-- Changes that components/nvs_manager/nvs_manager.c never saves: those behind a save that failed,
-- and all of them after a reset of the storage.
use modbus_vault.Base.{
  ℕ, ◌≡◌, ◌⊎◌, inl, inr, refl, sym, ap, subst, ◌∙◌, Bool, true, false, List, Option, arith,
}
use modbus_vault.Base.{EspErr, is_ok}
use modbus_vault.Nvs.{Ops, Manager, State, KeyMap, find_map, save_config, written, committed}
use modbus_vault.Nvs.Calls.{
  write_cfg, write_found, fits, save_changes, check_dirty_commit, clear_dirty, init, take_defaults,
  open_and_load, reset_flash, start_timer,
}
use modbus_vault.Nvs.Valid.{
  Step, writes, flushes, saves_changes, clears_dirty, Reach, here, step, save_changes-cases,
}
use modbus_vault.Nvs.Start.{init-good, started, reset_flash-manager}

write_found-handle :
    (taken : Bool) (found : Option (KeyMap × List ℕ)) (m : Manager)
    → (write_found taken found m).1.handle ≡ m.handle
unfolding write_found
write_found-handle taken found m = ground arith

module _ {F : Type 0} (ops : Ops F) where
  save_config-failed :
      (taken : Bool) (s : State F)
      → is_ok (save_config ops taken s).0 ≡ false
      → (save_config ops taken s).1.manager.shadow_app_config ≡ s.manager.shadow_app_config
  unfolding save_config written committed
  save_config-failed taken s bad = ground (arith, bad)

  save_changes-failed :
      (compare_taken save_taken : Bool) (s : State F)
      → (compare_taken ≡ false) ⊎ (is_ok (save_config ops save_taken s).0 ≡ false)
      → (save_changes ops compare_taken save_taken s).manager.shadow_app_config
        ≡ s.manager.shadow_app_config
  unfolding save_changes
  save_changes-failed compare_taken save_taken s (inl late) = ground (arith, late)
  save_changes-failed compare_taken save_taken s (inr bad) =
      elim (save_changes-cases ops compare_taken save_taken s) [
        | inl same ↦ ap (λ t. t.manager.shadow_app_config) same
        | inr saved ↦
            ap (λ t. t.manager.shadow_app_config) saved ∙ save_config-failed save_taken s bad
      ]

  check_dirty_commit-dirty :
      (a b : Bool) (s : State F)
      → s.manager.is_dirty ≡ true
      → check_dirty_commit ops a b s ≡ clear_dirty ops (save_changes ops a b s)
  unfolding check_dirty_commit
  check_dirty_commit-dirty a b s dirty = ground (arith, dirty)

  check_dirty_commit-clear :
      (a b : Bool) (s : State F)
      → check_dirty_commit ops a b (clear_dirty ops s) ≡ clear_dirty ops s
  unfolding check_dirty_commit
  check_dirty_commit-clear a b s = refl

  -- A change that the timer's callback could not save, since a lock was not free in time or a hook
  -- failed, is in no saved configuration, and no later round of the callback tries again.
  pub check_dirty_commit-forgets :
      (compare_taken save_taken : Bool) (s : State F)
      → s.manager.is_dirty ≡ true
      → (compare_taken ≡ false) ⊎ (is_ok (save_config ops save_taken s).0 ≡ false)
      → ((check_dirty_commit ops compare_taken save_taken s).manager.shadow_app_config
          ≡ s.manager.shadow_app_config)
        × ((a b : Bool)
            → check_dirty_commit ops a b (check_dirty_commit ops compare_taken save_taken s)
              ≡ check_dirty_commit ops compare_taken save_taken s)
  check_dirty_commit-forgets compare_taken save_taken s dirty fails =
      let eq = check_dirty_commit-dirty compare_taken save_taken s dirty in
      (
        ap (λ t. t.manager.shadow_app_config) eq
            ∙ save_changes-failed compare_taken save_taken s fails,
        λ a b.
            subst (λ t. check_dirty_commit ops a b t ≡ t) (sym eq)
              (check_dirty_commit-clear a b (save_changes ops compare_taken save_taken s)),
      )

  -- Without a handle nothing is written.
  abbrev Idle : State F → State F → Type 0
  Idle s t = (t.manager.handle ≡ 0) × (t.flash ≡ s.flash)

  save_config-Idle : (taken : Bool) (s t : State F) → Idle s t → Idle s (save_config ops taken t).1
  unfolding save_config
  save_config-Idle taken s t h = (ground (arith, h.0), ground (arith, h.0, h.1))

  write_cfg-handle :
      (taken : Bool) (key : ℕ) (value : Option (List ℕ)) (m : Manager)
      → (write_cfg taken key value m).1.handle ≡ m.handle
  unfolding write_cfg
  write_cfg-handle taken key value m = write_found-handle taken (fits (find_map key) value) m

  Step-Idle : (s t u : State F) → Idle s t → Step ops t u → Idle s u
  Step-Idle s t u h (writes taken key value bytes eq) =
      subst (Idle s) (sym eq) (write_cfg-handle taken key value t.manager ∙ h.0, h.1)
  Step-Idle s t u h (flushes taken eq) = subst (Idle s) (sym eq) (save_config-Idle taken s t h)
  Step-Idle s t u h (saves_changes a b eq) = elim (save_changes-cases ops a b t) [
    | inl same ↦ subst (Idle s) (sym (eq ∙ same)) h
    | inr saved ↦ subst (Idle s) (sym (eq ∙ saved)) (save_config-Idle b s t h)
  ]
  Step-Idle s t u h (clears_dirty eq) = subst (Idle s) (sym eq) h

  Reach-Idle : (s t : State F) → s.manager.handle ≡ 0 → Reach ops s t → Idle s t
  Reach-Idle s t h (here _ eq) = subst (Idle s) (sym eq) (h, refl)
  Reach-Idle s u h (step {t} reached last) = Step-Idle s t u (Reach-Idle s t h reached) last

  start_timer-keeps :
      (create start : EspErr) (r : EspErr × State F)
      → ((start_timer ops create start r).1.manager.handle ≡ r.1.manager.handle)
        × ((start_timer ops create start r).1.manager.app_config ≡ r.1.manager.app_config)
  unfolding start_timer
  start_timer-keeps create start r = (ground arith, ground arith)

  abbrev defaulted : State F → State F
  defaulted s = record {
    manager = take_defaults (record s.manager { has_lock = true; has_ops = true });
    flash = (ops.init s.flash).1;
  }

  kept_handle : (s : State F) → (defaulted s).manager.handle ≡ s.manager.handle
  unfolding take_defaults
  kept_handle s = refl

  kept_config : (s : State F) → (defaulted s).manager.app_config ≡ s.manager.app_config
  unfolding take_defaults
  kept_config s = refl

  open_and_load-bad :
      (s : State F)
      → is_ok (ops.init s.flash).0 ≡ false
      → (open_and_load ops (ops.init s.flash).0 (defaulted s)).1.manager ≡ (defaulted s).manager
  unfolding open_and_load
  open_and_load-bad s bad = rw bad refl

  started-keeps :
      (create start : EspErr) (s : State F)
      → is_ok (ops.init s.flash).0 ≡ false
      → ((started ops create start s).1.manager.handle ≡ s.manager.handle)
        × ((started ops create start s).1.manager.app_config ≡ s.manager.app_config)
  started-keeps create start s bad =
      let opens = open_and_load ops (ops.init s.flash).0 (defaulted s) in
      let (handle, config) = start_timer-keeps create start (reset_flash ops opens) in
      let same = reset_flash-manager ops opens ∙ open_and_load-bad s bad in
      (
        handle ∙ ap (λ m. m.handle) same ∙ kept_handle s,
        config ∙ ap (λ m. m.app_config) same ∙ kept_config s,
      )

  -- An initialisation that succeeds though the init of the flash failed at first, so that the storage
  -- was reset, has no handle and leaves the configuration as it was before, without the defaults; no
  -- write, save or round of the timer's callback ever changes the flash again.
  pub reset-never_saves :
      (given created : Bool) (create start : EspErr) (s : State F)
      → s.manager.handle ≡ 0
      → is_ok (ops.init s.flash).0 ≡ false
      → is_ok (init ops given created create start s).0 ≡ true
      → ((init ops given created create start s).1.manager.app_config ≡ s.manager.app_config)
        × ((t : State F)
            → Reach ops (init ops given created create start s).1 t
            → (t.flash ≡ (init ops given created create start s).1.flash) × (t.manager.handle ≡ 0))
  reset-never_saves given created create start s no_handle bad good =
      let eq = init-good ops given created create start s good in
      let (handle, config) = started-keeps create start s bad in
      (
        ap (λ r. r.1.manager.app_config) eq ∙ config,
        λ t reached.
            let idle =
              Reach-Idle (init ops given created create start s).1 t
                (ap (λ r. r.1.manager.handle) eq ∙ handle ∙ no_handle) reached in
            (idle.1, idle.0),
      )
