-- ===== src/Nvs/Start.antt =====
-- From the start of the program to a manager at work, in components/nvs_manager/nvs_manager.c.
use modbus_vault.Base.{
  ℕ, ◌≡◌, ◌⊎◌, inl, inr, Bool-cases, refl, sym, subst, Bool, true, false, ◌&&◌, List, arith,
}
use modbus_vault.Base.{EspErr, esp_err_no_mem, esp_err_invalid_arg, is_ok}
use modbus_vault.Nvs.{Ops, Manager, State, load_config, loaded, settle, can_load}
use modbus_vault.Nvs.Saved.{loaded-cases}
use modbus_vault.Nvs.Calls.{
  take_defaults, opened, open_and_load, reset_flash, start_timer, give_up, init,
}
use modbus_vault.Nvs.Valid.{IsConfig, IsValid, Reach, Reach-IsValid}
use modbus_vault.Nvs.Ready.{Configured, Configured-IsReady, take_defaults-IsValid}

module _ {F : Type 0} (ops : Ops F) where
  -- A read fills the buffer that it is given, with bytes.
  pub record ReadsBytes : Type 0 where
    pub reads :
        (handle : ℕ) (buffer : List ℕ) (f : F)
        → IsConfig buffer
        → IsConfig (ops.read handle buffer f).1

  loaded-IsValid :
      (m : Manager) (e : EspErr) (config : List ℕ) (f : F)
      → IsConfig config
      → IsValid m
      → IsValid (loaded ops m (e, config, f)).1.manager
  loaded-IsValid m e config f there h = elim (loaded-cases ops m e config f) [
    | inl (bad, back) ↦ subst IsValid (sym back) (h.1, h.1, h.2)
    | inr (good, passes, kept) ↦ subst IsValid (sym kept) (there, there, passes)
  ]

  load_config-cases :
      (s : State F)
      → (load_config ops true s
          ≡ loaded ops s.manager (ops.read s.manager.handle s.manager.app_config s.flash))
        ⊎ ((load_config ops true s).1.manager
            ≡ record s.manager { app_config = s.manager.shadow_app_config })
  unfolding load_config settle
  load_config-cases s = elim (Bool-cases (can_load ops s.manager)) [
    | inl able ↦ inl (rw able refl)
    | inr unable ↦ inr (rw unable refl)
  ]

  load_config-IsValid :
      ReadsBytes → (s : State F) → IsValid s.manager → IsValid (load_config ops true s).1.manager
  load_config-IsValid law s h = elim (load_config-cases s) [
    | inl reads ↦
        let (e, config, f) = ops.read s.manager.handle s.manager.app_config s.flash in
        subst (λ r. IsValid r.1.manager) (sym reads)
          (loaded-IsValid s.manager e config f
            (law.reads s.manager.handle s.manager.app_config s.flash h.0) h)
    | inr back ↦ subst IsValid (sym back) (h.1, h.1, h.2)
  ]

  opened-IsValid :
      ReadsBytes
      → (s : State F) (e : EspErr) (handle : ℕ) (f : F) → IsValid s.manager
      → IsValid (opened ops s (e, handle, f)).1.manager
  unfolding opened
  opened-IsValid law s e handle f h = elim (Bool-cases (is_ok e)) [
    | inl good ↦ rw good (
        load_config-IsValid law
          (record { manager = record s.manager { handle = handle }; flash = f }) h)
    | inr bad ↦ rw bad h
  ]

  open_and_load-IsValid :
      ReadsBytes
      → (s : State F) (e : EspErr) → IsValid s.manager
      → IsValid (open_and_load ops e s).1.manager
  unfolding open_and_load
  open_and_load-IsValid law s e h = elim (Bool-cases (is_ok e)) [
    | inl good ↦
        let (e', handle, f) = ops.open_storage s.flash in
        rw good (opened-IsValid law s e' handle f h)
    | inr bad ↦ rw bad h
  ]

  pub reset_flash-manager : (r : EspErr × State F) → (reset_flash ops r).1.manager ≡ r.1.manager
  unfolding reset_flash
  reset_flash-manager r = ground arith

  -- A timer that runs leaves the configurations alone.
  start_timer-manager :
      (create start : EspErr) (r : EspErr × State F)
      → IsValid r.1.manager
      → IsValid (start_timer ops create start r).1.manager
  unfolding start_timer
  start_timer-manager create start (e, s) h = elim (Bool-cases (is_ok e)) [
    | inl good ↦ elim (Bool-cases (is_ok create)) [
      | inl created ↦ rw (good, created) h
      | inr failed ↦ rw (good, failed) h
    ]
    | inr bad ↦ rw bad h
  ]

  give_up-good : (r : EspErr × State F) → is_ok (give_up ops r).0 ≡ true → give_up ops r ≡ r
  unfolding give_up
  give_up-good r good = ground (arith, good)

  give_up-bad : (e : EspErr) (s : State F) → is_ok e ≡ false → is_ok (give_up ops (e, s)).0 ≡ false
  unfolding give_up
  give_up-bad e s bad = ground (arith, bad)

  abbrev without_lock : State F → State F
  without_lock s = record s { manager = record s.manager { has_lock = false } }

  -- What runs once the lock is there.
  abbrev pub started : EspErr → EspErr → State F → EspErr × State F
  started create start s = start_timer ops create start (
      reset_flash ops (
        open_and_load ops (ops.init s.flash).0 (record {
          manager = take_defaults (record s.manager { has_lock = true; has_ops = true });
          flash = (ops.init s.flash).1;
        })))

  pub init-good :
      (given created : Bool) (create start : EspErr) (s : State F)
      → is_ok (init ops given created create start s).0 ≡ true
      → init ops given created create start s ≡ started create start s
  unfolding init
  init-good given created create start s good =
      elim (Bool-cases (given && ops.has_init && ops.has_erase && ops.has_open)) [
        | inl able ↦ elim (Bool-cases created) [
          | inl made ↦
              rw (able, made) (give_up-good (started create start s) (rw (able, made) at good))
          | inr failed ↦ absurd (
              ground (
                arith,
                give_up-bad esp_err_no_mem (without_lock s) refl,
                (rw (able, failed) at good),
              ))
        ]
        | inr unable ↦
            absurd (ground (arith, give_up-bad esp_err_invalid_arg s refl, (rw unable at good)))
      ]

  -- After any setting of the defaults, an initialisation that succeeds and any writes, saves and
  -- rounds of the timer's callback, in any order and whatever the hooks answer, the shadow passes the
  -- checks of a load; both structures keep their size.
  pub shadow-IsValid :
      ReadsBytes
      → (given created : Bool) (create start : EspErr) (s t : State F) → Configured s.manager
      → is_ok (init ops given created create start s).0 ≡ true
      → Reach ops (init ops given created create start s).1 t
      → IsValid t.manager
  shadow-IsValid law given created create start s t before good reached =
      let m : Manager = record s.manager { has_lock = true; has_ops = true } in
      let defaults : IsValid (take_defaults m) =
        take_defaults-IsValid m (Configured-IsReady s.manager before) in
      let opens =
        open_and_load-IsValid law
          (record { manager = take_defaults m; flash = (ops.init s.flash).1 }) (ops.init s.flash).0
          defaults in
      let timed : IsValid (started create start s).1.manager =
        start_timer-manager create start
          (reset_flash ops (
            open_and_load ops (ops.init s.flash).0
              (record { manager = take_defaults m; flash = (ops.init s.flash).1 })))
          (subst IsValid
            (sym (
              reset_flash-manager (
                open_and_load ops (ops.init s.flash).0
                  (record { manager = take_defaults m; flash = (ops.init s.flash).1 }))))
            opens) in
      Reach-IsValid ops (init ops given created create start s).1 t
        (subst (λ r. IsValid r.1.manager) (sym (init-good given created create start s good)) timed)
        reached
