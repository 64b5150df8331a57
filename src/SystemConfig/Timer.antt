-- ===== src/SystemConfig/Timer.antt =====
-- The timer that `system_config_setup` of components/system_config/system_config.c creates, and
-- `system_config_reset` deletes.
use modbus_vault.Base.{
  ℕ, suc, ◌+◌, ◌≡◌, inl, inr, Bool, true, false, Bool-cases, refl, ap, ◌∙◌, ◌&&◌, arith, if_both,
}
use modbus_vault.Base.{EspErr, esp_ok, is_ok}
use modbus_vault.Nvs.{Manager}
use modbus_vault.SystemConfig.Certs.{MqttCerts, load_mqtt_certs, reset_certs, mapped, check}
use modbus_vault.SystemConfig.{
  Kconfig, SystemConfig, Platform, Taken, Result, needs_provisioning, load_parameters, load_wifi,
  load_mqtt, start_saving, finish_setup, setup, reset,
}

-- How many timers there are: a creation that succeeds makes one more, a deletion takes one away, and
-- the calls on the partition and the provisioner make none.
pub record IsTimed {W : Type 0} (platform : Platform W) : Type 0 where
  pub timers : W → ℕ
  pub mmap : (w : W) → timers (platform.mmu.mmap w).3 ≡ timers w
  pub munmap : (handle : ℕ) (w : W) → timers (platform.mmu.munmap handle w) ≡ timers w
  pub start_provisioner : (w : W) → timers (platform.start_provisioner w).1 ≡ timers w
  pub created :
      (w : W)
      → is_ok (platform.create_timer w).0 ≡ true
      → timers (platform.create_timer w).1 ≡ suc (timers w)
  pub created_not :
      (w : W)
      → is_ok (platform.create_timer w).0 ≡ false
      → timers (platform.create_timer w).1 ≡ timers w
  pub start_timer : (w : W) → timers (platform.start_timer w).1 ≡ timers w
  pub deleted : (w : W) (n : ℕ) → timers w ≡ suc n → timers (platform.delete_timer w) ≡ n

abbrev one_if : Bool → ℕ
one_if true = 1
one_if false = 0

module _ {W : Type 0} (platform : Platform W) (timed : IsTimed platform) where
  -- The timers are those before, and that of the configuration if it has one.
  abbrev Counts : ℕ → SystemConfig → W → Type 0
  Counts before c w = timed.timers w ≡ before + one_if c.has_save_timer

  load_mqtt_certs-timers :
      (c : MqttCerts) (w : W) → timed.timers (load_mqtt_certs platform.mmu c w).2 ≡ timed.timers w
  unfolding load_mqtt_certs mapped check
  load_mqtt_certs-timers c w =
      let w1 = (platform.mmu.mmap w).3 in
      ground (arith, timed.mmap w, timed.munmap (platform.mmu.mmap w).1 w1)

  reset_certs-timers :
      (c : MqttCerts) (w : W) → timed.timers (reset_certs platform.mmu c w).1 ≡ timed.timers w
  unfolding reset_certs
  reset_certs-timers c w = ground (arith, timed.munmap c.map_handle w)

  start_saving-Counts :
      (before : ℕ) (e : EspErr) (c : SystemConfig) (w : W)
      → c.has_save_timer ≡ false
      → timed.timers w ≡ before
      → let r = start_saving platform (e, c, w) in Counts before r.1 r.2
  unfolding start_saving
  start_saving-Counts before e c w off same =
      let (created, w1) = platform.create_timer w in
      let none_more : Counts before c w = omega (arith, same, ap one_if off) in
      if_both (λ (r : Result W). Counts before r.1 r.2) (is_ok e) _ _
        (elim (Bool-cases (is_ok created)) [
          | inl made ↦ rw made (omega (arith, same, timed.start_timer w1, timed.created w made))
          | inr failed ↦ rw failed (omega (arith, none_more, timed.created_not w failed))
        ])
        none_more

  finish_setup-Counts :
      (k : Kconfig) (t : Taken) (m : Manager) (before : ℕ) (e : EspErr) (c : SystemConfig) (w : W)
      → c.has_save_timer ≡ false
      → timed.timers w ≡ before
      → let r = finish_setup platform k t m (e, c, w) in Counts before r.1 r.2
  unfolding finish_setup load_mqtt
  finish_setup-Counts k t m before e c w off same =
      let (loaded, certs, w') = load_mqtt_certs platform.mmu c.certs w in
      if_both (λ (r : Result W). Counts before r.1 r.2) (is_ok e && k.is_secure) _ _
        (start_saving-Counts before loaded (load_mqtt t m (record c { certs = certs })) w' off
          (load_mqtt_certs-timers c.certs w ∙ same))
        (start_saving-Counts before e (load_mqtt t m c) w off same)

  pub setup-Counts :
      (k : Kconfig) (t1 t2 t3 : Taken) (m : Manager) (c : SystemConfig) (w : W)
      → c.has_save_timer ≡ false
      → let r = setup platform k t1 t2 t3 m c w in Counts (timed.timers w) r.1 r.2
  unfolding setup load_wifi
  setup-Counts k t1 t2 t3 m c w off =
      let c' : SystemConfig =
        load_wifi t2 m (record c { parameters = load_parameters t1 m c.parameters }) in
      let (e, w') = platform.start_provisioner w in
      let same = timed.start_provisioner w in
      if_both (λ (r : Result W). Counts (timed.timers w) r.1 r.2) (needs_provisioning k c') _ _
        (if_both (λ (r : Result W). Counts (timed.timers w) r.1 r.2) (is_ok e) _ _
          (omega (arith, same, ap one_if off))
          (finish_setup-Counts k t3 m (timed.timers w) e c' w' off same))
        (finish_setup-Counts k t3 m (timed.timers w) esp_ok c' w off refl)

  pub reset-timers :
      (before : ℕ) (c : SystemConfig) (w : W)
      → Counts before c w
      → timed.timers (reset platform c w).1 ≡ before
  unfolding reset
  reset-timers before c w counts = elim (Bool-cases c.has_save_timer) [
    | inl runs ↦ rw runs (
        reset_certs-timers c.certs (platform.delete_timer w)
        ∙ timed.deleted w before (omega (arith, counts, ap one_if runs)))
    | inr off ↦ rw off (reset_certs-timers c.certs w ∙ omega (arith, counts, ap one_if off))
  ]
