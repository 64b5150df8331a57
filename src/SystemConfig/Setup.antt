-- ===== src/SystemConfig/Setup.antt =====
-- How `system_config_setup` of components/system_config/system_config.c ends, and what
-- `system_config_reset` takes back behind it.
use modbus_vault.Base.{ℕ, ◌≡◌, inl, inr, Bool-cases, refl, ◌∙◌, false, if_both, ◌&&◌, List}
use modbus_vault.Base.{EspErr, esp_ok, is_ok}
use modbus_vault.Nvs.{Manager}
use modbus_vault.SystemConfig.Certs.{MqttCerts, load_mqtt_certs}
use modbus_vault.SystemConfig.Certs.Unmapped.{IsMmu, Blank, Owns, load-Owns, reset-Owns}
use modbus_vault.SystemConfig.Timer.{IsTimed, setup-Counts, reset-timers}
use modbus_vault.SystemConfig.{
  Kconfig, SystemConfig, Platform, Taken, Result, needs_provisioning, load_parameters, load_wifi,
  load_mqtt, start_saving, finish_setup, setup, reset,
}

-- The provisioner and the timer map no partition.
pub record IsPlatform {W : Type 0} (platform : Platform W) : Type 0 where
  pub is_mmu : IsMmu platform.mmu
  pub start_provisioner :
      (w : W) → is_mmu.mappings (platform.start_provisioner w).1 ≡ is_mmu.mappings w
  pub create_timer : (w : W) → is_mmu.mappings (platform.create_timer w).1 ≡ is_mmu.mappings w
  pub start_timer : (w : W) → is_mmu.mappings (platform.start_timer w).1 ≡ is_mmu.mappings w
  pub delete_timer : (w : W) → is_mmu.mappings (platform.delete_timer w) ≡ is_mmu.mappings w

module _ {W : Type 0} (platform : Platform W) (laws : IsPlatform platform) where
  abbrev Holds : List ℕ → SystemConfig → W → Type 0
  Holds before c w = Owns platform.mmu laws.is_mmu before c.certs w

  abbrev Kept : List ℕ → Result W → Type 0
  Kept before r = Holds before r.1 r.2

  Owns-same :
      (before : List ℕ) (c : MqttCerts) (w w' : W)
      → laws.is_mmu.mappings w' ≡ laws.is_mmu.mappings w
      → Owns platform.mmu laws.is_mmu before c w
      → Owns platform.mmu laws.is_mmu before c w'
  Owns-same before c w w' same (inl (free, blank, mine)) = inl (free, blank, same ∙ mine)
  Owns-same before c w w' same (inr (held, mine)) = inr (held, same ∙ mine)

  start_saving-Holds :
      (before : List ℕ) (e : EspErr) (c : SystemConfig) (w : W)
      → Holds before c w
      → Holds before (start_saving platform (e, c, w)).1 (start_saving platform (e, c, w)).2
  unfolding start_saving
  start_saving-Holds before e c w h =
      let (created, w1) = platform.create_timer w in
      let (started, w2) = platform.start_timer w1 in
      let h1 = Owns-same before c.certs w w1 (laws.create_timer w) h in
      if_both (Kept before) (is_ok e) _ _
        (if_both (Kept before) (is_ok created) _ _
          (Owns-same before c.certs w1 w2 (laws.start_timer w1) h1) h1)
        h

  finish_setup-Holds :
      (k : Kconfig) (t : Taken) (m : Manager) (before : List ℕ) (e : EspErr) (c : SystemConfig)
      (w : W)
      → Holds before c w
      → let r = finish_setup platform k t m (e, c, w) in Holds before r.1 r.2
  unfolding finish_setup load_mqtt
  finish_setup-Holds k t m before e c w h =
      let (loaded, certs, w') = load_mqtt_certs platform.mmu c.certs w in
      if_both (Kept before) (is_ok e && k.is_secure) _ _
        (start_saving-Holds before loaded (load_mqtt t m (record c { certs = certs })) w'
          (load-Owns platform.mmu laws.is_mmu before c.certs w h))
        (start_saving-Holds before e (load_mqtt t m c) w h)

  setup-Holds :
      (k : Kconfig) (t1 t2 t3 : Taken) (m : Manager) (before : List ℕ) (c : SystemConfig) (w : W)
      → Holds before c w
      → let r = setup platform k t1 t2 t3 m c w in Holds before r.1 r.2
  unfolding setup load_wifi
  setup-Holds k t1 t2 t3 m before c w h =
      let c' : SystemConfig =
        load_wifi t2 m (record c { parameters = load_parameters t1 m c.parameters }) in
      let (e, w') = platform.start_provisioner w in
      let h' = Owns-same before c.certs w w' (laws.start_provisioner w) h in
      if_both (Kept before) (needs_provisioning k c') _ _
        (if_both (Kept before) (is_ok e) _ _ h' (finish_setup-Holds k t3 m before e c' w' h'))
        (finish_setup-Holds k t3 m before esp_ok c' w h)

  -- However the setup ends, on a configuration without a timer, a mapping or a certificate, a reset
  -- behind it leaves as many timers as there were before the setup, no handle of a timer, no buffer
  -- of a certificate set, and the mappings that there were before the setup.
  pub reset-setup :
      (timed : IsTimed platform) (k : Kconfig) (t1 t2 t3 : Taken) (m : Manager) (c : SystemConfig)
      (w : W)
      → c.has_save_timer ≡ false
      → c.certs.map_handle ≡ 0
      → Blank c.certs
      → let (result, c1, w1) = setup platform k t1 t2 t3 m c w in
        let (c2, w2) = reset platform c1 w1 in
        (timed.timers w2 ≡ timed.timers w)
        × (c2.has_save_timer ≡ false)
        × (c2.certs.map_handle ≡ 0)
        × Blank c2.certs
        × (laws.is_mmu.mappings w2 ≡ laws.is_mmu.mappings w)
  reset-setup timed k t1 t2 t3 m c w off free blank =
      let (result, c1, w1) = setup platform k t1 t2 t3 m c w in
      let (no_timer, unmapped, blank', mappings) =
        reset-Holds (laws.is_mmu.mappings w) c1 w1
          (setup-Holds k t1 t2 t3 m (laws.is_mmu.mappings w) c w (inl (free, blank, refl))) in
      (
        reset-timers platform timed (timed.timers w) c1 w1
            (setup-Counts platform timed k t1 t2 t3 m c w off),
        no_timer,
        unmapped,
        blank',
        mappings,
      )
    where
      reset-Holds :
          (before : List ℕ) (c : SystemConfig) (w : W)
          → Holds before c w
          → let (c2, w2) = reset platform c w in
            (c2.has_save_timer ≡ false)
            × (c2.certs.map_handle ≡ 0)
            × Blank c2.certs
            × (laws.is_mmu.mappings w2 ≡ before)
      reset-Holds before c w h =
          unfold reset in
          elim (Bool-cases c.has_save_timer) [
            | inl runs ↦
                let w1 = platform.delete_timer w in
                let done =
                  reset-Owns platform.mmu laws.is_mmu before c.certs w1
                    (Owns-same before c.certs w w1 (laws.delete_timer w) h) in
                rw runs (refl, done.0, done.1, done.2)
            | inr off ↦
                let done = reset-Owns platform.mmu laws.is_mmu before c.certs w h in
                rw off (refl, done.0, done.1, done.2)
          ]
