-- ===== src/SystemConfig/Certs/Unmapped.antt =====
-- The mapping that `system_config_load_mqtt_certs` of components/system_config/system_config.c makes is
-- taken back by it or by `system_config_reset`.
use modbus_vault.Base.{
  ℕ, ◌≡◌, ◌≢◌, ◌⊎◌, inl, inr, Bool-cases, refl, ap, ◌∙◌, true, false, List, [], ◌∷◌, ◌==◌, ==_ne,
}
use modbus_vault.Base.{is_ok}
use modbus_vault.SystemConfig.Certs.{
  header_magic, header_of, crc_fits, MqttCerts, no_slice, Mmu, check, mapped, load_mqtt_certs,
  reset_certs,
}

-- What is documented of a mapping: it has a handle other than 0, and lasts until it is taken back.
pub record IsMmu {W : Type 0} (mmu : Mmu W) : Type 0 where
  pub mappings : W → List ℕ
  pub maps :
      (w : W)
      → is_ok (mmu.mmap w).0 ≡ true
      → ((mmu.mmap w).1 ≢ 0) × (mappings (mmu.mmap w).3 ≡ (mmu.mmap w).1 ∷ mappings w)
  pub maps_not : (w : W) → is_ok (mmu.mmap w).0 ≡ false → mappings (mmu.mmap w).3 ≡ mappings w
  pub unmaps :
      (w : W) (handle : ℕ) (rest : List ℕ)
      → mappings w ≡ handle ∷ rest
      → mappings (mmu.munmap handle w) ≡ rest

-- No buffer is set.
abbrev pub Blank : MqttCerts → Type 0
Blank c = (c.certificate ≡ no_slice) × (c.key ≡ no_slice) × (c.ca ≡ no_slice)

-- The calls on the certificates.
pub data Call : Type 0 where
  loads resets : Call

module _ {W : Type 0} (mmu : Mmu W) where
  unfoldable pub step : Call → MqttCerts × W → MqttCerts × W
  step loads (c, w) = let (e, c', w') = load_mqtt_certs mmu c w in (c', w')
  step resets (c, w) = reset_certs mmu c w

  unfoldable pub run : List Call → MqttCerts × W → MqttCerts × W
  run [] s = s
  run (x ∷ xs) s = run xs (step x s)

module _ {W : Type 0} (mmu : Mmu W) (laws : IsMmu mmu) where
  -- The mappings of a world that has `before` besides that of the certificates.
  abbrev pub Owns : List ℕ → MqttCerts → W → Type 0
  Owns before c w =
      ((c.map_handle ≡ 0) × Blank c × (laws.mappings w ≡ before))
      ⊎ ((c.map_handle ≢ 0) × (laws.mappings w ≡ c.map_handle ∷ before))

  check-Owns :
      (handle : ℕ) (image before : List ℕ) (c : MqttCerts) (w : W)
      → Blank c
      → handle ≢ 0
      → laws.mappings w ≡ handle ∷ before
      → Owns before (check mmu handle image c w).1 (check mmu handle image c w).2
  unfolding check
  check-Owns handle image before c w blank some_handle mine =
      elim (Bool-cases ((header_of image).magic == header_magic)) [
        | inl magic ↦ elim (Bool-cases (crc_fits image)) [
          | inl fits ↦ rw (magic, fits) (inr (some_handle, mine))
          | inr broken ↦ rw (magic, broken) (inr (some_handle, mine))
        ]
        | inr strange ↦ rw strange (inl (refl, blank, laws.unmaps w handle before mine))
      ]

  mapped-Owns :
      (before : List ℕ) (c : MqttCerts) (w : W)
      → c.map_handle ≡ 0
      → Blank c
      → laws.mappings w ≡ before
      → Owns before (mapped mmu c (mmu.mmap w)).1 (mapped mmu c (mmu.mmap w)).2
  unfolding mapped
  mapped-Owns before c w none_yet blank mine = elim (Bool-cases (is_ok (mmu.mmap w).0)) [
    | inl fine ↦
        let (e, handle, image, w') = mmu.mmap w in
        let (some_handle, grown) = laws.maps w fine in
        rw fine
          (check-Owns handle image before c w' blank some_handle (grown ∙ ap (◌∷◌ handle) mine))
    | inr failed ↦ rw failed (inl (none_yet, blank, laws.maps_not w failed ∙ mine))
  ]

  pub load-Owns :
      (before : List ℕ) (c : MqttCerts) (w : W)
      → Owns before c w
      → Owns before (load_mqtt_certs mmu c w).1 (load_mqtt_certs mmu c w).2
  unfolding load_mqtt_certs
  load-Owns before c w (inl (none_yet, blank, mine)) = elim (Bool-cases (mmu.found w)) [
    | inl there ↦ rw (ap (λ n. n == 0) none_yet, there) (mapped-Owns before c w none_yet blank mine)
    | inr missing ↦ rw (ap (λ n. n == 0) none_yet, missing) (inl (none_yet, blank, mine))
  ]
  load-Owns before c w (inr (held, mine)) = rw (==_ne c.map_handle 0 held) (inr (held, mine))

  pub reset-Owns :
      (before : List ℕ) (c : MqttCerts) (w : W)
      → Owns before c w
      → let (c', w') = reset_certs mmu c w in
        (c'.map_handle ≡ 0) × Blank c' × (laws.mappings w' ≡ before)
  unfolding reset_certs
  reset-Owns before c w (inl (none_yet, blank, mine)) =
      rw (ap (λ n. n == 0) none_yet) (none_yet, blank, mine)
  reset-Owns before c w (inr (held, mine)) =
      rw (==_ne c.map_handle 0 held)
        (refl, (refl, refl, refl), laws.unmaps w c.map_handle before mine)

  run-Owns :
      (xs : List Call) (before : List ℕ) (c : MqttCerts) (w : W)
      → Owns before c w
      → Owns before (run mmu xs (c, w)).0 (run mmu xs (c, w)).1
  unfolding run step
  run-Owns [] before c w owns = owns
  run-Owns (loads ∷ xs) before c w owns =
      let (e, c', w') = load_mqtt_certs mmu c w in
      run-Owns xs before c' w' (load-Owns before c w owns)
  run-Owns (resets ∷ xs) before c w owns =
      let (c', w') = reset_certs mmu c w in
      run-Owns xs before c' w' (inl (reset-Owns before c w owns))

  -- After any loads and resets, successful or not, from a state in which nothing is mapped and no
  -- buffer is set, a reset leaves the mappings that there were at first, and no buffer set.
  pub reset-run :
      (xs : List Call) (c : MqttCerts) (w : W)
      → c.map_handle ≡ 0
      → Blank c
      → let (c', w') = run mmu xs (c, w) in
        let (c'', w'') = reset_certs mmu c' w' in
        (c''.map_handle ≡ 0) × Blank c'' × (laws.mappings w'' ≡ laws.mappings w)
  reset-run xs c w none_yet blank =
      let (c', w') = run mmu xs (c, w) in
      reset-Owns (laws.mappings w) c' w'
        (run-Owns xs (laws.mappings w) c w (inl (none_yet, blank, refl)))
