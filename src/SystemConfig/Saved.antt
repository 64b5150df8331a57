-- ===== src/SystemConfig/Saved.antt =====
-- The logger's parameters over a restart: what the timer of
-- components/system_config/system_config.c gives to nvs_manager, and nvs_manager saves, is what the
-- setup loads after the next initialisation of nvs_manager.
use modbus_vault.Base.{ℕ, ◌^◌, ◌<◌, ◌≡◌, refl, sym, ap, ◌∙◌, true, false, some, arith, length}
use modbus_vault.Base.{esp_ok, is_ok}
use modbus_vault.Base.Words.{AreBytes, write32}
use modbus_vault.Blackbox.{Parameters}
use modbus_vault.Nvs.{
  Ops, Manager, State, config_size, save_config, load_config, can_load, find_map, seal,
}
use modbus_vault.Nvs.Calls.{write_cfg, fits}
use modbus_vault.Nvs.Saved.{IsStore, load_config-save_config}
use modbus_vault.SystemConfig.{
  all_taken, save_parameters, load_parameters, word_or, key_write_offset, key_replay_offset,
  key_last_id,
}
use modbus_vault.SystemConfig.Kept.{
  Open, word_place, write_cfg-Open, load_parameters-save_parameters,
}
use modbus_vault.SystemConfig.Credentials.{write_found-bytes, write_found-handle, read-loaded}

-- A manager that can be saved: initialised, of bytes, and with the handle of another.
record Fresh (m m' : Manager) : Type 0 where
  opens : Open m'
  bytes : AreBytes m'.app_config
  handle : m'.handle ≡ m.handle

write_word-Fresh :
    (key word : ℕ) (m m' : Manager)
    → Fresh m m'
    → Fresh m (write_cfg true key (some (write32 word)) m').1
unfolding write_cfg
write_word-Fresh key word m m' h = record {
  opens = write_cfg-Open true key (some (write32 word)) m' h.opens;
  bytes = write_found-bytes true (find_map key) (write32 word) m' h.bytes (ground arith);
  handle = write_found-handle true (fits (find_map key) (some (write32 word))) m' ∙ h.handle;
}

save_parameters-Fresh :
    (p : Parameters) (m : Manager)
    → p.is_dirty ≡ true
    → Open m
    → AreBytes m.app_config
    → Fresh m (save_parameters all_taken p m)
unfolding save_parameters
save_parameters-Fresh p m dirty is_open bytes = rw dirty (
    write_word-Fresh key_last_id p.last_id m _ (
      write_word-Fresh key_write_offset p.write_offset m _ (
        write_word-Fresh key_replay_offset p.replay_offset m m
          (record { opens = is_open; bytes = bytes; handle = refl }))))

-- A manager that has loaded what another saved gives the same parameters.
load_parameters-loaded :
    (w m : Manager) (old : Parameters)
    → w.has_lock ≡ true
    → m.has_lock ≡ true
    → load_parameters all_taken
        (record m {
          app_config = seal w.app_config;
          shadow_app_config = seal w.app_config;
          is_dirty = false;
        })
        old
      ≡ load_parameters all_taken w old
unfolding load_parameters
load_parameters-loaded w m old open_w open_m = λ i. record {
  write_offset = word_or old.write_offset (
      read-loaded key_write_offset (word_place key_write_offset 356) w m refl (omega arith)
        (omega arith) open_w open_m i);
  replay_offset = word_or old.replay_offset (
      read-loaded key_replay_offset (word_place key_replay_offset 360) w m refl (omega arith)
        (omega arith) open_w open_m i);
  last_id = word_or old.last_id (
      read-loaded key_last_id (word_place key_last_id 364) w m refl (omega arith) (omega arith)
        open_w open_m i);
  is_dirty = old.is_dirty;
}

module _ {F : Type 0} (ops : Ops F) where
  -- Changed parameters that the timer's callback writes, with the lock each time, and that
  -- nvs_manager then saves, are in force after the restart: whatever manager then loads the
  -- configuration, the setup gets them from it, whatever it had before.
  pub load_parameters-saved :
      IsStore ops
      → (p old : Parameters) (s : State F) (m : Manager) → p.is_dirty ≡ true
      → p.write_offset < 2 ^ 32
      → p.replay_offset < 2 ^ 32
      → p.last_id < 2 ^ 32
      → Open s.manager
      → AreBytes s.manager.app_config
      → is_ok
          (save_config ops true (record s { manager = save_parameters all_taken p s.manager })).0
        ≡ true
      → can_load ops m ≡ true
      → m.handle ≡ s.manager.handle
      → length m.app_config ≡ config_size
      → let saved =
          save_config ops true (record s { manager = save_parameters all_taken p s.manager }) in
        let loaded = load_config ops true (record { manager = m; flash = saved.1.flash }) in
        (loaded.0 ≡ esp_ok)
        × (load_parameters all_taken loaded.1.manager old ≡ record p { is_dirty = old.is_dirty })
  load_parameters-saved store p old s m dirty w_small r_small i_small is_open bytes saved able same
        sized =
      let w : Manager = save_parameters all_taken p s.manager in
      let fresh = save_parameters-Fresh p s.manager dirty is_open bytes in
      let (f', back) =
        load_config-save_config ops store (record s { manager = w }) m fresh.opens.1 fresh.bytes
          saved able (same ∙ sym fresh.handle) sized in
      (
        ap (λ r. r.0) back,
        ap (λ r. load_parameters all_taken r.1.manager old) back
            ∙ load_parameters-loaded w m old fresh.opens.0 (ground (arith, able))
            ∙ load_parameters-save_parameters p old s.manager dirty w_small r_small i_small is_open,
      )
