-- ===== src/SystemConfig/Kept.antt =====
-- The logger's parameters in the configuration that nvs_manager keeps: what the timer's callback of
-- components/system_config/system_config.c writes there is what a load reads from there.
use modbus_vault.Base.{
  ℕ, ◌+◌, ◌-◌, ◌^◌, ◌<◌, ◌≡◌, ◌≢◌, refl, ap, ◌∙◌, Bool, true, false, List, Option, none, some,
  arith, length, length-splice, splice, replicate,
}
use modbus_vault.Base.Words.{write32}
use modbus_vault.Blackbox.{Parameters}
use modbus_vault.Nvs.{Manager, KeyMap, find_map, config_size, store_value}
use modbus_vault.Nvs.Calls.{write_cfg, write_found, read_cfg, fits}
use modbus_vault.Nvs.Access.{read_cfg-write_cfg}
use modbus_vault.SystemConfig.{
  all_taken, save_parameters, load_parameters, word_or, key_write_offset, key_replay_offset,
  key_last_id,
}

-- A manager that was initialised.
abbrev pub Open : Manager → Type 0
Open m = (m.has_lock ≡ true) × (length m.app_config ≡ config_size)

pub length-store_value :
    (entry : KeyMap) (value config : List ℕ)
    → length (store_value entry value config) ≡ length config
unfolding store_value
length-store_value entry value config =
    length-splice (splice config entry.offset value) (entry.offset + length value)
      (replicate (entry.size - length value) 0)
    ∙ length-splice config entry.offset value

write_found-Open :
    (taken : Bool) (o : Option (KeyMap × List ℕ)) (m : Manager)
    → Open m
    → Open (write_found taken o m).1
unfolding write_found
write_found-Open taken none m h = h
write_found-Open false (some (entry, bytes)) m (locked, full) = rw locked (refl, full)
write_found-Open true (some (entry, bytes)) m (locked, full) =
    rw locked (refl, length-store_value entry bytes m.app_config ∙ full)

-- A write leaves an initialised manager, whether it succeeds or not.
pub write_cfg-Open :
    (taken : Bool) (key : ℕ) (value : Option (List ℕ)) (m : Manager)
    → Open m
    → Open (write_cfg taken key value m).1
unfolding write_cfg
write_cfg-Open taken key value m h = write_found-Open taken (fits (find_map key) value) m h

-- The logger's words have places of their own.
abbrev pub word_place : ℕ → ℕ → KeyMap
word_place key offset = record { key = key; offset = offset; size = 4 }

-- What a write of a word leaves: a read of its key gives it, a read of another key what it did.
record Wrote (key word : ℕ) (m m' : Manager) : Type 0 where
  opens : Open m'
  own : (old : ℕ) → word_or old (read_cfg true key true m') ≡ word
  others : (other : ℕ) → key ≢ other → read_cfg true other true m' ≡ read_cfg true other true m

write-Wrote :
    (key offset word : ℕ) (m : Manager)
    → find_map key ≡ some (word_place key offset)
    → word < 2 ^ 32
    → Open m
    → Wrote key word m (write_cfg true key (some (write32 word)) m).1
write-Wrote key offset word m found small is_open =
    let entry = word_place key offset in
    let (fine, own, others) =
      read_cfg-write_cfg key entry (write32 word) m found (omega arith) is_open.0 is_open.1 in
    record {
      opens = write_cfg-Open true key (some (write32 word)) m is_open;
      own = λ old. ap (word_or old) own ∙ omega (arith, small);
      others = others;
    }

-- The parameters that the timer's callback writes, where it has taken the lock each time, are those
-- that a load from the same manager gives, whatever there was before.
pub load_parameters-save_parameters :
    (p old : Parameters) (m : Manager)
    → p.is_dirty ≡ true
    → p.write_offset < 2 ^ 32
    → p.replay_offset < 2 ^ 32
    → p.last_id < 2 ^ 32
    → Open m
    → load_parameters all_taken (save_parameters all_taken p m) old
      ≡ record p { is_dirty = old.is_dirty }
unfolding load_parameters save_parameters
load_parameters-save_parameters p old m dirty w_small r_small i_small is_open = rw dirty (λ i.
    record {
      write_offset = write_offset i;
      replay_offset = replay_offset i;
      last_id = last_id i;
      is_dirty = old.is_dirty;
    })
  where
    m1 : Manager
    m1 = (write_cfg true key_replay_offset (some (write32 p.replay_offset)) m).1

    m2 : Manager
    m2 = (write_cfg true key_write_offset (some (write32 p.write_offset)) m1).1

    m3 : Manager
    m3 = (write_cfg true key_last_id (some (write32 p.last_id)) m2).1

    first : Wrote key_replay_offset p.replay_offset m m1
    first = write-Wrote key_replay_offset 360 p.replay_offset m refl r_small is_open

    second : Wrote key_write_offset p.write_offset m1 m2
    second = write-Wrote key_write_offset 356 p.write_offset m1 refl w_small first.opens

    third : Wrote key_last_id p.last_id m2 m3
    third = write-Wrote key_last_id 364 p.last_id m2 refl i_small second.opens

    write_offset :
        word_or old.write_offset (read_cfg true key_write_offset true m3) ≡ p.write_offset
    write_offset =
        ap (word_or old.write_offset)
          (third.others key_write_offset (λ e. absurd (omega (arith, e))))
        ∙ second.own old.write_offset

    replay_offset :
        word_or old.replay_offset (read_cfg true key_replay_offset true m3) ≡ p.replay_offset
    replay_offset =
        ap (word_or old.replay_offset) (
          third.others key_replay_offset (λ e. absurd (omega (arith, e)))
          ∙ second.others key_replay_offset (λ e. absurd (omega (arith, e))))
        ∙ first.own old.replay_offset

    last_id : word_or old.last_id (read_cfg true key_last_id true m3) ≡ p.last_id
    last_id = third.own old.last_id
