-- ===== src/Nvs/Tests.antt =====
-- Runs of the NVS manager over a flash that holds one blob.
use modbus_vault.Base.{
  ℕ, zero, suc, ◌≡◌, ◌≢◌, inl, inr, refl, ap, Bool, true, false, List, [], ◌∷◌, map, some, arith,
  length, replicate, if◌then◌else◌, ◌==◌, ==_self, Bool-cases,
}
use modbus_vault.Base.Words.{u8, AreBytes, AreBytes-zeros}
use modbus_vault.Base.{EspErr, esp_ok, esp_fail, esp_err_nvs_no_free_pages, esp_err_invalid_size}
use modbus_vault.Nvs.{
  Ops, Manager, State, KeyMap, boot, config_size, save_config, load_config, seal,
}
use modbus_vault.Nvs.Calls.{
  init, write_cfg, read_cfg, open_and_load, opened, reset_flash, start_timer, give_up,
}
use modbus_vault.Nvs.Saved.{IsStore, load_config-save_config}
use modbus_vault.Nvs.Valid.{IsValid, Reach, here}
use modbus_vault.Nvs.Ready.{starts}
use modbus_vault.Nvs.Start.{ReadsBytes, shadow-IsValid}
use modbus_vault.Nvs.Places.{padded}
use modbus_vault.Nvs.Access.{read_cfg-write_cfg}
use modbus_vault.Nvs.Lost.{reset-never_saves}

-- The blob that was written and the one that is stored; whether there are free pages, and whether a
-- write fails.
pub record Cell : Type 0 where
  pending : List ℕ
  blob : List ℕ
  is_full : Bool
  is_broken : Bool

abbrev open_cell : Cell → EspErr × ℕ × Cell
open_cell f = (esp_ok, 1, f)

-- `keep` is what a read makes of the stored bytes.
abbrev read_cell : (List ℕ → List ℕ) → ℕ → List ℕ → Cell → EspErr × List ℕ × Cell
read_cell keep handle buffer f =
    if length f.blob == length buffer
    then (esp_ok, keep f.blob, f)
    else (esp_err_invalid_size, buffer, f)

unfoldable pub cell_ops : (List ℕ → List ℕ) → Ops Cell
cell_ops keep = record {
  has_init = true;
  has_open = true;
  has_read = true;
  has_write = true;
  has_erase = true;
  has_commit = true;
  has_close = true;
  has_deinit = true;
  init = λ f. (if f.is_full then esp_err_nvs_no_free_pages else esp_ok, f);
  open_storage = open_cell;
  read = read_cell keep;
  write =
      λ handle bytes f. (if f.is_broken then esp_fail else esp_ok, record f { pending = bytes });
  erase = λ f. (esp_ok, record f { blob = []; is_full = false });
  commit = λ handle f. (esp_ok, record f { blob = f.pending });
  close = λ handle f. f;
  deinit = λ f. f;
}

abbrev pub whole : List ℕ → List ℕ
whole bytes = bytes

pub cell_ops-IsStore : IsStore (cell_ops whole)
unfolding cell_ops
cell_ops-IsStore = record {
  read-commit-write = λ handle blob buffer f written stored sized.
      (record f { pending = blob; blob = blob }, rw (sized, ==_self (length blob)) refl);
}

mask-IsConfig :
    (bytes : List ℕ) (n : ℕ)
    → length bytes ≡ n
    → (length (map u8 bytes) ≡ n) × AreBytes (map u8 bytes)
mask-IsConfig [] n h = (h, tt)
mask-IsConfig (b ∷ bytes) zero h = absurd (omega arith)
mask-IsConfig (b ∷ bytes) (suc n) h =
    let rest = mask-IsConfig bytes n (omega arith) in (ap suc rest.0, (omega arith, rest.1))

cell_ops-ReadsBytes : ReadsBytes (cell_ops (λ bytes. map u8 bytes))
unfolding cell_ops
cell_ops-ReadsBytes = record {
  reads = λ handle buffer f h. elim (Bool-cases (length f.blob == length buffer)) [
    | inl same ↦ rw same (mask-IsConfig f.blob config_size (ground (arith, same, h.0)))
    | inr apart ↦ rw apart h
  ];
}

abbrev pub blank : List ℕ
blank = replicate config_size 0

abbrev pub at_work : Manager
at_work = record {
  has_ops = true;
  app_config = replicate config_size 0;
  shadow_app_config = replicate config_size 1;
  handle = 1;
  has_timer = true;
  is_dirty = true;
  has_lock = true;
  default_config = replicate config_size 0;
}

abbrev pub cell : Bool → Bool → Cell
cell is_full is_broken = record {
  pending = [];
  blob = [];
  is_full = is_full;
  is_broken = is_broken;
}

load_config-save_config_example :
    (f' : Cell) × (load_config (cell_ops whole) true (record {
      manager = at_work;
      flash =
          (save_config
            (cell_ops whole)
            true
            (record { manager = at_work; flash = cell false false })).1.flash;
    })
      ≡ (
        esp_ok,
        record {
          manager = record at_work {
            app_config = seal blank;
            shadow_app_config = seal blank;
            is_dirty = false;
          };
          flash = f';
        },
      ))
unfolding save_config cell_ops
load_config-save_config_example =
    load_config-save_config (cell_ops whole) cell_ops-IsStore
      (record { manager = at_work; flash = cell false false }) at_work refl
      (AreBytes-zeros config_size) refl refl refl refl

ssid_entry : KeyMap
ssid_entry = record { key = 0; offset = 4; size = 32 }

read_cfg-write_cfg_example :
    ((write_cfg true 0 (some (65 ∷ 66 ∷ [])) at_work).0 ≡ esp_ok)
    × (read_cfg true 0 true (write_cfg true 0 (some (65 ∷ 66 ∷ [])) at_work).1
        ≡ (esp_ok, some (padded ssid_entry (65 ∷ 66 ∷ []))))
    × ((other : ℕ)
        → 0 ≢ other
        → read_cfg true other true (write_cfg true 0 (some (65 ∷ 66 ∷ [])) at_work).1
          ≡ read_cfg true other true at_work)
unfolding ssid_entry
read_cfg-write_cfg_example =
    read_cfg-write_cfg 0 ssid_entry (65 ∷ 66 ∷ []) at_work refl (omega arith) refl refl

abbrev start_of : Bool → State Cell
start_of is_full = record { manager = boot; flash = cell is_full false }

abbrev masked_ops : Ops Cell
masked_ops = cell_ops (λ bytes. map u8 bytes)

shadow-IsValid_example :
    IsValid (init masked_ops true true esp_ok esp_ok (start_of false)).1.manager
unfolding init boot cell_ops open_and_load opened reset_flash start_timer give_up load_config
shadow-IsValid_example =
    shadow-IsValid masked_ops cell_ops-ReadsBytes true true esp_ok esp_ok (start_of false)
      (init masked_ops true true esp_ok esp_ok (start_of false)).1 (starts boot refl) refl
      (here (init masked_ops true true esp_ok esp_ok (start_of false)).1 refl)

-- A flash without free pages.
reset-never_saves_example :
    ((init (cell_ops whole) true true esp_ok esp_ok (start_of true)).1.manager.app_config
      ≡ boot.app_config)
    × ((t : State Cell)
        → Reach (cell_ops whole) (init (cell_ops whole) true true esp_ok esp_ok (start_of true)).1 t
        → (t.flash ≡ (init (cell_ops whole) true true esp_ok esp_ok (start_of true)).1.flash)
          × (t.manager.handle ≡ 0))
unfolding init boot cell_ops open_and_load opened reset_flash start_timer give_up load_config
reset-never_saves_example =
    reset-never_saves (cell_ops whole) true true esp_ok esp_ok (start_of true) refl refl refl
