-- ===== src/Base/Errors.antt =====
-- The `esp_err_t` codes of ESP-IDF that the components return or tell apart. `other` stands for
-- every code that no component names.
use Prim.Native.Nat.{ℕ}
use mathlib.Core.Bool.{Bool, true, false}

pub data EspErr : Type 0 where
  esp_ok esp_fail esp_err_no_mem esp_err_invalid_arg esp_err_invalid_state : EspErr
  esp_err_not_found esp_err_invalid_size esp_err_timeout esp_err_invalid_crc
        esp_err_invalid_version :
      EspErr
  esp_err_nvs_no_free_pages esp_err_nvs_new_version_found : EspErr
  other : ℕ → EspErr

-- `err == ESP_OK`
abbrev pub is_ok : EspErr → Bool
is_ok esp_ok = true
is_ok _ = false
