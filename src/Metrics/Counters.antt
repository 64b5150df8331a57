-- ===== src/Metrics/Counters.antt =====
-- components/metrics/metrics.c: a counter for each statistic, counted up by the callback that the
-- module subscribes to the event bus. Each counter is read and written by one atomic operation, so
-- a call is a step for each of them.
use modbus_vault.Base.{
  ℕ, zero, suc, ◌+◌, ◌*◌, Bool, List, Option, none, some, if◌then◌else◌, ltb, set, get_or, take,
}
use modbus_vault.Base.Words.{u32}
use modbus_vault.Base.{EspErr, esp_ok, esp_err_no_mem, esp_err_invalid_arg}
use modbus_vault.EventBus.{Bus, data_of, event_error, subscribe}
use modbus_vault.Metrics.{stat_max}

-- `metrics_increment_stat_helper` on `system_metrics`
unfoldable pub increment : ℕ → List ℕ → List ℕ
increment stat counters =
    if ltb stat stat_max then set counters stat (u32 (get_or counters stat 0 + 1)) else counters

-- The callbacks of the event bus.
pub data Callback : Type 0 where
  on_error_callback : Callback

-- A call of a callback; that of the metrics does not look at its context.
unfoldable pub call : Callback → ℕ → List ℕ → List ℕ → List ℕ
unfolding data_of
call on_error_callback ctx event counters = increment (data_of event) counters

-- The loop of `metrics_reset_all`: the counters below `idx` are cleared.
unfoldable pub reset_below : ℕ → List ℕ → List ℕ
reset_below zero counters = counters
reset_below (suc idx) counters = set (reset_below idx counters) idx 0

unfoldable pub reset_all : List ℕ → List ℕ
unfolding reset_below
reset_all counters = reset_below stat_max counters

subscription_result : Option ℕ → EspErr
subscription_result none = esp_err_no_mem
subscription_result (some slot) = esp_ok

module _ {Q : Type 0} where
  -- `metrics_init`
  unfoldable pub init : Bus Q Callback → List ℕ → EspErr × Bus Q Callback × List ℕ
  unfolding subscription_result
  init b counters =
      let (slot, b') = subscribe event_error on_error_callback 0 b in
      (subscription_result slot, b', reset_all counters)

-- `metrics_get_snapshot`, for a buffer of `buf_length` bytes that is given and is long enough or
-- not: the error, the copy and its length in bytes.
unfoldable pub get_snapshot : Bool → ℕ → List ℕ → EspErr × Option (List ℕ × ℕ)
get_snapshot given buf_length counters =
    if given
    then (if ltb buf_length (stat_max * 4)
        then (esp_err_invalid_arg, none)
        else (esp_ok, some (take stat_max counters, stat_max * 4)))
    else (esp_err_invalid_arg, none)
