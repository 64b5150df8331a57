-- ===== src/Metrics.antt =====
-- components/metrics: the statistics that the components report, and their counters.
pub mod Counters
pub mod Reported
pub mod Stale
mod Tests
use modbus_vault.Base.{ℕ}

-- `metrics_stat_t`
pub data Stat : Type 0 where
  rs485_driver_overflow_errors rs485_driver_parity_errors modbus_crc_errors : Stat
  modbus_overflow_errors modbus_no_mem_errors telemetry_publish_errors : Stat
  logger_write_errors : Stat

-- The value of the enumerator.
abbrev pub stat_index : Stat → ℕ
stat_index rs485_driver_overflow_errors = 0
stat_index rs485_driver_parity_errors = 1
stat_index modbus_crc_errors = 2
stat_index modbus_overflow_errors = 3
stat_index modbus_no_mem_errors = 4
stat_index telemetry_publish_errors = 5
stat_index logger_write_errors = 6

abbrev pub stat_max : ℕ
stat_max = 7

-- An `event_bus_t` of type EVENT_BUS_EVENT_ERROR.
pub record ErrorEvent : Type 0 where
  pub stat : Stat
  pub timestamp_us : ℕ
