-- ===== src/Rs485.antt =====
-- components/rs485_driver/rs485_driver.c: what the driver's task makes of an event of the UART, and
-- the set-up of the UART. The UART driver of ESP-IDF is a parameter, with the bytes that it has
-- received as its documented content.
pub mod Capture
pub mod Bits
mod Tests
use modbus_vault.Base.{
  ℕ, zero, suc, ◌+◌, ◌≤◌, ◌≡◌, Bool, true, false, List, [], ◌∷◌, Option, none, some, if◌then◌else◌,
  ltb, ◌==◌, ◌||◌, length, take, drop,
}
use modbus_vault.Base.{EspErr, esp_ok, esp_err_invalid_arg, is_ok}
use modbus_vault.Modbus.Analyzer.{DriverEvent}

abbrev pub task_buffer_size : ℕ
task_buffer_size = 256

-- The events of the UART that the task tells apart; a data event carries its `timeout_flag`.
pub data UartEvent : Type 0 where
  uart_data : Bool → UartEvent
  uart_fifo_ovf uart_buffer_full uart_parity_err uart_frame_err uart_other : UartEvent

-- `uart_get_buffered_data_len`, `uart_read_bytes` without waiting, `uart_flush_input`, and
-- `xQueueReset` on the UART's event queue.
pub record Uart (U : Type 0) : Type 0 where
  pub buffered_length : U → ℕ
  pub read_bytes : ℕ → U → List ℕ × U
  pub flush_input : U → U
  pub reset_queue : U → U

-- A read takes bytes from the front of what was received.
pub record IsUart {U : Type 0} (uart : Uart U) : Type 0 where
  pub bytes : U → List ℕ
  pub buffered : (u : U) → uart.buffered_length u ≡ length (bytes u)
  pub read :
      (n : ℕ) (u : U)
      → n ≤ length (bytes u)
      → ((uart.read_bytes n u).0 ≡ take n (bytes u))
        × (bytes (uart.read_bytes n u).1 ≡ drop n (bytes u))

-- RS485_DRIVER_EVENT_FLAG_DATA and its like.
abbrev pub flag_data : ℕ
flag_data = 1

abbrev pub flag_rx_timeout : ℕ
flag_rx_timeout = 2

abbrev pub flag_overflow : ℕ
flag_overflow = 4

abbrev pub flag_parity : ℕ
flag_parity = 8

abbrev pub flagged : ℕ → ℕ → DriverEvent
flagged now flags = record { bytes = []; timestamp_us = now; flags = flags }

module _ {U : Type 0} (uart : Uart U) where
  -- The bytes that the task reads: as many as are there, and as its packet holds.
  unfoldable pub to_read : U → ℕ
  to_read u =
      if ltb (uart.buffered_length u) task_buffer_size
      then uart.buffered_length u
      else task_buffer_size

  -- The `switch` of `rs485_driver_task`: the packet, if the event is handled.
  unfoldable pub packet : UartEvent → ℕ → U → Option DriverEvent × U
  unfolding to_read
  packet (uart_data timed_out) now u =
      let (bytes, u') = uart.read_bytes (to_read u) u in
      (
        some (record {
          bytes = bytes;
          timestamp_us = now;
          flags = (if timed_out then flag_rx_timeout else 0) + flag_data;
        }),
        u',
      )
  packet uart_fifo_ovf now u =
      (some (flagged now flag_overflow), uart.reset_queue (uart.flush_input u))
  packet uart_buffer_full now u =
      (some (flagged now flag_overflow), uart.reset_queue (uart.flush_input u))
  packet uart_parity_err now u = (some (flagged now flag_parity), u)
  packet uart_frame_err now u = (some (flagged now flag_parity), u)
  packet uart_other now u = (none, u)

-- The fields of `rs485_driver_config_t` that the length of a character depends on.
pub record LineConfig : Type 0 where
  pub data_bits : ℕ
  pub parity : ℕ
  pub stop_bits : ℕ

-- The `switch` of `rs485_driver_init`: 5 to 8 data bits, any other number is taken as 8.
abbrev pub data_bit_length : ℕ → ℕ
data_bit_length bits = if bits == 5 then 5 else if bits == 6 then 6 else if bits == 7 then 7 else 8

-- `frame_bit_length` as `rs485_driver_init` computes it.
unfoldable pub frame_bit_length : LineConfig → ℕ
frame_bit_length c =
    1
    + data_bit_length c.data_bits
    + (if c.parity == 0 then 0 else 1)
    + (if c.stop_bits == 1 then 1 else 2)

-- The calls that set the UART up, in their order.
pub data UartCall : Type 0 where
  driver_install param_config set_pin set_rx_full_threshold set_rx_timeout set_mode : UartCall

-- `rs485_driver_t`
pub record Rs485Driver : Type 0 where
  pub has_config : Bool
  pub has_event_queue : Bool
  pub bit_length : ℕ

module _ {U : Type 0} (call : UartCall → U → EspErr × U) (delete : U → U) where
  -- `rs485_driver_deinit`, for a driver that is given.
  unfoldable pub deinit : Rs485Driver → U → Rs485Driver × U
  deinit d u = (record d { has_event_queue = false }, if d.has_config then delete u else u)

  -- The calls up to the first that fails.
  unfoldable pub set_up : List UartCall → U → EspErr × U
  set_up [] u = (esp_ok, u)
  set_up (c ∷ calls) u = let (e, u') = call c u in if is_ok e then set_up calls u' else (e, u')

  -- A driver whose event queue the installation made.
  unfoldable pub configure : LineConfig → Rs485Driver → U → EspErr × Rs485Driver × U
  unfolding set_up frame_bit_length
  configure line d u =
      let (installed, u') = call driver_install u in
      let d' : Rs485Driver = record {
        has_config = true;
        has_event_queue = is_ok installed || d.has_event_queue;
        bit_length = frame_bit_length line;
      } in
      if is_ok installed
      then (let (e, u2) =
            set_up (param_config ∷ set_pin ∷ set_rx_full_threshold ∷ set_rx_timeout ∷ set_mode ∷ [])
              u' in
          (e, d', u2))
      else (installed, d', u')

  unfoldable pub give_up : EspErr × Rs485Driver × U → EspErr × Rs485Driver × U
  unfolding deinit
  give_up (e, d, u) = if is_ok e then (e, d, u) else (let (d', u') = deinit d u in (e, d', u'))

  -- `rs485_driver_init`, for a driver that is given; `none` is a NULL `config_ptr`.
  unfoldable pub init : Option LineConfig → Rs485Driver → U → EspErr × Rs485Driver × U
  unfolding configure give_up
  init none d u = give_up (esp_err_invalid_arg, d, u)
  init (some line) d u = give_up (configure line d u)
