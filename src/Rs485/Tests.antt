-- ===== src/Rs485/Tests.antt =====
-- A UART that is the list of the bytes received.
use modbus_vault.Base.{
  ℕ, ◌%◌, ◌/◌, ◌≡◌, refl, true, List, [], ◌∷◌, some, none, arith, length, take, drop, replicate,
}
use modbus_vault.Crc.{crc16}
use modbus_vault.SlabPool.Chain.{init-boot, init-IsRoomy, upfrom}
use modbus_vault.Base.{suc, false, esp_ok}
use modbus_vault.Modbus.Slicer.{silence_us}
use modbus_vault.Modbus.Slicer.Tests.{slicer, pool}
use modbus_vault.Modbus.Analyzer.{Analyzer, DriverEvent, handle_event, frame_bytes}
use modbus_vault.Rs485.{
  Uart, IsUart, LineConfig, uart_data, uart_fifo_ovf, packet, to_read, flagged, frame_bit_length,
  configure, set_up, give_up,
}
use modbus_vault.Rs485.Capture.{captured-frame}
use modbus_vault.Rs485
use modbus_vault.Modbus.Slicer
use modbus_vault.Modbus.Analyzer.Lifecycle
use modbus_vault.Modbus.Analyzer.Lifecycle.{
  Platform, AnalyzerHandle, on_line, init_line, with_driver, IsSilence, init-IsSilence,
}

abbrev received : Uart (List ℕ)
received = record {
  buffered_length = λ u. length u;
  read_bytes = λ n u. (take n u, drop n u);
  flush_input = λ u. [];
  reset_queue = λ u. u;
}

received-IsUart : IsUart received
received-IsUart = record { bytes = λ u. u; buffered = λ u. refl; read = λ n u h. (refl, refl) }

-- More than a packet holds: the end of the burst is reported with the first 256 bytes.
long_burst :
    packet received (uart_data true) 9 (replicate 258 7)
    ≡ (some (record { bytes = replicate 256 7; timestamp_us = 9; flags = 3 }), 7 ∷ 7 ∷ [])
unfolding packet to_read
long_burst = refl

overflow : packet received uart_fifo_ovf 9 (1 ∷ []) ≡ (some (flagged 9 4), [])
unfolding packet
overflow = refl

abbrev analyzer : Analyzer
analyzer = record { slicer = slicer; pool = pool; published = []; handed = []; has_frame_cb = true }

abbrev frame : List ℕ
frame = 1 ∷ 3 ∷ crc16 (1 ∷ 3 ∷ []) % 256 ∷ crc16 (1 ∷ 3 ∷ []) / 256 ∷ []

captured-frame_example :
    (e : DriverEvent) × ((packet received (uart_data true) 100 frame).0 ≡ some e)
    × ((packet received (uart_data true) 100 frame).1 ≡ [])
    × ((handle_event analyzer e).handed ≡ record { slab_ptr = 0; timestamp_us = 100 } ∷ [])
    × (frame_bytes (handle_event analyzer e).pool 0 ≡ frame)
    × ((handle_event analyzer e).published ≡ [])
    × ((handle_event analyzer e).slicer.slab_ptr ≡ none)
unfolding received-IsUart
captured-frame_example =
    captured-frame received received-IsUart frame analyzer 0 (upfrom 1 31) 1 (3 ∷ []) 100
      init-boot.1 init-IsRoomy refl refl refl (omega arith, (omega arith, tt)) (omega arith)
      (omega arith) refl

-- 8 data bits, no parity, one stop bit.
abbrev line : LineConfig
line = record { data_bits = 8; parity = 0; stop_bits = 1 }

-- A line whose every call succeeds; the queue is known by its number.
abbrev platform : Platform ℕ ℕ
platform = record {
  call = λ c u. (esp_ok, u);
  delete = λ u. u;
  create_queue = λ u. (some u, suc u);
  delete_queue = λ q u. u;
}

abbrev handle : AnalyzerHandle ℕ
handle = record {
  rs485_drv = record { has_config = false; has_event_queue = false; bit_length = 0 };
  slicer = slicer;
  raw_events_queue = none;
}

-- At 9600 baud the ten bits of a character take 1041 microseconds.
starts : (Lifecycle.init platform (some (on_line line 9600)) handle 3).1.slicer.t3_5_us ≡ 4371
unfolding Lifecycle.init init_line with_driver Rs485.init configure set_up give_up frame_bit_length
    Slicer.init silence_us
starts = refl

init-IsSilence_example :
    let a' = (Lifecycle.init platform (some (on_line line 9600)) handle 3).1 in
    IsSilence platform line 9600 a'.slicer.t3_5_us × ((q : ℕ) × (a'.raw_events_queue ≡ some q))
unfolding Lifecycle.init init_line with_driver Rs485.init configure set_up give_up
init-IsSilence_example = init-IsSilence platform line 9600 handle 3 (omega arith) (omega arith) refl
