-- ===== src/Rs485/Capture.antt =====
-- From the UART to the analyzer's frame callback: components/rs485_driver/rs485_driver.c with
-- components/modbus_analyzer behind it.
use modbus_vault.Base.{
  ℕ, ◌+◌, ◌/◌, ◌%◌, ◌≤◌, ◌≡◌, refl, sym, ap, ◌∙◌, true, List, [], ◌∷◌, ◌++◌, none, some, arith,
  length, length-append, take, drop,
}
use modbus_vault.Base.Words.{AreBytes}
use modbus_vault.Crc.{crc16}
use modbus_vault.SlabPool.Chain.{IsFree, IsRoomy}
use modbus_vault.Modbus.Analyzer.{Analyzer, DriverEvent, handle_event, frame_bytes}
use modbus_vault.Modbus.Analyzer.Delivery.{frame_event, handle_event-valid_frame}
use modbus_vault.Rs485.{Uart, IsUart, uart_data, packet, to_read, task_buffer_size}

take-all : (xs : List ℕ) → take (length xs) xs ≡ xs
take-all [] = refl
take-all (x ∷ xs) = ap (◌∷◌ x) (take-all xs)

drop-all : (xs : List ℕ) → drop (length xs) xs ≡ []
drop-all [] = refl
drop-all (x ∷ xs) = drop-all xs

module _ {U : Type 0} (uart : Uart U) (law : IsUart uart) where
  to_read-all :
      (u : U) → length (law.bytes u) ≤ task_buffer_size → to_read uart u ≡ length (law.bytes u)
  unfolding to_read
  to_read-all u small = ground (arith, law.buffered u)

  -- What was received, if it fits the packet, is in the packet of the next data event, and nothing of
  -- it is left.
  packet-whole :
      (u : U) (now : ℕ)
      → length (law.bytes u) ≤ task_buffer_size
      → ((packet uart (uart_data true) now u).0 ≡ some (frame_event (law.bytes u) now))
        × (law.bytes (packet uart (uart_data true) now u).1 ≡ [])
  unfolding packet
  packet-whole u now small =
      let n = to_read-all u small in
      let (taken, left) = law.read (to_read uart u) u (omega (arith, n)) in
      (
        ap (λ bytes. some (frame_event bytes now))
            (taken ∙ ap (λ k. take k (law.bytes u)) n ∙ take-all (law.bytes u)),
        left ∙ ap (λ k. drop k (law.bytes u)) n ∙ drop-all (law.bytes u),
      )

  -- A frame with its own CRC, of four to 256 bytes, that the UART has received when it reports the
  -- end of a burst is read whole, and the analyzer behind the driver, idle and with a free slab,
  -- hands it on once, in that slab and with the time of the event; no error is published, and
  -- nothing is left in the UART.
  pub captured-frame :
      (u : U) (a : Analyzer) (i : ℕ) (nodes : List ℕ) (b : ℕ) (bs : List ℕ) (now : ℕ)
      → IsFree a.pool (i ∷ nodes)
      → IsRoomy a.pool
      → a.slicer.slab_ptr ≡ none
      → a.slicer.config.has_frame_func ≡ true
      → a.has_frame_cb ≡ true
      → AreBytes (b ∷ bs)
      → 1 ≤ length bs
      → length bs + 3 ≤ task_buffer_size
      → law.bytes u ≡ b ∷ bs ++ crc16 (b ∷ bs) % 256 ∷ crc16 (b ∷ bs) / 256 ∷ []
      → (e : DriverEvent) × ((packet uart (uart_data true) now u).0 ≡ some e)
        × (law.bytes (packet uart (uart_data true) now u).1 ≡ [])
        × ((handle_event a e).handed ≡ a.handed ++ record { slab_ptr = i; timestamp_us = now } ∷ [])
        × (frame_bytes (handle_event a e).pool i ≡ law.bytes u)
        × ((handle_event a e).published ≡ a.published)
        × ((handle_event a e).slicer.slab_ptr ≡ none)
  captured-frame u a i nodes b bs now v room idle cb out bytes long short received =
      let frame = b ∷ bs ++ crc16 (b ∷ bs) % 256 ∷ crc16 (b ∷ bs) / 256 ∷ [] in
      let (got, left) = packet-whole u now (
        omega (
          arith,
          ap length received,
          length-append bs (crc16 (b ∷ bs) % 256 ∷ crc16 (b ∷ bs) / 256 ∷ []),
        )) in
      let (handed, stored, quiet, done, free) =
        handle_event-valid_frame a i nodes b bs now v room idle cb out bytes long (omega arith) in
      (
        frame_event frame now,
        got ∙ ap (λ bytes. some (frame_event bytes now)) received,
        left,
        handed,
        stored ∙ sym received,
        quiet,
        done,
      )
