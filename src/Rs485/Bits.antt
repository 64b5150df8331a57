-- ===== src/Rs485/Bits.antt =====
-- The silence between frames that follows from a line's settings: the length of a character by
-- components/rs485_driver/rs485_driver.c, the time by modbus_slicer.c.
use modbus_vault.Base.{◌*◌, ◌≤◌, ◌<◌, ◌≡◌, refl, ap, subst, ◌∙◌, true, false, some, arith}
use modbus_vault.Modbus.Slicer.{Config, silence_us}
use modbus_vault.Modbus.Slicer.Silence.{silence_us-bounds}
use modbus_vault.Base.{EspErr, is_ok, ◌⊎◌, inl, inr, Bool-cases}
use modbus_vault.Rs485.{
  LineConfig, frame_bit_length, Rs485Driver, UartCall, driver_install, init, configure, give_up,
  deinit,
}

-- A character has 7 to 12 bits.
pub frame_bit_length-bounds :
    (c : LineConfig) → (7 ≤ frame_bit_length c) × (frame_bit_length c ≤ 12)
unfolding frame_bit_length
frame_bit_length-bounds c = (ground arith, ground arith)

-- On a line of at most a million baud, whatever its settings, the silence that the slicer computes
-- for the length of character that the driver reports is at least the exact time of 3.5
-- characters, in spite of the integer divisions, and at most 4.2 characters.
pub line_silence-bounds :
    (line : LineConfig) (c : Config)
    → c.bit_length ≡ frame_bit_length line
    → 0 < c.baudrate
    → c.baudrate ≤ 1_000_000
    → (7 * (frame_bit_length line * 1_000_000) ≤ 2 * (silence_us c * c.baudrate))
      × (5 * (silence_us c * c.baudrate) ≤ 21 * (frame_bit_length line * 1_000_000))
line_silence-bounds line c bits positive slow =
    let (low, high) = frame_bit_length-bounds line in
    subst
      (λ n.
        (7 * (n * 1_000_000) ≤ 2 * (silence_us c * c.baudrate))
        × (5 * (silence_us c * c.baudrate) ≤ 21 * (n * 1_000_000)))
      bits (silence_us-bounds c positive (omega (arith, low, bits)))

module _ {U : Type 0} (call : UartCall → U → EspErr × U) (delete : U → U) where
  configure-bits :
      (line : LineConfig) (d : Rs485Driver) (u : U)
      → (configure call delete line d u).1.bit_length ≡ frame_bit_length line
  unfolding configure
  configure-bits line d u = elim (Bool-cases (is_ok (call driver_install u).0)) [
    | inl good ↦ rw good refl
    | inr bad ↦ rw bad refl
  ]

  give_up-cases :
      (r : EspErr × Rs485Driver × U)
      → ((is_ok r.0 ≡ true) × (give_up call delete r ≡ r))
        ⊎ ((is_ok (give_up call delete r).0 ≡ false)
            × ((give_up call delete r).1.has_event_queue ≡ false))
  unfolding give_up deinit
  give_up-cases (e, d, u) = elim (Bool-cases (is_ok e)) [
    | inl good ↦ inl (good, rw good refl)
    | inr bad ↦ inr (rw bad bad, rw bad refl)
  ]

  -- A driver that was set up reports the length of a character on its line; one that was not has no
  -- event queue.
  pub init-bits :
      (line : LineConfig) (d : Rs485Driver) (u : U)
      → ((is_ok (init call delete (some line) d u).0 ≡ true)
          × ((init call delete (some line) d u).1.bit_length ≡ frame_bit_length line))
        ⊎ ((is_ok (init call delete (some line) d u).0 ≡ false)
            × ((init call delete (some line) d u).1.has_event_queue ≡ false))
  unfolding init
  init-bits line d u = elim (give_up-cases (configure call delete line d u)) [
    | inl (good, same) ↦
        inl
          (ap (λ r. is_ok r.0) same ∙ good, ap (λ r. r.1.bit_length) same ∙ configure-bits line d u)
    | inr failed ↦ inr failed
  ]
