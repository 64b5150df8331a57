-- ===== src/Modbus/Slicer/Silence.antt =====
-- The silence that ends a frame: the pre-computed time against the 3.5 characters that it stands
-- for, and the test against the time of the last byte.
use modbus_vault.Base.{ℕ, ◌+◌, ◌*◌, ◌/◌, ◌≤◌, ◌<◌, ◌≡◌, true, none, arith}
use native.Mathlib.Decide.{dec_lt}
use native.Mathlib.Nat.{div-mul-le_self}
use modbus_vault.SlabPool.{Pool}
use modbus_vault.Modbus.Slicer.{
  Config, Slicer, silence_us, useconds_per_second, timeout, check_timeout,
}

-- In whole characters of `q` microseconds the time lies between 3.5 q and 4.2 q.
silence_of : ℕ → ℕ
silence_of q = 7 * q / 2 + 7 * q / 2 / 5

silence_of-bounds : (q : ℕ) → 7 ≤ q → (7 * (q + 1) ≤ 2 * silence_of q) × (5 * silence_of q ≤ 21 * q)
unfolding silence_of
silence_of-bounds q h = omega arith

scaled : (a b d : ℕ) → a ≤ b → a * d ≤ b * d
scaled a b d h = grind arith

silence-scaled :
    (x d : ℕ)
    → 0 < d
    → 7 * d ≤ x
    → (7 * x ≤ 2 * (silence_of (x / d) * d)) × (5 * (silence_of (x / d) * d) ≤ 21 * x)
silence-scaled x d pos slow =
    (omega (arith, above, scaled _ _ d bounds.0), omega (arith, below, scaled _ _ d bounds.1))
  where
    above : x < (x / d + 1) * d
    above = omega arith

    below : x / d * d ≤ x
    below = div-mul-le_self x d

    long : 7 ≤ x / d
    long = elim (dec_lt (x / d) 7) [
      | yes p ↦ absurd (omega (arith, above, scaled (x / d + 1) 7 d (omega arith)))
      | no p ↦ omega arith
    ]

    bounds : (7 * (x / d + 1) ≤ 2 * silence_of (x / d)) × (5 * silence_of (x / d) ≤ 21 * (x / d))
    bounds = silence_of-bounds (x / d) long

-- Where a character takes 7 microseconds or more, the silence that `modbus_slicer_init` computes is
-- at least the exact time of 3.5 characters, in spite of the integer divisions, and at most 4.2
-- characters.
pub silence_us-bounds :
    (c : Config)
    → 0 < c.baudrate
    → 7 * c.baudrate ≤ c.bit_length * useconds_per_second
    → (7 * (c.bit_length * useconds_per_second) ≤ 2 * (silence_us c * c.baudrate))
      × (5 * (silence_us c * c.baudrate) ≤ 21 * (c.bit_length * useconds_per_second))
unfolding silence_us silence_of
silence_us-bounds c pos slow =
    silence-scaled (c.bit_length * useconds_per_second) c.baudrate pos slow

-- A frame is cut exactly by a silence that is longer than the computed time: while the time since
-- the last byte is at most that, the check changes nothing and hands nothing over.
pub check_timeout-waits :
    (s : Slicer) (p : Pool) (now : ℕ)
    → now ≤ s.last_byte_timestamp_us + s.t3_5_us
    → check_timeout s p now ≡ record { slicer = s; pool = p; frame = none }
unfolding check_timeout
check_timeout-waits s p now h = ground arith

-- After a longer silence the check does what a timeout of the driver does.
pub check_timeout-cuts :
    (s : Slicer) (p : Pool) (now : ℕ)
    → s.config.has_time_func ≡ true
    → s.last_byte_timestamp_us + s.t3_5_us < now
    → check_timeout s p now ≡ timeout s p
unfolding check_timeout
check_timeout-cuts s p now c h = ground arith
