-- ===== src/Modbus/Slicer.antt =====
-- components/modbus_analyzer/modbus_slicer.c: cutting the byte stream into frames by silence. The
-- slab pool is the state that the calls share; a call that runs the callback `on_frame_func`
-- returns the frame that it is given (the callback does not touch the slicer). Timestamps are
-- microseconds since boot, which are not negative and far from the bounds of `int64_t`.
pub mod Fill
pub mod Feed
pub mod Frames
pub mod Errors
pub mod Silence
pub mod Tests
use modbus_vault.Base.{
  ℕ, zero, suc, ◌+◌, ◌-◌, ◌*◌, ◌/◌, Bool, true, false, ◌&&◌, List, [], ◌∷◌, Option, none, some,
  if◌then◌else◌, ltb, ◌==◌, splice, length,
}
use modbus_vault.Base.Words.{u16, u32}
use modbus_vault.SlabPool.{Pool, Slab, slab_at, set_slab, alloc, slab_pool_max_data_size}

-- `modbus_slicer_error_t`; the slicer never reports the CRC error.
pub data SlicerError : Type 0 where
  frame_ok error_crc error_overflow error_no_mem : SlicerError

-- `modbus_slicer_frame_t`
pub record Frame : Type 0 where
  pub slab_ptr : Option ℕ
  pub timestamp_us : ℕ
  pub error : SlicerError

-- `modbus_slicer_config_t`, with whether its callbacks are set.
pub record Config : Type 0 where
  pub baudrate : ℕ
  pub bit_length : ℕ
  pub has_time_func : Bool
  pub has_frame_func : Bool

-- `modbus_slicer_t`, and the pool.
pub record Slicer : Type 0 where
  pub config : Config
  pub slab_ptr : Option ℕ
  pub start_timestamp_us : ℕ
  pub last_byte_timestamp_us : ℕ
  pub t3_5_us : ℕ

-- What a call leaves: the slicer, the pool, and the frame handed to the callback, if any.
pub record Result : Type 0 where
  pub slicer : Slicer
  pub pool : Pool
  pub frame : Option Frame

abbrev pub useconds_per_second : ℕ
useconds_per_second = 1_000_000

-- The time of 3.5 characters and a fifth more. `bit_length` is a byte, so the product fits 32 bits.
unfoldable pub silence_us : Config → ℕ
silence_us c =
    let t1 = c.bit_length * useconds_per_second / c.baudrate in let t = 7 * t1 / 2 in t + t / 5

unfoldable pub init : Slicer → Config → Slicer
init s c = record s { config = c; t3_5_us = silence_us c }

abbrev pub report : Slicer → Option Frame → Option Frame
report s frame = if s.config.has_frame_func then frame else none

-- The bytes go behind those that the slab holds, if there is room for them all; otherwise the slab
-- is emptied and the frame dropped.
pub append_bytes : Slicer → Pool → ℕ → List ℕ → Result
append_bytes s p i bytes =
    let slab = slab_at p i in
    if ltb slab_pool_max_data_size (u32 (slab.length + length bytes))
    then record {
      slicer = s;
      pool = set_slab p i (record slab { length = 0 });
      frame = report s (
          some (record {
            slab_ptr = none;
            timestamp_us = s.start_timestamp_us;
            error = error_overflow;
          }));
    }
    else record {
      slicer = s;
      pool = set_slab p i (record slab {
        buffer = splice slab.buffer slab.length bytes;
        length = u16 (slab.length + length bytes);
      });
      frame = none;
    }

-- The first bytes of a frame acquire a slab.
start_frame : Slicer → Option ℕ × Pool → ℕ → List ℕ → Result
start_frame s (none, p) now bytes = record {
  slicer = record s { slab_ptr = none; start_timestamp_us = now };
  pool = p;
  frame = report s (some (record { slab_ptr = none; timestamp_us = now; error = error_no_mem }));
}
start_frame s (some i, p) now bytes =
    append_bytes (record s { slab_ptr = some i; start_timestamp_us = now })
      (set_slab p i (record (slab_at p i) { length = 0 })) i bytes

feed_bytes : Slicer → Pool → Option ℕ → ℕ → List ℕ → Result
unfolding start_frame append_bytes
feed_bytes s p none now bytes = start_frame s (alloc p) now bytes
feed_bytes s p (some i) now bytes = append_bytes s p i bytes

-- `slicer_ptr->last_byte_timestamp_us = timestamp_us;`
abbrev stamp : ℕ → Result → Result
stamp now r = record r { slicer = record (r.slicer) { last_byte_timestamp_us = now } }

-- `none` is a NULL `data_ptr`.
pub feed : Slicer → Pool → Option (List ℕ) → ℕ → Result
unfolding feed_bytes
feed s p none now = record { slicer = s; pool = p; frame = none }
feed s p (some []) now = record {
  slicer = record s { last_byte_timestamp_us = now };
  pool = p;
  frame = none;
}
feed s p (some (b ∷ bs)) now = stamp now (feed_bytes s p s.slab_ptr now (b ∷ bs))

-- `(slab_ptr != NULL) && (slab_ptr->length > 0U)`
has_bytes : Pool → Option ℕ → Bool
has_bytes p none = false
has_bytes p (some i) = ltb 0 ((slab_at p i).length)

drop_bytes : Pool → Option ℕ → Pool
drop_bytes p none = p
drop_bytes p (some i) = set_slab p i (record (slab_at p i) { length = 0 })

pub timeout : Slicer → Pool → Result
unfolding has_bytes drop_bytes
timeout s p =
    if has_bytes p s.slab_ptr
    then if s.config.has_frame_func
      then record {
        slicer = record s { slab_ptr = none };
        pool = p;
        frame = some (record {
          slab_ptr = s.slab_ptr;
          timestamp_us = s.start_timestamp_us;
          error = frame_ok;
        });
      }
      else record { slicer = s; pool = drop_bytes p s.slab_ptr; frame = none }
    else record { slicer = s; pool = p; frame = none }

-- `delta > t3_5_us` for `delta = now - last_byte_timestamp_us`.
pub check_timeout : Slicer → Pool → ℕ → Result
unfolding timeout
check_timeout s p now =
    if s.config.has_time_func
      && has_bytes p s.slab_ptr
      && ltb (s.last_byte_timestamp_us + s.t3_5_us) now
    then timeout s p
    else record { slicer = s; pool = p; frame = none }

-- A run of calls of `modbus_slicer_feed`, with the frames that they report.
pub record Run : Type 0 where
  pub slicer : Slicer
  pub pool : Pool
  pub frames : List Frame

abbrev pub add_frame : Option Frame → Run → Run
add_frame none r = r
add_frame (some f) r = record r { frames = f ∷ r.frames }

pub feed_all : Slicer → Pool → List (List ℕ × ℕ) → Run
feed_all s p [] = record { slicer = s; pool = p; frames = [] }
feed_all s p ((bytes, now) ∷ chunks) =
    let r = feed s p (some bytes) now in add_frame r.frame (feed_all r.slicer r.pool chunks)
