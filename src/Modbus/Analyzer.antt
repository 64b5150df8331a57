-- ===== src/Modbus/Analyzer.antt =====
-- components/modbus_analyzer/modbus_analyzer.c: what the analyzer's task does with one driver event,
-- and its frame callback. What it hands to the event bus and to `on_frame_cb` is logged in order.
pub mod Delivery
pub mod Leak
pub mod Lifecycle
mod Tests
use modbus_vault.Base.{
  ℕ, zero, suc, ◌+◌, ◌-◌, ◌*◌, ◌/◌, ◌%◌, ◌^◌, Bool, true, false, List, [], ◌∷◌, ◌++◌, Option, none,
  some, if◌then◌else◌, ◌==◌, take,
}
use modbus_vault.Base.{EspErr, esp_ok}
use modbus_vault.Metrics.{
  Stat, ErrorEvent, rs485_driver_overflow_errors, rs485_driver_parity_errors, modbus_crc_errors,
  modbus_overflow_errors, modbus_no_mem_errors,
}
use modbus_vault.SlabPool.{Pool, Slab, slab_at}
use modbus_vault.Modbus.Parser.{check_crc}
use modbus_vault.Modbus.Slicer.{
  Slicer, Result, Frame, SlicerError, frame_ok, error_crc, error_overflow, error_no_mem, feed,
  timeout, check_timeout,
}
use modbus_vault.Modbus.Slicer

-- `modbus_analyzer_frame_t`
pub record AnalyzerFrame : Type 0 where
  pub slab_ptr : ℕ
  pub timestamp_us : ℕ

-- `rs485_driver_event_t`: `data[0 .. length)`, its time and its flags.
pub record DriverEvent : Type 0 where
  pub bytes : List ℕ
  pub timestamp_us : ℕ
  pub flags : ℕ

pub record Analyzer : Type 0 where
  pub slicer : Slicer
  pub pool : Pool
  pub published : List ErrorEvent
  pub handed : List AnalyzerFrame
  pub has_frame_cb : Bool

abbrev pub publish : Stat → ℕ → Analyzer → Analyzer
publish stat now a = record a {
  published = a.published ++ record { stat = stat; timestamp_us = now } ∷ [];
}

-- `on_frame_cb (&frame)`, where it is set.
abbrev pub hand : AnalyzerFrame → Analyzer → Analyzer
hand frame a = record a { handed = if a.has_frame_cb then a.handed ++ frame ∷ [] else a.handed }

-- `frame_ptr->slab_ptr->data`, of `frame_ptr->slab_ptr->length` bytes.
abbrev pub frame_bytes : Pool → ℕ → List ℕ
frame_bytes p i = take ((slab_at p i).length) ((slab_at p i).buffer)

-- A frame that the slicer calls good comes with a slab.
unfoldable pub emit_good : Analyzer → Option ℕ → ℕ → Analyzer
emit_good a none now = a
emit_good a (some i) now = elim (check_crc (some (frame_bytes a.pool i))) [
  | esp_ok ↦ hand (record { slab_ptr = i; timestamp_us = now }) a
  | _ ↦ publish modbus_crc_errors now a
]

emit : Analyzer → SlicerError → Option ℕ → ℕ → Analyzer
emit a error_crc slab now = a
emit a error_overflow slab now = publish modbus_overflow_errors now a
emit a error_no_mem slab now = publish modbus_no_mem_errors now a
emit a frame_ok slab now = emit_good a slab now

-- `emit_modbus_frame_callback`; `none` where the slicer does not run it.
pub emit_modbus_frame : Analyzer → Option Frame → Analyzer
unfolding emit emit_good
emit_modbus_frame a none = a
emit_modbus_frame a (some f) = emit a f.error f.slab_ptr f.timestamp_us

-- A call of the slicer, its callback included.
abbrev pub deliver : Analyzer → Result → Analyzer
deliver a r = emit_modbus_frame (record a { slicer = r.slicer; pool = r.pool }) r.frame

-- `(flags & (1U << bit)) != 0`
abbrev pub has_flag : ℕ → ℕ → Bool
has_flag bit flags = flags / 2 ^ bit % 2 == 1

-- The body of `modbus_analyzer_task` for an event from its queue.
pub handle_event : Analyzer → DriverEvent → Analyzer
handle_event a0 e =
    let a1 =
      if has_flag 0 e.flags
      then deliver a0 (feed a0.slicer a0.pool (some e.bytes) e.timestamp_us)
      else a0 in
    let a2 = if has_flag 1 e.flags then deliver a1 (timeout a1.slicer a1.pool) else a1 in
    let a3 =
      if has_flag 2 e.flags then publish rs485_driver_overflow_errors e.timestamp_us a2 else a2 in
    if has_flag 3 e.flags then publish rs485_driver_parity_errors e.timestamp_us a3 else a3

-- The same where the queue stayed empty for the waiting time.
pub handle_silence : Analyzer → ℕ → Analyzer
handle_silence a now = deliver a (check_timeout a.slicer a.pool now)
