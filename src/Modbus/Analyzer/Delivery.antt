-- ===== src/Modbus/Analyzer/Delivery.antt =====
-- From the wire to the pipeline: a frame that the driver delivers whole is handed on if its CRC is
-- right, and counted as an error if not.
use modbus_vault.Base.{
  if◌then◌else◌, ℕ, ◌+◌, ◌/◌, ◌%◌, ◌≤◌, ◌≡◌, refl, sym, ap, subst, ◌∙◌, true, List, [], ◌∷◌, ◌++◌,
  Option, none, some, arith, length,
}
use modbus_vault.Base.{length-append}
use modbus_vault.Base.Words.{AreBytes}
use modbus_vault.Crc.{crc16}
use modbus_vault.Modbus.Parser.Frames.{check_crc-append}
use modbus_vault.Base.{EspErr, esp_ok}
use modbus_vault.Metrics.{modbus_crc_errors}
use modbus_vault.SlabPool.{Pool, slab_pool_max_data_size}
use modbus_vault.SlabPool.Chain.{IsFree, IsRoomy}
use modbus_vault.Modbus.Parser.{check_crc}
use modbus_vault.Modbus.Slicer.{Result, Frame, feed, timeout}
use modbus_vault.Modbus.Slicer.Frames.{feed-timeout}
use modbus_vault.Modbus.Slicer.Feed.{feed-takes}
use modbus_vault.Modbus.Analyzer.{
  Analyzer, DriverEvent, handle_event, emit_modbus_frame, emit_good, hand, deliver, frame_bytes,
  publish,
}

-- The analyzer with the results of the slicer for a frame that came whole.
unfoldable pub after_frame : Analyzer → ℕ → Pool → Analyzer
after_frame a now p = record a {
  slicer = record (a.slicer) { last_byte_timestamp_us = now; start_timestamp_us = now };
  pool = p;
}

-- The event of the driver for a frame: data and the silence behind it.
abbrev pub frame_event : List ℕ → ℕ → DriverEvent
frame_event bytes now = record { bytes = bytes; timestamp_us = now; flags = 3 }

-- What a whole frame of 512 bytes at most does on an idle analyzer with a free slab.
pub handle_event-frame :
    (a : Analyzer) (i : ℕ) (nodes : List ℕ) (b : ℕ) (bs : List ℕ) (now : ℕ)
    → IsFree a.pool (i ∷ nodes)
    → IsRoomy a.pool
    → a.slicer.slab_ptr ≡ none
    → a.slicer.config.has_frame_func ≡ true
    → length (b ∷ bs) ≤ slab_pool_max_data_size
    → (p : Pool) × (handle_event a (frame_event (b ∷ bs) now)
        ≡ emit_good (after_frame a now p) (some i) now)
      × (frame_bytes p i ≡ b ∷ bs)
      × IsFree p nodes
      × IsRoomy p
unfolding handle_event emit_modbus_frame after_frame
handle_event-frame a i nodes b bs now v room idle cb h =
    let r = feed a.slicer a.pool (some (b ∷ bs)) now in
    let cut = feed-timeout a.slicer a.pool i nodes b bs now v room idle cb h in
    let left = feed-takes a.slicer a.pool i nodes b bs now v room idle in
    (
      r.pool,
      ap (then_timeout r) cut.0
          ∙ ap (deliver (record a { slicer = r.slicer; pool = r.pool })) cut.1,
      cut.2,
      left.0,
      left.1,
    )
  where
    fed : Result → Option Frame → Analyzer
    fed r o = emit_modbus_frame (record a { slicer = r.slicer; pool = r.pool }) o

    then_timeout : Result → Option Frame → Analyzer
    then_timeout r o = deliver (fed r o) (timeout (fed r o).slicer (fed r o).pool)

-- A frame with its own CRC behind it, two bytes of payload or more and 512 bytes in all at most,
-- that reaches an idle analyzer with a free slab is handed on once: in that slab, whole, with the
-- time of the event. No error is published, the other free slabs stay free, and the slicer is idle.
pub handle_event-valid_frame :
    (a : Analyzer) (i : ℕ) (nodes : List ℕ) (b : ℕ) (bs : List ℕ) (now : ℕ)
    → IsFree a.pool (i ∷ nodes)
    → IsRoomy a.pool
    → a.slicer.slab_ptr ≡ none
    → a.slicer.config.has_frame_func ≡ true
    → a.has_frame_cb ≡ true
    → AreBytes (b ∷ bs)
    → 1 ≤ length bs
    → length bs + 3 ≤ slab_pool_max_data_size
    → let frame = b ∷ bs ++ crc16 (b ∷ bs) % 256 ∷ crc16 (b ∷ bs) / 256 ∷ [] in
      let a' = handle_event a (frame_event frame now) in
      (a'.handed ≡ a.handed ++ record { slab_ptr = i; timestamp_us = now } ∷ [])
      × (frame_bytes a'.pool i ≡ frame)
      × (a'.published ≡ a.published)
      × (a'.slicer.slab_ptr ≡ none)
      × IsFree a'.pool nodes
unfolding emit_good after_frame
handle_event-valid_frame a i nodes b bs now v room idle cb out bytes long short =
    let frame = b ∷ bs ++ crc16 (b ∷ bs) % 256 ∷ crc16 (b ∷ bs) / 256 ∷ [] in
    let whole =
      handle_event-frame a i nodes b (bs ++ crc16 (b ∷ bs) % 256 ∷ crc16 (b ∷ bs) / 256 ∷ []) now v
        room idle cb
        (omega (arith, length-append bs (crc16 (b ∷ bs) % 256 ∷ crc16 (b ∷ bs) / 256 ∷ []))) in
    let passed =
      ap (λ t. check_crc (some t)) whole.2 ∙ check_crc-append (b ∷ bs) bytes (omega arith) in
    subst (Delivered frame) (sym (whole.1 ∙ ap (emitted whole.0) passed))
      (given, whole.2, refl, idle, whole.3)
  where
    given :
        (hand (record { slab_ptr = i; timestamp_us = now }) a).handed
        ≡ a.handed ++ record { slab_ptr = i; timestamp_us = now } ∷ []
    given =
        ap
          (λ c.
            if c then a.handed ++ record { slab_ptr = i; timestamp_us = now } ∷ [] else a.handed)
          out

    Delivered : List ℕ → Analyzer → Type 0
    Delivered frame a' =
        (a'.handed ≡ a.handed ++ record { slab_ptr = i; timestamp_us = now } ∷ [])
        × (frame_bytes a'.pool i ≡ frame)
        × (a'.published ≡ a.published)
        × (a'.slicer.slab_ptr ≡ none)
        × IsFree a'.pool nodes

    emitted : Pool → EspErr → Analyzer
    emitted p e = elim e [
      | esp_ok ↦ hand (record { slab_ptr = i; timestamp_us = now }) (after_frame a now p)
      | _ ↦ publish modbus_crc_errors now (after_frame a now p)
    ]
