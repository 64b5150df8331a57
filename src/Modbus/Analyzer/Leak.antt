-- ===== src/Modbus/Analyzer/Leak.antt =====
-- The slab of a frame with a wrong CRC: the slicer has let go of it, the callback only counts the
-- error, and nobody frees it.
use modbus_vault.Base.{
  ℕ, ◌≤◌, ◌≡◌, refl, sym, ap, subst, ◌∙◌, true, List, [], ◌∷◌, ◌++◌, none, some, arith, length,
  append-nil,
}
use modbus_vault.Base.{EspErr, esp_ok, esp_err_invalid_crc}
use modbus_vault.Metrics.{modbus_crc_errors, modbus_no_mem_errors}
use modbus_vault.SlabPool.{Pool, slab_pool_max_data_size}
use modbus_vault.SlabPool.Chain.{IsFree, IsRoomy}
use modbus_vault.Modbus.Parser.{check_crc}
use modbus_vault.Modbus.Slicer.{Result, timeout}
use modbus_vault.Modbus.Slicer.Errors.{feed-no_mem}
use modbus_vault.Modbus.Analyzer.{
  Analyzer, handle_event, emit_modbus_frame, emit_good, publish, deliver, hand,
}
use modbus_vault.Modbus.Slicer.Frames.{timeout-idle}
use modbus_vault.Modbus.Analyzer.Delivery.{handle_event-frame, after_frame, frame_event}

-- A frame of one byte to 512 that the CRC check refuses.
pub record IsBad (frame : List ℕ) : Type 0 where
  pub not_empty : 1 ≤ length frame
  pub small : length frame ≤ slab_pool_max_data_size
  pub refused : check_crc (some frame) ≡ esp_err_invalid_crc

-- An analyzer between frames, with these slabs free.
pub record IsIdle (a : Analyzer) (nodes : List ℕ) : Type 0 where
  pub idle : a.slicer.slab_ptr ≡ none
  pub callback : a.slicer.config.has_frame_func ≡ true
  pub free_nodes : IsFree a.pool nodes
  pub roomy : IsRoomy a.pool

-- Each bad frame takes one slab off the free list for good and is counted as one CRC error.
pub bad_frame-loses_slab :
    (a : Analyzer) (i : ℕ) (nodes frame : List ℕ) (now : ℕ)
    → IsIdle a (i ∷ nodes)
    → IsBad frame
    → let a' = handle_event a (frame_event frame now) in
      IsIdle a' nodes
      × (a'.handed ≡ a.handed)
      × (a'.published ≡ a.published ++ record { stat = modbus_crc_errors; timestamp_us = now } ∷ [])
unfolding emit_good after_frame
bad_frame-loses_slab a i nodes [] now v bad = absurd (omega (arith, bad.not_empty))
bad_frame-loses_slab a i nodes (b ∷ bs) now v bad =
    let whole =
      handle_event-frame a i nodes b bs now v.free_nodes v.roomy v.idle v.callback bad.small in
    let refused = ap (λ t. check_crc (some t)) whole.2 ∙ bad.refused in
    subst Lost (sym (whole.1 ∙ ap (emitted whole.0) refused)) (
      record { idle = v.idle; callback = v.callback; free_nodes = whole.3; roomy = whole.4 },
      refl,
      refl,
    )
  where
    Lost : Analyzer → Type 0
    Lost a' =
        IsIdle a' nodes
        × (a'.handed ≡ a.handed)
        × (a'.published
            ≡ a.published ++ record { stat = modbus_crc_errors; timestamp_us = now } ∷ [])

    emitted : Pool → EspErr → Analyzer
    emitted p e = elim e [
      | esp_ok ↦ hand (record { slab_ptr = i; timestamp_us = now }) (after_frame a now p)
      | _ ↦ publish modbus_crc_errors now (after_frame a now p)
    ]

pub handle_events : Analyzer → List (List ℕ × ℕ) → Analyzer
handle_events a [] = a
handle_events a ((frame, now) ∷ frames) =
    handle_events (handle_event a (frame_event frame now)) frames

abbrev pub AreBad : List (List ℕ × ℕ) → Type 0
AreBad [] = Unit {0}
AreBad ((frame, now) ∷ frames) = IsBad frame × AreBad frames

bad_frames-lose_slabs :
    (a : Analyzer) (lost rest : List ℕ) (frames : List (List ℕ × ℕ))
    → IsIdle a (lost ++ rest)
    → length lost ≡ length frames
    → AreBad frames
    → IsIdle (handle_events a frames) rest × ((handle_events a frames).handed ≡ a.handed)
unfolding handle_events
bad_frames-lose_slabs a [] rest [] v e bad = (v, refl)
bad_frames-lose_slabs a [] rest (f ∷ fs) v e bad = absurd (omega arith)
bad_frames-lose_slabs a (i ∷ lost) rest [] v e bad = absurd (omega arith)
bad_frames-lose_slabs a (i ∷ lost) rest ((frame, now) ∷ frames) v e bad =
    let one = bad_frame-loses_slab a i (lost ++ rest) frame now v bad.0 in
    let more =
      bad_frames-lose_slabs (handle_event a (frame_event frame now)) lost rest frames one.0
        (omega arith) bad.1 in
    (more.0, more.1 ∙ one.1)

-- The analyzer after a frame that found no slab.
starved : Analyzer → ℕ → Analyzer
starved a now = publish modbus_no_mem_errors now (record a {
  slicer = record (a.slicer) {
    slab_ptr = none;
    start_timestamp_us = now;
    last_byte_timestamp_us = now;
  };
})

handle_event-starved :
    (a : Analyzer) (b : ℕ) (bs : List ℕ) (now : ℕ)
    → IsIdle a []
    → handle_event a (frame_event (b ∷ bs) now) ≡ starved a now
unfolding handle_event emit_modbus_frame starved
handle_event-starved a b bs now v =
    ap then_timeout (feed-no_mem a.slicer a.pool b bs now v.free_nodes v.idle v.callback)
    ∙ ap (deliver (starved a now)) (timeout-idle (starved a now).slicer a.pool refl)
  where
    then_timeout : Result → Analyzer
    then_timeout r = let fed = deliver a r in deliver fed (timeout fed.slicer fed.pool)

-- Once there have been as many bad frames as there were free slabs, and no slab has been freed
-- since, every further frame is dropped for want of a slab, however good it is: nothing is handed
-- on, and the error that is published is that there is no memory.
pub bad_frames-starve :
    (a : Analyzer) (nodes : List ℕ) (frames : List (List ℕ × ℕ)) (b : ℕ) (bs : List ℕ) (now : ℕ)
    → IsIdle a nodes
    → length frames ≡ length nodes
    → AreBad frames
    → let a1 = handle_events a frames in
      let a2 = handle_event a1 (frame_event (b ∷ bs) now) in
      IsIdle a2 []
      × (a2.handed ≡ a.handed)
      × (a2.published
          ≡ a1.published ++ record { stat = modbus_no_mem_errors; timestamp_us = now } ∷ [])
unfolding starved
bad_frames-starve a nodes frames b bs now v e bad =
    let lost =
      bad_frames-lose_slabs a nodes [] frames (subst (IsIdle a) (sym (append-nil nodes)) v) (sym e)
        bad in
    let a1 = handle_events a frames in
    subst
      (λ a2.
        IsIdle a2 []
        × (a2.handed ≡ a.handed)
        × (a2.published
            ≡ a1.published ++ record { stat = modbus_no_mem_errors; timestamp_us = now } ∷ []))
      (sym (handle_event-starved a1 b bs now lost.0))
      (
        record {
          idle = refl;
          callback = lost.0.callback;
          free_nodes = lost.0.free_nodes;
          roomy = lost.0.roomy;
        },
        lost.1,
        refl,
      )
