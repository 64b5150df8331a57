-- ===== src/Modbus/Slicer/Errors.antt =====
-- The two errors that the slicer reports: an overflow, and no free slab.
use modbus_vault.Base.{
  Bool, ℕ, ◌+◌, ◌^◌, ◌<◌, ◌≡◌, refl, sym, ap, subst, ◌∙◌, true, List, [], ◌∷◌, none, some, arith,
  if◌then◌else◌, length,
}
use modbus_vault.SlabPool.{Pool, slab_at, set_slab, slab_pool_max_data_size}
use modbus_vault.SlabPool.Chain.{IsFree, alloc-none}
use modbus_vault.Modbus.Slicer.{
  Result, Slicer, error_overflow, error_no_mem, feed, feed_bytes, append_bytes, start_frame, stamp,
}
use modbus_vault.Modbus.Slicer.Fill.{IsFilling, IsFilling-with}

-- Bytes that do not fit empty the slab and report an overflow without a slab, stamped with the start
-- of the frame; the slicer keeps the slab for the next frame.
pub feed-overflow :
    (s : Slicer) (p : Pool) (i : ℕ) (bytes more : List ℕ) (now : ℕ)
    → IsFilling s p i bytes
    → s.config.has_frame_func ≡ true
    → slab_pool_max_data_size < length bytes + length more
    → length bytes + length more < 2 ^ 32
    → let r = feed s p (some more) now in
      IsFilling r.slicer r.pool i []
      × (r.frame
          ≡ some (record {
            slab_ptr = none;
            timestamp_us = s.start_timestamp_us;
            error = error_overflow;
          }))
unfolding feed append_bytes
feed-overflow s p i bytes [] now v cb over small = absurd (omega (arith, v.fits))
feed-overflow s p i bytes (b ∷ bs) now v cb over small =
    subst
      (λ r.
        IsFilling r.slicer r.pool i []
        × (r.frame
            ≡ some (record {
              slab_ptr = none;
              timestamp_us = s.start_timestamp_us;
              error = error_overflow;
            })))
      (sym dropped)
      (
        IsFilling-with (record s { last_byte_timestamp_us = now }) p i
            (record (slab_at p i) { length = 0 }) [] v.acquired v.in_pool v.room refl refl
            (omega arith),
        refl,
      )
  where
    dropped : feed s p (some (b ∷ bs)) now ≡ record {
      slicer = record s { last_byte_timestamp_us = now };
      pool = set_slab p i (record (slab_at p i) { length = 0 });
      frame =
          some (record {
            slab_ptr = none;
            timestamp_us = s.start_timestamp_us;
            error = error_overflow;
          });
    }
    dropped =
        ap (λ o. stamp now (feed_bytes s p o now (b ∷ bs))) v.acquired ∙ (ground (arith, v.counted))

-- Bytes that find no free slab are dropped: the pool stays, the slicer stays idle, and the error is
-- reported with the time of the bytes.
pub feed-no_mem :
    (s : Slicer) (p : Pool) (b : ℕ) (bs : List ℕ) (now : ℕ)
    → IsFree p []
    → s.slab_ptr ≡ none
    → s.config.has_frame_func ≡ true
    → feed s p (some (b ∷ bs)) now ≡ record {
      slicer = record s { slab_ptr = none; start_timestamp_us = now; last_byte_timestamp_us = now };
      pool = p;
      frame = some (record { slab_ptr = none; timestamp_us = now; error = error_no_mem });
    }
unfolding feed
feed-no_mem s p b bs now v idle cb =
    ap (λ o. stamp now (feed_bytes s p o now (b ∷ bs))) idle
    ∙ ap (λ r. stamp now (start_frame s r now (b ∷ bs))) (alloc-none p v)
    ∙ ap reported cb
  where
    reported : Bool → Result
    reported c = record {
      slicer = record s { slab_ptr = none; start_timestamp_us = now; last_byte_timestamp_us = now };
      pool = p;
      frame =
          if c
          then some (record { slab_ptr = none; timestamp_us = now; error = error_no_mem })
          else none;
    }
