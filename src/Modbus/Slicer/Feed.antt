-- ===== src/Modbus/Slicer/Feed.antt =====
-- One call of `modbus_slicer_feed` that keeps its frame open: the first bytes of a frame, which
-- acquire a slab, and the bytes behind them.
use modbus_vault.Base.{Bool-cases, inl, inr, ltb, length-splice}
use modbus_vault.Base.Words.{u32}
use modbus_vault.Base.{
  ℕ, ◌+◌, ◌≤◌, ◌<◌, ◌≡◌, refl, sym, ap, subst, ◌∙◌, List, [], ◌∷◌, ◌++◌, none, some, arith, length,
  length-set, get_or-set_self, append-nil,
}
use modbus_vault.SlabPool.{Pool, Slab, slab_at, set_slab, taken, slab_pool_max_data_size}
use modbus_vault.SlabPool.Chain.{IsRoomy, set_slab-IsFree, set_slab-IsRoomy, IsFree, alloc-some}
use modbus_vault.Modbus.Slicer.{Slicer, feed, feed_bytes, append_bytes, start_frame, stamp}
use modbus_vault.Modbus.Slicer.Fill.{IsFilling, IsFilling-with, append_bytes-fits}

-- The slab that a frame starts with is empty.
started : (s : Slicer) (p : Pool) (i now : ℕ) → Slicer × Pool
started s p i now = (
  record s { slab_ptr = some i; start_timestamp_us = now },
  set_slab (taken p i) i (record (slab_at (taken p i) i) { length = 0 }),
)

started-IsFilling :
    (s : Slicer) (p : Pool) (i now : ℕ)
    → i < length p.slabs
    → length ((slab_at p i).buffer) ≡ slab_pool_max_data_size
    → IsFilling (started s p i now).0 (started s p i now).1 i []
unfolding started
started-IsFilling s p i now h room =
    IsFilling-with (record s { slab_ptr = some i; start_timestamp_us = now }) (taken p i) i
      (record (slab_at (taken p i) i) { length = 0 }) [] refl
      (omega (arith, length-set p.slabs i (record (slab_at p i) { length = 0 })))
      (ap (λ (t : Slab). length t.buffer)
          (get_or-set_self p.slabs i (record (slab_at p i) { length = 0 }) _ h)
        ∙ room)
      refl refl (omega arith)

feed_starts :
    (s : Slicer) (p : Pool) (i : ℕ) (nodes : List ℕ) (b : ℕ) (bs : List ℕ) (now : ℕ)
    → IsFree p (i ∷ nodes)
    → s.slab_ptr ≡ none
    → feed s p (some (b ∷ bs)) now
      ≡ stamp now (append_bytes (started s p i now).0 (started s p i now).1 i (b ∷ bs))
unfolding feed started
feed_starts s p i nodes b bs now v e =
    ap (λ o. stamp now (feed_bytes s p o now (b ∷ bs))) e
    ∙ ap (λ r. stamp now (start_frame s r now (b ∷ bs))) (alloc-some p i nodes v).0

-- The stamp of the last byte is no part of the fill.
stamp-IsFilling :
    (s : Slicer) (p : Pool) (i now : ℕ) (bytes : List ℕ)
    → IsFilling s p i bytes
    → IsFilling (record s { last_byte_timestamp_us = now }) p i bytes
stamp-IsFilling s p i now bytes v = record {
  acquired = v.acquired;
  in_pool = v.in_pool;
  room = v.room;
  counted = v.counted;
  stored = v.stored;
  fits = v.fits;
}

pub feed-first :
    (s : Slicer) (p : Pool) (i : ℕ) (nodes : List ℕ) (b : ℕ) (bs : List ℕ) (now : ℕ)
    → IsFree p (i ∷ nodes)
    → s.slab_ptr ≡ none
    → length ((slab_at p i).buffer) ≡ slab_pool_max_data_size
    → length (b ∷ bs) ≤ slab_pool_max_data_size
    → let r = feed s p (some (b ∷ bs)) now in
      IsFilling r.slicer r.pool i (b ∷ bs)
      × (r.frame ≡ none)
      × (r.slicer
          ≡ record s { slab_ptr = some i; start_timestamp_us = now; last_byte_timestamp_us = now })
unfolding started
feed-first s p i nodes b bs now v e room h =
    subst
      (λ r.
        IsFilling r.slicer r.pool i (b ∷ bs)
        × (r.frame ≡ none)
        × (r.slicer ≡ record s {
          slab_ptr = some i;
          start_timestamp_us = now;
          last_byte_timestamp_us = now;
        }))
      (sym (feed_starts s p i nodes b bs now v e))
      (
        stamp-IsFilling _ _ i now (b ∷ bs) filled.0,
        filled.1,
        ap (λ (t : Slicer). record t { last_byte_timestamp_us = now }) filled.2,
      )
  where
    s0 : Slicer
    s0 = record s { slab_ptr = some i; start_timestamp_us = now }

    p0 : Pool
    p0 = set_slab (taken p i) i (record (slab_at (taken p i) i) { length = 0 })

    appended :
        IsFilling s0 (append_bytes s0 p0 i (b ∷ bs)).pool i (b ∷ bs)
        × ((append_bytes s0 p0 i (b ∷ bs)).frame ≡ none)
        × ((append_bytes s0 p0 i (b ∷ bs)).slicer ≡ s0)
    appended =
        append_bytes-fits s0 p0 i [] (b ∷ bs)
          (started-IsFilling s p i now (omega (arith, v.chain.1, v.all_slabs)) room) (omega arith)

    filled :
        IsFilling
          (append_bytes s0 p0 i (b ∷ bs)).slicer
          (append_bytes s0 p0 i (b ∷ bs)).pool
          i
          (b ∷ bs)
        × ((append_bytes s0 p0 i (b ∷ bs)).frame ≡ none)
        × ((append_bytes s0 p0 i (b ∷ bs)).slicer ≡ s0)
    filled = (
      subst (λ t. IsFilling t (append_bytes s0 p0 i (b ∷ bs)).pool i (b ∷ bs)) (sym appended.2)
          appended.0,
      appended.1,
      appended.2,
    )

-- Bytes that fit go behind those of an open frame, whatever chunk they come in.
pub feed-more :
    (s : Slicer) (p : Pool) (i : ℕ) (bytes more : List ℕ) (now : ℕ)
    → IsFilling s p i bytes
    → length bytes + length more ≤ slab_pool_max_data_size
    → let r = feed s p (some more) now in
      IsFilling r.slicer r.pool i (bytes ++ more)
      × (r.frame ≡ none)
      × (r.slicer ≡ record s { last_byte_timestamp_us = now })
unfolding feed
feed-more s p i bytes [] now v h = (
  subst (IsFilling (record s { last_byte_timestamp_us = now }) p i) (sym (append-nil bytes))
      (stamp-IsFilling s p i now bytes v),
  refl,
  refl,
)
feed-more s p i bytes (b ∷ bs) now v h =
    subst
      (λ o.
        let r = stamp now (feed_bytes s p o now (b ∷ bs)) in
        IsFilling r.slicer r.pool i (bytes ++ b ∷ bs)
        × (r.frame ≡ none)
        × (r.slicer ≡ record s { last_byte_timestamp_us = now }))
      (sym v.acquired)
      (
        stamp-IsFilling _ _ i now (bytes ++ b ∷ bs) (
            subst (λ t. IsFilling t (append_bytes s p i (b ∷ bs)).pool i (bytes ++ b ∷ bs))
              (sym appended.2) appended.0),
        appended.1,
        ap (λ (t : Slicer). record t { last_byte_timestamp_us = now }) appended.2,
      )
  where
    appended :
        IsFilling s (append_bytes s p i (b ∷ bs)).pool i (bytes ++ b ∷ bs)
        × ((append_bytes s p i (b ∷ bs)).frame ≡ none)
        × ((append_bytes s p i (b ∷ bs)).slicer ≡ s)
    appended = append_bytes-fits s p i bytes (b ∷ bs) v h

-- Storing bytes leaves the free list, and every buffer keeps its size.
append_bytes-pool :
    (s : Slicer) (p : Pool) (i : ℕ) (more nodes : List ℕ)
    → IsFree p nodes
    → IsRoomy p
    → IsFree (append_bytes s p i more).pool nodes × IsRoomy (append_bytes s p i more).pool
unfolding append_bytes
append_bytes-pool s p i more nodes v room =
    elim (Bool-cases (ltb slab_pool_max_data_size (u32 (slab.length + length more)))) [
      | inl e ↦ rw e (set_slab-IsFree p i _ nodes v, set_slab-IsRoomy p i _ (room i) room)
      | inr e ↦ rw e (
        set_slab-IsFree p i _ nodes v,
        set_slab-IsRoomy p i _ (length-splice slab.buffer slab.length more ∙ room i) room,
      )
    ]
  where
    slab : Slab
    slab = slab_at p i

-- The first bytes of a frame take the first free slab and leave the others.
pub feed-takes :
    (s : Slicer) (p : Pool) (i : ℕ) (nodes : List ℕ) (b : ℕ) (bs : List ℕ) (now : ℕ)
    → IsFree p (i ∷ nodes)
    → IsRoomy p
    → s.slab_ptr ≡ none
    → IsFree (feed s p (some (b ∷ bs)) now).pool nodes × IsRoomy (feed s p (some (b ∷ bs)) now).pool
unfolding started
feed-takes s p i nodes b bs now v room idle =
    subst (λ r. IsFree r.pool nodes × IsRoomy r.pool)
      (sym (feed_starts s p i nodes b bs now v idle))
      (append_bytes-pool _ _ i (b ∷ bs) nodes
        (set_slab-IsFree (taken p i) i _ nodes (alloc-some p i nodes v).1)
        (set_slab-IsRoomy (taken p i) i _ (taken_room i) taken_room))
  where
    taken_room : IsRoomy (taken p i)
    taken_room = set_slab-IsRoomy p i (record (slab_at p i) { length = 0 }) (room i) room
