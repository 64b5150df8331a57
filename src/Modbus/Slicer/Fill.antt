-- ===== src/Modbus/Slicer/Fill.antt =====
-- A slab that the slicer fills, and what `memcpy` into it leaves.
use modbus_vault.Base.{
  ℕ, ◌+◌, ◌≤◌, ◌<◌, ◌≡◌, refl, sym, ap, subst, ◌∙◌, List, ◌++◌, none, some, arith, length,
  length-append, take, splice, length-splice, take-splice, length-set, get_or-set_self,
}
use modbus_vault.Base.Words.{u16}
use modbus_vault.SlabPool.{Pool, Slab, slab_at, set_slab, slab_pool_max_data_size}
use modbus_vault.Modbus.Slicer.{Slicer, append_bytes}

-- The bytes that a slab holds.
abbrev pub contents : Slab → List ℕ
contents slab = take slab.length slab.buffer

-- The slicer fills slab `i` of the pool, which holds `bytes` so far.
pub record IsFilling (s : Slicer) (p : Pool) (i : ℕ) (bytes : List ℕ) : Type 0 where
  pub acquired : s.slab_ptr ≡ some i
  pub in_pool : i < length p.slabs
  pub room : length ((slab_at p i).buffer) ≡ slab_pool_max_data_size
  pub counted : (slab_at p i).length ≡ length bytes
  pub stored : contents (slab_at p i) ≡ bytes
  pub fits : length bytes ≤ slab_pool_max_data_size

-- The fill after a write to the slab that it is about.
pub IsFilling-with :
    (s : Slicer) (p : Pool) (i : ℕ) (slab : Slab) (bytes : List ℕ)
    → s.slab_ptr ≡ some i
    → i < length p.slabs
    → length slab.buffer ≡ slab_pool_max_data_size
    → slab.length ≡ length bytes
    → contents slab ≡ bytes
    → length bytes ≤ slab_pool_max_data_size
    → IsFilling s (set_slab p i slab) i bytes
IsFilling-with s p i slab bytes a h r c e f = record {
  acquired = a;
  in_pool = omega (arith, length-set p.slabs i slab);
  room = subst (λ t. length t.buffer ≡ slab_pool_max_data_size) (sym same) r;
  counted = subst (λ t. t.length ≡ length bytes) (sym same) c;
  stored = subst (λ t. contents t ≡ bytes) (sym same) e;
  fits = f;
}
  where
    same : slab_at (set_slab p i slab) i ≡ slab
    same = get_or-set_self p.slabs i slab _ h

-- Bytes that fit are stored behind those that the slab holds, and no frame is reported.
pub append_bytes-fits :
    (s : Slicer) (p : Pool) (i : ℕ) (bytes more : List ℕ)
    → IsFilling s p i bytes
    → length bytes + length more ≤ slab_pool_max_data_size
    → IsFilling s (append_bytes s p i more).pool i (bytes ++ more)
      × ((append_bytes s p i more).frame ≡ none)
      × ((append_bytes s p i more).slicer ≡ s)
unfolding append_bytes
append_bytes-fits s p i bytes more v h =
    subst (λ r. IsFilling s r.pool i (bytes ++ more) × (r.frame ≡ none) × (r.slicer ≡ s)) (sym run)
      (
        IsFilling-with s p i written (bytes ++ more) v.acquired v.in_pool
            (length-splice slab.buffer slab.length more ∙ v.room)
            (omega (arith, v.counted, length-append bytes more)) held
            (omega (arith, length-append bytes more)),
        refl,
        refl,
      )
  where
    slab : Slab
    slab = slab_at p i

    written : Slab
    written = record slab {
      buffer = splice slab.buffer slab.length more;
      length = u16 (slab.length + length more);
    }

    run : append_bytes s p i more ≡ record { slicer = s; pool = set_slab p i written; frame = none }
    run = ground (arith, v.counted, v.fits)

    end_of_bytes : u16 (slab.length + length more) ≡ slab.length + length more
    end_of_bytes = omega (arith, v.counted)

    held : contents written ≡ bytes ++ more
    held =
        ap (λ n. take n (splice slab.buffer slab.length more)) end_of_bytes
        ∙ take-splice slab.buffer slab.length more (omega (arith, v.counted, v.room))
        ∙ ap (λ t. t ++ more) v.stored
