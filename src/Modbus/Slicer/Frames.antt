-- ===== src/Modbus/Slicer/Frames.antt =====
-- How the slicer assembles a frame: the bytes fed since the slab was acquired stand in it in order,
-- and a timeout hands the slab over.
use modbus_vault.Base.{
  ℕ, ◌+◌, ◌≤◌, ◌≡◌, refl, sym, ap, subst, ◌∙◌, true, List, [], ◌∷◌, ◌++◌, Option, none, some, arith,
  length, length-append, append_assoc, append-nil,
}
use modbus_vault.SlabPool.{Pool, slab_at, slab_pool_max_data_size}
use modbus_vault.SlabPool.Chain.{IsRoomy, IsFree}
use modbus_vault.Modbus.Slicer.{
  Config, Slicer, Result, Frame, frame_ok, feed, timeout, feed_all, Run, add_frame,
}
use modbus_vault.Modbus.Slicer.Fill.{contents, IsFilling}
use modbus_vault.Modbus.Slicer.Feed.{feed-first, feed-more}

-- The bytes of a run of chunks.
unfoldable pub fed_bytes : List (List ℕ × ℕ) → List ℕ
fed_bytes [] = []
fed_bytes ((bytes, now) ∷ chunks) = bytes ++ fed_bytes chunks

-- A run from `s` that keeps the frame open: no frame was reported, the start stays, and the slab
-- holds `bytes`.
abbrev KeepsOpen : Slicer → ℕ → List ℕ → Run → Type 0
KeepsOpen s i bytes r =
    IsFilling r.slicer r.pool i bytes
    × (r.frames ≡ [])
    × (r.slicer.start_timestamp_us ≡ s.start_timestamp_us)
    × (r.slicer.config ≡ s.config)

KeepsOpen-step :
    (s t : Slicer) (i now : ℕ) (bytes more rest : List ℕ) (frame : Option Frame) (run : Run)
    → frame ≡ none
    → t ≡ record s { last_byte_timestamp_us = now }
    → KeepsOpen t i ((bytes ++ more) ++ rest) run
    → KeepsOpen s i (bytes ++ (more ++ rest)) (add_frame frame run)
KeepsOpen-step s t i now bytes more rest frame run quiet stamped ih =
    subst (λ o. KeepsOpen s i (bytes ++ (more ++ rest)) (add_frame o run)) (sym quiet)
      (
        subst (IsFilling run.slicer run.pool i) (append_assoc bytes more rest) ih.0,
        ih.1,
        ih.2 ∙ ap (λ (u : Slicer). u.start_timestamp_us) stamped,
        ih.3 ∙ ap (λ (u : Slicer). u.config) stamped,
      )

pub feed_all-KeepsOpen :
    (s : Slicer) (p : Pool) (i : ℕ) (bytes : List ℕ) (chunks : List (List ℕ × ℕ))
    → IsFilling s p i bytes
    → length bytes + length (fed_bytes chunks) ≤ slab_pool_max_data_size
    → KeepsOpen s i (bytes ++ fed_bytes chunks) (feed_all s p chunks)
unfolding feed_all fed_bytes
feed_all-KeepsOpen s p i bytes [] v h =
    (subst (IsFilling s p i) (sym (append-nil bytes)) v, refl, refl, refl)
feed_all-KeepsOpen s p i bytes ((more, now) ∷ chunks) v h =
    let r = feed s p (some more) now in
    let fed =
      feed-more s p i bytes more now v (omega (arith, length-append more (fed_bytes chunks))) in
    KeepsOpen-step s r.slicer i now bytes more (fed_bytes chunks) r.frame
      (feed_all r.slicer r.pool chunks) fed.1 fed.2
      (feed_all-KeepsOpen r.slicer r.pool i (bytes ++ more) chunks fed.0
        (omega (arith, length-append bytes more, length-append more (fed_bytes chunks))))

-- A timeout hands the slab over with the time of its first byte, and lets go of it.
timeout-IsFilling :
    (s : Slicer) (p : Pool) (i b : ℕ) (bs : List ℕ)
    → IsFilling s p i (b ∷ bs)
    → s.config.has_frame_func ≡ true
    → timeout s p ≡ record {
      slicer = record s { slab_ptr = none };
      pool = p;
      frame =
          some
            (record { slab_ptr = some i; timestamp_us = s.start_timestamp_us; error = frame_ok });
    }
unfolding timeout
timeout-IsFilling s p i b bs v c = ground (arith, v.acquired, v.counted)

cut_open :
    (s : Slicer) (run : Run) (i now b : ℕ) (bs : List ℕ)
    → KeepsOpen s i (b ∷ bs) run
    → s.start_timestamp_us ≡ now
    → s.config.has_frame_func ≡ true
    → let cut = timeout run.slicer run.pool in
      (run.frames ≡ [])
      × (cut.frame ≡ some (record { slab_ptr = some i; timestamp_us = now; error = frame_ok }))
      × (contents (slab_at cut.pool i) ≡ b ∷ bs)
      × (cut.slicer.slab_ptr ≡ none)
cut_open s run i now b bs k at cb = (
  k.1,
  ap (λ (t : Result). t.frame) cut ∙ ap opened (k.2 ∙ at),
  ap (λ (t : Result). contents (slab_at t.pool i)) cut ∙ k.0.stored,
  ap (λ (t : Result). t.slicer.slab_ptr) cut,
)
  where
    opened : ℕ → Option Frame
    opened t = some (record { slab_ptr = some i; timestamp_us = t; error = frame_ok })

    cut : timeout run.slicer run.pool ≡ record {
      slicer = record (run.slicer) { slab_ptr = none };
      pool = run.pool;
      frame = opened run.slicer.start_timestamp_us;
    }
    cut =
        timeout-IsFilling run.slicer run.pool i b bs k.0
          (ap (λ (c : Config). c.has_frame_func) k.3 ∙ cb)

-- Chunks of bytes that start on an idle slicer with a free slab, the first chunk not empty and all
-- of them 512 bytes at most, report no frame while they are fed; the timeout behind them then hands
-- over one frame: the first free slab, holding exactly the bytes in order, stamped with the time
-- of the first chunk. The slicer is idle again.
pub frame-assembled :
    (s : Slicer) (p : Pool) (i : ℕ) (nodes : List ℕ) (b : ℕ) (bs : List ℕ) (now : ℕ)
    (chunks : List (List ℕ × ℕ))
    → IsFree p (i ∷ nodes)
    → s.slab_ptr ≡ none
    → s.config.has_frame_func ≡ true
    → length ((slab_at p i).buffer) ≡ slab_pool_max_data_size
    → length (b ∷ bs ++ fed_bytes chunks) ≤ slab_pool_max_data_size
    → let run = feed_all s p ((b ∷ bs, now) ∷ chunks) in
      let cut = timeout run.slicer run.pool in
      (run.frames ≡ [])
      × (cut.frame ≡ some (record { slab_ptr = some i; timestamp_us = now; error = frame_ok }))
      × (contents (slab_at cut.pool i) ≡ b ∷ bs ++ fed_bytes chunks)
      × (cut.slicer.slab_ptr ≡ none)
unfolding feed_all
frame-assembled s p i nodes b bs now chunks v idle cb room h =
    let r = feed s p (some (b ∷ bs)) now in
    let first =
      feed-first s p i nodes b bs now v idle room
        (omega (arith, length-append bs (fed_bytes chunks))) in
    cut_open r.slicer (add_frame r.frame (feed_all r.slicer r.pool chunks)) i now b
      (bs ++ fed_bytes chunks)
      (subst
        (λ o.
          KeepsOpen r.slicer i (b ∷ bs ++ fed_bytes chunks)
            (add_frame o (feed_all r.slicer r.pool chunks)))
        (sym first.1)
        (feed_all-KeepsOpen r.slicer r.pool i (b ∷ bs) chunks first.0
          (omega (arith, length-append bs (fed_bytes chunks)))))
      (ap (λ (t : Slicer). t.start_timestamp_us) first.2)
      (ap (λ (t : Slicer). t.config.has_frame_func) first.2 ∙ cb)

-- The same for a frame that comes in one piece: the slicer is idle again, and the slab that it hands
-- over is no longer free.
pub feed-timeout :
    (s : Slicer) (p : Pool) (i : ℕ) (nodes : List ℕ) (b : ℕ) (bs : List ℕ) (now : ℕ)
    → IsFree p (i ∷ nodes)
    → IsRoomy p
    → s.slab_ptr ≡ none
    → s.config.has_frame_func ≡ true
    → length (b ∷ bs) ≤ slab_pool_max_data_size
    → let r = feed s p (some (b ∷ bs)) now in
      (r.frame ≡ none)
      × (timeout r.slicer r.pool ≡ record {
        slicer = record s { last_byte_timestamp_us = now; start_timestamp_us = now };
        pool = r.pool;
        frame = some (record { slab_ptr = some i; timestamp_us = now; error = frame_ok });
      })
      × (contents (slab_at r.pool i) ≡ b ∷ bs)
feed-timeout s p i nodes b bs now v room idle cb h =
    let r = feed s p (some (b ∷ bs)) now in
    let first = feed-first s p i nodes b bs now v idle (room i) h in
    (
      first.1,
      timeout-IsFilling r.slicer r.pool i b bs first.0
            (ap (λ (t : Slicer). t.config.has_frame_func) first.2 ∙ cb)
          ∙ ap (cut_at r.pool) first.2
          ∙ ap (idle_with r.pool) (sym idle),
      first.0.stored,
    )
  where
    cut_at : Pool → Slicer → Result
    cut_at q t = record {
      slicer = record t { slab_ptr = none };
      pool = q;
      frame =
          some
            (record { slab_ptr = some i; timestamp_us = t.start_timestamp_us; error = frame_ok });
    }

    idle_with : Pool → Option ℕ → Result
    idle_with q o = record {
      slicer = record s { slab_ptr = o; last_byte_timestamp_us = now; start_timestamp_us = now };
      pool = q;
      frame = some (record { slab_ptr = some i; timestamp_us = now; error = frame_ok });
    }

-- A timeout of an idle slicer does nothing.
pub timeout-idle :
    (s : Slicer) (p : Pool)
    → s.slab_ptr ≡ none
    → timeout s p ≡ record { slicer = s; pool = p; frame = none }
unfolding timeout
timeout-idle s p idle = ground (arith, idle)
