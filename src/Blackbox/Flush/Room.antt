-- ===== src/Blackbox/Flush/Room.antt =====
-- Where a round of a flush stands: the room that is left in the sector, and the entries that fit it.
use modbus_vault.Base.{
  ℕ, zero, suc, ◌+◌, ◌-◌, ◌*◌, ◌/◌, ◌^◌, ◌≤◌, ◌<◌, ◌≡◌, refl, sym, ap, ap₂, subst, ◌∙◌, List, [],
  ◌∷◌, ◌++◌, if◌then◌else◌, ltb, arith, length, take, drop, take-append-drop, drop-append,
  length-append, length-take, length-drop, drop-add,
}
use native.Mathlib.Nat.{div-mul-le_self, lt-div-mul-add}
use modbus_vault.Base.Words.{u32}
use modbus_vault.Blackbox.{Config}
use modbus_vault.Blackbox.Entry.Align.{IsAlign}
use modbus_vault.Blackbox.Batch.{LogEntry, IsBatch}
use modbus_vault.Blackbox.Flush.{Progress, chunk_size}
use modbus_vault.Blackbox.Flush.Split.{Split}
use modbus_vault.Blackbox.Flush.Chunk.{chunk_size-longest}
use modbus_vault.Blackbox.Flush.Rounds.{round_size, room_of, next_start}

-- A configuration whose offsets stay within 32 bits.
pub record IsSound (c : Config) : Type 0 where
  pub sector : 0 < c.sector_buf_size
  pub sector_small : c.sector_buf_size < 2 ^ 30
  pub small : c.size + c.batch_buf_size < 2 ^ 30
  pub align : IsAlign (c.address_align)

-- Within a flush: the entries still to be written are the batch from `buffer_offset` on.
pub record Pending {F : Type 0} (p : Progress F) (es : List LogEntry) : Type 0 where
  pub sound : IsSound (p.state.logger.config)
  pub batch :
      IsBatch
        (p.state.logger.config.address_align)
        es
        (take p.write_size (drop p.buffer_offset p.state.logger.batch_buf))
  pub count : p.buffer_offset + p.write_size ≡ p.state.logger.batch_len
  pub buffer : length p.state.logger.batch_buf ≡ p.state.logger.config.batch_buf_size
  pub inside : p.state.logger.batch_len ≤ p.state.logger.config.batch_buf_size
  pub offset : p.write_offset + p.write_size < 2 ^ 30

-- The rounds that may still come: two for each byte, and one if the write is not at the start of a
-- sector.
abbrev pub measure : {F : Type 0} → Progress F → ℕ
measure p =
    2 * p.write_size + (if ltb (room_of p) p.state.logger.config.sector_buf_size then 1 else 0)

module _ (wo ss : ℕ) (positive : 0 < ss) (wo_small : wo < 2 ^ 30) (ss_small : ss < 2 ^ 30) where
  abbrev pub start : ℕ
  start = (wo / ss + 1) * ss

  below : wo / ss * ss ≤ wo
  below = div-mul-le_self wo ss

  above : wo < wo / ss * ss + ss
  above = lt-div-mul-add positive

  expand : start ≡ wo / ss * ss + ss
  expand = grind arith

  -- The end of a sector lies past the offset, by the sector at most.
  pub start-bounds : (wo < start) × (start ≤ wo + ss) × (u32 start ≡ start)
  start-bounds =
      (omega (arith, expand, above), omega (arith, expand, below), omega (arith, expand, below))

take-nil : (n : ℕ) → take {A = ℕ} n [] ≡ []
take-nil zero = refl
take-nil (suc n) = refl

drop-take : (n m : ℕ) (xs : List ℕ) → drop n (take m xs) ≡ take (m - n) (drop n xs)
drop-take zero m xs = ap (λ k. take k xs) (omega arith)
drop-take (suc n) zero [] = sym (take-nil (0 - suc n))
drop-take (suc n) zero (x ∷ xs) = ap (λ k. take k (drop n xs)) none_left
  where
    none_left : 0 ≡ 0 - suc n
    none_left = omega arith
drop-take (suc n) (suc m) [] = sym (take-nil (suc m - suc n))
drop-take (suc n) (suc m) (x ∷ xs) = drop-take n m xs ∙ ap (λ k. take k (drop n xs)) (omega arith)

module _ {F : Type 0} (p : Progress F) (es : List LogEntry) (pending : Pending p es) where
  abbrev c : Config
  c = p.state.logger.config

  pub room-bounds :
      (0 < room_of p)
      × (room_of p ≤ c.sector_buf_size)
      × (next_start p ≤ p.write_offset + c.sector_buf_size)
      × (next_start p ≡ p.write_offset + room_of p)
      × (next_start p ≡ (p.write_offset / c.sector_buf_size + 1) * c.sector_buf_size)
  room-bounds =
      let b =
        start-bounds p.write_offset c.sector_buf_size pending.sound.sector
          (omega (arith, pending.offset)) pending.sound.sector_small in
      (
        omega (arith, b, pending.offset, pending.sound.sector_small),
        omega (arith, b, pending.offset, pending.sound.sector_small),
        omega (arith, b),
        omega (arith, b, pending.offset, pending.sound.sector_small),
        b.2,
      )

  available :
      take p.write_size (drop p.buffer_offset p.state.logger.batch_buf)
        ++ drop p.write_size (drop p.buffer_offset p.state.logger.batch_buf)
      ≡ drop p.buffer_offset p.state.logger.batch_buf
  available = take-append-drop p.write_size (drop p.buffer_offset p.state.logger.batch_buf)

  length-pending :
      length (take p.write_size (drop p.buffer_offset p.state.logger.batch_buf)) ≡ p.write_size
  length-pending = omega (
    arith,
    length-take p.write_size (drop p.buffer_offset p.state.logger.batch_buf),
    length-drop p.buffer_offset p.state.logger.batch_buf,
    pending.buffer,
    pending.inside,
    pending.count,
  )

  pub split :
      Split
        (c.address_align)
        es
        (take p.write_size (drop p.buffer_offset p.state.logger.batch_buf))
        (room_of p)
        (round_size p (room_of p))
  split =
      subst
        (Split (c.address_align) es
          (take p.write_size (drop p.buffer_offset p.state.logger.batch_buf)) (room_of p))
        (ap₂ (λ b n. chunk_size b n (room_of p) c.address_align) available length-pending)
        (chunk_size-longest c.address_align es
          (take p.write_size (drop p.buffer_offset p.state.logger.batch_buf))
          (drop p.write_size (drop p.buffer_offset p.state.logger.batch_buf)) (room_of p)
          pending.sound.align pending.batch (omega (arith, length-pending, pending.offset))
          (omega (arith, room-bounds, pending.sound.sector_small)))

  -- The chunk is within what is to be written, and the entries behind it are what is left.
  pub size-bound : round_size p (room_of p) ≤ p.write_size
  size-bound = omega (
    arith,
    length-pending,
    ap length split.bytes_split,
    length-append split.head split.rest,
    split.size,
  )

  pub rest-left :
      split.rest
      ≡ take
          (p.write_size - round_size p (room_of p))
          (drop (p.buffer_offset + round_size p (room_of p)) p.state.logger.batch_buf)
  rest-left =
      sym (drop-append split.head split.rest)
      ∙ ap₂ drop split.size (sym split.bytes_split)
      ∙ drop-take (round_size p (room_of p)) p.write_size
          (drop p.buffer_offset p.state.logger.batch_buf)
      ∙ ap (take (p.write_size - round_size p (room_of p)))
          (sym (drop-add p.buffer_offset (round_size p (room_of p)) p.state.logger.batch_buf))
