-- ===== src/Blackbox/Flush/Chunk.antt =====
-- `get_entries_chunk_size_with_ceiling_helper`: the chunk is the longest run of whole entries at the
-- start of the batch that fits the room in the sector.
use modbus_vault.Base.{
  ℕ, zero, suc, ◌+◌, ◌-◌, ◌^◌, ◌≤◌, ◌<◌, ◌≡◌, refl, sym, ap, ap₂, subst, ◌∙◌, List, [], ◌∷◌, ◌++◌,
  ◌⊎◌, inl, inr, arith, length, drop, length-append, append_assoc, drop-append,
}
use modbus_vault.Blackbox.Entry.{aligned_size, header_magic, magic_of, length_of}
use modbus_vault.Blackbox.Entry.Align.{IsAlign, aligned_size-next}
use modbus_vault.Blackbox.Entry.Codec.{length-entry, magic_of-entry, length_of-entry}
use modbus_vault.Blackbox.Batch.{LogEntry, entry_of, IsBatch}
use modbus_vault.Blackbox.Flush.Split.{Split, Split-cons, Split-nothing}
use modbus_vault.Blackbox.Flush.{chunk_loop, chunk_size}

-- What the first entry of a batch says of its bytes.
record First (align : ℕ) (e : LogEntry) (bytes rest : List ℕ) : Type 0 where
  size : length bytes ≡ aligned_size (length e.bytes) align + length rest
  positive : 18 ≤ aligned_size (length e.bytes) align
  is_entry : (junk : List ℕ) → magic_of (bytes ++ junk) ≡ header_magic
  has_length : (junk : List ℕ) → length_of (bytes ++ junk) ≡ length e.bytes
  dropped :
      (junk : List ℕ) → drop (aligned_size (length e.bytes) align) (bytes ++ junk) ≡ rest ++ junk

first :
    (align : ℕ) (e : LogEntry) (bytes pad rest : List ℕ)
    → IsAlign align
    → length bytes < 2 ^ 31
    → bytes ≡ entry_of e ++ (pad ++ rest)
    → length (entry_of e) + length pad ≡ aligned_size (length e.bytes) align
    → First align e bytes rest
first align e bytes pad rest al small split padded = record {
  size = whole;
  positive = (omega (arith, (aligned_size-next (length e.bytes) align al short).0));
  is_entry =
      λ junk. ap magic_of (junked junk) ∙ magic_of-entry e.id e.bytes (pad ++ (rest ++ junk));
  has_length = λ junk.
      ap length_of (junked junk)
      ∙ length_of-entry e.id e.bytes (pad ++ (rest ++ junk)) (omega (arith, short));
  dropped = λ junk.
      ap₂ drop count (junked junk ∙ sym (append_assoc (entry_of e) pad (rest ++ junk)))
      ∙ drop-append (entry_of e ++ pad) (rest ++ junk);
}
  where
    whole : length bytes ≡ aligned_size (length e.bytes) align + length rest
    whole = omega (
      arith,
      padded,
      ap length split,
      length-append (entry_of e) (pad ++ rest),
      length-append pad rest,
    )

    short : length e.bytes + 34 ≤ 2 ^ 32
    short = omega (arith, padded, whole, length-entry e.id e.bytes)

    count : aligned_size (length e.bytes) align ≡ length (entry_of e ++ pad)
    count = omega (arith, padded, length-append (entry_of e) pad)

    junked : (junk : List ℕ) → bytes ++ junk ≡ entry_of e ++ (pad ++ (rest ++ junk))
    junked junk =
        ap (◌++ junk) split
        ∙ append_assoc (entry_of e) (pad ++ rest) junk
        ∙ ap (λ t. entry_of e ++ t) (append_assoc pad rest junk)

-- The loop from an entry on: it stops there, or goes on behind it.
loop_step :
    (fuel align offset buf_size ceiling max_size size : ℕ) (bytes : List ℕ)
    → magic_of bytes ≡ header_magic
    → aligned_size (length_of bytes) align ≡ size
    → offset < buf_size
    → offset + size < 2 ^ 32
    → max_size + size < 2 ^ 32
    → ((ceiling < max_size + size)
        × (chunk_loop (suc fuel) bytes offset buf_size ceiling align max_size ≡ max_size))
      ⊎ ((max_size + size ≤ ceiling)
          × (chunk_loop (suc fuel) bytes offset buf_size ceiling align max_size
              ≡ chunk_loop fuel
                  (drop size bytes)
                  (offset + size)
                  buf_size
                  ceiling
                  align
                  (max_size + size)))
unfolding chunk_loop
loop_step fuel align offset buf_size ceiling max_size size bytes magic sized inside small small' =
    ground arith

-- The loop with the batch `bytes` still before it.
abbrev Loops : ℕ → ℕ → List LogEntry → List ℕ → List ℕ → ℕ → ℕ → ℕ → Type 0
Loops fuel align es bytes junk offset ceiling max_size =
    (n : ℕ) × (chunk_loop fuel (bytes ++ junk) offset (offset + length bytes) ceiling align max_size
      ≡ max_size + n)
    × Split align es bytes (ceiling - max_size) n

module _ (align : ℕ) (junk : List ℕ) (ceiling : ℕ) (al : IsAlign align)
    (room : ceiling < 2 ^ 31) where
  loop_end : (fuel offset max_size : ℕ) → Loops (suc fuel) align [] [] junk offset ceiling max_size
  unfolding chunk_loop
  loop_end fuel offset max_size = (0, ground arith, Split-nothing refl tt)

  loop_cons :
      (fuel : ℕ) (e : LogEntry) (es : List LogEntry) (bytes pad rest : List ℕ) (offset max_size : ℕ)
      → bytes ≡ entry_of e ++ (pad ++ rest)
      → length (entry_of e) + length pad ≡ aligned_size (length e.bytes) align
      → IsBatch align es rest
      → offset + length bytes < 2 ^ 31
      → max_size ≤ ceiling
      → ((offset' max_size' : ℕ)
          → offset' + length rest < 2 ^ 31
          → max_size' ≤ ceiling
          → Loops fuel align es rest junk offset' ceiling max_size')
      → Loops (suc fuel) align (e ∷ es) bytes junk offset ceiling max_size
  loop_cons fuel e es bytes pad rest offset max_size split padded batch small below goes_on =
      elim step [
        | inl (blocked, stops) ↦ (
          0,
          stops ∙ omega arith,
          Split-nothing (pad, rest, split, padded, batch) (omega (arith, blocked, below)),
        )
        | inr (more, loops) ↦
            let (n, eq, s) =
              goes_on (offset + size) (max_size + size) (omega (arith, f.size)) more in
            (
              size + n,
              loops
                  ∙ ap₂ (λ b k. chunk_loop fuel b (offset + size) k ceiling align (max_size + size))
                      (f.dropped junk) (omega (arith, f.size))
                  ∙ eq
                  ∙ omega arith,
              Split-cons e pad bytes split padded (omega (arith, more))
                  (subst (λ r. Split align es rest r n) (omega arith) s),
            )
      ]
    where
      size : ℕ
      size = aligned_size (length e.bytes) align

      f : First align e bytes rest
      f = first align e bytes pad rest al (omega arith) split padded

      step :
          ((ceiling < max_size + size)
            × (chunk_loop
                  (suc fuel)
                  (bytes ++ junk)
                  offset
                  (offset + length bytes)
                  ceiling
                  align
                  max_size
                ≡ max_size))
          ⊎ ((max_size + size ≤ ceiling)
              × (chunk_loop
                    (suc fuel)
                    (bytes ++ junk)
                    offset
                    (offset + length bytes)
                    ceiling
                    align
                    max_size
                  ≡ chunk_loop fuel
                      (drop size (bytes ++ junk))
                      (offset + size)
                      (offset + length bytes)
                      ceiling
                      align
                      (max_size + size)))
      step =
          loop_step fuel align offset (offset + length bytes) ceiling max_size size (bytes ++ junk)
            (f.is_entry junk) (ap (λ n. aligned_size n align) (f.has_length junk))
            (omega (arith, f.size, f.positive)) (omega (arith, f.size))
            (omega (arith, f.size, below, room))

  chunk_loop-Split :
      (es : List LogEntry) (fuel : ℕ) (bytes : List ℕ) (offset max_size : ℕ)
      → IsBatch align es bytes
      → length es < fuel
      → offset + length bytes < 2 ^ 31
      → max_size ≤ ceiling
      → Loops fuel align es bytes junk offset ceiling max_size
  chunk_loop-Split es zero bytes offset max_size batch enough small below = absurd (omega arith)
  chunk_loop-Split [] (suc fuel) bytes offset max_size batch enough small below =
      subst (λ b. Loops (suc fuel) align [] b junk offset ceiling max_size) (sym batch)
        (loop_end fuel offset max_size)
  chunk_loop-Split (e ∷ es) (suc fuel) bytes offset max_size (pad, rest, split, padded, batch)
        enough small below =
      loop_cons fuel e es bytes pad rest offset max_size split padded batch small below
        (λ offset' max_size' small' below'.
          chunk_loop-Split es fuel rest offset' max_size' batch (omega arith) small' below')

length-batch :
    (align : ℕ) (es : List LogEntry) (bytes : List ℕ)
    → IsBatch align es bytes
    → length es ≤ length bytes
length-batch align [] bytes batch = omega arith
length-batch align (e ∷ es) bytes (pad, rest, split, padded, batch) = omega (
  arith,
  length-batch align es rest batch,
  ap length split,
  length-append (entry_of e) (pad ++ rest),
  length-append pad rest,
  length-entry e.id e.bytes,
)

-- Of a batch of entries, with any bytes behind it in the buffer, the chunk is the longest run of
-- whole entries from the start that fits the room: no entry is cut, and none that would fit is left.
pub chunk_size-longest :
    (align : ℕ) (es : List LogEntry) (bytes junk : List ℕ) (room : ℕ)
    → IsAlign align
    → IsBatch align es bytes
    → length bytes < 2 ^ 31
    → room < 2 ^ 31
    → Split align es bytes room (chunk_size (bytes ++ junk) (length bytes) room align)
unfolding chunk_size
chunk_size-longest align es bytes junk room al batch small room_small =
    let (n, eq, s) =
      chunk_loop-Split align junk room al room_small es (suc (length bytes)) bytes 0 0 batch
        (omega (arith, length-batch align es bytes batch)) (omega arith) (omega arith) in
    settle s (
      ap (λ k. chunk_loop (suc (length bytes)) (bytes ++ junk) 0 k room align 0) (omega arith) ∙ eq)
  where
    settle : {n m : ℕ} → Split align es bytes (room - 0) n → m ≡ 0 + n → Split align es bytes room m
    settle {n} {m} s e =
        subst (Split align es bytes room) (omega (arith, e))
          (subst (λ r. Split align es bytes r n) (omega arith) s)
