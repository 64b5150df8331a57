-- ===== src/Blackbox/Write/Append.antt =====
-- `blackbox_logger_write` where the entry fits: the batch holds it as its last entry.
use modbus_vault.Base.{
  ℕ, ◌+◌, ◌-◌, ◌^◌, ◌≤◌, ◌<◌, ◌≡◌, ◌⊎◌, refl, sym, ap, ap₂, subst, ◌∙◌, Bool, true, false, List, [],
  ◌∷◌, ◌++◌, some, arith, length, take, drop, length-append, append_assoc, take-append, length-drop,
  length-take, take-append-drop, length-splice,
}
use modbus_vault.Base.Words.{u32}
use modbus_vault.Blackbox.{
  ok, err_no_mem, err_invalid_arg, err_timeout, succeeds, BbErr, Driver, State, Logger,
}
use modbus_vault.Blackbox.Entry.{aligned_size}
use modbus_vault.Blackbox.Entry.Align.{IsAlign, aligned_size-next}
use modbus_vault.Blackbox.Entry.Codec.{entry, length-entry}
use modbus_vault.Blackbox.Batch.{LogEntry, entry_of, IsBatch, Holds, IsBatch-snoc}
use modbus_vault.Blackbox.Write.{store_entry, stored, store, write, can_write}
use modbus_vault.Blackbox.Write.Store.{store_entry-behind}

-- The entry that a write appends.
abbrev pub next_entry : Logger → List ℕ → LogEntry
next_entry l bytes = record { id = u32 (l.last_id + 1); bytes = bytes }

length-store_entry :
    (buf : List ℕ) (at id : ℕ) (bytes : List ℕ) → length (store_entry buf at id bytes) ≡ length buf
unfolding store_entry
length-store_entry buf at id bytes = length-splice _ _ _ ∙ length-splice _ _ _ ∙ length-splice _ _ _

-- The bytes of the batch after the entry is stored, with as much of the buffer as its padding takes.
taken-store_entry :
    (buf : List ℕ) (at id : ℕ) (bytes : List ℕ) (size : ℕ)
    → 18 + length bytes ≤ size
    → at + size ≤ length buf
    → take (at + size) (store_entry buf at id bytes)
      ≡ take at buf
        ++ (entry id bytes
            ++ take (size - (18 + length bytes)) (drop (18 + length bytes) (drop at buf)))
taken-store_entry buf at id bytes size covers fits =
    ap (take (at + size)) stands
    ∙ ap (λ n. take n whole) count
    ∙ take-append (done ++ (entry id bytes ++ pad)) past
  where
    done : List ℕ
    done = take at buf

    free : List ℕ
    free = drop at buf

    behind : List ℕ
    behind = drop (18 + length bytes) free

    pad : List ℕ
    pad = take (size - (18 + length bytes)) behind

    past : List ℕ
    past = drop (size - (18 + length bytes)) behind

    whole : List ℕ
    whole = (done ++ (entry id bytes ++ pad)) ++ past

    length-done : length done ≡ at
    length-done = omega (arith, length-take at buf)

    stands : store_entry buf at id bytes ≡ whole
    stands =
        ap₂ (λ b n. store_entry b n id bytes) (sym (take-append-drop at buf)) (sym length-done)
        ∙ store_entry-behind done free id bytes (omega (arith, length-drop at buf))
        ∙ ap (λ t. done ++ (entry id bytes ++ t))
            (sym (take-append-drop (size - (18 + length bytes)) behind))
        ∙ ap (λ t. done ++ t) (sym (append_assoc (entry id bytes) pad past))
        ∙ sym (append_assoc done (entry id bytes ++ pad) past)

    count : at + size ≡ length (done ++ (entry id bytes ++ pad))
    count = omega (
      arith,
      length-append done (entry id bytes ++ pad),
      length-append (entry id bytes) pad,
      length-entry id bytes,
      length-done,
      length-take (size - (18 + length bytes)) behind,
      length-drop (18 + length bytes) free,
      length-drop at buf,
    )

module _ (l : Logger) (es : List LogEntry) (bytes : List ℕ) (holds : Holds l es)
    (al : IsAlign (l.config.address_align))
    (fits : l.batch_len + aligned_size (length bytes) l.config.address_align
      ≤ l.config.batch_buf_size)
    (small : length bytes + 34 ≤ 2 ^ 32) where
  abbrev size : ℕ
  size = aligned_size (length bytes) l.config.address_align

  covers : 18 + length bytes ≤ size
  covers = (aligned_size-next (length bytes) l.config.address_align al small).0

  length-padded :
      (free : List ℕ)
      → size ≤ length free
      → length (entry_of (next_entry l bytes))
          + length (take (size - (18 + length bytes)) (drop (18 + length bytes) free))
        ≡ size
  length-padded free h = omega (
    arith,
    covers,
    length-entry (u32 (l.last_id + 1)) bytes,
    length-take (size - (18 + length bytes)) (drop (18 + length bytes) free),
    length-drop (18 + length bytes) free,
  )

  pub stored-Holds : Holds (stored l bytes) (es ++ next_entry l bytes ∷ [])
  unfolding stored
  stored-Holds = record {
    entries =
        subst (IsBatch (l.config.address_align) (es ++ next_entry l bytes ∷ [])) (sym bytes_after) (
          IsBatch-snoc l.config.address_align es (take l.batch_len l.batch_buf) (next_entry l bytes)
            (take (size - (18 + length bytes))
              (drop (18 + length bytes) (drop l.batch_len l.batch_buf)))
            holds.entries
            (length-padded (drop l.batch_len l.batch_buf)
              (omega (arith, holds.buffer, length-drop l.batch_len l.batch_buf))));
    buffer = length-store_entry l.batch_buf l.batch_len (u32 (l.last_id + 1)) bytes ∙ holds.buffer;
    inside = omega (arith, len_after);
    small = holds.small;
  }
    where
      len_after : u32 (l.batch_len + size) ≡ l.batch_len + size
      len_after = omega (arith, holds.small)

      bytes_after :
          take
            (u32 (l.batch_len + size))
            (store_entry l.batch_buf l.batch_len (u32 (l.last_id + 1)) bytes)
          ≡ take l.batch_len l.batch_buf
            ++ (entry_of (next_entry l bytes)
                ++ take
                    (size - (18 + length bytes))
                    (drop (18 + length bytes) (drop l.batch_len l.batch_buf)))
      bytes_after =
          ap (λ n. take n (store_entry l.batch_buf l.batch_len (u32 (l.last_id + 1)) bytes))
            len_after
          ∙ taken-store_entry l.batch_buf l.batch_len (u32 (l.last_id + 1)) bytes size covers
              (omega (arith, holds.buffer))

module _ {F : Type 0} (driver : Driver F) where
  write_fits :
      (flush_taken : Bool) (s : State F) (bytes : List ℕ)
      → can_write s.logger (some bytes) ≡ true
      → s.logger.config.batch_buf_size < 2 ^ 31
      → s.logger.batch_len + aligned_size (length bytes) s.logger.config.address_align
        ≤ s.logger.config.batch_buf_size
      → write driver flush_taken true s (some bytes)
        ≡ some (ok, record s { logger = stored s.logger bytes })
  unfolding write store
  write_fits flush_taken s bytes can small fits = ground arith

  -- Where the entry fits behind a batch of entries, `blackbox_logger_write` succeeds without a
  -- flush, and the batch then holds the same entries and, as the last, the new one under the next
  -- id; the flash is not touched and the timer of the flush runs.
  pub write-appends :
      (flush_taken : Bool) (s : State F) (es : List LogEntry) (bytes : List ℕ)
      → Holds s.logger es
      → IsAlign (s.logger.config.address_align)
      → can_write s.logger (some bytes) ≡ true
      → length bytes + 34 ≤ 2 ^ 32
      → s.logger.batch_len + aligned_size (length bytes) s.logger.config.address_align
        ≤ s.logger.config.batch_buf_size
      → (s' : State F) × (write driver flush_taken true s (some bytes) ≡ some (ok, s'))
        × Holds s'.logger (es ++ next_entry s.logger bytes ∷ [])
        × (s'.logger.last_id ≡ u32 (s.logger.last_id + 1))
        × (s'.logger.timer_runs ≡ true)
        × (s'.flash ≡ s.flash)
  unfolding stored
  write-appends flush_taken s es bytes holds al can small fits = (
    record s { logger = stored s.logger bytes },
    write_fits flush_taken s bytes can holds.small fits,
    stored-Holds s.logger es bytes holds al fits small,
    refl,
    refl,
    refl,
  )

  -- A write that fails without having flushed (the entry fits behind the batch, or is larger than
  -- the whole buffer) changes nothing, and its error is one of three: bad arguments, no memory, or
  -- the lock not taken in time.
  pub write-error_keeps :
      (flush_taken taken : Bool) (s s' : State F) (bytes : List ℕ) (e : BbErr)
      → (u32 (s.logger.batch_len + aligned_size (length bytes) s.logger.config.address_align)
          ≤ s.logger.config.batch_buf_size)
        ⊎ (s.logger.config.batch_buf_size
            < aligned_size (length bytes) s.logger.config.address_align)
      → write driver flush_taken taken s (some bytes) ≡ some (e, s')
      → succeeds e ≡ false
      → (s' ≡ s) × ((e ≡ err_invalid_arg) ⊎ ((e ≡ err_no_mem) ⊎ (e ≡ err_timeout)))
  unfolding write store
  write-error_keeps flush_taken taken s s' bytes e room result fails = ground arith
