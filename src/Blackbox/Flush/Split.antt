-- ===== src/Blackbox/Flush/Split.antt =====
-- A split of the batch between two entries, as a flush makes it.
use modbus_vault.Base.{
  ℕ, ◌+◌, ◌-◌, ◌≤◌, ◌<◌, ◌≡◌, refl, sym, ap, subst, ◌∙◌, List, [], ◌∷◌, ◌++◌, arith, length,
  length-append, append_assoc,
}
use modbus_vault.Blackbox.Entry.{aligned_size}
use modbus_vault.Blackbox.Batch.{LogEntry, entry_of, IsBatch}

-- No entry is left, or the next one takes more than the room.
abbrev pub IsBlocked : ℕ → List LogEntry → ℕ → Type 0
IsBlocked align [] room = Unit {0}
IsBlocked align (e ∷ es) room = room < aligned_size (length e.bytes) align

-- A split of the batch at its `n`-th byte: whole entries on both sides, those before it fit the
-- room, and no further one would.
pub record Split (align : ℕ) (es : List LogEntry) (bytes : List ℕ) (room n : ℕ) : Type 0 where
  pub front : List LogEntry
  pub back : List LogEntry
  pub entries : es ≡ front ++ back
  pub head : List ℕ
  pub rest : List ℕ
  pub bytes_split : bytes ≡ head ++ rest
  pub head_batch : IsBatch align front head
  pub rest_batch : IsBatch align back rest
  pub size : length head ≡ n
  pub fits : n ≤ room
  pub is_longest : IsBlocked align back (room - n)

-- An entry more at the front of a split.
pub Split-cons :
    {align : ℕ} {es : List LogEntry} {rest : List ℕ} {room n : ℕ} (e : LogEntry) (pad : List ℕ)
    (bytes : List ℕ)
    → bytes ≡ entry_of e ++ (pad ++ rest)
    → length (entry_of e) + length pad ≡ aligned_size (length e.bytes) align
    → aligned_size (length e.bytes) align ≤ room
    → Split align es rest (room - aligned_size (length e.bytes) align) n
    → Split align (e ∷ es) bytes room (aligned_size (length e.bytes) align + n)
Split-cons {align} {es} {rest} {room} {n} e pad bytes split padded fits s = record {
  front = e ∷ s.front;
  back = s.back;
  entries = ap (◌∷◌ e) s.entries;
  head = entry_of e ++ (pad ++ s.head);
  rest = s.rest;
  bytes_split =
      split
      ∙ ap (λ t. entry_of e ++ (pad ++ t)) s.bytes_split
      ∙ ap (λ t. entry_of e ++ t) (sym (append_assoc pad s.head s.rest))
      ∙ sym (append_assoc (entry_of e) (pad ++ s.head) s.rest);
  head_batch = (pad, s.head, refl, padded, s.head_batch);
  rest_batch = s.rest_batch;
  size =
      omega (
        arith,
        length-append (entry_of e) (pad ++ s.head),
        length-append pad s.head,
        padded,
        s.size,
      );
  fits = omega (arith, s.fits);
  is_longest = subst (IsBlocked align s.back) (omega arith) s.is_longest;
}

pub Split-nothing :
    {align : ℕ} {es : List LogEntry} {bytes : List ℕ} {room : ℕ}
    → IsBatch align es bytes
    → IsBlocked align es room
    → Split align es bytes room 0
Split-nothing {align} {es} {bytes} {room} batch blocked = record {
  front = [];
  back = es;
  entries = refl;
  head = [];
  rest = bytes;
  bytes_split = refl;
  head_batch = refl;
  rest_batch = batch;
  size = refl;
  fits = omega arith;
  is_longest = subst (IsBlocked align es) (omega arith) blocked;
}
