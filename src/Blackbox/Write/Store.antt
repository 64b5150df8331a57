-- ===== src/Blackbox/Write/Store.antt =====
-- What a write leaves in the batch: the entry behind what is there, and nothing else changed.
use modbus_vault.Base.{
  ℕ, ◌+◌, ◌≤◌, ◌≡◌, refl, sym, ap, ap₂, ◌∙◌, List, [], ◌∷◌, ◌++◌, arith, length, take, drop, splice,
  splice-front, drop-add, length-append, append_assoc, take-append, drop-append, length-drop,
}
use modbus_vault.Crc.{crc16}
use modbus_vault.Blackbox.Entry.{header, tail, header_size}
use modbus_vault.Blackbox.Entry.Codec.{body, entry}
use modbus_vault.Blackbox.Write.{store_entry}

-- A copy to the end of `done` stands behind it, over the start of `free`.
splice-behind :
    (done free ys : List ℕ)
    → length ys ≤ length free
    → splice (done ++ free) (length done) ys ≡ (done ++ ys) ++ drop (length ys) free
splice-behind [] free ys h = splice-front free ys h
splice-behind (x ∷ done) free ys h = ap (◌∷◌ x) (splice-behind done free ys h)

splice_at :
    (done free ys : List ℕ) (at : ℕ)
    → at ≡ length done
    → length ys ≤ length free
    → splice (done ++ free) at ys ≡ (done ++ ys) ++ drop (length ys) free
splice_at done free ys at e h =
    ap (λ k. splice (done ++ free) k ys) e ∙ splice-behind done free ys h

length-header : (id n : ℕ) → length (header id n) ≡ 12
unfolding header
length-header id n = refl

length-tail : (crc : ℕ) → length (tail crc) ≡ 6
unfolding tail
length-tail crc = refl

-- The entry is stored behind what the batch holds, and the buffer is otherwise as it was.
pub store_entry-behind :
    (done free : List ℕ) (id : ℕ) (bytes : List ℕ)
    → 18 + length bytes ≤ length free
    → store_entry (done ++ free) (length done) id bytes
      ≡ done ++ (entry id bytes ++ drop (18 + length bytes) free)
unfolding store_entry entry body
store_entry-behind done free id bytes h =
    ap
      (λ b.
        splice b (length done + header_size + length bytes)
          (tail (crc16 (take (header_size + length bytes) (drop (length done) b)))))
      second
    ∙ ap (λ c. splice (front ++ free2) (length done + header_size + length bytes) (tail c)) checked
    ∙ splice_at front free2 (tail crc) (length done + header_size + length bytes)
        (omega (
          arith,
          length-append (done ++ head) bytes,
          length-append done head,
          length-header id (length bytes),
        ))
        (omega (
          arith,
          length-tail crc,
          length-drop (length bytes) free1,
          length-drop (length head) free,
          length-header id (length bytes),
        ))
    ∙ ap₂ (◌++◌) whole rest
    ∙ append_assoc done ((head ++ bytes) ++ tail crc) (drop (18 + length bytes) free)
  where
    head : List ℕ
    head = header id (length bytes)

    crc : ℕ
    crc = crc16 (head ++ bytes)

    free1 : List ℕ
    free1 = drop (length head) free

    free2 : List ℕ
    free2 = drop (length bytes) free1

    front : List ℕ
    front = (done ++ head) ++ bytes

    first : splice (done ++ free) (length done) head ≡ (done ++ head) ++ free1
    first = splice-behind done free head (omega (arith, length-header id (length bytes)))

    second :
        splice (splice (done ++ free) (length done) head) (length done + header_size) bytes
        ≡ front ++ free2
    second =
        ap (λ b. splice b (length done + header_size) bytes) first
        ∙ splice_at (done ++ head) free1 bytes (length done + header_size)
            (omega (arith, length-append done head, length-header id (length bytes)))
            (omega (arith, length-drop (length head) free, length-header id (length bytes)))

    inner : front ++ free2 ≡ done ++ ((head ++ bytes) ++ free2)
    inner = ap (◌++ free2) (append_assoc done head bytes) ∙ append_assoc done (head ++ bytes) free2

    checked_length : header_size + length bytes ≡ length (head ++ bytes)
    checked_length = omega (arith, length-append head bytes, length-header id (length bytes))

    checked : crc16 (take (header_size + length bytes) (drop (length done) (front ++ free2))) ≡ crc
    checked =
        ap (λ b. crc16 (take (header_size + length bytes) b))
          (ap (drop (length done)) inner ∙ drop-append done ((head ++ bytes) ++ free2))
        ∙ ap (λ n. crc16 (take n ((head ++ bytes) ++ free2))) checked_length
        ∙ ap crc16 (take-append (head ++ bytes) free2)

    whole : front ++ tail crc ≡ done ++ ((head ++ bytes) ++ tail crc)
    whole =
        ap (◌++ tail crc) (append_assoc done head bytes)
        ∙ append_assoc done (head ++ bytes) (tail crc)

    rest : drop (length (tail crc)) free2 ≡ drop (18 + length bytes) free
    rest =
        ap (λ n. drop n free2) (length-tail crc)
        ∙ sym (drop-add (length bytes) 6 free1)
        ∙ sym (drop-add (length head) (length bytes + 6) free)
        ∙ ap (λ n. drop n free) (omega (arith, length-header id (length bytes)))
