-- ===== src/Modbus/Parser/Frames.antt =====
-- What `modbus_parser_check_crc` accepts: the frames whose CRC, the two trailing bytes included, is
-- zero; so every frame with its own CRC behind it, and no frame with one byte changed.
use modbus_vault.Base.{
  ℕ, zero, suc, ◌+◌, ◌-◌, ◌*◌, ◌/◌, ◌%◌, ◌^◌, ◌≤◌, bit_or, ◌≡◌, ◌≢◌, ◌↔◌, refl, sym, ap, ◌∙◌, subst,
  inl, inr, List, [], ◌∷◌, ◌++◌, some, arith, ltb, ◌==◌, if◌then◌else◌, Bool-cases, length, take,
  get_or, length-append,
}
use modbus_vault.Base.{esp_ok, esp_err_invalid_size, esp_err_invalid_crc}
use modbus_vault.Base.Words.{IsByte, AreBytes, AreBytes-append, AreBytes-take}
use modbus_vault.Base.Bits.{bit_or_fields}
use modbus_vault.Crc.{crc16}
use modbus_vault.Crc.Detection.{crc16-lt, crc16-residue_iff, crc16-single_byte}
use modbus_vault.Modbus.Parser.{check_crc, received_crc}

-- A list of `n + 2` bytes ends in the two that the code reads.
last_two :
    (n : ℕ) (xs : List ℕ)
    → length xs ≡ suc (suc n)
    → take n xs ++ get_or xs n 0 ∷ get_or xs (suc n) 0 ∷ [] ≡ xs
last_two zero [] e = absurd (omega arith)
last_two zero (x ∷ []) e = absurd (omega arith)
last_two zero (x ∷ y ∷ []) e = refl
last_two zero (x ∷ y ∷ z ∷ zs) e = absurd (omega arith)
last_two (suc n) [] e = absurd (omega arith)
last_two (suc n) (x ∷ xs) e = ap (◌∷◌ x) (last_two n xs (omega arith))

get_or-IsByte : (xs : List ℕ) (i : ℕ) → AreBytes xs → IsByte (get_or xs i 0)
get_or-IsByte [] i h = omega arith
get_or-IsByte (x ∷ xs) zero h = h.0
get_or-IsByte (x ∷ xs) (suc i) h = get_or-IsByte xs i h.1

-- The comparison of the code, as a residue.
crc_matches_iff :
    (n : ℕ) (frame : List ℕ)
    → length frame ≡ suc (suc n)
    → AreBytes frame
    → (crc16 frame ≡ 0)
      ↔ (crc16 (take n frame) ≡ bit_or (get_or frame (suc n) 0 * 2 ^ 8) (get_or frame n 0))
crc_matches_iff n frame e h = (to_match, to_residue)
  where
    lo : ℕ
    lo = get_or frame n 0

    hi : ℕ
    hi = get_or frame (suc n) 0

    joined : bit_or (hi * 2 ^ 8) lo ≡ hi * 2 ^ 8 + lo
    joined = bit_or_fields 8 hi lo (get_or-IsByte frame n h)

    residue : (crc16 (take n frame ++ lo ∷ hi ∷ []) ≡ 0) ↔ (crc16 (take n frame) ≡ hi * 2 ^ 8 + lo)
    residue =
        crc16-residue_iff (take n frame) lo hi (AreBytes-take n frame h) (get_or-IsByte frame n h)
          (get_or-IsByte frame (suc n) h)

    to_match : crc16 frame ≡ 0 → crc16 (take n frame) ≡ bit_or (hi * 2 ^ 8) lo
    to_match z = residue.0 (ap crc16 (last_two n frame e) ∙ z) ∙ sym joined

    to_residue : crc16 (take n frame) ≡ bit_or (hi * 2 ^ 8) lo → crc16 frame ≡ 0
    to_residue m = ap crc16 (sym (last_two n frame e)) ∙ residue.1 (m ∙ joined)

-- A frame of bytes passes exactly when it has four bytes or more and the CRC of the whole of it,
-- the trailing CRC included, is zero; any other frame of four bytes or more is a CRC error.
pub check_crc-residue :
    (frame : List ℕ)
    → AreBytes frame
    → check_crc (some frame) ≡ (
        if ltb (length frame) 4
        then esp_err_invalid_size
        else if crc16 frame == 0
        then esp_ok
        else esp_err_invalid_crc)
unfolding check_crc
check_crc-residue frame h = elim (Bool-cases (ltb (length frame) 4)) [
  | inl short ↦ rw short
  | inr long ↦ ground (arith, matches (ground arith))
]
  where
    n : ℕ
    n = length frame - 2

    matches :
        4 ≤ length frame
        → (crc16 frame ≡ 0) ↔ (crc16 (take (length frame - 2) frame) ≡ received_crc frame)
    matches p =
        subst
          (λ k.
            (crc16 frame ≡ 0)
            ↔ (crc16 (take n frame) ≡ bit_or (get_or frame k 0 * 2 ^ 8) (get_or frame n 0)))
          last (crc_matches_iff n frame (omega arith) h)
      where
        last : suc n ≡ length frame - 1
        last = omega arith

-- A payload of two bytes or more with its CRC behind it, low byte first, passes the check.
pub check_crc-append :
    (payload : List ℕ)
    → AreBytes payload
    → 2 ≤ length payload
    → check_crc (some (payload ++ crc16 payload % 256 ∷ crc16 payload / 256 ∷ [])) ≡ esp_ok
check_crc-append payload h p =
    check_crc-residue (payload ++ lo ∷ hi ∷ [])
      (AreBytes-append payload (lo ∷ hi ∷ []) h (lo_byte, (hi_byte, tt)))
    ∙ (ground (arith, length-append payload (lo ∷ hi ∷ []), zero_residue))
  where
    lo : ℕ
    lo = crc16 payload % 256

    hi : ℕ
    hi = crc16 payload / 256

    lo_byte : IsByte lo
    lo_byte = omega arith

    hi_byte : IsByte hi
    hi_byte = omega (arith, crc16-lt payload h)

    zero_residue : crc16 (payload ++ lo ∷ hi ∷ []) ≡ 0
    zero_residue = (crc16-residue_iff payload lo hi h lo_byte hi_byte).1 (omega arith)

-- Where a frame passes, the frame with one byte changed, in the payload or in the CRC, is refused
-- with the CRC error.
pub check_crc-single_byte :
    (front back : List ℕ) (x y : ℕ)
    → AreBytes front
    → AreBytes back
    → IsByte x
    → IsByte y
    → x ≢ y
    → check_crc (some (front ++ x ∷ back)) ≡ esp_ok
    → check_crc (some (front ++ y ∷ back)) ≡ esp_err_invalid_crc
check_crc-single_byte front back x y f b p q ne h = ground (
  arith,
  check_crc-residue (front ++ x ∷ back) (AreBytes-append front (x ∷ back) f (p, b)),
  check_crc-residue (front ++ y ∷ back) (AreBytes-append front (y ∷ back) f (q, b)),
  length-append front (x ∷ back),
  length-append front (y ∷ back),
  distinct,
)
  where
    distinct : crc16 (front ++ x ∷ back) ≡ 0 → crc16 (front ++ y ∷ back) ≢ 0
    distinct zx zy = ne (crc16-single_byte front back x y f b p q (zx ∙ sym zy))
