-- ===== src/Blackbox/Entry/Align.antt =====
-- The size that an entry takes: for the alignments that are powers of two, the next multiple.
use modbus_vault.Base.{ℕ, ◌+◌, ◌-◌, ◌/◌, ◌%◌, ◌^◌, ◌≤◌, ◌<◌, ◌≡◌, ◌⊎◌, inl, inr, sym, subst, arith}
use modbus_vault.Base.Words.{u32}
use modbus_vault.Base.Bits.{bit_and_high, bit_and_ones}
use modbus_vault.Blackbox.Entry.{align_num_up, aligned_size, size_without_data}

-- The powers of two that CONFIG_BLACKBOX_LOGGER_ALIGNMENT (4 to 16) can be.
abbrev pub IsAlign : ℕ → Type 0
IsAlign a = (a ≡ 4) ⊎ ((a ≡ 8) ⊎ (a ≡ 16))

-- The least multiple of `a` from `n` on.
abbrev pub NextMultiple : ℕ → ℕ → ℕ → Type 0
NextMultiple n a r = (n ≤ r) × (r < n + a) × (r % a ≡ 0)

next_four : (n : ℕ) → n + 4 ≤ 2 ^ 32 → NextMultiple n 4 (align_num_up n 4)
unfolding align_num_up
next_four n h = omega (
  arith,
  bit_and_high 2 (u32 (n + 3)) (2 ^ 30 - 1),
  bit_and_ones 30 (u32 (n + 3) / 4) (omega arith),
)

next_eight : (n : ℕ) → n + 8 ≤ 2 ^ 32 → NextMultiple n 8 (align_num_up n 8)
unfolding align_num_up
next_eight n h = omega (
  arith,
  bit_and_high 3 (u32 (n + 7)) (2 ^ 29 - 1),
  bit_and_ones 29 (u32 (n + 7) / 8) (omega arith),
)

next_sixteen : (n : ℕ) → n + 16 ≤ 2 ^ 32 → NextMultiple n 16 (align_num_up n 16)
unfolding align_num_up
next_sixteen n h = omega (
  arith,
  bit_and_high 4 (u32 (n + 15)) (2 ^ 28 - 1),
  bit_and_ones 28 (u32 (n + 15) / 16) (omega arith),
)

pub align_num_up-next :
    (n a : ℕ) → IsAlign a → n + 16 ≤ 2 ^ 32 → NextMultiple n a (align_num_up n a)
align_num_up-next n a (inl e) h =
    subst (λ t. NextMultiple n t (align_num_up n t)) (sym e) (next_four n (omega arith))
align_num_up-next n a (inr (inl e)) h =
    subst (λ t. NextMultiple n t (align_num_up n t)) (sym e) (next_eight n (omega arith))
align_num_up-next n a (inr (inr e)) h =
    subst (λ t. NextMultiple n t (align_num_up n t)) (sym e) (next_sixteen n (omega arith))

-- An entry takes the least multiple of the alignment that holds its data and the 18 bytes of header
-- and tail, where that fits 32 bits.
pub aligned_size-next :
    (data_length a : ℕ)
    → IsAlign a
    → data_length + 34 ≤ 2 ^ 32
    → NextMultiple (18 + data_length) a (aligned_size data_length a)
unfolding aligned_size
aligned_size-next data_length a al h =
    subst (λ t. NextMultiple (18 + data_length) a (align_num_up t a)) (sym whole)
      (align_num_up-next (18 + data_length) a al (omega arith))
  where
    whole : u32 (size_without_data + data_length) ≡ 18 + data_length
    whole = omega arith
