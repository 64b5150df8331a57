-- ===== src/Blackbox/Entry.antt =====
-- The entries of the log: magic, id and length, the data, then the CRC and a second magic, all
-- little-endian; the size that an entry takes, and the test that a stretch of bytes is one. A
-- buffer is the list of the bytes from the pointer on; a read past its end gives 0.
pub mod Codec
pub mod Align
pub mod Validate
use modbus_vault.Base.{
  ℕ, zero, suc, ◌+◌, ◌-◌, ◌*◌, ◌/◌, ◌%◌, ◌^◌, bit_and, Bool, List, [], ◌∷◌, ◌++◌, Option, none,
  some, if◌then◌else◌, ltb, leb, ◌==◌, length, take, drop, get_or,
}
use modbus_vault.Base.Words.{u32, sub32}
pub use modbus_vault.Base.Words.{read16, read32, write16, write32}
use modbus_vault.Crc.{crc16}
use modbus_vault.Blackbox.{
  BbErr, ok, err_invalid_arg, err_no_mem, err_invalid_crc, err_invalid_entry,
}

abbrev pub header_magic : ℕ
header_magic = 0x5355424D

abbrev pub tail_magic : ℕ
tail_magic = 0x4D425553

abbrev pub header_size : ℕ
header_size = 12

abbrev pub tail_size : ℕ
tail_size = 6

abbrev pub size_without_data : ℕ
size_without_data = 18

-- `align_num_up_helper` on `size_t`: `~m` is all ones less `m`.
unfoldable pub align_num_up : ℕ → ℕ → ℕ
align_num_up number align_to =
    let mask = sub32 align_to 1 in bit_and (u32 (number + mask)) (2 ^ 32 - 1 - mask)

-- `entry_total_aligned_size_helper`
unfoldable pub aligned_size : ℕ → ℕ → ℕ
aligned_size data_length align_to = align_num_up (u32 (size_without_data + data_length)) align_to

-- `is_logically_next_in_order_helper`
abbrev pub is_logically_next : ℕ → ℕ → Bool
is_logically_next candidate reference = ltb (sub32 candidate reference) 0x80000000

-- The fields of `blackbox_logger_entry_header_t`.
abbrev pub magic_of : List ℕ → ℕ
magic_of bytes = read32 bytes

abbrev pub id_of : List ℕ → ℕ
id_of bytes = read32 (drop 4 bytes)

abbrev pub length_of : List ℕ → ℕ
length_of bytes = read32 (drop 8 bytes)

unfoldable pub header : ℕ → ℕ → List ℕ
header id data_length = write32 header_magic ++ (write32 id ++ write32 data_length)

unfoldable pub tail : ℕ → List ℕ
tail crc = write16 crc ++ write32 tail_magic

-- The tests on the tail, for its offset `at`.
unfoldable pub check_tail : List ℕ → ℕ → ℕ → BbErr
check_tail bytes size at =
    if ltb size (u32 (at + tail_size))
    then err_no_mem
    else if read16 (drop at bytes) == crc16 (take at bytes)
    then if read32 (drop (at + 2) bytes) == tail_magic then ok else err_invalid_entry
    else err_invalid_crc

-- `is_data_entry_internal`; `none` is NULL.
unfoldable pub is_data_entry : Option (List ℕ) → ℕ → BbErr
is_data_entry none size = err_invalid_arg
is_data_entry (some bytes) size =
    if magic_of bytes == header_magic
    then if leb size_without_data size
      then check_tail bytes size (u32 (header_size + length_of bytes))
      else ok
    else err_invalid_entry

-- `validate_entry_internal`: a NULL pointer is tested first, but a short size overrides it.
unfoldable pub validate_entry : Option (List ℕ) → ℕ → BbErr
unfolding is_data_entry
validate_entry bytes size =
    if ltb size size_without_data then err_invalid_entry else is_data_entry bytes size
