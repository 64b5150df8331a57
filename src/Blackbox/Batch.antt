-- ===== src/Blackbox/Batch.antt =====
-- The batch buffer as a list of entries: what `blackbox_logger_write` appends and
-- `blackbox_logger_flush` takes away.
use modbus_vault.Base.{
  ℕ, ◌+◌, ◌≤◌, ◌<◌, ◌^◌, ◌≡◌, refl, sym, ap, ◌∙◌, List, [], ◌∷◌, ◌++◌, length, take, append_assoc,
  append-nil,
}
use modbus_vault.Blackbox.{Logger}
use modbus_vault.Blackbox.Entry.{aligned_size}
use modbus_vault.Blackbox.Entry.Codec.{entry}

-- `blackbox_logger_entry_view_t`, with the id that the entry was given.
pub record LogEntry : Type 0 where
  pub id : ℕ
  pub bytes : List ℕ

abbrev pub entry_of : LogEntry → List ℕ
entry_of e = entry e.id e.bytes

-- The bytes are the entries one behind another, each padded to its aligned size.
abbrev pub IsBatch : ℕ → List LogEntry → List ℕ → Type 0
IsBatch align [] bytes = bytes ≡ []
IsBatch align (e ∷ es) bytes =
    (pad : List ℕ) × (rest : List ℕ) × (bytes ≡ entry_of e ++ (pad ++ rest))
    × (length (entry_of e) + length pad ≡ aligned_size (length e.bytes) align)
    × IsBatch align es rest

-- What the logger's batch holds: the bytes up to `batch_len`, in a buffer of the configured size.
pub record Holds (l : Logger) (es : List LogEntry) : Type 0 where
  pub entries : IsBatch (l.config.address_align) es (take l.batch_len l.batch_buf)
  pub buffer : length l.batch_buf ≡ l.config.batch_buf_size
  pub inside : l.batch_len ≤ l.config.batch_buf_size
  pub small : l.config.batch_buf_size < 2 ^ 31

-- A batch followed by one more padded entry is a batch.
pub IsBatch-snoc :
    (align : ℕ) (es : List LogEntry) (bytes : List ℕ) (e : LogEntry) (pad : List ℕ)
    → IsBatch align es bytes
    → length (entry_of e) + length pad ≡ aligned_size (length e.bytes) align
    → IsBatch align (es ++ e ∷ []) (bytes ++ (entry_of e ++ pad))
IsBatch-snoc align [] bytes e pad h size = (
  pad,
  [],
  ap (◌++ (entry_of e ++ pad)) h ∙ ap (λ t. entry_of e ++ t) (sym (append-nil pad)),
  size,
  refl,
)
IsBatch-snoc align (e' ∷ es) bytes e pad (pad', rest, split, size', more) size = (
  pad',
  rest ++ (entry_of e ++ pad),
  ap (◌++ (entry_of e ++ pad)) split
      ∙ append_assoc (entry_of e') (pad' ++ rest) (entry_of e ++ pad)
      ∙ ap (λ t. entry_of e' ++ t) (append_assoc pad' rest (entry_of e ++ pad)),
  size',
  IsBatch-snoc align es rest e pad more size,
)
