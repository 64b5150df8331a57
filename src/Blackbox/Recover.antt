-- ===== src/Blackbox/Recover.antt =====
-- The recovery of the log after a restart: the search for the sector that was begun last, the scan
-- of the entries from there, and `recover_logger_internal` over both.
pub mod Search
mod Tests
use modbus_vault.Base.{
  ℕ, zero, suc, ◌+◌, ◌-◌, ◌*◌, ◌/◌, ◌%◌, Bool, true, false, ◌&&◌, not, List, Option, none, some,
  if◌then◌else◌, ltb, leb, ◌==◌, drop, splice, is_ok,
}
use modbus_vault.Base.Words.{u32, sub32}
use modbus_vault.Blackbox.{
  BbErr, ok, err_fail, err_invalid_arg, err_timeout, succeeds, Config, Logger, Driver, Parameters,
  State, default_parameters, error_map, update_parameters,
}
use modbus_vault.Blackbox.Entry.{
  aligned_size, header_magic, header_size, id_of, length_of, magic_of, is_logically_next,
  validate_entry,
}

-- What the header at the start of a sector tells the search: nothing, as it cannot be read; an id
-- from the base on; or that the sector is not part of the current run of the log.
pub data Probe : Type 0 where
  unreadable : Probe
  newer : ℕ → Probe
  older : Probe

abbrev pub can_search : Logger → Bool
can_search l =
    l.has_config
    && l.config.has_read_func
    && l.config.has_partition
    && not (l.config.sector_buf_size == 0)

abbrev pub can_scan : Logger → Bool
can_scan l =
    l.has_sector_lock
    && l.has_config
    && l.config.has_sector_buf
    && l.config.has_read_func
    && l.config.has_partition
    && not (l.config.size == 0)
    && not (l.config.sector_buf_size == 0)

-- The variables of the scan.
pub record Scan : Type 0 where
  pub highest_id : ℕ
  pub write_offset : ℕ
  pub scan_complete : Bool

module _ {F : Type 0} (driver : Driver F) where
  pub probe_header : List ℕ → ℕ → Probe
  probe_header bytes base_id =
      if magic_of bytes == header_magic && is_logically_next (id_of bytes) base_id
      then newer (id_of bytes)
      else older

  pub probe : State F → ℕ → ℕ → Probe
  unfolding probe_header
  probe s base_id sector =
      let (e, bytes) =
        driver.read_func s.flash (u32 (sector * s.logger.config.sector_buf_size)) header_size in
      if succeeds (error_map e) then probe_header bytes base_id else unreadable

  -- The loop of `binary_search_recover_helper`. `high` is `high_sector + 1`, so that it is not
  -- negative, and `low_sector <= high_sector` is `low < high`.
  pub search_loop : ℕ → (ℕ → Probe) → ℕ → ℕ → ℕ → ℕ → Option (BbErr × ℕ × ℕ)
  search_loop zero look low high head_sector max_id =
      if ltb low high then none else some (ok, head_sector, max_id)
  search_loop (suc fuel) look low high head_sector max_id = elim (ltb low high) [
    | false ↦ some (ok, head_sector, max_id)
    | true ↦ elim (look (low + (high - 1 - low) / 2)) [
      | unreadable ↦ some (err_fail, head_sector, max_id)
      | newer id ↦
          search_loop fuel look (low + (high - 1 - low) / 2 + 1) high (low + (high - 1 - low) / 2)
            id
      | older ↦ search_loop fuel look low (low + (high - 1 - low) / 2) head_sector max_id
    ]
  ]

  abbrev pub set_parameters : State F → ℕ → ℕ → State F
  set_parameters s write_offset last_id = record s {
    logger = record (s.logger) {
      parameters = record (s.logger.parameters) { write_offset = write_offset; last_id = last_id };
    };
  }

  abbrev pub keep_search : State F → Option (BbErr × ℕ × ℕ) → Option (BbErr × State F)
  keep_search s none = none
  keep_search s (some (e, head_sector, max_id)) = some (
    e,
    (if succeeds e
        then set_parameters s (u32 (head_sector * s.logger.config.sector_buf_size)) max_id
        else s),
  )

  -- `binary_search_recover_helper`; a round for each sector is enough.
  pub binary_search : State F → Option (BbErr × State F)
  unfolding search_loop probe
  binary_search s =
      let c = s.logger.config in
      let (e, bytes) = driver.read_func s.flash 0 header_size in
      let base_id = if magic_of bytes == header_magic then id_of bytes else 0 in
      if can_search s.logger
      then if succeeds (error_map e)
        then keep_search s (
            search_loop (c.size / c.sector_buf_size) (probe s base_id) 0
              (c.size / c.sector_buf_size) 0 base_id)
        else some (error_map e, s)
      else some (err_invalid_arg, s)

  -- The inner loop of `linear_recover_helper` over the sector in `buf`; `none` if the rounds run
  -- out.
  pub scan_sector : ℕ → Config → List ℕ → ℕ → ℕ → Scan → Option Scan
  scan_sector zero c buf base position scan = none
  scan_sector (suc fuel) c buf base position scan =
      let entry = drop position buf in
      let size = aligned_size (length_of entry) c.address_align in
      let rest =
        scan_sector fuel c buf base (u32 (position + size))
          (record scan { highest_id = id_of entry; write_offset = u32 (base + position + size) }) in
      if leb (u32 (position + header_size)) c.sector_buf_size && not scan.scan_complete
      then if succeeds (validate_entry (some entry) (sub32 c.sector_buf_size position))
          && is_logically_next (id_of entry) scan.highest_id
        then rest
        else some (record scan { scan_complete = true })
      else some scan

  abbrev pub scan_fuel : Config → ℕ
  scan_fuel c = c.sector_buf_size + 1

  -- A sector that was read goes into the sector buffer, and is scanned from the position on.
  abbrev pub load_sector : State F → List ℕ → State F
  load_sector s bytes = record s {
    logger = record (s.logger) { sector_buf = splice s.logger.sector_buf 0 bytes };
  }

  -- The outer loop: `rounds` sectors are left to be processed.
  pub scan_sectors : ℕ → State F → ℕ → ℕ → Scan → Option (BbErr × State F × Scan)
  unfolding scan_sector
  scan_sectors zero s sector position scan = some (ok, s, scan)
  scan_sectors (suc rounds) s sector position scan = elim scan.scan_complete [
    | true ↦ some (ok, s, scan)
    | false ↦
        let c = s.logger.config in
        let (e, bytes) =
          driver.read_func s.flash (u32 (sector * c.sector_buf_size)) c.sector_buf_size in
        let s' = load_sector s bytes in
        elim (succeeds (error_map e)) [
          | false ↦ some (error_map e, s', record scan { scan_complete = true })
          | true ↦
              elim (scan_sector (scan_fuel c) c s'.logger.sector_buf
                (u32 (sector * c.sector_buf_size)) position scan) [
                  | none ↦ none
                  | some scan' ↦
                      scan_sectors rounds s' ((sector + 1) % (c.size / c.sector_buf_size)) 0 scan'
                ]
        ]
  ]

  abbrev pub keep_scan : Option (BbErr × State F × Scan) → Option (BbErr × State F)
  keep_scan none = none
  keep_scan (some (e, s, scan)) =
      some (e, (if succeeds e then set_parameters s scan.write_offset scan.highest_id else s))

  -- `linear_recover_helper`, for whether the lock is taken in time.
  pub linear_recover : Bool → State F → Option (BbErr × State F)
  unfolding scan_sectors
  linear_recover taken s =
      let c = s.logger.config in
      let hint = s.logger.parameters in
      if can_scan s.logger
      then if taken
        then keep_scan (
            scan_sectors (c.size / c.sector_buf_size) s (hint.write_offset / c.sector_buf_size)
              (hint.write_offset % c.sector_buf_size)
              (record {
                highest_id = hint.last_id;
                write_offset = hint.write_offset;
                scan_complete = false;
              }))
        else some (err_timeout, s)
      else some (err_invalid_arg, s)

  -- The parameters that were found go into the logger.
  pub fill_in : BbErr × State F → BbErr × State F
  fill_in (e, s) =
      let p = s.logger.parameters in
      (
        e,
        record s {
          logger = update_parameters (record (s.logger) {
            write_offset = p.write_offset;
            replay_offset = p.replay_offset;
            last_id = p.last_id;
          });
        },
      )

  -- After the search: the scan of the sector that it found, and the defaults if that fails.
  abbrev pub scan_found : Bool → BbErr × State F → Option (BbErr × State F)
  scan_found taken (e, s) = elim (succeeds e) [
    | false ↦ some (e, s)
    | true ↦ elim (linear_recover taken s) [
      | none ↦ none
      | some (e', s') ↦ some (
        e',
        (if succeeds e'
            then s'
            else record s' { logger = record (s'.logger) { parameters = default_parameters } }),
      )
    ]
  ]

  -- From the hint of the parameters, if it is none of the defaults and stands at an entry.
  pub try_hint : Bool → State F → Option (BbErr × State F)
  unfolding linear_recover
  try_hint taken s =
      let hint = s.logger.parameters in
      let (e, bytes) = driver.read_func s.flash hint.write_offset header_size in
      if hint.write_offset == 0
      then some (err_invalid_arg, s)
      else if is_ok e && magic_of bytes == header_magic
      then linear_recover taken s
      else some (err_fail, s)

  -- `recover_logger_internal`, for whether the locks of its two scans are taken.
  pub recover : Bool → Bool → State F → Option (BbErr × State F)
  unfolding try_hint binary_search fill_in
  recover hint_taken taken s =
      let l = s.logger in
      if l.has_config && l.config.has_read_func && l.config.has_partition
      then elim (try_hint hint_taken s) [
        | none ↦ none
        | some (e, s1) ↦ elim (succeeds e) [
          | true ↦ some (fill_in (e, s1))
          | false ↦ elim (binary_search s1) [
            | none ↦ none
            | some found ↦ elim (scan_found taken found) [
              | none ↦ none
              | some result ↦ some (fill_in result)
            ]
          ]
        ]
      ]
      else some (err_invalid_arg, s)
