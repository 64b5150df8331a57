-- ===== src/Modbus/Analyzer/Lifecycle.antt =====
-- `modbus_analyzer_init` and `modbus_analyzer_deinit` of components/modbus_analyzer/modbus_analyzer.c, on
-- the driver of the line and the slicer.
use modbus_vault.Base.{
  ℕ, ◌*◌, ◌≤◌, ◌<◌, ◌≡◌, refl, Bool, true, false, inl, inr, Option, none, some, if◌then◌else◌,
  arith,
}
use modbus_vault.Base.{EspErr, esp_ok, esp_err_invalid_arg, esp_err_no_mem, is_ok}
use modbus_vault.Modbus.Slicer.{Slicer, Config, silence_us}
use modbus_vault.Modbus.Slicer
use modbus_vault.Rs485.{LineConfig, Rs485Driver, UartCall, frame_bit_length, configure, set_up}
use modbus_vault.Rs485
use modbus_vault.Rs485.Bits.{line_silence-bounds, init-bits}

-- `modbus_analyzer_t`, with the queue of the driver's events if there is one.
pub record AnalyzerHandle (Q : Type 0) : Type 0 where
  pub rs485_drv : Rs485Driver
  pub slicer : Slicer
  pub raw_events_queue : Option Q

-- `modbus_analyzer_config_t`: the line with its rate, if its pointer is set, and whether `on_frame_cb`
-- is.
pub record AnalyzerConfig : Type 0 where
  pub line : Option (LineConfig × ℕ)
  pub has_frame_cb : Bool

-- The calls of the UART driver, `xQueueCreate` and `vQueueDelete`.
pub record Platform (U Q : Type 0) : Type 0 where
  pub call : UartCall → U → EspErr × U
  pub delete : U → U
  pub create_queue : U → Option Q × U
  pub delete_queue : Q → U → U

module _ {U Q : Type 0} (platform : Platform U Q) where
  abbrev queue_error : Option Q → EspErr
  queue_error none = esp_err_no_mem
  queue_error (some q) = esp_ok

  -- The slicer and the queue, behind the driver's initialisation.
  unfoldable pub with_driver :
      ℕ → AnalyzerHandle Q → EspErr × Rs485Driver × U → EspErr × AnalyzerHandle Q × U
  with_driver baudrate a (e, driver, u) =
      if is_ok e
      then (let config : Config = record {
        baudrate = baudrate;
        bit_length = driver.bit_length;
        has_time_func = true;
        has_frame_func = true;
      } in
          let (queue, u') = platform.create_queue u in
          (
            queue_error queue,
            record {
              rs485_drv = driver;
              slicer = Slicer.init a.slicer config;
              raw_events_queue = queue;
            },
            u',
          ))
      else (e, record a { rs485_drv = driver }, u)

  unfoldable pub init_line :
      Option (LineConfig × ℕ) → AnalyzerHandle Q → U → EspErr × AnalyzerHandle Q × U
  unfolding with_driver
  init_line none a u = (esp_err_invalid_arg, a, u)
  init_line (some (line, baudrate)) a u =
      with_driver baudrate a (Rs485.init platform.call platform.delete (some line) a.rs485_drv u)

  -- `modbus_analyzer_init`, for an analyzer that is given; `none` is a NULL `config_ptr`.
  unfoldable pub init : Option AnalyzerConfig → AnalyzerHandle Q → U → EspErr × AnalyzerHandle Q × U
  unfolding init_line
  init none a u = (esp_err_invalid_arg, a, u)
  init (some config) a u =
      if config.has_frame_cb then init_line config.line a u else (esp_err_invalid_arg, a, u)

  -- `modbus_analyzer_deinit`
  unfoldable pub deinit : AnalyzerHandle Q → U → AnalyzerHandle Q × U
  deinit a u =
      let u1 : U = elim a.raw_events_queue [ none ↦ u | some q ↦ platform.delete_queue q u ] in
      let (driver, u2) = Rs485.deinit platform.call platform.delete a.rs485_drv u1 in
      (record a { raw_events_queue = none; rs485_drv = driver }, u2)

-- A configuration with all that it needs.
abbrev pub on_line : LineConfig → ℕ → AnalyzerConfig
on_line line baudrate = record { line = some (line, baudrate); has_frame_cb = true }

module _ {U Q : Type 0} (platform : Platform U Q) where
  -- The silence of 3.5 to 4.2 characters of a line.
  abbrev pub IsSilence : LineConfig → ℕ → ℕ → Type 0
  IsSilence line baudrate t =
      (7 * (frame_bit_length line * 1_000_000) ≤ 2 * (t * baudrate))
      × (5 * (t * baudrate) ≤ 21 * (frame_bit_length line * 1_000_000))

  with_driver-IsSilence :
      (line : LineConfig) (baudrate : ℕ) (a : AnalyzerHandle Q) (e : EspErr) (driver : Rs485Driver)
      (u : U)
      → is_ok e ≡ true
      → driver.bit_length ≡ frame_bit_length line
      → 0 < baudrate
      → baudrate ≤ 1_000_000
      → is_ok (with_driver platform baudrate a (e, driver, u)).0 ≡ true
      → let a' = (with_driver platform baudrate a (e, driver, u)).1 in
        IsSilence line baudrate a'.slicer.t3_5_us × ((q : Q) × (a'.raw_events_queue ≡ some q))
  unfolding with_driver Slicer.init
  with_driver-IsSilence line baudrate a e driver u fine bits positive slow good = rw fine (
    line_silence-bounds line
        (record {
          baudrate = baudrate;
          bit_length = driver.bit_length;
          has_time_func = true;
          has_frame_func = true;
        })
        bits positive slow,
    queued (platform.create_queue u).0 (rw fine at good),
  )
    where
      queued : (o : Option Q) → is_ok (queue_error platform o) ≡ true → (q : Q) × (o ≡ some q)
      queued none h = absurd (ground (arith, h))
      queued (some q) h = (q, refl)

  with_driver-fails :
      (baudrate : ℕ) (a : AnalyzerHandle Q) (e : EspErr) (driver : Rs485Driver) (u : U)
      → is_ok e ≡ false
      → is_ok (with_driver platform baudrate a (e, driver, u)).0 ≡ false
  unfolding with_driver
  with_driver-fails baudrate a e driver u failed = rw failed failed

  -- After an initialisation that succeeds on a line of at most a million baud, whatever its settings,
  -- the analyzer has its queue, and its slicer waits for at least 3.5 and at most 4.2 characters of
  -- that line.
  pub init-IsSilence :
      (line : LineConfig) (baudrate : ℕ) (a : AnalyzerHandle Q) (u : U)
      → 0 < baudrate
      → baudrate ≤ 1_000_000
      → is_ok (init platform (some (on_line line baudrate)) a u).0 ≡ true
      → let a' = (init platform (some (on_line line baudrate)) a u).1 in
        IsSilence line baudrate a'.slicer.t3_5_us × ((q : Q) × (a'.raw_events_queue ≡ some q))
  unfolding init init_line
  init-IsSilence line baudrate a u positive slow good =
      let (e, driver, u') = Rs485.init platform.call platform.delete (some line) a.rs485_drv u in
      elim (init-bits platform.call platform.delete line a.rs485_drv u) [
        | inl (fine, bits) ↦
            with_driver-IsSilence line baudrate a e driver u' fine bits positive slow good
        | inr (failed, lost) ↦
            absurd (ground (arith, good, with_driver-fails baudrate a e driver u' failed))
      ]
