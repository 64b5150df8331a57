-- ===== src/Blackbox/Lifecycle.antt =====
-- `blackbox_logger_init` and `blackbox_logger_deinit`. What FreeRTOS and the timer service answer
-- is an argument: whether the two mutexes were created, the error of the timer, and the locks that
-- the recovery and the last flush are given.
use modbus_vault.Base.{
  Bool, true, false, not, ◌&&◌, ◌≡◌, ap, refl, sym, subst, Option, none, some, if◌then◌else◌,
  EspErr, arith,
}
use modbus_vault.Blackbox.{
  BbErr, ok, err_no_mem, succeeds, Config, Logger, Driver, Parameters, State, error_map,
}
use modbus_vault.Blackbox.Flush.{flush, can_flush}
use modbus_vault.Blackbox.Flush.Batch.{flush-nothing}
use modbus_vault.Blackbox.Recover.{recover}

-- The logger with the configuration that it is given, and nothing in its batch.
abbrev pub attach : Logger → Config → Parameters → Logger
attach l config parameters = record l {
  has_config = true;
  config = config;
  parameters = parameters;
  last_erased_sector = none;
  batch_len = 0;
}

-- What `blackbox_logger_deinit` resets behind the flush.
abbrev pub cleared : Logger → Logger
cleared l = record l {
  has_config = false;
  write_offset = 0;
  replay_offset = 0;
  last_id = 0;
  last_erased_sector = none;
  batch_len = 0;
  has_sector_lock = false;
  has_write_lock = false;
}

module _ {F : Type 0} (driver : Driver F) where
  abbrev pub clear : Option (BbErr × State F) → Option (State F)
  clear none = none
  clear (some (e, s)) = some (record s { logger = cleared s.logger })

  -- `blackbox_logger_deinit`: the timer goes first, then the batch is flushed if that succeeds.
  pub deinit : Bool → State F → Option (State F)
  deinit taken s = clear (
      flush driver taken
        (record s { logger = record (s.logger) { has_timer = false; timer_runs = false } }))

  abbrev pub give_up : BbErr → Option (State F) → Option (BbErr × State F)
  give_up e none = none
  give_up e (some s) = some (e, s)

  abbrev pub ignore_error : Option (BbErr × State F) → Option (BbErr × State F)
  ignore_error none = none
  ignore_error (some (e, s)) = some (ok, s)

  -- `blackbox_logger_init`, with its pointers set. The error of the recovery is not looked at.
  pub init :
      Config
      → Parameters
      → Bool
      → Bool
      → EspErr
      → Bool
      → Bool
      → Bool
      → State F
      → Option (BbErr × State F)
  unfolding deinit
  init config parameters write_lock sector_lock timer hint_taken taken flush_taken s =
      let l = attach s.logger config parameters in
      let with_write = record l { has_write_lock = write_lock } in
      let with_sector = record with_write { has_sector_lock = sector_lock } in
      let with_timer = record with_sector { has_timer = succeeds (error_map timer) } in
      if not write_lock
      then give_up err_no_mem (deinit flush_taken (record s { logger = with_write }))
      else if not sector_lock
      then give_up err_no_mem (deinit flush_taken (record s { logger = with_sector }))
      else if succeeds (error_map timer)
      then ignore_error (recover driver hint_taken taken (record s { logger = with_timer }))
      else give_up (error_map timer) (deinit flush_taken (record s { logger = with_timer }))

  -- What is left of a logger that could not be initialised: no handle, no configuration, and
  -- nothing in the batch.
  pub record IsDown (l : Logger) : Type 0 where
    pub no_config : l.has_config ≡ false
    pub no_write_lock : l.has_write_lock ≡ false
    pub no_sector_lock : l.has_sector_lock ≡ false
    pub no_timer : l.has_timer ≡ false
    pub no_batch : l.batch_len ≡ 0

  abbrev pub GivesUp : Option (BbErr × State F) → F → Type 0
  GivesUp r flash =
      (e : BbErr) × (s' : State F) × (r ≡ some (e, s'))
      × (succeeds e ≡ false)
      × (s'.flash ≡ flash)
      × IsDown s'.logger

  empty_batch : (l : Logger) → l.batch_len ≡ 0 → can_flush l ≡ false
  empty_batch l h = ground (arith, h)

  gives_up :
      (e : BbErr) (taken : Bool) (s : State F)
      → succeeds e ≡ false
      → s.logger.batch_len ≡ 0
      → GivesUp (give_up e (deinit taken s)) s.flash
  unfolding deinit
  gives_up e taken s bad nothing =
      let closed = record s {
        logger = record (s.logger) { has_timer = false; timer_runs = false };
      } in
      (
        e,
        record closed { logger = cleared closed.logger },
        ap (λ r. give_up e (clear r))
            (flush-nothing driver taken closed (empty_batch closed.logger nothing)),
        bad,
        refl,
        record {
          no_config = refl;
          no_write_lock = refl;
          no_sector_lock = refl;
          no_timer = refl;
          no_batch = refl;
        },
      )

  -- Where a mutex or the timer cannot be created, the initialisation fails and takes back what it had
  -- created: the logger has no handle and no configuration, its batch is empty, and the flash was
  -- not touched.
  pub init-GivesUp :
      (config : Config) (parameters : Parameters) (write_lock sector_lock : Bool) (timer : EspErr)
      (hint_taken taken flush_taken : Bool) (s : State F)
      → write_lock && sector_lock && succeeds (error_map timer) ≡ false
      → GivesUp
          (init config parameters write_lock sector_lock timer hint_taken taken flush_taken s)
          s.flash
  unfolding init
  init-GivesUp config parameters false sector_lock timer hint_taken taken flush_taken s h =
      gives_up err_no_mem flush_taken
        (record s {
          logger = record (attach s.logger config parameters) { has_write_lock = false };
        })
        refl refl
  init-GivesUp config parameters true false timer hint_taken taken flush_taken s h =
      gives_up err_no_mem flush_taken
        (record s {
          logger = record (attach s.logger config parameters) {
            has_write_lock = true;
            has_sector_lock = false;
          };
        })
        refl refl
  init-GivesUp config parameters true true timer hint_taken taken flush_taken s h =
      subst (λ b. GivesUp (choose b) s.flash) (sym h)
        (gives_up (error_map timer) flush_taken with_timer h refl)
    where
      with_timer : State F
      with_timer = record s {
        logger = record (attach s.logger config parameters) {
          has_write_lock = true;
          has_sector_lock = true;
          has_timer = succeeds (error_map timer);
        };
      }

      choose : Bool → Option (BbErr × State F)
      choose b =
          if b
          then ignore_error (recover driver hint_taken taken with_timer)
          else give_up (error_map timer) (deinit flush_taken with_timer)
