-- ===== src/Telemetry/Log.antt =====
-- `logger_service_init` and `logger_service_deinit` of components/logger_service/logger_service.c, on top
-- of the blackbox logger.
use modbus_vault.Base.{◌≡◌, ap, ◌∙◌, Bool, false, ◌&&◌, Option, none, some, if◌then◌else◌}
use modbus_vault.Base.{EspErr}
use modbus_vault.Blackbox.{BbErr, succeeds, Config, Driver, Parameters, State, error_map}
use modbus_vault.Blackbox.Lifecycle
use modbus_vault.Blackbox.Lifecycle.{IsDown, init-GivesUp}

-- The statics of the file: `logger`, with the flash that it writes to, and whether there is a
-- `logging_queue`.
pub record LogService (F : Type 0) : Type 0 where
  pub log : State F
  pub has_logging_queue : Bool

-- What FreeRTOS and the timer service answer to an initialisation.
pub record Answers : Type 0 where
  pub write_lock : Bool
  pub sector_lock : Bool
  pub timer : EspErr
  pub hint_taken : Bool
  pub lock_taken : Bool
  pub flush_taken : Bool
  pub logging_queue : Bool

module _ {F : Type 0} (driver : Driver F) where
  -- The queue, behind the initialisation of the log.
  unfoldable pub with_log :
      Bool → LogService F → Option (BbErr × State F) → Option (Bool × LogService F)
  with_log queue s none = none
  with_log queue s (some (e, log)) = some (
      if succeeds e
      then (queue, record { log = log; has_logging_queue = queue })
      else (false, record s { log = log }))

  -- `logger_service_init`; `none` is a NULL configuration.
  unfoldable pub init :
      Option (Config × Parameters) → Answers → LogService F → Option (Bool × LogService F)
  unfolding with_log
  init none a s = some (false, s)
  init (some (config, parameters)) a s = with_log a.logging_queue s (
      Lifecycle.init driver config parameters a.write_lock a.sector_lock a.timer a.hint_taken
        a.lock_taken a.flush_taken s.log)

  unfoldable pub without_log : Option (State F) → Option (LogService F)
  without_log none = none
  without_log (some log) = some (record { log = log; has_logging_queue = false })

  -- `logger_service_deinit`, the lock of the last flush taken in time or not.
  unfoldable pub deinit : Bool → LogService F → Option (LogService F)
  unfolding without_log
  deinit taken s = without_log (Lifecycle.deinit driver taken s.log)

  -- Where a mutex or the timer of the log cannot be created, the initialisation of the service
  -- reports that, touches neither the flash nor the queue, and leaves the log without handles.
  pub init-fails :
      (config : Config) (parameters : Parameters) (a : Answers) (s : LogService F)
      → a.write_lock && a.sector_lock && succeeds (error_map a.timer) ≡ false
      → (log : State F) × (init (some (config, parameters)) a s
          ≡ some (false, record s { log = log }))
        × (log.flash ≡ s.log.flash)
        × IsDown driver log.logger
  unfolding init with_log
  init-fails config parameters a s bad =
      let (e, log, returns, failed, same, down) =
        init-GivesUp driver config parameters a.write_lock a.sector_lock a.timer a.hint_taken
          a.lock_taken a.flush_taken s.log bad in
      (
        log,
        ap (with_log a.logging_queue s) returns
            ∙ ap
                (λ (fine : Bool). some (
                  if fine
                  then (a.logging_queue, record { log = log; has_logging_queue = a.logging_queue })
                  else (false, record s { log = log })))
                failed,
        same,
        down,
      )
