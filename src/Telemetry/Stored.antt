-- ===== src/Telemetry/Stored.antt =====
-- `logger_service_store` over the model of the blackbox logger.
mod Tests
use modbus_vault.Base.{
  ℕ, ◌+◌, ◌^◌, ◌≤◌, ◌≡◌, refl, sym, ap, subst, ◌∙◌, Bool, true, List, [], ◌∷◌, ◌++◌, Option, some,
  if◌then◌else◌, length,
}
use modbus_vault.Rtos.{QueueOps}
use modbus_vault.Metrics.{logger_write_errors}
use modbus_vault.SlabPool.{free}
use modbus_vault.Modbus.Analyzer.{AnalyzerFrame}
use modbus_vault.Blackbox.{BbErr, ok, succeeds, Driver, State}
use modbus_vault.Blackbox.Entry.{aligned_size}
use modbus_vault.Blackbox.Entry.Align.{IsAlign}
use modbus_vault.Blackbox.Batch.{LogEntry, Holds}
use modbus_vault.Blackbox.Write.{write, can_write}
use modbus_vault.Blackbox.Write.Append.{next_entry, write-appends}
use modbus_vault.Telemetry.{Env, System, TelemetryRecord, slab_bytes, store}

-- The log that the services call is a blackbox logger, whose locks are free.
pub record IsLog {W F : Type 0} (env : Env W) (driver : Driver F) : Type 0 where
  pub log : W → State F
  pub writes :
      (bytes : List ℕ) (w : W) (e : BbErr) (s : State F)
      → write driver true true (log w) (some bytes) ≡ some (e, s)
      → ((env.write_log bytes w).0 ≡ succeeds e) × (log (env.write_log bytes w).1 ≡ s)

module _ {R Q W F : Type 0} (raw : QueueOps R AnalyzerFrame) (ops : QueueOps Q TelemetryRecord)
    (env : Env W) (driver : Driver F) (laws : IsLog env driver) where
  -- Where the bytes of a record's slab fit behind the batch of the blackbox logger, storing the record
  -- succeeds: the batch then has them as its last entry, behind those it had, the flash is not
  -- touched, and the slab is given back to the pool.
  pub store-appends :
      (r : TelemetryRecord) (s : System R Q W) (es : List LogEntry)
      → Holds (laws.log s.world).logger es
      → IsAlign (laws.log s.world).logger.config.address_align
      → can_write (laws.log s.world).logger (some (slab_bytes s.pool r.slab_ptr)) ≡ true
      → length (slab_bytes s.pool r.slab_ptr) + 34 ≤ 2 ^ 32
      → (laws.log s.world).logger.batch_len
          + aligned_size
              (length (slab_bytes s.pool r.slab_ptr))
              (laws.log s.world).logger.config.address_align
        ≤ (laws.log s.world).logger.config.batch_buf_size
      → let (stored, t) = store raw ops env r s in
        let entry = next_entry (laws.log s.world).logger (slab_bytes s.pool r.slab_ptr) in
        (stored ≡ true)
        × Holds (laws.log t.world).logger (es ++ entry ∷ [])
        × ((laws.log t.world).flash ≡ (laws.log s.world).flash)
        × (t.pool ≡ free s.pool (some r.slab_ptr))
  unfolding store
  store-appends r s es holds al can small fits =
      let bytes = slab_bytes s.pool r.slab_ptr in
      let (after, wrote, appended, _, _, same) =
        write-appends driver true (laws.log s.world) es bytes holds al can small fits in
      let (good, shown) = laws.writes bytes s.world ok after wrote in
      let w = (env.write_log bytes s.world).1 in
      let kept =
        ap (λ b. laws.log (if b then w else env.report logger_write_errors r.timestamp_us w)) good
        ∙ shown in
      (
        good,
        subst
            (λ (l : State F).
              Holds l.logger (es ++ next_entry (laws.log s.world).logger bytes ∷ []))
            (sym kept) appended,
        ap (λ (l : State F). l.flash) kept ∙ same,
        refl,
      )
