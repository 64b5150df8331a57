-- ===== src/Telemetry/Start.antt =====
-- `telemetry_pipeline_init` and `telemetry_pipeline_deinit` of
-- components/telemetry_pipeline/telemetry_pipeline.c, on top of the analyzer.
mod Tests
use modbus_vault.Base.{
  ℕ, ◌≡◌, refl, sym, ap, ◌∙◌, Bool, Bool-cases, inl, inr, true, false, List, ◌∷◌, Option, none,
  some, if◌then◌else◌, arith,
}
use modbus_vault.Base.{EspErr, is_ok}
use modbus_vault.Modbus.Analyzer.Lifecycle.{AnalyzerHandle, AnalyzerConfig, Platform}
use modbus_vault.Modbus.Analyzer.Lifecycle

-- The statics of the file: `analyzer`, `raw_frame_queue` and `record_ready_callback`.
pub record Pipeline (Q R : Type 0) : Type 0 where
  pub analyzer : AnalyzerHandle Q
  pub raw_frame_queue : Option R
  pub has_record_callback : Bool

-- `xQueueCreate` and `vQueueDelete` on queues of frames.
pub record FrameQueues (U R : Type 0) : Type 0 where
  pub create : U → Option R × U
  pub delete : R → U → U

module _ {U Q R : Type 0} (platform : Platform U Q) (queues : FrameQueues U R) where
  abbrev is_some : Option R → Bool
  is_some none = false
  is_some (some q) = true

  -- What follows the initialisation of the analyzer.
  unfoldable pub with_analyzer :
      Pipeline Q R → EspErr × AnalyzerHandle Q × U → Bool × Pipeline Q R × U
  with_analyzer p (e, analyzer, u) =
      if is_ok e
      then (let (queue, u') = queues.create u in
          (
            is_some queue,
            record { analyzer = analyzer; raw_frame_queue = queue; has_record_callback = true },
            u',
          ))
      else (false, record p { analyzer = analyzer }, u)

  -- `telemetry_pipeline_init`, for a configuration that is given; whether a callback is.
  unfoldable pub init : Bool → AnalyzerConfig → Pipeline Q R → U → Bool × Pipeline Q R × U
  unfolding with_analyzer
  init given config p u =
      if given
      then with_analyzer p
          (Lifecycle.init platform (some (record config { has_frame_cb = true })) p.analyzer u)
      else (false, p, u)

  -- `telemetry_pipeline_deinit`
  unfoldable pub deinit : Pipeline Q R → U → Pipeline Q R × U
  deinit p u =
      let u1 : U = elim p.raw_frame_queue [ none ↦ u | some q ↦ queues.delete q u ] in
      let (analyzer, u2) = Lifecycle.deinit platform p.analyzer u1 in
      (record p { analyzer = analyzer }, u2)

-- The queues that were deleted; the calls on the line and on the analyzer's queue delete none.
pub record IsCounted {U Q R : Type 0} (platform : Platform U Q) (queues : FrameQueues U R)
    : Type 0 where
  pub deleted : U → List R
  pub delete : (q : R) (u : U) → deleted (queues.delete q u) ≡ q ∷ deleted u
  pub analyzer_init :
      (config : Option AnalyzerConfig) (a : AnalyzerHandle Q) (u : U)
      → deleted (Lifecycle.init platform config a u).2 ≡ deleted u
  pub analyzer_deinit :
      (a : AnalyzerHandle Q) (u : U) → deleted (Lifecycle.deinit platform a u).1 ≡ deleted u

module _ {U Q R : Type 0} (platform : Platform U Q) (queues : FrameQueues U R)
    (laws : IsCounted platform queues) where
  deinit-deletes :
      (p : Pipeline Q R) (u : U) (q : R)
      → p.raw_frame_queue ≡ some q
      → ((deinit platform queues p u).0.raw_frame_queue ≡ some q)
        × (laws.deleted (deinit platform queues p u).1 ≡ q ∷ laws.deleted u)
  unfolding deinit
  deinit-deletes p u q there = (
    there,
    laws.analyzer_deinit p.analyzer _
        ∙ ap
            (λ (o : Option R).
              laws.deleted (elim o as (λ x. U) [ none ↦ u | some q ↦ queues.delete q u ]))
            there
        ∙ laws.delete q u,
  )

  failed_init-keeps :
      (config : AnalyzerConfig) (p : Pipeline Q R) (u : U)
      → is_ok
          (Lifecycle.init platform (some (record config { has_frame_cb = true })) p.analyzer u).0
        ≡ false
      → ((init platform queues true config p u).1.raw_frame_queue ≡ p.raw_frame_queue)
        × (laws.deleted (init platform queues true config p u).2 ≡ laws.deleted u)
  unfolding init with_analyzer
  failed_init-keeps config p u failed =
      rw failed
        (refl, laws.analyzer_init (some (record config { has_frame_cb = true })) p.analyzer u)

  -- A pipeline with a queue that is taken down, fails to start again since the analyzer does, and is
  -- taken down again, deletes the same queue twice.
  pub queue-deleted_twice :
      (config : AnalyzerConfig) (p : Pipeline Q R) (u : U) (q : R)
      → p.raw_frame_queue ≡ some q
      → is_ok
          (Lifecycle.init platform
            (some (record config { has_frame_cb = true }))
            (deinit platform queues p u).0.analyzer
            (deinit platform queues p u).1).0
        ≡ false
      → let (p1, u1) = deinit platform queues p u in
        let (started, p2, u2) = init platform queues true config p1 u1 in
        laws.deleted (deinit platform queues p2 u2).1 ≡ q ∷ q ∷ laws.deleted u
  queue-deleted_twice config p u q there failed =
      let (p1, u1) = deinit platform queues p u in
      let (started, p2, u2) = init platform queues true config p1 u1 in
      let (left, once) = deinit-deletes p u q there in
      let (kept, none_more) = failed_init-keeps config p1 u1 failed in
      (deinit-deletes p2 u2 q (kept ∙ left)).1 ∙ ap (λ l. q ∷ l) (none_more ∙ once)
