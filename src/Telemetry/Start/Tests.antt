-- ===== src/Telemetry/Start/Tests.antt =====
-- A line whose driver cannot be installed, and a world that is the list of the queues deleted.
use modbus_vault.Base.{ℕ, ◌≡◌, refl, true, false, List, [], ◌∷◌, Option, none, some, arith}
use modbus_vault.Base.{esp_fail}
use modbus_vault.Modbus.Slicer.Tests.{slicer}
use modbus_vault.Modbus.Analyzer.Lifecycle.{
  AnalyzerHandle, AnalyzerConfig, Platform, init_line, with_driver,
}
use modbus_vault.Modbus.Analyzer.Lifecycle
use modbus_vault.Rs485.{LineConfig, Rs485Driver, configure, give_up}
use modbus_vault.Rs485
use modbus_vault.Telemetry.Start.{
  Pipeline, FrameQueues, init, deinit, IsCounted, queue-deleted_twice,
}

abbrev platform : Platform (List ℕ) ℕ
platform = record {
  call = λ c u. (esp_fail, u);
  delete = λ u. u;
  create_queue = λ u. (some 1, u);
  delete_queue = λ q u. u;
}

abbrev queues : FrameQueues (List ℕ) ℕ
queues = record { create = λ u. (some 7, u); delete = λ q u. q ∷ u }

analyzer_init-quiet :
    (config : Option AnalyzerConfig) (a : AnalyzerHandle ℕ) (u : List ℕ)
    → (Lifecycle.init platform config a u).2 ≡ u
unfolding Lifecycle.init init_line with_driver Rs485.init configure give_up Rs485.deinit
analyzer_init-quiet none a u = refl
analyzer_init-quiet (some config) a u = ground arith

analyzer_deinit-quiet : (a : AnalyzerHandle ℕ) (u : List ℕ) → (Lifecycle.deinit platform a u).1 ≡ u
unfolding Lifecycle.deinit Rs485.deinit
analyzer_deinit-quiet a u = ground arith

queues-IsCounted : IsCounted platform queues
queues-IsCounted = record {
  deleted = λ u. u;
  delete = λ q u. refl;
  analyzer_init = analyzer_init-quiet;
  analyzer_deinit = analyzer_deinit-quiet;
}

abbrev config : AnalyzerConfig
config = record {
  line = some (record { data_bits = 8; parity = 0; stop_bits = 1 }, 9600);
  has_frame_cb = false;
}

abbrev started : Pipeline ℕ ℕ
started = record {
  analyzer = record {
    rs485_drv = record { has_config = true; has_event_queue = true; bit_length = 10 };
    slicer = slicer;
    raw_events_queue = some 1;
  };
  raw_frame_queue = some 7;
  has_record_callback = true;
}

queue-deleted_twice_example :
    let (p1, u1) = deinit platform queues started [] in
    let (ready, p2, u2) = init platform queues true config p1 u1 in
    (deinit platform queues p2 u2).1 ≡ 7 ∷ 7 ∷ []
unfolding queues-IsCounted Lifecycle.init init_line with_driver Rs485.init configure give_up
queue-deleted_twice_example =
    queue-deleted_twice platform queues queues-IsCounted config started [] 7 refl refl
