-- ===== src/Metrics/Tests.antt =====
-- Runs of the counters, alone and behind the event bus.
use modbus_vault.Base.{
  ℕ, ◌≡◌, refl, true, false, List, [], ◌∷◌, ◌++◌, Option, none, some, arith, replicate,
}
use modbus_vault.Base.Words.{write32}
use modbus_vault.Rtos.Bounded.{Bounded, bounded, bounded-IsQueue}
use modbus_vault.EventBus.{Bus, task_round, data_of}
use modbus_vault.EventBus.Payload.{publish_all}
use modbus_vault.Metrics.Counters.{Callback, call}
use modbus_vault.Metrics.Stale.{set_up, count_same, errors-counted_stale}

abbrev used_counters : List ℕ
used_counters = 4 ∷ 0 ∷ 1 ∷ 0 ∷ 0 ∷ 0 ∷ 9 ∷ []

abbrev create_bounded : ℕ → ℕ → Option (Bounded (List ℕ))
create_bounded count size = some (record { items = []; capacity = count })

abbrev no_bus : Bus (Bounded (List ℕ)) Callback
no_bus = record {
  event_queue = none;
  item_size = 0;
  subscribers = [];
  has_event_bit = false;
  has_stop_bit = false;
  has_task = true;
}

-- An event of the statistic 2, METRICS_STAT_MODBUS_CRC_ERRORS.
abbrev crc_event : List ℕ
crc_event = write32 0 ++ write32 2 ++ replicate 16 0

-- The task's local variable, of which nothing was written yet.
abbrev fresh_event : List ℕ
fresh_event = write32 0 ++ write32 6 ++ replicate 16 0

errors-counted_stale_example :
    (b' : Bus (Bounded (List ℕ)) Callback) × (event' : List ℕ) × (task_round bounded call 3
        (publish_all bounded
          (crc_event ∷ crc_event ∷ [])
          (set_up bounded bounded-IsQueue create_bounded 4 no_bus used_counters).0)
        (record {
          event = fresh_event;
          world = (set_up bounded bounded-IsQueue create_bounded 4 no_bus used_counters).1;
        })
      ≡ some (
        b',
        record {
          event = event';
          world =
              count_same 2
                (data_of fresh_event)
                (set_up bounded bounded-IsQueue create_bounded 4 no_bus used_counters).1;
        },
      ))
unfolding bounded-IsQueue
errors-counted_stale_example =
    errors-counted_stale bounded bounded-IsQueue create_bounded 4 no_bus
      (record { items = []; capacity = 5 }) used_counters fresh_event (crc_event ∷ crc_event ∷ [])
      refl refl (omega arith) refl (omega arith) (refl, (refl, tt)) (omega arith)
