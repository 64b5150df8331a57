-- ===== src/Telemetry/Released/Tests.antt =====
-- A world that counts the handles, and a client that leaves it alone.
use modbus_vault.Base.{ℕ, suc, ◌-◌, ◌≡◌, refl, true, false, [], ◌∷◌, some, arith}
use modbus_vault.Base.{esp_ok}
use modbus_vault.Mqtt.{Client}
use modbus_vault.Telemetry.Lifecycle.{
  Service, Handle, state_lock, live_queue, metrics_timer, Kernel, init, deinit,
}
use modbus_vault.Telemetry.Released.{IsKernel, deinit-init}

-- How many locks, queues and timers there are.
record Count : Type 0 where
  locks : ℕ
  queues : ℕ
  timers : ℕ

abbrev silent : Client Count
silent = record {
  set_up = λ c w. (esp_ok, w);
  tear_down = λ c w. w;
  publish = λ topic bytes qos w. (true, w);
  notify = λ online w. w;
}

abbrev count : Handle → Count → ℕ
count state_lock w = w.locks
count live_queue w = w.queues
count metrics_timer w = w.timers

abbrev made : Handle → Count → Count
made state_lock w = record w { locks = suc w.locks }
made live_queue w = record w { queues = suc w.queues }
made metrics_timer w = record w { timers = suc w.timers }

abbrev unmade : Handle → Count → Count
unmade state_lock w = record w { locks = w.locks - 1 }
unmade live_queue w = record w { queues = w.queues - 1 }
unmade metrics_timer w = record w { timers = w.timers - 1 }

-- The timer cannot be started.
abbrev kernel : Kernel Count
kernel = record { create = λ h w. (true, made h w); start_timer = λ w. (false, w); delete = unmade }

kernel-IsKernel : IsKernel silent kernel
kernel-IsKernel = record {
  alive = count;
  created = λ h w. ground arith;
  created_others = λ h other w ne. ground arith;
  started = λ h w. refl;
  deleted = λ h w n e. ground arith;
  deleted_others = λ h other w ne. ground arith;
  set_up = λ h c w. refl;
  torn_down = λ h c w. refl;
  notified = λ h online w. refl;
}

abbrev fresh : Service
fresh = record {
  is_online_flag = true;
  has_state_lock = false;
  has_replay_cb = false;
  bridge = record {
    has_client = false;
    has_lock = false;
    has_notify = false;
    mqtt_connected = false;
  };
  has_live_queue = false;
  topics = [] ∷ [] ∷ [] ∷ [];
  has_metrics_timer = false;
}

abbrev some_handles : Count
some_handles = record { locks = 4; queues = 5; timers = 6 }

deinit-init_example :
    let w' =
      (deinit silent kernel (init silent kernel (some (65 ∷ [])) [] (fresh, some_handles)).1).1 in
    (count state_lock w' ≡ 4) × (count live_queue w' ≡ 5) × (count metrics_timer w' ≡ 6)
unfolding kernel-IsKernel
deinit-init_example =
    deinit-init silent kernel kernel-IsKernel (some (65 ∷ [])) [] fresh some_handles
      (refl, refl, refl)
