-- ===== src/Lib.antt =====
-- Verification of Modbus Vault, an ESP32 gateway that captures Modbus RTU frames from an RS-485
-- line, publishes them as telemetry, and logs them to flash while there is no link. The C code is
-- under components/; a path below starts there.
--
-- A frame's way through the program: the driver's events reach the task of modbus_analyzer, which
-- feeds their bytes to the slicer; the slicer takes a buffer from slab_pool, gathers the bytes of a
-- frame in it, and hands it over at the silence behind the frame; the analyzer checks the CRC and
-- passes the slab on, or publishes an error. The task of telemetry_pipeline packs the frame into
-- another slab, and the router gives that to telemetry_service, which publishes it, or, while there
-- is no link, to logger_service, which writes it to blackbox_logger. The log gathers entries in a
-- batch, flushes the batch to the sectors of a flash partition, and replays them later. Errors are
-- published to event_bus, behind which metrics counts them. The controller brings all of this up in
-- order and takes it down, and nvs_manager keeps the settings, which system_config puts in force.
-- wifi_manager and mqtt_bridge hold the link, and tell telemetry_service of it.
--
--   Base         C arrays as lists, words with their wrap-around, bit operations, esp_err_t
--   Rtos         the queue of FreeRTOS: an interface with its laws, and a list that fulfils them
--   Crc          utils/utils.c: calculate_modbus_crc16 in both builds (crc16, crc16_lut)
--   SlabPool     slab_pool/slab_pool.c: init, alloc, free, deinit on the links of the free list;
--                Ownership and Books are the slabs with those that hold them
--   Modbus       modbus_analyzer/: Parser is modbus_parser.c (check_crc), Slicer modbus_slicer.c
--                (init, feed, timeout, check_timeout), Analyzer modbus_analyzer.c (handle_event for
--                the body of the task's loop, emit_modbus_frame for the callback), with
--                modbus_analyzer_init and _deinit in Lifecycle
--   Rs485        rs485_driver/: packet for what the task makes of an event of the UART, init and
--                deinit, and frame_bit_length; Capture is the way from there through Modbus
--   EventBus     event_bus/event_bus.c: init, publish, subscribe, unsubscribe, deinit, and task_round
--                for the task's work behind a notification
--   Metrics      metrics/: the statistics; Counters is metrics.c (init, call for the callback,
--                reset_all, get_snapshot)
--   Telemetry    telemetry_pipeline/ (pipeline_round, enqueue_raw_frame), controller/router.c
--                (dispatch), telemetry_service/ (process_live_quota, publish_to_topic, is_online,
--                set_online), logger_service/ (logger_round, store), on the state that they share;
--                Replay is the way of the backlog, Topics the names that records are
--                published under; Steps lets the tasks run in any order. Start is the initialisation of the
--                pipeline and its reverse, Lifecycle that of the telemetry service and Log that of
--                the logger service, and Service is a round of the telemetry service's task and its
--                report of the counters. Stored joins the logger service to Blackbox
--   Blackbox     blackbox_logger/: Entry is the format of the entries and their validation, Write,
--                Flush and Replay are blackbox_logger_write, _flush, _read, _next_replay and
--                _iterate_replay, Recover is the recovery after a restart, Lifecycle is
--                blackbox_logger_init and _deinit; Batch is the view of the batch buffer as a list
--                of entries
--   Nvs          nvs_manager/: save_config and load_config, with the format of the blob; Calls is
--                nvs_manager_init, _deinit, _set_default, _write_cfg, _read_cfg and the timer's
--                callback (check_dirty_commit)
--   SystemConfig system_config/: setup_defaults, setup and reset, and save_parameters for the timer's
--                callback; Certs is system_config_load_mqtt_certs with the packing of the partition in
--                tools/scripts/provisionDevice.py, Provisioner is ble_provisioner.c
--   Wifi         wifi_manager/: init, deinit, handle_event for the handler of the events,
--                timer_callback and trigger_reconnect; Retry lets events and the timer come in any order
--   Mqtt         mqtt_bridge/: init, deinit, publish and handle_event; Online joins it to Telemetry
--   Controller   controller/: system_init and system_deinit over their steps, and the loop of
--                controller_run
--
-- State is passed explicitly: a function takes the struct that the C function works on, with the
-- buffers that it points to, and returns it changed. A pointer is an index into the pool, and NULL
-- is none. A mutex that is waited for without limit makes its call one step; where the code
-- gives up after a time, an argument says whether the lock was taken. The hooks on the flash
-- (esp_partition_read, _write and _erase_range in the program) are a record of functions over an
-- abstract flash, and so are those on NVS. An event is the list of its bytes, as it is copied into
-- the queue and out of it. A task's round of work is one step; what comes between its parts from
-- other tasks is written out where it matters, as the stop requests in Controller and the parts of
-- the timer's callback in Nvs.Valid.
--
-- Words are numbers of the native ℕ with their reduction modulo 2 ^ 32 or 2 ^ 16 written out.
-- Timestamps are not reduced: 64 bits of microseconds do not wrap. The loop over a chunk runs on as
-- much fuel as the chunk has bytes, and one round more, and the loop of a flush on two rounds for
-- each byte and two more, and the search of the recovery on a round for each sector; the theorems
-- on them show that this is enough. The scan of a sector in the recovery has a round for each byte
-- of it and one more, and the replay of a whole backlog as many as it is given. Where its fuel is
-- spent, a loop other than that over a chunk returns none.
--
-- The round of the event bus's task takes more fuel than there are queued events, the initialisation
-- of the system a round for each of its ten steps and one more; both are shown to be enough. The
-- quotas of the telemetry and logger tasks bound their loops.
--
-- Not modelled: the tasks, timers and notifications of FreeRTOS themselves, so that a round may come
-- at any time, with runtime_tasks/, which creates them; debug_pins/, which only writes pins; the
-- packing of a frame (serializer/), which is generated code; and the network clients themselves, which
-- are ESP-IDF's. A setting of the build is a parameter.
pub mod Base
pub mod Blackbox
pub mod Controller
pub mod Crc
pub mod EventBus
pub mod Metrics
pub mod Modbus
pub mod Mqtt
pub mod Nvs
pub mod Rs485
pub mod Rtos
pub mod SlabPool
pub mod SystemConfig
pub mod Telemetry
pub mod Wifi
