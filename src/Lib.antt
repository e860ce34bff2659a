-- ===== src/Lib.antt =====
-- Verification of the hydro logger, the firmware of an ESP32 water-level logger (paths are from the
-- repository's root).
--
-- The device wakes on an alarm of its clock, measures, puts the measurement and a log into two
-- queues that survive a restart, at minute 0 also sends what the queues hold over one of two links,
-- sets the next alarm and sleeps.
--
--   Prelude        the shared vocabulary: Boolean tests, measured lists, C integers, bytes and masks,
--                  the decimal numerals of printf and sscanf
--   Models         the messages (main/middleware/data_models.hpp)
--   Queue          the queues (main/middleware): Disk is the flash file and the stream to it, whose
--                  buffer may take more than the flash has room for, Records the codecs and their byte
--                  images, Mirror the PersistentQueueMirror, Bus the MessageBus and
--                  the PublishApi, Ram the interface of a FreeRTOS queue with an implementation
--   Rtc            the clock (main/modules/rtc): I2c is the path to the bus (main/board/i2c_drv.cpp,
--                  i2c_port.cpp), Pcf8563 the driver, Device the class RtcPcf8563. Chip states the
--                  data sheet as hypotheses, Simulated is a chip that meets them
--   TimeUtils      the schedule and the server's time text (main/common/time_utils.cpp)
--   LogBuffer      the session log (main/services/logging/log_buffer.cpp)
--   JsonPacker     the texts that are sent (main/services/pack/json_packer.cpp) and their readers
--   Sensor         the sensor manager and the ultrasonic sensor (main/modules/sensor)
--   Nvs            the stored preferences (main/common/nvs_store.cpp): the link and the access point,
--                  and in Settings the device code, the calibration and the batch save
--   Console        the configuration console (main/app/config_console.cpp)
--   Connectivity   the choice of the link and the failover (main/services/connectivity/
--                  connectivity_manager.cpp, main/app/failover_task.cpp)
--   Sim4g          the modem (main/services/connectivity/sim4g_module.cpp, and the line reader of
--                  main/board/uart_drv.cpp): Parse reads its answers, At is the AT exchange, Power,
--                  Registration, Carrier, DataContext and Network are the phases of the way to the
--                  network, Http, Post and Get the requests, Blocks, Windows and Download the
--                  update of the firmware. Rules states what is assumed of the board, its power pin and
--                  the texts written to the UART included; Rules, Talks, Loops and Ensures carry the proofs;
--                  Simulated is a board with a modem that answers from a script, and AsModule is
--                  the modem as a link that Connectivity tries
--   Ota            the update of the firmware (main/services/ota/ota_service.cpp) over the modem or
--                  the HTTP stack of ESP-IDF
--   AppState       the event bits (main/app/app_state.hpp)
--   Measure        a turn of the measurement task (main/app/measure_task.cpp)
--   SyncTask       sending with retries, the drain of the measurements, and the synchronisation of the
--                  time (main/app/sync_task.cpp)
--
-- Each function of the source is a function of the same name in snake case, over explicit state: the
-- shadow list, the RAM queue and the file; the device behind the bus; the log; the flash. A Boolean
-- result stays a Boolean, a status is a `Reply`, an output parameter that is only written on success
-- is returned with the old value otherwise. FreeRTOS queues, the flash, the I2C driver, the UART, the
-- clock and the link modules are parameters; what is assumed of them are the records QueueLaws,
-- CodecLaws, Chip, Reads, Keeps, BusLaws, StoreLaws, HttpsLaws, ClockLaws and Sim4g.Rules.Laws, each
-- with an instance in a Tests module or beside it.
--
-- The modem's operations are written in a monad over its members, the session log, the preferences and
-- the board; `none` there means that the fuel of a loop ran out, which the theorems exclude.
--
-- Integers are natural numbers with the casts written out, or the integers of Prelude.Int for `int`;
-- an overflow of `int` is not modelled. The receive loop of the ultrasonic sensor runs on fuel, one
-- more than the bytes and milliseconds that it is given, which is enough as each turn takes one of
-- them; the drain of the measurements runs on more fuel than there are messages, and ends;
-- printing a number takes as many steps as the number. A loop of the modem that runs for some
-- milliseconds has one turn more than the calls of the board that fit into that time; the loops over
-- windows, blocks and payloads of a download have the bytes that are left, and the download over HTTPS
-- has the parts that are. The synchronisation of the time has eleven turns, as each but the last takes
-- two of its twenty seconds. The tick counter is taken to count milliseconds and not to wrap.
--
-- Not modelled: the drivers that only call ESP-IDF, the serial output of ESP_LOG, the posts of
-- the HTTP client, the DCOM module, the other tasks, and the boot diagnostic.
pub mod Prelude
pub mod Models
pub mod Queue
pub mod Rtc
pub mod TimeUtils
pub mod LogBuffer
pub mod JsonPacker
pub mod Sensor
pub mod Nvs
pub mod Connectivity
pub mod Console
pub mod AppState
pub mod Measure
pub mod SyncTask
pub mod Sim4g
pub mod Ota
