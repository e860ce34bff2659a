-- ===== src/Queue/Bus/Restore.antt =====
-- `MessageBus::init` after a restart.
use hydro_logger.Prelude.{◌≡◌, refl, ◌≤◌, true, false, some, [], length, arith}
use hydro_logger.Models.{MeasurementMsg, LogMsg}
use hydro_logger.Queue.Ram.{RamQueue, QueueLaws}
use hydro_logger.Queue.Disk.{Medium, Storage, ensure_storage_mounted}
use hydro_logger.Queue.Mirror.{Codec, load_snapshot}
use hydro_logger.Queue.Mirror.Sync.{Holds}
use hydro_logger.Queue.Mirror.Restart.{start_lem, fresh}
use hydro_logger.Queue.Bus.{MessageBus, init}

module _ (measures : RamQueue MeasurementMsg) (logs : RamQueue LogMsg) (cm : Codec MeasurementMsg)
    (cl : Codec LogMsg) (lm : QueueLaws measures) (ll : QueueLaws logs) where
  -- Where the partition mounts and both files load to what their mirrors held before the restart,
  -- `init` on empty queues that are as long as the mirrors succeeds, and both queues hold those
  -- items again. The partition is mounted, with one registration for the two.
  pub init_restores :
      (b : MessageBus measures logs cm cl)
      → (qm : measures.Q) → (ql : logs.Q) → (medium_m medium_l : Medium) → lm.contents qm ≡ []
      → ll.contents ql ≡ []
      → length b.measure_mirror.shadow ≤ lm.cap
      → length b.log_mirror.shadow ≤ ll.cap
      → load_snapshot cm (fresh b.measure_mirror) ≡ (true, b.measure_mirror)
      → load_snapshot cl (fresh b.log_mirror) ≡ (true, b.log_mirror)
      → let (ok, storage, b') =
          init measures logs cm cl
            (some qm)
            (some ql)
            true
            medium_m
            medium_l
            (record { attempted = false; mounted = false; registrations = 0 })
            (record b {
              measure_mirror = fresh b.measure_mirror;
              log_mirror = fresh b.log_mirror;
            }) in
        (ok ≡ true)
        × (storage.mounted ≡ true)
        × (storage.registrations ≡ 1)
        × Holds cm measures lm b'.q_measure b.measure_mirror.shadow
        × Holds cl logs ll b'.q_log b.log_mirror.shadow
        × (b'.measure_mirror ≡ b.measure_mirror)
        × (b'.log_mirror ≡ b.log_mirror)
  unfolding init ensure_storage_mounted
  init_restores b qm ql medium_m medium_l em el rm rl hm hl =
      let fresh_storage : Storage = record {
        attempted = false;
        mounted = false;
        registrations = 0;
      } in
      let mounted_storage : Storage = record {
        attempted = true;
        mounted = true;
        registrations = 1;
      } in
      let (ok_m, storage_m, held_m, same_m) =
        start_lem cm measures lm true medium_m fresh_storage qm b.measure_mirror refl em rm hm in
      let (ok_l, storage_l, held_l, same_l) =
        start_lem cl logs ll true medium_l mounted_storage ql b.log_mirror refl el rl hl in
      ground (arith, ok_m, storage_m, held_m, same_m, ok_l, storage_l, held_l, same_l)
