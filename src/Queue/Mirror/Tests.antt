-- ===== src/Queue/Mirror/Tests.antt =====
-- The mirrored queue at concrete inputs, over items of one byte.
use hydro_logger.Prelude.{
  ℕ, ◌≡◌, refl, ◌<◌, List, [], ◌∷◌, true, false, Option, none, some, get_or, length, arith,
}
use hydro_logger.Queue.Ram.ListQueue.{list_queue, list_queue_laws, list_send}
use hydro_logger.Queue.Disk.{Medium, opened, closed, ensure_storage_mounted, fwrite, u32_bytes}
use hydro_logger.Queue.Mirror.{
  Codec, Mirror, load_snapshot, persist_snapshot, enqueue, header_bytes,
}
use hydro_logger.Queue.Mirror.Written.{CodecLaws}
use hydro_logger.Queue.Mirror.Snapshot.{load-persist_snapshot, load-persist_unflushed}
use hydro_logger.Queue.Mirror.Sync.{
  Op, enqueues, pops, acks, InSync, Holds, step, run, run-fifo, fifo, fifo_run,
}
use hydro_logger.Queue.Mirror.Restart.{start, start-step, fresh}

abbrev byte_codec : Codec ℕ
byte_codec = record { item_size = 1; bytes = λ x. x ∷ []; read = λ b. get_or b 0 0 }

abbrev IsByte : ℕ → Type 0
IsByte x = x < 256

byte_codec-CodecLaws : CodecLaws byte_codec IsByte
byte_codec-CodecLaws = record {
  size_pos = omega arith;
  size_small = omega arith;
  image_size = λ x f. refl;
  read_image = λ x f. refl;
}

abbrev medium : Medium
medium = record { opens = true; room = 64; buffer = 32 }

-- The file cannot be opened.
abbrev broken : Medium
broken = record { opens = false; room = 0; buffer = 0 }

abbrev mirror : Mirror ℕ
mirror = record { capacity = 2; shadow = 7 ∷ []; file = none }

abbrev state : Option (List ℕ) × Mirror ℕ
state = (some (7 ∷ []), mirror)

state-InSync : InSync byte_codec (list_queue 2) (list_queue_laws 2) state
state-InSync = record { held = refl; capacity = refl }

load-persist_snapshot_example :
    ((persist_snapshot byte_codec medium mirror).0 ≡ true)
    × (load_snapshot byte_codec (persist_snapshot byte_codec medium mirror).1
        ≡ (true, (persist_snapshot byte_codec medium mirror).1))
load-persist_snapshot_example =
    load-persist_snapshot byte_codec IsByte byte_codec-CodecLaws medium mirror (omega arith)
      (omega arith) (omega arith) refl (omega arith)

-- A flash that is full after the header.
abbrev full : Medium
full = record { opens = true; room = 16; buffer = 32 }

load-persist_unflushed_example :
    ((persist_snapshot byte_codec full mirror).0 ≡ true)
    × ((load_snapshot byte_codec (persist_snapshot byte_codec full mirror).1).0 ≡ true)
    × (length (load_snapshot byte_codec (persist_snapshot byte_codec full mirror).1).1.shadow ≡ 0)
    × ((load_snapshot byte_codec (persist_snapshot byte_codec full mirror).1).1.shadow ≡ [])
load-persist_unflushed_example =
    load-persist_unflushed byte_codec IsByte byte_codec-CodecLaws full mirror 0 0 (omega arith)
      (omega arith) (omega arith) refl (omega arith) (omega arith) refl (omega arith)

abbrev calls : List (Medium × Op ℕ)
calls =
    (medium, enqueues 8)
    ∷ (broken, enqueues 9)
    ∷ (broken, pops)
    ∷ (medium, acks)
    ∷ (medium, pops)
    ∷ []

-- The second item is refused by the full queue; the snapshots that fail change nothing else.
run-fifo_example :
    let s = run byte_codec (list_queue 2) calls state in
    InSync byte_codec (list_queue 2) (list_queue_laws 2) s.1
    × (s.0 ≡ none ∷ none ∷ some 7 ∷ none ∷ none ∷ [])
    × (s.1.1.shadow ≡ [])
unfolding fifo_run
run-fifo_example = run-fifo byte_codec (list_queue 2) (list_queue_laws 2) calls state state-InSync

start-step_example :
    let (ok, storage, q, m) =
      start byte_codec
        (list_queue 2)
        true
        (record { attempted = false; mounted = false; registrations = 0 })
        medium
        (some [])
        (fresh (step byte_codec (list_queue 2) medium (enqueues 8) state).2.1) in
    (ok ≡ true)
    × Holds byte_codec (list_queue 2) (list_queue_laws 2) q (7 ∷ 8 ∷ [])
    × (m.shadow ≡ 7 ∷ 8 ∷ [])
unfolding step enqueue persist_snapshot opened fwrite closed u32_bytes header_bytes list_send fifo
    ensure_storage_mounted
start-step_example =
    start-step byte_codec (list_queue 2) (list_queue_laws 2) IsByte byte_codec-CodecLaws medium
      (enqueues 8) state true medium
      (record { attempted = false; mounted = false; registrations = 0 }) [] (omega arith)
      (omega arith) (omega arith) state-InSync refl (unfold fifo in omega arith) refl refl
