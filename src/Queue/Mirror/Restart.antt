-- ===== src/Queue/Mirror/Restart.antt =====
-- A restart: what a successful call put into the file comes back into a fresh RAM queue.
use hydro_logger.Prelude.{
  ℕ, ◌+◌, ◌*◌, ◌≡◌, refl, ap, sym, ◌∙◌, ◌≤◌, ◌<◌, ◌^◌, List, [], ◌∷◌, ◌++◌, Bool, true, false,
  Option, none, some, length, ltb, if◌then◌else◌, arith, All, All-append, length-append,
  append_assoc, append-nil, Bool-cases, inl, inr,
}
use hydro_logger.Queue.Ram.{RamQueue, QueueLaws}
use hydro_logger.Queue.Disk.{Medium, Storage, ensure_storage_mounted}
use hydro_logger.Queue.Mirror.Written.{CodecLaws, persist-opens, shadow-persist_snapshot}
use hydro_logger.Queue.Mirror.Snapshot.{load-persist_snapshot}
use hydro_logger.Queue.Mirror.{
  Codec, Mirror, load_snapshot, persist_snapshot, init, send_all, restore_to_ram, enqueue, pop, ack,
  erase_first,
}
use hydro_logger.Queue.Mirror.Sync.{Op, enqueues, pops, acks, fifo, step, InSync, Holds, step-fifo}

-- The mirror object of a fresh start: the file is still there, the shadow is empty.
abbrev pub fresh : {T : Type 0} → Mirror T → Mirror T
fresh m = record m { shadow = [] }

module _ {T : Type 0} (c : Codec T) (r : RamQueue T) where
  -- `restoreToRam` after `init`, as `MessageBus::init` calls them: the second only where the first
  -- succeeded.
  unfoldable pub start :
      Bool → Storage → Medium → Option r.Q → Mirror T → Bool × Storage × Option r.Q × Mirror T
  start registers storage medium q m =
      let (ready, storage', m') = init c registers storage m in
      let (ok, q', m'') = restore_to_ram c r medium q m' in
      if ready then (ok, storage', q', m'') else (false, storage', q, m')

  module _ (laws : QueueLaws r) where
    -- The sending loop stops where the queue is full.
    send_all_lem :
        (xs : List T) (q : r.Q)
        → length (laws.contents q) + length xs ≤ laws.cap
        → ((send_all c r xs q).0 ≡ length xs)
          × (laws.contents (send_all c r xs q).1 ≡ laws.contents q ++ xs)
    unfolding send_all
    send_all_lem [] q h = (refl, rw append-nil)
    send_all_lem (x ∷ xs) q h =
        let room : length (laws.contents q) < laws.cap = omega arith in
        let fits : length (laws.contents (r.send x q).1) + length xs ≤ laws.cap =
          rw (laws.send_adds x q room, length-append (laws.contents q) (x ∷ [])) (omega arith) in
        let (n, e) = send_all_lem xs (r.send x q).1 fits in
        ground (
          arith,
          laws.send_room x q room,
          laws.send_adds x q room,
          n,
          e,
          append_assoc (laws.contents q) (x ∷ []) xs,
        )

    -- Where the file gives back the shadow, a start with an empty queue of the same capacity puts
    -- the shadow into it.
    pub start_lem :
        (registers : Bool) (medium : Medium) (storage : Storage) (q : r.Q) (m : Mirror T)
        → (ensure_storage_mounted registers storage).0 ≡ true
        → laws.contents q ≡ []
        → length m.shadow ≤ laws.cap
        → load_snapshot c (fresh m) ≡ (true, m)
        → ((start registers storage medium (some q) (fresh m)).0 ≡ true)
          × ((start registers storage medium (some q) (fresh m)).1
              ≡ (ensure_storage_mounted registers storage).1)
          × Holds c r laws (start registers storage medium (some q) (fresh m)).2 m.shadow
          × ((start registers storage medium (some q) (fresh m)).3 ≡ m)
    unfolding start init restore_to_ram
    start_lem registers medium storage q m mounted empty room e =
        let (n, held) = send_all_lem m.shadow q (rw empty (omega arith)) in
        ground (arith, n, held, e, empty)

    pub load-fresh : (m : Mirror T) → load_snapshot c (fresh m) ≡ load_snapshot c m
    unfolding load_snapshot
    load-fresh m = refl

  module _ (laws : QueueLaws r) (Fits : T → Type 0) (codec : CodecLaws c Fits) where
    abbrev pub OpFits : Op T → Type 0
    OpFits (enqueues x) = Fits x
    OpFits pops = Unit
    OpFits acks = Unit

    -- A call that returns `true` has written its shadow.
    step_persists :
        (medium : Medium) (o : Op T) (s : Option r.Q × Mirror T)
        → InSync c r laws s
        → (step c r medium o s).0 ≡ true
        → (m : Mirror T) × ((persist_snapshot c medium m).0 ≡ true)
          × ((step c r medium o s).2.1 ≡ (persist_snapshot c medium m).1)
    unfolding step enqueue pop ack
    step_persists medium o (none, m) v done = absurd v.held
    step_persists medium (enqueues x) (some q, m) v done = (
      record m {
        shadow = if ltb (length m.shadow) m.capacity then m.shadow ++ x ∷ [] else m.shadow;
      },
      ground arith,
      ground arith,
    )
    step_persists medium pops (some q, m) v done =
        (record m { shadow = erase_first m.shadow }, ground arith, ground arith)
    step_persists medium acks (some q, m) v done =
        (record m { shadow = erase_first m.shadow }, ground arith, ground arith)

    fifo-fits :
        (cap' : ℕ) (o : Op T) (xs : List T) → OpFits o → All Fits xs → All Fits (fifo cap' o xs).1
    unfolding fifo
    fifo-fits cap' (enqueues x) xs f h = elim (Bool-cases (ltb (length xs) cap')) [
      | inl room ↦ rw (room) (All-append Fits xs (x ∷ []) h (f, tt))
      | inr full ↦ rw full h
    ]
    fifo-fits cap' pops [] f h = h
    fifo-fits cap' pops (x ∷ xs) f h = h.1
    fifo-fits cap' acks [] f h = h
    fifo-fits cap' acks (x ∷ xs) f h = h.1

    length-InSync : (s : Option r.Q × Mirror T) → InSync c r laws s → length s.1.shadow ≤ laws.cap
    length-InSync (none, m) v = absurd v.held
    length-InSync (some q, m) v = rw (← v.held) (laws.bounded q)

    step_loads :
        (medium : Medium) (o : Op T) (s : Option r.Q × Mirror T)
        → OpFits o
        → All Fits s.1.shadow
        → laws.cap < 2 ^ 32
        → InSync c r laws s
        → 16 + length (fifo laws.cap o s.1.shadow).1 * c.item_size ≤ medium.room
        → (step c r medium o s).0 ≡ true
        → load_snapshot c (step c r medium o s).2.1 ≡ (true, (step c r medium o s).2.1)
    step_loads medium o s f fits small v whole done =
        let (m, ok, e) = step_persists medium o s v done in
        let (w, out, new) = step-fifo c r laws medium o s v in
        let (same, cap') = shadow-persist_snapshot c medium m in
        let shadow : m.shadow ≡ (fifo laws.cap o s.1.shadow).1 =
          sym same ∙ ap (λ t. t.shadow) (sym e) ∙ new in
        let room : m.capacity ≡ laws.cap = sym cap' ∙ ap (λ t. t.capacity) (sym e) ∙ w.capacity in
        let short = length-InSync (step c r medium o s).2 w in
        rw e
          (load-persist_snapshot c Fits codec medium m
            (rw shadow (fifo-fits laws.cap o s.1.shadow f fits))
            (rw (shadow, room) (rw new at short)) (rw room small) (persist-opens c medium m ok)
            (rw shadow whole)).1

    -- A call that returned `true`, with room in the file system for the whole snapshot, survives a
    -- restart: where the storage mounts, the next start, with
    -- the file that the call left and an empty queue of the same capacity, succeeds, and its queue
    -- and its shadow hold what the bounded list holds after the call.
    pub start-step :
        (medium : Medium) (o : Op T) (s : Option r.Q × Mirror T) (registers : Bool) (next : Medium)
        (storage : Storage) (q : r.Q)
        → OpFits o
        → All Fits s.1.shadow
        → laws.cap < 2 ^ 32
        → InSync c r laws s
        → (step c r medium o s).0 ≡ true
        → 16 + length (fifo laws.cap o s.1.shadow).1 * c.item_size ≤ medium.room
        → (ensure_storage_mounted registers storage).0 ≡ true
        → laws.contents q ≡ []
        → let (ok, storage', q', m') =
            start registers storage next (some q) (fresh (step c r medium o s).2.1) in
          (ok ≡ true)
          × Holds c r laws q' (fifo laws.cap o s.1.shadow).1
          × (m'.shadow ≡ (fifo laws.cap o s.1.shadow).1)
    start-step medium o s registers next storage q f fits small v done whole mounted empty =
        let (w, out, new) = step-fifo c r laws medium o s v in
        let m = (step c r medium o s).2.1 in
        let (ok, storage', held, same) =
          start_lem laws registers next storage q m mounted empty
            (length-InSync (step c r medium o s).2 w)
            (load-fresh laws m ∙ step_loads medium o s f fits small v whole done) in
        (ok, rw (← new) held, rw same new)
