-- ===== src/Queue/Mirror/Sync.antt =====
-- The RAM queue and its shadow in step: the operations of `PersistentQueueMirror` against a
-- bounded first-in first-out list, and the queue after a restart.
use hydro_logger.Prelude.{
  ℕ, ◌≡◌, refl, ap, List, [], ◌∷◌, ◌++◌, Bool, Option, none, some, length, ltb, if◌then◌else◌,
  arith, Bool-cases, inl, inr,
}
use hydro_logger.Queue.Ram.{RamQueue, QueueLaws}
use hydro_logger.Queue.Disk.{Medium}
use hydro_logger.Queue.Mirror.Written.{shadow-persist_snapshot}
use hydro_logger.Queue.Mirror.{Codec, Mirror, enqueue, pop, ack, erase_first}

-- A task's use of the queue.
pub data Op (T : Type 0) : Type 0 where
  enqueues : T → Op T
  pops : Op T
  acks : Op T

module _ {T : Type 0} where
  -- The bounded first-in first-out list that the queue is to be: what an operation hands out, and
  -- the list after it.
  unfoldable pub fifo : ℕ → Op T → List T → Option T × List T
  fifo cap (enqueues x) xs = (none, if ltb (length xs) cap then xs ++ x ∷ [] else xs)
  fifo cap pops [] = (none, [])
  fifo cap pops (x ∷ xs) = (some x, xs)
  fifo cap acks [] = (none, [])
  fifo cap acks (x ∷ xs) = (none, xs)

  unfoldable pub fifo_run : ℕ → List (Op T) → List T → List (Option T) × List T
  unfolding fifo
  fifo_run cap [] xs = ([], xs)
  fifo_run cap (o ∷ os) xs =
      let (out, xs') = fifo cap o xs in
      let (outs, final) = fifo_run cap os xs' in (out ∷ outs, final)

abbrev pub ops_of : {T : Type 0} → List (Medium × Op T) → List (Op T)
ops_of [] = []
ops_of ((medium, o) ∷ os) = o ∷ ops_of os

module _ {T : Type 0} (c : Codec T) (r : RamQueue T) where
  -- One call on a queue that was created: its result, what it hands out, and the state after it.
  unfoldable pub step :
      Medium → Op T → Option r.Q × Mirror T → Bool × Option T × (Option r.Q × Mirror T)
  step medium (enqueues x) (q, m) =
      let (ok, q', m') = enqueue c r medium x q m in (ok, none, (q', m'))
  step medium pops (q, m) = let (ok, out, q', m') = pop c r medium q m in (ok, out, (q', m'))
  step medium acks (q, m) = let (ok, q', m') = ack c r medium q m in (ok, none, (q', m'))

  -- Calls in order, each with the medium that its snapshot meets.
  unfoldable pub run :
      List (Medium × Op T) → Option r.Q × Mirror T → List (Option T) × (Option r.Q × Mirror T)
  unfolding step
  run [] s = ([], s)
  run ((medium, o) ∷ os) s =
      let (ok, out, s') = step medium o s in let (outs, final) = run os s' in (out ∷ outs, final)

  module _ (laws : QueueLaws r) where
    abbrev pub Holds : Option r.Q → List T → Type 0
    Holds none xs = ⊥
    Holds (some q) xs = laws.contents q ≡ xs

    -- The queue was created and holds what its shadow holds, up to the same capacity.
    pub record InSync (s : Option r.Q × Mirror T) : Type 0 where
      pub held : Holds s.0 s.1.shadow
      pub capacity : s.1.capacity ≡ laws.cap

    out-acks : (cap' : ℕ) (xs : List T) → none ≡ (fifo cap' acks xs).0
    unfolding fifo
    out-acks cap' [] = refl
    out-acks cap' (x ∷ xs) = refl

    enqueue-fifo :
        (medium : Medium) (x : T) (q : r.Q) (m : Mirror T)
        → laws.contents q ≡ m.shadow
        → m.capacity ≡ laws.cap
        → Holds (enqueue c r medium x (some q) m).1 (fifo laws.cap (enqueues x) m.shadow).1
          × ((enqueue c r medium x (some q) m).2.shadow ≡ (fifo laws.cap (enqueues x) m.shadow).1)
          × ((enqueue c r medium x (some q) m).2.capacity ≡ laws.cap)
    unfolding enqueue fifo
    enqueue-fifo medium x q m same cap = elim (Bool-cases (ltb (length m.shadow) laws.cap)) [
      | inl room ↦ ground (
        arith,
        laws.send_room x q,
        laws.send_adds x q,
        shadow-persist_snapshot c medium (record m { shadow = m.shadow ++ x ∷ [] }),
      )
      | inr full ↦ ground (arith, laws.send_full x q)
    ]

    pop-fifo :
        (medium : Medium) (q : r.Q) (m : Mirror T) (xs : List T)
        → m.shadow ≡ xs
        → laws.contents q ≡ xs
        → m.capacity ≡ laws.cap
        → Holds (pop c r medium (some q) m).2 (fifo laws.cap pops xs).1
          × ((pop c r medium (some q) m).1 ≡ (fifo laws.cap pops xs).0)
          × ((pop c r medium (some q) m).3.shadow ≡ (fifo laws.cap pops xs).1)
          × ((pop c r medium (some q) m).3.capacity ≡ laws.cap)
    unfolding pop fifo
    pop-fifo medium q m [] same held full_at = ground (arith, laws.receive_empty q)
    pop-fifo medium q m (x ∷ xs) same held full_at = ground (
      arith,
      laws.receive_first q x xs held,
      laws.receive_rest q x xs held,
      shadow-persist_snapshot c medium (record m { shadow = erase_first m.shadow }),
    )

    ack-fifo :
        (medium : Medium) (q : r.Q) (m : Mirror T) (xs : List T)
        → m.shadow ≡ xs
        → laws.contents q ≡ xs
        → m.capacity ≡ laws.cap
        → Holds (ack c r medium (some q) m).1 (fifo laws.cap acks xs).1
          × ((ack c r medium (some q) m).2.shadow ≡ (fifo laws.cap acks xs).1)
          × ((ack c r medium (some q) m).2.capacity ≡ laws.cap)
    unfolding ack fifo
    ack-fifo medium q m [] same held full_at = ground (arith, laws.receive_empty q)
    ack-fifo medium q m (x ∷ xs) same held full_at = ground (
      arith,
      laws.receive_first q x xs held,
      laws.receive_rest q x xs held,
      shadow-persist_snapshot c medium (record m { shadow = erase_first m.shadow }),
    )

    -- Whether or not the snapshot is written, a call leaves queue and shadow alike, hands out what
    -- the bounded list hands out, and leaves what the bounded list holds.
    pub step-fifo :
        (medium : Medium) (o : Op T) (s : Option r.Q × Mirror T)
        → InSync s
        → InSync (step medium o s).2
          × ((step medium o s).1 ≡ (fifo laws.cap o s.1.shadow).0)
          × ((step medium o s).2.1.shadow ≡ (fifo laws.cap o s.1.shadow).1)
    unfolding step
    step-fifo medium o (none, m) v = absurd v.held
    step-fifo medium (enqueues x) (some q, m) v =
        let (h, e, k) = enqueue-fifo medium x q m v.held v.capacity in
        (record { held = rw e h; capacity = k }, unfold fifo in refl, e)
    step-fifo medium pops (some q, m) v =
        let (h, out, e, k) = pop-fifo medium q m m.shadow refl v.held v.capacity in
        (record { held = rw e h; capacity = k }, out, e)
    step-fifo medium acks (some q, m) v =
        let (h, e, k) = ack-fifo medium q m m.shadow refl v.held v.capacity in
        (record { held = rw e h; capacity = k }, out-acks laws.cap m.shadow, e)

    -- So any sequence of calls, with any failures of the snapshot writes, hands out what the bounded
    -- list hands out, and ends with what it holds.
    pub run-fifo :
        (os : List (Medium × Op T)) (s : Option r.Q × Mirror T)
        → InSync s
        → InSync (run os s).1
          × ((run os s).0 ≡ (fifo_run laws.cap (ops_of os) s.1.shadow).0)
          × ((run os s).1.1.shadow ≡ (fifo_run laws.cap (ops_of os) s.1.shadow).1)
    unfolding run fifo_run
    run-fifo [] s v = (v, refl, refl)
    run-fifo ((medium, o) ∷ os) s v =
        let (w, out, e) = step-fifo medium o s v in
        let (w', outs, e') = run-fifo os (step medium o s).2 w in
        (w', rw (← out, ← e) (ap (λ t. (step medium o s).1 ∷ t) outs), rw (← e, fifo_run) e')
