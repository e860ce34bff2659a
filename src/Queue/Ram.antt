-- ===== src/Queue/Ram.antt =====
-- The FreeRTOS queue, which the program calls and does not implement: its operations as an
-- interface, and as `QueueLaws` what the FreeRTOS manual says of a queue that one task uses.
pub mod ListQueue
use hydro_logger.Prelude.{
  ℕ, ◌≡◌, ◌≤◌, ◌<◌, List, [], ◌∷◌, ◌++◌, Bool, true, false, Option, none, some, length,
}

-- `xQueueSend(q, &x, 0)`, `xQueueReceive`, `xQueuePeek` and `uxQueueMessagesWaiting`. A receive
-- that waits in vain for its time-out returns `none`.
pub record RamQueue (T : Type 0) : Type 1 where
  pub Q : Type 0
  pub send : T → Q → Bool × Q
  pub receive : Q → Option T × Q
  pub peek : Q → Option T
  pub waiting : Q → ℕ

pub record QueueLaws {T : Type 0} (r : RamQueue T) : Type 0 where
  pub contents : r.Q → List T
  pub cap : ℕ
  pub bounded : (q : r.Q) → length (contents q) ≤ cap
  pub send_room : (x : T) (q : r.Q) → length (contents q) < cap → (r.send x q).0 ≡ true
  pub send_adds :
      (x : T) (q : r.Q) → length (contents q) < cap → contents (r.send x q).1 ≡ contents q ++ x ∷ []
  pub send_full : (x : T) (q : r.Q) → cap ≤ length (contents q) → r.send x q ≡ (false, q)
  pub receive_empty : (q : r.Q) → contents q ≡ [] → r.receive q ≡ (none, q)
  pub receive_first :
      (q : r.Q) (x : T) (xs : List T) → contents q ≡ x ∷ xs → (r.receive q).0 ≡ some x
  pub receive_rest :
      (q : r.Q) (x : T) (xs : List T) → contents q ≡ x ∷ xs → contents (r.receive q).1 ≡ xs
  pub peek_empty : (q : r.Q) → contents q ≡ [] → r.peek q ≡ none
  pub peek_first : (q : r.Q) (x : T) (xs : List T) → contents q ≡ x ∷ xs → r.peek q ≡ some x
  pub waiting_counts : (q : r.Q) → r.waiting q ≡ length (contents q)
