-- ===== src/Queue/Ram/ListQueue.antt =====
-- A queue that has the laws of `QueueLaws`: the interface can be met.
use hydro_logger.Prelude.{
  ℕ, ◌≤◌, ◌<◌, ◌≡◌, refl, List, [], ◌∷◌, ◌++◌, Bool, true, false, Option, none, some, length, take,
  ltb, if◌then◌else◌, arith, length-take, take_all, length-append, ap,
}
use hydro_logger.Queue.Ram.{RamQueue, QueueLaws}

-- A queue as the list of its items; what stands beyond the capacity does not count.
module _ {T : Type 0} (cap' : ℕ) where
  unfoldable pub list_send : T → List T → Bool × List T
  list_send x q =
      if ltb (length (take cap' q)) cap' then (true, take cap' q ++ x ∷ []) else (false, q)

  unfoldable pub first : List T → Option T
  first [] = none
  first (x ∷ xs) = some x

  unfoldable pub list_receive : List T → List T → Option T × List T
  list_receive q [] = (none, q)
  list_receive q (x ∷ xs) = (some x, xs)

  abbrev pub list_queue : RamQueue T
  list_queue = record {
    Q = List T;
    send = list_send;
    receive = λ q. list_receive q (take cap' q);
    peek = λ q. first (take cap' q);
    waiting = λ q. length (take cap' q);
  }

  -- The capacity bounds what counts of the list.
  pub room_lem : (q : List T) → length (take cap' q) ≤ cap'
  room_lem q = omega (arith, length-take cap' q)

  module _ (x : T) (q : List T) where
    pub send_room_lem : length (take cap' q) < cap' → (list_send x q).0 ≡ true
    unfolding list_send
    send_room_lem h = ground arith

    pub send_adds_lem :
        length (take cap' q) < cap' → take cap' (list_send x q).1 ≡ take cap' q ++ x ∷ []
    unfolding list_send
    send_adds_lem h =
        ground (arith, take_all (take cap' q ++ x ∷ []) cap', length-append (take cap' q) (x ∷ []))

    pub send_full_lem : cap' ≤ length (take cap' q) → list_send x q ≡ (false, q)
    unfolding list_send
    send_full_lem h = ground arith

    pub receive_first_lem :
        (xs : List T) → take cap' q ≡ x ∷ xs → (list_receive q (take cap' q)).0 ≡ some x
    unfolding list_receive
    receive_first_lem xs e = ground arith

    pub receive_rest_lem :
        (xs : List T) → take cap' q ≡ x ∷ xs → take cap' (list_receive q (take cap' q)).1 ≡ xs
    unfolding list_receive
    receive_rest_lem xs e = ground (arith, take_all xs cap', ap length e, length-take cap' q)

    pub peek_first_lem : (xs : List T) → take cap' q ≡ x ∷ xs → first (take cap' q) ≡ some x
    unfolding first
    peek_first_lem xs e = ground arith

  pub receive_empty_lem : (q : List T) → take cap' q ≡ [] → list_receive q (take cap' q) ≡ (none, q)
  unfolding list_receive
  receive_empty_lem q e = ground arith

  pub peek_empty_lem : (q : List T) → take cap' q ≡ [] → first (take cap' q) ≡ none
  unfolding first
  peek_empty_lem q e = ground arith

  abbrev pub list_queue_laws : QueueLaws list_queue
  list_queue_laws = record {
    contents = take cap';
    cap = cap';
    bounded = room_lem;
    send_room = send_room_lem;
    send_adds = send_adds_lem;
    send_full = send_full_lem;
    receive_empty = receive_empty_lem;
    receive_first = λ q x. receive_first_lem x q;
    receive_rest = λ q x. receive_rest_lem x q;
    peek_empty = peek_empty_lem;
    peek_first = λ q x. peek_first_lem x q;
    waiting_counts = λ q. refl;
  }
