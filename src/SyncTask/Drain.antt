-- ===== src/SyncTask/Drain.antt =====
-- What draining the measurements does to the queue.
use hydro_logger.Prelude.{
  ℕ, zero, suc, ℤ, Bool, ◌+◌, ◌≡◌, ◌<◌, refl, ap, sym, ◌∙◌, ◌⊎◌, inl, inr, true, false, Option,
  none, some, List, [], ◌∷◌, ◌++◌, length, append-nil, append_assoc, if◌then◌else◌, Bool-cases,
  Option-cases, arith,
}
use hydro_logger.Models.{MeasurementMsg}
use hydro_logger.Prelude.Bytes.{codes}
use hydro_logger.LogBuffer.{LogBuffer}
use hydro_logger.SyncTask.{
  sync_send_retries, send_with_retries, Link, Progress, skips, skip, packed, transmit, keep,
  delivered, drain,
}

abbrev pub first : {A : Type 0} → List A → Option A
first [] = none
first (x ∷ xs) = some x

abbrev pub rest_of : {A : Type 0} → List A → List A
rest_of [] = []
rest_of (x ∷ xs) = xs

-- The bus is a queue: a peek shows the first message, an acknowledgement removes it. The hardware
-- tells which texts were sent with success: the send function adds the text that it answers true to,
-- and nothing where it answers false.
pub record BusLaws {W B : Type 0} (link : Link W B) : Type 0 where
  pub items : B → List MeasurementMsg
  pub peek_items : (b : B) → link.peek b ≡ first (items b)
  pub ack_items : (b : B) → items (link.ack b) ≡ rest_of (items b)
  pub sent : W → List (List ℕ)
  pub read_sent : (w : W) → sent (link.read_milli_volts w).1 ≡ sent w
  pub send_done :
      (text : List ℕ) (log : LogBuffer) (w : W)
      → (link.send text log w).0 ≡ true
      → sent (link.send text log w).2 ≡ sent w ++ text ∷ []
  pub send_failed :
      (text : List ℕ) (log : LogBuffer) (w : W)
      → (link.send text log w).0 ≡ false
      → sent (link.send text log w).2 ≡ sent w

module _ {W B : Type 0} (link : Link W B) where
  -- The texts are those of the messages of the list that are not skipped, one for one, each with some
  -- voltage.
  unfoldable pub Texts : List MeasurementMsg → List (List ℕ) → Type 0
  Texts [] texts = texts ≡ []
  Texts (mm ∷ mms) texts =
      ((skips link mm ≡ true) × Texts mms texts)
      ⊎ ((skips link mm ≡ false)
          × ((voltage : ℤ) × (rest : List (List ℕ)) × (texts ≡ packed link voltage mm ∷ rest)
              × Texts mms rest))

module _ {W B : Type 0} (link : Link W B) (laws : BusLaws link) where
  -- The last message that was sent failed: it is not skipped, it is still the first of the queue, and
  -- the end is what `keep` leaves after that sending.
  pub record Failed (q : Progress W B) : Type 0 where
    pub message : MeasurementMsg
    pub before : Progress W B
    pub sends : skips link message ≡ false
    pub answer : (transmit link message before).0 ≡ false
    pub first_item : first (laws.items q.bus) ≡ some message
    pub end_ : q ≡ keep link (transmit link message before).1

  -- From `p` to `q` the queue lost a front part, the texts that were sent with success are those of
  -- the messages of it that are not skipped, in their order, and the failure bit is as it was, or a
  -- sending failed.
  pub record Drained (p q : Progress W B) : Type 0 where
    pub removed : List MeasurementMsg
    pub texts : List (List ℕ)
    pub queue : laws.items p.bus ≡ removed ++ laws.items q.bus
    pub sent : laws.sent q.hardware ≡ laws.sent p.hardware ++ texts
    pub those : Texts link removed texts
    pub failure : (q.bits ≡ p.bits) ⊎ ((q.bits.last_sync_fail ≡ true) × Failed q)

  same-Drained : (p : Progress W B) → Drained p p
  unfolding Texts
  same-Drained p = record {
    removed = [];
    texts = [];
    queue = refl;
    sent = sym (append-nil (laws.sent p.hardware));
    those = refl;
    failure = inl refl;
  }

  -- A text is added once where the answer is true, else not at all.
  abbrev Adds : List ℕ → W → Bool → W → Type 0
  Adds text w ok w' =
      (ok ≡ true → laws.sent w' ≡ laws.sent w ++ text ∷ [])
      × (ok ≡ false → laws.sent w' ≡ laws.sent w)

  attempt-Adds :
      (text : List ℕ) (w w1 : W) (ok : Bool) (log1 : LogBuffer) (rest : Bool × LogBuffer × W)
      → Adds text w ok w1
      → Adds text w1 rest.0 rest.2
      → let r = if ok then (true, log1, w1) else rest in Adds text w r.0 r.2
  attempt-Adds text w w1 true log1 rest one later = (λ _. one.0 refl, λ h. cc h)
  attempt-Adds text w w1 false log1 rest one later =
      (λ h. later.0 h ∙ ap (λ t. t ++ text ∷ []) (one.1 refl), λ h. later.1 h ∙ one.1 refl)

  send_with_retries-Adds :
      (text tag : List ℕ) (n attempt : ℕ) (log : LogBuffer) (w : W)
      → let r = send_with_retries (link.send text) tag n attempt log w in Adds text w r.0 r.2
  unfolding send_with_retries
  send_with_retries-Adds text tag zero attempt log w = (λ h. cc h, λ h. refl)
  send_with_retries-Adds text tag (suc n) attempt log w =
      attempt-Adds text w _ _ _ _ (laws.send_done text _ w, laws.send_failed text _ w)
        (send_with_retries-Adds text tag n (attempt + 1) _ _)

  transmit-sent :
      (mm : MeasurementMsg) (p : Progress W B)
      → let (ok, q) = transmit link mm p in
        (ok ≡ true
          → (voltage : ℤ) × (laws.sent q.hardware
              ≡ laws.sent p.hardware ++ packed link voltage mm ∷ []))
        × (ok ≡ false → laws.sent q.hardware ≡ laws.sent p.hardware)
  unfolding transmit
  transmit-sent mm p =
      let (voltage, w1) = link.read_milli_volts p.hardware in
      let text = packed link voltage mm in
      let (done, failed) =
        send_with_retries-Adds text (codes "water_level") sync_send_retries 1 _ w1 in
      let same = laws.read_sent p.hardware in
      (λ ok. (voltage, done ok ∙ ap (λ t. t ++ text ∷ []) same), λ no. failed no ∙ same)

  -- The queue with a first message.
  split_first :
      (items : List MeasurementMsg) (mm : MeasurementMsg)
      → first items ≡ some mm
      → items ≡ mm ∷ rest_of items
  split_first [] mm h = ground (arith, h)
  split_first (x ∷ xs) mm h = ground (arith, h)

  skip-Drained :
      (mm : MeasurementMsg) (p q : Progress W B)
      → link.peek p.bus ≡ some mm
      → skips link mm ≡ true
      → Drained (skip link mm p) q
      → Drained p q
  unfolding skip Texts
  skip-Drained mm p q peek skipped d = record {
    removed = mm ∷ d.removed;
    texts = d.texts;
    queue =
        split_first (laws.items p.bus) mm (sym (laws.peek_items p.bus) ∙ peek)
        ∙ ap (λ t. mm ∷ t) (sym (laws.ack_items p.bus) ∙ d.queue);
    sent = d.sent;
    those = inl (skipped, d.those);
    failure = d.failure;
  }

  delivered-Drained :
      (mm : MeasurementMsg) (p p1 q : Progress W B) (voltage : ℤ)
      → link.peek p.bus ≡ some mm
      → skips link mm ≡ false
      → p1.bus ≡ p.bus
      → p1.bits ≡ p.bits
      → laws.sent p1.hardware ≡ laws.sent p.hardware ++ packed link voltage mm ∷ []
      → Drained (delivered link p1) q
      → Drained p q
  unfolding delivered Texts
  delivered-Drained mm p p1 q voltage peek sends same_bus same_bits added d = record {
    removed = mm ∷ d.removed;
    texts = packed link voltage mm ∷ d.texts;
    queue =
        split_first (laws.items p.bus) mm (sym (laws.peek_items p.bus) ∙ peek)
        ∙ ap (λ t. mm ∷ t)
            (sym (laws.ack_items p.bus)
              ∙ ap (λ b. laws.items (link.ack b)) (sym same_bus)
              ∙ d.queue);
    sent =
        d.sent
        ∙ ap (λ t. t ++ d.texts) added
        ∙ append_assoc (laws.sent p.hardware) (packed link voltage mm ∷ []) d.texts;
    those = inr (sends, (voltage, d.texts, refl, d.those));
    failure = elim d.failure [ inl e ↦ inl (e ∙ same_bits) | inr kept ↦ inr kept ];
  }

  -- One that could not be sent stays where it is.
  keep-Drained :
      (mm : MeasurementMsg) (p : Progress W B)
      → link.peek p.bus ≡ some mm
      → skips link mm ≡ false
      → (transmit link mm p).0 ≡ false
      → Drained p (keep link (transmit link mm p).1)
  unfolding keep Texts transmit
  keep-Drained mm p peek sends failed = record {
    removed = [];
    texts = [];
    queue = refl;
    sent = (transmit-sent mm p).1 failed ∙ sym (append-nil (laws.sent p.hardware));
    those = refl;
    failure = inr (
      refl,
      record {
        message = mm;
        before = p;
        sends = sends;
        answer = failed;
        first_item = sym (laws.peek_items p.bus) ∙ peek;
        end_ = refl;
      },
    );
  }

  -- With more fuel than there are messages the loop ends, whatever the link and the clock answer. The
  -- measurements that left the queue are a front part of it; the texts that the send function answered
  -- true to are those of the ones that are not skipped, once each and in that order. The failure bit is
  -- as it was, or it is set, a sending failed, and its message is still the first of the queue.
  pub drain-Drained :
      (fuel : ℕ) (p : Progress W B)
      → length (laws.items p.bus) < fuel
      → (q : Progress W B) × (drain link fuel p ≡ some q) × Drained p q
  unfolding drain transmit skip delivered
  drain-Drained zero p h = absurd (omega arith)
  drain-Drained (suc fuel) p h = elim (Option-cases (link.peek p.bus)) [
    | inl empty ↦ (p, ground (arith, empty), same-Drained p)
    | inr (mm, peek) ↦ elim (Bool-cases (link.within_window p.hardware)) [
      | inr over ↦ (p, ground (arith, peek, over), same-Drained p)
      | inl within ↦
          let split = split_first (laws.items p.bus) mm (sym (laws.peek_items p.bus) ∙ peek) in
          let shorter : length (laws.items (link.ack p.bus)) < fuel =
            (ground (arith, split, laws.ack_items p.bus, h)) in
          elim (Bool-cases (skips link mm)) [
            | inl s ↦
                let (q, e, d) = drain-Drained fuel (skip link mm p) shorter in
                (q, (ground (arith, peek, within, s, e)), skip-Drained mm p q peek s d)
            | inr s ↦
                let t = transmit link mm p in
                elim (Bool-cases t.0) [
                  | inl ok ↦
                      let (voltage, added) = (transmit-sent mm p).0 ok in
                      let (q, e, d) = drain-Drained fuel (delivered link t.1) shorter in
                      (
                        q,
                        (ground (arith, peek, within, s, ok, e)),
                        delivered-Drained mm p t.1 q voltage peek s refl refl added d,
                      )
                  | inr failed ↦ (
                    keep link t.1,
                    (ground (arith, peek, within, s, failed)),
                    keep-Drained mm p peek s failed,
                  )
                ]
          ]
    ]
  ]
