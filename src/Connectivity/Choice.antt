-- ===== src/Connectivity/Choice.antt =====
-- Which module the next warm-up prefers.
use hydro_logger.Prelude.{
  ◌≡◌, refl, ap, ◌∙◌, ◌⊎◌, Bool, true, false, Option, none, some, if◌then◌else◌, ◌++◌,
}
use hydro_logger.Prelude.Bytes.{codes}
use hydro_logger.Models.{DateTime, DeviceMeta, LogMsg}
use hydro_logger.LogBuffer.{LogBuffer, appendf}
use hydro_logger.Nvs.{
  CommType, sim4g, dcom, to_byte, of_byte, last_comm, Nvs, Keeps, get_u8, get_last_success_comm,
  set_last_success_comm,
}
use hydro_logger.Connectivity.{
  CommModule, is_sim4g, comm_name, newline, try_module, select_preferred, other, Link,
  FailoverReason, FailoverRequest, other_comm, enqueue_failover_request, failover_turn,
}

module _ (nvs : Nvs) (keeps : Keeps nvs) where
  -- What is stored is what is read.
  get-set_last_success_comm :
      (t def : CommType) (f : nvs.Flash)
      → get_last_success_comm nvs def (set_last_success_comm nvs t f) ≡ of_byte (to_byte t)
  unfolding get_last_success_comm set_last_success_comm get_u8
  get-set_last_success_comm t def f =
      ap (λ r. of_byte (elim r [ none ↦ to_byte def | some v ↦ v ]))
        (keeps.read-write last_comm (to_byte t) f)

  module _ {S : Type 0} (sim dcom_module : CommModule S) (sim_type : sim.type ≡ sim4g)
      (dcom_type : dcom_module.type ≡ dcom) where
    select-stored :
        (t : CommType) (f : nvs.Flash)
        → select_preferred nvs sim dcom_module (set_last_success_comm nvs t f)
          ≡ (if is_sim4g (of_byte (to_byte t)) then sim else dcom_module)
    unfolding select_preferred
    select-stored t f =
        ap (λ c. if is_sim4g c then sim else dcom_module) (get-set_last_success_comm t sim4g f)

    -- What trying the preferred module gives, and then the other one.
    unfoldable first_try : Link nvs sim dcom_module → Bool × LogBuffer × S
    unfolding select_preferred
    first_try l =
        let m = select_preferred nvs sim dcom_module l.flash in
        try_module m (appendf (codes "[Conn] preferred=" ++ (comm_name m.type ++ newline)) l.log)
          l.hardware

    unfoldable second_try : Link nvs sim dcom_module → Bool × LogBuffer × S
    unfolding first_try select_preferred other
    second_try l =
        let (ok, log, s) = first_try l in
        try_module (other nvs sim dcom_module (select_preferred nvs sim dcom_module l.flash))
          (appendf (codes "[Conn] preferred FAIL -> switch" ++ newline) log) s

    -- The module that warm-up may take up: the preferred one where it answered, the other one where
    -- only that answered; with the hardware as the try left it.
    unfoldable pub Answers : Link nvs sim dcom_module → CommModule S → S → Type 0
    unfolding first_try second_try select_preferred other
    Answers before m s =
        (((first_try before).0 ≡ true)
          × (m ≡ select_preferred nvs sim dcom_module before.flash)
          × (s ≡ (first_try before).2))
        ⊎ (((first_try before).0 ≡ false)
            × ((second_try before).0 ≡ true)
            × (m ≡ other nvs sim dcom_module (select_preferred nvs sim dcom_module before.flash))
            × (s ≡ (second_try before).2))

    -- The module that warm-up takes up, and the one that it would prefer next.
    unfoldable pub Sticks : Link nvs sim dcom_module → Bool × Link nvs sim dcom_module → Type 0
    unfolding Answers first_try second_try
    Sticks before (ok, l) =
        ((ok ≡ true)
          × ((m : CommModule S) × (l.active ≡ some m)
              × Answers before m l.hardware
              × (select_preferred nvs sim dcom_module l.flash ≡ m)))
        ⊎ ((ok ≡ false)
            × ((first_try before).0 ≡ false)
            × ((second_try before).0 ≡ false)
            × (l.active ≡ none)
            × (l.flash ≡ before.flash))

    -- A failover request for the module of `from` leaves no request behind, and the next warm-up
    -- prefers the other module.
    pub failover-prefers :
        {B : Type 0} (publish : LogMsg → B → B) (now : DateTime) (meta : DeviceMeta) (bus : B)
        (from : CommType) (reason : FailoverReason) (place : Option FailoverRequest) (f : nvs.Flash)
        → let (ok, q) = enqueue_failover_request from reason (some place) in
          let (q', f', bus') = failover_turn nvs publish now meta q f bus in
          (ok ≡ true)
          × (q' ≡ some none)
          × (select_preferred nvs sim dcom_module f' ≡ (if is_sim4g from then dcom_module else sim))
    unfolding enqueue_failover_request failover_turn
    failover-prefers publish now meta bus from reason place f =
        (refl, refl, select-stored (other_comm from) f ∙ prefers (is_sim4g from))
      where
        prefers :
            (b : Bool)
            → (if is_sim4g (of_byte (to_byte (if b then dcom else sim4g)))
                then sim
                else dcom_module)
              ≡ (if b then dcom_module else sim)
        prefers true = refl
        prefers false = refl
