-- ===== src/Connectivity.antt =====
-- The choice of the link: main/services/connectivity/connectivity_manager.cpp and
-- main/app/failover_task.cpp. The two modules are arguments.
pub mod Choice
mod Tests
use hydro_logger.Prelude.{
  ℕ, Bool, true, false, Option, none, some, List, [], ◌∷◌, ◌++◌, if◌then◌else◌, length, pos, take,
  replicate, ◌-◌,
}
use hydro_logger.Prelude.Bytes.{codes}
use hydro_logger.Models.{DateTime, default_time, DeviceMeta, LogMsg, in_array, session_log_size}
use hydro_logger.LogBuffer.{LogBuffer, appendf}
use hydro_logger.Nvs.{
  CommType, sim4g, dcom, unknown, Nvs, get_last_success_comm, set_last_success_comm,
}

-- `ICommModule`, over the state of the hardware.
pub record CommModule (S : Type 0) : Type 0 where
  pub power_on : LogBuffer → S → Bool × LogBuffer × S
  pub check_internet : ℕ → LogBuffer → S → Bool × LogBuffer × S
  pub power_off : LogBuffer → S → LogBuffer × S
  pub type : CommType

-- `cfg::kConnCheckTimeoutMs`
abbrev pub conn_check_timeout_ms : ℕ
conn_check_timeout_ms = 60000

abbrev pub newline : List ℕ
newline = 10 ∷ []

abbrev pub is_sim4g : CommType → Bool
is_sim4g sim4g = true
is_sim4g t = false

-- The names of the texts.
abbrev pub comm_name : CommType → List ℕ
comm_name t = if is_sim4g t then codes "SIM4G" else codes "DCOM"

unfoldable pub try_module : {S : Type 0} → CommModule S → LogBuffer → S → Bool × LogBuffer × S
try_module m log s =
    let (on, log1, s1) = m.power_on log s in
    let (online, log2, s2) = m.check_internet conn_check_timeout_ms log1 s1 in
    let (log3, s3) = m.power_off log2 s2 in
    if on then (if online then (true, log2, s2) else (false, log3, s3)) else (false, log1, s1)

module _ (nvs : Nvs) {S : Type 0} (sim dcom_module : CommModule S) where
  unfoldable pub select_preferred : nvs.Flash → CommModule S
  unfolding get_last_success_comm
  select_preferred f = if is_sim4g (get_last_success_comm nvs sim4g f) then sim else dcom_module

  unfoldable pub other : CommModule S → CommModule S
  other m = if is_sim4g m.type then dcom_module else sim

  -- The state that `warmup` changes: `active_`, the flash, the log and the hardware.
  pub record Link : Type 0 where
    pub active : Option (CommModule S)
    pub flash : nvs.Flash
    pub log : LogBuffer
    pub hardware : S

  -- What `warmup` does with the module that answered.
  unfoldable pub activate : CommModule S → nvs.Flash → LogBuffer → S → Link
  activate m flash log s = record {
    active = some m;
    flash = set_last_success_comm nvs m.type flash;
    log =
        appendf (codes "[Conn] active=" ++ (comm_name m.type ++ (codes " (saved)" ++ newline))) log;
    hardware = s;
  }

  unfoldable pub warmup : Link → Bool × Link
  unfolding select_preferred other try_module activate
  warmup l =
      let first = select_preferred l.flash in
      let second = other first in
      let log1 = appendf (codes "[Conn] preferred=" ++ (comm_name first.type ++ newline)) l.log in
      let (ok, log2, s2) = try_module first log1 l.hardware in
      let log3 = appendf (codes "[Conn] preferred FAIL -> switch" ++ newline) log2 in
      let (ok2, log4, s4) = try_module second log3 s2 in
      if ok
      then (true, activate first l.flash log2 s2)
      else if ok2
      then (true, activate second l.flash log4 s4)
      else (
        false,
        record {
          active = none;
          flash = l.flash;
          log = appendf (codes "[Conn] both modules FAIL" ++ newline) log4;
          hardware = s4;
        },
      )

-- `FailoverReason` and `FailoverRequest`
pub data FailoverReason : Type 0 where
  sync_warmup_fail sync_send_fail : FailoverReason

pub record FailoverRequest : Type 0 where
  pub from : CommType
  pub to : CommType
  pub reason : FailoverReason

abbrev pub reason_name : FailoverReason → List ℕ
reason_name sync_warmup_fail = codes "warmup failure"
reason_name sync_send_fail = codes "sync send failure"

unfoldable pub other_comm : CommType → CommType
other_comm t = if is_sim4g t then dcom else sim4g

-- `failover_q`: no queue, or one place that `xQueueOverwrite` fills.
abbrev pub FailoverQueue : Type 0
FailoverQueue = Option (Option FailoverRequest)

unfoldable pub enqueue_failover_request :
    CommType → FailoverReason → FailoverQueue → Bool × FailoverQueue
unfolding other_comm
enqueue_failover_request from reason none = (false, none)
enqueue_failover_request from reason (some place) =
    (true, some (some (record { from = from; to = other_comm from; reason = reason })))

-- `publish_swap_log`: the message that it publishes, at the time `now`.
unfoldable pub swap_log : FailoverRequest → DateTime → DeviceMeta → LogMsg
swap_log req now meta = record {
  time = now;
  text = in_array session_log_size text;
  len = length text;
  meta = meta;
}
  where
    text : List ℕ
    text =
        codes "[Failover] swap from "
        ++ (comm_name req.from
            ++ (codes " to " ++ (comm_name req.to ++ (codes " after " ++ reason_name req.reason))))

-- One turn of the loop of `failover_task_entry`: nothing without a request, else the preference is
-- stored and the message is published.
unfoldable pub failover_turn :
    (nvs : Nvs) {B : Type 0}
    → (LogMsg → B → B)
    → DateTime
    → DeviceMeta
    → FailoverQueue
    → nvs.Flash
    → B
    → FailoverQueue × nvs.Flash × B
unfolding swap_log
failover_turn nvs publish now meta none flash bus = (none, flash, bus)
failover_turn nvs publish now meta (some none) flash bus = (some none, flash, bus)
failover_turn nvs publish now meta (some (some req)) flash bus =
    (some none, set_last_success_comm nvs req.to flash, publish (swap_log req now meta) bus)
