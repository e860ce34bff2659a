-- ===== src/SyncTask/Tests.antt =====
-- Draining at a concrete bus and link.
use hydro_logger.Prelude.{
  ◌≡◌, refl, pos, Bool, true, false, none, some, List, [], ◌∷◌, ◌++◌, ℕ, if◌then◌else◌, arith,
}
use hydro_logger.Models.{MeasurementMsg, default_time, device_meta}
use hydro_logger.LogBuffer.{new_log}
use hydro_logger.Nvs.{sim4g}
use hydro_logger.SyncTask.{Link, Progress, drain}
use hydro_logger.SyncTask.Drain.{first, rest_of, BusLaws, Drained, drain-Drained}

abbrev answer : List Bool → Bool × List Bool
answer [] = (false, [])
answer (ok ∷ w) = (ok, w)

-- The hardware is the answers that the server will give, and the texts that it answered true to.
abbrev World : Type 0
World = List Bool × List (List ℕ)

abbrev answered : Bool → List ℕ → List (List ℕ) → List (List ℕ)
answered ok text texts = if ok then texts ++ text ∷ [] else texts

abbrev link : Link World (List MeasurementMsg)
link = record {
  peek = first;
  ack = rest_of;
  within_window = λ w. true;
  read_milli_volts = λ w. (pos 12000, w);
  send = λ json log w. ((answer w.0).0, log, ((answer w.0).1, answered (answer w.0).0 json w.1));
  active = some sim4g;
  serial = [];
  pressure = false;
}

abbrev link_laws : BusLaws link
link_laws = record {
  items = λ b. b;
  peek_items = λ b. refl;
  ack_items = λ b. refl;
  sent = λ w. w.1;
  read_sent = λ w. refl;
  send_done = λ text log w h. rw h refl;
  send_failed = λ text log w h. rw h refl;
}

abbrev message : Bool → MeasurementMsg
message valid = record {
  time = default_time;
  dist_mm = pos 1 ∷ pos 2 ∷ pos 3 ∷ [];
  valid = valid;
  meta = device_meta [];
}

-- An invalid message is skipped, a second try delivers the next, and the last one fails three times.
abbrev before : Progress World (List MeasurementMsg)
before = record {
  bus = message false ∷ message true ∷ message true ∷ [];
  hardware = (false ∷ true ∷ false ∷ [], []);
  log = new_log;
  bits = record {
    conn_ok = true;
    conn_fail = false;
    sync_running = true;
    last_sync_fail = false;
    last_measure_fail = false;
    ota_running = false;
    measure_running = false;
  };
  failover = some none;
}

drain-Drained_example :
    (q : Progress World (List MeasurementMsg)) × (drain link 31 before ≡ some q)
    × Drained link link_laws before q
drain-Drained_example = drain-Drained link link_laws 31 before (omega arith)
