-- ===== src/Sim4g/Simulated.antt =====
-- A board that meets the laws: a clock that counts milliseconds, a modem that answers each command
-- with the next text of a script, byte by byte, and a flash that takes all that is written.
use hydro_logger.Prelude.{
  ℕ, suc, ◌+◌, ◌≡◌, ◌≤◌, ◌<◌, refl, Bool, true, false, Option, none, some, List, [], ◌∷◌, ◌++◌,
  length, zero, arith, get_or, ◌||◌, ◌==◌, if◌then◌else◌,
}
use hydro_logger.Prelude.Bytes.{codes}
use hydro_logger.Nvs.{Nvs, viettel}
use hydro_logger.LogBuffer.{new_log}
use hydro_logger.Sim4g.{Board, Modem}
use hydro_logger.Sim4g.Rules.{Laws}

pub record Sim : Type 0 where
  pub clock : ℕ
  pub input : List ℕ
  pub script : List (List ℕ)
  pub image : List ℕ
  pub boot : Option (List ℕ)
  pub written : List (List ℕ)
  pub powered : Bool

abbrev pub sim_read : ℕ → ℕ → List ℕ → Sim → List ℕ × Sim
sim_read zero ms input d = ([], record d { clock = d.clock + suc ms })
sim_read (suc n) ms [] d = ([], record d { clock = d.clock + suc ms })
sim_read (suc n) ms (c ∷ rest) d = (c ∷ [], record d { clock = d.clock + 1; input = rest })

-- The carriage return behind a command starts the next answer, and so does a JSON text.
abbrev pub next_answer : List ℕ → List ℕ → List (List ℕ) → List ℕ × List (List ℕ)
next_answer text input [] = (input, [])
next_answer text input (answer ∷ script) =
    if get_or text 0 0 == 13 || get_or text 0 0 == 123
    then (answer, script)
    else (input, answer ∷ script)

-- A byte of preferences.
abbrev pub sim_nvs : Nvs
sim_nvs = record { Flash = ℕ; read_u8 = λ k f. some f; write_u8 = λ k v f. v }

abbrev pub simulated : Board
simulated = record {
  Dev = Sim;
  nvs = sim_nvs;
  init_uart = λ d. (Bool.true, d);
  flush = λ d. d;
  write = λ text d. (
    some (length text),
    record d {
      input = (next_answer text d.input d.script).0;
      script = (next_answer text d.input d.script).1;
      written = d.written ++ text ∷ [];
    },
  );
  read = λ n ms d. sim_read n ms d.input d;
  now = λ d. d.clock;
  delay = λ ms d. record d { clock = d.clock + suc ms };
  set_power = λ on d. record d { powered = on };
  ota_partition = λ d. some (codes "ota_1", 4096);
  ota_begin = λ n d. (none, record d { image = [] });
  ota_write = λ bytes d. (none, record d { image = d.image ++ bytes });
  ota_end = λ d. (none, d);
  ota_abort = λ d. d;
  set_boot_partition = λ d. (none, record d { boot = some d.image });
  calls_per_ms = 1;
}

pub read_later : (n ms : ℕ) (input : List ℕ) (d : Sim) → d.clock < (sim_read n ms input d).1.clock
read_later zero ms input d = omega arith
read_later (suc n) ms [] d = omega arith
read_later (suc n) ms (c ∷ rest) d = omega arith

pub read_within : (n ms : ℕ) (input : List ℕ) (d : Sim) → length (sim_read n ms input d).0 ≤ n
read_within zero ms input d = omega arith
read_within (suc n) ms [] d = omega arith
read_within (suc n) ms (c ∷ rest) d = omega arith

pub read_apart :
    (n ms : ℕ) (input : List ℕ) (d : Sim)
    → ((sim_read n ms input d).1.image ≡ d.image) × ((sim_read n ms input d).1.boot ≡ d.boot)
read_apart zero ms input d = (refl, refl)
read_apart (suc n) ms [] d = (refl, refl)
read_apart (suc n) ms (c ∷ rest) d = (refl, refl)

pub read_quiet :
    (n ms : ℕ) (input : List ℕ) (d : Sim)
    → ((sim_read n ms input d).1.written ≡ d.written)
      × ((sim_read n ms input d).1.powered ≡ d.powered)
read_quiet zero ms input d = (refl, refl)
read_quiet (suc n) ms [] d = (refl, refl)
read_quiet (suc n) ms (c ∷ rest) d = (refl, refl)

unfoldable pub simulated_laws : Laws simulated
simulated_laws = record {
  steps = λ d. d.clock;
  lower = λ d. omega arith;
  upper = λ d. omega arith;
  image = λ d. d.image;
  boot = λ d. d.boot;
  written = λ d. d.written;
  powered = λ d. d.powered;
  write_written = λ text d. refl;
  write_powered = λ text d. refl;
  power_powered = λ on d. refl;
  power_written = λ on d. refl;
  read_pins = λ n ms d. read_quiet n ms d.input d;
  delay_pins = λ ms d. (refl, refl);
  flush_pins = λ d. (refl, refl);
  init_pins = λ d. (refl, refl);
  read_steps = λ n ms d h. read_later n ms d.input d;
  read_bounded = λ n ms d. read_within n ms d.input d;
  delay_steps = λ ms d h. omega arith;
  flush_steps = λ d. omega arith;
  write_steps = λ text d. omega arith;
  power_steps = λ on d. omega arith;
  init_steps = λ d. omega arith;
  ota_write_steps = λ bytes d. omega arith;
  read_same = λ n ms d. read_apart n ms d.input d;
  delay_same = λ ms d. (refl, refl);
  flush_same = λ d. (refl, refl);
  write_same = λ text d. (refl, refl);
  power_same = λ on d. (refl, refl);
  init_same = λ d. (refl, refl);
  ota_begin_image = λ n d h. refl;
  ota_begin_boot = λ n d. refl;
  ota_write_image = λ bytes d h. refl;
  ota_write_boot = λ bytes d. refl;
  ota_end_image = λ d h. refl;
  ota_end_boot = λ d. refl;
  ota_abort_boot = λ d. refl;
  boot_image = λ d. refl;
  boot_chosen = λ d h. refl;
  boot_refused = λ d name h. cc h;
}

abbrev pub modem : Bool → List (List ℕ) → Modem simulated
modem active script = record {
  active = active;
  http_inited = false;
  active_apn = viettel;
  uart_inited = true;
  log = new_log;
  flash = 1;
  dev = record {
    clock = 0;
    input = [];
    script = script;
    image = [];
    boot = none;
    written = [];
    powered = active;
  };
}

-- The answers to a ranged GET of three bytes, and to the reading of the body.
abbrev pub window : List (List ℕ)
window =
    codes "\r\nOK\r\n"
    ∷ codes "\r\nOK\r\n"
    ∷ codes "\r\nOK\r\n"
    ∷ codes "\r\nOK\r\n\r\n+HTTPACTION: 0,206,3\r\n"
    ∷ codes "\r\nOK\r\n+HTTPREAD: 3\r\nabc\r\n+HTTPREAD: 0\r\n\r\nOK\r\n"
    ∷ []

-- What is seen of an answer: the result and the state of the flash.
abbrev pub seen : Option (Bool × Modem simulated) → Option (Bool × (List ℕ × Option (List ℕ)))
seen none = none
seen (some (ok, s)) = some (ok, (s.dev.image, s.dev.boot))

-- The answers to the questions for the data context and for the size, and to the end of the session.
abbrev pub probe : List (List ℕ)
probe =
    codes "+CGACT: 1,1\r\nOK\r\n"
    ∷ codes "+CGPADDR: 1,10.0.0.1\r\nOK\r\n"
    ∷ codes "OK\r\n"
    ∷ codes "OK\r\n"
    ∷ codes "OK\r\n+HTTPACTION: 0,200,3\r\n"
    ∷ codes "OK\r\n"
    ∷ window
