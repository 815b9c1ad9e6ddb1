-- ===== src/Tests/World.antt =====
-- A world for the tests: a clock, and what one component was sent and gave. It answers each read
-- with the line "ok" and has no file but 1.
use v9_worker.Base.{
  some, ℕ, ◌+◌, ◌-◌, ◌/◌, ap, sym, refl, true, ◌&&◌, none, [], ◌∷◌, ◌++◌, arith, Text, codes,
  length, ltb, leb, ◌==◌, take_all,
}
use v9_worker.Float.{F64}
use v9_worker.Model.{
  ComponentPath, ComponentId, ActivateRequest, DeactivateRequest, ExecutionMethod,
}
use v9_worker.Platform.{Platform, Codec}
use v9_worker.Component.{Shared}
use v9_worker.Host.{Host}
use v9_worker.Exec.{Attempt, done, failed}
use v9_worker.Errors.{DebugFormat}
use v9_worker.Http.{Http, HttpLaws}
use v9_worker.Env.{Env, PipeLaws, Traffic, ReadResult, bytes}

pub record World : Type 0 where
  pub time : ℕ
  pub sent : Text
  pub received : Text

abbrev pub reply : Text
reply = 111 ∷ 107 ∷ 10 ∷ []

abbrev pub tick : World → World
tick w = record w { time = w.time + 1 }

abbrev pub world_env : Env World
world_env = record {
  now = λ w. (w.time, w);
  sleep = λ d w. record w { time = w.time + d };
  temp_dir = λ w. (done (codes "/tmp/v9"), w);
  temp_file = λ w. (done 1, w);
  sync_all = λ _ w. (done tt, w);
  read_to_string = λ _ w. (done (codes "log"), w);
  try_clone = λ fd w. (done fd, w);
  remove_file = λ _ w. (done tt, w);
  canonicalize = λ path w. (done path, w);
  is_unicode = λ _. true;
  mkfifo = λ _ w. (done tt, w);
  open_fifo = λ _ _ w. (done 1, w);
  poll = λ _ _ _ w. (done tt, w);
  write = λ _ v w. (done (length v), record w { time = w.time + 1; sent = w.sent ++ v });
  read = λ _ _ w. (bytes reply, record w { time = w.time + 1; received = w.received ++ reply });
  spawn = λ _ _ w. (done 2, w);
  exit_status = λ _ w. (none, w);
  terminate = λ _ w. (done tt, tick w);
  detach = λ _ w. w;
  capture = λ _ w. (done (record { exit_status = 0; stdout = codes "c1"; stderr = [] }), w);
  success = λ status. status == 0;
  random_u64 = λ w. (7, w);
  try_lock = λ w. (true, w);
}

abbrev pub moved : World → Traffic
moved w = record { sent = λ _. w.sent; received = λ _. w.received }

shown : ReadResult → Text
shown (bytes v) = v
shown _ = []

value : Attempt ℕ → ℕ
value (done n) = n
value (failed message) = 0

unfoldable pub world_laws : PipeLaws world_env
unfolding shown value
world_laws = record {
  clock = λ w. w.time;
  traffic = moved;
  now_law = λ w. (omega arith, omega arith, refl);
  sleep_law = λ d w. (omega arith, refl);
  open_law = λ d p w. (omega arith, refl);
  poll_law = λ fd d ms w. (omega arith, refl);
  write_time = λ fd v w. omega arith;
  write_some = λ fd v w n h some_bytes. let e = ap value h in omega (arith, e, some_bytes);
  write_law = λ fd v w n h.
      let e = ap value h in
      (omega (arith, e), ap (λ t. w.sent ++ t) (sym (take_all n v (omega (arith, e)))), refl);
  read_time = λ fd n w. omega arith;
  read_law = λ fd n w v h. (ap (λ r. w.received ++ shown r) h, refl);
  again_law = λ fd n w h. cc;
}

abbrev pub world_debug : DebugFormat
world_debug = record {
  exit_status = λ _. codes "exit";
  bytes = λ v. v;
  os_string = λ v. v;
  utf8_error = λ _. codes "utf8";
  int_error = codes "int";
}

abbrev pub world_http : Http
world_http = record {
  is_status = λ s. leb 100 s && ltb s 600;
  is_success = λ s. leb 200 s && ltb s 300;
  is_redirection = λ s. leb 300 s && ltb s 400;
  is_server_error = λ s. leb 500 s && ltb s 600;
}

pub world_http_laws : HttpLaws world_http
world_http_laws = record {
  status_in_range = λ s p q. ground arith;
  status_three_digits = λ s h. (ground arith, ground arith);
  success_iff = λ s. (λ h. (ground arith, ground arith), λ h. ground arith);
  redirection_iff = λ s. (λ h. (ground arith, ground arith), λ h. ground arith);
  server_error_iff = λ s. (λ h. (ground arith, ground arith), λ h. ground arith);
}

abbrev pub start : World
start = record { time = 5; sent = []; received = [] }

-- Whole numbers for the floating point numbers.
abbrev pub whole : F64 ℕ
whole = record {
  from_ℕ = λ n. n;
  from_nanos = λ n. n / 1000000000;
  minus_one = 0;
  add = λ a b. a + b;
  sub = λ a b. a - b;
  div = λ a b. a / b;
}

abbrev pub world_host : Host World
world_host = record {
  env = world_env;
  debug = world_debug;
  patterns = record { loaded_image = done (λ _. some (codes "tag")); digits = λ _. codes "7" };
  is_linux = true;
  fuel = 100;
}

abbrev pub hello : ComponentPath
hello = record { user = codes "ann"; repo = codes "hello" }

abbrev pub hello_id : ComponentId
hello_id = record { path = hello; hash = codes "12ab" }

abbrev pub activate_hello : ActivateRequest
activate_hello = record {
  id = hello_id;
  executable_file = codes "hello.py";
  execution_method = ExecutionMethod.python_unsafe;
}

abbrev pub deactivate_hello : DeactivateRequest
deactivate_hello = record { id = hello_id }

abbrev unread : {A : Type 0} → Text → Attempt A
unread text = failed (codes "not JSON")

abbrev written : {A : Type 0} → A → Attempt Text
written a = done (codes "{}")

abbrev pub world_codec : Codec ℕ
world_codec = record {
  read_activate_request = λ _. done activate_hello;
  read_deactivate_request = λ _. done deactivate_hello;
  read_component_response = unread;
  write_activate_response = written;
  write_deactivate_response = written;
  write_log_response = written;
  write_status_response = written;
  write_component_request = written;
  percent_encode = λ text. text;
  percent_decode = λ text. text;
}

abbrev pub world_platform : Platform ℕ World
world_platform = record {
  host = world_host;
  http = world_http;
  f64 = whole;
  codec = world_codec;
  system = record {
    load_average = λ w. (done 1, w);
    memory = λ w. (done (1, 4), w);
    networks = λ w. (done [], w);
    network_stats = λ _ w. (failed (codes "none"), w);
  };
}

abbrev pub world_shared : Shared World
world_shared = record { dedup_counter = 0; channel = []; world = start }
