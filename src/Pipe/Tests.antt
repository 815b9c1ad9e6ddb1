-- ===== src/Pipe/Tests.antt =====
-- Tests of src/named_pipe.rs: an exchange with a component that answers "ok".
use v9_worker.Tests.World.{world_laws}
use v9_worker.Base.{ℕ, ◌≡◌, refl, none, arith, codes}
use v9_worker.Exec.{ok, ◌>>=◌}
use v9_worker.Tests.World.{world_env, world_laws, world_debug, start, reply}
use v9_worker.Pipe.{
  NamedPipe, query, write, read, get_fds, write_loop, read_loop, poll_until, open_loop, to_c_int,
  read_some, received, scanned, scan_line, from_utf8, on_world, has_newline, try_open,
}
use v9_worker.Pipe.Exchange.{query-Exchanged, Exchanged}
use v9_worker.Utf8.{is_utf8}

abbrev fresh_pipe : NamedPipe
fresh_pipe = record {
  root_folder = codes "/tmp/v9";
  component_input_fifo_path = codes "/tmp/v9/IN";
  component_output_fifo_path = codes "/tmp/v9/OUT";
  component_input_fifo_file = none;
  component_output_fifo_file = none;
}

abbrev rounds : ℕ
rounds = 10_000_000_100

query-reply : (query world_env world_debug rounds (codes "hi") (fresh_pipe, start)).0 ≡ ok reply
unfolding query write read get_fds write_loop read_loop poll_until open_loop to_c_int read_some
    received scanned scan_line from_utf8 on_world has_newline try_open ◌>>=◌ is_utf8
query-reply = refl

query-Exchanged_example :
    Exchanged world_env world_debug world_laws
      (codes "hi")
      reply
      (fresh_pipe, start)
      (query world_env world_debug rounds (codes "hi") (fresh_pipe, start)).1
query-Exchanged_example =
    query-Exchanged world_env world_debug world_laws rounds (omega arith) (codes "hi") (omega arith)
      reply fresh_pipe start query-reply
