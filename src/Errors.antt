-- ===== src/Errors.antt =====
-- src/error.rs: the errors of the worker, their messages and the HTTP responses they become. An
-- error of a library is its message; an exit status is an opaque number.
pub mod Router
use v9_worker.Base.{ℕ, Option, some, [], ◌++◌, Text, codes}
use v9_worker.Http.{Http, Response, build, not_found, method_not_allowed}

pub data WorkerErrorKind : Type 0 where
  docker : (exit_status : ℕ) (stdout stderr : Text) → WorkerErrorKind
  hyper io integer_conversion internal_json_handling : (message : Text) → WorkerErrorKind
  invalid_serialization : (problem bytes : Text) → WorkerErrorKind
  invalid_utf8 nix : (message : Text) → WorkerErrorKind
  operation_timed_out : (op_name : Text) → WorkerErrorKind
  os_string_conversion : (os_string : Text) → WorkerErrorKind
  path_not_found : (path : Text) → WorkerErrorKind
  pipe_disconnected : WorkerErrorKind
  regex subprocess_start : (message : Text) → WorkerErrorKind
  subprocess_terminated : (exit_status : ℕ) → WorkerErrorKind
  tokio_join_error : (message : Text) → WorkerErrorKind
  unsupported_platform : (platform : Text) → WorkerErrorKind
  wrong_method : WorkerErrorKind

-- What values of other crates print: by `{:?}`, and the messages of a `Utf8Error` for some bytes and
-- of a `TryFromIntError`.
pub record DebugFormat : Type 0 where
  pub exit_status : ℕ → Text
  pub bytes : Text → Text
  pub os_string : Text → Text
  pub utf8_error : Text → Text
  pub int_error : Text

module _ (debug : DebugFormat) where
  -- `Display for WorkerError`
  unfoldable pub to_string : WorkerErrorKind → Text
  to_string (docker exit_status stdout stderr) =
      codes "WorkerError, caused by internal Docker error: exit_status = "
      ++ debug.exit_status exit_status
      ++ codes ", output = ("
      ++ stdout
      ++ codes ", "
      ++ stderr
      ++ codes ")"
  to_string (hyper e) = codes "WorkerError, caused by internal hyper error: " ++ e
  to_string (io e) = codes "WorkerError, caused by internal I/O error: " ++ e
  to_string (integer_conversion e) =
      codes "WorkerError, caused by internal integer conversion error: " ++ e
  to_string (internal_json_handling e) =
      codes "WorkerError, caused by internal serde_json error: " ++ e
  to_string (invalid_serialization problem l) =
      codes "WorkerError, " ++ problem ++ codes " with invalid series of bytes: " ++ debug.bytes l
  to_string (invalid_utf8 e) = codes "WorkerError, caused by internal utf8 decode error: " ++ e
  to_string (nix e) = codes "WorkerError, caused by internal unix error: " ++ e
  to_string (operation_timed_out op_name) =
      codes "WorkerError, " ++ op_name ++ codes " operation timed out"
  to_string (os_string_conversion os_string) =
      codes "WorkerError, caused by problematic OsString ("
      ++ debug.os_string os_string
      ++ codes ")"
  to_string (path_not_found path) = codes "WorkerError, path not found: " ++ path
  to_string pipe_disconnected = codes "Worker Error, internal pipe disconnected"
  to_string (regex e) = codes "Worker Error, invalid regex: " ++ e
  to_string (subprocess_start e) = codes "WorkerError, caused by internal subprocess error: " ++ e
  to_string (subprocess_terminated exit_status) =
      codes "WorkerError, caused by subprocess terminating, with code "
      ++ debug.exit_status exit_status
  to_string (tokio_join_error e) = codes "WorkerError, caused by internal tokio join error: " ++ e
  to_string (unsupported_platform plat) = codes "WorkerError, unsupported platform: " ++ plat
  to_string wrong_method = codes "WorkerError, invalid http verb"

  -- `Into<Response<Body>> for WorkerError`; `none` is the panic of its `unwrap`.
  unfoldable pub into_response : Http → WorkerErrorKind → Option Response
  unfolding to_string
  into_response http (path_not_found path) =
      some (record { status = not_found; body = codes "v9: worker 404" })
  into_response http wrong_method = some (record { status = method_not_allowed; body = [] })
  into_response http kind = build http 543 (to_string kind)
