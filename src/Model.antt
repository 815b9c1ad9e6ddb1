-- ===== src/Model.antt =====
-- src/model.rs: the requests and responses of the worker. Numbers that serialise as floats are of
-- a type F.
use v9_worker.Base.{ℕ, Bool, true, ◌&&◌, ◌≡◌, ◌↔◌, Option, List, Text, text_eq, text_eq_iff, arith}

pub record ComponentPath : Type 0 where
  pub user : Text
  pub repo : Text

pub record ComponentId : Type 0 where
  pub path : ComponentPath
  pub hash : Text

pub data ExecutionMethod : Type 0 where
  containerized_script docker_archive python_unsafe : ExecutionMethod

pub data ActivationStatus : Type 0 where
  activation_successful already_running failed_to_find_executable failed_to_start invalid_request :
      ActivationStatus

pub record ActivateRequest : Type 0 where
  pub id : ComponentId
  pub executable_file : Text
  pub execution_method : ExecutionMethod

pub record ActivateResponse : Type 0 where
  pub result : ActivationStatus
  pub dbg_message : Text

pub data DeactivationStatus : Type 0 where
  component_not_found deactivation_successful failed_to_deactivate invalid_request :
      DeactivationStatus

pub record DeactivateRequest : Type 0 where
  pub id : ComponentId

pub record DeactivateResponse : Type 0 where
  pub result : DeactivationStatus
  pub dbg_message : Text

pub record ComponentLog : Type 0 where
  pub id : ComponentId
  pub dedup_number : ℕ
  pub log : Option Text
  pub error : Option Text

pub record LogResponse : Type 0 where
  pub logs : List ComponentLog

pub data StatusColor : Type 0 where
  green orange red grey : StatusColor

pub record ComponentStats (F : Type 0) : Type 0 where
  pub color : StatusColor
  pub stat_window_seconds : F
  pub hits : F
  pub avg_response_bytes : F
  pub avg_ms_latency : F
  pub ms_latency_percentiles : List F

pub record ComponentStatus (F : Type 0) : Type 0 where
  pub id : ComponentId
  pub component_stats : ComponentStats F

pub record StatusResponse (F : Type 0) : Type 0 where
  pub cpu_usage : F
  pub memory_usage : F
  pub network_usage : F
  pub active_components : List (ComponentStatus F)

pub record ComponentRequest : Type 0 where
  pub called_function : Text
  pub http_method : Text
  pub path : Text
  pub request_arguments : Text
  pub request_body : Text

pub record ComponentResponse : Type 0 where
  pub response_body : Text
  pub http_response_code : ℕ
  pub error_message : Option Text

-- The derived `Eq` of a `ComponentPath`, by which the map of active components finds a key.
unfoldable pub path_eq : ComponentPath → ComponentPath → Bool
path_eq p q = text_eq p.user q.user && text_eq p.repo q.repo

pub path_eq_iff : (p q : ComponentPath) → (path_eq p q ≡ true) ↔ (p ≡ q)
unfolding path_eq
path_eq_iff p q = ground (arith, text_eq_iff p.user q.user, text_eq_iff p.repo q.repo)
