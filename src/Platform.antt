-- ===== src/Platform.antt =====
-- The other crates that requests and responses pass through, beside the `Host`: serde_json,
-- percent_encoding, hyper, systemstat, floating point numbers, and `{:?}` of a component.
use v9_worker.Base.{ℕ, List, Text}
use v9_worker.Exec.{Attempt}
use v9_worker.Host.{Host}
use v9_worker.Http.{Http}
use v9_worker.Float.{F64}
use v9_worker.Model.{
  ActivateRequest, ActivateResponse, DeactivateRequest, DeactivateResponse, ComponentRequest,
  ComponentResponse, LogResponse, StatusResponse,
}

-- serde_json on the types of src/model.rs, and percent encoding.
pub record Codec (F : Type 0) : Type 0 where
  pub read_activate_request : Text → Attempt ActivateRequest
  pub read_deactivate_request : Text → Attempt DeactivateRequest
  pub read_component_response : Text → Attempt ComponentResponse
  pub write_activate_response : ActivateResponse → Attempt Text
  pub write_deactivate_response : DeactivateResponse → Attempt Text
  pub write_log_response : LogResponse → Attempt Text
  pub write_status_response : StatusResponse F → Attempt Text
  pub write_component_request : ComponentRequest → Attempt Text
  -- `utf8_percent_encode` with NON_ALPHANUMERIC, and the bytes of `percent_decode_str`
  pub percent_encode : Text → Text
  pub percent_decode : Text → Text

-- `systemstat::NetworkStats`, as far as it is read.
pub record NetworkStats : Type 0 where
  pub tx_packets : ℕ
  pub rx_packets : ℕ
  pub tx_errors : ℕ
  pub rx_errors : ℕ

-- `systemstat::System`
pub record SystemStat (F W : Type 0) : Type 0 where
  -- `f64::from(avg.one)` of the load average
  pub load_average : W → Attempt F × W
  -- the free and the total memory in bytes
  pub memory : W → Attempt (ℕ × ℕ) × W
  pub networks : W → Attempt (List Text) × W
  pub network_stats : Text → W → Attempt NetworkStats × W

pub record Platform (F W : Type 0) : Type 0 where
  pub host : Host W
  pub http : Http
  pub f64 : F64 F
  pub codec : Codec F
  pub system : SystemStat F W
