-- ===== src/Http.antt =====
-- The crate `hyper`: methods, responses, and the tests on status codes, which are a parameter.
use v9_worker.Base.{
  ℕ, ◌≤◌, ◌<◌, ◌≡◌, ◌↔◌, Bool, true, Option, none, some, Text, codes, if◌then◌else◌,
}

pub data Method : Type 0 where
  get post : Method
  -- every other verb, by its name
  verb : Text → Method

-- `Method::to_string`
unfoldable pub method_name : Method → Text
method_name get = codes "GET"
method_name post = codes "POST"
method_name (verb name) = name

pub record Response : Type 0 where
  pub status : ℕ
  pub body : Text

abbrev pub status_ok : ℕ
status_ok = 200

abbrev pub not_found : ℕ
not_found = 404

abbrev pub method_not_allowed : ℕ
method_not_allowed = 405

pub record Http : Type 0 where
  -- `StatusCode::try_from` of a u16 succeeds
  pub is_status : ℕ → Bool
  pub is_success : ℕ → Bool
  pub is_redirection : ℕ → Bool
  pub is_server_error : ℕ → Bool

-- What the crate documents of status codes.
pub record HttpLaws (http : Http) : Type 0 where
  -- a code has three digits, and those from 100 to 599 are codes in every version
  pub status_in_range : (s : ℕ) → 100 ≤ s → s < 600 → http.is_status s ≡ true
  pub status_three_digits : (s : ℕ) → http.is_status s ≡ true → (100 ≤ s) × (s < 1000)
  pub success_iff : (s : ℕ) → (http.is_success s ≡ true) ↔ ((200 ≤ s) × (s < 300))
  pub redirection_iff : (s : ℕ) → (http.is_redirection s ≡ true) ↔ ((300 ≤ s) × (s < 400))
  pub server_error_iff : (s : ℕ) → (http.is_server_error s ≡ true) ↔ ((500 ≤ s) × (s < 600))

-- `Response::builder().status(code).body(body).unwrap()`; `none` is its panic.
abbrev pub build : Http → ℕ → Text → Option Response
build http code text =
    if http.is_status code then some (record { status = code; body = text }) else none
