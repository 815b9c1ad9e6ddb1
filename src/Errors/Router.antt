-- ===== src/Errors/Router.antt =====
-- The response of an error (src/error.rs) as the router in front of the worker reads it.
use v9_worker.Base.{ℕ, ◌≡◌, refl, ◌↔◌, some, [], codes, arith}
use v9_worker.Http.{Http, HttpLaws, Response, not_found, method_not_allowed}
use v9_worker.Errors.{WorkerErrorKind, DebugFormat, to_string, into_response}

-- The router takes a response with this status and this text for the worker's own 404.
abbrev pub IsWorker404 : Response → Type 0
IsWorker404 r = (r.status ≡ not_found) × (r.body ≡ codes "v9: worker 404")

abbrev pub IsPathNotFound : WorkerErrorKind → Type 0
IsPathNotFound (WorkerErrorKind.path_not_found path) = Unit {0}
IsPathNotFound _ = ⊥

abbrev pub status_of : WorkerErrorKind → ℕ
status_of (WorkerErrorKind.path_not_found path) = not_found
status_of WorkerErrorKind.wrong_method = method_not_allowed
status_of _ = 543

-- Every error becomes a response, with no panic: it has status 404 for a path that was not found,
-- 405 for a wrong method and 543 for every other error, and it is the one that the router takes
-- for a 404 of the worker exactly if the error is a path that was not found.
pub into_response_lem :
    (debug : DebugFormat) (http : Http) (laws : HttpLaws http) (kind : WorkerErrorKind)
    → (r : Response) × (into_response debug http kind ≡ some r)
      × (r.status ≡ status_of kind)
      × (IsWorker404 r ↔ IsPathNotFound kind)
unfolding into_response
into_response_lem debug http laws (WorkerErrorKind.path_not_found path) = (
  record { status = not_found; body = codes "v9: worker 404" },
  refl,
  refl,
  (λ _. tt, λ _. (refl, refl)),
)
into_response_lem debug http laws WorkerErrorKind.wrong_method = (
  record { status = method_not_allowed; body = [] },
  refl,
  refl,
  (λ h. absurd (omega (arith, h.0)), λ h. absurd h),
)
into_response_lem debug http laws kind = (
  record { status = 543; body = to_string debug kind },
  rw (laws.status_in_range 543 (omega arith) (omega arith)),
  refl,
  (λ h. absurd (omega (arith, h.0)), λ h. absurd h),
)
