-- ===== src/Handler.antt =====
-- src/request_handler.rs: from an HTTP request to a response. A request is one step: the lock of the
-- manager, and for a call also that of the component, is held from the lookup to the answer.
pub mod Routes
pub mod Paths
pub mod Colors
pub mod Entry
use v9_worker.Base.{
  ℕ, ◌+◌, ◌/◌, ◌||◌, Option, none, some, List, [], ◌∷◌, ◌++◌, ◌==◌, if◌then◌else◌, Text, codes,
  text_eq, drop,
}
use v9_worker.Exec.{
  pure, give, raise, zoom, ok, err, Outcome, Exec, Attempt, from_attempt, ◌>>=◌, ◌>>◌,
}
use v9_worker.Errors.{path_not_found, wrong_method, internal_json_handling}
use v9_worker.Http.{Http, Method, get, post, Response, status_ok}
use v9_worker.Model.{ComponentPath, StatusColor}
use v9_worker.Platform.{Platform}
use v9_worker.Component.{
  ComponentHandle, ComponentManager, Shared, find, put, join_slash, set_color,
}
use v9_worker.Component.Active.{activate, deactivate}
use v9_worker.Component.Figures.{logs, status}
use v9_worker.Component.Call.{handle_component_call}

-- A character before the first of some texts.
abbrev push_front : ℕ → List Text → List Text
push_front c [] = (c ∷ []) ∷ []
push_front c (t ∷ ts) = (c ∷ t) ∷ ts

-- `split('/')`
unfoldable pub split_slash : Text → List Text
split_slash [] = [] ∷ []
split_slash (c ∷ cs) = if c == b'/' then [] ∷ split_slash cs else push_front c (split_slash cs)

-- `uri.path().split('/').skip(1)`
unfoldable pub path_components : Text → List Text
path_components path = drop 1 (split_slash path)

-- The color of a component after a response with a status.
unfoldable pub color_of : Http → ℕ → StatusColor
color_of http status =
    if http.is_success status || http.is_redirection status
    then StatusColor.green
    else if http.is_server_error status || status == 543
    then StatusColor.red
    else StatusColor.orange

-- The component after a call; a panic passes the line that sets the color.
unfoldable pub painted : Http → Outcome Response → ComponentHandle → ComponentHandle
painted http (ok resp) handle = set_color (color_of http resp.status) handle
painted http (err e) handle = set_color StatusColor.red handle
painted http _ handle = handle

-- The routes below "meta".
pub data Route : Type 0 where
  activate_route deactivate_route logs_route status_route other_route : Route

unfoldable pub route_of : Text → Route
route_of route =
    if text_eq route (codes "activate")
    then activate_route
    else if text_eq route (codes "deactivate")
    then deactivate_route
    else if text_eq route (codes "logs")
    then logs_route
    else if text_eq route (codes "status")
    then status_route
    else other_route

-- `unwrap_or("")`
abbrev pub or_empty : Option Text → Text
or_empty none = []
or_empty (some text) = text

module _ {F W : Type 0} (platform : Platform F W) (show_handle : ComponentHandle → Text) where
  open platform use {host, http, codec}
  open host use {env, debug}

  -- A call of a component that is found.
  unfoldable pub call_component :
      ComponentPath
      → ComponentHandle
      → Method
      → Text
      → List Text
      → Text
      → Text
      → Exec (ComponentManager × Shared W) Response
  call_component path handle http_verb method rest query body (manager, s) =
      let (resp, (handle', s')) =
        handle_component_call platform method http_verb rest query body (handle, s) in
      (
        resp,
        (
          record {
            active_components = put path (painted http resp handle') manager.active_components;
          },
          s',
        ),
      )

  -- The branch of `handle` for a path that begins with "sl".
  unfoldable pub handle_call :
      Method
      → Text
      → Text
      → Text
      → List Text
      → Text
      → Text
      → Exec (ComponentManager × Shared W) Response
  handle_call http_verb user repo method rest query body (manager, s) =
      let path : ComponentPath = record { user = user; repo = repo } in
      elim (find path manager.active_components) [
        | none ↦ (
          err (path_not_found (join_slash (codes "sl" ∷ user ∷ repo ∷ method ∷ rest))),
          (manager, s),
        )
        | some handle ↦ call_component path handle http_verb method rest query body (manager, s)
      ]

  -- A body of JSON for status 200.
  unfoldable pub answer_json : Attempt Text → Exec (ComponentManager × Shared W) Response
  answer_json json = do
    text ← give (from_attempt internal_json_handling json)
    pure (record { status = status_ok; body = text })

  -- The match of `handle_meta_request` on the route and the method.
  pub meta : Route → Method → Text → Text → Exec (ComponentManager × Shared W) Response
  meta activate_route post route body = do
    resp ← activate platform (codec.read_activate_request body)
    answer_json (codec.write_activate_response resp)
  meta deactivate_route post route body = do
    resp ←
        (λ s. let (r, t) = deactivate platform (codec.read_deactivate_request body) s in (ok r, t))
    answer_json (codec.write_deactivate_response resp)
  meta logs_route get route body = do
    resp ← (λ s.
        let (r, w) = logs platform show_handle s.0 s.1.world in
        (ok r, (s.0, record (s.1) { world = w })))
    answer_json (codec.write_log_response resp)
  meta status_route get route body = do
    resp ←
        zoom (λ s. (s.0, s.1.world)) (λ t s. (t.0, record (s.1) { world = t.1 }))
          (status platform show_handle)
    answer_json (codec.write_status_response resp)
  meta other_route http_verb route body = raise (path_not_found (codes "meta/" ++ route))
  meta _ http_verb route body = raise wrong_method

  unfoldable pub handle_meta_request :
      Method → Text → Text → Exec (ComponentManager × Shared W) Response
  handle_meta_request http_verb route body = meta (route_of route) http_verb route body

  -- `HttpRequestHandler::handle`, on the components of the path.
  unfoldable pub dispatch :
      Method → List Text → Text → Text → Exec (ComponentManager × Shared W) Response
  dispatch http_verb (first ∷ route ∷ []) query body =
      if text_eq first (codes "meta")
      then handle_meta_request http_verb route body
      else raise (path_not_found (join_slash (first ∷ route ∷ [])))
  dispatch http_verb (first ∷ user ∷ repo ∷ method ∷ rest) query body =
      if text_eq first (codes "sl")
      then handle_call http_verb user repo method rest query body
      else raise (path_not_found (join_slash (first ∷ user ∷ repo ∷ method ∷ rest)))
  dispatch http_verb components query body = raise (path_not_found (join_slash components))

  unfoldable pub handle : Method → Text → Text → Text → Exec (ComponentManager × Shared W) Response
  handle http_verb uri_path query body = dispatch http_verb (path_components uri_path) query body
