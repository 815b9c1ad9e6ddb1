-- ===== src/Handler/Colors.antt =====
-- The color of a component after a call (`handle` of src/request_handler.rs).
use v9_worker.Base.{
  ℕ, ◌≡◌, refl, ◌⊎◌, Bool, ◌||◌, ◌≤◌, ◌<◌, List, Text, arith, Bool-cases, inl, inr, true, false,
  some, ◌==◌, if◌then◌else◌, subst,
}
use v9_worker.Exec.{ok, err, panic, out_of_fuel, Outcome}
use v9_worker.Http.{Http, HttpLaws, Method, Response}
use v9_worker.Model.{ComponentPath, StatusColor, path_eq, path_eq_iff}
use v9_worker.Platform.{Platform}
use v9_worker.Component.{ComponentManager, ComponentHandle, Shared, find, put}
use v9_worker.Component.Table.{Table, find-put_self, find-put_ne}
use v9_worker.Handler.{color_of, painted, handle_call, call_component}

-- Green is for a success or a redirection, red for a server error, orange for the rest.
abbrev pub IsColorOf : ℕ → StatusColor → Type 0
IsColorOf status StatusColor.green = (200 ≤ status) × (status < 400)
IsColorOf status StatusColor.red = (500 ≤ status) × (status < 600)
IsColorOf status StatusColor.orange =
    (status < 200) ⊎ ((400 ≤ status) × (status < 500)) ⊎ (600 ≤ status)
IsColorOf status StatusColor.grey = ⊥

module _ (http : Http) (laws : HttpLaws http) where
  color_cases :
      (status : ℕ) (success redirection server_error : Bool)
      → http.is_success status ≡ success
      → http.is_redirection status ≡ redirection
      → http.is_server_error status ≡ server_error
      → IsColorOf status (
          if success || redirection
          then StatusColor.green
          else if server_error || status == 543
          then StatusColor.red
          else StatusColor.orange)
  color_cases status true b c e f g = ground (arith, laws.success_iff status)
  color_cases status false true c e f g = ground (arith, laws.redirection_iff status)
  color_cases status false false true e f g = ground (arith, laws.server_error_iff status)
  color_cases status false false false e f g = elim (Bool-cases (status == 543)) [
    | inl h ↦ rw h (ground (arith, laws.server_error_iff status))
    | inr h ↦ rw h (
        ground (
          arith,
          laws.success_iff status,
          laws.redirection_iff status,
          laws.server_error_iff status,
        ))
  ]

  color_of-IsColorOf : (status : ℕ) → IsColorOf status (color_of http status)
  unfolding color_of
  color_of-IsColorOf status = color_cases status _ _ _ refl refl refl

  -- The color that a component has after a call, by the outcome of the call.
  abbrev pub ColorAfter : Outcome Response → StatusColor → Type 0
  ColorAfter (ok resp) color = IsColorOf resp.status color
  ColorAfter (err e) color = color ≡ StatusColor.red
  ColorAfter _ color = Unit

  painted-ColorAfter :
      (o : Outcome Response) (handle : ComponentHandle)
      → ColorAfter o (painted http o handle).stat_tracker.current_color
  unfolding painted
  painted-ColorAfter (ok resp) handle = color_of-IsColorOf resp.status
  painted-ColorAfter (err e) handle = refl
  painted-ColorAfter panic handle = tt
  painted-ColorAfter out_of_fuel handle = tt

find-put :
    (j k : ComponentPath) (h g : ComponentHandle) (l : Table)
    → find k l ≡ some g
    → find j (put k h l) ≡ (if path_eq k j then some h else find j l)
find-put j k h g l e = elim (Bool-cases (path_eq k j)) [
  | inl same ↦ rw same (
      subst (λ i. find i (put k h l) ≡ some h) ((path_eq_iff k j).0 same) (find-put_self k h g l e))
  | inr other ↦ rw other (find-put_ne j k h l (λ same. ground (arith, path_eq_iff k j)))
]

module _ {F W : Type 0} (platform : Platform F W) (show_handle : ComponentHandle → Text)
    (laws : HttpLaws platform.http) where
  open platform use {http}

  -- After a call of an active component, its path has a component whose color is green for a success
  -- or a redirection, red for a server error or a failure, and orange for any other response, unless
  -- the call panicked; every other path has what it had.
  pub handle_call-ColorAfter :
      (http_verb : Method) (user repo method : Text) (rest : List Text) (query body : Text)
      (manager : ComponentManager) (s : Shared W) (handle : ComponentHandle)
      → find (record { user = user; repo = repo }) manager.active_components ≡ some handle
      → let (o, (manager', s')) =
          handle_call platform show_handle http_verb user repo method rest query body
            (manager, s) in
        (handle' : ComponentHandle) × ColorAfter http laws o handle'.stat_tracker.current_color
        × ((path : ComponentPath)
            → find path manager'.active_components ≡ (
                if path_eq (record { user = user; repo = repo }) path
                then some handle'
                else find path manager.active_components))
  unfolding handle_call call_component
  handle_call-ColorAfter http_verb user repo method rest query body manager s handle e =
      rw (e, handle_call)
        (painted http _ _, painted-ColorAfter http laws _ _, λ path. find-put path _ _ handle _ e)
