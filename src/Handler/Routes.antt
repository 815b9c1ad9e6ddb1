-- ===== src/Handler/Routes.antt =====
-- Which requests find nothing (`handle` of src/request_handler.rs).
use v9_worker.Base.{
  ◌≡◌, refl, sym, ap, ◌∙◌, ◌≢◌, ◌⊎◌, List, [], ◌∷◌, ◌++◌, Text, codes, Bool-cases, inl, inr, none,
  text_eq, text_eq_iff,
}
use v9_worker.Exec.{err}
use v9_worker.Errors.{path_not_found}
use v9_worker.Http.{Method}
use v9_worker.Platform.{Platform}
use v9_worker.Component.{ComponentManager, ComponentHandle, Shared, find, join_slash}
use v9_worker.Handler.{
  handle, handle_meta_request, handle_call, meta, dispatch, path_components, route_of, other_route,
}
use v9_worker.Handler.Paths.{join_slash-path_components}

-- The components of a path that leads nowhere: neither "meta" and a route below it, nor "sl", the
-- user and the repository of an active component, and a method.
abbrev pub IsNowhere : ComponentManager → List Text → Type 0
IsNowhere manager (first ∷ route ∷ []) = (first ≢ codes "meta") ⊎ (route_of route ≡ other_route)
IsNowhere manager (first ∷ user ∷ repo ∷ method ∷ rest) =
    (first ≢ codes "sl")
    ⊎ (find (record { user = user; repo = repo }) manager.active_components ≡ none)
IsNowhere manager _ = Unit

module _ {F W : Type 0} (platform : Platform F W) (show_handle : ComponentHandle → Text) where
  dispatch-IsNowhere :
      (http_verb : Method) (components : List Text) (query body : Text) (manager : ComponentManager)
      (s : Shared W)
      → IsNowhere manager components
      → dispatch platform show_handle http_verb components query body (manager, s)
        ≡ (err (path_not_found (join_slash components)), (manager, s))
  unfolding dispatch handle_meta_request handle_call join_slash meta
  dispatch-IsNowhere http_verb [] query body manager s h = refl
  dispatch-IsNowhere http_verb (a ∷ []) query body manager s h = refl
  dispatch-IsNowhere http_verb (a ∷ b ∷ []) query body manager s h =
      elim (Bool-cases (text_eq a (codes "meta"))) [
        | inl e ↦ elim h [
          | inl ne ↦ absurd (ne ((text_eq_iff a (codes "meta")).0 e))
          | inr other ↦
              rw (e, other)
                (ap (λ t. (err (path_not_found t), (manager, s)))
                  (ap (λ x. x ++ b'/' ∷ b) (sym ((text_eq_iff a (codes "meta")).0 e))))
        ]
        | inr e ↦ rw e refl
      ]
  dispatch-IsNowhere http_verb (a ∷ b ∷ c ∷ []) query body manager s h = refl
  dispatch-IsNowhere http_verb (a ∷ b ∷ c ∷ d ∷ rest) query body manager s h =
      elim (Bool-cases (text_eq a (codes "sl"))) [
        | inl e ↦ elim h [
          | inl ne ↦ absurd (ne ((text_eq_iff a (codes "sl")).0 e))
          | inr absent ↦
              rw (e, absent, handle_call)
                (ap
                  (λ x. (
                    err (path_not_found (x ++ b'/' ∷ join_slash (b ∷ c ∷ d ∷ rest))),
                    (manager, s),
                  ))
                  (sym ((text_eq_iff a (codes "sl")).0 e)))
        ]
        | inr e ↦ rw e refl
      ]

  -- A request for a path that leads nowhere, whatever its method, query and body, changes nothing
  -- and fails with the path, without its first slash, as not found.
  pub handle-not_found :
      (http_verb : Method) (path query body : Text) (manager : ComponentManager) (s : Shared W)
      → IsNowhere manager (path_components (b'/' ∷ path))
      → handle platform show_handle http_verb (b'/' ∷ path) query body (manager, s)
        ≡ (err (path_not_found path), (manager, s))
  unfolding handle
  handle-not_found http_verb path query body manager s h =
      dispatch-IsNowhere http_verb (path_components (b'/' ∷ path)) query body manager s h
      ∙ ap (λ t. (err (path_not_found t), (manager, s))) (join_slash-path_components path)
