-- ===== src/Handler/Entry.antt =====
-- `global_request_entrypoint` of src/request_handler.rs: from the chunks of a request's body to its
-- response.
use mathlib.Core.List.{flatten}
use v9_worker.Base.{
  ◌≡◌, refl, sym, ap, subst, ◌∙◌, ◌↔◌, inl, inr, true, false, Option, none, some, List, [], ◌∷◌,
  ◌++◌, append-nil, append_assoc, arith, if◌then◌else◌, Bool-cases, Text,
}
use v9_worker.Exec.{give, ok, err, panic, out_of_fuel, Outcome, Exec, Attempt, done, failed, ◌>>=◌}
use v9_worker.Errors.{hyper, invalid_utf8, tokio_join_error, into_response}
use v9_worker.Http.{Method, Response}
use v9_worker.Platform.{Platform}
use v9_worker.Utf8.{is_utf8}
use v9_worker.Component.{ComponentHandle, ComponentManager, Shared}
use v9_worker.Handler.Routes.{IsNowhere, handle-not_found}
use v9_worker.Base.{codes}
use v9_worker.Handler.{path_components, handle, or_empty}

-- The chunks that `read_body` accepts: every one arrived, and is UTF-8 by itself.
abbrev pub AreTexts : List (Attempt Text) → List Text → Type 0
AreTexts [] [] = Unit
AreTexts (done chunk ∷ chunks) (t ∷ ts) = (chunk ≡ t) × (is_utf8 t ≡ true) × AreTexts chunks ts
AreTexts _ _ = ⊥

module _ {F W : Type 0} (platform : Platform F W) (show_handle : ComponentHandle → Text) where
  open platform use {host, http, codec}
  open host use {env, debug}

  -- The loop over the chunks of the body, each of which is checked by itself.
  unfoldable pub read_body : Text → List (Attempt Text) → Outcome Text
  read_body body [] = ok body
  read_body body (failed message ∷ chunks) = err (hyper message)
  read_body body (done chunk ∷ chunks) =
      let rest = read_body (body ++ chunk) chunks in
      if is_utf8 chunk then rest else err (invalid_utf8 (debug.utf8_error chunk))

  abbrev pub from_option : {A : Type 0} → Option A → Outcome A
  from_option none = panic
  from_option (some a) = ok a

  -- What becomes of the outcome of the handler, which runs on a thread of its own: a panic there is
  -- an error of joining it.
  pub joined : Text → Outcome Response → Outcome Response
  joined join_error (ok resp) = ok resp
  joined join_error (err e) = from_option (into_response debug http e)
  joined join_error panic = err (tokio_join_error join_error)
  joined join_error out_of_fuel = out_of_fuel

  -- `global_request_entrypoint`; `join_error` is the message of a panic.
  unfoldable pub global_request_entrypoint :
      Text
      → Method
      → Text
      → Option Text
      → List (Attempt Text)
      → Exec (ComponentManager × Shared W) Response
  global_request_entrypoint join_error http_verb uri_path query chunks = do
    body ← give (read_body [] chunks)
    (λ s.
        let (o, t) = handle platform show_handle http_verb uri_path (or_empty query) body s in
        (joined join_error o, t))

  read_body-texts :
      (ts : List Text) (body : Text) (chunks : List (Attempt Text))
      → AreTexts chunks ts
      → read_body body chunks ≡ ok (body ++ flatten ts)
  unfolding read_body flatten
  read_body-texts [] body [] h = rw append-nil
  read_body-texts (t ∷ ts) body (done chunk ∷ chunks) h =
      rw (h.0, h.1)
        (read_body-texts ts (body ++ t) chunks h.2 ∙ ap ok (append_assoc body t (flatten ts)))
  read_body-texts [] body (done chunk ∷ chunks) h = absurd h
  read_body-texts [] body (failed message ∷ chunks) h = absurd h
  read_body-texts (t ∷ ts) body [] h = absurd h
  read_body-texts (t ∷ ts) body (failed message ∷ chunks) h = absurd h

  texts-read_body :
      (body text : Text) (chunks : List (Attempt Text))
      → read_body body chunks ≡ ok text
      → (ts : List Text) × AreTexts chunks ts × (text ≡ body ++ flatten ts)
  unfolding read_body flatten
  texts-read_body body text [] h = ([], tt, rw append-nil cc)
  texts-read_body body text (failed message ∷ chunks) h = cc
  texts-read_body body text (done chunk ∷ chunks) h = elim (Bool-cases (is_utf8 chunk)) [
    | inl e ↦
        let (ts, texts, whole) = texts-read_body (body ++ chunk) text chunks (given e h) in
        (chunk ∷ ts, (refl, e, texts), whole ∙ append_assoc body chunk (flatten ts))
    | inr e ↦ absurd (refused e h)
  ]
    where
      given :
          is_utf8 chunk ≡ true
          → read_body body (done chunk ∷ chunks) ≡ ok text
          → read_body (body ++ chunk) chunks ≡ ok text
      given e h =
          subst
            (λ b.
              (if b
                then read_body (body ++ chunk) chunks
                else err (invalid_utf8 (debug.utf8_error chunk)))
              ≡ ok text)
            e h

      refused : is_utf8 chunk ≡ false → read_body body (done chunk ∷ chunks) ≡ ok text → ⊥
      refused e h = ground arith

  -- A body is read exactly if every chunk arrives and is UTF-8 by itself, and it is the chunks in
  -- order: a character that two chunks share, of a body that is UTF-8, makes the request fail.
  pub read_body_iff :
      (text : Text) (chunks : List (Attempt Text))
      → (read_body [] chunks ≡ ok text)
        ↔ ((ts : List Text) × AreTexts chunks ts × (text ≡ flatten ts))
  read_body_iff text chunks = (
    texts-read_body [] text chunks,
    λ (ts, texts, whole). read_body-texts ts [] chunks texts ∙ ap ok (sym whole),
  )

  -- A request whose chunks are all read, for a path that leads nowhere, is answered by the 404 of the
  -- worker, the one that the router takes for it, and changes nothing.
  pub entrypoint-worker_404 :
      (join_error : Text) (http_verb : Method) (path : Text) (query : Option Text)
      (chunks : List (Attempt Text)) (ts : List Text) (manager : ComponentManager) (s : Shared W)
      → AreTexts chunks ts
      → IsNowhere manager (path_components (b'/' ∷ path))
      → global_request_entrypoint join_error http_verb (b'/' ∷ path) query chunks (manager, s)
        ≡ (ok (record { status = 404; body = codes "v9: worker 404" }), (manager, s))
  unfolding global_request_entrypoint joined ◌>>=◌ into_response
  entrypoint-worker_404 join_error http_verb path query chunks ts manager s texts nowhere =
      rw (read_body-texts ts [] chunks texts) (
        rw
          (handle-not_found platform show_handle http_verb path (or_empty query) (flatten ts)
            manager s nowhere)
          refl)
