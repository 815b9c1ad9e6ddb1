-- ===== src/Handler/Paths.antt =====
-- Paths of requests: `split('/')` and `join("/")` of src/request_handler.rs.
use v9_worker.Base.{ℕ, ◌≡◌, refl, ap, ◌∙◌, List, [], ◌∷◌, Text, arith, Bool-cases, inl, inr, ◌==◌}
use v9_worker.Component.{join_slash}
use v9_worker.Handler.{push_front, split_slash, path_components}

join_slash-push_front : (c : ℕ) (l : List Text) → join_slash (push_front c l) ≡ c ∷ join_slash l
unfolding join_slash
join_slash-push_front c [] = refl
join_slash-push_front c (t ∷ []) = refl
join_slash-push_front c (t ∷ u ∷ l) = refl

-- A split has a first part.
data IsNonEmpty : List Text → Type 0 where
  parts : {t : Text} {l : List Text} → IsNonEmpty (t ∷ l)

push_front-IsNonEmpty : (c : ℕ) (l : List Text) → IsNonEmpty (push_front c l)
push_front-IsNonEmpty c [] = parts
push_front-IsNonEmpty c (t ∷ l) = parts

split_slash-IsNonEmpty : (t : Text) → IsNonEmpty (split_slash t)
unfolding split_slash
split_slash-IsNonEmpty [] = parts
split_slash-IsNonEmpty (c ∷ cs) = elim (Bool-cases (c == b'/')) [
  | inl e ↦ rw e parts
  | inr e ↦ rw e (push_front-IsNonEmpty c (split_slash cs))
]

join_slash-slash : (l : List Text) → IsNonEmpty l → join_slash ([] ∷ l) ≡ b'/' ∷ join_slash l
unfolding join_slash
join_slash-slash [] h = elim h [ ]
join_slash-slash (t ∷ l) parts = refl

-- Splitting a text at its slashes and joining the parts gives the text back: no part is lost, an
-- empty one neither.
pub join_slash-split_slash : (t : Text) → join_slash (split_slash t) ≡ t
unfolding split_slash join_slash
join_slash-split_slash [] = refl
join_slash-split_slash (c ∷ cs) = elim (Bool-cases (c == b'/')) [
  | inl e ↦ rw e (
      join_slash-slash (split_slash cs) (split_slash-IsNonEmpty cs)
      ∙ ground (arith, join_slash-split_slash cs))
  | inr e ↦
      rw e (join_slash-push_front c (split_slash cs) ∙ ap (λ l. c ∷ l) (join_slash-split_slash cs))
]

-- What follows the slash at the front of a path is the join of its components.
pub join_slash-path_components : (t : Text) → join_slash (path_components (b'/' ∷ t)) ≡ t
unfolding path_components split_slash
join_slash-path_components t = join_slash-split_slash t
