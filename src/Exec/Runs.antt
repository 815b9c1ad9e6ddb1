-- ===== src/Exec/Runs.antt =====
-- What a method does from a state: it ends, and if it returns, its value and the state that it
-- leaves have a property. One rule for each way to build a method.
use v9_worker.Base.{
  Option, none, some, ◌≡◌, refl, sym, subst, subst₂, Bool, true, false, Text, if◌then◌else◌,
}
use v9_worker.Errors.{WorkerErrorKind}
use v9_worker.Exec.{
  Outcome, ok, err, panic, out_of_fuel, Exec, give, or_raise, pure, raise, continue, ◌>>=◌, Attempt,
  done, failed, from_attempt, attempt,
}

-- The two ways to stop with neither a value nor an error.
pub data Stop : Type 0 where
  panicked exhausted : Stop

-- What holds where a method stops so; a value or an error may be anywhere.
abbrev pub Stops : {S A : Type 0} → (Stop → S → Type 0) → Outcome A → S → Type 0
Stops X panic t = X panicked t
Stops X out_of_fuel t = X exhausted t
Stops X _ t = Unit {0}

pub record RunsTo {S A : Type 0} (X : Stop → S → Type 0) (m : Exec S A) (s : S) (Q : A → S → Type 0)
    : Type 0 where
  pub ends : Stops X (m s).0 (m s).1
  pub post : (a : A) → (m s).0 ≡ ok a → Q a (m s).1

-- A panic is allowed.
abbrev pub Ending : {S : Type 0} → Stop → S → Type 0
Ending panicked t = Unit {0}
Ending exhausted t = ⊥

-- The method ends.
abbrev pub Runs : {S A : Type 0} → Exec S A → S → (A → S → Type 0) → Type 0
Runs m s Q = RunsTo Ending m s Q

-- The method ends with a value or an error.
abbrev pub Completes : {S A : Type 0} → Exec S A → S → (A → S → Type 0) → Type 0
Completes m s Q = RunsTo (λ _ _. ⊥) m s Q

module _ {S A : Type 0} {X : Stop → S → Type 0} where
  pub Runs-pure : (a : A) (s : S) (Q : A → S → Type 0) → Q a s → RunsTo X (pure a) s Q
  Runs-pure a s Q h = record { ends = tt; post = λ b e. subst (λ o. Given o) e h }
    where
      Given : Outcome A → Type 0
      Given (ok b) = Q b s
      Given _ = Unit

  -- A method that computes to a value.
  pub Runs-ok :
      (m : Exec S A) (s : S) (Q : A → S → Type 0) (a : A) (t : S)
      → m s ≡ (ok a, t)
      → Q a t
      → RunsTo X m s Q
  Runs-ok m s Q a t e h =
      let given : RunsTo X (λ _. (ok a, t)) s Q = given_pure in
      record {
        ends = subst (λ (r : Outcome A × S). Stops X r.0 r.1) (sym e) given.ends;
        post = subst (λ (r : Outcome A × S). (b : A) → r.0 ≡ ok b → Q b r.1) (sym e) given.post;
      }
    where
      given_pure : RunsTo X (λ _. (ok a, t)) s Q
      given_pure = record { ends = tt; post = (Runs-pure a t Q h).post }

  pub Runs-weaken :
      (m : Exec S A) (s : S) (P Q : A → S → Type 0)
      → ((a : A) (t : S) → P a t → Q a t)
      → RunsTo X m s P
      → RunsTo X m s Q
  Runs-weaken m s P Q h r = record { ends = r.ends; post = λ a e. h a _ (r.post a e) }

  pub Runs-raise : (k : WorkerErrorKind) (s : S) (Q : A → S → Type 0) → RunsTo X (raise k) s Q
  Runs-raise k s Q = record { ends = tt; post = λ a e. cc }

  pub Runs-give :
      (o : Outcome A) (s : S) (Q : A → S → Type 0)
      → Stops X o s
      → ((a : A) → o ≡ ok a → Q a s)
      → RunsTo X (give o) s Q
  Runs-give o s Q h k = record { ends = h; post = k }

  -- A library's result, with `?`.
  pub Runs-result :
      (kind : Text → WorkerErrorKind) (r : Attempt A) (s : S)
      → RunsTo X (give (from_attempt kind r)) s (λ _ _. Unit)
  Runs-result kind (done a) s = record { ends = tt; post = λ _ _. tt }
  Runs-result kind (failed message) s = record { ends = tt; post = λ _ _. tt }

  pub Runs-or_raise :
      (o : Option A) (kind : WorkerErrorKind) (s : S) → RunsTo X (or_raise o kind) s (λ _ _. Unit)
  Runs-or_raise none kind s = record { ends = tt; post = λ _ _. tt }
  Runs-or_raise (some a) kind s = record { ends = tt; post = λ _ _. tt }

  pub Runs-if :
      (b : Bool) (m n : Exec S A) (s : S) (Q : A → S → Type 0)
      → (b ≡ true → RunsTo X m s Q)
      → (b ≡ false → RunsTo X n s Q)
      → RunsTo X (if b then m else n) s Q
  Runs-if true m n s Q h k = h refl
  Runs-if false m n s Q h k = k refl

  pub Runs-attempt :
      (kind : Text → WorkerErrorKind) (call : S → Attempt A × S) (s : S) (Q : A → S → Type 0)
      → ((a : A) → (call s).0 ≡ done a → Q a (call s).1)
      → RunsTo X (attempt kind call) s Q
  unfolding attempt
  Runs-attempt kind call s Q h = record {
    ends = ends_of (call s).0 (call s).1;
    post = post_of (call s).0 (call s).1 h;
  }
    where
      ends_of : (r : Attempt A) (t : S) → Stops X (from_attempt kind r) t
      ends_of (done a) t = tt
      ends_of (failed message) t = tt

      post_of :
          (r : Attempt A) (t : S)
          → ((a : A) → r ≡ done a → Q a t)
          → (a : A) → from_attempt kind r ≡ ok a
          → Q a t
      post_of (done b) t h a e = h a (cc)
      post_of (failed message) t h a e = cc

module _ {S A B : Type 0} {X : Stop → S → Type 0} where
  pub Runs-bind :
      (m : Exec S A) (f : A → Exec S B) (s : S) (R : A → S → Type 0) (Q : B → S → Type 0)
      → RunsTo X m s R
      → ((a : A) (t : S) → R a t → RunsTo X (f a) t Q)
      → RunsTo X (m >>= f) s Q
  unfolding ◌>>=◌
  Runs-bind m f s R Q h k = record {
    ends = ends_of (m s).0 (m s).1 h.ends h.post;
    post = post_of (m s).0 (m s).1 h.post;
  }
    where
      ends_of :
          (o : Outcome A) (t : S)
          → Stops X o t
          → ((a : A) → o ≡ ok a → R a t)
          → Stops X (continue o f t).0 (continue o f t).1
      ends_of (ok a) t e p = (k a t (p a refl)).ends
      ends_of (err kind) t e p = tt
      ends_of panic t e p = e
      ends_of out_of_fuel t e p = e

      post_of :
          (o : Outcome A) (t : S)
          → ((a : A) → o ≡ ok a → R a t)
          → (b : B) → (continue o f t).0 ≡ ok b
          → Q b (continue o f t).1
      post_of (ok a) t p b e = (k a t (p a refl)).post b e
      post_of (err kind) t p b e = cc
      post_of panic t p b e = cc
      post_of out_of_fuel t p b e = cc

  -- A first action that computes to a value.
  pub Runs-run :
      (m : Exec S A) (f : A → Exec S B) (s : S) (Q : B → S → Type 0) (a : A) (t : S)
      → m s ≡ (ok a, t)
      → RunsTo X (f a) t Q
      → RunsTo X (m >>= f) s Q
  Runs-run m f s Q a t e h =
      Runs-bind m f s (λ b u. (b ≡ a) × (u ≡ t)) Q (Runs-ok m s _ a t e (refl, refl))
        λ b u same. subst₂ (λ b u. RunsTo X (f b) u Q) (sym same.0) (sym same.1) h

-- On another state, by a weaker way to stop.
pub Stops-map :
    {S T A : Type 0} (X : Stop → S → Type 0) (Y : Stop → T → Type 0) (o : Outcome A) (s : S) (t : T)
    → ((k : Stop) → X k s → Y k t)
    → Stops X o s
    → Stops Y o t
Stops-map X Y (ok a) s t h e = tt
Stops-map X Y (err k) s t h e = tt
Stops-map X Y panic s t h e = h panicked e
Stops-map X Y out_of_fuel s t h e = h exhausted e
