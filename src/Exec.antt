-- ===== src/Exec.antt =====
-- Methods that change a state and may fail: what was written before a failure stays written. The
-- outcome is that of a `Result<A, WorkerError>`, or a panic; a loop that a bound on its rounds cuts
-- off is `out_of_fuel`, which no run of the program is.
pub mod Runs
use v9_worker.Base.{if◌then◌else◌, Option, none, some, Text}
use v9_worker.Errors.{WorkerErrorKind}

pub data Outcome {ℓ} (A : Type ℓ) : Type ℓ where
  ok : A → Outcome A
  err : WorkerErrorKind → Outcome A
  panic : Outcome A
  out_of_fuel : Outcome A

abbrev pub Exec {ℓ} : Type ℓ → Type ℓ → Type ℓ
Exec S A = S → Outcome A × S

module _ {ℓ} {S A : Type ℓ} where
  abbrev pub pure : A → Exec S A
  pure a s = (ok a, s)

  abbrev pub raise : WorkerErrorKind → Exec S A
  raise e s = (err e, s)

  abbrev pub give : Outcome A → Exec S A
  give o s = (o, s)

  abbrev pub gets : (S → A) → Exec S A
  gets f s = (ok (f s), s)

module _ {ℓ} {S A B : Type ℓ} where
  abbrev pub continue : Outcome A → (A → Exec S B) → Exec S B
  continue (ok a) f s = f a s
  continue (err e) f s = (err e, s)
  continue panic f s = (panic, s)
  continue out_of_fuel f s = (out_of_fuel, s)

abbrev pub modify : {S : Type 0} → (S → S) → Exec S Unit
modify f s = (ok tt, f s)

-- A panic, if there is no value to unwrap.
abbrev pub unwrap : {S A : Type 0} → Option A → Exec S A
unwrap none s = (panic, s)
unwrap (some a) s = (ok a, s)

-- `ok_or`, with `?`
abbrev pub or_raise : {S A : Type 0} → Option A → WorkerErrorKind → Exec S A
or_raise none e s = (err e, s)
or_raise (some a) e s = (ok a, s)

-- An action on a part of the state.
abbrev pub zoom : {S T A : Type 0} → (S → T) → (T → S → S) → Exec T A → Exec S A
zoom get put m s = let (o, t) = m (get s) in (o, put t s)

-- The result of a call into another library: a value, or the message of its error.
pub data Attempt (A : Type 0) : Type 0 where
  done : A → Attempt A
  failed : (message : Text) → Attempt A

abbrev pub from_attempt : {A : Type 0} → (Text → WorkerErrorKind) → Attempt A → Outcome A
from_attempt kind (done a) = ok a
from_attempt kind (failed message) = err (kind message)

-- `call()?`, with the `From` that wraps the library's error.
unfoldable pub attempt : {S A : Type 0} → (Text → WorkerErrorKind) → (S → Attempt A × S) → Exec S A
attempt kind call s = let (r, s') = call s in (from_attempt kind r, s')

infixl 5 ◌>>=◌ ◌>>◌
-- Opening this opens `attempt` too.
unfoldable pub ◌>>=◌ {ℓ} : {S A B : Type ℓ} → Exec S A → (A → Exec S B) → Exec S B
unfolding attempt
◌>>=◌ m f s = let (o, s') = m s in continue o f s'

abbrev pub ◌>>◌ {ℓ} : {S A B : Type ℓ} → Exec S A → Exec S B → Exec S B
m >> k = m >>= λ _. k

-- A value or an error: no panic, and the bound on rounds was enough.
abbrev pub IsResult : {A : Type 0} → Outcome A → Type 0
IsResult (ok a) = Unit {0}
IsResult (err e) = Unit {0}
IsResult _ = ⊥

-- The bound on rounds was enough.
abbrev pub Ends : {A : Type 0} → Outcome A → Type 0
Ends out_of_fuel = ⊥
Ends _ = Unit {0}

-- A call into another library has no loop of ours.
pub Ends-from_attempt :
    {A : Type 0} (kind : Text → WorkerErrorKind) (r : Attempt A) → Ends (from_attempt kind r)
Ends-from_attempt kind (done a) = tt
Ends-from_attempt kind (failed message) = tt
