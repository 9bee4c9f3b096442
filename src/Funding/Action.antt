-- ===== src/Funding/Action.antt =====
-- Errors as the funding code distinguishes them, and a method that mutates its receiver, may fail
-- and may panic. What was written before a failure stays written.
pub mod Keeps
pub mod Leads
pub mod Same
pub mod Gives
use builder_code_bot.Prelude.{Bool, true, false, ◌||◌, Option, none, some, String, if◌then◌else◌}

-- `plain` is made by fmt.Errorf from the text, `wrapped` by fmt.Errorf with %w, and `fatal` is a
-- FatalError. `joined` is made by errors.Join. `canceled` is context.Canceled; `external` is an error of a dependency.
pub data Failure : Type 0 where
  plain : String → Failure
  external : String → Failure
  canceled : Failure
  wrapped : String → Failure → Failure
  fatal : Failure → Failure
  joined : Failure → Failure → Failure

-- IsFatal: errors.As finds a FatalError in the chain.
unfoldable pub is_fatal : Failure → Bool
is_fatal (Failure.fatal _) = true
is_fatal (Failure.wrapped _ e) = is_fatal e
is_fatal (Failure.joined e f) = is_fatal e || is_fatal f
is_fatal _ = false

-- errors.Is(err, context.Canceled)
unfoldable pub is_canceled : Failure → Bool
is_canceled Failure.canceled = true
is_canceled (Failure.wrapped _ e) = is_canceled e
is_canceled (Failure.fatal e) = is_canceled e
is_canceled (Failure.joined e f) = is_canceled e || is_canceled f
is_canceled _ = false

pub data Result (A : Type 0) : Type 0 where
  ok : A → Result A
  err : Failure → Result A
  panic : Result A

abbrev pub of_error : Option Failure → Result (Unit {0})
of_error none = ok tt
of_error (some e) = err e

abbrev pub Action : Type 0 → Type 0 → Type 0
Action S A = S → Result A × S

module _ {S A : Type 0} where
  pub pure : A → Action S A
  pure a s = (ok a, s)

  pub raise : Failure → Action S A
  raise e s = (err e, s)

  pub crash : Action S A
  crash s = (panic, s)

  unfoldable pub gets : (S → A) → Action S A
  gets f s = (ok (f s), s)

  pub lift : Result A → Action S A
  lift r s = (r, s)

  -- `if err != nil { … }` after the call `m`
  unfoldable pub handle_result : Result A → (Failure → Action S A) → S → Result A × S
  handle_result (ok a) h s = (ok a, s)
  handle_result (err e) h s = h e s
  handle_result panic h s = (panic, s)

  unfoldable pub on_error : Action S A → (Failure → Action S A) → Action S A
  unfolding handle_result
  on_error m h s = let (r, s') = m s in handle_result r h s'

-- the value and the error of a call, for a caller that looks at both
pub capture : {S A : Type 0} → Action S A → Action S (Result A)
capture m s = let (r, s') = m s in (ok r, s')

pub modify : {S : Type 0} → (S → S) → Action S (Unit {0})
modify f s = (ok tt, f s)

abbrev pub failure : {A : Type 0} → Result A → Option Failure
failure (err e) = some e
failure _ = none

-- What a deferred call leaves of the result; the program's deferred calls return no error.
abbrev pub after_deferred : {A : Type 0} → Result A → Result (Unit {0}) → Result A
after_deferred r panic = panic
after_deferred r _ = r

abbrev pub run_deferred :
    {S A : Type 0} → Result A → (Option Failure → Action S (Unit {0})) → Action S A
run_deferred panic d s = (panic, s)
run_deferred r d s = let (q, s') = d (failure r) s in (after_deferred r q, s')

-- A method with a deferred call, which is given the error that is returned. A panic ends the
-- program, and its deferred calls are left out.
unfoldable pub deferring :
    {S A : Type 0} → Action S A → (Option Failure → Action S (Unit {0})) → Action S A
deferring m d s = let (r, s') = m s in run_deferred r d s'

-- an `if` without an else branch
pub when : {S : Type 0} → Bool → Action S (Unit {0}) → Action S (Unit {0})
when true m s = m s
when false m s = (ok tt, s)

-- a deferred call that is left out where the task was canceled
unfoldable pub unless_canceled :
    {S : Type 0} → Option Failure → Action S (Unit {0}) → Action S (Unit {0})
unfolding is_canceled when
unless_canceled none m = m
unless_canceled (some e) m = when (if is_canceled e then false else true) m

-- What follows a captured result, and an optional value. A captured panic goes on.
module _ {S A B : Type 0} where
  unfoldable pub on_result : Result A → (A → Action S B) → (Failure → Action S B) → Action S B
  on_result (ok a) f g s = f a s
  on_result (err e) f g s = g e s
  on_result panic f g s = (panic, s)

  unfoldable pub on_option : Option A → Action S B → (A → Action S B) → Action S B
  on_option none m f s = m s
  on_option (some a) m f s = f a s

module _ {S A B : Type 0} where
  abbrev pub continue : Result A → (A → Action S B) → S → Result B × S
  continue (ok a) f s = f a s
  continue (err e) f s = (err e, s)
  continue panic f s = (panic, s)

  infixl 5 ◌>>=◌ ◌>>◌
  -- opening this opens the other ways to build an action too
  unfoldable pub ◌>>=◌ : Action S A → (A → Action S B) → Action S B
  unfolding pure raise crash gets lift on_error capture modify when on_result on_option
  ◌>>=◌ m f s = let (r, s') = m s in continue r f s'

  abbrev pub ◌>>◌ : Action S A → Action S B → Action S B
  m >> n = m >>= λ _. n
