-- ===== src/Funding/Action/Keeps.antt =====
-- Invariants of actions, with one rule for each way to build an action.
use builder_code_bot.Prelude.{Option, none, some, Bool, true, false, if◌then◌else◌}
use builder_code_bot.Funding.Action.{
  Failure, Result, ok, err, panic, Action, pure, raise, crash, gets, lift, on_error, capture,
  modify, when, handle_result, continue, on_result, on_option, deferring, run_deferred,
  unless_canceled, ◌>>=◌,
}

-- `m` keeps `P`, however it ends.
pub record Keeps {S A : Type 0} (P : S → Type 0) (m : Action S A) : Type 0 where
  pub at : (s : S) → P s → P (m s).1

module _ {S A : Type 0} {P : S → Type 0} where
  pub Keeps-pure : (a : A) → Keeps P (pure a)
  unfolding ◌>>=◌
  Keeps-pure a = record { at = λ s h. h }

  pub Keeps-raise : (e : Failure) → Keeps P (raise {A = A} e)
  unfolding ◌>>=◌
  Keeps-raise e = record { at = λ s h. h }

  pub Keeps-crash : Keeps P (crash {A = A})
  unfolding ◌>>=◌
  Keeps-crash = record { at = λ s h. h }

  pub Keeps-gets : (f : S → A) → Keeps P (gets f)
  unfolding ◌>>=◌
  Keeps-gets f = record { at = λ s h. h }

  pub Keeps-lift : (r : Result A) → Keeps P (lift r)
  unfolding ◌>>=◌
  Keeps-lift r = record { at = λ s h. h }

  pub Keeps-capture : (m : Action S A) → Keeps P m → Keeps P (capture m)
  unfolding ◌>>=◌
  Keeps-capture m k = record { at = k.at }

  pub Keeps-if :
      (b : Bool) (m n : Action S A) → Keeps P m → Keeps P n → Keeps P (if b then m else n)
  Keeps-if true m n km kn = km
  Keeps-if false m n km kn = kn

  handled :
      (r : Result A) (h : Failure → Action S A) (s : S)
      → ((e : Failure) → Keeps P (h e))
      → P s
      → P (handle_result r h s).1
  unfolding handle_result
  handled (ok a) h s k p = p
  handled (err e) h s k p = (k e).at s p
  handled panic h s k p = p

  pub Keeps-on_error :
      (m : Action S A) (h : Failure → Action S A)
      → Keeps P m
      → ((e : Failure) → Keeps P (h e))
      → Keeps P (on_error m h)
  unfolding on_error
  Keeps-on_error m h km kh = record {
    at = λ s p. let (r, s') = m s in handled r h s' kh (km.at s p);
  }

module _ {S A B : Type 0} {P : S → Type 0} where
  continued :
      (r : Result A) (f : A → Action S B) (s : S)
      → ((a : A) → Keeps P (f a))
      → P s
      → P (continue r f s).1
  continued (ok a) f s k p = (k a).at s p
  continued (err e) f s k p = p
  continued panic f s k p = p

  pub Keeps-bind :
      (m : Action S A) (f : A → Action S B)
      → Keeps P m
      → ((a : A) → Keeps P (f a))
      → Keeps P (m >>= f)
  unfolding ◌>>=◌
  Keeps-bind m f km kf = record { at = λ s p. let (r, s') = m s in continued r f s' kf (km.at s p) }

module _ {S A B : Type 0} {P : S → Type 0} where
  pub Keeps-on_result :
      (r : Result A) (f : A → Action S B) (g : Failure → Action S B)
      → ((a : A) → Keeps P (f a))
      → ((e : Failure) → Keeps P (g e))
      → Keeps P (on_result r f g)
  unfolding on_result
  Keeps-on_result (ok a) f g kf kg = record { at = λ s p. (kf a).at s p }
  Keeps-on_result (err e) f g kf kg = record { at = λ s p. (kg e).at s p }
  Keeps-on_result panic f g kf kg = record { at = λ s p. p }

  pub Keeps-on_option :
      (o : Option A) (m : Action S B) (f : A → Action S B)
      → Keeps P m
      → ((a : A) → Keeps P (f a))
      → Keeps P (on_option o m f)
  unfolding on_option
  Keeps-on_option none m f km kf = record { at = λ s p. km.at s p }
  Keeps-on_option (some a) m f km kf = record { at = λ s p. (kf a).at s p }

module _ {S A : Type 0} {P : S → Type 0} where
  deferred :
      (r : Result A) (d : Option Failure → Action S (Unit {0})) (s : S)
      → ((e : Option Failure) → Keeps P (d e))
      → P s
      → P (run_deferred r d s).1
  deferred (ok a) d s k p = (k none).at s p
  deferred (err e) d s k p = (k (some e)).at s p
  deferred panic d s k p = p

  pub Keeps-deferring :
      (m : Action S A) (d : Option Failure → Action S (Unit {0}))
      → Keeps P m
      → ((e : Option Failure) → Keeps P (d e))
      → Keeps P (deferring m d)
  unfolding deferring
  Keeps-deferring m d km kd = record {
    at = λ s p. let (r, s') = m s in deferred r d s' kd (km.at s p);
  }

module _ {S : Type 0} {P : S → Type 0} where
  pub Keeps-modify : (f : S → S) → ((s : S) → P s → P (f s)) → Keeps P (modify f)
  unfolding ◌>>=◌
  Keeps-modify f k = record { at = k }

  pub Keeps-when : (b : Bool) (m : Action S (Unit {0})) → Keeps P m → Keeps P (when b m)
  unfolding ◌>>=◌
  Keeps-when true m k = record { at = λ s p. k.at s p }
  Keeps-when false m k = record { at = λ s p. p }

module _ {S : Type 0} {P : S → Type 0} where
  pub Keeps-unless_canceled :
      (e : Option Failure) (m : Action S (Unit {0})) → Keeps P m → Keeps P (unless_canceled e m)
  unfolding unless_canceled
  Keeps-unless_canceled none m k = k
  Keeps-unless_canceled (some e) m k = Keeps-when _ m k

pub ruleset keeps_rules = (
  Keeps-pure, Keeps-raise, Keeps-crash, Keeps-gets, Keeps-lift, Keeps-capture, Keeps-if,
  Keeps-on_result, Keeps-on_option, Keeps-deferring, Keeps-unless_canceled, Keeps-on_error,
  Keeps-bind, Keeps-modify, Keeps-when,
)
