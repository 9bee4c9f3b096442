-- ===== src/Funding/Action/Leads.antt =====
-- Triples of actions, for where an action needs more than an invariant or gives more.
use builder_code_bot.Prelude.{◌≡◌, refl, Option, none, some, Bool, true, false, if◌then◌else◌}
use builder_code_bot.Funding.Action.{
  Failure, Result, ok, err, panic, of_error, Action, pure, raise, crash, gets, lift, on_error,
  capture, modify, handle_result, continue, ◌>>=◌,
}
use builder_code_bot.Funding.Action.Keeps.{Keeps}

-- From `P`, `m` returns in `Q`, or fails in `R`.
abbrev pub Ends : {S A : Type 0} → (S → Type 0) → (S → Type 0) → Result A × S → Type 0
Ends Q R (ok a, s) = Q s
Ends Q R (err e, s) = R s
Ends Q R (panic, s) = R s

pub record Leads {S A : Type 0} (P : S → Type 0) (m : Action S A) (Q R : S → Type 0) : Type 0 where
  pub at : (s : S) → P s → Ends Q R (m s)

module _ {S A : Type 0} {Q R : S → Type 0} where
  caught :
      (r : Result A) (h : Failure → Action S A) (s : S)
      → ((s : S) → R s → Ends {A = A} Q R (panic, s))
      → ((e : Failure) → Leads R (h e) Q R)
      → Ends Q R (r, s)
      → Ends Q R (handle_result r h s)
  unfolding handle_result
  caught (ok a) h s p k q = q
  caught (err e) h s p k q = (k e).at s q
  caught panic h s p k q = q

module _ {S A : Type 0} {P Q R : S → Type 0} where
  pub Leads-on_error :
      (m : Action S A) (h : Failure → Action S A)
      → Leads P m Q R
      → ((e : Failure) → Leads R (h e) Q R)
      → Leads P (on_error m h) Q R
  unfolding on_error
  Leads-on_error m h km kh = record {
    at = λ s p. let (r, s') = m s in caught r h s' (λ _ r. r) kh (km.at s p);
  }

  pub Leads-raise : (e : Failure) → ((s : S) → P s → R s) → Leads P (raise {A = A} e) Q R
  unfolding ◌>>=◌
  Leads-raise e k = record { at = k }

module _ {S A B : Type 0} {Q T R : S → Type 0} where
  led :
      (r : Result A) (f : A → Action S B) (s : S)
      → ((a : A) → Leads Q (f a) T R)
      → Ends Q R (r, s)
      → Ends T R (continue r f s)
  led (ok a) f s k q = (k a).at s q
  led (err e) f s k q = q
  led panic f s k q = q

module _ {S A B : Type 0} {P Q T R : S → Type 0} where
  pub Leads-bind :
      (m : Action S A) (f : A → Action S B)
      → Leads P m Q R
      → ((a : A) → Leads Q (f a) T R)
      → Leads P (m >>= f) T R
  unfolding ◌>>=◌
  Leads-bind m f km kf = record { at = λ s p. let (r, s') = m s in led r f s' kf (km.at s p) }

module _ {S : Type 0} {P Q R : S → Type 0} where
  pub Leads-modify : (f : S → S) → ((s : S) → P s → Q (f s)) → Leads P (modify f) Q R
  unfolding ◌>>=◌
  Leads-modify f k = record { at = k }

module _ {S A B : Type 0} {P T R : S → Type 0} where
  -- What was read is the state's.
  pub Leads-gets :
      (f : S → A) (k : A → Action S B)
      → ((a : A) → Leads (λ s. P s × (f s ≡ a)) (k a) T R)
      → Leads P (gets f >>= k) T R
  unfolding ◌>>=◌
  Leads-gets f k h = record { at = λ s p. (h (f s)).at s (p, refl) }

module _ {S A : Type 0} (R : S → Type 0) where
  everywhere : (r : Result A) (s : S) → R s → Ends R R (r, s)
  everywhere (ok a) s p = p
  everywhere (err e) s p = p
  everywhere panic s p = p

  kept_on : (P : S → Type 0) (r : Result A) (s : S) → (P s → R s) → P s → Ends P R (r, s)
  kept_on P (ok a) s f p = p
  kept_on P (err e) s f p = f p
  kept_on P panic s f p = f p

  anywhere : (r : Result A) (s : S) → Ends R R (r, s) → R s
  anywhere (ok a) s p = p
  anywhere (err e) s p = p
  anywhere panic s p = p

  mapped :
      (Q Q' : S → Type 0) (r : Result A) (s : S) → (Q s → Q' s) → Ends Q R (r, s) → Ends Q' R (r, s)
  mapped Q Q' (ok a) s f q = f q
  mapped Q Q' (err e) s f q = q
  mapped Q Q' panic s f q = q

module _ {S A : Type 0} {R : S → Type 0} where
  pub Leads-kept :
      {P : S → Type 0} (m : Action S A) → ((s : S) → P s → R s) → Keeps P m → Leads P m P R
  Leads-kept {P = P} m weaken k = record {
    at = λ s p. kept_on R P (m s).0 (m s).1 (weaken (m s).1) (k.at s p);
  }

  pub Leads-state : {P : S → Type 0} (m : Action S A) → Leads P m R R → (s : S) → P s → R (m s).1
  Leads-state m k s p = anywhere R (m s).0 (m s).1 (k.at s p)

  pub Keeps-of_Leads : (m : Action S A) → Leads R m R R → Keeps R m
  Keeps-of_Leads m k = record { at = λ s p. anywhere R (m s).0 (m s).1 (k.at s p) }

  pub Leads-of_state :
      {P : S → Type 0} (m : Action S A) → ((s : S) → P s → R (m s).1) → Leads P m R R
  Leads-of_state m k = record { at = λ s p. everywhere R (m s).0 (m s).1 (k s p) }

  pub Leads-of_Keeps :
      {P : S → Type 0} (m : Action S A) → ((s : S) → P s → R s) → Keeps R m → Leads P m R R
  Leads-of_Keeps m weaken k = Leads-of_state m (λ s p. k.at s (weaken s p))

module _ {S A : Type 0} {P Q Q' R : S → Type 0} where
  pub Leads-map : (m : Action S A) → ((s : S) → Q s → Q' s) → Leads P m Q R → Leads P m Q' R
  Leads-map m f k = record { at = λ s p. mapped R Q Q' (m s).0 (m s).1 (f (m s).1) (k.at s p) }

module _ {S A : Type 0} {P P' Q R : S → Type 0} where
  pub Leads-weaken : (m : Action S A) → ((s : S) → P s → P' s) → Leads P' m Q R → Leads P m Q R
  Leads-weaken m weaken k = record { at = λ s p. k.at s (weaken s p) }

module _ {S A : Type 0} {P Q R : S → Type 0} where
  pub Leads-crash : ((s : S) → P s → R s) → Leads P (crash {A = A}) Q R
  unfolding ◌>>=◌
  Leads-crash k = record { at = k }

  pub Leads-if :
      (b : Bool) (m n : Action S A)
      → Leads P m Q R
      → Leads P n Q R
      → Leads P (if b then m else n) Q R
  Leads-if true m n km kn = km
  Leads-if false m n km kn = kn

  pub Leads-pure : (a : A) → ((s : S) → P s → Q s) → Leads P (pure a) Q R
  unfolding ◌>>=◌
  Leads-pure a k = record { at = k }

module _ {S A : Type 0} {P R : S → Type 0} where
  -- A captured call cannot fail.
  pub Leads-capture : {Q : S → Type 0} (m : Action S A) → Leads P m R R → Leads P (capture m) R Q
  unfolding ◌>>=◌
  Leads-capture m k = record { at = λ s p. anywhere R (m s).0 (m s).1 (k.at s p) }

module _ {S A B : Type 0} {P Q R : S → Type 0} where
  pub Leads-option :
      (o : Option A) (n : Action S B) (f : A → Action S B)
      → Leads P n Q R
      → ((a : A) → Leads P (f a) Q R)
      → Leads P (elim o [ none ↦ n | some a ↦ f a ]) Q R
  Leads-option none n f kn kf = kn
  Leads-option (some a) n f kn kf = kf a

module _ {S : Type 0} {P Q R : S → Type 0} where
  pub Leads-failing : (e : Failure) → ((s : S) → P s → R s) → Leads P (lift (of_error (some e))) Q R
  unfolding ◌>>=◌
  Leads-failing e k = record { at = k }

  pub Leads-check :
      (e : Option Failure)
      → ((s : S) → P s → Q s)
      → ((s : S) → P s → R s)
      → Leads P (lift (of_error e)) Q R
  unfolding ◌>>=◌
  Leads-check none k f = record { at = k }
  Leads-check (some x) k f = record { at = f }

  -- An error of a check goes to its handler; without one the check has passed.
  pub Leads-guard :
      (e : Option Failure) (failed : Failure → Action S (Unit {0}))
      → ((s : S) → e ≡ none → P s → Q s)
      → ((x : Failure) → Leads P (failed x) Q R)
      → Leads P (on_error (lift (of_error e)) failed) Q R
  unfolding on_error ◌>>=◌ handle_result
  Leads-guard none failed k f = record { at = λ s p. k s refl p }
  Leads-guard (some x) failed k f = record { at = λ s p. (f x).at s p }
