-- ===== src/Funding/Action/Same.antt =====
-- Two actions that do the same: from every state, or from the states of a predicate.
use builder_code_bot.Prelude.{
  ◌≡◌, refl, Bool, true, false, Option, none, some, List, [], ◌∷◌, if◌then◌else◌,
}
use builder_code_bot.Funding.Action.{Result, ok, err, panic, Action, continue, ◌>>=◌}
use builder_code_bot.Funding.Action.Keeps.{Keeps}
use builder_code_bot.Funding.Action.Leads.{Ends, Leads}

pub record Same {S A : Type 0} (P : S → Type 0) (m n : Action S A) : Type 0 where
  pub at : (s : S) → P s → m s ≡ n s

abbrev pub Any : {S : Type 0} → S → Type 0
Any s = Unit {0}

module _ {S A : Type 0} where
  pub Same-refl : {P : S → Type 0} (m : Action S A) → Same P m m
  Same-refl m = record { at = λ s p. refl }

  pub Same-weaken : {P : S → Type 0} (m n : Action S A) → Same Any m n → Same P m n
  Same-weaken m n k = record { at = λ s p. k.at s tt }

  pub Same-if :
      {P : S → Type 0} (b : Bool) (m m' n n' : Action S A)
      → Same P m m'
      → Same P n n'
      → Same P (if b then m else n) (if b then m' else n')
  Same-if true m m' n n' k l = k
  Same-if false m m' n n' k l = l

module _ {S A : Type 0} where
  any : (r : Result A) (s : S) → Ends (Any {S = S}) Any (r, s)
  any (ok a) s = tt
  any (err e) s = tt
  any panic s = tt

  kept_on : (P : S → Type 0) (r : Result A) (s : S) → P s → Ends P Any (r, s)
  kept_on P (ok a) s p = p
  kept_on P (err e) s p = tt
  kept_on P panic s p = tt

module _ {S A B : Type 0} where
  followed :
      {Q : S → Type 0} (r : Result A) (f g : A → Action S B) (s : S)
      → ((a : A) → Same Q (f a) (g a))
      → Ends Q Any (r, s)
      → continue r f s ≡ continue r g s
  followed (ok a) f g s k q = (k a).at s q
  followed (err e) f g s k q = refl
  followed panic f g s k q = refl

  pub Same-bind :
      {P Q : S → Type 0} (m : Action S A) (f g : A → Action S B)
      → Leads P m Q Any
      → ((a : A) → Same Q (f a) (g a))
      → Same P (m >>= f) (m >>= g)
  unfolding ◌>>=◌
  Same-bind m f g l k = record { at = λ s p. let (r, s') = m s in followed r f g s' k (l.at s p) }

  pub Same-then :
      (m : Action S A) (f g : A → Action S B)
      → ((a : A) → Same Any (f a) (g a))
      → Same Any (m >>= f) (m >>= g)
  Same-then m f g k = Same-bind m f g (record { at = λ s p. any (m s).0 (m s).1 }) k

  pub Same-option :
      {P : S → Type 0} (o : Option A) (n n' : Action S B) (f f' : A → Action S B)
      → Same P n n'
      → ((a : A) → Same P (f a) (f' a))
      → Same P (elim o [ none ↦ n | some a ↦ f a ]) (elim o [ none ↦ n' | some a ↦ f' a ])
  Same-option none n n' f f' kn kf = kn
  Same-option (some a) n n' f f' kn kf = kf a

  pub Same-list :
      {P : S → Type 0} (l : List A) (n n' : Action S B) (f f' : A → List A → Action S B)
      → Same P n n'
      → ((a : A) (t : List A) → Same P (f a t) (f' a t))
      → Same P (elim l [ [] ↦ n | a ∷ t ↦ f a t ]) (elim l [ [] ↦ n' | a ∷ t ↦ f' a t ])
  Same-list [] n n' f f' kn kf = kn
  Same-list (a ∷ t) n n' f f' kn kf = kf a t

  -- What keeps the predicate can be followed by what differs outside it.
  pub Same-Keeps :
      {P : S → Type 0} (m : Action S A) (f g : A → Action S B)
      → Keeps P m
      → ((a : A) → Same P (f a) (g a))
      → Same P (m >>= f) (m >>= g)
  Same-Keeps {P = P} m f g h k =
      Same-bind m f g (record { at = λ s p. kept_on P (m s).0 (m s).1 (h.at s p) }) k

pub ruleset same_rules = (Same-refl, Same-if, Same-then)
