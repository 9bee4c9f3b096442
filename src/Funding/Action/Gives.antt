-- ===== src/Funding/Action/Gives.antt =====
-- What holds of the value that an action returns and of the state it returns in.
use builder_code_bot.Prelude.{Bool, true, false, if◌then◌else◌, ◌≡◌, refl}
use builder_code_bot.Funding.Action.{Result, ok, err, panic, Action, pure, crash, continue, ◌>>=◌}

abbrev pub Given : {S A : Type 0} → (A → S → Type 0) → Result A × S → Type 0
Given Post (ok a, s) = Post a s
Given Post (err e, s) = Unit {0}
Given Post (panic, s) = Unit {0}

pub record Gives {S A : Type 0} (P : S → Type 0) (m : Action S A) (Post : A → S → Type 0)
    : Type 0 where
  pub at : (s : S) → P s → Given Post (m s)

module _ {S A : Type 0} {P : S → Type 0} {Post : A → S → Type 0} where
  pub Gives-pure : (a : A) → ((s : S) → P s → Post a s) → Gives P (pure a) Post
  unfolding ◌>>=◌
  Gives-pure a k = record { at = k }

  pub Gives-crash : Gives P (crash {A = A}) Post
  unfolding ◌>>=◌
  Gives-crash = record { at = λ s p. tt }

  pub Gives-if :
      (b : Bool) (m n : Action S A)
      → (b ≡ true → Gives P m Post)
      → (b ≡ false → Gives P n Post)
      → Gives P (if b then m else n) Post
  Gives-if true m n km kn = km refl
  Gives-if false m n km kn = kn refl

module _ {S A B : Type 0} where
  followed :
      (Mid : A → S → Type 0) (Post : B → S → Type 0) (r : Result A) (f : A → Action S B) (s : S)
      → ((a : A) → Gives (Mid a) (f a) Post)
      → Given Mid (r, s)
      → Given Post (continue r f s)
  followed Mid Post (ok a) f s k p = (k a).at s p
  followed Mid Post (err e) f s k p = tt
  followed Mid Post panic f s k p = tt

  pub Gives-bind :
      {P : S → Type 0} {Mid : A → S → Type 0} {Post : B → S → Type 0} (m : Action S A)
      (f : A → Action S B)
      → Gives P m Mid
      → ((a : A) → Gives (Mid a) (f a) Post)
      → Gives P (m >>= f) Post
  unfolding ◌>>=◌
  Gives-bind {Mid = Mid} {Post = Post} m f g k = record {
    at = λ s p. let (r, s') = m s in followed Mid Post r f s' k (g.at s p);
  }
