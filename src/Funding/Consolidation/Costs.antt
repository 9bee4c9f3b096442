-- ===== src/Funding/Consolidation/Costs.antt =====
-- How many requests an action sends at most, with a rule for each way to build it.
pub mod Calls
use builder_code_bot.Prelude.{
  ℕ, ◌+◌, ◌≤◌, ◌≡◌, refl, Bool, true, false, Option, none, some, [], ◌∷◌, arith, if◌then◌else◌,
}
use builder_code_bot.Funding.Model.{PreparedAction}
use builder_code_bot.Funding.Action.{
  Failure, Result, ok, err, panic, Action, pure, gets, continue, on_result, on_option, deferring,
  run_deferred, ◌>>=◌,
}
use builder_code_bot.Funding.Env.{Effect, History, Env}
use builder_code_bot.Funding.Session.{Session, submit}
use builder_code_bot.Funding.Safety.Quiet.{Adds, none_added, added, IsQuiet, is_submission}

abbrev pub submissions : {A : Type 0} → History A → ℕ
submissions [] = 0
submissions (e ∷ h) = (if is_submission e then 1 else 0) + submissions h

-- The later history adds effects to the earlier one.
pub data Grows {A : Type 0} (h : History A) : History A → Type 0 where
  same : Grows h h
  more : (e : Effect A) {k : History A} → Grows h k → Grows h (e ∷ k)

pub Grows-trans : {A : Type 0} {h k l : History A} → Grows h k → Grows k l → Grows h l
Grows-trans p same = p
Grows-trans p (more e q) = more e (Grows-trans p q)

pub Grows-of_Adds : {A : Type 0} {h k : History A} → Adds h k → Grows h k
Grows-of_Adds none_added = same
Grows-of_Adds (added e q r) = more e (Grows-of_Adds r)

pub one :
    {A : Type 0} (e : Effect A) (h : History A)
    → is_submission e ≡ false
    → submissions (e ∷ h) ≡ submissions h
one e h q = rw q (omega arith)

pub submissions-Adds : {A : Type 0} {h k : History A} → Adds h k → submissions k ≡ submissions h
submissions-Adds none_added = refl
submissions-Adds {h = h} (added e {k = k} q r) = omega (arith, one e k q, submissions-Adds r)

-- What a request counts for, and the requests in a history that pass a test.
abbrev pub cost : (PreparedAction → Bool) → PreparedAction → ℕ
cost p a = if p a then 1 else 0

abbrev pub effect_cost : {A : Type 0} → (PreparedAction → Bool) → Effect A → ℕ
effect_cost p (Effect.submitted a r e) = cost p a
effect_cost p e = 0

abbrev pub requests : {A : Type 0} → (PreparedAction → Bool) → History A → ℕ
requests p [] = 0
requests p (e ∷ h) = effect_cost p e + requests p h

free :
    {A : Type 0} (p : PreparedAction → Bool) (e : Effect A)
    → is_submission e ≡ false
    → effect_cost p e ≡ 0
free p (Effect.submitted a r e) q = cc
free p e q = refl

pub requests-Adds :
    {A : Type 0} (p : PreparedAction → Bool) {h k : History A}
    → Adds h k
    → requests p k ≡ requests p h
requests-Adds p none_added = refl
requests-Adds p (added e q r) = omega (arith, free p e q, requests-Adds p r)

any_cost :
    {A : Type 0} (e : Effect A) → effect_cost (λ _. true) e ≡ (if is_submission e then 1 else 0)
any_cost (Effect.submitted a r e) = refl
any_cost e = refl

pub all_requests : {A : Type 0} (h : History A) → requests (λ _. true) h ≡ submissions h
all_requests [] = refl
all_requests (e ∷ h) = omega (arith, any_cost e, all_requests h)

abbrev pub Holds : {B : Type 0} → (B → Type 0) → Result B → Type 0
Holds Post (ok b) = Post b
Holds Post (err e) = Unit {0}
Holds Post panic = Unit {0}

abbrev pub Any : {B : Type 0} → B → Type 0
Any b = Unit {0}

-- The action sends at most `n` requests that pass the test, and the value that it returns satisfies `Post`.
pub record Costs {A B : Type 0} (p : PreparedAction → Bool) (n : ℕ) (Post : B → Type 0)
    (m : Action (Session A) B) : Type 0 where
  pub grows : (s : Session A) → Grows s.history (m s).1.history
  pub bounded : (s : Session A) → requests p (m s).1.history ≤ n + requests p s.history
  pub gives : (s : Session A) → Holds Post (m s).0

pub any : {B : Type 0} (r : Result B) → Holds Any r
any (ok b) = tt
any (err e) = tt
any panic = tt

widened :
    {B : Type 0} {Post Wide : B → Type 0}
    → ((b : B) → Post b → Wide b)
    → (r : Result B) → Holds Post r
    → Holds Wide r
widened f (ok b) p = f b p
widened f (err e) p = tt
widened f panic p = tt

module _ {A B : Type 0} {p : PreparedAction → Bool} where
  pub Costs-quiet : (m : Action (Session A) B) → IsQuiet m → Costs p 0 Any m
  Costs-quiet m q = record {
    grows = λ s. Grows-of_Adds (q.at s);
    bounded = λ s. omega (arith, requests-Adds p (q.at s));
    gives = λ s. any (m s).0;
  }

  pub Costs-le :
      {Post : B → Type 0} (n k : ℕ) (m : Action (Session A) B)
      → n ≤ k
      → Costs p n Post m
      → Costs p k Post m
  Costs-le n k m h c = record {
    grows = c.grows;
    bounded = λ s. omega (arith, c.bounded s);
    gives = c.gives;
  }

  pub Costs-skip : (n : ℕ) (b : B) → Costs p n Any (pure {S = Session A} b)
  unfolding ◌>>=◌
  Costs-skip n b = record { grows = λ s. same; bounded = λ s. omega arith; gives = λ s. tt }

  pub Costs-weaken :
      {Post Wide : B → Type 0} (n : ℕ) (m : Action (Session A) B)
      → ((b : B) → Post b → Wide b)
      → Costs p n Post m
      → Costs p n Wide m
  Costs-weaken n m f c = record {
    grows = c.grows;
    bounded = c.bounded;
    gives = λ s. widened f (m s).0 (c.gives s);
  }

  pub Costs-pure :
      {Post : B → Type 0} (n : ℕ) (b : B) → Post b → Costs p n Post (pure {S = Session A} b)
  unfolding ◌>>=◌
  Costs-pure n b p = record { grows = λ s. same; bounded = λ s. omega arith; gives = λ s. p }

  pub Costs-gets :
      {Post : B → Type 0} (f : Session A → B)
      → ((s : Session A) → Post (f s))
      → Costs p 0 Post (gets f)
  unfolding gets
  Costs-gets f p = record { grows = λ s. same; bounded = λ s. omega arith; gives = p }

  pub Costs-if :
      {Post : B → Type 0} (n : ℕ) (b : Bool) (m k : Action (Session A) B)
      → (b ≡ true → Costs p n Post m)
      → (b ≡ false → Costs p n Post k)
      → Costs p n Post (if b then m else k)
  Costs-if n true m k cm ck = cm refl
  Costs-if n false m k cm ck = ck refl

module _ {A B C : Type 0} {p : PreparedAction → Bool} where
  grown :
      {Mid : B → Type 0} {Post : C → Type 0} (n : ℕ) (r : Result B) (f : B → Action (Session A) C)
      (s : Session A)
      → ((b : B) → Mid b → Costs p n Post (f b))
      → Holds Mid r
      → Grows s.history (continue r f s).1.history
  grown n (ok b) f s k p = (k b p).grows s
  grown n (err e) f s k p = same
  grown n panic f s k p = same

  spent :
      {Mid : B → Type 0} {Post : C → Type 0} (n : ℕ) (r : Result B) (f : B → Action (Session A) C)
      (s : Session A)
      → ((b : B) → Mid b → Costs p n Post (f b))
      → Holds Mid r
      → requests p (continue r f s).1.history ≤ n + requests p s.history
  spent n (ok b) f s k p = (k b p).bounded s
  spent n (err e) f s k p = omega arith
  spent n panic f s k p = omega arith

  given :
      {Mid : B → Type 0} {Post : C → Type 0} (n : ℕ) (r : Result B) (f : B → Action (Session A) C)
      (s : Session A)
      → ((b : B) → Mid b → Costs p n Post (f b))
      → Holds Mid r
      → Holds Post (continue r f s).0
  given n (ok b) f s k p = (k b p).gives s
  given n (err e) f s k p = tt
  given n panic f s k p = tt

  pub Costs-bind :
      {Mid : B → Type 0} {Post : C → Type 0} (n k : ℕ) (m : Action (Session A) B)
      (f : B → Action (Session A) C)
      → Costs p n Mid m
      → ((b : B) → Mid b → Costs p k Post (f b))
      → Costs p (n + k) Post (m >>= f)
  unfolding ◌>>=◌
  Costs-bind n k m f c d = record {
    grows = λ s. let (r, s') = m s in Grows-trans (c.grows s) (grown k r f s' d (c.gives s));
    bounded = λ s. let (r, s') = m s in omega (arith, c.bounded s, spent k r f s' d (c.gives s));
    gives = λ s. let (r, s') = m s in given k r f s' d (c.gives s);
  }

  pub Costs-then :
      {Mid : B → Type 0} {Post : C → Type 0} (n : ℕ) (m : Action (Session A) B)
      (f : B → Action (Session A) C)
      → Costs p 0 Mid m
      → ((b : B) → Mid b → Costs p n Post (f b))
      → Costs p n Post (m >>= f)
  Costs-then n m f c d = Costs-le (0 + n) n _ (omega arith) (Costs-bind 0 n m f c d)

  -- A part that sends nothing, before or behind the one that may.
  pub Costs-after :
      {Post : C → Type 0} (n : ℕ) (m : Action (Session A) B) (f : B → Action (Session A) C)
      → IsQuiet m
      → ((b : B) → Costs p n Post (f b))
      → Costs p n Post (m >>= f)
  Costs-after n m f q d = Costs-then n m f (Costs-quiet m q) λ b _. d b

  pub Costs-before :
      {Mid : B → Type 0} (n : ℕ) (m : Action (Session A) B) (f : B → Action (Session A) C)
      → Costs p n Mid m
      → ((b : B) → IsQuiet (f b))
      → Costs p n Any (m >>= f)
  Costs-before n m f c q =
      Costs-le (n + 0) n _ (omega arith) (Costs-bind n 0 m f c λ b _. Costs-quiet (f b) (q b))
