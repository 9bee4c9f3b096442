-- ===== src/Funding/Consolidation/Costs/Calls.antt =====
-- The requests that captured results, optional values, deferred calls and a request itself cost.
use builder_code_bot.Prelude.{◌≤◌, ◌≡◌, refl, Bool, String, ℕ, Option, none, some, arith}
use builder_code_bot.Funding.Model.{PreparedAction, Token}
use builder_code_bot.Funding.Action.{
  Failure, Result, ok, err, panic, Action, on_result, on_option, deferring, run_deferred, capture,
  ◌>>=◌,
}
use builder_code_bot.Funding.Env.{History, Env}
use builder_code_bot.Funding.Session.{Session, submit, prepare_claim, prepare_spot_send}
use builder_code_bot.Funding.Safety.Quiet.{Adds, none_added, IsQuiet}
use builder_code_bot.Funding.Consolidation.Costs.{
  same, more, Grows-trans, Grows-of_Adds, requests-Adds, cost, Any, Costs, any,
}

module _ {A B C : Type 0} {p : PreparedAction → Bool} where
  pub Costs-on_result :
      {Post : C → Type 0} (n : ℕ) (r : Result B) (f : B → Action (Session A) C)
      (g : Failure → Action (Session A) C)
      → ((b : B) → r ≡ ok b → Costs p n Post (f b))
      → ((e : Failure) → Costs p n Post (g e))
      → Costs p n Post (on_result r f g)
  unfolding on_result
  Costs-on_result n (ok b) f g cf cg = record {
    grows = (cf b refl).grows;
    bounded = (cf b refl).bounded;
    gives = (cf b refl).gives;
  }
  Costs-on_result n (err e) f g cf cg = record {
    grows = (cg e).grows;
    bounded = (cg e).bounded;
    gives = (cg e).gives;
  }
  Costs-on_result n panic f g cf cg = record {
    grows = λ s. same;
    bounded = λ s. omega arith;
    gives = λ s. tt;
  }

  pub Costs-on_option :
      {Post : C → Type 0} (n : ℕ) (o : Option B) (m : Action (Session A) C)
      (f : B → Action (Session A) C)
      → Costs p n Post m
      → ((b : B) → Costs p n Post (f b))
      → Costs p n Post (on_option o m f)
  unfolding on_option
  Costs-on_option n none m f cm cf = record {
    grows = cm.grows;
    bounded = cm.bounded;
    gives = cm.gives;
  }
  Costs-on_option n (some b) m f cm cf = record {
    grows = (cf b).grows;
    bounded = (cf b).bounded;
    gives = (cf b).gives;
  }

deferred-Adds :
    {A B : Type 0} (r : Result B) (d : Option Failure → Action (Session A) (Unit {0}))
    (s : Session A)
    → ((e : Option Failure) → IsQuiet (d e))
    → Adds s.history (run_deferred r d s).1.history
deferred-Adds (ok b) d s k = (k none).at s
deferred-Adds (err e) d s k = (k (some e)).at s
deferred-Adds panic d s k = none_added

module _ {A B : Type 0} {p : PreparedAction → Bool} where
  pub Costs-deferring :
      (n : ℕ) (m : Action (Session A) B) (d : Option Failure → Action (Session A) (Unit {0}))
      → Costs p n Any m
      → ((e : Option Failure) → IsQuiet (d e))
      → Costs p n Any (deferring m d)
  unfolding deferring
  Costs-deferring n m d c k = record {
    grows =
        λ s. let (r, s') = m s in Grows-trans (c.grows s) (Grows-of_Adds (deferred-Adds r d s' k));
    bounded = λ s.
        let (r, s') = m s in omega (arith, c.bounded s, requests-Adds p (deferred-Adds r d s' k));
    gives = λ s. any (deferring m d s).0;
  }

-- What is prepared costs at most `n`.
abbrev pub Prepared : (PreparedAction → Bool) → ℕ → Result PreparedAction → Type 0
Prepared p n r = (a : PreparedAction) → r ≡ ok a → cost p a ≤ n

module _ (E : Env) {p : PreparedAction → Bool} where
  pub Costs-submit : (a : PreparedAction) → Costs p (cost p a) Any (submit E a)
  unfolding submit
  Costs-submit a = record { grows = λ s. more _ same; bounded = λ s. omega arith; gives = λ s. tt }

  pub Costs-prepare_claim :
      (b : String) (nonce n : ℕ)
      → ((h : History (E.Decimal)) → Prepared p n (E.prepare_claim h b nonce))
      → Costs p 0 (Prepared p n) (capture (prepare_claim E b nonce))
  unfolding prepare_claim ◌>>=◌
  Costs-prepare_claim b nonce n k = record {
    grows = λ s. more _ same;
    bounded = λ s. omega arith;
    gives = λ s. k s.history;
  }

  pub Costs-prepare_spot_send :
      (b to : String) (token : Token) (amount : E.Decimal) (nonce n : ℕ)
      → ((h : History (E.Decimal)) → Prepared p n (E.prepare_spot_send h b to token amount nonce))
      → Costs p 0 (Prepared p n) (capture (prepare_spot_send E b to token amount nonce))
  unfolding prepare_spot_send ◌>>=◌
  Costs-prepare_spot_send b to token amount nonce n k = record {
    grows = λ s. more _ same;
    bounded = λ s. omega arith;
    gives = λ s. k s.history;
  }
