-- ===== src/Funding/Consolidation/Ahead.antt =====
-- The daily consolidation sends nothing before its record is stored, and nothing twice a day:
-- internal/funding/daily_consolidation.go.
use builder_code_bot.Prelude.{
  ◌≡◌, refl, ◌⊎◌, inl, inr, sym, subst, Bool, true, false, Option, none, some, ◌∷◌, String, arith,
}
use builder_code_bot.Funding.Model.{PreparedAction, SubmitResult}
use builder_code_bot.Funding.Action.{
  Failure, Result, ok, err, panic, of_error, pure, raise, continue, on_option, handle_result,
  on_error, ◌>>=◌,
}
use builder_code_bot.Funding.Action.Keeps.{Keeps, keeps_rules, Keeps-bind}
use builder_code_bot.Funding.Action.Leads.{Ends, Leads}
use builder_code_bot.Funding.Env.{Effect, History, Env}
use builder_code_bot.Funding.Report.{DailyConsolidationStatus}
use builder_code_bot.Funding.Daily.{DailyConsolidation}
use builder_code_bot.Funding.Session.{
  Session, Task, check_context, now, save_daily, load_daily, happen,
}
use builder_code_bot.Funding.Safety.Quiet.{
  IsQuiet, IsClosed, Adds-keeps, is_submission, now-IsQuiet,
}
use builder_code_bot.Funding.Safety.Quiet.Calls.{call_rules, load_daily-IsQuiet}
use builder_code_bot.Funding.Consolidation.Costs.{Grows, same, more, one, submissions}
use builder_code_bot.Funding.Consolidation.Captured.{run_consolidation-Keeps, record_daily-IsQuiet}
use builder_code_bot.Funding.Consolidation.Daily.{
  record_daily, start_daily, consolidate_date, run_daily_consolidation,
}

-- The history since `start`; the index says whether the date's record of the captured claimables has
-- been stored since. A request is allowed once it has.
pub data IsAhead {A : Type 0} (date : String) (start : History A) : Bool → History A → Type 0 where
  begin : IsAhead date start false start
  other :
      (e : Effect A) {h : History A} {b : Bool}
      → is_submission e ≡ false
      → IsAhead date start b h
      → IsAhead date start b (e ∷ h)
  stored :
      (c : DailyConsolidation) {h : History A} {b : Bool}
      → c.utc_date ≡ date
      → c.status ≡ DailyConsolidationStatus.claimables_captured
      → IsAhead date start b h
      → IsAhead date start true (Effect.saved_daily c none ∷ h)
  sent :
      (p : PreparedAction) (r : SubmitResult) (e : Option Failure) {h : History A}
      → IsAhead date start true h
      → IsAhead date start true (Effect.submitted p r e ∷ h)

module _ {A : Type 0} (date : String) (start : History A) where
  any_effect :
      (e : Effect A) {h : History A} → IsAhead date start true h → IsAhead date start true (e ∷ h)
  any_effect (Effect.submitted p r x) a = sent p r x a
  any_effect e a = other _ refl a

  all_effects :
      (h k : History A) → Grows h k → IsAhead date start true h → IsAhead date start true k
  all_effects h _ same a = a
  all_effects h _ (more e {k = k} g) a = any_effect e (all_effects h k g a)

  -- Whatever the index.
  abbrev pub Ahead : History A → Type 0
  Ahead h = (b : Bool) × IsAhead date start b h

  Ahead-closed : IsClosed Ahead
  Ahead-closed = record { at = λ e h q (b, a). (b, other e q a) }

-- A record of the date's captured claimables has been stored.
pub data IsStored {A : Type 0} (date : String) : History A → Type 0 where
  here :
      (c : DailyConsolidation) (h : History A)
      → c.utc_date ≡ date
      → c.status ≡ DailyConsolidationStatus.claimables_captured
      → IsStored date (Effect.saved_daily c none ∷ h)
  later : (e : Effect A) {h : History A} → IsStored date h → IsStored date (e ∷ h)

module _ {A : Type 0} {date : String} where
  Grows-IsStored : {h k : History A} → Grows h k → IsStored date h → IsStored date k
  Grows-IsStored same i = i
  Grows-IsStored (more e g) i = later e (Grows-IsStored g i)

  IsAhead-IsStored : {start h : History A} → IsAhead date start true h → IsStored date h
  IsAhead-IsStored (other e q a) = later e (IsAhead-IsStored a)
  IsAhead-IsStored (stored c p q a) = here c _ p q
  IsAhead-IsStored (sent p r e a) = later _ (IsAhead-IsStored a)

  -- Without a record nothing was sent.
  IsAhead-submissions :
      {start h : History A} → IsAhead date start false h → submissions h ≡ submissions start
  IsAhead-submissions begin = refl
  IsAhead-submissions (other e {h = h} q a) = omega (arith, one e h q, IsAhead-submissions a)

module _ (E : Env) (date : String) (start : History (E.Decimal)) where
  open E use {Decimal}

  abbrev Before : Session Decimal → Type 0
  Before s = Ahead date start s.history

  abbrev Behind : Session Decimal → Type 0
  Behind s = IsAhead date start true s.history

  after_save :
      (c : DailyConsolidation) (e : Option Failure) (m : String) (s : Session Decimal)
      → c.utc_date ≡ date
      → c.status ≡ DailyConsolidationStatus.claimables_captured
      → Before s
      → Ends Behind Before (
          handle_result
            (of_error e)
            (λ x. raise (Failure.wrapped m x))
            (happen (Effect.saved_daily c e) s))
  unfolding handle_result ◌>>=◌
  after_save c none m s p q (b, a) = stored c p q a
  after_save c (some x) m s p q (b, a) = (b, other _ refl a)

  record_daily-Leads :
      (m : String)
      → Leads Before
          (record_daily E date DailyConsolidationStatus.claimables_captured 0 m)
          Behind
          Before
  unfolding record_daily save_daily on_error ◌>>=◌
  record_daily-Leads m = record { at = λ s a. after_save _ _ m s refl refl a }

  quiet-Before : {B : Type 0} (m : Task E B) → IsQuiet m → Keeps Before m
  quiet-Before m q = record { at = λ s p. Adds-keeps (Ahead-closed date start) (q.at s) p }

  start_daily-Keeps : Keeps Before (start_daily E date)
  unfolding start_daily
  start_daily-Keeps =
      Keeps-bind _ _
        (run_consolidation-Keeps E (Ahead date start) (IsAhead date start true)
          (Ahead-closed date start) (all_effects date start) (λ h a. (true, a)) _ _
          (record_daily-Leads _))
        λ _. quiet-Before _ (search (call_rules, now-IsQuiet, record_daily-IsQuiet))

  consolidate_date-Keeps : Keeps Before (consolidate_date E date)
  unfolding consolidate_date
  consolidate_date-Keeps =
      search (keeps_rules, call_rules, quiet-Before, load_daily-IsQuiet, start_daily-Keeps) depth 12

-- The check of the context at the start of the task changes nothing.
module _ (E : Env) (K : History (E.Decimal) → Type 0) where
  checked :
      (e : Option Failure) (m : Task E (Unit {0})) (s : Session (E.Decimal))
      → K s.history
      → K (m s).1.history
      → K (continue (of_error e) (λ _. m) s).1.history
  checked none m s p q = q
  checked (some x) m s p q = p

  daily-At :
      (s : Session (E.Decimal))
      → K s.history
      → K (consolidate_date E (E.date_only (E.now s.history)) s).1.history
      → K (run_daily_consolidation E s).1.history
  unfolding run_daily_consolidation ◌>>=◌ check_context now
  daily-At s p q = checked (E.context_error s.history) _ s p q

module _ (E : Env) where
  open E use {Decimal}

  -- In every environment, and however a daily consolidation ends, each of the requests that it has sent
  -- was sent after the store had accepted its record of the day, with the UTC date at the start of the
  -- task and the status claimables_captured.
  pub run_daily_consolidation-IsAhead :
      (s : Session Decimal)
      → Ahead (E.date_only (E.now s.history)) s.history (run_daily_consolidation E s).1.history
  run_daily_consolidation-IsAhead s =
      daily-At E (Ahead (E.date_only (E.now s.history)) s.history) s (false, begin)
        ((consolidate_date-Keeps E _ s.history).at s (false, begin))

  unsent :
      (date : String) (start : History Decimal) (h : History Decimal) (b : Bool)
      → IsAhead date start b h
      → IsStored date h ⊎ (submissions h ≡ submissions start)
  unsent date start h true a = inl (IsAhead-IsStored a)
  unsent date start h false a = inr (IsAhead-submissions a)

  loaded :
      (date : String) (t : Session Decimal) (r : Result (Option DailyConsolidation))
      (f : Failure → Failure)
      → ¬ (r ≡ ok none)
      → submissions
          ((on_error (λ u. (r, happen (Effect.loaded_daily date r) u)) (λ e. raise (f e)) >>= λ o.
              on_option o (start_daily E date) λ _. pure tt)
            t).1.history
        ≡ submissions t.history
  unfolding ◌>>=◌ on_error handle_result on_option
  loaded date t (ok none) f q = elim (q refl) [ ]
  loaded date t (ok (some c)) f q = one (Effect.loaded_daily date (ok (some c))) t.history refl
  loaded date t (err e) f q = one (Effect.loaded_daily date (err e)) t.history refl
  loaded date t panic f q = one (Effect.loaded_daily date panic) t.history refl

  unsent_date :
      (t : Session Decimal)
      → ¬ (E.load_daily t.history (E.date_only (E.now t.history)) ≡ ok none)
      → submissions (consolidate_date E (E.date_only (E.now t.history)) t).1.history
        ≡ submissions t.history
  unfolding consolidate_date load_daily on_error ◌>>=◌
  unsent_date t q =
      loaded (E.date_only (E.now t.history)) t
        (E.load_daily t.history (E.date_only (E.now t.history)))
        (Failure.wrapped "check existing daily consolidation") q

  unsent_later :
      (t : Session Decimal)
      → ¬ (E.load_daily t.history (E.date_only (E.now t.history)) ≡ ok none)
      → submissions (run_daily_consolidation E t).1.history ≡ submissions t.history
  unsent_later t q =
      daily-At E (λ h. submissions h ≡ submissions t.history) t refl (unsent_date t q)

  -- Of two daily consolidations that start on one UTC date, one at most sends a request, however the
  -- first one ends and whatever happens between the two. The condition is that the store which has
  -- accepted a date's record of the captured claimables does not answer later that it has no record of
  -- that date.
  pub run_daily_consolidation-Once :
      (s t : Session Decimal)
      → E.date_only (E.now t.history) ≡ E.date_only (E.now s.history)
      → ((date : String) (h : History Decimal)
          → IsStored date h
          → ¬ (E.load_daily h date ≡ ok none))
      → Grows (run_daily_consolidation E s).1.history t.history
      → (submissions (run_daily_consolidation E s).1.history ≡ submissions s.history)
        ⊎ (submissions (run_daily_consolidation E t).1.history ≡ submissions t.history)
  run_daily_consolidation-Once s t q remembers g =
      let (b, a) = run_daily_consolidation-IsAhead s in
      elim (unsent _ _ _ b a) [
        | inl i ↦ inr (
            unsent_later t
              (remembers _ _ (subst (λ d. IsStored d t.history) (sym q) (Grows-IsStored g i))))
        | inr e ↦ inl e
      ]
