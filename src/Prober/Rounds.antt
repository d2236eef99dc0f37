-- ===== src/Prober/Rounds.antt =====
-- How the rounds of Check end.
use cfwg.Base.{
  ℕ, zero, suc, ◌+◌, ◌≤◌, ◌≡◌, refl, Bool, true, false, ◌||◌, Option, none, some, List, [], ◌∷◌,
  Result, ok, err, Error, is_ok, arith, sym, if◌then◌else◌,
}
use cfwg.Prober.{
  Prober, World, Target, targets, check_once, try_targets, check_targets, check, end_round, waited,
}

module _ (p : Prober) (w : World) where
  -- A target of the list confirms the tunnel in the round.
  abbrev pub any_confirms : ℕ → List Target → Bool
  any_confirms round [] = false
  any_confirms round (t ∷ ts) = is_ok (check_once p w round t) || any_confirms round ts

  try_cases :
      (round : ℕ) (t : Target) (rest : Result (Unit {0})) (b : Bool) (r : Result (Unit {0}))
      → (is_ok r ≡ false → is_ok rest ≡ b)
      → is_ok (elim r as (λ x. Result (Unit {0})) [ ok u ↦ ok tt | err e ↦ rest ]) ≡ (is_ok r || b)
  try_cases round t rest b (ok u) same = refl
  try_cases round t rest b (err e) same = same refl

  try_targets-any_confirms :
      (round : ℕ) (last : Result (Unit {0})) (ts : List Target)
      → is_ok last ≡ false
      → is_ok (try_targets p w round last ts) ≡ any_confirms round ts
  unfolding try_targets
  try_targets-any_confirms round last [] failed = failed
  try_targets-any_confirms round last (t ∷ ts) failed =
      try_cases round t (try_targets p w round (check_once p w round t) ts) (any_confirms round ts)
        (check_once p w round t)
        λ again. try_targets-any_confirms round (check_once p w round t) ts again

  check_targets-any_confirms : (k : ℕ) → is_ok (check_targets p w k) ≡ any_confirms k (targets p)
  unfolding check_targets
  check_targets-any_confirms k = try_targets-any_confirms k _ (targets p) refl

  -- From a round to another, which is not among them, no round ends the check: no target confirms the
  -- tunnel, the window has not passed, and the context is not done.
  pub data Tried (last : ℕ) : ℕ → Type 0 where
    arrived : Tried last last
    tried :
        (k : ℕ)
        → any_confirms k (targets p) ≡ false
        → w.is_late k ≡ false
        → w.context_error k ≡ none
        → Tried last (suc k)
        → Tried last k

  -- A round that ends the check with this result.
  pub data Gives (k : ℕ) : Result (Unit {0}) → Type 0 where
    confirmed : any_confirms k (targets p) ≡ true → Gives k (ok tt)
    ran_out :
        (e : Error)
        → any_confirms k (targets p) ≡ false
        → w.is_late k ≡ true
        → check_targets p w k ≡ err e
        → Gives k (err e)
    cancelled :
        (e : Error)
        → any_confirms k (targets p) ≡ false
        → w.is_late k ≡ false
        → w.context_error k ≡ some e
        → Gives k (err e)

  -- The check ends in the first round that can end it.
  pub record Explained (from late : ℕ) (result : Option (Result (Unit {0}))) : Type 0 where
    pub round : ℕ
    pub in_time : round ≤ late
    pub before : Tried round from
    pub answer : Result (Unit {0})
    pub given : result ≡ some answer
    pub by : Gives round answer

  at_once :
      (k late : ℕ) (answer : Result (Unit {0}))
      → k ≤ late
      → Gives k answer
      → Explained k late (some answer)
  at_once k late answer within by = record {
    round = k;
    in_time = within;
    before = arrived;
    answer = answer;
    given = refl;
    by = by;
  }

  late_round :
      (k late : ℕ) (e : Error) (b : Bool) (again : Option (Result (Unit {0})))
      → check_targets p w k ≡ err e
      → any_confirms k (targets p) ≡ false
      → w.is_late k ≡ b
      → k ≤ late
      → (b ≡ false → Explained k late (waited p w (w.context_error k) again))
      → Explained k late (if b then some (err e) else waited p w (w.context_error k) again)
  late_round k late e true again same none_did over within rest =
      at_once k late (err e) within (ran_out e none_did over same)
  late_round k late e false again same none_did early within rest = rest refl

  next_round :
      (k late : ℕ) (o : Option Error) (again : Option (Result (Unit {0})))
      → any_confirms k (targets p) ≡ false
      → w.is_late k ≡ false
      → w.context_error k ≡ o
      → k ≤ late
      → (suc k ≤ late → Explained (suc k) late again)
      → w.is_late late ≡ true
      → Explained k late (waited p w o again)
  unfolding waited
  next_round k late (some e) again none_did early is_done within rest over =
      at_once k late (err e) within (cancelled e none_did early is_done)
  next_round k late none again none_did early not_done within rest over =
      let more = rest (later k late within early over) in
      record {
        round = more.round;
        in_time = more.in_time;
        before = tried k none_did early not_done more.before;
        answer = more.answer;
        given = more.given;
        by = more.by;
      }
    where
      later : (k late : ℕ) → k ≤ late → w.is_late k ≡ false → w.is_late late ≡ true → suc k ≤ late
      later k late within early over = grind arith

  end_round-Explained :
      (k late : ℕ) (r : Result (Unit {0})) (again : Option (Result (Unit {0})))
      → check_targets p w k ≡ r
      → is_ok r ≡ any_confirms k (targets p)
      → k ≤ late
      → (suc k ≤ late → Explained (suc k) late again)
      → w.is_late late ≡ true
      → Explained k late (end_round p w k r again)
  unfolding end_round
  end_round-Explained k late (ok u) again same why within rest over =
      at_once k late (ok tt) within (confirmed (sym why))
  end_round-Explained k late (err e) again same why within rest over =
      late_round k late e (w.is_late k) again same (sym why) refl within
        λ early. next_round k late (w.context_error k) again (sym why) early refl within rest over

  check_from :
      (fuel k late : ℕ)
      → k + fuel ≡ suc late
      → k ≤ late
      → w.is_late late ≡ true
      → Explained k late (check p w fuel k)
  unfolding check
  check_from zero k late sum within over = ground arith
  check_from (suc fuel) k late sum within over =
      end_round-Explained k late (check_targets p w k) (check p w fuel (suc k)) refl
        (check_targets-any_confirms k) within
        (λ more. check_from fuel (suc k) late (omega arith) more over) over

  -- Where the window has passed after some round, Check ends no later than this round, with one
  -- more unit of fuel than its number. It ends in the first round in which a target confirms the
  -- tunnel, the window has passed, or the context is done: it succeeds if a target confirms the
  -- tunnel in this round, and otherwise fails with the last error of the round where the window
  -- has passed, or else with the context's.
  pub check-Explained :
      (late : ℕ) → w.is_late late ≡ true → Explained 0 late (check p w (suc late) 0)
  check-Explained late over = check_from (suc late) 0 late (omega arith) (omega arith) over
