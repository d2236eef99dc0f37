-- ===== src/App/Retry.antt =====
-- The second attempt, with a fresh registration.
use cfwg.Base.{
  Bool, true, not, is_empty, ◌&&◌, ℕ, suc, ◌≤◌, ◌≡◌, refl, false, [], ◌∷◌, Result, ok, err, Error,
  arith, join, Bool-cases, inl, inr,
}
use cfwg.Config.{Config}
use cfwg.State.{State, no_state}
use cfwg.App.{
  Event.loaded_config, Event.loaded_state, Event.ensured, Event.saved, Event.applied, History,
  Dependencies, run_started_runtime, should_retry_with_fresh_state, retry_run, retry_save, retry,
  recover, run_with, save_and_run, bootstrap, load_state, run,
}
use cfwg.App.Shutdown.{
  Ended, apply_failed, write_failed, start_failed, probe_failed, served, call_cases,
  run_started_runtime-Ended,
}
use cfwg.App.Order.{joined_cases, joined-trace}

-- How often the network has been set up, or this was tried.
abbrev pub attempts : History → ℕ
attempts [] = 0
attempts (applied s b ∷ h) = suc (attempts h)
attempts (_ ∷ h) = attempts h

attempts-Ended :
    (s : State) (h : History) {h' : History} → Ended s h h' → attempts h' ≡ suc (attempts h)
attempts-Ended s h apply_failed = refl
attempts-Ended s h write_failed = refl
attempts-Ended s h (start_failed p) = refl
attempts-Ended s h (probe_failed p b c) = refl
attempts-Ended s h (served p x b c) = refl

-- All three credentials of a device are there.
abbrev pub has_device : State → Bool
has_device s =
    not (is_empty s.device_id) && not (is_empty s.access_token) && not (is_empty s.private_key)

module _ (d : Dependencies) where
  attempts-retry :
      (cfg : Config) (e : Error) (h : History) → attempts (retry d cfg e h).1 ≤ suc (attempts h)
  unfolding retry retry_save retry_run
  attempts-retry cfg e h =
      joined_cases few e _ _ (ensured no_state) _ _ h (λ _. omega arith)
        λ fresh.
          joined_cases few e _ _ (saved fresh) _ _ _ (λ _. omega arith)
            λ _.
              rw joined-trace
                (omega (arith, attempts-Ended fresh _ (run_started_runtime-Ended d cfg fresh _)))
    where
      few : Result (Unit {0}) × History → Type 0
      few r = attempts r.1 ≤ suc (attempts h)

  -- A failed first attempt with error `e` and calls `h`, and what comes of the whole: without all
  -- three credentials in the loaded state, nothing more; with them, a device is made from no state, then
  -- saved, then run as any other. The first error is kept in each later one, and a second attempt
  -- that succeeds leaves none.
  pub data Recovered (loaded : State) (e : Error) (h : History)
      : Result (Unit {0}) × History → Type 0 where
    stands : has_device loaded ≡ false → Recovered loaded e h (err e, h)
    no_device :
        (x : Error)
        → has_device loaded ≡ true
        → Recovered loaded e h (err (join e x), ensured no_state false ∷ h)
    not_saved :
        (fresh : State) (x : Error)
        → has_device loaded ≡ true
        → Recovered loaded e h (err (join e x), saved fresh false ∷ ensured no_state true ∷ h)
    failed_again :
        (fresh : State) (x : Error) (after : History)
        → has_device loaded ≡ true
        → Ended fresh (saved fresh true ∷ ensured no_state true ∷ h) after
        → Recovered loaded e h (err (join e x), after)
    recovered :
        (fresh : State) (after : History)
        → has_device loaded ≡ true
        → Ended fresh (saved fresh true ∷ ensured no_state true ∷ h) after
        → Recovered loaded e h (ok tt, after)

  recover-attempts :
      (cfg : Config) (loaded : State) (r : Result (Unit {0}) × History)
      → (attempts (recover d cfg loaded r).1 ≤ suc (attempts r.1))
        × (should_retry_with_fresh_state loaded ≡ false
            → attempts (recover d cfg loaded r).1 ≡ attempts r.1)
  unfolding recover
  recover-attempts cfg loaded (ok u, h) = (omega arith, λ _. refl)
  recover-attempts cfg loaded (err e, h) =
      elim (Bool-cases (should_retry_with_fresh_state loaded)) [
        | inl again ↦ rw again (attempts-retry cfg e h, λ no_more. cc)
        | inr enough ↦ rw enough (omega arith, λ _. refl)
      ]

  run_with-attempts :
      (cfg : Config) (loaded current : State) (h : History)
      → attempts (run_with d cfg loaded current h).1 ≤ suc (suc (attempts h))
  unfolding run_with
  run_with-attempts cfg loaded current h = omega (
    arith,
    (recover-attempts cfg loaded (run_started_runtime d cfg current h)).0,
    attempts-Ended current h (run_started_runtime-Ended d cfg current h),
  )

  -- A run sets the network up at most twice.
  pub run-attempts : attempts (run d []).1 ≤ 2
  unfolding run load_state bootstrap save_and_run run_with
  run-attempts =
      call_cases few _ loaded_config _ _ [] (λ _. omega arith)
        λ cfg.
          call_cases few _ loaded_state _ _ _ (λ _. omega arith)
            λ loaded.
              call_cases few _ (ensured loaded) _ _ _ (λ _. omega arith)
                λ current.
                  call_cases few _ (saved current) _ _ _ (λ _. omega arith)
                    λ _. run_with-attempts cfg loaded current _
    where
      few : Result (Unit {0}) × History → Type 0
      few r = attempts r.1 ≤ 2
