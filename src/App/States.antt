-- ===== src/App/States.antt =====
-- Which states a run saves and sets the network up for.
use cfwg.Base.{◌≡◌, refl, true, [], ◌∷◌, Result, ok, err, Error, Bool-cases, inl, inr}
use cfwg.Config.{Config}
use cfwg.State.{State, no_state}
use cfwg.App.{
  Event.loaded_config, Event.loaded_state, Event.ensured, Event.saved, Event.applied, History,
  Dependencies, Run, continue_with, call, call_answer, run_started_runtime,
  should_retry_with_fresh_state, joined, retry_run, retry_save, retry, recover, run_with,
  save_and_run, bootstrap, load_state, run,
}
use cfwg.App.Shutdown.{
  Ended, apply_failed, write_failed, start_failed, probe_failed, served, call_cases,
  run_started_runtime-Ended,
}
use cfwg.App.Order.{joined-trace, joined_cases}

module _ (P : State → Type 0) where
  -- Every state that is saved, or that the network is set up for, has the property.
  abbrev pub AllStates : History → Type 0
  AllStates [] = Unit {0}
  AllStates (saved s b ∷ h) = P s × AllStates h
  AllStates (applied s b ∷ h) = P s × AllStates h
  AllStates (_ ∷ h) = AllStates h

  Ended-AllStates :
      (s : State) (h : History) {h' : History} → Ended s h h' → P s → AllStates h → AllStates h'
  Ended-AllStates s h apply_failed p all = (p, all)
  Ended-AllStates s h write_failed p all = (p, all)
  Ended-AllStates s h (start_failed path) p all = (p, all)
  Ended-AllStates s h (probe_failed path b c) p all = (p, all)
  Ended-AllStates s h (served path x b c) p all = (p, all)

  abbrev Keeps : {A : Type 0} → Result A × History → Type 0
  Keeps r = AllStates (r.1)

  -- A call as in `call_cases`, with the equation that says what was answered.
  ensured_cases :
      {B : Type 0} (loaded : State) (answer : History → Result State) (next : State → Run B)
      (h : History)
      → AllStates h
      → ((s : State) → answer h ≡ ok s → Keeps (next s (ensured loaded true ∷ h)))
      → Keeps (continue_with (call "bootstrap device" (ensured loaded) answer h) next)
  unfolding call
  ensured_cases {B} loaded answer next h all goes = go (answer h) refl
    where
      go :
          (r : Result State)
          → answer h ≡ r
          → Keeps (continue_with (call_answer "bootstrap device" r (ensured loaded) h) next)
      go (ok s) e = unfold call_answer in goes s e
      go (err e) same = unfold call_answer in all

  fresh_cases :
      {B : Type 0} (first : Error) (answer : History → Result State) (next : State → Run B)
      (h : History)
      → AllStates h
      → ((s : State) → answer h ≡ ok s → Keeps (next s (ensured no_state true ∷ h)))
      → Keeps (
          continue_with
            (joined first "recover with fresh state"
              (call "bootstrap device" (ensured no_state) answer h))
            next)
  unfolding call joined
  fresh_cases {B} first answer next h all goes = go (answer h) refl
    where
      go :
          (r : Result State)
          → answer h ≡ r
          → Keeps (
              continue_with
                (joined first "recover with fresh state"
                  (call_answer "bootstrap device" r (ensured no_state) h))
                next)
      go (ok s) e = unfold call_answer in goes s e
      go (err e) same = unfold call_answer in all

  module _ (d : Dependencies)
      (ensures : (h : History) (cfg : Config) (loaded s : State)
        → d.ensure_device h cfg loaded ≡ ok s
        → P s) where
    run_started_runtime-AllStates :
        (cfg : Config) (s : State) (h : History)
        → P s
        → AllStates h
        → AllStates ((run_started_runtime d cfg s h).1)
    run_started_runtime-AllStates cfg s h p all =
        Ended-AllStates s h (run_started_runtime-Ended d cfg s h) p all

    retry-AllStates :
        (cfg : Config) (e : Error) (h : History) → AllStates h → AllStates ((retry d cfg e h).1)
    unfolding retry retry_save retry_run
    retry-AllStates cfg e h all =
        fresh_cases e (λ k. d.ensure_device k cfg no_state) (retry_save d cfg e) h all
          λ fresh answered.
            let p = ensures h cfg no_state fresh answered in
            joined_cases Keeps e _ _ (saved fresh) _ _ _ (λ _. (p, all))
              λ _. rw joined-trace (run_started_runtime-AllStates cfg fresh _ p (p, all))

    recover-AllStates :
        (cfg : Config) (loaded : State) (r : Result (Unit {0}) × History)
        → AllStates (r.1)
        → AllStates ((recover d cfg loaded r).1)
    unfolding recover
    recover-AllStates cfg loaded (ok u, h) all = all
    recover-AllStates cfg loaded (err e, h) all =
        elim (Bool-cases (should_retry_with_fresh_state loaded)) [
          | inl again ↦ rw again (retry-AllStates cfg e h all)
          | inr enough ↦ rw enough all
        ]

    -- Where each device that is ensured has a property, a run saves only states with it, and sets
    -- the network up only for such states, also in its second attempt.
    pub run-AllStates : AllStates ((run d []).1)
    unfolding run load_state bootstrap save_and_run run_with
    run-AllStates =
        call_cases Keeps _ loaded_config _ _ [] (λ _. tt)
          λ cfg.
            call_cases Keeps _ loaded_state _ _ _ (λ _. tt)
              λ loaded.
                ensured_cases loaded (λ k. d.ensure_device k cfg loaded) (save_and_run d cfg loaded)
                  _ tt
                  λ current answered.
                    let p = ensures _ cfg loaded current answered in
                    call_cases Keeps _ (saved current) _ _ _ (λ _. (p, tt))
                      λ _.
                        let h = saved current true ∷ before loaded in
                        recover-AllStates cfg loaded (run_started_runtime d cfg current h)
                          (run_started_runtime-AllStates cfg current h p (p, tt))
      where
        before : State → History
        before loaded = ensured loaded true ∷ loaded_state true ∷ loaded_config true ∷ []
