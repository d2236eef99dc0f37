-- ===== src/App/Order.antt =====
-- What must have happened before a call, over a whole run with its retry.
use cfwg.Base.{
  String, ◌≡◌, refl, Bool, true, false, Option, none, some, [], ◌∷◌, Result, ok, err, Error, join,
  arith, Bool-cases, inl, inr,
}
use cfwg.Config.{Config}
use cfwg.State.{State, no_state}
use cfwg.App.{
  Event, Event.loaded_config, Event.loaded_state, Event.ensured, Event.saved, Event.applied,
  Event.wrote_proxy_config, Event.started, Event.probed, Event.set_ready, History, Dependencies,
  Run, continue_with, call, call_answer, run_started_runtime, should_retry_with_fresh_state, joined,
  retry_run, retry_save, retry, recover, run_with, save_and_run, bootstrap, load_state, run,
}
use cfwg.App.Shutdown.{
  Ended, apply_failed, write_failed, start_failed, probe_failed, served, call_cases,
  run_started_runtime-Ended,
}

-- The state that was saved last, if this succeeded.
abbrev pub last_saved : History → Option State
last_saved [] = none
last_saved (saved s true ∷ h) = some s
last_saved (saved s false ∷ h) = none
last_saved (_ ∷ h) = last_saved h

-- The program has told that it is ready, and not yet taken it back.
abbrev pub is_ready : History → Bool
is_ready [] = false
is_ready (set_ready b ∷ h) = b
is_ready (_ ∷ h) = is_ready h

-- The newest call is a successful probe, start of the proxy, and so on.
abbrev pub IsUp : History → Type 0
IsUp (probed true ∷ started p true ∷ wrote_proxy_config true ∷ applied s true ∷ h) = Unit {0}
IsUp _ = ⊥

-- A call that is in its place, given the calls before it.
abbrev pub InPlace : Event → History → Type 0
InPlace (applied s b) h = last_saved h ≡ some s
InPlace (set_ready true) h = IsUp h
InPlace _ h = Unit {0}

-- Every call is in its place.
abbrev pub InOrder : History → Type 0
InOrder [] = Unit {0}
InOrder (e ∷ h) = InPlace e h × InOrder h

abbrev Sound : History → Type 0
Sound h = InOrder h × (is_ready h ≡ false)

Ended-Sound :
    (s : State) (h : History) {h' : History}
    → Ended s h h'
    → last_saved h ≡ some s
    → Sound h
    → Sound h'
Ended-Sound s h apply_failed l (o, r) = ((l, o), r)
Ended-Sound s h write_failed l (o, r) = ground arith
Ended-Sound s h (start_failed p) l (o, r) = ground arith
Ended-Sound s h (probe_failed p b c) l (o, r) = ground arith
Ended-Sound s h (served p x b c) l (o, r) = ground arith

pub joined-trace :
    {A : Type 0} (e : Error) (context : String) (r : Result A × History)
    → (joined e context r).1 ≡ r.1
unfolding joined
joined-trace e context (ok a, h) = refl
joined-trace e context (err x, h) = refl

-- The same step as `call_cases`, where the error is joined to an earlier one.
pub joined_cases :
    {A B : Type 0} (P : Result B × History → Type 0) (first : Error) (wrapper context : String)
    (event : Bool → Event) (answer : History → Result A) (next : A → Run B) (h : History)
    → ((e : Error) → P (err (join first e), event false ∷ h))
    → ((a : A) → P (next a (event true ∷ h)))
    → P (continue_with (joined first wrapper (call context event answer h)) next)
unfolding joined call
joined_cases {A} {B} P first wrapper context event answer next h fails goes = go (answer h)
  where
    go :
        (r : Result A)
        → P (continue_with (joined first wrapper (call_answer context r event h)) next)
    go (ok a) = goes a
    go (err e) = fails _

module _ (d : Dependencies) where
  abbrev Keeps : Result (Unit {0}) × History → Type 0
  Keeps r = Sound r.1

  run_started_runtime-Sound :
      (cfg : Config) (s : State) (h : History)
      → last_saved h ≡ some s
      → Sound h
      → Sound (run_started_runtime d cfg s h).1
  run_started_runtime-Sound cfg s h l o = Ended-Sound s h (run_started_runtime-Ended d cfg s h) l o

  retry-Sound : (cfg : Config) (e : Error) (h : History) → Sound h → Sound (retry d cfg e h).1
  unfolding retry retry_save retry_run
  retry-Sound cfg e h o =
      joined_cases Keeps e _ _ (ensured no_state) _ _ h (λ _. ((tt, o.0), o.1))
        λ fresh.
          joined_cases Keeps e _ _ (saved fresh) _ _ _ (λ _. ground arith)
            λ _. rw joined-trace (run_started_runtime-Sound cfg fresh _ refl (ground arith))

  recover-Sound :
      (cfg : Config) (loaded : State) (r : Result (Unit {0}) × History)
      → Sound r.1
      → Sound (recover d cfg loaded r).1
  unfolding recover
  recover-Sound cfg loaded (ok u, h) o = o
  recover-Sound cfg loaded (err e, h) o = elim (Bool-cases (should_retry_with_fresh_state loaded)) [
    | inl again ↦ rw again (retry-Sound cfg e h o)
    | inr enough ↦ rw enough o
  ]

  -- In every run, whatever the dependencies answer: the network is only set up for a state that was
  -- saved just before, with no other save since; the program tells that it is ready only directly
  -- after the network, the proxy's file, the proxy and the probe have succeeded in this order; and
  -- when the run has ended it no longer claims to be ready.
  pub run-InOrder : InOrder (run d []).1 × (is_ready (run d []).1 ≡ false)
  unfolding run load_state bootstrap save_and_run run_with
  run-InOrder =
      call_cases Keeps _ loaded_config _ _ [] (λ _. ((tt, tt), refl))
        λ cfg.
          call_cases Keeps _ loaded_state _ _ _ (λ _. ground arith)
            λ loaded.
              call_cases Keeps _ (ensured loaded) _ _ _ (λ _. ground arith)
                λ current.
                  call_cases Keeps _ (saved current) _ _ _ (λ _. ground arith)
                    λ _.
                      recover-Sound cfg loaded _
                        (run_started_runtime-Sound cfg current _ refl (ground arith))
