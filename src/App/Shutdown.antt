-- ===== src/App/Shutdown.antt =====
-- How a started runtime ends, on every path.
use cfwg.Base.{◌≡◌, refl, is_ok, Bool, true, false, [], ◌∷◌, Text, Result, ok, err, Error, String}
use cfwg.Config.{Config}
use cfwg.State.{State}
use cfwg.App.{
  Event, serve, stop_and_clean, Event.applied, Event.wrote_proxy_config, Event.started,
  Event.probed, Event.set_ready, Event.waited, Wait, Event.stopped, Event.cleaned, History,
  Dependencies, Run, continue_with, call, call_answer, after_probe, probe, start_proxy,
  write_config, run_started_runtime,
}

-- The calls of a started runtime, newest first, before `h`. The network, the proxy's file and the
-- proxy are set up in this order, up to the first failure. Past these, whatever comes of the probe
-- and of the wait, the proxy is stopped and the network cleaned at the end; and the program is
-- ready between a successful probe and the end of the wait, and at no other time.
pub data Ended (s : State) (h : History) : History → Type 0 where
  apply_failed : Ended s h (applied s false ∷ h)
  write_failed : Ended s h (wrote_proxy_config false ∷ applied s true ∷ h)
  start_failed :
      (p : Text) → Ended s h (started p false ∷ wrote_proxy_config true ∷ applied s true ∷ h)
  probe_failed :
      (p : Text) (stop clean : Bool)
      → Ended s h (
          cleaned clean
          ∷ stopped stop
          ∷ probed false
          ∷ started p true
          ∷ wrote_proxy_config true
          ∷ applied s true
          ∷ h)
  served :
      (p : Text) (end : Wait) (stop clean : Bool)
      → Ended s h (
          cleaned clean
          ∷ stopped stop
          ∷ set_ready false
          ∷ waited end
          ∷ set_ready true
          ∷ probed true
          ∷ started p true
          ∷ wrote_proxy_config true
          ∷ applied s true
          ∷ h)

-- A call either fails, and the rest is not reached, or succeeds and the rest runs.
pub call_cases :
    {A B : Type 0} (P : Result B × History → Type 0) (context : String) (event : Bool → Event)
    (answer : History → Result A) (next : A → Run B) (h : History)
    → ((e : Error) → P (err e, event false ∷ h))
    → ((a : A) → P (next a (event true ∷ h)))
    → P (continue_with (call context event answer h) next)
unfolding call
call_cases {A} {B} P context event answer next h fails goes = go (answer h)
  where
    go : (r : Result A) → P (continue_with (call_answer context r event h) next)
    go (ok a) = goes a
    go (err e) = fails _

module _ (d : Dependencies) where
  after_probe-Ended :
      (s : State) (p : Text) (h : History) (r : Result (Unit {0}))
      → Ended s h
          (after_probe d r (started p true ∷ wrote_proxy_config true ∷ applied s true ∷ h)).1
  unfolding after_probe
  after_probe-Ended s p h (ok u) = served p _ _ _
  after_probe-Ended s p h (err e) = probe_failed p _ _

  pub run_started_runtime-Ended :
      (cfg : Config) (s : State) (h : History) → Ended s h (run_started_runtime d cfg s h).1
  unfolding run_started_runtime probe start_proxy write_config
  run_started_runtime-Ended cfg s h =
      call_cases (λ r. Ended s h r.1) "apply network" (applied s) _ _ h (λ _. apply_failed)
        λ _.
          call_cases (λ r. Ended s h r.1) "write proxy config" wrote_proxy_config _ _ _
            (λ _. write_failed)
            λ p.
              call_cases (λ r. Ended s h r.1) "start proxy runtime" (started p) _ _ _
                (λ _. start_failed p) λ _. after_probe-Ended s p h _

  -- The outcomes of the probe, the wait and the shutdown are what the dependencies answer after the
  -- calls before them.
  abbrev pub AllAnswered : History → Type 0
  AllAnswered [] = Unit {0}
  AllAnswered (probed b ∷ h) = (b ≡ is_ok (d.prober_check h)) × AllAnswered h
  AllAnswered (waited end ∷ h) = (end ≡ d.wait h) × AllAnswered h
  AllAnswered (stopped b ∷ h) = (b ≡ is_ok (d.supervisor_stop h)) × AllAnswered h
  AllAnswered (cleaned b ∷ h) = (b ≡ is_ok (d.network_cleanup h)) × AllAnswered h
  AllAnswered (_ ∷ h) = AllAnswered h

  after_probe-AllAnswered :
      (h : History) (r : Result (Unit {0}))
      → d.prober_check h ≡ r
      → AllAnswered h
      → AllAnswered (after_probe d r h).1
  unfolding after_probe serve stop_and_clean
  after_probe-AllAnswered h (ok u) same all = (refl, (refl, (refl, (rw same refl, all))))
  after_probe-AllAnswered h (err e) same all = (refl, (refl, (rw same refl, all)))

  run_started_runtime-AllAnswered :
      (cfg : Config) (s : State) (h : History)
      → AllAnswered h
      → AllAnswered (run_started_runtime d cfg s h).1
  unfolding run_started_runtime probe start_proxy write_config
  run_started_runtime-AllAnswered cfg s h all =
      call_cases (λ r. AllAnswered r.1) "apply network" (applied s) _ _ h (λ _. all)
        λ _.
          call_cases (λ r. AllAnswered r.1) "write proxy config" wrote_proxy_config _ _ _ (λ _. all)
            λ p.
              call_cases (λ r. AllAnswered r.1) "start proxy runtime" (started p) _ _ _ (λ _. all)
                λ _. after_probe-AllAnswered _ _ refl all

  -- Whatever the dependencies answer, the calls of a started runtime are one of the sequences of
  -- Ended: the network, the proxy's file and the proxy are set up in this order up to the first
  -- failure, where it ends; past a started proxy, the proxy is stopped and then the network is
  -- cleaned as the last calls; and ready is set exactly between a successful probe and the end of
  -- the wait. The outcomes of the probe, the wait and the shutdown are those that the dependencies
  -- answer after exactly the calls before, so that the wait is made while ready is set.
  pub run_started_runtime_lem :
      (cfg : Config) (s : State) (h : History)
      → AllAnswered h
      → Ended s h (run_started_runtime d cfg s h).1 × AllAnswered (run_started_runtime d cfg s h).1
  run_started_runtime_lem cfg s h all =
      (run_started_runtime-Ended cfg s h, run_started_runtime-AllAnswered cfg s h all)
