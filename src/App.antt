-- ===== src/App.antt =====
-- internal/app/app.go: one run of the program over its dependencies. Each call of a dependency is
-- an event, with its outcome; what a dependency answers may depend on all calls before.
pub mod Order
pub mod Shutdown
pub mod Retry
pub mod States
pub mod New
use cfwg.Base.{
  Bool, true, false, ◌&&◌, not, Option, none, some, List, [], ◌∷◌, Text, is_empty, Result, ok, err,
  is_ok, Error, message, wrap, join, String, if◌then◌else◌,
}
use cfwg.Config.{Config}
use cfwg.State.{State, no_state}

-- The select statement: the context is done, or the proxy's channel gives an error or nil.
pub data Wait : Type 0 where
  context_done : Wait
  proxy_exited : Option Error → Wait

-- `waited` is the end of the select statement, with what ended it.
pub data Event : Type 0 where
  loaded_config loaded_state : Bool → Event
  ensured : State → Bool → Event
  saved : State → Bool → Event
  applied : State → Bool → Event
  wrote_proxy_config : Bool → Event
  started : Text → Bool → Event
  probed : Bool → Event
  set_ready : Bool → Event
  waited : Wait → Event
  stopped cleaned : Bool → Event

-- The newest event stands first.
abbrev pub History : Type 0
History = List Event

pub record Dependencies : Type 0 where
  pub config_loader : History → Result Config
  pub state_loader : History → Result State
  pub state_saver : History → State → Result (Unit {0})
  pub ensure_device : History → Config → State → Result State
  pub network_apply : History → Config → State → Result (Unit {0})
  pub network_cleanup : History → Result (Unit {0})
  pub proxy_config_writer : History → Config → Result Text
  pub supervisor_start : History → Text → Result (Unit {0})
  pub supervisor_stop : History → Result (Unit {0})
  pub prober_check : History → Result (Unit {0})
  pub wait : History → Wait

abbrev pub Run : Type 0 → Type 0
Run A = History → Result A × History

abbrev pub continue_with : {A B : Type 0} → Result A × History → (A → Run B) → Result B × History
continue_with (ok a, h) f = f a h
continue_with (err e, h) f = (err e, h)

-- A call, whose error is returned in a wrapper.
unfoldable pub call_answer : {A : Type 0} → String → Result A → (Bool → Event) → Run A
call_answer context (ok a) event h = (ok a, event true ∷ h)
call_answer context (err e) event h = (err (wrap context e), event false ∷ h)

unfoldable pub call : {A : Type 0} → String → (Bool → Event) → (History → Result A) → Run A
unfolding call_answer
call context event answer h = call_answer context (answer h) event h

-- `runErr` first, then the error of Stop, then that of Cleanup.
shutdown_result : Option Error → Result (Unit {0}) → Result (Unit {0}) → Result (Unit {0})
shutdown_result (some run_err) stop cleanup = err run_err
shutdown_result none (err e) cleanup = err (wrap "stop proxy runtime" e)
shutdown_result none (ok u) (err e) = err (wrap "cleanup network" e)
shutdown_result none (ok u) (ok v) = ok tt

run_error : Wait → Option Error
run_error context_done = none
run_error (proxy_exited none) = none
run_error (proxy_exited (some e)) = some (wrap "proxy runtime exited unexpectedly" e)

-- shouldRetryWithFreshState, at an error that is not nil.
unfoldable pub should_retry_with_fresh_state : State → Bool
should_retry_with_fresh_state s =
    not (is_empty s.device_id) && not (is_empty s.access_token) && not (is_empty s.private_key)

pub joined : {A : Type 0} → Error → String → Result A × History → Result A × History
joined first context (ok a, h) = (ok a, h)
joined first context (err e, h) = (err (join first (wrap context e)), h)

module _ (d : Dependencies) where
  stop_and_clean : History → History
  stop_and_clean h =
      let stop = d.supervisor_stop h in
      let h' = stopped (is_ok stop) ∷ h in cleaned (is_ok (d.network_cleanup h')) ∷ h'

  serve : Run (Unit {0})
  unfolding shutdown_result run_error stop_and_clean
  serve h =
      let ready = set_ready true ∷ h in
      let end = d.wait ready in
      let unready = set_ready false ∷ waited end ∷ ready in
      let stop = d.supervisor_stop unready in
      let cleanup = d.network_cleanup (stopped (is_ok stop) ∷ unready) in
      (shutdown_result (run_error end) stop cleanup, stop_and_clean unready)

  after_probe : Result (Unit {0}) → Run (Unit {0})
  unfolding serve stop_and_clean
  after_probe (err e) h =
      (err (wrap "probe warp connectivity" e), stop_and_clean (probed false ∷ h))
  after_probe (ok u) h = serve (probed true ∷ h)

  probe : Run (Unit {0})
  unfolding after_probe
  probe h = after_probe (d.prober_check h) h

  start_proxy : Text → Run (Unit {0})
  unfolding probe
  start_proxy path h =
      continue_with (call "start proxy runtime" (started path) (λ k. d.supervisor_start k path) h)
        λ _. probe

  write_config : Config → Run (Unit {0})
  unfolding start_proxy
  write_config cfg h =
      continue_with
        (call "write proxy config" wrote_proxy_config (λ k. d.proxy_config_writer k cfg) h)
        start_proxy

  unfoldable pub run_started_runtime : Config → State → Run (Unit {0})
  unfolding write_config
  run_started_runtime cfg current h =
      continue_with (call "apply network" (applied current) (λ k. d.network_apply k cfg current) h)
        λ _. write_config cfg

  retry_run : Config → State → Error → Run (Unit {0})
  unfolding joined
  retry_run cfg fresh first h =
      joined first "recover with fresh state" (run_started_runtime cfg fresh h)

  retry_save : Config → Error → State → Run (Unit {0})
  unfolding retry_run joined
  retry_save cfg first fresh h =
      continue_with
        (joined first "recover with fresh state"
          (call "save state" (saved fresh) (λ k. d.state_saver k fresh) h))
        λ _. retry_run cfg fresh first

  pub retry : Config → Error → Run (Unit {0})
  unfolding retry_save joined
  retry cfg first h =
      continue_with
        (joined first "recover with fresh state"
          (call "bootstrap device" (ensured no_state) (λ k. d.ensure_device k cfg no_state) h))
        (retry_save cfg first)

  recover : Config → State → Result (Unit {0}) × History → Result (Unit {0}) × History
  recover cfg loaded (ok u, h) = (ok tt, h)
  recover cfg loaded (err e, h) =
      let again = retry cfg e h in
      if should_retry_with_fresh_state loaded then again else (err e, h)

  pub run_with : Config → State → State → Run (Unit {0})
  unfolding recover
  run_with cfg loaded current h = recover cfg loaded (run_started_runtime cfg current h)

  save_and_run : Config → State → State → Run (Unit {0})
  unfolding run_with
  save_and_run cfg loaded current h =
      continue_with (call "save state" (saved current) (λ k. d.state_saver k current) h)
        λ _. run_with cfg loaded current

  bootstrap : Config → State → Run (Unit {0})
  unfolding save_and_run
  bootstrap cfg loaded h =
      continue_with (call "bootstrap device" (ensured loaded) (λ k. d.ensure_device k cfg loaded) h)
        (save_and_run cfg loaded)

  load_state : Config → Run (Unit {0})
  unfolding bootstrap
  load_state cfg h = continue_with (call "load state" loaded_state d.state_loader h) (bootstrap cfg)

  unfoldable pub run : Run (Unit {0})
  unfolding load_state
  run h = continue_with (call "load config" loaded_config d.config_loader h) load_state
