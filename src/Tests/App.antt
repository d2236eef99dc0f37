-- ===== src/Tests/App.antt =====
-- Runs of the program over concrete dependencies.
use cfwg.Base.{◌≡◌, false, [], ◌∷◌, ok, err, str, message, wrap, Result}
use cfwg.Config.{Config, stack_dual}
use cfwg.State.{State, no_state}
use cfwg.App.{Dependencies, context_done, History, run, run_started_runtime, Event.applied}
use cfwg.App.Shutdown.{Ended, AllAnswered, run_started_runtime_lem}
use cfwg.App.Order.{run-InOrder, InOrder, is_ready}

abbrev settings : Config
settings = record {
  proxy_stack = stack_dual;
  warp_license = str "unspecified";
  auth = record { enabled = false; username = str "unspecified"; password = str "unspecified" };
}

abbrev pub device : State
device = record no_state { device_id = 100 ∷ []; access_token = 116 ∷ []; private_key = 107 ∷ [] }

-- Every call succeeds, and the program is then told to stop.
abbrev pub smooth : Dependencies
smooth = record {
  config_loader = λ h. ok settings;
  state_loader = λ h. ok device;
  state_saver = λ h s. ok tt;
  ensure_device = λ h cfg s. ok device;
  network_apply = λ h cfg s. ok tt;
  network_cleanup = λ h. ok tt;
  proxy_config_writer = λ h cfg. ok (112 ∷ []);
  supervisor_start = λ h path. ok tt;
  supervisor_stop = λ h. ok tt;
  prober_check = λ h. ok tt;
  wait = λ h. context_done;
}

-- The network cannot be set up.
abbrev offline : Dependencies
offline = record smooth { network_apply = λ h cfg s. err (message "no device") }

run_started_runtime_lem_example :
    Ended device [] (run_started_runtime smooth settings device []).1
    × AllAnswered smooth (run_started_runtime smooth settings device []).1
run_started_runtime_lem_example = run_started_runtime_lem smooth settings device [] tt

run-InOrder_example : InOrder (run smooth []).1 × (is_ready (run smooth []).1 ≡ false)
run-InOrder_example = run-InOrder smooth

abbrev no_device : Result (Unit {0}) × History
no_device = (err (wrap "apply network" (message "no device")), applied device false ∷ [])
