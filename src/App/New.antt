-- ===== src/App/New.antt =====
-- NewApp of internal/app/app.go: dependencies that may be nil.
use cfwg.Base.{Option, none, some, Text, Result, ok, err, ◌>>=◌, message, String}
use cfwg.Config.{Config}
use cfwg.State.{State}
use cfwg.App.{History, Dependencies, Wait}

-- The methods of an interface that is one dependency.
pub record NetworkManager : Type 0 where
  pub apply : History → Config → State → Result (Unit {0})
  pub cleanup : History → Result (Unit {0})

pub record Supervisor : Type 0 where
  pub start : History → Text → Result (Unit {0})
  pub stop : History → Result (Unit {0})
  pub wait : History → Wait

-- The dependencies that are given, of which any may be nil. The status has no answers.
pub record Given : Type 0 where
  pub config_loader : Option (History → Result Config)
  pub state_loader : Option (History → Result State)
  pub state_saver : Option (History → State → Result (Unit {0}))
  pub bootstrapper : Option (History → Config → State → Result State)
  pub network_manager : Option NetworkManager
  pub proxy_config_writer : Option (History → Config → Result Text)
  pub supervisor : Option Supervisor
  pub prober : Option (History → Result (Unit {0}))
  pub status : Option (Unit {0})

unfoldable pub required : {A : Type 0} → Option A → String → Result A
required none problem = err (message problem)
required (some a) problem = ok a

-- The cases of the switch are tried in this order.
unfoldable pub new_app : Given → Result Dependencies
unfolding required
new_app deps = do
  config_loader ← required deps.config_loader "config loader is required"
  state_loader ← required deps.state_loader "state loader is required"
  state_saver ← required deps.state_saver "state saver is required"
  bootstrapper ← required deps.bootstrapper "bootstrapper is required"
  network_manager ← required deps.network_manager "network manager is required"
  proxy_config_writer ← required deps.proxy_config_writer "proxy config writer is required"
  supervisor ← required deps.supervisor "supervisor is required"
  prober ← required deps.prober "prober is required"
  status ← required deps.status "status is required"
  ok (record {
    config_loader = config_loader;
    state_loader = state_loader;
    state_saver = state_saver;
    ensure_device = bootstrapper;
    network_apply = network_manager.apply;
    network_cleanup = network_manager.cleanup;
    proxy_config_writer = proxy_config_writer;
    supervisor_start = supervisor.start;
    supervisor_stop = supervisor.stop;
    prober_check = prober;
    wait = supervisor.wait;
  })
