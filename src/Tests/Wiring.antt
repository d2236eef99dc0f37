-- ===== src/Tests/Wiring.antt =====
-- The wired program in concrete surroundings.
use cfwg.Base.{◌≡◌, refl, ℕ, true, none, some, [], ◌∷◌, ok, err, Result, message}
use cfwg.Net.Decimal.{pos}
use cfwg.State.{no_state}
use cfwg.State.Store.{SaveWorld}
use cfwg.App.{Dependencies, context_done, run}
use cfwg.App.States.{AllStates}
use cfwg.App.New.{new_app, required}
use cfwg.Main.{RuntimeConfig}
use cfwg.Main.Wiring.{
  Surroundings, build_legacy_runtime_dependencies, build_runtime_dependencies, new_runtime_app,
}
use cfwg.Main.Wiring.Applied.{IsUsable, new_runtime_app-AllStates}
use cfwg.Main.Command.{CommandWorld, Benign, run_with_env}
use cfwg.Main.Command.Outcome.{HasOutcome, run_with_env-HasOutcome}
use cfwg.Tests.Api.{answering, random}
use cfwg.Tests.App.{smooth}
use cfwg.Tests.Config.{environment}
use cfwg.Tests.Legacy.{plain_text, counted}
use cfwg.Tests.Proxy.{host, json, undisturbed}

abbrev calm : SaveWorld
calm = record {
  mkdir_error = none;
  temp_path = ok (116 ∷ []);
  chmod_error = none;
  write_error = none;
  written_part = 0;
  sync_error = none;
  close_error = none;
  rename_error = none;
  final_chmod_error = none;
  remove_error = none;
}

-- Nothing is stored yet, and every call succeeds but for the routes.
abbrev surroundings : Surroundings ℕ
surroundings = record {
  state_json = record { encode = λ s. ok []; decode = λ s. ok no_state };
  state_files = λ h. [];
  state_read_error = λ h. none;
  save_world = λ h. calm;
  http = answering 200;
  randomness = λ h. random;
  calls = λ h. [];
  devices = counted;
  device_state = λ h. 0;
  file_json = json;
  proxy_files = λ h. [];
  write_world = λ h. undisturbed;
  probe = λ prober dialer h. ok tt;
  supervisor_start = λ binary h path. ok tt;
  supervisor_stop = λ h. ok tt;
  wait = λ h. context_done;
}

abbrev cfg : RuntimeConfig
cfg = record {
  backend = [];
  state_dir = 115 ∷ [];
  runtime_dir = 114 ∷ [];
  socks5_config_path = 112 ∷ [];
  proxy_binary_path = 98 ∷ [];
  proxy_public_host = [];
  proxy_public_port = pos 1080;
  healthcheck_url = [];
  health_listen_addr = [];
  warp_api_base_url = [];
  legacy_device_name = [];
  legacy_probe_url = [];
  legacy_probe_host = [];
  legacy_mtu = pos 1280;
}

or_smooth : Result Dependencies → Dependencies
or_smooth (ok d) = d
or_smooth (err e) = smooth

abbrev wired : Dependencies
unfolding or_smooth
wired = or_smooth (new_runtime_app plain_text host surroundings environment cfg)

made : new_runtime_app plain_text host surroundings environment cfg ≡ ok wired
unfolding wired or_smooth new_runtime_app build_runtime_dependencies
    build_legacy_runtime_dependencies new_app required
made = refl

new_runtime_app-AllStates_example : AllStates IsUsable ((run wired []).1)
new_runtime_app-AllStates_example =
    new_runtime_app-AllStates plain_text host surroundings environment (λ api h. refl) cfg wired
      made

abbrev quiet : Benign
quiet = record { is_benign = λ e. true }

-- The health server fails while the program runs.
abbrev interrupted : CommandWorld
interrupted = record {
  serve_socks5 = λ path. ok tt;
  get = λ url. ok 200;
  server_error = some (message "address in use");
  shutdown_error = none;
}

run_with_env-HasOutcome_example :
    HasOutcome plain_text host surroundings environment quiet interrupted
      (run_with_env plain_text host surroundings environment quiet interrupted [])
run_with_env-HasOutcome_example =
    run_with_env-HasOutcome plain_text host surroundings environment quiet interrupted
