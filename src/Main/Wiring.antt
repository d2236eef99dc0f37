-- ===== src/Main/Wiring.antt =====
-- buildRuntimeDependencies and buildLegacyRuntimeDependencies of cmd/warp-socksd: the dependencies of
-- a run, made of the other parts.
pub mod Applied
use cfwg.Base.{
  Bool, true, false, ◌||◌, not, Option, none, some, List, [], ◌∷◌, if◌then◌else◌, Text, str,
  is_empty, text_eq, ◌++◌, Result, ok, err, ◌>>=◌, Error, message, message_text,
}
use cfwg.Net.Decimal.{ℤ, pos, itoa_int}
use cfwg.Config.{Config, load_from_env}
use cfwg.State.{State}
use cfwg.State.Store.{Files, StateJson, SaveWorld, load, save}
use cfwg.Prober.{Prober, Target}
use cfwg.Warp.Client.{Http, new_client}
use cfwg.Legacy.Endpoint.{GoText}
use cfwg.Legacy.Bootstrap.{WarpApi, Calls, ensure_device}
use cfwg.Legacy.Service.{Randomness, warp_api}
use cfwg.Legacy.Network.{Devices, network_apply, network_cleanup}
use cfwg.Socks5.ProxyFile
use cfwg.Socks5.ProxyFile.{Dialer, FileJson, WriteWorld}
use cfwg.App.{History, Dependencies, Wait}
use cfwg.App.New.{Given, new_app}
use cfwg.Main.{Host, RuntimeConfig, default_proxy_port, backend_legacy}
use cfwg.Main.Proxy.{write_socks5_config, socks5_http_dialer}

-- What the parts meet in a run: each value may depend on all calls before. The prober and the
-- supervisor are given what they are made with.
pub record Surroundings (S : Type 0) : Type 0 where
  pub state_json : StateJson
  pub state_files : History → Files
  pub state_read_error : History → Option Error
  pub save_world : History → SaveWorld
  pub http : Http
  pub randomness : History → Randomness
  pub calls : History → Calls
  pub devices : Devices S
  pub device_state : History → S
  pub file_json : FileJson
  pub proxy_files : History → ProxyFile.Files
  pub write_world : History → WriteWorld
  pub probe : Prober → Dialer → History → Result (Unit {0})
  pub supervisor_start : Text → History → Text → Result (Unit {0})
  pub supervisor_stop : History → Result (Unit {0})
  pub wait : History → Wait

unfoldable pub default_probe_target_v4 : Target
default_probe_target_v4 = record {
  url = str "http://1.1.1.1/cdn-cgi/trace";
  host_header = str "cloudflare.com";
}

unfoldable pub default_probe_target_v6 : Target
default_probe_target_v6 = record {
  url = str "http://[2606:4700:4700::1111]/cdn-cgi/trace";
  host_header = str "cloudflare.com";
}

-- The prober of newProberFunc. Its HTTP client is the dialer.
unfoldable pub new_prober : Text → Text → Prober
unfolding default_probe_target_v4 default_probe_target_v6
new_prober probe_url probe_host_header =
    if not (is_empty probe_url)
    then record { url = probe_url; host_header = probe_host_header; fallback_targets = [] }
    else record {
      url = default_probe_target_v4.url;
      host_header = default_probe_target_v4.host_header;
      fallback_targets = default_probe_target_v6 ∷ [];
    }

module _ (G : GoText) (host : Host) {S : Type 0} (w : Surroundings S) (getenv : Text → Text) where
  abbrev state_path : RuntimeConfig → Text
  state_path cfg = host.join cfg.state_dir (str "state.json")

  -- `newLegacyHTTPClientFunc(15 * time.Second)` and the ten seconds of newProberFunc.
  unfoldable pub build_legacy_runtime_dependencies : RuntimeConfig → Given
  unfolding new_prober
  build_legacy_runtime_dependencies cfg =
      let dialer =
        socks5_http_dialer (str "127.0.0.1:" ++ itoa_int default_proxy_port) (getenv (str "uname"))
          (getenv (str "upwd")) (pos 10000000000) in
      let prober = new_prober cfg.legacy_probe_url cfg.legacy_probe_host in
      let api : History → WarpApi =
        λ h. warp_api w.http (new_client cfg.warp_api_base_url) (w.randomness h) in
      record {
        config_loader = some λ h. load_from_env (some getenv);
        state_loader =
            some λ h. load w.state_json (state_path cfg) (w.state_read_error h) (w.state_files h);
        state_saver =
            some λ h s. (save w.state_json (state_path cfg) (w.save_world h) s (w.state_files h)).0;
        bootstrapper = some λ h c s. (ensure_device G (api h) c s (w.calls h)).0;
        network_manager = some (record {
          apply = λ h c s.
              (network_apply G w.devices cfg.legacy_device_name cfg.legacy_mtu c s
                (w.device_state h)).0;
          cleanup = λ h.
              (network_cleanup G w.devices cfg.legacy_device_name cfg.legacy_mtu
                (w.device_state h)).0;
        });
        proxy_config_writer = some λ h c.
            (write_socks5_config w.file_json (w.write_world h) cfg.socks5_config_path c
              cfg.proxy_public_host cfg.proxy_public_port true [] (w.proxy_files h)).0;
        supervisor = some (record {
          start = w.supervisor_start cfg.proxy_binary_path;
          stop = w.supervisor_stop;
          wait = w.wait;
        });
        prober = some (w.probe prober dialer);
        status = some tt;
      }

  unfoldable pub build_runtime_dependencies : RuntimeConfig → Result Given
  unfolding build_legacy_runtime_dependencies
  build_runtime_dependencies cfg =
      if is_empty cfg.backend || text_eq cfg.backend backend_legacy
      then ok (build_legacy_runtime_dependencies cfg)
      else err (message_text "unsupported warp backend" cfg.backend)

  unfoldable pub new_runtime_app : RuntimeConfig → Result Dependencies
  new_runtime_app cfg = build_runtime_dependencies cfg >>= new_app
