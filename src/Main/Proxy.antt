-- ===== src/Main/Proxy.antt =====
-- cmd/warp-socksd/main.go and legacy_backend.go: the file that is written for the proxy, the proxy
-- process that reads it, and the client that probes through it.
pub mod Credentials
pub mod Ended
use cfwg.Base.{
  ◌≡◌, refl, arith, Bool, true, false, ◌&&◌, not, Option, none, some, List, [], ◌∷◌, ◌++◌,
  if◌then◌else◌, Text, str, is_empty, text_eq, Result, ok, err, Error,
}
use cfwg.Net.Decimal.{ℤ, pos, is_positive, itoa_int}
use cfwg.Net.Ip.{IpText}
use cfwg.Legacy.Endpoint.{value_or_default}
use cfwg.Config.{Config, unspecified}
use cfwg.Socks5.Wire.{AuthConfig}
use cfwg.Socks5.ProxyFile
use cfwg.Socks5.ProxyFile.{
  FileConfig, Dialer, Files, FileJson, WriteWorld, write_file_config, load_file_config,
}
use cfwg.Socks5.Listener.{Listener, ListenWorld, CloseWorld, new_server, start, close}
use cfwg.Main.{default_proxy_port, default_proxy_public_host}

-- The credentials that the proxy asks for.
unfoldable pub file_auth : Config → Option AuthConfig
file_auth cfg =
    if cfg.auth.enabled
    then some (record { username = cfg.auth.username; password = cfg.auth.password })
    else none

unfoldable pub file_config : Config → Text → ℤ → Bool → Text → FileConfig
unfolding file_auth
file_config cfg public_host public_port allow_udp upstream = record {
  listen_addr = b':' ∷ itoa_int default_proxy_port;
  public_host = value_or_default public_host default_proxy_public_host;
  public_port = if not (is_positive public_port) then default_proxy_port else public_port;
  allow_udp = allow_udp;
  upstream_socks5_addr = upstream;
  auth = file_auth cfg;
}

written_path : Text → Result (Unit {0}) × Files → Result Text × Files
written_path path (ok u, files) = (ok path, files)
written_path path (err e, files) = (err e, files)

unfoldable pub write_socks5_config :
    FileJson → WriteWorld → Text → Config → Text → ℤ → Bool → Text → Files → Result Text × Files
unfolding written_path file_config
write_socks5_config json w path cfg public_host public_port allow_udp upstream files =
    written_path path (
      write_file_config json w path (file_config cfg public_host public_port allow_udp upstream)
        files)

-- The settings with the dialer of an upstream proxy, if there is one.
unfoldable pub with_upstream : ProxyFile.Config → ProxyFile.Config
with_upstream cfg = if is_empty cfg.upstream_socks5_addr then cfg else record cfg {
  dial_context =
      some (record { server_addr = cfg.upstream_socks5_addr; auth = none; timeout = pos 0 });
}

-- What runSOCKS5Server meets while it runs: it ends with the server closed, if the server has
-- started.
module _ (json : FileJson) (T : IpText) (w : ListenWorld) (c : CloseWorld) where
  -- The handlers' work between the start and the end of the context.
  run_started : (Listener → Listener) → Result (Unit {0}) × Listener → Result (Unit {0}) × Listener
  run_started serve (err e, s) = (err e, s)
  run_started serve (ok u, s) = (ok tt, (close c (serve s)).1)

  run_loaded : (Listener → Listener) → Result ProxyFile.Config → Result (Unit {0}) × Option Listener
  unfolding run_started with_upstream
  run_loaded serve (err e) = (err e, none)
  run_loaded serve (ok cfg) =
      let r = run_started serve (start T w (new_server (with_upstream cfg))) in (r.0, some (r.1))

  unfoldable pub run_socks5_server :
      (Listener → Listener) → Option Error → Text → Files → Result (Unit {0}) × Option Listener
  unfolding run_loaded
  run_socks5_server serve read_error path files =
      run_loaded serve (load_file_config json read_error path files)

-- The dialer of newSOCKS5HTTPClient.
unfoldable pub client_auth : Text → Text → Option AuthConfig
client_auth username password =
    if not (text_eq username unspecified)
      && not (text_eq password unspecified)
      && not (is_empty username)
      && not (is_empty password)
    then some (record { username = username; password = password })
    else none

unfoldable pub socks5_http_dialer : Text → Text → Text → ℤ → Dialer
unfolding client_auth
socks5_http_dialer server_addr username password timeout = record {
  server_addr = server_addr;
  auth = client_auth username password;
  timeout = timeout;
}
