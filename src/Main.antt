-- ===== src/Main.antt =====
-- cmd/warp-socksd/main.go and runtime_backend.go: the settings of the program from its environment.
pub mod Usable
pub mod Proxy
pub mod Wiring
pub mod Command
use cfwg.Base.{
  Bool, ◌||◌, not, Option, none, some, List, [], if◌then◌else◌, Text, str, is_empty, text_eq,
  Result, ok, err, ◌>>=◌, Error, message, message_text, wrap,
}
use cfwg.Net.Decimal.{ℤ, pos, is_positive, atoi}
use cfwg.Legacy.Endpoint.{value_or_default}
use cfwg.Legacy.Network.{default_legacy_device_name}

pub record RuntimeConfig : Type 0 where
  pub backend : Text
  pub state_dir : Text
  pub runtime_dir : Text
  pub socks5_config_path : Text
  pub proxy_binary_path : Text
  pub proxy_public_host : Text
  pub proxy_public_port : ℤ
  pub healthcheck_url : Text
  pub health_listen_addr : Text
  pub warp_api_base_url : Text
  pub legacy_device_name : Text
  pub legacy_probe_url : Text
  pub legacy_probe_host : Text
  pub legacy_mtu : ℤ

-- filepath.Join of two parts, os.Executable, and the host of a request to a URL.
pub record Host : Type 0 where
  pub join : Text → Text → Text
  pub executable : Result Text
  pub request_host : Text → Result Text

unfoldable pub default_healthcheck_url : Text
default_healthcheck_url = str "http://127.0.0.1:9090/readyz"

unfoldable pub default_state_dir : Text
default_state_dir = str "/var/lib/warp-socks"

abbrev pub default_proxy_port : ℤ
default_proxy_port = pos 1080

unfoldable pub default_proxy_public_host : Text
default_proxy_public_host = str "127.0.0.1"

unfoldable pub backend_legacy : Text
backend_legacy = str "legacy"

unfoldable pub default_warp_api_base_url : Text
default_warp_api_base_url = str "https://api.cloudflareclient.com"

abbrev pub default_mtu : ℤ
default_mtu = pos 1280

positive_or : ℤ → Option ℤ → ℤ
positive_or fallback none = fallback
positive_or fallback (some value) = if not (is_positive value) then fallback else value

unfoldable pub parse_int_or_default : Text → ℤ → ℤ
unfolding positive_or
parse_int_or_default raw fallback =
    if is_empty raw then fallback else positive_or fallback (atoi raw)

unfoldable pub parse_warp_backend : Text → Result Text
parse_warp_backend raw =
    if text_eq (value_or_default raw backend_legacy) backend_legacy
    then ok backend_legacy
    else err (message "WARP_BACKEND must be legacy")

module _ (host : Host) where
  path_or_default : Result Text → Text
  path_or_default (err e) = str "/app/warp-socksd"
  path_or_default (ok path) = if is_empty path then str "/app/warp-socksd" else path

  unfoldable pub current_executable_path : Text
  unfolding path_or_default
  current_executable_path = path_or_default host.executable

  host_of : Result Text → Result Text
  host_of (err e) = err (wrap "parse HEALTHCHECK_URL" e)
  host_of (ok address) =
      if is_empty address
      then err (message "HEALTHCHECK_URL must include host:port")
      else ok address

  unfoldable pub health_listen_addr_from_url : Text → Result Text
  unfolding host_of
  health_listen_addr_from_url raw = host_of (host.request_host raw)

  unfoldable pub config_with : (Text → Text) → Text → Text → RuntimeConfig
  config_with getenv backend listen_addr =
      let state_dir = value_or_default (getenv (str "WARP_STATE_DIR")) default_state_dir in
      let runtime_dir =
        value_or_default (getenv (str "WARP_RUNTIME_DIR")) (host.join state_dir (str "runtime")) in
      record {
        backend = backend;
        state_dir = state_dir;
        runtime_dir = runtime_dir;
        socks5_config_path =
            value_or_default (getenv (str "SOCKS5_CONFIG_PATH"))
              (host.join runtime_dir (str "socks5.json"));
        proxy_binary_path =
            value_or_default (getenv (str "PROXY_BINARY_PATH")) current_executable_path;
        proxy_public_host =
            value_or_default (getenv (str "PROXY_PUBLIC_HOST")) default_proxy_public_host;
        proxy_public_port =
            parse_int_or_default (getenv (str "PROXY_PUBLIC_PORT")) default_proxy_port;
        healthcheck_url = value_or_default (getenv (str "HEALTHCHECK_URL")) default_healthcheck_url;
        health_listen_addr = listen_addr;
        warp_api_base_url = default_warp_api_base_url;
        legacy_device_name = default_legacy_device_name;
        legacy_probe_url = getenv (str "WARP_CONNECTIVITY_PROBE_URL");
        legacy_probe_host = getenv (str "WARP_CONNECTIVITY_PROBE_HOST");
        legacy_mtu = default_mtu;
      }

  with_backend : (Text → Text) → Text → Result Text → Result RuntimeConfig
  unfolding config_with
  with_backend getenv listen_addr (err e) = err e
  with_backend getenv listen_addr (ok backend) = ok (config_with getenv backend listen_addr)

  with_listen_addr : (Text → Text) → Result Text → Result RuntimeConfig
  unfolding with_backend
  with_listen_addr getenv (err e) = err e
  with_listen_addr getenv (ok listen_addr) =
      with_backend getenv listen_addr (parse_warp_backend (getenv (str "WARP_BACKEND")))

  -- `getenv` may be nil.
  unfoldable pub load_runtime_config : Option (Text → Text) → Result RuntimeConfig
  unfolding with_listen_addr health_listen_addr_from_url
  load_runtime_config none = err (message "getenv is required")
  load_runtime_config (some getenv) = with_listen_addr getenv (
      health_listen_addr_from_url
        (value_or_default (getenv (str "HEALTHCHECK_URL")) default_healthcheck_url))
