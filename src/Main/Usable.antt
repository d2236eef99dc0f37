-- ===== src/Main/Usable.antt =====
-- cmd/warp-socksd/main.go: which environments give settings, and what these are good for.
use cfwg.Base.{
  ◌≡◌, refl, arith, Bool, true, false, ◌&&◌, ◌||◌, not, Option, none, some, Text, str, is_empty,
  text_eq, text_eq_refl, Result, ok, err, Bool-cases, inl, inr,
}
use cfwg.Net.Decimal.{ℤ, is_positive, atoi}
use cfwg.Legacy.Endpoint.{value_or_default}
use cfwg.Main.{
  RuntimeConfig, Host, default_state_dir, default_healthcheck_url, default_proxy_port,
  default_proxy_public_host, backend_legacy, positive_or, parse_int_or_default, parse_warp_backend,
  path_or_default, current_executable_path, health_listen_addr_from_url, host_of, config_with,
  with_backend, with_listen_addr, load_runtime_config,
}

-- A URL whose request has a host.
abbrev pub has_host : Result Text → Bool
has_host (ok address) = not (is_empty address)
has_host (err e) = false

-- The backend is not set, or set to the only one there is.
abbrev pub is_backend : Text → Bool
is_backend raw = is_empty raw || text_eq raw backend_legacy

-- Settings that the other parts can use: no path and no address is empty, the public port is
-- positive, and the backend is the only one there is.
pub record IsUsable (cfg : RuntimeConfig) : Type 0 where
  pub backend : cfg.backend ≡ backend_legacy
  pub state_dir : is_empty cfg.state_dir ≡ false
  pub runtime_dir : is_empty cfg.runtime_dir ≡ false
  pub socks5_config_path : is_empty cfg.socks5_config_path ≡ false
  pub proxy_binary_path : is_empty cfg.proxy_binary_path ≡ false
  pub proxy_public_host : is_empty cfg.proxy_public_host ≡ false
  pub proxy_public_port : is_positive cfg.proxy_public_port ≡ true
  pub healthcheck_url : is_empty cfg.healthcheck_url ≡ false
  pub health_listen_addr : is_empty cfg.health_listen_addr ≡ false

-- The outcome of loading, by whether the environment is acceptable.
abbrev pub LoadsIf : Bool → Result RuntimeConfig → Type 0
LoadsIf accepted (ok cfg) = (accepted ≡ true) × IsUsable cfg
LoadsIf accepted (err e) = accepted ≡ false

value_or_default-filled :
    (raw fallback : Text)
    → is_empty fallback ≡ false
    → is_empty (value_or_default raw fallback) ≡ false
value_or_default-filled raw fallback h = ground arith

positive_or-positive :
    (fallback : ℤ) (o : Option ℤ)
    → is_positive fallback ≡ true
    → is_positive (positive_or fallback o) ≡ true
unfolding positive_or
positive_or-positive fallback none h = h
positive_or-positive fallback (some value) h = ground arith

parse_int_or_default-positive :
    (raw : Text) → is_positive (parse_int_or_default raw default_proxy_port) ≡ true
unfolding parse_int_or_default is_positive
parse_int_or_default-positive raw =
    ground (arith, positive_or-positive default_proxy_port (atoi raw) refl)

path_or_default-filled : (host : Host) (r : Result Text) → is_empty (path_or_default host r) ≡ false
unfolding path_or_default str
path_or_default-filled host (err e) = refl
path_or_default-filled host (ok path) = ground arith

-- A join with a last part that is not empty is not empty.
module _ (host : Host)
    (joins : (a b : Text) → is_empty b ≡ false → is_empty (host.join a b) ≡ false)
    (getenv : Text → Text) where
  config_with-IsUsable :
      (listen_addr : Text)
      → is_empty listen_addr ≡ false
      → IsUsable (config_with host getenv backend_legacy listen_addr)
  unfolding config_with current_executable_path default_state_dir default_healthcheck_url
      default_proxy_public_host str
  config_with-IsUsable listen_addr given = record {
    backend = refl;
    state_dir = value_or_default-filled (getenv (str "WARP_STATE_DIR")) default_state_dir refl;
    runtime_dir = value_or_default-filled _ _ (joins _ _ refl);
    socks5_config_path = value_or_default-filled _ _ (joins _ _ refl);
    proxy_binary_path = value_or_default-filled _ _ (path_or_default-filled host host.executable);
    proxy_public_host =
        value_or_default-filled (getenv (str "PROXY_PUBLIC_HOST")) default_proxy_public_host refl;
    proxy_public_port = parse_int_or_default-positive _;
    healthcheck_url =
        value_or_default-filled (getenv (str "HEALTHCHECK_URL")) default_healthcheck_url refl;
    health_listen_addr = given;
  }

  with_backend-LoadsIf :
      (raw listen_addr : Text)
      → is_empty listen_addr ≡ false
      → LoadsIf (is_backend raw) (with_backend host getenv listen_addr (parse_warp_backend raw))
  unfolding with_backend parse_warp_backend
  with_backend-LoadsIf raw listen_addr given =
      ground (arith, text_eq_refl backend_legacy, config_with-IsUsable listen_addr given)

  with_listen_addr-LoadsIf :
      (r : Result Text)
      → LoadsIf
          (has_host r && is_backend (getenv (str "WARP_BACKEND")))
          (with_listen_addr host getenv (host_of host r))
  unfolding with_listen_addr host_of
  with_listen_addr-LoadsIf (err e) = refl
  with_listen_addr-LoadsIf (ok address) = elim (Bool-cases (is_empty address)) [
    | inl missing ↦ rw missing refl
    | inr given ↦ rw given (with_backend-LoadsIf (getenv (str "WARP_BACKEND")) address given)
  ]

  -- The program's settings load exactly if the health check's URL, or its default, has a host and
  -- the backend is not set or is the legacy one. They are then usable: every path, the public host
  -- and the listening address are not empty and the public port is positive, whatever text the
  -- environment has for it. A join of paths with a last part that is not empty is assumed not to be
  -- empty.
  pub load_runtime_config-LoadsIf :
      let url = value_or_default (getenv (str "HEALTHCHECK_URL")) default_healthcheck_url in
      LoadsIf
        (has_host (host.request_host url) && is_backend (getenv (str "WARP_BACKEND")))
        (load_runtime_config host (some getenv))
  unfolding load_runtime_config health_listen_addr_from_url
  load_runtime_config-LoadsIf = with_listen_addr-LoadsIf _
