-- ===== src/Main/Proxy/Credentials.antt =====
-- cmd/warp-socksd/main.go: the way of the credentials from the environment to the proxy's clients.
use cfwg.Base.{
  ℕ, ◌≡◌, refl, sym, ◌∙◌, arith, Bool, true, false, Option, none, some, List, Text, str,
  text_eq_refl, Result, ok, err, ap, if◌then◌else◌, is_empty, Bool-cases, inl, inr,
}
use cfwg.Net.Decimal.{ℤ, pos, is_positive, itoa, itoa_int}
use cfwg.Net.Ip.{IpText}
use cfwg.Config.{Config, unspecified, normalize_optional, load_from_env}
use cfwg.Config.Auth.{is_unset, load_from_env-auth}
use cfwg.Socks5.Conn.{Conn}
use cfwg.Socks5.Wire.{AuthConfig}
use cfwg.Socks5.Associations.{Table}
use cfwg.Socks5.ProxyFile
use cfwg.Socks5.ProxyFile.{
  FileConfig, Files, FileJson, WriteWorld, with_public_host, config_of, write_file_config,
  load_file_config,
}
use cfwg.Socks5.ProxyFile.Load.{ReadsBack, load_file_config-write_file_config}
use cfwg.Socks5.Handler.{Dial, handle_conn}
use cfwg.Socks5.Handler.Login.{is_served, LoggedIn, handle_conn-LoggedIn}
use cfwg.Socks5.Listener.{Socket, server_of}
use cfwg.Main.{default_proxy_public_host}
use cfwg.Main.Proxy.{
  file_auth, file_config, written_path, write_socks5_config, with_upstream, client_auth,
}

-- The credentials of the environment.
abbrev pub env_auth : (Text → Text) → AuthConfig
env_auth getenv = record { username = getenv (str "uname"); password = getenv (str "upwd") }

module _ (getenv : Text → Text) (c : Config) (loaded : load_from_env (some getenv) ≡ ok c) where
  -- Where the settings load, the prober logs in to the proxy with exactly the credentials that the
  -- proxy's file has, and without any if the file has none.
  client_auth-file_auth : client_auth (getenv (str "uname")) (getenv (str "upwd")) ≡ file_auth c
  unfolding client_auth file_auth normalize_optional
  client_auth-file_auth =
      let (same, enabled, username, password) = load_from_env-auth getenv c loaded in
      ground (arith, text_eq_refl unspecified)

  file_auth-env : is_unset (getenv (str "uname")) ≡ false → file_auth c ≡ some (env_auth getenv)
  unfolding file_auth normalize_optional
  file_auth-env set =
      let (same, enabled, username, password) = load_from_env-auth getenv c loaded in ground arith

with_public_host-file_config :
    (c : Config) (public_host : Text) (public_port : ℤ) (allow_udp : Bool) (upstream : Text)
    → with_public_host (file_config c public_host public_port allow_udp upstream)
      ≡ file_config c public_host public_port allow_udp upstream
unfolding with_public_host file_config default_proxy_public_host str
with_public_host-file_config c public_host public_port allow_udp upstream = ground arith

written_path-ok :
    (path p : Text) (r : Result (Unit {0}) × Files) (after : Files)
    → written_path path r ≡ (ok p, after)
    → (p ≡ path) × (r ≡ (ok tt, after))
unfolding written_path
written_path-ok path p (ok u, files) after h = ground arith
written_path-ok path p (err e, files) after h = cc

module _ (json : FileJson) (w : WriteWorld) (path : Text) (c : Config) (public_host : Text)
    (public_port : ℤ) (allow_udp : Bool) (upstream : Text) (files after : Files) where
  loaded_file_config :
      (p : Text)
      → ReadsBack json (file_config c public_host public_port allow_udp upstream)
      → write_socks5_config json w path c public_host public_port allow_udp upstream files
        ≡ (ok p, after)
      → load_file_config json none p after
        ≡ ok (config_of (file_config c public_host public_port allow_udp upstream))
  unfolding write_socks5_config
  loaded_file_config p back written =
      let file = file_config c public_host public_port allow_udp upstream in
      let filled = with_public_host-file_config c public_host public_port allow_udp upstream in
      let (there, wrote) = written_path-ok path p _ after written in
      rw (there, ← filled)
        (load_file_config-write_file_config json w path files after file (rw filled back) wrote)

  -- What the proxy process is to run with, by the settings of this run: the port that is compiled in,
  -- the local host and this port where none are set, and the credentials if they are enabled.
  abbrev pub run_settings : ProxyFile.Config
  run_settings = record {
    listen_addr = str ":1080";
    public_host = if is_empty public_host then str "127.0.0.1" else public_host;
    public_port = if is_positive public_port then public_port else pos 1080;
    allow_udp = allow_udp;
    upstream_socks5_addr = upstream;
    auth =
        if c.auth.enabled
        then some (record { username = c.auth.username; password = c.auth.password })
        else none;
    dial_context = none;
  }

  config_of-file_config :
      config_of (file_config c public_host public_port allow_udp upstream) ≡ run_settings
  unfolding config_of file_config file_auth default_proxy_public_host itoa_int itoa str
  config_of-file_config = elim (Bool-cases (is_positive public_port)) [
    | inl set ↦ rw set refl
    | inr unset ↦ rw unset refl
  ]

  -- Where the decoder reads back what the encoder makes of the proxy's file, the file, once it is
  -- written, is loaded as the settings of this run, each field as it is in `run_settings`.
  pub load_file_config-write_socks5_config :
      (p : Text)
      → ReadsBack json (file_config c public_host public_port allow_udp upstream)
      → write_socks5_config json w path c public_host public_port allow_udp upstream files
        ≡ (ok p, after)
      → load_file_config json none p after ≡ ok run_settings
  load_file_config-write_socks5_config p back written =
      loaded_file_config p back written ∙ ap (λ (k : ProxyFile.Config). ok k) config_of-file_config

with_upstream-auth :
    (cfg : ProxyFile.Config) (tcp : Socket) (udp : Option Socket)
    → (server_of (with_upstream cfg) tcp udp).auth ≡ cfg.auth
unfolding with_upstream server_of
with_upstream-auth cfg tcp udp = ground arith

config_of-auth :
    (c : Config) (public_host : Text) (public_port : ℤ) (allow_udp : Bool) (upstream : Text)
    → (config_of (file_config c public_host public_port allow_udp upstream)).auth ≡ file_auth c
unfolding config_of file_config
config_of-auth c public_host public_port allow_udp upstream = refl

module _ (T : IpText) (dial : Dial) (remote : Option (List ℕ)) (conn_id : ℕ) where
  -- From the environment to the client. Where the settings load with a username set, and the
  -- proxy's file has been written from them and read back by the proxy process, a client of the
  -- proxy is served only if it has first sent exactly the username and the password that the
  -- environment has. The addresses of the proxy's sockets, the dialer and the table are any.
  pub proxy-LoggedIn :
      (getenv : Text → Text) (c : Config) (json : FileJson) (w : WriteWorld)
      (path p public_host upstream : Text) (public_port : ℤ) (allow_udp : Bool)
      (files after : Files) (cfg : ProxyFile.Config) (tcp : Socket) (udp : Option Socket)
      (line : Conn) (table : Table)
      → load_from_env (some getenv) ≡ ok c
      → is_unset (getenv (str "uname")) ≡ false
      → ReadsBack json (file_config c public_host public_port allow_udp upstream)
      → write_socks5_config json w path c public_host public_port allow_udp upstream files
        ≡ (ok p, after)
      → load_file_config json none p after ≡ ok cfg
      → is_served
          ((handle_conn T (server_of (with_upstream cfg) tcp udp) dial remote conn_id line table).0)
        ≡ true
      → LoggedIn (env_auth getenv) line
  proxy-LoggedIn getenv c json w path p public_host upstream public_port allow_udp files after cfg
        tcp udp line table loaded set back written read served =
      handle_conn-LoggedIn T (server_of (with_upstream cfg) tcp udp) dial remote conn_id
        (env_auth getenv) line table
        (with_upstream-auth cfg tcp udp
          ∙ read_auth (
              sym read
              ∙ loaded_file_config json w path c public_host public_port allow_udp upstream files
                  after p back written)
          ∙ config_of-auth c public_host public_port allow_udp upstream
          ∙ file_auth-env getenv c loaded set)
        served
    where
      read_auth : {x y : ProxyFile.Config} → ok x ≡ ok y → x.auth ≡ y.auth
      read_auth e = cc
