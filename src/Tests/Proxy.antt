-- ===== src/Tests/Proxy.antt =====
-- The proxy's file and process, from a concrete environment to a client.
use cfwg.Base.{
  ◌≡◌, refl, true, false, ◌&&◌, none, some, [], ◌∷◌, ◌++◌, ok, str, text_eq, Text, is_empty,
}
use cfwg.Base.TextMap.{lookup, insert, delete}
use cfwg.Net.Decimal.{pos, uint16}
use cfwg.Net.HostPort.{split_host_port}
use cfwg.Net.Ip.{to4, to16}
use cfwg.Config.{unspecified}
use cfwg.Config.Auth.{is_unset}
use cfwg.Legacy.Endpoint.{value_or_default}
use cfwg.Socks5.Conn.{Conn, read_exactly, write, check}
use cfwg.Socks5.Wire.{contains_method}
use cfwg.Socks5.Auth.{negotiate_auth, verify_username_password, required_method}
use cfwg.Socks5.Auth.Sound.{login_bytes}
use cfwg.Socks5.Request.{read_request, read_address, write_reply, reply_bytes}
use cfwg.Socks5.Associations.{split_host_port_int}
use cfwg.Socks5.Handler.{Dial, handle_conn, handle_connect}
use cfwg.Socks5.Handler.Login.{is_served, LoggedIn}
use cfwg.Socks5.ProxyFile.{
  FileConfig, Files, FileJson, WriteWorld, with_public_host, config_of, write_file_config,
  load_file_config,
}
use cfwg.Socks5.Listener.{Socket, ListenWorld, CloseWorld, server_of}
use cfwg.Main.{Host, default_healthcheck_url, default_proxy_public_host, load_runtime_config}
use cfwg.Main.Usable.{LoadsIf, has_host, is_backend, load_runtime_config-LoadsIf}
use cfwg.Main.Proxy.{file_auth, file_config, write_socks5_config, with_upstream}
use cfwg.Main.Proxy.Credentials.{
  run_settings, env_auth, load_file_config-write_socks5_config, proxy-LoggedIn,
}
use cfwg.Main.Proxy.Ended.{Ended}
use cfwg.Tests.Ip.{shifted_ip}
use cfwg.Tests.Config.{environment, settings, loads}

-- Paths are joined by a slash, and a URL's host is fixed.
abbrev pub host : Host
host = record {
  join = λ a b. a ++ b'/' ∷ b;
  executable = ok (str "/app");
  request_host = λ url. ok (str "127.0.0.1:9090");
}

joins : (a b : Text) → is_empty b ≡ false → is_empty (host.join a b) ≡ false
joins [] b h = refl
joins (c ∷ a) b h = refl

load_runtime_config-LoadsIf_example :
    let url = value_or_default (environment (str "HEALTHCHECK_URL")) default_healthcheck_url in
    LoadsIf
      (has_host (host.request_host url) && is_backend (environment (str "WARP_BACKEND")))
      (load_runtime_config host (some environment))
load_runtime_config-LoadsIf_example = load_runtime_config-LoadsIf host joins environment

abbrev pub file : FileConfig
file = file_config settings [] (pos 0) true []

-- One file can be written and read.
abbrev pub json : FileJson
json = record { encode = λ f. ok (123 ∷ []); decode = λ s. ok file }

abbrev pub undisturbed : WriteWorld
undisturbed = record { mkdir_error = none; write_error = none; left = λ files. files }

abbrev path : Text
path = 112 ∷ []

abbrev written_files : Files
written_files = (path, 123 ∷ 10 ∷ []) ∷ []

written :
    write_socks5_config json undisturbed path settings [] (pos 0) true [] []
    ≡ (ok path, written_files)
unfolding write_socks5_config write_file_config with_public_host file_config insert delete
    default_proxy_public_host str
written = refl

load_file_config-write_socks5_config_example :
    load_file_config json none path written_files
    ≡ ok (run_settings json undisturbed path settings [] (pos 0) true [] [] written_files)
load_file_config-write_socks5_config_example =
    load_file_config-write_socks5_config json undisturbed path settings [] (pos 0) true [] []
      written_files path (λ body made. refl) written

abbrev socket : Socket
socket = record { addr = []; ip = none; port = pos 1080; is_open = true }

abbrev dial : Dial
dial target = ok []

abbrev line : Conn
line = record {
  input =
      5 ∷ 1 ∷ 2 ∷ login_bytes (env_auth environment) (5 ∷ 1 ∷ 0 ∷ 1 ∷ 10 ∷ 0 ∷ 0 ∷ 1 ∷ 0 ∷ 80 ∷ []);
  output = [];
  room = 100;
}

served :
    is_served (
      (handle_conn shifted_ip
        (server_of (with_upstream (config_of file)) socket (some socket))
        dial
        none
        7
        line
        []).0)
    ≡ true
unfolding handle_conn handle_connect negotiate_auth verify_username_password read_exactly write
    check contains_method text_eq required_method read_request read_address write_reply reply_bytes
    split_host_port_int split_host_port str to4 to16 uint16 server_of with_upstream config_of
    file_config file_auth
served = refl

read : load_file_config json none path written_files ≡ ok (config_of file)
unfolding load_file_config lookup text_eq config_of
read = refl

is_set : is_unset (environment (str "uname")) ≡ false
unfolding str text_eq unspecified
is_set = refl

proxy-LoggedIn_example : LoggedIn (env_auth environment) line
proxy-LoggedIn_example =
    proxy-LoggedIn shifted_ip dial none 7 environment settings json undisturbed path path [] []
      (pos 0) true [] written_files (config_of file) socket (some socket) line [] loads is_set
      (λ body made. refl) written read served

abbrev opening : ListenWorld
opening = record {
  resolve = λ addr. ok addr;
  listen_tcp = λ addr. ok socket;
  listen_udp = λ ip port. ok socket;
}

abbrev closing : CloseWorld
closing = record { tcp_error = none; udp_error = none }
