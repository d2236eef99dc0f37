-- ===== src/Socks5/ProxyFile.antt =====
-- internal/socks5/config.go: the file that tells the proxy process its settings.
pub mod Load
use cfwg.Base.{
  ℕ, Bool, Option, none, some, List, [], ◌∷◌, ◌++◌, if◌then◌else◌, Text, str, is_empty, Result, ok,
  err, Error, message, wrap,
}
use cfwg.Base.TextMap.{TextMap, lookup, insert}
use cfwg.Net.Decimal.{ℤ}
use cfwg.Socks5.Wire.{AuthConfig}

pub record FileConfig : Type 0 where
  pub listen_addr : Text
  pub public_host : Text
  pub public_port : ℤ
  pub allow_udp : Bool
  pub upstream_socks5_addr : Text
  pub auth : Option AuthConfig

-- `Timeout` is a number of nanoseconds.
pub record Dialer : Type 0 where
  pub server_addr : Text
  pub auth : Option AuthConfig
  pub timeout : ℤ

-- The settings of a server. `dial_context` is nil, or the method of a dialer.
pub record Config : Type 0 where
  pub listen_addr : Text
  pub public_host : Text
  pub public_port : ℤ
  pub allow_udp : Bool
  pub upstream_socks5_addr : Text
  pub auth : Option AuthConfig
  pub dial_context : Option Dialer

-- The files, by path.
abbrev pub Files : Type 0
Files = TextMap Text

-- encoding/json on a FileConfig.
pub record FileJson : Type 0 where
  pub encode : FileConfig → Result Text
  pub decode : Text → Result FileConfig

-- What the calls of one write meet: the error of each, and what a failed write leaves.
pub record WriteWorld : Type 0 where
  pub mkdir_error : Option Error
  pub write_error : Option Error
  pub left : Files → Files

-- The default of the public host.
unfoldable pub with_public_host : FileConfig → FileConfig
with_public_host cfg =
    if is_empty cfg.public_host then record cfg { public_host = str "127.0.0.1" } else cfg

unfoldable pub config_of : FileConfig → Config
config_of file = record {
  listen_addr = file.listen_addr;
  public_host = file.public_host;
  public_port = file.public_port;
  allow_udp = file.allow_udp;
  upstream_socks5_addr = file.upstream_socks5_addr;
  auth = file.auth;
  dial_context = none;
}

module _ (json : FileJson) where
  write_payload : WriteWorld → Text → Text → Option Error → Files → Result (Unit {0}) × Files
  write_payload w path payload (some e) files = (err (wrap "write socks5 config" e), w.left files)
  write_payload w path payload none files = (ok tt, insert path payload files)

  write_encoded : WriteWorld → Text → Result Text → Files → Result (Unit {0}) × Files
  unfolding write_payload
  write_encoded w path (err e) files = (err (wrap "marshal socks5 config" e), files)
  write_encoded w path (ok payload) files =
      write_payload w path (payload ++ 10 ∷ []) w.write_error files

  write_in_dir : WriteWorld → Text → FileConfig → Option Error → Files → Result (Unit {0}) × Files
  unfolding write_encoded
  write_in_dir w path cfg (some e) files = (err (wrap "create config dir" e), files)
  write_in_dir w path cfg none files = write_encoded w path (json.encode cfg) files

  unfoldable pub write_file_config :
      WriteWorld → Text → FileConfig → Files → Result (Unit {0}) × Files
  unfolding write_in_dir with_public_host
  write_file_config w path cfg files =
      if is_empty path
      then (err (message "socks5 config path is required"), files)
      else if is_empty cfg.listen_addr
      then (err (message "socks5 listen address is required"), files)
      else write_in_dir w path (with_public_host cfg) w.mkdir_error files

  decoded : Result FileConfig → Result Config
  unfolding config_of
  decoded (err e) = err (wrap "decode socks5 config" e)
  decoded (ok file) = ok (config_of file)

  -- os.ReadFile, of a file that may be missing or unreadable.
  read_payload : Option Error → Option Text → Result Config
  unfolding decoded
  read_payload (some e) body = err (wrap "read socks5 config" e)
  read_payload none none = err (wrap "read socks5 config" (message "no such file or directory"))
  read_payload none (some body) = decoded (json.decode body)

  unfoldable pub load_file_config : Option Error → Text → Files → Result Config
  unfolding read_payload
  load_file_config read_error path files = read_payload read_error (lookup path files)
