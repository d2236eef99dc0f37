-- ===== src/Socks5/Handler.antt =====
-- The handlers of internal/socks5/server.go that serve one TCP connection, up to the copying of bytes
-- or the wait for the end of the connection.
pub mod Login
pub mod Connected
pub mod Owned
pub mod Lifetime
use cfwg.Base.{
  ℕ, Bool, true, false, ◌&&◌, ◌||◌, not, Option, none, some, List, [], ◌==◌, if◌then◌else◌, Text,
  str, is_empty, text_eq, Result, ok, err, Error,
}
use cfwg.Net.Decimal.{ℤ, pos, is_positive}
use cfwg.Net.Ip.{IpText, is_unspecified, is_loopback}
use cfwg.Socks5.Conn.{Conn}
use cfwg.Socks5.Wire.{
  AuthConfig, command_connect, command_udp_associate, reply_succeeded, reply_general_failure,
  reply_command_unsupported,
}
use cfwg.Socks5.Auth.{negotiate_auth}
use cfwg.Socks5.Request.{read_request, write_reply}
use cfwg.Socks5.Associations.{
  UdpAddr, Association, Table, split_host_port_int, store_association, delete_association,
}

-- The settings and the listeners, which have text addresses and ports.
pub record Server : Type 0 where
  pub auth : Option AuthConfig
  pub allow_udp : Bool
  pub public_host_setting : Text
  pub public_port_setting : ℤ
  pub tcp_addr : Text
  pub tcp_port : ℤ
  pub udp_port : Option ℤ

-- `DialContext`: the address of this end of the connection to a target.
abbrev pub Dial : Type 0
Dial = Text → Result Text

-- How a handler goes on: the connection is closed, bytes are copied to and from a target, or the
-- association of an address stands until the connection ends.
pub data Served : Type 0 where
  closed : Served
  tunnel : Text → Served
  associated : UdpAddr → Served

unfoldable pub public_host : Server → Text
public_host s =
    let host = (split_host_port_int s.tcp_addr).0 in
    if not (is_empty s.public_host_setting)
    then s.public_host_setting
    else if is_empty host || text_eq host (str "0.0.0.0") || text_eq host (str "::")
    then str "127.0.0.1"
    else host

listener_port : Option ℤ → ℤ → ℤ
listener_port none tcp = tcp
listener_port (some p) tcp = p

unfoldable pub public_port : Server → ℤ
unfolding listener_port is_positive
public_port s =
    if is_positive s.public_port_setting
    then s.public_port_setting
    else listener_port s.udp_port s.tcp_port

has_listener : Option ℤ → Bool
has_listener none = false
has_listener (some port) = true

module _ (T : IpText) (s : Server) (dial : Dial) (remote : Option (List ℕ)) (conn_id : ℕ) where
  after_reply : Served → Result (Unit {0}) × Conn → Served × Conn
  after_reply next (ok u, c) = (next, c)
  after_reply next (err e, c) = (closed, c)

  -- A refusal, whose error is not looked at.
  refuse : ℕ → Conn → Served × Conn
  refuse code c = (closed, (write_reply T code (str "0.0.0.0") (pos 0) c).1)

  connected : Text → Result Text → Conn → Served × Conn
  unfolding after_reply refuse
  connected target (err e) c = refuse reply_general_failure c
  connected target (ok local) c =
      let address = split_host_port_int local in
      after_reply (tunnel target) (write_reply T reply_succeeded (address.0) (address.1) c)

  unfoldable pub handle_connect : Text → Conn → Served × Conn
  unfolding connected
  handle_connect target c = connected target (dial target) c

  -- A client that names no address of its own has the address of its connection.
  own_ip : Option (List ℕ) → Option (List ℕ)
  own_ip none = remote
  own_ip (some ip) = if is_unspecified ip || is_loopback ip then remote else some ip

  unfoldable pub client_udp_addr : Text → UdpAddr
  unfolding own_ip
  client_udp_addr target =
      let address = split_host_port_int target in
      record { ip = own_ip (T.parse_ip (address.0)); port = address.1; zone = [] }

  -- The deferred deletion, where the reply cannot be written.
  after_associate : UdpAddr → Table → Result (Unit {0}) × Conn → Served × Conn × Table
  after_associate addr table (ok u, c) = (associated addr, c, table)
  after_associate addr table (err e, c) = (closed, c, delete_association T addr table)

  unfoldable pub handle_udp_associate : Text → Conn → Table → Served × Conn × Table
  unfolding after_associate
  handle_udp_associate target c table =
      let addr = client_udp_addr target in
      after_associate addr
        (store_association T addr (record { client_addr = addr; conn = conn_id }) table)
        (write_reply T reply_succeeded (public_host s) (public_port s) c)

  with_table : Table → Served × Conn → Served × Conn × Table
  with_table table (served, c) = (served, c, table)

  handle_command : ℕ → Text → Conn → Table → Served × Conn × Table
  unfolding with_table refuse has_listener
  handle_command cmd target c table =
      if cmd == command_connect
      then with_table table (handle_connect target c)
      else if cmd == command_udp_associate
      then (if not s.allow_udp || not (has_listener s.udp_port)
          then with_table table (refuse reply_command_unsupported c)
          else handle_udp_associate target c table)
      else with_table table (refuse reply_command_unsupported c)

  handle_request : Table → Result (ℕ × Text) × Conn → Served × Conn × Table
  unfolding handle_command
  handle_request table (err e, c) = (closed, c, table)
  handle_request table (ok (cmd, target), c) = handle_command cmd target c table

  handle_negotiated : Table → Result (Unit {0}) × Conn → Served × Conn × Table
  unfolding handle_request
  handle_negotiated table (err e, c) = (closed, c, table)
  handle_negotiated table (ok u, c) = handle_request table (read_request T c)

  unfoldable pub handle_conn : Conn → Table → Served × Conn × Table
  unfolding handle_negotiated
  handle_conn c table = handle_negotiated table (negotiate_auth s.auth c)

  -- The end of a served connection.
  unfoldable pub end_conn : Served → Table → Table
  end_conn closed table = table
  end_conn (tunnel target) table = table
  end_conn (associated addr) table = delete_association T addr table
