-- ===== src/Socks5/Listener.antt =====
-- NewServer, Start, Close and TCPAddr of internal/socks5/server.go: the sockets that a server listens
-- on, and the table that its handlers share.
pub mod Close
use cfwg.Base.{
  ℕ, Bool, true, false, Option, none, some, List, [], ◌∷◌, ◌++◌, if◌then◌else◌, Text, str, is_empty,
  Result, ok, err, Error, message, wrap,
}
use cfwg.Net.Decimal.{ℤ}
use cfwg.Net.Ip.{IpText}
use cfwg.Socks5.ProxyFile.{Config}
use cfwg.Socks5.Associations.{Association, Table}
use cfwg.Socks5.Handler.{Server}

-- A socket that listens, with its address.
pub record Socket : Type 0 where
  pub addr : Text
  pub ip : Option (List ℕ)
  pub port : ℤ
  pub is_open : Bool

-- `is_done` says that doneCh is closed, which closeOnce does once. `closed_conns` are the connections
-- that Close has closed, the newest first.
pub record Listener : Type 0 where
  pub cfg : Config
  pub tcp : Option Socket
  pub udp : Option Socket
  pub is_done : Bool
  pub associations : Table
  pub closed_conns : List ℕ

-- Package net: an address is resolved, and a socket is opened.
pub record ListenWorld : Type 0 where
  pub resolve : Text → Result Text
  pub listen_tcp : Text → Result Socket
  pub listen_udp : Option (List ℕ) → ℤ → Result Socket

-- The errors of the two sockets when they are closed.
pub record CloseWorld : Type 0 where
  pub tcp_error : Option Error
  pub udp_error : Option Error

unfoldable pub new_server : Config → Listener
new_server cfg = record {
  cfg = cfg;
  tcp = none;
  udp = none;
  is_done = false;
  associations = [];
  closed_conns = [];
}

unfoldable pub tcp_addr : Listener → Text
tcp_addr s = elim s.tcp [ none ↦ [] | some socket ↦ socket.addr ]

close_socket : Option Socket → Option Socket
close_socket none = none
close_socket (some socket) = some (record socket { is_open = false })

module _ (T : IpText) (w : ListenWorld) where
  -- An address that is nil stands for the unspecified one.
  udp_ip : Option (List ℕ) → Option (List ℕ)
  udp_ip none = T.parse_ip (str "0.0.0.0")
  udp_ip (some ip) = some ip

  with_udp : Listener → Result Socket → Result (Unit {0}) × Listener
  unfolding close_socket
  with_udp s (ok socket) = (ok tt, record s { udp = some socket })
  with_udp s (err e) = (err (wrap "listen udp" e), record s { tcp = close_socket s.tcp })

  with_tcp : Listener → Result Socket → Result (Unit {0}) × Listener
  unfolding with_udp udp_ip
  with_tcp s (err e) = (err (wrap "listen tcp" e), s)
  with_tcp s (ok socket) =
      let listening = record s { tcp = some socket } in
      if s.cfg.allow_udp
      then with_udp listening (w.listen_udp (udp_ip socket.ip) socket.port)
      else (ok tt, listening)

  with_addr : Listener → Result Text → Result (Unit {0}) × Listener
  unfolding with_tcp
  with_addr s (err e) = (err (wrap "resolve tcp listen addr" e), s)
  with_addr s (ok addr) = with_tcp s (w.listen_tcp addr)

  -- The loops that Start begins are the steps of the module Service.
  unfoldable pub start : Listener → Result (Unit {0}) × Listener
  unfolding with_addr
  start s =
      if is_empty s.cfg.listen_addr
      then (err (message "listen address is required"), s)
      else with_addr s (w.resolve s.cfg.listen_addr)

-- A socket that is nil is not closed, and gives no error.
socket_error : Option Socket → Option Error → Option Error
socket_error none error = none
socket_error (some socket) error = error

close_result : Option Error → Option Error → Result (Unit {0})
close_result (some e) udp = err e
close_result none (some e) = err e
close_result none none = ok tt

-- The loop over the map: each connection is closed, and its entry deleted.
unfoldable pub close_all : Table → List ℕ → Table × List ℕ
close_all [] closed = ([], closed)
close_all ((key, a) ∷ table) closed = close_all table (a.conn ∷ closed)

unfoldable pub close : CloseWorld → Listener → Result (Unit {0}) × Listener
unfolding close_socket socket_error close_result close_all
close w s =
    let swept = close_all s.associations s.closed_conns in
    if s.is_done then (ok tt, s) else (
      close_result (socket_error s.tcp w.tcp_error) (socket_error s.udp w.udp_error),
      record s {
        tcp = close_socket s.tcp;
        udp = close_socket s.udp;
        is_done = true;
        associations = swept.0;
        closed_conns = swept.1;
      },
    )

socket_port : Option Socket → Option ℤ
socket_port none = none
socket_port (some socket) = some socket.port

-- What the handlers see of a server that has started with this socket.
unfoldable pub server_of : Config → Socket → Option Socket → Server
unfolding socket_port
server_of cfg tcp udp = record {
  auth = cfg.auth;
  allow_udp = cfg.allow_udp;
  public_host_setting = cfg.public_host;
  public_port_setting = cfg.public_port;
  tcp_addr = tcp.addr;
  tcp_port = tcp.port;
  udp_port = socket_port udp;
}
