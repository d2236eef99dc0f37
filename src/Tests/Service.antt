-- ===== src/Tests/Service.antt =====
-- A server that has been asked for a UDP association, and a datagram from the client.
use cfwg.Base.{◌≡◌, refl, ℕ, true, none, some, [], ◌∷◌, List, ok, err, message, str, text_eq, Text}
use cfwg.Base.TextMap.{lookup, insert, delete}
use cfwg.Net.Decimal.{pos, itoa, itoa_int, atoi, uint16, is_positive}
use cfwg.Net.HostPort.{join_host_port, split_host_port, has_byte}
use cfwg.Net.Ip.{to4, to16, ip_equal, is_unspecified, is_loopback}
use cfwg.Socks5.Conn.{Conn, read_exactly, write, check}
use cfwg.Socks5.Wire.{AuthConfig, contains_method}
use cfwg.Socks5.Auth.{negotiate_auth, verify_username_password, required_method}
use cfwg.Socks5.Auth.Sound.{login_bytes}
use cfwg.Socks5.Request.{read_request, read_address, write_reply, reply_bytes}
use cfwg.Socks5.Udp.{sub_slice, tail_slice, parse_udp_packet, build_udp_reply}
use cfwg.Socks5.Associations.{
  UdpAddr, Association, Table, addr_key, association_for_source, lookup_association,
  store_association, split_host_port_int, adopt_sole_association, adopt_association, sole, scan,
  is_candidate, int_eq, adopt_association_matching_source_port,
}
use cfwg.Socks5.Handler.{
  Server, Dial, Served, associated, handle_conn, handle_udp_associate, client_udp_addr, public_host,
  public_port, end_conn,
}
use cfwg.Socks5.Handler.Lifetime.{adopted_outlives_connection}
use cfwg.Socks5.Datagram.{Network, exchange}
use cfwg.Socks5.Service.{
  Running, Waiting, takes_sole, fresh, accept_step, search_step, reply_step, address_of, Reachable,
  accepts, searches, replies, starts, steps,
}
use cfwg.Socks5.Service.Safe.{IsSafe, HasLoggedIn, Reachable-IsSafe}
use cfwg.Socks5.Service.Replies.{AllSent, HasHad, reply-HasLoggedIn}
use cfwg.Tests.Ip.{shifted_ip}

abbrev alice : AuthConfig
alice = record { username = 97 ∷ []; password = 112 ∷ [] }

abbrev server : Server
server = record {
  auth = some alice;
  allow_udp = true;
  public_host_setting = 104 ∷ [];
  public_port_setting = pos 1080;
  tcp_addr = [];
  tcp_port = pos 1080;
  udp_port = some (pos 1080);
}

abbrev dial : Dial
dial target = err (message "no target")

-- The client asks for an association of its address 172.18.0.1 and the port 40000.
abbrev line : Conn
line = record {
  input = 5 ∷ 1 ∷ 2 ∷ login_bytes alice (5 ∷ 3 ∷ 0 ∷ 1 ∷ 172 ∷ 18 ∷ 0 ∷ 1 ∷ 156 ∷ 64 ∷ []);
  output = [];
  room = 100;
}

abbrev asked : Running
asked = accept_step shifted_ip server dial none line fresh

abbrev asked-Reachable : Reachable shifted_ip server asked
asked-Reachable = steps starts (accepts dial none line)

Reachable-IsSafe_example : IsSafe shifted_ip server alice refl asked
Reachable-IsSafe_example = Reachable-IsSafe shifted_ip server alice refl asked asked-Reachable

-- The address that the client has named, in its 16-byte form.
abbrev client : UdpAddr
client = record {
  ip = some (0 ∷ 0 ∷ 0 ∷ 0 ∷ 0 ∷ 0 ∷ 0 ∷ 0 ∷ 0 ∷ 0 ∷ 255 ∷ 255 ∷ 172 ∷ 18 ∷ 0 ∷ 1 ∷ []);
  port = pos 40000;
  zone = [];
}

-- A source with another port, which is given the only association.
abbrev source : UdpAddr
source = record { ip = some (172 ∷ 18 ∷ 0 ∷ 1 ∷ []); port = pos 40001; zone = [] }

abbrev echo : Network
echo = record {
  resolve = λ name. ok (record { ip = some (9 ∷ 9 ∷ 9 ∷ 9 ∷ []); port = pos 53; zone = [] });
  dial = λ target. ok tt;
  send = λ target payload. ok tt;
  receive = λ target. ok (8 ∷ []);
}

abbrev packet : List ℕ
packet = 0 ∷ 0 ∷ 0 ∷ 1 ∷ 9 ∷ 9 ∷ 9 ∷ 9 ∷ 0 ∷ 53 ∷ 7 ∷ []

abbrev response : List ℕ
response = 0 ∷ 0 ∷ 0 ∷ 1 ∷ 9 ∷ 9 ∷ 9 ∷ 9 ∷ 0 ∷ 53 ∷ 8 ∷ []

abbrev waiting : Waiting
waiting = record { source = source; packet = packet; conn = 0 }

abbrev found : Running
found = search_step shifted_ip server takes_sole source packet asked

waits : found.waiting ≡ waiting ∷ []
unfolding search_step adopt_sole_association adopt_association lookup delete insert sole accept_step
    handle_conn handle_udp_associate client_udp_addr negotiate_auth verify_username_password
    read_exactly write check contains_method text_eq required_method read_request read_address
    write_reply reply_bytes split_host_port_int split_host_port str to4 to16 uint16
    store_association addr_key join_host_port has_byte itoa itoa_int atoi ip_equal is_unspecified
    is_loopback public_host public_port is_positive
waits = refl

abbrev replied_to : Running
replied_to = reply_step shifted_ip server echo [] waiting [] found

-- A reply is sent, to the source.
reply_sent : replied_to.sent ≡ record { datagram = waiting; response = response; to = source } ∷ []
unfolding lookup_association reply_step address_of exchange parse_udp_packet sub_slice tail_slice
    build_udp_reply search_step adopt_sole_association adopt_association lookup delete insert sole
    accept_step handle_conn handle_udp_associate client_udp_addr negotiate_auth
    verify_username_password read_exactly write check contains_method text_eq required_method
    read_request read_address write_reply reply_bytes split_host_port_int split_host_port str to4
    to16 uint16 store_association addr_key join_host_port has_byte itoa itoa_int atoi ip_equal
    is_unspecified is_loopback public_host public_port is_positive
reply_sent = refl

reply-HasLoggedIn_example :
    AllSent shifted_ip server alice refl
      (HasLoggedIn shifted_ip server alice refl replied_to.accepted)
      (HasHad replied_to.addresses)
      replied_to.sent
reply-HasLoggedIn_example = reply-HasLoggedIn shifted_ip server alice refl replied_to (
    steps (steps asked-Reachable (searches takes_sole source packet))
      (replies echo [] waiting [] waits))

abbrev table : Table
table = (addr_key shifted_ip client, record { client_addr = client; conn = 0 }) ∷ []

abbrev moved : Table
moved = (addr_key shifted_ip source, record { client_addr = source; conn = 0 }) ∷ []

abbrev target : Text
target = join_host_port (shifted_ip.ip_string (172 ∷ 18 ∷ 0 ∷ 1 ∷ [])) (itoa 40000)

abbrev open_line : Conn
open_line = record { input = []; output = []; room = 100 }

abbrev handled : Served × Conn × Table
handled = handle_udp_associate shifted_ip server dial none 0 target open_line []

associates : handled ≡ (associated client, handled.1, table)
unfolding handle_udp_associate client_udp_addr write check write_reply reply_bytes
    split_host_port_int split_host_port str to4 to16 uint16 store_association insert delete addr_key
    join_host_port has_byte itoa itoa_int atoi ip_equal is_unspecified is_loopback public_host
    public_port is_positive text_eq
associates = refl

unknown : lookup_association shifted_ip source table ≡ none
unfolding lookup_association lookup addr_key join_host_port has_byte itoa_int itoa text_eq
unknown = refl

given :
    association_for_source shifted_ip source table
    ≡ (some (record { client_addr = source; conn = 0 }), moved)
unfolding association_for_source lookup_association adopt_association_matching_source_port scan
    is_candidate int_eq sole lookup insert delete addr_key join_host_port has_byte itoa_int itoa
    text_eq ip_equal is_loopback is_unspecified adopt_sole_association adopt_association
given = refl

adopted_outlives_connection_example :
    (a : Association) × (lookup_association shifted_ip source
        (end_conn shifted_ip server dial none 0 (associated client) moved)
      ≡ some a)
    × (a.conn ≡ 0)
adopted_outlives_connection_example =
    adopted_outlives_connection shifted_ip server dial none 0 target client source open_line
      (handled.1) [] table moved (record { client_addr = source; conn = 0 }) associates unknown
      given refl
