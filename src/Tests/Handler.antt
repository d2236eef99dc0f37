-- ===== src/Tests/Handler.antt =====
-- A client that logs in and asks for a target.
use cfwg.Base.{◌≡◌, refl, true, none, some, [], ◌∷◌, ok, str, text_eq}
use cfwg.Net.Decimal.{pos, uint16}
use cfwg.Net.HostPort.{split_host_port}
use cfwg.Net.Ip.{to4, to16}
use cfwg.Socks5.Conn.{Conn, read_exactly, write, check}
use cfwg.Socks5.Wire.{AuthConfig, contains_method}
use cfwg.Socks5.Auth.{negotiate_auth, verify_username_password, required_method}
use cfwg.Socks5.Auth.Sound.{login_bytes}
use cfwg.Socks5.Request.{read_request, read_address, write_reply, reply_bytes}
use cfwg.Socks5.Associations.{split_host_port_int}
use cfwg.Socks5.Handler.{Server, Dial, handle_conn, handle_connect}
use cfwg.Socks5.Handler.Login.{is_served, LoggedIn, handle_conn-LoggedIn}
use cfwg.Tests.Ip.{shifted_ip}

abbrev alice : AuthConfig
alice = record { username = 97 ∷ []; password = 112 ∷ [] }

abbrev server : Server
server = record {
  auth = some alice;
  allow_udp = true;
  public_host_setting = [];
  public_port_setting = pos 1080;
  tcp_addr = [];
  tcp_port = pos 1080;
  udp_port = some (pos 1080);
}

abbrev dial : Dial
dial target = ok []

abbrev line : Conn
line = record {
  input = 5 ∷ 1 ∷ 2 ∷ login_bytes alice (5 ∷ 1 ∷ 0 ∷ 1 ∷ 10 ∷ 0 ∷ 0 ∷ 1 ∷ 0 ∷ 80 ∷ []);
  output = [];
  room = 100;
}

served : is_served ((handle_conn shifted_ip server dial none 7 line []).0) ≡ true
unfolding handle_conn handle_connect negotiate_auth verify_username_password read_exactly write
    check contains_method text_eq required_method read_request read_address write_reply reply_bytes
    split_host_port_int split_host_port str to4 to16 uint16
served = refl

handle_conn-LoggedIn_example : LoggedIn alice line
handle_conn-LoggedIn_example =
    handle_conn-LoggedIn shifted_ip server dial none 7 alice line [] refl served
