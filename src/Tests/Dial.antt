-- ===== src/Tests/Dial.antt =====
-- A dial through the proxy, at a concrete target.
use cfwg.Base.{
  ℕ, ◌≡◌, refl, true, false, none, some, List, [], ◌∷◌, ◌++◌, arith, ok, str, text_eq,
  if◌then◌else◌,
}
use cfwg.Net.Decimal.{pos, itoa, uint16}
use cfwg.Net.HostPort.{has_byte, join_host_port, split_host_port}
use cfwg.Net.Ip.{to4, to16}
use cfwg.Socks5.Conn.{Conn, sent}
use cfwg.Socks5.Wire.{AuthConfig}
use cfwg.Socks5.Request.{reply_bytes}
use cfwg.Socks5.Client.{connect_request}
use cfwg.Socks5.Client.Interop.{hello}
use cfwg.Socks5.Client.Target.{name}
use cfwg.Socks5.ProxyFile.{Dialer}
use cfwg.Socks5.Client.Dialer.{DialWorld, dial_context}
use cfwg.Socks5.Client.Dialer.Closed.{Tidy, dial_context-Tidy}
use cfwg.Socks5.Client.Dialer.Proxied.{succeeded, dial_context-handle_conn}
use cfwg.Socks5.Associations.{split_host_port_int}
use cfwg.Socks5.Handler.{Server, Dial, tunnel, handle_conn}
use cfwg.Tests.Ip.{shifted_ip, shifted_ip-IsLawful}

abbrev alice : AuthConfig
alice = record { username = 97 ∷ []; password = 112 ∷ [] }

abbrev server : Server
server = record {
  auth = some alice;
  allow_udp = true;
  public_host_setting = [];
  public_port_setting = pos 1080;
  tcp_addr = [];
  tcp_port = pos 1080;
  udp_port = none;
}

-- A target is reached from an address without a port.
abbrev dial : Dial
dial target = ok []

abbrev reply : List ℕ
reply = 5 ∷ 0 ∷ 0 ∷ 1 ∷ 0 ∷ 0 ∷ 0 ∷ 0 ∷ 0 ∷ 0 ∷ []

abbrev line : Conn
line = record { input = []; output = []; room = 100 }

abbrev reached : DialWorld
reached = record {
  dial = λ addr. ok (record line { input = 5 ∷ 2 ∷ 1 ∷ 0 ∷ (reply ++ 9 ∷ []) });
  deadline_error = none;
}

abbrev dialer : Dialer
dialer = record { server_addr = []; auth = some alice; timeout = pos 0 }

made : reply_bytes shifted_ip 0 ((split_host_port_int []).0) ((split_host_port_int []).1) ≡ ok reply
unfolding reply_bytes split_host_port_int split_host_port str text_eq to4 to16 uint16
made = refl

dial_context-handle_conn_example :
    let request = connect_request shifted_ip (str "dns.test") (pos 53) in
    let address = join_host_port (str "dns.test") (itoa 53) in
    (handle_conn shifted_ip server dial none 7
        (record line { input = hello alice ++ (request ++ []) })
        []
      ≡ (tunnel address, record (sent reply (sent (5 ∷ 2 ∷ 1 ∷ 0 ∷ []) line)) { input = [] }, []))
    × (dial_context shifted_ip reached dialer (str "tcp") address
        ≡ succeeded (record (sent request (sent (hello alice) line)) { input = 9 ∷ [] }))
unfolding has_byte str text_eq connect_request
dial_context-handle_conn_example =
    dial_context-handle_conn shifted_ip shifted_ip-IsLawful alice (omega arith) (omega arith) server
      dial none 7 reached dialer (str "dns.test") [] 53 line line [] reply [] (9 ∷ []) refl refl
      (name (str "dns.test") refl (omega arith) refl refl) (omega arith) refl made refl refl
      (omega arith) (omega arith)

-- A proxy that closes the connection at once.
abbrev closing : DialWorld
closing = record { dial = λ addr. ok line; deadline_error = none }

dial_context-Tidy_example :
    let attempt = dial_context shifted_ip closing dialer (str "tcp") [] in
    if text_eq (str "tcp") (str "tcp")
    then Tidy shifted_ip closing dialer [] (closing.dial dialer.server_addr) attempt
    else (attempt.opened ≡ false) × (attempt.closed ≡ false)
dial_context-Tidy_example = dial_context-Tidy shifted_ip closing dialer [] (str "tcp")
