-- ===== src/Tests/Datagram.antt =====
-- A datagram of a client, with its reply.
use cfwg.Base.{◌≡◌, refl, ℕ, some, [], ◌∷◌, List, ok, str, text_eq}
use cfwg.Base.TextMap.{lookup}
use cfwg.Net.Decimal.{pos, itoa, itoa_int, uint16}
use cfwg.Net.HostPort.{join_host_port, has_byte}
use cfwg.Net.Ip.{to4}
use cfwg.Socks5.Udp.{sub_slice, tail_slice, parse_udp_packet, build_udp_reply}
use cfwg.Socks5.Associations.{
  UdpAddr, Association, Table, addr_key, association_for_source, lookup_association,
}
use cfwg.Socks5.Associations.Invariant.{IsTable}
use cfwg.Socks5.Datagram.{Network, replied, handle_udp_packet, exchange}
use cfwg.Socks5.Datagram.Reply.{Found, handle_udp_packet-reply}
use cfwg.Tests.Ip.{shifted_ip}

abbrev client : UdpAddr
client = record { ip = some (172 ∷ 18 ∷ 0 ∷ 1 ∷ []); port = pos 40000; zone = [] }

abbrev table : Table
table = (addr_key shifted_ip client, record { client_addr = client; conn = 7 }) ∷ []

abbrev echo : Network
echo = record {
  resolve = λ name. ok (record { ip = some (9 ∷ 9 ∷ 9 ∷ 9 ∷ []); port = pos 53; zone = [] });
  dial = λ target. ok tt;
  send = λ target payload. ok tt;
  receive = λ target. ok (8 ∷ []);
}

abbrev packet : List ℕ
packet = 0 ∷ 0 ∷ 0 ∷ 1 ∷ 9 ∷ 9 ∷ 9 ∷ 9 ∷ 0 ∷ 53 ∷ 7 ∷ []

abbrev response : List ℕ
response = 0 ∷ 0 ∷ 0 ∷ 1 ∷ 9 ∷ 9 ∷ 9 ∷ 9 ∷ 0 ∷ 53 ∷ 8 ∷ []

table-IsTable : IsTable shifted_ip table
unfolding lookup
table-IsTable = record { differ = (refl, tt); keyed = (refl, tt) }

-- The association has kept its address when the reply is sent.
handled :
    handle_udp_packet shifted_ip echo (λ n. client) client packet table
    ≡ (replied response client, table)
unfolding handle_udp_packet exchange association_for_source lookup_association lookup addr_key
    join_host_port has_byte itoa_int itoa text_eq parse_udp_packet sub_slice tail_slice
    build_udp_reply to4 uint16 str
handled = refl

handle_udp_packet-reply_example :
    (a : Association) × Found shifted_ip echo client table a × (client ≡ client)
handle_udp_packet-reply_example =
    handle_udp_packet-reply shifted_ip echo (λ n. client) client client packet response table table
      table-IsTable handled
