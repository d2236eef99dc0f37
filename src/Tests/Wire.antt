-- ===== src/Tests/Wire.antt =====
-- The protocol's theorems at concrete connections and packets.
use cfwg.Base.{
  ℕ, ◌≡◌, refl, ◌↔◌, ◌<◌, inr, true, some, List, [], ◌∷◌, ◌++◌, arith, length, ok, err, text_eq,
  message,
}
use cfwg.Net.Decimal.{pos}
use cfwg.Socks5.Conn.{Conn, read_exactly, write, sent, check}
use cfwg.Socks5.Wire.{AuthConfig, contains_method}
use cfwg.Socks5.Auth.{negotiate_auth, verify_username_password, required_method}
use cfwg.Socks5.Auth.Sound.{login_bytes, negotiate_auth_sound}
use cfwg.Socks5.Auth.Complete.{login, negotiate_auth-login}
use cfwg.Socks5.Udp.{Slice, parse_udp_packet, panicked, done, build_udp_reply}
use cfwg.Socks5.Udp.Bounds.{PassesTests, header_size, parse_udp_packet_panics}
use cfwg.Socks5.Udp.RoundTrip.{packet, v6, parse_udp_packet_lem, parse_udp_packet-build_udp_reply}
use cfwg.Tests.Ip.{shifted_ip, shifted_ip-IsLawful}

abbrev alice : AuthConfig
alice = record { username = 97 ∷ 108 ∷ []; password = 112 ∷ [] }

abbrev mallory : AuthConfig
mallory = record { username = 97 ∷ 108 ∷ []; password = 113 ∷ [] }

abbrev line : Conn
line = record { input = 9 ∷ []; output = []; room = 100 }

abbrev logging_in : Conn
logging_in = record { input = 5 ∷ 2 ∷ 0 ∷ 2 ∷ login_bytes alice (9 ∷ []); output = []; room = 100 }

accepted : negotiate_auth (some alice) logging_in ≡ (ok tt, sent (5 ∷ 2 ∷ 1 ∷ 0 ∷ []) line)
unfolding negotiate_auth verify_username_password read_exactly write check contains_method text_eq
    required_method
accepted = refl

refused :
    negotiate_auth (some alice) (login (0 ∷ 2 ∷ []) mallory line)
    ≡ (err (message "invalid username or password"), sent (5 ∷ 2 ∷ 1 ∷ 1 ∷ []) line)
unfolding negotiate_auth verify_username_password read_exactly write check contains_method text_eq
    required_method
refused = refl

negotiate_auth_sound_example :
    (methods : List ℕ) × (contains_method methods 2 ≡ true)
    × (logging_in.input ≡ 5 ∷ length methods ∷ (methods ++ login_bytes alice (9 ∷ [])))
    × ((sent (5 ∷ 2 ∷ 1 ∷ 0 ∷ []) line).output ≡ logging_in.output ++ 5 ∷ 2 ∷ 1 ∷ 0 ∷ [])
negotiate_auth_sound_example =
    negotiate_auth_sound alice logging_in (sent (5 ∷ 2 ∷ 1 ∷ 0 ∷ []) line) accepted

negotiate_auth-login_example :
    negotiate_auth (some alice) (login (0 ∷ 2 ∷ []) mallory line)
    ≡ (err (message "invalid username or password"), sent (5 ∷ 2 ∷ 1 ∷ 1 ∷ []) line)
unfolding contains_method text_eq
negotiate_auth-login_example =
    negotiate_auth-login alice mallory (0 ∷ 2 ∷ []) line refl (omega arith)

abbrev truncated : Slice
truncated = record { bytes = 0 ∷ 0 ∷ 0 ∷ 4 ∷ 1 ∷ 2 ∷ 3 ∷ 4 ∷ 5 ∷ 6 ∷ []; spare = 0 ∷ 0 ∷ 0 ∷ [] }

truncated_PassesTests : PassesTests truncated.bytes
truncated_PassesTests = record {
  long = omega arith;
  reserved = omega arith;
  unfragmented = refl;
  known = inr (inr refl);
}

parse_udp_packet_panics_example :
    (parse_udp_packet shifted_ip truncated ≡ panicked)
    ↔ (PassesTests truncated.bytes × (length truncated.bytes < header_size truncated.bytes))
parse_udp_packet_panics_example = parse_udp_packet_panics shifted_ip truncated

-- A packet of ten bytes that announces an IPv6 address.
truncated_panics : parse_udp_packet shifted_ip truncated ≡ panicked
truncated_panics =
    (parse_udp_packet_panics shifted_ip truncated).1 (truncated_PassesTests, omega arith)

abbrev v6_address : List ℕ
v6_address = 32 ∷ 1 ∷ 13 ∷ 184 ∷ 0 ∷ 0 ∷ 0 ∷ 0 ∷ 0 ∷ 0 ∷ 0 ∷ 0 ∷ 0 ∷ 0 ∷ 0 ∷ 1 ∷ []

parse_udp_packet_lem_example :
    parse_udp_packet shifted_ip (record { bytes = packet 4 v6_address 53 (7 ∷ []); spare = [] })
    ≡ done (shifted_ip.ip_string v6_address, 53, 7 ∷ [])
parse_udp_packet_lem_example =
    parse_udp_packet_lem shifted_ip (7 ∷ []) [] 53 (omega arith) (shifted_ip.ip_string v6_address) 4
      v6_address (v6 v6_address refl) (omega arith)

parse_udp_packet-build_udp_reply_example :
    (reply : List ℕ) × (build_udp_reply shifted_ip
        (shifted_ip.ip_string (1 ∷ 1 ∷ 1 ∷ 1 ∷ []))
        (pos 53)
        (7 ∷ [])
      ≡ ok reply)
    × (parse_udp_packet shifted_ip (record { bytes = reply; spare = 0 ∷ [] })
        ≡ done (shifted_ip.ip_string (1 ∷ 1 ∷ 1 ∷ 1 ∷ []), 53, 7 ∷ []))
parse_udp_packet-build_udp_reply_example =
    parse_udp_packet-build_udp_reply shifted_ip shifted_ip-IsLawful (1 ∷ 1 ∷ 1 ∷ 1 ∷ []) (7 ∷ [])
      (0 ∷ []) 53 refl (omega arith) (omega arith)
