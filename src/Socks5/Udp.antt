-- ===== src/Socks5/Udp.antt =====
-- parseUDPPacket and buildUDPReply of internal/socks5/server.go. Go's slice expressions are
-- modelled with their bounds checks, since the code relies on them.
pub mod Bounds
pub mod RoundTrip
use cfwg.Base.{
  ℕ, ◌+◌, ◌-◌, Bool, ◌&&◌, not, Option, none, some, List, [], ◌∷◌, ◌++◌, leb, ltb, ◌==◌,
  if◌then◌else◌, Text, length, take, drop, Result, ok, err, Error, message, message_int,
  message_text,
}
use cfwg.Net.Decimal.{ℤ, uint16}
use cfwg.Net.Ip.{IpText, to4}
use cfwg.Socks5.Conn.{byte}
use cfwg.Socks5.Wire.{addr_type_ipv4, addr_type_ipv6, addr_type_domain, be_uint16, put_uint16}

-- A slice of bytes: its elements, and those of its array between its length and its capacity.
pub record Slice : Type 0 where
  pub bytes : List ℕ
  pub spare : List ℕ

-- A call returns, returns an error, or panics.
pub data Outcome {ℓ} (A : Type ℓ) : Type ℓ where
  done : A → Outcome A
  refused : Error → Outcome A
  panicked : Outcome A

infixl 5 ◌>>=◌
abbrev pub ◌>>=◌ {ℓ κ} : {A : Type ℓ} {B : Type κ} → Outcome A → (A → Outcome B) → Outcome B
done a >>= f = f a
refused e >>= f = refused e
panicked >>= f = panicked

-- `p[from:to]` panics unless from ≤ to and to is at most the capacity.
unfoldable pub sub_slice : Slice → ℕ → ℕ → Outcome (List ℕ)
sub_slice p from to =
    if leb from to && leb to (length p.bytes + length p.spare)
    then done (take (to - from) (drop from (p.bytes ++ p.spare)))
    else panicked

-- `p[from:]` panics unless from is at most the length.
unfoldable pub tail_slice : Slice → ℕ → Outcome (List ℕ)
tail_slice p from = if leb from (length p.bytes) then done (drop from p.bytes) else panicked

-- Host, port and payload.
abbrev pub Datagram : Type 0
Datagram = Text × ℕ × List ℕ

port_and_payload : Slice → Text → ℕ → Outcome Datagram
port_and_payload p host idx = do
  port_bytes ← sub_slice p idx (idx + 2)
  payload ← tail_slice p (idx + 2)
  done (host, be_uint16 (byte port_bytes 0) (byte port_bytes 1), payload)

build_v4 : ℤ → List ℕ → Option (List ℕ) → Result (List ℕ)
build_v4 port payload none = err (message "only IPv4 udp replies are supported")
build_v4 port payload (some ipv4) =
    ok (0 ∷ 0 ∷ 0 ∷ addr_type_ipv4 ∷ (ipv4 ++ (put_uint16 (uint16 port) ++ payload)))

build_for : Text → ℤ → List ℕ → Option (List ℕ) → Result (List ℕ)
unfolding build_v4
build_for host port payload none = err (message_text "invalid udp reply host" host)
build_for host port payload (some addr) = build_v4 port payload (to4 addr)

module _ (T : IpText) where
  parse_ip_target : Slice → ℕ → Outcome Datagram
  unfolding port_and_payload
  parse_ip_target p size = do
    ip ← sub_slice p 4 (4 + size)
    port_and_payload p (T.ip_string ip) (4 + size)

  parse_domain_target : Slice → ℕ → Outcome Datagram
  unfolding port_and_payload
  parse_domain_target p size = do
    host ← sub_slice p 5 (5 + size)
    port_and_payload p host (5 + size)

  parse_target : Slice → Outcome Datagram
  unfolding parse_ip_target parse_domain_target
  parse_target p =
      if byte p.bytes 3 == addr_type_ipv4
      then parse_ip_target p 4
      else if byte p.bytes 3 == addr_type_ipv6
      then parse_ip_target p 16
      else if byte p.bytes 3 == addr_type_domain
      then parse_domain_target p (byte p.bytes 4)
      else refused (message_int "unsupported udp address type" (byte p.bytes 3))

  unfoldable pub parse_udp_packet : Slice → Outcome Datagram
  unfolding parse_target
  parse_udp_packet p =
      if ltb (length p.bytes) 10
      then refused (message "udp packet too short")
      else if not (byte p.bytes 0 == 0 && byte p.bytes 1 == 0 && byte p.bytes 2 == 0)
      then refused (message "invalid udp header")
      else parse_target p

  unfoldable pub build_udp_reply : Text → ℤ → List ℕ → Result (List ℕ)
  unfolding build_for
  build_udp_reply host port payload = build_for host port payload (T.parse_ip host)
