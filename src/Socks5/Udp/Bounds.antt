-- ===== src/Socks5/Udp/Bounds.antt =====
-- When parseUDPPacket runs out of bounds.
use cfwg.Base.{
  ℕ, ◌+◌, ◌≤◌, ◌<◌, ◌≡◌, ◌↔◌, ◌⊎◌, List, arith, ◌==◌, if◌then◌else◌, length, Text, take, drop, ◌++◌,
  ◌-◌,
}
use cfwg.Net.Ip.{IpText}
use cfwg.Socks5.Conn.{byte}
use cfwg.Socks5.Udp.{
  Slice, panicked, parse_udp_packet, port_and_payload, parse_ip_target, parse_domain_target,
  parse_target, sub_slice, tail_slice,
}

-- The packet gets past the code's tests: ten bytes, a header of three zeros, and a known address type.
pub record PassesTests (bytes : List ℕ) : Type 0 where
  pub long : 10 ≤ length bytes
  pub reserved : (byte bytes 0 ≡ 0) × (byte bytes 1 ≡ 0)
  pub unfragmented : byte bytes 2 ≡ 0
  pub known : (byte bytes 3 ≡ 1) ⊎ (byte bytes 3 ≡ 3) ⊎ (byte bytes 3 ≡ 4)

-- The bytes of the header, by the address type: IPv4, IPv6, or a name with its length byte.
abbrev pub header_size : List ℕ → ℕ
header_size bytes =
    if byte bytes 3 == 4 then 22 else if byte bytes 3 == 3 then 7 + byte bytes 4 else 10

port_and_payload-panics :
    (p : Slice) (host : Text) (idx : ℕ)
    → (port_and_payload p host idx ≡ panicked) ↔ (length p.bytes < idx + 2)
unfolding port_and_payload sub_slice tail_slice
port_and_payload-panics p host idx = (λ h. ground arith, λ short. ground arith)

module _ (T : IpText) (p : Slice) where
  parse_ip_target-panics :
      (size : ℕ) → (parse_ip_target T p size ≡ panicked) ↔ (length p.bytes < 6 + size)
  unfolding parse_ip_target sub_slice
  parse_ip_target-panics size = ground (
    arith,
    port_and_payload-panics p (T.ip_string (take (4 + size - 4) (drop 4 (p.bytes ++ p.spare))))
        (4 + size),
  )

  parse_domain_target-panics :
      (size : ℕ) → (parse_domain_target T p size ≡ panicked) ↔ (length p.bytes < 7 + size)
  unfolding parse_domain_target sub_slice
  parse_domain_target-panics size = ground (
    arith,
    port_and_payload-panics p (take (5 + size - 5) (drop 5 (p.bytes ++ p.spare))) (5 + size),
  )

module _ (T : IpText) (p : Slice) where
  -- parseUDPPacket panics exactly on those packets that pass its tests and are shorter than the
  -- header that their address type announces, whatever spare capacity the packet's array has.
  pub parse_udp_packet_panics :
      (parse_udp_packet T p ≡ panicked)
      ↔ (PassesTests p.bytes × (length p.bytes < header_size p.bytes))
  unfolding parse_udp_packet parse_target
  parse_udp_packet_panics = ground (
    arith,
    parse_ip_target-panics T p 4,
    parse_ip_target-panics T p 16,
    parse_domain_target-panics T p (byte p.bytes 4),
  )
