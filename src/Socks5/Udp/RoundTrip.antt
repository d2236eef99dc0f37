-- ===== src/Socks5/Udp/RoundTrip.antt =====
-- Packets in the protocol's form are parsed to what they carry, and the server's own replies too.
use cfwg.Base.{
  ℕ, ◌+◌, ◌-◌, ◌≤◌, ◌<◌, ◌≡◌, ap, List, [], ◌∷◌, ◌++◌, arith, length, length-append, take-append,
  drop-append, append_assoc, Text, ok, le→leb, le→ltb, subst,
}
use cfwg.Net.Decimal.{pos, uint16}
use cfwg.Net.Ip.{IpText, IsLawful, to4-mapped, AllBytes}
use cfwg.Socks5.Wire.{put_uint16}
use cfwg.Socks5.Udp.{
  done, sub_slice, tail_slice, port_and_payload, parse_ip_target, parse_domain_target, parse_target,
  parse_udp_packet, build_udp_reply, build_for,
}

-- A slice expression over the middle of the bytes.
sub_slice-middle :
    (a b c spare : List ℕ)
    → sub_slice (record { bytes = a ++ (b ++ c); spare = spare }) (length a) (length a + length b)
      ≡ done b
unfolding sub_slice
sub_slice-middle a b c spare = rw (
  le→leb (length a) (length a + length b) (omega arith),
  le→leb (length a + length b) (length (a ++ (b ++ c)) + length spare)
      (omega (arith, length-append a (b ++ c), length-append b c)),
  append_assoc a (b ++ c) spare,
  append_assoc b c spare,
  drop-append a (b ++ (c ++ spare)),
  size,
  take-append b (c ++ spare),
)
  where
    size : length a + length b - length a ≡ length b
    size = omega arith

tail_slice-end :
    (a c spare : List ℕ) → tail_slice (record { bytes = a ++ c; spare = spare }) (length a) ≡ done c
unfolding tail_slice
tail_slice-end a c spare =
    rw (le→leb (length a) (length (a ++ c)) (omega (arith, length-append a c)), drop-append a c)

tail_slice-past :
    (a b c spare : List ℕ)
    → tail_slice (record { bytes = a ++ (b ++ c); spare = spare }) (length a + length b) ≡ done c
tail_slice-past a b c spare =
    rw (← length-append a b, ← append_assoc a b c) (tail_slice-end (a ++ b) c spare)

port_and_payload_lem :
    (host : Text) (a payload spare : List ℕ) (port : ℕ)
    → port < 65536
    → port_and_payload
        (record { bytes = a ++ (put_uint16 port ++ payload); spare = spare })
        host
        (length a)
      ≡ done (host, port, payload)
unfolding port_and_payload
port_and_payload_lem host a payload spare port small =
    rw (sub_slice-middle a (put_uint16 port) payload spare) (
      rw (tail_slice-past a (put_uint16 port) payload spare)
        (ap (λ (n : ℕ). done (host, n, payload)) (omega arith)))

port_and_payload-past :
    (host : Text) (a b payload spare : List ℕ) (port : ℕ)
    → port < 65536
    → port_and_payload
        (record { bytes = a ++ (b ++ (put_uint16 port ++ payload)); spare = spare })
        host
        (length a + length b)
      ≡ done (host, port, payload)
port_and_payload-past host a b payload spare port small =
    rw (← length-append a b, ← append_assoc a b (put_uint16 port ++ payload))
      (port_and_payload_lem host (a ++ b) payload spare port small)

-- A packet: three zeros, the address type, the address, the port and the payload.
abbrev pub packet : ℕ → List ℕ → ℕ → List ℕ → List ℕ
packet atyp addr port payload = 0 ∷ 0 ∷ 0 ∷ atyp ∷ (addr ++ (put_uint16 port ++ payload))

module _ (T : IpText) (payload spare : List ℕ) (port : ℕ) (small : port < 65536) where
  parse_ip_target_lem :
      (atyp : ℕ) (ip : List ℕ)
      → parse_ip_target T
          (record { bytes = packet atyp ip port payload; spare = spare })
          (length ip)
        ≡ done (T.ip_string ip, port, payload)
  unfolding parse_ip_target
  parse_ip_target_lem atyp ip =
      rw (sub_slice-middle (0 ∷ 0 ∷ 0 ∷ atyp ∷ []) ip (put_uint16 port ++ payload) spare)
        (port_and_payload-past (T.ip_string ip) (0 ∷ 0 ∷ 0 ∷ atyp ∷ []) ip payload spare port small)

  parse_domain_target_lem :
      (host : Text)
      → parse_domain_target T
          (record { bytes = packet 3 (length host ∷ host) port payload; spare = spare })
          (length host)
        ≡ done (host, port, payload)
  unfolding parse_domain_target
  parse_domain_target_lem host =
      rw
        (sub_slice-middle (0 ∷ 0 ∷ 0 ∷ 3 ∷ length host ∷ []) host (put_uint16 port ++ payload)
          spare)
        (port_and_payload-past host (0 ∷ 0 ∷ 0 ∷ 3 ∷ length host ∷ []) host payload spare port
          small)

-- The address field that names a host.
pub data Carries (T : IpText) : Text → ℕ → List ℕ → Type 0 where
  v4 : (ip : List ℕ) → length ip ≡ 4 → Carries T (T.ip_string ip) 1 ip
  v6 : (ip : List ℕ) → length ip ≡ 16 → Carries T (T.ip_string ip) 4 ip
  name : (host : Text) → Carries T host 3 (length host ∷ host)

module _ (T : IpText) (payload spare : List ℕ) (port : ℕ) (small : port < 65536) where
  parse_target_lem :
      (host : Text) (atyp : ℕ) (addr : List ℕ)
      → Carries T host atyp addr
      → parse_target T (record { bytes = packet atyp addr port payload; spare = spare })
        ≡ done (host, port, payload)
  unfolding parse_target
  parse_target_lem host atyp addr (v4 ip l) =
      subst
        (λ (n : ℕ).
          parse_ip_target T (record { bytes = packet 1 ip port payload; spare = spare }) n
          ≡ done (T.ip_string ip, port, payload))
        l (parse_ip_target_lem T payload spare port small 1 ip)
  parse_target_lem host atyp addr (v6 ip l) =
      subst
        (λ (n : ℕ).
          parse_ip_target T (record { bytes = packet 4 ip port payload; spare = spare }) n
          ≡ done (T.ip_string ip, port, payload))
        l (parse_ip_target_lem T payload spare port small 4 ip)
  parse_target_lem host atyp addr (name host') =
      parse_domain_target_lem T payload spare port small host

  -- A packet in the protocol's form is parsed to the host that its address field names, its port and
  -- its payload, for each of the three address types; the port is below 65536 and the packet has
  -- the ten bytes that the code wants, which a name of one or two bytes may miss.
  pub parse_udp_packet_lem :
      (host : Text) (atyp : ℕ) (addr : List ℕ)
      → Carries T host atyp addr
      → 10 ≤ length (packet atyp addr port payload)
      → parse_udp_packet T (record { bytes = packet atyp addr port payload; spare = spare })
        ≡ done (host, port, payload)
  unfolding parse_udp_packet
  parse_udp_packet_lem host atyp addr h long =
      rw (le→ltb (length (packet atyp addr port payload)) 10 long)
        (parse_target_lem host atyp addr h)

module _ (T : IpText) (L : IsLawful T) where
  -- The reply that the server builds for an IPv4 source is a packet that parses back to this
  -- source and payload.
  pub parse_udp_packet-build_udp_reply :
      (ip payload spare : List ℕ) (port : ℕ)
      → length ip ≡ 4
      → AllBytes ip
      → port < 65536
      → (reply : List ℕ) × (build_udp_reply T (T.ip_string ip) (pos port) payload ≡ ok reply)
        × (parse_udp_packet T (record { bytes = reply; spare = spare })
            ≡ done (T.ip_string ip, port, payload))
  unfolding build_udp_reply uint16
  parse_udp_packet-build_udp_reply ip payload spare port l bytes small = (
    packet 1 ip port payload,
    rw (L.parse-string4 ip l bytes, build_for, to4-mapped ip l)
        (ap (λ (n : ℕ). ok (packet 1 ip n payload)) (omega arith)),
    parse_udp_packet_lem T payload spare port small (T.ip_string ip) 1 ip (v4 ip l)
        (omega (arith, length-append ip (put_uint16 port ++ payload))),
  )
