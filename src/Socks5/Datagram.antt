-- ===== src/Socks5/Datagram.antt =====
-- handleUDPPacket of internal/socks5/server.go: one datagram of a client, from its source to the
-- reply. The slice's spare bytes are none, since the packet is a copy of its own length.
pub mod Reply
use cfwg.Base.{ℕ, Option, none, some, List, [], Text, str, is_empty, if◌then◌else◌, Result, ok, err}
use cfwg.Net.Decimal.{ℤ, itoa}
use cfwg.Net.HostPort.{join_host_port}
use cfwg.Net.Ip.{IpText}
use cfwg.Socks5.Udp.{
  Slice, Outcome, Datagram, done, refused, panicked, parse_udp_packet, build_udp_reply,
}
use cfwg.Socks5.Associations.{UdpAddr, Association, Table, association_for_source}

-- The network: a name is resolved, a socket to it made, the payload sent, and one datagram received.
pub record Network : Type 0 where
  pub resolve : Text → Result UdpAddr
  pub dial : UdpAddr → Result (Unit {0})
  pub send : UdpAddr → List ℕ → Result (Unit {0})
  pub receive : UdpAddr → Result (List ℕ)

-- What parsing a packet and sending its payload come to: nothing, a panic, or a response.
pub data Exchange : Type 0 where
  unanswered : Exchange
  panics : Exchange
  answered : List ℕ → Exchange

-- What a datagram comes to: nothing, a panic, or a reply that is sent to a client.
pub data Reaction : Type 0 where
  ignored : Reaction
  crashed : Reaction
  replied : List ℕ → UdpAddr → Reaction

module _ (T : IpText) (network : Network) where
  -- `IP.String()` of an address that may be nil.
  target_ip_text : Option (List ℕ) → Text
  target_ip_text none = str "<nil>"
  target_ip_text (some ip) = if is_empty ip then str "<nil>" else T.ip_string ip

  built : Result (List ℕ) → Exchange
  built (ok response) = answered response
  built (err e) = unanswered

  received : UdpAddr → Result (List ℕ) → Exchange
  unfolding target_ip_text built
  received target (ok reply) =
      built (build_udp_reply T (target_ip_text target.ip) target.port reply)
  received target (err e) = unanswered

  sent_to : UdpAddr → Result (Unit {0}) → Exchange
  unfolding received
  sent_to target (ok u) = received target (network.receive target)
  sent_to target (err e) = unanswered

  dialled : UdpAddr → List ℕ → Result (Unit {0}) → Exchange
  unfolding sent_to
  dialled target payload (ok u) = sent_to target (network.send target payload)
  dialled target payload (err e) = unanswered

  resolved : List ℕ → Result UdpAddr → Exchange
  unfolding dialled
  resolved payload (ok target) = dialled target payload (network.dial target)
  resolved payload (err e) = unanswered

  parsed : Outcome Datagram → Exchange
  unfolding resolved
  parsed (done (host, port, payload)) =
      resolved payload (network.resolve (join_host_port host (itoa port)))
  parsed (refused e) = unanswered
  parsed panicked = panics

  -- What happens without the mutex, between the search for an association and the reply.
  unfoldable pub exchange : List ℕ → Exchange
  unfolding parsed
  exchange packet = parsed (parse_udp_packet T (record { bytes = packet; spare = [] }))

  reacted : UdpAddr → Exchange → Reaction
  reacted client unanswered = ignored
  reacted client panics = crashed
  reacted client (answered response) = replied response client

  with_association : (ℕ → UdpAddr) → List ℕ → Option Association × Table → Reaction × Table
  unfolding reacted
  with_association clients packet (none, table) = (ignored, table)
  with_association clients packet (some assoc, table) =
      (reacted (clients assoc.conn) (exchange packet), table)

  -- The association is shared with other goroutines, and its address is read only when the reply is
  -- sent: `clients` has the addresses of the associations at that time, by their connections. The
  -- table is the one after the search.
  unfoldable pub handle_udp_packet : (ℕ → UdpAddr) → UdpAddr → List ℕ → Table → Reaction × Table
  unfolding with_association
  handle_udp_packet clients src packet table =
      with_association clients packet (association_for_source T src table)
