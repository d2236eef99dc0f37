-- ===== src/Socks5/Datagram/Reply.antt =====
-- Where the reply to a datagram goes.
use cfwg.Base.{
  ℕ, ◌≡◌, refl, arith, subst, ◌∙◌, ap, Option, none, some, List, [], ◌∷◌, Text, text_eq_sound,
}
use cfwg.Base.TextMap.{lookup}
use cfwg.Net.Ip.{IpText}
use cfwg.Socks5.Associations.{
  UdpAddr, Association, Table, addr_key, association_for_source, lookup_association,
}
use cfwg.Socks5.Associations.Invariant.{Keyed, IsTable, IsTable-kept, association_for_source-lookup}
use cfwg.Socks5.Datagram.{
  Network, Exchange, unanswered, panics, answered, Reaction, replied, exchange, handle_udp_packet,
  with_association, reacted,
}

lookup-Keyed :
    (T : IpText) (k : Text) (t : Table) (a : Association)
    → Keyed T t
    → lookup k t ≡ some a
    → addr_key T a.client_addr ≡ k
unfolding lookup
lookup-Keyed T k [] a keyed found = cc
lookup-Keyed T k ((j, b) ∷ t) a keyed found =
    ground (arith, text_eq_sound j k, lookup-Keyed T k t a (keyed.1))

module _ (T : IpText) (network : Network) where
  reacted-client :
      (client to : UdpAddr) (x : Exchange) (response : List ℕ)
      → reacted T network client x ≡ replied response to
      → to ≡ client
  unfolding reacted
  reacted-client client to unanswered response same = cc
  reacted-client client to panics response same = cc
  reacted-client client to (answered other) response same = cc

  -- What the search for a source has found and left.
  pub record Found (src : UdpAddr) (after : Table) (a : Association) : Type 0 where
    pub stands : lookup_association T src after ≡ some a
    pub own_text : addr_key T a.client_addr ≡ addr_key T src
    pub valid : IsTable T after

  association_for_source-Found :
      (src : UdpAddr) (table after : Table) (a : Association)
      → IsTable T table
      → association_for_source T src table ≡ (some a, after)
      → Found src after a
  unfolding lookup_association
  association_for_source-Found src table after a valid found =
      let stands = association_for_source-lookup T src table after a found in
      let kept =
        subst (λ (r : Option Association × Table). IsTable T (r.1)) found
          ((IsTable-kept T table valid).2 src) in
      record {
        stands = stands;
        own_text = lookup-Keyed T (addr_key T src) after a kept.keyed stands;
        valid = kept;
      }

  -- In a table where each association stands under its own address, a datagram is answered only if
  -- its source is given an association by the search, which stands under the source's address
  -- after the search and then has an address of the same text; the reply goes to the address that this association has
  -- when the reply is sent. The search keeps the table's invariant.
  pub handle_udp_packet-reply :
      (clients : ℕ → UdpAddr) (src to : UdpAddr) (packet response : List ℕ) (table after : Table)
      → IsTable T table
      → handle_udp_packet T network clients src packet table ≡ (replied response to, after)
      → (a : Association) × Found src after a × (to ≡ clients a.conn)
  unfolding handle_udp_packet with_association
  handle_udp_packet-reply clients src to packet response table after valid handled =
      go (association_for_source T src table) refl handled
    where
      go :
          (r : Option Association × Table)
          → association_for_source T src table ≡ r
          → with_association T network clients packet r ≡ (replied response to, after)
          → (a : Association) × Found src after a × (to ≡ clients a.conn)
      go (none, t) found same = cc
      go (some a, t) found same = (
        a,
        association_for_source-Found src table after a valid
            (found ∙ ap (λ (u : Table). (some a, u)) (ap (λ (r : Reaction × Table). r.1) same)),
        reacted-client (clients a.conn) to (exchange T network packet) response
            (ap (λ (r : Reaction × Table). r.0) same),
      )
