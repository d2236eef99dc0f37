-- ===== src/Socks5/Handler/Lifetime.antt =====
-- handleUDPAssociate of internal/socks5/server.go: whether an association ends with its connection.
use cfwg.Base.{
  ℕ, ◌≡◌, refl, arith, Option, none, some, List, Text, Result, ok, err, text_eq_iff, text_eq_refl,
}
use cfwg.Base.TextMap.{lookup-delete, lookup-insert}
use cfwg.Net.Ip.{IpText}
use cfwg.Socks5.Conn.{Conn}
use cfwg.Socks5.Associations.{
  UdpAddr, Association, Table, addr_key, delete_association, association_for_source,
  lookup_association, store_association,
}
use cfwg.Socks5.Associations.Invariant.{association_for_source-lookup}
use cfwg.Socks5.Handler.{
  Server, Dial, associated, handle_udp_associate, after_associate, client_udp_addr, end_conn,
}

module _ (T : IpText) (s : Server) (dial : Dial) (remote : Option (List ℕ)) (conn_id : ℕ) where
  kept_associate :
      (addr own : UdpAddr) (c : Conn) (table t : Table) (r : Result (Unit {0}) × Conn)
      → after_associate T s dial remote conn_id addr table r ≡ (associated own, c, t)
      → (own ≡ addr) × (t ≡ table)
  unfolding after_associate
  kept_associate addr own c table t (ok u, c') h = ground arith
  kept_associate addr own c table t (err e, c') h = cc

  stored_own :
      (target : Text) (own : UdpAddr) (c c' : Conn) (table t : Table)
      → handle_udp_associate T s dial remote conn_id target c table ≡ (associated own, c', t)
      → lookup_association T own t ≡ some (record { client_addr = own; conn = conn_id })
  unfolding handle_udp_associate lookup_association store_association
  stored_own target own c c' table t handled =
      let addr = client_udp_addr T s dial remote conn_id target in
      let (there, same) = kept_associate addr own c' _ t _ handled in
      rw
        (
          same,
          there,
          lookup-insert (addr_key T addr) (addr_key T addr)
              (record { client_addr = addr; conn = conn_id }) table,
          text_eq_refl (addr_key T addr),
        )
        refl

  -- An association may outlive its connection. A connection has been given one, and a datagram from
  -- a source that is not in the table has been given this same association. When the connection
  -- then ends, the source still finds in the table an association of the ended connection.
  pub adopted_outlives_connection :
      (target : Text) (own source : UdpAddr) (c c' : Conn) (table t t' : Table) (b : Association)
      → handle_udp_associate T s dial remote conn_id target c table ≡ (associated own, c', t)
      → lookup_association T source t ≡ none
      → association_for_source T source t ≡ (some b, t')
      → b.conn ≡ conn_id
      → (a : Association) × (lookup_association T source
            (end_conn T s dial remote conn_id (associated own) t')
          ≡ some a)
        × (a.conn ≡ conn_id)
  unfolding end_conn lookup_association delete_association
  adopted_outlives_connection target own source c c' table t t' b handled unknown given mine =
      let stored = stored_own target own c c' table t handled in
      (
        b,
        rw (lookup-delete (addr_key T own) (addr_key T source) t') (
            ground (
              arith,
              text_eq_iff (addr_key T own) (addr_key T source),
              association_for_source-lookup T source t t' b given,
            )),
        mine,
      )
