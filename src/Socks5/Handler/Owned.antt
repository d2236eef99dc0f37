-- ===== src/Socks5/Handler/Owned.antt =====
-- handleConn of internal/socks5/server.go: which associations it leaves in the table.
use cfwg.Base.{
  ℕ, ◌≡◌, refl, Bool, true, false, ◌==◌, Option, List, Text, Result, ok, err, if◌then◌else◌,
}
use cfwg.Net.Ip.{IpText}
use cfwg.Socks5.Conn.{Conn}
use cfwg.Socks5.Auth.{negotiate_auth}
use cfwg.Socks5.Request.{read_request}
use cfwg.Socks5.Associations.{UdpAddr, Table, store_association, delete_association}
use cfwg.Socks5.Associations.Invariant.{IsTable, IsTable-kept}
use cfwg.Socks5.Associations.Owned.{
  AllConns, store_association-Owned, delete-store-Owned, delete_association-Owned,
}
use cfwg.Socks5.Handler.{
  Server, Dial, Served, closed, tunnel, associated, handle_conn, handle_negotiated, handle_request,
  handle_command, handle_connect, handle_udp_associate, after_associate, with_table, refuse,
  end_conn,
}
use cfwg.Socks5.Handler.Login.{is_served}

module _ (T : IpText) (s : Server) (dial : Dial) (remote : Option (List ℕ)) (conn_id : ℕ) where
  -- What a handler may do to the table: nothing, to store an association of its connection under
  -- its own address, which stands until the connection ends, or to store one and delete it.
  pub data Touched (table : Table) : Served × Conn × Table → Type 0 where
    untouched : (served : Served) (c : Conn) → Touched table (served, c, table)
    stored :
        (addr : UdpAddr) (c : Conn)
        → Touched table (
          associated addr,
          c,
          store_association T addr (record { client_addr = addr; conn = conn_id }) table,
        )
    dropped :
        (addr : UdpAddr) (c : Conn)
        → Touched table (
          closed,
          c,
          delete_association T addr
              (store_association T addr (record { client_addr = addr; conn = conn_id }) table),
        )

  after_associate-Touched :
      (addr : UdpAddr) (table : Table) (r : Result (Unit {0}) × Conn)
      → Touched table (
          after_associate T s dial remote conn_id addr
            (store_association T addr (record { client_addr = addr; conn = conn_id }) table)
            r)
  unfolding after_associate
  after_associate-Touched addr table (ok u, c) = stored addr c
  after_associate-Touched addr table (err e, c) = dropped addr c

  with_table-Touched :
      (table : Table) (r : Served × Conn)
      → Touched table (with_table T s dial remote conn_id table r)
  unfolding with_table
  with_table-Touched table (served, c) = untouched served c

  handle_command-Touched :
      (cmd : ℕ) (target : Text) (c : Conn) (table : Table)
      → Touched table (handle_command T s dial remote conn_id cmd target c table)
  unfolding handle_command handle_udp_associate
  handle_command-Touched cmd target c table = choose (cmd == 1) (cmd == 3) _
    where
      choose :
          (connect associate refused : Bool)
          → Touched table (
              if connect
              then with_table T s dial remote conn_id table
                  (handle_connect T s dial remote conn_id target c)
              else if associate
              then (if refused
                  then with_table T s dial remote conn_id table (refuse T s dial remote conn_id 7 c)
                  else handle_udp_associate T s dial remote conn_id target c table)
              else with_table T s dial remote conn_id table (refuse T s dial remote conn_id 7 c))
      choose true associate refused = with_table-Touched table _
      choose false true true = with_table-Touched table _
      choose false true false = after_associate-Touched _ table _
      choose false false refused = with_table-Touched table _

  handle_request-Touched :
      (table : Table) (r : Result (ℕ × Text) × Conn)
      → Touched table (handle_request T s dial remote conn_id table r)
  unfolding handle_request
  handle_request-Touched table (err e, c) = untouched closed c
  handle_request-Touched table (ok (cmd, target), c) = handle_command-Touched cmd target c table

  handle_negotiated-Touched :
      (table : Table) (r : Result (Unit {0}) × Conn)
      → Touched table (handle_negotiated T s dial remote conn_id table r)
  unfolding handle_negotiated
  handle_negotiated-Touched table (err e, c) = untouched closed c
  handle_negotiated-Touched table (ok u, c) = handle_request-Touched table (read_request T c)

  pub handle_conn-Touched :
      (c : Conn) (table : Table) → Touched table (handle_conn T s dial remote conn_id c table)
  unfolding handle_conn
  handle_conn-Touched c table = handle_negotiated-Touched table (negotiate_auth s.auth c)

  Touched-IsTable :
      (table : Table) (r : Served × Conn × Table)
      → Touched table r
      → IsTable T table
      → IsTable T (r.2)
  Touched-IsTable table r (untouched served c) h = h
  Touched-IsTable table r (stored addr c) h =
      (IsTable-kept T table h).0 (record { client_addr = addr; conn = conn_id })
  Touched-IsTable table r (dropped addr c) h =
      (IsTable-kept T _
          ((IsTable-kept T table h).0 (record { client_addr = addr; conn = conn_id }))).1
        addr

  -- A connection that is served has the property that the associations' connections have.
  Touched-AllConns :
      (P : ℕ → Type 0) (table : Table) (r : Served × Conn × Table)
      → Touched table r
      → (is_served (r.0) ≡ true → P conn_id)
      → AllConns P table
      → AllConns P (r.2)
  Touched-AllConns P table r (untouched served c) serves all = all
  Touched-AllConns P table r (stored addr c) serves all =
      store_association-Owned P T addr _ table (serves refl) all
  Touched-AllConns P table r (dropped addr c) serves all = delete-store-Owned P T addr _ table all

  pub handle_conn-IsTable :
      (c : Conn) (table : Table)
      → IsTable T table
      → IsTable T ((handle_conn T s dial remote conn_id c table).2)
  handle_conn-IsTable c table h = Touched-IsTable table _ (handle_conn-Touched c table) h

  pub handle_conn-AllConns :
      (P : ℕ → Type 0) (c : Conn) (table : Table)
      → (is_served ((handle_conn T s dial remote conn_id c table).0) ≡ true → P conn_id)
      → AllConns P table
      → AllConns P ((handle_conn T s dial remote conn_id c table).2)
  handle_conn-AllConns P c table serves all =
      Touched-AllConns P table _ (handle_conn-Touched c table) serves all

  pub end_conn-IsTable :
      (served : Served) (table : Table)
      → IsTable T table
      → IsTable T (end_conn T s dial remote conn_id served table)
  unfolding end_conn
  end_conn-IsTable closed table h = h
  end_conn-IsTable (tunnel target) table h = h
  end_conn-IsTable (associated addr) table h = (IsTable-kept T table h).1 addr

  pub end_conn-AllConns :
      (P : ℕ → Type 0) (served : Served) (table : Table)
      → AllConns P table
      → AllConns P (end_conn T s dial remote conn_id served table)
  unfolding end_conn
  end_conn-AllConns P closed table all = all
  end_conn-AllConns P (tunnel target) table all = all
  end_conn-AllConns P (associated addr) table all = delete_association-Owned P T addr table all
