-- ===== src/Socks5/Handler/Connected.antt =====
-- handleConn of internal/socks5/server.go for a client that logs in and asks for a target.
use cfwg.Base.{ℕ, ◌≡◌, refl, Option, List, Text, ok}
use cfwg.Net.Ip.{IpText}
use cfwg.Socks5.Conn.{Conn}
use cfwg.Socks5.Auth.{negotiate_auth}
use cfwg.Socks5.Request.{read_request, write_reply}
use cfwg.Socks5.Associations.{Table, split_host_port_int}
use cfwg.Socks5.Handler.{
  Server, Dial, tunnel, handle_conn, handle_negotiated, handle_request, handle_command,
  handle_connect, connected, after_reply, with_table,
}

module _ (T : IpText) (s : Server) (dial : Dial) (remote : Option (List ℕ)) (conn_id : ℕ) where
  -- The steps of a CONNECT that succeed, one after the other.
  pub handle_conn-tunnel :
      (c asked met end : Conn) (table : Table) (target local : Text)
      → negotiate_auth s.auth c ≡ (ok tt, asked)
      → read_request T asked ≡ (ok (1, target), met)
      → dial target ≡ ok local
      → write_reply T 0 ((split_host_port_int local).0) ((split_host_port_int local).1) met
        ≡ (ok tt, end)
      → handle_conn T s dial remote conn_id c table ≡ (tunnel target, end, table)
  unfolding handle_conn handle_connect
  handle_conn-tunnel c asked met end table target local accepted read reached replied =
      rw
        (
          accepted, handle_negotiated, read, handle_request, handle_command, reached, connected,
          replied, after_reply, with_table,
        )
        refl
