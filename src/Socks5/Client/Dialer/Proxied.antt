-- ===== src/Socks5/Client/Dialer/Proxied.antt =====
-- Dialer.DialContext against handleConn of internal/socks5/server.go: a connection through the proxy.
use cfwg.Base.{
  ℕ, ◌+◌, ◌≤◌, ◌<◌, ◌≡◌, refl, arith, true, false, Option, none, some, List, [], ◌∷◌, ◌++◌, Text,
  str, text_eq_refl, ok, length,
}
use cfwg.Net.Decimal.{ℤ, pos, itoa}
use cfwg.Net.HostPort.{join_host_port}
use cfwg.Net.Ip.{IpText, IsLawful}
use cfwg.Socks5.Conn.{Conn, sent}
use cfwg.Socks5.Wire.{AuthConfig}
use cfwg.Socks5.Auth.Complete.{matches}
use cfwg.Socks5.Request.{reply_bytes, read_request}
use cfwg.Socks5.Request.Reply.{write_reply-sent}
use cfwg.Socks5.Client.{client_handshake, client_connect, connect_request}
use cfwg.Socks5.Client.Interop.{hello, client_handshake-negotiate_auth}
use cfwg.Socks5.Client.Target.{IsHost, client_connect-read_request}
use cfwg.Socks5.Client.Dialer.{
  DialWorld, Attempt, dial_context, dialled, limited, shaken, connected,
}
use cfwg.Socks5.ProxyFile.{Dialer}
use cfwg.Socks5.Associations.{Table, split_host_port_int}
use cfwg.Socks5.Handler.{Server, Dial, tunnel, handle_conn}
use cfwg.Socks5.Handler.Connected.{handle_conn-tunnel}

matches_refl : (auth : AuthConfig) → matches auth auth ≡ true
matches_refl auth = rw (text_eq_refl auth.username, text_eq_refl auth.password) refl

-- An attempt that has succeeded with this connection.
abbrev pub succeeded : Conn → Attempt
succeeded c = record { answer = ok c; opened = true; closed = false; deadline = none }

module _ (T : IpText) (L : IsLawful T) (auth : AuthConfig) (u : length auth.username < 256)
    (p : length auth.password < 256) where
  dial_context_lem :
      (w : DialWorld) (d : Dialer) (address : Text) (c mid end : Conn)
      → w.dial d.server_addr ≡ ok c
      → w.deadline_error ≡ none
      → client_handshake d.auth c ≡ (ok tt, mid)
      → client_connect T address mid ≡ (ok tt, end)
      → dial_context T w d (str "tcp") address ≡ succeeded end
  unfolding dial_context
  dial_context_lem w d address c mid end opened limit shook met =
      rw (text_eq_refl (str "tcp"), opened, dialled, limit, limited, shook, shaken, met, connected)
        refl

  -- The exchanges of one dial, with the reply that the server is able to make.
  exchanges :
      (host bound : Text) (port : ℕ) (bound_port : ℤ) (c s : Conn) (reply rest more : List ℕ)
      → IsHost T host
      → port < 65536
      → reply_bytes T 0 bound bound_port ≡ ok reply
      → length (connect_request T host (pos port)) ≤ c.room
      → let request = connect_request T host (pos port) in
        let address = join_host_port host (itoa port) in
        (read_request T (record s { input = request ++ rest })
          ≡ (ok (1, address), record s { input = rest }))
        × (client_connect T address (record c { input = reply ++ more })
            ≡ (ok tt, record (sent request c) { input = more }))
  exchanges host bound port bound_port c s reply rest more h small made room =
      let (reply', made', read, met) =
        client_connect-read_request T L host bound port bound_port c s rest more h small room in
      let same : reply' ≡ reply = cc in (read, rw⁻¹ same met)

  module _ (s : Server) (dial : Dial) (remote : Option (List ℕ)) (conn_id : ℕ) (w : DialWorld)
      (d : Dialer) (host local : Text) (port : ℕ) (c line : Conn) (table : Table)
      (reply rest more : List ℕ) where
    -- A dialer and a server whose bytes reach one another, with the same credentials of at most 255
    -- bytes each. For a host and a port that the server can reach, it serves a tunnel to exactly
    -- this address after the dialer's bytes, and its table is as before; and with the server's
    -- bytes the dialer returns the open connection. Each uses up exactly what the other wrote, so
    -- that the tunnel begins with the first byte after it. Both peers take what is written.
    pub dial_context-handle_conn :
        s.auth ≡ some auth
        → d.auth ≡ some auth
        → IsHost T host
        → port < 65536
        → let request = connect_request T host (pos port) in
          let address = join_host_port host (itoa port) in
          dial address ≡ ok local
          → reply_bytes T 0 ((split_host_port_int local).0) ((split_host_port_int local).1)
            ≡ ok reply
          → w.dial d.server_addr ≡ ok (record c { input = 5 ∷ 2 ∷ 1 ∷ 0 ∷ (reply ++ more) })
          → w.deadline_error ≡ none
          → length (hello auth) + length request ≤ c.room
          → 26 ≤ line.room
          → (handle_conn T s dial remote conn_id
                (record line { input = hello auth ++ (request ++ rest) })
                table
              ≡ (
                tunnel address,
                record (sent reply (sent (5 ∷ 2 ∷ 1 ∷ 0 ∷ []) line)) { input = rest },
                table,
              ))
            × (dial_context T w d (str "tcp") address
                ≡ succeeded (record (sent request (sent (hello auth) c)) { input = more }))
    dial_context-handle_conn s_auth d_auth h small reached made opened limit c_room l_room =
        let request = connect_request T host (pos port) in
        let shaken = sent (hello auth) c in
        let greeted = sent (5 ∷ 2 ∷ 1 ∷ 0 ∷ []) line in
        let served =
          client_handshake-negotiate_auth auth auth u p c line (request ++ rest) (omega arith)
            (omega arith) (matches_refl auth) in
        let asked =
          client_handshake-negotiate_auth auth auth u p c line (reply ++ more) (omega arith)
            (omega arith) (matches_refl auth) in
        let met =
          exchanges host ((split_host_port_int local).0) port ((split_host_port_int local).1) shaken
            greeted reply rest more h small made (omega arith) in
        (
          handle_conn-tunnel T s dial remote conn_id _ _ _ _ table _ local (rw s_auth served.0)
              met.0 reached
              (write_reply-sent T L 0 _ _ reply (record greeted { input = rest }) made
                (omega arith)),
          dial_context_lem w d _ _ _ _ opened limit (rw d_auth asked.1) met.1,
        )
