-- ===== src/Socks5/Client/Target.antt =====
-- A target address arrives at the server as the client was given it.
use cfwg.Base.{
  ℕ, ◌%◌, ◌≤◌, ◌<◌, ◌≡◌, refl, ap, ◌∙◌, inl, inr, none, List, [], ◌∷◌, ◌++◌, arith, ok, length,
  append_assoc, Text,
}
use cfwg.Net.Decimal.{ℤ, pos, uint16, itoa, atoi-itoa, itoa-AllDigits}
use cfwg.Net.HostPort.{Absent, join_host_port, split-join, AllDigits-IsPlain}
use cfwg.Net.Ip.{IpText, IsLawful, to4, to4-mapped, to16_lem, AllBytes}
use cfwg.Socks5.Conn.{Conn, check, read_exactly-front, read_exactly-sized, write-sent, sent}
use cfwg.Socks5.Wire.{put_uint16}
use cfwg.Socks5.Request.{read_address, read_request}
use cfwg.Socks5.Request.{reply_bytes}
use cfwg.Socks5.Request.Reply.{read_connect_reply-reply_bytes}
use cfwg.Socks5.Client.{client_connect, connect_request, host_request, read_connect_reply}

module _ (T : IpText) where
  -- The hosts that a client can name: a name of at most 255 bytes that is no address and has no
  -- brackets, an IPv4 address, or an IPv6 address that stands for no IPv4 address.
  pub data IsHost : Text → Type 0 where
    name :
        (host : Text)
        → T.parse_ip host ≡ none
        → length host < 256
        → Absent b'[' host
        → Absent b']' host
        → IsHost host
    v4 : (ip : List ℕ) → length ip ≡ 4 → AllBytes ip → IsHost (T.ip_string ip)
    v6 : (ip : List ℕ) → length ip ≡ 16 → AllBytes ip → to4 ip ≡ none → IsHost (T.ip_string ip)

  module _ (L : IsLawful T) where
    -- The form of a host in a request, as the server reads it.
    abbrev IsRead : Text → Type 0
    IsRead host =
        (atyp : ℕ) × (payload : List ℕ) × (host_request host (T.parse_ip host) ≡ atyp ∷ payload)
        × ((rest : List ℕ) (c : Conn)
            → read_address T atyp (record c { input = payload ++ rest })
              ≡ (ok host, record c { input = rest }))

    IsRead-of_host : (host : Text) → IsHost host → IsRead host
    unfolding host_request read_address
    IsRead-of_host host (name host' no_ip short _ _) = (
      3,
      length host ∷ host,
      rw (no_ip, host_request) (ap (λ (n : ℕ). 3 ∷ n ∷ host) (omega arith)),
      λ rest c.
          rw (
            read_exactly-front (length host ∷ []) (host ++ rest) c,
            read_exactly-front host rest c,
          ),
    )
    IsRead-of_host host (v4 ip l bytes) = (
      1,
      ip,
      rw (L.parse-string4 ip l bytes, host_request, to4-mapped ip l),
      λ rest c. rw (read_exactly-sized 4 ip rest c l),
    )
    IsRead-of_host host (v6 ip l bytes no_v4) = (
      4,
      ip,
      rw (L.parse-string16 ip l bytes, host_request, no_v4, to16_lem ip l),
      λ rest c. rw (read_exactly-sized 16 ip rest c l),
    )

    host-brackets : (host : Text) → IsHost host → Absent b'[' host × Absent b']' host
    host-brackets host (name host' no_ip short open_free close_free) = (open_free, close_free)
    host-brackets host (v4 ip l bytes) = (L.string_open ip (inl l), L.string_close ip (inl l))
    host-brackets host (v6 ip l bytes no_v4) = (L.string_open ip (inr l), L.string_close ip (inr l))

    -- The server reads the request for a host and a port, and gets the address that joins them; it
    -- reads to the end of the request and no further.
    read_request-connect_request :
        (host : Text) (port : ℕ) (rest : List ℕ) (s : Conn)
        → IsHost host
        → port < 65536
        → read_request T (record s { input = connect_request T host (pos port) ++ rest })
          ≡ (ok (1, join_host_port host (itoa port)), record s { input = rest })
    unfolding read_request connect_request check uint16
    read_request-connect_request host port rest s h small =
        let (atyp, payload, made, read) = IsRead-of_host host h in
        rw (made, append_assoc payload (put_uint16 (port % 65536)) rest)
          (rw
            (
              read_exactly-front (5 ∷ 1 ∷ 0 ∷ atyp ∷ [])
                  (payload ++ (put_uint16 (port % 65536) ++ rest)) s,
              read (put_uint16 (port % 65536) ++ rest) s,
              read_exactly-front (put_uint16 (port % 65536)) rest s,
            )
            (ap (λ (n : ℕ). (ok (1, join_host_port host (itoa n)), record s { input = rest }))
              (omega arith)))

    client_connect_lem :
        (host : Text) (port : ℕ) (c : Conn)
        → IsHost host
        → port < 65536
        → length (connect_request T host (pos port)) ≤ c.room
        → client_connect T (join_host_port host (itoa port)) c
          ≡ read_connect_reply (sent (connect_request T host (pos port)) c)
    unfolding client_connect
    client_connect_lem host port c h small room =
        let (o, cl) = host-brackets host h in
        rw (
          split-join host (itoa port) o cl (AllDigits-IsPlain (itoa port) (itoa-AllDigits port)),
          atoi-itoa port (omega arith),
          write-sent (connect_request T host (pos port)) c room,
        )

    -- A CONNECT exchange between a client and a server whose bytes reach one another. The request
    -- for a host and a port is read by the server as the command CONNECT and the address that the
    -- client was given; and the server's reply of success, whatever address it names as bound, makes
    -- the client succeed. Each side uses up exactly what the other wrote. The host is a name of at
    -- most 255 bytes or an address, the port is below 65536, and the server takes the request.
    pub client_connect-read_request :
        (host bound : Text) (port : ℕ) (bound_port : ℤ) (c s : Conn) (rest more : List ℕ)
        → IsHost host
        → port < 65536
        → length (connect_request T host (pos port)) ≤ c.room
        → let request = connect_request T host (pos port) in
          let address = join_host_port host (itoa port) in
          (reply : List ℕ) × (reply_bytes T 0 bound bound_port ≡ ok reply)
          × (read_request T (record s { input = request ++ rest })
              ≡ (ok (1, address), record s { input = rest }))
          × (client_connect T address (record c { input = reply ++ more })
              ≡ (ok tt, record (sent request c) { input = more }))
    client_connect-read_request host bound port bound_port c s rest more h small room =
        let request = connect_request T host (pos port) in
        let (reply, made, accepted, _) =
          read_connect_reply-reply_bytes T L 0 bound bound_port more (sent request c) in
        (
          reply,
          made,
          read_request-connect_request host port rest s h small,
          client_connect_lem host port (record c { input = reply ++ more }) h small room
              ∙ accepted refl,
        )
