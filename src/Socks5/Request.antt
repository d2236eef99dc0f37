-- ===== src/Socks5/Request.antt =====
-- readRequest, readAddress and writeReply of internal/socks5/server.go.
pub mod Reply
use cfwg.Base.{
  ℕ, Option, none, some, List, [], ◌∷◌, ◌++◌, ◌==◌, if◌then◌else◌, Text, str, Result, ok, err,
  message_int, message_text,
}
use cfwg.Net.Decimal.{ℤ, itoa, uint16}
use cfwg.Net.HostPort.{join_host_port}
use cfwg.Net.Ip.{IpText, to4, to16}
use cfwg.Socks5.Conn.{M, ◌>>=◌, ◌>>◌, pure, fail, check, byte, read_exactly, write}
use cfwg.Socks5.Wire.{
  socks_version, addr_type_ipv4, addr_type_ipv6, addr_type_domain, be_uint16, put_uint16,
}

read_domain : M Text
read_domain = do size ← read_exactly 1; read_exactly (byte size 0)

reply_v6 : ℕ → ℤ → Text → Option (List ℕ) → Result (List ℕ)
reply_v6 code port host (some ipv6) =
    ok (socks_version ∷ code ∷ 0 ∷ addr_type_ipv6 ∷ (ipv6 ++ put_uint16 (uint16 port)))
reply_v6 code port host none = err (message_text "invalid reply host" host)

reply_v4 : ℕ → ℤ → Text → Option (List ℕ) → Option (List ℕ) → Result (List ℕ)
unfolding reply_v6
reply_v4 code port host (some ipv4) v6 =
    ok (socks_version ∷ code ∷ 0 ∷ addr_type_ipv4 ∷ (ipv4 ++ put_uint16 (uint16 port)))
reply_v4 code port host none v6 = reply_v6 code port host v6

reply_of : ℕ → ℤ → Text → Option (List ℕ) → Result (List ℕ)
unfolding reply_v4
reply_of code port host none = err (message_text "invalid reply host" host)
reply_of code port host (some addr) = reply_v4 code port host (to4 addr) (to16 addr)

write_result : Result (List ℕ) → M (Unit {0})
write_result (ok reply) = write reply
write_result (err e) = fail e

module _ (T : IpText) where
  read_ip : ℕ → M Text
  read_ip size = do payload ← read_exactly size; pure (T.ip_string payload)

  unfoldable pub read_address : ℕ → M Text
  unfolding read_ip read_domain
  read_address atyp =
      if atyp == addr_type_ipv4
      then read_ip 4
      else if atyp == addr_type_ipv6
      then read_ip 16
      else if atyp == addr_type_domain
      then read_domain
      else fail (message_int "unsupported address type" atyp)

  -- The command and the target address.
  unfoldable pub read_request : M (ℕ × Text)
  read_request = do
    head ← read_exactly 4
    check (byte head 0 == socks_version) (message_int "unsupported socks version" (byte head 0))
    address ← read_address (byte head 3)
    port_bytes ← read_exactly 2
    pure (
      byte head 1,
      join_host_port address (itoa (be_uint16 (byte port_bytes 0) (byte port_bytes 1))),
    )

  -- `addr`, after the fallback.
  reply_addr : Text → Option (List ℕ) → Option (List ℕ)
  reply_addr host (some addr) = some addr
  reply_addr host none = T.parse_ip (str "0.0.0.0")

  unfoldable pub reply_bytes : ℕ → Text → ℤ → Result (List ℕ)
  unfolding reply_addr reply_of
  reply_bytes code host port = reply_of code port host (reply_addr host (T.parse_ip host))

  unfoldable pub write_reply : ℕ → Text → ℤ → M (Unit {0})
  unfolding write_result
  write_reply code host port = write_result (reply_bytes code host port)
