-- ===== src/Socks5/Client.antt =====
-- clientHandshake and clientConnect of internal/socks5/config.go, the client side of the protocol.
pub mod Interop
pub mod Target
pub mod Dialer
use cfwg.Base.{
  ℕ, ◌%◌, ◌&&◌, ◌||◌, Option, none, some, List, [], ◌∷◌, ◌++◌, ◌==◌, if◌then◌else◌, not, Text, str,
  Result, ok, err, message, message_int, length, Bool,
}
use cfwg.Net.Decimal.{ℤ, atoi, uint16}
use cfwg.Net.HostPort.{split_host_port}
use cfwg.Net.Ip.{IpText, to4, to16}
use cfwg.Socks5.Conn.{M, ◌>>=◌, ◌>>◌, pure, fail, check, byte, read_exactly, write}
use cfwg.Socks5.Wire.{
  AuthConfig, socks_version, auth_method_none, auth_method_user_pass, command_connect,
  reply_succeeded, addr_type_ipv4, addr_type_ipv6, addr_type_domain, put_uint16,
}

-- `byte(len(s))` keeps the low eight bits.
abbrev pub byte_len : Text → ℕ
byte_len s = length s % 256

unfoldable pub login_request : AuthConfig → List ℕ
login_request auth =
    1 ∷ byte_len auth.username ∷ (auth.username ++ byte_len auth.password ∷ auth.password)

unfoldable pub client_handshake : Option AuthConfig → M (Unit {0})
client_handshake none = do
  write (socks_version ∷ 1 ∷ auth_method_none ∷ [])
  reply ← read_exactly 2
  check (byte reply 0 == socks_version && byte reply 1 == auth_method_none)
      (message "unexpected socks5 greeting reply")
client_handshake (some auth) = do
  write (socks_version ∷ 1 ∷ auth_method_user_pass ∷ [])
  reply ← read_exactly 2
  check (byte reply 0 == socks_version && byte reply 1 == auth_method_user_pass)
      (message "unexpected auth greeting reply")
  write (login_request auth)
  auth_reply ← read_exactly 2
  check (byte auth_reply 0 == 1 && byte auth_reply 1 == 0) (message "unexpected auth reply")

or_nil : Option (List ℕ) → List ℕ
or_nil none = []
or_nil (some b) = b

ip_request : Option (List ℕ) → Option (List ℕ) → List ℕ
unfolding or_nil
ip_request (some ipv4) v6 = addr_type_ipv4 ∷ ipv4
ip_request none v6 = addr_type_ipv6 ∷ or_nil v6

host_request : Text → Option (List ℕ) → List ℕ
unfolding ip_request
host_request host (some ip) = ip_request (to4 ip) (to16 ip)
host_request host none = addr_type_domain ∷ byte_len host ∷ host

skip_domain : M (List ℕ)
skip_domain = do size ← read_exactly 1; read_exactly (byte size 0)

-- The bound address of the reply is read and dropped.
skip_address : ℕ → M (List ℕ)
unfolding skip_domain
skip_address atyp =
    if atyp == addr_type_ipv4
    then read_exactly 4
    else if atyp == addr_type_ipv6
    then read_exactly 16
    else if atyp == addr_type_domain
    then skip_domain
    else fail (message_int "unexpected reply address type" atyp)

unfoldable pub read_connect_reply : M (Unit {0})
unfolding skip_address
read_connect_reply = do
  head ← read_exactly 4
  check (byte head 0 == socks_version && byte head 1 == reply_succeeded)
      (message "unexpected connect reply")
  bound ← skip_address (byte head 3)
  port ← read_exactly 2
  pure tt

module _ (T : IpText) where
  unfoldable pub connect_request : Text → ℤ → List ℕ
  unfolding host_request
  connect_request host port =
      socks_version
      ∷ command_connect
      ∷ 0
      ∷ (host_request host (T.parse_ip host) ++ put_uint16 (uint16 port))

  connect_to : Text → Option ℤ → M (Unit {0})
  connect_to host none = fail (message "invalid port")
  connect_to host (some port) = write (connect_request host port) >> read_connect_reply

  connect_split : Result (Text × Text) → M (Unit {0})
  unfolding connect_to
  connect_split (err e) = fail e
  connect_split (ok (host, port_text)) = connect_to host (atoi port_text)

  unfoldable pub client_connect : Text → M (Unit {0})
  unfolding connect_split
  client_connect address = connect_split (split_host_port address)
