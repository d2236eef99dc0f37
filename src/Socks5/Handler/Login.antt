-- ===== src/Socks5/Handler/Login.antt =====
-- What a client has done before it is served, and what is left when its connection has ended.
use cfwg.Base.{
  ℕ, ◌≡◌, refl, Bool, true, false, Option, some, List, ◌∷◌, ◌++◌, ok, err, Result, length,
}
use cfwg.Net.Ip.{IpText}
use cfwg.Socks5.Conn.{Conn}
use cfwg.Socks5.Wire.{AuthConfig, contains_method}
use cfwg.Socks5.Auth.{negotiate_auth}
use cfwg.Socks5.Auth.Sound.{login_bytes, negotiate_auth_sound}
use cfwg.Socks5.Handler.{
  Server, Dial, Served, closed, tunnel, associated, handle_conn, handle_negotiated,
}
use cfwg.Socks5.Associations.{Table}

abbrev pub is_served : Served → Bool
is_served closed = false
is_served (tunnel target) = true
is_served (associated addr) = true

-- What the client has sent first: the greeting with the username method, and the login.
abbrev pub LoggedIn : AuthConfig → Conn → Type 0
LoggedIn auth c =
    (methods : List ℕ) × (rest : List ℕ) × (contains_method methods 2 ≡ true)
    × (c.input ≡ 5 ∷ length methods ∷ (methods ++ login_bytes auth rest))

module _ (T : IpText) (s : Server) (dial : Dial) (remote : Option (List ℕ)) (conn_id : ℕ) where
  negotiated :
      (auth : AuthConfig) (c : Conn) (table : Table) (r : Result (Unit {0}) × Conn)
      → negotiate_auth (some auth) c ≡ r
      → is_served ((handle_negotiated T s dial remote conn_id table r).0) ≡ true
      → LoggedIn auth c
  unfolding handle_negotiated
  negotiated auth c table (err e, c') made served = cc
  negotiated auth c table (ok u, c') made served =
      let (methods, offered, input, output) = negotiate_auth_sound auth c c' made in
      (methods, c'.input, offered, input)

  -- With credentials set, a client is served, by a tunnel to a target or by a UDP association, only
  -- if it has sent exactly these credentials first, whatever its command, the dialer and the
  -- table are.
  pub handle_conn-LoggedIn :
      (auth : AuthConfig) (c : Conn) (table : Table)
      → s.auth ≡ some auth
      → is_served ((handle_conn T s dial remote conn_id c table).0) ≡ true
      → LoggedIn auth c
  unfolding handle_conn
  handle_conn-LoggedIn auth c table set served =
      negotiated auth c table (negotiate_auth (some auth) c) refl (rw⁻¹ set served)
