-- ===== src/Socks5/Client/Interop.antt =====
-- The two sides of the protocol together: each reads what the other writes.
use cfwg.Base.{
  ℕ, ◌≤◌, ◌<◌, ◌≡◌, refl, ap, true, some, List, [], ◌∷◌, ◌++◌, arith, ok, length, append_assoc,
  append-nil,
}
use cfwg.Socks5.Conn.{Conn, check, read_exactly-front, write-sent, sent, sent-sent}
use cfwg.Socks5.Wire.{AuthConfig, contains_method}
use cfwg.Socks5.Auth.{negotiate_auth}
use cfwg.Socks5.Auth.Sound.{login_bytes}
use cfwg.Socks5.Auth.Complete.{matches, negotiate_auth-login}
use cfwg.Socks5.Client.{client_handshake, login_request, byte_len}

-- What a client with these credentials sends in all.
abbrev pub hello : AuthConfig → List ℕ
hello claim = 5 ∷ 1 ∷ 2 ∷ login_bytes claim []

login_request-login_bytes :
    (claim : AuthConfig)
    → length claim.username < 256
    → length claim.password < 256
    → login_request claim ≡ login_bytes claim []
unfolding login_request
login_request-login_bytes claim hu hp =
    let user : byte_len claim.username ≡ length claim.username = omega arith in
    let pass : byte_len claim.password ≡ length claim.password = omega arith in
    rw (user, pass, append-nil)

login_bytes-append :
    (claim : AuthConfig) (rest : List ℕ) → login_bytes claim [] ++ rest ≡ login_bytes claim rest
login_bytes-append claim rest = simp (append_assoc)

client_handshake_accepted :
    (claim : AuthConfig) (rest : List ℕ) (c : Conn)
    → length claim.username < 256
    → length claim.password < 256
    → length (hello claim) ≤ c.room
    → client_handshake (some claim) (record c { input = 5 ∷ 2 ∷ 1 ∷ 0 ∷ rest })
      ≡ (ok tt, record (sent (hello claim) c) { input = rest })
unfolding client_handshake check
client_handshake_accepted claim rest c hu hp room =
    rw
      (
        login_request-login_bytes claim hu hp,
        write-sent (5 ∷ 1 ∷ 2 ∷ []) (record c { input = 5 ∷ 2 ∷ 1 ∷ 0 ∷ rest }) (omega arith),
        read_exactly-front (5 ∷ 2 ∷ []) (1 ∷ 0 ∷ rest) (sent (5 ∷ 1 ∷ 2 ∷ []) c),
        write-sent (login_bytes claim [])
            (record (sent (5 ∷ 1 ∷ 2 ∷ []) c) { input = 1 ∷ 0 ∷ rest }) (omega arith),
        read_exactly-front (1 ∷ 0 ∷ []) rest
            (sent (login_bytes claim []) (sent (5 ∷ 1 ∷ 2 ∷ []) c)),
      )
      (ap (λ (d : Conn). (ok tt, record d { input = rest }))
        (sent-sent (5 ∷ 1 ∷ 2 ∷ []) (login_bytes claim []) c))

module _ (auth claim : AuthConfig) (u : length claim.username < 256)
    (p : length claim.password < 256) where
  -- A client and a server whose bytes reach one another agree on the outcome of a login: what the
  -- client sends, the server answers with 5 2 1 0 if the credentials are its own, and the client
  -- takes this answer for success; each uses up exactly what the other wrote. Credentials of at
  -- most 255 bytes, and peers that take all of it, are assumed.
  pub client_handshake-negotiate_auth :
      (c s : Conn) (rest : List ℕ)
      → length (hello claim) ≤ c.room
      → 4 ≤ s.room
      → matches auth claim ≡ true
      → (negotiate_auth (some auth) (record s { input = hello claim ++ rest })
          ≡ (ok tt, record (sent (5 ∷ 2 ∷ 1 ∷ 0 ∷ []) s) { input = rest }))
        × (client_handshake (some claim) (record c { input = 5 ∷ 2 ∷ 1 ∷ 0 ∷ rest })
            ≡ (ok tt, record (sent (hello claim) c) { input = rest }))
  unfolding contains_method
  client_handshake-negotiate_auth c s rest c_room s_room same = (
    rw (
      login_bytes-append claim rest,
      negotiate_auth-login auth claim (2 ∷ []) (record s { input = rest }) refl s_room,
      same,
    ),
    client_handshake_accepted claim rest c u p c_room,
  )
