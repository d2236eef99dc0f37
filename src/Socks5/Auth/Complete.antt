-- ===== src/Socks5/Auth/Complete.antt =====
-- How a negotiation ends for a client that follows the protocol.
use cfwg.Base.{
  ℕ, ◌≤◌, ◌≡◌, ◌⊎◌, true, false, Bool, ◌&&◌, Option, none, some, List, [], ◌∷◌, ◌++◌, arith, ok,
  err, if◌then◌else◌, length, text_eq, message, append_assoc,
}
use cfwg.Socks5.Conn.{Conn, check, read_exactly-front, write-sent, sent}
use cfwg.Socks5.Wire.{AuthConfig, contains_method}
use cfwg.Socks5.Auth.{
  status_of, report_status, verify_username_password, required_method, negotiate_auth,
}
use cfwg.Socks5.Auth.Sound.{login_bytes}

abbrev pub matches : AuthConfig → AuthConfig → Bool
matches auth claim = text_eq claim.username auth.username && text_eq claim.password auth.password

report_status_lem :
    (auth claim : AuthConfig) (c : Conn)
    → 2 ≤ c.room
    → report_status (status_of auth claim.username claim.password) c ≡ (
        if matches auth claim
        then (ok tt, sent (1 ∷ 0 ∷ []) c)
        else (err (message "invalid username or password"), sent (1 ∷ 1 ∷ []) c))
unfolding report_status status_of check
report_status_lem auth claim c room =
    ground (arith, write-sent (1 ∷ 0 ∷ []) c room, write-sent (1 ∷ 1 ∷ []) c room)

verify_lem :
    (auth claim : AuthConfig) (c : Conn)
    → 2 ≤ c.room
    → verify_username_password auth (record c { input = login_bytes claim c.input }) ≡ (
        if matches auth claim
        then (ok tt, sent (1 ∷ 0 ∷ []) c)
        else (err (message "invalid username or password"), sent (1 ∷ 1 ∷ []) c))
unfolding verify_username_password check
verify_lem auth claim c room =
    rw
      (
        read_exactly-front (1 ∷ []) (length claim.username ∷ (claim.username ++ password)) c,
        read_exactly-front (length claim.username ∷ []) (claim.username ++ password) c,
        read_exactly-front claim.username password c,
        read_exactly-front (length claim.password ∷ []) (claim.password ++ c.input) c,
        read_exactly-front claim.password c.input c,
      )
      (report_status_lem auth claim c room)
  where
    password : List ℕ
    password = length claim.password ∷ (claim.password ++ c.input)

-- The input of a client that logs in with the claimed credentials.
abbrev pub login : List ℕ → AuthConfig → Conn → Conn
login methods claim c = record c {
  input = 5 ∷ length methods ∷ (methods ++ login_bytes claim c.input);
}

-- A client that offers the username method and sends its request in the protocol's form is
-- accepted if its credentials are the server's, and is refused otherwise; its bytes are used up
-- exactly, and it is told the method and the outcome. The peer must take four bytes.
pub negotiate_auth-login :
    (auth claim : AuthConfig) (methods : List ℕ) (c : Conn)
    → contains_method methods 2 ≡ true
    → 4 ≤ c.room
    → negotiate_auth (some auth) (login methods claim c) ≡ (
        if matches auth claim
        then (ok tt, sent (5 ∷ 2 ∷ 1 ∷ 0 ∷ []) c)
        else (err (message "invalid username or password"), sent (5 ∷ 2 ∷ 1 ∷ 1 ∷ []) c))
unfolding negotiate_auth required_method check
negotiate_auth-login auth claim methods c offered room =
    rw
      (
        read_exactly-front (5 ∷ length methods ∷ []) (methods ++ login_bytes claim c.input) c,
        read_exactly-front methods (login_bytes claim c.input) c,
        offered,
        write-sent (5 ∷ 2 ∷ []) (record c { input = login_bytes claim c.input }) (omega arith),
        verify_lem auth claim (sent (5 ∷ 2 ∷ []) c) (omega arith),
      )
      (ground (
        arith,
        append_assoc c.output (5 ∷ 2 ∷ []) (1 ∷ 0 ∷ []),
        append_assoc c.output (5 ∷ 2 ∷ []) (1 ∷ 1 ∷ []),
      ))

-- A greeting that does not offer the method that the server wants is answered by 255 and an
-- error; without credentials a greeting that offers method 0 is accepted at once. The bytes of
-- the greeting are used up exactly. The peer must take two bytes.
pub negotiate_auth_greeting :
    (auth : Option AuthConfig) (methods rest : List ℕ) (c : Conn)
    → (auth ≡ none) ⊎ (contains_method methods (required_method auth) ≡ false)
    → 2 ≤ c.room
    → negotiate_auth auth (record c { input = 5 ∷ length methods ∷ (methods ++ rest) }) ≡ (
        if contains_method methods (required_method auth)
        then (ok tt, sent (5 ∷ 0 ∷ []) (record c { input = rest }))
        else (
          err (message "no acceptable auth method"),
          sent (5 ∷ 255 ∷ []) (record c { input = rest }),
        ))
unfolding negotiate_auth required_method check
negotiate_auth_greeting none methods rest c _ room =
    rw
      (
        read_exactly-front (5 ∷ length methods ∷ []) (methods ++ rest) c,
        read_exactly-front methods rest c,
      )
      (ground (
        arith,
        write-sent (5 ∷ 0 ∷ []) (record c { input = rest }),
        write-sent (5 ∷ 255 ∷ []) (record c { input = rest }),
      ))
negotiate_auth_greeting (some auth) methods rest c refused room =
    rw
      (
        read_exactly-front (5 ∷ length methods ∷ []) (methods ++ rest) c,
        read_exactly-front methods rest c,
      )
      (ground (arith, write-sent (5 ∷ 255 ∷ []) (record c { input = rest })))
