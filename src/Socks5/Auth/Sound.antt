-- ===== src/Socks5/Auth/Sound.antt =====
-- What a successful negotiation has read and written.
use cfwg.Base.{
  ℕ, ◌≡◌, true, some, List, [], ◌∷◌, ◌++◌, arith, ok, ◌==◌, length, text_eq_sound, append_assoc,
}
use cfwg.Socks5.Conn.{Conn, check, write-ok, sent}
use cfwg.Socks5.Conn.Steps.{check_then, if_then, read_then, read1_then, read2_then, write_then}
use cfwg.Socks5.Wire.{AuthConfig, contains_method}
use cfwg.Socks5.Auth.{
  status_of, report_status, verify_username_password, required_method, negotiate_auth,
}

-- The bytes of a username and password request, with what follows it.
abbrev pub login_bytes : AuthConfig → List ℕ → List ℕ
login_bytes auth rest =
    1 ∷ length auth.username ∷ (auth.username ++ length auth.password ∷ (auth.password ++ rest))

report_status-ok :
    (auth : AuthConfig) (user pass : List ℕ) (c c' : Conn) (u : Unit {0})
    → report_status (status_of auth user pass) c ≡ (ok u, c')
    → (user ≡ auth.username) × (pass ≡ auth.password) × (c' ≡ sent (1 ∷ 0 ∷ []) c)
unfolding report_status status_of check
report_status-ok auth user pass c c' u h = ground (
  arith,
  text_eq_sound user auth.username,
  text_eq_sound pass auth.password,
  write-ok (1 ∷ 0 ∷ []) c c' u,
)

verify-ok :
    (auth : AuthConfig) (c c' : Conn) (u : Unit {0})
    → verify_username_password auth c ≡ (ok u, c')
    → (c.input ≡ login_bytes auth c'.input) × (c'.output ≡ c.output ++ 1 ∷ 0 ∷ [])
unfolding verify_username_password
verify-ok auth c c' u h = read1_then _ c h λ v c1 i1 o1 h1. check_then _ _ _ c1 h1 λ is_one h2.
    read1_then _ c1 h2 λ ulen c2 i2 o2 h3. read_then _ _ c2 h3 λ user c3 l3 i3 o3 h4.
      read1_then _ c3 h4 λ plen c4 i4 o4 h5.
        read_then _ _ c4 h5
          λ pass c5 l5 i5 o5 h6. ground (arith, report_status-ok auth user pass c5 c' u h6)

login_end :
    (auth : AuthConfig) (methods : List ℕ) (v : ℕ) (c c1 c2 c' : Conn) (n : ℕ)
    → c.input ≡ v ∷ n ∷ c1.input
    → (v == 5) ≡ true
    → length methods ≡ n
    → c1.input ≡ methods ++ c2.input
    → c2.input ≡ login_bytes auth c'.input
    → c.input ≡ 5 ∷ length methods ∷ (methods ++ login_bytes auth c'.input)
login_end auth methods v c c1 c2 c' n i t l i1 i2 = ground arith

-- If a server with credentials accepts a client, then the client sent, in this order and before
-- anything else, a greeting that offers the username method and a request with exactly these
-- credentials; and the server has written the choice of that method and a success, and no more.
pub negotiate_auth_sound :
    (auth : AuthConfig) (c c' : Conn)
    → negotiate_auth (some auth) c ≡ (ok tt, c')
    → (methods : List ℕ) × (contains_method methods 2 ≡ true)
      × (c.input ≡ 5 ∷ length methods ∷ (methods ++ login_bytes auth c'.input))
      × (c'.output ≡ c.output ++ 5 ∷ 2 ∷ 1 ∷ 0 ∷ [])
unfolding negotiate_auth required_method
negotiate_auth_sound auth c c' h = read2_then _ c h λ v n c1 i o h1.
    check_then _ _ _ c1 h1 λ is_five h2. read_then _ _ c1 h2 λ methods c2 l i2 o2 h3.
      if_then _ _ _ c2 h3
        (λ offered h4. write_then _ _ c2 h4 λ room h5.
          let w = verify-ok auth (sent (5 ∷ 2 ∷ []) c2) c' tt h5 in
          (
            methods,
            offered,
            login_end auth methods v c c1 c2 c' n i is_five l i2 w.0,
            ground (arith, append_assoc c.output (5 ∷ 2 ∷ []) (1 ∷ 0 ∷ [])),
          ))
        (λ refused h4. cc)
