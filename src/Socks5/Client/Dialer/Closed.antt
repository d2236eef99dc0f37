-- ===== src/Socks5/Client/Dialer/Closed.antt =====
-- Dialer.DialContext of internal/socks5/config.go: what becomes of the connection to the proxy.
use cfwg.Base.{
  ◌≡◌, refl, true, false, Option, none, some, if◌then◌else◌, Text, str, text_eq, Result, ok, err,
  Error, Bool-cases, inl, inr,
}
use cfwg.Net.Ip.{IpText}
use cfwg.Socks5.Conn.{Conn}
use cfwg.Socks5.Client.{client_handshake, client_connect}
use cfwg.Socks5.ProxyFile.{Dialer}
use cfwg.Socks5.Client.Dialer.{
  DialWorld, Attempt, given_up, connected, shaken, limited, dialled, dial_context,
}

-- The two exchanges with the proxy over this connection, one after the other.
abbrev pub Exchanged : IpText → Dialer → Text → Conn → Conn → Type 0
Exchanged T d address c c' =
    (mid : Conn) × (client_handshake d.auth c ≡ (ok tt, mid))
    × (client_connect T address mid ≡ (ok tt, c'))

module _ (T : IpText) (w : DialWorld) (d : Dialer) (address : Text) where
  -- A connection that is returned is open, has no deadline, and has come through both exchanges;
  -- after an error no connection is open.
  abbrev IsTidy : Conn → Attempt → Type 0
  IsTidy c a = elim a.answer [
    | ok c' ↦
        (a.opened ≡ true) × (a.closed ≡ false) × (a.deadline ≡ none) × Exchanged T d address c c'
    | err e ↦ a.closed ≡ a.opened
  ]

  connected-IsTidy :
      (c mid : Conn) (r : Result (Unit {0}) × Conn)
      → client_handshake d.auth c ≡ (ok tt, mid)
      → client_connect T address mid ≡ r
      → IsTidy c (connected T w d r)
  unfolding connected given_up
  connected-IsTidy c mid (err e, c') shook made = refl
  connected-IsTidy c mid (ok u, c') shook made = (refl, refl, refl, (mid, shook, made))

  shaken-IsTidy :
      (c : Conn) (r : Result (Unit {0}) × Conn)
      → client_handshake d.auth c ≡ r
      → IsTidy c (shaken T w d address r)
  unfolding shaken given_up
  shaken-IsTidy c (err e, mid) shook = refl
  shaken-IsTidy c (ok u, mid) shook =
      connected-IsTidy c mid (client_connect T address mid) shook refl

  limited-IsTidy : (c : Conn) (o : Option Error) → IsTidy c (limited T w d address c o)
  unfolding limited given_up
  limited-IsTidy c (some e) = refl
  limited-IsTidy c none = shaken-IsTidy c (client_handshake d.auth c) refl

  -- What is returned for a dial of the proxy with this outcome.
  abbrev pub Tidy : Result Conn → Attempt → Type 0
  Tidy (err e) a = (a.opened ≡ false) × (a.closed ≡ false)
  Tidy (ok c) a = elim a.answer [
    | ok c' ↦
        (a.opened ≡ true) × (a.closed ≡ false) × (a.deadline ≡ none) × Exchanged T d address c c'
    | err e ↦ a.closed ≡ a.opened
  ]

  dialled-Tidy : (r : Result Conn) → Tidy r (dialled T w d address r)
  unfolding dialled
  dialled-Tidy (err e) = (refl, refl)
  dialled-Tidy (ok c) = limited-IsTidy c w.deadline_error

  -- A dial through the proxy leaks no connection: where it ends with an error, at whichever step,
  -- the connection to the proxy is closed if it was opened; where it returns the connection, this
  -- is open, its deadline is taken back, and the login and the CONNECT exchange with the proxy have
  -- succeeded over it in this order. A network other than "tcp" is refused without a connection.
  pub dial_context-Tidy :
      (network : Text)
      → let attempt = dial_context T w d network address in
        if text_eq network (str "tcp")
        then Tidy (w.dial d.server_addr) attempt
        else (attempt.opened ≡ false) × (attempt.closed ≡ false)
  unfolding dial_context
  dial_context-Tidy network = elim (Bool-cases (text_eq network (str "tcp"))) [
    | inl tcp ↦ rw tcp (dialled-Tidy (w.dial d.server_addr))
    | inr other ↦ rw other (refl, refl)
  ]
