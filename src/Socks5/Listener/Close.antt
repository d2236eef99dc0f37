-- ===== src/Socks5/Listener/Close.antt =====
-- Start and Close of internal/socks5/server.go: which sockets and connections are open after them.
use cfwg.Base.{
  ℕ, ◌≡◌, refl, arith, Bool, true, false, Option, none, some, List, [], ◌∷◌, ◌++◌, if◌then◌else◌,
  Result, ok, err, Bool-cases, inl, inr, is_empty, append_assoc, Text,
}
use cfwg.Net.Decimal.{ℤ}
use cfwg.Net.Ip.{IpText}
use cfwg.Socks5.ProxyFile.{Config}
use cfwg.Socks5.Associations.{Table}
use cfwg.Socks5.Listener.{
  Socket, Listener, ListenWorld, CloseWorld, new_server, start, with_addr, with_tcp, with_udp,
  udp_ip, close, close_socket, close_all,
}

-- Whether this socket is there and open.
abbrev pub listens : Option Socket → Bool
listens none = false
listens (some socket) = socket.is_open

-- The connections of the associations, the last first.
abbrev pub conns : Table → List ℕ
conns [] = []
conns ((key, a) ∷ table) = conns table ++ a.conn ∷ []

close_socket-listens : (o : Option Socket) → listens (close_socket o) ≡ false
unfolding close_socket
close_socket-listens none = refl
close_socket-listens (some socket) = refl

pub close_all_lem :
    (table : Table) (closed : List ℕ) → close_all table closed ≡ ([], conns table ++ closed)
unfolding close_all
close_all_lem [] closed = refl
close_all_lem ((key, a) ∷ table) closed =
    rw (close_all_lem table (a.conn ∷ closed), append_assoc (conns table) (a.conn ∷ []) closed) refl

-- The first Close, whatever the sockets answer, leaves no socket open and no association in the
-- table, and has closed the connection of every association that stood in it. A second Close
-- succeeds and changes nothing.
pub close_lem :
    (w again : CloseWorld) (s : Listener)
    → s.is_done ≡ false
    → let closed = (close w s).1 in
      (listens closed.tcp ≡ false)
      × (listens closed.udp ≡ false)
      × (closed.associations ≡ [])
      × (closed.closed_conns ≡ conns s.associations ++ s.closed_conns)
      × (close again closed ≡ (ok tt, closed))
unfolding close
close_lem w again s undone =
    rw (undone, close_all_lem s.associations s.closed_conns)
      (close_socket-listens s.tcp, close_socket-listens s.udp, refl, refl, refl)

-- A socket that package net gives is open.
abbrev pub IsOpened : Result Socket → Type 0
IsOpened (ok socket) = socket.is_open ≡ true
IsOpened (err e) = Unit {0}

module _ (T : IpText) (w : ListenWorld) (s : Listener) where
  -- A start does not touch doneCh.
  abbrev pub Undone : Result (Unit {0}) × Listener → Type 0
  Undone (r, t) = t.is_done ≡ s.is_done

  with_udp-Undone :
      (t : Listener) (r : Result Socket) → t.is_done ≡ s.is_done → Undone (with_udp T w t r)
  unfolding with_udp
  with_udp-Undone t (ok socket) h = h
  with_udp-Undone t (err e) h = h

  with_tcp-Undone : (r : Result Socket) → Undone (with_tcp T w s r)
  unfolding with_tcp
  with_tcp-Undone (err e) = refl
  with_tcp-Undone (ok socket) = ground (arith, with_udp-Undone (record s { tcp = some socket }))

  with_addr-Undone : (r : Result Text) → Undone (with_addr T w s r)
  unfolding with_addr
  with_addr-Undone (err e) = refl
  with_addr-Undone (ok addr) = with_tcp-Undone (w.listen_tcp addr)

  pub start-Undone : Undone (start T w s)
  unfolding start
  start-Undone = ground (arith, with_addr-Undone (w.resolve s.cfg.listen_addr))

module _ (T : IpText) (w : ListenWorld) (cfg : Config) where
  -- The outcome of a start: on success the first socket listens, and the second if and only if
  -- datagrams are allowed; after a failure neither does.
  abbrev pub Listening : Result (Unit {0}) × Listener → Type 0
  Listening (ok u, s) = (listens s.tcp ≡ true) × (listens s.udp ≡ cfg.allow_udp)
  Listening (err e, s) = (listens s.tcp ≡ false) × (listens s.udp ≡ false)

  with_udp-Listening :
      (s : Listener) (r : Result Socket)
      → cfg.allow_udp ≡ true
      → listens s.tcp ≡ true
      → listens s.udp ≡ false
      → IsOpened r
      → Listening (with_udp T w s r)
  unfolding with_udp
  with_udp-Listening s (ok socket) allowed tcp udp opened = (tcp, ground arith)
  with_udp-Listening s (err e) allowed tcp udp opened = (close_socket-listens s.tcp, udp)

  module _ (opens_tcp : (addr : Text) → IsOpened (w.listen_tcp addr))
      (opens_udp : (ip : Option (List ℕ)) (port : ℤ) → IsOpened (w.listen_udp ip port)) where
    with_tcp-Listening :
        (r : Result Socket) → IsOpened r → Listening (with_tcp T w (new_server cfg) r)
    unfolding with_tcp new_server
    with_tcp-Listening (err e) opened = (refl, refl)
    with_tcp-Listening (ok socket) opened = allowing cfg.allow_udp refl
      where
        allowing :
            (b : Bool)
            → cfg.allow_udp ≡ b
            → let listening = record (new_server cfg) { tcp = some socket } in
              Listening (
                if b
                then with_udp T w listening (w.listen_udp (udp_ip T w socket.ip) socket.port)
                else (ok tt, listening))
        allowing true allowed =
            with_udp-Listening (record (new_server cfg) { tcp = some socket }) _ allowed opened refl
              (opens_udp _ socket.port)
        allowing false denied = (opened, ground arith)

    with_addr-Listening : (r : Result Text) → Listening (with_addr T w (new_server cfg) r)
    unfolding with_addr new_server
    with_addr-Listening (err e) = (refl, refl)
    with_addr-Listening (ok addr) = with_tcp-Listening (w.listen_tcp addr) (opens_tcp addr)

    -- A new server that starts listens for connections, and for datagrams if and only if they are
    -- allowed; one that fails to start, at whichever step, leaves no socket open.
    pub start-Listening : Listening (start T w (new_server cfg))
    unfolding start new_server
    start-Listening = elim (Bool-cases (is_empty cfg.listen_addr)) [
      | inl missing ↦ rw missing (refl, refl)
      | inr given ↦ rw given (with_addr-Listening (w.resolve cfg.listen_addr))
    ]
