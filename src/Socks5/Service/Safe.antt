-- ===== src/Socks5/Service/Safe.antt =====
-- internal/socks5/server.go while it runs: who is served, whatever the order of events.
use cfwg.Base.{ℕ, ◌≡◌, refl, ◌⊎◌, inl, inr, Option, none, some, List, [], ◌∷◌}
use cfwg.Net.Ip.{IpText}
use cfwg.Socks5.Conn.{Conn}
use cfwg.Socks5.Wire.{AuthConfig}
use cfwg.Socks5.Associations.{UdpAddr, Association, Table}
use cfwg.Socks5.Associations.Invariant.{IsTable, adopt_matching-IsTable, adopt_sole-IsTable}
use cfwg.Socks5.Associations.Owned.{
  AllConns, Owned, lookup_association-Owned, adopt_matching-Owned, adopt_sole-Owned,
}
use cfwg.Socks5.Handler.{Server, Dial}
use cfwg.Socks5.Handler.Login.{LoggedIn, handle_conn-LoggedIn}
use cfwg.Socks5.Handler.Owned.{
  handle_conn-IsTable, handle_conn-AllConns, end_conn-IsTable, end_conn-AllConns,
}
use cfwg.Socks5.Listener.Close.{close_all_lem}
use cfwg.Socks5.Service.{
  Running, fresh, accept_step, end_step, search_step, reply_step, close_step, after_section,
  run_section, Section, looks_up, matches_port, takes_sole, Step, accepts, ends, searches, replies,
  closes, Reachable, starts, steps,
}

module _ (T : IpText) (s : Server) (auth : AuthConfig) (set : s.auth ≡ some auth) where
  -- The number is that of a connection that began with a login with these credentials.
  abbrev pub HasLoggedIn : List (ℕ × Conn) → ℕ → Type 0
  HasLoggedIn [] n = ⊥
  HasLoggedIn ((m, c) ∷ accepted) n = ((m ≡ n) × LoggedIn auth c) ⊎ HasLoggedIn accepted n

  -- The table is well formed, and each of its associations is of a connection that has logged in.
  pub record IsSafe (r : Running) : Type 0 where
    pub is_table : IsTable T r.table
    pub all_conns : AllConns (HasLoggedIn r.accepted) r.table

  AllConns-more :
      (P Q : ℕ → Type 0) (t : Table) → ((n : ℕ) → P n → Q n) → AllConns P t → AllConns Q t
  AllConns-more P Q [] f all = tt
  AllConns-more P Q ((key, a) ∷ t) f all = (f a.conn all.0, AllConns-more P Q t f all.1)

  fresh-IsSafe : IsSafe fresh
  fresh-IsSafe = record { is_table = record { differ = tt; keyed = tt }; all_conns = tt }

  accept_step-IsSafe :
      (dial : Dial) (remote : Option (List ℕ)) (c : Conn) (r : Running)
      → IsSafe r
      → IsSafe (accept_step T s dial remote c r)
  unfolding accept_step
  accept_step-IsSafe dial remote c r safe = record {
    is_table = handle_conn-IsTable T s dial remote r.next c r.table safe.is_table;
    all_conns =
        handle_conn-AllConns T s dial remote r.next (HasLoggedIn ((r.next, c) ∷ r.accepted)) c
          r.table
          (λ served.
            inl (refl, handle_conn-LoggedIn T s dial remote r.next auth c r.table set served))
          (AllConns-more _ _ r.table (λ n h. inr h) safe.all_conns);
  }

  close_step-IsSafe : (r : Running) → IsSafe (close_step T s r)
  unfolding close_step
  close_step-IsSafe r =
      rw (close_all_lem r.table [])
        (record { is_table = record { differ = tt; keyed = tt }; all_conns = tt })

  run_section-IsTable :
      (section : Section) (src : UdpAddr) (t : Table)
      → IsTable T t
      → IsTable T ((run_section T s section src t).1)
  unfolding run_section
  run_section-IsTable looks_up src t h = h
  run_section-IsTable matches_port src t h = adopt_matching-IsTable T src t h
  run_section-IsTable takes_sole src t h = adopt_sole-IsTable T src t h

  pub run_section-Owned :
      (P : ℕ → Type 0) (section : Section) (src : UdpAddr) (t : Table)
      → AllConns P t
      → Owned P T (run_section T s section src t)
  unfolding run_section
  run_section-Owned P looks_up src t all = (lookup_association-Owned P T src t all, all)
  run_section-Owned P matches_port src t all = adopt_matching-Owned P T src t all
  run_section-Owned P takes_sole src t all = adopt_sole-Owned P T src t all

  after_section-IsSafe :
      (src : UdpAddr) (packet : List ℕ) (r : Running) (found : Option Association × Table)
      → IsTable T found.1
      → AllConns (HasLoggedIn r.accepted) found.1
      → IsSafe (after_section T s src packet r found)
  unfolding after_section
  after_section-IsSafe src packet r (none, t) h all = record { is_table = h; all_conns = all }
  after_section-IsSafe src packet r (some a, t) h all = record { is_table = h; all_conns = all }

  Step-IsSafe : (r r' : Running) → Step T s r r' → IsSafe r → IsSafe r'
  unfolding end_step search_step reply_step
  Step-IsSafe r r' (accepts dial remote c) safe = accept_step-IsSafe dial remote c r safe
  Step-IsSafe r r' (ends dial remote before ended after there) safe = record {
    is_table = end_conn-IsTable T s dial remote ended.number ended.served r.table safe.is_table;
    all_conns =
        end_conn-AllConns T s dial remote ended.number (HasLoggedIn r.accepted) ended.served r.table
          safe.all_conns;
  }
  Step-IsSafe r r' (searches section src packet) safe =
      after_section-IsSafe src packet r (run_section T s section src r.table)
        (run_section-IsTable section src r.table safe.is_table)
        ((run_section-Owned (HasLoggedIn r.accepted) section src r.table safe.all_conns).1)
  Step-IsSafe r r' (replies network before w after there) safe = record {
    is_table = safe.is_table;
    all_conns = safe.all_conns;
  }
  Step-IsSafe r r' closes safe = close_step-IsSafe r

  -- In every state that a server with credentials can come to, by connections, ends of connections,
  -- the sections and replies of datagrams, and Close, in any order and with any peers: no key stands twice in its table, each
  -- association stands under its own address, and each belongs to a connection that has begun with
  -- a login with exactly these credentials.
  pub Reachable-IsSafe : (r : Running) → Reachable T s r → IsSafe r
  Reachable-IsSafe r starts = fresh-IsSafe
  Reachable-IsSafe r (steps {r = q} reached step) =
      Step-IsSafe q r step (Reachable-IsSafe q reached)
