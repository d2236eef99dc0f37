-- ===== src/Socks5/Service/Replies.antt =====
-- internal/socks5/server.go while it runs: to whom datagrams are answered, whatever the order of events.
use cfwg.Base.{
  ℕ, ◌≡◌, refl, subst, ◌⊎◌, inl, inr, Option, none, some, List, [], ◌∷◌, ◌++◌, ◌==◌, if◌then◌else◌,
  Bool, true, false, ==_iff,
}
use cfwg.Net.Ip.{IpText}
use cfwg.Socks5.Conn.{Conn}
use cfwg.Socks5.Wire.{AuthConfig}
use cfwg.Socks5.Associations.{UdpAddr, Association, Table, lookup_association}
use cfwg.Socks5.Associations.Owned.{Owned}
use cfwg.Socks5.Handler.{Server, Dial, Served, closed, tunnel, associated}
use cfwg.Socks5.Datagram.{Network, Exchange, unanswered, panics, answered, exchange}
use cfwg.Socks5.Service.{
  Running, Waiting, Sent, address_of, with_address, accept_step, end_step, search_step, reply_step,
  close_step, after_section, noted, run_section, replies_to, Step, accepts, ends, searches, replies,
  closes, Reachable, starts, steps,
}
use cfwg.Socks5.Service.Safe.{HasLoggedIn, IsSafe, Reachable-IsSafe, run_section-Owned}

-- An address that the association of a connection has had.
abbrev pub HasHad : List (ℕ × UdpAddr) → ℕ → UdpAddr → Type 0
HasHad [] n addr = ⊥
HasHad ((m, a) ∷ addresses) n addr = ((m ≡ n) × (a ≡ addr)) ⊎ HasHad addresses n addr

address_of-HasHad :
    (n : ℕ) (addresses : List (ℕ × UdpAddr)) (addr : UdpAddr)
    → address_of n addresses ≡ some addr
    → HasHad addresses n addr
unfolding address_of
address_of-HasHad n [] addr h = cc
address_of-HasHad n ((m, a) ∷ addresses) addr h =
    go (m == n) refl (address_of-HasHad n addresses addr) h
  where
    go :
        (b : Bool)
        → (m == n) ≡ b
        → (address_of n addresses ≡ some addr → HasHad addresses n addr)
        → (if b then some a else address_of n addresses) ≡ some addr
        → ((m ≡ n) × (a ≡ addr)) ⊎ HasHad addresses n addr
    go true same rest found = inl ((==_iff m n).0 same, cc)
    go false other rest found = inr (rest found)

with_address-HasHad :
    (k n : ℕ) (served : Served) (addresses : List (ℕ × UdpAddr)) (addr : UdpAddr)
    → HasHad addresses n addr
    → HasHad (with_address k served addresses) n addr
unfolding with_address
with_address-HasHad k n closed addresses addr had = had
with_address-HasHad k n (tunnel target) addresses addr had = had
with_address-HasHad k n (associated a) addresses addr had = inr had

module _ (T : IpText) (s : Server) (auth : AuthConfig) (set : s.auth ≡ some auth) where
  -- Each waiting datagram is for a connection that has logged in.
  abbrev pub AllWaiting : (ℕ → Type 0) → List Waiting → Type 0
  AllWaiting P [] = Unit {0}
  AllWaiting P (w ∷ waiting) = P w.conn × AllWaiting P waiting

  -- Each reply was for such a connection, and went to an address that its association has had.
  abbrev pub AllSent : (ℕ → Type 0) → (ℕ → UdpAddr → Type 0) → List Sent → Type 0
  AllSent P Q [] = Unit {0}
  AllSent P Q (x ∷ sent) = P x.datagram.conn × Q x.datagram.conn x.to × AllSent P Q sent

  record Answers (r : Running) : Type 0 where
    pub all_waiting : AllWaiting (HasLoggedIn T s auth set r.accepted) r.waiting
    pub all_sent : AllSent (HasLoggedIn T s auth set r.accepted) (HasHad r.addresses) r.sent

  AllWaiting-more :
      (P Q : ℕ → Type 0) (waiting : List Waiting)
      → ((n : ℕ) → P n → Q n)
      → AllWaiting P waiting
      → AllWaiting Q waiting
  AllWaiting-more P Q [] f all = tt
  AllWaiting-more P Q (w ∷ waiting) f all = (f w.conn all.0, AllWaiting-more P Q waiting f all.1)

  AllSent-more :
      (P P' : ℕ → Type 0) (Q Q' : ℕ → UdpAddr → Type 0) (sent : List Sent)
      → ((n : ℕ) → P n → P' n)
      → ((n : ℕ) (a : UdpAddr) → Q n a → Q' n a)
      → AllSent P Q sent
      → AllSent P' Q' sent
  AllSent-more P P' Q Q' [] f g all = tt
  AllSent-more P P' Q Q' (x ∷ sent) f g all =
      (f _ all.0, g _ _ all.1, AllSent-more P P' Q Q' sent f g all.2)

  noted-HasHad :
      (o : Option Association) (b : Association) (n : ℕ) (addresses : List (ℕ × UdpAddr))
      (addr : UdpAddr)
      → HasHad addresses n addr
      → HasHad (noted T s o b addresses) n addr
  unfolding noted
  noted-HasHad (some known) b n addresses addr had = had
  noted-HasHad none b n addresses addr had = inr had

  AllWaiting-without :
      (P : ℕ → Type 0) (before : List Waiting) (w : Waiting) (after : List Waiting)
      → AllWaiting P (before ++ w ∷ after)
      → P w.conn × AllWaiting P (before ++ after)
  AllWaiting-without P [] w after all = all
  AllWaiting-without P (v ∷ before) w after all =
      let (mine, rest) = AllWaiting-without P before w after all.1 in (mine, (all.0, rest))

  accept_step-Answers :
      (dial : Dial) (remote : Option (List ℕ)) (c : Conn) (r : Running)
      → Answers r
      → Answers (accept_step T s dial remote c r)
  unfolding accept_step
  accept_step-Answers dial remote c r h = record {
    all_waiting = AllWaiting-more _ _ r.waiting (λ n p. inr p) h.all_waiting;
    all_sent =
        AllSent-more _ _ _ _ r.sent (λ n p. inr p)
          (λ n a. with_address-HasHad r.next n _ r.addresses a) h.all_sent;
  }

  after_section-Answers :
      (src : UdpAddr) (packet : List ℕ) (r : Running) (found : Option Association × Table)
      → Owned (HasLoggedIn T s auth set r.accepted) T found
      → Answers r
      → Answers (after_section T s src packet r found)
  unfolding after_section
  after_section-Answers src packet r (none, t) owned h = record {
    all_waiting = h.all_waiting;
    all_sent = h.all_sent;
  }
  after_section-Answers src packet r (some a, t) owned h = record {
    all_waiting = (owned.0, h.all_waiting);
    all_sent =
        AllSent-more _ _ _ _ r.sent (λ n p. p)
          (λ n a had. noted-HasHad (lookup_association T src r.table) _ n r.addresses a had)
          h.all_sent;
  }

  replies_to-AllSent :
      (P : ℕ → Type 0) (Q : ℕ → UdpAddr → Type 0) (w : Waiting) (o : Option UdpAddr) (x : Exchange)
      (sent : List Sent)
      → P w.conn
      → ((a : UdpAddr) → o ≡ some a → Q w.conn a)
      → AllSent P Q sent
      → AllSent P Q (replies_to T s w o x sent)
  unfolding replies_to
  replies_to-AllSent P Q w none x sent p q all = all
  replies_to-AllSent P Q w (some to) unanswered sent p q all = all
  replies_to-AllSent P Q w (some to) panics sent p q all = all
  replies_to-AllSent P Q w (some to) (answered response) sent p q all = (p, q to refl, all)

  reply_step-Answers :
      (network : Network) (before : List Waiting) (w : Waiting) (after : List Waiting) (r : Running)
      → r.waiting ≡ before ++ w ∷ after
      → Answers r
      → Answers (reply_step T s network before w after r)
  unfolding reply_step
  reply_step-Answers network before w after r there h =
      let P = HasLoggedIn T s auth set r.accepted in
      let (mine, rest) =
        AllWaiting-without P before w after
          (subst (λ (l : List Waiting). AllWaiting P l) there h.all_waiting) in
      record {
        all_waiting = rest;
        all_sent =
            replies_to-AllSent P (HasHad r.addresses) w (address_of w.conn r.addresses)
              (exchange T network w.packet) r.sent mine
              (λ a found. address_of-HasHad w.conn r.addresses a found) h.all_sent;
      }

  Step-Answers : (r r' : Running) → Step T s r r' → IsSafe T s auth set r → Answers r → Answers r'
  unfolding end_step search_step close_step
  Step-Answers r r' (accepts dial remote c) safe h = accept_step-Answers dial remote c r h
  Step-Answers r r' (ends dial remote before ended after there) safe h = record {
    all_waiting = h.all_waiting;
    all_sent = h.all_sent;
  }
  Step-Answers r r' (searches section src packet) safe h =
      after_section-Answers src packet r (run_section T s section src r.table)
        (run_section-Owned T s auth set (HasLoggedIn T s auth set r.accepted) section src r.table
          safe.all_conns)
        h
  Step-Answers r r' (replies network before w after there) safe h =
      reply_step-Answers network before w after r there h
  Step-Answers r r' closes safe h = record { all_waiting = h.all_waiting; all_sent = h.all_sent }

  Reachable-Answers : (r : Running) → Reachable T s r → Answers r
  Reachable-Answers r starts = record { all_waiting = tt; all_sent = tt }
  Reachable-Answers r (steps {r = q} reached step) =
      Step-Answers q r step (Reachable-IsSafe T s auth set q reached) (Reachable-Answers q reached)

  -- In every state that a server with credentials can come to, with the sections and the waits of
  -- datagrams, connections, their ends and Close in any order: each reply to a datagram was sent for
  -- the association of a connection that has begun with a login with exactly these credentials,
  -- and to an address that this association has had.
  pub reply-HasLoggedIn :
      (r : Running)
      → Reachable T s r
      → AllSent (HasLoggedIn T s auth set r.accepted) (HasHad r.addresses) r.sent
  reply-HasLoggedIn r reached = (Reachable-Answers r reached).all_sent
