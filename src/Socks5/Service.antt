-- ===== src/Socks5/Service.antt =====
-- The loops of internal/socks5/server.go, acceptLoop and udpLoop, with the handlers that they begin: a
-- server while it runs, as steps in any order. Each section under the mutex is a step of its own, and
-- what a datagram waits for comes between two of its steps.
pub mod Safe
pub mod Replies
use cfwg.Base.{ℕ, suc, ◌≡◌, Option, none, some, List, [], ◌∷◌, ◌++◌, ◌==◌, if◌then◌else◌}
use cfwg.Net.Ip.{IpText}
use cfwg.Socks5.Conn.{Conn}
use cfwg.Socks5.Associations.{
  UdpAddr, Association, Table, lookup_association, adopt_association_matching_source_port,
  adopt_sole_association,
}
use cfwg.Socks5.Handler.{Server, Dial, Served, closed, tunnel, associated, handle_conn, end_conn}
use cfwg.Socks5.Datagram.{Network, Exchange, unanswered, panics, answered, exchange}
use cfwg.Socks5.Listener.{close_all}

-- A connection that a handler serves, by its number.
pub record Serving : Type 0 where
  pub number : ℕ
  pub served : Served

-- A datagram whose source has been given the association of a connection.
pub record Waiting : Type 0 where
  pub source : UdpAddr
  pub packet : List ℕ
  pub conn : ℕ

pub record Sent : Type 0 where
  pub datagram : Waiting
  pub response : List ℕ
  pub to : UdpAddr

-- The table, the connections that are served, and all that have been accepted, with what they had to
-- send; each has a number of its own. An association is one object, named by its connection, that
-- the table and the waiting datagrams point to: `addresses` has each address that has been written
-- to one, the newest first.
pub record Running : Type 0 where
  pub table : Table
  pub serving : List Serving
  pub accepted : List (ℕ × Conn)
  pub next : ℕ
  pub addresses : List (ℕ × UdpAddr)
  pub waiting : List Waiting
  pub sent : List Sent

abbrev pub fresh : Running
fresh = record {
  table = [];
  serving = [];
  accepted = [];
  next = 0;
  addresses = [];
  waiting = [];
  sent = [];
}

-- `assoc.clientAddr` of the association of a connection, as it is now.
unfoldable pub address_of : ℕ → List (ℕ × UdpAddr) → Option UdpAddr
address_of conn [] = none
address_of conn ((n, addr) ∷ addresses) =
    let rest = address_of conn addresses in if n == conn then some addr else rest

-- The address that a new association is made with.
with_address : ℕ → Served → List (ℕ × UdpAddr) → List (ℕ × UdpAddr)
with_address conn closed addresses = addresses
with_address conn (tunnel target) addresses = addresses
with_address conn (associated addr) addresses = (conn, addr) ∷ addresses

-- The three sections of associationForSource.
pub data Section : Type 0 where
  looks_up : Section
  matches_port : Section
  takes_sole : Section

-- A new connection goes up to the copying or to the end of its handler in one step: only storing its
-- association meets other goroutines. A client whose reply cannot be written is as one with more
-- room whose connection ends at once. The dialer, the peers and the network may be others in each
-- step. Close sweeps the table.
module _ (T : IpText) (s : Server) where
  unfoldable pub accept_step : Dial → Option (List ℕ) → Conn → Running → Running
  unfolding with_address
  accept_step dial remote c r =
      let handled = handle_conn T s dial remote r.next c r.table in
      record r {
        table = handled.2;
        serving = record { number = r.next; served = handled.0 } ∷ r.serving;
        accepted = (r.next, c) ∷ r.accepted;
        next = suc r.next;
        addresses = with_address r.next handled.0 r.addresses;
      }

  unfoldable pub end_step :
      Dial → Option (List ℕ) → List Serving → Serving → List Serving → Running → Running
  end_step dial remote before ended after r = record r {
    table = end_conn T s dial remote ended.number ended.served r.table;
    serving = before ++ after;
  }

  pub run_section : Section → UdpAddr → Table → Option Association × Table
  run_section looks_up src table = (lookup_association T src table, table)
  run_section matches_port src table = adopt_association_matching_source_port T src table
  run_section takes_sole src table = adopt_sole_association T src table

  -- An adoption writes the address of the association; one that stood under the source's address
  -- already is found as it is.
  noted : Option Association → Association → List (ℕ × UdpAddr) → List (ℕ × UdpAddr)
  noted (some known) assoc addresses = addresses
  noted none assoc addresses = (assoc.conn, assoc.client_addr) ∷ addresses

  after_section : UdpAddr → List ℕ → Running → Option Association × Table → Running
  unfolding noted
  after_section src packet r (none, table) = record r { table = table }
  after_section src packet r (some assoc, table) = record r {
    table = table;
    addresses = noted (lookup_association T src r.table) assoc r.addresses;
    waiting = record { source = src; packet = packet; conn = assoc.conn } ∷ r.waiting;
  }

  -- One section of the search for a datagram's source. A datagram that finds nothing in it goes on
  -- to the next, after any other steps.
  unfoldable pub search_step : Section → UdpAddr → List ℕ → Running → Running
  unfolding run_section after_section
  search_step section src packet r = after_section src packet r (run_section section src r.table)

  replies_to : Waiting → Option UdpAddr → Exchange → List Sent → List Sent
  replies_to w none x sent = sent
  replies_to w (some to) unanswered sent = sent
  replies_to w (some to) panics sent = sent
  replies_to w (some to) (answered response) sent =
      record { datagram = w; response = response; to = to } ∷ sent

  -- The end of a datagram's wait, with the reply to the address that the association has now.
  unfoldable pub reply_step : Network → List Waiting → Waiting → List Waiting → Running → Running
  unfolding replies_to
  reply_step network before w after r = record r {
    waiting = before ++ after;
    sent = replies_to w (address_of w.conn r.addresses) (exchange T network w.packet) r.sent;
  }

  unfoldable pub close_step : Running → Running
  close_step r = record r { table = (close_all r.table []).0 }

  pub data Step (r : Running) : Running → Type 0 where
    accepts :
        (dial : Dial) (remote : Option (List ℕ)) (c : Conn) → Step r (accept_step dial remote c r)
    ends :
        (dial : Dial) (remote : Option (List ℕ)) (before : List Serving) (ended : Serving)
        (after : List Serving)
        → r.serving ≡ before ++ ended ∷ after
        → Step r (end_step dial remote before ended after r)
    searches :
        (section : Section) (src : UdpAddr) (packet : List ℕ)
        → Step r (search_step section src packet r)
    replies :
        (network : Network) (before : List Waiting) (w : Waiting) (after : List Waiting)
        → r.waiting ≡ before ++ w ∷ after
        → Step r (reply_step network before w after r)
    closes : Step r (close_step r)

  -- What can come about, from a server that has just started.
  pub data Reachable : Running → Type 0 where
    starts : Reachable fresh
    steps : {r r' : Running} → Reachable r → Step r r' → Reachable r'
