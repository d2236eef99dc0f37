-- ===== src/Socks5/Associations.antt =====
-- The table of UDP associations of internal/socks5/server.go, and the calls that change it. The
-- mutex is held in each call, so a call is one step; a map's entries are walked in list order.
pub mod Invariant
pub mod Matching
pub mod Owned
pub mod Refines
use cfwg.Base.{
  ℕ, zero, suc, Bool, true, false, ◌&&◌, ◌||◌, not, Option, none, some, List, [], ◌∷◌, ◌++◌, ◌==◌,
  if◌then◌else◌, Text, is_empty, Result, ok, err, str,
}
use cfwg.Base.TextMap.{TextMap, lookup, insert, delete}
use cfwg.Net.Decimal.{ℤ, pos, negsuc, itoa_int, atoi}
use cfwg.Net.HostPort.{split_host_port, join_host_port}
use cfwg.Net.Ip.{IpText, ip_equal, is_loopback, is_unspecified}

-- net.UDPAddr
pub record UdpAddr : Type 0 where
  pub ip : Option (List ℕ)
  pub port : ℤ
  pub zone : Text

-- The TCP connection that an association belongs to is named by a number.
pub record Association : Type 0 where
  pub client_addr : UdpAddr
  pub conn : ℕ

abbrev pub Table : Type 0
Table = TextMap Association

-- splitHostPort
or_port : Text → Option ℤ → Text × ℤ
or_port host none = (host, pos 0)
or_port host (some port) = (host, port)

or_host_port : Result (Text × Text) → Text × ℤ
unfolding or_port
or_host_port (err e) = (str "0.0.0.0", pos 0)
or_host_port (ok (host, port_text)) = or_port host (atoi port_text)

unfoldable pub split_host_port_int : Text → Text × ℤ
unfolding or_host_port
split_host_port_int addr = or_host_port (split_host_port addr)

unfoldable pub int_eq : ℤ → ℤ → Bool
int_eq (pos m) (pos n) = m == n
int_eq (pos m) (negsuc n) = false
int_eq (negsuc m) (pos n) = false
int_eq (negsuc m) (negsuc n) = m == n

-- `IP.Equal` on addresses that may be nil.
abbrev option_ip_equal : Option (List ℕ) → Option (List ℕ) → Bool
option_ip_equal none none = true
option_ip_equal none (some y) = is_empty y
option_ip_equal (some x) none = is_empty x
option_ip_equal (some x) (some y) = ip_equal x y

-- The address of the client binds the association to a host: it is not nil, local or unspecified.
has_own_ip : Option (List ℕ) → Bool
has_own_ip none = false
has_own_ip (some ip) = not (is_loopback ip) && not (is_unspecified ip)

-- The two tests of the loop of adoptAssociationMatchingSourcePort, that do not `continue`.
unfoldable pub is_candidate : UdpAddr → Association → Bool
unfolding has_own_ip int_eq
is_candidate addr assoc =
    int_eq assoc.client_addr.port addr.port
    && not (has_own_ip assoc.client_addr.ip && not (option_ip_equal assoc.client_addr.ip addr.ip))

-- The loop: `matched` is what has been found, and a second candidate ends the search.
unfoldable pub scan : UdpAddr → Option (Text × Association) → Table → Option (Text × Association)
scan addr matched [] = matched
scan addr none ((key, assoc) ∷ table) =
    scan addr (if is_candidate addr assoc then some (key, assoc) else none) table
scan addr (some found) ((key, assoc) ∷ table) =
    let rest = scan addr (some found) table in if is_candidate addr assoc then none else rest

-- `len(s.associations) != 1`
unfoldable pub sole : Table → Option (Text × Association)
sole [] = none
sole (entry ∷ []) = some entry
sole (entry ∷ other ∷ table) = none

module _ (T : IpText) where
  ip_or_empty : Option (List ℕ) → Text
  ip_or_empty none = []
  ip_or_empty (some ip) = if is_empty ip then [] else T.ip_string ip

  -- `addr.String()`, the key of the map.
  unfoldable pub addr_key : UdpAddr → Text
  unfolding ip_or_empty
  addr_key addr =
      if is_empty addr.zone
      then join_host_port (ip_or_empty addr.ip) (itoa_int addr.port)
      else join_host_port (ip_or_empty addr.ip ++ b'%' ∷ addr.zone) (itoa_int addr.port)

  unfoldable pub store_association : UdpAddr → Association → Table → Table
  store_association addr assoc table = insert (addr_key addr) assoc table

  unfoldable pub delete_association : UdpAddr → Table → Table
  delete_association addr table = delete (addr_key addr) table

  unfoldable pub lookup_association : UdpAddr → Table → Option Association
  lookup_association addr table = lookup (addr_key addr) table

  -- adoptAssociationLocked: the entry moves to the source's key, and the association now has the
  -- source's address, a copy.
  unfoldable pub adopt_association :
      Text → Association → UdpAddr → Table → Option Association × Table
  adopt_association key assoc addr table =
      let adopted = record assoc { client_addr = addr } in
      (some adopted, insert (addr_key addr) adopted (delete key table))

  adopt_found : UdpAddr → Table → Option (Text × Association) → Option Association × Table
  unfolding adopt_association
  adopt_found addr table none = (none, table)
  adopt_found addr table (some (key, assoc)) = adopt_association key assoc addr table

  or_adopt_matching : UdpAddr → Table → Option Association → Option Association × Table
  unfolding adopt_found
  or_adopt_matching addr table (some assoc) = (some assoc, table)
  or_adopt_matching addr table none = adopt_found addr table (scan addr none table)

  unfoldable pub adopt_association_matching_source_port :
      UdpAddr → Table → Option Association × Table
  unfolding or_adopt_matching
  adopt_association_matching_source_port addr table =
      or_adopt_matching addr table (lookup (addr_key addr) table)

  or_adopt_sole : UdpAddr → Table → Option Association → Option Association × Table
  unfolding adopt_found sole
  or_adopt_sole addr table (some assoc) = (some assoc, table)
  or_adopt_sole addr table none = adopt_found addr table (sole table)

  unfoldable pub adopt_sole_association : UdpAddr → Table → Option Association × Table
  unfolding or_adopt_sole
  adopt_sole_association addr table = or_adopt_sole addr table (lookup (addr_key addr) table)

  or_sole : UdpAddr → Option Association × Table → Option Association × Table
  or_sole addr (some assoc, table) = (some assoc, table)
  or_sole addr (none, table) = adopt_sole_association addr table

  or_adopt : UdpAddr → Table → Option Association → Option Association × Table
  unfolding or_sole
  or_adopt addr table (some assoc) = (some assoc, table)
  or_adopt addr table none = or_sole addr (adopt_association_matching_source_port addr table)

  -- The association that a datagram from this source belongs to.
  unfoldable pub association_for_source : UdpAddr → Table → Option Association × Table
  unfolding or_adopt
  association_for_source addr table = or_adopt addr table (lookup_association addr table)
