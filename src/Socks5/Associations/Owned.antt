-- ===== src/Socks5/Associations/Owned.antt =====
-- To which connections the associations of a table belong, through each call that changes it.
use cfwg.Base.{
  ℕ, arith, Bool, true, false, Option, none, some, [], ◌∷◌, Text, text_eq_refl, if◌then◌else◌,
}
use cfwg.Base.TextMap.{lookup, insert, delete}
use cfwg.Net.Ip.{IpText}
use cfwg.Socks5.Associations.{
  UdpAddr, Association, Table, is_candidate, scan, sole, addr_key, store_association,
  delete_association, lookup_association, adopt_found, or_adopt_matching,
  adopt_association_matching_source_port, or_adopt_sole, adopt_sole_association, or_sole, or_adopt,
  association_for_source,
}

module _ (P : ℕ → Type 0) where
  -- The connection of every association has the property.
  abbrev pub AllConns : Table → Type 0
  AllConns [] = Unit {0}
  AllConns ((key, a) ∷ table) = P a.conn × AllConns table

  abbrev IfFound : Option (Text × Association) → Type 0
  IfFound none = Unit {0}
  IfFound (some (key, a)) = P a.conn

  abbrev pub IfAssociated : Option Association → Type 0
  IfAssociated none = Unit {0}
  IfAssociated (some a) = P a.conn

  pub delete-AllConns : (key : Text) (t : Table) → AllConns t → AllConns (delete key t)
  unfolding delete
  delete-AllConns key [] all = all
  delete-AllConns key ((k, a) ∷ t) all = ground (arith, delete-AllConns key t all.1)

  pub insert-AllConns :
      (key : Text) (a : Association) (t : Table) → P a.conn → AllConns t → AllConns (insert key a t)
  unfolding insert
  insert-AllConns key a t p all = (p, delete-AllConns key t all)

  lookup-AllConns : (key : Text) (t : Table) → AllConns t → IfAssociated (lookup key t)
  unfolding lookup
  lookup-AllConns key [] all = tt
  lookup-AllConns key ((k, a) ∷ t) all = ground (arith, lookup-AllConns key t all.1)

  scan-IfFound :
      (addr : UdpAddr) (found : Option (Text × Association)) (t : Table)
      → IfFound found
      → AllConns t
      → IfFound (scan addr found t)
  unfolding scan
  scan-IfFound addr found [] f all = f
  scan-IfFound addr none ((key, a) ∷ t) f all =
      next (is_candidate addr a) (scan-IfFound addr (some (key, a)) t all.0 all.1)
        (scan-IfFound addr none t tt all.1)
    where
      next :
          (b : Bool)
          → IfFound (scan addr (some (key, a)) t)
          → IfFound (scan addr none t)
          → IfFound (scan addr (if b then some (key, a) else none) t)
      next true with_entry without = with_entry
      next false with_entry without = without
  scan-IfFound addr (some e) ((key, a) ∷ t) f all =
      next (is_candidate addr a) (scan-IfFound addr (some e) t f all.1)
    where
      next :
          (b : Bool)
          → IfFound (scan addr (some e) t)
          → IfFound (if b then none else scan addr (some e) t)
      next true rest = tt
      next false rest = rest

  sole-IfFound : (t : Table) → AllConns t → IfFound (sole t)
  unfolding sole
  sole-IfFound [] all = tt
  sole-IfFound (e ∷ []) all = all.0
  sole-IfFound (e ∷ other ∷ t) all = tt

  module _ (T : IpText) where
    -- The search's result: what is found, and the table after it.
    abbrev pub Owned : Option Association × Table → Type 0
    Owned (o, t) = IfAssociated o × AllConns t

    adopt_found-Owned :
        (addr : UdpAddr) (t : Table) (found : Option (Text × Association))
        → IfFound found
        → AllConns t
        → Owned (adopt_found T addr t found)
    unfolding adopt_found
    adopt_found-Owned addr t none f all = (tt, all)
    adopt_found-Owned addr t (some (key, a)) f all =
        (f, insert-AllConns (addr_key T addr) _ (delete key t) f (delete-AllConns key t all))

    matching-Owned :
        (addr : UdpAddr) (t : Table) (o : Option Association)
        → IfAssociated o
        → AllConns t
        → Owned (or_adopt_matching T addr t o)
    unfolding or_adopt_matching
    matching-Owned addr t (some a) f all = (f, all)
    matching-Owned addr t none f all =
        adopt_found-Owned addr t (scan addr none t) (scan-IfFound addr none t tt all) all

    sole-Owned :
        (addr : UdpAddr) (t : Table) (o : Option Association)
        → IfAssociated o
        → AllConns t
        → Owned (or_adopt_sole T addr t o)
    unfolding or_adopt_sole
    sole-Owned addr t (some a) f all = (f, all)
    sole-Owned addr t none f all = adopt_found-Owned addr t (sole t) (sole-IfFound t all) all

    or_sole-Owned :
        (addr : UdpAddr) (r : Option Association × Table) → Owned r → Owned (or_sole T addr r)
    unfolding or_sole adopt_sole_association
    or_sole-Owned addr (some a, t) owned = owned
    or_sole-Owned addr (none, t) owned =
        sole-Owned addr t (lookup (addr_key T addr) t) (lookup-AllConns (addr_key T addr) t owned.1)
          (owned.1)

    or_adopt-Owned :
        (addr : UdpAddr) (t : Table) (o : Option Association)
        → IfAssociated o
        → AllConns t
        → Owned (or_adopt T addr t o)
    unfolding or_adopt adopt_association_matching_source_port
    or_adopt-Owned addr t (some a) f all = (f, all)
    or_adopt-Owned addr t none f all =
        or_sole-Owned addr (or_adopt_matching T addr t (lookup (addr_key T addr) t)) (
          matching-Owned addr t (lookup (addr_key T addr) t)
            (lookup-AllConns (addr_key T addr) t all) all)

    pub association_for_source-Owned :
        (addr : UdpAddr) (t : Table) → AllConns t → Owned (association_for_source T addr t)
    unfolding association_for_source lookup_association
    association_for_source-Owned addr t all =
        or_adopt-Owned addr t (lookup (addr_key T addr) t) (lookup-AllConns (addr_key T addr) t all)
          all

    pub lookup_association-Owned :
        (addr : UdpAddr) (t : Table) → AllConns t → IfAssociated (lookup_association T addr t)
    unfolding lookup_association
    lookup_association-Owned addr t all = lookup-AllConns (addr_key T addr) t all

    pub delete_association-Owned :
        (addr : UdpAddr) (t : Table) → AllConns t → AllConns (delete_association T addr t)
    unfolding delete_association
    delete_association-Owned addr t all = delete-AllConns (addr_key T addr) t all

    pub store_association-Owned :
        (addr : UdpAddr) (a : Association) (t : Table)
        → P a.conn
        → AllConns t
        → AllConns (store_association T addr a t)
    unfolding store_association
    store_association-Owned addr a t p all = insert-AllConns (addr_key T addr) a t p all

    -- An association that is stored and deleted at once leaves the others.
    pub delete-store-Owned :
        (addr : UdpAddr) (a : Association) (t : Table)
        → AllConns t
        → AllConns (delete_association T addr (store_association T addr a t))
    unfolding delete_association store_association insert delete
    delete-store-Owned addr a t all = rw (text_eq_refl (addr_key T addr)) (
        delete-AllConns (addr_key T addr) (delete (addr_key T addr) t)
          (delete-AllConns (addr_key T addr) t all))

    pub adopt_matching-Owned :
        (addr : UdpAddr) (t : Table)
        → AllConns t
        → Owned (adopt_association_matching_source_port T addr t)
    unfolding adopt_association_matching_source_port
    adopt_matching-Owned addr t all =
        matching-Owned addr t (lookup (addr_key T addr) t) (lookup-AllConns (addr_key T addr) t all)
          all

    pub adopt_sole-Owned :
        (addr : UdpAddr) (t : Table) → AllConns t → Owned (adopt_sole_association T addr t)
    unfolding adopt_sole_association
    adopt_sole-Owned addr t all =
        sole-Owned addr t (lookup (addr_key T addr) t) (lookup-AllConns (addr_key T addr) t all) all
