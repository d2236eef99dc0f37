-- ===== src/Socks5/Associations/Refines.antt =====
-- The search for a source against the map that the table stands for, in which entries have no order.
use cfwg.Base.{
  ◌≡◌, refl, sym, ◌∙◌, arith, Bool, true, false, Option, none, some, [], ◌∷◌, Text, text_eq,
  text_eq_refl, text_eq_iff, text_eq_sound, if◌then◌else◌, Option-cases, inl, inr,
}
use cfwg.Base.TextMap.{lookup, delete, lookup-insert, lookup-delete, KeysDiffer}
use cfwg.Net.Ip.{IpText}
use cfwg.Socks5.Associations.{
  UdpAddr, Association, Table, is_candidate, scan, sole, addr_key, adopt_found, or_adopt_matching,
  adopt_association_matching_source_port, adopt_sole_association, or_adopt_sole, or_sole, or_adopt,
  association_for_source, lookup_association,
}
use cfwg.Socks5.Associations.Matching.{candidates, scan-candidates}

-- The associations by key, and nothing else.
abbrev pub Map : Type 0
Map = Text → Option Association

-- The entry is the only one that passes the test.
pub record IsOnly (test : Association → Bool) (m : Map) (key : Text) (a : Association)
    : Type 0 where
  pub stands : m key ≡ some a
  pub passes : test a ≡ true
  pub unique : (j : Text) (b : Association) → m j ≡ some b → test b ≡ true → j ≡ key

abbrev pub any_entry : Association → Bool
any_entry a = true

-- No entry is the only one that passes the test.
abbrev pub HasNoOnly : (Association → Bool) → Map → Type 0
HasNoOnly test m = (key : Text) (a : Association) → IsOnly test m key a → ⊥

-- The map after an entry has moved to the source.
abbrev pub moved : Text → Text → Association → Map → Map
moved key to a m j = if text_eq to j then some a else (if text_eq key j then none else m j)

-- What the search for a source may find in a map, and the map after it: the entry under the source's
-- own key; or else the only one of the source's port and host, or, if there is no such, the only one
-- at all, which moves to the source; or else nothing.
pub data Finds (T : IpText) (addr : UdpAddr) (m : Map) : Option Association → Map → Type 0 where
  known :
      {after : Map} (a : Association)
      → m (addr_key T addr) ≡ some a
      → ((j : Text) → after j ≡ m j)
      → Finds T addr m (some a) after
  matching :
      {after : Map} (key : Text) (a : Association)
      → m (addr_key T addr) ≡ none
      → IsOnly (is_candidate addr) m key a
      → ((j : Text) → after j ≡ moved key (addr_key T addr) (record a { client_addr = addr }) m j)
      → Finds T addr m (some (record a { client_addr = addr })) after
  sole_entry :
      {after : Map} (key : Text) (a : Association)
      → m (addr_key T addr) ≡ none
      → HasNoOnly (is_candidate addr) m
      → IsOnly any_entry m key a
      → ((j : Text) → after j ≡ moved key (addr_key T addr) (record a { client_addr = addr }) m j)
      → Finds T addr m (some (record a { client_addr = addr })) after
  nothing :
      {after : Map}
      → m (addr_key T addr) ≡ none
      → HasNoOnly (is_candidate addr) m
      → HasNoOnly any_entry m
      → ((j : Text) → after j ≡ m j)
      → Finds T addr m none after

-- The map of a table.
abbrev pub map_of : Table → Map
map_of t key = lookup key t

if_candidate : UdpAddr → Option Association → Option Association
if_candidate addr none = none
if_candidate addr (some a) = if is_candidate addr a then some a else none

if_candidate-some :
    (addr : UdpAddr) (o : Option Association) (b : Association)
    → if_candidate addr o ≡ some b
    → (o ≡ some b) × (is_candidate addr b ≡ true)
unfolding if_candidate
if_candidate-some addr none b h = cc
if_candidate-some addr (some a) b h = ground arith

lookup-candidates :
    (addr : UdpAddr) (j : Text) (t : Table)
    → KeysDiffer t
    → lookup j (candidates addr t) ≡ if_candidate addr (lookup j t)
unfolding lookup candidates if_candidate
lookup-candidates addr j [] differ = refl
lookup-candidates addr j ((key, a) ∷ t) differ =
    ground (arith, text_eq_iff key j, lookup-candidates addr j t differ.1)

candidates-KeysDiffer : (addr : UdpAddr) (t : Table) → KeysDiffer t → KeysDiffer (candidates addr t)
unfolding candidates if_candidate
candidates-KeysDiffer addr [] differ = tt
candidates-KeysDiffer addr ((key, a) ∷ t) differ =
    ground (arith, lookup-candidates addr key t differ.1, candidates-KeysDiffer addr t differ.1)

none-some : {A : Type 0} {a : A} → none ≡ some a → ⊥
none-some e = cc

-- The one entry of a table that has no other.
sole-IsOnly :
    (u : Table) (key : Text) (a : Association)
    → sole u ≡ some (key, a)
    → IsOnly any_entry (map_of u) key a
unfolding sole lookup
sole-IsOnly [] key a h = cc
sole-IsOnly ((k, b) ∷ []) key a h = record {
  stands = ground (arith, text_eq_refl key);
  passes = refl;
  unique = λ j c found passes. ground (arith, text_eq_sound k j);
}
sole-IsOnly ((k, b) ∷ (l, c) ∷ u) key a h = cc

IsOnly-sole :
    (u : Table) (key : Text) (a : Association)
    → KeysDiffer u
    → IsOnly any_entry (map_of u) key a
    → sole u ≡ some (key, a)
unfolding sole lookup
IsOnly-sole [] key a differ only = absurd (none-some only.stands)
IsOnly-sole ((k, b) ∷ []) key a differ only =
    let there = only.unique k b (rw (text_eq_refl k) refl) refl in
    ground (arith, text_eq_refl k, only.stands)
IsOnly-sole ((k, b) ∷ (l, c) ∷ u) key a differ only =
    let first = only.unique k b (rw (text_eq_refl k) refl) refl in
    let apart : text_eq k l ≡ false = ground (arith, text_eq_iff k l, text_eq_refl l, differ.0) in
    let second = only.unique l c (rw (apart, text_eq_refl l) refl) refl in
    ground (arith, text_eq_iff k l)

module _ (addr : UdpAddr) (t : Table) (differ : KeysDiffer t) where
  IsOnly-of_candidates :
      (key : Text) (a : Association)
      → IsOnly any_entry (map_of (candidates addr t)) key a
      → IsOnly (is_candidate addr) (map_of t) key a
  unfolding if_candidate
  IsOnly-of_candidates key a only = record {
    stands = ground (arith, lookup-candidates addr key t differ, only.stands);
    passes = ground (arith, lookup-candidates addr key t differ, only.stands);
    unique = λ j b found passes.
        only.unique j b (rw (lookup-candidates addr j t differ, found, if_candidate, passes) refl)
          refl;
  }

  IsOnly-to_candidates :
      (key : Text) (a : Association)
      → IsOnly (is_candidate addr) (map_of t) key a
      → IsOnly any_entry (map_of (candidates addr t)) key a
  unfolding if_candidate
  IsOnly-to_candidates key a only = record {
    stands = rw (lookup-candidates addr key t differ, only.stands, if_candidate, only.passes) refl;
    passes = refl;
    unique = λ j b found passes.
        let (there, candidate) =
          if_candidate-some addr (lookup j t) b (sym (lookup-candidates addr j t differ) ∙ found) in
        only.unique j b there candidate;
  }

module _ (T : IpText) (addr : UdpAddr) (t : Table) (differ : KeysDiffer t) where
  -- The outcome of a search in this table.
  abbrev pub FindsIn : Option Association × Table → Type 0
  FindsIn r = Finds T addr (map_of t) (r.0) (map_of (r.1))

  adopt_found-moved :
      (key : Text) (a : Association) (j : Text)
      → lookup j ((adopt_found T addr t (some (key, a))).1)
        ≡ moved key (addr_key T addr) (record a { client_addr = addr }) (map_of t) j
  unfolding adopt_found
  adopt_found-moved key a j =
      rw
        (
          lookup-insert (addr_key T addr) j (record a { client_addr = addr }) (delete key t),
          lookup-delete key j t,
        )
        refl

  module _ (absent : lookup (addr_key T addr) t ≡ none) where
    sole-FindsIn :
        (found : Option (Text × Association))
        → sole t ≡ found
        → HasNoOnly (is_candidate addr) (map_of t)
        → FindsIn (adopt_found T addr t found)
    unfolding adopt_found
    sole-FindsIn none made no_candidate =
        nothing absent no_candidate
          (λ key a only. none-some (sym made ∙ IsOnly-sole t key a differ only)) λ j. refl
    sole-FindsIn (some (key, a)) made no_candidate =
        sole_entry key a absent no_candidate (sole-IsOnly t key a made) (adopt_found-moved key a)

    search-FindsIn :
        (found : Option (Text × Association))
        → scan addr none t ≡ found
        → FindsIn (or_sole T addr (adopt_found T addr t found))
    unfolding or_sole adopt_found adopt_sole_association
    search-FindsIn none made =
        rw (absent, or_adopt_sole)
          (sole-FindsIn (sole t) refl λ key a only. none-some (
            sym made
            ∙ scan-candidates addr t
            ∙ IsOnly-sole (candidates addr t) key a (candidates-KeysDiffer addr t differ)
                (IsOnly-to_candidates addr t differ key a only)))
    search-FindsIn (some (key, a)) made =
        matching key a absent
          (IsOnly-of_candidates addr t differ key a
            (sole-IsOnly (candidates addr t) key a (sym (scan-candidates addr t) ∙ made)))
          (adopt_found-moved key a)

  -- The search for a source implements its specification on the map that the table stands for, which
  -- knows no order of entries: the entry under the source's own key is found and nothing changes;
  -- or else the only entry of the source's port, and of its host where that is bound, moves to the
  -- source; or else the only entry at all does; or else nothing is found and nothing changes. No key
  -- stands twice in the table.
  pub association_for_source-FindsIn : FindsIn (association_for_source T addr t)
  unfolding association_for_source lookup_association adopt_association_matching_source_port
  association_for_source-FindsIn = elim (Option-cases (lookup (addr_key T addr) t)) [
    | inl absent ↦
        rw (absent, or_adopt)
          (rw (absent, or_adopt_matching) (search-FindsIn absent (scan addr none t) refl))
    | inr (a, found) ↦ rw (found, or_adopt) (known a found λ j. refl)
  ]
