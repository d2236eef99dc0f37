-- ===== src/Socks5/Associations/Invariant.antt =====
-- The table's invariant, and what a source finds in it.
use cfwg.Base.{
  ◌≡◌, refl, subst, inl, inr, Option-cases, Option, none, some, [], ◌∷◌, arith, Text, text_eq_refl,
}
use cfwg.Base.TextMap.{
  lookup, insert, delete, lookup-insert, KeysDiffer, delete-KeysDiffer, insert-KeysDiffer,
}
use cfwg.Socks5.Associations.{
  UdpAddr, Association, Table, scan, addr_key, store_association, delete_association, adopt_found,
  or_adopt_matching, adopt_association_matching_source_port, sole, adopt_sole_association,
  or_adopt_sole, or_sole, or_adopt, association_for_source, lookup_association,
}
use cfwg.Net.Ip.{IpText}

module _ (T : IpText) where
  -- Each association stands under the text of its current address.
  abbrev pub Keyed : Table → Type 0
  Keyed [] = Unit {0}
  Keyed ((k, a) ∷ t) = (k ≡ addr_key T a.client_addr) × Keyed t

  pub record IsTable (t : Table) : Type 0 where
    pub differ : KeysDiffer t
    pub keyed : Keyed t

  delete-Keyed : (k : Text) (t : Table) → Keyed t → Keyed (delete k t)
  unfolding delete
  delete-Keyed k [] h = h
  delete-Keyed k ((j, a) ∷ t) h = ground (arith, delete-Keyed k t h.1)

  delete-IsTable : (k : Text) (t : Table) → IsTable t → IsTable (delete k t)
  delete-IsTable k t h = record {
    differ = delete-KeysDiffer k t h.differ;
    keyed = delete-Keyed k t h.keyed;
  }

  insert-IsTable :
      (a : Association) (t : Table) → IsTable t → IsTable (insert (addr_key T a.client_addr) a t)
  insert-IsTable a t h = record {
    differ = insert-KeysDiffer (addr_key T a.client_addr) a t h.differ;
    keyed = unfold insert in (refl, delete-Keyed (addr_key T a.client_addr) t h.keyed);
  }

  adopt_found-IsTable :
      (addr : UdpAddr) (t : Table) (found : Option (Text × Association))
      → IsTable t
      → IsTable (adopt_found T addr t found).1
  unfolding adopt_found
  adopt_found-IsTable addr t none h = h
  adopt_found-IsTable addr t (some (key, a)) h =
      insert-IsTable (record a { client_addr = addr }) (delete key t) (delete-IsTable key t h)

  -- A source either finds nothing, and the table is as it was, or its association stands under its
  -- own address afterwards.
  abbrev Settles : UdpAddr → Table → Option Association × Table → Type 0
  Settles addr t (none, t') = t' ≡ t
  Settles addr t (some a, t') = lookup (addr_key T addr) t' ≡ some a

  adopt_found-Settles :
      (addr : UdpAddr) (t : Table) (found : Option (Text × Association))
      → Settles addr t (adopt_found T addr t found)
  unfolding adopt_found
  adopt_found-Settles addr t none = refl
  adopt_found-Settles addr t (some (key, a)) = rw (
    lookup-insert (addr_key T addr) (addr_key T addr) _ (delete key t),
    text_eq_refl (addr_key T addr),
  )

  or_sole_cases {ℓ} :
      (P : Option Association × Table → Type ℓ) (addr : UdpAddr) (t : Table)
      → lookup (addr_key T addr) t ≡ none
      → ((found : Option (Text × Association)) → P (adopt_found T addr t found))
      → (found : Option (Text × Association)) → P (or_sole T addr (adopt_found T addr t found))
  unfolding adopt_found or_sole adopt_sole_association
  or_sole_cases P addr t absent adopted none = rw absent (adopted (sole t))
  or_sole_cases P addr t absent adopted (some (key, a)) = adopted (some (key, a))

  -- All that the three steps of associationForSource can do, as one case rule.
  association_for_source_cases {ℓ} :
      (P : Option Association × Table → Type ℓ) (addr : UdpAddr) (t : Table)
      → ((a : Association) → lookup (addr_key T addr) t ≡ some a → P (some a, t))
      → ((found : Option (Text × Association)) → P (adopt_found T addr t found))
      → P (association_for_source T addr t)
  unfolding association_for_source lookup_association adopt_association_matching_source_port
  association_for_source_cases P addr t known adopted =
      elim (Option-cases (lookup (addr_key T addr) t)) [
        | inl absent ↦
            rw (absent, or_adopt)
              (rw (absent, or_adopt_matching)
                (or_sole_cases P addr t absent adopted (scan addr none t)))
        | inr (a, found) ↦ rw (found, or_adopt) (known a found)
      ]

  -- Storing an association under its own address, deleting one, and the search for a source, with
  -- whatever it adopts, keep the table such that no key stands twice and each association stands
  -- under the text of its current address.
  pub IsTable-kept :
      (t : Table)
      → IsTable t
      → ((a : Association) → IsTable (store_association T a.client_addr a t))
        × ((addr : UdpAddr) → IsTable (delete_association T addr t))
        × ((addr : UdpAddr) → IsTable (association_for_source T addr t).1)
  unfolding store_association delete_association
  IsTable-kept t h = (
    λ a. insert-IsTable a t h,
    λ addr. delete-IsTable (addr_key T addr) t h,
    λ addr.
        association_for_source_cases (λ r. IsTable r.1) addr t (λ _ _. h)
          (λ found. adopt_found-IsTable addr t found h),
  )

  -- The two sections of the search that may adopt, each alone.
  pub adopt_matching-IsTable :
      (addr : UdpAddr) (t : Table)
      → IsTable t
      → IsTable (adopt_association_matching_source_port T addr t).1
  unfolding adopt_association_matching_source_port
  adopt_matching-IsTable addr t h = elim (Option-cases (lookup (addr_key T addr) t)) [
    | inl absent ↦ rw (absent, or_adopt_matching) (adopt_found-IsTable addr t (scan addr none t) h)
    | inr (a, found) ↦ rw (found, or_adopt_matching) h
  ]

  pub adopt_sole-IsTable :
      (addr : UdpAddr) (t : Table) → IsTable t → IsTable (adopt_sole_association T addr t).1
  unfolding adopt_sole_association
  adopt_sole-IsTable addr t h = elim (Option-cases (lookup (addr_key T addr) t)) [
    | inl absent ↦ rw (absent, or_adopt_sole) (adopt_found-IsTable addr t (sole t) h)
    | inr (a, found) ↦ rw (found, or_adopt_sole) h
  ]

  association_for_source-Settles :
      (addr : UdpAddr) (t : Table) → Settles addr t (association_for_source T addr t)
  association_for_source-Settles addr t =
      association_for_source_cases (Settles addr t) addr t (λ _ e. e) (adopt_found-Settles addr t)

  association_for_source_known :
      (addr : UdpAddr) (t : Table) (a : Association)
      → lookup (addr_key T addr) t ≡ some a
      → association_for_source T addr t ≡ (some a, t)
  unfolding association_for_source lookup_association
  association_for_source_known addr t a e = rw (e, or_adopt)

  pub association_for_source-lookup :
      (addr : UdpAddr) (t t' : Table) (a : Association)
      → association_for_source T addr t ≡ (some a, t')
      → lookup (addr_key T addr) t' ≡ some a
  association_for_source-lookup addr t t' a e =
      subst (Settles addr t) e (association_for_source-Settles addr t)

  -- Once a source has been given an association, its next datagram is given the same one, and the
  -- table no longer changes.
  pub association_for_source_again :
      (addr : UdpAddr) (t t' : Table) (a : Association)
      → association_for_source T addr t ≡ (some a, t')
      → association_for_source T addr t' ≡ (some a, t')
  association_for_source_again addr t t' a e =
      association_for_source_known addr t' a (association_for_source-lookup addr t t' a e)
