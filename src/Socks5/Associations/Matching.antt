-- ===== src/Socks5/Associations/Matching.antt =====
-- The loop of adoptAssociationMatchingSourcePort against its meaning.
use mathlib.Core.List.{Perm, Permᴰ}
use mathlib.Core.Logic.{∥∥₁_elim}
use mathlib.Core.Path.{subst, subst₂}
use native.Mathlib.Decide.{ℕ_discrete}
use cfwg.Base.{◌≡◌, refl, ◌∙◌, Option, none, some, [], ◌∷◌, arith, if◌then◌else◌, Text, is_empty}
use cfwg.Socks5.Associations.{UdpAddr, Association, Table, is_candidate, scan, sole}

-- The entries that could belong to the source.
unfoldable pub candidates : UdpAddr → Table → Table
candidates addr [] = []
candidates addr ((key, a) ∷ t) =
    let rest = candidates addr t in if is_candidate addr a then (key, a) ∷ rest else rest

-- What the loop returns when it has found an entry already.
only_if_empty : Text × Association → Table → Option (Text × Association)
only_if_empty found [] = some found
only_if_empty found (e ∷ t) = none

scan_found :
    (addr : UdpAddr) (found : Text × Association) (t : Table)
    → scan addr (some found) t ≡ only_if_empty found (candidates addr t)
unfolding scan candidates only_if_empty
scan_found addr found [] = refl
scan_found addr found ((key, a) ∷ t) = ground (arith, scan_found addr found t)

sole-cons : (e : Text × Association) (t : Table) → sole (e ∷ t) ≡ only_if_empty e t
unfolding sole only_if_empty
sole-cons e [] = refl
sole-cons e (d ∷ t) = refl

-- The loop finds the one candidate, if there is exactly one, and nothing otherwise.
pub scan-candidates : (addr : UdpAddr) (t : Table) → scan addr none t ≡ sole (candidates addr t)
unfolding scan candidates sole
scan-candidates addr [] = refl
scan-candidates addr ((key, a) ∷ t) = ground (
  arith,
  scan-candidates addr t,
  scan_found addr (key, a) t,
  sole-cons (key, a) (candidates addr t),
)

-- Two lists of candidates from which the loop makes the same.
abbrev Alike : Table → Table → Type 0
Alike x y = (sole x ≡ sole y) × (is_empty x ≡ is_empty y)

only_if_empty-alike :
    (e : Text × Association) (x y : Table)
    → is_empty x ≡ is_empty y
    → only_if_empty e x ≡ only_if_empty e y
unfolding only_if_empty
only_if_empty-alike e [] [] h = refl
only_if_empty-alike e [] (d ∷ y) h = cc
only_if_empty-alike e (d ∷ x) [] h = cc
only_if_empty-alike e (d ∷ x) (f ∷ y) h = refl

Alike-cons :
    (addr : UdpAddr) (e : Text × Association) (t u : Table)
    → Alike (candidates addr t) (candidates addr u)
    → Alike (candidates addr (e ∷ t)) (candidates addr (e ∷ u))
unfolding candidates
Alike-cons addr e t u h = ground (
  arith,
  sole-cons e (candidates addr t),
  sole-cons e (candidates addr u),
  only_if_empty-alike e (candidates addr t) (candidates addr u) h.1,
)

Alike-swap :
    (addr : UdpAddr) (d e : Text × Association) (t : Table)
    → Alike (candidates addr (d ∷ e ∷ t)) (candidates addr (e ∷ d ∷ t))
unfolding candidates sole
Alike-swap addr d e t = ground arith

Alike-perm :
    (addr : UdpAddr) {t u : Table} → Permᴰ t u → Alike (candidates addr t) (candidates addr u)
Alike-perm addr Permᴰ.nil = (refl, refl)
Alike-perm addr (Permᴰ.cons {a = d} {b = e} {l₁ = t} {l₂ = u} p q) =
    subst (λ (x : Text × Association). Alike (candidates addr (d ∷ t)) (candidates addr (x ∷ u))) p
      (Alike-cons addr d t u (Alike-perm addr q))
Alike-perm addr (Permᴰ.swap {a = d} {b = e} {a' = f} {b' = g} {l = t} p q) =
    subst₂
      (λ (x y : Text × Association).
        Alike (candidates addr (d ∷ e ∷ t)) (candidates addr (x ∷ y ∷ t)))
      q p (Alike-swap addr d e t)
Alike-perm addr (Permᴰ.trans p q) =
    let h = Alike-perm addr p in let k = Alike-perm addr q in (h.0 ∙ k.0, h.1 ∙ k.1)

found_set : IsSet (Option (Text × Association))
found_set = hlevel ℕ_discrete

-- Go walks a map in no fixed order: the loop's result does not depend on it.
pub scan-perm : (addr : UdpAddr) (t u : Table) → Perm t u → scan addr none t ≡ scan addr none u
scan-perm addr t u p =
    rw (scan-candidates addr t, scan-candidates addr u)
      (∥∥₁_elim p (found_set _ _) λ d. (Alike-perm addr d).0)
