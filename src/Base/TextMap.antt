-- ===== src/Base/TextMap.antt =====
-- A Go map with text keys, as a list of its entries: each key stands once.
use mathlib.Core.Path.{◌≡◌}
use mathlib.Core.List.{List, [], ◌∷◌}
use mathlib.Core.Option.{Option, none, some}
use native.Mathlib.Omega.{arith}
use cfwg.Base.Tests.{if◌then◌else◌}
use cfwg.Base.Bytes.{Text, text_eq, text_eq_iff, text_eq_refl}

abbrev pub TextMap {ℓ} : Type ℓ → Type ℓ
TextMap V = List (Text × V)

module _ {ℓ} {V : Type ℓ} where
  -- `m[k]`, with the comma-ok test.
  unfoldable pub lookup : Text → TextMap V → Option V
  lookup k [] = none
  lookup k ((j, v) ∷ m) = if text_eq j k then some v else lookup k m

  -- `delete(m, k)`
  unfoldable pub delete : Text → TextMap V → TextMap V
  delete k [] = []
  delete k ((j, v) ∷ m) = let rest = delete k m in if text_eq j k then rest else (j, v) ∷ rest

  -- `m[k] = v`
  unfoldable pub insert : Text → V → TextMap V → TextMap V
  insert k v m = (k, v) ∷ delete k m

  pub lookup-delete :
      (k j : Text) (m : TextMap V)
      → lookup j (delete k m) ≡ (if text_eq k j then none else lookup j m)
  unfolding lookup delete
  lookup-delete k j [] = ground arith
  lookup-delete k j ((i, v) ∷ m) =
      ground (arith, text_eq_iff k j, text_eq_iff i k, text_eq_iff i j, lookup-delete k j m)

  pub lookup-insert :
      (k j : Text) (v : V) (m : TextMap V)
      → lookup j (insert k v m) ≡ (if text_eq k j then some v else lookup j m)
  unfolding lookup insert
  lookup-insert k j v m = ground (arith, lookup-delete k j m)

  -- No key stands twice.
  abbrev pub KeysDiffer : TextMap V → Type ℓ
  KeysDiffer [] = Unit
  KeysDiffer ((k, v) ∷ m) = (lookup k m ≡ none) × KeysDiffer m

  pub delete-KeysDiffer : (k : Text) (m : TextMap V) → KeysDiffer m → KeysDiffer (delete k m)
  unfolding delete
  delete-KeysDiffer k [] u = u
  delete-KeysDiffer k ((j, v) ∷ m) u =
      ground (arith, lookup-delete k j m, delete-KeysDiffer k m u.1)

  pub insert-KeysDiffer :
      (k : Text) (v : V) (m : TextMap V) → KeysDiffer m → KeysDiffer (insert k v m)
  unfolding insert
  insert-KeysDiffer k v m u = (rw (lookup-delete k k m, text_eq_refl k), delete-KeysDiffer k m u)
