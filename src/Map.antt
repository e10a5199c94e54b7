-- ===== src/Map.antt =====
-- `BTreeMap`: an association list in key order. `lookup` scans the whole list, so the laws need
-- no order invariant; the iteration order of `values` is the list's.
pub mod Sorted
use Prim.Native.Nat.{Ordering}
use roze_dtm.Common.{
  ◌≡◌, refl, Option, none, some, List, [], ◌∷◌, map, arith, Ord, ◌==◌, ==_iff, if◌then◌else◌,
}

abbrev pub Map : Type 0 → Type 0 → Type 0
Map K V = List (K × V)

module _ {K V : Type 0} ⦃o : Ord K⦄ where
  unfoldable pub lookup : K → Map K V → Option V
  lookup key [] = none
  lookup key ((k, value) ∷ entries) = if k == key then some value else lookup key entries

  unfoldable pub insert : K → V → Map K V → Map K V
  insert key value [] = (key, value) ∷ []
  insert key value ((k, old) ∷ entries) =
      let rest = insert key value entries in
      elim (o.cmp key k) [
        | Ordering.lt ↦ (key, value) ∷ (k, old) ∷ entries
        | Ordering.eq ↦ (key, value) ∷ entries
        | Ordering.gt ↦ (k, old) ∷ rest
      ]

  unfoldable pub remove : K → Map K V → Map K V
  remove k [] = []
  remove k ((j, v) ∷ m) = let rest = remove k m in if j == k then rest else (j, v) ∷ rest

  unfoldable pub values : Map K V → List V
  values = map (λ p. p.1)

  pub lookup-insert :
      (key other : K) (value : V) (entries : Map K V)
      → lookup other (insert key value entries)
        ≡ (if key == other then some value else lookup other entries)
  unfolding lookup insert
  lookup-insert key other value [] = refl
  lookup-insert key other value ((k, old) ∷ entries) = ground (
    arith,
    lookup-insert key other value entries,
    ==_iff k other,
    ==_iff key other,
    o.path_by_cmp key k,
  )

  pub lookup-remove :
      (k j : K) (m : Map K V) → lookup j (remove k m) ≡ (if k == j then none else lookup j m)
  unfolding lookup remove
  lookup-remove k j [] = ground arith
  lookup-remove k j ((i, w) ∷ m) =
      ground (arith, lookup-remove k j m, ==_iff i j, ==_iff k j, ==_iff i k)

pub ruleset map_laws = (lookup-insert, lookup-remove)
