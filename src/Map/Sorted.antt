-- ===== src/Map/Sorted.antt =====
-- Keys in strictly rising order, which every map of the program keeps, and what follows for its size
-- and its values.
use Prim.Native.Nat.{Ordering}
use roze_dtm.Common.{suc, ◌≡◌, refl, none, some, [], ◌∷◌, arith, Ord, All, length}
use roze_dtm.Map.{Map, lookup, insert, remove}

module _ {K V : Type 0} ⦃o : Ord K⦄ where
  abbrev pub Above : K → Map K V → Type 0
  Above k = All (λ p. o.cmp k p.0 ≡ Ordering.lt)

  abbrev pub Sorted : Map K V → Type 0
  Sorted [] = Unit {0}
  Sorted (p ∷ m) = Above p.0 m × Sorted m

  Above-trans : (k j : K) (m : Map K V) → o.cmp k j ≡ Ordering.lt → Above j m → Above k m
  Above-trans k j [] h a = tt
  Above-trans k j (p ∷ m) h a = (o.cmp_trans k j p.0 h a.0, Above-trans k j m h a.1)

  pub lookup-Above : (k : K) (m : Map K V) → Above k m → lookup k m ≡ none
  unfolding lookup
  lookup-Above k [] a = refl
  lookup-Above k (p ∷ m) a = ground (arith, lookup-Above k m a.1, o.cmp_flip k p.0)

  Above-insert :
      (k j : K) (v : V) (m : Map K V) → o.cmp k j ≡ Ordering.lt → Above k m → Above k (insert j v m)
  unfolding insert
  Above-insert k j v [] h a = (h, tt)
  Above-insert k j v (p ∷ m) h a = ground (arith, Above-insert k j v m h a.1)

  Above-remove : (k j : K) (m : Map K V) → Above k m → Above k (remove j m)
  unfolding remove
  Above-remove k j [] a = tt
  Above-remove k j (p ∷ m) a = ground (arith, Above-remove k j m a.1)

  pub insert-Sorted : (k : K) (v : V) (m : Map K V) → Sorted m → Sorted (insert k v m)
  unfolding insert
  insert-Sorted k v [] s = (tt, tt)
  insert-Sorted k v ((j, w) ∷ m) s = ground (
    arith,
    insert-Sorted k v m s.1,
    Above-insert j k v m,
    Above-trans k j m,
    o.cmp_flip k j,
    o.path_by_cmp k j,
  )

  pub remove-Sorted : (k : K) (m : Map K V) → Sorted m → Sorted (remove k m)
  unfolding remove
  remove-Sorted k [] s = tt
  remove-Sorted k ((j, w) ∷ m) s = ground (arith, remove-Sorted k m s.1, Above-remove j k m s.0)

  -- An insertion adds one entry where the key is new, and none where it replaces.
  pub length-insert :
      (k : K) (v : V) (m : Map K V)
      → Sorted m
      → length (insert k v m) ≡ (elim (lookup k m) [ none ↦ suc (length m) | some _ ↦ length m ])
  unfolding insert lookup
  length-insert k v [] s = refl
  length-insert k v ((j, w) ∷ m) s = ground (
    arith,
    length-insert k v m s.1,
    lookup-Above k m,
    Above-trans k j m,
    o.cmp_flip k j,
    o.path_by_cmp k j,
    o.cmp_refl k,
  )
