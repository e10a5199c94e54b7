-- ===== src/Graph/Pigeonhole.antt =====
-- Distinct indices below a bound are no more than the bound.
use roze_dtm.Common.{
  ℕ, zero, suc, ◌+◌, ◌≤◌, ◌<◌, ◌≡◌, refl, false, List, [], ◌∷◌, arith, not, filterb, length, All,
  ◌=?◌,
}
use roze_dtm.Graph.{index_in}

abbrev pub DistinctIndices : List ℕ → Type 0
DistinctIndices [] = Unit {0}
DistinctIndices (i ∷ is) = (index_in i is ≡ false) × DistinctIndices is

abbrev pub without : ℕ → List ℕ → List ℕ
without i = filterb (λ j. not (j =? i))

-- Removing an index that is not there changes nothing.
pub without-absent : (i : ℕ) (xs : List ℕ) → index_in i xs ≡ false → without i xs ≡ xs
without-absent i [] h = refl
without-absent i (x ∷ xs) h = ground (arith, without-absent i xs)

pub index_in-without :
    (i j : ℕ) (xs : List ℕ) → index_in j xs ≡ false → index_in j (without i xs) ≡ false
index_in-without i j [] h = refl
index_in-without i j (x ∷ xs) h = ground (arith, index_in-without i j xs)

without-DistinctIndices :
    (i : ℕ) (xs : List ℕ) → DistinctIndices xs → DistinctIndices (without i xs)
without-DistinctIndices i [] h = tt
without-DistinctIndices i (x ∷ xs) h =
    ground (arith, without-DistinctIndices i xs, index_in-without i x xs)

length-without : (i : ℕ) (xs : List ℕ) → DistinctIndices xs → length xs ≤ length (without i xs) + 1
length-without i [] h = omega arith
length-without i (x ∷ xs) h = ground (arith, length-without i xs, without-absent x xs)

without-below : (n : ℕ) (xs : List ℕ) → All (λ i. i < suc n) xs → All (λ i. i < n) (without n xs)
without-below n [] h = tt
without-below n (x ∷ xs) h = ground (arith, without-below n xs)

pub length-le_of_DistinctIndices :
    (n : ℕ) (xs : List ℕ) → DistinctIndices xs → All (λ i. i < n) xs → length xs ≤ n
length-le_of_DistinctIndices zero [] d h = omega arith
length-le_of_DistinctIndices zero (x ∷ xs) d h = omega arith
length-le_of_DistinctIndices (suc n) xs d h = omega (
  arith,
  length-without n xs d,
  length-le_of_DistinctIndices n (without n xs) (without-DistinctIndices n xs d)
      (without-below n xs h),
)
