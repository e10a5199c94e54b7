-- ===== src/Common/Texts.antt =====
-- The order of texts is a strict total order.
use Prim.Native.Nat.{ℕ, Ordering, compare as compare_ℕ}
use Prim.Native.Char.{code}
use Prim.Native.String.compare
use Prim.Native.String.{String, [], ◌∷◌, compare, then}
use mathlib.Core.Path.{◌≡◌, sym, ap, ◌∙◌}
use native.Mathlib.Omega.{arith}

abbrev pub flip : Ordering → Ordering
flip Ordering.lt = Ordering.gt
flip Ordering.eq = Ordering.eq
flip Ordering.gt = Ordering.lt

flip_ℕ : (m n : ℕ) → compare_ℕ n m ≡ flip (compare_ℕ m n)
flip_ℕ m n = ground arith

then-flip : (x y : Ordering) → then (flip x) (flip y) ≡ flip (then x y)
then-flip x y = ground arith

pub compare-flip : (s t : String) → compare t s ≡ flip (compare s t)
compare-flip [] [] = compare.nil-nil ∙ ap flip (sym compare.nil-nil)
compare-flip [] (d ∷ t) = compare.cons-nil d t ∙ ap flip (sym (compare.nil-cons d t))
compare-flip (c ∷ s) [] = compare.nil-cons c s ∙ ap flip (sym (compare.cons-nil c s))
compare-flip (c ∷ s) (d ∷ t) =
    rw
      (
        compare.cons-cons d c t s,
        compare.cons-cons c d s t,
        flip_ℕ (code c) (code d),
        compare-flip s t,
      )
      (then-flip (compare_ℕ (code c) (code d)) (compare s t))

then_trans :
    (c d e : ℕ) (x y z : Ordering)
    → then (compare_ℕ c d) x ≡ Ordering.lt
    → then (compare_ℕ d e) y ≡ Ordering.lt
    → (x ≡ Ordering.lt → y ≡ Ordering.lt → z ≡ Ordering.lt)
    → then (compare_ℕ c e) z ≡ Ordering.lt
then_trans c d e x y z p q r = ground arith

pub compare_trans :
    (s t u : String)
    → compare s t ≡ Ordering.lt
    → compare t u ≡ Ordering.lt
    → compare s u ≡ Ordering.lt
compare_trans s [] [] p q = cc
compare_trans [] [] (e ∷ u) p q = compare.nil-cons e u
compare_trans (c ∷ s) [] (e ∷ u) p q = cc (compare.cons-nil c s)
compare_trans s (d ∷ t) [] p q = cc (compare.cons-nil d t)
compare_trans [] (d ∷ t) (e ∷ u) p q = compare.nil-cons e u
compare_trans (c ∷ s) (d ∷ t) (e ∷ u) p q =
    compare.cons-cons c e s u
    ∙ then_trans (code c) (code d) (code e) (compare s t) (compare t u) (compare s u)
        (sym (compare.cons-cons c d s t) ∙ p) (sym (compare.cons-cons d e t u) ∙ q)
        (compare_trans s t u)
