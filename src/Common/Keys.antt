-- ===== src/Common/Keys.antt =====
-- Ordered keys, as `BTreeMap` wants them: a comparison that finds equal exactly what is equal.
use Prim.Native.Nat.{Ordering}
use Prim.Native.String.{String, compare}
use mathlib.Core.Path.{◌≡◌, ap, subst, sym, ◌∙◌}
use mathlib.Core.Logic.{◌↔◌, ◌⊎◌, inl, inr}
use mathlib.Core.Bool.{Bool, true, false, false≢true}
use native.Mathlib.Omega.{arith}
use text.Mathlib.TextEquality.{path_by_compare}
use text.Mathlib.TextPositions.{compare_refl}
use roze_dtm.Common.Tests.{Bool-cases}
use roze_dtm.Common.Texts.{flip, compare-flip, compare_trans}

pub record Ord (K : Type 0) : Type 0 where
  pub cmp : K → K → Ordering
  pub cmp_refl : (a : K) → cmp a a ≡ Ordering.eq
  pub path_by_cmp : (a b : K) → cmp a b ≡ Ordering.eq → a ≡ b
  pub cmp_flip : (a b : K) → cmp b a ≡ flip (cmp a b)
  pub cmp_trans :
      (a b c : K) → cmp a b ≡ Ordering.lt → cmp b c ≡ Ordering.lt → cmp a c ≡ Ordering.lt

instance abbrev pub string_ord : Ord String
string_ord = record {
  cmp = compare;
  cmp_refl = compare_refl;
  path_by_cmp = path_by_compare;
  cmp_flip = compare-flip;
  cmp_trans = compare_trans;
}

-- The derived order of a pair: the first components decide unless they are equal.
abbrev pub then_cmp : Ordering → Ordering → Ordering
then_cmp Ordering.eq o = o
then_cmp Ordering.lt o = Ordering.lt
then_cmp Ordering.gt o = Ordering.gt

abbrev pub pair_cmp : {K L : Type 0} → Ord K → Ord L → K × L → K × L → Ordering
pair_cmp k l (a, b) (c, d) = then_cmp (k.cmp a c) (l.cmp b d)

then_cmp_eq : (x y : Ordering) → then_cmp x y ≡ Ordering.eq → (x ≡ Ordering.eq) × (y ≡ Ordering.eq)
then_cmp_eq x y h = ground arith

pub pair_cmp_refl :
    {K L : Type 0} (k : Ord K) (l : Ord L) (p : K × L) → pair_cmp k l p p ≡ Ordering.eq
pair_cmp_refl k l (a, b) = ground (arith, k.cmp_refl a, l.cmp_refl b)

pub path_by_pair_cmp :
    {K L : Type 0} (k : Ord K) (l : Ord L) (p q : K × L) → pair_cmp k l p q ≡ Ordering.eq → p ≡ q
path_by_pair_cmp k l (a, b) (c, d) h =
    let both = then_cmp_eq (k.cmp a c) (l.cmp b d) h in
    λ i. (k.path_by_cmp a c both.0 i, l.path_by_cmp b d both.1 i)

pub pair_cmp-flip :
    {K L : Type 0} (k : Ord K) (l : Ord L) (p q : K × L)
    → pair_cmp k l q p ≡ flip (pair_cmp k l p q)
pair_cmp-flip k l (a, b) (c, d) = ground (arith, k.cmp_flip a c, l.cmp_flip b d)

then_cmp_lt :
    (x y : Ordering)
    → then_cmp x y ≡ Ordering.lt
    → (x ≡ Ordering.lt) ⊎ ((x ≡ Ordering.eq) × (y ≡ Ordering.lt))
then_cmp_lt x y h = ground arith

pub pair_cmp_trans :
    {K L : Type 0} (k : Ord K) (l : Ord L) (p q r : K × L)
    → pair_cmp k l p q ≡ Ordering.lt
    → pair_cmp k l q r ≡ Ordering.lt
    → pair_cmp k l p r ≡ Ordering.lt
pair_cmp_trans k l (a, b) (c, d) (e, f) g h = ground (
  arith,
  then_cmp_lt (k.cmp a c) (l.cmp b d) g,
  then_cmp_lt (k.cmp c e) (l.cmp d f) h,
  k.path_by_cmp a c,
  k.path_by_cmp c e,
  k.cmp_trans a c e,
  l.cmp_trans b d f,
)

instance abbrev pub pair_ord : {K L : Type 0} ⦃k : Ord K⦄ ⦃l : Ord L⦄ → Ord (K × L)
pair_ord ⦃k⦄ ⦃l⦄ = record {
  cmp = pair_cmp k l;
  cmp_refl = pair_cmp_refl k l;
  path_by_cmp = path_by_pair_cmp k l;
  cmp_flip = pair_cmp-flip k l;
  cmp_trans = pair_cmp_trans k l;
}

-- `==` on a key type.
abbrev pub is_eq : Ordering → Bool
is_eq Ordering.eq = true
is_eq _ = false

infix 50 ◌==◌
abbrev pub ◌==◌ : {K : Type 0} ⦃o : Ord K⦄ → K → K → Bool
◌==◌ ⦃o⦄ a b = is_eq (o.cmp a b)

is_eq-true : (x : Ordering) → is_eq x ≡ true → x ≡ Ordering.eq
is_eq-true x h = ground arith

module _ {K : Type 0} ⦃o : Ord K⦄ where
  pub ==_iff : (a b : K) → ((a == b) ≡ true) ↔ (a ≡ b)
  ==_iff a b = (
    λ h. o.path_by_cmp a b (is_eq-true (o.cmp a b) h),
    λ e. subst (λ c. (a == c) ≡ true) e (ap is_eq (o.cmp_refl a)),
  )

  pub ==_refl : (a : K) → (a == a) ≡ true
  ==_refl a = ap is_eq (o.cmp_refl a)

pub String-discrete : Discrete String
String-discrete a b = elim (Bool-cases (a == b)) [
  | inl e ↦ yes ((==_iff a b).0 e)
  | inr e ↦ no (λ p. false≢true (sym e ∙ (==_iff a b).1 p))
]
