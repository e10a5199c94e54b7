-- ===== src/Graph/Dags.antt =====
-- What a valid dependency graph is, without reference to the search.
use roze_dtm.Common.{
  ℕ, zero, suc, ◌<◌, ◌≡◌, refl, subst, String, false, Option, none, some, List, [], ◌∷◌, arith,
  length, All, get_elem?, string_ord, ◌==◌, ==_iff,
}
use roze_dtm.Data.{Branch}
use roze_dtm.Dynamic.{find_branch}
use roze_dtm.Dynamic.Registration.{Distinct}
use roze_dtm.Graph.{text_in}

-- Everything the branch depends on ranks below it.
abbrev pub Falls : (String → ℕ) → Branch → Type 0
Falls rank b = All (λ d. rank d < rank b.id) b.dependencies

abbrev pub Knows : List Branch → String → Type 0
Knows bs d = (c : Branch) × (find_branch d bs ≡ some c)

abbrev pub DistinctTexts : List String → Type 0
DistinctTexts [] = Unit {0}
DistinctTexts (d ∷ ds) = (text_in d ds ≡ false) × DistinctTexts ds

pub record IsDag (bs : List Branch) : Type 0 where
  pub distinct : Distinct bs
  pub known : All (λ b. All (Knows bs) b.dependencies) bs
  pub unrepeated : All (λ b. DistinctTexts b.dependencies) bs
  pub rank : String → ℕ
  pub falls : All (Falls rank) bs

-- A branch in the list is found under its id, where ids are distinct.
find_branch_absent :
    (bs : List Branch) (k : ℕ) (b : Branch) (id : String)
    → get_elem? bs k ≡ some b
    → find_branch id bs ≡ none
    → (b.id == id) ≡ false
find_branch_absent [] k b id h f = cc
find_branch_absent (x ∷ bs) zero b id h f = ground arith
find_branch_absent (x ∷ bs) (suc k) b id h f = find_branch_absent bs k b id h (ground arith)

pub find_branch-get_elem :
    (bs : List Branch) (k : ℕ) (b : Branch)
    → Distinct bs
    → get_elem? bs k ≡ some b
    → find_branch b.id bs ≡ some b
find_branch-get_elem [] k b d h = cc
find_branch-get_elem (x ∷ bs) zero b d h = ground (arith, ==_iff x.id b.id)
find_branch-get_elem (x ∷ bs) (suc k) b d h = ground (
  arith,
  find_branch-get_elem bs k b d.1 h,
  find_branch_absent bs k b x.id h d.0,
  ==_iff x.id b.id,
  ==_iff b.id x.id,
)

-- What holds at every index holds of every element.
pub All-of_get_elem :
    (P : Branch → Type 0) (bs : List Branch)
    → ((k : ℕ) (b : Branch) → get_elem? bs k ≡ some b → P b)
    → All P bs
All-of_get_elem P [] h = tt
All-of_get_elem P (x ∷ bs) h = (h zero x refl, All-of_get_elem P bs (λ k. h (suc k)))

some_path : {a b : Branch} → ◌≡◌ {A = Option Branch} (some a) (some b) → a ≡ b
some_path h = cc

pub get_elem_of_All :
    (P : Branch → Type 0) (bs : List Branch) (k : ℕ) (b : Branch)
    → All P bs
    → get_elem? bs k ≡ some b
    → P b
get_elem_of_All P [] k b a h = absurd (ground arith)
get_elem_of_All P (x ∷ bs) zero b a h = subst P (some_path h) a.0
get_elem_of_All P (x ∷ bs) (suc k) b a h = get_elem_of_All P bs k b a.1 h

pub get_elem-lt : (bs : List Branch) (k : ℕ) (b : Branch) → get_elem? bs k ≡ some b → k < length bs
get_elem-lt [] k b h = absurd (ground arith)
get_elem-lt (x ∷ bs) zero b h = omega arith
get_elem-lt (x ∷ bs) (suc k) b h = omega (arith, get_elem-lt bs k b h)
