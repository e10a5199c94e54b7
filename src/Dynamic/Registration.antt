-- ===== src/Dynamic/Registration.antt =====
-- What `append_dynamic_branch` keeps and reports.
use roze_dtm.Common.{
  ℕ, ◌≡◌, ◌≢◌, inl, inr, String, List, [], ◌∷◌, ◌++◌, arith, ◌==◌, ==_iff, string_ord, none, some,
  false, ◌⊎◌, inl, inr, if◌then◌else◌,
}
use roze_dtm.Data.{Branch, Transaction, ok}
use roze_dtm.Dynamic.{append_dynamic_branch, bump_transaction_revision, find_branch}

-- Branch ids are pairwise distinct.
abbrev pub Distinct : List Branch → Type 0
Distinct [] = Unit {0}
Distinct (b ∷ bs) = (find_branch b.id bs ≡ none) × Distinct bs

find_branch-append_none :
    (id : String) (bs : List Branch) (b : Branch)
    → find_branch id bs ≡ none
    → (b.id == id) ≡ false
    → find_branch id (bs ++ b ∷ []) ≡ none
find_branch-append_none id [] b h e = ground arith
find_branch-append_none id (x ∷ bs) b h e = ground (arith, find_branch-append_none id bs b)

find_branch-append :
    (id : String) (bs : List Branch) (b : Branch)
    → find_branch id bs ≡ none
    → b.id ≡ id
    → find_branch id (bs ++ b ∷ []) ≡ some b
find_branch-append id [] b h e = ground (arith, ==_iff b.id id)
find_branch-append id (x ∷ bs) b h e = ground (arith, find_branch-append id bs b)

find_branch-append_other :
    (id : String) (bs : List Branch) (b : Branch)
    → find_branch b.id bs ≡ none
    → find_branch id (bs ++ b ∷ []) ≡ (if b.id == id then some b else find_branch id bs)
find_branch-append_other id [] b h = ground (arith, ==_iff b.id id)
find_branch-append_other id (x ∷ bs) b h =
    ground
      (arith, find_branch-append_other id bs b, ==_iff b.id id, ==_iff x.id b.id, ==_iff x.id id)

Distinct-append :
    (bs : List Branch) (b : Branch)
    → Distinct bs
    → find_branch b.id bs ≡ none
    → Distinct (bs ++ b ∷ [])
Distinct-append [] b d h = ground arith
Distinct-append (x ∷ bs) b d h = (
  ground (arith, find_branch-append_none x.id bs b, ==_iff x.id b.id, ==_iff b.id x.id),
  Distinct-append bs b d.1 (ground (arith)),
)

module _ (now : ℕ) (tx : Transaction) (b : Branch) where
  -- Registration either finds the very same branch and changes nothing, or appends the branch
  -- under a fresh id and moves the revision and the update time alone.
  pub append_dynamic_branch_cases :
      (tx' : Transaction)
      → append_dynamic_branch now tx b ≡ ok tx'
      → ((find_branch b.id tx.branches ≡ some b) × (tx' ≡ tx))
        ⊎ ((find_branch b.id tx.branches ≡ none)
            × (tx'
                ≡ bump_transaction_revision now (record tx { branches = tx.branches ++ b ∷ [] })))
  unfolding append_dynamic_branch
  append_dynamic_branch_cases tx' h = ground arith

  -- Where the ids are distinct and the registration is accepted, the branch is found under its id and every
  -- other branch as before, the ids stay distinct, and the identity, kind and status of the transaction do not
  -- change.
  pub append_dynamic_branch-registers :
      (tx' : Transaction) (id : String)
      → Distinct tx.branches
      → append_dynamic_branch now tx b ≡ ok tx'
      → Distinct tx'.branches
        × (find_branch b.id tx'.branches ≡ some b)
        × (find_branch id tx'.branches
            ≡ (if b.id == id then some b else find_branch id tx.branches))
        × (tx'.gid ≡ tx.gid)
        × (tx'.kind ≡ tx.kind)
        × (tx'.status ≡ tx.status)
  unfolding bump_transaction_revision
  append_dynamic_branch-registers tx' id d h = elim (append_dynamic_branch_cases tx' h) [
    | inl (found, same) ↦ ground (arith, ==_iff b.id id)
    | inr (fresh, added) ↦ ground (
      arith,
      Distinct-append tx.branches b d fresh,
      find_branch-append b.id tx.branches b fresh,
      find_branch-append_other id tx.branches b fresh,
    )
  ]

  -- Registering the branch once more, at any later time, succeeds and changes nothing.
  pub append_dynamic_branch_again :
      (later : ℕ) (tx' : Transaction)
      → append_dynamic_branch now tx b ≡ ok tx'
      → append_dynamic_branch later tx' b ≡ ok tx'
  unfolding append_dynamic_branch bump_transaction_revision
  append_dynamic_branch_again later tx' h = ground (arith, find_branch-append b.id tx.branches b)

  -- A different branch under an id in use is refused, whatever the transaction's state.
  pub append_dynamic_branch_conflict :
      (existing : Branch)
      → find_branch b.id tx.branches ≡ some existing
      → existing ≢ b
      → (t : Transaction) → append_dynamic_branch now tx b ≢ ok t
  unfolding append_dynamic_branch
  append_dynamic_branch_conflict existing f n t e = ground arith
