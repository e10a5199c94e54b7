-- ===== src/Coordinator/Evolution.antt =====
-- What methods that write a transaction several times do to the stored transactions, when no other worker
-- interferes: every stored transaction moves along the life of its kind.
use roze_dtm.Common.{
  ◌≡◌, refl, sym, ◌∙◌, arith, String, Bool, true, false, Option, some, ◌⊎◌, inl, inr, ◌==◌, ==_iff,
  string_ord, if◌then◌else◌, Bool-cases, ap, subst,
}
use roze_dtm.Map.{lookup, insert, lookup-insert}
use roze_dtm.Memory.Transactions.{MemoryStore}
use roze_dtm.Data.{Transaction, Result, is_terminal}
use roze_dtm.Engine.{World}
use roze_dtm.Coordinator.Lifecycle.{later, later_refl, later_trans}
use roze_dtm.Coordinator.Moves.{Moves}

-- Every transaction is stored under its own gid.
unfoldable pub Keyed : MemoryStore → Type 0
Keyed s = (gid : String) (tx : Transaction) → lookup gid s.txs ≡ some tx → tx.gid ≡ gid

-- What is stored for `gid` later on: it is unchanged if it was terminal.
unfoldable pub Continues : Transaction → MemoryStore → String → Type 0
Continues old s gid =
    (new : Transaction) × (lookup gid s.txs ≡ some new)
    × (new.kind ≡ old.kind)
    × (later old.kind old.status new.status ≡ true)
    × ((is_terminal old.status ≡ false) ⊎ (new ≡ old))

-- One write at most, of a later state of the transaction `gid`; a terminal one is written back as it was.
unfoldable pub Shifts : String → World → World → Type 0
Shifts gid w w' =
    (w'.store.txs ≡ w.store.txs)
    ⊎ ((old : Transaction) × (new : Transaction) × (lookup gid w.store.txs ≡ some old)
        × ((is_terminal old.status ≡ false) ⊎ (new ≡ old))
        × (new.gid ≡ old.gid)
        × (new.kind ≡ old.kind)
        × (later old.kind old.status new.status ≡ true)
        × (w'.store.txs ≡ insert new.gid new w.store.txs))

pub Moves-Shifts :
    (gid : String) (w : World) (run : Result Transaction × World)
    → Moves gid w run
    → Shifts gid w run.1
unfolding Moves Shifts
Moves-Shifts gid w run (inl same) = inl same
Moves-Shifts gid w run (inr (old, new, stored, active, same_gid, same_kind, next, txs, said)) =
    inr (old, new, stored, inl active, same_gid, same_kind, next, txs)

some-injective : {A : Type 0} {a b : A} → some a ≡ some b → a ≡ b
some-injective e = ground (arith, e)

-- A lookup after an insertion finds the new value, or what was there.
found_after :
    {A : Type 0} (c : Bool) (new a : A) (before : Option A)
    → (if c then some new else before) ≡ some a
    → ((c ≡ true) × (new ≡ a)) ⊎ (before ≡ some a)
found_after true new a before e = inl (refl, some-injective e)
found_after false new a before e = inr e

lookup_written :
    (k : String) (new : Transaction) (s s' : MemoryStore)
    → s'.txs ≡ insert new.gid new s.txs
    → lookup k s'.txs ≡ (if new.gid == k then some new else lookup k s.txs)
lookup_written k new s s' e = ap (lookup k) e ∙ lookup-insert new.gid k new s.txs

Shifts-Keyed : (gid : String) (w w' : World) → Shifts gid w w' → Keyed w.store → Keyed w'.store
unfolding Shifts Keyed
Shifts-Keyed gid w w' (inl same) keyed k tx e = keyed k tx (rw (← same) e)
Shifts-Keyed gid w w' (inr (old, new, stored, active, same_gid, same_kind, next, txs)) keyed k tx
      e =
    elim (found_after (new.gid == k) new tx (lookup k w.store.txs)
      (sym (lookup_written k new w.store w'.store txs) ∙ e)) [
        | inl (at, is_new) ↦ ap (λ t. t.gid) (sym is_new) ∙ (==_iff new.gid k).0 at
        | inr before ↦ keyed k tx before
      ]

-- The step of `Shifts-Continues` for the transaction that is written.
written_later :
    (old was new : Transaction)
    → was ≡ old
    → new.kind ≡ was.kind
    → later was.kind was.status new.status ≡ true
    → (is_terminal was.status ≡ false) ⊎ (new ≡ was)
    → (new.kind ≡ old.kind)
      × (later old.kind old.status new.status ≡ true)
      × ((is_terminal old.status ≡ false) ⊎ (new ≡ old))
written_later old was new same same_kind next active =
    subst
      (λ t.
        (new.kind ≡ t.kind)
        × (later t.kind t.status new.status ≡ true)
        × ((is_terminal t.status ≡ false) ⊎ (new ≡ t)))
      same (same_kind, next, active)

Shifts-Continues :
    (gid k : String) (w w' : World) (old : Transaction)
    → Shifts gid w w'
    → Keyed w.store
    → lookup k w.store.txs ≡ some old
    → Continues old w'.store k
unfolding Shifts Keyed Continues
Shifts-Continues gid k w w' old (inl same) keyed e =
    (old, rw same e, refl, later_refl old.kind old.status, inr refl)
Shifts-Continues gid k w w' old (inr (was, new, stored, active, same_gid, same_kind, next, txs))
      keyed e =
    elim (Bool-cases (new.gid == k)) [
      | inl here ↦
          let at = sym (keyed gid was stored) ∙ sym same_gid ∙ (==_iff new.gid k).0 here in
          let same = some-injective (sym stored ∙ ap (λ g. lookup g w.store.txs) at ∙ e) in
          let (kept, on, done) = written_later old was new same same_kind next active in
          (
            new,
            lookup_written k new w.store w'.store txs
                ∙ ap (λ c. if c then some new else lookup k w.store.txs) here,
            kept,
            on,
            done,
          )
      | inr elsewhere ↦ (
        old,
        lookup_written k new w.store w'.store txs
            ∙ ap (λ c. if c then some new else lookup k w.store.txs) elsewhere
            ∙ e,
        refl,
        later_refl old.kind old.status,
        inr refl,
      )
    ]

Continues-trans :
    (old mid : Transaction) (s : MemoryStore) (gid : String)
    → mid.kind ≡ old.kind
    → later old.kind old.status mid.status ≡ true
    → (is_terminal old.status ≡ false) ⊎ (mid ≡ old)
    → Continues mid s gid
    → Continues old s gid
unfolding Continues
Continues-trans old mid s gid kind on (inr same) later_on =
    subst (λ t. Continues t s gid) same later_on
Continues-trans old mid s gid kind on (inl active) (new, stored, kind', on', done') = (
  new,
  stored,
  kind' ∙ kind,
  later_trans old.kind old.status mid.status new.status on
      (subst (λ k. later k mid.status new.status ≡ true) kind on'),
  inl active,
)

-- From a store that has each transaction under its own gid, every stored transaction moves on.
unfoldable pub Evolves : World → World → Type 0
Evolves w w' =
    Keyed w.store
    → Keyed w'.store
      × ((gid : String) (old : Transaction)
          → lookup gid w.store.txs ≡ some old
          → Continues old w'.store gid)

pub Shifts-Evolves : (gid : String) (w w' : World) → Shifts gid w w' → Evolves w w'
unfolding Evolves
Shifts-Evolves gid w w' shifts keyed = (
  Shifts-Keyed gid w w' shifts keyed,
  λ k old stored. Shifts-Continues gid k w w' old shifts keyed stored,
)

pub same-Evolves : (w w' : World) → w'.store.txs ≡ w.store.txs → Evolves w w'
unfolding Shifts
same-Evolves w w' same = Shifts-Evolves "" w w' (inl same)

pub Evolves-trans : (w w1 w2 : World) → Evolves w w1 → Evolves w1 w2 → Evolves w w2
unfolding Evolves Continues
Evolves-trans w w1 w2 first more keyed =
    let (keyed1, on) = first keyed in
    let (keyed2, on') = more keyed1 in
    (
      keyed2,
      λ k old stored.
          let (mid, stored1, kind, later1, done) = on k old stored in
          Continues-trans old mid w2.store k kind later1 done (on' k mid stored1),
    )

pub stay-Evolves : (w : World) → Evolves w w
stay-Evolves w = same-Evolves w w refl
