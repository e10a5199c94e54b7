-- ===== src/Coordinator/Tracking.antt =====
-- The rules for methods that write a transaction several times: what each part does to the stored transactions.
use roze_dtm.Common.{
  ◌≡◌, refl, sym, ◌∙◌, saturating_add, List, String, Bool, true, false, Option, none, some, inl,
  inr, ==_iff, string_ord, if◌then◌else◌, ap, subst,
}
use roze_dtm.Map.{lookup, lookup-insert}
use roze_dtm.Memory.Transactions.{update_transaction, get_transaction}
use roze_dtm.Data.{
  Branch, Transaction, TransactionKind, TransactionStatus, Error, Result, ok, err, is_terminal,
  kind_is, kind_is_iff, ensure, status_is,
}
use roze_dtm.Dynamic.{bump_transaction_revision}
use roze_dtm.Engine.{
  World, Env, Exec, pure, lift, ◌>>=◌, ◌>>◌, load, looked, found, found_of_kind, access,
  transaction_of_kind, persist_transaction,
}
use roze_dtm.Coordinator.Tcc.{run_unless, left}
use roze_dtm.Coordinator.Concurrent.{persist_as}
use roze_dtm.Coordinator.Lifecycle.{later}
use roze_dtm.Coordinator.Writes.{alone}
use roze_dtm.Coordinator.Evolution.{
  Keyed, Shifts, Evolves, Shifts-Evolves, same-Evolves, stay-Evolves, Evolves-trans,
}

-- The stored copy of the transaction has its kind and status.
unfoldable pub Tracked : Transaction → World → Type 0
Tracked tx w =
    (stored : Transaction) × (lookup tx.gid w.store.txs ≡ some stored)
    × (stored.gid ≡ tx.gid)
    × (stored.kind ≡ tx.kind)
    × (stored.status ≡ tx.status)

-- What an action does whatever is stored, and what it does when it goes on with a transaction.
abbrev pub Evolving : {A : Type 0} → Exec A → Type 0
Evolving m = (w : World) → Evolves w (m w).1

abbrev pub EvolvingFrom : {A : Type 0} → Transaction → Exec A → Type 0
EvolvingFrom tx m = (w : World) → Tracked tx w → Evolves w (m w).1

-- An action that writes no transaction.
abbrev pub Quiet : {A : Type 0} → Exec A → Type 0
Quiet m = (w : World) → (m w).1.store.txs ≡ w.store.txs

pub Tracked-quiet :
    (tx : Transaction) (w w' : World) → w'.store.txs ≡ w.store.txs → Tracked tx w → Tracked tx w'
unfolding Tracked
Tracked-quiet tx w w' same (stored, at, gid, kind, status) =
    (stored, ap (lookup tx.gid) same ∙ at, gid, kind, status)

after_quiet :
    {A B : Type 0} (tx : Transaction) (k : A → Exec B) (w : World) (run : Result A × World)
    → run.1.store.txs ≡ w.store.txs
    → ((a : A) → EvolvingFrom tx (k a))
    → Tracked tx w
    → Evolves w (((λ v. run) >>= k) w).1
after_quiet tx k w (err e, w1) same evolving tracked = same-Evolves w w1 same
after_quiet tx k w (ok a, w1) same evolving tracked =
    Evolves-trans w w1 (k a w1).1 (same-Evolves w w1 same)
      (evolving a w1 (Tracked-quiet tx w w1 same tracked))

-- A part that writes no transaction, and what follows it.
pub bind-EvolvingFrom :
    {A B : Type 0} (tx : Transaction) (m : Exec A) (k : A → Exec B)
    → Quiet m
    → ((a : A) → EvolvingFrom tx (k a))
    → EvolvingFrom tx (m >>= k)
bind-EvolvingFrom tx m k quiet evolving w = after_quiet tx k w (m w) (quiet w) evolving

pub Quiet-Evolving : {A : Type 0} (m : Exec A) → Quiet m → Evolving m
Quiet-Evolving m quiet w = same-Evolves w (m w).1 (quiet w)

after_Evolving :
    {A B : Type 0} (w : World) (k : A → Exec B) (run : Result A × World)
    → Evolves w run.1
    → ((a : A) → Evolving (k a))
    → Evolves w (((λ v. run) >>= k) w).1
after_Evolving w k (err e, w1) first evolving = first
after_Evolving w k (ok a, w1) first evolving = Evolves-trans w w1 (k a w1).1 first (evolving a w1)

-- One part after the other, whatever is stored.
pub bind-Evolving :
    {A B : Type 0} (m : Exec A) (k : A → Exec B)
    → Evolving m
    → ((a : A) → Evolving (k a))
    → Evolving (m >>= k)
bind-Evolving m k first evolving w = after_Evolving w k (m w) (first w) evolving

pub lift-Evolving :
    {A B : Type 0} (r : Result A) (k : A → Exec B)
    → ((a : A) → Evolving (k a))
    → Evolving (lift r >>= k)
lift-Evolving (ok a) k evolving = evolving a
lift-Evolving (err e) k evolving = λ w. stay-Evolves w

pub if-Evolving :
    {A : Type 0} (c : Bool) (m n : Exec A) → Evolving m → Evolving n → Evolving (if c then m else n)
if-Evolving true m n m_evolving n_evolving = m_evolving
if-Evolving false m n m_evolving n_evolving = n_evolving

pub if-EvolvingFrom :
    {A : Type 0} (tx : Transaction) (c : Bool) (m n : Exec A)
    → (c ≡ true → EvolvingFrom tx m)
    → (c ≡ false → EvolvingFrom tx n)
    → EvolvingFrom tx (if c then m else n)
if-EvolvingFrom tx true m n m_evolving n_evolving = m_evolving refl
if-EvolvingFrom tx false m n m_evolving n_evolving = n_evolving refl

pub lift-EvolvingFrom :
    {A B : Type 0} (tx : Transaction) (r : Result A) (k : A → Exec B)
    → ((a : A) → EvolvingFrom tx (k a))
    → EvolvingFrom tx (lift r >>= k)
lift-EvolvingFrom tx (ok a) k evolving = evolving a
lift-EvolvingFrom tx (err e) k evolving = λ w tracked. stay-Evolves w

pub ensure-EvolvingFrom :
    {A : Type 0} (tx : Transaction) (c : Bool) (e : Error) (m : Exec A)
    → (c ≡ true → EvolvingFrom tx m)
    → EvolvingFrom tx (lift (ensure c e) >> m)
ensure-EvolvingFrom tx true e m evolving = evolving refl
ensure-EvolvingFrom tx false e m evolving = λ w tracked. stay-Evolves w

-- The local copy after a write.
abbrev pub next_revision : Transaction → Transaction
next_revision tx = record tx { revision = saturating_add tx.revision 1 }

module _ (env : Env) where
  written-Shifts :
      (tx new : Transaction) (w : World)
      → is_terminal tx.status ≡ false
      → new.gid ≡ tx.gid
      → new.kind ≡ tx.kind
      → later tx.kind tx.status new.status ≡ true
      → Tracked tx w
      → Shifts tx.gid w (persist_transaction (alone env) new w).1
  unfolding Tracked Shifts persist_transaction access update_transaction bump_transaction_revision
  written-Shifts tx new w active same_gid same_kind next (stored, at, gid, kind, status) = inr (
    stored,
    _,
    at,
    inl (subst (λ s. is_terminal s ≡ false) (sym status) active),
    same_gid ∙ sym gid,
    same_kind ∙ sym kind,
    subst (λ s. later stored.kind s new.status ≡ true) (sym status)
        (subst (λ k. later k tx.status new.status ≡ true) (sym kind) next),
    refl,
  )

  written-Tracked :
      (new : Transaction) (w : World)
      → Tracked (next_revision new) (persist_transaction (alone env) new w).1
  unfolding Tracked persist_transaction access update_transaction bump_transaction_revision
  written-Tracked new w = (
    _,
    lookup-insert new.gid new.gid _ w.store.txs
        ∙ ap
            (λ c.
              if c
              then some (bump_transaction_revision ((alone env).now w.ticks) new)
              else lookup new.gid w.store.txs)
            ((==_iff new.gid new.gid).1 refl),
    refl,
    refl,
    refl,
  )

  -- A write of a later state of a tracked transaction, and what follows it.
  pub persist-EvolvingFrom :
      {A : Type 0} (tx new : Transaction) (k : Transaction → Exec A)
      → is_terminal tx.status ≡ false
      → new.gid ≡ tx.gid
      → new.kind ≡ tx.kind
      → later tx.kind tx.status new.status ≡ true
      → EvolvingFrom (next_revision new) (k (next_revision new))
      → EvolvingFrom tx (persist_transaction (alone env) new >>= k)
  unfolding persist_transaction access
  persist-EvolvingFrom tx new k active same_gid same_kind next evolving w tracked =
      let w1 = (persist_transaction (alone env) new w).1 in
      Evolves-trans w w1 (k (next_revision new) w1).1
        (Shifts-Evolves tx.gid w w1
          (written-Shifts tx new w active same_gid same_kind next tracked))
        (evolving w1 (written-Tracked new w))

  pub last-EvolvingFrom :
      (tx new : Transaction)
      → is_terminal tx.status ≡ false
      → new.gid ≡ tx.gid
      → new.kind ≡ tx.kind
      → later tx.kind tx.status new.status ≡ true
      → EvolvingFrom tx (persist_transaction (alone env) new)
  last-EvolvingFrom tx new active same_gid same_kind next w tracked =
      Shifts-Evolves tx.gid w (persist_transaction (alone env) new w).1
        (written-Shifts tx new w active same_gid same_kind next tracked)

  -- The same for a write of a status and the branches.
  pub persist_as-EvolvingFrom :
      {A : Type 0} (tx : Transaction) (s : TransactionStatus) (bs : List Branch)
      (k : Transaction → Exec A)
      → is_terminal tx.status ≡ false
      → later tx.kind tx.status s ≡ true
      → EvolvingFrom (next_revision (left tx s bs)) (k (next_revision (left tx s bs)))
      → EvolvingFrom tx (persist_as (alone env) tx s bs >>= k)
  unfolding persist_as
  persist_as-EvolvingFrom tx s bs k active next =
      persist-EvolvingFrom tx (left tx s bs) k active refl refl next

  pub last_as-EvolvingFrom :
      (tx : Transaction) (s : TransactionStatus) (bs : List Branch)
      → is_terminal tx.status ≡ false
      → later tx.kind tx.status s ≡ true
      → EvolvingFrom tx (persist_as (alone env) tx s bs)
  unfolding persist_as
  last_as-EvolvingFrom tx s bs active next =
      last-EvolvingFrom tx (left tx s bs) active refl refl next

  -- The methods start with a lookup of the transaction.
  after_found :
      (gid : String) (k : Transaction → Exec Transaction)
      → ((tx : Transaction) → EvolvingFrom tx (k tx))
      → (w : World) (o : Option Transaction) → lookup gid w.store.txs ≡ o
      → Evolves w ((lift (found gid o) >>= k) (looked (alone env) w)).1
  unfolding Evolves Keyed Tracked
  after_found gid k evolving w none at keyed = same-Evolves w (looked (alone env) w) refl keyed
  after_found gid k evolving w (some tx) at keyed =
      evolving tx (looked (alone env) w)
        (tx, ap (λ g. lookup g w.store.txs) (keyed gid tx at) ∙ at, refl, refl, refl) keyed

  pub load-Evolving :
      (gid : String) (k : Transaction → Exec Transaction)
      → ((tx : Transaction) → EvolvingFrom tx (k tx))
      → Evolving (load (alone env) gid >>= k)
  unfolding load get_transaction
  load-Evolving gid k evolving w = after_found gid k evolving w (lookup gid w.store.txs) refl

  pub reload-Evolving : (gid : String) → Evolving (load (alone env) gid)
  unfolding load get_transaction
  reload-Evolving gid w = same-Evolves w (load (alone env) gid w).1 refl

  after_kind :
      (kind : TransactionKind) (k : Transaction → Exec Transaction)
      → ((tx : Transaction) → tx.kind ≡ kind → EvolvingFrom tx (k tx))
      → (tx : Transaction) (c : Bool) (e : Error) → kind_is tx.kind kind ≡ c
      → EvolvingFrom tx (lift (if c then ok tx else err e) >>= k)
  after_kind kind k evolving tx true e same = evolving tx ((kind_is_iff tx.kind kind).0 same)
  after_kind kind k evolving tx false e same = λ w tracked. stay-Evolves w

  after_found_of_kind :
      (gid : String) (kind : TransactionKind) (k : Transaction → Exec Transaction)
      → ((tx : Transaction) → tx.kind ≡ kind → EvolvingFrom tx (k tx))
      → (w : World) (o : Option Transaction) → lookup gid w.store.txs ≡ o
      → Evolves w ((lift (found_of_kind kind gid o) >>= k) (looked (alone env) w)).1
  unfolding Evolves Keyed Tracked
  after_found_of_kind gid kind k evolving w none at keyed =
      same-Evolves w (looked (alone env) w) refl keyed
  after_found_of_kind gid kind k evolving w (some tx) at keyed =
      after_kind kind k evolving tx (kind_is tx.kind kind) _ refl (looked (alone env) w)
        (tx, ap (λ g. lookup g w.store.txs) (keyed gid tx at) ∙ at, refl, refl, refl) keyed

  pub of_kind-Evolving :
      (gid : String) (kind : TransactionKind) (k : Transaction → Exec Transaction)
      → ((tx : Transaction) → tx.kind ≡ kind → EvolvingFrom tx (k tx))
      → Evolving (transaction_of_kind (alone env) gid kind >>= k)
  unfolding transaction_of_kind get_transaction
  of_kind-Evolving gid kind k evolving w =
      after_found_of_kind gid kind k evolving w (lookup gid w.store.txs) refl

  pub unless-EvolvingFrom :
      (already : TransactionStatus) (run : Transaction → Exec Transaction) (tx : Transaction)
      → EvolvingFrom tx (run tx)
      → EvolvingFrom tx (run_unless (alone env) already run tx)
  unfolding run_unless
  unless-EvolvingFrom already run tx evolving =
      if-EvolvingFrom tx (status_is tx.status already) (pure tx) (run tx)
        (λ _ w tracked. stay-Evolves w) (λ _. evolving)
