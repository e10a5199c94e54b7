-- ===== src/Coordinator/Moves.antt =====
-- Which moves of the stored transactions the methods of src/lib.rs make, when no other worker interferes.
use roze_dtm.Common.{
  ◌≡◌, refl, sym, ap, saturating_add, subst, List, String, Bool, true, false, Option, none, some,
  ◌⊎◌, inl, inr, if◌then◌else◌, string_ord,
}
use roze_dtm.Map.{lookup, insert}
use roze_dtm.Data.{
  TransactionKind, TransactionStatus, Branch, Transaction, Error, Result, ok, err, is_terminal,
  kind_is, kind_is_iff, status_is, status_in, ensure, non_replayable,
}
use roze_dtm.Dynamic.{bump_transaction_revision}
use roze_dtm.Memory.Transactions.{get_transaction, update_transaction}
use roze_dtm.Workflow.{ensure_status}
use roze_dtm.Engine.{
  World, Env, Exec, ◌>>=◌, ◌>>◌, pure, lift, load, looked, found, found_of_kind, access,
  transaction_of_kind, require_status, persist_transaction, Stop, for_branches,
}
use roze_dtm.Engine.Loops.{stop_of, Obeys}
use roze_dtm.Coordinator.Tcc.{write_loop, run_loop, run_unless, guarded_loop}
use roze_dtm.Coordinator.Lifecycle.{later}
use roze_dtm.Coordinator.Writes.{alone, Keeps, for_branches-Keeps}

-- The transaction `gid` moves on, or nothing does. What is reported is what is stored, but for the time of
-- the last update.
unfoldable pub Moves : String → World → Result Transaction × World → Type 0
Moves gid w (r, w') =
    (w'.store.txs ≡ w.store.txs)
    ⊎ ((old : Transaction) × (new : Transaction) × (lookup gid w.store.txs ≡ some old)
        × (is_terminal old.status ≡ false)
        × (new.gid ≡ old.gid)
        × (new.kind ≡ old.kind)
        × (later old.kind old.status new.status ≡ true)
        × (w'.store.txs ≡ insert new.gid new w.store.txs)
        × (r ≡ ok (record new { updated_at_millis = old.updated_at_millis })))

module _ (env : Env) (gid : String) where
  -- A method that goes on with the transaction that it loaded.
  abbrev pub Moving : Transaction → Exec Transaction → Type 0
  Moving tx m = (w : World) → lookup gid w.store.txs ≡ some tx → Moves gid w (m w)

  stay : (w : World) (r : Result Transaction) → Moves gid w (r, w)
  unfolding Moves
  stay w r = inl refl

  after_load :
      (k : Transaction → Exec Transaction)
      → ((tx : Transaction) → Moving tx (k tx))
      → (w : World) (o : Option Transaction) → lookup gid w.store.txs ≡ o
      → Moves gid w ((lift (found gid o) >>= k) (looked (alone env) w))
  unfolding Moves
  after_load k moving w none e = inl refl
  after_load k moving w (some tx) e = moving tx (looked (alone env) w) e

  pub load-Moves :
      (k : Transaction → Exec Transaction)
      → ((tx : Transaction) → Moving tx (k tx))
      → (w : World) → Moves gid w ((load (alone env) gid >>= k) w)
  unfolding load get_transaction
  load-Moves k moving w = after_load k moving w (lookup gid w.store.txs) refl

  after_kind :
      (kind : TransactionKind) (k : Transaction → Exec Transaction)
      → ((tx : Transaction) → tx.kind ≡ kind → Moving tx (k tx))
      → (tx : Transaction) (c : Bool) → kind_is tx.kind kind ≡ c
      → (e : Error) (w : World) → lookup gid w.store.txs ≡ some tx
      → Moves gid w ((lift (if c then ok tx else err e) >>= k) (looked (alone env) w))
  unfolding Moves
  after_kind kind k moving tx true same e w stored =
      moving tx ((kind_is_iff tx.kind kind).0 same) (looked (alone env) w) stored
  after_kind kind k moving tx false same e w stored = inl refl

  after_load_of_kind :
      (kind : TransactionKind) (k : Transaction → Exec Transaction)
      → ((tx : Transaction) → tx.kind ≡ kind → Moving tx (k tx))
      → (w : World) (o : Option Transaction) → lookup gid w.store.txs ≡ o
      → Moves gid w ((lift (found_of_kind kind gid o) >>= k) (looked (alone env) w))
  unfolding Moves
  after_load_of_kind kind k moving w none e = inl refl
  after_load_of_kind kind k moving w (some tx) e =
      after_kind kind k moving tx (kind_is tx.kind kind) refl _ w e

  pub of_kind-Moves :
      (kind : TransactionKind) (k : Transaction → Exec Transaction)
      → ((tx : Transaction) → tx.kind ≡ kind → Moving tx (k tx))
      → (w : World) → Moves gid w ((transaction_of_kind (alone env) gid kind >>= k) w)
  unfolding transaction_of_kind get_transaction
  of_kind-Moves kind k moving w = after_load_of_kind kind k moving w (lookup gid w.store.txs) refl

  pub pure-Moving : (tx done : Transaction) → Moving tx (pure done)
  pure-Moving tx done w stored = stay w _

  pub if-Moving :
      (tx : Transaction) (c : Bool) (m n : Exec Transaction)
      → (c ≡ true → Moving tx m)
      → (c ≡ false → Moving tx n)
      → Moving tx (if c then m else n)
  if-Moving tx true m n m_moving n_moving = m_moving refl
  if-Moving tx false m n m_moving n_moving = n_moving refl

  pub ensure-Moving :
      (tx : Transaction) (c : Bool) (e : Error) (m : Exec Transaction)
      → (c ≡ true → Moving tx m)
      → Moving tx (lift (ensure c e) >> m)
  ensure-Moving tx true e m moving = moving refl
  ensure-Moving tx false e m moving = λ w stored. stay w _

  -- A write of a later state of the loaded transaction.
  pub persist-Moving :
      (tx new : Transaction)
      → is_terminal tx.status ≡ false
      → new.updated_at_millis ≡ tx.updated_at_millis
      → new.gid ≡ tx.gid
      → new.kind ≡ tx.kind
      → later tx.kind tx.status new.status ≡ true
      → Moving tx (persist_transaction (alone env) new)
  unfolding persist_transaction access update_transaction bump_transaction_revision Moves
  persist-Moving tx new active same_time same_gid same_kind next w stored = inr (
    tx,
    _,
    stored,
    active,
    same_gid,
    same_kind,
    next,
    refl,
    ap (λ t. ok (record new { updated_at_millis = t; revision = saturating_add new.revision 1 }))
        same_time,
  )

  after_loop :
      (tx : Transaction) (status : Option Stop → TransactionStatus) (w : World)
      (run : Result (List Branch × Option Stop) × World)
      → is_terminal tx.status ≡ false
      → ((stop : Option Stop) → later tx.kind tx.status (status stop) ≡ true)
      → lookup gid w.store.txs ≡ some tx
      → Keeps w (stop_of run.0) run.1
      → Moves gid w (((λ _. run) >>= write_loop (alone env) tx status) w)
  unfolding write_loop persist_transaction access update_transaction bump_transaction_revision Moves
      Keeps
  after_loop tx status w (err e, w1) active next stored keeps = inl keeps
  after_loop tx status w (ok (bs, stop), w1) active next stored keeps =
      inr (tx, _, stored, active, refl, refl, next stop, ap (insert tx.gid _) keeps, refl)

  pub unless-Moving :
      (already : TransactionStatus) (run : Transaction → Exec Transaction) (tx : Transaction)
      → Moving tx (run tx)
      → Moving tx (run_unless (alone env) already run tx)
  unfolding run_unless
  unless-Moving already run tx moving =
      if-Moving tx (status_is tx.status already) (pure tx) (run tx) (λ _. pure-Moving tx tx)
        (λ _. moving)

  loop-Moving :
      (allowed : List TransactionStatus) (status : Option Stop → TransactionStatus)
      (body : Transaction → Branch → Exec (Branch × Option Stop)) (tx : Transaction)
      → (status_in tx.status allowed ≡ true → is_terminal tx.status ≡ false)
      → ((stop : Option Stop)
          → status_in tx.status allowed ≡ true
          → later tx.kind tx.status (status stop) ≡ true)
      → ((b : Branch) → Obeys Keeps (body tx b))
      → Moving tx (run_loop (alone env) allowed status body tx)
  unfolding run_loop require_status ensure_status
  loop-Moving allowed status body tx active next keeps =
      ensure-Moving tx (status_in tx.status allowed) (non_replayable tx.status)
        (for_branches (body tx) tx.branches >>= write_loop (alone env) tx status)
        λ ok_status w stored.
          after_loop tx status w (for_branches (body tx) tx.branches w) (active ok_status)
            (λ stop. next stop ok_status) stored (for_branches-Keeps (body tx) keeps tx.branches w)

  pub method-Moves :
      (kind : TransactionKind) (already : TransactionStatus) (allowed : List TransactionStatus)
      (status : Option Stop → TransactionStatus)
      (body : Transaction → Branch → Exec (Branch × Option Stop))
      → ((s : TransactionStatus) → status_in s allowed ≡ true → is_terminal s ≡ false)
      → ((s : TransactionStatus) (stop : Option Stop)
          → status_in s allowed ≡ true
          → later kind s (status stop) ≡ true)
      → ((tx : Transaction) (b : Branch) → Obeys Keeps (body tx b))
      → (w : World) → Moves gid w (guarded_loop (alone env) gid kind already allowed status body w)
  unfolding guarded_loop
  method-Moves kind already allowed status body active next keeps =
      of_kind-Moves kind (run_unless (alone env) already (run_loop (alone env) allowed status body))
        λ tx same. unless-Moving already (run_loop (alone env) allowed status body) tx (
          loop-Moving allowed status body tx (active tx.status)
            (λ stop ok_status.
              subst (λ k. later k tx.status (status stop) ≡ true) (sym same)
                (next tx.status stop ok_status))
            (keeps tx))
