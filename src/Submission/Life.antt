-- ===== src/Submission/Life.antt =====
-- What `submit` of src/lib.rs does to the stored transactions.
use roze_dtm.Common.{
  suc, ◌≡◌, refl, arith, List, [], ◌∷◌, ◌++◌, String, Option, none, some, inr, ◌||◌, not, length,
  ltb, ◌=?◌, if◌then◌else◌, ==_iff, string_ord,
}
use roze_dtm.Map.{lookup, insert, lookup-insert}
use roze_dtm.Data.{
  TransactionKind, Branch, Transaction, ensure, kind_is, delay_unsupported, topic_empty,
  duplicate_branch_ids,
}
use roze_dtm.Callback.{strip_prefix}
use roze_dtm.Limits.{validate_options}
use roze_dtm.Graph.{validate_transaction_dependencies}
use roze_dtm.Memory.Transactions.{MemoryStore, insert_free, insert_transaction}
use roze_dtm.Memory.Entries.{KvEntry}
use roze_dtm.Engine.{World, Env, pure, lift, ◌>>=◌, ◌>>◌, access}
use roze_dtm.Topics.{Topic, validate_topic, find_entry, topic_of, get_topic, decode_subscribers}
use roze_dtm.Submission.{
  is_none, resolve, distinct_ids, or_no_topic, with_timeout, expand_to, expand_branches,
  expand_message_topics, insert_submitted, submit,
}
use roze_dtm.Coordinator.Lifecycle.{later_refl}
use roze_dtm.Coordinator.Writes.{alone}
use roze_dtm.Coordinator.Evolution.{Keyed, Continues, Evolves, same-Evolves, stay-Evolves}
use roze_dtm.Coordinator.Tracking.{Evolving, bind-Evolving, lift-Evolving, if-Evolving}

module _ (env : Env) where
  -- The world after an access that leaves a store.
  abbrev after : World → MemoryStore → World
  after w s = record w { store = s; ticks = suc w.ticks }

  added-Evolves :
      (tx : Transaction) (w : World)
      → lookup tx.gid w.store.txs ≡ none
      → Evolves w (after w (record w.store { txs = insert tx.gid tx w.store.txs }))
  unfolding Evolves Keyed Continues
  added-Evolves tx w free keyed = (
    λ k t e. ground (arith, e, keyed k t, lookup-insert tx.gid k tx w.store.txs, ==_iff tx.gid k),
    λ k old stored. (
      old,
      ground (arith, stored, free, lookup-insert tx.gid k tx w.store.txs, ==_iff tx.gid k),
      refl,
      later_refl old.kind old.status,
      inr refl,
    ),
  )

  inserted-Evolves :
      (tx : Transaction) (w : World) (o : Option Transaction)
      → lookup tx.gid w.store.txs ≡ o
      → Evolves w (after w (insert_free tx w.store o).1)
  inserted-Evolves tx w none free = added-Evolves tx w free
  inserted-Evolves tx w (some t) taken = same-Evolves w (after w w.store) refl

  insert-Evolving :
      (tx : Transaction) → Evolving (access (alone env) (λ now s. insert_transaction tx s))
  unfolding access insert_transaction
  insert-Evolving tx w = inserted-Evolves tx w (lookup tx.gid w.store.txs) refl

  insert_submitted-Evolving : (tx : Transaction) → Evolving (insert_submitted (alone env) tx)
  unfolding insert_submitted
  insert_submitted-Evolving tx =
      let full = with_timeout env.options.transaction_timeout_millis tx in
      bind-Evolving (access (alone env) (λ now s. insert_transaction full s)) (λ _. pure full)
        (insert-Evolving full) (λ _ w. stay-Evolves w)

  topic_of-Evolving : (found : Option KvEntry) → Evolving (topic_of (alone env) found)
  unfolding topic_of
  topic_of-Evolving none = stay-Evolves
  topic_of-Evolving (some entry) =
      lift-Evolving (decode_subscribers env.external entry)
        (λ ss. pure (some (record { name = entry.key; subscribers = ss; version = entry.version })))
        (λ ss. stay-Evolves)

  find_entry-Evolving : (name : String) → Evolving (find_entry (alone env) name)
  unfolding find_entry access
  find_entry-Evolving name w = same-Evolves w (find_entry (alone env) name w).1 refl

  get_topic-Evolving : (name : String) → Evolving (get_topic (alone env) name)
  unfolding get_topic
  get_topic-Evolving name =
      lift-Evolving (validate_topic name)
        (λ _. find_entry (alone env) name >>= topic_of (alone env))
        (λ _.
          bind-Evolving (find_entry (alone env) name) (topic_of (alone env))
            (find_entry-Evolving name) topic_of-Evolving)

  expand_to-Evolving : (b : Branch) (name : Option String) → Evolving (expand_to (alone env) b name)
  unfolding expand_to
  expand_to-Evolving b none = stay-Evolves
  expand_to-Evolving b (some name) =
      let copies = λ (t : Topic). pure (resolve b (ltb 1 (length t.subscribers)) 0 t.subscribers) in
      let rest =
        λ (t : Topic). lift (ensure (not (length t.subscribers =? 0)) topic_empty) >> copies t in
      bind-Evolving (get_topic (alone env) name) (λ found. lift (or_no_topic name found) >>= rest)
        (get_topic-Evolving name)
        λ found. lift-Evolving (or_no_topic name found) rest λ t.
          lift-Evolving (ensure (not (length t.subscribers =? 0)) topic_empty) (λ _. copies t)
            (λ _. stay-Evolves)

  expand_branches-Evolving : (bs : List Branch) → Evolving (expand_branches (alone env) bs)
  unfolding expand_branches
  expand_branches-Evolving [] = stay-Evolves
  expand_branches-Evolving (b ∷ bs) =
      let first = expand_to (alone env) b (strip_prefix "topic://" b.action) in
      bind-Evolving first (λ one. expand_branches (alone env) bs >>= λ rest. pure (one ++ rest))
        (expand_to-Evolving b (strip_prefix "topic://" b.action))
        λ one.
          bind-Evolving (expand_branches (alone env) bs) (λ rest. pure (one ++ rest))
            (expand_branches-Evolving bs) (λ rest. stay-Evolves)

  expand_message_topics-Evolving :
      (tx : Transaction) → Evolving (expand_message_topics (alone env) tx)
  unfolding expand_message_topics
  expand_message_topics-Evolving tx =
      let with_branches = λ (bs : List Branch). pure (record tx { branches = bs }) in
      let rest = λ (bs : List Branch).
        lift (ensure (distinct_ids [] bs) duplicate_branch_ids) >> with_branches bs in
      bind-Evolving (expand_branches (alone env) tx.branches) rest
        (expand_branches-Evolving tx.branches)
        λ bs.
          lift-Evolving (ensure (distinct_ids [] bs) duplicate_branch_ids) (λ _. with_branches bs)
            (λ _. stay-Evolves)

  pub submit-Evolving : (tx : Transaction) → Evolving (submit (alone env) tx)
  unfolding submit
  submit-Evolving given =
      let tx = record given { revision = 1 } in
      let message = kind_is tx.kind TransactionKind.message in
      let expanded = if message then expand_message_topics (alone env) tx else pure tx in
      let finish = expanded >>= insert_submitted (alone env) in
      let checked = lift (validate_transaction_dependencies tx) >> finish in
      lift-Evolving (validate_options env.external tx.options)
        (λ _.
          lift (ensure (message || is_none tx.options.delay_millis) delay_unsupported) >> checked)
        λ _.
          lift-Evolving (ensure (message || is_none tx.options.delay_millis) delay_unsupported)
            (λ _. checked)
            λ _.
              lift-Evolving (validate_transaction_dependencies tx) (λ _. finish)
                λ _.
                  bind-Evolving expanded (insert_submitted (alone env))
                    (if-Evolving message (expand_message_topics (alone env) tx) (pure tx)
                      (expand_message_topics-Evolving tx) stay-Evolves)
                    insert_submitted-Evolving
