-- ===== src/Submission.antt =====
-- `submit` and `expand_message_topics` of src/lib.rs.
pub mod Life
use Prim.Native.String.{◌++◌ as ◌then◌}
use roze_dtm.Common.{
  ℕ, zero, suc, String, Bool, true, false, Option, none, some, List, [], ◌∷◌, ◌++◌, ◌||◌, not, ltb,
  if◌then◌else◌, length, unwrap_or, ◌=?◌,
}
use roze_dtm.Decimal.{to_string}
use roze_dtm.Data.{
  TransactionKind, Branch, Transaction, Result, ok, err, ensure, kind_is, delay_unsupported,
  not_found, topic_empty, duplicate_branch_ids,
}
use roze_dtm.External.{External, TopicSubscriber}
use roze_dtm.Callback.{strip_prefix}
use roze_dtm.Workflow.{is_callback_workflow}
use roze_dtm.Graph.{validate_transaction_dependencies, text_in}
use roze_dtm.Limits.{validate_options}
use roze_dtm.Memory.Transactions.{insert_transaction}
use roze_dtm.Engine.{Env, Exec, pure, lift, ◌>>=◌, ◌>>◌, access}
use roze_dtm.Topics.{Topic, get_topic}

abbrev pub is_none : Option ℕ → Bool
is_none none = true
is_none (some n) = false

-- `{:02}`
unfoldable pub two_digits : ℕ → String
unfolding to_string
two_digits n = if ltb n 10 then ◌then◌ "0" (to_string n) else to_string n

-- `format!("{}-{:02}", resolved.id, index + 1)`
unfoldable pub numbered_id : String → ℕ → String
unfolding two_digits
numbered_id id index = ◌then◌ id (◌then◌ "-" (two_digits (suc index)))

-- The copies of a branch for the subscribers of its topic; a single one keeps the id.
unfoldable pub resolve : Branch → Bool → ℕ → List TopicSubscriber → List Branch
unfolding numbered_id
resolve branch many index [] = []
resolve branch many index (s ∷ ss) =
    record branch { id = if many then numbered_id branch.id index else branch.id; action = s.url }
    ∷ resolve branch many (suc index) ss

-- `expanded.iter().all(|branch| branch_ids.insert(branch.id.clone()))`
unfoldable pub distinct_ids : List String → List Branch → Bool
distinct_ids ids [] = true
distinct_ids ids (b ∷ bs) =
    let rest = distinct_ids (b.id ∷ ids) bs in if text_in b.id ids then false else rest

abbrev pub or_no_topic : String → Option Topic → Result Topic
or_no_topic name none = err (not_found name)
or_no_topic name (some topic) = ok topic

-- The timeout of the coordinator, where the caller gave none.
abbrev pub with_timeout : ℕ → Transaction → Transaction
with_timeout timeout tx = record tx {
  timeout_millis =
      if is_callback_workflow tx
      then tx.timeout_millis
      else some (unwrap_or tx.timeout_millis timeout);
}

module _ (env : Env) where
  -- The branches for the topic that a branch names, if it names one.
  unfoldable pub expand_to : Branch → Option String → Exec (List Branch)
  unfolding get_topic resolve
  expand_to branch none = pure (branch ∷ [])
  expand_to branch (some name) = do
    found ← get_topic env name
    topic ← lift (or_no_topic name found)
    lift (ensure (not (length topic.subscribers =? 0)) topic_empty)
    pure (resolve branch (ltb 1 (length topic.subscribers)) 0 topic.subscribers)

  unfoldable pub expand_branches : List Branch → Exec (List Branch)
  unfolding expand_to strip_prefix
  expand_branches [] = pure []
  expand_branches (b ∷ bs) = expand_to b (strip_prefix "topic://" b.action) >>= λ first.
      expand_branches bs >>= λ rest. pure (first ++ rest)

  unfoldable pub expand_message_topics : Transaction → Exec Transaction
  unfolding expand_branches distinct_ids
  expand_message_topics tx = expand_branches tx.branches >>= λ expanded.
      lift (ensure (distinct_ids [] expanded) duplicate_branch_ids)
      >> pure (record tx { branches = expanded })

  -- The end of `submit`.
  unfoldable pub insert_submitted : Transaction → Exec Transaction
  unfolding is_callback_workflow access insert_transaction
  insert_submitted tx =
      access env
        (λ now s. insert_transaction (with_timeout env.options.transaction_timeout_millis tx) s)
      >> pure (with_timeout env.options.transaction_timeout_millis tx)

  unfoldable pub submit : Transaction → Exec Transaction
  unfolding validate_options validate_transaction_dependencies expand_message_topics
      insert_submitted
  submit given = do
    let tx = record given { revision = 1 }
    lift (validate_options env.external tx.options)
    lift (
        ensure (kind_is tx.kind TransactionKind.message || is_none tx.options.delay_millis)
          delay_unsupported)
    lift (validate_transaction_dependencies tx)
    expanded ← if kind_is tx.kind TransactionKind.message then expand_message_topics tx else pure tx
    insert_submitted expanded
