-- ===== src/Examples/Upkeep.antt =====
-- Topics and retention of src/kv.rs and src/lib.rs on concrete data.
use roze_dtm.Common.{◌≡◌, refl, arith, [], ◌∷◌, none, some, string_ord, ◌==◌, if◌then◌else◌}
use roze_dtm.Map.{lookup}
use roze_dtm.Data.{TransactionKind, Transaction, RetentionPolicy, new_transaction, ok}
use roze_dtm.External.{TopicSubscriber}
use roze_dtm.Memory.Transactions.{empty_store}
use roze_dtm.Memory.Entries.{create_kv, get_kv, new_entry}
use roze_dtm.Schedule.{transaction_expired}
use roze_dtm.Engine.{World, Env, current_millis, access}
use roze_dtm.Coordinator.Writes.{alone}
use roze_dtm.Topics.{
  Topic, validate_topic, validate_subscriber_url, subscribe, subscribe_rounds, subscribe_found,
  find_entry, create_entry, get_topic,
}
use roze_dtm.Topics.Updates.{EntriesKeyed, subscribe-get_topic}
use roze_dtm.Retention.{purge_expired_transactions}
use roze_dtm.Retention.Purge.{purge-keeps_live}
use roze_dtm.Examples.Coordinators.{env, no_external, with_tx}

abbrev one : TopicSubscriber
one = record { url = "http://a"; remark = "" }

-- A host that knows one list of subscribers.
abbrev host : Env
host = record env {
  external = record no_external {
    encode_subscribers = λ ss. "one";
    decode_subscribers = λ s. if s == "one" then some (one ∷ []) else none;
  };
}

abbrev start : World
start = record { store = empty_store; calls = []; alerts = []; ticks = 0 }

start-EntriesKeyed : EntriesKeyed start.store.kv
unfolding EntriesKeyed lookup
start-EntriesKeyed k e found = ground (arith, found)

abbrev orders : Topic
orders = record { name = "orders"; subscribers = one ∷ []; version = 1 }

subscribe-get_topic_example :
    (get_topic (alone host) "orders" (subscribe (alone host) "orders" "http://a" "" start).1).0
    ≡ ok (some orders)
unfolding subscribe validate_topic validate_subscriber_url subscribe_rounds find_entry
    subscribe_found create_entry current_millis access get_kv create_kv new_entry lookup
subscribe-get_topic_example =
    subscribe-get_topic host "orders" "http://a" "" orders start start-EntriesKeyed refl refl

abbrev fresh : Transaction
fresh = new_transaction 1000 "g" TransactionKind.saga []

abbrev policy : RetentionPolicy
policy = record { data_expire_millis = 500; finished_data_expire_millis = 100; batch_size = 10 }

purge-keeps_live_example :
    lookup "g" (purge_expired_transactions (alone env) policy (with_tx fresh)).1.store.txs
    ≡ some fresh
unfolding lookup new_transaction transaction_expired
purge-keeps_live_example = purge-keeps_live env "g" fresh policy (with_tx fresh) refl refl
