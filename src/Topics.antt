-- ===== src/Topics.antt =====
-- Topics: `subscribe`, `unsubscribe`, `get_topic`, `delete_topic` and their checks of src/kv.rs. A topic is an
-- entry of the store that holds its subscribers as text, and is updated by compare and set.
pub mod Updates
use Prim.Native.String.{len}
use roze_dtm.Common.{
  ℕ, zero, suc, String, Bool, true, false, Option, none, some, List, [], ◌∷◌, ◌++◌, ◌&&◌, ◌||◌, not,
  leb, ◌==◌, string_ord, ◌=?◌, if◌then◌else◌, any, filterb, length, saturating_add, is_some_and,
}
use roze_dtm.Data.{
  Result, Checked, ok, err, ensure, invalid_topic, invalid_subscriber_url, remark_too_long,
  url_exists, no_such_topic, no_such_url, topic_contended, bad_subscribers,
}
use roze_dtm.External.{TopicSubscriber, External}
use roze_dtm.Urls.{is_http_url}
use roze_dtm.Workflow.{is_empty}
use roze_dtm.Memory.Entries.{KvEntry, Entries, new_entry, get_kv, create_kv, update_kv, delete_kv}
use roze_dtm.Engine.{Env, Exec, pure, lift, ◌>>=◌, ◌>>◌, access, current_millis}

pub record Topic : Type 0 where
  pub name : String
  pub subscribers : List TopicSubscriber
  pub version : ℕ

abbrev pub topics_category : String
topics_category = "topics"

unfoldable pub validate_topic : String → Checked
validate_topic topic = ensure (not (is_empty topic) && leb (len topic) 191) invalid_topic

unfoldable pub validate_subscriber_url : External → String → Checked
validate_subscriber_url ext value =
    ensure (is_some_and (λ url. leb (len value) 2048 && is_http_url url) (ext.parse_url value))
      invalid_subscriber_url

abbrev pub or_bad : Option (List TopicSubscriber) → Result (List TopicSubscriber)
or_bad none = err bad_subscribers
or_bad (some subscribers) = ok subscribers

-- `decode_subscribers`
unfoldable pub decode_subscribers : External → KvEntry → Result (List TopicSubscriber)
decode_subscribers ext entry = or_bad (ext.decode_subscribers entry.value)

abbrev pub with_url : String → TopicSubscriber → Bool
with_url url s = s.url == url

-- The entry with other subscribers, as it is written at a time.
unfoldable pub with_subscribers : External → ℕ → List TopicSubscriber → KvEntry → KvEntry
with_subscribers ext now subscribers entry = record entry {
  version = saturating_add entry.version 1;
  updated_at_millis = now;
  value = ext.encode_subscribers subscribers;
}

module _ (env : Env) where
  unfoldable pub find_entry : String → Exec (Option KvEntry)
  unfolding access get_kv
  find_entry topic = access env λ now s. (ok (get_kv topics_category topic s.kv), s)

  unfoldable pub create_entry : KvEntry → Exec Bool
  unfolding access create_kv
  create_entry entry =
      access env
        λ now s. let (created, kv) = create_kv entry s.kv in (ok created, record s { kv = kv })

  unfoldable pub update_entry : KvEntry → ℕ → Exec Bool
  unfolding access update_kv
  update_entry entry expected = access env λ now s.
      let (updated, kv) = update_kv entry expected s.kv in (ok updated, record s { kv = kv })

  unfoldable pub delete_entry : String → Exec Bool
  unfolding access delete_kv
  delete_entry topic = access env λ now s.
      let (deleted, kv) = delete_kv topics_category topic s.kv in (ok deleted, record s { kv = kv })

  -- The end of a round: `retry` where another worker was faster.
  abbrev pub unless_contended : Exec Topic → Topic → Bool → Exec Topic
  unless_contended retry topic true = pure topic
  unless_contended retry topic false = retry

  -- The change of an entry that both `subscribe` and `unsubscribe` make.
  unfoldable pub write_subscribers :
      Exec Topic → String → KvEntry → List TopicSubscriber → Exec Topic
  unfolding current_millis update_entry with_subscribers
  write_subscribers retry topic entry subscribers = current_millis env >>= λ now.
      update_entry (with_subscribers env.external now subscribers entry) entry.version
      >>= unless_contended retry (record {
        name = topic;
        subscribers = subscribers;
        version = saturating_add entry.version 1;
      })

  -- A round of `subscribe`, with the entry that it finds.
  unfoldable pub subscribe_found :
      Exec Topic → String → TopicSubscriber → Option KvEntry → Exec Topic
  unfolding current_millis create_entry new_entry decode_subscribers write_subscribers
  subscribe_found retry topic new none = current_millis env >>= λ now.
      create_entry
        (new_entry now topics_category topic (env.external.encode_subscribers (new ∷ [])))
      >>= unless_contended retry (record { name = topic; subscribers = new ∷ []; version = 1 })
  subscribe_found retry topic new (some entry) =
      lift (decode_subscribers env.external entry) >>= λ subscribers.
      lift (ensure (not (any (with_url new.url) subscribers)) url_exists)
      >> write_subscribers retry topic entry (subscribers ++ new ∷ [])

  unfoldable pub subscribe_rounds : ℕ → String → TopicSubscriber → Exec Topic
  unfolding find_entry subscribe_found
  subscribe_rounds zero topic new = lift (err topic_contended)
  subscribe_rounds (suc rounds) topic new =
      find_entry topic >>= subscribe_found (subscribe_rounds rounds topic new) topic new

  unfoldable pub subscribe : String → String → String → Exec Topic
  unfolding validate_topic validate_subscriber_url subscribe_rounds
  subscribe topic url remark = do
    lift (validate_topic topic)
    lift (validate_subscriber_url env.external url)
    lift (ensure (leb (len remark) 1024) remark_too_long)
    subscribe_rounds 64 topic (record { url = url; remark = remark })

  -- A round of `unsubscribe`, with the entry that it finds.
  unfoldable pub unsubscribe_found : Exec Topic → String → String → Option KvEntry → Exec Topic
  unfolding decode_subscribers write_subscribers
  unsubscribe_found retry topic url none = lift (err no_such_topic)
  unsubscribe_found retry topic url (some entry) =
      lift (decode_subscribers env.external entry) >>= λ subscribers.
      let left = filterb (λ s. not (with_url url s)) subscribers in
      lift (ensure (not (length left =? length subscribers)) no_such_url)
      >> write_subscribers retry topic entry left

  unfoldable pub unsubscribe_rounds : ℕ → String → String → Exec Topic
  unfolding find_entry unsubscribe_found
  unsubscribe_rounds zero topic url = lift (err topic_contended)
  unsubscribe_rounds (suc rounds) topic url =
      find_entry topic >>= unsubscribe_found (unsubscribe_rounds rounds topic url) topic url

  unfoldable pub unsubscribe : String → String → Exec Topic
  unfolding validate_topic validate_subscriber_url unsubscribe_rounds
  unsubscribe topic url = do
    lift (validate_topic topic)
    lift (validate_subscriber_url env.external url)
    unsubscribe_rounds 64 topic url

  unfoldable pub topic_of : Option KvEntry → Exec (Option Topic)
  unfolding decode_subscribers
  topic_of none = pure none
  topic_of (some entry) = lift (decode_subscribers env.external entry) >>= λ subscribers.
      pure (some (record { name = entry.key; subscribers = subscribers; version = entry.version }))

  unfoldable pub get_topic : String → Exec (Option Topic)
  unfolding validate_topic find_entry topic_of
  get_topic topic = lift (validate_topic topic) >> (find_entry topic >>= topic_of)

  unfoldable pub delete_topic : String → Exec Bool
  unfolding validate_topic delete_entry
  delete_topic topic = lift (validate_topic topic) >> delete_entry topic
