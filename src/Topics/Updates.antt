-- ===== src/Topics/Updates.antt =====
-- What `subscribe` and `unsubscribe` of src/kv.rs store is what `get_topic` then reads.
use Prim.Native.String.{len}
use roze_dtm.Common.{
  leb, ℕ, zero, suc, ◌≡◌, refl, sym, subst, ap, ◌∙◌, arith, String, Bool, true, false, List, [],
  ◌∷◌, ◌++◌, Option, none, some, not, any, if◌then◌else◌, ==_iff, string_ord, pair_ord,
  saturating_add,
}
use roze_dtm.Map.{lookup, insert, lookup-insert}
use roze_dtm.Data.{remark_too_long, Result, Checked, ok, err, ensure, url_exists}
use roze_dtm.External.{TopicSubscriber}
use roze_dtm.Memory.Entries.{KvEntry, Entries, key_of, new_entry, get_kv, create_kv, update_kv}
use roze_dtm.Engine.{World, Env, Exec, pure, lift, ◌>>=◌, ◌>>◌, access, current_millis}
use roze_dtm.Coordinator.Writes.{alone}
use roze_dtm.Topics.{
  Topic, topics_category, validate_topic, validate_subscriber_url, or_bad, decode_subscribers,
  with_url, with_subscribers, find_entry, create_entry, update_entry, unless_contended,
  write_subscribers, subscribe_found, subscribe_rounds, subscribe, topic_of, get_topic,
}

-- Every entry is stored under its own category and key.
unfoldable pub EntriesKeyed : Entries → Type 0
EntriesKeyed kv = (k : String × String) (e : KvEntry) → lookup k kv ≡ some e → key_of e ≡ k

created :
    (e : KvEntry) (kv : Entries)
    → (create_kv e kv).0 ≡ true
    → (create_kv e kv).1 ≡ insert (key_of e) e kv
unfolding create_kv
created e kv done = ground (arith, done)

not_created : (e : KvEntry) (kv : Entries) → (create_kv e kv).0 ≡ false → (create_kv e kv).1 ≡ kv
unfolding create_kv
not_created e kv done = ground (arith, done)

updated :
    (e : KvEntry) (n : ℕ) (kv : Entries)
    → (update_kv e n kv).0 ≡ true
    → (update_kv e n kv).1 ≡ insert (key_of e) e kv
unfolding update_kv
updated e n kv done = ground (arith, done)

not_updated :
    (e : KvEntry) (n : ℕ) (kv : Entries) → (update_kv e n kv).0 ≡ false → (update_kv e n kv).1 ≡ kv
unfolding update_kv
not_updated e n kv done = ground (arith, done)

module _ (env : Env) (topic : String) where
  -- The stored topic.
  unfoldable Holds : Topic → World → Type 0
  Holds t w =
      (e : KvEntry) × (lookup (topics_category, topic) w.store.kv ≡ some e)
      × (t ≡ record { name = e.key; subscribers = t.subscribers; version = e.version })
      × (e.value ≡ env.external.encode_subscribers t.subscribers)

  unfoldable Stores : Result Topic × World → Type 0
  Stores (err e, w) = Unit {0}
  Stores (ok t, w) = Holds t w

  inserted-Holds :
      (t : Topic) (e : KvEntry) (w : World) (kv : Entries)
      → w.store.kv ≡ insert (key_of e) e kv
      → key_of e ≡ (topics_category, topic)
      → t ≡ record { name = e.key; subscribers = t.subscribers; version = e.version }
      → e.value ≡ env.external.encode_subscribers t.subscribers
      → Holds t w
  unfolding Holds
  inserted-Holds t e w kv written own is_topic encoded = (
    e,
    ap (lookup (topics_category, topic)) written
        ∙ lookup-insert (key_of e) (topics_category, topic) e kv
        ∙ ap (λ c. if c then some e else lookup (topics_category, topic) kv)
            ((==_iff (key_of e) (topics_category, topic)).1 own),
    is_topic,
    encoded,
  )

  ends-Stores :
      (retry : Exec Topic) (t : Topic) (c : Bool) (w : World)
      → (c ≡ true → Holds t w)
      → (c ≡ false → Stores (retry w))
      → Stores (unless_contended (alone env) retry t c w)
  unfolding Stores
  ends-Stores retry t true w done again = done refl
  ends-Stores retry t false w done again = again refl

  -- An action that goes on as long as the entries are under their own keys.
  abbrev Storing : Exec Topic → Type 0
  Storing m = (w : World) → EntriesKeyed w.store.kv → Stores (m w)

  lift-Storing :
      {A : Type 0} (r : Result A) (k : A → Exec Topic)
      → ((a : A) → Storing (k a))
      → Storing (lift r >>= k)
  unfolding Stores
  lift-Storing (ok a) k storing = storing a
  lift-Storing (err e) k storing = λ w keyed. tt

  write_subscribers-Stores :
      (retry : Exec Topic) (entry : KvEntry) (ss : List TopicSubscriber)
      → Storing retry
      → key_of entry ≡ (topics_category, topic)
      → Storing (write_subscribers (alone env) retry topic entry ss)
  unfolding write_subscribers current_millis update_entry access with_subscribers
  write_subscribers-Stores retry entry ss storing own w keyed =
      let e = with_subscribers env.external (env.now w.ticks) ss entry in
      let t : Topic = record {
        name = topic;
        subscribers = ss;
        version = saturating_add entry.version 1;
      } in
      let c = (update_kv e entry.version w.store.kv).0 in
      ends-Stores retry t c _
        (λ done.
          inserted-Holds t e _ w.store.kv (updated e entry.version w.store.kv done) own
            (λ i. record {
              name = (sym own i).1;
              subscribers = ss;
              version = saturating_add entry.version 1;
            })
            refl)
        (λ lost.
          storing _ (subst EntriesKeyed (sym (not_updated e entry.version w.store.kv lost)) keyed))

  subscribe_found-Stores :
      (retry : Exec Topic) (new : TopicSubscriber) (found : Option KvEntry)
      → Storing retry
      → ((e : KvEntry) → found ≡ some e → key_of e ≡ (topics_category, topic))
      → Storing (subscribe_found (alone env) retry topic new found)
  unfolding subscribe_found current_millis create_entry access new_entry
  subscribe_found-Stores retry new none storing own w keyed =
      let e =
        new_entry (env.now w.ticks) topics_category topic
          (env.external.encode_subscribers (new ∷ [])) in
      let t : Topic = record { name = topic; subscribers = new ∷ []; version = 1 } in
      ends-Stores retry t (create_kv e w.store.kv).0 _
        (λ done. inserted-Holds t e _ w.store.kv (created e w.store.kv done) refl refl refl)
        (λ lost. storing _ (subst EntriesKeyed (sym (not_created e w.store.kv lost)) keyed))
  subscribe_found-Stores retry new (some entry) storing own w keyed =
      lift-Storing (decode_subscribers env.external entry)
        (λ ss.
          lift (ensure (not (any (with_url new.url) ss)) url_exists)
          >> write_subscribers (alone env) retry topic entry (ss ++ new ∷ []))
        (λ ss.
          lift-Storing (ensure (not (any (with_url new.url) ss)) url_exists)
            (λ _. write_subscribers (alone env) retry topic entry (ss ++ new ∷ []))
            λ _. write_subscribers-Stores retry entry (ss ++ new ∷ []) storing (own entry refl))
        w keyed

  subscribe_rounds-Stores :
      (rounds : ℕ) (new : TopicSubscriber) → Storing (subscribe_rounds (alone env) rounds topic new)
  unfolding subscribe_rounds find_entry get_kv access Stores EntriesKeyed
  subscribe_rounds-Stores zero new w keyed = tt
  subscribe_rounds-Stores (suc rounds) new w keyed =
      subscribe_found-Stores (subscribe_rounds (alone env) rounds topic new) new
        (lookup (topics_category, topic) w.store.kv) (subscribe_rounds-Stores rounds new)
        (λ e found. keyed (topics_category, topic) e found) _ keyed

  -- `subscribe` after the check of the topic's name.
  checked : String → String → Exec Topic
  checked url remark =
      lift (validate_subscriber_url env.external url)
      >> (lift (ensure (leb (len remark) 1024) remark_too_long)
          >> subscribe_rounds (alone env) 64 topic (record { url = url; remark = remark }))

  checked-Stores : (url remark : String) → Storing (checked url remark)
  unfolding checked
  checked-Stores url remark =
      let new : TopicSubscriber = record { url = url; remark = remark } in
      let rounds = subscribe_rounds (alone env) 64 topic new in
      lift-Storing (validate_subscriber_url env.external url)
        (λ _. lift (ensure (leb (len remark) 1024) remark_too_long) >> rounds)
        λ _.
          lift-Storing (ensure (leb (len remark) 1024) remark_too_long) (λ _. rounds)
            λ _. subscribe_rounds-Stores 64 new

  -- The text format reads the subscribers of the topic back.
  abbrev pub Readable : Topic → Type 0
  Readable t =
      env.external.decode_subscribers (env.external.encode_subscribers t.subscribers)
      ≡ some t.subscribers

  ok-injective : (u t : Topic) → ◌≡◌ {A = Result Topic} (ok u) (ok t) → u ≡ t
  ok-injective u t e = ground (arith, e)

  Holds-read :
      (t : Topic) (w : World)
      → Holds t w
      → Readable t
      → ((find_entry (alone env) topic >>= topic_of (alone env)) w).0 ≡ ok (some t)
  unfolding Holds find_entry get_kv access topic_of decode_subscribers
  Holds-read t w (e, stored, is_topic, encoded) readable =
      let v = (find_entry (alone env) topic w).1 in
      ap (λ o. (topic_of (alone env) o v).0) stored
      ∙ ap
          (λ o.
            ((lift (or_bad o) >>= λ ss.
            pure (some (record { name = e.key; subscribers = ss; version = e.version })))
              v).0)
          (ap env.external.decode_subscribers encoded ∙ readable)
      ∙ ap (λ u. ok (some u)) (sym is_topic)

  stored-read :
      (run : Result Topic × World) (t : Topic)
      → Stores run
      → Readable t
      → run.0 ≡ ok t
      → ((find_entry (alone env) topic >>= topic_of (alone env)) run.1).0 ≡ ok (some t)
  unfolding Stores
  stored-read (err e, w) t stores readable said = absurd (ground (arith, said))
  stored-read (ok u, w) t stores readable said =
      Holds-read u w stores (subst Readable (sym (ok-injective u t said)) readable)
      ∙ ap (λ r. elim r [ ok v ↦ ok (some v) | err e ↦ err e ]) said

  after_name :
      (url remark : String) (t : Topic) (w : World) (name : Checked)
      → EntriesKeyed w.store.kv
      → Readable t
      → ((lift name >> checked url remark) w).0 ≡ ok t
      → ((lift name >> (find_entry (alone env) topic >>= topic_of (alone env)))
          ((lift name >> checked url remark) w).1).0
        ≡ ok (some t)
  after_name url remark t w (err e) keyed readable said = absurd (ground (arith, said))
  after_name url remark t w (ok _) keyed readable said =
      stored-read (checked url remark w) t (checked-Stores url remark w keyed) readable said

  -- What a subscription reports is what is then read: where the text format reads its subscribers back, from
  -- entries that are each under their own key, and with no other worker, `get_topic` gives the topic that
  -- `subscribe` returned.
  pub subscribe-get_topic :
      (url remark : String) (t : Topic) (w : World)
      → EntriesKeyed w.store.kv
      → Readable t
      → (subscribe (alone env) topic url remark w).0 ≡ ok t
      → (get_topic (alone env) topic (subscribe (alone env) topic url remark w).1).0 ≡ ok (some t)
  unfolding subscribe get_topic checked
  subscribe-get_topic url remark t w keyed readable said =
      after_name url remark t w (validate_topic topic) keyed readable said
