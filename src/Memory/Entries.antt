-- ===== src/Memory/Entries.antt =====
-- The versioned key-value entries: `KvEntry` of src/kv.rs and the operations of the in-memory store
-- on them.
pub mod Versions
use roze_dtm.Common.{
  ℕ, ◌+◌, String, Bool, true, false, Option, none, some, List, not, ◌==◌, ◌&&◌, ◌||◌, string_ord,
  pair_ord, ◌=?◌, saturating_add, if◌then◌else◌, take, drop, filterb, is_none_or,
}
use roze_dtm.Map.{Map, lookup, insert, remove, values}

pub record KvEntry : Type 0 where
  pub category : String
  pub key : String
  pub value : String
  pub version : ℕ
  pub created_at_millis : ℕ
  pub updated_at_millis : ℕ

abbrev pub Entries : Type 0
Entries = Map (String × String) KvEntry

abbrev pub key_of : KvEntry → String × String
key_of e = (e.category, e.key)

-- `KvEntry::new`
unfoldable pub new_entry : ℕ → String → String → String → KvEntry
new_entry now category key value = record {
  category = category;
  key = key;
  value = value;
  version = 1;
  created_at_millis = now;
  updated_at_millis = now;
}

unfoldable pub get_kv : String → String → Entries → Option KvEntry
get_kv category key kv = lookup (category, key) kv

unfoldable pub list_kv : Option String → Option String → ℕ → ℕ → Entries → List KvEntry
list_kv category key offset limit kv = take limit (
    drop offset (
      filterb (λ e. is_none_or (λ k. e.key == k) key)
        (filterb (λ e. is_none_or (λ c. e.category == c) category) (values kv))))

unfoldable pub create_kv : KvEntry → Entries → Bool × Entries
create_kv entry kv = elim (lookup (key_of entry) kv) [
  | none ↦ (true, insert (key_of entry) entry kv)
  | some _ ↦ (false, kv)
]

unfoldable pub update_kv : KvEntry → ℕ → Entries → Bool × Entries
update_kv entry expected_version kv = elim (lookup (key_of entry) kv) [
  | none ↦ (false, kv)
  | some existing ↦
      if not (existing.version =? expected_version)
        || not (entry.version =? saturating_add expected_version 1)
      then (false, kv)
      else (true, insert (key_of entry) entry kv)
]

unfoldable pub delete_kv : String → String → Entries → Bool × Entries
delete_kv category key kv = elim (lookup (category, key) kv) [
  | none ↦ (false, remove (category, key) kv)
  | some _ ↦ (true, remove (category, key) kv)
]
