-- ===== src/External.antt =====
-- What src/lib.rs and src/kv.rs call of third-party crates: the URL parser of `url`, the JSON of `serde_json`,
-- the base64 of `base64` and the header checks of `http`. The functions are parameters.
use roze_dtm.Common.{ℕ, String, Bool, Option, List}

-- `serde_json::Value`; a number is known by its `as_u64`.
mutual
  pub data Json : Type 0 where
    json_null : Json
    json_bool : Bool → Json
    json_number : Option ℕ → Json
    json_text : String → Json
    json_array : JsonItems → Json
    json_object : JsonFields → Json

  pub data JsonItems : Type 0 where
    no_items : JsonItems
    item : Json → JsonItems → JsonItems

  pub data JsonFields : Type 0 where
    no_fields : JsonFields
    field : String → Json → JsonFields → JsonFields

-- What is read of a `reqwest::Url`.
pub record UrlParts : Type 0 where
  pub scheme : String
  pub has_host : Bool
  pub username : String
  pub has_password : Bool
  pub has_fragment : Bool
  pub query_pairs : List (String × String)

pub record TopicSubscriber : Type 0 where
  pub url : String
  pub remark : String

pub record External : Type 0 where
  pub parse_url : String → Option UrlParts
  -- The text of the parsed URL, once its query is removed and these pairs are appended to it.
  pub replace_query : String → List (String × String) → String
  pub parse_json : String → Option Json
  pub decode_base64 : String → Option (List ℕ)
  pub is_header_name : String → Bool
  pub is_header_value : String → Bool
  pub encode_subscribers : List TopicSubscriber → String
  pub decode_subscribers : String → Option (List TopicSubscriber)
