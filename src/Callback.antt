-- ===== src/Callback.antt =====
-- The request that queries a callback workflow: `workflow_callback_request` of src/lib.rs.
use Prim.Native.String.{len, [] as empty, ◌∷◌ as ◌then◌}
use Prim.Native.Char.{code}
use roze_dtm.Common.{
  ℕ, ◌*◌, String, Bool, true, false, Option, none, some, List, [], ◌∷◌, ◌&&◌, ◌||◌, not, leb, ◌==◌,
  string_ord, ◌=?◌, if◌then◌else◌, length, any, is_some_and,
}
use roze_dtm.Map.{lookup}
use roze_dtm.Data.{Transaction, Result, ok, err, ensure, ◌>>=◌, ◌>>◌, invalid_callback}
use roze_dtm.Workflow.{is_empty, ensure_callback_workflow, max_progress_bytes}
use roze_dtm.External.{
  Json, json_text, json_array, json_object, json_number, json_null, JsonItems, no_items, item,
  JsonFields, no_fields, field, External,
}

pub data WorkflowCallbackProtocol : Type 0 where
  http json_rpc grpc : WorkflowCallbackProtocol

pub record WorkflowCallbackRequest : Type 0 where
  pub gid : String
  pub url : String
  pub operation : String
  pub data_bytes : List ℕ
  pub protocol : WorkflowCallbackProtocol

-- `anyhow::Result<WorkflowCallbackResult>`: the transport may fail.
pub data CallbackAnswer : Type 0 where
  completed ongoing transport_error : CallbackAnswer
  failed_with : Option String → CallbackAnswer

-- `str::strip_prefix`
unfoldable pub strip_prefix : String → String → Option String
strip_prefix empty s = some s
strip_prefix (◌then◌ c p) empty = none
strip_prefix (◌then◌ c p) (◌then◌ d s) =
    let rest = strip_prefix p s in if code c =? code d then rest else none

abbrev pub starts_with : String → String → Bool
starts_with prefix s = elim (strip_prefix prefix s) [ none ↦ false | some _ ↦ true ]

-- `Map::get` on an object.
unfoldable pub field_at : String → JsonFields → Option Json
field_at key no_fields = none
field_at key (field k v fs) = if k == key then some v else field_at key fs

-- The data given as an array of bytes.
unfoldable pub bytes_of : JsonItems → Result (List ℕ)
bytes_of no_items = ok []
bytes_of (item (json_number (some n)) js) =
    ensure (leb n 255) invalid_callback >> (bytes_of js >>= λ bs. ok (n ∷ bs))
bytes_of (item _ js) = err invalid_callback

abbrev pub or_invalid : {A : Type 0} → Option A → Result A
or_invalid none = err invalid_callback
or_invalid (some a) = ok a

-- `as_object` and `as_str`
abbrev pub as_object : Json → Result JsonFields
as_object (json_object fs) = ok fs
as_object _ = err invalid_callback

abbrev pub operation_of : Option Json → Result String
operation_of (some (json_text name)) =
    ensure (not (is_empty name) && leb (len name) 128) invalid_callback >> ok name
operation_of _ = err invalid_callback

module _ (ext : External) where
  unfoldable pub data_of : Option Json → Result (List ℕ)
  unfolding bytes_of
  data_of none = ok []
  data_of (some json_null) = ok []
  data_of (some (json_text s)) = or_invalid (ext.decode_base64 s)
  data_of (some (json_array js)) = bytes_of js
  data_of (some _) = err invalid_callback

  -- A URL with a non-empty `method` and no configured protocol is a call of the older form.
  unfoldable pub is_legacy_json_rpc : String → Option String → Result Bool
  is_legacy_json_rpc url (some _) = ok false
  is_legacy_json_rpc url none = or_invalid (ext.parse_url url) >>= λ parts.
      ok (any (λ q. q.0 == "method" && not (is_empty q.1)) parts.query_pairs)

  unfoldable pub protocol_of : String → Option String → Result WorkflowCallbackProtocol
  unfolding strip_prefix is_legacy_json_rpc
  protocol_of url configured =
      if is_some_and (λ p. p == "grpc") configured
      then ok WorkflowCallbackProtocol.grpc
      else if not (starts_with "http://" url || starts_with "https://" url)
      then ok WorkflowCallbackProtocol.grpc
      else is_legacy_json_rpc url configured >>= λ legacy. ok (
          if is_some_and (λ p. p == "json-rpc") configured || legacy
          then WorkflowCallbackProtocol.json_rpc
          else WorkflowCallbackProtocol.http)

  -- `workflow_callback_request`; its caller makes no difference between the errors.
  unfoldable pub workflow_callback_request : Transaction → Result WorkflowCallbackRequest
  unfolding ensure_callback_workflow field_at data_of protocol_of
  workflow_callback_request tx = do
    ensure_callback_workflow tx
    url ← or_invalid (lookup "dtm.query_prepared" tx.metadata)
    custom_data ← or_invalid (lookup "dtm.custom_data" tx.metadata)
    ensure (leb (len custom_data) (3 * 1024 * 1024)) invalid_callback
    json ← or_invalid (ext.parse_json custom_data)
    fields ← as_object json
    operation ← operation_of (field_at "name" fields)
    bytes ← data_of (field_at "data" fields)
    ensure (leb (length bytes) max_progress_bytes) invalid_callback
    protocol ← protocol_of url (lookup "dtm.protocol" tx.metadata)
    ok (record {
      gid = tx.gid;
      url = url;
      operation = operation;
      data_bytes = bytes;
      protocol = protocol;
    })
