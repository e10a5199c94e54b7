-- ===== src/Urls.antt =====
-- The URLs of branches in src/lib.rs: `parse_branch_url`, `alert_branch_url` and `xa_phase2_callback_url`.
use Prim.Native.String.{len}
use roze_dtm.Common.{
  String, Bool, Option, none, some, [], ◌∷◌, ◌++◌, ◌&&◌, ◌||◌, not, leb, any, filterb, ◌==◌,
  string_ord,
}
use roze_dtm.Data.{Result, ok, err, ensure, ◌>>=◌, ◌>>◌, invalid_url, invalid_xa_operation}
use roze_dtm.External.{UrlParts, External}
use roze_dtm.Workflow.{is_empty}

-- What `url` and `kv` accept of a URL: HTTP or HTTPS with a host, and no credentials or fragment.
abbrev pub is_http_url : UrlParts → Bool
is_http_url url =
    (url.scheme == "http" || url.scheme == "https")
    && url.has_host
    && is_empty url.username
    && not url.has_password
    && not url.has_fragment

abbrev or_invalid_url : Option UrlParts → Result UrlParts
or_invalid_url none = err invalid_url
or_invalid_url (some url) = ok url

unfoldable pub parse_branch_url : External → String → Result UrlParts
parse_branch_url ext value =
    ensure (not (is_empty value) && leb (len value) 2048) invalid_url
    >> (or_invalid_url (ext.parse_url value) >>= λ url.
        ensure (is_http_url url) invalid_url >> ok url)

-- An alert names the URL of its branch without the query.
unfoldable pub alert_branch_url : External → String → String
unfolding parse_branch_url
alert_branch_url ext value = elim (parse_branch_url ext value) [
  | ok url ↦ ext.replace_query value []
  | err e ↦ "redacted"
]

-- The names that a callback of the second phase sets itself.
abbrev is_own_name : String → Bool
is_own_name name = any (λ own. own == name) ("gid" ∷ "trans_type" ∷ "branch_id" ∷ "op" ∷ [])

unfoldable pub xa_phase2_callback_url : External → String → String → String → String → Result String
unfolding parse_branch_url
xa_phase2_callback_url ext value gid branch_id operation =
    ensure (operation == "commit" || operation == "rollback") invalid_xa_operation
    >> (parse_branch_url ext value >>= λ url. ok (
        ext.replace_query value (
          filterb (λ q. not (is_own_name q.0)) url.query_pairs
          ++ ("gid", gid)
            ∷ ("trans_type", "xa")
            ∷ ("branch_id", branch_id)
            ∷ ("op", operation)
            ∷ [])))
