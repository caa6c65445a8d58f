-- ===== src/AuthProxy/Models/Posting.antt =====
-- The route of a request for a model (authorizeModel of internal/authproxy/models.go).
use sandbox_codex.AuthProxy.Models.{
  ModelRequest, is_json, message_paths, model_paths, model_query_allowed, route_passes,
}
use sandbox_codex.Common.{
  &&-eq-true, Bool-cases, Option, Str, ap, codes, false, inl, inr, is_empty, none, some, str_eq,
  str_eq_iff, true, ◌≡◌, ◌⊎◌,
}
use sandbox_codex.NetworkPolicy.Domains.{member}

-- A plain POST of JSON on a path that takes a model; only the message paths may have the query
-- "beta=true".
pub record IsModelPost (r : ModelRequest) : Type 0 where
  pub no_websocket : r.is_websocket ≡ false
  pub post : r.http_method ≡ codes "POST"
  pub unescaped : r.escaped_path ≡ r.url_path
  pub unencoded : is_empty r.content_encoding ≡ true
  pub model_path : member r.url_path model_paths ≡ true
  pub query :
      (is_empty r.raw_query ≡ true)
      ⊎ ((r.raw_query ≡ codes "beta=true") × (member r.url_path message_paths ≡ true))
  pub json : r.media_type ≡ some (codes "application/json")

is_json-eq : (o : Option Str) → is_json o ≡ true → o ≡ some (codes "application/json")
is_json-eq none e = cc e
is_json-eq (some t) e = ap some ((str_eq_iff t (codes "application/json")).0 e)

query_cases :
    (r : ModelRequest)
    → model_query_allowed r ≡ true
    → (is_empty r.raw_query ≡ true)
      ⊎ ((r.raw_query ≡ codes "beta=true") × (member r.url_path message_paths ≡ true))
unfolding model_query_allowed
query_cases r e = elim (Bool-cases (is_empty r.raw_query)) [
  | inl blank ↦ inl blank
  | inr filled ↦
      let both = &&-eq-true (member r.url_path message_paths) _ (rw filled at e) in
      inr ((str_eq_iff r.raw_query (codes "beta=true")).0 both.1, both.0)
]

pub route_passes-IsModelPost :
    (r : ModelRequest)
    → r.is_websocket ≡ false
    → route_passes r ≡ true
    → is_json r.media_type ≡ true
    → IsModelPost r
route_passes-IsModelPost r plain e json =
    let (posted, e₁) = &&-eq-true (str_eq r.http_method (codes "POST")) _ e in
    let (queried, e₂) = &&-eq-true (model_query_allowed r) _ e₁ in
    let (same_path, e₃) = &&-eq-true (str_eq r.escaped_path r.url_path) _ e₂ in
    let (unencoded, listed) = &&-eq-true (is_empty r.content_encoding) _ e₃ in
    record {
      no_websocket = plain;
      post = (str_eq_iff r.http_method (codes "POST")).0 posted;
      unescaped = (str_eq_iff r.escaped_path r.url_path).0 same_path;
      unencoded = unencoded;
      model_path = listed;
      query = query_cases r queried;
      json = is_json-eq r.media_type json;
    }
