-- ===== src/AuthProxy/Models.antt =====
-- authorizeModel of internal/authproxy/models.go: which model a request may name.
pub mod Posting
pub mod OneModel
pub mod Samples
use sandbox_codex.AuthProxy.Identity.{ModelPolicy}
use sandbox_codex.AuthProxy.Requests.{equal_fold}
use sandbox_codex.AuthProxy.State.{Proxy}
use sandbox_codex.Common.{
  Bool, List, Option, Result, Str, [], codes, ensure, err, false, if◌then◌else◌, is_empty, leb,
  none, not, ok, some, str_eq, true, ℕ, ◌&&◌, ◌>>=◌, ◌>>◌, ◌||◌, ◌∷◌,
}
use sandbox_codex.NetworkPolicy.Check.{is_nil}
use sandbox_codex.NetworkPolicy.Domains.{member}

-- The value of a member, as far as it is decoded: json.Unmarshal into a string leaves the string
-- as it was on null.
pub data MemberValue : Type 0 where
  broken not_text null_value : MemberValue
  text_value : Str → MemberValue

-- What the decoder finds while there is more of the object: a key that is not a string, or a member.
pub data Member : Type 0 where
  bad_key : Member
  member_of : Str → MemberValue → Member

-- The body: absent, not readable, or its length with what json.Decoder finds in it: whether it
-- begins with "{", the members, and whether "}" and then the end of the text follow.
pub data ModelBody : Type 0 where
  no_body unread : ModelBody
  body_of : ℕ → Bool → List Member → Bool → Bool → ModelBody

-- A request. `media_type` is what mime.ParseMediaType answers.
pub record ModelRequest : Type 0 where
  pub is_websocket : Bool
  pub http_method : Str
  pub url_path : Str
  pub escaped_path : Str
  pub raw_query : Str
  pub content_encoding : Str
  pub media_type : Option Str
  pub body : ModelBody

pub data ModelDenial : Type 0 where
  websocket_unsupported route_denied invalid_body body_limit model_not_allowed : ModelDenial

-- modelBodyLimit
abbrev pub model_body_limit : ℕ
model_body_limit = 8388608

-- modelPolicyActive
abbrev pub model_policy_active : Proxy → ModelPolicy → Bool
model_policy_active p (some models) = true
model_policy_active p none = not (is_nil p.allowed_models)

abbrev pub message_paths : List Str
message_paths = codes "/anthropic/v1/messages" ∷ codes "/anthropic/v1/messages/count_tokens" ∷ []

abbrev pub model_paths : List Str
model_paths =
    codes "/v1/responses"
    ∷ codes "/v1/responses/compact"
    ∷ codes "/v1/chat/completions"
    ∷ codes "/v1/completions"
    ∷ codes "/v1/embeddings"
    ∷ codes "/v1/moderations"
    ∷ codes "/chatgpt/codex/responses"
    ∷ codes "/chatgpt/codex/responses/compact"
    ∷ message_paths

-- modelQueryAllowed
unfoldable pub model_query_allowed : ModelRequest → Bool
model_query_allowed r =
    is_empty r.raw_query
    || (member r.url_path message_paths && str_eq r.raw_query (codes "beta=true"))

abbrev pub route_passes : ModelRequest → Bool
route_passes r =
    str_eq r.http_method (codes "POST")
    && (model_query_allowed r
        && (str_eq r.escaped_path r.url_path
            && (is_empty r.content_encoding && member r.url_path model_paths)))

abbrev pub is_json : Option Str → Bool
is_json none = false
is_json (some t) = str_eq t (codes "application/json")

-- The model after a member that is called "model".
abbrev pub read_model : Str → MemberValue → Option Str
read_model model broken = none
read_model model not_text = none
read_model model null_value = some model
read_model model (text_value m) = some m

-- Another member is only decoded.
abbrev pub skip_value : Str → MemberValue → Option Str
skip_value model broken = none
skip_value model v = some model

abbrev pub member_model : Str → Str → MemberValue → Option Str
member_model name model v =
    if str_eq name (codes "model") then read_model model v else skip_value model v

-- A key that came before, or that differs from "model" only in case.
abbrev pub is_ambiguous : List Str → Str → Bool
is_ambiguous seen name =
    member name seen || (equal_fold name (codes "model") && not (str_eq name (codes "model")))

-- The loop over the members; `none` is an invalid body.
unfoldable pub scan_members : List Str → Str → List Member → Option Str
scan_members seen model [] = some model
scan_members seen model (bad_key ∷ ms) = none
scan_members seen model (member_of name v ∷ ms) =
    if is_ambiguous seen name then none else elim (member_model name model v) [
      | none ↦ none
      | some next ↦ scan_members (name ∷ seen) next ms
    ]

abbrev pub in_policy : Str → ModelPolicy → Bool
in_policy model none = true
in_policy model (some models) = member model models

abbrev pub model_allowed : Proxy → ModelPolicy → Str → Bool
model_allowed p policy model =
    not (is_empty model)
    && ((is_nil p.allowed_models || member model p.allowed_models) && in_policy model policy)

abbrev pub decide_model : Proxy → ModelPolicy → Bool → Option Str → Result ModelDenial (Unit {0})
decide_model p policy ended none = err invalid_body
decide_model p policy ended (some model) = do
  ensure ended invalid_body
  ensure (model_allowed p policy model) model_not_allowed

abbrev pub check_body : Proxy → ModelPolicy → ModelBody → Result ModelDenial (Unit {0})
check_body p policy no_body = err invalid_body
check_body p policy unread = err invalid_body
check_body p policy (body_of n opens ms closes ends) = do
  ensure (leb n model_body_limit) body_limit
  ensure opens invalid_body
  decide_model p policy (closes && ends) (scan_members [] [] ms)

-- authorizeModel; the model policy is that of the token.
unfoldable pub authorize_model : Proxy → ModelPolicy → ModelRequest → Result ModelDenial (Unit {0})
unfolding scan_members model_query_allowed
authorize_model p policy r = if not (model_policy_active p policy) then ok tt else do
  ensure (not r.is_websocket) websocket_unsupported
  ensure (route_passes r) route_denied
  ensure (is_json r.media_type) invalid_body
  check_body p policy r.body
