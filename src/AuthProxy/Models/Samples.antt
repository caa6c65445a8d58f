-- ===== src/AuthProxy/Models/Samples.antt =====
-- A request for a model (internal/authproxy/models.go).
use sandbox_codex.AuthProxy.Models.{
  Member, ModelRequest, authorize_model, body_of, member_of, text_value,
}
use sandbox_codex.AuthProxy.Models.OneModel.{HoldsModel, authorize_model-NamesModel}
use sandbox_codex.AuthProxy.Models.Posting.{IsModelPost}
use sandbox_codex.AuthProxy.State.{Proxy}
use sandbox_codex.Common.{List, [], codes, false, ok, pos, refl, some, true, ◌∷◌, ◌≡◌}

abbrev limited_proxy : Proxy
limited_proxy = record {
  case_id = codes "case";
  profile_name = [];
  token_ttl = pos 60;
  routes = [];
  allowed_models = codes "m1" ∷ codes "m2" ∷ [];
  connection_version = codes "v";
  store_version = codes "s";
  tokens = [];
  by_value = [];
  revoked_runs = [];
  case_revoked = false;
  cancelled = [];
  next_lease = 0;
}

abbrev sample_members : List Member
sample_members =
    member_of (codes "stream") (text_value (codes "x"))
    ∷ member_of (codes "model") (text_value (codes "m2"))
    ∷ []

abbrev sample_request : ModelRequest
sample_request = record {
  is_websocket = false;
  http_method = codes "POST";
  url_path = codes "/v1/responses";
  escaped_path = codes "/v1/responses";
  raw_query = [];
  content_encoding = [];
  media_type = some (codes "application/json");
  body = body_of 40 true sample_members true true;
}

sample_authorized : authorize_model limited_proxy (some (codes "m2" ∷ [])) sample_request ≡ ok tt
unfolding authorize_model
sample_authorized = refl

authorize_model-NamesModel_example :
    IsModelPost sample_request
    × HoldsModel limited_proxy (some (codes "m2" ∷ [])) (body_of 40 true sample_members true true)
authorize_model-NamesModel_example =
    authorize_model-NamesModel limited_proxy (some (codes "m2" ∷ [])) sample_request refl
      sample_authorized
