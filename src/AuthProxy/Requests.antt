-- ===== src/AuthProxy/Requests.antt =====
-- What a request with a token may reach: worker_auth.go, the route test of broker.go, and the
-- handlers of tokens.go in internal/authproxy.
pub mod Admission
pub mod Carrying
pub mod Paths
use sandbox_codex.AuthProxy.State.{CredentialRoute, Proxy, TokenRecord, is_cancelled, remove_token}
use sandbox_codex.Common.{
  Bool, List, Option, Str, [], codes, cut, drop_prefix, false, has_prefix, if◌then◌else◌, is_empty,
  length, lookup, ltb, map, none, not, some, str_eq, true, ℕ, ◌&&◌, ◌||◌, ◌∷◌,
}
use sandbox_codex.NetworkPolicy.Host.{lower_byte}

-- strings.EqualFold with an ASCII word that has no k and no s.
abbrev pub equal_fold : Str → Str → Bool
equal_fold s word = str_eq (map lower_byte s) (map lower_byte word)

-- A request, as far as it is authenticated: of each Authorization value its fields
-- (strings.Fields), the X-Api-Key values, and the path.
pub record Request : Type 0 where
  pub authorization : List (List Str)
  pub api_keys : List Str
  pub path : Str

-- The bearer token, or the empty text if there is no Authorization value; `none` is a refusal.
unfoldable pub bearer_token : List (List Str) → Option Str
bearer_token [] = some []
bearer_token ((scheme ∷ token ∷ []) ∷ []) =
    if equal_fold scheme (codes "Bearer") then some token else none
bearer_token _ = none

-- The token once X-Api-Key has been read.
unfoldable pub with_api_key : List Str → Str → Option Str
with_api_key [] token = some token
with_api_key (key ∷ []) token =
    if is_empty key || (not (is_empty token) && not (str_eq token key)) then none else some key
with_api_key (_ ∷ _ ∷ _) token = none

unfoldable pub request_token : Bool → Request → Option Str
unfolding bearer_token with_api_key
request_token allow_api_key r = elim (bearer_token r.authorization) [
  | none ↦ none
  | some token ↦ if allow_api_key then with_api_key r.api_keys token else some token
]

abbrev pub any_provider : Str → Bool
any_provider provider = is_empty provider || str_eq provider (codes "any")

-- providerRouteAllowed
unfoldable pub provider_route_allowed : Str → Str → Bool
provider_route_allowed provider path =
    if any_provider provider
    then true
    else if str_eq provider (codes "openai")
    then has_prefix (codes "/v1/") path || has_prefix (codes "/chatgpt/") path
    else if str_eq provider (codes "anthropic")
    then has_prefix (codes "/anthropic/") path
    else false

-- The name of the route in the path behind "/broker/": all of it, if no slash follows.
abbrev pub route_name : Str → Str
route_name rest = elim (cut b'/' rest) [ none ↦ rest | some p ↦ p.0 ]

unfoldable pub find_route : Str → List CredentialRoute → Option CredentialRoute
find_route name [] = none
find_route name (r ∷ rs) = if str_eq r.name name then some r else find_route name rs

abbrev pub route_admits : Str → Option CredentialRoute → Bool
route_admits provider none = false
route_admits provider (some r) =
    any_provider provider || (any_provider r.route_provider || str_eq r.route_provider provider)

-- brokerProviderAllowed
unfoldable pub broker_provider_allowed : List CredentialRoute → Str → Str → Bool
unfolding provider_route_allowed find_route
broker_provider_allowed routes provider path =
    if has_prefix (codes "/broker/") path
    then route_admits provider
        (find_route (route_name (drop_prefix (codes "/broker/") path)) routes)
    else provider_route_allowed provider path

-- `rec.context.Err() == nil`: not cancelled, and before its deadline.
abbrev pub lease_live : Proxy → ℕ → TokenRecord → Bool
lease_live p now rec = not (is_cancelled rec.lease p.cancelled) && ltb now rec.expires_at

abbrev pub admits : Proxy → ℕ → Str → TokenRecord → Bool
admits p now path rec =
    ltb now rec.expires_at
    && (lease_live p now rec && broker_provider_allowed p.routes rec.identity.provider path)

-- workerRequest: the record whose lease and model policy the request goes on with. `none` is a
-- refusal.
abbrev pub admit_record : Proxy → ℕ → Str → Option TokenRecord → Option TokenRecord
admit_record p now path none = none
admit_record p now path (some rec) = if admits p now path rec then some rec else none

abbrev pub admit_token : Proxy → ℕ → Str → Option Str → Option TokenRecord
admit_token p now path none = none
admit_token p now path (some token) =
    if is_empty token then none else admit_record p now path (lookup token p.by_value)

unfoldable pub worker_request : Proxy → ℕ → Bool → Request → Option TokenRecord
unfolding request_token broker_provider_allowed
worker_request p now allow_api_key r = admit_token p now r.path (request_token allow_api_key r)

-- handleHealth: the number of active tokens.
unfoldable pub handle_health : Proxy → ℕ
handle_health p = length p.tokens

-- handleRevoke: the status, after the method and the container parameter were tested.
unfoldable pub handle_revoke : Str → Str → Proxy → Proxy × ℕ
unfolding remove_token
handle_revoke method container p =
    if not (str_eq method (codes "POST"))
    then (p, 405)
    else if is_empty container
    then (p, 400)
    else (remove_token container p, 200)

-- OAuthCredentials
pub record OauthCredentials : Type 0 where
  pub access_token : Str
  pub refresh_token : Str
  pub id_token : Str
  pub account_id : Str
  pub last_refresh : Str

-- The answer of handleToken: an error status, or the fields of one of the two JSON objects.
pub data TokenAnswer : Type 0 where
  status : ℕ → TokenAnswer
  api_key_answer : Str → Str → TokenAnswer
  oauth_answer : Str → Str → Str → Str → Str → TokenAnswer

-- `worker_id_token` stands for workerIDToken, which decodes and encodes JSON.
abbrev pub serve_token :
    (OauthCredentials → Str) → Option OauthCredentials → ℕ → Option TokenRecord → TokenAnswer
serve_token worker_id_token creds now none = status 401
serve_token worker_id_token none now (some rec) =
    if ltb rec.expires_at now then status 401 else api_key_answer rec.token rec.container
serve_token worker_id_token (some creds) now (some rec) =
    if ltb rec.expires_at now
    then status 401
    else oauth_answer rec.token (worker_id_token creds) creds.account_id creds.last_refresh
        rec.container

-- handleToken
unfoldable pub handle_token :
    (OauthCredentials → Str) → Option OauthCredentials → ℕ → Str → Str → Proxy → TokenAnswer
handle_token worker_id_token creds now method token p =
    if not (str_eq method (codes "GET"))
    then status 405
    else if is_empty token
    then status 401
    else serve_token worker_id_token creds now (lookup token p.by_value)
