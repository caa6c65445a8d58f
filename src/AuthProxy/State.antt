-- ===== src/AuthProxy/State.antt =====
-- The state of internal/authproxy.Proxy that p.mu protects, with the two indexes of the tokens and
-- the contexts of the leases (internal/authproxy/tokens.go, proxy.go).
pub mod Removal
pub mod Consistent
pub mod Fresh
use sandbox_codex.AuthProxy.Identity.{Identity, ModelPolicy, identity_eq}
use sandbox_codex.Common.{
  Bool, List, Option, Str, [], any, delete, if◌then◌else◌, insert, lookup, none, some, ℕ, ℤ, ◌==◌,
  ◌∷◌,
}

-- tokenRecord. The context is known by the number of its lease, its deadline is `expires_at`.
pub record TokenRecord : Type 0 where
  pub token : Str
  pub container : Str
  pub expires_at : ℕ
  pub issued_at : ℕ
  pub identity : Identity
  pub policy : ModelPolicy
  pub lease : ℕ

-- CredentialRoute, as far as it bears on the choice of a route.
pub record CredentialRoute : Type 0 where
  pub name : Str
  pub route_provider : Str
  pub paths : List Str
  pub methods : List Str

-- Config and Proxy. `cancelled` holds the leases whose context was cancelled; `next_lease` is the
-- number of the next context.
pub record Proxy : Type 0 where
  pub case_id : Str
  pub profile_name : Str
  pub token_ttl : ℤ
  pub routes : List CredentialRoute
  pub allowed_models : List Str
  pub connection_version : Str
  pub store_version : Str
  pub tokens : List (Str × TokenRecord)
  pub by_value : List (Str × TokenRecord)
  pub revoked_runs : List Identity
  pub case_revoked : Bool
  pub cancelled : List ℕ
  pub next_lease : ℕ

abbrev pub is_cancelled : ℕ → List ℕ → Bool
is_cancelled l ls = any (λ k. k == l) ls

abbrev pub is_revoked : Identity → List Identity → Bool
is_revoked id ids = any (λ k. identity_eq k id) ids

-- `rec.cancel()`
abbrev pub cancel : ℕ → Proxy → Proxy
cancel l p = record p { cancelled = l ∷ p.cancelled }

-- removeTokenLocked
abbrev pub drop_record : Str → Option TokenRecord → Proxy → Proxy
drop_record name none p = p
drop_record name (some rec) p = record p {
  cancelled = rec.lease ∷ p.cancelled;
  by_value = delete rec.token p.by_value;
  tokens = delete name p.tokens;
}

unfoldable pub remove_token : Str → Proxy → Proxy
remove_token name p = drop_record name (lookup name p.tokens) p

-- The two writes of replaceTokenLocked.
unfoldable pub put_token : TokenRecord → Proxy → Proxy
put_token rec p = record p {
  tokens = insert rec.container rec p.tokens;
  by_value = insert rec.token rec p.by_value;
}

-- replaceTokenLocked
unfoldable pub replace_token : TokenRecord → Proxy → Proxy
unfolding put_token remove_token
replace_token rec p = put_token rec (remove_token rec.container p)

-- `for name, rec := range p.tokens { if test(rec) { p.removeTokenLocked(name) } }`: the keys are
-- those at the start, and only the key at hand is removed.
abbrev pub remove_if : (TokenRecord → Bool) → Str → Option TokenRecord → Proxy → Proxy
remove_if test name none p = p
remove_if test name (some rec) p = if test rec then remove_token name p else p

unfoldable pub remove_each : (TokenRecord → Bool) → List (Str × TokenRecord) → Proxy → Proxy
remove_each test [] p = p
remove_each test ((name, _) ∷ entries) p =
    remove_each test entries (remove_if test name (lookup name p.tokens) p)

unfoldable pub remove_where : (TokenRecord → Bool) → Proxy → Proxy
unfolding remove_each remove_token
remove_where test p = remove_each test p.tokens p
