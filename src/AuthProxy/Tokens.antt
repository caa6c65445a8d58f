-- ===== src/AuthProxy/Tokens.antt =====
-- The operations on tokens of internal/authproxy: tokens.go, restore.go, case_generation.go, and
-- Stop of proxy.go.
pub mod Steps
pub mod Revocation
pub mod Leases
pub mod Closing
pub mod Issuing
pub mod Stopping
pub mod Preparing
pub mod Restoring
use sandbox_codex.AuthProxy.Identity.{
  Identity, IdentityError, ModelPolicy, identity_eq, is_no_identity, validate_identity,
  validate_policy,
}
use sandbox_codex.AuthProxy.State.{
  Proxy, TokenRecord, cancel, is_revoked, remove_where, replace_token,
}
use sandbox_codex.Common.{
  Bool, List, Option, Result, Str, [], all, codes, contains_any, drop_prefix, ensure, err, false,
  has_prefix, if◌then◌else◌, is_digit, is_empty, leb, length, lookup, ltb, negsuc, none, not, ok,
  pos, some, str_eq, true, ℕ, ℤ, ◌%◌, ◌&&◌, ◌*◌, ◌+◌, ◌-◌, ◌==◌, ◌^◌, ◌||◌, ◌∷◌,
}
use sandbox_codex.Sandbox.Reap.{cancelled}

pub data TokenError : Type 0 where
  invalid : IdentityError → TokenError
  scope_mismatch : TokenError
  case_not_found case_unavailable case_conflict : TokenError
  no_randomness : TokenError
  was_revoked : TokenError
  bad_placeholder bad_ttl placeholder_taken : TokenError
  other_case : TokenError
  canceled_context : TokenError

abbrev pub lift_identity : Result IdentityError (Unit {0}) → Result TokenError (Unit {0})
lift_identity (ok u) = ok tt
lift_identity (err e) = err (invalid e)

-- credentialScope
abbrev pub credential_scope : Proxy → Str
credential_scope p = if is_empty p.profile_name then p.case_id else p.profile_name

-- checkTokenIdentity
unfoldable pub check_token_identity : Proxy → Identity → Result TokenError (Unit {0})
check_token_identity p id =
    if not (is_empty p.case_id) || (not (is_empty p.profile_name) && not (is_no_identity id))
    then elim (validate_identity id) [
      | err e ↦ err scope_mismatch
      | ok _ ↦
          ensure
            (str_eq id.case_id (credential_scope p)
              && str_eq id.connection_version p.connection_version)
            scope_mismatch
    ]
    else if is_no_identity id
    then ok tt
    else lift_identity (validate_identity id)

-- The answer of CredentialStore.Load: the version and the connection version, or an error.
pub data Loaded : Type 0 where
  no_store not_found unavailable : Loaded
  versions : Str → Str → Loaded

-- revokeCaseTokens
unfoldable pub revoke_case : Proxy → Proxy
unfolding remove_where
revoke_case p = remove_where (λ rec. true) (record p { case_revoked = true })

-- checkCaseGeneration
unfoldable pub check_case_generation : Loaded → Proxy → Proxy × Result TokenError (Unit {0})
unfolding revoke_case
check_case_generation no_store p = (p, ok tt)
check_case_generation not_found p = (revoke_case p, err case_not_found)
check_case_generation unavailable p = (p, err case_unavailable)
check_case_generation (versions version connection) p =
    if str_eq version p.store_version && str_eq connection p.connection_version
    then (p, ok tt)
    else (revoke_case p, err case_conflict)

-- `time.Duration(ttl) * time.Second`, in nanoseconds: an int64, which wraps. A Duration is added
-- to an instant, in nanoseconds; instants before the epoch count as the epoch.
abbrev pub add_duration : ℕ → ℕ → ℕ
add_duration now w = if ltb w (2 ^ 63) then now + w else now - (2 ^ 64 - w)

abbrev pub take_duration : ℕ → ℕ → ℕ
take_duration now w = if leb w (2 ^ 63) then now - w else now + (2 ^ 64 - w)

abbrev pub add_ttl : ℕ → ℤ → ℕ
add_ttl now (pos n) = add_duration now (n * 1000000000 % 2 ^ 64)
add_ttl now (negsuc n) = take_duration now ((n + 1) * 1000000000 % 2 ^ 64)

-- newTokenRecord, with the identity and the policy set behind it. It takes the next lease.
abbrev pub new_record : Proxy → Str → Str → ℕ → ℤ → Identity → ModelPolicy → TokenRecord
new_record p name token now ttl id policy = record {
  token = token;
  container = name;
  expires_at = add_ttl now ttl;
  issued_at = now;
  identity = id;
  policy = policy;
  lease = p.next_lease;
}

abbrev pub take_lease : Proxy → Proxy
take_lease p = record p { next_lease = p.next_lease + 1 }

-- The locked part of IssueTokenWithPolicy.
unfoldable pub commit_issue :
    Str → Str → ℕ → ℤ → Identity → ModelPolicy → Proxy → Proxy × Result TokenError Str
unfolding replace_token
commit_issue name token now ttl id policy p =
    let rec = new_record p name token now ttl id policy in
    if p.case_revoked || is_revoked id p.revoked_runs
    then (cancel rec.lease (take_lease p), err was_revoked)
    else (replace_token rec (take_lease p), ok token)

-- The steps before the lock: the policy, the credential case, the identity, the random token. The
-- case check may itself revoke, so the state is threaded.
abbrev pub after_case :
    Identity → Proxy × Result TokenError (Unit {0}) → Proxy × Result TokenError (Unit {0})
after_case id (p, err e) = (p, err e)
after_case id (p, ok _) = (p, check_token_identity p id)

unfoldable pub prepare :
    Loaded → Identity → ModelPolicy → Proxy → Proxy × Result TokenError (Unit {0})
unfolding check_case_generation
prepare loaded id policy p = elim (validate_policy policy) [
  | err e ↦ (p, err (invalid e))
  | ok _ ↦ after_case id (check_case_generation loaded p)
]

-- IssueTokenWithPolicy, with no other caller between its checks and its lock; `random` is what
-- generateToken returns.
abbrev pub issue_prepared :
    Str
    → Option Str
    → ℕ
    → ℤ
    → Identity
    → ModelPolicy
    → Proxy × Result TokenError (Unit {0})
    → Proxy × Result TokenError Str
issue_prepared name random now ttl id policy (p, err e) = (p, err e)
issue_prepared name none now ttl id policy (p, ok _) = (p, err no_randomness)
issue_prepared name (some token) now ttl id policy (p, ok _) =
    commit_issue name token now ttl id policy p

unfoldable pub issue :
    Loaded
    → Str
    → Option Str
    → ℕ
    → ℤ
    → Identity
    → ModelPolicy
    → Proxy
    → Proxy × Result TokenError Str
unfolding prepare commit_issue
issue loaded name random now ttl id policy p =
    issue_prepared name random now ttl id policy (prepare loaded id policy p)

abbrev is_hex : ℕ → Bool
is_hex c = is_digit c || ((leb b'a' c && leb c b'f') || (leb b'A' c && leb c b'F'))

-- The form of a placeholder: "cdx-" and 64 hexadecimal digits.
abbrev pub valid_placeholder : Str → Str → Bool
valid_placeholder name token =
    not (is_empty name || (ltb 255 (length name) || contains_any (13 ∷ 10 ∷ 0 ∷ []) name))
    && (has_prefix (codes "cdx-") token
        && (length token == 68 && all is_hex (drop_prefix (codes "cdx-") token)))

abbrev pub is_positive : ℤ → Bool
is_positive (pos n) = ltb 0 n
is_positive (negsuc n) = false

-- The TTL, or the configured one if it is not positive.
abbrev pub effective_ttl : Proxy → ℤ → ℤ
effective_ttl p ttl = if is_positive ttl then ttl else p.token_ttl

abbrev pub valid_ttl : ℤ → Bool
valid_ttl (pos n) = ltb 0 n && leb n (365 * 24 * 3600)
valid_ttl (negsuc n) = false

-- Is the token that of another worker?
abbrev pub taken_by_other : Str → Option TokenRecord → Bool
taken_by_other name none = false
taken_by_other name (some rec) = not (str_eq rec.container name)

-- The locked part of RestoreTokenWithPolicy.
unfoldable pub commit_restore :
    Str → Str → ℕ → ℤ → Identity → ModelPolicy → Proxy → Proxy × Result TokenError (Unit {0})
unfolding replace_token
commit_restore name token now ttl id policy p =
    if p.case_revoked || is_revoked id p.revoked_runs
    then (p, err was_revoked)
    else if taken_by_other name (lookup token p.by_value)
    then (p, err placeholder_taken)
    else (replace_token (new_record p name token now ttl id policy) (take_lease p), ok tt)

abbrev pub restore_prepared :
    Str
    → Str
    → ℕ
    → ℤ
    → Identity
    → ModelPolicy
    → Proxy × Result TokenError (Unit {0})
    → Proxy × Result TokenError (Unit {0})
restore_prepared name token now ttl id policy (p, err e) = (p, err e)
restore_prepared name token now ttl id policy (p, ok _) =
    if not (valid_placeholder name token)
    then (p, err bad_placeholder)
    else if not (valid_ttl (effective_ttl p ttl))
    then (p, err bad_ttl)
    else commit_restore name token now (effective_ttl p ttl) id policy p

-- RestoreTokenWithPolicy, with no other caller between its checks and its lock.
unfoldable pub restore :
    Loaded
    → Str
    → Str
    → ℕ
    → ℤ
    → Identity
    → ModelPolicy
    → Proxy
    → Proxy × Result TokenError (Unit {0})
unfolding prepare commit_restore
restore loaded name token now ttl id policy p =
    restore_prepared name token now ttl id policy (prepare loaded id policy p)

-- The locked part of RevokeRun.
unfoldable pub commit_revoke_run : Identity → Proxy → Proxy
unfolding remove_where
commit_revoke_run id p =
    remove_where (λ rec. identity_eq rec.identity id)
      (record p { revoked_runs = id ∷ p.revoked_runs })

-- RevokeRun; `is_done` is ctx.Err() != nil.
unfoldable pub revoke_run : Bool → Identity → Proxy → Proxy × Result TokenError (Unit {0})
unfolding commit_revoke_run
revoke_run is_done id p =
    if is_done then (p, err canceled_context) else elim (validate_identity id) [
      | err e ↦ (p, err (invalid e))
      | ok _ ↦
          if not (is_empty p.case_id) && not (str_eq id.case_id p.case_id)
          then (p, err other_case)
          else (commit_revoke_run id p, ok tt)
    ]

-- expireTokens
unfoldable pub expire_tokens : ℕ → Proxy → Proxy
unfolding remove_where
expire_tokens now p = remove_where (λ rec. ltb rec.expires_at now) p

-- The loop of Stop that cancels the leases of the tokens.
abbrev pub cancel_found : Option TokenRecord → List ℕ → List ℕ
cancel_found none ls = ls
cancel_found (some rec) ls = rec.lease ∷ ls

unfoldable pub cancel_each : List (Str × TokenRecord) → List (Str × TokenRecord) → List ℕ → List ℕ
cancel_each tokens [] ls = ls
cancel_each tokens ((name, _) ∷ entries) ls =
    cancel_each tokens entries (cancel_found (lookup name tokens) ls)

-- Stop, up to the shutdown of the servers.
unfoldable pub stop : Proxy → Proxy
unfolding cancel_each
stop p = record p {
  cancelled = cancel_each p.tokens p.tokens p.cancelled;
  tokens = [];
  by_value = [];
}
