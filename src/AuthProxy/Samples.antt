-- ===== src/AuthProxy/Samples.antt =====
-- A proxy with one worker, and runs of internal/authproxy on it.
use sandbox_codex.AuthProxy.Identity.{Identity, identity_eq, validate_identity, validate_policy}
use sandbox_codex.AuthProxy.Requests.{Request, worker_request}
use sandbox_codex.AuthProxy.Requests.Admission.{worker_request_iff}
use sandbox_codex.AuthProxy.Requests.Carrying.{Carries}
use sandbox_codex.AuthProxy.Requests.Paths.{MayUse}
use sandbox_codex.AuthProxy.State.{Proxy, TokenRecord, is_cancelled, remove_token}
use sandbox_codex.AuthProxy.State.Consistent.{IsConsistent}
use sandbox_codex.AuthProxy.Tokens.{
  TokenError, add_ttl, check_case_generation, check_token_identity, commit_issue, commit_revoke_run,
  expire_tokens, issue, new_record, no_store, prepare, restore, revoke_case, stop, versions,
}
use sandbox_codex.AuthProxy.Tokens.Closing.{closed_case_admits_none, expire_tokens_iff}
use sandbox_codex.AuthProxy.Tokens.Issuing.{IsRecordOf, OpensNothing, issued_token_admits}
use sandbox_codex.AuthProxy.Tokens.Leases.{dropped_token_cancelled}
use sandbox_codex.AuthProxy.Tokens.Preparing.{CaseGone}
use sandbox_codex.AuthProxy.Tokens.Restoring.{restore_keeps_others}
use sandbox_codex.AuthProxy.Tokens.Revocation.{revoked_run_stays_out}
use sandbox_codex.AuthProxy.Tokens.Steps.{
  Reach-IsConsistent, Step, Step-IsConsistent, at_start, issues, removes, then_step,
}
use sandbox_codex.Common.{
  Result, Str, [], arith, codes, delete, err, false, inl, inr, insert, lookup, none, ok, pos, refl,
  some, str_eq_iff, subst, true, ◌<◌, ◌↔◌, ◌∷◌, ◌≡◌, ◌≢◌, ◌≤◌, ◌⊎◌,
}

abbrev run_one : Identity
run_one = record {
  case_id = codes "case";
  run_id = codes "one";
  connection_version = codes "v";
  provider = codes "openai";
}

abbrev run_two : Identity
run_two = record run_one { run_id = codes "two" }

abbrev empty_proxy : Proxy
empty_proxy = record {
  case_id = codes "case";
  profile_name = [];
  token_ttl = pos 60;
  routes = [];
  allowed_models = [];
  connection_version = codes "v";
  store_version = codes "s";
  tokens = [];
  by_value = [];
  revoked_runs = [];
  case_revoked = false;
  cancelled = [];
  next_lease = 0;
}

empty_proxy-IsConsistent : IsConsistent empty_proxy
unfolding lookup
empty_proxy-IsConsistent = record {
  named = λ n r e. cc;
  valued = λ t r e. cc;
  leased = λ n r e. cc;
  distinct = λ n m r s e f g. cc;
  spent = λ l e. cc;
}

abbrev first_record : TokenRecord
first_record = new_record empty_proxy (codes "w") (codes "t1") 100 (pos 60) run_one none

-- The proxy after the worker "w" got the token "t1".
abbrev one_proxy : Proxy
one_proxy = record empty_proxy {
  tokens = (codes "w", first_record) ∷ [];
  by_value = (codes "t1", first_record) ∷ [];
  next_lease = 1;
}

one_proxy_reached :
    (commit_issue (codes "w") (codes "t1") 100 (pos 60) run_one none empty_proxy).0 ≡ one_proxy
unfolding commit_issue lookup insert
one_proxy_reached = refl

first-Step : Step empty_proxy one_proxy
unfolding lookup
first-Step =
    subst (Step empty_proxy) one_proxy_reached
      (issues (codes "w") (codes "t1") 100 (pos 60) run_one none refl)

Reach-IsConsistent_example : IsConsistent one_proxy
Reach-IsConsistent_example =
    Reach-IsConsistent (then_step at_start first-Step) empty_proxy-IsConsistent

one_proxy-IsConsistent : IsConsistent one_proxy
one_proxy-IsConsistent = Step-IsConsistent first-Step empty_proxy-IsConsistent

abbrev ask : Str → Request
ask token = record {
  authorization = (codes "Bearer" ∷ token ∷ []) ∷ [];
  api_keys = [];
  path = codes "/v1/responses";
}

worker_request_iff_example :
    (worker_request one_proxy 120 true (ask (codes "t1")) ≡ some first_record) ↔ (
      (t : Str) × Carries true (ask (codes "t1")) t
      × (t ≢ [])
      × (lookup t one_proxy.by_value ≡ some first_record)
      × (120 < first_record.expires_at)
      × (is_cancelled 0 one_proxy.cancelled ≡ false)
      × MayUse [] (codes "openai") (codes "/v1/responses"))
worker_request_iff_example = worker_request_iff one_proxy 120 true (ask (codes "t1")) first_record

closed_case_admits_none_example :
    worker_request (revoke_case one_proxy) 120 true (ask (codes "t1")) ≡ none
closed_case_admits_none_example =
    closed_case_admits_none one_proxy (revoke_case one_proxy) 120 true (ask (codes "t1"))
      one_proxy-IsConsistent at_start

expire_tokens_iff_example :
    (lookup (codes "w") (expire_tokens 60000000200 one_proxy).tokens ≡ some first_record)
    ↔ ((lookup (codes "w") one_proxy.tokens ≡ some first_record) × (60000000200 ≤ 60000000100))
expire_tokens_iff_example = expire_tokens_iff 60000000200 (codes "w") one_proxy first_record

dropped_token_cancelled_example :
    (lookup (codes "w") (remove_token (codes "w") one_proxy).tokens ≡ some first_record)
    ⊎ (is_cancelled 0 (remove_token (codes "w") one_proxy).cancelled ≡ true)
unfolding lookup
dropped_token_cancelled_example =
    dropped_token_cancelled (codes "w") first_record one_proxy (remove_token (codes "w") one_proxy)
      (then_step at_start (removes (codes "w"))) refl

sent : Carries true (ask (codes "t2")) (codes "t2")
unfolding Carries
sent = inl (refl, inr (codes "Bearer", refl, refl))

allowed_path : MayUse [] (codes "openai") (codes "/v1/responses")
unfolding MayUse
allowed_path = inr (refl, inr (inl (refl, inl refl)))

named_token : codes "t2" ≢ []
named_token e = cc e

-- The proxy after the worker "w" got a second token.
abbrev second_proxy : Proxy
second_proxy =
    (issue (versions (codes "s") (codes "v")) (codes "w") (some (codes "t2")) 110 (pos 60) run_one
      none one_proxy).0

second_issued :
    issue
      (versions (codes "s") (codes "v"))
      (codes "w")
      (some (codes "t2"))
      110
      (pos 60)
      run_one
      none
      one_proxy
    ≡ (second_proxy, ok (codes "t2"))
unfolding issue prepare check_case_generation check_token_identity commit_issue lookup insert
    validate_policy validate_identity
second_issued = refl

issued_token_admits_example :
    (rec : TokenRecord) × (worker_request second_proxy 120 true (ask (codes "t2")) ≡ some rec)
    × IsRecordOf (codes "w") (codes "t2") run_one none 60000000110 rec
    × OpensNothing (lookup (codes "w") one_proxy.tokens) second_proxy
unfolding lookup
issued_token_admits_example =
    issued_token_admits (versions (codes "s") (codes "v")) (codes "w") (codes "t2")
      (some (codes "t2")) 110 60 run_one none one_proxy second_proxy 120 true (ask (codes "t2"))
      one_proxy-IsConsistent refl named_token (omega arith) second_issued sent (omega arith)
      allowed_path

-- A duration of more than 2 ^ 63 nanoseconds wraps, and the token has expired at once.
wrapped_ttl : add_ttl 10000000000000000000 (pos 10000000000) ≡ 1553255926290448384
wrapped_ttl = refl

-- Stop cancels the lease of the worker.
stopped_lease : is_cancelled 0 (stop one_proxy).cancelled ≡ true
unfolding stop lookup
stopped_lease = refl

names_apart : codes "x" ≢ codes "w"
names_apart e = let h : false ≡ true = (str_eq_iff (codes "x") (codes "w")).1 e in cc h

-- The worker "x" is restored while "w" has a token.
abbrev restored_proxy : Proxy × Result TokenError (Unit {0})
restored_proxy = restore no_store (codes "x") (codes "t2") 110 (pos 60) run_two none one_proxy

restore_keeps_others_example :
    ((lookup (codes "w") restored_proxy.0.tokens ≡ some first_record)
      × (lookup (codes "t1") restored_proxy.0.by_value ≡ some first_record))
    ⊎ (CaseGone no_store one_proxy
        × (e : TokenError) × (restored_proxy ≡ (revoke_case one_proxy, err e)))
unfolding lookup
restore_keeps_others_example =
    restore_keeps_others no_store (codes "x") (codes "t2") 110 (pos 60) run_two none one_proxy
      (codes "w") first_record one_proxy-IsConsistent names_apart refl

-- Run two has a token when run one is revoked.
abbrev second_record : TokenRecord
second_record = new_record one_proxy (codes "x") (codes "t2") 110 (pos 60) run_two none

abbrev two_proxy : Proxy
two_proxy = record one_proxy {
  tokens = (codes "x", second_record) ∷ one_proxy.tokens;
  by_value = (codes "t2", second_record) ∷ one_proxy.by_value;
  next_lease = 2;
}

two_proxy_reached :
    (commit_issue (codes "x") (codes "t2") 110 (pos 60) run_two none one_proxy).0 ≡ two_proxy
unfolding commit_issue lookup insert
two_proxy_reached = refl

two_proxy-IsConsistent : IsConsistent two_proxy
unfolding lookup
two_proxy-IsConsistent =
    Step-IsConsistent
      (subst (Step one_proxy) two_proxy_reached
        (issues (codes "x") (codes "t2") 110 (pos 60) run_two none refl))
      one_proxy-IsConsistent

still_admitted :
    worker_request (commit_revoke_run run_one two_proxy) 120 true (ask (codes "t2"))
    ≡ some second_record
unfolding worker_request commit_revoke_run lookup delete identity_eq
still_admitted = refl

revoked_run_stays_out_example : second_record.identity ≢ run_one
revoked_run_stays_out_example =
    revoked_run_stays_out run_one two_proxy (commit_revoke_run run_one two_proxy) 120 true
      (ask (codes "t2")) second_record two_proxy-IsConsistent at_start still_admitted
