-- ===== src/AuthProxy/Tokens/Issuing.antt =====
-- What a new token opens, and what it closes (IssueTokenWithPolicy of
-- internal/authproxy/tokens.go).
use sandbox_codex.AuthProxy.Identity.{Identity, ModelPolicy}
use sandbox_codex.AuthProxy.Requests.{Request, worker_request}
use sandbox_codex.AuthProxy.Requests.Admission.{worker_request_iff}
use sandbox_codex.AuthProxy.Requests.Carrying.{Carries}
use sandbox_codex.AuthProxy.Requests.Paths.{MayUse}
use sandbox_codex.AuthProxy.State.{
  Proxy, TokenRecord, is_revoked, put_token, remove_token, replace_token,
}
use sandbox_codex.AuthProxy.State.Consistent.{IsConsistent}
use sandbox_codex.AuthProxy.State.Removal.{by_value-remove_token}
use sandbox_codex.AuthProxy.Tokens.{Loaded, add_ttl, commit_issue, issue, new_record, take_lease}
use sandbox_codex.AuthProxy.Tokens.Preparing.{issue-granted}
use sandbox_codex.AuthProxy.Tokens.Steps.{Step-IsConsistent, issues}
use sandbox_codex.Common.{
  Bool, Option, Option-cases, Str, [], arith, false, inl, inr, lookup, lookup-insert_ne,
  lookup-insert_self, none, ok, pos, refl, some, str_eq_refl, subst, sym, ℕ, ℤ, ◌*◌, ◌+◌, ◌<◌, ◌||◌,
  ◌∙◌, ◌≡◌, ◌≢◌,
}

module _ (rec : TokenRecord) (p : Proxy) where
  by_value-replace_token : lookup rec.token (replace_token rec p).by_value ≡ some rec
  unfolding replace_token put_token
  by_value-replace_token = lookup-insert_self rec.token rec (remove_token rec.container p).by_value

  by_value-replaced :
      (old : TokenRecord)
      → rec.token ≢ old.token
      → lookup rec.container p.tokens ≡ some old
      → lookup old.token (replace_token rec p).by_value ≡ none
  unfolding replace_token put_token
  by_value-replaced old other e =
      lookup-insert_ne rec.token old.token rec (remove_token rec.container p).by_value other
      ∙ (by_value-remove_token rec.container old.token p ∙ rw (e, str_eq_refl old.token))

routes-remove_token : (name : Str) (p : Proxy) → (remove_token name p).routes ≡ p.routes
unfolding remove_token
routes-remove_token name p = elim (Option-cases (lookup name p.tokens)) [
  | inl e ↦ rw (e, remove_token)
  | inr (rec, e) ↦ rw (e, remove_token)
]

-- No record stands under the token of the old record, if there was one.
abbrev pub OpensNothing : Option TokenRecord → Proxy → Type 0
OpensNothing none q = Unit
OpensNothing (some old) q = lookup old.token q.by_value ≡ none

module _ (name token : Str) (now : ℕ) (ttl : ℤ) (id : Identity) (policy : ModelPolicy)
    (p : Proxy) where
  abbrev issued : Proxy
  issued = replace_token (new_record p name token now ttl id policy) (take_lease p)

  commit_issue-open :
      (p.case_revoked || is_revoked id p.revoked_runs) ≡ false
      → (commit_issue name token now ttl id policy p).0 ≡ issued
  unfolding commit_issue
  commit_issue-open open_run = rw open_run

  routes-issued : issued.routes ≡ p.routes
  unfolding replace_token put_token
  routes-issued = routes-remove_token name (take_lease p)

  -- The token that a worker had before opens nothing.
  pub old_token_shut :
      (old : Option TokenRecord)
      → IsConsistent p
      → lookup token p.by_value ≡ none
      → lookup name p.tokens ≡ old
      → OpensNothing old issued
  old_token_shut none c free had = tt
  old_token_shut (some old) c free had =
      let (_, value) = c.named name old had in
      by_value-replaced (new_record p name token now ttl id policy) (take_lease p) old
        (λ one. (let at : lookup old.token p.by_value ≡ none = rw (← one) free in cc (at, value)))
        had

  pub issued-IsConsistent :
      IsConsistent p
      → (p.case_revoked || is_revoked id p.revoked_runs) ≡ false
      → lookup token p.by_value ≡ none
      → IsConsistent issued
  issued-IsConsistent c open_run free =
      subst IsConsistent (commit_issue-open open_run)
        (Step-IsConsistent (issues name token now ttl id policy free) c)

  issued_request :
      (later : ℕ) (allow : Bool) (r : Request)
      → IsConsistent issued
      → token ≢ []
      → Carries allow r token
      → later < add_ttl now ttl
      → MayUse p.routes id.provider r.path
      → worker_request issued later allow r ≡ some (new_record p name token now ttl id policy)
  issued_request later allow r sound filled carried early path =
      let rec = new_record p name token now ttl id policy in
      let value = by_value-replace_token rec (take_lease p) in
      let (_, stands) = sound.valued token rec value in
      let (_, uncut) = sound.leased name rec stands in
      (worker_request_iff issued later allow r rec).1
        (token, carried, filled, value, early, uncut, rw routes-issued path)

-- A number of seconds that an int64 of nanoseconds can hold is added as it is.
add_ttl_seconds :
    (now seconds : ℕ)
    → seconds * 1000000000 < 9223372036854775808
    → add_ttl now (pos seconds) ≡ now + seconds * 1000000000
add_ttl_seconds now seconds short = ground arith

-- The record of a token: whose it is, and when it ends.
pub record IsRecordOf (name token : Str) (id : Identity) (policy : ModelPolicy) (deadline : ℕ)
    (rec : TokenRecord) : Type 0 where
  pub its_token : rec.token ≡ token
  pub its_worker : rec.container ≡ name
  pub its_identity : rec.identity ≡ id
  pub its_policy : rec.policy ≡ policy
  pub its_deadline : rec.expires_at ≡ deadline

-- After a token was issued for a number of seconds, a request that carries it is admitted until
-- they have passed, on the paths of its provider, with a record of that worker, identity and model
-- policy; the token that the worker had before, if there was one, opens nothing. The proxy was
-- consistent, the new token is not empty and one that no record had, and the seconds fit in an
-- int64 of nanoseconds.
pub issued_token_admits :
    (loaded : Loaded) (name token : Str) (random : Option Str) (now seconds : ℕ) (id : Identity)
    (policy : ModelPolicy) (p q : Proxy) (later : ℕ) (allow : Bool) (r : Request)
    → IsConsistent p
    → lookup token p.by_value ≡ none
    → token ≢ []
    → seconds * 1000000000 < 9223372036854775808
    → issue loaded name random now (pos seconds) id policy p ≡ (q, ok token)
    → Carries allow r token
    → later < now + seconds * 1000000000
    → MayUse p.routes id.provider r.path
    → (rec : TokenRecord) × (worker_request q later allow r ≡ some rec)
      × IsRecordOf name token id policy (now + seconds * 1000000000) rec
      × OpensNothing (lookup name p.tokens) q
issued_token_admits loaded name token random now seconds id policy p q later allow r c free filled
      short made carried early path =
    let (open_run, same) =
      issue-granted loaded name random now (pos seconds) id policy p q token made in
    let rec = new_record p name token now (pos seconds) id policy in
    let deadline = add_ttl_seconds now seconds short in
    let sound = issued-IsConsistent name token now (pos seconds) id policy p c open_run free in
    (
      rec,
      rw same (
          issued_request name token now (pos seconds) id policy p later allow r sound filled carried
            (subst (λ k. later < k) (sym deadline) early) path),
      record {
        its_token = refl;
        its_worker = refl;
        its_identity = refl;
        its_policy = refl;
        its_deadline = deadline;
      },
      rw same (
          old_token_shut name token now (pos seconds) id policy p (lookup name p.tokens) c free
            refl),
    )
