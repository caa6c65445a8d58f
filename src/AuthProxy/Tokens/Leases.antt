-- ===== src/AuthProxy/Tokens/Leases.antt =====
-- The leases of the records that the steps of the proxy drop (removeTokenLocked and
-- replaceTokenLocked of internal/authproxy/tokens.go).
use sandbox_codex.AuthProxy.Identity.{identity_eq}
use sandbox_codex.AuthProxy.State.{
  Proxy, TokenRecord, cancel, is_cancelled, is_revoked, put_token, remove_token, remove_where,
  replace_token,
}
use sandbox_codex.AuthProxy.State.Removal.{lookup-has_key, lookup-remove_token, remove_where_keeps}
use sandbox_codex.AuthProxy.Tokens.{
  commit_issue, commit_restore, commit_revoke_run, expire_tokens, new_record, revoke_case, stop,
  take_lease, taken_by_other,
}
use sandbox_codex.AuthProxy.Tokens.Steps.{
  Reach, Step, at_start, expires, issues, removes, restores, revokes_case, revokes_run, stops,
  then_step,
}
use sandbox_codex.AuthProxy.Tokens.Stopping.{cancel_each-found, cancel_each-kept}
use sandbox_codex.Common.{
  ==_iff, Bool, Bool-cases, Option-cases, Str, arith, inl, inr, lookup, lookup-delete,
  lookup-insert_ne, ltb, none, refl, some, str_eq, str_eq_iff, str_eq_refl, true, ◌||◌, ◌∙◌, ◌∷◌,
  ◌≡◌, ◌⊎◌,
}

-- The record still stands under the name, or its lease was cancelled.
abbrev pub StandsOrCancelled : Str → TokenRecord → Proxy → Type 0
StandsOrCancelled n r q = (lookup n q.tokens ≡ some r) ⊎ (is_cancelled r.lease q.cancelled ≡ true)

drop-StandsOrCancelled :
    (name n : Str) (r : TokenRecord) (q : Proxy)
    → StandsOrCancelled n r q
    → StandsOrCancelled n r (remove_token name q)
unfolding remove_token
drop-StandsOrCancelled name n r q h = elim (Option-cases (lookup name q.tokens)) [
  | inl e ↦ rw (e, remove_token) h
  | inr (rec, e) ↦
      rw (e, remove_token)
        (elim h [
          | inr gone ↦ inr (ground (arith, gone))
          | inl stands ↦ elim (Bool-cases (str_eq name n)) [
            | inl same ↦
                let at : lookup n q.tokens ≡ some rec = rw (← (str_eq_iff name n).0 same) e in
                let one : rec ≡ r = cc (at, stands) in
                inr (rw (one, (==_iff r.lease r.lease).1 refl))
            | inr other ↦ inl (lookup-delete name n q.tokens ∙ rw (other, stands))
          ]
        ])
]

put-StandsOrCancelled :
    (rec : TokenRecord) (n : Str) (r : TokenRecord) (q : Proxy)
    → lookup rec.container q.tokens ≡ none
    → StandsOrCancelled n r q
    → StandsOrCancelled n r (put_token rec q)
unfolding put_token
put-StandsOrCancelled rec n r q unnamed (inr gone) = inr gone
put-StandsOrCancelled rec n r q unnamed (inl stands) = inl (
    lookup-insert_ne rec.container n rec q.tokens
      (λ same. (let at : lookup n q.tokens ≡ none = rw (← same) unnamed in cc (at, stands)))
    ∙ stands)

replace-StandsOrCancelled :
    (rec : TokenRecord) (n : Str) (r : TokenRecord) (q : Proxy)
    → StandsOrCancelled n r q
    → StandsOrCancelled n r (replace_token rec q)
unfolding replace_token
replace-StandsOrCancelled rec n r q h =
    put-StandsOrCancelled rec n r (remove_token rec.container q)
      (lookup-remove_token rec.container rec.container q ∙ rw (str_eq_refl rec.container))
      (drop-StandsOrCancelled rec.container n r q h)

where-StandsOrCancelled :
    (test : TokenRecord → Bool) (n : Str) (r : TokenRecord) (q : Proxy)
    → StandsOrCancelled n r q
    → StandsOrCancelled n r (remove_where test q)
where-StandsOrCancelled test n r q h =
    remove_where_keeps (StandsOrCancelled n r) (λ name p k. drop-StandsOrCancelled name n r p k)
      test q h

stop-StandsOrCancelled :
    (n : Str) (r : TokenRecord) (q : Proxy)
    → StandsOrCancelled n r q
    → StandsOrCancelled n r (stop q)
unfolding stop
stop-StandsOrCancelled n r q (inl stands) = inr (
    cancel_each-found q.tokens n r stands q.tokens q.cancelled (lookup-has_key n q.tokens r stands))
stop-StandsOrCancelled n r q (inr gone) =
    inr (cancel_each-kept q.tokens q.tokens q.cancelled r.lease gone)

also_cancelled :
    (n : Str) (r : TokenRecord) (p : Proxy)
    → StandsOrCancelled n r p
    → StandsOrCancelled n r (cancel p.next_lease (take_lease p))
also_cancelled n r p (inl stands) = inl stands
also_cancelled n r p (inr gone) = inr (ground (arith, gone))

Step-StandsOrCancelled :
    {p q : Proxy} (n : Str) (r : TokenRecord)
    → Step p q
    → StandsOrCancelled n r p
    → StandsOrCancelled n r q
unfolding commit_issue commit_restore commit_revoke_run revoke_case expire_tokens stop lookup
Step-StandsOrCancelled {p} n r (issues name token now ttl id policy free) h =
    elim (Bool-cases (p.case_revoked || is_revoked id p.revoked_runs)) [
      | inl out ↦ rw out (also_cancelled n r p h)
      | inr open_run ↦ rw open_run (
          replace-StandsOrCancelled (new_record p name token now ttl id policy) n r (take_lease p)
            h)
    ]
Step-StandsOrCancelled {p} n r (restores name token now ttl id policy) h =
    elim (Bool-cases (p.case_revoked || is_revoked id p.revoked_runs)) [
      | inl out ↦ rw out h
      | inr open_run ↦ elim (Bool-cases (taken_by_other name (lookup token p.by_value))) [
        | inl taken ↦ rw (open_run, taken) h
        | inr free ↦
            rw (open_run, free)
              (replace-StandsOrCancelled (new_record p name token now ttl id policy) n r
                (take_lease p) h)
      ]
    ]
Step-StandsOrCancelled {p} n r (revokes_run id) h =
    where-StandsOrCancelled (λ rec. identity_eq rec.identity id) n r
      (record p { revoked_runs = id ∷ p.revoked_runs }) h
Step-StandsOrCancelled {p} n r revokes_case h =
    where-StandsOrCancelled (λ rec. true) n r (record p { case_revoked = true }) h
Step-StandsOrCancelled {p} n r (removes name) h = drop-StandsOrCancelled name n r p h
Step-StandsOrCancelled {p} n r (expires now) h =
    where-StandsOrCancelled (λ rec. ltb rec.expires_at now) n r p h
Step-StandsOrCancelled {p} n r stops h = stop-StandsOrCancelled n r p h

-- A record that stands under a name at one time, at every later time stands there still, or the
-- context of its lease has been cancelled: no steps of the proxy drop a token and leave the
-- requests and streams that go on with it running.
pub dropped_token_cancelled :
    (n : Str) (r : TokenRecord) (p q : Proxy)
    → Reach p q
    → lookup n p.tokens ≡ some r
    → (lookup n q.tokens ≡ some r) ⊎ (is_cancelled r.lease q.cancelled ≡ true)
dropped_token_cancelled n r _ _ at_start e = inl e
dropped_token_cancelled n r p _ (then_step {q = m} reach step) e =
    Step-StandsOrCancelled n r step (dropped_token_cancelled n r p m reach e)
