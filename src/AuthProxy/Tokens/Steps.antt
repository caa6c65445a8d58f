-- ===== src/AuthProxy/Tokens/Steps.antt =====
-- The steps of the proxy that are taken under its lock (internal/authproxy/tokens.go, restore.go,
-- case_generation.go, Stop of proxy.go), in any order.
use sandbox_codex.AuthProxy.Identity.{Identity, ModelPolicy, identity_eq}
use sandbox_codex.AuthProxy.State.{Proxy, is_revoked, remove_token}
use sandbox_codex.AuthProxy.State.Consistent.{
  IsConsistent, remove_token-IsConsistent, remove_where-IsConsistent,
}
use sandbox_codex.AuthProxy.State.Fresh.{cancel-IsConsistent, replace_token-IsConsistent}
use sandbox_codex.AuthProxy.Tokens.{
  commit_issue, commit_restore, commit_revoke_run, expire_tokens, new_record, revoke_case, stop,
  taken_by_other,
}
use sandbox_codex.AuthProxy.Tokens.Stopping.{stop-IsConsistent}
use sandbox_codex.Common.{
  Bool-cases, Str, inl, inr, lookup, ltb, none, refl, true, ℕ, ℤ, ◌||◌, ◌∷◌, ◌≡◌,
}

-- The token of an issue is one that no record has: it is 32 random bytes (generateToken).
pub data Step : Proxy → Proxy → Type 0 where
  issues :
      {p : Proxy} (name token : Str) (now : ℕ) (ttl : ℤ) (id : Identity) (policy : ModelPolicy)
      → lookup token p.by_value ≡ none
      → Step p (commit_issue name token now ttl id policy p).0
  restores :
      {p : Proxy} (name token : Str) (now : ℕ) (ttl : ℤ) (id : Identity) (policy : ModelPolicy)
      → Step p (commit_restore name token now ttl id policy p).0
  revokes_run : {p : Proxy} (id : Identity) → Step p (commit_revoke_run id p)
  revokes_case : {p : Proxy} → Step p (revoke_case p)
  removes : {p : Proxy} (name : Str) → Step p (remove_token name p)
  expires : {p : Proxy} (now : ℕ) → Step p (expire_tokens now p)
  stops : {p : Proxy} → Step p (stop p)

-- The proxies that are reached by some steps.
pub data Reach (p : Proxy) : Proxy → Type 0 where
  at_start : Reach p p
  then_step : {q r : Proxy} → Reach p q → Step q r → Reach p r

commit_issue-IsConsistent :
    (name token : Str) (now : ℕ) (ttl : ℤ) (id : Identity) (policy : ModelPolicy) (p : Proxy)
    → lookup token p.by_value ≡ none
    → IsConsistent p
    → IsConsistent (commit_issue name token now ttl id policy p).0
unfolding commit_issue
commit_issue-IsConsistent name token now ttl id policy p free c =
    elim (Bool-cases (p.case_revoked || is_revoked id p.revoked_runs)) [
      | inl out ↦ rw out (cancel-IsConsistent p c)
      | inr in_force ↦ rw in_force (
          replace_token-IsConsistent (new_record p name token now ttl id policy) p c (rw free refl)
            refl)
    ]

commit_restore-IsConsistent :
    (name token : Str) (now : ℕ) (ttl : ℤ) (id : Identity) (policy : ModelPolicy) (p : Proxy)
    → IsConsistent p
    → IsConsistent (commit_restore name token now ttl id policy p).0
unfolding commit_restore
commit_restore-IsConsistent name token now ttl id policy p c =
    elim (Bool-cases (p.case_revoked || is_revoked id p.revoked_runs)) [
      | inl out ↦ rw out c
      | inr in_force ↦ elim (Bool-cases (taken_by_other name (lookup token p.by_value))) [
        | inl taken ↦ rw (in_force, taken) c
        | inr free ↦
            rw (in_force, free)
              (replace_token-IsConsistent (new_record p name token now ttl id policy) p c free refl)
      ]
    ]

with_run-IsConsistent :
    (id : Identity) (p : Proxy)
    → IsConsistent p
    → IsConsistent (record p { revoked_runs = id ∷ p.revoked_runs })
with_run-IsConsistent id p c = record {
  named = c.named;
  valued = c.valued;
  leased = c.leased;
  distinct = c.distinct;
  spent = c.spent;
}

without_case-IsConsistent :
    (p : Proxy) → IsConsistent p → IsConsistent (record p { case_revoked = true })
without_case-IsConsistent p c = record {
  named = c.named;
  valued = c.valued;
  leased = c.leased;
  distinct = c.distinct;
  spent = c.spent;
}

-- Every step of the proxy, whatever its outcome, keeps the invariant of its two token indexes and
-- its leases.
pub Step-IsConsistent : {p q : Proxy} → Step p q → IsConsistent p → IsConsistent q
unfolding commit_revoke_run revoke_case expire_tokens
Step-IsConsistent {p} (issues name token now ttl id policy free) c =
    commit_issue-IsConsistent name token now ttl id policy p free c
Step-IsConsistent {p} (restores name token now ttl id policy) c =
    commit_restore-IsConsistent name token now ttl id policy p c
Step-IsConsistent {p} (revokes_run id) c =
    remove_where-IsConsistent (λ rec. identity_eq rec.identity id)
      (record p { revoked_runs = id ∷ p.revoked_runs }) (with_run-IsConsistent id p c)
Step-IsConsistent {p} revokes_case c =
    remove_where-IsConsistent (λ rec. true) (record p { case_revoked = true })
      (without_case-IsConsistent p c)
Step-IsConsistent {p} (removes name) c = remove_token-IsConsistent name p c
Step-IsConsistent {p} (expires now) c =
    remove_where-IsConsistent (λ rec. ltb rec.expires_at now) p c
Step-IsConsistent {p} stops c = stop-IsConsistent p c

-- From a consistent proxy, any sequence of locked operations, with any outcomes, reaches a proxy
-- whose two token indexes agree, whose records have live leases of their own, and whose cancelled
-- leases were all given out.
pub Reach-IsConsistent : {p q : Proxy} → Reach p q → IsConsistent p → IsConsistent q
Reach-IsConsistent at_start c = c
Reach-IsConsistent (then_step reach step) c = Step-IsConsistent step (Reach-IsConsistent reach c)
