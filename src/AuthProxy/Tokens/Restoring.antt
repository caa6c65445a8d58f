-- ===== src/AuthProxy/Tokens/Restoring.antt =====
-- What a restore does to other workers (RestoreTokenWithPolicy of internal/authproxy/restore.go).
use sandbox_codex.AuthProxy.Identity.{Identity, ModelPolicy}
use sandbox_codex.AuthProxy.State.{
  Proxy, TokenRecord, is_revoked, put_token, remove_token, replace_token,
}
use sandbox_codex.AuthProxy.State.Consistent.{IsConsistent}
use sandbox_codex.AuthProxy.State.Removal.{lookup-remove_token}
use sandbox_codex.AuthProxy.Tokens.{
  Loaded, TokenError, commit_restore, effective_ttl, new_record, restore, restore_prepared,
  revoke_case, take_lease, taken_by_other, valid_placeholder, valid_ttl,
}
use sandbox_codex.AuthProxy.Tokens.Preparing.{CaseGone, prepare_cases}
use sandbox_codex.AuthProxy.Tokens.Steps.{Step-IsConsistent, restores}
use sandbox_codex.Common.{
  Bool-cases, Str, err, inl, inr, lookup, lookup-insert_ne, not, ok, refl, some, str_eq, str_eq_iff,
  ℕ, ℤ, ◌||◌, ◌∙◌, ◌≡◌, ◌≢◌, ◌⊎◌,
}

module _ (rec : TokenRecord) (p : Proxy) where
  lookup-replace_token_ne :
      (n : Str) → rec.container ≢ n → lookup n (replace_token rec p).tokens ≡ lookup n p.tokens
  unfolding replace_token put_token
  lookup-replace_token_ne n other =
      lookup-insert_ne rec.container n rec (remove_token rec.container p).tokens other
      ∙ (lookup-remove_token rec.container n p ∙ elim (Bool-cases (str_eq rec.container n)) [
        | inl same ↦ absurd (other ((str_eq_iff rec.container n).0 same))
        | inr ne ↦ rw ne
      ])

module _ (name token : Str) (now : ℕ) (ttl : ℤ) (id : Identity) (policy : ModelPolicy)
    (p : Proxy) where
  restored_ne :
      (n : Str) (r : TokenRecord)
      → name ≢ n
      → lookup n p.tokens ≡ some r
      → lookup n (commit_restore name token now ttl id policy p).0.tokens ≡ some r
  unfolding commit_restore
  restored_ne n r other e = elim (Bool-cases (p.case_revoked || is_revoked id p.revoked_runs)) [
    | inl out ↦ rw out e
    | inr open_run ↦ elim (Bool-cases (taken_by_other name (lookup token p.by_value))) [
      | inl taken ↦ rw (open_run, taken) e
      | inr unclaimed ↦
          rw (open_run, unclaimed)
            (lookup-replace_token_ne (new_record p name token now ttl id policy) (take_lease p) n
                other
              ∙ e)
    ]
  ]

  kept_others :
      (n : Str) (r : TokenRecord)
      → IsConsistent p
      → name ≢ n
      → lookup n p.tokens ≡ some r
      → (lookup n (commit_restore name token now ttl id policy p).0.tokens ≡ some r)
        × (lookup r.token (commit_restore name token now ttl id policy p).0.by_value ≡ some r)
  kept_others n r c other e =
      let stands = restored_ne n r other e in
      (stands, ((Step-IsConsistent (restores name token now ttl id policy) c).named n r stands).1)

-- The checks of a restore change nothing, and its locked part nothing of other workers.
restored_others :
    (name token : Str) (now : ℕ) (ttl : ℤ) (id : Identity) (policy : ModelPolicy) (p : Proxy)
    (n : Str) (r : TokenRecord)
    → IsConsistent p
    → name ≢ n
    → lookup n p.tokens ≡ some r
    → let q = (restore_prepared name token now ttl id policy (p, ok tt)).0 in
      (lookup n q.tokens ≡ some r) × (lookup r.token q.by_value ≡ some r)
restored_others name token now ttl id policy p n r c other e =
    elim (Bool-cases (not (valid_placeholder name token))) [
      | inl bad ↦ rw bad (e, (c.named n r e).1)
      | inr good ↦ elim (Bool-cases (not (valid_ttl (effective_ttl p ttl)))) [
        | inl bad ↦ rw (good, bad) (e, (c.named n r e).1)
        | inr lasts ↦
            rw (good, lasts)
              (kept_others name token now (effective_ttl p ttl) id policy p n r c other e)
      ]
    ]

-- A restore leaves the record and the token of every other worker as they are, unless the
-- credential store says that the case is gone or was replaced: then it fails, and every token of
-- the case is revoked.
pub restore_keeps_others :
    (loaded : Loaded) (name token : Str) (now : ℕ) (ttl : ℤ) (id : Identity) (policy : ModelPolicy)
    (p : Proxy) (n : Str) (r : TokenRecord)
    → IsConsistent p
    → name ≢ n
    → lookup n p.tokens ≡ some r
    → let after = restore loaded name token now ttl id policy p in
      ((lookup n after.0.tokens ≡ some r) × (lookup r.token after.0.by_value ≡ some r))
      ⊎ (CaseGone loaded p × (e : TokenError) × (after ≡ (revoke_case p, err e)))
unfolding restore
restore_keeps_others loaded name token now ttl id policy p n r c other e =
    elim (prepare_cases loaded id policy p) [
      | inl fine ↦
          inl (rw (restore, fine) (restored_others name token now ttl id policy p n r c other e))
      | inr (inl (x, failed)) ↦ inl (rw (restore, failed) (e, (c.named n r e).1))
      | inr (inr (x, gone, failed)) ↦ inr (gone, x, rw (restore, failed) refl)
    ]
