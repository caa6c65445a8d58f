-- ===== src/AuthProxy/Tokens/Preparing.antt =====
-- What comes before the lock when a token is issued or restored (IssueTokenWithPolicy,
-- RestoreTokenWithPolicy and checkCaseGeneration of internal/authproxy).
use sandbox_codex.AuthProxy.Identity.{Identity, IdentityError, ModelPolicy, validate_policy}
use sandbox_codex.AuthProxy.State.{Proxy, is_revoked, replace_token}
use sandbox_codex.AuthProxy.Tokens.{
  Loaded, TokenError, after_case, case_conflict, case_not_found, case_unavailable,
  check_case_generation, check_token_identity, commit_issue, invalid, issue, issue_prepared,
  new_record, no_store, not_found, prepare, revoke_case, take_lease, unavailable, versions,
}
use sandbox_codex.Common.{
  Bool-cases, Option, Result, Str, ap, err, false, inl, inr, none, ok, refl, some, str_eq,
  str_eq_iff, sym, ℕ, ℤ, ◌||◌, ◌≡◌, ◌≢◌, ◌⊎◌,
}

-- The credential store has no such case any more, or another generation of it.
pub CaseGone : Loaded → Proxy → Type 0
CaseGone no_store p = ⊥
CaseGone not_found p = Unit
CaseGone unavailable p = ⊥
CaseGone (versions version connection) p =
    (version ≢ p.store_version) ⊎ (connection ≢ p.connection_version)

-- The checks pass and change nothing, fail and change nothing, or find the case gone and revoke it.
abbrev pub Checked : Loaded → Proxy → Proxy × Result TokenError (Unit {0}) → Type 0
Checked loaded p a =
    (a ≡ (p, ok tt))
    ⊎ (((e : TokenError) × (a ≡ (p, err e)))
        ⊎ ((e : TokenError) × CaseGone loaded p × (a ≡ (revoke_case p, err e))))

check_case_generation-Checked :
    (loaded : Loaded) (p : Proxy) → Checked loaded p (check_case_generation loaded p)
unfolding check_case_generation CaseGone
check_case_generation-Checked no_store p = inl refl
check_case_generation-Checked not_found p = inr (inr (case_not_found, tt, refl))
check_case_generation-Checked unavailable p = inr (inl (case_unavailable, refl))
check_case_generation-Checked (versions v w) p = elim (Bool-cases (str_eq v p.store_version)) [
  | inr old ↦
      inr (inr (case_conflict, inl (λ e. cc (old, (str_eq_iff v p.store_version).1 e)), rw old))
  | inl same ↦ elim (Bool-cases (str_eq w p.connection_version)) [
    | inr old ↦ inr (
        inr (
          case_conflict,
          inr (λ e. cc (old, (str_eq_iff w p.connection_version).1 e)),
          rw (same, old),
        ))
    | inl current ↦ inl (rw (same, current))
  ]
]

after_case-Checked :
    (loaded : Loaded) (id : Identity) (p : Proxy) (a : Proxy × Result TokenError (Unit {0}))
    → Checked loaded p a
    → Checked loaded p (after_case id a)
after_case-Checked loaded id p a (inl fine) = rw fine (of_identity (check_token_identity p id))
  where
    of_identity : (o : Result TokenError (Unit {0})) → Checked loaded p (p, o)
    of_identity (ok _) = inl refl
    of_identity (err e) = inr (inl (e, refl))
after_case-Checked loaded id p a (inr (inl (e, failed))) = rw failed (inr (inl (e, refl)))
after_case-Checked loaded id p a (inr (inr (e, gone, failed))) =
    rw failed (inr (inr (e, gone, refl)))

pub prepare_cases :
    (loaded : Loaded) (id : Identity) (policy : ModelPolicy) (p : Proxy)
    → Checked loaded p (prepare loaded id policy p)
unfolding prepare
prepare_cases loaded id policy p = of_policy (validate_policy policy) refl
  where
    of_policy :
        (o : Result IdentityError (Unit {0}))
        → validate_policy policy ≡ o
        → Checked loaded p (prepare loaded id policy p)
    of_policy (err e) at = rw (prepare, at) (inr (inl (invalid e, refl)))
    of_policy (ok _) at =
        rw (prepare, at)
          (after_case-Checked loaded id p (check_case_generation loaded p)
            (check_case_generation-Checked loaded p))

-- A token is issued only if the case and the run are not revoked, and by the locked part alone.
pub issue-granted :
    (loaded : Loaded) (name : Str) (random : Option Str) (now : ℕ) (ttl : ℤ) (id : Identity)
    (policy : ModelPolicy) (p q : Proxy) (token : Str)
    → issue loaded name random now ttl id policy p ≡ (q, ok token)
    → ((p.case_revoked || is_revoked id p.revoked_runs) ≡ false)
      × (q ≡ replace_token (new_record p name token now ttl id policy) (take_lease p))
unfolding issue
issue-granted loaded name random now ttl id policy p q token made =
    elim (prepare_cases loaded id policy p) [
      | inl fine ↦ of_random random (rw fine at made)
      | inr (inl (x, failed)) ↦ cc (rw failed at made)
      | inr (inr (x, gone, failed)) ↦ cc (rw failed at made)
    ]
  where
    of_random :
        (o : Option Str)
        → issue_prepared name o now ttl id policy (p, ok tt) ≡ (q, ok token)
        → ((p.case_revoked || is_revoked id p.revoked_runs) ≡ false)
          × (q ≡ replace_token (new_record p name token now ttl id policy) (take_lease p))
    of_random none e = cc e
    of_random (some t) e = elim (Bool-cases (p.case_revoked || is_revoked id p.revoked_runs)) [
      | inl out ↦ let late = ap (λ a. a.1) (rw (commit_issue, out) at e) in cc late
      | inr open_run ↦
          let done = rw (commit_issue, open_run) at e in
          let one : t ≡ token = cc (ap (λ a. a.1) done) in
          (open_run, rw (← one) (sym (ap (λ a. a.0) done)))
    ]
