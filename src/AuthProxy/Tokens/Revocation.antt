-- ===== src/AuthProxy/Tokens/Revocation.antt =====
-- What stays out after RevokeRun and revokeCaseTokens (internal/authproxy/tokens.go,
-- case_generation.go).
use sandbox_codex.AuthProxy.Identity.{Identity, ModelPolicy, identity_eq, identity_eq_iff}
use sandbox_codex.AuthProxy.Requests.{Request, worker_request}
use sandbox_codex.AuthProxy.Requests.Admission.{worker_request-admits}
use sandbox_codex.AuthProxy.State.{
  Proxy, TokenRecord, is_revoked, put_token, remove_token, remove_where, replace_token,
}
use sandbox_codex.AuthProxy.State.Consistent.{IsConsistent}
use sandbox_codex.AuthProxy.State.Removal.{
  lookup-remove_token, lookup-remove_where, remove_where_keeps, survivor,
}
use sandbox_codex.AuthProxy.Tokens.{
  commit_issue, commit_restore, commit_revoke_run, expire_tokens, new_record, revoke_case, stop,
  take_lease, taken_by_other,
}
use sandbox_codex.AuthProxy.Tokens.Steps.{
  Reach, Reach-IsConsistent, Step, Step-IsConsistent, at_start, expires, issues, removes, restores,
  revokes_case, revokes_run, stops, then_step,
}
use sandbox_codex.Common.{
  Bool, Bool-cases, Option, Option-cases, Str, arith, false, inl, inr, lookup, lookup-insert-some,
  ltb, none, refl, some, str_eq, str_eq_iff, sym, true, ℕ, ℤ, ◌||◌, ◌∙◌, ◌∷◌, ◌≡◌, ◌≢◌, ◌⊎◌,
}

-- The run is listed as revoked, and no record is of it.
pub record IsBarred (id : Identity) (p : Proxy) : Type 0 where
  pub listed : is_revoked id p.revoked_runs ≡ true
  pub absent :
      (n : Str) (r : TokenRecord) → lookup n p.tokens ≡ some r → identity_eq r.identity id ≡ false

revoked_runs-remove_token :
    (name : Str) (p : Proxy) → (remove_token name p).revoked_runs ≡ p.revoked_runs
unfolding remove_token
revoked_runs-remove_token name p = elim (Option-cases (lookup name p.tokens)) [
  | inl e ↦ rw (e, remove_token)
  | inr (rec, e) ↦ rw (e, remove_token)
]

pub lookup-remove_token-some :
    (name n : Str) (p : Proxy) (r : TokenRecord)
    → lookup n (remove_token name p).tokens ≡ some r
    → (name ≢ n) × (lookup n p.tokens ≡ some r)
lookup-remove_token-some name n p r e =
    let h = sym (lookup-remove_token name n p) ∙ e in
    elim (Bool-cases (str_eq name n)) [
      | inl same ↦ cc (rw same at h)
      | inr other ↦ ((λ eq. cc (other, (str_eq_iff name n).1 eq)), rw other at h)
    ]

remove_token-IsBarred :
    (id : Identity) (name : Str) (p : Proxy) → IsBarred id p → IsBarred id (remove_token name p)
remove_token-IsBarred id name p b = record {
  listed = rw (revoked_runs-remove_token name p) b.listed;
  absent = λ n r e. b.absent n r (lookup-remove_token-some name n p r e).1;
}

pub lookup-put_token-some :
    (rec : TokenRecord) (n : Str) (p : Proxy) (r : TokenRecord)
    → lookup n (put_token rec p).tokens ≡ some r
    → (rec ≡ r) ⊎ (lookup n p.tokens ≡ some r)
unfolding put_token
lookup-put_token-some rec n p r e = elim (lookup-insert-some rec.container n rec p.tokens e) [
  | inl (_, one) ↦ inl one
  | inr (_, old) ↦ inr old
]

replace_token-IsBarred :
    (id : Identity) (rec : TokenRecord) (p : Proxy)
    → identity_eq rec.identity id ≡ false
    → IsBarred id p
    → IsBarred id (replace_token rec p)
unfolding replace_token put_token
replace_token-IsBarred id rec p other b = record {
  listed = (remove_token-IsBarred id rec.container p b).listed;
  absent = λ n r e. elim (lookup-put_token-some rec n (remove_token rec.container p) r e) [
    | inl one ↦ rw (← one) other
    | inr old ↦ (remove_token-IsBarred id rec.container p b).absent n r old
  ];
}

or_false : (a b : Bool) → (a || b) ≡ false → b ≡ false
or_false a b h = ground arith

other_run :
    (id of : Identity) (p : Proxy)
    → IsBarred id p
    → is_revoked of p.revoked_runs ≡ false
    → identity_eq of id ≡ false
other_run id of p b open_run = elim (Bool-cases (identity_eq of id)) [
  | inl same ↦
      let one = (identity_eq_iff of id).0 same in
      let closed : is_revoked of p.revoked_runs ≡ true = rw one b.listed in cc (closed, open_run)
  | inr other ↦ other
]

-- `cancel`, `take_lease` and `revoked_runs` bear on no record.
commit_issue-IsBarred :
    (id : Identity) (name token : Str) (now : ℕ) (ttl : ℤ) (of : Identity) (policy : ModelPolicy)
    (p : Proxy)
    → IsBarred id p
    → IsBarred id (commit_issue name token now ttl of policy p).0
unfolding commit_issue
commit_issue-IsBarred id name token now ttl of policy p b =
    elim (Bool-cases (p.case_revoked || is_revoked of p.revoked_runs)) [
      | inl out ↦ rw out (record { listed = b.listed; absent = b.absent })
      | inr open_run ↦ rw open_run (
          replace_token-IsBarred id (new_record p name token now ttl of policy) (take_lease p)
            (other_run id of p b (or_false p.case_revoked (is_revoked of p.revoked_runs) open_run))
            (record { listed = b.listed; absent = b.absent }))
    ]

commit_restore-IsBarred :
    (id : Identity) (name token : Str) (now : ℕ) (ttl : ℤ) (of : Identity) (policy : ModelPolicy)
    (p : Proxy)
    → IsBarred id p
    → IsBarred id (commit_restore name token now ttl of policy p).0
unfolding commit_restore
commit_restore-IsBarred id name token now ttl of policy p b =
    elim (Bool-cases (p.case_revoked || is_revoked of p.revoked_runs)) [
      | inl out ↦ rw out b
      | inr open_run ↦ elim (Bool-cases (taken_by_other name (lookup token p.by_value))) [
        | inl taken ↦ rw (open_run, taken) b
        | inr free ↦
            rw (open_run, free)
              (replace_token-IsBarred id (new_record p name token now ttl of policy) (take_lease p)
                (other_run id of p b
                  (or_false p.case_revoked (is_revoked of p.revoked_runs) open_run))
                (record { listed = b.listed; absent = b.absent }))
      ]
    ]

remove_where-IsBarred :
    (id : Identity) (test : TokenRecord → Bool) (p : Proxy)
    → IsBarred id p
    → IsBarred id (remove_where test p)
remove_where-IsBarred id test p b =
    remove_where_keeps (IsBarred id) (remove_token-IsBarred id) test p b

pub Step-IsBarred : {p q : Proxy} (id : Identity) → Step p q → IsBarred id p → IsBarred id q
unfolding commit_revoke_run revoke_case expire_tokens stop lookup
Step-IsBarred {p} id (issues name token now ttl of policy free) b =
    commit_issue-IsBarred id name token now ttl of policy p b
Step-IsBarred {p} id (restores name token now ttl of policy) b =
    commit_restore-IsBarred id name token now ttl of policy p b
Step-IsBarred {p} id (revokes_run other) b =
    remove_where-IsBarred id (λ rec. identity_eq rec.identity other)
      (record p { revoked_runs = other ∷ p.revoked_runs })
      (record { listed = ground (arith, b.listed); absent = b.absent })
Step-IsBarred {p} id revokes_case b =
    remove_where-IsBarred id (λ rec. true) (record p { case_revoked = true })
      (record { listed = b.listed; absent = b.absent })
Step-IsBarred {p} id (removes name) b = remove_token-IsBarred id name p b
Step-IsBarred {p} id (expires now) b = remove_where-IsBarred id (λ rec. ltb rec.expires_at now) p b
Step-IsBarred {p} id stops b = record { listed = b.listed; absent = λ n r e. cc e }

pub Reach-IsBarred : {p q : Proxy} (id : Identity) → Reach p q → IsBarred id p → IsBarred id q
Reach-IsBarred id at_start b = b
Reach-IsBarred id (then_step reach step) b = Step-IsBarred id step (Reach-IsBarred id reach b)

revoked_runs-remove_where :
    (test : TokenRecord → Bool) (p : Proxy) (id : Identity)
    → is_revoked id p.revoked_runs ≡ true
    → is_revoked id (remove_where test p).revoked_runs ≡ true
revoked_runs-remove_where test p id h =
    remove_where_keeps (λ q. is_revoked id q.revoked_runs ≡ true)
      (λ name q k. rw (revoked_runs-remove_token name q) k) test p h

pub survivor_stays :
    (test : TokenRecord → Bool) (o : Option TokenRecord) (r : TokenRecord)
    → survivor test o ≡ some r
    → test r ≡ false
survivor_stays test none r e = cc
survivor_stays test (some s) r e = elim (Bool-cases (test s)) [
  | inl out ↦ cc (rw out at e)
  | inr stays ↦ let one : s ≡ r = cc (rw stays at e) in rw (← one) stays
]

pub commit_revoke_run-IsBarred : (id : Identity) (p : Proxy) → IsBarred id (commit_revoke_run id p)
unfolding commit_revoke_run
commit_revoke_run-IsBarred id p =
    let test : TokenRecord → Bool = λ rec. identity_eq rec.identity id in
    let marked = record p { revoked_runs = id ∷ p.revoked_runs } in
    record {
      listed = revoked_runs-remove_where test marked id (rw ((identity_eq_iff id id).1 refl));
      absent = λ n r e.
          survivor_stays test (lookup n p.tokens) r (sym (lookup-remove_where test n marked) ∙ e);
    }

-- After a run was revoked, no steps of the proxy whatever let a request in with a record of that
-- run, if the proxy was consistent.
pub revoked_run_stays_out :
    (id : Identity) (p q : Proxy) (now : ℕ) (allow : Bool) (r : Request) (rec : TokenRecord)
    → IsConsistent p
    → Reach (commit_revoke_run id p) q
    → worker_request q now allow r ≡ some rec
    → rec.identity ≢ id
revoked_run_stays_out id p q now allow r rec c reach e same =
    let (t, _, _, at, _) = (worker_request-admits q now allow r rec).0 e in
    let sound = Reach-IsConsistent reach (Step-IsConsistent (revokes_run id) c) in
    let named = (sound.valued t rec at).1 in
    let barred = Reach-IsBarred id reach (commit_revoke_run-IsBarred id p) in
    let other = barred.absent rec.container rec named in
    cc (other, (identity_eq_iff rec.identity id).1 same)
