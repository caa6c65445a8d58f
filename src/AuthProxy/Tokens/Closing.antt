-- ===== src/AuthProxy/Tokens/Closing.antt =====
-- What no request gets after revokeCaseTokens (internal/authproxy/case_generation.go), and what
-- expireTokens leaves (tokens.go).
use sandbox_codex.AuthProxy.Identity.{identity_eq}
use sandbox_codex.AuthProxy.Requests.{Request, worker_request}
use sandbox_codex.AuthProxy.Requests.Admission.{worker_request-admits}
use sandbox_codex.AuthProxy.State.{Proxy, TokenRecord, is_revoked, remove_token, remove_where}
use sandbox_codex.AuthProxy.State.Consistent.{IsConsistent}
use sandbox_codex.AuthProxy.State.Removal.{
  lookup-remove_token, lookup-remove_where, remove_where_keeps, survivor,
}
use sandbox_codex.AuthProxy.Tokens.{
  commit_issue, commit_restore, commit_revoke_run, expire_tokens, revoke_case, stop,
}
use sandbox_codex.AuthProxy.Tokens.Steps.{
  Reach, Reach-IsConsistent, Step, Step-IsConsistent, at_start, expires, issues, removes, restores,
  revokes_case, revokes_run, stops, then_step,
}
use sandbox_codex.Common.{
  Bool, Bool-cases, Option, Option-cases, Str, arith, inl, inr, lookup, ltb, ltb→lt, none, refl,
  some, subst, true, ℕ, ◌||◌, ◌↔◌, ◌∙◌, ◌∷◌, ◌≡◌, ◌≤◌,
}

-- The case is revoked, and no token is left.
pub record IsClosed (p : Proxy) : Type 0 where
  pub closed : p.case_revoked ≡ true
  pub empty : (n : Str) → lookup n p.tokens ≡ none

case_revoked-remove_token :
    (name : Str) (p : Proxy) → (remove_token name p).case_revoked ≡ p.case_revoked
unfolding remove_token
case_revoked-remove_token name p = elim (Option-cases (lookup name p.tokens)) [
  | inl e ↦ rw (e, remove_token)
  | inr (rec, e) ↦ rw (e, remove_token)
]

remove_token-IsClosed : (name : Str) (p : Proxy) → IsClosed p → IsClosed (remove_token name p)
remove_token-IsClosed name p c = record {
  closed = rw (case_revoked-remove_token name p) c.closed;
  empty = λ n. lookup-remove_token name n p ∙ rw (c.empty n) (ground arith);
}

remove_where-IsClosed :
    (test : TokenRecord → Bool) (p : Proxy) → IsClosed p → IsClosed (remove_where test p)
remove_where-IsClosed test p c = remove_where_keeps IsClosed remove_token-IsClosed test p c

Step-IsClosed : {p q : Proxy} → Step p q → IsClosed p → IsClosed q
unfolding commit_issue commit_restore commit_revoke_run revoke_case expire_tokens stop lookup
Step-IsClosed {p} (issues name token now ttl id policy free) c =
    let out : (p.case_revoked || is_revoked id p.revoked_runs) ≡ true = ground (arith, c.closed) in
    rw out (record { closed = c.closed; empty = c.empty })
Step-IsClosed {p} (restores name token now ttl id policy) c =
    let out : (p.case_revoked || is_revoked id p.revoked_runs) ≡ true = ground (arith, c.closed) in
    rw out c
Step-IsClosed {p} (revokes_run id) c =
    remove_where-IsClosed (λ rec. identity_eq rec.identity id)
      (record p { revoked_runs = id ∷ p.revoked_runs })
      (record { closed = c.closed; empty = c.empty })
Step-IsClosed {p} revokes_case c =
    remove_where-IsClosed (λ rec. true) (record p { case_revoked = true })
      (record { closed = refl; empty = c.empty })
Step-IsClosed {p} (removes name) c = remove_token-IsClosed name p c
Step-IsClosed {p} (expires now) c = remove_where-IsClosed (λ rec. ltb rec.expires_at now) p c
Step-IsClosed {p} stops c = record { closed = c.closed; empty = λ n. refl }

Reach-IsClosed : {p q : Proxy} → Reach p q → IsClosed p → IsClosed q
Reach-IsClosed at_start c = c
Reach-IsClosed (then_step reach step) c = Step-IsClosed step (Reach-IsClosed reach c)

revoke_case-IsClosed : (p : Proxy) → IsClosed (revoke_case p)
unfolding revoke_case
revoke_case-IsClosed p =
    let marked = record p { case_revoked = true } in
    let test : TokenRecord → Bool = λ rec. true in
    record {
      closed =
          remove_where_keeps (λ q. q.case_revoked ≡ true)
            (λ name q k. rw (case_revoked-remove_token name q) k) test marked refl;
      empty = λ n.
          lookup-remove_where test n marked
          ∙ elim (Option-cases (lookup n p.tokens)) [ inl e ↦ rw e | inr (r, e) ↦ rw e ];
    }

-- Once the case was revoked, a consistent proxy refuses every request, whatever steps follow.
pub closed_case_admits_none :
    (p q : Proxy) (now : ℕ) (allow : Bool) (r : Request)
    → IsConsistent p
    → Reach (revoke_case p) q
    → worker_request q now allow r ≡ none
closed_case_admits_none p q now allow r c reach =
    elim (Option-cases (worker_request q now allow r)) [
      | inl e ↦ e
      | inr (rec, e) ↦
          let (t, _, _, at, _) = (worker_request-admits q now allow r rec).0 e in
          let sound = Reach-IsConsistent reach (Step-IsConsistent (revokes_case) c) in
          let gone = (Reach-IsClosed reach (revoke_case-IsClosed p)).empty rec.container in
          let (_, stands) = sound.valued t rec at in cc (gone, stands)
    ]

survivor_expired :
    (now : ℕ) (o : Option TokenRecord) (rec : TokenRecord)
    → (survivor (λ r. ltb r.expires_at now) o ≡ some rec)
      ↔ ((o ≡ some rec) × (now ≤ rec.expires_at))
survivor_expired now none rec = ((λ h. cc), λ (h, _). cc)
survivor_expired now (some r) rec = elim (Bool-cases (ltb r.expires_at now)) [
  | inl out ↦ rw out (
    (λ h. cc),
    λ (h, le).
        (let one : r ≡ rec = cc in
          let lt = ltb→lt _ _ (subst (λ s. ltb s.expires_at now ≡ true) one out) in
          absurd (omega arith)),
  )
  | inr stays ↦ rw stays (
    (λ h. (h, (let one : r ≡ rec = cc in subst (λ s. now ≤ s.expires_at) one (ground arith)))),
    λ (h, _). h,
  )
]

-- A clean-up leaves exactly the records that have not expired, each under its name.
pub expire_tokens_iff :
    (now : ℕ) (n : Str) (p : Proxy) (rec : TokenRecord)
    → (lookup n (expire_tokens now p).tokens ≡ some rec)
      ↔ ((lookup n p.tokens ≡ some rec) × (now ≤ rec.expires_at))
unfolding expire_tokens
expire_tokens_iff now n p rec =
    rw (lookup-remove_where (λ r. ltb r.expires_at now) n p)
      (survivor_expired now (lookup n p.tokens) rec)
