-- ===== src/AuthProxy/Requests/Admission.antt =====
-- Whom workerRequest of internal/authproxy/worker_auth.go lets in.
use sandbox_codex.AuthProxy.Requests.{Request, admit_record, admits, request_token, worker_request}
use sandbox_codex.AuthProxy.Requests.Carrying.{Carries, request_token-Carries}
use sandbox_codex.AuthProxy.Requests.Paths.{MayUse, broker_provider_allowed-MayUse}
use sandbox_codex.AuthProxy.State.{Proxy, TokenRecord, is_cancelled}
use sandbox_codex.Common.{
  Bool, Bool-cases, Option, Option-cases, Str, [], arith, false, inl, inr, is_empty, lookup, ltb→lt,
  none, refl, some, true, ℕ, ◌<◌, ◌↔◌, ◌∷◌, ◌≡◌, ◌≢◌,
}
use sandbox_codex.NetworkPolicy.Domains.{within}
use sandbox_codex.WorkerPolicy.{fits}

admit_record_iff :
    (p : Proxy) (now : ℕ) (path : Str) (o : Option TokenRecord) (rec : TokenRecord)
    → (admit_record p now path o ≡ some rec) ↔ ((o ≡ some rec) × (admits p now path rec ≡ true))
admit_record_iff p now path none rec = ((λ h. cc), λ (h, _). cc)
admit_record_iff p now path (some r) rec = elim (Bool-cases (admits p now path r)) [
  | inl within ↦ rw within ((λ h. (h, (let one : r ≡ rec = cc in rw (← one) within))), λ (h, _). h)
  | inr out ↦ rw out ((λ h. cc), λ (h, e). (let one : r ≡ rec = cc in cc (one, e, out)))
]

-- A request is admitted with the record of its token, if the tests of workerRequest pass.
pub worker_request-admits :
    (p : Proxy) (now : ℕ) (allow : Bool) (r : Request) (rec : TokenRecord)
    → (worker_request p now allow r ≡ some rec) ↔ (
        (t : Str) × (request_token allow r ≡ some t)
        × (is_empty t ≡ false)
        × (lookup t p.by_value ≡ some rec)
        × (admits p now r.path rec ≡ true))
unfolding worker_request
worker_request-admits p now allow r rec = elim (Option-cases (request_token allow r)) [
  | inl e ↦ rw e ((λ h. cc), λ (t, h, _, _, _). cc)
  | inr (t, e) ↦ elim (Bool-cases (is_empty t)) [
    | inl blank ↦
        rw (e, blank)
          (
            (λ h. cc),
            λ (u, h, filled, _, _). (let one : t ≡ u = cc in cc (rw (← one) at filled, blank)),
          )
    | inr filled ↦
        let (to, from) = admit_record_iff p now r.path (lookup t p.by_value) rec in
        rw (e, filled)
          (
            (λ h. (t, refl, filled, (to h).0, (to h).1)),
            λ (u, h, _, at, k). from (let one : t ≡ u = cc in (rw one at, k)),
          )
  ]
]

-- A request is admitted with a record exactly if it carries one token (one Authorization value of
-- the form Bearer and a token, or, where X-Api-Key is read, one X-Api-Key that no bearer token
-- contradicts), the record stands under that token, its deadline has not come, its lease was not
-- cancelled, and the provider of the record may use the path.
pub worker_request_iff :
    (p : Proxy) (now : ℕ) (allow : Bool) (r : Request) (rec : TokenRecord)
    → (worker_request p now allow r ≡ some rec) ↔ (
        (t : Str) × Carries allow r t
        × (t ≢ [])
        × (lookup t p.by_value ≡ some rec)
        × (now < rec.expires_at)
        × (is_cancelled rec.lease p.cancelled ≡ false)
        × MayUse p.routes rec.identity.provider r.path)
worker_request_iff p now allow r rec = (
  (λ e.
      let (t, sent, filled, at, fits) = (worker_request-admits p now allow r rec).0 e in
      let named : t ≢ [] = filled_token t filled in
      (
        t,
        (request_token-Carries allow r t named).0 sent,
        named,
        at,
        ltb→lt now rec.expires_at (ground (arith, fits)),
        ground (arith, fits),
        (broker_provider_allowed-MayUse p.routes rec.identity.provider r.path).0
            (ground (arith, fits)),
      )),
  λ (t, carried, named, at, early, uncut, path).
      (let allowed =
          (broker_provider_allowed-MayUse p.routes rec.identity.provider r.path).1 path in
        (worker_request-admits p now allow r rec).1 (
          t,
          (request_token-Carries allow r t named).1 carried,
          token_filled t named,
          at,
          rw (uncut, allowed) (ground arith),
        )),
)
  where
    filled_token : (t : Str) → is_empty t ≡ false → t ≢ []
    filled_token [] e same = cc e
    filled_token (c ∷ s) e same = cc same

    token_filled : (t : Str) → t ≢ [] → is_empty t ≡ false
    token_filled [] h = absurd (h refl)
    token_filled (c ∷ s) h = refl
