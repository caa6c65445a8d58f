-- ===== src/AuthProxy/Requests/Carrying.antt =====
-- The token that a request carries (workerRequest of internal/authproxy/worker_auth.go).
use sandbox_codex.AuthProxy.Requests.{
  Request, bearer_token, equal_fold, request_token, with_api_key,
}
use sandbox_codex.Common.{
  Bool, Bool-cases, List, Option-cases, Str, [], ap, arith, codes, false, inl, inr, is_empty, none,
  refl, some, str_eq_iff, sym, true, ◌↔◌, ◌∙◌, ◌∷◌, ◌≡◌, ◌≢◌, ◌⊎◌,
}

-- There is no Authorization value, for the empty token, or one of two fields, Bearer and the token.
abbrev pub Bears : List (List Str) → Str → Type 0
Bears values t =
    ((values ≡ []) × (t ≡ []))
    ⊎ ((scheme : Str) × (values ≡ (scheme ∷ t ∷ []) ∷ [])
        × (equal_fold scheme (codes "Bearer") ≡ true))

-- The token of a request: a bearer token alone, or, where X-Api-Key is read, one X-Api-Key with no
-- bearer token or with the same one.
unfoldable pub Carries : Bool → Request → Str → Type 0
Carries false r t = Bears r.authorization t
Carries true r t =
    ((r.api_keys ≡ []) × Bears r.authorization t)
    ⊎ ((r.api_keys ≡ t ∷ []) × (Bears r.authorization [] ⊎ Bears r.authorization t))

-- More than one value is refused.
two_refused : (v w : List Str) (vs : List (List Str)) → bearer_token (v ∷ w ∷ vs) ≡ none
unfolding bearer_token
two_refused [] w vs = refl
two_refused (x ∷ []) w vs = refl
two_refused (x ∷ y ∷ []) w vs = refl
two_refused (x ∷ y ∷ z ∷ u) w vs = refl

is_empty_iff : (s : Str) → (is_empty s ≡ true) ↔ (s ≡ [])
is_empty_iff [] = ((λ _. refl), (λ _. refl))
is_empty_iff (c ∷ s) = ((λ e. cc), (λ e. cc))

bearer_token-Bears :
    (values : List (List Str)) (t : Str) → (bearer_token values ≡ some t) ↔ Bears values t
unfolding bearer_token
bearer_token-Bears [] t =
    ((λ h. inl (refl, cc)), λ h. elim h [ inl (_, e) ↦ cc | inr (x, e, _) ↦ cc e ])
bearer_token-Bears ([] ∷ []) t =
    ((λ h. cc), λ h. elim h [ inl (e, _) ↦ cc e | inr (x, e, _) ↦ cc e ])
bearer_token-Bears ((x ∷ []) ∷ []) t =
    ((λ h. cc), λ h. elim h [ inl (e, _) ↦ cc e | inr (y, e, _) ↦ cc e ])
bearer_token-Bears ((x ∷ y ∷ []) ∷ []) t = elim (Bool-cases (equal_fold x (codes "Bearer"))) [
  | inl bearer ↦ rw bearer (
    (λ h. let one : y ≡ t = cc h in inr (x, rw one, bearer)),
    λ h. elim h [ inl (e, _) ↦ cc e | inr (z, e, _) ↦ cc e ],
  )
  | inr other ↦ rw other (
    (λ h. cc h),
    λ h. elim h [
      | inl (e, _) ↦ cc e
      | inr (z, e, k) ↦ (let one : x ≡ z = cc e in cc (one, k, other))
    ],
  )
]
bearer_token-Bears ((x ∷ y ∷ z ∷ w) ∷ []) t =
    ((λ h. cc), λ h. elim h [ inl (e, _) ↦ cc e | inr (u, e, _) ↦ cc e ])
bearer_token-Bears (v ∷ w ∷ vs) t =
    rw (two_refused v w vs) ((λ h. cc h), λ h. elim h [ inl (e, _) ↦ cc e | inr (u, e, _) ↦ cc e ])

with_api_key_iff :
    (keys : List Str) (token t : Str)
    → t ≢ []
    → (with_api_key keys token ≡ some t)
      ↔ (((keys ≡ []) × (token ≡ t)) ⊎ ((keys ≡ t ∷ []) × ((token ≡ []) ⊎ (token ≡ t))))
unfolding with_api_key
with_api_key_iff [] token t filled =
    ((λ h. inl (refl, cc)), λ h. elim h [ inl (_, e) ↦ cc | inr (e, _) ↦ cc e ])
with_api_key_iff (key ∷ []) token t filled =
    grind (arith, str_eq_iff token key, is_empty_iff key, is_empty_iff token)
with_api_key_iff (a ∷ b ∷ keys) token t filled =
    ((λ h. cc), λ h. elim h [ inl (e, _) ↦ cc e | inr (e, _) ↦ cc e ])

pub request_token-Carries :
    (allow : Bool) (r : Request) (t : Str)
    → t ≢ []
    → (request_token allow r ≡ some t) ↔ Carries allow r t
unfolding request_token Carries
request_token-Carries false r t filled =
    let h = bearer_token-Bears r.authorization t in
    elim (Option-cases (bearer_token r.authorization)) [
      | inl e ↦ rw (request_token, e) ((λ k. cc k), λ k. cc (h.1 k, e))
      | inr (s, e) ↦ rw (request_token, e) ((λ k. h.0 (e ∙ k)), λ k. sym e ∙ h.1 k)
    ]
request_token-Carries true r t filled =
    let bears = bearer_token-Bears r.authorization in
    elim (Option-cases (bearer_token r.authorization)) [
      | inl e ↦
          rw (request_token, e)
            (
              (λ k. cc k),
              λ k. elim k [
                | inl (_, b) ↦ cc ((bears t).1 b, e)
                | inr (_, inl b) ↦ cc ((bears []).1 b, e)
                | inr (_, inr b) ↦ cc ((bears t).1 b, e)
              ],
            )
      | inr (s, e) ↦
          let read = with_api_key_iff r.api_keys s t filled in
          rw (request_token, e)
            (
              (λ k. elim (read.0 k) [
                | inl (no_key, same) ↦ inl (no_key, (bears t).0 (e ∙ ap some same))
                | inr (key, inl blank) ↦ inr (key, inl ((bears []).0 (e ∙ ap some blank)))
                | inr (key, inr same) ↦ inr (key, inr ((bears t).0 (e ∙ ap some same)))
              ]),
              λ k. elim k [
                | inl (no_key, b) ↦ read.1 (inl (no_key, cc ((bears t).1 b, e)))
                | inr (key, inl b) ↦ read.1 (inr (key, inl (cc ((bears []).1 b, e))))
                | inr (key, inr b) ↦ read.1 (inr (key, inr (cc ((bears t).1 b, e))))
              ],
            )
    ]
