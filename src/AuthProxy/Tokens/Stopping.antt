-- ===== src/AuthProxy/Tokens/Stopping.antt =====
-- The leases that Stop of internal/authproxy/proxy.go cancels.
use sandbox_codex.AuthProxy.State.{Proxy, TokenRecord, is_cancelled}
use sandbox_codex.AuthProxy.State.Consistent.{IsConsistent}
use sandbox_codex.AuthProxy.State.Removal.{has_key}
use sandbox_codex.AuthProxy.Tokens.{cancel_each, cancel_found, stop}
use sandbox_codex.Common.{
  ==_iff, Bool-cases, List, Option, Str, [], arith, inl, inr, lookup, none, refl, some, str_eq,
  str_eq_iff, true, ℕ, ◌<◌, ◌==◌, ◌∷◌, ◌≡◌,
}
use sandbox_codex.WorkerEgress.Arguments.{below}

-- What was cancelled stays so.
pub cancel_each-kept :
    (tokens entries : List (Str × TokenRecord)) (ls : List ℕ) (l : ℕ)
    → is_cancelled l ls ≡ true
    → is_cancelled l (cancel_each tokens entries ls) ≡ true
unfolding cancel_each
cancel_each-kept tokens [] ls l e = e
cancel_each-kept tokens ((name, _) ∷ es) ls l e =
    cancel_each-kept tokens es (cancel_found (lookup name tokens) ls) l
      (one_more (lookup name tokens))
  where
    one_more : (o : Option TokenRecord) → is_cancelled l (cancel_found o ls) ≡ true
    one_more none = e
    one_more (some rec) = ground (arith, e)

-- The lease of a record that the loop comes to is cancelled.
pub cancel_each-found :
    (tokens : List (Str × TokenRecord)) (n : Str) (r : TokenRecord)
    → lookup n tokens ≡ some r
    → (entries : List (Str × TokenRecord)) (ls : List ℕ) → has_key n entries ≡ true
    → is_cancelled r.lease (cancel_each tokens entries ls) ≡ true
unfolding cancel_each
cancel_each-found tokens n r found [] ls e = cc e
cancel_each-found tokens n r found ((name, _) ∷ es) ls e = elim (Bool-cases (str_eq name n)) [
  | inl same ↦
      let at : lookup name tokens ≡ some r = rw ((str_eq_iff name n).0 same) found in
      rw at
        (cancel_each-kept tokens es (r.lease ∷ ls) r.lease (rw ((==_iff r.lease r.lease).1 refl)))
  | inr other ↦
      cancel_each-found tokens n r found es (cancel_found (lookup name tokens) ls) (rw other at e)
]

-- Nothing but the leases of the records is cancelled.
pub cancel_each-spent :
    (tokens : List (Str × TokenRecord)) (next : ℕ)
    → ((n : Str) (r : TokenRecord) → lookup n tokens ≡ some r → r.lease < next)
    → (entries : List (Str × TokenRecord)) (ls : List ℕ)
    → ((l : ℕ) → is_cancelled l ls ≡ true → l < next)
    → (l : ℕ) → is_cancelled l (cancel_each tokens entries ls) ≡ true
    → l < next
unfolding cancel_each
cancel_each-spent tokens next below [] ls h = h
cancel_each-spent tokens next below ((name, _) ∷ es) ls h =
    cancel_each-spent tokens next below es (cancel_found (lookup name tokens) ls)
      (one_more (lookup name tokens) refl)
  where
    one_more :
        (o : Option TokenRecord)
        → lookup name tokens ≡ o
        → (l : ℕ) → is_cancelled l (cancel_found o ls) ≡ true
        → l < next
    one_more none at l e = h l e
    one_more (some rec) at l e = elim (Bool-cases (rec.lease == l)) [
      | inl same ↦ rw (← (==_iff rec.lease l).0 same) (below name rec at)
      | inr other ↦ h l (rw other at e)
    ]

-- Stop leaves no tokens and keeps the invariant.
pub stop-IsConsistent : (p : Proxy) → IsConsistent p → IsConsistent (stop p)
unfolding stop lookup
stop-IsConsistent p c = record {
  named = λ n r e. cc e;
  valued = λ t r e. cc e;
  leased = λ n r e. cc e;
  distinct = λ n m r s e f g. cc e;
  spent =
      cancel_each-spent p.tokens p.next_lease (λ n r e. (c.leased n r e).0) p.tokens p.cancelled
        c.spent;
}
