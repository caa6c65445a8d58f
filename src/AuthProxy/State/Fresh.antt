-- ===== src/AuthProxy/State/Fresh.antt =====
-- A record that is put under its name and its token (replaceTokenLocked of
-- internal/authproxy/tokens.go).
use sandbox_codex.AuthProxy.State.{
  Proxy, TokenRecord, cancel, is_cancelled, put_token, remove_token, replace_token,
}
use sandbox_codex.AuthProxy.State.Consistent.{IsConsistent, remove_token-IsConsistent}
use sandbox_codex.AuthProxy.State.Removal.{by_value-remove_token, lookup-remove_token}
use sandbox_codex.AuthProxy.Tokens.{take_lease, taken_by_other}
use sandbox_codex.Common.{
  ==_iff, Bool-cases, Option-cases, Str, ap, arith, false, inl, inr, lookup, lookup-insert_ne,
  lookup-insert_self, lookup-insert-some, none, some, str_eq, str_eq_iff, str_eq_refl, subst, sym,
  ℕ, ◌<◌, ◌==◌, ◌∙◌, ◌≡◌, ◌≢◌,
}

-- A record that nothing in the proxy conflicts with.
pub record IsFresh (rec : TokenRecord) (q : Proxy) : Type 0 where
  pub unnamed : lookup rec.container q.tokens ≡ none
  pub unvalued : lookup rec.token q.by_value ≡ none
  pub given : rec.lease < q.next_lease
  pub uncancelled : is_cancelled rec.lease q.cancelled ≡ false
  pub newest : (n : Str) (r : TokenRecord) → lookup n q.tokens ≡ some r → r.lease < rec.lease

module _ (rec : TokenRecord) (q : Proxy) (c : IsConsistent q) (f : IsFresh rec q) where
  apart_value : (n : Str) (r : TokenRecord) → lookup n q.tokens ≡ some r → rec.token ≢ r.token
  apart_value n r e same =
      let (_, value) = c.named n r e in
      let gone : lookup r.token q.by_value ≡ none = rw (← same) f.unvalued in cc (value, gone)

  apart_name :
      (t : Str) (r : TokenRecord) → lookup t q.by_value ≡ some r → rec.container ≢ r.container
  apart_name t r e same =
      let (_, value) = c.valued t r e in
      let gone : lookup r.container q.tokens ≡ none = rw (← same) f.unnamed in cc (value, gone)

  pub put_token-IsConsistent : IsConsistent (put_token rec q)
  unfolding put_token
  put_token-IsConsistent = record {
    named = λ n r e. elim (lookup-insert-some rec.container n rec q.tokens e) [
      | inl (here, one) ↦
          subst (λ s. (s.container ≡ n) × (lookup s.token (put_token rec q).by_value ≡ some s)) one
            (here, lookup-insert_self rec.token rec q.by_value)
      | inr (other, e') ↦
          let (here, value) = c.named n r e' in
          (here, lookup-insert_ne rec.token r.token rec q.by_value (apart_value n r e') ∙ value)
    ];
    valued = λ t r e. elim (lookup-insert-some rec.token t rec q.by_value e) [
      | inl (here, one) ↦
          subst (λ s. (s.token ≡ t) × (lookup s.container (put_token rec q).tokens ≡ some s)) one
            (here, lookup-insert_self rec.container rec q.tokens)
      | inr (other, e') ↦
          let (here, value) = c.valued t r e' in
          (
            here,
            lookup-insert_ne rec.container r.container rec q.tokens (apart_name t r e') ∙ value,
          )
    ];
    leased = λ n r e. elim (lookup-insert-some rec.container n rec q.tokens e) [
      | inl (here, one) ↦
          subst (λ s. (s.lease < q.next_lease) × (is_cancelled s.lease q.cancelled ≡ false)) one
            (f.given, f.uncancelled)
      | inr (other, e') ↦ c.leased n r e'
    ];
    distinct = λ n m r s e g same. elim (lookup-insert-some rec.container n rec q.tokens e) [
      | inl (here, one) ↦ elim (lookup-insert-some rec.container m rec q.tokens g) [
        | inl (there, _) ↦ sym here ∙ there
        | inr (_, g') ↦
            let below = f.newest m s g' in
            let eq : rec.lease ≡ s.lease = ap (λ z. z.lease) one ∙ same in absurd (omega arith)
      ]
      | inr (_, e') ↦ elim (lookup-insert-some rec.container m rec q.tokens g) [
        | inl (_, two) ↦
            let below = f.newest n r e' in
            let eq : rec.lease ≡ r.lease = ap (λ z. z.lease) two ∙ sym same in absurd (omega arith)
        | inr (_, g') ↦ c.distinct n m r s e' g' same
      ]
    ];
    spent = c.spent;
  }

take_lease-IsConsistent : (p : Proxy) → IsConsistent p → IsConsistent (take_lease p)
take_lease-IsConsistent p c = record {
  named = c.named;
  valued = c.valued;
  leased = λ n r e. let (given, live_lease) = c.leased n r e in (omega arith, live_lease);
  distinct = c.distinct;
  spent = λ l e. let h = c.spent l e in omega arith;
}

-- A lease that no record has may be cancelled.
pub cancel-IsConsistent :
    (p : Proxy) → IsConsistent p → IsConsistent (cancel p.next_lease (take_lease p))
cancel-IsConsistent p c = record {
  named = c.named;
  valued = c.valued;
  leased = λ n r e.
      let (given, live_lease) = c.leased n r e in
      (omega arith, ground (arith, ==_iff p.next_lease r.lease));
  distinct = c.distinct;
  spent = λ l e. elim (Bool-cases (p.next_lease == l)) [
    | inl same ↦ let eq = (==_iff p.next_lease l).0 same in omega arith
    | inr other ↦ let h = c.spent l (rw other at e) in omega arith
  ];
}

next_lease-remove_token : (name : Str) (p : Proxy) → (remove_token name p).next_lease ≡ p.next_lease
unfolding remove_token
next_lease-remove_token name p = elim (Option-cases (lookup name p.tokens)) [
  | inl e ↦ rw (e, remove_token)
  | inr (rec, e) ↦ rw (e, remove_token)
]

-- The token that replaces a record of the same name, or that no record has, is free after the
-- removal.
unvalued_after :
    (name t : Str) (p : Proxy)
    → IsConsistent p
    → taken_by_other name (lookup t p.by_value) ≡ false
    → lookup t (remove_token name p).by_value ≡ none
unvalued_after name t p c h =
    by_value-remove_token name t p ∙ elim (Option-cases (lookup t p.by_value)) [
      | inl e ↦ elim (Option-cases (lookup name p.tokens)) [
        | inl absent ↦ rw (absent, e)
        | inr (rec, found) ↦ rw (found, e) (ground arith)
      ]
      | inr (r, e) ↦
          let (value, at) = c.valued t r e in
          let same : r.container ≡ name =
            (str_eq_iff r.container name).0 (ground (arith, rw e at h)) in
          let found : lookup name p.tokens ≡ some r = rw (← same) at in
          rw (found, value, str_eq_refl t)
    ]

uncancelled_after :
    (name : Str) (l : ℕ) (q : Proxy)
    → is_cancelled l q.cancelled ≡ false
    → ((n : Str) (r : TokenRecord) → lookup n q.tokens ≡ some r → r.lease < l)
    → is_cancelled l (remove_token name q).cancelled ≡ false
unfolding remove_token
uncancelled_after name l q e below = elim (Option-cases (lookup name q.tokens)) [
  | inl absent ↦ rw (absent, remove_token) e
  | inr (r, found) ↦
      let h = below name r found in rw (found, remove_token) (ground (arith, ==_iff r.lease l))
]

unspent : (p : Proxy) → IsConsistent p → is_cancelled p.next_lease p.cancelled ≡ false
unspent p c = elim (Bool-cases (is_cancelled p.next_lease p.cancelled)) [
  | inl e ↦ let h = c.spent p.next_lease e in absurd (omega arith)
  | inr e ↦ e
]

module _ (rec : TokenRecord) (p : Proxy) (c : IsConsistent p) where
  abbrev cleared : Proxy
  cleared = remove_token rec.container (take_lease p)

  new-IsFresh :
      taken_by_other rec.container (lookup rec.token p.by_value) ≡ false
      → rec.lease ≡ p.next_lease
      → IsFresh rec cleared
  new-IsFresh free lease = record {
    unnamed =
        lookup-remove_token rec.container rec.container (take_lease p)
        ∙ rw (str_eq_refl rec.container);
    unvalued =
        unvalued_after rec.container rec.token (take_lease p) (take_lease-IsConsistent p c) free;
    given = rw (next_lease-remove_token rec.container (take_lease p), lease) (omega arith);
    uncancelled = rw lease (
        uncancelled_after rec.container p.next_lease (take_lease p) (unspent p c)
          (λ n r e. (c.leased n r e).0));
    newest = λ n r e.
        let e' = sym (lookup-remove_token rec.container n (take_lease p)) ∙ e in
        elim (Bool-cases (str_eq rec.container n)) [
          | inl same ↦ cc (rw same at e')
          | inr other ↦ rw (lease) ((c.leased n r (rw other at e')).0)
        ];
  }

  -- The two writes of replaceTokenLocked keep the invariant.
  pub replace_token-IsConsistent :
      taken_by_other rec.container (lookup rec.token p.by_value) ≡ false
      → rec.lease ≡ p.next_lease
      → IsConsistent (replace_token rec (take_lease p))
  unfolding replace_token
  replace_token-IsConsistent free lease =
      put_token-IsConsistent rec cleared
        (remove_token-IsConsistent rec.container (take_lease p) (take_lease-IsConsistent p c))
        (new-IsFresh free lease)
