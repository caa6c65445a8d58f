-- ===== src/AuthProxy/State/Consistent.antt =====
-- The invariant of the two token indexes and the leases (internal/authproxy/tokens.go): "both
-- indexes and lease cancellation change under the same lock".
use sandbox_codex.AuthProxy.State.{
  Proxy, TokenRecord, drop_record, is_cancelled, remove_token, remove_where,
}
use sandbox_codex.AuthProxy.State.Removal.{remove_where_keeps}
use sandbox_codex.Common.{
  ==_iff, Bool, Bool-cases, Option-cases, Str, arith, false, inl, inr, lookup, lookup-delete_ne,
  lookup-delete-some, some, true, ℕ, ◌<◌, ◌==◌, ◌∙◌, ◌∷◌, ◌≡◌, ◌≢◌,
}

pub record IsConsistent (p : Proxy) : Type 0 where
  -- A record stands under its own name and under its own token.
  pub named :
      (n : Str) (r : TokenRecord)
      → lookup n p.tokens ≡ some r
      → (r.container ≡ n) × (lookup r.token p.by_value ≡ some r)
  pub valued :
      (t : Str) (r : TokenRecord)
      → lookup t p.by_value ≡ some r
      → (r.token ≡ t) × (lookup r.container p.tokens ≡ some r)
  -- Its lease was given out, is not cancelled, and is that of no other record.
  pub leased :
      (n : Str) (r : TokenRecord)
      → lookup n p.tokens ≡ some r
      → (r.lease < p.next_lease) × (is_cancelled r.lease p.cancelled ≡ false)
  pub distinct :
      (n m : Str) (r s : TokenRecord)
      → lookup n p.tokens ≡ some r
      → lookup m p.tokens ≡ some s
      → r.lease ≡ s.lease
      → n ≡ m
  -- Only leases that were given out are cancelled.
  pub spent : (l : ℕ) → is_cancelled l p.cancelled ≡ true → l < p.next_lease

module _ (name : Str) (p : Proxy) (c : IsConsistent p) (rec : TokenRecord)
    (found : lookup name p.tokens ≡ some rec) where
  -- The proxy after the record under the name was removed.
  abbrev removed : Proxy
  removed = drop_record name (some rec) p

  -- No other record has the token of the one that goes.
  token_apart :
      (n : Str) (r : TokenRecord) → name ≢ n → lookup n p.tokens ≡ some r → rec.token ≢ r.token
  token_apart n r other e same =
      let (here, value) = c.named name rec found in
      let (there, value') = c.named n r e in
      let one : rec ≡ r = cc (value, value', same) in other (cc (here, there, one))

  name_apart :
      (t : Str) (r : TokenRecord)
      → rec.token ≢ t
      → r.token ≡ t
      → lookup r.container p.tokens ≡ some r
      → name ≢ r.container
  name_apart t r other here value same =
      let at : lookup r.container p.tokens ≡ some rec = rw (← same) found in
      let one : rec ≡ r = cc (at, value) in other (rw (one) here)

  lease_apart :
      (n : Str) (r : TokenRecord) → name ≢ n → lookup n p.tokens ≡ some r → rec.lease ≢ r.lease
  lease_apart n r other e same = other (c.distinct name n rec r found e same)

  still_live :
      (n : Str) (r : TokenRecord)
      → name ≢ n
      → lookup n p.tokens ≡ some r
      → is_cancelled r.lease p.cancelled ≡ false
      → is_cancelled r.lease (rec.lease ∷ p.cancelled) ≡ false
  still_live n r other e uncancelled =
      let apart = lease_apart n r other e in ground (arith, ==_iff rec.lease r.lease)

  spent_lease : (l : ℕ) → is_cancelled l (rec.lease ∷ p.cancelled) ≡ true → l < p.next_lease
  spent_lease l e = elim (Bool-cases (rec.lease == l)) [
    | inl same ↦ rw (← (==_iff rec.lease l).0 same) (c.leased name rec found).0
    | inr other ↦ c.spent l (rw other at e)
  ]

  drop_record-IsConsistent : IsConsistent removed
  drop_record-IsConsistent = record {
    named = λ n r e.
        let (other, e') = lookup-delete-some name n p.tokens e in
        let (here, value) = c.named n r e' in
        (here, lookup-delete_ne rec.token r.token p.by_value (token_apart n r other e') ∙ value);
    valued = λ t r e.
        let (other, e') = lookup-delete-some rec.token t p.by_value e in
        let (here, value) = c.valued t r e' in
        (
          here,
          lookup-delete_ne name r.container p.tokens (name_apart t r other here value) ∙ value,
        );
    leased = λ n r e.
        let (other, e') = lookup-delete-some name n p.tokens e in
        let (given, live_lease) = c.leased n r e' in (given, still_live n r other e' live_lease);
    distinct = λ n m r s e f.
        c.distinct n m r s (lookup-delete-some name n p.tokens e).1
          (lookup-delete-some name m p.tokens f).1;
    spent = λ l e. spent_lease l e;
  }

pub remove_token-IsConsistent :
    (name : Str) (p : Proxy) → IsConsistent p → IsConsistent (remove_token name p)
unfolding remove_token
remove_token-IsConsistent name p c = elim (Option-cases (lookup name p.tokens)) [
  | inl e ↦ rw (e, remove_token) c
  | inr (rec, e) ↦ rw (e, remove_token) (drop_record-IsConsistent name p c rec e)
]

-- The loops of tokens.go and case_generation.go keep the invariant.
pub remove_where-IsConsistent :
    (test : TokenRecord → Bool) (p : Proxy) → IsConsistent p → IsConsistent (remove_where test p)
remove_where-IsConsistent test p c =
    remove_where_keeps IsConsistent remove_token-IsConsistent test p c
