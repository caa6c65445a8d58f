-- ===== src/AuthProxy/State/Removal.antt =====
-- What the removal of tokens leaves in the two indexes (internal/authproxy/tokens.go).
use sandbox_codex.AuthProxy.State.{
  Proxy, TokenRecord, remove_each, remove_if, remove_token, remove_where,
}
use sandbox_codex.Common.{
  Bool, Bool-cases, List, Option, Option-cases, Str, [], ap, arith, false, if◌then◌else◌, inl, inr,
  lookup, lookup-delete, none, refl, some, str_eq, str_eq_iff, true, ◌||◌, ◌∙◌, ◌∷◌, ◌≡◌,
}

-- The record under a name, unless it passes the test.
abbrev pub survivor : (TokenRecord → Bool) → Option TokenRecord → Option TokenRecord
survivor test none = none
survivor test (some rec) = if test rec then none else some rec

pub lookup-remove_token :
    (name n : Str) (p : Proxy)
    → lookup n (remove_token name p).tokens ≡ (if str_eq name n then none else lookup n p.tokens)
unfolding remove_token
lookup-remove_token name n p = elim (Option-cases (lookup name p.tokens)) [
  | inl e ↦ rw (e, remove_token) (ground (arith, str_eq_iff name n))
  | inr (rec, e) ↦ rw (e, remove_token) (lookup-delete name n p.tokens)
]

pub by_value-remove_token :
    (name t : Str) (p : Proxy)
    → lookup t (remove_token name p).by_value ≡ elim (lookup name p.tokens) [
      | none ↦ lookup t p.by_value
      | some rec ↦ if str_eq rec.token t then none else lookup t p.by_value
    ]
unfolding remove_token
by_value-remove_token name t p = elim (Option-cases (lookup name p.tokens)) [
  | inl e ↦ rw (e, remove_token)
  | inr (rec, e) ↦ rw (e, remove_token) (lookup-delete rec.token t p.by_value)
]

abbrev pub has_key : Str → List (Str × TokenRecord) → Bool
has_key n [] = false
has_key n ((k, _) ∷ es) = str_eq k n || has_key n es

pub lookup-has_key :
    (n : Str) (es : List (Str × TokenRecord)) (r : TokenRecord)
    → lookup n es ≡ some r
    → has_key n es ≡ true
unfolding lookup
lookup-has_key n [] r e = cc
lookup-has_key n ((k, v) ∷ es) r e = ground (arith, lookup-has_key n es r)

-- A record is gone after its own name was visited and it passed the test.
abbrev pub after_visit : (TokenRecord → Bool) → Bool → Option TokenRecord → Option TokenRecord
after_visit test visited o = if visited then survivor test o else o

module _ (test : TokenRecord → Bool) (name n : Str) (p : Proxy) where
  lookup-visited :
      (o : Option TokenRecord)
      → lookup name p.tokens ≡ o
      → lookup n (remove_if test name o p).tokens
        ≡ after_visit test (str_eq name n) (lookup n p.tokens)
  lookup-visited none e = elim (Bool-cases (str_eq name n)) [
    | inl same ↦
        let absent : lookup n p.tokens ≡ none = rw (← (str_eq_iff name n).0 same) e in
        rw (same, absent)
    | inr other ↦ rw other
  ]
  lookup-visited (some rec) e = elim (Bool-cases (test rec)) [
    | inl out ↦ elim (Bool-cases (str_eq name n)) [
      | inl same ↦
          let present : lookup n p.tokens ≡ some rec = rw (← (str_eq_iff name n).0 same) e in
          let gone = lookup-remove_token name n p in rw (same, present, out, gone, same)
      | inr other ↦ let kept = lookup-remove_token name n p in rw (out, other, kept, other)
    ]
    | inr stays ↦ elim (Bool-cases (str_eq name n)) [
      | inl same ↦
          let present : lookup n p.tokens ≡ some rec = rw (← (str_eq_iff name n).0 same) e in
          rw (same, stays, present, stays)
      | inr other ↦ rw (stays, other)
    ]
  ]

after_visit-after_visit :
    (test : TokenRecord → Bool) (a b : Bool) (o : Option TokenRecord)
    → after_visit test b (after_visit test a o) ≡ after_visit test (a || b) o
after_visit-after_visit test a b none = ground arith
after_visit-after_visit test a b (some rec) = ground arith

lookup-remove_each :
    (test : TokenRecord → Bool) (n : Str) (es : List (Str × TokenRecord)) (p : Proxy)
    → lookup n (remove_each test es p).tokens ≡ after_visit test (has_key n es) (lookup n p.tokens)
unfolding remove_each
lookup-remove_each test n [] p = refl
lookup-remove_each test n ((k, v) ∷ es) p =
    let o = lookup k p.tokens in
    lookup-remove_each test n es (remove_if test k o p)
    ∙ (ap (after_visit test (has_key n es)) (lookup-visited test k n p o refl)
        ∙ after_visit-after_visit test (str_eq k n) (has_key n es) (lookup n p.tokens))

-- The loop removes the records that pass the test, and no other.
pub lookup-remove_where :
    (test : TokenRecord → Bool) (n : Str) (p : Proxy)
    → lookup n (remove_where test p).tokens ≡ survivor test (lookup n p.tokens)
unfolding remove_where
lookup-remove_where test n p = elim (Option-cases (lookup n p.tokens)) [
  | inl e ↦ lookup-remove_each test n p.tokens p ∙ rw e (ground arith)
  | inr (r, e) ↦ lookup-remove_each test n p.tokens p ∙ rw (lookup-has_key n p.tokens r e, e)
]

module _ {ℓ} (P : Proxy → Type ℓ)
    (step : (name : Str) (q : Proxy) → P q → P (remove_token name q)) where
  -- What each removal keeps, the loop keeps.
  remove_if_keeps :
      (test : TokenRecord → Bool) (name : Str) (o : Option TokenRecord) (p : Proxy)
      → P p
      → P (remove_if test name o p)
  remove_if_keeps test name none p h = h
  remove_if_keeps test name (some rec) p h = elim (Bool-cases (test rec)) [
    | inl out ↦ rw out (step name p h)
    | inr stays ↦ rw stays h
  ]

  remove_each_keeps :
      (test : TokenRecord → Bool) (es : List (Str × TokenRecord)) (p : Proxy)
      → P p
      → P (remove_each test es p)
  unfolding remove_each
  remove_each_keeps test [] p h = h
  remove_each_keeps test ((k, v) ∷ es) p h =
      remove_each_keeps test es (remove_if test k (lookup k p.tokens) p)
        (remove_if_keeps test k (lookup k p.tokens) p h)

  pub remove_where_keeps : (test : TokenRecord → Bool) (p : Proxy) → P p → P (remove_where test p)
  unfolding remove_where
  remove_where_keeps test p h = remove_each_keeps test p.tokens p h
