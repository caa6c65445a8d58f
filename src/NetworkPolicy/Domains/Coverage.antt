-- ===== src/NetworkPolicy/Domains/Coverage.antt =====
-- What a domain rule covers, and that the index and DomainWithin decide it
-- (internal/networkpolicy/policy.go).
use sandbox_codex.Common.{
  Any, Any-and, Any-mono, Any-or, Bool, Bool-cases, List, Str, [], any-Any, ap, arith, codes,
  cut_prefix, false, if◌then◌else◌, inl, inr, not, refl, str_eq, str_eq_iff, sym, true, ℕ, ◌&&◌,
  ◌++◌, ◌↔◌, ◌∷◌, ◌≡◌, ◌⊎◌,
}
use sandbox_codex.NetworkPolicy.Domains.{index_domains, is_literal, matches, matches_suffix, member}
use sandbox_codex.NetworkPolicy.Netip.{Netip}

-- The host is the domain with something and a dot in front.
abbrev pub IsSubdomain : Str → Str → Type 0
IsSubdomain host domain = (q : Str) × (host ≡ q ++ b'.' ∷ domain)

-- The hosts that a domain, exact or not, stands for: itself, and its subdomains unless it is exact
-- or an address.
abbrev pub Covers : Netip → Str → Str × Bool → Type 0
Covers nip host (domain, exact) =
    (host ≡ domain) ⊎ ((exact ≡ false) × (is_literal nip domain ≡ false) × IsSubdomain host domain)

-- The same of an entry of the compiled list, whose "=" marks an exact domain.
abbrev pub CoversEntry : Netip → Str → Str → Type 0
CoversEntry nip host entry = Covers nip host (cut_prefix (codes "=") entry)

member_iff : (k : Str) (ks : List Str) → (member k ks ≡ true) ↔ Any (λ j. j ≡ k) ks
member_iff k ks = any-Any (λ j. j ≡ k) (λ j. str_eq j k) (λ j. str_eq_iff j k) ks

IsSubdomain-cons :
    (c : ℕ) (s k : Str) → IsSubdomain (c ∷ s) k → ((c ≡ b'.') × (k ≡ s)) ⊎ IsSubdomain s k
IsSubdomain-cons c s k ([], e) = inl (ground arith, ground arith)
IsSubdomain-cons c s k (b ∷ q, e) = inr (q, ground arith)

cons-IsSubdomain :
    (c : ℕ) (s k : Str) → ((c ≡ b'.') × (k ≡ s)) ⊎ IsSubdomain s k → IsSubdomain (c ∷ s) k
cons-IsSubdomain c s k (inl (dot, e)) = ([], ground arith)
cons-IsSubdomain c s k (inr (q, e)) = (c ∷ q, ap (λ t. c ∷ t) e)

not-IsSubdomain-nil : (k : Str) → IsSubdomain [] k → ⊥
not-IsSubdomain-nil k ([], e) = cc
not-IsSubdomain-nil k (b ∷ q, e) = cc

matches_suffix-cons :
    (keys : List Str) (c : ℕ) (s : Str)
    → (matches_suffix keys (c ∷ s) ≡ true)
      ↔ (((c ≡ b'.') × (member s keys ≡ true)) ⊎ (matches_suffix keys s ≡ true))
unfolding matches_suffix
matches_suffix-cons keys c s = ground arith

-- The loop over the dots finds exactly the keys of which the host is a subdomain.
pub matches_suffix_iff :
    (keys : List Str) (host : Str) → (matches_suffix keys host ≡ true) ↔ Any (IsSubdomain host) keys
unfolding matches_suffix
matches_suffix_iff keys [] = ((λ e. cc), (λ a. absurd (none_of keys a)))
  where
    none_of : (ks : List Str) → Any (IsSubdomain []) ks → ⊥
    none_of [] a = a
    none_of (k ∷ ks) (inl h) = not-IsSubdomain-nil k h
    none_of (k ∷ ks) (inr a) = none_of ks a
matches_suffix_iff keys (c ∷ s) =
    let step = matches_suffix-cons keys c s in
    let ih = matches_suffix_iff keys s in
    let here = λ (k : Str). λ (h : (c ≡ b'.') × (k ≡ s)). cons-IsSubdomain c s k (inl h) in
    let later = λ (k : Str). λ (h : IsSubdomain s k). cons-IsSubdomain c s k (inr h) in
    (
      (λ e. elim (step.0 e) [
        | inl (dot, m) ↦
            Any-mono (λ k. k ≡ s) (IsSubdomain (c ∷ s)) (λ k h. here k (dot, h)) keys
              ((member_iff s keys).0 m)
        | inr r ↦ Any-mono (IsSubdomain s) (IsSubdomain (c ∷ s)) later keys (ih.0 r)
      ]),
      (λ a.
          let b =
            Any-mono (IsSubdomain (c ∷ s)) (λ k. ((c ≡ b'.') × (k ≡ s)) ⊎ IsSubdomain s k)
              (λ k h. IsSubdomain-cons c s k h) keys a in
          elim (Any-or (λ k. (c ≡ b'.') × (k ≡ s)) (IsSubdomain s) keys b) [
            | inl m ↦
                let (dot, m') = Any-and (λ k. k ≡ s) (c ≡ b'.') keys m in
                step.1 (inl (dot, (member_iff s keys).1 m'))
            | inr r ↦ step.1 (inr (ih.1 r))
          ]),
    )

module _ (nip : Netip) (host : Str) where
  -- The two ways in which an entry covers the host.
  abbrev ExactEntry : Str → Type 0
  ExactEntry entry = host ≡ (cut_prefix (codes "=") entry).0

  abbrev SuffixEntry : Str → Type 0
  SuffixEntry entry =
      let d = cut_prefix (codes "=") entry in
      (d.1 ≡ false) × (is_literal nip d.0 ≡ false) × IsSubdomain host d.0

  index_exact_iff :
      (ds : List Str) → Any (λ j. j ≡ host) (index_domains nip ds).exact ↔ Any ExactEntry ds
  unfolding index_domains
  index_exact_iff [] = ((λ a. a), (λ a. a))
  index_exact_iff (d ∷ ds) = (
    (λ a. elim a [ inl e ↦ inl (sym e) | inr b ↦ inr ((index_exact_iff ds).0 b) ]),
    (λ a. elim a [ inl e ↦ inl (sym e) | inr b ↦ inr ((index_exact_iff ds).1 b) ]),
  )

  Any-add :
      (keep : Bool) (k : Str) (ks : List Str)
      → Any (IsSubdomain host) (if keep then k ∷ ks else ks)
        ↔ (((keep ≡ true) × IsSubdomain host k) ⊎ Any (IsSubdomain host) ks)
  Any-add true k ks = (
    (λ a. elim a [ inl h ↦ inl (refl, h) | inr b ↦ inr b ]),
    (λ a. elim a [ inl h ↦ inl h.1 | inr b ↦ inr b ]),
  )
  Any-add false k ks = ((λ a. inr a), (λ a. elim a [ inl h ↦ cc (h.0) | inr b ↦ b ]))

  index_suffix_iff :
      (ds : List Str) → Any (IsSubdomain host) (index_domains nip ds).suffix ↔ Any SuffixEntry ds
  unfolding index_domains
  index_suffix_iff [] = ((λ a. a), (λ a. a))
  index_suffix_iff (d ∷ ds) =
      let (k, exact) = cut_prefix (codes "=") d in
      let add = Any-add (not (is_literal nip k) && not exact) k (index_domains nip ds).suffix in
      (
        (λ a. elim (add.0 a) [
          | inl h ↦ inl (ground arith, ground arith, h.1)
          | inr b ↦ inr ((index_suffix_iff ds).0 b)
        ]),
        (λ a. elim a [
          | inl h ↦ add.1 (inl (ground arith, h.2))
          | inr b ↦ add.1 (inr ((index_suffix_iff ds).1 b))
        ]),
      )

  -- The compiled index matches a host exactly when some entry covers it.
  pub matches-index_domains :
      (ds : List Str) → (matches (index_domains nip ds) host ≡ true) ↔ Any (CoversEntry nip host) ds
  unfolding matches
  matches-index_domains ds =
      let index = index_domains nip ds in
      let exacts = member_iff host index.exact in
      let suffixes = matches_suffix_iff index.suffix host in
      (
        (λ e. elim (Bool-cases (member host index.exact)) [
          | inl m ↦
              Any-mono ExactEntry (CoversEntry nip host) (λ d h. inl h) ds
                ((index_exact_iff ds).0 (exacts.0 m))
          | inr m ↦
              Any-mono SuffixEntry (CoversEntry nip host) (λ d h. inr h) ds
                ((index_suffix_iff ds).0 (suffixes.0 (ground arith)))
        ]),
        (λ a. elim (Any-or ExactEntry SuffixEntry ds a) [
          | inl b ↦ let m = exacts.1 ((index_exact_iff ds).1 b) in ground arith
          | inr b ↦ let m = suffixes.1 ((index_suffix_iff ds).1 b) in ground arith
        ]),
      )
