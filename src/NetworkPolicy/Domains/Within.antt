-- ===== src/NetworkPolicy/Domains/Within.antt =====
-- DomainWithin of internal/networkpolicy/policy.go decides the inclusion of what two rules cover.
use sandbox_codex.Common.{
  Bool, Bool-cases, Str, [], ap, append_assoc, arith, false, has_suffix, has_suffix_iff, inl, inr,
  length, ok, refl, str_eq_iff, subst, sym, true, ◌++◌, ◌||◌, ◌↔◌, ◌∙◌, ◌∷◌, ◌≡◌, ◌≢◌, ◌⊎◌,
}
use sandbox_codex.NetworkPolicy.Domains.{domain_within, is_literal, within}
use sandbox_codex.NetworkPolicy.Domains.Coverage.{Covers, IsSubdomain}
use sandbox_codex.NetworkPolicy.Host.{parse_domain}
use sandbox_codex.NetworkPolicy.Netip.{Netip}

IsSubdomain-trans : (h c p : Str) → IsSubdomain h c → IsSubdomain c p → IsSubdomain h p
IsSubdomain-trans h c p (q, e) (r, d) =
    (q ++ b'.' ∷ r, rw (e, d) (sym (append_assoc q (b'.' ∷ r) (b'.' ∷ p))))

longer : (c : Str) → (b'x' ∷ b'.' ∷ c) ≢ c
longer c e = absurd (omega (arith, ap length e))

module _ (nip : Netip) where
  -- The two shapes of inclusion that the code tests for.
  within_cases :
      (c p : Str) (child_exact parent_exact : Bool)
      → within nip (c, child_exact) (p, parent_exact) ≡ true
      → ((c ≡ p) × ((child_exact ≡ true) ⊎ (is_literal nip c ≡ true)))
        ⊎ ((parent_exact ≡ false) × (is_literal nip p ≡ false) × ((c ≡ p) ⊎ IsSubdomain c p))
  within_cases c p child_exact parent_exact e = elim (Bool-cases (has_suffix (b'.' ∷ p) c)) [
    | inl suffix ↦
        let sub = (has_suffix_iff (b'.' ∷ p) c).0 suffix in ground (arith, str_eq_iff c p)
    | inr other ↦ ground (arith, str_eq_iff c p)
  ]

  within_sound :
      (c p : Str) (child_exact parent_exact : Bool) (host : Str)
      → within nip (c, child_exact) (p, parent_exact) ≡ true
      → Covers nip host (c, child_exact)
      → Covers nip host (p, parent_exact)
  within_sound c p child_exact parent_exact host e cov =
      elim (within_cases c p child_exact parent_exact e) [
        | inl exactly ↦ elim cov [ inl same ↦ inl (same ∙ exactly.0) | inr below ↦ ground arith ]
        | inr loosely ↦ elim loosely.2 [
          | inl eq ↦ elim cov [
            | inl same ↦ inl (same ∙ eq)
            | inr below ↦ inr (loosely.0, loosely.1, subst (IsSubdomain host) eq below.2)
          ]
          | inr sub ↦ elim cov [
            | inl same ↦ inr (loosely.0, loosely.1, subst (λ h. IsSubdomain h p) (sym same) sub)
            | inr below ↦ inr (loosely.0, loosely.1, IsSubdomain-trans host c p below.2 sub)
          ]
        ]
      ]

  within_complete :
      (c p : Str) (child_exact parent_exact : Bool)
      → Covers nip c (p, parent_exact)
      → (child_exact ≡ false
          → is_literal nip c ≡ false
          → Covers nip (b'x' ∷ b'.' ∷ c) (p, parent_exact))
      → within nip (c, child_exact) (p, parent_exact) ≡ true
  within_complete c p child_exact parent_exact (inr sub) below =
      let s = (has_suffix_iff (b'.' ∷ p) c).1 sub.2 in ground arith
  within_complete c p child_exact parent_exact (inl same) below =
      elim (Bool-cases (child_exact || is_literal nip c)) [
        | inl exact ↦ ground (arith, str_eq_iff c p)
        | inr loose ↦ elim (below (ground arith) (ground arith)) [
          | inl e ↦ absurd (longer c (e ∙ sym same))
          | inr h ↦ ground (arith, str_eq_iff c p)
        ]
      ]

  -- The test holds exactly when every host that the child covers is covered by the parent.
  pub within_iff :
      (child parent : Str × Bool)
      → (within nip child parent ≡ true)
        ↔ ((host : Str) → Covers nip host child → Covers nip host parent)
  within_iff (c, child_exact) (p, parent_exact) = (
    (λ e host cov. within_sound c p child_exact parent_exact host e cov),
    (λ h.
        within_complete c p child_exact parent_exact (h c (inl refl))
          (λ loose name. h (b'x' ∷ b'.' ∷ c) (inr (loose, name, (b'x' ∷ [], refl))))),
  )

  -- DomainWithin on two rules that parse answers yes exactly when each host that the first covers
  -- is covered by the second.
  pub domain_within_iff :
      (child parent : Str) (c p : Str × Bool)
      → parse_domain nip child ≡ ok c
      → parse_domain nip parent ≡ ok p
      → (domain_within nip child parent ≡ ok true)
        ↔ ((host : Str) → Covers nip host c → Covers nip host p)
  unfolding domain_within
  domain_within_iff child parent c p hc hp =
      let same : domain_within nip child parent ≡ ok (within nip c p) = rw (hc, hp) in
      let (to, from) = within_iff c p in rw same ((λ e. to (cc)), (λ h. ap ok (from h)))
