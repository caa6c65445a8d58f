-- ===== src/WorkerEgress/Entries.antt =====
-- The entries of a compiled allowlist against the rules that they come from: what a worker's entry
-- covers, the entry of the host covers (internal/workeregress/policy.go).
-- What the "=" mark relies on in netip: no address prints as a text that begins with "=".
use sandbox_codex.Common.{
  &&-eq-true, ==_iff, >>=-eq-ok, Any, Bool, Bool-cases, List, Result, Result-cases, Str, [], all,
  ap, arith, codes, cut_prefix, err, false, has_prefix, if◌then◌else◌, inl, inr, ok, refl, subst,
  sym, trim_prefix, trim_space, true, ◌==◌, ◌∙◌, ◌∷◌, ◌≡◌, ◌≢◌,
}
use sandbox_codex.NetworkPolicy.{PolicyError, bad_domain_rule}
use sandbox_codex.NetworkPolicy.Compile.{compile_domain, spell}
use sandbox_codex.NetworkPolicy.Domains.{domain_within}
use sandbox_codex.NetworkPolicy.Domains.Coverage.{Covers, CoversEntry}
use sandbox_codex.NetworkPolicy.Domains.Within.{domain_within_iff}
use sandbox_codex.NetworkPolicy.Host.{
  HostError, grow_label, labels, normalize_host, parse_domain, valid_label, valid_name,
}
use sandbox_codex.NetworkPolicy.Host.Canonical.{normalize_host_cases, normalize_name_canonical}
use sandbox_codex.NetworkPolicy.Netip.{Addr, Netip, unmap}
use sandbox_codex.WorkerEgress.{check_domain, within_some}

pub record IsUnmarked (nip : Netip) : Type 0 where
  pub plain : (a : Addr) → has_prefix (codes "=") (nip.format a) ≡ false

marked_label : (s : Str) → valid_label (b'=' ∷ s) ≡ false
marked_label s = ground arith

grown_label : (ls : List Str) → all valid_label (grow_label b'=' ls) ≡ false
grown_label [] = refl
grown_label (l ∷ ls) = rw (marked_label l) refl

valid_name_plain : (s : Str) → valid_name s ≡ true → has_prefix (codes "=") s ≡ false
unfolding valid_name labels
valid_name_plain [] e = refl
valid_name_plain (c ∷ s) e = elim (Bool-cases (b'=' == c)) [
  | inr other ↦ rw other
  | inl mark ↦
      let same = (==_iff b'=' c).0 mark in
      let whole = (&&-eq-true _ (all valid_label (labels (c ∷ s))) e).1 in
      let wrong = subst (λ k. all valid_label (labels (k ∷ s)) ≡ true) (sym same) whole in
      cc (wrong, grown_label (labels s))
]

normalize_host_plain :
    (nip : Netip) (host s : Str)
    → IsUnmarked nip
    → normalize_host nip host ≡ ok s
    → has_prefix (codes "=") s ≡ false
normalize_host_plain nip host s law e = elim (normalize_host_cases nip host s e) [
  | inl name ↦ valid_name_plain s (normalize_name_canonical host s name).0
  | inr (a, _, _, printed) ↦ rw (← printed) (law.plain (unmap a))
]

-- The compiled entry of a rule, taken apart, is the rule as it parses.
cut-spell :
    (nip : Netip) (value host : Str) (exact : Bool)
    → IsUnmarked nip
    → parse_domain nip value ≡ ok (host, exact)
    → cut_prefix (codes "=") (spell (host, exact)) ≡ (host, exact)
unfolding parse_domain
cut-spell nip value host true law e = refl
cut-spell nip value host false law e =
    let q = cut_prefix (codes "=") (trim_space value) in
    let (h, found, rest) =
      >>=-eq-ok (normalize_host nip (if q.1 then q.0 else trim_prefix (codes ".") q.0)) _ e in
    let same : h ≡ host = cc rest in
    let plain =
      normalize_host_plain nip (if q.1 then q.0 else trim_prefix (codes ".") q.0) h law found in
    rw (← same, plain) refl

compiled_entry :
    (value entry : Str) (parsed : Result HostError (Str × Bool))
    → (elim parsed as (λ _. Result PolicyError Str) [
      | ok d ↦ ok (spell d)
      | err e ↦ err (bad_domain_rule value)
    ])
      ≡ ok entry
    → (d : Str × Bool) × (parsed ≡ ok d) × (spell d ≡ entry)
compiled_entry value entry (ok d) e = (d, refl, cc e)
compiled_entry value entry (err x) e = cc e

compile_domain-parses :
    (nip : Netip) (value entry : Str)
    → IsUnmarked nip
    → compile_domain nip value ≡ ok entry
    → (d : Str × Bool) × (parse_domain nip value ≡ ok d) × (cut_prefix (codes "=") entry ≡ d)
compile_domain-parses nip value entry law e =
    let ((host, exact), parsed, one) = compiled_entry value entry (parse_domain nip value) e in
    (
      (host, exact),
      parsed,
      subst (λ k. cut_prefix (codes "=") k ≡ (host, exact)) one
          (cut-spell nip value host exact law parsed),
    )

within_some_found :
    (nip : Netip) (domain : Str) (others : List Str)
    → within_some nip domain others ≡ ok true
    → Any (λ a. domain_within nip domain a ≡ ok true) others
unfolding within_some
within_some_found nip domain [] e = cc
within_some_found nip domain (a ∷ others) e =
    let (w, found, rest) = >>=-eq-ok (domain_within nip domain a) _ e in
    elim (Bool-cases w) [
      | inl yes_within ↦ inl (rw (← yes_within) found)
      | inr beyond ↦ inr (within_some_found nip domain others (rw beyond at rest))
    ]

pub check_domain_found :
    (nip : Netip) (host_domains : List Str) (domain : Str)
    → host_domains ≢ []
    → check_domain nip host_domains domain ≡ ok tt
    → Any (λ a. domain_within nip domain a ≡ ok true) host_domains
check_domain_found nip [] domain some_bound e = absurd (some_bound refl)
check_domain_found nip (a ∷ others) domain some_bound e =
    elim (Result-cases (within_some nip domain (a ∷ others))) [
      | inr (x, failed) ↦ cc (rw failed at e)
      | inl (w, found) ↦ elim (Bool-cases w) [
        | inl inside ↦ within_some_found nip domain (a ∷ others) (found ∙ ap ok inside)
        | inr beyond ↦ cc (rw (found, beyond) at e)
      ]
    ]

-- What a worker's entry covers, an entry of the host covers, if the worker's rule is within it.
pub covers_within :
    (nip : Netip) (host domain parent child_entry parent_entry : Str)
    → IsUnmarked nip
    → compile_domain nip domain ≡ ok child_entry
    → compile_domain nip parent ≡ ok parent_entry
    → domain_within nip domain parent ≡ ok true
    → CoversEntry nip host child_entry
    → CoversEntry nip host parent_entry
covers_within nip host domain parent child_entry parent_entry law ce pe inside cov =
    let (c, child, child_cut) = compile_domain-parses nip domain child_entry law ce in
    let (p, above, parent_cut) = compile_domain-parses nip parent parent_entry law pe in
    let covered : Covers nip host c = subst (Covers nip host) child_cut cov in
    subst (Covers nip host) (sym parent_cut)
      ((domain_within_iff nip domain parent c p child above).0 inside host covered)
