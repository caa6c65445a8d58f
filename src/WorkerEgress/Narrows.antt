-- ===== src/WorkerEgress/Narrows.antt =====
-- A worker's egress policy lets through no more than the policy of the host
-- (internal/workeregress/policy.go on internal/networkpolicy/policy.go).
-- What Rules has checked when it returns.
use sandbox_codex.Common.{
  >>=-eq-ok, Any, Any-map_result, Any-mono, Bool-cases, List, Str, [], ap, arith, ensure, false,
  for_each, for_each_passed, inl, inr, map_result, map_result-Any, map_result_nil, not, ok, subst,
  true, ℕ, ◌∙◌, ◌≡◌, ◌≢◌,
}
use sandbox_codex.NetworkPolicy.{Destination, live}
use sandbox_codex.NetworkPolicy.Check.{check_address, check_destination, is_nil}
use sandbox_codex.NetworkPolicy.Check.Grants.{
  Admits, GrantsHost, GrantsIp, HasGrant, IsRefused, check_address_iff, check_destination_iff,
}
use sandbox_codex.NetworkPolicy.Compile.{Compiled, Rules, compile, compile_cidr, compile_domain}
use sandbox_codex.NetworkPolicy.Compile.Parts.{IsCompiled, compile-IsCompiled, compile-IsIndexed}
use sandbox_codex.NetworkPolicy.Domains.{domain_within}
use sandbox_codex.NetworkPolicy.Domains.Coverage.{CoversEntry}
use sandbox_codex.NetworkPolicy.Netip.{Addr, Netip, contains, unmap}
use sandbox_codex.WorkerEgress.{
  check_domain, compiles, empty_allowlist, host_grants_none, narrowed, rules_grant, worker_rules,
}
use sandbox_codex.WorkerEgress.Entries.{IsUnmarked, check_domain_found, covers_within}

record IsNarrowed (nip : Netip) (host : Rules) (domains : List Str) : Type 0 where
  nonempty : is_nil domains ≡ false
  grants : rules_grant host ≡ true
  inside : for_each (check_domain nip host.allow_domains) domains ≡ ok tt

worker_rules-IsNarrowed :
    (nip : Netip) (host : Rules) (domains : List Str) {r : Rules}
    → worker_rules nip host domains ≡ ok r
    → IsNarrowed nip host domains × (r ≡ narrowed host domains)
unfolding worker_rules
worker_rules-IsNarrowed nip host domains e =
    let (_, some_domain, e₁) = >>=-eq-ok (ensure (not (is_nil domains)) empty_allowlist) _ e in
    let (_, _, e₂) = >>=-eq-ok (compiles nip host) _ e₁ in
    let (_, some_grant, e₃) = >>=-eq-ok (ensure (rules_grant host) host_grants_none) _ e₂ in
    let (_, all_inside, e₄) =
      >>=-eq-ok (for_each (check_domain nip host.allow_domains) domains) _ e₃ in
    let (_, _, e₅) = >>=-eq-ok (compiles nip (narrowed host domains)) _ e₄ in
    (record { nonempty = ground arith; grants = ground arith; inside = all_inside }, cc e₅)

-- All that the first policy lets through, in a context that is live, the second does too.
abbrev pub PassesLess : Netip → Compiled → Compiled → Type 0
PassesLess nip p hp =
    (d : Destination)
    → (check_destination nip p live d ≡ ok tt → check_destination nip hp live d ≡ ok tt)
      × ((ip : Addr) → check_address p live d ip ≡ ok tt → check_address hp live d ip ≡ ok tt)

module _ (nip : Netip) (host : Rules) (domains : List Str) (law : IsUnmarked nip) where
  module _ (inside : for_each (check_domain nip host.allow_domains) domains ≡ ok tt) where
    -- A host that one of the narrowed entries covers is covered by an entry of the host policy.
    domain_covered :
        (name : Str) (child_entries parent_entries : List Str)
        → host.allow_domains ≢ []
        → map_result (compile_domain nip) domains ≡ ok child_entries
        → map_result (compile_domain nip) host.allow_domains ≡ ok parent_entries
        → Any (CoversEntry nip name) child_entries
        → Any (CoversEntry nip name) parent_entries
    domain_covered name child_entries parent_entries bounded children parents covered =
        let from_rule =
          Any-map_result (compile_domain nip) (CoversEntry nip name) domains child_entries children
            covered in
        let (domain, passed, (entry, compiled, covers)) =
          for_each_passed (λ x. (y : Str) × (compile_domain nip x ≡ ok y) × CoversEntry nip name y)
            (check_domain nip host.allow_domains) domains inside from_rule in
        map_result-Any (compile_domain nip) (CoversEntry nip name) host.allow_domains parent_entries
          parents
          (Any-mono (λ a. domain_within nip domain a ≡ ok true)
            (λ a. (y : Str) → compile_domain nip a ≡ ok y → CoversEntry nip name y)
            (λ parent found parent_entry above.
              covers_within nip name domain parent entry parent_entry law compiled above found
                covers)
            host.allow_domains (check_domain_found nip host.allow_domains domain bounded passed))

  module _ (hp p : Compiled) (hc : IsCompiled nip host hp)
      (pc : IsCompiled nip (narrowed host domains) p) where
    host_granted : rules_grant host ≡ true → HasGrant hp
    host_granted grants = elim (Bool-cases host.default_deny) [
      | inr open_host ↦ inl (hc.default_deny ∙ open_host)
      | inl closed ↦ elim (Bool-cases (is_nil host.allow_domains)) [
        | inr some_domain ↦ inr (
            inl (λ none. cc (
              some_domain,
              map_result_nil (compile_domain nip) host.allow_domains
                  (hc.allow_domains ∙ ap ok none),
            )))
        | inl no_domain ↦ inr (
            inr (λ none.
              let no_cidr =
                map_result_nil (compile_cidr nip) host.allow_cidrs (hc.allow_cidrs ∙ ap ok none) in
              ground arith))
      ]
    ]

    deny_same : (p.deny_domains ≡ hp.deny_domains) × (p.deny_ports ≡ hp.deny_ports)
    deny_same = (cc (pc.deny_domains, hc.deny_domains), cc (pc.deny_ports, hc.deny_ports))

    cidrs_same : (p.deny_cidrs ≡ hp.deny_cidrs) × (p.allow_cidrs ≡ hp.allow_cidrs)
    cidrs_same = (cc (pc.deny_cidrs, hc.deny_cidrs), cc (pc.allow_cidrs, hc.allow_cidrs))

    ports_same : p.allow_ports ≡ hp.allow_ports
    ports_same = cc (pc.allow_ports, hc.allow_ports)

    host_open : is_nil host.allow_domains ≡ true → hp.allow_domains ≡ []
    unfolding map_result
    host_open e =
        let none : host.allow_domains ≡ [] = ground arith in
        let compiled =
          subst (λ xs. map_result (compile_domain nip) xs ≡ ok hp.allow_domains) none
            hc.allow_domains in
        cc compiled

    host_admits :
        (name : Str)
        → IsNarrowed nip host domains
        → Admits (CoversEntry nip name) p.allow_domains
        → Admits (CoversEntry nip name) hp.allow_domains
    host_admits name n admitted = elim (Bool-cases (is_nil host.allow_domains)) [
      | inl open_host ↦ inl (host_open open_host)
      | inr bounded ↦ elim admitted [
        | inl no_entry ↦ cc (
          n.nonempty,
          map_result_nil (compile_domain nip) domains (pc.allow_domains ∙ ap ok no_entry),
        )
        | inr covered ↦ inr (
            domain_covered n.inside name p.allow_domains hp.allow_domains
              (λ none. cc (bounded, none)) pc.allow_domains hc.allow_domains covered)
      ]
    ]

    GrantsHost-narrows :
        (name : Str) (port : ℕ)
        → IsNarrowed nip host domains
        → GrantsHost nip p name port
        → GrantsHost nip hp name port
    GrantsHost-narrows name port n g = record {
      not_denied = subst (λ ds. IsRefused (CoversEntry nip name) ds) deny_same.0 g.not_denied;
      port_not_denied = subst (λ ps. IsRefused (λ q. q ≡ port) ps) deny_same.1 g.port_not_denied;
      granted = host_granted n.grants;
      domain = host_admits name n g.domain;
      port = subst (λ ps. Admits (λ q. q ≡ port) ps) ports_same g.port;
    }

    GrantsIp-narrows : (ip : Addr) → IsNarrowed nip host domains → GrantsIp p ip → GrantsIp hp ip
    GrantsIp-narrows ip n g = record {
      granted = host_granted n.grants;
      valid = g.valid;
      no_zone = g.no_zone;
      public = elim g.public [ inl off ↦ cc (off, pc.block_private) | inr outside ↦ inr outside ];
      not_denied = subst (λ ps. IsRefused (λ q. contains q ip ≡ true) ps) cidrs_same.0 g.not_denied;
      allowed = subst (λ ps. Admits (λ q. contains q ip ≡ true) ps) cidrs_same.1 g.allowed;
    }

  -- Where no address prints with a leading "=": when Rules narrows the rules of the host to a list
  -- of domains, the narrowed policy passes no destination and no address, in a context that is
  -- live, that the policy of the host does not pass.
  pub worker_rules_narrows :
      {r : Rules} {hp p : Compiled}
      → worker_rules nip host domains ≡ ok r
      → compile nip host ≡ ok hp
      → compile nip r ≡ ok p
      → PassesLess nip p hp
  worker_rules_narrows {r} {hp} {p} made host_compiled compiled d =
      let (n, same) = worker_rules-IsNarrowed nip host domains made in
      let hc = compile-IsCompiled nip host host_compiled in
      let pc = subst (λ k. IsCompiled nip k p) same (compile-IsCompiled nip r compiled) in
      let above = check_destination_iff nip hp d (compile-IsIndexed nip host host_compiled) in
      let below = check_destination_iff nip p d (compile-IsIndexed nip r compiled) in
      (
        (λ e.
            let (name, canonical, nonzero, grants) = below.0 e in
            above.1 (name, canonical, nonzero, GrantsHost-narrows hp p hc pc name d.port n grants)),
        (λ ip e.
            (check_address_iff hp d ip).1
              (GrantsIp-narrows hp p hc pc (unmap ip) n ((check_address_iff p d ip).0 e))),
      )
