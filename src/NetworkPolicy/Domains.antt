-- ===== src/NetworkPolicy/Domains.antt =====
-- domainIndex, indexDomains, matches and DomainWithin of internal/networkpolicy/policy.go.
pub mod Coverage
pub mod Within
use sandbox_codex.Common.{
  Bool, List, Result, Str, [], any, codes, cut_prefix, false, has_suffix, if◌then◌else◌, none, not,
  ok, some, str_eq, true, ◌&&◌, ◌==◌, ◌>>=◌, ◌||◌, ◌∷◌,
}
use sandbox_codex.NetworkPolicy.Host.{HostError, parse_domain}
use sandbox_codex.NetworkPolicy.Netip.{Netip}

-- The keys of the two sets.
pub record DomainIndex : Type 0 where
  pub exact : List Str
  pub suffix : List Str

abbrev pub member : Str → List Str → Bool
member k ks = any (λ j. str_eq j k) ks

abbrev pub is_literal : Netip → Str → Bool
is_literal nip s = elim (nip.parse_addr s) [ none ↦ false | some a ↦ true ]

-- What one entry adds to the index.
abbrev pub add_domain : Netip → DomainIndex → Str × Bool → DomainIndex
add_domain nip index (domain, exact) = record {
  exact = domain ∷ index.exact;
  suffix = if not (is_literal nip domain) && not exact then domain ∷ index.suffix else index.suffix;
}

unfoldable pub index_domains : Netip → List Str → DomainIndex
index_domains nip [] = record { exact = []; suffix = [] }
index_domains nip (d ∷ ds) = add_domain nip (index_domains nip ds) (cut_prefix (codes "=") d)

-- The loop of `matches`: the walk to the next dot and the slice behind it are one recursion.
unfoldable pub matches_suffix : List Str → Str → Bool
matches_suffix keys [] = false
matches_suffix keys (c ∷ s) =
    let rest = matches_suffix keys s in if c == b'.' then member s keys || rest else rest

unfoldable pub matches : DomainIndex → Str → Bool
unfolding matches_suffix
matches index host = member host index.exact || matches_suffix index.suffix host

abbrev pub within : Netip → Str × Bool → Str × Bool → Bool
within nip (c, child_exact) (p, parent_exact) =
    if parent_exact || is_literal nip p
    then (child_exact || is_literal nip c) && str_eq c p
    else str_eq c p || has_suffix (b'.' ∷ p) c

unfoldable pub domain_within : Netip → Str → Str → Result HostError Bool
domain_within nip child parent = do
  c ← parse_domain nip child
  p ← parse_domain nip parent
  ok (within nip c p)
