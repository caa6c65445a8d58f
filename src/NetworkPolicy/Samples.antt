-- ===== src/NetworkPolicy/Samples.antt =====
-- A small policy, and runs of internal/networkpolicy on it.
use sandbox_codex.Common.{
  All, Any, Bool-cases, List, Str, [], ap, arith, codes, err, false, for_each, if◌then◌else◌, inl,
  inr, map_result, none, ok, pos, refl, some, str_eq, str_eq_iff, subst, sym, true, ℕ, ◌*◌, ◌+◌,
  ◌<◌, ◌^◌, ◌↔◌, ◌∷◌, ◌≡◌, ◌≢◌, ◌≤◌, ◌⊎◌,
}
use sandbox_codex.NetworkPolicy.{Destination, PolicyError, live}
use sandbox_codex.NetworkPolicy.Authority.{
  destination_string, parse_destination, parse_uint16, split_host_port,
}
use sandbox_codex.NetworkPolicy.Authority.Bounds.{parse_destination_bounds}
use sandbox_codex.NetworkPolicy.Authority.Port.{parse_destination-destination_string}
use sandbox_codex.NetworkPolicy.Check.{
  Policy, all_policies, check_address, check_destination, check_host, check_ip, compiled_policy,
  is_private,
}
use sandbox_codex.NetworkPolicy.Check.Combined.{PassesAddress, PassesDestination, all_policies_iff}
use sandbox_codex.NetworkPolicy.Check.Grants.{
  GrantsHost, GrantsIp, IsRefused, check_address_iff, check_destination_iff,
}
use sandbox_codex.NetworkPolicy.Compile.{Compiled, Rules, compile, compile_cidr}
use sandbox_codex.NetworkPolicy.Compile.Parts.{compile-IsIndexed}
use sandbox_codex.NetworkPolicy.Dialer.{Network, checked_addresses, connect_loop, dial_context}
use sandbox_codex.NetworkPolicy.Dialer.Safety.{
  Finishes, IsLeading, IsVetted, checked_addresses-IsVetted, dial_context-IsVetted,
  dial_context_public,
}
use sandbox_codex.NetworkPolicy.Domains.{domain_within, index_domains, matches, matches_suffix}
use sandbox_codex.NetworkPolicy.Domains.Coverage.{Covers, CoversEntry, matches-index_domains}
use sandbox_codex.NetworkPolicy.Domains.Within.{domain_within_iff}
use sandbox_codex.NetworkPolicy.Explain.{answer, explain}
use sandbox_codex.NetworkPolicy.Explain.Agreement.{explain_agrees, granted}
use sandbox_codex.NetworkPolicy.Explain.Allowed.{explain_allows-IsVetted, explain_allows_all}
use sandbox_codex.NetworkPolicy.Host.{
  labels, normalize_host, normalize_name, parse_domain, to_lower, valid_name,
}
use sandbox_codex.NetworkPolicy.Host.Canonical.{
  IsRoundTrip, normalize_host_idempotent, normalize_name_canonical,
}
use sandbox_codex.NetworkPolicy.Netip.{Addr, Netip, contains, has_zone, unmap, v4, v6}
use sandbox_codex.NetworkPolicy.Netip.Ranges.{
  IsPrivateV4, IsPrivateV4-iff, check_address_mapped, compile_cidr_single,
}

abbrev here : Str
here = codes "127.0.0.1"

-- A reader that knows one address.
abbrev sample_netip : Netip
sample_netip = record {
  parse_addr = λ s. if str_eq s here then some (v4 0x7f000001) else none;
  parse_prefix = λ s. none;
  format = λ a. here;
}

abbrev sample_rules : Rules
sample_rules = record {
  allow_domains = codes "a.b" ∷ [];
  deny_domains = [];
  allow_cidrs = [];
  deny_cidrs = [];
  allow_ports = pos 443 ∷ [];
  deny_ports = [];
  block_private = true;
  default_deny = true;
}

abbrev sample_compiled : Compiled
sample_compiled = record {
  allow_domains = codes "a.b" ∷ [];
  deny_domains = [];
  allow_domain_index = record { exact = codes "a.b" ∷ []; suffix = codes "a.b" ∷ [] };
  deny_domain_index = record { exact = []; suffix = [] };
  allow_cidrs = [];
  deny_cidrs = [];
  allow_ports = 443 ∷ [];
  deny_ports = [];
  block_private = true;
  default_deny = true;
}

sample_compiles : compile sample_netip sample_rules ≡ ok sample_compiled
unfolding compile compile_cidr parse_domain normalize_host normalize_name valid_name labels to_lower
    index_domains map_result
sample_compiles = refl

-- The resolver answers 8.8.8.8, and connecting succeeds.
abbrev sample_network : Network
sample_network = record { lookup_ip = λ name. ok (v4 0x08080808 ∷ []); connect = λ ip port. ok 7 }

abbrev sample_destination : Destination
sample_destination = record { host = codes "a.b"; port = 443 }

sample_run :
    (dial_context sample_netip sample_network live
      (some (compiled_policy sample_netip sample_compiled))
      (codes "a.b:443")).attempts
    ≡ v4 0x08080808 ∷ []
unfolding dial_context compiled_policy parse_destination split_host_port parse_uint16 normalize_host
    normalize_name valid_name labels to_lower check_destination check_host check_address check_ip
    matches matches_suffix is_private contains connect_loop checked_addresses for_each
sample_run = refl

dial_context_public_example :
    All
      (λ ip.
        (is_private ip ≡ false) × IsRefused (λ q. contains q ip ≡ true) sample_compiled.deny_cidrs)
      (dial_context sample_netip sample_network live
        (some (compiled_policy sample_netip sample_compiled))
        (codes "a.b:443")).attempts
dial_context_public_example =
    dial_context_public sample_netip sample_network sample_rules sample_compiled (codes "a.b:443")
      sample_compiles refl

abbrev sample_policy : Policy
sample_policy = compiled_policy sample_netip sample_compiled

dial_context-IsVetted_example :
    ((d : Destination) × (ips : List Addr) × IsVetted sample_netip sample_network live
        (some sample_policy)
        (codes "a.b:443")
        []
        d
        ips
      × IsLeading
          (dial_context sample_netip sample_network live
            (some sample_policy)
            (codes "a.b:443")).attempts
          ips
      × Finishes sample_network d.port ips
          (dial_context sample_netip sample_network live (some sample_policy) (codes "a.b:443")))
    ⊎ ((e : PolicyError) × ((dial_context sample_netip sample_network live
            (some sample_policy)
            (codes "a.b:443")).attempts
          ≡ [])
        × ((dial_context sample_netip sample_network live
              (some sample_policy)
              (codes "a.b:443")).result
            ≡ err e))
dial_context-IsVetted_example =
    dial_context-IsVetted sample_netip sample_network live (some sample_policy) (codes "a.b:443")

sample_accepted :
    checked_addresses sample_netip sample_network live
      (some sample_policy)
      (codes "a.b:443")
      (codes "443")
    ≡ ok (sample_destination, v4 0x08080808 ∷ [])
unfolding checked_addresses parse_destination split_host_port normalize_host normalize_name
    valid_name to_lower labels parse_uint16 compiled_policy check_destination matches for_each
    check_address is_private
sample_accepted = refl

sample-IsVetted :
    IsVetted sample_netip sample_network live
      (some sample_policy)
      (codes "a.b:443")
      (codes "443")
      sample_destination
      (v4 0x08080808 ∷ [])
sample-IsVetted =
    checked_addresses-IsVetted sample_netip sample_network live (some sample_policy)
      (codes "a.b:443") (codes "443") sample_accepted

explain_allows_all_example :
    explain sample_netip sample_network live sample_rules (codes "a.b:443") true
    ≡ answer (granted sample_destination (v4 0x08080808 ∷ []))
explain_allows_all_example =
    explain_allows_all sample_netip sample_network live sample_rules sample_compiled
      (codes "a.b:443") sample_destination (v4 0x08080808 ∷ []) sample_compiles sample-IsVetted

sample_explained :
    explain sample_netip sample_network live sample_rules (codes "a.b:443") true
    ≡ answer (granted sample_destination (v4 0x08080808 ∷ []))
sample_explained =
    (explain_agrees sample_netip sample_network live sample_rules sample_compiled (codes "a.b:443")
        sample_compiles).1
      sample_destination (v4 0x08080808 ∷ []) sample-IsVetted

explain_allows-IsVetted_example :
    (d : Destination) × (ips : List Addr) × IsVetted sample_netip sample_network live
      (some sample_policy)
      (codes "a.b:443")
      (codes "443")
      d
      ips
explain_allows-IsVetted_example =
    explain_allows-IsVetted sample_netip sample_network live sample_rules sample_compiled
      (codes "a.b:443") (granted sample_destination (v4 0x08080808 ∷ [])) sample_compiles
      (ap (λ x. x.decision) sample_explained) refl

check_destination_iff_example :
    (check_destination sample_netip sample_compiled live sample_destination ≡ ok tt) ↔ (
      (host : Str) × (normalize_host sample_netip (codes "a.b") ≡ ok host)
      × (sample_destination.port ≢ 0)
      × GrantsHost sample_netip sample_compiled host 443)
check_destination_iff_example =
    check_destination_iff sample_netip sample_compiled sample_destination
      (compile-IsIndexed sample_netip sample_rules sample_compiles)

check_address_iff_example :
    (check_address sample_compiled live sample_destination (v4 0x0a000001) ≡ ok tt)
    ↔ GrantsIp sample_compiled (v4 0x0a000001)
check_address_iff_example = check_address_iff sample_compiled sample_destination (v4 0x0a000001)

all_policies_iff_example :
    (((all_policies (some sample_policy ∷ none ∷ [])).check_dest live sample_destination ≡ ok tt)
      ↔ All (PassesDestination live sample_destination) (some sample_policy ∷ none ∷ []))
    × (((all_policies (some sample_policy ∷ none ∷ [])).check_addr live sample_destination (v4 1)
          ≡ ok tt)
        ↔ All (PassesAddress live sample_destination (v4 1)) (some sample_policy ∷ none ∷ []))
all_policies_iff_example =
    all_policies_iff (some sample_policy ∷ none ∷ []) live sample_destination (v4 1)

mapped_address_same :
    check_address sample_compiled live sample_destination (v6 (0xffff * 2 ^ 32 + 0x0a000001) [])
    ≡ check_address sample_compiled live sample_destination (v4 0x0a000001)
mapped_address_same =
    check_address_mapped sample_compiled live sample_destination 0x0a000001 [] (omega arith)

private_address : (is_private (v4 0x0a000001) ≡ true) ↔ IsPrivateV4 0x0a000001
private_address = IsPrivateV4-iff 0x0a000001

name_canonical : normalize_name (codes "A.b.") ≡ ok (codes "a.b")
unfolding normalize_name valid_name labels to_lower
name_canonical = refl

name_stays : (valid_name (codes "a.b") ≡ true) × (normalize_name (codes "a.b") ≡ ok (codes "a.b"))
name_stays = normalize_name_canonical (codes "A.b.") (codes "a.b") name_canonical

sample_value :
    (s : Str) (a : Addr) → sample_netip.parse_addr s ≡ some a → (s ≡ here) × (v4 0x7f000001 ≡ a)
sample_value s a e = elim (Bool-cases (str_eq s here)) [
  | inl same ↦ ((str_eq_iff s here).0 same, cc (rw same at e))
  | inr other ↦ cc (rw other at e)
]

sample-IsRoundTrip : IsRoundTrip sample_netip
sample-IsRoundTrip = record {
  marked = λ s a e. refl;
  reads_back = λ s a e z. ap (λ b. some (unmap b)) (sample_value s a e).1;
  dotted = λ s a e c.
      let (same_text, value) = sample_value s a e in
      (subst (λ b. has_zone b ≡ false) value refl, sym same_text);
}

literal_canonical : normalize_host sample_netip here ≡ ok here
unfolding normalize_host
literal_canonical = refl

normalize_host_idempotent_example : normalize_host sample_netip here ≡ ok here
normalize_host_idempotent_example =
    normalize_host_idempotent sample_netip here here sample-IsRoundTrip literal_canonical

parse_destination-destination_string_example :
    parse_destination sample_netip (destination_string (record { host = here; port = 8080 })) []
    ≡ ok (record { host = here; port = 8080 })
parse_destination-destination_string_example =
    parse_destination-destination_string sample_netip (record { host = here; port = 8080 }) []
      literal_canonical refl refl (omega arith) (omega arith)

parsed_sample : parse_destination sample_netip (codes "a.b") (codes "443") ≡ ok sample_destination
unfolding parse_destination split_host_port parse_uint16 normalize_host normalize_name valid_name
    labels to_lower
parsed_sample = refl

parse_destination_in_bounds :
    (0 < 443) × (443 ≤ 65535) × (h : Str) × (normalize_host sample_netip h ≡ ok (codes "a.b"))
parse_destination_in_bounds =
    parse_destination_bounds sample_netip (codes "a.b") (codes "443") sample_destination
      parsed_sample

matches-index_domains_example :
    (matches (index_domains sample_netip (codes "a.b" ∷ codes "=c.d" ∷ [])) (codes "x.a.b") ≡ true)
    ↔ Any (CoversEntry sample_netip (codes "x.a.b")) (codes "a.b" ∷ codes "=c.d" ∷ [])
matches-index_domains_example =
    matches-index_domains sample_netip (codes "x.a.b") (codes "a.b" ∷ codes "=c.d" ∷ [])

child_parses : parse_domain sample_netip (codes "x.a.b") ≡ ok (codes "x.a.b", false)
unfolding parse_domain normalize_host normalize_name valid_name labels to_lower
child_parses = refl

parent_parses : parse_domain sample_netip (codes ".a.b") ≡ ok (codes "a.b", false)
unfolding parse_domain normalize_host normalize_name valid_name labels to_lower
parent_parses = refl

domain_within_iff_example :
    (domain_within sample_netip (codes "x.a.b") (codes ".a.b") ≡ ok true) ↔ (
      (host : Str)
      → Covers sample_netip host (codes "x.a.b", false)
      → Covers sample_netip host (codes "a.b", false))
domain_within_iff_example =
    domain_within_iff sample_netip (codes "x.a.b") (codes ".a.b") (codes "x.a.b", false)
      (codes "a.b", false) child_parses parent_parses

abbrev other_address : ℕ
other_address = 5

single_compiles :
    compile_cidr sample_netip here ≡ ok (record { addr = v4 0x7f000001; bits = some 32 })
unfolding compile_cidr
single_compiles = refl

single_address :
    (contains (record { addr = v4 0x7f000001; bits = some 32 }) (v4 other_address) ≡ true)
    ↔ (other_address ≡ 0x7f000001)
single_address =
    compile_cidr_single sample_netip here 0x7f000001 other_address
      (record { addr = v4 0x7f000001; bits = some 32 }) refl refl single_compiles
