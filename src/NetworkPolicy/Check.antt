-- ===== src/NetworkPolicy/Check.antt =====
-- CheckDestination, CheckAddress, IsPrivate and All of internal/networkpolicy/policy.go.
pub mod Grants
pub mod Combined
use sandbox_codex.Common.{
  Bool, List, Option, Result, Str, [], any, err, false, for_each, if◌then◌else◌, none, not, ok,
  some, true, ℕ, ◌&&◌, ◌==◌, ◌>>◌, ◌||◌, ◌∷◌,
}
use sandbox_codex.NetworkPolicy.{
  Code, Context, Destination, PolicyError, address_denied, address_not_allowed, ctx_err,
  default_denied, denied, denied_authority, domain_denied, domain_not_allowed, invalid_address,
  port_denied, port_not_allowed, private_address,
}
use sandbox_codex.NetworkPolicy.Compile.{Compiled}
use sandbox_codex.NetworkPolicy.Domains.{matches}
use sandbox_codex.NetworkPolicy.Host.{normalize_host}
use sandbox_codex.NetworkPolicy.Netip.{
  Addr, Netip, Prefix, contains, has_zone, is_link_local_multicast, is_link_local_unicast,
  is_loopback, is_private_use, is_unspecified, is_valid, unmap, v4,
}

abbrev pub is_nil {ℓ} : {A : Type ℓ} → List A → Bool
is_nil [] = true
is_nil (_ ∷ _) = false

abbrev pub has_port : List ℕ → ℕ → Bool
has_port ports port = any (λ p. p == port) ports

abbrev pub matches_cidr : Addr → List Prefix → Bool
matches_cidr ip prefixes = any (λ p. contains p ip) prefixes

abbrev pub carrier_grade_nat : Prefix
carrier_grade_nat = record { addr = v4 0x64400000; bits = some 10 }

unfoldable pub is_private : Addr → Bool
unfolding contains
is_private addr =
    let ip = unmap addr in
    not (is_valid ip)
    || (is_private_use ip
        || (is_loopback ip
            || (is_link_local_unicast ip
                || (is_link_local_multicast ip
                    || (is_unspecified ip || contains carrier_grade_nat ip)))))

-- default-deny with neither a domain nor a CIDR grant
abbrev pub grants_nothing : Compiled → Bool
grants_nothing p = p.default_deny && (is_nil p.allow_domains && is_nil p.allow_cidrs)

abbrev pub deny : Code → Destination → Result PolicyError (Unit {0})
deny code d = err (denied code d)

module _ (nip : Netip) (p : Compiled) where
  -- The tests behind the normalisation of the host.
  unfoldable pub check_host : Str → Destination → Result PolicyError (Unit {0})
  check_host host d =
      if matches p.deny_domain_index host
      then deny domain_denied d
      else if has_port p.deny_ports d.port
      then deny port_denied d
      else if grants_nothing p
      then deny default_denied d
      else if not (is_nil p.allow_domains) && not (matches p.allow_domain_index host)
      then deny domain_not_allowed d
      else if not (is_nil p.allow_ports) && not (has_port p.allow_ports d.port)
      then deny port_not_allowed d
      else ok tt

  unfoldable pub check_destination : Context → Destination → Result PolicyError (Unit {0})
  unfolding check_host
  check_destination ctx d = ctx_err ctx >> elim (normalize_host nip d.host) [
    | err e ↦ err denied_authority
    | ok host ↦ if d.port == 0 then err denied_authority else check_host host d
  ]

module _ (p : Compiled) where
  -- The tests of an address that is no longer mapped.
  unfoldable pub check_ip : Destination → Addr → Result PolicyError (Unit {0})
  check_ip d ip =
      if grants_nothing p
      then deny default_denied d
      else if not (is_valid ip) || has_zone ip
      then deny invalid_address d
      else if p.block_private && is_private ip
      then deny private_address d
      else if matches_cidr ip p.deny_cidrs
      then deny address_denied d
      else if not (is_nil p.allow_cidrs) && not (matches_cidr ip p.allow_cidrs)
      then deny address_not_allowed d
      else ok tt

  unfoldable pub check_address : Context → Destination → Addr → Result PolicyError (Unit {0})
  unfolding check_ip
  check_address ctx d ip = ctx_err ctx >> check_ip d (unmap ip)

-- The interface Policy.
pub record Policy : Type 0 where
  pub check_dest : Context → Destination → Result PolicyError (Unit {0})
  pub check_addr : Context → Destination → Addr → Result PolicyError (Unit {0})

unfoldable pub compiled_policy : Netip → Compiled → Policy
compiled_policy nip p = record {
  check_dest = check_destination nip p;
  check_addr = check_address p;
}

-- The loop over `combined`; a nil policy is skipped.
abbrev pub check_each :
    (Policy → Result PolicyError (Unit {0})) → Option Policy → Result PolicyError (Unit {0})
check_each f none = ok tt
check_each f (some p) = f p

unfoldable pub all_policies : List (Option Policy) → Policy
all_policies ps = record {
  check_dest = λ ctx d. for_each (check_each (λ p. p.check_dest ctx d)) ps;
  check_addr = λ ctx d ip. for_each (check_each (λ p. p.check_addr ctx d ip)) ps;
}
