-- ===== src/NetworkPolicy/Compile.antt =====
-- Rules, compiled and Compile of internal/networkpolicy/policy.go.
pub mod Parts
use sandbox_codex.Common.{
  Bool, List, Result, Str, err, if◌then◌else◌, ltb, map_result, negsuc, none, ok, pos, some, ℕ, ℤ,
  ◌-◌, ◌>>=◌, ◌>>◌, ◌||◌, ◌∷◌,
}
use sandbox_codex.NetworkPolicy.{
  PolicyError, ambiguous_cidr_rule, bad_cidr_rule, bad_domain_rule, bad_port_rule,
}
use sandbox_codex.NetworkPolicy.Domains.{DomainIndex, index_domains}
use sandbox_codex.NetworkPolicy.Host.{parse_domain}
use sandbox_codex.NetworkPolicy.Netip.{
  Netip, Prefix, bit_len, has_zone, is_4_in_6, masked, prefix_from, unmap,
}

pub record Rules : Type 0 where
  pub allow_domains : List Str
  pub deny_domains : List Str
  pub allow_cidrs : List Str
  pub deny_cidrs : List Str
  pub allow_ports : List ℤ
  pub deny_ports : List ℤ
  pub block_private : Bool
  pub default_deny : Bool

pub record Compiled : Type 0 where
  pub allow_domains : List Str
  pub deny_domains : List Str
  pub allow_domain_index : DomainIndex
  pub deny_domain_index : DomainIndex
  pub allow_cidrs : List Prefix
  pub deny_cidrs : List Prefix
  pub allow_ports : List ℕ
  pub deny_ports : List ℕ
  pub block_private : Bool
  pub default_deny : Bool

-- An exact domain keeps its mark in the compiled list.
abbrev pub spell : Str × Bool → Str
spell (host, exact) = if exact then b'=' ∷ host else host

abbrev pub compile_port : ℤ → Result PolicyError ℕ
compile_port (negsuc n) = err (bad_port_rule (negsuc n))
compile_port (pos n) = if ltb n 1 || ltb 65535 n then err (bad_port_rule (pos n)) else ok n

module _ (nip : Netip) where
  abbrev pub compile_domain : Str → Result PolicyError Str
  compile_domain value = elim (parse_domain nip value) [
    | ok d ↦ ok (spell d)
    | err e ↦ err (bad_domain_rule value)
  ]

  -- The prefix of one rule: a CIDR, or an address without a zone.
  abbrev pub read_prefix : Str → Result PolicyError Prefix
  read_prefix value = elim (nip.parse_prefix value) [
    | some p ↦ ok p
    | none ↦ elim (nip.parse_addr value) [
      | none ↦ err (bad_cidr_rule value)
      | some ip ↦
          if has_zone ip then err (bad_cidr_rule value) else ok (prefix_from ip (bit_len ip))
    ]
  ]

  -- A prefix of mapped addresses becomes the IPv4 prefix, if it has no other addresses.
  abbrev pub unmap_prefix : Str → Prefix → Result PolicyError Prefix
  unmap_prefix value p =
      if is_4_in_6 p.addr
      then elim p.bits [
        | none ↦ err (ambiguous_cidr_rule value)
        | some b ↦
            if ltb b 96
            then err (ambiguous_cidr_rule value)
            else ok (prefix_from (unmap p.addr) (b - 96))
      ]
      else ok p

  unfoldable pub compile_cidr : Str → Result PolicyError Prefix
  compile_cidr value = do p ← read_prefix value; q ← unmap_prefix value p; ok (masked q)

  unfoldable pub compile : Rules → Result PolicyError Compiled
  compile r = do
    allow_domains ← map_result compile_domain r.allow_domains
    deny_domains ← map_result compile_domain r.deny_domains
    allow_cidrs ← map_result compile_cidr r.allow_cidrs
    deny_cidrs ← map_result compile_cidr r.deny_cidrs
    allow_ports ← map_result compile_port r.allow_ports
    deny_ports ← map_result compile_port r.deny_ports
    ok (record {
      allow_domains = allow_domains;
      deny_domains = deny_domains;
      allow_domain_index = index_domains nip allow_domains;
      deny_domain_index = index_domains nip deny_domains;
      allow_cidrs = allow_cidrs;
      deny_cidrs = deny_cidrs;
      allow_ports = allow_ports;
      deny_ports = deny_ports;
      block_private = r.block_private;
      default_deny = r.default_deny;
    })
