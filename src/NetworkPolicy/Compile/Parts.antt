-- ===== src/NetworkPolicy/Compile/Parts.antt =====
-- What a policy that Compile of internal/networkpolicy/policy.go returns is made of.
use sandbox_codex.Common.{>>=-eq-ok, arith, map_result, ok, ◌≡◌}
use sandbox_codex.NetworkPolicy.Compile.{
  Compiled, Rules, compile, compile_cidr, compile_domain, compile_port,
}
use sandbox_codex.NetworkPolicy.Domains.{index_domains}
use sandbox_codex.NetworkPolicy.Netip.{Netip}

-- Each list is compiled rule by rule, the indexes are those of the compiled lists, and the flags
-- are kept.
pub record IsCompiled (nip : Netip) (r : Rules) (p : Compiled) : Type 0 where
  pub allow_domains : map_result (compile_domain nip) r.allow_domains ≡ ok p.allow_domains
  pub deny_domains : map_result (compile_domain nip) r.deny_domains ≡ ok p.deny_domains
  pub allow_cidrs : map_result (compile_cidr nip) r.allow_cidrs ≡ ok p.allow_cidrs
  pub deny_cidrs : map_result (compile_cidr nip) r.deny_cidrs ≡ ok p.deny_cidrs
  pub allow_ports : map_result compile_port r.allow_ports ≡ ok p.allow_ports
  pub deny_ports : map_result compile_port r.deny_ports ≡ ok p.deny_ports
  pub allow_index : p.allow_domain_index ≡ index_domains nip p.allow_domains
  pub deny_index : p.deny_domain_index ≡ index_domains nip p.deny_domains
  pub block_private : p.block_private ≡ r.block_private
  pub default_deny : p.default_deny ≡ r.default_deny

pub compile-IsCompiled :
    (nip : Netip) (r : Rules) {p : Compiled} → compile nip r ≡ ok p → IsCompiled nip r p
unfolding compile
compile-IsCompiled nip r e =
    let (ad, fad, e₁) = >>=-eq-ok (map_result (compile_domain nip) r.allow_domains) _ e in
    let (dd, fdd, e₂) = >>=-eq-ok (map_result (compile_domain nip) r.deny_domains) _ e₁ in
    let (ac, fac, e₃) = >>=-eq-ok (map_result (compile_cidr nip) r.allow_cidrs) _ e₂ in
    let (dc, fdc, e₄) = >>=-eq-ok (map_result (compile_cidr nip) r.deny_cidrs) _ e₃ in
    let (ap', fap, e₅) = >>=-eq-ok (map_result compile_port r.allow_ports) _ e₄ in
    let (dp, fdp, e₆) = >>=-eq-ok (map_result compile_port r.deny_ports) _ e₅ in
    record {
      allow_domains = ground arith;
      deny_domains = ground arith;
      allow_cidrs = ground arith;
      deny_cidrs = ground arith;
      allow_ports = ground arith;
      deny_ports = ground arith;
      allow_index = ground arith;
      deny_index = ground arith;
      block_private = ground arith;
      default_deny = ground arith;
    }

-- The indexes of a compiled policy are those of its lists.
pub record IsIndexed (nip : Netip) (p : Compiled) : Type 0 where
  pub allow : p.allow_domain_index ≡ index_domains nip p.allow_domains
  pub deny : p.deny_domain_index ≡ index_domains nip p.deny_domains

pub compile-IsIndexed :
    (nip : Netip) (r : Rules) {p : Compiled} → compile nip r ≡ ok p → IsIndexed nip p
compile-IsIndexed nip r e =
    let c = compile-IsCompiled nip r e in record { allow = c.allow_index; deny = c.deny_index }
