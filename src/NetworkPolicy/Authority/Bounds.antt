-- ===== src/NetworkPolicy/Authority/Bounds.antt =====
-- What ParseDestination returns (internal/networkpolicy/policy.go).
use sandbox_codex.Common.{>>=-eq-ok, Str, [], arith, ok, subst, ℕ, ◌<◌, ◌∷◌, ◌≡◌, ◌≤◌}
use sandbox_codex.NetworkPolicy.{Destination}
use sandbox_codex.NetworkPolicy.Authority.{
  canonical_host, canonical_port, host_and_port, parse_destination, parse_uint16,
}
use sandbox_codex.NetworkPolicy.Host.{normalize_host}
use sandbox_codex.NetworkPolicy.Netip.{Netip}

canonical_port_bounds :
    (nip : Netip) (port : Str) {n : ℕ} → canonical_port nip port ≡ ok n → (0 < n) × (n ≤ 65535)
unfolding parse_uint16
canonical_port_bounds nip [] e = cc
canonical_port_bounds nip (c ∷ s) e = ground arith

canonical_host_lem :
    (nip : Netip) (host : Str) {h : Str}
    → canonical_host nip host ≡ ok h
    → normalize_host nip host ≡ ok h
canonical_host_lem nip host e = ground arith

-- What parses has the canonical form of some host, and a port from 1 to 65535.
pub parse_destination_bounds :
    (nip : Netip) (authority default_port : Str) (d : Destination)
    → parse_destination nip authority default_port ≡ ok d
    → (0 < d.port) × (d.port ≤ 65535) × (h : Str) × (normalize_host nip h ≡ ok d.host)
unfolding parse_destination
parse_destination_bounds nip authority default_port d e =
    let (hp, found, e₁) = >>=-eq-ok (host_and_port authority default_port) _ e in
    let (host, named, e₂) = >>=-eq-ok (canonical_host nip hp.0) _ e₁ in
    let (port, read, e₃) = >>=-eq-ok (canonical_port nip hp.1) _ e₂ in
    let (positive, small) = canonical_port_bounds nip hp.1 read in
    let same_port : port ≡ d.port = cc (e₃) in
    let same_host : host ≡ d.host = cc (e₃) in
    (
      subst (λ k. 0 < k) same_port positive,
      subst (λ k. k ≤ 65535) same_port small,
      hp.0,
      subst (λ k. normalize_host nip hp.0 ≡ ok k) same_host (canonical_host_lem nip hp.0 named),
    )
