-- ===== src/NetworkPolicy/Check/Grants.antt =====
-- What CheckDestination and CheckAddress of internal/networkpolicy/policy.go grant.
use sandbox_codex.Common.{
  ==_iff, Any, Bool, List, Result-cases, Str, [], any-Any, arith, false, inl, inr, not, ok, refl,
  subst, true, ℕ, ◌&&◌, ◌==◌, ◌||◌, ◌↔◌, ◌∷◌, ◌≡◌, ◌≢◌, ◌⊎◌,
}
use sandbox_codex.NetworkPolicy.{Destination, live}
use sandbox_codex.NetworkPolicy.Check.{
  check_address, check_destination, check_host, check_ip, grants_nothing, has_port, is_nil,
  is_private, matches_cidr,
}
use sandbox_codex.NetworkPolicy.Compile.{Compiled}
use sandbox_codex.NetworkPolicy.Compile.Parts.{IsIndexed}
use sandbox_codex.NetworkPolicy.Domains.{matches}
use sandbox_codex.NetworkPolicy.Domains.Coverage.{CoversEntry, matches-index_domains}
use sandbox_codex.NetworkPolicy.Host.{normalize_host}
use sandbox_codex.NetworkPolicy.Netip.{Addr, Netip, Prefix, contains, has_zone, is_valid, unmap}

-- An allowlist that is empty grants everything; one that is not must hold the item.
abbrev pub Admits : {A : Type 0} → (A → Type 0) → List A → Type 0
Admits P xs = (xs ≡ []) ⊎ Any P xs

abbrev pub IsRefused : {A : Type 0} → (A → Type 0) → List A → Type 0
IsRefused P xs = ¬ Any P xs

-- The policy does not deny by default, or it grants a domain or a range of addresses.
abbrev pub HasGrant : Compiled → Type 0
HasGrant p = (p.default_deny ≡ false) ⊎ (p.allow_domains ≢ []) ⊎ (p.allow_cidrs ≢ [])

-- The grant of a name and a port, without the order of the tests.
pub record GrantsHost (nip : Netip) (p : Compiled) (host : Str) (n : ℕ) : Type 0 where
  pub not_denied : IsRefused (CoversEntry nip host) p.deny_domains
  pub port_not_denied : IsRefused (λ q. q ≡ n) p.deny_ports
  pub granted : HasGrant p
  pub domain : Admits (CoversEntry nip host) p.allow_domains
  pub port : Admits (λ q. q ≡ n) p.allow_ports

-- The grant of an address that is no longer mapped.
pub record GrantsIp (p : Compiled) (ip : Addr) : Type 0 where
  pub granted : HasGrant p
  pub valid : is_valid ip ≡ true
  pub no_zone : has_zone ip ≡ false
  pub public : (p.block_private ≡ false) ⊎ (is_private ip ≡ false)
  pub not_denied : IsRefused (λ q. contains q ip ≡ true) p.deny_cidrs
  pub allowed : Admits (λ q. contains q ip ≡ true) p.allow_cidrs

module _ {A : Type 0} where
  not-Any :
      (P : A → Type 0) (b : Bool) (xs : List A)
      → (b ≡ true) ↔ Any P xs
      → (b ≡ false) ↔ IsRefused P xs
  not-Any P true xs h = ((λ e. cc), (λ n. absurd (n (h.0 refl))))
  not-Any P false xs h = ((λ e a. cc (h.1 a)), (λ n. refl))

  admits :
      (P : A → Type 0) (b : Bool) (xs : List A)
      → (b ≡ true) ↔ Any P xs
      → ((not (is_nil xs) && not b) ≡ false) ↔ Admits P xs
  admits P b [] h = ((λ e. inl refl), (λ a. refl))
  admits P true (x ∷ xs) h = ((λ e. inr (h.0 refl)), (λ a. refl))
  admits P false (x ∷ xs) h = ((λ e. cc), (λ a. elim a [ inl e ↦ cc | inr b ↦ cc (h.1 b) ]))

has_grant_iff : (p : Compiled) → (grants_nothing p ≡ false) ↔ HasGrant p
has_grant_iff p = ground arith

has_port_iff : (ports : List ℕ) (n : ℕ) → (has_port ports n ≡ true) ↔ Any (λ q. q ≡ n) ports
has_port_iff ports n = any-Any (λ q. q ≡ n) (λ q. q == n) (λ q. ==_iff q n) ports

matches_cidr_iff :
    (ip : Addr) (ps : List Prefix)
    → (matches_cidr ip ps ≡ true) ↔ Any (λ q. contains q ip ≡ true) ps
matches_cidr_iff ip ps =
    any-Any (λ q. contains q ip ≡ true) (λ q. contains q ip) (λ q. ((λ e. e), (λ e. e))) ps

-- No test of the ladder fires.
ladder_passes :
    (nip : Netip) (p : Compiled) (host : Str) (d : Destination)
    → matches p.deny_domain_index host ≡ false
    → has_port p.deny_ports d.port ≡ false
    → grants_nothing p ≡ false
    → (not (is_nil p.allow_domains) && not (matches p.allow_domain_index host)) ≡ false
    → (not (is_nil p.allow_ports) && not (has_port p.allow_ports d.port)) ≡ false
    → check_host nip p host d ≡ ok tt
unfolding check_host
ladder_passes nip p host d a b c e f = rw (a, b, c, e, f)

module _ (nip : Netip) (p : Compiled) (indexed : IsIndexed nip p) (host : Str) where
  denied_iff : (matches p.deny_domain_index host ≡ true) ↔ Any (CoversEntry nip host) p.deny_domains
  denied_iff = rw indexed.deny (matches-index_domains nip host p.deny_domains)

  allowed_iff :
      (matches p.allow_domain_index host ≡ true) ↔ Any (CoversEntry nip host) p.allow_domains
  allowed_iff = rw indexed.allow (matches-index_domains nip host p.allow_domains)

  -- The ladder of tests passes exactly when the policy grants the host and the port.
  pub check_host_iff :
      (d : Destination) → (check_host nip p host d ≡ ok tt) ↔ GrantsHost nip p host d.port
  unfolding check_host
  check_host_iff d =
      let covers = CoversEntry nip host in
      let is_port = λ (q : ℕ). q ≡ d.port in
      let domain_out =
        not-Any covers (matches p.deny_domain_index host) p.deny_domains denied_iff in
      let port_out =
        not-Any is_port (has_port p.deny_ports d.port) p.deny_ports
          (has_port_iff p.deny_ports d.port) in
      let domain_in =
        admits covers (matches p.allow_domain_index host) p.allow_domains allowed_iff in
      let port_in =
        admits is_port (has_port p.allow_ports d.port) p.allow_ports
          (has_port_iff p.allow_ports d.port) in
      let some_grant = has_grant_iff p in
      (
        (λ e. record {
          not_denied = domain_out.0 (ground arith);
          port_not_denied = port_out.0 (ground arith);
          granted = some_grant.0 (ground arith);
          domain = domain_in.0 (ground arith);
          port = port_in.0 (ground arith);
        }),
        (λ g.
            ladder_passes nip p host d (domain_out.1 g.not_denied) (port_out.1 g.port_not_denied)
              (some_grant.1 g.granted) (domain_in.1 g.domain) (port_in.1 g.port)),
      )

-- CheckDestination passes, in a context that is live, exactly when the host has a canonical form
-- and the port is not 0, and the policy grants them.
pub check_destination_iff :
    (nip : Netip) (p : Compiled) (d : Destination)
    → IsIndexed nip p
    → (check_destination nip p live d ≡ ok tt) ↔ (
        (host : Str) × (normalize_host nip d.host ≡ ok host)
        × (d.port ≢ 0)
        × GrantsHost nip p host d.port)
unfolding check_destination
check_destination_iff nip p d indexed = elim (Result-cases (normalize_host nip d.host)) [
  | inr (e, bad) ↦ rw (bad, check_destination) ((λ h. cc), (λ h. cc (h.1)))
  | inl (host, good) ↦
      let (to, from) = check_host_iff nip p indexed host d in
      (
        (λ e. (host, good, ground arith, to (ground arith))),
        (λ h.
            let same : h.0 ≡ host = cc (h.1) in
            let passes = from (subst (λ k. GrantsHost nip p k d.port) same h.3) in
            rw (good, check_destination) (ground arith)),
      )
]

-- No test of the address ladder fires.
ip_ladder_passes :
    (p : Compiled) (d : Destination) (ip : Addr)
    → grants_nothing p ≡ false
    → (not (is_valid ip) || has_zone ip) ≡ false
    → (p.block_private && is_private ip) ≡ false
    → matches_cidr ip p.deny_cidrs ≡ false
    → (not (is_nil p.allow_cidrs) && not (matches_cidr ip p.allow_cidrs)) ≡ false
    → check_ip p d ip ≡ ok tt
unfolding check_ip
ip_ladder_passes p d ip a b c e f = rw (a, b, c, e, f)

check_ip_iff :
    (p : Compiled) (d : Destination) (ip : Addr) → (check_ip p d ip ≡ ok tt) ↔ GrantsIp p ip
unfolding check_ip
check_ip_iff p d ip =
    let in_range = λ (q : Prefix). contains q ip ≡ true in
    let out =
      not-Any in_range (matches_cidr ip p.deny_cidrs) p.deny_cidrs
        (matches_cidr_iff ip p.deny_cidrs) in
    let inside =
      admits in_range (matches_cidr ip p.allow_cidrs) p.allow_cidrs
        (matches_cidr_iff ip p.allow_cidrs) in
    let some_grant = has_grant_iff p in
    (
      (λ e. record {
        granted = some_grant.0 (ground arith);
        valid = ground arith;
        no_zone = ground arith;
        public = ground arith;
        not_denied = out.0 (ground arith);
        allowed = inside.0 (ground arith);
      }),
      (λ g.
          ip_ladder_passes p d ip (some_grant.1 g.granted) (rw (g.valid, g.no_zone)) (ground arith)
            (out.1 g.not_denied) (inside.1 g.allowed)),
    )

-- CheckAddress passes, in a context that is live, exactly when the policy grants the address that
-- the given one stands for once it is no longer mapped.
pub check_address_iff :
    (p : Compiled) (d : Destination) (ip : Addr)
    → (check_address p live d ip ≡ ok tt) ↔ GrantsIp p (unmap ip)
unfolding check_address
check_address_iff p d ip = check_ip_iff p d (unmap ip)
