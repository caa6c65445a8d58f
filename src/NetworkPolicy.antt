-- ===== src/NetworkPolicy.antt =====
-- internal/networkpolicy: destinations, rules and the errors that the package returns.
pub mod Netip
pub mod Host
pub mod Domains
pub mod Compile
pub mod Check
pub mod Authority
pub mod Explain
pub mod Dialer
pub mod Samples
use sandbox_codex.Common.{Bool, Result, Str, err, false, ok, true, ℕ, ℤ}

-- networkpolicy.Destination
pub record Destination : Type 0 where
  pub host : Str
  pub port : ℕ

-- The codes of a Denial.
pub data Code : Type 0 where
  domain_denied port_denied default_denied domain_not_allowed port_not_allowed : Code
  invalid_address private_address address_denied address_not_allowed : Code

-- The errors of the package, and those that the callers pass through. `canceled` is the error of a
-- context that is done, `denied` a *Denial, `failure` an error of the resolver or the connector.
pub data PolicyError : Type 0 where
  canceled : PolicyError
  bad_host bad_authority bad_port : PolicyError
  bad_domain_rule bad_cidr_rule ambiguous_cidr_rule : Str → PolicyError
  bad_port_rule : ℤ → PolicyError
  denied_authority : PolicyError
  denied : Code → Destination → PolicyError
  no_addresses policy_required : PolicyError
  failure : Str → PolicyError

-- errors.Is(err, ErrDenied)
abbrev pub is_denied : PolicyError → Bool
is_denied denied_authority = true
is_denied (denied c d) = true
is_denied _ = false

-- ctx.Err(): a context is done, or it is not, for as long as one call runs.
pub data Context : Type 0 where
  live done : Context

abbrev pub ctx_err : Context → Result PolicyError (Unit {0})
ctx_err live = ok tt
ctx_err done = err canceled
