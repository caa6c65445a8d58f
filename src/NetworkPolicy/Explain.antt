-- ===== src/NetworkPolicy/Explain.antt =====
-- Reason and Explain of internal/networkpolicy/explain.go.
pub mod Agreement
pub mod Allowed
use sandbox_codex.Common.{
  Bool, List, Option, Result, Str, [], codes, err, false, if◌then◌else◌, none, ok, some, true, ℕ,
  ◌+◌, ◌∷◌,
}
use sandbox_codex.NetworkPolicy.{
  Code, Context, Destination, PolicyError, denied, denied_authority, is_denied, no_addresses,
}
use sandbox_codex.NetworkPolicy.Authority.{parse_destination}
use sandbox_codex.NetworkPolicy.Check.{Policy, compiled_policy}
use sandbox_codex.NetworkPolicy.Compile.{Rules, compile}
use sandbox_codex.NetworkPolicy.Dialer.{Network, resolve}
use sandbox_codex.NetworkPolicy.Netip.{Addr, Netip}

-- The codes of a Decision.
pub data Verdict : Type 0 where
  address_not_checked policy_denied connection_failed all_passed : Verdict
  denial_code : Code → Verdict

unfoldable pub reason : PolicyError → Verdict
reason (denied c d) = denial_code c
reason denied_authority = policy_denied
reason _ = connection_failed

pub data Stage : Type 0 where
  destination_stage address_stage : Stage

pub record Decision : Type 0 where
  pub target : Destination
  pub is_allowed : Bool
  pub verdict : Verdict
  pub stage : Stage
  pub addresses_checked : ℕ
  pub complete : Bool

-- `return result, err`: the decision so far stays beside the error.
pub record Explained : Type 0 where
  pub decision : Option Decision
  pub error : Option PolicyError

abbrev pub answer : Decision → Explained
answer r = record { decision = some r; error = none }

abbrev pub failed_with : Decision → PolicyError → Explained
failed_with r e = record { decision = some r; error = some e }

-- A check that failed: a denial is the answer, another error is returned.
abbrev pub settle : Decision → PolicyError → Explained
settle r e =
    if is_denied e
    then answer (record r { verdict = reason e; complete = true })
    else failed_with r e

module _ (nip : Netip) (net : Network) (ctx : Context) (p : Policy) where
  -- The loop over the addresses; AddressesChecked counts before the check.
  unfoldable pub explain_loop : Decision → List Addr → Explained
  unfolding reason
  explain_loop r [] = answer (record r { is_allowed = true; complete = true; verdict = all_passed })
  explain_loop r (ip ∷ ips) =
      let r' = record r { addresses_checked = r.addresses_checked + 1 } in
      let rest = explain_loop r' ips in
      elim (p.check_addr ctx r.target ip) [ ok _ ↦ rest | err e ↦ settle r' e ]

  abbrev pub explain_addresses : Decision → Result PolicyError (List Addr) → Explained
  explain_addresses r (err e) = failed_with r e
  explain_addresses r (ok []) = failed_with (record r { stage = address_stage }) no_addresses
  explain_addresses r (ok (ip ∷ ips)) = explain_loop (record r { stage = address_stage }) (ip ∷ ips)

  abbrev pub initial : Destination → Decision
  initial d = record {
    target = d;
    is_allowed = false;
    verdict = address_not_checked;
    stage = destination_stage;
    addresses_checked = 0;
    complete = false;
  }

  unfoldable pub explain_destination : Bool → Destination → Explained
  unfolding explain_loop reason
  explain_destination look_up d = elim (p.check_dest ctx d) [
    | err e ↦ settle (initial d) e
    | ok _ ↦
        if look_up
        then explain_addresses (initial d) (resolve nip net d)
        else answer (record (initial d) { is_allowed = true })
  ]

module _ (nip : Netip) (net : Network) (ctx : Context) where
  unfoldable pub explain : Rules → Str → Bool → Explained
  unfolding explain_destination
  explain rules authority look_up = elim (compile nip rules) [
    | err e ↦ record { decision = none; error = some e }
    | ok p ↦ elim (parse_destination nip authority (codes "443")) [
      | err e ↦ record { decision = none; error = some e }
      | ok d ↦ explain_destination nip net ctx (compiled_policy nip p) look_up d
    ]
  ]
