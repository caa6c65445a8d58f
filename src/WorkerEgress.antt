-- ===== src/WorkerEgress.antt =====
-- internal/workeregress: the policy of a worker's egress proxy, narrowed from that of the host.
pub mod Entries
pub mod Narrows
pub mod Presets
pub mod Arguments
pub mod Reference
pub mod Samples
use sandbox_codex.Common.{
  Bool, List, Result, Str, [], codes, ensure, err, false, for_each, if◌then◌else◌, is_empty, length,
  ltb, not, ok, str_eq, true, ◌&&◌, ◌+◌, ◌>>=◌, ◌>>◌, ◌||◌, ◌∷◌,
}
use sandbox_codex.NetworkPolicy.{PolicyError}
use sandbox_codex.NetworkPolicy.Check.{is_nil}
use sandbox_codex.NetworkPolicy.Compile.{Compiled, Rules, compile}
use sandbox_codex.NetworkPolicy.Domains.{domain_within}
use sandbox_codex.NetworkPolicy.Host.{HostError}
use sandbox_codex.NetworkPolicy.Netip.{Netip}

pub data EgressError : Type 0 where
  empty_allowlist host_grants_none : EgressError
  outside_host : Str → EgressError
  bad_rules : PolicyError → EgressError
  bad_domain : HostError → EgressError
  offline_domains api_domains : EgressError
  unknown_preset : Str → EgressError
  bad_flag incomplete_arguments bad_port_argument unsupported_flag : EgressError
  not_egress : EgressError
  unpinned_worker bad_identities unmapped_proxy ambiguous_proxy : EgressError

abbrev pub narrowed : Rules → List Str → Rules
narrowed host domains = record host { allow_domains = domains; block_private = true }

abbrev pub rules_grant : Rules → Bool
rules_grant host = not (host.default_deny && (is_nil host.allow_domains && is_nil host.allow_cidrs))

abbrev pub judge_policy : Result PolicyError Compiled → Result EgressError (Unit {0})
judge_policy (err e) = err (bad_rules e)
judge_policy (ok p) = ok tt

module _ (nip : Netip) where
  -- The inner loop of Rules: is the domain within one that the host allows?
  unfoldable pub within_some : Str → List Str → Result HostError Bool
  within_some domain [] = ok false
  within_some domain (a ∷ others) =
      let rest = within_some domain others in
      do w ← domain_within nip domain a; if w then ok true else rest

  abbrev pub judge_domain : Str → Result HostError Bool → Result EgressError (Unit {0})
  judge_domain domain (err e) = err (bad_domain e)
  judge_domain domain (ok w) = if w then ok tt else err (outside_host domain)

  -- The loop over the domains; a host without allowed domains bounds none of them.
  abbrev pub check_domain : List Str → Str → Result EgressError (Unit {0})
  check_domain allowed_domains domain =
      if is_nil allowed_domains
      then ok tt
      else judge_domain domain (within_some domain allowed_domains)

  abbrev pub compiles : Rules → Result EgressError (Unit {0})
  compiles r = judge_policy (compile nip r)

  -- Rules
  unfoldable pub worker_rules : Rules → List Str → Result EgressError Rules
  worker_rules host domains = do
    ensure (not (is_nil domains)) empty_allowlist
    compiles host
    ensure (rules_grant host) host_grants_none
    for_each (check_domain host.allow_domains) domains
    compiles (narrowed host domains)
    ok (narrowed host domains)

-- Configured
unfoldable pub is_configured : Rules → Bool
is_configured r =
    r.default_deny
    || ltb 0 (
        length r.allow_domains
        + length r.deny_domains
        + length r.allow_cidrs
        + length r.deny_cidrs
        + length r.allow_ports
        + length r.deny_ports)

-- Preset
pub record Preset : Type 0 where
  pub name : Str
  pub offline : Bool
  pub domains : List Str

-- Presets, without the descriptions
abbrev pub presets : List Preset
presets =
    record { name = codes "offline"; offline = true; domains = [] }
    ∷ record { name = codes "test"; offline = true; domains = [] }
    ∷ record {
      name = codes "dependencies";
      offline = false;
      domains =
          codes "registry.npmjs.org"
          ∷ codes "pypi.org"
          ∷ codes "files.pythonhosted.org"
          ∷ codes "proxy.golang.org"
          ∷ codes "sum.golang.org"
          ∷ [];
    }
    ∷ record { name = codes "api"; offline = false; domains = [] }
    ∷ []

module _ (nip : Netip) (host : Rules) where
  -- `r, err := Rules(host, domains); return r, false, err`
  abbrev pub online_rules : List Str → Result EgressError (Rules × Bool)
  online_rules domains = do r ← worker_rules nip host domains; ok (r, false)

  abbrev pub without_preset : List Str → Result EgressError (Rules × Bool)
  without_preset [] = do
    compiles nip host
    ok (host, host.default_deny && (is_nil host.allow_domains && is_nil host.allow_cidrs))
  without_preset (d ∷ domains) = online_rules (d ∷ domains)

  -- The domains that a preset stands for.
  abbrev pub preset_domains : Preset → List Str → List Str
  preset_domains p domains =
      if str_eq p.name (codes "dependencies") && is_nil domains then p.domains else domains

  -- The body of the loop, at the preset of the name.
  abbrev pub apply_preset : Preset → List Str → Result EgressError (Rules × Bool)
  apply_preset p domains =
      if p.offline then (do ensure (is_nil domains) offline_domains; ok (host, true)) else (do
        ensure (not (is_nil (preset_domains p domains))) api_domains
        online_rules (preset_domains p domains))

  unfoldable pub find_preset : Str → List Str → List Preset → Result EgressError (Rules × Bool)
  find_preset name domains [] = err (unknown_preset name)
  find_preset name domains (p ∷ ps) =
      let later = find_preset name domains ps in
      if str_eq p.name name then apply_preset p domains else later

  -- ResolvePreset: the rules, and whether the worker is offline
  unfoldable pub resolve_preset : Str → List Str → Result EgressError (Rules × Bool)
  resolve_preset name domains =
      if is_empty name then without_preset domains else find_preset name domains presets
