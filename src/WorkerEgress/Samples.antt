-- ===== src/WorkerEgress/Samples.antt =====
-- A small host policy, and the egress of workers under it (internal/workeregress).
use sandbox_codex.Common.{
  All, Any, List, Str, [], codes, false, for_each, if◌then◌else◌, map_result, none, ok, pos, refl,
  some, str_eq, true, ◌∷◌, ◌≡◌, ◌≢◌,
}
use sandbox_codex.NetworkPolicy.Compile.{Compiled, Rules, compile, compile_cidr}
use sandbox_codex.NetworkPolicy.Domains.{domain_within, index_domains}
use sandbox_codex.NetworkPolicy.Host.{
  labels, normalize_host, normalize_name, parse_domain, to_lower, valid_name,
}
use sandbox_codex.NetworkPolicy.Netip.{Netip, v6}
use sandbox_codex.WorkerEgress.{find_preset, resolve_preset, within_some, worker_rules}
use sandbox_codex.WorkerEgress.Arguments.{parse_proxy_rules, proxy_args}
use sandbox_codex.WorkerEgress.Arguments.RoundTrip.{parse_proxy_rules-proxy_args}
use sandbox_codex.WorkerEgress.Entries.{IsUnmarked}
use sandbox_codex.WorkerEgress.Narrows.{PassesLess}
use sandbox_codex.WorkerEgress.Presets.{resolve_preset_narrows}
use sandbox_codex.WorkerEgress.Reference.{
  PinnedWorker, Pins, choose_name, proxy_reference, proxy_reference_unique, trim_brackets,
}

-- Addresses print in a form without "=".
abbrev plain_netip : Netip
plain_netip = record {
  parse_addr = λ s. if str_eq s (codes "::1") then some (v6 1 []) else none;
  parse_prefix = λ s. none;
  format = λ a. codes "::1";
}

plain_netip-IsUnmarked : IsUnmarked plain_netip
plain_netip-IsUnmarked = record { plain = λ a. refl }

abbrev host_rules : Rules
host_rules = record {
  allow_domains = codes "a.b" ∷ [];
  deny_domains = codes "x.a.b" ∷ [];
  allow_cidrs = [];
  deny_cidrs = [];
  allow_ports = pos 443 ∷ pos 80 ∷ [];
  deny_ports = [];
  block_private = true;
  default_deny = true;
}

abbrev worker_domains : List Str
worker_domains = codes "c.a.b" ∷ []

abbrev child_rules : Rules
child_rules = record host_rules { allow_domains = worker_domains }

abbrev host_compiled : Compiled
host_compiled = record {
  allow_domains = codes "a.b" ∷ [];
  deny_domains = codes "x.a.b" ∷ [];
  allow_domain_index = record { exact = codes "a.b" ∷ []; suffix = codes "a.b" ∷ [] };
  deny_domain_index = record { exact = codes "x.a.b" ∷ []; suffix = codes "x.a.b" ∷ [] };
  allow_cidrs = [];
  deny_cidrs = [];
  allow_ports = 443 ∷ 80 ∷ [];
  deny_ports = [];
  block_private = true;
  default_deny = true;
}

abbrev child_compiled : Compiled
child_compiled = record host_compiled {
  allow_domains = codes "c.a.b" ∷ [];
  allow_domain_index = record { exact = codes "c.a.b" ∷ []; suffix = codes "c.a.b" ∷ [] };
}

host_compiles : compile plain_netip host_rules ≡ ok host_compiled
unfolding compile compile_cidr parse_domain normalize_host normalize_name valid_name labels to_lower
    index_domains map_result
host_compiles = refl

child_compiles : compile plain_netip child_rules ≡ ok child_compiled
unfolding compile compile_cidr parse_domain normalize_host normalize_name valid_name labels to_lower
    index_domains map_result
child_compiles = refl

child_resolves :
    resolve_preset plain_netip host_rules (codes "api") worker_domains ≡ ok (child_rules, false)
unfolding resolve_preset find_preset worker_rules within_some domain_within compile compile_cidr
    parse_domain normalize_host normalize_name valid_name labels to_lower index_domains map_result
    for_each
child_resolves = refl

resolve_preset_narrows_example : PassesLess plain_netip child_compiled host_compiled
resolve_preset_narrows_example =
    resolve_preset_narrows plain_netip host_rules (codes "api") worker_domains
      plain_netip-IsUnmarked child_resolves host_compiles child_compiles

parse_proxy_rules-proxy_args_example :
    parse_proxy_rules plain_netip (proxy_args child_rules) ≡ ok child_rules
parse_proxy_rules-proxy_args_example =
    parse_proxy_rules-proxy_args plain_netip child_rules child_compiles refl

-- Of two entries of the host mapping, the second pins the address of a proxy.
abbrev pinned_worker : PinnedWorker
pinned_worker = record {
  configured = true;
  proxy_hosts = some (codes "p" ∷ []);
  extra_hosts = codes "q:[::1]" ∷ codes "p:[::1]" ∷ [];
}

proxy_reference_unique_example :
    (names : List Str) × (pinned_worker.proxy_hosts ≡ some names)
    × (codes "p" ≢ [])
    × Any (Pins plain_netip names (v6 1 []) (codes "p")) pinned_worker.extra_hosts
    × All
        (λ e.
          (other : Str) → Pins plain_netip names (v6 1 []) other e → other ≢ [] → other ≡ codes "p")
        pinned_worker.extra_hosts
unfolding proxy_reference choose_name trim_brackets
proxy_reference_unique_example =
    proxy_reference_unique plain_netip pinned_worker (codes "::1") (codes "p") refl refl
