-- ===== src/Engine/Networks/Samples.antt =====
-- A node with one host network, and requests to it (internal/engine/network.go).
use Prim.Native.Nat.{zero, suc}
use sandbox_codex.Common.{
  All, List, Option, Str, [], any, ap, codes, delete, false, filter, if◌then◌else◌, insert, length,
  lookup, map, none, ok, refl, some, str_eq, subst, true, ℕ, ◌*◌, ◌++◌, ◌+◌, ◌<◌, ◌^◌, ◌∷◌, ◌≡◌,
  ◌≢◌, ◌≤◌,
}
use sandbox_codex.Engine.Networks.{
  Container, CreateOptions, Engine, Host, Network, create_network, find_network, free_slot,
  is_narrow, network, networks, plan_network, put_network, read_prefixes, subnet,
}
use sandbox_codex.Engine.Networks.Apart.{Avoids, RouteAvoids, plan_network_apart}
use sandbox_codex.Engine.Networks.Endpoints.{
  attach, check_member, connect, free_endpoint, free_interface, interface_index, interface_name,
  used_addresses,
}
use sandbox_codex.Engine.Networks.Interfaces.{interface_index_ends}
use sandbox_codex.Engine.Networks.Ownership.{IsOwned}
use sandbox_codex.Engine.Networks.Slots.{IsFree}
use sandbox_codex.Engine.Networks.Steps.{
  IsReachable, IsReachable-IsOwned, connect_step, create_step, empty_engine, on_empty, on_request,
}
use sandbox_codex.Engine.Networks.Workers.{Joined, connect_isolates_worker}
use sandbox_codex.NetworkPolicy.Authority.{itoa, itoa_fuel}
use sandbox_codex.NetworkPolicy.Netip.{Addr, Prefix, contains, v4}

abbrev repeated : ℕ → Str
repeated zero = []
repeated (suc n) = b'a' ∷ repeated n

-- netip.ParsePrefix, on the texts below.
abbrev sample_parse : Str → Option Prefix
sample_parse s =
    if str_eq s (codes "10.253.1.7/24")
    then some (record { addr = v4 (10 * 2 ^ 24 + 253 * 2 ^ 16 + 2 ^ 8 + 7); bits = some 24 })
    else none

-- The host has the interface 10.253.1.7/24 and a default route, whose destination is no prefix.
abbrev sample_host : Host
sample_host = record {
  forwards = ok true;
  parse_prefix = sample_parse;
  interfaces = ok (codes "10.253.1.7/24" ∷ []);
  routes = ok (codes "default" ∷ []);
  new_id = ok (repeated 64);
  save_network = ok tt;
  save_container = ok tt;
  build_network = ok tt;
  build_endpoint = ok tt;
  remove_link = ok tt;
  remove_bridge = ok tt;
}

abbrev inside_options : CreateOptions
inside_options = record { driver = codes "bridge"; internal = true; enable_ipv6 = none }

abbrev sample_network : Network
sample_network = record {
  id = repeated 64;
  name = codes "net";
  internal = true;
  slot = 2;
  bridge = codes "cdxaaaaaaaaaaaa";
  gateway = [];
  containers = [];
}

abbrev one_network : Engine
one_network = record { rows = sample_network ∷ []; containers = [] }

sample_planned : plan_network sample_host [] (codes "net") inside_options ≡ ok sample_network
unfolding plan_network network networks find_network free_slot read_prefixes
sample_planned = refl

sample_created :
    create_network sample_host (codes "net") inside_options empty_engine
    ≡ (one_network, ok (repeated 64))
unfolding create_network plan_network network networks find_network free_slot put_network
    read_prefixes
sample_created = refl

plan_network_apart_example :
    (is : List Str) × (rs : List Str) × (sample_host.interfaces ≡ ok is)
    × (sample_host.routes ≡ ok rs)
    × (1 ≤ sample_network.slot)
    × (sample_network.slot ≤ 254)
    × All (λ (m : Network). m.slot ≢ sample_network.slot) []
    × ((a : Addr)
        → contains (subnet sample_network.slot) a ≡ true
        → All (Avoids sample_parse a) is × All (RouteAvoids sample_parse a) rs)
    × ((k : ℕ)
        → 1 ≤ k
        → k < sample_network.slot
        → ¬ IsFree []
            (read_prefixes sample_parse is ++ filter is_narrow (read_prefixes sample_parse rs))
            k)
plan_network_apart_example =
    plan_network_apart sample_host [] (codes "net") inside_options sample_network sample_planned

abbrev sample_worker : Container
sample_worker = record {
  id = codes "0123456789abcdef";
  name = codes "w";
  managed = codes "true";
  proxy_layout = [];
  networks = [];
}

abbrev sample_proxy : Container
sample_proxy = record sample_worker {
  id = codes "fedcba9876543210";
  managed = [];
  proxy_layout = codes "2";
}

abbrev first_joined : Engine
first_joined = (connect sample_host (codes "net") sample_proxy one_network).0

abbrev both_joined : Engine
both_joined = (connect sample_host (codes "net") sample_worker first_joined).0

-- The proxy and the worker get different addresses.
sample_addresses :
    map used_addresses both_joined.rows ≡ (codes "10.253.2.3/24" ∷ codes "10.253.2.2/24" ∷ []) ∷ []
unfolding connect attach check_member network networks find_network free_endpoint free_interface
    put_network insert delete lookup itoa itoa_fuel
sample_addresses = refl

both_joined-IsReachable : IsReachable both_joined
both_joined-IsReachable =
    let created : IsReachable one_network =
      subst IsReachable (ap (λ p. p.0) sample_created)
        (on_request on_empty (create_step sample_host (codes "net") inside_options empty_engine)) in
    on_request
      (on_request created (connect_step sample_host (codes "net") sample_proxy one_network))
      (connect_step sample_host (codes "net") sample_worker first_joined)

IsReachable-IsOwned_example : IsOwned both_joined.rows
IsReachable-IsOwned_example = IsReachable-IsOwned both_joined-IsReachable

connect_isolates_worker_example :
    Joined one_network sample_worker
      ((connect sample_host (codes "net") sample_worker one_network).0)
connect_isolates_worker_example =
    connect_isolates_worker sample_host (codes "net") sample_worker one_network refl

interface_index_ends_example :
    (k : ℕ) × (interface_index (codes "eth1" ∷ codes "eth0" ∷ []) ≡ some k)
    × (k ≤ length (codes "eth1" ∷ codes "eth0" ∷ []))
    × (any (str_eq (interface_name k)) (codes "eth1" ∷ codes "eth0" ∷ []) ≡ false)
    × ((j : ℕ) → j < k → any (str_eq (interface_name j)) (codes "eth1" ∷ codes "eth0" ∷ []) ≡ true)
interface_index_ends_example = interface_index_ends (codes "eth1" ∷ codes "eth0" ∷ [])
