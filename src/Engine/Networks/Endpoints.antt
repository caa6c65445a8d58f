-- ===== src/Engine/Networks/Endpoints.antt =====
-- connect, disconnect and removeNetwork of internal/engine/network.go.
use Prim.Native.Nat.{zero, suc}
use sandbox_codex.Common.{
  Bool, List, Option, Result, Str, [], any, codes, delete, ensure, err, false, filter,
  if◌then◌else◌, insert, is_empty, length, lookup, map, none, not, ok, some, str_eq, true, ℕ, ◌&&◌,
  ◌++◌, ◌+◌, ◌>>=◌, ◌>>◌, ◌∷◌,
}
use sandbox_codex.Engine.Networks.{
  Container, Endpoint, Engine, EngineError, Host, Network, Resource, address, attached_endpoints,
  cidr, foreign_endpoint, is_hex_id, leading, network, no_endpoint, not_a_member, second_network,
  with_container, with_network, worker_on_egress,
}
use sandbox_codex.NetworkPolicy.Authority.{itoa}

-- The loop over the last part of an address, with the number of those that are left.
unfoldable pub free_endpoint : Network → List Str → ℕ → ℕ → Option ℕ
free_endpoint n used zero last = none
free_endpoint n used (suc left) last =
    let later = free_endpoint n used left (last + 1) in
    if any (str_eq (cidr n last)) used then later else some last

abbrev pub interface_name : ℕ → Str
interface_name i = codes "eth" ++ itoa i

-- The loop over the interface index, on fuel.
unfoldable pub free_interface : List Str → ℕ → ℕ → Option ℕ
free_interface used zero i = none
free_interface used (suc fuel) i =
    let later = free_interface used fuel (i + 1) in
    if any (str_eq (interface_name i)) used then later else some i

-- Each pass finds another of the used names: one more than there are of them is enough.
abbrev pub interface_index : List Str → Option ℕ
interface_index used = free_interface used (length used + 1) 0

-- `"v" + r.ID[:6] + n.ID[:6]`
abbrev pub host_veth : Str → Network → Str
host_veth cid n = codes "v" ++ (leading 6 cid ++ leading 6 n.id)

abbrev pub is_worker : Container → Bool
is_worker r = str_eq r.managed (codes "true")

abbrev pub no_networks : List (Str × Endpoint) → Bool
no_networks [] = true
no_networks (_ ∷ _) = false

-- The guards of connect.
unfoldable pub check_member : Network → Container → Result EngineError (Unit {0})
check_member n r = do
  ensure (not (not n.internal && is_worker r)) worker_on_egress
  ensure (not (n.internal && (not (no_networks r.networks) && is_worker r))) second_network
  ensure (not (n.internal && (not (is_worker r) && is_empty r.proxy_layout))) not_a_member

abbrev pub found_endpoint : Option ℕ → Result EngineError ℕ
found_endpoint none = err no_endpoint
found_endpoint (some k) = ok k

abbrev pub used_addresses : Network → List Str
used_addresses n = map (λ e. e.1.ipv4) n.containers

abbrev pub used_interfaces : Container → List Str
used_interfaces r = map (λ e. e.1.interface) r.networks

-- `n.Containers[r.ID] = ...`
abbrev pub with_resource : Network → Container → ℕ → Network
with_resource n r last = record n {
  containers =
      insert r.id (record { name = r.name; endpoint_id = host_veth r.id n; ipv4 = cidr n last })
        n.containers;
}

abbrev pub new_endpoint : Network → Container → ℕ → ℕ → Endpoint
new_endpoint n r last i = record {
  network_id = n.id;
  endpoint_id = host_veth r.id n;
  ip_address = address n last;
  gateway = n.gateway;
  interface = interface_name i;
}

-- `r.Networks[n.Name] = ...`
abbrev pub with_endpoint : Network → Container → ℕ → ℕ → Container
with_endpoint n r last i = record r {
  networks = insert n.name (new_endpoint n r last i) r.networks;
}

-- The records with a new endpoint.
unfoldable pub attach : Network → Container → Result EngineError (Network × Container)
attach n r = do
  check_member n r
  last ← found_endpoint (free_endpoint n (used_addresses n) 253 2)
  i ← found_endpoint (interface_index (used_interfaces r))
  ok (with_resource n r last, with_endpoint n r last i)

abbrev pub Outcome : Type 0
Outcome = Engine × Result EngineError (Unit {0})

module _ (host : Host) where
  -- The record of the container is saved, and its endpoint is built.
  abbrev pub save_joined : Result EngineError (Unit {0}) → Container → Engine → Outcome
  save_joined (err e) r st = (st, err e)
  save_joined (ok _) r st = (with_container r st, host.build_endpoint)

  -- The record of the network is saved before that.
  abbrev pub save_both : Result EngineError (Unit {0}) → Network → Container → Engine → Outcome
  save_both (err e) n r st = (st, err e)
  save_both (ok _) n r st = save_joined host.save_container r (with_network n st)

  abbrev pub save_attached : Result EngineError (Network × Container) → Engine → Outcome
  save_attached (err e) st = (st, err e)
  save_attached (ok p) st = save_both host.save_network (p.0) (p.1) st

  -- A container that the network has already is left as it is.
  abbrev pub join_new : Option Endpoint → Network → Container → Engine → Outcome
  join_new (some e) n r st = (st, ok tt)
  join_new none n r st = save_attached (attach n r) st

  abbrev pub join : Result EngineError Network → Container → Engine → Outcome
  join (err e) r st = (st, err e)
  join (ok n) r st = join_new (lookup n.name r.networks) n r st

  -- connect
  unfoldable pub connect : Str → Container → Engine → Outcome
  connect value r st = join (network value st.rows) r st

  abbrev pub save_left : Result EngineError (Unit {0}) → Container → Engine → Outcome
  save_left (err e) r st = (st, err e)
  save_left (ok _) r st = (with_container r st, ok tt)

  -- A container that is gone has no endpoint to forget.
  abbrev pub forget_endpoint : Network → Option Container → Engine → Outcome
  forget_endpoint n none st = (st, ok tt)
  forget_endpoint n (some r) st =
      save_left host.save_container (record r { networks = delete n.name r.networks }) st

  abbrev pub without_resource : Network → Str → Network
  without_resource n cid = record n { containers = delete cid n.containers }

  abbrev pub drop_resource : Result EngineError (Unit {0}) → Network → Str → Engine → Outcome
  drop_resource (err e) n cid st = (st, err e)
  drop_resource (ok _) n cid st =
      forget_endpoint n (lookup cid st.containers) (with_network (without_resource n cid) st)

  abbrev pub unlink_endpoint : Result EngineError (Unit {0}) → Network → Str → Engine → Outcome
  unlink_endpoint (err e) n cid st = (st, err e)
  unlink_endpoint (ok _) n cid st = drop_resource host.save_network n cid st

  -- An endpoint that the record does not own is refused.
  abbrev pub release_endpoint : Bool → Network → Str → Engine → Outcome
  release_endpoint false n cid st = (st, err foreign_endpoint)
  release_endpoint true n cid st = unlink_endpoint host.remove_link n cid st

  abbrev pub leave : Option Resource → Network → Str → Engine → Outcome
  leave none n cid st = (st, ok tt)
  leave (some e) n cid st =
      release_endpoint (is_hex_id cid && str_eq e.endpoint_id (host_veth cid n)) n cid st

  -- disconnect
  unfoldable pub disconnect : Network → Str → Engine → Outcome
  disconnect n cid st = leave (lookup cid n.containers) n cid st

  abbrev pub remove_row : Str → List Network → List Network
  remove_row id rows = filter (λ m. not (str_eq m.id id)) rows

  abbrev pub remove_unused : Result EngineError (Unit {0}) → Network → Engine → Outcome
  remove_unused (err e) n st = (st, err e)
  remove_unused (ok _) n st = (record st { rows = remove_row n.id st.rows }, ok tt)

  abbrev pub remove_empty : List (Str × Resource) → Network → Engine → Outcome
  remove_empty (_ ∷ _) n st = (st, err attached_endpoints)
  remove_empty [] n st = remove_unused host.remove_bridge n st

  -- removeNetwork
  unfoldable pub remove_network : Network → Engine → Outcome
  remove_network n st = remove_empty n.containers n st
