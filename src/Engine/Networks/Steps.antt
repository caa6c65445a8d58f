-- ===== src/Engine/Networks/Steps.antt =====
-- Every run of createNetwork, connect, disconnect and removeNetwork of internal/engine/network.go,
-- and every failure in between, keeps IDs, subnets and addresses apart.
use sandbox_codex.Common.{
  All, All-filter, All-mono, Any, Bool, List, Option, Pairwise, Pairwise-delete, Pairwise-filter,
  Result, Str, [], delete, err, false, inl, inr, lookup, none, not, ok, refl, some, str_eq, subst,
  sym, true, ◌&&◌, ◌∷◌, ◌≡◌, ◌≢◌, ◌⊎◌,
}
use sandbox_codex.Engine.Networks.{
  Container, CreateOptions, Endpoint, Engine, EngineError, Host, Network, Resource, commit_network,
  create_network, is_hex_id, materialize_network, network, plan_network, save_planned, with_gateway,
  with_network,
}
use sandbox_codex.Engine.Networks.Apart.{plan_network_apart}
use sandbox_codex.Engine.Networks.Attaching.{attach-IsAttached, attached_addresses}
use sandbox_codex.Engine.Networks.Endpoints.{
  attach, connect, disconnect, drop_resource, forget_endpoint, host_veth, join, join_new, leave,
  release_endpoint, remove_empty, remove_network, remove_unused, save_attached, save_both,
  save_joined, save_left, unlink_endpoint, without_resource,
}
use sandbox_codex.Engine.Networks.Ownership.{
  All-put_network, Differ, Fits, IsOwned, OtherAddress, member-All, member-Fits, network-member,
  put_network-IsOwned,
}
use sandbox_codex.Engine.Networks.Slots.{plan_network-IsPlanned}
use sandbox_codex.NetworkPolicy.Domains.{member}
use sandbox_codex.WorkerPolicy.{fits}

-- The state of an engine whose networks are kept apart.
abbrev Keeps : Engine → Type 0
Keeps st = IsOwned st.rows

module _ (host : Host) where
  save_joined-Keeps :
      (o : Result EngineError (Unit {0})) (r : Container) (st : Engine)
      → Keeps st
      → Keeps ((save_joined host o r st).0)
  save_joined-Keeps (err e) r st k = k
  save_joined-Keeps (ok _) r st k = k

  save_both-Keeps :
      (o : Result EngineError (Unit {0})) (n : Network) (r : Container) (st : Engine)
      → Keeps st
      → Keeps (with_network n st)
      → Keeps ((save_both host o n r st).0)
  save_both-Keeps (err e) n r st k saved = k
  save_both-Keeps (ok _) n r st k saved =
      save_joined-Keeps host.save_container r (with_network n st) saved

  save_attached-Keeps :
      (p : Result EngineError (Network × Container)) (n : Network) (r : Container) (st : Engine)
      → attach n r ≡ p
      → Keeps st
      → Any (λ x. x ≡ n) st.rows
      → Keeps ((save_attached host p st).0)
  save_attached-Keeps (err e) n r st made k member = k
  save_attached-Keeps (ok (m, s)) n r st made k member =
      let new = attach-IsAttached n m r s made in
      let fits = member-Fits n st.rows k.networks member in
      let addresses =
        attached_addresses n m r s new
          (member-All (λ x. Pairwise OtherAddress x.containers) st.rows n k.addresses member) in
      save_both-Keeps host.save_network m s st k (
        put_network-IsOwned m st.rows k
          (subst (λ x. All (λ y. (y.id ≡ x.id) ⊎ (y.slot ≢ x.slot)) st.rows) (sym new.network_is)
            fits)
          addresses)

  join_new-Keeps :
      (o : Option Endpoint) (n : Network) (r : Container) (st : Engine)
      → Keeps st
      → Any (λ x. x ≡ n) st.rows
      → Keeps ((join_new host o n r st).0)
  join_new-Keeps (some e) n r st k member = k
  join_new-Keeps none n r st k member = save_attached-Keeps (attach n r) n r st refl k member

  connect-Keeps :
      (value : Str) (r : Container) (st : Engine) → Keeps st → Keeps ((connect host value r st).0)
  unfolding connect
  connect-Keeps value r st k = join-Keeps (network value st.rows) refl
    where
      join-Keeps :
          (res : Result EngineError Network)
          → network value st.rows ≡ res
          → Keeps ((join host res r st).0)
      join-Keeps (err e) found = k
      join-Keeps (ok n) found =
          join_new-Keeps (lookup n.name r.networks) n r st k (network-member value st.rows n found)

  forget_endpoint-Keeps :
      (n : Network) (o : Option Container) (st : Engine)
      → Keeps st
      → Keeps ((forget_endpoint host n o st).0)
  forget_endpoint-Keeps n none st k = k
  forget_endpoint-Keeps n (some r) st k = of_saved host.save_container
    where
      of_saved :
          (o : Result EngineError (Unit {0}))
          → Keeps ((save_left host o (record r { networks = delete n.name r.networks }) st).0)
      of_saved (err e) = k
      of_saved (ok _) = k

  drop_resource-Keeps :
      (o : Result EngineError (Unit {0})) (n : Network) (cid : Str) (st : Engine)
      → Keeps st
      → Any (λ x. x ≡ n) st.rows
      → Keeps ((drop_resource host o n cid st).0)
  drop_resource-Keeps (err e) n cid st k member = k
  drop_resource-Keeps (ok _) n cid st k member =
      forget_endpoint-Keeps n (lookup cid st.containers)
        (with_network (without_resource host n cid) st)
        (put_network-IsOwned (without_resource host n cid) st.rows k
          (member-Fits n st.rows k.networks member)
          (Pairwise-delete OtherAddress cid n.containers
            (member-All (λ x. Pairwise OtherAddress x.containers) st.rows n k.addresses member)))

  disconnect-Keeps :
      (n : Network) (cid : Str) (st : Engine)
      → Keeps st
      → Any (λ x. x ≡ n) st.rows
      → Keeps ((disconnect host n cid st).0)
  unfolding disconnect
  disconnect-Keeps n cid st k member = of_resource (lookup cid n.containers)
    where
      of_link : (o : Result EngineError (Unit {0})) → Keeps ((unlink_endpoint host o n cid st).0)
      of_link (err e) = k
      of_link (ok _) = drop_resource-Keeps host.save_network n cid st k member

      of_test : (b : Bool) → Keeps ((release_endpoint host b n cid st).0)
      of_test false = k
      of_test true = of_link host.remove_link

      of_resource : (o : Option Resource) → Keeps ((leave host o n cid st).0)
      of_resource none = k
      of_resource (some e) = of_test (is_hex_id cid && str_eq e.endpoint_id (host_veth cid n))

  remove_network-Keeps :
      (n : Network) (st : Engine) → Keeps st → Keeps ((remove_network host n st).0)
  unfolding remove_network
  remove_network-Keeps n st k = of_containers n.containers
    where
      of_bridge : (o : Result EngineError (Unit {0})) → Keeps ((remove_unused host o n st).0)
      of_bridge (err e) = k
      of_bridge (ok _) = record {
        networks = Pairwise-filter Differ (λ m. not (str_eq m.id n.id)) st.rows k.networks;
        addresses =
            All-filter (λ m. Pairwise OtherAddress m.containers) (λ m. not (str_eq m.id n.id))
              st.rows k.addresses;
      }

      of_containers : (cs : List (Str × Resource)) → Keeps ((remove_empty host cs n st).0)
      of_containers (c ∷ cs) = k
      of_containers [] = of_bridge host.remove_bridge

  planned-Fits : (rows : List Network) (n : Network) → All (λ m. m.slot ≢ n.slot) rows → Fits n rows
  planned-Fits rows n apart =
      All-mono (λ m. m.slot ≢ n.slot) (λ m. (m.id ≡ n.id) ⊎ (m.slot ≢ n.slot))
        (λ m other. inr other) rows apart

  materialize-Keeps :
      (o : Result EngineError (Unit {0})) (n : Network) (st : Engine)
      → Keeps st
      → Fits n st.rows
      → n.containers ≡ []
      → Keeps ((materialize_network host o n st).0)
  materialize-Keeps (err e) n st k fits empty = k
  materialize-Keeps (ok _) n st k fits empty =
      put_network-IsOwned (with_gateway host n) st.rows k fits
        (subst (Pairwise OtherAddress) (sym empty) tt)

  create_network-Keeps :
      (name : Str) (o : CreateOptions) (st : Engine)
      → Keeps st
      → Keeps ((create_network host name o st).0)
  unfolding create_network
  create_network-Keeps name o st k = of_plan (plan_network host st.rows name o) refl
    where
      of_saved :
          (r : Result EngineError (Unit {0})) (n : Network)
          → Fits n st.rows
          → n.containers ≡ []
          → Keeps ((save_planned host r n st).0)
      of_saved (err e) n fits empty = k
      of_saved (ok _) n fits empty =
          materialize-Keeps host.build_network n (with_network n st)
            (put_network-IsOwned n st.rows k fits (subst (Pairwise OtherAddress) (sym empty) tt))
            (All-put_network (λ m. (m.id ≡ n.id) ⊎ (m.slot ≢ n.slot)) n st.rows (inl refl) fits)
            empty

      of_plan :
          (p : Result EngineError Network)
          → plan_network host st.rows name o ≡ p
          → Keeps ((commit_network host p st).0)
      of_plan (err e) planned = k
      of_plan (ok n) planned =
          let (_, _, _, _, _, _, apart, _, _) = plan_network_apart host st.rows name o n planned in
          of_saved host.save_network n (planned-Fits st.rows n apart)
            (plan_network-IsPlanned host st.rows name o n planned).empty

-- One request to the node, with whatever the host answers.
pub data Step : Engine → Engine → Type 0 where
  create_step :
      (host : Host) (name : Str) (o : CreateOptions) (st : Engine)
      → Step st ((create_network host name o st).0)
  connect_step :
      (host : Host) (value : Str) (r : Container) (st : Engine)
      → Step st ((connect host value r st).0)
  disconnect_step :
      (host : Host) (value cid : Str) (n : Network) (st : Engine)
      → network value st.rows ≡ ok n
      → Step st ((disconnect host n cid st).0)
  remove_step :
      (host : Host) (value : Str) (n : Network) (st : Engine)
      → network value st.rows ≡ ok n
      → Step st ((remove_network host n st).0)

abbrev pub empty_engine : Engine
empty_engine = record { rows = []; containers = [] }

pub data IsReachable : Engine → Type 0 where
  on_empty : IsReachable empty_engine
  on_request : {st next : Engine} → IsReachable st → Step st next → IsReachable next

Step-Keeps : {st next : Engine} → Step st next → Keeps st → Keeps next
Step-Keeps (create_step host name o st) k = create_network-Keeps host name o st k
Step-Keeps (connect_step host value r st) k = connect-Keeps host value r st k
Step-Keeps (disconnect_step host value cid n st found) k =
    disconnect-Keeps host n cid st k (network-member value st.rows n found)
Step-Keeps (remove_step host value n st found) k = remove_network-Keeps host n st k

-- In every state that requests to create, connect, disconnect and remove lead to from an empty
-- node, whatever saves and commands fail on the way: different networks have different IDs and
-- different subnets, and the endpoints of a network have different addresses.
pub IsReachable-IsOwned : {st : Engine} → IsReachable st → IsOwned st.rows
IsReachable-IsOwned on_empty = record { networks = tt; addresses = tt }
IsReachable-IsOwned (on_request before step) = Step-Keeps step (IsReachable-IsOwned before)
