-- ===== src/Engine/Networks/Workers.antt =====
-- Which networks connect of internal/engine/network.go lets a worker join.
use sandbox_codex.Common.{
  >>=-eq-ok, Any, List, Option, Result, Str, [], any, ap, arith, delete, ensure, err, false, inl,
  inr, insert, lookup, lookup-insert, none, not, ok, refl, some, str_eq, str_eq_refl, subst, true,
  ℕ, ◌&&◌, ◌∙◌, ◌∷◌, ◌≡◌, ◌≤◌, ◌⊎◌,
}
use sandbox_codex.Engine.Networks.{
  Container, Endpoint, Engine, EngineError, Host, Network, address, cidr, network, second_network,
  with_network, worker_on_egress,
}
use sandbox_codex.Engine.Networks.Attaching.{IsAttached, attach-IsAttached}
use sandbox_codex.Engine.Networks.Endpoints.{
  attach, check_member, connect, is_worker, join, join_new, new_endpoint, no_networks,
  save_attached, save_both, save_joined, used_addresses, with_endpoint,
}
use sandbox_codex.Engine.Networks.Ownership.{network-member}
use sandbox_codex.NetworkPolicy.Domains.{member}

-- The record of a worker has one endpoint, on an internal network, with an address that it alone
-- has there.
pub record IsAlone (st : Engine) (r s : Container) : Type 0 where
  pub network : Network
  pub stored : Any (λ x. x ≡ network) st.rows
  pub internal : network.internal ≡ true
  pub was_free : r.networks ≡ []
  pub endpoint : Endpoint
  pub only : s.networks ≡ (network.name, endpoint) ∷ []
  pub of_network : endpoint.network_id ≡ network.id
  pub last : ℕ
  pub in_subnet : (2 ≤ last) × (last ≤ 254)
  pub address_is : endpoint.ip_address ≡ address network last
  pub unused : any (str_eq (cidr network last)) (used_addresses network) ≡ false

worker_guards :
    (n : Network) (r : Container)
    → is_worker r ≡ true
    → check_member n r ≡ ok tt
    → (n.internal ≡ true) × (no_networks r.networks ≡ true)
unfolding check_member
worker_guards n r managed_one e =
    let (_, on_egress, e₁) =
      >>=-eq-ok (ensure (not (not n.internal && is_worker r)) worker_on_egress) _ e in
    let (_, second, _) =
      >>=-eq-ok
        (ensure (not (n.internal && (not (no_networks r.networks) && is_worker r))) second_network)
        _ e₁ in
    let internal : n.internal ≡ true = ground (arith, managed_one, on_egress) in
    (internal, ground (arith, managed_one, internal, second))

no_networks-eq : (xs : List (Str × Endpoint)) → no_networks xs ≡ true → xs ≡ []
no_networks-eq [] e = refl
no_networks-eq (x ∷ xs) e = cc e

attached-IsAlone :
    (st : Engine) (n m : Network) (r s : Container)
    → is_worker r ≡ true
    → Any (λ x. x ≡ n) st.rows
    → IsAttached n m r s
    → IsAlone st r s
unfolding insert
attached-IsAlone st n m r s managed_one member new =
    let (internal, free) = worker_guards n r managed_one new.member in
    let none_yet = no_networks-eq r.networks free in
    let made = with_endpoint n r new.last new.index in
    let alone : made.networks ≡ (n.name, new_endpoint n r new.last new.index) ∷ [] =
      ap (λ xs. (n.name, new_endpoint n r new.last new.index) ∷ delete n.name xs) none_yet in
    record {
      network = n;
      stored = member;
      internal = internal;
      was_free = none_yet;
      endpoint = new_endpoint n r new.last new.index;
      only = ap (λ k. k.networks) new.container_is ∙ alone;
      of_network = refl;
      last = new.last;
      in_subnet = (new.low, new.high);
      address_is = refl;
      unused = new.unused;
    }

-- What may become of the record of a worker.
abbrev pub Joined : Engine → Container → Engine → Type 0
Joined st r next =
    (next.containers ≡ st.containers)
    ⊎ ((s : Container) × (lookup r.id next.containers ≡ some s) × IsAlone st r s)

module _ (host : Host) (st : Engine) (r : Container) (managed_one : is_worker r ≡ true) where
  saved-Joined :
      (o : Result EngineError (Unit {0})) (n : Network) (s : Container)
      → s.id ≡ r.id
      → IsAlone st r s
      → Joined st r ((save_joined host o s (with_network n st)).0)
  saved-Joined (err e) n s same alone = inl refl
  saved-Joined (ok _) n s same alone = inr (
    s,
    subst (λ k. lookup k (insert s.id s st.containers) ≡ some s) same
        (lookup-insert s.id s.id s st.containers ∙ (rw (str_eq_refl s.id) refl)),
    alone,
  )

  save_both-Joined :
      (o : Result EngineError (Unit {0})) (n : Network) (s : Container)
      → s.id ≡ r.id
      → IsAlone st r s
      → Joined st r ((save_both host o n s st).0)
  save_both-Joined (err e) n s same alone = inl refl
  save_both-Joined (ok _) n s same alone = saved-Joined host.save_container n s same alone

  attached-Joined :
      (p : Result EngineError (Network × Container)) (n : Network)
      → attach n r ≡ p
      → Any (λ x. x ≡ n) st.rows
      → Joined st r ((save_attached host p st).0)
  attached-Joined (err e) n made member = inl refl
  attached-Joined (ok (m, s)) n made member =
      let new = attach-IsAttached n m r s made in
      save_both-Joined host.save_network m s (ap (λ k. k.id) new.container_is)
        (attached-IsAlone st n m r s managed_one member new)

  join_new-Joined :
      (o : Option Endpoint) (n : Network)
      → Any (λ x. x ≡ n) st.rows
      → Joined st r ((join_new host o n r st).0)
  join_new-Joined (some e) n member = inl refl
  join_new-Joined none n member = attached-Joined (attach n r) n refl member

  join-Joined :
      (value : Str) (res : Result EngineError Network)
      → network value st.rows ≡ res
      → Joined st r ((join host res r st).0)
  join-Joined value (err e) found = inl refl
  join-Joined value (ok n) found =
      join_new-Joined (lookup n.name r.networks) n (network-member value st.rows n found)

-- Whatever network a worker asks for, connect leaves the records of containers as they are, or the
-- worker had no network before and is saved with one endpoint: on an internal network, at an
-- address from .2 to .254 that no other endpoint of the network has.
pub connect_isolates_worker :
    (host : Host) (value : Str) (r : Container) (st : Engine)
    → is_worker r ≡ true
    → Joined st r ((connect host value r st).0)
unfolding connect
connect_isolates_worker host value r st managed_one =
    join-Joined host st r managed_one value (network value st.rows) refl
