-- ===== src/Engine/Networks/Attaching.antt =====
-- The endpoint that connect of internal/engine/network.go gives a container.
use Prim.Native.Nat.{zero, suc}
use sandbox_codex.Common.{
  >>=-eq-ok, All, All-delete, Bool-cases, List, Option, Pairwise, Pairwise-delete, Result, Str, [],
  any, ap, arith, err, false, inl, inr, insert, map, none, ok, some, str_eq, str_eq_iff, subst, sym,
  ℕ, ◌+◌, ◌<◌, ◌∷◌, ◌≡◌, ◌≢◌, ◌≤◌,
}
use sandbox_codex.Engine.Networks.{Container, EngineError, Network, Resource, cidr}
use sandbox_codex.Engine.Networks.Endpoints.{
  attach, check_member, found_endpoint, free_endpoint, interface_index, used_addresses,
  used_interfaces, with_endpoint, with_resource,
}
use sandbox_codex.Engine.Networks.Ownership.{OtherAddress}
use sandbox_codex.NetworkPolicy.Domains.{member}

free_endpoint-unused :
    (n : Network) (used : List Str) (left last k : ℕ)
    → free_endpoint n used left last ≡ some k
    → (any (str_eq (cidr n k)) used ≡ false) × (last ≤ k) × (k < last + left)
unfolding free_endpoint
free_endpoint-unused n used zero last k e = cc e
free_endpoint-unused n used (suc left) last k e =
    elim (Bool-cases (any (str_eq (cidr n last)) used)) [
      | inl taken ↦
          let (unused, low, high) = free_endpoint-unused n used left (last + 1) k (rw taken at e) in
          (unused, omega arith, omega arith)
      | inr free ↦
          let same : last ≡ k = cc (rw free at e) in
          (subst (λ j. any (str_eq (cidr n j)) used ≡ false) same free, omega arith, omega arith)
    ]

found_endpoint-eq : (o : Option ℕ) (k : ℕ) → found_endpoint o ≡ ok k → o ≡ some k
found_endpoint-eq none k e = cc e
found_endpoint-eq (some j) k e = ap some (cc e)

abbrev attached :
    {A : Type 0} → A → (Network × Container → A) → Result EngineError (Network × Container) → A
attached d f (err e) = d
attached d f (ok p) = f p

-- What connect has chosen for a new endpoint.
pub record IsAttached (n m : Network) (r s : Container) : Type 0 where
  pub member : check_member n r ≡ ok tt
  pub last : ℕ
  pub unused : any (str_eq (cidr n last)) (used_addresses n) ≡ false
  pub low : 2 ≤ last
  pub high : last ≤ 254
  pub index : ℕ
  pub chosen : interface_index (used_interfaces r) ≡ some index
  pub network_is : m ≡ with_resource n r last
  pub container_is : s ≡ with_endpoint n r last index

pub attach-IsAttached :
    (n m : Network) (r s : Container) → attach n r ≡ ok (m, s) → IsAttached n m r s
unfolding attach
attach-IsAttached n m r s e =
    let (_, member, e₁) = >>=-eq-ok (check_member n r) _ e in
    let (last, free, e₂) =
      >>=-eq-ok (found_endpoint (free_endpoint n (used_addresses n) 253 2)) _ e₁ in
    let (i, index, made) = >>=-eq-ok (found_endpoint (interface_index (used_interfaces r))) _ e₂ in
    let (unused, low, high) =
      free_endpoint-unused n (used_addresses n) 253 2 last (found_endpoint-eq _ last free) in
    record {
      member = member;
      last = last;
      unused = unused;
      low = low;
      high = omega arith;
      index = i;
      chosen = found_endpoint-eq _ i index;
      network_is = sym (ap (attached n (λ p. p.0)) made);
      container_is = sym (ap (attached r (λ p. p.1)) made);
    }

unused-OtherAddress :
    (a : Str) (cs : List (Str × Resource))
    → any (str_eq a) (map (λ e. e.1.ipv4) cs) ≡ false
    → All (λ f. a ≢ f.1.ipv4) cs
unused-OtherAddress a [] e = tt
unused-OtherAddress a (f ∷ cs) e =
    let first : str_eq a f.1.ipv4 ≡ false = ground (arith, e) in
    (
      (λ same. cc (first, (str_eq_iff a f.1.ipv4).1 same)),
      unused-OtherAddress a cs (ground (arith, e)),
    )

pub attached_addresses :
    (n m : Network) (r s : Container)
    → IsAttached n m r s
    → Pairwise OtherAddress n.containers
    → Pairwise OtherAddress m.containers
unfolding insert
attached_addresses n m r s new apart =
    subst (λ k. Pairwise OtherAddress k.containers) (sym new.network_is)
      (
        All-delete (λ f. cidr n new.last ≢ f.1.ipv4) r.id n.containers
            (unused-OtherAddress (cidr n new.last) n.containers new.unused),
        Pairwise-delete OtherAddress r.id n.containers apart,
      )
