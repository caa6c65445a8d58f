-- ===== src/Engine/Networks/Ownership.antt =====
-- What the network records of internal/engine/network.go keep apart: IDs, subnets and addresses.
use sandbox_codex.Common.{
  >>=-eq-ok, All, Any, Bool-cases, List, Option, Pairwise, Str, [], ap, inl, inr, none, ok, some,
  str_eq, str_eq_iff, subst, sym, ◌∙◌, ◌∷◌, ◌≡◌, ◌≢◌, ◌⊎◌,
}
use sandbox_codex.Engine.Networks.{
  Network, Resource, find_network, is_named, network, networks, put_network,
}
use sandbox_codex.Engine.Networks.Slots.{networks_same}
use sandbox_codex.NetworkPolicy.Domains.{member}
use sandbox_codex.WorkerPolicy.{fits}

-- Two records of different networks.
abbrev pub Differ : Network → Network → Type 0
Differ m n = (m.id ≢ n.id) × (m.slot ≢ n.slot)

-- Two endpoints with different addresses.
abbrev pub OtherAddress : Str × Resource → Str × Resource → Type 0
OtherAddress e f = e.1.ipv4 ≢ f.1.ipv4

-- Different networks have different IDs and subnets, and in each the endpoints have different
-- addresses.
pub record IsOwned (rows : List Network) : Type 0 where
  pub networks : Pairwise Differ rows
  pub addresses : All (λ n. Pairwise OtherAddress n.containers) rows

-- The record may be saved: of those that it does not replace, none has its slot.
abbrev pub Fits : Network → List Network → Type 0
Fits n rows = All (λ m. (m.id ≡ n.id) ⊎ (m.slot ≢ n.slot)) rows

module _ (P : Network → Type 0) (n : Network) where
  pub All-put_network : (rows : List Network) → P n → All P rows → All P (put_network n rows)
  unfolding put_network
  All-put_network [] one others = (one, tt)
  All-put_network (m ∷ rows) one (first, others) = elim (Bool-cases (str_eq m.id n.id)) [
    | inl same ↦ rw same (one, others)
    | inr other ↦ rw other (first, All-put_network rows one others)
  ]

module _ (n : Network) where
  replaced_differ :
      (m : Network) (rows : List Network)
      → m.id ≡ n.id
      → All (Differ m) rows
      → Fits n rows
      → All (Differ n) rows
  replaced_differ m [] same apart fits = tt
  replaced_differ m (x ∷ rows) same ((ids, slots), apart) (fit, fits) =
      let other : n.id ≢ x.id = λ e. ids (same ∙ e) in
      (
        (
          other,
          (λ e. elim fit [ inl is_n ↦ other (sym is_n) | inr different ↦ different (sym e) ]),
        ),
        replaced_differ m rows same apart fits,
      )

  Pairwise-put_network :
      (rows : List Network)
      → Pairwise Differ rows
      → Fits n rows
      → Pairwise Differ (put_network n rows)
  unfolding put_network
  Pairwise-put_network [] apart fits = (tt, tt)
  Pairwise-put_network (m ∷ rows) (first, apart) (fit, fits) =
      elim (Bool-cases (str_eq m.id n.id)) [
        | inl same ↦
            let equal = (str_eq_iff m.id n.id).0 same in
            rw same (replaced_differ m rows equal first fits, apart)
        | inr other ↦
            let different : m.id ≢ n.id = λ e. cc ((str_eq_iff m.id n.id).1 e, other) in
            let slots : m.slot ≢ n.slot = elim fit [ inl e ↦ absurd (different e) | inr s ↦ s ] in
            rw other (
              All-put_network (Differ m) n rows (different, slots) first,
              Pairwise-put_network rows apart fits,
            )
      ]

-- A record that is among the rows fits them.
module _ (n : Network) where
  others-Fits : (rows : List Network) → All (Differ n) rows → Fits n rows
  others-Fits [] apart = tt
  others-Fits (m ∷ rows) ((ids, slots), apart) = (inr (λ e. slots (sym e)), others-Fits rows apart)

  before-Fits :
      (m : Network) (rows : List Network)
      → All (Differ m) rows
      → Any (λ x. x ≡ n) rows
      → m.slot ≢ n.slot
  before-Fits m [] apart a = absurd a
  before-Fits m (x ∷ rows) ((ids, slots), apart) (inl same) =
      λ e. slots (e ∙ sym (ap (λ k. k.slot) same))
  before-Fits m (x ∷ rows) (first, apart) (inr later) = before-Fits m rows apart later

  pub member-Fits :
      (rows : List Network) → Pairwise Differ rows → Any (λ x. x ≡ n) rows → Fits n rows
  member-Fits [] apart a = absurd a
  member-Fits (m ∷ rows) (first, apart) (inl same) =
      (inl (ap (λ k. k.id) same), others-Fits rows (subst (λ k. All (Differ k) rows) same first))
  member-Fits (m ∷ rows) (first, apart) (inr later) =
      (inr (before-Fits m rows first later), member-Fits rows apart later)

-- What network() finds is among the rows, or was found before.
find_network-member :
    (value : Str) (rows : List Network) (found : Option Network) (n : Network)
    → find_network value found rows ≡ ok n
    → (found ≡ some n) ⊎ Any (λ x. x ≡ n) rows
unfolding find_network
find_network-member value [] none n e = cc e
find_network-member value [] (some m) n e = inl (ap some (cc e))
find_network-member value (m ∷ rows) none n e = elim (Bool-cases (is_named value m)) [
  | inl named ↦ elim (find_network-member value rows (some m) n (rw named at e)) [
    | inl same ↦ inr (inl (cc same))
    | inr later ↦ inr (inr later)
  ]
  | inr other ↦ elim (find_network-member value rows none n (rw other at e)) [
    | inl same ↦ cc same
    | inr later ↦ inr (inr later)
  ]
]
find_network-member value (m ∷ rows) (some k) n e = elim (Bool-cases (is_named value m)) [
  | inl named ↦ cc (rw named at e)
  | inr other ↦ elim (find_network-member value rows (some k) n (rw other at e)) [
    | inl same ↦ inl same
    | inr later ↦ inr (inr later)
  ]
]

pub network-member :
    (value : Str) (rows : List Network) (n : Network)
    → network value rows ≡ ok n
    → Any (λ x. x ≡ n) rows
unfolding network
network-member value rows n e =
    let (all_rows, loaded, found) = >>=-eq-ok (networks rows) _ e in
    elim (find_network-member value all_rows none n found) [
      | inl same ↦ cc same
      | inr member ↦ subst (Any (λ x. x ≡ n)) (networks_same rows all_rows loaded) member
    ]

pub member-All :
    (P : Network → Type 0) (rows : List Network) (n : Network)
    → All P rows
    → Any (λ x. x ≡ n) rows
    → P n
member-All P [] n all_hold a = absurd a
member-All P (m ∷ rows) n (one, others) (inl same) = subst P same one
member-All P (m ∷ rows) n (one, others) (inr later) = member-All P rows n others later

-- Saving a record that fits keeps the networks apart.
pub put_network-IsOwned :
    (n : Network) (rows : List Network)
    → IsOwned rows
    → Fits n rows
    → Pairwise OtherAddress n.containers
    → IsOwned (put_network n rows)
put_network-IsOwned n rows owned fits apart = record {
  networks = Pairwise-put_network n rows owned.networks fits;
  addresses =
      All-put_network (λ m. Pairwise OtherAddress m.containers) n rows apart owned.addresses;
}
