-- ===== src/Engine/Networks/Slots.antt =====
-- The subnet that createNetwork of internal/engine/network.go chooses.
use Prim.Native.Nat.{zero, suc}
use native.Mathlib.Nat.{div-div-eq-div-mul, mul_assoc, pow-suc}
use sandbox_codex.Common.{
  ==_iff, >>=-eq-ok, All, Bool, Bool-cases, List, Option, Result, Str, [], all, any, ap, arith,
  codes, ensure, err, false, filter, if◌then◌else◌, inl, inr, leb, none, not, ok, refl, some,
  str_eq, subst, sym, true, ℕ, ◌&&◌, ◌*◌, ◌++◌, ◌+◌, ◌-◌, ◌/◌, ◌<◌, ◌==◌, ◌^◌, ◌∙◌, ◌∷◌, ◌≡◌, ◌≤◌,
}
use sandbox_codex.Engine.Networks.{
  CreateOptions, EngineError, Host, Network, Resource, absent, bad_network_request,
  check_forwarding, free_slot, ipv6_refused, is_narrow, is_sound, is_valid_name, network, networks,
  overlaps, plan_network, read_prefixes, some_slot, subnet,
}
use sandbox_codex.NetworkPolicy.Netip.{Addr, Prefix, contains, same_bits, v4, v6}

-- No network has the slot, and no prefix of the host overlaps its subnet.
pub record IsFree (rows : List Network) (host : List Prefix) (slot : ℕ) : Type 0 where
  pub unused : any (λ n. n.slot == slot) rows ≡ false
  pub apart : any (λ p. overlaps p (subnet slot)) host ≡ false

module _ (rows : List Network) (host : List Prefix) where
  -- The first free slot of a range.
  pub record IsFirst (slot left k : ℕ) : Type 0 where
    pub free : IsFree rows host k
    pub low : slot ≤ k
    pub high : k < slot + left
    pub least : (j : ℕ) → slot ≤ j → j < k → ¬ IsFree rows host j

  IsFirst-skip :
      (slot left k : ℕ)
      → ¬ IsFree rows host slot
      → IsFirst (slot + 1) left k
      → IsFirst slot (suc left) k
  IsFirst-skip slot left k blocked f =
      let low = f.low in
      let high = f.high in
      record {
        free = f.free;
        low = omega arith;
        high = omega arith;
        least = λ j lo hi free. elim (Bool-cases (j == slot)) [
          | inl same ↦ blocked (subst (IsFree rows host) ((==_iff j slot).0 same) free)
          | inr other ↦ f.least j (ground arith) hi free
        ];
      }

  pub free_slot-IsFirst :
      (left slot k : ℕ) → free_slot rows host left slot ≡ some k → IsFirst slot left k
  unfolding free_slot
  free_slot-IsFirst zero slot k e = cc e
  free_slot-IsFirst (suc left) slot k e = elim (Bool-cases (any (λ n. n.slot == slot) rows)) [
    | inl used ↦
        IsFirst-skip slot left k (λ f. cc (f.unused, used))
          (free_slot-IsFirst left (slot + 1) k (rw used at e))
    | inr unused ↦ elim (Bool-cases (any (λ p. overlaps p (subnet slot)) host)) [
      | inl over ↦
          IsFirst-skip slot left k (λ f. cc (f.apart, over))
            (free_slot-IsFirst left (slot + 1) k (rw (unused, over) at e))
      | inr apart ↦
          let same : slot ≡ k = cc (rw (unused, apart) at e) in
          record {
            free = subst (IsFree rows host) same (record { unused = unused; apart = apart });
            low = omega arith;
            high = omega arith;
            least = λ j lo hi f. absurd (omega arith);
          }
    ]
  ]

pow_split : (x d : ℕ) → 2 ^ (x + d) ≡ 2 ^ x * 2 ^ d
pow_split x zero =
    let same : x + 0 ≡ x = omega arith in
    let whole : 2 ^ x ≡ 2 ^ x * 1 = omega arith in ap (λ k. 2 ^ k) same ∙ whole
pow_split x (suc d) =
    let next : x + suc d ≡ suc (x + d) = omega arith in
    ap (λ k. 2 ^ k) next
    ∙ pow-suc 2 (x + d)
    ∙ ap (λ k. k * 2) (pow_split x d)
    ∙ mul_assoc (2 ^ x) (2 ^ d) 2
    ∙ ap (λ k. 2 ^ x * k) (sym (pow-suc 2 d))

-- Numbers that agree without their last x bits agree without more of them.
coarser : (x y n m : ℕ) → x ≤ y → n / 2 ^ x ≡ m / 2 ^ x → n / 2 ^ y ≡ m / 2 ^ y
coarser x y n m h e =
    let d = y - x in
    let split : 2 ^ y ≡ 2 ^ x * 2 ^ d =
      subst (λ k. 2 ^ k ≡ 2 ^ x * 2 ^ d) (let back : x + d ≡ y = omega arith in back)
        (pow_split x d) in
    let cut_off = λ (k : ℕ). ap (λ p. k / p) split ∙ sym (div-div-eq-div-mul k (2 ^ x) (2 ^ d)) in
    cut_off n ∙ ap (λ k. k / 2 ^ d) e ∙ sym (cut_off m)

same_leading :
    (b slot n m : ℕ)
    → same_bits 32 b n m ≡ true
    → same_bits 32 24 (10 * 2 ^ 24 + 253 * 2 ^ 16 + slot * 2 ^ 8) m ≡ true
    → same_bits 32 (if leb b 24 then b else 24) n (10 * 2 ^ 24 + 253 * 2 ^ 16 + slot * 2 ^ 8) ≡ true
same_leading b slot n m inside below_slot =
    let s = 10 * 2 ^ 24 + 253 * 2 ^ 16 + slot * 2 ^ 8 in
    let of_prefix = (==_iff (n / 2 ^ (32 - b)) (m / 2 ^ (32 - b))).0 inside in
    let of_subnet = (==_iff (s / 2 ^ 8) (m / 2 ^ 8)).0 below_slot in
    elim (Bool-cases (leb b 24)) [
      | inl wide ↦
          let order : 8 ≤ 32 - b = ground arith in
          rw wide (
            (==_iff (n / 2 ^ (32 - b)) (s / 2 ^ (32 - b))).1
              (of_prefix ∙ sym (coarser 8 (32 - b) s m order of_subnet)))
      | inr narrow ↦
          let order : 32 - b ≤ 8 = ground arith in
          rw narrow (
            (==_iff (n / 2 ^ 8) (s / 2 ^ 8)).1
              (coarser (32 - b) 8 n m order of_prefix ∙ sym of_subnet))
    ]

-- Prefixes that have an address in common overlap.
pub common-overlaps :
    (addr : Addr) (bits : Option ℕ) (slot : ℕ) (a : Addr)
    → contains (record { addr = addr; bits = bits }) a ≡ true
    → contains (subnet slot) a ≡ true
    → overlaps (record { addr = addr; bits = bits }) (subnet slot) ≡ true
unfolding contains
common-overlaps addr none slot a inside below_slot = cc inside
common-overlaps (v4 n) (some b) slot (v4 m) inside below_slot =
    same_leading b slot n m inside below_slot
common-overlaps (v4 n) (some b) slot (v6 m z) inside below_slot = cc inside
common-overlaps (v6 n y) (some b) slot (v4 m) inside below_slot = cc inside
common-overlaps (v6 n y) (some b) slot (v6 m z) inside below_slot = cc below_slot
common-overlaps addr (some b) slot a inside below_slot = cc inside

-- The prefixes of the host, in the order in which they are read.
abbrev pub HostPrefixes : Host → List Prefix → Type 0
HostPrefixes host ps =
    (is : List Str) × (rs : List Str) × (host.interfaces ≡ ok is)
    × (host.routes ≡ ok rs)
    × (ps
        ≡ read_prefixes host.parse_prefix is
          ++ filter is_narrow (read_prefixes host.parse_prefix rs))

pub networks_same : (rows all_rows : List Network) → networks rows ≡ ok all_rows → all_rows ≡ rows
unfolding networks
networks_same rows all_rows e = elim (Bool-cases (all is_sound rows)) [
  | inl sound ↦ sym (cc (rw sound at e))
  | inr other ↦ cc (rw other at e)
]

some_slot-eq : (host : Host) (o : Option ℕ) (k : ℕ) → some_slot host o ≡ ok k → o ≡ some k
some_slot-eq host none k e = cc e
some_slot-eq host (some j) k e = ap some (cc e)

abbrev made_slot : Result EngineError Network → ℕ
made_slot (err e) = 0
made_slot (ok n) = n.slot

abbrev made_containers : Result EngineError Network → List (Str × Resource)
made_containers (err e) = []
made_containers (ok n) = n.containers

-- What createNetwork has found out when it plans a network.
pub record IsPlanned (host : Host) (rows : List Network) (n : Network) : Type 0 where
  pub prefixes : List Prefix
  pub of_host : HostPrefixes host prefixes
  pub chosen : free_slot rows prefixes 254 1 ≡ some n.slot
  pub empty : n.containers ≡ []

pub plan_network-IsPlanned :
    (host : Host) (rows : List Network) (name : Str) (o : CreateOptions) (n : Network)
    → plan_network host rows name o ≡ ok n
    → IsPlanned host rows n
unfolding plan_network
plan_network-IsPlanned host rows name o n e =
    let (_, _, e₁) = >>=-eq-ok (check_forwarding host o) _ e in
    let (_, _, e₂) =
      >>=-eq-ok
        (ensure (is_valid_name name && str_eq o.driver (codes "bridge")) bad_network_request) _
        e₁ in
    let (_, _, e₃) =
      >>=-eq-ok (ensure (not (elim o.enable_ipv6 [ none ↦ false | some on ↦ on ])) ipv6_refused) _
        e₂ in
    let (_, _, e₄) = >>=-eq-ok (absent (network name rows)) _ e₃ in
    let (all_rows, loaded, e₅) = >>=-eq-ok (networks rows) _ e₄ in
    let (is, interfaces, e₆) = >>=-eq-ok host.interfaces _ e₅ in
    let (rs, routes, e₇) = >>=-eq-ok host.routes _ e₆ in
    let prefixes =
      read_prefixes host.parse_prefix is ++ filter is_narrow (read_prefixes host.parse_prefix rs) in
    let (slot, chosen, e₈) = >>=-eq-ok (some_slot host (free_slot all_rows prefixes 254 1)) _ e₇ in
    let (id, _, made) = >>=-eq-ok host.new_id _ e₈ in
    let found = some_slot-eq host (free_slot all_rows prefixes 254 1) slot chosen in
    record {
      prefixes = prefixes;
      of_host = (is, rs, interfaces, routes, refl);
      chosen =
          subst (λ rs'. free_slot rs' prefixes 254 1 ≡ some n.slot)
            (networks_same rows all_rows loaded) (found ∙ ap some (ap made_slot made));
      empty = sym (ap made_containers made);
    }

pub not_any-All :
    {A : Type 0} (P : A → Type 0) (p : A → Bool) (xs : List A)
    → ((x : A) → p x ≡ false → P x)
    → any p xs ≡ false
    → All P xs
not_any-All P p [] h e = tt
not_any-All P p (x ∷ xs) h e =
    let first : p x ≡ false = ground (arith, e) in
    let later : any p xs ≡ false = ground (arith, e) in (h x first, not_any-All P p xs h later)
