-- ===== src/Engine/Networks/Interfaces.antt =====
-- The choice of a free interface and of a free address by connect of internal/engine/network.go.
use Prim.Native.Nat.{zero, suc}
use sandbox_codex.Common.{
  ==_iff, Bool, Bool-cases, List, Str, [], any, ap, arith, codes, drop_prefix, false, filter, inl,
  inr, length, none, not, refl, some, str_eq, str_eq_iff, subst, sym, true, ℕ, ◌+◌, ◌-◌, ◌<◌, ◌==◌,
  ◌∙◌, ◌∷◌, ◌≡◌, ◌≤◌, ◌⊎◌,
}
use sandbox_codex.Engine.Networks.Endpoints.{free_interface, interface_index, interface_name}
use sandbox_codex.NetworkPolicy.Authority.{itoa, read_digits}
use sandbox_codex.NetworkPolicy.Authority.Port.{itoa_fuel-read}

itoa_injective : (i j : ℕ) → itoa i ≡ itoa j → i ≡ j
unfolding itoa
itoa_injective i j e =
    let first = itoa_fuel-read (suc i) i (omega arith) in
    let second = itoa_fuel-read (suc j) j (omega arith) in
    let same : some i ≡ some j = sym first ∙ ap (read_digits 0) e ∙ second in cc same

interface_name_injective : (i j : ℕ) → interface_name i ≡ interface_name j → i ≡ j
interface_name_injective i j e = itoa_injective i j (ap (drop_prefix (codes "eth")) e)

module _ {A : Type 0} where
  length-filter-le : (p : A → Bool) (xs : List A) → length (filter p xs) ≤ length xs
  length-filter-le p [] = omega arith
  length-filter-le p (x ∷ xs) = ground (arith, length-filter-le p xs)

  -- Filtering out what is there shortens a list.
  length-filter-lt :
      (p : A → Bool) (xs : List A)
      → any p xs ≡ true
      → length (filter (λ x. not (p x)) xs) < length xs
  length-filter-lt p [] e = cc e
  length-filter-lt p (x ∷ xs) e =
      ground (arith, length-filter-le (λ y. not (p y)) xs, length-filter-lt p xs)

  any-filter :
      (p q : A → Bool) (xs : List A)
      → ((x : A) → p x ≡ true → q x ≡ true)
      → any p xs ≡ true
      → any p (filter q xs) ≡ true
  any-filter p q [] h e = cc e
  any-filter p q (x ∷ xs) h e = ground (arith, h x, any-filter p q xs h)

-- The indexes from i on, k of them, are those of used names.
abbrev IsCovered : List Str → ℕ → ℕ → Type 0
IsCovered used i k = (j : ℕ) → i ≤ j → j < i + k → any (str_eq (interface_name j)) used ≡ true

-- Different indexes have different names, so there are no more of them than used names.
covered-le : (k i : ℕ) (used : List Str) → IsCovered used i k → k ≤ length used
covered-le zero i used all_used = omega arith
covered-le (suc k) i used all_used =
    let here_used = all_used i (omega arith) (omega arith) in
    let others = filter (λ u. not (str_eq (interface_name i) u)) used in
    let shorter = length-filter-lt (str_eq (interface_name i)) used here_used in
    let covered : IsCovered others (i + 1) k = λ j lo hi.
      any-filter (str_eq (interface_name j)) (λ u. not (str_eq (interface_name i) u)) used
        (λ u is_j. elim (Bool-cases (str_eq (interface_name i) u)) [
          | inr other ↦ rw other refl
          | inl is_i ↦
              let same = interface_name_injective i j (
                (str_eq_iff (interface_name i) u).0 is_i
                ∙ sym ((str_eq_iff (interface_name j) u).0 is_j)) in
              absurd (omega arith)
        ])
        (all_used j (omega arith) (omega arith)) in
    let rest = covered-le k (i + 1) others covered in omega arith

IsCovered-suc :
    (used : List Str) (i k : ℕ)
    → any (str_eq (interface_name i)) used ≡ true
    → IsCovered used (i + 1) k
    → IsCovered used i (suc k)
IsCovered-suc used i k taken rest j lo hi = elim (Bool-cases (j == i)) [
  | inl same ↦
      subst (λ x. any (str_eq (interface_name x)) used ≡ true) (sym ((==_iff j i).0 same)) taken
  | inr other ↦ rest j (ground arith) (omega arith)
]

-- The result of the loop: nothing after all indexes are used, or the first that is not.
free_interface_cases :
    (used : List Str) (fuel i : ℕ)
    → ((free_interface used fuel i ≡ none) × IsCovered used i fuel)
      ⊎ ((k : ℕ) × (free_interface used fuel i ≡ some k)
          × (any (str_eq (interface_name k)) used ≡ false)
          × (i ≤ k)
          × IsCovered used i (k - i))
unfolding free_interface
free_interface_cases used zero i = inl (refl, (λ j lo hi. absurd (omega arith)))
free_interface_cases used (suc fuel) i = elim (Bool-cases (any (str_eq (interface_name i)) used)) [
  | inr free ↦ inr (i, rw free refl, free, omega arith, (λ j lo hi. absurd (omega arith)))
  | inl taken ↦ elim (free_interface_cases used fuel (i + 1)) [
    | inl (ended, rest) ↦ inl (rw taken ended, IsCovered-suc used i fuel taken rest)
    | inr (k, found, free, low, rest) ↦ inr (
      k,
      rw taken found,
      free,
      omega arith,
      (λ j lo hi. IsCovered-suc used i (k - (i + 1)) taken rest j lo (omega arith)),
    )
  ]
]

-- The unbounded loop for an interface ends: for every list of used names, as many passes as there
-- are names, and one, find an index whose name none of them is; all smaller indexes are used.
pub interface_index_ends :
    (used : List Str)
    → (k : ℕ) × (interface_index used ≡ some k)
      × (k ≤ length used)
      × (any (str_eq (interface_name k)) used ≡ false)
      × ((j : ℕ) → j < k → any (str_eq (interface_name j)) used ≡ true)
interface_index_ends used = elim (free_interface_cases used (length used + 1) 0) [
  | inl (_, covered) ↦
      let bound = covered-le (length used + 1) 0 used covered in absurd (omega arith)
  | inr (k, found, free, _, covered) ↦ (
    k,
    found,
    covered-le k 0 used (λ j lo hi. covered j lo (omega arith)),
    free,
    (λ j hi. covered j (omega arith) (omega arith)),
  )
]
