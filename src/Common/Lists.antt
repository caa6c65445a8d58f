-- ===== src/Common/Lists.antt =====
-- Lists measured by native numbers, tests on all and on some elements, and the predicate `All`.
use Prim.Native.Nat.{ℕ, zero, suc, ◌+◌}
use mathlib.Core.Path.{◌≡◌, refl}
use mathlib.Core.Logic.{◌↔◌, ◌⊎◌, inl, inr}
use mathlib.Core.Bool.{Bool, true, false, ◌&&◌, ◌||◌}
use mathlib.Core.List.{List, [], ◌∷◌, ◌++◌}
use native.Mathlib.Omega.{arith}

module _ {ℓ} {A : Type ℓ} where
  abbrev pub length : List A → ℕ
  length [] = 0
  length (x ∷ xs) = suc (length xs)

  pub length-append : (xs ys : List A) → length (xs ++ ys) ≡ length xs + length ys
  length-append [] ys = omega arith
  length-append (x ∷ xs) ys = omega (arith, length-append xs ys)

  abbrev pub all : (A → Bool) → List A → Bool
  all p [] = true
  all p (x ∷ xs) = p x && all p xs

  abbrev pub any : (A → Bool) → List A → Bool
  any p [] = false
  any p (x ∷ xs) = p x || any p xs

  abbrev pub kept_if : Bool → A → List A → List A
  kept_if true x xs = x ∷ xs
  kept_if false x xs = xs

  abbrev pub filter : (A → Bool) → List A → List A
  filter p [] = []
  filter p (x ∷ xs) = kept_if (p x) x (filter p xs)

module _ {ℓ} {A : Type ℓ} (P : A → Type 0) where
  -- Every element has `P`.
  abbrev pub All : List A → Type 0
  All [] = Unit
  All (x ∷ xs) = P x × All xs

  -- Some element has `P`.
  abbrev pub Any : List A → Type 0
  Any [] = ⊥
  Any (x ∷ xs) = P x ⊎ Any xs

-- A test on some element decides `Any`, if it decides the predicate.
pub any-Any {ℓ} :
    {A : Type ℓ} (P : A → Type 0) (p : A → Bool)
    → ((a : A) → (p a ≡ true) ↔ P a)
    → (xs : List A) → (any p xs ≡ true) ↔ Any P xs
any-Any P p h [] = ((λ e. cc), (λ e. elim e [ ]))
any-Any P p h (x ∷ xs) = grind (arith, h x, any-Any P p h xs)

pub all-All {ℓ} :
    {A : Type ℓ} (P : A → Type 0) (p : A → Bool)
    → ((a : A) → (p a ≡ true) ↔ P a)
    → (xs : List A) → (all p xs ≡ true) ↔ All P xs
all-All P p h [] = ((λ _. tt), (λ _. refl))
all-All P p h (x ∷ xs) = grind (arith, h x, all-All P p h xs)

module _ {ℓ} {A : Type ℓ} (P Q R : A → Type 0) where
  pub All-zip : ((a : A) → P a → Q a → R a) → (xs : List A) → All P xs → All Q xs → All R xs
  All-zip h [] a b = tt
  All-zip h (x ∷ xs) (p, a) (q, b) = (h x p q, All-zip h xs a b)

module _ {ℓ} {A : Type ℓ} (P Q : A → Type 0) where
  pub All-mono : ((a : A) → P a → Q a) → (xs : List A) → All P xs → All Q xs
  All-mono h [] a = tt
  All-mono h (x ∷ xs) (p, a) = (h x p, All-mono h xs a)

  pub Any-mono : ((a : A) → P a → Q a) → (xs : List A) → Any P xs → Any Q xs
  Any-mono h [] a = a
  Any-mono h (x ∷ xs) (inl p) = inl (h x p)
  Any-mono h (x ∷ xs) (inr a) = inr (Any-mono h xs a)

  pub Any-or : (xs : List A) → Any (λ a. P a ⊎ Q a) xs → Any P xs ⊎ Any Q xs
  Any-or [] a = inl a
  Any-or (x ∷ xs) (inl (inl p)) = inl (inl p)
  Any-or (x ∷ xs) (inl (inr q)) = inr (inl q)
  Any-or (x ∷ xs) (inr a) = elim (Any-or xs a) [ inl p ↦ inl (inr p) | inr q ↦ inr (inr q) ]

module _ {ℓ} {A : Type ℓ} (Q : A → Type 0) where
  pub Any-and : (C : Type 0) (xs : List A) → Any (λ a. C × Q a) xs → C × Any Q xs
  Any-and C [] a = elim a [ ]
  Any-and C (x ∷ xs) (inl (c, q)) = (c, inl q)
  Any-and C (x ∷ xs) (inr a) = let (c, q) = Any-and C xs a in (c, inr q)

module _ {ℓ} {A : Type ℓ} where
  -- The first items, on the native numbers.
  abbrev pub take : ℕ → List A → List A
  take zero xs = []
  take (suc n) [] = []
  take (suc n) (x ∷ xs) = x ∷ take n xs
