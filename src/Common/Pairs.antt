-- ===== src/Common/Pairs.antt =====
-- Lists in which each element is related to all that follow it.
use mathlib.Core.Bool.{Bool, true, false}
use mathlib.Core.List.{List, [], ◌∷◌}
use mathlib.Core.Logic.{inl, inr}
use sandbox_codex.Common.Tests.{Bool-cases}
use sandbox_codex.Common.Lists.{All, filter, kept_if}
use sandbox_codex.Common.Text.{Str, str_eq}
use sandbox_codex.Common.Assoc.{delete}

module _ {ℓ} {A : Type ℓ} (R : A → A → Type 0) where
  abbrev pub Pairwise : List A → Type 0
  Pairwise [] = Unit
  Pairwise (x ∷ xs) = All (R x) xs × Pairwise xs

module _ {A : Type 0} (P : A → Type 0) where
  All-kept : (b : Bool) (x : A) (xs : List A) → P x → All P xs → All P (kept_if b x xs)
  All-kept true x xs h a = (h, a)
  All-kept false x xs h a = a

  pub All-filter : (p : A → Bool) (xs : List A) → All P xs → All P (filter p xs)
  All-filter p [] a = tt
  All-filter p (x ∷ xs) (h, a) = All-kept (p x) x (filter p xs) h (All-filter p xs a)

module _ {A : Type 0} (R : A → A → Type 0) where
  Pairwise-kept :
      (b : Bool) (x : A) (xs : List A) → All (R x) xs → Pairwise R xs → Pairwise R (kept_if b x xs)
  Pairwise-kept true x xs h a = (h, a)
  Pairwise-kept false x xs h a = a

  pub Pairwise-filter : (p : A → Bool) (xs : List A) → Pairwise R xs → Pairwise R (filter p xs)
  Pairwise-filter p [] a = tt
  Pairwise-filter p (x ∷ xs) (h, a) =
      Pairwise-kept (p x) x (filter p xs) (All-filter (R x) p xs h) (Pairwise-filter p xs a)

module _ {ℓ} {V : Type ℓ} (P : Str × V → Type 0) (k : Str) where
  pub All-delete : (m : List (Str × V)) → All P m → All P (delete k m)
  unfolding delete
  All-delete [] a = tt
  All-delete ((j, v) ∷ m) (h, a) = elim (Bool-cases (str_eq j k)) [
    | inl gone ↦ rw gone (All-delete m a)
    | inr kept ↦ rw kept (h, All-delete m a)
  ]

module _ {ℓ} {V : Type ℓ} (R : Str × V → Str × V → Type 0) (k : Str) where
  pub Pairwise-delete : (m : List (Str × V)) → Pairwise R m → Pairwise R (delete k m)
  unfolding delete
  Pairwise-delete [] a = tt
  Pairwise-delete ((j, v) ∷ m) (h, a) = elim (Bool-cases (str_eq j k)) [
    | inl gone ↦ rw gone (Pairwise-delete m a)
    | inr kept ↦ rw kept (All-delete (R (j, v)) k m h, Pairwise-delete m a)
  ]
