-- ===== src/Common/Assoc.antt =====
-- Go maps keyed by text, as association lists.
use Prim.Native.Nat.{◌≤◌}
use mathlib.Core.Path.{◌≡◌, ◌∙◌, sym}
use mathlib.Core.Logic.{◌≢◌, ◌⊎◌, inl, inr}
use mathlib.Core.Option.{Option, none, some}
use mathlib.Core.List.{List, [], ◌∷◌}
use native.Mathlib.Omega.{arith}
use sandbox_codex.Common.Tests.{if◌then◌else◌, Bool-cases}
use sandbox_codex.Common.Lists.{length}
use sandbox_codex.Common.Text.{Str, str_eq, str_eq_iff, str_eq_refl}

module _ {ℓ} {V : Type ℓ} where
  unfoldable pub lookup : Str → List (Str × V) → Option V
  lookup k [] = none
  lookup k ((j, v) ∷ m) = if str_eq j k then some v else lookup k m

  -- `delete(m, k)`: every entry under `k` goes.
  unfoldable pub delete : Str → List (Str × V) → List (Str × V)
  delete k [] = []
  delete k ((j, v) ∷ m) = let rest = delete k m in if str_eq j k then rest else (j, v) ∷ rest

  -- `m[k] = v`
  unfoldable pub insert : Str → V → List (Str × V) → List (Str × V)
  unfolding delete
  insert k v m = (k, v) ∷ delete k m

  pub lookup-delete :
      (k j : Str) (m : List (Str × V))
      → lookup j (delete k m) ≡ (if str_eq k j then none else lookup j m)
  unfolding lookup delete
  lookup-delete k j [] = ground arith
  lookup-delete k j ((i, v) ∷ m) =
      ground
        (arith, lookup-delete k j m, str_eq_iff i k, str_eq_iff i j, str_eq_iff k j, str_eq_refl k)

  pub lookup-insert :
      (k j : Str) (v : V) (m : List (Str × V))
      → lookup j (insert k v m) ≡ (if str_eq k j then some v else lookup j m)
  unfolding lookup insert
  lookup-insert k j v m = ground (arith, lookup-delete k j m)

  pub length-delete-le : (k : Str) (m : List (Str × V)) → length (delete k m) ≤ length m
  unfolding delete
  length-delete-le k [] = omega arith
  length-delete-le k ((j, v) ∷ m) = ground (arith, length-delete-le k m)

  pub lookup-delete_ne :
      (k j : Str) (m : List (Str × V)) → k ≢ j → lookup j (delete k m) ≡ lookup j m
  lookup-delete_ne k j m h = rw (lookup-delete k j m) (elim (Bool-cases (str_eq k j)) [
    | inl same ↦ absurd (h ((str_eq_iff k j).0 same))
    | inr other ↦ rw other
  ])

  pub lookup-delete-some :
      (k j : Str) (m : List (Str × V)) {v : V}
      → lookup j (delete k m) ≡ some v
      → (k ≢ j) × (lookup j m ≡ some v)
  lookup-delete-some k j m e =
      let h = sym (lookup-delete k j m) ∙ e in
      elim (Bool-cases (str_eq k j)) [
        | inl same ↦ cc (rw same at h)
        | inr other ↦ ((λ eq. cc (other, (str_eq_iff k j).1 eq)), rw other at h)
      ]

  pub lookup-insert_self : (k : Str) (v : V) (m : List (Str × V)) → lookup k (insert k v m) ≡ some v
  lookup-insert_self k v m = rw (lookup-insert k k v m, str_eq_refl k)

  pub lookup-insert_ne :
      (k j : Str) (v : V) (m : List (Str × V)) → k ≢ j → lookup j (insert k v m) ≡ lookup j m
  lookup-insert_ne k j v m h = rw (lookup-insert k j v m) (elim (Bool-cases (str_eq k j)) [
    | inl same ↦ absurd (h ((str_eq_iff k j).0 same))
    | inr other ↦ rw other
  ])

  pub lookup-insert-some :
      (k j : Str) (v : V) (m : List (Str × V)) {w : V}
      → lookup j (insert k v m) ≡ some w
      → ((k ≡ j) × (v ≡ w)) ⊎ ((k ≢ j) × (lookup j m ≡ some w))
  lookup-insert-some k j v m e =
      let h = sym (lookup-insert k j v m) ∙ e in
      elim (Bool-cases (str_eq k j)) [
        | inl same ↦ inl ((str_eq_iff k j).0 same, cc (rw same at h))
        | inr other ↦ inr ((λ eq. cc (other, (str_eq_iff k j).1 eq)), rw other at h)
      ]
