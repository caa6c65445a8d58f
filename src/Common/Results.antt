-- ===== src/Common/Results.antt =====
-- Loops of fallible steps, and signed integers.
use Prim.Native.Nat.{ℕ}
use mathlib.Core.Path.{◌≡◌, refl, sym, subst}
use mathlib.Core.Logic.{inl, inr}
use mathlib.Core.List.{List, [], ◌∷◌}
use sandbox_codex.Common.Tests.{Result, ok, ◌>>=◌, ◌>>◌, >>=-eq-ok}
use sandbox_codex.Common.Lists.{All, Any}

module _ {ℓ κ ι} {E : Type ι} {A : Type ℓ} {B : Type κ} where
  -- `for _, v := range xs { w, err := f(v); if err != nil { return err }; out = append(out, w) }`
  unfoldable pub map_result : (A → Result E B) → List A → Result E (List B)
  map_result f [] = ok []
  map_result f (x ∷ xs) = let rest = map_result f xs in do y ← f x; ys ← rest; ok (y ∷ ys)

  pub map_result_head :
      (f : A → Result E B) (x : A) (xs : List A) {out : List B}
      → map_result f (x ∷ xs) ≡ ok out
      → (y : B) × (ys : List B) × (f x ≡ ok y) × (map_result f xs ≡ ok ys) × (out ≡ y ∷ ys)
  unfolding map_result
  map_result_head f x xs e =
      let (y, fy, e₁) = >>=-eq-ok (f x) _ e in
      let (ys, fys, e₂) = >>=-eq-ok (map_result f xs) _ e₁ in (y, ys, fy, fys, cc)

module _ {ℓ ι} {E : Type ι} {A : Type ℓ} where
  -- `for _, v := range xs { if err := f(v); err != nil { return err } }`
  unfoldable pub for_each : (A → Result E (Unit {0})) → List A → Result E (Unit {0})
  for_each f [] = ok tt
  for_each f (x ∷ xs) = let rest = for_each f xs in f x >> rest

-- The loop succeeds exactly when each of its steps does.
pub for_each_iff {ι} :
    {E : Type 0} {A : Type ι} (f : A → Result E (Unit {0})) (xs : List A)
    → (for_each f xs ≡ ok tt → All (λ x. f x ≡ ok tt) xs)
      × (All (λ x. f x ≡ ok tt) xs → for_each f xs ≡ ok tt)
unfolding for_each
for_each_iff f [] = ((λ _. tt), (λ _. refl))
for_each_iff f (x ∷ xs) = (
  (λ e. let (u, fx, e₁) = >>=-eq-ok (f x) _ e in (fx, (for_each_iff f xs).0 e₁)),
  (λ h. rw h.0 ((for_each_iff f xs).1 h.1)),
)

module _ {A B E : Type 0} (f : A → Result E B) where
  -- What holds of some result comes from a value of the list.
  pub Any-map_result :
      (P : B → Type 0) (xs : List A) (ys : List B)
      → map_result f xs ≡ ok ys
      → Any P ys
      → Any (λ x. (y : B) × (f x ≡ ok y) × P y) xs
  unfolding map_result
  Any-map_result P [] [] e a = absurd a
  Any-map_result P [] (y ∷ ys) e a = cc e
  Any-map_result P (x ∷ xs) ys e a =
      let (y, rest, fx, fxs, out) = map_result_head f x xs e in
      elim (subst (Any P) out a) [
        | inl p ↦ inl (y, fx, p)
        | inr others ↦ inr (Any-map_result P xs rest fxs others)
      ]

  pub map_result-Any :
      (P : B → Type 0) (xs : List A) (ys : List B)
      → map_result f xs ≡ ok ys
      → Any (λ x. (y : B) → f x ≡ ok y → P y) xs
      → Any P ys
  unfolding map_result
  map_result-Any P [] ys e a = absurd a
  map_result-Any P (x ∷ xs) ys e a =
      let (y, rest, fx, fxs, out) = map_result_head f x xs e in
      subst (Any P) (sym out)
        (elim a [ inl h ↦ inl (h y fx) | inr others ↦ inr (map_result-Any P xs rest fxs others) ])

pub map_result_nil :
    {A B E : Type 0} (f : A → Result E B) (xs : List A) → map_result f xs ≡ ok [] → xs ≡ []
map_result_nil f [] e = refl
map_result_nil f (x ∷ xs) e = let (y, rest, _, _, out) = map_result_head f x xs e in cc out

-- A step of the loop passed at an item with the property.
pub for_each_passed :
    {A E : Type 0} (P : A → Type 0) (f : A → Result E (Unit {0})) (xs : List A)
    → for_each f xs ≡ ok tt
    → Any P xs
    → (x : A) × (f x ≡ ok tt) × P x
for_each_passed P f [] e a = absurd a
for_each_passed P f (x ∷ xs) e a =
    let (fx, others) = (for_each_iff f (x ∷ xs)).0 e in
    elim a [ inl p ↦ (x, fx, p) | inr b ↦ for_each_passed P f xs ((for_each_iff f xs).1 others) b ]

-- Go's `int`: `negsuc n` is -(n + 1).
pub data ℤ : Type 0 where
  pos : ℕ → ℤ
  negsuc : ℕ → ℤ
