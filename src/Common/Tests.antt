-- ===== src/Common/Tests.antt =====
-- Boolean tests on the native numbers, the conditional, and results with an error.
use Prim.Native.Nat.{ℕ, ◌≤◌, ◌<◌, compare, Ordering}
use mathlib.Core.Path.{◌≡◌, refl}
use mathlib.Core.Logic.{◌↔◌, ◌⊎◌, inl, inr}
use mathlib.Core.Bool.{Bool, true, false, ◌&&◌}
use mathlib.Core.Option.{Option, none, some}
use native.Mathlib.Omega.{arith}

-- These compute to `compare`, which `ground` and `grind` read.
abbrev pub ltb : ℕ → ℕ → Bool
ltb a b = elim (compare a b) [ Ordering.lt ↦ true | _ ↦ false ]

abbrev pub leb : ℕ → ℕ → Bool
leb a b = elim (compare a b) [ Ordering.gt ↦ false | _ ↦ true ]

infix 50 ◌==◌
abbrev pub ◌==◌ : ℕ → ℕ → Bool
a == b = elim (compare a b) [ Ordering.eq ↦ true | _ ↦ false ]

infix 1 if◌then◌else◌
abbrev pub if◌then◌else◌ {ℓ} : {A : Type ℓ} → Bool → A → A → A
if true then x else y = x
if false then x else y = y

pub ltb→lt : (a b : ℕ) → ltb a b ≡ true → a < b
ltb→lt a b h = ground arith

pub leb→le : (a b : ℕ) → leb a b ≡ true → a ≤ b
leb→le a b h = ground arith

pub ==_iff : (a b : ℕ) → ((a == b) ≡ true) ↔ (a ≡ b)
==_iff a b = ground arith

-- To split on a computed value and keep the equation.
pub Bool-cases : (b : Bool) → (b ≡ true) ⊎ (b ≡ false)
Bool-cases true = inl refl
Bool-cases false = inr refl

pub &&-eq-true : (a b : Bool) → (a && b) ≡ true → (a ≡ true) × (b ≡ true)
&&-eq-true true b h = (refl, h)
&&-eq-true false b h = cc

pub Option-cases {ℓ} : {A : Type ℓ} (o : Option A) → (o ≡ none) ⊎ ((a : A) × (o ≡ some a))
Option-cases none = inl refl
Option-cases (some a) = inr (a, refl)

-- The pair (value, error) of a Go function: `err` with an error that is not nil, else `ok`.
pub data Result {ℓ κ} (Fail : Type κ) (Value : Type ℓ) : Type (ℓ ⊔ κ) where
  err : Fail → Result Fail Value
  ok : Value → Result Fail Value

-- `if !test { return e }`
abbrev pub ensure {ι} : {Fail : Type ι} → Bool → Fail → Result Fail (Unit {0})
ensure test e = if test then ok tt else err e

module _ {ℓ κ ι} {Fail : Type ι} {Value : Type ℓ} {Next : Type κ} where
  infixl 5 ◌>>=◌
  -- The next step, unless the error is not nil: `if err != nil { return err }`.
  abbrev pub ◌>>=◌ : Result Fail Value → (Value → Result Fail Next) → Result Fail Next
  err e >>= step = err e
  ok value >>= step = step value

infixl 5 ◌>>◌
abbrev pub ◌>>◌ {κ ι} :
    {Fail : Type ι} {Next : Type κ} → Result Fail (Unit {0}) → Result Fail Next → Result Fail Next
first >> second = first >>= λ done. second

pub Result-cases {ℓ κ} :
    {E : Type κ} {A : Type ℓ} (r : Result E A) → ((a : A) × (r ≡ ok a)) ⊎ ((e : E) × (r ≡ err e))
Result-cases (ok a) = inl (a, refl)
Result-cases (err e) = inr (e, refl)

-- Inversion of a bind that succeeds.
pub >>=-eq-ok {ℓ κ ι} :
    {E : Type ι} {A : Type ℓ} {B : Type κ} (first : Result E A) (step : A → Result E B) {out : B}
    → (first >>= step) ≡ ok out
    → (value : A) × (first ≡ ok value) × (step value ≡ ok out)
>>=-eq-ok (err e) step h = cc
>>=-eq-ok (ok value) step h = (value, refl, h)
