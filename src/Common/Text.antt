-- ===== src/Common/Text.antt =====
-- Go's `string` as its bytes, with the functions of package strings that the program calls.
use Prim.Native.Nat.{ℕ}
use Prim.Native.Char.{code}
use Prim.Native.String.{String}
use mathlib.Core.Path.{◌≡◌, refl, ap}
use mathlib.Core.Logic.{◌↔◌, inl, inr}
use mathlib.Core.Bool.{Bool, true, false, ◌&&◌, ◌||◌}
use mathlib.Core.Option
use mathlib.Core.Option.{Option, none, some}
use mathlib.Core.List.{List, [], ◌∷◌, ◌++◌}
use native.Mathlib.Omega.{arith}
use sandbox_codex.Common.Tests.{leb, ◌==◌, if◌then◌else◌, Bool-cases}
use sandbox_codex.Common.Lists.{any}

abbrev pub Str : Type 0
Str = List ℕ

-- The bytes of an ASCII literal.
abbrev pub codes : String → Str
codes String.[] = []
codes (String.◌∷◌ c s) = code c ∷ codes s

abbrev pub str_eq : Str → Str → Bool
str_eq [] [] = true
str_eq [] (_ ∷ _) = false
str_eq (_ ∷ _) [] = false
str_eq (a ∷ s) (b ∷ t) = (a == b) && str_eq s t

pub str_eq_iff : (s t : Str) → (str_eq s t ≡ true) ↔ (s ≡ t)
str_eq_iff [] [] = ground arith
str_eq_iff [] (b ∷ t) = ground arith
str_eq_iff (a ∷ s) [] = ground arith
str_eq_iff (a ∷ s) (b ∷ t) = ground (arith, str_eq_iff s t)

pub str_eq_refl : (s : Str) → str_eq s s ≡ true
str_eq_refl s = (str_eq_iff s s).1 refl

abbrev pub is_empty : Str → Bool
is_empty [] = true
is_empty (_ ∷ _) = false

-- strings.IndexByte(s, b) ≥ 0
abbrev pub contains_byte : ℕ → Str → Bool
contains_byte b s = any (λ c. c == b) s

-- strings.ContainsAny, for a set of ASCII bytes
abbrev pub contains_any : Str → Str → Bool
contains_any chars s = any (λ c. contains_byte c chars) s

abbrev pub has_prefix : Str → Str → Bool
has_prefix [] s = true
has_prefix (_ ∷ _) [] = false
has_prefix (a ∷ p) (b ∷ s) = (a == b) && has_prefix p s

-- `has_suffix t s`: does `s` end in `t`
abbrev pub has_suffix : Str → Str → Bool
has_suffix t [] = str_eq [] t
has_suffix t (b ∷ s) = str_eq (b ∷ s) t || has_suffix t s

abbrev pub drop_prefix : Str → Str → Str
drop_prefix [] s = s
drop_prefix (_ ∷ _) [] = []
drop_prefix (_ ∷ p) (_ ∷ s) = drop_prefix p s

-- strings.CutPrefix: the rest, and whether the prefix was there
abbrev pub cut_prefix : Str → Str → Str × Bool
cut_prefix p s = if has_prefix p s then (drop_prefix p s, true) else (s, false)

-- strings.TrimPrefix
abbrev pub trim_prefix : Str → Str → Str
trim_prefix p s = if has_prefix p s then drop_prefix p s else s

-- The text without its last byte.
abbrev pub init : Str → Str
init [] = []
init (a ∷ []) = []
init (a ∷ b ∷ s) = a ∷ init (b ∷ s)

-- Is `b` the last byte?
abbrev pub ends_in : ℕ → Str → Bool
ends_in b [] = false
ends_in b (a ∷ []) = a == b
ends_in b (a ∷ c ∷ s) = ends_in b (c ∷ s)

-- strings.TrimSuffix, for a suffix of one byte
abbrev pub trim_suffix_byte : ℕ → Str → Str
trim_suffix_byte b s = if ends_in b s then init s else s

-- strings.Cut at the first byte `b`: what precedes it and what follows it, if it occurs
abbrev pub cut : ℕ → Str → Option (Str × Str)
cut b [] = none
cut b (a ∷ s) = if a == b then some ([], s) else Option.map (λ p. (a ∷ p.0, p.1)) (cut b s)

-- The same at the last byte `b` (strings.LastIndexByte).
abbrev pub cut_last : ℕ → Str → Option (Str × Str)
cut_last b [] = none
cut_last b (a ∷ s) = elim (cut_last b s) [
  | some p ↦ some (a ∷ p.0, p.1)
  | none ↦ if a == b then some ([], s) else none
]

abbrev pub is_lower : ℕ → Bool
is_lower c = leb b'a' c && leb c b'z'

abbrev pub is_upper : ℕ → Bool
is_upper c = leb b'A' c && leb c b'Z'

abbrev pub is_digit : ℕ → Bool
is_digit c = leb b'0' c && leb c b'9'

abbrev pub is_space : ℕ → Bool
is_space c = c == 32 || (leb 9 c && leb c 13)

abbrev pub drop_spaces : Str → Str
drop_spaces [] = []
drop_spaces (c ∷ s) = if is_space c then drop_spaces s else c ∷ s

abbrev pub drop_last_spaces : Str → Str
drop_last_spaces [] = []
drop_last_spaces (c ∷ s) =
    let rest = drop_last_spaces s in if is_empty rest && is_space c then [] else c ∷ rest

-- strings.TrimSpace on ASCII text
unfoldable pub trim_space : Str → Str
trim_space s = drop_last_spaces (drop_spaces s)

pub has_prefix_iff : (p s : Str) → (has_prefix p s ≡ true) ↔ ((r : Str) × (s ≡ p ++ r))
has_prefix_iff [] s = ((λ _. (s, refl)), (λ _. refl))
has_prefix_iff (a ∷ p) [] = ((λ e. cc), (λ e. cc))
has_prefix_iff (a ∷ p) (b ∷ s) = (
  (λ e. let (r, q) = (has_prefix_iff p s).0 (ground arith) in (r, ground arith)),
  (λ h. let ih = (has_prefix_iff p s).1 (h.0, ground arith) in ground arith),
)

pub has_suffix_iff : (t s : Str) → (has_suffix t s ≡ true) ↔ ((r : Str) × (s ≡ r ++ t))
has_suffix_iff t [] =
    ((λ e. ([], (str_eq_iff [] t).0 e)), (λ h. (str_eq_iff [] t).1 (nil_append h.0 t h.1)))
  where
    nil_append : (r u : Str) → [] ≡ r ++ u → [] ≡ u
    nil_append [] u h = h
    nil_append (c ∷ r) u h = cc
has_suffix_iff t (b ∷ s) = (
  (λ e. elim (Bool-cases (str_eq (b ∷ s) t)) [
    | inl same ↦ ([], (str_eq_iff (b ∷ s) t).0 same)
    | inr other ↦ let (r, q) = (has_suffix_iff t s).0 (ground arith) in (b ∷ r, ap (λ u. b ∷ u) q)
  ]),
  (λ h. found h.0 h.1 ((has_suffix_iff t s).1)),
)
  where
    found :
        (r : Str)
        → b ∷ s ≡ r ++ t
        → ((r' : Str) × (s ≡ r' ++ t) → has_suffix t s ≡ true)
        → has_suffix t (b ∷ s) ≡ true
    found [] h ih = rw ((str_eq_iff (b ∷ s) t).1 h)
    found (c ∷ r) h ih = let k = ih (r, ground arith) in ground arith

-- The text with `c` put before its first part.
abbrev pub grow_part : ℕ → List Str → List Str
grow_part c [] = (c ∷ []) ∷ []
grow_part c (s ∷ ss) = (c ∷ s) ∷ ss

-- strings.Split at the byte `b`
unfoldable pub split_on : ℕ → Str → List Str
split_on b [] = [] ∷ []
split_on b (c ∷ s) = let others = split_on b s in if c == b then [] ∷ others else grow_part c others

-- Text without the byte is one part.
pub split_on_whole : (b : ℕ) (s : Str) → contains_byte b s ≡ false → split_on b s ≡ s ∷ []
unfolding split_on
split_on_whole b [] e = refl
split_on_whole b (c ∷ s) e =
    let h = split_on_whole b s (ground (arith, e)) in
    let other : (c == b) ≡ false = ground (arith, e) in rw (other, h)
