-- ===== src/WorkerEgress/Arguments/Values.antt =====
-- A port that strconv.Itoa prints, strconv.Atoi reads: the values of the flags of
-- internal/workeregress/ensure.go and inspect.go.
use sandbox_codex.Common.{
  &&-eq-true, Result, Str, [], all, ap, arith, contains_byte, false, inl, inr, is_digit, map_result,
  ok, pos, refl, some, split_on, split_on_whole, suc, true, ℕ, ◌<◌, ◌==◌, ◌^◌, ◌∙◌, ◌∷◌, ◌≡◌, ◌≢◌,
  ◌⊎◌,
}
use sandbox_codex.NetworkPolicy.Authority.{itoa, itoa_fuel, read_digits}
use sandbox_codex.NetworkPolicy.Authority.Port.{itoa_fuel-read, itoa_fuel_digits}
use sandbox_codex.WorkerEgress.Arguments.{atoi, below, found_port, magnitude, read_port}

digit_not : (c d : ℕ) → is_digit c ≡ true → is_digit d ≡ false → (c == d) ≡ false
digit_not c d yes_digit no_digit = ground arith

no_byte : (b : ℕ) (s : Str) → is_digit b ≡ false → all is_digit s ≡ true → contains_byte b s ≡ false
no_byte b [] other e = refl
no_byte b (c ∷ s) other e =
    let (first, later) = &&-eq-true (is_digit c) (all is_digit s) e in
    rw (digit_not c b first other, no_byte b s other later)

magnitude_read :
    (bound n : ℕ) (s : Str)
    → read_digits 0 s ≡ some n
    → s ≢ []
    → n < bound
    → magnitude bound s ≡ some n
magnitude_read bound n [] e some_text h = absurd (some_text refl)
magnitude_read bound n (c ∷ s) e some_text h =
    let small : below bound (some n) ≡ some n = ground arith in ap (below bound) e ∙ small

atoi_digits :
    (n : ℕ) (s : Str)
    → all is_digit s ≡ true
    → read_digits 0 s ≡ some n
    → s ≢ []
    → n < 2 ^ 63
    → atoi s ≡ some (pos n)
unfolding atoi
atoi_digits n [] digits e some_text h = absurd (some_text refl)
atoi_digits n (c ∷ s) digits e some_text h =
    let (first, _) = &&-eq-true (is_digit c) (all is_digit s) digits in
    rw (
      digit_not c b'-' first refl,
      digit_not c b'+' first refl,
      magnitude_read (2 ^ 63) n (c ∷ s) e some_text h,
    )

digits_nonempty : (n : ℕ) (s : Str) → read_digits 0 s ≡ some n → s ≢ [] ⊎ (n ≡ 0)
digits_nonempty n [] e = inr (cc e)
digits_nonempty n (c ∷ s) e = inl (λ none_left. cc none_left)

map_result_one :
    {A B E : Type 0} (f : A → Result E B) (x : A) (y : B)
    → f x ≡ ok y
    → map_result f (x ∷ []) ≡ ok (y ∷ [])
unfolding map_result
map_result_one f x y e = rw e refl

port_text :
    (n : ℕ) (s : Str)
    → 0 < n
    → n < 2 ^ 63
    → all is_digit s ≡ true
    → read_digits 0 s ≡ some n
    → map_result read_port (split_on b',' s) ≡ ok (pos n ∷ [])
port_text n s positive h digits value =
    let some_text : s ≢ [] = elim (digits_nonempty n s value) [
      | inl some_text ↦ some_text
      | inr none_left ↦ absurd (omega arith)
    ] in
    ap (map_result read_port) (split_on_whole b',' s (no_byte b',' s refl digits))
    ∙ map_result_one read_port s (pos n) (ap found_port (atoi_digits n s digits value some_text h))

-- A positive port, as it prints, is read as one part.
pub port_value :
    (n : ℕ) → 0 < n → n < 2 ^ 63 → map_result read_port (split_on b',' (itoa n)) ≡ ok (pos n ∷ [])
unfolding itoa
port_value n positive h =
    port_text n (itoa_fuel (suc n) n) positive h (itoa_fuel_digits (suc n) n)
      (itoa_fuel-read (suc n) n (omega arith))
