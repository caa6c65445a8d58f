-- ===== src/NetworkPolicy/Authority/Port.antt =====
-- ParseDestination and Destination.String of internal/networkpolicy/policy.go: what parses, and the
-- round trip through the printed form.
use sandbox_codex.Common.{
  &&-eq-true, Bool, Bool-cases, Str, [], all, ap, arith, contains_byte, cut, err, false,
  if◌then◌else◌, inl, inr, is_digit, ltb, ltb→lt, ok, refl, some, subst, suc, true, zero, ℕ, ◌%◌,
  ◌*◌, ◌++◌, ◌+◌, ◌-◌, ◌/◌, ◌<◌, ◌==◌, ◌||◌, ◌∙◌, ◌∷◌, ◌≡◌, ◌≢◌, ◌≤◌,
}
use sandbox_codex.NetworkPolicy.{Destination}
use sandbox_codex.NetworkPolicy.Authority.{
  canonical_host, canonical_port, destination_string, host_and_port, itoa, itoa_fuel,
  join_host_port, parse_destination, parse_uint16, read_digits, split_after_bracket,
  split_bracketed, split_host_port, split_plain,
}
use sandbox_codex.NetworkPolicy.Host.{
  invalid_host, normalize_host, normalize_name, to_lower, valid_name,
}
use sandbox_codex.NetworkPolicy.Netip.{Netip}

read_digits-append :
    (n c : ℕ) (s : Str) {m : ℕ}
    → read_digits n s ≡ some m
    → is_digit c ≡ true
    → read_digits n (s ++ c ∷ []) ≡ some (m * 10 + (c - b'0'))
read_digits-append n c [] e d = rw d (ground arith)
read_digits-append n c (b ∷ s) e d = elim (Bool-cases (is_digit b)) [
  | inl digit ↦ rw digit (read_digits-append (n * 10 + (b - b'0')) c s (rw digit at e) d)
  | inr other ↦ cc (rw other at e)
]

digit_facts : (n : ℕ) → n < 10 → (is_digit (b'0' + n) ≡ true) × (b'0' + n - b'0' ≡ n)
digit_facts n h = (ground arith, omega arith)

pub itoa_fuel-read : (f n : ℕ) → n < f → read_digits 0 (itoa_fuel f n) ≡ some n
unfolding itoa_fuel
itoa_fuel-read zero n h = absurd (omega arith)
itoa_fuel-read (suc f) n h = elim (Bool-cases (ltb n 10)) [
  | inl small ↦
      let (digit, value) = digit_facts n (ltb→lt n 10 small) in
      rw (small, digit, value) (ap some (omega arith))
  | inr large ↦
      let (digit, value) = digit_facts (n % 10) (omega arith) in
      let ih = itoa_fuel-read f (n / 10) (ground arith) in
      rw large (
        read_digits-append 0 (b'0' + n % 10) (itoa_fuel f (n / 10)) ih digit
        ∙ ap some (omega (arith, value)))
]

all-append : (q : ℕ → Bool) (s t : Str) → all q s ≡ true → all q t ≡ true → all q (s ++ t) ≡ true
all-append q [] t a b = b
all-append q (c ∷ s) t a b =
    let (here, rest) = &&-eq-true (q c) (all q s) a in rw (here, all-append q s t rest b)

pub itoa_fuel_digits : (f n : ℕ) → all is_digit (itoa_fuel f n) ≡ true
unfolding itoa_fuel
itoa_fuel_digits zero n = refl
itoa_fuel_digits (suc f) n = elim (Bool-cases (ltb n 10)) [
  | inl small ↦ rw (small, (digit_facts n (ltb→lt n 10 small)).0)
  | inr large ↦ rw large (
      all-append is_digit (itoa_fuel f (n / 10)) ((b'0' + n % 10) ∷ [])
        (itoa_fuel_digits f (n / 10)) (rw ((digit_facts (n % 10) (omega arith)).0)))
]

read_port :
    {n : ℕ} (c : ℕ) (s : Str)
    → read_digits 0 (c ∷ s) ≡ some n
    → n ≤ 65535
    → parse_uint16 (c ∷ s) ≡ some n
unfolding parse_uint16
read_port c s e h = ground arith

-- A port that prints reads back.
parse_uint16-itoa : (n : ℕ) → 0 < n → n ≤ 65535 → parse_uint16 (itoa n) ≡ some n
unfolding itoa
parse_uint16-itoa n pos_n h =
    from_digits (itoa_fuel (suc n) n) (itoa_fuel-read (suc n) n (omega arith))
  where
    from_digits : (s : Str) → read_digits 0 s ≡ some n → parse_uint16 s ≡ some n
    from_digits [] e = ground arith
    from_digits (c ∷ s) e = read_port c s e h

contains-append :
    (b : ℕ) (s t : Str) → contains_byte b (s ++ t) ≡ (contains_byte b s || contains_byte b t)
contains-append b [] t = refl
contains-append b (c ∷ s) t = rw (contains-append b s t) (ground arith)

digits_lack :
    (b : ℕ) (s : Str) → is_digit b ≡ false → all is_digit s ≡ true → contains_byte b s ≡ false
digits_lack b [] d h = refl
digits_lack b (c ∷ s) d h =
    let (here, rest) = &&-eq-true (is_digit c) (all is_digit s) h in
    let ih = digits_lack b s d rest in ground arith

cut-append : (b : ℕ) (s t : Str) → contains_byte b s ≡ false → cut b (s ++ b ∷ t) ≡ some (s, t)
cut-append b [] t h = ground arith
cut-append b (c ∷ s) t h = elim (Bool-cases (c == b)) [
  | inl same ↦ cc (rw same at h)
  | inr other ↦ rw (other, cut-append b s t (rw other at h))
]

split_bracketed_port :
    (port : Str) → all is_digit port ≡ true → split_bracketed (b':' ∷ port) ≡ some ([], port)
split_bracketed_port port h = rw (digits_lack b':' port refl h, digits_lack b']' port refl h)

split_plain_host :
    (b : ℕ) (h port : Str)
    → contains_byte b'[' (b ∷ h) ≡ false
    → contains_byte b'[' (b ∷ h ++ b':' ∷ port) ≡ false
    → contains_byte b']' (b ∷ h ++ b':' ∷ port) ≡ false
    → contains_byte b':' (b ∷ h) ≡ false
    → contains_byte b':' port ≡ false
    → split_host_port (b ∷ (h ++ b':' ∷ port)) ≡ some (b ∷ h, port)
unfolding split_host_port
split_plain_host b h port nl l r nc np =
    let first : (b == b'[') ≡ false = ground arith in
    let cuts = cut-append b':' (b ∷ h) port nc in
    let text = b ∷ (h ++ b':' ∷ port) in
    let splits : split_plain text ≡ some (b ∷ h, port) = rw (l, r, cuts, np) in
    ap (λ t. if t then split_after_bracket (h ++ b':' ∷ port) else split_plain text) first ∙ splits

-- What net.JoinHostPort prints, net.SplitHostPort takes apart, for a host without brackets.
pub split_host_port-join_host_port :
    (host port : Str)
    → contains_byte b'[' host ≡ false
    → contains_byte b']' host ≡ false
    → host ≢ []
    → all is_digit port ≡ true
    → split_host_port (join_host_port host port) ≡ some (host, port)
unfolding split_host_port join_host_port
split_host_port-join_host_port [] port l r some_host digits = absurd (some_host refl)
split_host_port-join_host_port (c ∷ t) port l r some_host digits =
    elim (Bool-cases (contains_byte b':' (c ∷ t))) [
      | inl colon ↦ rw colon (bracketed (c ∷ t) l r)
      | inr name ↦ rw name (plain c t l r name)
    ]
  where
    lacks :
        (b : ℕ) (h : Str) (sep : Str)
        → is_digit b ≡ false
        → contains_byte b h ≡ false
        → contains_byte b sep ≡ false
        → contains_byte b (h ++ (sep ++ port)) ≡ false
    lacks b h sep d nh ns =
        rw (contains-append b h (sep ++ port), nh, contains-append b sep port, ns)
          (digits_lack b port d digits)

    bracketed :
        (h : Str)
        → contains_byte b'[' h ≡ false
        → contains_byte b']' h ≡ false
        → split_after_bracket (h ++ b']' ∷ b':' ∷ port) ≡ some (h, port)
    bracketed h nl nr = rw (
      lacks b'[' h (b']' ∷ b':' ∷ []) refl nl refl,
      cut-append b']' h (b':' ∷ port) nr,
      split_bracketed_port port digits,
    )

    plain :
        (b : ℕ) (h : Str)
        → contains_byte b'[' (b ∷ h) ≡ false
        → contains_byte b']' (b ∷ h) ≡ false
        → contains_byte b':' (b ∷ h) ≡ false
        → split_host_port (b ∷ (h ++ b':' ∷ port)) ≡ some (b ∷ h, port)
    plain b h nl nr nc =
        split_plain_host b h port nl (lacks b'[' (b ∷ h) (b':' ∷ []) refl nl refl)
          (lacks b']' (b ∷ h) (b':' ∷ []) refl nr refl) nc (digits_lack b':' port refl digits)

-- The empty text is no host.
normalize_host-nil : (nip : Netip) → normalize_host nip [] ≡ err invalid_host
unfolding normalize_host normalize_name to_lower valid_name
normalize_host-nil nip = refl

module _ (nip : Netip) (authority default_port : Str) where
  parse_destination_parts :
      (host port h : Str) (n : ℕ)
      → split_host_port authority ≡ some (host, port)
      → normalize_host nip host ≡ ok h
      → parse_uint16 port ≡ some n
      → 0 < n
      → parse_destination nip authority default_port ≡ ok (record { host = h; port = n })
  unfolding parse_destination
  parse_destination_parts host port h n splits named reads positive =
      let found : host_and_port authority default_port ≡ ok (host, port) = ground arith in
      let hosts : canonical_host nip host ≡ ok h = ground arith in
      let ports : canonical_port nip port ≡ ok n = ground arith in rw (found, hosts, ports)

-- A destination whose host is canonical, without brackets, and whose port is a port prints as an
-- authority that parses to it, whatever the default port.
pub parse_destination-destination_string :
    (nip : Netip) (d : Destination) (default_port : Str)
    → normalize_host nip d.host ≡ ok d.host
    → contains_byte b'[' d.host ≡ false
    → contains_byte b']' d.host ≡ false
    → 0 < d.port
    → d.port ≤ 65535
    → parse_destination nip (destination_string d) default_port ≡ ok d
unfolding destination_string itoa
parse_destination-destination_string nip d default_port canonical l r positive small =
    let splits =
      split_host_port-join_host_port d.host (itoa d.port) l r some_host
        (itoa_fuel_digits (suc d.port) d.port) in
    parse_destination_parts nip (destination_string d) default_port d.host (itoa d.port) d.host
      d.port splits canonical (parse_uint16-itoa d.port positive small) positive
  where
    some_host : d.host ≢ []
    some_host e = cc (normalize_host-nil nip, subst (λ h. normalize_host nip h ≡ ok h) e canonical)
