-- ===== src/NetworkPolicy/Host/Canonical.antt =====
-- The hosts that normalizeHost of internal/networkpolicy/policy.go returns are canonical.
use sandbox_codex.Common.{
  &&-eq-true, Bool, Bool-cases, List, Option-cases, Str, [], all, ap, arith, contains_byte, ends_in,
  false, inl, inr, ok, refl, some, subst, true, ℕ, ◌&&◌, ◌==◌, ◌||◌, ◌∙◌, ◌∷◌, ◌≡◌, ◌⊎◌,
}
use sandbox_codex.NetworkPolicy.Host.{
  grow_label, is_label_byte, labels, lower_byte, normalize_host, normalize_name, starts_with_digit,
  to_lower, valid_label, valid_name,
}
use sandbox_codex.NetworkPolicy.Netip.{Addr, Netip, has_zone, invalid, unmap, v4, v6}

abbrev is_name_byte : ℕ → Bool
is_name_byte c = is_label_byte c || c == b'.'

all-grow_label :
    (c : ℕ) (ls : List Str)
    → all (all is_label_byte) (grow_label c ls) ≡ true
    → (is_label_byte c ≡ true) × (all (all is_label_byte) ls ≡ true)
all-grow_label c [] h =
    ((&&-eq-true (is_label_byte c) true (&&-eq-true (is_label_byte c && true) true h).0).0, refl)
all-grow_label c (l ∷ ls) h =
    let (first, rest) =
      &&-eq-true (is_label_byte c && all is_label_byte l) (all (all is_label_byte) ls) h in
    let (here, label) = &&-eq-true (is_label_byte c) (all is_label_byte l) first in
    (here, rw (label, rest))

name_byte_of_label : (c : ℕ) → is_label_byte c ≡ true → is_name_byte c ≡ true
name_byte_of_label c h = rw h

name_byte_of_dot : (c : ℕ) → (c == b'.') ≡ true → is_name_byte c ≡ true
name_byte_of_dot c h = ground arith

-- The bytes of the labels are the bytes of the name, its dots apart.
labels_bytes : (s : Str) → all (all is_label_byte) (labels s) ≡ true → all is_name_byte s ≡ true
unfolding labels
labels_bytes [] h = refl
labels_bytes (c ∷ s) h = elim (Bool-cases (c == b'.')) [
  | inl dot ↦ rw (name_byte_of_dot c dot, labels_bytes s (rw (dot, labels) at h))
  | inr other ↦
      let (here, rest) = all-grow_label c (labels s) (rw (other, labels) at h) in
      rw (name_byte_of_label c here, labels_bytes s rest)
]

-- Such a byte is its own lower case, and begins neither character of two or three bytes.
name_byte_facts :
    (c : ℕ)
    → is_name_byte c ≡ true
    → (lower_byte c ≡ c) × ((c == 0xc4) ≡ false) × ((c == 0xe2) ≡ false)
name_byte_facts c h = ground arith

to_lower_of_name : (s : Str) → all is_name_byte s ≡ true → to_lower s ≡ s
unfolding to_lower
to_lower_of_name [] h = refl
to_lower_of_name (a ∷ []) h =
    let (low, _, _) = name_byte_facts a (&&-eq-true (is_name_byte a) true h).0 in rw low
to_lower_of_name (a ∷ b ∷ []) h =
    let (here, rest) = &&-eq-true (is_name_byte a) (all is_name_byte (b ∷ [])) h in
    let (low, two, _) = name_byte_facts a here in
    rw (two, low) (ap (λ t. a ∷ t) (to_lower_of_name (b ∷ []) rest))
to_lower_of_name (a ∷ b ∷ c ∷ s) h =
    let (here, rest) = &&-eq-true (is_name_byte a) (all is_name_byte (b ∷ c ∷ s)) h in
    let (low, two, three) = name_byte_facts a here in
    rw (two, three, low) (ap (λ t. a ∷ t) (to_lower_of_name (b ∷ c ∷ s) rest))

label_bytes : (l : Str) → valid_label l ≡ true → all is_label_byte l ≡ true
label_bytes l h = (&&-eq-true _ (all is_label_byte l) h).1

labels_label_bytes : (ls : List Str) → all valid_label ls ≡ true → all (all is_label_byte) ls ≡ true
labels_label_bytes [] h = refl
labels_label_bytes (l ∷ ls) h =
    let (here, rest) = &&-eq-true (valid_label l) (all valid_label ls) h in
    rw (label_bytes l here, labels_label_bytes ls rest)

-- A valid name ends in no dot and is all lower case.
valid_name_facts :
    (s : Str) → valid_name s ≡ true → (ends_in b'.' s ≡ false) × (all is_name_byte s ≡ true)
unfolding valid_name
valid_name_facts s h =
    let (bounds, each) = &&-eq-true _ (all valid_label (labels s)) h in
    (ground arith, labels_bytes s (labels_label_bytes (labels s) each))

-- A name that normalizeHost accepts is valid, and is normalised to itself.
pub normalize_name_canonical :
    (host s : Str) → normalize_name host ≡ ok s → (valid_name s ≡ true) × (normalize_name s ≡ ok s)
unfolding normalize_name
normalize_name_canonical host s h =
    let valid : valid_name s ≡ true = ground arith in
    let (no_dot, bytes) = valid_name_facts s valid in
    (valid, rw (no_dot, to_lower_of_name s bytes, valid))

no_colon : (s : Str) → all is_name_byte s ≡ true → contains_byte b':' s ≡ false
no_colon [] h = refl
no_colon (c ∷ s) h =
    let (here, rest) = &&-eq-true (is_name_byte c) (all is_name_byte s) h in
    let ih = no_colon s rest in ground arith

-- What normalizeHost relies on in netip: an address prints as a text that begins with a digit or
-- holds a colon, and that reads back as the address; a text without a colon that reads as an
-- address has no zone and is how the address prints.
pub record IsRoundTrip (nip : Netip) : Type 0 where
  pub marked :
      (s : Str) (a : Addr)
      → nip.parse_addr s ≡ some a
      → let t = nip.format (unmap a) in (contains_byte b':' t || starts_with_digit t) ≡ true
  pub reads_back :
      (s : Str) (a : Addr)
      → nip.parse_addr s ≡ some a
      → has_zone a ≡ false
      → nip.parse_addr (nip.format (unmap a)) ≡ some (unmap a)
  pub dotted :
      (s : Str) (a : Addr)
      → nip.parse_addr s ≡ some a
      → contains_byte b':' s ≡ false
      → (has_zone a ≡ false) × (nip.format (unmap a) ≡ s)

unmap-unmap : (a : Addr) → unmap (unmap a) ≡ unmap a
unmap-unmap invalid = refl
unmap-unmap (v4 n) = refl
unmap-unmap (v6 n z) = ground arith

has_zone-unmap : (a : Addr) → has_zone a ≡ false → has_zone (unmap a) ≡ false
has_zone-unmap invalid h = refl
has_zone-unmap (v4 n) h = refl
has_zone-unmap (v6 n z) h = ground arith

module _ (nip : Netip) (law : IsRoundTrip nip) (s : Str) where
  literal_fixed :
      (a : Addr)
      → (contains_byte b':' s || starts_with_digit s) ≡ true
      → nip.parse_addr s ≡ some a
      → has_zone a ≡ false
      → nip.format (unmap a) ≡ s
      → normalize_host nip s ≡ ok s
  unfolding normalize_host
  literal_fixed a marked parsed no_zone prints = rw (marked, parsed, no_zone, prints)

  name_fixed : normalize_name s ≡ ok s → valid_name s ≡ true → normalize_host nip s ≡ ok s
  unfolding normalize_host
  name_fixed fixed valid = elim (Bool-cases (contains_byte b':' s || starts_with_digit s)) [
    | inr plain ↦ rw plain fixed
    | inl marked ↦ elim (Option-cases (nip.parse_addr s)) [
      | inl name ↦ rw (marked, name) fixed
      | inr (a, parsed) ↦
          let (no_zone, prints) = law.dotted s a parsed (no_colon s (valid_name_facts s valid).1) in
          literal_fixed a marked parsed no_zone prints
    ]
  ]

-- A host is normalised as a name, or as an address without a zone.
pub normalize_host_cases :
    (nip : Netip) (host s : Str)
    → normalize_host nip host ≡ ok s
    → (normalize_name host ≡ ok s)
      ⊎ ((a : Addr) × (nip.parse_addr host ≡ some a)
          × (has_zone a ≡ false)
          × (nip.format (unmap a) ≡ s))
unfolding normalize_host
normalize_host_cases nip host s h = elim (Option-cases (nip.parse_addr host)) [
  | inl name ↦ inl (ground arith)
  | inr (a, parsed) ↦ elim (Bool-cases (contains_byte b':' host || starts_with_digit host)) [
    | inr plain ↦ inl (rw plain at h)
    | inl marked ↦ elim (Bool-cases (has_zone a)) [
      | inl zone ↦ inl (ground arith)
      | inr no_zone ↦ inr (a, parsed, no_zone, ground arith)
    ]
  ]
]

-- Where netip reads back what it prints, normalizeHost is idempotent on every host, names and
-- address literals alike.
pub normalize_host_idempotent :
    (nip : Netip) (host s : Str)
    → IsRoundTrip nip
    → normalize_host nip host ≡ ok s
    → normalize_host nip s ≡ ok s
normalize_host_idempotent nip host s law h = elim (normalize_host_cases nip host s h) [
  | inl name ↦
      let (valid, fixed) = normalize_name_canonical host s name in name_fixed nip law s fixed valid
  | inr (a, parsed, no_zone, prints) ↦
      let marked =
        subst (λ t. (contains_byte b':' t || starts_with_digit t) ≡ true) prints
          (law.marked host a parsed) in
      let back =
        subst (λ t. nip.parse_addr t ≡ some (unmap a)) prints
          (law.reads_back host a parsed no_zone) in
      literal_fixed nip law s (unmap a) marked back (has_zone-unmap a no_zone)
        (ap nip.format (unmap-unmap a) ∙ prints)
]
