-- ===== src/NetworkPolicy/Host.antt =====
-- normalizeHost and parseDomain of internal/networkpolicy/policy.go. A host is the list of its bytes.
pub mod Canonical
use sandbox_codex.Common.{
  Bool, List, Option, Result, Str, [], all, codes, contains_byte, cut_prefix, ends_in, err, false,
  if◌then◌else◌, is_digit, is_empty, is_lower, is_upper, length, ltb, none, not, ok, some,
  trim_prefix, trim_space, trim_suffix_byte, ℕ, ◌&&◌, ◌+◌, ◌==◌, ◌>>=◌, ◌||◌, ◌∷◌,
}
use sandbox_codex.NetworkPolicy.Netip.{Addr, Netip, has_zone, unmap}

abbrev pub lower_byte : ℕ → ℕ
lower_byte c = if is_upper c then c + 32 else c

-- strings.ToLower as far as the label test can see it. Two characters beyond ASCII have an ASCII
-- lower case, U+0130 (0xc4 0xb0) and U+212A (0xe2 0x84 0xaa); all others keep a byte of 128 or more,
-- which no label may hold.
unfoldable pub to_lower : Str → Str
to_lower [] = []
to_lower (a ∷ []) = lower_byte a ∷ []
to_lower (a ∷ b ∷ []) =
    let one = to_lower (b ∷ []) in if a == 0xc4 && b == 0xb0 then b'i' ∷ [] else lower_byte a ∷ one
to_lower (a ∷ b ∷ c ∷ s) =
    let one = to_lower (b ∷ c ∷ s) in
    let two = to_lower (c ∷ s) in
    let three = to_lower s in
    if a == 0xc4 && b == 0xb0
    then b'i' ∷ two
    else if a == 0xe2 && b == 0x84 && c == 0xaa
    then b'k' ∷ three
    else lower_byte a ∷ one

-- The labels that the loop over strings.Cut(remaining, ".") sees.
abbrev pub grow_label : ℕ → List Str → List Str
grow_label c [] = (c ∷ []) ∷ []
grow_label c (l ∷ ls) = (c ∷ l) ∷ ls

unfoldable pub labels : Str → List Str
labels [] = []
labels (c ∷ s) = let rest = labels s in if c == b'.' then [] ∷ rest else grow_label c rest

abbrev pub starts_with_byte : ℕ → Str → Bool
starts_with_byte b [] = false
starts_with_byte b (c ∷ s) = c == b

abbrev pub is_label_byte : ℕ → Bool
is_label_byte c = is_lower c || is_digit c || c == b'-'

abbrev pub valid_label : Str → Bool
valid_label l =
    not (is_empty l || ltb 63 (length l) || starts_with_byte b'-' l || ends_in b'-' l)
    && all is_label_byte l

pub data HostError : Type 0 where
  invalid_host : HostError

-- The test of a name, already in lower case.
unfoldable pub valid_name : Str → Bool
valid_name h =
    not (is_empty h || ltb 253 (length h) || ends_in b'.' h) && all valid_label (labels h)

-- The second half of normalizeHost.
unfoldable pub normalize_name : Str → Result HostError Str
normalize_name host =
    let h = to_lower (trim_suffix_byte b'.' host) in if valid_name h then ok h else err invalid_host

abbrev pub starts_with_digit : Str → Bool
starts_with_digit [] = false
starts_with_digit (c ∷ s) = is_digit c

module _ (nip : Netip) where
  abbrev pub normalize_literal : Option Addr → Str → Result HostError Str
  normalize_literal none host = normalize_name host
  normalize_literal (some ip) host =
      if has_zone ip then normalize_name host else ok (nip.format (unmap ip))

  unfoldable pub normalize_host : Str → Result HostError Str
  normalize_host host =
      if contains_byte b':' host || starts_with_digit host
      then normalize_literal (nip.parse_addr host) host
      else normalize_name host

  -- parseDomain: the host, and whether it was marked exact by "=".
  unfoldable pub parse_domain : Str → Result HostError (Str × Bool)
  unfolding normalize_host trim_space
  parse_domain value =
      let (host, exact) = cut_prefix (codes "=") (trim_space value) in
      do h ← normalize_host (if exact then host else trim_prefix (codes ".") host); ok (h, exact)
