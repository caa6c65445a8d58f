-- ===== src/NetworkPolicy/Authority.antt =====
-- ParseDestination of internal/networkpolicy/policy.go, with net.SplitHostPort and
-- strconv.ParseUint(port, 10, 16).
pub mod Port
pub mod Bounds
use sandbox_codex.Common.{
  Option, Result, Str, [], codes, contains_any, contains_byte, cut, drop_prefix, ends_in, err,
  has_prefix, if◌then◌else◌, init, is_digit, is_empty, ltb, none, not, ok, some, suc, zero, ℕ, ◌%◌,
  ◌&&◌, ◌*◌, ◌++◌, ◌+◌, ◌-◌, ◌/◌, ◌==◌, ◌>>=◌, ◌>>◌, ◌||◌, ◌∷◌,
}
use sandbox_codex.NetworkPolicy.{Destination, PolicyError, bad_authority, bad_host, bad_port}
use sandbox_codex.NetworkPolicy.Host.{normalize_host}
use sandbox_codex.NetworkPolicy.Netip.{Netip}

-- What net.SplitHostPort does behind an opening bracket: the host up to "]", which the last colon
-- follows, and no further bracket.
abbrev pub split_bracketed : Str → Option (Str × Str)
split_bracketed [] = none
split_bracketed (c ∷ port) =
    if c == b':' && not (contains_byte b':' port || contains_byte b']' port)
    then some ([], port)
    else none

abbrev pub with_host : Str → Option (Str × Str) → Option (Str × Str)
with_host host none = none
with_host host (some (h, port)) = some (host, port)

abbrev pub split_after_bracket : Str → Option (Str × Str)
split_after_bracket t =
    if contains_byte b'[' t
    then none
    else elim (cut b']' t) [ none ↦ none | some hr ↦ with_host hr.0 (split_bracketed hr.1) ]

abbrev pub split_plain : Str → Option (Str × Str)
split_plain s = if contains_byte b'[' s || contains_byte b']' s then none else elim (cut b':' s) [
  | none ↦ none
  | some hp ↦ if contains_byte b':' hp.1 then none else some hp
]

-- net.SplitHostPort; `none` is its error.
unfoldable pub split_host_port : Str → Option (Str × Str)
split_host_port [] = none
split_host_port (c ∷ t) = if c == b'[' then split_after_bracket t else split_plain (c ∷ t)

-- The value of decimal digits behind those read so far; `none` on any other byte.
abbrev pub read_digits : ℕ → Str → Option ℕ
read_digits n [] = some n
read_digits n (c ∷ s) = if is_digit c then read_digits (n * 10 + (c - b'0')) s else none

-- strconv.ParseUint(s, 10, 16)
unfoldable pub parse_uint16 : Str → Option ℕ
parse_uint16 [] = none
parse_uint16 (c ∷ s) = elim (read_digits 0 (c ∷ s)) [
  | none ↦ none
  | some n ↦ if ltb 65535 n then none else some n
]

-- The host and the port of an authority that net.SplitHostPort refuses.
abbrev pub default_host : Str → Str → Result PolicyError (Str × Str)
default_host authority default_port =
    if is_empty default_port
    then err bad_authority
    else if has_prefix (codes "[") authority && ends_in b']' authority
    then ok (init (drop_prefix (codes "[") authority), default_port)
    else if contains_any (codes ":[]") authority
    then err bad_authority
    else ok (authority, default_port)

abbrev pub host_and_port : Str → Str → Result PolicyError (Str × Str)
host_and_port authority default_port = elim (split_host_port authority) [
  | some hp ↦ ok hp
  | none ↦ default_host authority default_port
]

module _ (nip : Netip) where
  abbrev pub canonical_host : Str → Result PolicyError Str
  canonical_host host = elim (normalize_host nip host) [ ok h ↦ ok h | err e ↦ err bad_host ]

  abbrev pub canonical_port : Str → Result PolicyError ℕ
  canonical_port port = elim (parse_uint16 port) [
    | none ↦ err bad_port
    | some n ↦ if n == 0 then err bad_port else ok n
  ]

  unfoldable pub parse_destination : Str → Str → Result PolicyError Destination
  parse_destination authority default_port = do
    hp ← host_and_port authority default_port
    host ← canonical_host hp.0
    port ← canonical_port hp.1
    ok (record { host = host; port = port })

-- strconv.Itoa of a number that is not negative; the fuel bounds the number of digits.
unfoldable pub itoa_fuel : ℕ → ℕ → Str
itoa_fuel zero n = []
itoa_fuel (suc f) n =
    let shorter = itoa_fuel f (n / 10) in
    if ltb n 10 then (b'0' + n) ∷ [] else shorter ++ (b'0' + n % 10) ∷ []

unfoldable pub itoa : ℕ → Str
unfolding itoa_fuel
itoa n = itoa_fuel (suc n) n

-- net.JoinHostPort
unfoldable pub join_host_port : Str → Str → Str
join_host_port host port =
    if contains_byte b':' host then b'[' ∷ (host ++ b']' ∷ b':' ∷ port) else host ++ b':' ∷ port

-- Destination.String
unfoldable pub destination_string : Destination → Str
unfolding join_host_port itoa
destination_string d = join_host_port d.host (itoa d.port)
