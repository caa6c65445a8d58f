-- ===== src/NetworkPolicy/Netip.antt =====
-- What internal/networkpolicy uses of net/netip: addresses, prefixes and their classes. Reading and
-- printing an address are the fields of `Netip`, which its clients take as an argument.
pub mod Ranges
use sandbox_codex.Common.{
  ==_iff, Bool, Option, Str, [], arith, false, if◌then◌else◌, is_empty, leb, none, not, some,
  str_eq, str_eq_iff, true, ℕ, ◌%◌, ◌&&◌, ◌*◌, ◌-◌, ◌/◌, ◌==◌, ◌^◌, ◌||◌, ◌↔◌, ◌≡◌,
}

-- netip.Addr: the zero Addr, an IPv4 address, an IPv6 address with its zone.
pub data Addr : Type 0 where
  invalid : Addr
  v4 : ℕ → Addr
  v6 : ℕ → Str → Addr

abbrev pub is_valid : Addr → Bool
is_valid invalid = false
is_valid (v4 n) = true
is_valid (v6 n z) = true

abbrev pub has_zone : Addr → Bool
has_zone invalid = false
has_zone (v4 n) = false
has_zone (v6 n z) = not (is_empty z)

-- Is4In6: an IPv4-mapped IPv6 address, ::ffff:0:0/96.
abbrev pub is_4_in_6 : Addr → Bool
is_4_in_6 invalid = false
is_4_in_6 (v4 n) = false
is_4_in_6 (v6 n z) = n / 2 ^ 32 == 0xffff

abbrev pub unmap : Addr → Addr
unmap invalid = invalid
unmap (v4 n) = v4 n
unmap (v6 n z) = if n / 2 ^ 32 == 0xffff then v4 (n % 2 ^ 32) else v6 n z

abbrev pub bit_len : Addr → ℕ
bit_len invalid = 0
bit_len (v4 n) = 32
bit_len (v6 n z) = 128

abbrev pub without_zone : Addr → Addr
without_zone invalid = invalid
without_zone (v4 n) = v4 n
without_zone (v6 n z) = v6 n []

-- netip.Prefix; `none` stands for the bits -1 of an invalid prefix.
pub record Prefix : Type 0 where
  pub addr : Addr
  pub bits : Option ℕ

abbrev pub prefix_from : Addr → ℕ → Prefix
prefix_from a b = record {
  addr = without_zone a;
  bits = if is_valid a && leb b (bit_len a) then some b else none;
}

-- The leading `bits` of a `width`-bit number, with zeros behind them.
abbrev pub keep_bits : ℕ → ℕ → ℕ → ℕ
keep_bits width bits n = n / 2 ^ (width - bits) * 2 ^ (width - bits)

abbrev pub mask_addr : ℕ → Addr → Addr
mask_addr b invalid = invalid
mask_addr b (v4 n) = v4 (keep_bits 32 b n)
mask_addr b (v6 n z) = v6 (keep_bits 128 b n) z

-- Prefix.Masked
abbrev pub masked : Prefix → Prefix
masked p = elim p.bits [
  | none ↦ record { addr = invalid; bits = none }
  | some b ↦ record { addr = mask_addr b p.addr; bits = some b }
]

abbrev pub same_bits : ℕ → ℕ → ℕ → ℕ → Bool
same_bits width bits n m = n / 2 ^ (width - bits) == m / 2 ^ (width - bits)

abbrev pub agrees : ℕ → Addr → Addr → Bool
agrees b (v4 n) (v4 m) = same_bits 32 b n m
agrees b (v6 n _) (v6 m z) = is_empty z && same_bits 128 b n m
agrees b _ _ = false

-- Prefix.Contains: of one family, without a zone, equal in the leading bits.
unfoldable pub contains : Prefix → Addr → Bool
contains p a = elim p.bits [ none ↦ false | some b ↦ agrees b p.addr a ]

-- 10.0.0.0/8, 172.16.0.0/12, 192.168.0.0/16 and fc00::/7.
abbrev pub is_private_use : Addr → Bool
is_private_use invalid = false
is_private_use (v4 n) = n / 2 ^ 24 == 10 || (n / 2 ^ 20 == 0xac1 || n / 2 ^ 16 == 0xc0a8)
is_private_use (v6 n z) = n / 2 ^ 121 == 0x7e

-- 127.0.0.0/8 and ::1.
abbrev pub is_loopback : Addr → Bool
is_loopback invalid = false
is_loopback (v4 n) = n / 2 ^ 24 == 127
is_loopback (v6 n z) = n == 1

-- 169.254.0.0/16 and fe80::/10.
abbrev pub is_link_local_unicast : Addr → Bool
is_link_local_unicast invalid = false
is_link_local_unicast (v4 n) = n / 2 ^ 16 == 0xa9fe
is_link_local_unicast (v6 n z) = n / 2 ^ 118 == 0x3fa

-- 224.0.0.0/24, and ff?2::/16 for any flags.
abbrev pub is_link_local_multicast : Addr → Bool
is_link_local_multicast invalid = false
is_link_local_multicast (v4 n) = n / 2 ^ 8 == 0xe00000
is_link_local_multicast (v6 n z) = n / 2 ^ 120 == 0xff && n / 2 ^ 112 % 16 == 2

abbrev pub is_unspecified : Addr → Bool
is_unspecified invalid = false
is_unspecified (v4 n) = n == 0
is_unspecified (v6 n z) = n == 0 && is_empty z

-- Reading and printing: netip.ParseAddr, netip.ParsePrefix and Addr.String.
pub record Netip : Type 0 where
  pub parse_addr : Str → Option Addr
  pub parse_prefix : Str → Option Prefix
  pub format : Addr → Str

abbrev pub addr_eq : Addr → Addr → Bool
addr_eq invalid invalid = true
addr_eq invalid (v4 n) = false
addr_eq invalid (v6 n z) = false
addr_eq (v4 m) invalid = false
addr_eq (v4 m) (v4 n) = m == n
addr_eq (v4 m) (v6 n z) = false
addr_eq (v6 m y) invalid = false
addr_eq (v6 m y) (v4 n) = false
addr_eq (v6 m y) (v6 n z) = (m == n) && str_eq y z

pub addr_eq_iff : (a b : Addr) → (addr_eq a b ≡ true) ↔ (a ≡ b)
addr_eq_iff invalid invalid = ground arith
addr_eq_iff invalid (v4 n) = ground arith
addr_eq_iff invalid (v6 n z) = ground arith
addr_eq_iff (v4 m) invalid = ground arith
addr_eq_iff (v4 m) (v4 n) = ground (arith, ==_iff m n)
addr_eq_iff (v4 m) (v6 n z) = ground arith
addr_eq_iff (v6 m y) invalid = ground arith
addr_eq_iff (v6 m y) (v4 n) = ground arith
addr_eq_iff (v6 m y) (v6 n z) = ground (arith, ==_iff m n, str_eq_iff y z)
