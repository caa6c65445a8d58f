-- ===== src/NetworkPolicy/Netip/Ranges.antt =====
-- The ranges that IsPrivate, CheckAddress and Compile of internal/networkpolicy/policy.go work with.
use native.Mathlib.Nat.{pow-suc, mul-div_cancel}
use sandbox_codex.Common.{
  Bool, Bool-cases, Option, Option-cases, Str, ap, arith, false, inl, inr, none, ok, refl, some,
  suc, sym, true, zero, ℕ, ◌*◌, ◌+◌, ◌-◌, ◌/◌, ◌<◌, ◌==◌, ◌>>◌, ◌^◌, ◌||◌, ◌↔◌, ◌∙◌, ◌≡◌, ◌≤◌, ◌⊎◌,
}
use sandbox_codex.NetworkPolicy.{Context, Destination, ctx_err}
use sandbox_codex.NetworkPolicy.Check.{check_address, check_ip, is_private}
use sandbox_codex.NetworkPolicy.Compile.{Compiled, compile_cidr}
use sandbox_codex.NetworkPolicy.Netip.{
  Addr, Netip, Prefix, agrees, contains, invalid, is_4_in_6, is_link_local_multicast,
  is_link_local_unicast, is_loopback, is_private_use, is_unspecified, keep_bits, mask_addr, masked,
  prefix_from, unmap, v4, v6,
}

abbrev pub Between : ℕ → ℕ → ℕ → Type 0
Between low high n = (low ≤ n) × (n ≤ high)

-- The IPv4 ranges that are private, by their first and last addresses: 10.0.0.0/8, 172.16.0.0/12
-- and 192.168.0.0/16; 127.0.0.0/8; 169.254.0.0/16; 224.0.0.0/24; 0.0.0.0; 100.64.0.0/10.
abbrev pub IsPrivateV4 : ℕ → Type 0
IsPrivateV4 n =
    (Between 0x0a000000 0x0affffff n
      ⊎ (Between 0xac100000 0xac1fffff n ⊎ Between 0xc0a80000 0xc0a8ffff n))
    ⊎ (Between 0x7f000000 0x7fffffff n
        ⊎ (Between 0xa9fe0000 0xa9feffff n
            ⊎ (Between 0xe0000000 0xe00000ff n ⊎ ((n ≡ 0) ⊎ Between 0x64400000 0x647fffff n))))

or_iff : {P Q : Type 0} (a b : Bool) → (a ≡ true) ↔ P → (b ≡ true) ↔ Q → ((a || b) ≡ true) ↔ (P ⊎ Q)
or_iff true b h k = ((λ e. inl (h.0 refl)), (λ e. refl))
or_iff false b h k = ((λ e. inr (k.0 e)), (λ s. elim s [ inl p ↦ cc (h.1 p) | inr q ↦ k.1 q ]))

private_use_iff :
    (n : ℕ)
    → (is_private_use (v4 n) ≡ true) ↔ (
        Between 0x0a000000 0x0affffff n
        ⊎ (Between 0xac100000 0xac1fffff n ⊎ Between 0xc0a80000 0xc0a8ffff n))
private_use_iff n =
    or_iff (n / 2 ^ 24 == 10) (n / 2 ^ 20 == 0xac1 || n / 2 ^ 16 == 0xc0a8) (ground arith)
      (or_iff (n / 2 ^ 20 == 0xac1) (n / 2 ^ 16 == 0xc0a8) (ground arith) (ground arith))

-- IsPrivate of an IPv4 address is membership in these ranges.
pub IsPrivateV4-iff : (n : ℕ) → (is_private (v4 n) ≡ true) ↔ IsPrivateV4 n
unfolding is_private
IsPrivateV4-iff n = or_iff (is_private_use (v4 n)) _ (private_use_iff n) (
    or_iff (is_loopback (v4 n)) _ (ground arith) (
      or_iff (is_link_local_unicast (v4 n)) _ (ground arith) (
        or_iff (is_link_local_multicast (v4 n)) _ (ground arith)
          (or_iff (is_unspecified (v4 n)) _ (ground arith) (ground arith)))))

-- An address is treated alike in its mapped and in its plain spelling.
pub check_address_mapped :
    (p : Compiled) (ctx : Context) (d : Destination) (n : ℕ) (zone : Str)
    → n < 2 ^ 32
    → check_address p ctx d (v6 (0xffff * 2 ^ 32 + n) zone) ≡ check_address p ctx d (v4 n)
unfolding check_address
check_address_mapped p ctx d n zone h =
    let same : unmap (v6 (0xffff * 2 ^ 32 + n) zone) ≡ v4 n = ground arith in
    ap (λ ip. ctx_err ctx >> check_ip p d ip) same

two_pow_pos : (k : ℕ) → 0 < 2 ^ k
two_pow_pos zero = omega arith
two_pow_pos (suc k) = rw (pow-suc 2 k) (let ih = two_pow_pos k in omega arith)

keep_bits_div :
    (width bits n : ℕ) → keep_bits width bits n / 2 ^ (width - bits) ≡ n / 2 ^ (width - bits)
keep_bits_div width bits n = mul-div_cancel (n / 2 ^ (width - bits)) (two_pow_pos (width - bits))

agrees-mask_addr : (b : ℕ) (p a : Addr) → agrees b (mask_addr b p) a ≡ agrees b p a
agrees-mask_addr b invalid a = refl
agrees-mask_addr b (v4 n) invalid = refl
agrees-mask_addr b (v4 n) (v4 m) = rw (keep_bits_div 32 b n)
agrees-mask_addr b (v4 n) (v6 m z) = refl
agrees-mask_addr b (v6 n y) invalid = refl
agrees-mask_addr b (v6 n y) (v4 m) = refl
agrees-mask_addr b (v6 n y) (v6 m z) = rw (keep_bits_div 128 b n)

-- Masking changes nothing of what a prefix contains.
pub contains-masked : (p : Prefix) (a : Addr) → contains (masked p) a ≡ contains p a
unfolding contains
contains-masked p a = at_bits p.addr p.bits
  where
    at_bits :
        (b : Addr) (o : Option ℕ)
        → contains (masked (record { addr = b; bits = o })) a
          ≡ contains (record { addr = b; bits = o }) a
    at_bits b none = refl
    at_bits b (some n) = agrees-mask_addr n b a

-- A CIDR rule that compiles contains what the prefix contains that netip reads, of the IPv4
-- addresses behind it if it is a range of mapped ones.
pub compile_cidr-contains :
    (nip : Netip) (value : Str) (p q : Prefix) (a : Addr)
    → nip.parse_prefix value ≡ some p
    → compile_cidr nip value ≡ ok q
    → ((is_4_in_6 p.addr ≡ false) × (contains q a ≡ contains p a))
      ⊎ ((b : ℕ) × (is_4_in_6 p.addr ≡ true)
          × (p.bits ≡ some b)
          × (96 ≤ b)
          × (contains q a ≡ contains (prefix_from (unmap p.addr) (b - 96)) a))
unfolding compile_cidr
compile_cidr-contains nip value p q a parsed e = elim (Bool-cases (is_4_in_6 p.addr)) [
  | inr plain ↦
      let same : masked p ≡ q = ground arith in
      inl (plain, ap (λ r. contains r a) (sym same) ∙ contains-masked p a)
  | inl mapped ↦ elim (Option-cases p.bits) [
    | inl no_bits ↦ ground arith
    | inr (b, bits) ↦
        let same : masked (prefix_from (unmap p.addr) (b - 96)) ≡ q = ground arith in
        inr (
          b,
          mapped,
          bits,
          ground arith,
          ap (λ r. contains r a) (sym same)
              ∙ contains-masked (prefix_from (unmap p.addr) (b - 96)) a,
        )
  ]
]

contains_single : (n m : ℕ) → (contains (prefix_from (v4 n) 32) (v4 m) ≡ true) ↔ (m ≡ n)
unfolding contains
contains_single n m = ground arith

-- An address rule without a zone contains that address and no other of its family.
pub compile_cidr_single :
    (nip : Netip) (value : Str) (n m : ℕ) (q : Prefix)
    → nip.parse_prefix value ≡ none
    → nip.parse_addr value ≡ some (v4 n)
    → compile_cidr nip value ≡ ok q
    → (contains q (v4 m) ≡ true) ↔ (m ≡ n)
unfolding compile_cidr
compile_cidr_single nip value n m q no_prefix parsed e =
    let same : masked (prefix_from (v4 n) 32) ≡ q = ground arith in
    rw (← same, contains-masked (prefix_from (v4 n) 32) (v4 m)) (contains_single n m)
