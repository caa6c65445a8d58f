-- ===== src/WorkerEgress/Arguments.antt =====
-- The arguments of an egress proxy: as Ensure writes them (internal/workeregress/ensure.go), and as
-- ParseProxyRules reads them back (internal/workeregress/inspect.go).
pub mod Values
pub mod RoundTrip
use mathlib.Core.Option
use sandbox_codex.Common.{
  Bool, List, Option, Result, Str, [], any, codes, cut, ensure, err, false, has_prefix,
  if◌then◌else◌, ltb, map_result, negsuc, none, ok, pos, some, split_on, str_eq, suc, true, zero, ℕ,
  ℤ, ◌++◌, ◌+◌, ◌==◌, ◌>>=◌, ◌>>◌, ◌^◌, ◌||◌, ◌∷◌,
}
use sandbox_codex.NetworkPolicy.Authority.{itoa, read_digits}
use sandbox_codex.NetworkPolicy.Compile.{Rules}
use sandbox_codex.NetworkPolicy.Netip.{Netip}
use sandbox_codex.WorkerEgress.{
  EgressError, bad_flag, bad_port_argument, compiles, incomplete_arguments, not_egress,
  unsupported_flag,
}

-- What the loop of ParseProxyRules has read so far.
pub record Parsed : Type 0 where
  pub role : Str
  pub rules : Rules

-- `var rules networkpolicy.Rules; role := ""`
abbrev pub nothing_parsed : Parsed
nothing_parsed = record {
  role = [];
  rules = record {
    allow_domains = [];
    deny_domains = [];
    allow_cidrs = [];
    deny_cidrs = [];
    allow_ports = [];
    deny_ports = [];
    block_private = false;
    default_deny = false;
  };
}

-- strconv.ParseBool
abbrev pub parse_bool : Str → Option Bool
parse_bool s =
    if any (str_eq s)
      (codes "1" ∷ codes "t" ∷ codes "T" ∷ codes "true" ∷ codes "TRUE" ∷ codes "True" ∷ [])
    then some true
    else if any (str_eq s)
        (codes "0" ∷ codes "f" ∷ codes "F" ∷ codes "false" ∷ codes "FALSE" ∷ codes "False" ∷ [])
    then some false
    else none

abbrev pub below : ℕ → Option ℕ → Option ℕ
below bound none = none
below bound (some n) = if ltb n bound then some n else none

-- The magnitude of a decimal number below a bound.
abbrev pub magnitude : ℕ → Str → Option ℕ
magnitude bound [] = none
magnitude bound (c ∷ s) = below bound (read_digits 0 (c ∷ s))

abbrev pub negated : ℕ → ℤ
negated zero = pos zero
negated (suc n) = negsuc n

-- strconv.Atoi: an optional sign and decimal digits, within 64 bits
unfoldable pub atoi : Str → Option ℤ
atoi [] = none
atoi (c ∷ s) =
    if c == b'-'
    then Option.map negated (magnitude (2 ^ 63 + 1) s)
    else if c == b'+'
    then Option.map pos (magnitude (2 ^ 63) s)
    else Option.map pos (magnitude (2 ^ 63) (c ∷ s))

-- strconv.Itoa
unfoldable pub itoa_int : ℤ → Str
itoa_int (pos n) = itoa n
itoa_int (negsuc n) = b'-' ∷ itoa (suc n)

abbrev pub found_port : Option ℤ → Result EgressError ℤ
found_port none = err bad_port_argument
found_port (some n) = ok n

-- One part of a list of ports.
abbrev pub read_port : Str → Result EgressError ℤ
read_port part = found_port (atoi part)

-- A flag that stands for a Boolean: alone it is true.
abbrev pub read_switch : Option Str → Result EgressError Bool
read_switch none = ok true
read_switch (some value) = elim (parse_bool value) [ some b ↦ ok b | none ↦ err bad_flag ]

abbrev pub with_rules : Parsed → Rules → Parsed
with_rules st r = record st { rules = r }

-- The switch on the key, with the value of the flag.
unfoldable pub take_value : Str → Str → Parsed → Result EgressError Parsed
take_value key value st =
    let r = st.rules in
    if str_eq key (codes "--role")
    then ok (record st { role = value })
    else if str_eq key (codes "--forward-allow-domain")
    then ok (with_rules st (record r { allow_domains = r.allow_domains ++ value ∷ [] }))
    else if str_eq key (codes "--forward-deny-domain")
    then ok (with_rules st (record r { deny_domains = r.deny_domains ++ value ∷ [] }))
    else if str_eq key (codes "--forward-allow-cidr")
    then ok (with_rules st (record r { allow_cidrs = r.allow_cidrs ++ value ∷ [] }))
    else if str_eq key (codes "--forward-deny-cidr")
    then ok (with_rules st (record r { deny_cidrs = r.deny_cidrs ++ value ∷ [] }))
    else if str_eq key (codes "--forward-allow-port")
    then (do
      ns ← map_result read_port (split_on b',' value)
      ok (with_rules st (record r { allow_ports = r.allow_ports ++ ns })))
    else if str_eq key (codes "--forward-deny-port")
    then (do
      ns ← map_result read_port (split_on b',' value)
      ok (with_rules st (record r { deny_ports = r.deny_ports ++ ns })))
    else err (unsupported_flag)

-- strings.Cut at "=": the key, and the value if it is inline
abbrev pub cut_flag : Str → Str × Option Str
cut_flag arg = elim (cut b'=' arg) [ none ↦ (arg, none) | some p ↦ (p.0, some p.1) ]

abbrev pub is_known : Str → Bool
is_known key = str_eq key (codes "--role") || has_prefix (codes "--forward-") key

abbrev pub take_inline : Str → Option Str → Parsed → Result EgressError (Parsed × Option Str)
take_inline key none st = ok (st, some key)
take_inline key (some value) st = do after_value ← take_value key value st; ok (after_value, none)

-- One argument where a flag may stand; it may leave a key that waits for its value.
unfoldable pub read_flag : Str → Option Str → Parsed → Result EgressError (Parsed × Option Str)
read_flag key inline st =
    let r = st.rules in
    if str_eq key (codes "--forward-default-deny")
    then (do b ← read_switch inline; ok (with_rules st (record r { default_deny = b }), none))
    else if str_eq key (codes "--block-private")
    then (do b ← read_switch inline; ok (with_rules st (record r { block_private = b }), none))
    else if is_known key
    then take_inline key inline st
    else ok (st, none)

-- The loop over the arguments.
unfoldable pub parse_args : Option Str → Parsed → List Str → Result EgressError Parsed
parse_args none st [] = ok st
parse_args (some key) st [] = err incomplete_arguments
parse_args (some key) st (arg ∷ args) = do read ← take_value key arg st; parse_args none read args
parse_args none st (arg ∷ args) = do
  (read, waiting) ← read_flag ((cut_flag arg).0) ((cut_flag arg).1) st
  parse_args waiting read args

-- ParseProxyRules
unfoldable pub parse_proxy_rules : Netip → List Str → Result EgressError Rules
parse_proxy_rules nip args = do
  st ← parse_args none nothing_parsed args
  ensure (str_eq st.role (codes "egress")) not_egress
  compiles nip st.rules
  ok st.rules

-- A flag before each of its values.
abbrev pub flag_pairs : {A : Type 0} → Str → (A → Str) → List A → List Str
flag_pairs flag print [] = []
flag_pairs flag print (a ∷ as_left) = flag ∷ print a ∷ flag_pairs flag print as_left

-- The arguments that Ensure gives a new proxy.
unfoldable pub proxy_args : Rules → List Str
proxy_args r =
    codes "proxy"
    ∷ codes "serve"
    ∷ codes "--listen"
    ∷ codes "0.0.0.0:18082"
    ∷ codes "--role"
    ∷ codes "egress"
    ∷ codes "--block-private"
    ∷ (if r.default_deny
        then codes "--forward-default-deny"
        else codes "--forward-default-deny=false")
    ∷ (flag_pairs (codes "--forward-allow-domain") (λ v. v) r.allow_domains
        ++ (flag_pairs (codes "--forward-deny-domain") (λ v. v) r.deny_domains
            ++ (flag_pairs (codes "--forward-allow-cidr") (λ v. v) r.allow_cidrs
                ++ (flag_pairs (codes "--forward-deny-cidr") (λ v. v) r.deny_cidrs
                    ++ (flag_pairs (codes "--forward-allow-port") itoa_int r.allow_ports
                        ++ flag_pairs (codes "--forward-deny-port") itoa_int r.deny_ports)))))
