-- ===== src/WorkerEgress/Arguments/RoundTrip.antt =====
-- ParseProxyRules of internal/workeregress/inspect.go reads back the arguments that Ensure writes
-- (internal/workeregress/ensure.go).
use sandbox_codex.Common.{
  All, Bool, List, Str, [], ap, append-nil, append_assoc, arith, codes, false, if◌then◌else◌,
  map_result, map_result_head, negsuc, none, ok, pos, refl, some, split_on, str_eq, subst, sym,
  true, ℕ, ℤ, ◌++◌, ◌<◌, ◌∙◌, ◌∷◌, ◌≡◌, ◌≤◌,
}
use sandbox_codex.NetworkPolicy.Check.{deny}
use sandbox_codex.NetworkPolicy.Compile.{Compiled, Rules, compile, compile_port}
use sandbox_codex.NetworkPolicy.Compile.Parts.{compile-IsCompiled}
use sandbox_codex.NetworkPolicy.Netip.{Netip}
use sandbox_codex.WorkerEgress.{compiles, judge_policy}
use sandbox_codex.WorkerEgress.Arguments.{
  Parsed, cut_flag, flag_pairs, itoa_int, nothing_parsed, parse_args, parse_proxy_rules, proxy_args,
  read_flag, read_port, take_value,
}
use sandbox_codex.WorkerEgress.Arguments.Values.{port_value}

-- The pairs of one flag are read into its list.
module _ {A : Type 0} (P : A → Type 0) (flag : Str) (print : A → Str) (put : List A → Parsed)
    (waits : (st : Parsed)
      → read_flag ((cut_flag flag).0) ((cut_flag flag).1) st ≡ ok (st, some flag))
    (takes : (xs : List A) (a : A)
      → P a
      → take_value flag (print a) (put xs) ≡ ok (put (xs ++ a ∷ []))) where
  pairs_read :
      (ys xs : List A) (rest : List Str)
      → All P ys
      → parse_args none (put xs) (flag_pairs flag print ys ++ rest)
        ≡ parse_args none (put (xs ++ ys)) rest
  unfolding parse_args
  pairs_read [] xs rest good = ap (λ k. parse_args none (put k) rest) (sym (append-nil xs))
  pairs_read (y ∷ ys) xs rest (one, others) =
      let ih = pairs_read ys (xs ++ y ∷ []) rest others in
      let joined = append_assoc xs (y ∷ []) ys in
      rw (waits (put xs), takes xs y one) (ih ∙ ap (λ k. parse_args none (put k) rest) joined)

-- The ports that Compile accepts.
abbrev IsPort : ℤ → Type 0
IsPort z = (n : ℕ) × (z ≡ pos n) × (0 < n) × (n ≤ 65535)

compile_port-IsPort : (z : ℤ) {n : ℕ} → compile_port z ≡ ok n → IsPort z
compile_port-IsPort (negsuc n) e = cc e
compile_port-IsPort (pos n) e = (n, refl, ground arith, ground arith)

ports-IsPort : (zs : List ℤ) {ns : List ℕ} → map_result compile_port zs ≡ ok ns → All IsPort zs
ports-IsPort [] e = tt
ports-IsPort (z ∷ zs) e =
    let (n, others, one, later, _) = map_result_head compile_port z zs e in
    (compile_port-IsPort z one, ports-IsPort zs later)

-- The state of the loop with these lists.
abbrev built : Bool → List Str → List Str → List Str → List Str → List ℤ → List ℤ → Parsed
built deny ad dd ac dc pa pd = record {
  role = codes "egress";
  rules = record {
    allow_domains = ad;
    deny_domains = dd;
    allow_cidrs = ac;
    deny_cidrs = dc;
    allow_ports = pa;
    deny_ports = pd;
    block_private = true;
    default_deny = deny;
  };
}

unit_everywhere : {A : Type 0} (xs : List A) → All (λ _. Unit {0}) xs
unit_everywhere [] = tt
unit_everywhere (x ∷ xs) = (tt, unit_everywhere xs)

module _ (deny : Bool) where
  module _ (ac dc : List Str) (pa pd : List ℤ) where
    allow_domains_read :
        (ys dd : List Str) (rest : List Str)
        → parse_args none
            (built deny [] dd ac dc pa pd)
            (flag_pairs (codes "--forward-allow-domain") (λ v. v) ys ++ rest)
          ≡ parse_args none (built deny ys dd ac dc pa pd) rest
    unfolding read_flag take_value
    allow_domains_read ys dd rest =
        pairs_read (λ _. Unit {0}) (codes "--forward-allow-domain") (λ v. v)
          (λ xs. built deny xs dd ac dc pa pd) (λ st. refl) (λ xs a _. refl) ys [] rest
          (unit_everywhere ys)

    deny_domains_read :
        (ys ad : List Str) (rest : List Str)
        → parse_args none
            (built deny ad [] ac dc pa pd)
            (flag_pairs (codes "--forward-deny-domain") (λ v. v) ys ++ rest)
          ≡ parse_args none (built deny ad ys ac dc pa pd) rest
    unfolding read_flag take_value
    deny_domains_read ys ad rest =
        pairs_read (λ _. Unit {0}) (codes "--forward-deny-domain") (λ v. v)
          (λ xs. built deny ad xs ac dc pa pd) (λ st. refl) (λ xs a _. refl) ys [] rest
          (unit_everywhere ys)

  module _ (ad dd : List Str) where
    allow_cidrs_read :
        (ys dc : List Str) (pa pd : List ℤ) (rest : List Str)
        → parse_args none
            (built deny ad dd [] dc pa pd)
            (flag_pairs (codes "--forward-allow-cidr") (λ v. v) ys ++ rest)
          ≡ parse_args none (built deny ad dd ys dc pa pd) rest
    unfolding read_flag take_value
    allow_cidrs_read ys dc pa pd rest =
        pairs_read (λ _. Unit {0}) (codes "--forward-allow-cidr") (λ v. v)
          (λ xs. built deny ad dd xs dc pa pd) (λ st. refl) (λ xs a _. refl) ys [] rest
          (unit_everywhere ys)

    deny_cidrs_read :
        (ys ac : List Str) (pa pd : List ℤ) (rest : List Str)
        → parse_args none
            (built deny ad dd ac [] pa pd)
            (flag_pairs (codes "--forward-deny-cidr") (λ v. v) ys ++ rest)
          ≡ parse_args none (built deny ad dd ac ys pa pd) rest
    unfolding read_flag take_value
    deny_cidrs_read ys ac pa pd rest =
        pairs_read (λ _. Unit {0}) (codes "--forward-deny-cidr") (λ v. v)
          (λ xs. built deny ad dd ac xs pa pd) (λ st. refl) (λ xs a _. refl) ys [] rest
          (unit_everywhere ys)

    port_read : (z : ℤ) → IsPort z → map_result read_port (split_on b',' (itoa_int z)) ≡ ok (z ∷ [])
    unfolding itoa_int
    port_read z (n, same, positive, small) =
        subst (λ k. map_result read_port (split_on b',' (itoa_int k)) ≡ ok (k ∷ [])) (sym same)
          (port_value n positive (omega arith))

    module _ (ac dc : List Str) where
      allow_ports_read :
          (ys pd : List ℤ) (rest : List Str)
          → All IsPort ys
          → parse_args none
              (built deny ad dd ac dc [] pd)
              (flag_pairs (codes "--forward-allow-port") itoa_int ys ++ rest)
            ≡ parse_args none (built deny ad dd ac dc ys pd) rest
      unfolding read_flag take_value
      allow_ports_read ys pd rest good =
          pairs_read IsPort (codes "--forward-allow-port") itoa_int
            (λ xs. built deny ad dd ac dc xs pd) (λ st. refl)
            (λ xs a port. rw (port_read a port) refl) ys [] rest good

      deny_ports_read :
          (ys pa : List ℤ) (rest : List Str)
          → All IsPort ys
          → parse_args none
              (built deny ad dd ac dc pa [])
              (flag_pairs (codes "--forward-deny-port") itoa_int ys ++ rest)
            ≡ parse_args none (built deny ad dd ac dc pa ys) rest
      unfolding read_flag take_value
      deny_ports_read ys pa rest good =
          pairs_read IsPort (codes "--forward-deny-port") itoa_int
            (λ xs. built deny ad dd ac dc pa xs) (λ st. refl)
            (λ xs a port. rw (port_read a port) refl) ys [] rest good

-- The arguments before the lists.
heading_read :
    (deny : Bool) (rest : List Str)
    → parse_args none nothing_parsed (
        codes "proxy"
        ∷ codes "serve"
        ∷ codes "--listen"
        ∷ codes "0.0.0.0:18082"
        ∷ codes "--role"
        ∷ codes "egress"
        ∷ codes "--block-private"
        ∷ (if deny then codes "--forward-default-deny" else codes "--forward-default-deny=false")
        ∷ rest)
      ≡ parse_args none (built deny [] [] [] [] [] []) rest
unfolding parse_args read_flag take_value
heading_read true rest = refl
heading_read false rest = refl

all_read : (st : Parsed) → parse_args none st [] ≡ ok st
unfolding parse_args
all_read st = refl

rebuilt :
    (r : Rules)
    → r.block_private ≡ true
    → (built r.default_deny r.allow_domains r.deny_domains r.allow_cidrs r.deny_cidrs r.allow_ports
        r.deny_ports).rules
      ≡ r
rebuilt r blocks = ap (λ b. record r { block_private = b }) (sym blocks)

args_read :
    (r : Rules)
    → All IsPort r.allow_ports
    → All IsPort r.deny_ports
    → parse_args none nothing_parsed (proxy_args r)
      ≡ ok (
          built r.default_deny r.allow_domains r.deny_domains r.allow_cidrs r.deny_cidrs
            r.allow_ports r.deny_ports)
unfolding proxy_args
args_read r ports_in ports_out =
    let deny = r.default_deny in
    let ad = r.allow_domains in
    let dd = r.deny_domains in
    let ac = r.allow_cidrs in
    let dc = r.deny_cidrs in
    let pa = r.allow_ports in
    let pd = r.deny_ports in
    heading_read deny _
    ∙ allow_domains_read deny [] [] [] [] ad [] _
    ∙ deny_domains_read deny [] [] [] [] dd ad _
    ∙ allow_cidrs_read deny ad dd ac [] [] [] _
    ∙ deny_cidrs_read deny ad dd dc ac [] [] _
    ∙ allow_ports_read deny ad dd ac dc pa [] _ ports_in
    ∙ ap (parse_args none (built deny ad dd ac dc pa []))
        (sym (append-nil (flag_pairs (codes "--forward-deny-port") itoa_int pd)))
    ∙ deny_ports_read deny ad dd ac dc pd pa [] ports_out
    ∙ all_read (built deny ad dd ac dc pa pd)

compiles-compile :
    (nip : Netip) (r : Rules) {p : Compiled} → compile nip r ≡ ok p → compiles nip r ≡ ok tt
compiles-compile nip r e = ap judge_policy e

finished :
    (nip : Netip) (args : List Str) (st : Parsed) (r : Rules)
    → parse_args none nothing_parsed args ≡ ok st
    → str_eq st.role (codes "egress") ≡ true
    → st.rules ≡ r
    → compiles nip r ≡ ok tt
    → parse_proxy_rules nip args ≡ ok r
unfolding parse_proxy_rules
finished nip args st r read role same good = rw read (rw role (rw same (rw good refl)))

-- What Ensure launches, ParseProxyRules reads: the arguments of a new proxy for rules that compile
-- and that block private addresses give those rules back.
pub parse_proxy_rules-proxy_args :
    (nip : Netip) (r : Rules) {p : Compiled}
    → compile nip r ≡ ok p
    → r.block_private ≡ true
    → parse_proxy_rules nip (proxy_args r) ≡ ok r
parse_proxy_rules-proxy_args nip r e blocks =
    let c = compile-IsCompiled nip r e in
    let inside = ports-IsPort r.allow_ports c.allow_ports in
    let outside = ports-IsPort r.deny_ports c.deny_ports in
    finished nip (proxy_args r) _ r (args_read r inside outside) refl (rebuilt r blocks)
      (compiles-compile nip r e)
