-- ===== src/NetworkPolicy/Explain/Agreement.antt =====
-- Explain (internal/networkpolicy/explain.go) agrees with what a dial checks
-- (internal/networkpolicy/dialer.go).
use sandbox_codex.Common.{
  All, Bool, List, Result, Result-cases, Str, [], arith, codes, err, false, inl, inr, length, none,
  ok, refl, some, subst, true, ◌+◌, ◌∙◌, ◌∷◌, ◌≡◌, ◌≢◌,
}
use sandbox_codex.NetworkPolicy.{Context, Destination, PolicyError}
use sandbox_codex.NetworkPolicy.Authority.{parse_destination}
use sandbox_codex.NetworkPolicy.Check.{Policy, compiled_policy}
use sandbox_codex.NetworkPolicy.Compile.{Compiled, Rules, compile}
use sandbox_codex.NetworkPolicy.Dialer.{Network, resolve}
use sandbox_codex.NetworkPolicy.Dialer.Safety.{IsVetted}
use sandbox_codex.NetworkPolicy.Explain.{
  Decision, address_stage, all_passed, answer, explain, explain_addresses, explain_destination,
  explain_loop, initial, settle,
}
use sandbox_codex.NetworkPolicy.Netip.{Addr, Netip}

-- A failed check leaves the decision closed.
stays_closed :
    (r : Decision) (e : PolicyError) (d : Decision)
    → r.is_allowed ≡ false
    → (settle (record r { addresses_checked = r.addresses_checked + 1 }) e).decision ≡ some d
    → d.is_allowed ≡ true
    → ⊥
stays_closed r e d closed h open_ = ground arith

module _ (nip : Netip) (net : Network) (ctx : Context) (p : Policy) where
  -- The decision of the loop: allowed, after as many checks as addresses, or not allowed.
  explain_loop_iff :
      (r : Decision) (ips : List Addr)
      → r.is_allowed ≡ false
      → let out = explain_loop nip net ctx p r ips in
        (All (λ ip. p.check_addr ctx r.target ip ≡ ok tt) ips
          → out
            ≡ answer (record r {
              is_allowed = true;
              verdict = all_passed;
              complete = true;
              addresses_checked = r.addresses_checked + length ips;
            }))
        × ((d : Decision)
            → out.decision ≡ some d
            → d.is_allowed ≡ true
            → All (λ ip. p.check_addr ctx r.target ip ≡ ok tt) ips)
  unfolding explain_loop
  explain_loop_iff r [] closed = ((λ a. ground arith), (λ d e h. tt))
  explain_loop_iff r (ip ∷ ips) closed =
      let ih =
        explain_loop_iff (record r { addresses_checked = r.addresses_checked + 1 }) ips closed in
      (
        (λ a. ground (arith, ih.0 a.1)),
        (λ d e h. elim (Result-cases (p.check_addr ctx r.target ip)) [
          | inl (u, passed) ↦ (passed, ih.1 d (rw (passed, explain_loop) at e) h)
          | inr (f, failed) ↦ absurd (stays_closed r f d closed (rw (failed, explain_loop) at e) h)
        ]),
      )

-- The decision on a destination whose addresses have all passed.
abbrev pub granted : Destination → List Addr → Decision
granted d ips = record {
  target = d;
  is_allowed = true;
  verdict = all_passed;
  stage = address_stage;
  addresses_checked = length ips;
  complete = true;
}

module _ (nip : Netip) (net : Network) (ctx : Context) (p : Policy) (d : Destination) where
  -- What a dial establishes for the destination.
  record IsPassed (ips : List Addr) : Type 0 where
    destination : p.check_dest ctx d ≡ ok tt
    answer_ok : resolve nip net d ≡ ok ips
    not_empty : ips ≢ []
    addresses : All (λ ip. p.check_addr ctx d ip ≡ ok tt) ips

  opened : Decision
  opened = record (initial nip net ctx p d) { stage = address_stage }

  explain_addresses_sound :
      (found : Result PolicyError (List Addr)) (x : Decision)
      → (explain_addresses nip net ctx p (initial nip net ctx p d) found).decision ≡ some x
      → x.is_allowed ≡ true
      → (ips : List Addr) × (found ≡ ok ips)
        × (ips ≢ [])
        × All (λ ip. p.check_addr ctx d ip ≡ ok tt) ips
  unfolding opened
  explain_addresses_sound (err e) x h a = ground arith
  explain_addresses_sound (ok []) x h a = ground arith
  explain_addresses_sound (ok (ip ∷ ips)) x h a =
      (ip ∷ ips, refl, (λ e. cc), (explain_loop_iff nip net ctx p opened (ip ∷ ips) refl).1 x h a)

  explain_destination_sound :
      (x : Decision)
      → (explain_destination nip net ctx p true d).decision ≡ some x
      → x.is_allowed ≡ true
      → (ips : List Addr) × IsPassed ips
  unfolding explain_destination
  explain_destination_sound x h a = elim (Result-cases (p.check_dest ctx d)) [
    | inr (e, failed) ↦ absurd (settled e (rw (failed, explain_destination) at h))
    | inl (u, passed) ↦
        let (ips, found, some_ip, each) =
          explain_addresses_sound (resolve nip net d) x (rw (passed, explain_destination) at h) a in
        (
          ips,
          record { destination = passed; answer_ok = found; not_empty = some_ip; addresses = each },
        )
  ]
    where
      settled : (e : PolicyError) → (settle (initial nip net ctx p d) e).decision ≡ some x → ⊥
      settled e h' = ground arith

  explain_destination_complete :
      (ips : List Addr)
      → IsPassed ips
      → explain_destination nip net ctx p true d ≡ answer (granted d ips)
  unfolding explain_destination opened
  explain_destination_complete [] v = absurd (v.not_empty refl)
  explain_destination_complete (ip ∷ ips) v =
      rw (v.destination, explain_destination, v.answer_ok)
        ((explain_loop_iff nip net ctx p opened (ip ∷ ips) refl).0 v.addresses ∙ ground arith)

module _ (nip : Netip) (net : Network) (ctx : Context) (r : Rules) (p : Compiled) (authority : Str)
    (compiled : compile nip r ≡ ok p) where
  explain_parsed :
      (look_up : Bool) (d : Destination)
      → parse_destination nip authority (codes "443") ≡ ok d
      → explain nip net ctx r authority look_up
        ≡ explain_destination nip net ctx (compiled_policy nip p) look_up d
  unfolding explain
  explain_parsed look_up d parsed = rw (explain, compiled, explain, parsed)

  explain_unparsed :
      (look_up : Bool) (e : PolicyError)
      → parse_destination nip authority (codes "443") ≡ err e
      → (explain nip net ctx r authority look_up).decision ≡ none
  unfolding explain
  explain_unparsed look_up e bad = ground arith

-- Explain with name lookup, under rules that compile, agrees with a dial under the compiled policy
-- and a default port of 443: if it allows a destination, a dial would accept the addresses of the
-- authority, and if a dial would accept them, it allows the destination and reports that it has
-- checked all of them.
pub explain_agrees :
    (nip : Netip) (net : Network) (ctx : Context) (r : Rules) (p : Compiled) (authority : Str)
    → compile nip r ≡ ok p
    → let vetted = IsVetted nip net ctx (some (compiled_policy nip p)) authority (codes "443") in
      let out = explain nip net ctx r authority true in
      ((x : Decision)
        → out.decision ≡ some x
        → x.is_allowed ≡ true
        → (d : Destination) × (ips : List Addr) × vetted d ips)
      × ((d : Destination) (ips : List Addr) → vetted d ips → out ≡ answer (granted d ips))
explain_agrees nip net ctx r p authority compiled = (sound, complete)
  where
    policy : Policy
    policy = compiled_policy nip p

    sound :
        (x : Decision)
        → (explain nip net ctx r authority true).decision ≡ some x
        → x.is_allowed ≡ true
        → (d : Destination) × (ips : List Addr) × IsVetted nip net ctx
            (some policy)
            authority
            (codes "443")
            d
            ips
    sound x h a = elim (Result-cases (parse_destination nip authority (codes "443"))) [
      | inr (e, bad) ↦
          let nothing = explain_unparsed nip net ctx r p authority compiled true e bad in
          cc (h, nothing)
      | inl (d, parsed) ↦
          let same = explain_parsed nip net ctx r p authority compiled true d parsed in
          let (ips, v) =
            explain_destination_sound nip net ctx policy d x
              (subst (λ o. o.decision ≡ some x) same h) a in
          (
            d,
            ips,
            record {
              applied = policy;
              given = refl;
              parsed = parsed;
              allowed = v.destination;
              answer = v.answer_ok;
              not_empty = v.not_empty;
              addresses = v.addresses;
            },
          )
    ]

    complete :
        (d : Destination) (ips : List Addr)
        → IsVetted nip net ctx (some policy) authority (codes "443") d ips
        → explain nip net ctx r authority true ≡ answer (granted d ips)
    complete d ips v =
        let same : v.applied ≡ policy = ground arith in
        explain_parsed nip net ctx r p authority compiled true d v.parsed
        ∙ (explain_destination_complete nip net ctx policy d ips (record {
          destination = subst (λ q. q.check_dest ctx d ≡ ok tt) same v.allowed;
          answer_ok = v.answer;
          not_empty = v.not_empty;
          addresses = subst (λ q. All (λ ip. q.check_addr ctx d ip ≡ ok tt) ips) same v.addresses;
        }))
