-- ===== src/NetworkPolicy/Dialer/Safety.antt =====
-- What Dialer.DialContext of internal/networkpolicy/dialer.go connects to.
use sandbox_codex.Common.{
  All, All-mono, List, Option, Result-cases, Str, [], ap, arith, err, false, for_each_iff, inl, inr,
  map, none, ok, refl, some, subst, sym, true, ℕ, ◌++◌, ◌↔◌, ◌∙◌, ◌∷◌, ◌≡◌, ◌≢◌, ◌⊎◌,
}
use sandbox_codex.Engine.Networks.{leading}
use sandbox_codex.NetworkPolicy.{Context, Destination, PolicyError, live, no_addresses}
use sandbox_codex.NetworkPolicy.Authority.{parse_destination}
use sandbox_codex.NetworkPolicy.Check.{Policy, check_address, compiled_policy, is_private}
use sandbox_codex.NetworkPolicy.Check.Grants.{IsRefused, check_address_iff}
use sandbox_codex.NetworkPolicy.Compile.{Compiled, Rules, compile}
use sandbox_codex.NetworkPolicy.Compile.Parts.{compile-IsCompiled}
use sandbox_codex.NetworkPolicy.Dialer.{
  Dialed, Network, checked_addresses, connect_loop, dial_context, resolve,
}
use sandbox_codex.NetworkPolicy.Netip.{Addr, Netip, contains, unmap}

-- The attempts are the first of the answer's addresses, unmapped, in its order.
abbrev pub IsLeading : List Addr → List Addr → Type 0
IsLeading attempts ips = (rest : List Addr) × (map unmap ips ≡ attempts ++ rest)

All-leading :
    (P : Addr → Type 0) (attempts rest : List Addr) → All P (attempts ++ rest) → All P attempts
All-leading P [] rest a = tt
All-leading P (x ∷ xs) rest (p, a) = (p, All-leading P xs rest a)

All-map :
    (P : Addr → Type 0) (ips : List Addr) → All (λ ip. P (unmap ip)) ips → All P (map unmap ips)
All-map P [] a = tt
All-map P (x ∷ xs) (p, a) = (p, All-map P xs a)

-- A connection to the address fails.
abbrev pub Fails : Network → ℕ → Addr → Type 0
Fails net port ip = (f : PolicyError) × (net.connect ip port ≡ err f)

-- The loop ended with the connection to the last address that it tried, after those before it had
-- failed; or it tried them all, and each failed.
abbrev pub Finishes : Network → ℕ → List Addr → Dialed → Type 0
Finishes net port ips dialed =
    ((conn : ℕ) × (failed : List Addr) × (last : Addr) × (dialed.result ≡ ok conn)
      × (dialed.attempts ≡ failed ++ last ∷ [])
      × (net.connect last port ≡ ok conn)
      × All (Fails net port) failed)
    ⊎ ((e : PolicyError) × (dialed.result ≡ err e)
        × (dialed.attempts ≡ map unmap ips)
        × All (Fails net port) (map unmap ips))

module _ (net : Network) (port : ℕ) where
  connect_loop-IsLeading :
      (nip : Netip) (last : PolicyError) (ips : List Addr)
      → IsLeading (connect_loop nip net port last ips).attempts ips
  unfolding connect_loop
  connect_loop-IsLeading nip last [] = ([], refl)
  connect_loop-IsLeading nip last (ip ∷ ips) = elim (Result-cases (net.connect (unmap ip) port)) [
    | inl (conn, e) ↦ rw (e, connect_loop) (map unmap ips, refl)
    | inr (f, e) ↦
        let (rest, h) = connect_loop-IsLeading nip f ips in
        rw (e, connect_loop) (rest, ap (λ l. unmap ip ∷ l) h)
  ]

  connect_loop-Finishes :
      (nip : Netip) (last : PolicyError) (ips : List Addr)
      → Finishes net port ips (connect_loop nip net port last ips)
  unfolding connect_loop
  connect_loop-Finishes nip last [] = inr (last, refl, refl, tt)
  connect_loop-Finishes nip last (ip ∷ ips) = elim (Result-cases (net.connect (unmap ip) port)) [
    | inl (conn, e) ↦ inl (conn, [], unmap ip, rw (e, connect_loop), rw (e, connect_loop), e, tt)
    | inr (f, e) ↦ elim (connect_loop-Finishes nip f ips) [
      | inl (conn, failed, reached, r, tried, connected, a) ↦ inl (
        conn,
        unmap ip ∷ failed,
        reached,
        rw (e, connect_loop) r,
        rw (e, connect_loop) (ap (λ l. unmap ip ∷ l) tried),
        connected,
        ((f, e), a),
      )
      | inr (g, r, all_tried, a) ↦ inr (
        g,
        rw (e, connect_loop) r,
        rw (e, connect_loop) (ap (λ l. unmap ip ∷ l) all_tried),
        ((f, e), a),
      )
    ]
  ]

-- What has been established before the first connection.
pub record IsVetted (nip : Netip) (net : Network) (ctx : Context) (policy : Option Policy)
    (authority default_port : Str) (d : Destination) (ips : List Addr) : Type 0 where
  pub applied : Policy
  pub given : policy ≡ some applied
  pub parsed : parse_destination nip authority default_port ≡ ok d
  pub allowed : applied.check_dest ctx d ≡ ok tt
  pub answer : resolve nip net d ≡ ok ips
  pub not_empty : ips ≢ []
  pub addresses : All (λ ip. applied.check_addr ctx d ip ≡ ok tt) ips

pub checked_addresses-IsVetted :
    (nip : Netip) (net : Network) (ctx : Context) (policy : Option Policy)
    (authority default_port : Str) {d : Destination} {ips : List Addr}
    → checked_addresses nip net ctx policy authority default_port ≡ ok (d, ips)
    → IsVetted nip net ctx policy authority default_port d ips
unfolding checked_addresses
checked_addresses-IsVetted nip net ctx none authority default_port e = ground arith
checked_addresses-IsVetted nip net ctx (some p) authority default_port {d} {ips} e = record {
  applied = p;
  given = refl;
  parsed = ground arith;
  allowed = ground arith;
  answer = ground arith;
  not_empty = ground arith;
  addresses = (for_each_iff (p.check_addr ctx d) ips).0 (ground arith);
}

IsVetted-checked_addresses :
    (nip : Netip) (net : Network) (ctx : Context) (policy : Option Policy)
    (authority default_port : Str) {d : Destination} {ips : List Addr}
    → IsVetted nip net ctx policy authority default_port d ips
    → checked_addresses nip net ctx policy authority default_port ≡ ok (d, ips)
unfolding checked_addresses
IsVetted-checked_addresses nip net ctx policy authority default_port {d} {ips = []} v =
    absurd (v.not_empty refl)
IsVetted-checked_addresses nip net ctx policy authority default_port {d} {ips = ip ∷ ips} v =
    let each = (for_each_iff (v.applied.check_addr ctx d) (ip ∷ ips)).1 v.addresses in
    rw (v.given, v.parsed, v.allowed, v.answer, each)

-- The addresses are accepted exactly when the authority parses, a policy is given that lets the
-- destination through, and the answer has addresses that it lets through one and all.
pub checked_addresses_iff :
    (nip : Netip) (net : Network) (ctx : Context) (policy : Option Policy)
    (authority default_port : Str) (d : Destination) (ips : List Addr)
    → (checked_addresses nip net ctx policy authority default_port ≡ ok (d, ips))
      ↔ IsVetted nip net ctx policy authority default_port d ips
checked_addresses_iff nip net ctx policy authority default_port d ips = (
  checked_addresses-IsVetted nip net ctx policy authority default_port,
  IsVetted-checked_addresses nip net ctx policy authority default_port,
)

-- A dial that connects to anything does so after the whole answer was let through: its attempts
-- are the first addresses of the answer, in its order; either the last attempt succeeds, with its
-- connection as the result, after all those before it failed, or every address of the answer was
-- tried and failed, and the result is an error. Otherwise it connects to nothing and returns an
-- error.
pub dial_context-IsVetted :
    (nip : Netip) (net : Network) (ctx : Context) (policy : Option Policy) (authority : Str)
    → let dialed = dial_context nip net ctx policy authority in
      ((d : Destination) × (ips : List Addr) × IsVetted nip net ctx policy authority [] d ips
        × IsLeading dialed.attempts ips
        × Finishes net d.port ips dialed)
      ⊎ ((e : PolicyError) × (dialed.attempts ≡ []) × (dialed.result ≡ err e))
unfolding dial_context
dial_context-IsVetted nip net ctx policy authority =
    elim (Result-cases (checked_addresses nip net ctx policy authority [])) [
      | inr (e, failed) ↦ inr (e, rw (failed, dial_context), rw (failed, dial_context))
      | inl ((d, ips), passed) ↦ inl (
        d,
        ips,
        checked_addresses-IsVetted nip net ctx policy authority [] passed,
        rw (passed, dial_context) (connect_loop-IsLeading net d.port nip no_addresses ips),
        rw (passed, dial_context) (connect_loop-Finishes net d.port nip no_addresses ips),
      )
    ]

-- Under a compiled policy that blocks private addresses, a dial never connects to one, whatever
-- the resolver answers; nor to an address of a denied range.
pub dial_context_public :
    (nip : Netip) (net : Network) (r : Rules) (p : Compiled) (authority : Str)
    → compile nip r ≡ ok p
    → r.block_private ≡ true
    → All
        (λ ip. (is_private ip ≡ false) × IsRefused (λ q. contains q ip ≡ true) p.deny_cidrs)
        (dial_context nip net live (some (compiled_policy nip p)) authority).attempts
unfolding compiled_policy
dial_context_public nip net r p authority compiled block =
    elim (dial_context-IsVetted nip net live (some (compiled_policy nip p)) authority) [
      | inr (e, nothing, failed) ↦ rw nothing tt
      | inl (d, ips, v, (rest, leading), finishes) ↦
          let same : compiled_policy nip p ≡ v.applied = ground arith in
          let passed =
            subst (λ q. All (λ ip. q.check_addr live d ip ≡ ok tt) ips) (sym same) v.addresses in
          let blocks : p.block_private ≡ true =
            (compile-IsCompiled nip r compiled).block_private ∙ block in
          All-leading IsSafe _ rest (
            rw (← leading) (
              All-map IsSafe ips (All-mono (Passes d) IsSafeUnmapped (grants d blocks) ips passed)))
    ]
  where
    IsSafe : Addr → Type 0
    IsSafe ip = (is_private ip ≡ false) × IsRefused (λ q. contains q ip ≡ true) p.deny_cidrs

    IsSafeUnmapped : Addr → Type 0
    IsSafeUnmapped ip =
        (is_private (unmap ip) ≡ false) × IsRefused (λ q. contains q (unmap ip) ≡ true) p.deny_cidrs

    Passes : Destination → Addr → Type 0
    Passes d ip = check_address p live d ip ≡ ok tt

    grants :
        (d : Destination) → p.block_private ≡ true → (ip : Addr) → Passes d ip → IsSafeUnmapped ip
    grants d b ip h = let g = (check_address_iff p d ip).0 h in (ground arith, g.not_denied)
