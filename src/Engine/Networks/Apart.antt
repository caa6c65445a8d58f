-- ===== src/Engine/Networks/Apart.antt =====
-- The subnet of a new network and the prefixes of the host (createNetwork of
-- internal/engine/network.go).
use sandbox_codex.Common.{
  ==_iff, All, Bool-cases, List, Option, Option-cases, Str, [], ap, arith, false, filter, inl, inr,
  none, ok, some, subst, true, ℕ, ◌++◌, ◌<◌, ◌==◌, ◌∙◌, ◌∷◌, ◌≡◌, ◌≢◌, ◌≤◌, ◌⊎◌,
}
use sandbox_codex.Engine.Networks.{
  CreateOptions, Host, Network, free_slot, is_narrow, overlaps, plan_network, read_prefixes, subnet,
}
use sandbox_codex.Engine.Networks.Slots.{
  IsFree, common-overlaps, free_slot-IsFirst, not_any-All, plan_network-IsPlanned,
}
use sandbox_codex.NetworkPolicy.Netip.{Addr, Prefix, contains}

-- The address is in no prefix that the text stands for; a text that is no prefix stands for none.
abbrev pub Avoids : (Str → Option Prefix) → Addr → Str → Type 0
Avoids parse a s = elim (parse s) [ none ↦ Unit | some p ↦ contains p a ≡ false ]

-- The same for the destination of a route, where a prefix of 0 bits stands for none either.
abbrev pub RouteAvoids : (Str → Option Prefix) → Addr → Str → Type 0
RouteAvoids parse a s = elim (parse s) [
  | none ↦ Unit
  | some p ↦ (p.bits ≡ some 0) ⊎ (contains p a ≡ false)
]

module _ (parse : Str → Option Prefix) (a : Addr) where
  All-read_prefixes :
      (ss : List Str) (ps : List Prefix)
      → All (λ p. contains p a ≡ false) (read_prefixes parse ss ++ ps)
      → All (Avoids parse a) ss × All (λ p. contains p a ≡ false) ps
  unfolding read_prefixes
  All-read_prefixes [] ps h = (tt, h)
  All-read_prefixes (s ∷ ss) ps h = elim (Option-cases (parse s)) [
    | inl e ↦
        let (others, last) = All-read_prefixes ss ps (rw (read_prefixes, e) at h) in
        ((rw (Avoids, e) tt, others), last)
    | inr (p, e) ↦
        let (outside, rest) = rw (read_prefixes, e) at h in
        let (others, last) = All-read_prefixes ss ps rest in
        ((rw (Avoids, e) outside, others), last)
  ]

  wide_bits : (p : Prefix) → is_narrow p ≡ false → p.bits ≡ some 0
  wide_bits p e = elim (Option-cases p.bits) [
    | inl n ↦ cc (rw n at e)
    | inr (b, n) ↦
        (let zero_bits : b ≡ 0 = ground (arith, rw n at e, ==_iff b 0) in n ∙ ap some zero_bits)
  ]

  All-routes :
      (ss : List Str)
      → All (λ p. contains p a ≡ false) (filter is_narrow (read_prefixes parse ss))
      → All (RouteAvoids parse a) ss
  unfolding read_prefixes
  All-routes [] h = tt
  All-routes (s ∷ ss) h = elim (Option-cases (parse s)) [
    | inl e ↦ (rw (RouteAvoids, e) tt, All-routes ss (rw (read_prefixes, e) at h))
    | inr (p, e) ↦ elim (Bool-cases (is_narrow p)) [
      | inl narrow ↦
          let (outside, rest) = rw (read_prefixes, e, narrow) at h in
          (rw (RouteAvoids, e) (inr outside), All-routes ss rest)
      | inr wide ↦ (
        rw (RouteAvoids, e) (inl (wide_bits p wide)),
        All-routes ss (rw (read_prefixes, e, wide) at h),
      )
    ]
  ]

-- A planned network has a slot from 1 to 254 that no other network has. No address of its subnet is
-- in a prefix of the host: those that an address of an interface reads as, and those that the
-- destination of a route reads as, unless they have 0 bits. Each smaller slot is taken or overlaps
-- one of them.
pub plan_network_apart :
    (host : Host) (rows : List Network) (name : Str) (o : CreateOptions) (n : Network)
    → plan_network host rows name o ≡ ok n
    → (is : List Str) × (rs : List Str) × (host.interfaces ≡ ok is)
      × (host.routes ≡ ok rs)
      × (1 ≤ n.slot)
      × (n.slot ≤ 254)
      × All (λ m. m.slot ≢ n.slot) rows
      × ((a : Addr)
          → contains (subnet n.slot) a ≡ true
          → All (Avoids host.parse_prefix a) is × All (RouteAvoids host.parse_prefix a) rs)
      × ((k : ℕ)
          → 1 ≤ k
          → k < n.slot
          → ¬ IsFree rows
              (read_prefixes host.parse_prefix is
                ++ filter is_narrow (read_prefixes host.parse_prefix rs))
              k)
plan_network_apart host rows name o n e =
    let planned = plan_network-IsPlanned host rows name o n e in
    let (is, rs, interfaces, routes, same) = planned.of_host in
    let ps =
      read_prefixes host.parse_prefix is ++ filter is_narrow (read_prefixes host.parse_prefix rs) in
    let first =
      free_slot-IsFirst rows ps 254 1 n.slot
        (subst (λ qs. free_slot rows qs 254 1 ≡ some n.slot) same planned.chosen) in
    let high = first.high in
    (
      is,
      rs,
      interfaces,
      routes,
      first.low,
      omega arith,
      not_any-All (λ m. m.slot ≢ n.slot) (λ m. m.slot == n.slot) rows
          (λ m other taken. cc (other, (==_iff m.slot n.slot).1 taken)) first.free.unused,
      (λ a below_slot.
          let outside =
            not_any-All (λ p. contains p a ≡ false) (λ p. overlaps p (subnet n.slot)) ps
              (λ p apart. elim (Bool-cases (contains p a)) [
                | inr out ↦ out
                | inl inside ↦ cc (common-overlaps p.addr p.bits n.slot a inside below_slot, apart)
              ])
              first.free.apart in
          let (of_interfaces, narrow) =
            All-read_prefixes host.parse_prefix a is
              (filter is_narrow (read_prefixes host.parse_prefix rs)) outside in
          (of_interfaces, All-routes host.parse_prefix a rs narrow)),
      first.least,
    )
