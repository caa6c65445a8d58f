-- ===== src/NetworkPolicy/Check/Combined.antt =====
-- networkpolicy.All (internal/networkpolicy/policy.go) never weakens a policy that it combines.
use sandbox_codex.Common.{
  All, All-mono, List, Option, Result, for_each, for_each_iff, none, ok, refl, some, ◌↔◌, ◌≡◌,
}
use sandbox_codex.NetworkPolicy.{Context, Destination, PolicyError}
use sandbox_codex.NetworkPolicy.Check.{Policy, all_policies, check_each}
use sandbox_codex.NetworkPolicy.Netip.{Addr}

-- A policy of the list that is not nil lets the destination, or the address, through.
abbrev pub PassesDestination : Context → Destination → Option Policy → Type 0
PassesDestination ctx d none = Unit {0}
PassesDestination ctx d (some p) = p.check_dest ctx d ≡ ok tt

abbrev pub PassesAddress : Context → Destination → Addr → Option Policy → Type 0
PassesAddress ctx d ip none = Unit {0}
PassesAddress ctx d ip (some p) = p.check_addr ctx d ip ≡ ok tt

check_each_iff :
    (f : Policy → Result PolicyError (Unit {0})) (P : Option Policy → Type 0)
    → P none
    → ((p : Policy) → (f p ≡ ok tt) ↔ P (some p))
    → (o : Option Policy) → (check_each f o ≡ ok tt) ↔ P o
check_each_iff f P skipped h none = ((λ e. skipped), (λ q. refl))
check_each_iff f P skipped h (some p) = h p

-- The combination lets a destination through exactly when each policy that is not nil does, and an
-- address exactly when each does.
pub all_policies_iff :
    (ps : List (Option Policy)) (ctx : Context) (d : Destination) (ip : Addr)
    → (((all_policies ps).check_dest ctx d ≡ ok tt) ↔ All (PassesDestination ctx d) ps)
      × (((all_policies ps).check_addr ctx d ip ≡ ok tt) ↔ All (PassesAddress ctx d ip) ps)
unfolding all_policies
all_policies_iff ps ctx d ip = (
  both (λ p. p.check_dest ctx d) (PassesDestination ctx d) (λ p. ((λ e. e), (λ e. e))) tt,
  both (λ p. p.check_addr ctx d ip) (PassesAddress ctx d ip) (λ p. ((λ e. e), (λ e. e))) tt,
)
  where
    both :
        (f : Policy → Result PolicyError (Unit {0})) (P : Option Policy → Type 0)
        → ((p : Policy) → (f p ≡ ok tt) ↔ P (some p))
        → P none
        → (for_each (check_each f) ps ≡ ok tt) ↔ All P ps
    both f P h skipped =
        let each = check_each_iff f P skipped h in
        let loop = for_each_iff (check_each f) ps in
        (
          (λ e. All-mono (λ o. check_each f o ≡ ok tt) P (λ o. (each o).0) ps (loop.0 e)),
          (λ a. loop.1 (All-mono P (λ o. check_each f o ≡ ok tt) (λ o. (each o).1) ps a)),
        )
