-- ===== src/NetworkPolicy/Explain/Allowed.antt =====
-- What an answer of Explain means for a dial (internal/networkpolicy/explain.go, dialer.go).
use sandbox_codex.Common.{List, Str, codes, ok, some, true, ◌≡◌}
use sandbox_codex.NetworkPolicy.{Context, Destination}
use sandbox_codex.NetworkPolicy.Check.{compiled_policy}
use sandbox_codex.NetworkPolicy.Compile.{Compiled, Rules, compile}
use sandbox_codex.NetworkPolicy.Dialer.{Network}
use sandbox_codex.NetworkPolicy.Dialer.Safety.{IsVetted}
use sandbox_codex.NetworkPolicy.Explain.{Decision, answer, explain}
use sandbox_codex.NetworkPolicy.Explain.Agreement.{explain_agrees, granted}
use sandbox_codex.NetworkPolicy.Netip.{Addr, Netip}

-- A destination that Explain with name lookup allows is one a dial would accept: there are a
-- destination and addresses of which everything has been established that a dial under the
-- compiled policy, with the default port 443, establishes before it connects.
pub explain_allows-IsVetted :
    (nip : Netip) (net : Network) (ctx : Context) (r : Rules) (p : Compiled) (authority : Str)
    (x : Decision)
    → compile nip r ≡ ok p
    → (explain nip net ctx r authority true).decision ≡ some x
    → x.is_allowed ≡ true
    → (d : Destination) × (ips : List Addr) × IsVetted nip net ctx
        (some (compiled_policy nip p))
        authority
        (codes "443")
        d
        ips
explain_allows-IsVetted nip net ctx r p authority x compiled decided good =
    (explain_agrees nip net ctx r p authority compiled).0 x decided good

-- Where a dial under the compiled policy, with the default port 443, would accept the addresses of
-- an authority, Explain with name lookup allows the destination, and reports that it has checked
-- all of the addresses.
pub explain_allows_all :
    (nip : Netip) (net : Network) (ctx : Context) (r : Rules) (p : Compiled) (authority : Str)
    (d : Destination) (ips : List Addr)
    → compile nip r ≡ ok p
    → IsVetted nip net ctx (some (compiled_policy nip p)) authority (codes "443") d ips
    → explain nip net ctx r authority true ≡ answer (granted d ips)
explain_allows_all nip net ctx r p authority d ips compiled vetted =
    (explain_agrees nip net ctx r p authority compiled).1 d ips vetted
