-- ===== src/NetworkPolicy/Dialer.antt =====
-- Dialer.DialContext of internal/networkpolicy/dialer.go.
pub mod Safety
use sandbox_codex.Common.{
  List, Option, Result, Str, [], err, for_each, none, ok, some, ℕ, ◌>>=◌, ◌>>◌, ◌∷◌,
}
use sandbox_codex.NetworkPolicy.{Context, Destination, PolicyError, no_addresses, policy_required}
use sandbox_codex.NetworkPolicy.Authority.{parse_destination}
use sandbox_codex.NetworkPolicy.Check.{Policy}
use sandbox_codex.NetworkPolicy.Netip.{Addr, Netip, unmap}

-- The outside world of a dial: the resolver's answer for a name, and whether a connection to an
-- address succeeds.
pub record Network : Type 0 where
  pub lookup_ip : Str → Result PolicyError (List Addr)
  pub connect : Addr → ℕ → Result PolicyError ℕ

-- What a dial did: the addresses that it connected to, in order, and its result.
pub record Dialed : Type 0 where
  pub attempts : List Addr
  pub result : Result PolicyError ℕ

module _ (nip : Netip) (net : Network) where
  -- An address literal is not looked up.
  abbrev pub resolve : Destination → Result PolicyError (List Addr)
  resolve d = elim (nip.parse_addr d.host) [ some ip ↦ ok (ip ∷ []) | none ↦ net.lookup_ip d.host ]

  abbrev pub some_address : List Addr → Result PolicyError (Unit {0})
  some_address [] = err no_addresses
  some_address (_ ∷ _) = ok tt

  -- The loop that connects, with `lastErr`.
  unfoldable pub connect_loop : ℕ → PolicyError → List Addr → Dialed
  connect_loop port last [] = record { attempts = []; result = err last }
  connect_loop port last (ip ∷ ips) = elim (net.connect (unmap ip) port) [
    | ok conn ↦ record { attempts = unmap ip ∷ []; result = ok conn }
    | err e ↦
        let rest = connect_loop port e ips in
        record { attempts = unmap ip ∷ rest.attempts; result = rest.result }
  ]

  abbrev pub require : Option Policy → Result PolicyError Policy
  require none = err policy_required
  require (some p) = ok p

  -- The addresses that may be connected to: the whole answer, once each of them has passed.
  unfoldable pub checked_addresses :
      Context → Option Policy → Str → Str → Result PolicyError (Destination × List Addr)
  checked_addresses ctx policy authority default_port = do
    d ← parse_destination nip authority default_port
    p ← require policy
    p.check_dest ctx d
    ips ← resolve d
    some_address ips
    for_each (p.check_addr ctx d) ips
    ok (d, ips)

  -- The last error of a loop without a round is not reached: the answer is not empty.
  unfoldable pub dial_context : Context → Option Policy → Str → Dialed
  unfolding connect_loop checked_addresses
  dial_context ctx policy authority = elim (checked_addresses ctx policy authority []) [
    | err e ↦ record { attempts = []; result = err e }
    | ok (d, ips) ↦ connect_loop d.port no_addresses ips
  ]
