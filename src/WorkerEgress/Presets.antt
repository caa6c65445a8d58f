-- ===== src/WorkerEgress/Presets.antt =====
-- ResolvePreset of internal/workeregress/presets.go.
use sandbox_codex.Common.{
  >>=-eq-ok, Bool, Bool-cases, List, Str, [], ap, ensure, inl, inr, not, ok, str_eq, subst, sym,
  ◌∙◌, ◌∷◌, ◌≡◌, ◌⊎◌,
}
use sandbox_codex.NetworkPolicy.{live}
use sandbox_codex.NetworkPolicy.Check.{check_address, check_destination, is_nil}
use sandbox_codex.NetworkPolicy.Compile.{Compiled, Rules, compile}
use sandbox_codex.NetworkPolicy.Explain.Agreement.{granted}
use sandbox_codex.NetworkPolicy.Netip.{Netip}
use sandbox_codex.WorkerEgress.{
  Preset, api_domains, apply_preset, compiles, find_preset, offline_domains, online_rules,
  preset_domains, presets, resolve_preset, without_preset, worker_rules,
}
use sandbox_codex.WorkerEgress.Entries.{IsUnmarked}
use sandbox_codex.WorkerEgress.Narrows.{PassesLess, worker_rules_narrows}

-- Where the rules of ResolvePreset come from.
abbrev IsResolved : Netip → Rules → Rules → Type 0
IsResolved nip host r = (r ≡ host) ⊎ ((domains : List Str) × (worker_rules nip host domains ≡ ok r))

module _ (nip : Netip) (host r : Rules) where
  made_rules :
      (domains : List Str) {offline : Bool}
      → online_rules nip host domains ≡ ok (r, offline)
      → IsResolved nip host r
  made_rules domains e =
      let (made, found, rest) = >>=-eq-ok (worker_rules nip host domains) _ e in
      inr (domains, found ∙ ap ok (let same : made ≡ r = cc rest in same))

  apply_preset-IsResolved :
      (p : Preset) (domains : List Str) {offline : Bool}
      → apply_preset nip host p domains ≡ ok (r, offline)
      → IsResolved nip host r
  apply_preset-IsResolved p domains e = elim (Bool-cases p.offline) [
    | inl off ↦
        let (_, _, rest) = >>=-eq-ok (ensure (is_nil domains) offline_domains) _ (rw off at e) in
        inl (cc rest)
    | inr granting ↦
        let (_, _, rest) =
          >>=-eq-ok (ensure (not (is_nil (preset_domains nip host p domains))) api_domains) _
            (rw granting at e) in
        made_rules (preset_domains nip host p domains) rest
  ]

  without_preset-IsResolved :
      (domains : List Str) {offline : Bool}
      → without_preset nip host domains ≡ ok (r, offline)
      → IsResolved nip host r
  without_preset-IsResolved [] e =
      let (_, _, rest) = >>=-eq-ok (compiles nip host) _ e in inl (cc rest)
  without_preset-IsResolved (d ∷ domains) e = made_rules (d ∷ domains) e

  find_preset-IsResolved :
      (name : Str) (domains : List Str) (ps : List Preset) {offline : Bool}
      → find_preset nip host name domains ps ≡ ok (r, offline)
      → IsResolved nip host r
  unfolding find_preset
  find_preset-IsResolved name domains [] e = cc
  find_preset-IsResolved name domains (p ∷ ps) e = elim (Bool-cases (str_eq p.name name)) [
    | inl named ↦ apply_preset-IsResolved p domains (rw named at e)
    | inr other ↦ find_preset-IsResolved name domains ps (rw other at e)
  ]

  resolve_preset-IsResolved :
      (name : Str) (domains : List Str) {offline : Bool}
      → resolve_preset nip host name domains ≡ ok (r, offline)
      → IsResolved nip host r
  unfolding resolve_preset
  resolve_preset-IsResolved [] domains e = without_preset-IsResolved domains e
  resolve_preset-IsResolved (c ∷ name) domains e =
      find_preset-IsResolved (c ∷ name) domains presets e

-- Where no address prints with a leading "=": whatever rules ResolvePreset returns for a preset,
-- its domains and the rules of the host, their policy passes no destination and no address, in a
-- context that is live, that the policy of the host does not pass.
pub resolve_preset_narrows :
    (nip : Netip) (host : Rules) (name : Str) (domains : List Str) {r : Rules} {offline : Bool}
    {hp p : Compiled}
    → IsUnmarked nip
    → resolve_preset nip host name domains ≡ ok (r, offline)
    → compile nip host ≡ ok hp
    → compile nip r ≡ ok p
    → PassesLess nip p hp
resolve_preset_narrows nip host name domains {r} {offline} {hp} {p} law resolved above below =
    elim (resolve_preset-IsResolved nip host r name domains resolved) [
      | inr (granted, made) ↦ worker_rules_narrows nip host granted law made above below
      | inl same ↦
          let equal : hp ≡ p = cc (above, subst (λ k. compile nip k ≡ ok p) same below) in
          λ d. (
            (λ e. subst (λ q. check_destination nip q live d ≡ ok tt) (sym equal) e),
            (λ ip e. subst (λ q. check_address q live d ip ≡ ok tt) (sym equal) e),
          )
    ]
