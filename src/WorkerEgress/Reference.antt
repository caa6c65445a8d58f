-- ===== src/WorkerEgress/Reference.antt =====
-- proxyReference of internal/workeregress/inspect.go: the proxy behind the pinned address of a
-- worker's egress URL.
use sandbox_codex.Common.{
  >>=-eq-ok, All, Any, Bool, Bool-cases, List, Option, Option-cases, Result, Str, [], any, ap, cut,
  ensure, err, false, if◌then◌else◌, inl, inr, is_empty, none, not, ok, refl, some, str_eq,
  str_eq_iff, sym, ℕ, ◌&&◌, ◌==◌, ◌>>=◌, ◌>>◌, ◌||◌, ◌∙◌, ◌∷◌, ◌≡◌, ◌≢◌, ◌⊎◌,
}
use sandbox_codex.NetworkPolicy.Netip.{Addr, Netip, addr_eq, unmap}
use sandbox_codex.WorkerEgress.{
  EgressError, ambiguous_proxy, bad_identities, unmapped_proxy, unpinned_worker,
}

abbrev is_bracket : ℕ → Bool
is_bracket c = c == b'[' || c == b']'

abbrev drop_brackets : Str → Str
drop_brackets [] = []
drop_brackets (c ∷ s) = if is_bracket c then drop_brackets s else c ∷ s

abbrev drop_last_brackets : Str → Str
drop_last_brackets [] = []
drop_last_brackets (c ∷ s) =
    let rest = drop_last_brackets s in if is_empty rest && is_bracket c then [] else c ∷ rest

-- strings.Trim(address, "[]")
unfoldable pub trim_brackets : Str → Str
trim_brackets s = drop_last_brackets (drop_brackets s)

-- What proxyReference reads of a worker: its settings are there, the names of its proxies as they
-- decode from the label, and its host mapping.
pub record PinnedWorker : Type 0 where
  pub configured : Bool
  pub proxy_hosts : Option (List Str)
  pub extra_hosts : List Str

-- The body of the loop at an entry: the name found after it.
abbrev pub next_name : Str → Option Str → Result EgressError Str
next_name found none = ok found
next_name found (some name) =
    if not (is_empty found) && not (str_eq found name) then err ambiguous_proxy else ok name

module _ (nip : Netip) (names : List Str) (ip : Addr) where
  -- The candidate address of an entry is the one looked for, once neither is mapped.
  abbrev pub is_candidate : Option Addr → Bool
  is_candidate none = false
  is_candidate (some a) = addr_eq (unmap a) (unmap ip)

  -- The name of an entry that the loop does not skip.
  abbrev pub pinned_name : Str → Option Str
  pinned_name entry = elim (cut b':' entry) [
    | none ↦ none
    | some (name, address) ↦
        if any (str_eq name) names && is_candidate (nip.parse_addr (trim_brackets address))
        then some name
        else none
  ]

  -- The loop over the entries, and what follows it.
  unfoldable pub choose_name : Str → List Str → Result EgressError Str
  choose_name found [] = if is_empty found then err unmapped_proxy else ok found
  choose_name found (entry ∷ entries) = do
    chosen ← next_name found (pinned_name entry)
    choose_name chosen entries

module _ (nip : Netip) (w : PinnedWorker) where
  abbrev pub named_reference : Addr → Option (List Str) → Result EgressError Str
  named_reference ip none = err bad_identities
  named_reference ip (some names) = choose_name nip names ip [] w.extra_hosts

  -- An address must be one that the worker's host mapping pins; a name stands for itself.
  abbrev pub refer : Str → Option Addr → Result EgressError Str
  refer host none = ok host
  refer host (some ip) = do ensure w.configured unpinned_worker; named_reference ip w.proxy_hosts

  -- proxyReference
  unfoldable pub proxy_reference : Str → Result EgressError Str
  proxy_reference host = refer host (nip.parse_addr host)

-- What is found stays, unless it was empty.
next_name_cases :
    (found chosen : Str) (pinned : Option Str)
    → next_name found pinned ≡ ok chosen
    → ((found ≡ []) ⊎ (found ≡ chosen))
      × ((chosen ≡ found) ⊎ (pinned ≡ some chosen))
      × ((other : Str) → pinned ≡ some other → other ≡ chosen)
next_name_cases found chosen none e = (inr (cc e), inl (cc e), (λ other p. cc p))
next_name_cases [] chosen (some name) e = (inl refl, inr (cc e), (λ other p. cc (e, p)))
next_name_cases (c ∷ found) chosen (some name) e = elim (Bool-cases (str_eq (c ∷ found) name)) [
  | inr other_name ↦ cc (rw other_name at e)
  | inl same ↦
      let equal = (str_eq_iff (c ∷ found) name).0 same in
      let kept : name ≡ chosen = cc (rw same at e) in
      (inr (equal ∙ kept), inr (ap some kept), (λ other p. cc (kept, p)))
]

module _ (nip : Netip) (names : List Str) (ip : Addr) where
  -- An entry that pins the address under a name.
  abbrev pub Pins : Str → Str → Type 0
  Pins name entry = pinned_name nip names ip entry ≡ some name

  -- The chosen name is that of an entry, or was found before; no other entry has another name.
  choose_name_unique :
      (entries : List Str) (found name : Str)
      → choose_name nip names ip found entries ≡ ok name
      → (name ≢ [])
        × ((name ≡ found) ⊎ Any (Pins name) entries)
        × ((found ≡ []) ⊎ (found ≡ name))
        × All (λ e. (other : Str) → Pins other e → other ≢ [] → other ≡ name) entries
  unfolding choose_name
  choose_name_unique [] [] name e = cc e
  choose_name_unique [] (c ∷ found) name e =
      ((λ none_left. cc (e, none_left)), inl (cc e), inr (cc e), tt)
  choose_name_unique (entry ∷ entries) found name e =
      let (chosen, step, rest) = >>=-eq-ok (next_name found (pinned_name nip names ip entry)) _ e in
      let (kept, origin, sole) =
        next_name_cases found chosen (pinned_name nip names ip entry) step in
      let (some_name, from_entry, chosen_kept, unique) =
        choose_name_unique entries chosen name rest in
      (
        some_name,
        elim from_entry [
          | inr later ↦ inr (inr later)
          | inl same ↦ elim origin [
            | inl before ↦ inl (same ∙ before)
            | inr pins ↦ inr (inl (pins ∙ ap some (sym same)))
          ]
        ],
        elim kept [
          | inl nothing ↦ inl nothing
          | inr carried ↦ elim chosen_kept [
            | inl empty ↦ inl (carried ∙ empty)
            | inr same ↦ inr (carried ∙ same)
          ]
        ],
        (
          λ other pins nonempty. elim chosen_kept [
            | inl empty ↦ absurd (nonempty (sole other pins ∙ empty))
            | inr same ↦ sole other pins ∙ same
          ],
          unique,
        ),
      )

-- When proxyReference names the proxy behind an address: the name is not empty, an entry of the
-- worker's host mapping pins the address under that name among the worker's proxies, and no entry
-- pins it under another name that is not empty.
pub proxy_reference_unique :
    (nip : Netip) (w : PinnedWorker) (host name : Str) {ip : Addr}
    → nip.parse_addr host ≡ some ip
    → proxy_reference nip w host ≡ ok name
    → (names : List Str) × (w.proxy_hosts ≡ some names)
      × (name ≢ [])
      × Any (Pins nip names ip name) w.extra_hosts
      × All
          (λ e. (other : Str) → Pins nip names ip other e → other ≢ [] → other ≡ name)
          w.extra_hosts
unfolding proxy_reference
proxy_reference_unique nip w host name {ip} parsed e =
    let (_, _, referred) =
      >>=-eq-ok (ensure w.configured unpinned_worker) _ (ap (refer nip w host) (sym parsed) ∙ e) in
    elim (Option-cases w.proxy_hosts) [
      | inl no_names ↦ cc (ap (named_reference nip w ip) (sym no_names) ∙ referred)
      | inr (names, decoded) ↦
          let (some_name, origin, _, unique) =
            choose_name_unique nip names ip w.extra_hosts [] name
              (ap (named_reference nip w ip) (sym decoded) ∙ referred) in
          (
            names,
            decoded,
            some_name,
            elim origin [ inl empty ↦ absurd (some_name empty) | inr pinned ↦ pinned ],
            unique,
          )
    ]
