-- ===== src/AuthProxy/Requests/Paths.antt =====
-- The paths that the provider of a token may use (brokerProviderAllowed and providerRouteAllowed of
-- internal/authproxy).
use sandbox_codex.AuthProxy.Requests.{
  any_provider, broker_provider_allowed, find_route, provider_route_allowed, route_admits,
  route_name,
}
use sandbox_codex.AuthProxy.State.{CredentialRoute}
use sandbox_codex.Common.{
  Bool, Bool-cases, List, Option, Str, arith, codes, drop_prefix, false, has_prefix, inl, inr, none,
  refl, some, str_eq, str_eq_iff, sym, true, ◌||◌, ◌↔◌, ◌∙◌, ◌≡◌, ◌≢◌, ◌⊎◌,
}

-- The provider may use the route, or the route is open to any.
abbrev pub ServesProvider : Str → CredentialRoute → Type 0
ServesProvider provider route =
    (any_provider provider ≡ true)
    ⊎ ((any_provider route.route_provider ≡ true) ⊎ (route.route_provider ≡ provider))

-- The paths of a provider. Behind /broker/ the path begins with the name of a configured route.
unfoldable pub MayUse : List CredentialRoute → Str → Str → Type 0
MayUse routes provider path =
    ((has_prefix (codes "/broker/") path ≡ true)
      × (route : CredentialRoute) × (find_route (route_name (drop_prefix (codes "/broker/") path))
            routes
          ≡ some route)
      × ServesProvider provider route)
    ⊎ ((has_prefix (codes "/broker/") path ≡ false)
        × ((any_provider provider ≡ true)
            ⊎ (((provider ≡ codes "openai")
                  × ((has_prefix (codes "/v1/") path ≡ true)
                      ⊎ (has_prefix (codes "/chatgpt/") path ≡ true)))
                ⊎ ((provider ≡ codes "anthropic")
                    × (has_prefix (codes "/anthropic/") path ≡ true)))))

route_admits_iff :
    (provider : Str) (o : Option CredentialRoute)
    → (route_admits provider o ≡ true)
      ↔ ((route : CredentialRoute) × (o ≡ some route) × ServesProvider provider route)
route_admits_iff provider none = ((λ e. cc), λ (route, h, _). cc)
route_admits_iff provider (some route) =
    let h = str_eq_iff route.route_provider provider in
    (
      (λ e. (route, refl, grind (arith, h))),
      λ (other, same, serves).
          (let one : route ≡ other = cc in
            let back : ServesProvider provider route = rw (one) serves in grind (arith, h, back)),
    )

or_iff : (a b : Bool) → (a || b ≡ true) ↔ ((a ≡ true) ⊎ (b ≡ true))
or_iff true b = ((λ e. inl refl), (λ h. refl))
or_iff false b = ((λ e. inr e), λ h. elim h [ inl e ↦ cc e | inr e ↦ e ])

openai_apart : codes "openai" ≢ codes "anthropic"
openai_apart e =
    let h : false ≡ true = (str_eq_iff (codes "openai") (codes "anthropic")).1 e in cc h

provider_route_iff :
    (provider path : Str)
    → (provider_route_allowed provider path ≡ true) ↔ (
        (any_provider provider ≡ true)
        ⊎ (((provider ≡ codes "openai")
              × ((has_prefix (codes "/v1/") path ≡ true)
                  ⊎ (has_prefix (codes "/chatgpt/") path ≡ true)))
            ⊎ ((provider ≡ codes "anthropic") × (has_prefix (codes "/anthropic/") path ≡ true))))
unfolding provider_route_allowed
provider_route_iff provider path = elim (Bool-cases (any_provider provider)) [
  | inl any_path ↦ rw any_path ((λ e. inl refl), (λ h. refl))
  | inr named ↦ elim (Bool-cases (str_eq provider (codes "openai"))) [
    | inl openai ↦
        let one = (str_eq_iff provider (codes "openai")).0 openai in
        let either =
          or_iff (has_prefix (codes "/v1/") path) (has_prefix (codes "/chatgpt/") path) in
        rw (named, openai)
          (
            (λ e. inr (inl (one, either.0 e))),
            λ h. elim h [
              | inl k ↦ cc k
              | inr (inl (_, k)) ↦ either.1 k
              | inr (inr (k, _)) ↦ absurd (openai_apart (sym one ∙ k))
            ],
          )
    | inr other ↦ elim (Bool-cases (str_eq provider (codes "anthropic"))) [
      | inl anthropic ↦
          let one = (str_eq_iff provider (codes "anthropic")).0 anthropic in
          rw (named, other, anthropic)
            (
              (λ e. inr (inr (one, e))),
              λ h. elim h [
                | inl k ↦ cc k
                | inr (inl (k, _)) ↦ absurd (openai_apart (sym k ∙ one))
                | inr (inr (_, k)) ↦ k
              ],
            )
      | inr neither ↦
          rw (named, other, neither)
            (
              (λ e. cc e),
              λ h. elim h [
                | inl k ↦ cc k
                | inr (inl (k, _)) ↦ cc (other, (str_eq_iff provider (codes "openai")).1 k)
                | inr (inr (k, _)) ↦ cc (neither, (str_eq_iff provider (codes "anthropic")).1 k)
              ],
            )
    ]
  ]
]

pub broker_provider_allowed-MayUse :
    (routes : List CredentialRoute) (provider path : Str)
    → (broker_provider_allowed routes provider path ≡ true) ↔ MayUse routes provider path
unfolding broker_provider_allowed MayUse
broker_provider_allowed-MayUse routes provider path =
    let routed =
      route_admits_iff provider
        (find_route (route_name (drop_prefix (codes "/broker/") path)) routes) in
    let direct = provider_route_iff provider path in
    elim (Bool-cases (has_prefix (codes "/broker/") path)) [
      | inl broker ↦ rw broker (
        (λ e. (let (route, found, serves) = routed.0 e in inl (refl, route, found, serves))),
        λ h. elim h [
          | inl (_, route, found, serves) ↦ routed.1 (route, found, serves)
          | inr (e, _) ↦ cc e
        ],
      )
      | inr other ↦ rw other (
        (λ e. inr (refl, direct.0 e)),
        λ h. elim h [ inl (e, _, _, _) ↦ cc e | inr (_, allowed) ↦ direct.1 allowed ],
      )
    ]
