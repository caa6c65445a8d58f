-- ===== src/AuthProxy/Models/OneModel.antt =====
-- The one model of a request that authorizeModel lets through (internal/authproxy/models.go).
use sandbox_codex.AuthProxy.Identity.{ModelPolicy}
use sandbox_codex.AuthProxy.Models.{
  Member, MemberValue, ModelBody, ModelDenial, ModelRequest, authorize_model, bad_key, body_limit,
  body_of, broken, check_body, decide_model, in_policy, invalid_body, is_ambiguous, is_json,
  member_model, member_of, model_allowed, model_body_limit, model_not_allowed, model_policy_active,
  no_body, not_text, null_value, read_model, route_denied, route_passes, scan_members, skip_value,
  text_value, unread, websocket_unsupported,
}
use sandbox_codex.AuthProxy.Models.Posting.{IsModelPost, route_passes-IsModelPost}
use sandbox_codex.AuthProxy.Requests.{equal_fold}
use sandbox_codex.AuthProxy.State.{Proxy}
use sandbox_codex.Common.{
  &&-eq-true, >>=-eq-ok, All, Bool, Bool-cases, List, Option, Option-cases, Str, [], ap, arith,
  codes, ensure, false, inl, inr, is_empty, leb, leb→le, none, not, ok, refl, some, str_eq,
  str_eq_iff, true, ℕ, ◌&&◌, ◌++◌, ◌∙◌, ◌∷◌, ◌≡◌, ◌≢◌, ◌≤◌, ◌⊎◌,
}
use sandbox_codex.NetworkPolicy.Check.{is_nil}
use sandbox_codex.NetworkPolicy.Domains.{member}

-- No parser, exact or blind to case, takes the member for the model.
abbrev pub IsOther : Member → Type 0
IsOther bad_key = true ≡ false
IsOther (member_of name v) = equal_fold name (codes "model") ≡ false

-- The members name one model.
pub record NamesModel (model : Str) (ms : List Member) : Type 0 where
  pub before : List Member
  pub rest : List Member
  pub split : ms ≡ before ++ member_of (codes "model") (text_value model) ∷ rest
  pub others_before : All IsOther before
  pub others_after : All IsOther rest

fold_model : equal_fold (codes "model") (codes "model") ≡ true
fold_model = refl

skip_keeps :
    (model : Str) (v : MemberValue) (next : Str) → skip_value model v ≡ some next → next ≡ model
skip_keeps model broken next e = cc
skip_keeps model not_text next e = cc
skip_keeps model null_value next e = cc
skip_keeps model (text_value m) next e = cc

-- A name that is not ambiguous and is not "model" does not fold to it either.
other_name :
    (seen : List Str) (name : Str)
    → is_ambiguous seen name ≡ false
    → str_eq name (codes "model") ≡ false
    → equal_fold name (codes "model") ≡ false
other_name seen name clear other = ground (arith, clear, other)

-- What one round of the loop that goes on has found.
scan_step :
    (seen : List Str) (model name : Str) (v : MemberValue) (ms : List Member) {out : Str}
    → scan_members seen model (member_of name v ∷ ms) ≡ some out
    → (is_ambiguous seen name ≡ false)
      × (next : Str) × (member_model name model v ≡ some next)
      × (scan_members (name ∷ seen) next ms ≡ some out)
unfolding scan_members
scan_step seen model name v ms e = elim (Bool-cases (is_ambiguous seen name)) [
  | inl again ↦ cc (rw again at e)
  | inr clear ↦ elim (Option-cases (member_model name model v)) [
    | inl bad ↦ cc (rw (clear, bad) at e)
    | inr (next, found) ↦ (clear, next, found, rw (clear, found) at e)
  ]
]

-- Once "model" was read, the other members are others, and the model stays.
scan_after :
    (seen : List Str) (model : Str) (ms : List Member) (out : Str)
    → member (codes "model") seen ≡ true
    → scan_members seen model ms ≡ some out
    → (All IsOther ms) × (out ≡ model)
unfolding scan_members
scan_after seen model [] out had e = (tt, cc)
scan_after seen model (bad_key ∷ ms) out had e = cc
scan_after seen model (member_of name v ∷ ms) out had e =
    let (clear, next, found, rest) = scan_step seen model name v ms e in
    elim (Bool-cases (str_eq name (codes "model"))) [
      | inl same ↦
          let one = (str_eq_iff name (codes "model")).0 same in
          let again : member name seen ≡ true = rw one had in absurd (ground (arith, clear, again))
      | inr other ↦
          let kept : next ≡ model = skip_keeps model v next (rw other at found) in
          let (others, same) = scan_after (name ∷ seen) next ms out (ground (arith, had)) rest in
          ((other_name seen name clear other, others), same ∙ kept)
    ]

read_model_text :
    (v : MemberValue) (next : Str) → read_model [] v ≡ some next → next ≢ [] → v ≡ text_value next
read_model_text broken next e filled = cc
read_model_text not_text next e filled = cc
read_model_text null_value next e filled = absurd (filled (cc e))
read_model_text (text_value m) next e filled = ap text_value (cc e)

scan_from :
    (seen : List Str) (ms : List Member) (out : Str)
    → scan_members seen [] ms ≡ some out
    → out ≢ []
    → NamesModel out ms
unfolding scan_members
scan_from seen [] out e filled = absurd (filled (cc e))
scan_from seen (bad_key ∷ ms) out e filled = cc
scan_from seen (member_of name v ∷ ms) out e filled =
    let (clear, next, found, rest) = scan_step seen [] name v ms e in
    elim (Bool-cases (str_eq name (codes "model"))) [
      | inl same ↦
          let one = (str_eq_iff name (codes "model")).0 same in
          let had : member (codes "model") (name ∷ seen) ≡ true = rw (one) (ground arith) in
          let (others, kept) = scan_after (name ∷ seen) next ms out had rest in
          let value : v ≡ text_value out =
            rw kept (read_model_text v next (rw same at found) (rw (← kept) filled)) in
          record {
            before = [];
            rest = ms;
            split = rw (one, value);
            others_before = tt;
            others_after = others;
          }
      | inr other ↦
          let kept : next ≡ [] = skip_keeps [] v next (rw other at found) in
          let h = scan_from (name ∷ seen) ms out (rw kept at rest) filled in
          record {
            before = member_of name v ∷ h.before;
            rest = h.rest;
            split = ap (λ tail. member_of name v ∷ tail) h.split;
            others_before = (other_name seen name clear other, h.others_before);
            others_after = h.others_after;
          }
    ]

-- A model that the proxy and the policy of the token both admit.
pub record IsAdmitted (p : Proxy) (policy : ModelPolicy) (model : Str) : Type 0 where
  pub named : is_empty model ≡ false
  pub by_proxy : (p.allowed_models ≡ []) ⊎ (member model p.allowed_models ≡ true)
  pub by_policy : in_policy model policy ≡ true

is_nil-[] : (xs : List Str) → is_nil xs ≡ true → xs ≡ []
is_nil-[] [] e = refl
is_nil-[] (x ∷ xs) e = cc

model_allowed-IsAdmitted :
    (p : Proxy) (policy : ModelPolicy) (model : Str)
    → model_allowed p policy model ≡ true
    → IsAdmitted p policy model
model_allowed-IsAdmitted p policy model e = record {
  named = ground (arith, e);
  by_proxy = elim (Bool-cases (is_nil p.allowed_models)) [
    | inl all_models ↦ inl (is_nil-[] p.allowed_models all_models)
    | inr listed ↦ inr (ground (arith, e, listed))
  ];
  by_policy = ground (arith, e);
}

ensure-ok : (b : Bool) (x : ModelDenial) (u : Unit {0}) → ensure b x ≡ ok u → b ≡ true
ensure-ok true x u e = refl
ensure-ok false x u e = cc

decide_model-ok :
    (p : Proxy) (policy : ModelPolicy) (ended : Bool) (o : Option Str)
    → decide_model p policy ended o ≡ ok tt
    → (model : Str) × (o ≡ some model) × (model_allowed p policy model ≡ true) × (ended ≡ true)
decide_model-ok p policy ended none e = cc
decide_model-ok p policy ended (some model) e =
    let (_, over, e₁) = >>=-eq-ok (ensure ended invalid_body) _ e in
    (model, refl, ensure-ok _ model_not_allowed tt e₁, ensure-ok ended invalid_body _ over)

filled_text : (model : Str) → is_empty model ≡ false → model ≢ []
filled_text [] e same = cc
filled_text (c ∷ s) e same = cc

-- The body was read, is within the limit, and is one JSON object with nothing behind it.
pub record IsObject (b : ModelBody) (ms : List Member) : Type 0 where
  pub size : ℕ
  pub read : b ≡ body_of size true ms true true
  pub small : size ≤ 8388608

-- What a body that passes holds: one admitted model.
abbrev pub HoldsModel : Proxy → ModelPolicy → ModelBody → Type 0
HoldsModel p policy b =
    (ms : List Member) × (model : Str) × IsObject b ms
    × NamesModel model ms
    × IsAdmitted p policy model

object_flags :
    (n : ℕ) (opens closes ends : Bool) (ms : List Member)
    → opens ≡ true
    → (closes && ends) ≡ true
    → body_of n opens ms closes ends ≡ body_of n true ms true true
object_flags n opens closes ends ms o e = let (c, d) = &&-eq-true closes ends e in rw (o, c, d)

check_body-HoldsModel :
    (p : Proxy) (policy : ModelPolicy) (b : ModelBody)
    → check_body p policy b ≡ ok tt
    → HoldsModel p policy b
check_body-HoldsModel p policy no_body e = cc e
check_body-HoldsModel p policy unread e = cc e
check_body-HoldsModel p policy (body_of n opens ms closes ends) e =
    let (_, small, e₁) = >>=-eq-ok (ensure (leb n model_body_limit) body_limit) _ e in
    let (_, opened, e₂) = >>=-eq-ok (ensure opens invalid_body) _ e₁ in
    let (model, found, good, ended) =
      decide_model-ok p policy (closes && ends) (scan_members [] [] ms) e₂ in
    let a = model_allowed-IsAdmitted p policy model good in
    (
      ms,
      model,
      record {
        size = n;
        read = object_flags n opens closes ends ms (ensure-ok opens invalid_body _ opened) ended;
        small = leb→le n model_body_limit (ensure-ok _ body_limit _ small);
      },
      scan_from [] ms model found (filled_text model a.named),
      a,
    )

-- Under an active model policy, a request that is let through is no WebSocket, is an unencoded POST
-- of JSON on a model path, and has a body within the limit that is one JSON object with nothing
-- behind it. The object names one model: there is one member called "model", no other member is
-- called so even if case is ignored, and that model is admitted by the proxy and by the policy of
-- the token.
pub authorize_model-NamesModel :
    (p : Proxy) (policy : ModelPolicy) (r : ModelRequest)
    → model_policy_active p policy ≡ true
    → authorize_model p policy r ≡ ok tt
    → IsModelPost r × HoldsModel p policy r.body
unfolding authorize_model
authorize_model-NamesModel p policy r active e =
    let (_, plain, e₁) =
      >>=-eq-ok (ensure (not r.is_websocket) websocket_unsupported) _ (rw active at e) in
    let (_, routed, e₂) = >>=-eq-ok (ensure (route_passes r) route_denied) _ e₁ in
    let (_, json, e₃) = >>=-eq-ok (ensure (is_json r.media_type) invalid_body) _ e₂ in
    let socket : r.is_websocket ≡ false =
      ground (arith, ensure-ok _ websocket_unsupported _ plain) in
    (
      route_passes-IsModelPost r socket (ensure-ok (route_passes r) route_denied _ routed)
          (ensure-ok (is_json r.media_type) invalid_body _ json),
      check_body-HoldsModel p policy r.body e₃,
    )
