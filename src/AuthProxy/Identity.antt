-- ===== src/AuthProxy/Identity.antt =====
-- pkg/cxd/identity: the identity of a run, and the model policy of a token.
use sandbox_codex.Common.{
  Bool, List, Option, Result, Str, [], all, arith, codes, contains_any, ensure, is_empty, leb,
  length, ltb, none, not, ok, some, str_eq, str_eq_iff, true, ◌&&◌, ◌>>◌, ◌||◌, ◌↔◌, ◌∷◌, ◌≡◌,
}

-- identity.Identity
pub record Identity : Type 0 where
  pub case_id : Str
  pub run_id : Str
  pub connection_version : Str
  pub provider : Str

abbrev pub no_identity : Identity
no_identity = record { case_id = []; run_id = []; connection_version = []; provider = [] }

-- `==` on identities, which are comparable structs.
unfoldable pub identity_eq : Identity → Identity → Bool
identity_eq a b =
    str_eq a.case_id b.case_id
    && (str_eq a.run_id b.run_id
        && (str_eq a.connection_version b.connection_version && str_eq a.provider b.provider))

-- Identity.Empty
abbrev pub is_no_identity : Identity → Bool
is_no_identity id = identity_eq id no_identity

pub data IdentityError : Type 0 where
  bad_identity bad_provider too_many_models bad_model : IdentityError

abbrev valid_field : Str → Bool
valid_field s = not (is_empty s || (ltb 256 (length s) || contains_any (0 ∷ 13 ∷ 10 ∷ []) s))

-- Identity.Validate
unfoldable pub validate_identity : Identity → Result IdentityError (Unit {0})
validate_identity id = do
  ensure (all valid_field (id.case_id ∷ id.run_id ∷ id.connection_version ∷ [])) bad_identity
  ensure (str_eq id.provider (codes "openai") || str_eq id.provider (codes "anthropic"))
      bad_provider

-- *identity.ModelPolicy: `none` is nil.
abbrev pub ModelPolicy : Type 0
ModelPolicy = Option (List Str)

-- The characters of a model that are refused: * ? , \ " space, tab, CR, LF and NUL.
abbrev model_stops : Str
model_stops = 42 ∷ 63 ∷ 44 ∷ 92 ∷ 34 ∷ 32 ∷ 9 ∷ 13 ∷ 10 ∷ 0 ∷ []

abbrev valid_model : Str → Bool
valid_model s = not (is_empty s || (ltb 256 (length s) || contains_any model_stops s))

-- ModelPolicy.Validate
unfoldable pub validate_policy : ModelPolicy → Result IdentityError (Unit {0})
validate_policy none = ok tt
validate_policy (some models) = do
  ensure (leb (length models) 256) too_many_models
  ensure (all valid_model models) bad_model

pub identity_eq_iff : (a b : Identity) → (identity_eq a b ≡ true) ↔ (a ≡ b)
unfolding identity_eq
identity_eq_iff a b = ground (
  arith,
  str_eq_iff a.case_id b.case_id,
  str_eq_iff a.run_id b.run_id,
  str_eq_iff a.connection_version b.connection_version,
  str_eq_iff a.provider b.provider,
)
