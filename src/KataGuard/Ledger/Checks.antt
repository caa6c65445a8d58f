-- ===== src/KataGuard/Ledger/Checks.antt =====
-- The checks of readRecord in internal/kataguard/ledger_linux.go on new and on bound records.
use sandbox_codex.Common.{
  &&-eq-true, ==_iff, >>=-eq-ok, Bool, Bool-cases, List, Option, Option-cases, Result, Str, [], ap,
  arith, codes, ensure, err, false, inl, inr, is_empty, lookup, negsuc, none, not, ok, pos, refl,
  some, str_eq, str_eq_iff, str_eq_refl, subst, sym, true, ℕ, ℤ, ◌&&◌, ◌==◌, ◌||◌, ◌∙◌, ◌∷◌, ◌≡◌,
  ◌≢◌,
}
use sandbox_codex.KataGuard.Ledger.{
  AllocationRecord, LedgerGuard, bound_record, check_record, custom_budget, int_eq, is_bound_id,
  is_hex, is_trusted, known_profile, new_allocation, profile_eq, read_record, record_or_new,
  requested_name, same_budget, stored_record,
}
use sandbox_codex.KataGuard.Profiles.{
  GuardError, ResourceProfile, bad_allocation, changed_budget, compact_profile, find_profile,
  is_some, lookup_profile, missing_record, or_custom, resource_profile, small_profile,
  standard_profile, untrusted_record,
}
use sandbox_codex.KataGuard.Profiles.Envelope.{ensure-eq}

ensure-ok : {E : Type 0} (b : Bool) (x : E) → b ≡ true → ensure b x ≡ ok tt
ensure-ok b x e = rw e refl

int_eq_refl : (z : ℤ) → int_eq z z ≡ true
int_eq_refl (pos n) = (==_iff n n).1 refl
int_eq_refl (negsuc n) = (==_iff n n).1 refl

profile_eq_refl : (p : ResourceProfile) → profile_eq p p ≡ true
profile_eq_refl p =
    rw
      (
        str_eq_refl p.name,
        int_eq_refl p.cpu_cores,
        int_eq_refl p.guest_memory,
        int_eq_refl p.host_memory,
        int_eq_refl p.pid_limit,
      )
      refl

find_profile_name :
    (name : Str) (ps : List ResourceProfile) (p : ResourceProfile)
    → find_profile name ps ≡ some p
    → p.name ≡ name
find_profile_name name [] p e = cc e
find_profile_name name (q ∷ ps) p e = elim (Bool-cases (str_eq q.name name)) [
  | inl named ↦
      let same : q ≡ p = cc (rw named at e) in
      ap (λ k. k.name) (sym same) ∙ (str_eq_iff q.name name).0 named
  | inr other ↦ find_profile_name name ps p (rw other at e)
]

lookup_profile_again :
    (name : Str) (p : ResourceProfile)
    → lookup_profile name ≡ some p
    → lookup_profile p.name ≡ some p
unfolding lookup_profile
lookup_profile_again name p e =
    elim (Bool-cases (is_empty name || str_eq name (codes "standard"))) [
      | inl standard ↦
          let same : standard_profile ≡ p = cc (rw standard at e) in
          subst (λ k. lookup_profile k.name ≡ some k) same refl
      | inr other ↦ elim (Bool-cases (str_eq name (codes "small"))) [
        | inl small ↦
            let same : small_profile ≡ p = cc (rw (other, small) at e) in
            subst (λ k. lookup_profile k.name ≡ some k) same refl
        | inr larger ↦ elim (Bool-cases (str_eq name (codes "compact"))) [
          | inl compact ↦
              let same : compact_profile ≡ p = cc (rw (other, larger, compact) at e) in
              subst (λ k. lookup_profile k.name ≡ some k) same refl
          | inr unknown ↦ cc (rw (other, larger, unknown) at e)
        ]
      ]
    ]

-- A profile that a name stands for is the one that its own name stands for.
resource_profile_again :
    (ps : List ResourceProfile) (name : Str) (p : ResourceProfile)
    → resource_profile ps name ≡ some p
    → resource_profile ps p.name ≡ some p
unfolding resource_profile
resource_profile_again ps name p e = elim (Option-cases (lookup_profile name)) [
  | inr (q, builtin) ↦
      let same : q ≡ p = cc (ap (or_custom name ps) (sym builtin) ∙ e) in
      ap (or_custom p.name ps) (lookup_profile_again name p (builtin ∙ ap some same))
  | inl custom ↦
      let found = ap (or_custom name ps) (sym custom) ∙ e in
      subst (λ k. or_custom k ps (lookup_profile k) ≡ some p)
        (sym (find_profile_name name ps p found)) e
]

pub known_profile-some :
    (o : Option ResourceProfile) (p : ResourceProfile) → known_profile o ≡ ok p → o ≡ some p
known_profile-some none p e = cc e
known_profile-some (some q) p e = ap some (cc e)

stored_record-some :
    (o : Option AllocationRecord) (r : AllocationRecord) → stored_record o ≡ ok r → o ≡ some r
stored_record-some none r e = cc e
stored_record-some (some q) r e = ap some (cc e)

module _ (g : LedgerGuard) (id : Str) where
  pub check_record-parts :
      (r : AllocationRecord)
      → check_record g id r ≡ ok tt
      → (is_trusted g id r ≡ true)
        × (is_bound_id r.worker_id ≡ true)
        × (p : ResourceProfile) × (resource_profile g.profiles r.profile ≡ some p)
        × (same_budget (is_some (lookup_profile r.profile)) r.budget p ≡ true)
  unfolding check_record
  check_record-parts r e =
      let (_, fields, e₁) =
        >>=-eq-ok (ensure (is_trusted g id r && is_bound_id r.worker_id) untrusted_record) _ e in
      let (p, known, budget) =
        >>=-eq-ok (known_profile (resource_profile g.profiles r.profile)) _ e₁ in
      let (trusted, bound) =
        &&-eq-true (is_trusted g id r) (is_bound_id r.worker_id)
          (ensure-eq (is_trusted g id r && is_bound_id r.worker_id) untrusted_record fields) in
      (
        trusted,
        bound,
        p,
        known_profile-some (resource_profile g.profiles r.profile) p known,
        ensure-eq (same_budget (is_some (lookup_profile r.profile)) r.budget p) changed_budget
            budget,
      )

  check_record-made :
      (r : AllocationRecord) (p : ResourceProfile)
      → is_trusted g id r ≡ true
      → is_bound_id r.worker_id ≡ true
      → resource_profile g.profiles r.profile ≡ some p
      → same_budget (is_some (lookup_profile r.profile)) r.budget p ≡ true
      → check_record g id r ≡ ok tt
  unfolding check_record
  check_record-made r p trusted bound known budget =
      let fields : (is_trusted g id r && is_bound_id r.worker_id) ≡ true =
        rw (trusted, bound) refl in
      rw (ensure-ok _ untrusted_record fields) (rw known (ensure-ok _ changed_budget budget))

  new_allocation-checks :
      (name : Str) (p : ResourceProfile)
      → resource_profile g.profiles name ≡ some p
      → g.now ≢ 0
      → check_record g id (new_allocation g id p) ≡ ok tt
  new_allocation-checks name p known late =
      check_record-made (new_allocation g id p) p (fresh_trusted late) refl
        (resource_profile_again g.profiles name p known)
        (budget_kept p (is_some (lookup_profile p.name)))
    where
      nonzero : (n : ℕ) → n ≢ 0 → not (n == 0) ≡ true
      nonzero n h = ground (arith, h)

      fresh_trusted : g.now ≢ 0 → is_trusted g id (new_allocation g id p) ≡ true
      fresh_trusted h = rw (str_eq_refl id, str_eq_refl g.stamp, nonzero g.now h) refl

      budget_kept : (q : ResourceProfile) (b : Bool) → same_budget b (custom_budget b q) q ≡ true
      budget_kept q true = refl
      budget_kept q false = profile_eq_refl q

  pub bound_record-checks :
      (r : AllocationRecord) (w name : Str)
      → check_record g id r ≡ ok tt
      → is_hex 64 w ≡ true
      → check_record g id (bound_record w name r) ≡ ok tt
  bound_record-checks r w name checked hex =
      let (trusted, _, p, known, budget) = check_record-parts r checked in
      let bound : is_bound_id w ≡ true = ground (arith, hex) in
      check_record-made (bound_record w name r) p trusted bound known budget

  -- A record that is read is on the disk and passes the checks.
  pub read_record-parts :
      (disk : List (Str × AllocationRecord)) (r : AllocationRecord)
      → read_record g disk id ≡ ok r
      → (is_hex 32 id ≡ true) × (lookup id disk ≡ some r) × (check_record g id r ≡ ok tt)
  unfolding read_record
  read_record-parts disk r e =
      let (_, hex, e₁) = >>=-eq-ok (ensure (is_hex 32 id) bad_allocation) _ e in
      let (q, stored, e₂) = >>=-eq-ok (stored_record (lookup id disk)) _ e₁ in
      let (_, checked, e₃) = >>=-eq-ok (check_record g id q) _ e₂ in
      let same : q ≡ r = cc e₃ in
      (
        ensure-eq (is_hex 32 id) bad_allocation hex,
        stored_record-some (lookup id disk) q stored ∙ ap some same,
        subst (λ k. check_record g id k ≡ ok tt) same checked,
      )

  pub read_record-made :
      (disk : List (Str × AllocationRecord)) (r : AllocationRecord)
      → is_hex 32 id ≡ true
      → lookup id disk ≡ some r
      → check_record g id r ≡ ok tt
      → read_record g disk id ≡ ok r
  unfolding read_record
  read_record-made disk r hex stored checked = rw (hex, stored, checked) refl

  -- The record that trackAllocation starts from passes the checks; one that is read is that one.
  pub record_or_new-checks :
      (requested : Option Str) (got : Result GuardError AllocationRecord) (r : AllocationRecord)
      → ((q : AllocationRecord) → got ≡ ok q → check_record g id q ≡ ok tt)
      → g.now ≢ 0
      → record_or_new g id requested got ≡ ok r
      → (check_record g id r ≡ ok tt) × ((q : AllocationRecord) → got ≡ ok q → q ≡ r)
  record_or_new-checks requested (ok q) r checks late e =
      (checks r (let same : q ≡ r = cc e in ap ok same), (λ q' e'. cc (e, e')))
  record_or_new-checks requested (err missing_record) r checks late e =
      let (p, known, made) =
        >>=-eq-ok (known_profile (resource_profile g.profiles (requested_name requested))) _ e in
      let same : new_allocation g id p ≡ r = cc made in
      let found =
        known_profile-some (resource_profile g.profiles (requested_name requested)) p known in
      (
        subst (λ k. check_record g id k ≡ ok tt) same
            (new_allocation-checks (requested_name requested) p found late),
        (λ q e'. cc e'),
      )
  record_or_new-checks requested (err x) r checks late e = cc e
