-- ===== src/KataGuard/Ledger/Binding.antt =====
-- trackAllocation of internal/kataguard/ledger_linux.go keeps what a record is bound to, and
-- readRecord accepts what it writes.
use sandbox_codex.Common.{
  &&-eq-true, >>=-eq-ok, Bool-cases, List, Option, Result, Str, [], ap, ensure, err, inl, inr,
  insert, lookup, lookup-insert, ok, refl, some, str_eq, str_eq_iff, str_eq_refl, subst, sym, true,
  ◌==◌, ◌∙◌, ◌∷◌, ◌≡◌, ◌≢◌, ◌⊎◌,
}
use sandbox_codex.KataGuard.Ledger.{
  AllocationRecord, Inspected, LedgerGuard, bind_worker, bound_record, check_record,
  check_requested, is_bound_id, is_hex, is_trusted, known_profile, may_bind, owns, plan_record,
  read_record, record_or_new, track_allocation, write_planned, write_record,
}
use sandbox_codex.KataGuard.Ledger.Checks.{
  bound_record-checks, check_record-parts, known_profile-some, read_record-made, read_record-parts,
  record_or_new-checks,
}
use sandbox_codex.KataGuard.Profiles.{
  GuardError, ResourceProfile, foreign_worker, other_worker, resource_profile,
}
use sandbox_codex.KataGuard.Profiles.Envelope.{ensure-eq}

module _ (g : LedgerGuard) (id : Str) where
  -- The container is the worker of the allocation, with the limits of the record's profile.
  abbrev pub OwnedBy : Str → AllocationRecord → Type 0
  OwnedBy w r =
      (i : Inspected) × (p : ResourceProfile) × (g.inspect w ≡ ok i)
      × (resource_profile g.profiles r.profile ≡ some p)
      × (owns g id p i ≡ true)

  -- Binding changes the worker and its name alone.
  record IsBound (w : Str) (r s : AllocationRecord) : Type 0 where
    checked : check_record g id s ≡ ok tt
    profile : s.profile ≡ r.profile
    budget : s.budget ≡ r.budget
    worker_is :
        ((w ≡ []) × (s.worker_id ≡ r.worker_id)) ⊎ ((w ≢ []) × (s.worker_id ≡ w) × OwnedBy w s)

  bind_worker-IsBound :
      (w : Str) (r s : AllocationRecord)
      → check_record g id r ≡ ok tt
      → is_bound_id w ≡ true
      → bind_worker g id w r ≡ ok s
      → IsBound w r s
  unfolding bind_worker
  bind_worker-IsBound [] r s checked hex e =
      let same : r ≡ s = cc e in
      subst (IsBound [] r) same
        (record { checked = checked; profile = refl; budget = refl; worker_is = inl (refl, refl) })
  bind_worker-IsBound (c ∷ w) r s checked hex e =
      let (i, inspected, e₁) = >>=-eq-ok (g.inspect (c ∷ w)) _ e in
      let (p, known, e₂) = >>=-eq-ok (known_profile (resource_profile g.profiles r.profile)) _ e₁ in
      let (_, owned, made) = >>=-eq-ok (ensure (owns g id p i) foreign_worker) _ e₂ in
      let same : bound_record (c ∷ w) i.name r ≡ s = cc made in
      let found = known_profile-some (resource_profile g.profiles r.profile) p known in
      subst (IsBound (c ∷ w) r) same (record {
        checked = bound_record-checks g id r (c ∷ w) i.name checked hex;
        profile = refl;
        budget = refl;
        worker_is = inr (
          (λ empty. cc empty),
          refl,
          (i, p, inspected, found, ensure-eq (owns g id p i) foreign_worker owned),
        );
      })

may_bind-cases : (bound w : Str) → may_bind bound w ≡ true → (bound ≡ []) ⊎ (w ≡ []) ⊎ (bound ≡ w)
may_bind-cases [] w e = inl refl
may_bind-cases (b ∷ bs) [] e = inr (inl refl)
may_bind-cases (b ∷ bs) (c ∷ w) e = inr (inr ((str_eq_iff (b ∷ bs) (c ∷ w)).0 e))

-- What trackAllocation leaves on the disk.
pub record IsTracked (g : LedgerGuard) (disk next : List (Str × AllocationRecord)) (id w : Str)
    : Type 0 where
  pub written : AllocationRecord
  pub readable : read_record g next id ≡ ok written
  pub others : (k : Str) → id ≢ k → lookup k next ≡ lookup k disk
  pub kept :
      (r : AllocationRecord)
      → read_record g disk id ≡ ok r
      → (written.profile ≡ r.profile)
        × (written.budget ≡ r.budget)
        × ((r.worker_id ≡ []) ⊎ (written.worker_id ≡ r.worker_id))
  pub bound : (w ≡ []) ⊎ ((written.worker_id ≡ w) × OwnedBy g id w written)

kept_worker :
    (g : LedgerGuard) (id w : Str) (r s : AllocationRecord)
    → may_bind r.worker_id w ≡ true
    → IsBound g id w r s
    → (r.worker_id ≡ []) ⊎ (s.worker_id ≡ r.worker_id)
kept_worker g id w r s may b = elim b.worker_is [
  | inl (_, same) ↦ inr same
  | inr (some_w, is_w, _) ↦ elim (may_bind-cases r.worker_id w may) [
    | inl free ↦ inl free
    | inr (inl none_given) ↦ absurd (some_w none_given)
    | inr (inr equal) ↦ inr (is_w ∙ sym equal)
  ]
]

abbrev answer :
    List (Str × AllocationRecord) × Result GuardError (Unit {0}) → Result GuardError (Unit {0})
answer r = r.1

written_record :
    (o : Result GuardError (Unit {0})) (s : AllocationRecord)
    (disk next : List (Str × AllocationRecord))
    → write_record o s disk ≡ (next, ok tt)
    → (is_hex 32 s.allocation ≡ true) × (next ≡ insert s.allocation s disk)
written_record (err e) s disk next h = cc (ap answer h)
written_record (ok _) s disk next h = elim (Bool-cases (is_hex 32 s.allocation)) [
  | inr bad ↦ cc (ap answer (rw bad at h))
  | inl hex ↦ (hex, sym (ap (λ r. r.0) (rw hex at h)))
]

trusted_allocation :
    (g : LedgerGuard) (id : Str) (r : AllocationRecord)
    → is_trusted g id r ≡ true
    → r.allocation ≡ id
trusted_allocation g id r e =
    let (_, rest) = &&-eq-true (r.version == 1) _ e in
    let (same, _) = &&-eq-true (str_eq r.allocation id) _ rest in
    (str_eq_iff r.allocation id).0 same

lookup_inserted :
    (id : Str) (s : AllocationRecord) (disk : List (Str × AllocationRecord))
    → lookup id (insert id s disk) ≡ some s
lookup_inserted id s disk = lookup-insert id id s disk ∙ (rw (str_eq_refl id) refl)

lookup_other :
    (id k : Str) (s : AllocationRecord) (disk : List (Str × AllocationRecord))
    → id ≢ k
    → lookup k (insert id s disk) ≡ lookup k disk
lookup_other id k s disk other = elim (Bool-cases (str_eq id k)) [
  | inl same ↦ absurd (other ((str_eq_iff id k).0 same))
  | inr different ↦ lookup-insert id k s disk ∙ (rw different refl)
]

-- When trackAllocation succeeds for a worker with a container ID, or none, and a clock that is set:
-- readRecord accepts the record that it has written, and the records of other allocations are as
-- before; a record that was there keeps its profile, its budget, and the worker that it is bound
-- to; and a worker that is named is the one bound, and the engine shows it as the worker of this
-- allocation, with the limits of the record's profile.
pub track_allocation-IsTracked :
    (g : LedgerGuard) (disk next : List (Str × AllocationRecord)) (id w : Str)
    (requested : Option Str)
    → is_bound_id w ≡ true
    → g.now ≢ 0
    → track_allocation g disk id w requested ≡ (next, ok tt)
    → IsTracked g disk next id w
unfolding track_allocation plan_record
track_allocation-IsTracked g disk next id w requested hex late e =
    of_plan (plan_record g disk id w requested) refl e
  where
    of_plan :
        (plan : Result GuardError AllocationRecord)
        → plan_record g disk id w requested ≡ plan
        → write_planned g disk plan ≡ (next, ok tt)
        → IsTracked g disk next id w
    of_plan (err x) planned h = cc (ap answer h)
    of_plan (ok s) planned h =
        let (r, started, e₁) =
          >>=-eq-ok (record_or_new g id requested (read_record g disk id)) _ planned in
        let (_, _, e₂) = >>=-eq-ok (check_requested g requested r) _ e₁ in
        let (_, may, bound) = >>=-eq-ok (ensure (may_bind r.worker_id w) other_worker) _ e₂ in
        let (checked, from_disk) =
          record_or_new-checks g id requested (read_record g disk id) r
            (λ q read. (read_record-parts g id disk q read).2) late started in
        let b = bind_worker-IsBound g id w r s checked hex bound in
        let (trusted, _, _, _, _) = check_record-parts g id s b.checked in
        let own = trusted_allocation g id s trusted in
        let (id_hex, saved) = written_record g.write s disk next h in
        let saved_here = subst (λ k. next ≡ insert k s disk) own saved in
        let may_keep = ensure-eq (may_bind r.worker_id w) other_worker may in
        record {
          written = s;
          readable =
              subst (λ n. read_record g n id ≡ ok s) (sym saved_here)
                (read_record-made g id (insert id s disk) s
                  (subst (λ k. is_hex 32 k ≡ true) own id_hex) (lookup_inserted id s disk)
                  b.checked);
          others = λ k other.
              subst (λ n. lookup k n ≡ lookup k disk) (sym saved_here)
                (lookup_other id k s disk other);
          kept = λ q read.
              subst
                (λ x.
                  (s.profile ≡ x.profile)
                  × (s.budget ≡ x.budget)
                  × ((x.worker_id ≡ []) ⊎ (s.worker_id ≡ x.worker_id)))
                (sym (from_disk q read)) (b.profile, b.budget, kept_worker g id w r s may_keep b);
          bound = elim b.worker_is [
            | inl (none_given, _) ↦ inl none_given
            | inr (_, is_w, owned) ↦ inr (is_w, owned)
          ];
        }
