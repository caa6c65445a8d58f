-- ===== src/WorkerPolicy/Storage.antt =====
-- What NormalizeTemporaryStorage and ValidateTemporaryBudget of
-- internal/workerpolicy/temporary.go let through.
use sandbox_codex.Common.{
  >>=-eq-ok, All, Bool, Bool-cases, List, Str, [], any, arith, codes, ensure, false, inl, inr, leb,
  length, not, ok, refl, str_eq_iff, subst, true, ℕ, ◌+◌, ◌∙◌, ◌∷◌, ◌≡◌,
}
use sandbox_codex.WorkerPolicy.{
  StorageError, TemporaryStorage, bad_size, check_entries, check_entry, has_clean_target,
  insert_storage, is_clean_target, is_protected, is_vm_memory, label_limit, normalize_storage,
  other_medium, overlapping, overlaps_one, paths_overlap, protected_path, protected_paths,
  sort_storage, str_lt, too_many, unclean_target, valid_size, with_defaults,
}

abbrev pub IsApart : TemporaryStorage → TemporaryStorage → Type 0
IsApart v w = paths_overlap v.target w.target ≡ false

-- No two entries overlap.
abbrev pub IsDisjoint : List TemporaryStorage → Type 0
IsDisjoint [] = Unit
IsDisjoint (v ∷ vs) = All (IsApart v) vs × IsDisjoint vs

-- A size of whole pages from 4 KiB to 2 GiB, of a memory that lives as long as the VM, away from
-- the protected paths.
pub record IsProper (v : TemporaryStorage) : Type 0 where
  pub clean : is_clean_target v.target ≡ true
  pub in_memory : v.medium ≡ codes "memory"
  pub with_vm : v.lifetime ≡ codes "vm"
  pub size : valid_size v.max_bytes ≡ true
  pub unprotected : any (paths_overlap v.target) protected_paths ≡ false

paths_overlap_comm : (a b : Str) → paths_overlap a b ≡ paths_overlap b a
unfolding paths_overlap
paths_overlap_comm a b = ground (arith, str_eq_iff a b, str_eq_iff b a)

storage_ensure : (b : Bool) (x : StorageError) (u : Unit {0}) → ensure b x ≡ ok u → b ≡ true
storage_ensure true x u e = refl
storage_ensure false x u e = cc

none_overlaps :
    (v : TemporaryStorage) (ws : List TemporaryStorage)
    → any (λ w. paths_overlap v.target w.target) ws ≡ false
    → All (IsApart v) ws
none_overlaps v [] e = tt
none_overlaps v (w ∷ ws) e = (ground (arith, e), none_overlaps v ws (ground (arith, e)))

check_entry_passes :
    (previous : List TemporaryStorage) (v : TemporaryStorage)
    → check_entry previous v ≡ ok tt
    → IsProper v × All (IsApart v) previous
unfolding check_entry
check_entry_passes previous v e =
    let (u₁, a, e₁) = >>=-eq-ok (ensure (has_clean_target v) unclean_target) _ e in
    let (u₂, b, e₂) = >>=-eq-ok (ensure (is_vm_memory v) other_medium) _ e₁ in
    let (u₃, c, e₃) = >>=-eq-ok (ensure (valid_size v.max_bytes) bad_size) _ e₂ in
    let (u₄, d, e₄) = >>=-eq-ok (ensure (not (is_protected v)) protected_path) _ e₃ in
    let clean = storage_ensure (has_clean_target v) unclean_target u₁ a in
    let memory = storage_ensure (is_vm_memory v) other_medium u₂ b in
    let away = storage_ensure (not (is_protected v)) protected_path u₄ d in
    let fresh = storage_ensure (not (overlaps_one previous v)) overlapping tt e₄ in
    (
      record {
        clean = ground (arith, clean);
        in_memory = (str_eq_iff v.medium (codes "memory")).0 (ground (arith, memory));
        with_vm = (str_eq_iff v.lifetime (codes "vm")).0 (ground (arith, memory));
        size = storage_ensure (valid_size v.max_bytes) bad_size u₃ c;
        unprotected = ground (arith, away);
      },
      none_overlaps v previous (ground (arith, fresh)),
    )

check_entries_pass :
    (previous vs : List TemporaryStorage) {out : List TemporaryStorage}
    → check_entries previous vs ≡ ok out
    → All IsProper previous
    → IsDisjoint previous
    → All IsProper out × IsDisjoint out
unfolding check_entries
check_entries_pass previous [] e proper apart =
    let one : previous ≡ _ = cc e in subst (λ l. All IsProper l × IsDisjoint l) one (proper, apart)
check_entries_pass previous (v ∷ vs) e proper apart =
    let (u, passed, rest) = >>=-eq-ok (check_entry previous (with_defaults v)) _ e in
    let (good, away) = check_entry_passes previous (with_defaults v) passed in
    check_entries_pass (with_defaults v ∷ previous) vs rest (good, proper) (away, apart)

module _ (P : TemporaryStorage → Type 0) where
  insert-All :
      (v : TemporaryStorage) (ws : List TemporaryStorage)
      → P v
      → All P ws
      → All P (insert_storage v ws)
  unfolding insert_storage
  insert-All v [] p h = (p, tt)
  insert-All v (w ∷ ws) p (q, h) = elim (Bool-cases (str_lt w.target v.target)) [
    | inl later ↦ rw later (q, insert-All v ws p h)
    | inr first ↦ rw first (p, (q, h))
  ]

  sort-All : (vs : List TemporaryStorage) → All P vs → All P (sort_storage vs)
  unfolding sort_storage
  sort-All [] h = tt
  sort-All (v ∷ vs) (p, h) = insert-All v (sort_storage vs) p (sort-All vs h)

insert-IsDisjoint :
    (v : TemporaryStorage) (ws : List TemporaryStorage)
    → All (IsApart v) ws
    → IsDisjoint ws
    → IsDisjoint (insert_storage v ws)
unfolding insert_storage
insert-IsDisjoint v [] away apart = (tt, tt)
insert-IsDisjoint v (w ∷ ws) (off, away) (others, apart) =
    elim (Bool-cases (str_lt w.target v.target)) [
      | inl later ↦
          let back : IsApart w v = paths_overlap_comm w.target v.target ∙ off in
          rw later (insert-All (IsApart w) v ws back others, insert-IsDisjoint v ws away apart)
      | inr first ↦ rw first ((off, away), (others, apart))
    ]

sort-IsDisjoint : (vs : List TemporaryStorage) → IsDisjoint vs → IsDisjoint (sort_storage vs)
unfolding sort_storage
sort-IsDisjoint [] h = tt
sort-IsDisjoint (v ∷ vs) (away, apart) =
    insert-IsDisjoint v (sort_storage vs) (sort-All (IsApart v) vs away) (sort-IsDisjoint vs apart)

-- The file systems that come out of the normalisation are each proper, and no two of them overlap,
-- whatever the length of the JSON text.
pub normalize_storage-IsDisjoint :
    (encoded_length : List TemporaryStorage → ℕ) (vs : List TemporaryStorage)
    (out : List TemporaryStorage)
    → normalize_storage encoded_length vs ≡ ok out
    → All IsProper out × IsDisjoint out
unfolding normalize_storage
normalize_storage-IsDisjoint encoded_length [] out e =
    let one : [] ≡ out = cc e in subst (λ l. All IsProper l × IsDisjoint l) one (tt, tt)
normalize_storage-IsDisjoint encoded_length (v ∷ vs) out e =
    let (_, _, e₁) = >>=-eq-ok (ensure (leb (length (v ∷ vs)) 16) too_many) _ e in
    let (checked, passed, e₂) = >>=-eq-ok (check_entries [] (v ∷ vs)) _ e₁ in
    let (_, _, e₃) =
      >>=-eq-ok (ensure (leb (encoded_length (sort_storage checked) + 28) 4096) label_limit) _ e₂ in
    let (proper, apart) = check_entries_pass [] (v ∷ vs) passed tt tt in
    let one : sort_storage checked ≡ out = cc e₃ in
    subst (λ l. All IsProper l × IsDisjoint l) one
      (sort-All IsProper checked proper, sort-IsDisjoint checked apart)
