-- ===== src/KataGuard/Profiles/Envelope.antt =====
-- Every resource profile that the guard resolves is within the pinned envelope
-- (internal/kataguard/profile_registry.go).
use sandbox_codex.Common.{
  &&-eq-true, ==_iff, >>=-eq-ok, All, Bool, Bool-cases, List, Option-cases, Str, [], any, ap, arith,
  codes, ensure, false, inl, inr, is_empty, leb, length, negsuc, not, ok, pos, refl, some, str_eq,
  subst, sym, true, ℕ, ℤ, ◌%◌, ◌*◌, ◌+◌, ◌||◌, ◌∙◌, ◌∷◌, ◌≡◌, ◌≤◌,
}
use sandbox_codex.KataGuard.Profiles.{
  ResourceProfile, bad_profile_name, builtin_profile, check_profiles, compact_guest,
  compact_profile, duplicate_profile, find_profile, guest_limit, host_limit, in_range, is_multiple,
  is_profile_name, is_some, load_profiles, lookup_profile, mib, natural_part, or_custom,
  profile_bounds, resource_profile, small_profile, standard_profile, too_many_profiles,
  validate_profile, within_bounds,
}

-- The bounds of a profile: processors, memory of the guest and of the host in MiB, processes.
pub record IsWithin (p : ResourceProfile) : Type 0 where
  pub cores : (c : ℕ) × (p.cpu_cores ≡ pos c) × (1 ≤ c) × (c ≤ 64)
  pub guest :
      (g : ℕ) × (h : ℕ) × (p.guest_memory ≡ pos g)
      × (p.host_memory ≡ pos h)
      × (512 * mib ≤ g)
      × (g ≤ 2048 * mib)
      × (g + 256 * mib ≤ h)
      × (h ≤ 3072 * mib)
      × (g % mib ≡ 0)
      × (h % mib ≡ 0)
  pub processes : (n : ℕ) × (p.pid_limit ≡ pos n) × (64 ≤ n) × (n ≤ 4096)

in_range-pos :
    (lo hi : ℕ) (z : ℤ) → in_range lo hi z ≡ true → (n : ℕ) × (z ≡ pos n) × (lo ≤ n) × (n ≤ hi)
in_range-pos lo hi (negsuc n) e = cc e
in_range-pos lo hi (pos n) e = (n, refl, ground arith, ground arith)

multiple-pos : (m n : ℕ) (z : ℤ) → z ≡ pos n → is_multiple m z ≡ true → n % m ≡ 0
multiple-pos m n z same e = (==_iff (n % m) 0).0 (subst (λ k. is_multiple m k ≡ true) same e)

within_bounds-IsWithin : (p : ResourceProfile) → within_bounds p ≡ true → IsWithin p
within_bounds-IsWithin p e =
    let (cpu, e₁) = &&-eq-true (in_range 1 64 p.cpu_cores) _ e in
    let (guest, e₂) = &&-eq-true (in_range compact_guest guest_limit p.guest_memory) _ e₁ in
    let (guest_mib, e₃) = &&-eq-true (is_multiple mib p.guest_memory) _ e₂ in
    let (host, e₄) =
      &&-eq-true (in_range (natural_part p.guest_memory + 256 * mib) host_limit p.host_memory) _
        e₃ in
    let (host_mib, processes) =
      &&-eq-true (is_multiple mib p.host_memory) (in_range 64 4096 p.pid_limit) e₄ in
    let (g, guest_is, guest_low, guest_high) =
      in_range-pos compact_guest guest_limit p.guest_memory guest in
    let (h, host_is, host_low, host_high) =
      in_range-pos (natural_part p.guest_memory + 256 * mib) host_limit p.host_memory host in
    record {
      cores = in_range-pos 1 64 p.cpu_cores cpu;
      guest = (
        g,
        h,
        guest_is,
        host_is,
        guest_low,
        guest_high,
        subst (λ z. natural_part z + 256 * mib ≤ h) guest_is host_low,
        host_high,
        multiple-pos mib g p.guest_memory guest_is guest_mib,
        multiple-pos mib h p.host_memory host_is host_mib,
      );
      processes = in_range-pos 64 4096 p.pid_limit processes;
    }

pub ensure-eq : {E : Type 0} (b : Bool) (x : E) {u : Unit {0}} → ensure b x ≡ ok u → b ≡ true
ensure-eq true x e = refl
ensure-eq false x e = cc e

check_profiles-IsWithin :
    (ps : List ResourceProfile) (seen : List Str) → check_profiles seen ps ≡ ok tt → All IsWithin ps
unfolding check_profiles validate_profile
check_profiles-IsWithin [] seen e = tt
check_profiles-IsWithin (p ∷ ps) seen e =
    let (_, valid, e₁) = >>=-eq-ok (validate_profile p) _ e in
    let (_, _, rest) = >>=-eq-ok (ensure (not (any (str_eq p.name) seen)) duplicate_profile) _ e₁ in
    let (_, _, v₁) = >>=-eq-ok (ensure (is_profile_name p.name) bad_profile_name) _ valid in
    let (_, _, bounds) =
      >>=-eq-ok (ensure (not (is_some (lookup_profile p.name))) builtin_profile) _ v₁ in
    (
      within_bounds-IsWithin p (ensure-eq (within_bounds p) profile_bounds bounds),
      check_profiles-IsWithin ps (p.name ∷ seen) rest,
    )

find_profile-All :
    (P : ResourceProfile → Type 0) (name : Str) (ps : List ResourceProfile) (p : ResourceProfile)
    → All P ps
    → find_profile name ps ≡ some p
    → P p
find_profile-All P name [] p a e = cc e
find_profile-All P name (q ∷ ps) p (one, others) e = elim (Bool-cases (str_eq q.name name)) [
  | inl named ↦ subst P (let same : q ≡ p = cc (rw named at e) in same) one
  | inr other ↦ find_profile-All P name ps p others (rw other at e)
]

lookup_profile-IsWithin :
    (name : Str) (p : ResourceProfile) → lookup_profile name ≡ some p → IsWithin p
unfolding lookup_profile
lookup_profile-IsWithin name p e =
    elim (Bool-cases (is_empty name || str_eq name (codes "standard"))) [
      | inl standard ↦
          let same : standard_profile ≡ p = cc (rw standard at e) in
          subst IsWithin same (within_bounds-IsWithin standard_profile refl)
      | inr other ↦ elim (Bool-cases (str_eq name (codes "small"))) [
        | inl small ↦
            let same : small_profile ≡ p = cc (rw (other, small) at e) in
            subst IsWithin same (within_bounds-IsWithin small_profile refl)
        | inr larger ↦ elim (Bool-cases (str_eq name (codes "compact"))) [
          | inl compact ↦
              let same : compact_profile ≡ p = cc (rw (other, larger, compact) at e) in
              subst IsWithin same (within_bounds-IsWithin compact_profile refl)
          | inr unknown ↦ cc (rw (other, larger, unknown) at e)
        ]
      ]
    ]

-- Every profile that the guard resolves by name, built in or from a file that it loads, has 1 to 64
-- processors, a guest of 512 to 2048 MiB, 256 MiB more than that and at most 3072 MiB on the host,
-- both in whole MiB, and 64 to 4096 processes.
pub resource_profile-IsWithin :
    (file profiles : List ResourceProfile) (name : Str) (p : ResourceProfile)
    → load_profiles file ≡ ok profiles
    → resource_profile profiles name ≡ some p
    → IsWithin p
unfolding load_profiles resource_profile
resource_profile-IsWithin file profiles name p loaded e =
    let (_, _, e₁) = >>=-eq-ok (ensure (leb (length file) 32) too_many_profiles) _ loaded in
    let (_, checked, e₂) = >>=-eq-ok (check_profiles [] file) _ e₁ in
    let same : file ≡ profiles = cc e₂ in
    elim (Option-cases (lookup_profile name)) [
      | inr (q, builtin) ↦
          let found : q ≡ p = cc (ap (or_custom name profiles) (sym builtin) ∙ e) in
          lookup_profile-IsWithin name p (builtin ∙ ap some found)
      | inl custom ↦
          find_profile-All IsWithin name profiles p
            (subst (All IsWithin) same (check_profiles-IsWithin file [] checked))
            (ap (or_custom name profiles) (sym custom) ∙ e)
    ]
