-- ===== src/Sandbox/Runtime/Kata.antt =====
-- CheckRuntime of internal/sandbox/runtime.go lets a worker fall back to no other runtime.
use sandbox_codex.Common.{
  &&-eq-true, >>=-eq-ok, Bool, Bool-cases, Option, Result, Str, [], ap, codes, contains_any, ensure,
  false, inl, inr, is_empty, lookup, none, not, ok, refl, some, str_eq, str_eq_iff, subst, true,
  ◌&&◌, ◌||◌, ◌∷◌, ◌≡◌, ◌≢◌, ◌⊎◌,
}
use sandbox_codex.Sandbox.Runtime.{
  Daemon, Info, Registered, RunOptions, RuntimeError, bad_cgroups, bad_registration, check_entry_of,
  check_resolved, check_runtime, default_kata, find_runtime, hidden_type, is_refused, names_shim,
  no_linux, or_default, refused_bytes, resolve_given, resolve_runtime, validate_runtime, wrong_path,
  wrong_type,
}

-- The text is not given, or it names the Kata v2 shim.
abbrev pub IsShim : Str → Type 0
IsShim s = (s ≡ []) ⊎ (names_shim s ≡ true)

-- What CheckRuntime has found out when it accepts a Kata worker.
pub record IsKata (daemon : Daemon) (opts : RunOptions) (registration : Str) : Type 0 where
  pub registration_is : or_default opts.kata_runtime default_kata ≡ registration
  pub not_runc : registration ≢ codes "runc"
  pub clean : contains_any refused_bytes registration ≡ false
  pub info : Info
  pub reported : daemon.info ≡ ok info
  pub linux : info.os_type ≡ codes "linux"
  pub entry : Registered
  pub registered : lookup registration info.runtimes ≡ some entry
  pub path : IsShim entry.path
  pub runtime_type : IsShim entry.runtime_type
  pub shown : (registration ≡ default_kata) ⊎ (entry.path ≢ []) ⊎ (entry.runtime_type ≢ [])
  pub cgroups : (info.cgroup_driver ≡ codes "cgroupfs") × (info.cgroup_version ≡ codes "2")
  pub validate : Str → Result RuntimeError (Unit {0})
  pub guarded : daemon.guard ≡ ok validate
  pub validated : validate registration ≡ ok tt

is_refused-false :
    (registration : Str)
    → is_refused registration ≡ false
    → (registration ≢ codes "runc") × (contains_any refused_bytes registration ≡ false)
is_refused-false registration e = elim (Bool-cases (str_eq registration (codes "runc"))) [
  | inl runc ↦ cc (rw runc at e)
  | inr other ↦
      ((λ same. cc ((str_eq_iff registration (codes "runc")).1 same, other)), (rw other at e))
]

is_empty-eq : (s : Str) → is_empty s ≡ true → s ≡ []
is_empty-eq [] e = refl
is_empty-eq (c ∷ s) e = cc e

IsShim-checked : (s : Str) → (is_empty s || names_shim s) ≡ true → IsShim s
IsShim-checked s e = elim (Bool-cases (is_empty s)) [
  | inl empty ↦ inl (is_empty-eq s empty)
  | inr given ↦ inr (let named : names_shim s ≡ true = rw given at e in named)
]

ensure-true : {E : Type 0} (b : Bool) (x : E) → ensure b x ≡ ok tt → b ≡ true
ensure-true true x e = refl
ensure-true false x e = cc e

find_runtime-some : (o : Option Registered) (r : Registered) → find_runtime o ≡ ok r → o ≡ some r
find_runtime-some none r e = cc e
find_runtime-some (some q) r e = ap some (cc e)

not-eq-true : (b : Bool) → not b ≡ true → b ≡ false
not-eq-true true e = cc e
not-eq-true false e = refl

resolved_kata :
    (isolation registration : Str) (out : Str × Str)
    → or_default isolation (codes "kata") ≡ codes "kata"
    → resolve_runtime isolation registration ≡ ok out
    → (out ≡ (codes "kata", or_default registration default_kata))
      × (is_refused (or_default registration default_kata) ≡ false)
unfolding resolve_runtime resolve_given
resolved_kata isolation registration out kata e =
    let given = subst (λ i. resolve_given i registration ≡ ok out) kata e in
    let chosen = or_default registration default_kata in
    let (_, clean, made) = >>=-eq-ok (ensure (not (is_refused chosen)) bad_registration) _ given in
    let clean_test = ensure-true (not (is_refused chosen)) bad_registration clean in
    (cc made, not-eq-true (is_refused chosen) clean_test)

shown_kind :
    (path kind : Str) → not (is_empty path && is_empty kind) ≡ true → (path ≢ []) ⊎ (kind ≢ [])
shown_kind (c ∷ s) kind e = inl (λ empty. cc empty)
shown_kind [] (d ∷ t) e = inr (λ empty. cc empty)
shown_kind [] [] e = cc e

shown_metadata :
    (registration path kind : Str)
    → (str_eq registration default_kata || not (is_empty path && is_empty kind)) ≡ true
    → (registration ≡ default_kata) ⊎ (path ≢ []) ⊎ (kind ≢ [])
shown_metadata registration path kind e = elim (Bool-cases (str_eq registration default_kata)) [
  | inl same ↦ inl ((str_eq_iff registration default_kata).0 same)
  | inr other ↦ inr (shown_kind path kind (rw other at e))
]

checked_entry :
    (registration : Str) (r : Registered)
    → check_entry_of registration r ≡ ok tt
    → IsShim r.path
      × IsShim r.runtime_type
      × ((registration ≡ default_kata) ⊎ (r.path ≢ []) ⊎ (r.runtime_type ≢ []))
unfolding check_entry_of
checked_entry registration r e =
    let (_, path, e₁) = >>=-eq-ok (ensure (is_empty r.path || names_shim r.path) wrong_path) _ e in
    let (_, kind, e₂) =
      >>=-eq-ok (ensure (is_empty r.runtime_type || names_shim r.runtime_type) wrong_type) _ e₁ in
    (
      IsShim-checked r.path (ensure-true (is_empty r.path || names_shim r.path) wrong_path path),
      IsShim-checked r.runtime_type
          (ensure-true (is_empty r.runtime_type || names_shim r.runtime_type) wrong_type kind),
      shown_metadata registration r.path r.runtime_type (
          ensure-true
            (str_eq registration default_kata || not (is_empty r.path && is_empty r.runtime_type))
            hidden_type e₂),
    )

validated_kata :
    (info : Info) (registration : Str)
    → validate_runtime info (codes "kata") registration ≡ ok tt
    → (str_eq info.os_type (codes "linux") ≡ true)
      × (r : Registered) × (lookup registration info.runtimes ≡ some r)
      × (check_entry_of registration r ≡ ok tt)
unfolding validate_runtime
validated_kata info registration e =
    let (_, linux, e₁) = >>=-eq-ok (ensure (str_eq info.os_type (codes "linux")) no_linux) _ e in
    let (r, found, e₂) = >>=-eq-ok (find_runtime (lookup registration info.runtimes)) _ e₁ in
    (
      ensure-true (str_eq info.os_type (codes "linux")) no_linux linux,
      r,
      find_runtime-some (lookup registration info.runtimes) r found,
      e₂,
    )

-- A worker that is to run under Kata, which one that names no isolation is, passes CheckRuntime
-- only so: its registration, or the default one, is not runc and has no refused byte; the daemon
-- runs on Linux with cgroup v2 under cgroupfs and has the registration; what the entry shows names
-- the Kata v2 shim, and an alias shows something; and the guard of the node validates it.
pub check_runtime-IsKata :
    (daemon : Daemon) (opts : RunOptions)
    → or_default opts.runtime (codes "kata") ≡ codes "kata"
    → check_runtime daemon opts ≡ ok tt
    → (registration : Str) × IsKata daemon opts registration
unfolding check_runtime
check_runtime-IsKata daemon opts kata e =
    let (out, resolved, e₁) = >>=-eq-ok (resolve_runtime opts.runtime opts.kata_runtime) _ e in
    let (same, clean) = resolved_kata opts.runtime opts.kata_runtime out kata resolved in
    let chosen = or_default opts.kata_runtime default_kata in
    let checked = subst (λ o. check_resolved daemon opts o ≡ ok tt) same e₁ in
    let (profile, _, e₂) = >>=-eq-ok (daemon.profile_name opts.resource_profile) _ checked in
    let (info, reported, e₃) = >>=-eq-ok daemon.info _ e₂ in
    let (_, valid, e₄) = >>=-eq-ok (validate_runtime info (codes "kata") chosen) _ e₃ in
    let (linux, entry, registered, entry_ok) = validated_kata info chosen valid in
    let (path, kind, shown) = checked_entry chosen entry entry_ok in
    let (validate, guarded, e₅) = >>=-eq-ok daemon.guard _ e₄ in
    let cgroups =
      str_eq info.cgroup_driver (codes "cgroupfs") && str_eq info.cgroup_version (codes "2") in
    let (_, grouped, validated) = >>=-eq-ok (ensure cgroups bad_cgroups) _ e₅ in
    let (driver, version) =
      &&-eq-true (str_eq info.cgroup_driver (codes "cgroupfs"))
        (str_eq info.cgroup_version (codes "2")) (ensure-true cgroups bad_cgroups grouped) in
    let (not_runc, clean_bytes) = is_refused-false chosen clean in
    (
      chosen,
      record {
        registration_is = refl;
        not_runc = not_runc;
        clean = clean_bytes;
        info = info;
        reported = reported;
        linux = (str_eq_iff info.os_type (codes "linux")).0 linux;
        entry = entry;
        registered = registered;
        path = path;
        runtime_type = kind;
        shown = shown;
        cgroups = (
          (str_eq_iff info.cgroup_driver (codes "cgroupfs")).0 driver,
          (str_eq_iff info.cgroup_version (codes "2")).0 version,
        );
        validate = validate;
        guarded = guarded;
        validated = validated;
      },
    )
