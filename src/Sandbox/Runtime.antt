-- ===== src/Sandbox/Runtime.antt =====
-- ResolveRuntime and CheckRuntime of internal/sandbox/runtime.go: the runtime of a worker.
pub mod Kata
pub mod Samples
use sandbox_codex.Common.{
  Bool, List, Option, Result, Str, [], codes, contains_any, cut_last, ensure, err, if◌then◌else◌,
  is_empty, lookup, none, not, ok, some, str_eq, ◌&&◌, ◌++◌, ◌==◌, ◌>>=◌, ◌>>◌, ◌||◌, ◌∷◌,
}

pub data RuntimeError : Type 0 where
  bad_registration unknown_isolation bad_profile no_linux : RuntimeError
  unregistered wrong_path wrong_type hidden_type bad_cgroups : RuntimeError
  node_failed : Str → RuntimeError

abbrev pub default_kata : Str
default_kata = codes "io.containerd.kata.v2"

abbrev pub kata_shim : Str
kata_shim = codes "containerd-shim-kata-v2"

abbrev pub or_default : Str → Str → Str
or_default s d = if is_empty s then d else s

-- The bytes that no registration holds.
abbrev pub refused_bytes : Str
refused_bytes = codes " /" ++ 92 ∷ 13 ∷ 10 ∷ 9 ∷ 0 ∷ []

-- A registration that is no Kata runtime.
abbrev pub is_refused : Str → Bool
is_refused registration =
    str_eq registration (codes "runc") || contains_any refused_bytes registration

-- The switch on the isolation.
unfoldable pub resolve_given : Str → Str → Result RuntimeError (Str × Str)
resolve_given isolation registration =
    if str_eq isolation (codes "kata")
    then (do
      ensure (not (is_refused (or_default registration default_kata))) bad_registration
      ok (isolation, or_default registration default_kata))
    else if str_eq isolation (codes "runc")
    then ok (isolation, codes "runc")
    else err unknown_isolation

-- ResolveRuntime: the isolation and the registration
unfoldable pub resolve_runtime : Str → Str → Result RuntimeError (Str × Str)
resolve_runtime isolation registration =
    resolve_given (or_default isolation (codes "kata")) registration

abbrev pub drop_slashes : Str → Str
drop_slashes [] = []
drop_slashes (c ∷ s) =
    let rest = drop_slashes s in if is_empty rest && c == b'/' then [] else c ∷ rest

abbrev pub after_slash : Str → Option (Str × Str) → Str
after_slash s none = s
after_slash s (some p) = p.1

-- filepath.Base
abbrev pub base : Str → Str
base [] = codes "."
base (c ∷ s) =
    let kept = drop_slashes (c ∷ s) in
    if is_empty kept then codes "/" else after_slash kept (cut_last b'/' kept)

-- An entry of the runtimes that the daemon reports.
pub record Registered : Type 0 where
  pub path : Str
  pub runtime_type : Str

-- system.Info, as far as the code reads it
pub record Info : Type 0 where
  pub os_type : Str
  pub runtimes : List (Str × Registered)
  pub cgroup_driver : Str
  pub cgroup_version : Str

-- The text names the Kata v2 shim.
abbrev pub names_shim : Str → Bool
names_shim s = str_eq (base s) kata_shim || str_eq s default_kata

abbrev pub find_runtime : Option Registered → Result RuntimeError Registered
find_runtime none = err unregistered
find_runtime (some r) = ok r

-- The checks of validateRuntime on the entry of a Kata runtime.
unfoldable pub check_entry_of : Str → Registered → Result RuntimeError (Unit {0})
check_entry_of registration r = do
  ensure (is_empty r.path || names_shim r.path) wrong_path
  ensure (is_empty r.runtime_type || names_shim r.runtime_type) wrong_type
  ensure (str_eq registration default_kata || not (is_empty r.path && is_empty r.runtime_type))
      hidden_type

-- validateRuntime
unfoldable pub validate_runtime : Info → Str → Str → Result RuntimeError (Unit {0})
validate_runtime info isolation registration = do
  ensure (str_eq info.os_type (codes "linux")) no_linux
  r ← find_runtime (lookup registration info.runtimes)
  (if str_eq isolation (codes "kata") then check_entry_of registration r else ok tt)

-- RunOptions, as far as CheckRuntime reads them
pub record RunOptions : Type 0 where
  pub runtime : Str
  pub kata_runtime : Str
  pub resource_profile : Str

-- The daemon, the resource profiles by name, and the guard of the node.
pub record Daemon : Type 0 where
  pub profile_name : Str → Result RuntimeError Str
  pub info : Result RuntimeError Info
  pub guard : Result RuntimeError (Str → Result RuntimeError (Unit {0}))

module _ (daemon : Daemon) where
  abbrev pub check_kata : Info → Str → Result RuntimeError (Unit {0})
  check_kata info registration = do
    validate ← daemon.guard
    ensure (str_eq info.cgroup_driver (codes "cgroupfs") && str_eq info.cgroup_version (codes "2"))
        bad_cgroups
    validate registration

  abbrev pub check_resolved : RunOptions → Str × Str → Result RuntimeError (Unit {0})
  check_resolved opts (isolation, registration) = do
    profile ← daemon.profile_name opts.resource_profile
    ensure (str_eq isolation (codes "kata") || str_eq profile (codes "standard")) bad_profile
    info ← daemon.info
    validate_runtime info isolation registration
    (if str_eq isolation (codes "kata") then check_kata info registration else ok tt)

  -- CheckRuntime
  unfoldable pub check_runtime : RunOptions → Result RuntimeError (Unit {0})
  check_runtime opts = do
    resolved ← resolve_runtime opts.runtime opts.kata_runtime
    check_resolved opts resolved
