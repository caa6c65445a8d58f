-- ===== src/Sandbox/Runtime/Samples.antt =====
-- A daemon with a Kata runtime, and a worker for it (internal/sandbox/runtime.go).
use sandbox_codex.Common.{Str, [], codes, lookup, ok, refl, ◌∷◌}
use sandbox_codex.Sandbox.Runtime.{
  Daemon, RunOptions, check_entry_of, check_runtime, resolve_given, resolve_runtime,
  validate_runtime,
}
use sandbox_codex.Sandbox.Runtime.Kata.{IsKata, check_runtime-IsKata}

abbrev kata_daemon : Daemon
kata_daemon = record {
  profile_name = λ s. ok (codes "standard");
  info = ok (record {
    os_type = codes "linux";
    runtimes =
        (codes "runc", record { path = codes "runc"; runtime_type = [] })
        ∷ (
          codes "kata-clh",
          record { path = codes "/opt/bin/containerd-shim-kata-v2"; runtime_type = [] },
        )
        ∷ [];
    cgroup_driver = codes "cgroupfs";
    cgroup_version = codes "2";
  });
  guard = ok (λ registration. ok tt);
}

abbrev kata_options : RunOptions
kata_options = record { runtime = []; kata_runtime = codes "kata-clh"; resource_profile = [] }

check_runtime-IsKata_example : (registration : Str) × IsKata kata_daemon kata_options registration
unfolding check_runtime resolve_runtime resolve_given validate_runtime check_entry_of lookup
check_runtime-IsKata_example = check_runtime-IsKata kata_daemon kata_options refl refl
