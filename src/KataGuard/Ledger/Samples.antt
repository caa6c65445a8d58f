-- ===== src/KataGuard/Ledger/Samples.antt =====
-- An allocation that is reserved and then bound to its worker (internal/kataguard).
use Prim.Native.Nat.{zero, suc}
use sandbox_codex.Common.{
  Str, [], arith, codes, delete, insert, lookup, none, ok, pos, refl, some, true, ℕ, ◌*◌, ◌∷◌, ◌≡◌,
  ◌≢◌,
}
use sandbox_codex.KataGuard.Ledger.{
  AllocationRecord, Inspected, LedgerGuard, bind_worker, check_record, owns, plan_record,
  read_record, track_allocation,
}
use sandbox_codex.KataGuard.Ledger.Binding.{IsTracked, track_allocation-IsTracked}
use sandbox_codex.KataGuard.Profiles.{
  ResourceProfile, check_profiles, load_profiles, lookup_profile, mib, resource_profile,
  validate_profile,
}
use sandbox_codex.KataGuard.Profiles.Envelope.{IsWithin, resource_profile-IsWithin}

abbrev same_digits : ℕ → Str
same_digits zero = []
same_digits (suc n) = b'0' ∷ same_digits n

-- A profile that the node registers.
abbrev tiny : ResourceProfile
tiny = record {
  name = codes "tiny-1";
  cpu_cores = pos 2;
  guest_memory = pos (512 * mib);
  host_memory = pos (800 * mib);
  pid_limit = pos 64;
}

tiny_loads : load_profiles (tiny ∷ []) ≡ ok (tiny ∷ [])
unfolding load_profiles check_profiles validate_profile lookup_profile
tiny_loads = refl

resource_profile-IsWithin_example : IsWithin tiny
unfolding resource_profile lookup_profile
resource_profile-IsWithin_example =
    resource_profile-IsWithin (tiny ∷ []) (tiny ∷ []) (codes "tiny-1") tiny tiny_loads refl

abbrev tiny_worker : Inspected
tiny_worker = record {
  is_complete = true;
  managed = codes "true";
  isolation = codes "kata";
  allocation = same_digits 32;
  profile_stamp = codes "s";
  resource_profile_label = codes "tiny-1";
  cgroup_parent = codes "/p";
  runtime = codes "kata";
  memory = pos (512 * mib);
  memory_swap = pos (512 * mib);
  nano_cpus = pos 2000000000;
  pids_limit = some (pos 64);
  name = codes "/w";
}

abbrev tiny_guard : LedgerGuard
tiny_guard = record {
  stamp = codes "s";
  profiles = tiny ∷ [];
  runtime = codes "kata";
  parent = λ s. codes "/p";
  inspect = λ s. ok tiny_worker;
  now = 7;
  write = ok tt;
}

abbrev reserved : AllocationRecord
reserved = record {
  version = 1;
  allocation = same_digits 32;
  worker_id = [];
  stamp = codes "s";
  name = [];
  profile = codes "tiny-1";
  created_at = 7;
  budget = some tiny;
}

abbrev bound_to_worker : AllocationRecord
bound_to_worker = record reserved { worker_id = same_digits 64; name = codes "w" }

tiny_reserved :
    track_allocation tiny_guard [] (same_digits 32) [] (some (codes "tiny-1"))
    ≡ ((same_digits 32, reserved) ∷ [], ok tt)
unfolding track_allocation plan_record read_record check_record bind_worker resource_profile
    lookup_profile insert delete lookup
tiny_reserved = refl

tiny_bound :
    track_allocation tiny_guard
      ((same_digits 32, reserved) ∷ [])
      (same_digits 32)
      (same_digits 64)
      none
    ≡ ((same_digits 32, bound_to_worker) ∷ [], ok tt)
unfolding track_allocation plan_record read_record check_record bind_worker resource_profile
    lookup_profile insert delete lookup owns
tiny_bound = refl

seven_nonzero : tiny_guard.now ≢ 0
seven_nonzero e = omega arith

track_allocation-IsTracked_example :
    IsTracked tiny_guard
      ((same_digits 32, reserved) ∷ [])
      ((same_digits 32, bound_to_worker) ∷ [])
      (same_digits 32)
      (same_digits 64)
track_allocation-IsTracked_example =
    track_allocation-IsTracked tiny_guard ((same_digits 32, reserved) ∷ [])
      ((same_digits 32, bound_to_worker) ∷ []) (same_digits 32) (same_digits 64) none refl
      seven_nonzero tiny_bound
