-- ===== src/KataGuard/Samples.antt =====
-- A launch that is claimed (internal/kataguard/launch.go).
use sandbox_codex.Common.{
  Str, [], ap, arith, codes, false, insert, is_empty, lookup, none, refl, some, ℕ, ◌∷◌, ◌≡◌, ◌⊎◌,
}
use sandbox_codex.KataGuard.Launch.{
  Surroundings, abort_launch, claim_launch, finish_launch, fresh_record, no_worker, vms,
}
use sandbox_codex.KataGuard.Launch.Grants.{granted_lease_exclusive}
use sandbox_codex.KataGuard.Launch.Leases.{IsFailure, IsHolder, stale_lease_refused}
use sandbox_codex.KataGuard.Records.{Guard, LaunchRecord, holds, launch_pending, synced}

abbrev sample_key : Str
sample_key = codes "0123456789abcdef0123456789abcdef0123456789abcdef0123456789abcdef"

-- Nothing runs yet, and the disk works.
abbrev surroundings : ℕ → Str → Surroundings
surroundings now lease = record {
  now = now;
  is_done = false;
  find_request = λ name. no_worker;
  inventory = vms [];
  allocation = λ key. key;
  random_lease = some lease;
  write_reach = synced;
}

abbrev empty_guard : Guard
empty_guard = record { dir_error = none; launches = [] }

abbrev claimed : LaunchRecord
claimed = record (fresh_record sample_key sample_key) {
  attempt = 1;
  state = launch_pending;
  lease = codes "a";
  updated_at = 1000;
}

abbrev claimed_guard : Guard
claimed_guard = record { dir_error = none; launches = (sample_key, holds claimed) ∷ [] }

claim_granted :
    claim_launch (surroundings 1000 (codes "a")) sample_key sample_key empty_guard
    ≡ (claimed_guard, claimed, none)
unfolding claim_launch lookup insert
claim_granted = refl

granted_lease_exclusive_example :
    ((claim_launch
        (surroundings 1200 (codes "b"))
        sample_key
        sample_key
        (claim_launch (surroundings 1000 (codes "a")) sample_key sample_key empty_guard).0).0
      ≡ (claim_launch (surroundings 1000 (codes "a")) sample_key sample_key empty_guard).0)
    × ((claim_launch
          (surroundings 1200 (codes "b"))
          sample_key
          sample_key
          (claim_launch
            (surroundings 1000 (codes "a"))
            sample_key
            sample_key
            empty_guard).0).1.lease
        ≡ [])
granted_lease_exclusive_example =
    granted_lease_exclusive (surroundings 1000 (codes "a")) (surroundings 1200 (codes "b"))
      sample_key sample_key sample_key empty_guard (ap (λ a. a.2) claim_granted)
      (ap (λ a. a.1.state) claim_granted) (ap (λ a. is_empty a.1.lease) claim_granted) (omega arith)

stored : lookup sample_key claimed_guard.launches ≡ some (holds claimed)
unfolding lookup
stored = refl

stale_lease_refused_example :
    (IsFailure claimed_guard
        (finish_launch (surroundings 1100 []) sample_key (codes "b") (codes "id") claimed_guard)
      × IsFailure claimed_guard
          (abort_launch (surroundings 1100 []) sample_key (codes "b") (codes "id") claimed_guard))
    ⊎ IsHolder (codes "b") claimed
stale_lease_refused_example =
    stale_lease_refused (surroundings 1100 []) sample_key (codes "b") (codes "id") claimed_guard
      claimed stored
