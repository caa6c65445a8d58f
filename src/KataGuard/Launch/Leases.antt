-- ===== src/KataGuard/Launch/Leases.antt =====
-- Who holds the lease of a launch (internal/kataguard/launch.go).
use sandbox_codex.Common.{
  Bool-cases, Option-cases, Result, Str, [], arith, err, false, inl, inr, is_empty, lookup, ltb,
  none, not, ok, refl, some, str_eq, str_eq_iff, true, ◌+◌, ◌<◌, ◌||◌, ◌≡◌, ◌≢◌, ◌⊎◌,
}
use sandbox_codex.KataGuard.Launch.{
  Surroundings, abort_launch, claim_launch, claim_read, finish_launch, holds_lease,
  launch_lease_period, settle,
}
use sandbox_codex.KataGuard.Records.{
  Answer, Guard, LaunchError, LaunchRecord, LaunchState, bad_file, holds, is_digest, is_pending,
  launch_cleanup_pending, launch_complete, launch_failed, launch_pending, missing_file, other_state,
  read_launch, valid_record,
}

module _ (env : Surroundings) (key fingerprint : Str) (g : Guard) (r : LaunchRecord) where
  claim_read-active :
      is_pending r.state ≡ true
      → ltb env.now (r.updated_at + launch_lease_period) ≡ true
      → (o : Result LaunchError LaunchRecord) → (o ≡ ok r) ⊎ (o ≡ err bad_file)
      → ((claim_read env key fingerprint g o).0 ≡ g)
        × ((claim_read env key fingerprint g o).1.lease ≡ [])
  claim_read-active waiting early o (inr bad) = rw bad (refl, refl)
  claim_read-active waiting early o (inl good) =
      elim (Bool-cases (str_eq r.fingerprint fingerprint)) [
        | inr other ↦ rw (good, other) (refl, refl)
        | inl same ↦ rw (good, same) (settle_active r.state refl waiting early)
      ]
    where
      settle_active :
          (st : LaunchState)
          → r.state ≡ st
          → is_pending r.state ≡ true
          → ltb env.now (r.updated_at + launch_lease_period) ≡ true
          → ((settle env key fingerprint false g r).0 ≡ g)
            × ((settle env key fingerprint false g r).1.lease ≡ [])
      settle_active launch_pending e waiting early = rw (e, early) (refl, refl)
      settle_active launch_complete e waiting early = cc (rw e at waiting)
      settle_active launch_failed e waiting early = cc (rw e at waiting)
      settle_active launch_cleanup_pending e waiting early = cc (rw e at waiting)
      settle_active other_state e waiting early = cc (rw e at waiting)

read_launch-holds :
    (key : Str) (g : Guard) (r : LaunchRecord)
    → is_digest key ≡ true
    → g.dir_error ≡ none
    → lookup key g.launches ≡ some (holds r)
    → (read_launch key g ≡ ok r) ⊎ (read_launch key g ≡ err bad_file)
unfolding read_launch
read_launch-holds key g r digest dir e = elim (Bool-cases (valid_record key r)) [
  | inl good ↦ inl (rw (digest, dir, e, good))
  | inr bad ↦ inr (rw (digest, dir, e, bad))
]

-- While a launch is pending and its lease period has not run out, a claim of any caller leaves the
-- guard as it is, and its answer carries no lease.
pub active_lease_exclusive :
    (env : Surroundings) (key fingerprint : Str) (g : Guard) (r : LaunchRecord)
    → g.dir_error ≡ none
    → lookup key g.launches ≡ some (holds r)
    → r.state ≡ launch_pending
    → env.now < r.updated_at + launch_lease_period
    → ((claim_launch env key fingerprint g).0 ≡ g)
      × ((claim_launch env key fingerprint g).1.lease ≡ [])
unfolding claim_launch
active_lease_exclusive env key fingerprint g r dir e waiting early =
    elim (Bool-cases (not (is_digest key) || not (is_digest fingerprint))) [
      | inl bad ↦ rw bad (refl, refl)
      | inr good ↦ elim (Bool-cases env.is_done) [
        | inl over ↦ simp (good, over) (refl, refl)
        | inr going ↦
            simp (good, going)
              (claim_read-active env key fingerprint g r (rw waiting refl) (ground arith)
                (read_launch key g) (read_launch-holds key g r (ground arith) dir e))
      ]
    ]

-- What is read of a record on the disk is that record, or an error.
pub read_launch-cases :
    (key : Str) (g : Guard) (r : LaunchRecord)
    → lookup key g.launches ≡ some (holds r)
    → ((x : LaunchError) × (read_launch key g ≡ err x)) ⊎ (read_launch key g ≡ ok r)
unfolding read_launch
read_launch-cases key g r e = elim (Bool-cases (is_digest key)) [
  | inr bad ↦ inl (bad_file, rw bad)
  | inl digest ↦ elim (Option-cases g.dir_error) [
    | inr (true, dir) ↦ inl (missing_file, rw (digest, dir))
    | inr (false, dir) ↦ inl (bad_file, rw (digest, dir))
    | inl dir ↦ elim (Bool-cases (valid_record key r)) [
      | inl good ↦ inr (rw (digest, dir, e, good))
      | inr bad ↦ inl (bad_file, rw (digest, dir, e, bad))
    ]
  ]
]

-- The launch is pending, and the lease is its own and not empty.
pub record IsHolder (lease : Str) (r : LaunchRecord) : Type 0 where
  pub waiting : r.state ≡ launch_pending
  pub own : r.lease ≡ lease
  pub filled : lease ≢ []

is_pending-eq : (st : LaunchState) → is_pending st ≡ true → st ≡ launch_pending
is_pending-eq launch_pending e = refl
is_pending-eq launch_complete e = cc e
is_pending-eq launch_failed e = cc e
is_pending-eq launch_cleanup_pending e = cc e
is_pending-eq other_state e = cc e

is_empty-[] : is_empty [] ≡ true
is_empty-[] = refl

holds_lease-IsHolder :
    (lease : Str) (r : LaunchRecord) → holds_lease lease r ≡ true → IsHolder lease r
holds_lease-IsHolder lease r e = record {
  waiting = is_pending-eq r.state (ground (arith, e));
  own = (str_eq_iff r.lease lease).0 (ground (arith, e));
  filled = λ same.
      let blank : is_empty lease ≡ true = rw same is_empty-[] in absurd (ground (arith, e, blank));
}

-- The call failed and changed nothing.
abbrev pub IsFailure : Guard → Answer → Type 0
IsFailure g a = (a.0 ≡ g) × (a.2 ≢ none)

-- Whatever the engine and the disk do then, finishing or aborting a stored launch fails and changes
-- nothing, unless the launch is pending and the caller names its lease, which is not empty.
pub stale_lease_refused :
    (env : Surroundings) (key lease worker_id : Str) (g : Guard) (r : LaunchRecord)
    → lookup key g.launches ≡ some (holds r)
    → (IsFailure g (finish_launch env key lease worker_id g)
        × IsFailure g (abort_launch env key lease worker_id g))
      ⊎ IsHolder lease r
unfolding finish_launch abort_launch
stale_lease_refused env key lease worker_id g r e = elim (Bool-cases (holds_lease lease r)) [
  | inl held ↦ inr (holds_lease-IsHolder lease r held)
  | inr stale ↦ inl (elim (read_launch-cases key g r e) [
    | inl (x, bad) ↦ rw bad ((refl, (λ h. cc)), (refl, λ h. cc))
    | inr good ↦ rw (good, stale) ((refl, (λ h. cc)), (refl, λ h. cc))
  ])
]
