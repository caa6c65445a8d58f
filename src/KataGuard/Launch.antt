-- ===== src/KataGuard/Launch.antt =====
-- The launch records of internal/kataguard/launch.go: a launch is claimed under a lease, and
-- finished or aborted by the holder of that lease.
pub mod Leases
pub mod Grants
use sandbox_codex.Common.{
  Bool, List, Option, Result, Str, [], any, err, false, if◌then◌else◌, is_empty, ltb, none, not, ok,
  some, str_eq, true, ℕ, ◌&&◌, ◌+◌, ◌||◌,
}
use sandbox_codex.KataGuard.Records.{
  Answer, Guard, LaunchError, LaunchRecord, WriteReach, bad_digest, conflict, done_context,
  find_error, inventory_error, is_digest, is_failed, is_pending, is_settled, launch_cleanup_pending,
  launch_complete, launch_failed, launch_pending, missing_file, no_engine, no_launch, no_match,
  random_error, read_launch, refuse, request_name, stale_lease, write_launch,
}

-- What FindRequest answers.
pub data Finding : Type 0 where
  find_failed no_worker : Finding
  worker : Str → Str → Str → Finding

-- What Inventory answers: an error, an engine that is not available, or the allocations of the VMs.
pub data Inventory : Type 0 where
  inventory_failed engine_down : Inventory
  vms : List Str → Inventory

-- What a call meets: the clock, the context, the engine, the random lease, and the disk.
pub record Surroundings : Type 0 where
  pub now : ℕ
  pub is_done : Bool
  pub find_request : Str → Finding
  pub inventory : Inventory
  pub allocation : Str → Str
  pub random_lease : Option Str
  pub write_reach : WriteReach

-- launchLeasePeriod, five minutes
abbrev pub launch_lease_period : ℕ
launch_lease_period = 300

-- The new claim at the end of claimLaunch.
abbrev pub renew : Surroundings → Guard → LaunchRecord → Option Str → Answer
renew env g r none = refuse g random_error
renew env g r (some lease) =
    write_launch env.write_reach
      (record r {
        attempt = r.attempt + 1;
        state = launch_pending;
        lease = lease;
        worker_id = [];
        updated_at = env.now;
      })
      g

-- A launch that was tried before may have left a VM behind.
abbrev pub check_inventory : Surroundings → Str → Guard → LaunchRecord → Inventory → Answer
check_inventory env key g r inventory_failed = refuse g inventory_error
check_inventory env key g r engine_down = refuse g no_engine
check_inventory env key g r (vms allocations) =
    if any (λ a. str_eq a (env.allocation key)) allocations
    then (g, record r { lease = [] }, none)
    else renew env g r env.random_lease

abbrev pub finish_record : Surroundings → Str → LaunchRecord → LaunchRecord
finish_record env id r = record r {
  state = launch_complete;
  worker_id = id;
  lease = [];
  updated_at = env.now;
}

abbrev pub after_find : Surroundings → Str → Str → Bool → Guard → LaunchRecord → Finding → Answer
after_find env key fingerprint fresh g r find_failed = refuse g find_error
after_find env key fingerprint fresh g r (worker id k f) =
    if not (str_eq k key) || not (str_eq f fingerprint)
    then refuse g conflict
    else write_launch env.write_reach (finish_record env id r) g
after_find env key fingerprint fresh g r no_worker =
    if not fresh && (is_pending r.state || is_failed r.state)
    then check_inventory env key g r env.inventory
    else renew env g r env.random_lease

abbrev pub settle : Surroundings → Str → Str → Bool → Guard → LaunchRecord → Answer
settle env key fingerprint fresh g r =
    if is_settled r.state
    then (g, r, none)
    else if is_pending r.state && ltb env.now (r.updated_at + launch_lease_period)
    then (g, record r { lease = [] }, none)
    else after_find env key fingerprint fresh g r (env.find_request r.name)

abbrev pub fresh_record : Str → Str → LaunchRecord
fresh_record key fingerprint = record no_launch {
  version = 1;
  key = key;
  fingerprint = fingerprint;
  name = request_name key;
  state = launch_failed;
}

abbrev pub claim_read : Surroundings → Str → Str → Guard → Result LaunchError LaunchRecord → Answer
claim_read env key fingerprint g (err missing_file) =
    settle env key fingerprint true g (fresh_record key fingerprint)
claim_read env key fingerprint g (err e) = refuse g e
claim_read env key fingerprint g (ok r) =
    if str_eq r.fingerprint fingerprint
    then settle env key fingerprint false g r
    else refuse g conflict

-- claimLaunch
unfoldable pub claim_launch : Surroundings → Str → Str → Guard → Answer
unfolding read_launch write_launch
claim_launch env key fingerprint g =
    if not (is_digest key) || not (is_digest fingerprint)
    then refuse g bad_digest
    else if env.is_done
    then refuse g done_context
    else claim_read env key fingerprint g (read_launch key g)

-- `r.State != "pending" || r.Lease != lease || lease == ""`, negated.
abbrev pub holds_lease : Str → LaunchRecord → Bool
holds_lease lease r = is_pending r.state && (str_eq r.lease lease && not (is_empty lease))

abbrev pub match_worker : Surroundings → Str → Str → Guard → LaunchRecord → Finding → Answer
match_worker env key worker_id g r find_failed = refuse g find_error
match_worker env key worker_id g r no_worker = refuse g no_match
match_worker env key worker_id g r (worker id k f) =
    if not (str_eq id worker_id) || (not (str_eq k key) || not (str_eq f r.fingerprint))
    then refuse g no_match
    else write_launch env.write_reach (finish_record env id r) g

abbrev pub finish_read :
    Surroundings → Str → Str → Str → Guard → Result LaunchError LaunchRecord → Answer
finish_read env key lease worker_id g (err e) = refuse g e
finish_read env key lease worker_id g (ok r) =
    if holds_lease lease r
    then match_worker env key worker_id g r (env.find_request r.name)
    else refuse g stale_lease

-- finishLaunch
unfoldable pub finish_launch : Surroundings → Str → Str → Str → Guard → Answer
unfolding read_launch write_launch
finish_launch env key lease worker_id g = finish_read env key lease worker_id g (read_launch key g)

abbrev pub abort_record : Surroundings → Str → LaunchRecord → LaunchRecord
abort_record env worker_id r =
    if is_empty worker_id
    then record r { state = launch_failed; lease = []; updated_at = env.now }
    else record r {
      state = launch_cleanup_pending;
      worker_id = worker_id;
      lease = [];
      updated_at = env.now;
    }

abbrev pub abort_read : Surroundings → Str → Str → Guard → Result LaunchError LaunchRecord → Answer
abort_read env lease worker_id g (err e) = refuse g e
abort_read env lease worker_id g (ok r) =
    if holds_lease lease r
    then write_launch env.write_reach (abort_record env worker_id r) g
    else refuse g stale_lease

-- abortLaunch
unfoldable pub abort_launch : Surroundings → Str → Str → Str → Guard → Answer
unfolding read_launch write_launch
abort_launch env key lease worker_id g = abort_read env lease worker_id g (read_launch key g)
