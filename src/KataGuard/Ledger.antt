-- ===== src/KataGuard/Ledger.antt =====
-- The allocation records of internal/kataguard/ledger_linux.go: readRecord and trackAllocation.
use Prim.Native.Nat.{zero, suc}
pub mod Checks
pub mod Binding
pub mod Samples
use sandbox_codex.Common.{
  Bool, List, Option, Result, Str, [], all, codes, ensure, err, false, if◌then◌else◌, insert,
  is_digit, is_empty, leb, length, lookup, negsuc, none, not, ok, pos, some, str_eq, trim_prefix, ℕ,
  ℤ, ◌&&◌, ◌*◌, ◌-◌, ◌==◌, ◌>>=◌, ◌>>◌, ◌||◌, ◌∷◌,
}
use sandbox_codex.KataGuard.Profiles.{
  GuardError, ResourceProfile, bad_allocation, changed_budget, changed_profile, foreign_worker,
  is_some, lookup_profile, missing_record, other_worker, resource_profile, unknown_profile,
  untrusted_record,
}
use sandbox_codex.PolicyEvents.{stamp}

-- allocationRecord; the time is 0 if it is zero
pub record AllocationRecord : Type 0 where
  pub version : ℕ
  pub allocation : Str
  pub worker_id : Str
  pub stamp : Str
  pub name : Str
  pub profile : Str
  pub created_at : ℕ
  pub budget : Option ResourceProfile

-- What trackAllocation reads of an inspected container: whether it has its settings, its labels, and
-- its limits.
pub record Inspected : Type 0 where
  pub is_complete : Bool
  pub managed : Str
  pub isolation : Str
  pub allocation : Str
  pub profile_stamp : Str
  pub resource_profile_label : Str
  pub cgroup_parent : Str
  pub runtime : Str
  pub memory : ℤ
  pub memory_swap : ℤ
  pub nano_cpus : ℤ
  pub pids_limit : Option ℤ
  pub name : Str

-- The guard's settings, the engine's answer to an inspection, the clock and the outcome of a write.
pub record LedgerGuard : Type 0 where
  pub stamp : Str
  pub profiles : List ResourceProfile
  pub runtime : Str
  pub parent : Str → Str
  pub inspect : Str → Result GuardError Inspected
  pub now : ℕ
  pub write : Result GuardError (Unit {0})

-- `^[a-f0-9]{n}$`
abbrev pub is_hex : ℕ → Str → Bool
is_hex n s = (length s == n) && all (λ c. is_digit c || (leb b'a' c && leb c b'f')) s

abbrev pub int_eq : ℤ → ℤ → Bool
int_eq (pos m) (pos n) = m == n
int_eq (pos m) (negsuc n) = false
int_eq (negsuc m) (pos n) = false
int_eq (negsuc m) (negsuc n) = m == n

abbrev pub profile_eq : ResourceProfile → ResourceProfile → Bool
profile_eq p q =
    str_eq p.name q.name
    && (int_eq p.cpu_cores q.cpu_cores
        && (int_eq p.guest_memory q.guest_memory
            && (int_eq p.host_memory q.host_memory && int_eq p.pid_limit q.pid_limit)))

abbrev pub is_bound_id : Str → Bool
is_bound_id w = is_empty w || is_hex 64 w

abbrev pub is_trusted : LedgerGuard → Str → AllocationRecord → Bool
is_trusted g id r =
    (r.version == 1)
    && (str_eq r.allocation id && (str_eq r.stamp g.stamp && not (r.created_at == 0)))

abbrev pub known_profile : Option ResourceProfile → Result GuardError ResourceProfile
known_profile none = err unknown_profile
known_profile (some p) = ok p

-- A custom profile is recorded with its definition, and a definition does not change.
abbrev pub same_budget : Bool → Option ResourceProfile → ResourceProfile → Bool
same_budget builtin none p = builtin
same_budget builtin (some b) p = profile_eq b p

-- The checks of readRecord on what it has decoded.
unfoldable pub check_record : LedgerGuard → Str → AllocationRecord → Result GuardError (Unit {0})
check_record g id r = do
  ensure (is_trusted g id r && is_bound_id r.worker_id) untrusted_record
  p ← known_profile (resource_profile g.profiles r.profile)
  ensure (same_budget (is_some (lookup_profile r.profile)) r.budget p) changed_budget

abbrev pub stored_record : Option AllocationRecord → Result GuardError AllocationRecord
stored_record none = err missing_record
stored_record (some r) = ok r

-- readRecord, on the records of the disk by their allocations
unfoldable pub read_record :
    LedgerGuard → List (Str × AllocationRecord) → Str → Result GuardError AllocationRecord
read_record g disk id = do
  ensure (is_hex 32 id) bad_allocation
  r ← stored_record (lookup id disk)
  check_record g id r
  ok r

abbrev pub requested_name : Option Str → Str
requested_name none = codes "standard"
requested_name (some name) = name

abbrev pub custom_budget : Bool → ResourceProfile → Option ResourceProfile
custom_budget builtin p = if builtin then none else some p

abbrev pub new_allocation : LedgerGuard → Str → ResourceProfile → AllocationRecord
new_allocation g id p = record {
  version = 1;
  allocation = id;
  worker_id = [];
  stamp = g.stamp;
  name = [];
  profile = p.name;
  created_at = g.now;
  budget = custom_budget (is_some (lookup_profile p.name)) p;
}

-- A record that is not there is made; every other error ends the call.
abbrev pub record_or_new :
    LedgerGuard
    → Str
    → Option Str
    → Result GuardError AllocationRecord
    → Result GuardError AllocationRecord
record_or_new g id requested (ok r) = ok r
record_or_new g id requested (err missing_record) = do
  p ← known_profile (resource_profile g.profiles (requested_name requested))
  ok (new_allocation g id p)
record_or_new g id requested (err e) = err e

abbrev pub profile_name_of : Option ResourceProfile → Str
profile_name_of none = []
profile_name_of (some p) = p.name

-- A profile that is asked for must be that of the record.
abbrev pub check_requested :
    LedgerGuard → Option Str → AllocationRecord → Result GuardError (Unit {0})
check_requested g none r = ok tt
check_requested g (some name) r =
    ensure (is_empty name || str_eq name (profile_name_of (resource_profile g.profiles r.profile)))
      changed_profile

-- `n * k`, for a count of processors
abbrev pub times : ℕ → ℤ → ℤ
times k (pos n) = pos (n * k)
times k (negsuc n) = negsuc (suc n * k - 1)

abbrev pub limit_is : ℤ → Option ℤ → Bool
limit_is z none = false
limit_is z (some y) = int_eq y z

-- The container is the worker of the allocation, with the limits of the profile.
unfoldable pub owns : LedgerGuard → Str → ResourceProfile → Inspected → Bool
owns g id p i =
    i.is_complete
    && (str_eq i.managed (codes "true")
        && (str_eq i.isolation (codes "kata")
            && (str_eq i.allocation id
                && (str_eq i.profile_stamp g.stamp
                    && (str_eq i.resource_profile_label p.name
                        && (str_eq i.cgroup_parent (g.parent id)
                            && (str_eq i.runtime g.runtime
                                && (int_eq i.memory p.guest_memory
                                    && (int_eq i.memory_swap p.guest_memory
                                        && (int_eq i.nano_cpus (times 1000000000 p.cpu_cores)
                                            && limit_is p.pid_limit i.pids_limit))))))))))

abbrev pub bound_record : Str → Str → AllocationRecord → AllocationRecord
bound_record worker_id name r = record r {
  worker_id = worker_id;
  name = trim_prefix (codes "/") name;
}

-- The profile of a record that readRecord accepts is known.
unfoldable pub bind_worker :
    LedgerGuard → Str → Str → AllocationRecord → Result GuardError AllocationRecord
bind_worker g id [] r = ok r
bind_worker g id (c ∷ w) r = do
  i ← g.inspect (c ∷ w)
  p ← known_profile (resource_profile g.profiles r.profile)
  ensure (owns g id p i) foreign_worker
  ok (bound_record (c ∷ w) i.name r)

abbrev pub may_bind : Str → Str → Bool
may_bind bound w = is_empty bound || (is_empty w || str_eq bound w)

-- The record that trackAllocation writes.
unfoldable pub plan_record :
    LedgerGuard
    → List (Str × AllocationRecord)
    → Str
    → Str
    → Option Str
    → Result GuardError AllocationRecord
plan_record g disk id w requested = do
  r ← record_or_new g id requested (read_record g disk id)
  check_requested g requested r
  ensure (may_bind r.worker_id w) other_worker
  bind_worker g id w r

abbrev pub write_record :
    Result GuardError (Unit {0})
    → AllocationRecord
    → List (Str × AllocationRecord)
    → List (Str × AllocationRecord) × Result GuardError (Unit {0})
write_record (err e) r disk = (disk, err e)
write_record (ok _) r disk =
    if is_hex 32 r.allocation
    then (insert r.allocation r disk, ok tt)
    else (disk, err bad_allocation)

abbrev pub write_planned :
    LedgerGuard
    → List (Str × AllocationRecord)
    → Result GuardError AllocationRecord
    → List (Str × AllocationRecord) × Result GuardError (Unit {0})
write_planned g disk (err e) = (disk, err e)
write_planned g disk (ok r) = write_record g.write r disk

-- trackAllocation
unfoldable pub track_allocation :
    LedgerGuard
    → List (Str × AllocationRecord)
    → Str
    → Str
    → Option Str
    → List (Str × AllocationRecord) × Result GuardError (Unit {0})
track_allocation g disk id w requested = write_planned g disk (plan_record g disk id w requested)
