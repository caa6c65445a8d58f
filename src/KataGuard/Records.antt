-- ===== src/KataGuard/Records.antt =====
-- The launch records of internal/kataguard/launch.go, and how they are read and written.
use sandbox_codex.Common.{
  Bool, List, Option, Result, Str, [], all, codes, err, false, if◌then◌else◌, insert, is_digit, leb,
  length, lookup, none, not, ok, some, str_eq, take, true, ℕ, ◌&&◌, ◌++◌, ◌==◌, ◌||◌,
}

pub data LaunchState : Type 0 where
  launch_pending launch_complete launch_failed launch_cleanup_pending other_state : LaunchState

abbrev pub is_pending : LaunchState → Bool
is_pending launch_pending = true
is_pending _ = false

abbrev pub is_failed : LaunchState → Bool
is_failed launch_failed = true
is_failed _ = false

abbrev pub is_settled : LaunchState → Bool
is_settled launch_complete = true
is_settled launch_cleanup_pending = true
is_settled _ = false

abbrev pub is_known : LaunchState → Bool
is_known other_state = false
is_known _ = true

-- LaunchRecord; a time is in seconds, and 0 is the zero time.
pub record LaunchRecord : Type 0 where
  pub version : ℕ
  pub key : Str
  pub fingerprint : Str
  pub name : Str
  pub state : LaunchState
  pub attempt : ℕ
  pub lease : Str
  pub worker_id : Str
  pub updated_at : ℕ

abbrev pub no_launch : LaunchRecord
no_launch = record {
  version = 0;
  key = [];
  fingerprint = [];
  name = [];
  state = other_state;
  attempt = 0;
  lease = [];
  worker_id = [];
  updated_at = 0;
}

-- What is at a path: a record, or a file that is not trusted or does not decode.
pub data LaunchFile : Type 0 where
  unreadable : LaunchFile
  holds : LaunchRecord → LaunchFile

-- The directory of the launches. `dir_error` is the error of launchDir: whether it is
-- os.IsNotExist.
pub record Guard : Type 0 where
  pub dir_error : Option Bool
  pub launches : List (Str × LaunchFile)

pub data LaunchError : Type 0 where
  bad_digest bad_file missing_file conflict no_engine find_error : LaunchError
  random_error write_error stale_lease no_match done_context inventory_error : LaunchError

abbrev pub is_digest : Str → Bool
is_digest s = length s == 64 && all (λ c. is_digit c || (leb b'a' c && leb c b'f')) s

-- requestName
abbrev pub request_name : Str → Str
request_name key = codes "cxd-" ++ take 32 key

abbrev pub valid_record : Str → LaunchRecord → Bool
valid_record key r =
    (r.version == 1
      && (str_eq r.key key
          && (is_digest r.fingerprint
              && (str_eq r.name (request_name key) && not (r.updated_at == 0)))))
    && is_known r.state

abbrev pub open_file : Str → Option LaunchFile → Result LaunchError LaunchRecord
open_file key none = err missing_file
open_file key (some unreadable) = err bad_file
open_file key (some (holds r)) = if valid_record key r then ok r else err bad_file

abbrev pub open_dir : Str → Option Bool → Guard → Result LaunchError LaunchRecord
open_dir key (some missing) g = if missing then err missing_file else err bad_file
open_dir key none g = open_file key (lookup key g.launches)

-- readLaunch
unfoldable pub read_launch : Str → Guard → Result LaunchError LaunchRecord
read_launch key g = if is_digest key then open_dir key g.dir_error g else err bad_file

-- How far writeLaunch gets: not to the rename, to the rename but not past the sync of the
-- directory, or to the end.
pub data WriteReach : Type 0 where
  unwritten unsynced synced : WriteReach

abbrev pub Answer : Type 0
Answer = Guard × LaunchRecord × Option LaunchError

abbrev is_none : Option Bool → Bool
is_none none = true
is_none (some _) = false

abbrev pub store : LaunchRecord → Guard → Guard
store r g = record g { launches = insert r.key (holds r) g.launches }

-- `return r, g.writeLaunch(r)`
unfoldable pub write_launch : WriteReach → LaunchRecord → Guard → Answer
write_launch unwritten r g = (g, r, some write_error)
write_launch unsynced r g =
    if is_none g.dir_error then (store r g, r, some write_error) else (g, r, some write_error)
write_launch synced r g =
    if is_none g.dir_error then (store r g, r, none) else (g, r, some write_error)

abbrev pub refuse : Guard → LaunchError → Answer
refuse g e = (g, no_launch, some e)
