-- ===== src/PolicyEvents.antt =====
-- internal/policyevents/events.go: a bounded store of policy events, and a bounded log of them.
pub mod Bounds
pub mod Polling
pub mod Samples
use sandbox_codex.Common.{
  Bool, List, Str, [], codes, filter, if◌then◌else◌, leb, length, ltb, negsuc, pos, suc, zero, ℕ, ℤ,
  ◌%◌, ◌&&◌, ◌++◌, ◌+◌, ◌==◌, ◌∷◌,
}

-- Event, less the fields that no code here reads. A time is in seconds.
pub record Event : Type 0 where
  pub sequence : ℕ
  pub time : ℕ
  pub policy_id : Str
  pub worker_name : Str
  pub run_id : Str
  pub source : Str
  pub destination : Str
  pub code : Str

-- MaxWrittenEvents
abbrev pub max_written_events : ℕ
max_written_events = 100000

-- Store. `sequence` is a uint64. `log` is what was encoded to the writer, the oldest event first;
-- `has_writer` is `s.writer != nil`.
pub record Store : Type 0 where
  pub capacity : ℕ
  pub last : ℕ
  pub events : List Event
  pub has_writer : Bool
  pub written : ℕ
  pub write_limit : ℕ
  pub log : List Event

abbrev pub store_capacity : ℤ → ℕ
store_capacity (pos zero) = 512
store_capacity (pos (suc n)) = suc n
store_capacity (negsuc n) = 512

-- New
unfoldable pub new_store : ℤ → Bool → Store
new_store capacity has_writer = record {
  capacity = store_capacity capacity;
  last = 0;
  events = [];
  has_writer = has_writer;
  written = 0;
  write_limit = max_written_events;
  log = [];
}

abbrev pub next_sequence : Store → ℕ
next_sequence s = (s.last + 1) % 18446744073709551616

-- The event as it is stored.
abbrev pub stamp : ℕ → ℕ → Event → Event
stamp sequence now e = record e { sequence = sequence; time = now }

-- `copy(s.events, s.events[1:])` with the event in the last place.
abbrev pub shift : Event → List Event → List Event
shift e [] = []
shift e (_ ∷ es) = es ++ (e ∷ [])

abbrev pub push_event : ℕ → Event → List Event → List Event
push_event capacity e es = if length es == capacity then shift e es else es ++ (e ∷ [])

-- The last event of the log tells that the log is full.
abbrev pub limit_event : Event → Event
limit_event e = record {
  sequence = e.sequence;
  time = e.time;
  policy_id = [];
  worker_name = [];
  run_id = [];
  source = [];
  destination = [];
  code = codes "event_log_limit";
}

abbrev pub write_event : Event → Store → Store
write_event e s =
    if s.has_writer && leb s.written s.write_limit
    then record s {
      written = s.written + 1;
      log = s.log ++ ((if s.written == s.write_limit then limit_event e else e) ∷ []);
    }
    else s

-- Store.Add
unfoldable pub add : ℕ → Event → Store → Store
add now e s =
    let stamped = stamp (next_sequence s) now e in
    write_event stamped
      (record s { last = next_sequence s; events = push_event s.capacity stamped s.events })

-- Store.Since
unfoldable pub since : ℕ → Store → List Event
since sequence s = filter (λ e. ltb sequence e.sequence) s.events
