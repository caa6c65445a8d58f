-- ===== src/Sandbox/Reap.antt =====
-- Reap and stopIdle of internal/sandbox/policy.go: workers are stopped and removed by their
-- lifecycle settings alone.
pub mod Decisions
pub mod Calls
pub mod DryRun
pub mod Justified
pub mod Samples
use sandbox_codex.AuthProxy.Requests.{status}
use sandbox_codex.Common.{
  Bool, List, Option, Result, Str, [], any, codes, ensure, err, false, if◌then◌else◌, is_empty, leb,
  ltb, negsuc, none, not, ok, pos, some, str_eq, true, ℕ, ℤ, ◌&&◌, ◌+◌, ◌-◌, ◌==◌, ◌>>=◌, ◌>>◌,
  ◌||◌, ◌∷◌,
}
use sandbox_codex.KataGuard.Launch.{worker}
use sandbox_codex.NetworkPolicy.Explain.{reason}
use sandbox_codex.WorkerEgress.Arguments.{atoi}

-- workerpolicy.Lifecycle; a duration is its number of nanoseconds.
pub record Lifecycle : Type 0 where
  pub max_lifetime : ℤ
  pub idle_timeout : ℤ
  pub retention : ℤ

abbrev pub is_negative : ℤ → Bool
is_negative (pos n) = false
is_negative (negsuc n) = true

-- Lifecycle.Validate
abbrev pub validate_lifecycle : Lifecycle → Bool
validate_lifecycle p = not (any is_negative (p.max_lifetime ∷ p.idle_timeout ∷ p.retention ∷ []))

-- What Reap and stopIdle read of an inspected container: whether it has a Config and a State, its
-- labels, and its state.
pub record Worker : Type 0 where
  pub id : Str
  pub is_complete : Bool
  pub lifecycle : Str
  pub last_activity : Str
  pub active_executions : Str
  pub isolation : Str
  pub allocation : Str
  pub created : Str
  pub running : Bool
  pub status : Str
  pub finished_at : Str

-- ReapAction
pub record ReapAction : Type 0 where
  pub worker : Str
  pub action : Str
  pub reason : Str

pub data ReapError : Type 0 where
  node_error : Str → ReapError
  cancelled bad_time : ReapError
  bad_lifecycle no_activity no_executions : Str → ReapError
  action_failed : Str → Str → ReapError → ReapError
  joined : ReapError → ReapError → ReapError

-- Decoding JSON and parsing a time; an instant is its number of nanoseconds since the zero time.
pub record Readers : Type 0 where
  pub read_lifecycle : Str → Option Lifecycle
  pub read_time : Str → Option ℕ

-- Why a worker is due; an idle one with the latest activity that still lets it stop.
pub data Due : Type 0 where
  due_lifetime : Due
  due_idle : ℕ → Due
  due_retention : Due

abbrev pub due_action : Str → Due → ReapAction
due_action w due_lifetime = record {
  worker = w;
  action = codes "stop";
  reason = codes "max_lifetime";
}
due_action w (due_idle before) = record {
  worker = w;
  action = codes "stop";
  reason = codes "idle_timeout";
}
due_action w due_retention = record {
  worker = w;
  action = codes "remove";
  reason = codes "retention";
}

-- `d > 0 && now.Sub(start) >= d`
abbrev pub has_passed : ℤ → ℕ → ℕ → Bool
has_passed (negsuc n) start now = false
has_passed (pos n) start now = ltb 0 n && leb (start + n) now

-- `d > 0`
abbrev pub is_set : ℤ → Bool
is_set (negsuc n) = false
is_set (pos n) = ltb 0 n

-- `now.Add(-d)`, for a duration that is not negative
abbrev pub back : ℤ → ℕ → ℕ
back (negsuc n) now = now
back (pos n) now = now - n

-- A count that parses and is not negative.
abbrev pub natural : Option ℤ → Option ℕ
natural none = none
natural (some (negsuc n)) = none
natural (some (pos n)) = some n

abbrev pub or_fail : {A : Type 0} → ReapError → Option A → Result ReapError A
or_fail e none = err e
or_fail e (some a) = ok a

-- A policy that decodes must be valid.
abbrev pub valid_lifecycle : Str → Option Lifecycle → Result ReapError Lifecycle
valid_lifecycle w none = err (bad_lifecycle w)
valid_lifecycle w (some p) = if validate_lifecycle p then ok p else err (bad_lifecycle w)

module _ (readers : Readers) (now : ℕ) (w : Str) (c : Worker) (p : Lifecycle) where
  abbrev pub idle_after : ℕ → ℕ → Option Due
  idle_after active count =
      if count == 0 && has_passed p.idle_timeout active now
      then some (due_idle (back p.idle_timeout now))
      else none

  -- The branch of a running worker with an idle timeout.
  abbrev pub judge_idle : Result ReapError (Option Due)
  judge_idle = do
    ensure (not (is_empty c.last_activity)) (no_activity w)
    active ← or_fail bad_time (readers.read_time c.last_activity)
    count ← or_fail (no_executions w) (natural (atoi c.active_executions))
    ok (idle_after active count)

  abbrev pub judge_running : ℕ → Result ReapError (Option Due)
  judge_running created =
      if has_passed p.max_lifetime created now
      then ok (some due_lifetime)
      else if is_set p.idle_timeout
      then judge_idle
      else ok none

  abbrev pub retained : ℕ → Option Due
  retained finished = if has_passed p.retention finished now then some due_retention else none

  abbrev pub judge_stopped : Result ReapError (Option Due)
  judge_stopped =
      if str_eq c.status (codes "exited") && is_set p.retention
      then (do
        finished ← or_fail bad_time (readers.read_time c.finished_at)
        ok (retained finished))
      else ok none

  abbrev pub judge_with : ℕ → Result ReapError (Option Due)
  judge_with created = if c.running then judge_running created else judge_stopped

-- The decision of the loop on an inspected worker.
unfoldable pub judge : Readers → ℕ → Str → Worker → Result ReapError (Option Due)
judge readers now w c = if not c.is_complete || is_empty c.lifecycle then ok none else (do
  p ← valid_lifecycle w (readers.read_lifecycle c.lifecycle)
  created ← or_fail bad_time (readers.read_time c.created)
  judge_with readers now w c p created)

-- The calls that change workers, with the worker that each is about.
pub data Call : Type 0 where
  stop_worker remove_worker lock_cleanup unlock_cleanup revoke_token : Str → Call
  idle_stop : Str → ℕ → Call
  release_allocation : Str → Str → Call

abbrev pub subject : Call → Str
subject (stop_worker i) = i
subject (remove_worker i) = i
subject (lock_cleanup i) = i
subject (unlock_cleanup i) = i
subject (revoke_token i) = i
subject (idle_stop i before) = i
subject (release_allocation allocation i) = i

-- The execution node and the manager's other methods, over the state `S` of the workers. `run` says
-- true, except that an idle stop says whether the worker stopped.
pub record Node (S : Type 0) : Type 0 where
  pub is_live : S → Bool
  pub list : S → Result ReapError (List Str)
  pub inspect : S → Str → Result ReapError Worker
  pub run : Call → S → S × Result ReapError Bool

-- errors.Join of an error and the outcome of a call.
abbrev pub join_error : ReapError → Result ReapError Bool → ReapError
join_error e (ok _) = e
join_error e (err f) = joined e f

-- errors.Join of the outcomes of two calls, with the answer true when both succeed.
abbrev pub join_results : Result ReapError Bool → Result ReapError Bool → Result ReapError Bool
join_results (ok _) (ok _) = ok true
join_results (ok _) (err f) = err f
join_results (err e) r = err (join_error e r)

abbrev pub succeeded : Result ReapError Bool → Result ReapError Bool
succeeded (ok _) = ok true
succeeded (err e) = err e

module _ {S : Type 0} (node : Node S) where
  -- After a stop, the allocation of a Kata worker is released.
  abbrev pub release_stopped : Worker → Result ReapError Bool → S → S × Result ReapError Bool
  release_stopped c revoked s =
      if str_eq c.isolation (codes "kata")
      then (let r = node.run (release_allocation c.allocation c.id) s in
          (r.0, join_results (r.1) revoked))
      else (s, join_results (ok true) revoked)

  -- An uncertain stop revokes the token too.
  unfoldable pub after_idle_stop : Worker → Result ReapError Bool → S → S × Result ReapError Bool
  after_idle_stop c (ok false) s = (s, ok false)
  after_idle_stop c (ok true) s =
      let r = node.run (revoke_token c.id) s in release_stopped c (r.1) (r.0)
  after_idle_stop c (err e) s =
      let r = node.run (revoke_token c.id) s in (r.0, err (join_error e (r.1)))

  abbrev pub stop_inspected : Str → ℕ → S → Result ReapError Worker → S × Result ReapError Bool
  stop_inspected i before s (err e) = (s, err e)
  stop_inspected i before s (ok c) =
      let r = node.run (idle_stop i before) s in after_idle_stop c (r.1) (r.0)

  abbrev pub stop_locked : Str → ℕ → S × Result ReapError Bool → S × Result ReapError Bool
  stop_locked i before (s, err e) = (s, err e)
  stop_locked i before (s, ok _) =
      let r = stop_inspected i before s (node.inspect s i) in
      ((node.run (unlock_cleanup i) (r.0)).0, r.1)

  -- stopIdle
  unfoldable pub stop_idle : Str → ℕ → S → S × Result ReapError Bool
  stop_idle i before s = stop_locked i before (node.run (lock_cleanup i) s)

  -- The call for a worker that is due.
  unfoldable pub perform : Str → Str → Due → S → S × Result ReapError Bool
  perform w i due_lifetime s = let r = node.run (stop_worker w) s in (r.0, succeeded (r.1))
  perform w i (due_idle before) s = stop_idle i before s
  perform w i due_retention s = let r = node.run (remove_worker w) s in (r.0, succeeded (r.1))

-- What one turn of the loop adds to the result.
pub data Note : Type 0 where
  no_note : Note
  failure_note : ReapError → Note
  action_note : ReapAction → Note

abbrev pub outcome_note : ReapAction → Result ReapError Bool → Note
outcome_note a (ok true) = action_note a
outcome_note a (ok false) = no_note
outcome_note a (err e) = failure_note (action_failed a.action a.worker e)

-- The state after the loop, and what it has collected.
pub record Reaped (S : Type 0) : Type 0 where
  pub state : S
  pub actions : List ReapAction
  pub failures : List ReapError
  pub was_cancelled : Bool

abbrev pub with_note : {S : Type 0} → Note → Reaped S → Reaped S
with_note no_note r = r
with_note (failure_note e) r = record r { failures = e ∷ r.failures }
with_note (action_note a) r = record r { actions = a ∷ r.actions }

abbrev pub nothing_reaped : {S : Type 0} → Bool → S → Reaped S
nothing_reaped was_cancelled s = record {
  state = s;
  actions = [];
  failures = [];
  was_cancelled = was_cancelled;
}

-- The errors that Reap returns: a done context hides the failures before it.
abbrev pub reap_errors : {S : Type 0} → Reaped S → List ReapError
reap_errors r = if r.was_cancelled then cancelled ∷ [] else r.failures

abbrev pub report : {S : Type 0} → Reaped S → List ReapAction × List ReapError
report r = (r.actions, reap_errors r)

module _ {S : Type 0} (node : Node S) (readers : Readers) (now : ℕ) (dry_run : Bool) where
  abbrev pub visit_judged : Str → Str → S → Result ReapError (Option Due) → S × Note
  visit_judged w i s (err e) = (s, failure_note e)
  visit_judged w i s (ok none) = (s, no_note)
  visit_judged w i s (ok (some due)) =
      if dry_run
      then (s, action_note (due_action w due))
      else (let r = perform node w i due s in (r.0, outcome_note (due_action w due) (r.1)))

  abbrev pub visit_inspected : Str → S → Result ReapError Worker → S × Note
  visit_inspected w s (err e) = (s, failure_note e)
  visit_inspected w s (ok c) = visit_judged w c.id s (judge readers now w c)

  -- One turn of the loop, at a worker.
  unfoldable pub visit : Str → S → S × Note
  visit w s = visit_inspected w s (node.inspect s w)

  -- The loop over the workers; a context that is done ends it.
  unfoldable pub reap_loop : List Str → S → Reaped S
  reap_loop [] s = nothing_reaped false s
  reap_loop (w ∷ ws) s =
      let turn = visit w s in
      let rest = reap_loop ws (turn.0) in
      if node.is_live s then with_note (turn.1) rest else nothing_reaped true s

  abbrev pub reap_listed : S → Result ReapError (List Str) → S × (List ReapAction × List ReapError)
  reap_listed s (err e) = (s, ([], e ∷ []))
  reap_listed s (ok ws) = let r = reap_loop ws s in (r.state, report r)

  -- Reap: the state, the actions and the errors.
  unfoldable pub reap : S → S × (List ReapAction × List ReapError)
  reap s = reap_listed s (node.list s)
