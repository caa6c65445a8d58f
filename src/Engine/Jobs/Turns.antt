-- ===== src/Engine/Jobs/Turns.antt =====
-- One execution that recoverJobs of internal/engine/jobs.go enters: it is resumed or has ended.
use sandbox_codex.Common.{
  All, All-delete, All-mono, Any, List, Str, arith, delete, err, false, inl, inr, insert, length,
  length-delete-le, ok, refl, str_eq_refl, true, ◌+◌, ◌<◌, ◌∷◌, ◌≡◌, ◌≤◌,
}
use sandbox_codex.Engine.Jobs.{Execution, Jobs, Recovered, end_job, job_limit, put_job, watch_job}
use sandbox_codex.Engine.Networks.{EngineError}

-- At most the limit of executions, each under its own ID and a background job.
pub record IsWithinLimit (st : Jobs) : Type 0 where
  pub bound : length st.execs ≤ job_limit
  pub own : All (λ p. (p.0 ≡ p.1.id) × (p.1.detached ≡ true)) st.execs

-- Every execution that runs is watched.
abbrev pub IsWatched : Jobs → Type 0
IsWatched st = All (λ p. p.1.running ≡ true → Any (λ w. w ≡ p.0) st.watched) st.execs

-- What holds of a result: the bound always, and the rest when there is no error.
pub record IsSound (r : Recovered) : Type 0 where
  pub bounded : IsWithinLimit (r.0)
  pub watched : r.1 ≡ ok tt → IsWatched (r.0)

All-insert :
    {V : Type 0} (P : Str × V → Type 0) (k : Str) (v : V) (m : List (Str × V))
    → P (k, v)
    → All P m
    → All P (insert k v m)
unfolding insert
All-insert P k v m one others = (one, All-delete P k m others)

All-delete-insert :
    {V : Type 0} (P : Str × V → Type 0) (k : Str) (v : V) (m : List (Str × V))
    → All P m
    → All P (delete k (insert k v m))
unfolding insert delete
All-delete-insert P k v m others =
    rw (str_eq_refl k) (All-delete P k (delete k m) (All-delete P k m others))

length-insert-le :
    {V : Type 0} (k : Str) (v : V) (m : List (Str × V)) → length (insert k v m) ≤ length m + 1
unfolding insert
length-insert-le k v m = let shorter = length-delete-le k m in omega arith

length-delete-insert :
    {V : Type 0} (k : Str) (v : V) (m : List (Str × V))
    → length (delete k (insert k v m)) ≤ length m
unfolding insert delete
length-delete-insert k v m =
    let once = length-delete-le k m in
    let twice = length-delete-le k (delete k m) in rw (str_eq_refl k) (omega arith)

-- The state before the execution is entered leaves room for it.
pub record HasRoom (e : Execution) (st : Jobs) : Type 0 where
  pub bounded : IsWithinLimit st
  pub room : length st.execs < job_limit
  pub watched : IsWatched st
  pub detached : e.detached ≡ true

put_job-IsWithinLimit : (e : Execution) (st : Jobs) → HasRoom e st → IsWithinLimit (put_job e st)
put_job-IsWithinLimit e st h =
    let longer = length-insert-le e.id e st.execs in
    let room = h.room in
    record {
      bound = omega arith;
      own =
          All-insert (λ p. (p.0 ≡ p.1.id) × (p.1.detached ≡ true)) e.id e st.execs
            (refl, h.detached) h.bounded.own;
    }

pub end_job-IsSound :
    (e : Execution) (st : Jobs) → HasRoom e st → IsSound (end_job e (put_job e st), ok tt)
unfolding insert
end_job-IsSound e st h =
    let shorter = length-delete-insert e.id e st.execs in
    let room = h.room in
    record {
      bounded = record {
        bound = omega arith;
        own = (
          (refl, h.detached),
          All-delete-insert (λ p. (p.0 ≡ p.1.id) × (p.1.detached ≡ true)) e.id e st.execs
              h.bounded.own,
        );
      };
      watched = λ _. (
        (λ running. cc running),
        All-delete-insert (λ p. p.1.running ≡ true → Any (λ w. w ≡ p.0) st.watched) e.id e st.execs
            h.watched,
      );
    }

-- An error after the execution is entered.
pub failed-IsSound :
    (e : Execution) (st : Jobs) (x : EngineError) → HasRoom e st → IsSound (put_job e st, err x)
failed-IsSound e st x h = record {
  bounded = put_job-IsWithinLimit e st h;
  watched = λ ended. cc ended;
}

-- An execution that does not run needs no watcher.
pub idle-IsSound :
    (e : Execution) (st : Jobs) → HasRoom e st → e.running ≡ false → IsSound (put_job e st, ok tt)
idle-IsSound e st h idle = record {
  bounded = put_job-IsWithinLimit e st h;
  watched = λ _.
      All-insert (λ p. p.1.running ≡ true → Any (λ w. w ≡ p.0) st.watched) e.id e st.execs
        (λ running. cc (idle, running)) h.watched;
}

pub watch_job-IsSound :
    (e : Execution) (st : Jobs) → HasRoom e st → IsSound (watch_job e (put_job e st), ok tt)
watch_job-IsSound e st h =
    let bounded = put_job-IsWithinLimit e st h in
    record {
      bounded = record { bound = bounded.bound; own = bounded.own };
      watched = λ _.
          All-insert (λ p. p.1.running ≡ true → Any (λ w. w ≡ p.0) (e.id ∷ st.watched)) e.id e
            st.execs (λ running. inl refl)
            (All-mono (λ p. p.1.running ≡ true → Any (λ w. w ≡ p.0) st.watched)
              (λ p. p.1.running ≡ true → Any (λ w. w ≡ p.0) (e.id ∷ st.watched))
              (λ p seen running. inr (seen running)) st.execs h.watched);
    }
