-- ===== src/Engine/Jobs/Recovery.antt =====
-- What recoverJobs of internal/engine/jobs.go has recovered when it returns.
use sandbox_codex.Common.{
  &&-eq-true, Bool, List, Option, Result, Str, [], arith, err, false, leb, length, none, ok, refl,
  some, str_eq, true, ◌&&◌, ◌∷◌, ◌≡◌,
}
use sandbox_codex.Engine.Jobs.{
  Execution, JobEntry, Jobs, Processes, Recovered, TaskEntry, admit_job, after_load, after_process,
  after_task, after_wait, check_job, is_own, job_limit, next_entries, put_job, read_job, read_jobs,
  recover_entries, recover_jobs, recover_tasks, resume, visit_job, visit_task,
}
use sandbox_codex.Engine.Jobs.Turns.{
  HasRoom, IsSound, IsWatched, IsWithinLimit, end_job-IsSound, failed-IsSound, idle-IsSound,
  watch_job-IsSound,
}
use sandbox_codex.Engine.Networks.{EngineError, bad_job, is_hex_id, too_many_jobs}

module _ (env : Processes) where
  module _ (e : Execution) (st : Jobs) (h : HasRoom e st) where
    after_wait-IsSound :
        (r : Result EngineError (Unit {0})) → IsSound (after_wait env r e (put_job e st))
    after_wait-IsSound (err x) = failed-IsSound e st x h
    after_wait-IsSound (ok _) = watch_job-IsSound e st h

    after_process-IsSound :
        (r : Result EngineError Bool) → IsSound (after_process env r e (put_job e st))
    after_process-IsSound (err x) = failed-IsSound e st x h
    after_process-IsSound (ok false) = end_job-IsSound e st h
    after_process-IsSound (ok true) = after_wait-IsSound (env.wait e)

    after_task-IsSound : (r : Result EngineError Bool) → IsSound (after_task env r e (put_job e st))
    after_task-IsSound (err x) = failed-IsSound e st x h
    after_task-IsSound (ok false) = end_job-IsSound e st h
    after_task-IsSound (ok true) = after_process-IsSound (env.has_process e)

    after_load-IsSound :
        (r : Result EngineError (Unit {0})) → IsSound (after_load env r e (put_job e st))
    after_load-IsSound (err x) = failed-IsSound e st x h
    after_load-IsSound (ok _) = after_task-IsSound (env.has_task e.container)

    resume-IsSound : (b : Bool) → e.running ≡ b → IsSound (resume env b e (put_job e st))
    resume-IsSound false idle = idle-IsSound e st h idle
    resume-IsSound true running = after_load-IsSound (env.load e.container)

  -- A turn of a loop, from a state that is sound.
  kept-IsSound :
      (st : Jobs) (r : Result EngineError (Unit {0}))
      → IsWithinLimit st
      → IsWatched st
      → IsSound (st, r)
  kept-IsSound st r bounded watched = record { bounded = bounded; watched = λ _. watched }

  module _ (st : Jobs) (bounded : IsWithinLimit st) (watched : IsWatched st) where
    check_job-IsSound :
        (b : Bool) (container name : Str) (e : Execution)
        → is_own env container name e ≡ b
        → IsSound (check_job env b e st)
    check_job-IsSound false container name e own = kept-IsSound st (err bad_job) bounded watched
    check_job-IsSound true container name e own = of_limit (leb job_limit (length st.execs)) refl
      where
        is_detached : e.detached ≡ true
        is_detached =
            let (_, rest) = &&-eq-true (str_eq e.id name) _ own in
            (&&-eq-true (str_eq e.container container) e.detached rest).1

        of_limit :
            (full : Bool)
            → leb job_limit (length st.execs) ≡ full
            → IsSound (admit_job env full e st)
        of_limit true limit = kept-IsSound st (err too_many_jobs) bounded watched
        of_limit false limit =
            resume-IsSound e st
              (record {
                bounded = bounded;
                room = ground arith;
                watched = watched;
                detached = is_detached;
              })
              e.running refl

    read_job-IsSound :
        (container name : Str) (r : Result EngineError Execution)
        → IsSound (read_job env container name r st)
    read_job-IsSound container name (err x) = kept-IsSound st (err x) bounded watched
    read_job-IsSound container name (ok e) =
        check_job-IsSound (is_own env container name e) container name e refl

    visit_job-IsSound :
        (b : Bool) (container : Str) (j : JobEntry) → IsSound (visit_job env b container j st)
    visit_job-IsSound false container j = kept-IsSound st (ok tt) bounded watched
    visit_job-IsSound true container j = read_job-IsSound container j.entry_name j.content

  -- The rest of a loop runs only from a sound state without an error.
  next_entries-IsSound :
      (o : Result EngineError (Unit {0})) (st : Jobs) (rest : Recovered)
      → IsSound (st, o)
      → (IsWatched st → IsSound rest)
      → IsSound (next_entries env o st rest)
  next_entries-IsSound (err x) st rest s later = record {
    bounded = s.bounded;
    watched = λ ended. cc ended;
  }
  next_entries-IsSound (ok _) st rest s later = later (s.watched refl)

  recover_entries-IsSound :
      (container : Str) (js : List JobEntry) (st : Jobs)
      → IsWithinLimit st
      → IsWatched st
      → IsSound (recover_entries env container js st)
  unfolding recover_entries
  recover_entries-IsSound container [] st bounded watched = kept-IsSound st (ok tt) bounded watched
  recover_entries-IsSound container (j ∷ js) st bounded watched =
      let r = visit_job env (j.is_dir && is_hex_id j.entry_name) container j st in
      let s =
        visit_job-IsSound st bounded watched (j.is_dir && is_hex_id j.entry_name) container j in
      next_entries-IsSound (r.1) (r.0) (recover_entries env container js (r.0)) s
        (λ w. recover_entries-IsSound container js (r.0) s.bounded w)

  visit_task-IsSound :
      (b : Bool) (t : TaskEntry) (st : Jobs)
      → IsWithinLimit st
      → IsWatched st
      → IsSound (visit_task env b t st)
  visit_task-IsSound false t st bounded watched = kept-IsSound st (ok tt) bounded watched
  visit_task-IsSound true t st bounded watched = of_jobs t.jobs
    where
      of_jobs :
          (r : Result EngineError (Option (List JobEntry)))
          → IsSound (read_jobs env t.entry_name r st)
      of_jobs (err x) = kept-IsSound st (err x) bounded watched
      of_jobs (ok none) = kept-IsSound st (ok tt) bounded watched
      of_jobs (ok (some js)) = recover_entries-IsSound t.entry_name js st bounded watched

  recover_tasks-IsSound :
      (ts : List TaskEntry) (st : Jobs)
      → IsWithinLimit st
      → IsWatched st
      → IsSound (recover_tasks env ts st)
  unfolding recover_tasks
  recover_tasks-IsSound [] st bounded watched = kept-IsSound st (ok tt) bounded watched
  recover_tasks-IsSound (t ∷ ts) st bounded watched =
      let r = visit_task env (t.is_dir && is_hex_id t.entry_name) t st in
      let s = visit_task-IsSound (t.is_dir && is_hex_id t.entry_name) t st bounded watched in
      next_entries-IsSound (r.1) (r.0) (recover_tasks env ts (r.0)) s
        (λ w. recover_tasks-IsSound ts (r.0) s.bounded w)

-- From a state with at most 4096 executions, each under its own ID, a background job, and watched
-- if it runs: whatever the disk holds and the daemon answers, recoverJobs leaves at most 4096
-- executions, each under its own ID and a background job; and when it returns without an error,
-- every execution that still counts as running is watched.
pub recover_jobs-IsSound :
    (env : Processes) (tasks : Result EngineError (List TaskEntry)) (st : Jobs)
    → IsWithinLimit st
    → IsWatched st
    → IsSound (recover_jobs env tasks st)
unfolding recover_jobs
recover_jobs-IsSound env (err x) st bounded watched = kept-IsSound env st (err x) bounded watched
recover_jobs-IsSound env (ok ts) st bounded watched =
    recover_tasks-IsSound env ts st bounded watched
