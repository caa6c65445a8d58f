-- ===== src/Engine/Jobs.antt =====
-- recoverJobs of internal/engine/jobs.go: the background jobs after a restart of the node.
pub mod Turns
pub mod Recovery
pub mod Samples
use sandbox_codex.Common.{
  Bool, List, Option, Result, Str, [], err, false, insert, leb, length, none, ok, some, str_eq,
  true, ℕ, ◌&&◌, ◌∷◌,
}
use sandbox_codex.Engine.Networks.{EngineError, bad_job, is_hex_id, too_many_jobs}

-- execution, with the fields that recoverJobs reads and writes
pub record Execution : Type 0 where
  pub id : Str
  pub container : Str
  pub detached : Bool
  pub running : Bool
  pub exit_code : ℕ

-- An entry of the directory of a container's jobs, with what its job.json decodes to.
pub record JobEntry : Type 0 where
  pub entry_name : Str
  pub is_dir : Bool
  pub content : Result EngineError Execution

-- An entry of the directory of tasks, with the jobs in it, if there is a directory of them.
pub record TaskEntry : Type 0 where
  pub entry_name : Str
  pub is_dir : Bool
  pub jobs : Result EngineError (Option (List JobEntry))

-- What the daemon answers about a container, its task and a process in it: false says that it is
-- not found.
pub record Processes : Type 0 where
  pub load : Str → Result EngineError (Unit {0})
  pub has_task : Str → Result EngineError Bool
  pub has_process : Execution → Result EngineError Bool
  pub wait : Execution → Result EngineError (Unit {0})

-- The executions by their IDs, those saved again, and the IDs of those that are watched.
pub record Jobs : Type 0 where
  pub execs : List (Str × Execution)
  pub saved : List Execution
  pub watched : List Str

abbrev pub job_limit : ℕ
job_limit = 4096

abbrev pub Recovered : Type 0
Recovered = Jobs × Result EngineError (Unit {0})

-- `b.execs[e.ID] = &e`
abbrev pub put_job : Execution → Jobs → Jobs
put_job e st = record st { execs = insert e.id e st.execs }

-- A job whose process is gone has ended with 125.
abbrev pub ended_job : Execution → Execution
ended_job e = record e { running = false; exit_code = 125 }

abbrev pub end_job : Execution → Jobs → Jobs
end_job e st = record (put_job (ended_job e) st) { saved = ended_job e ∷ st.saved }

abbrev pub watch_job : Execution → Jobs → Jobs
watch_job e st = record st { watched = e.id ∷ st.watched }

module _ (env : Processes) where
  abbrev pub after_wait : Result EngineError (Unit {0}) → Execution → Jobs → Recovered
  after_wait (err x) e st = (st, err x)
  after_wait (ok _) e st = (watch_job e st, ok tt)

  abbrev pub after_process : Result EngineError Bool → Execution → Jobs → Recovered
  after_process (err x) e st = (st, err x)
  after_process (ok false) e st = (end_job e st, ok tt)
  after_process (ok true) e st = after_wait (env.wait e) e st

  abbrev pub after_task : Result EngineError Bool → Execution → Jobs → Recovered
  after_task (err x) e st = (st, err x)
  after_task (ok false) e st = (end_job e st, ok tt)
  after_task (ok true) e st = after_process (env.has_process e) e st

  abbrev pub after_load : Result EngineError (Unit {0}) → Execution → Jobs → Recovered
  after_load (err x) e st = (st, err x)
  after_load (ok _) e st = after_task (env.has_task e.container) e st

  -- A job that was running is watched again, or has ended.
  abbrev pub resume : Bool → Execution → Jobs → Recovered
  resume false e st = (st, ok tt)
  resume true e st = after_load (env.load e.container) e st

  abbrev pub admit_job : Bool → Execution → Jobs → Recovered
  admit_job true e st = (st, err too_many_jobs)
  admit_job false e st = resume e.running e (put_job e st)

  abbrev pub is_own : Str → Str → Execution → Bool
  is_own container name e = str_eq e.id name && (str_eq e.container container && e.detached)

  abbrev pub check_job : Bool → Execution → Jobs → Recovered
  check_job false e st = (st, err bad_job)
  check_job true e st = admit_job (leb job_limit (length st.execs)) e st

  abbrev pub read_job : Str → Str → Result EngineError Execution → Jobs → Recovered
  read_job container name (err x) st = (st, err x)
  read_job container name (ok e) st = check_job (is_own container name e) e st

  abbrev pub visit_job : Bool → Str → JobEntry → Jobs → Recovered
  visit_job false container j st = (st, ok tt)
  visit_job true container j st = read_job container j.entry_name j.content st

  -- The first error ends the loops.
  abbrev pub next_entries : Result EngineError (Unit {0}) → Jobs → Recovered → Recovered
  next_entries (err x) st rest = (st, err x)
  next_entries (ok _) st rest = rest

  -- The loop over the jobs of a container.
  unfoldable pub recover_entries : Str → List JobEntry → Jobs → Recovered
  recover_entries container [] st = (st, ok tt)
  recover_entries container (j ∷ js) st =
      let r = visit_job (j.is_dir && is_hex_id j.entry_name) container j st in
      let rest = recover_entries container js (r.0) in next_entries (r.1) (r.0) rest

  abbrev pub read_jobs : Str → Result EngineError (Option (List JobEntry)) → Jobs → Recovered
  read_jobs container (err x) st = (st, err x)
  read_jobs container (ok none) st = (st, ok tt)
  read_jobs container (ok (some js)) st = recover_entries container js st

  abbrev pub visit_task : Bool → TaskEntry → Jobs → Recovered
  visit_task false t st = (st, ok tt)
  visit_task true t st = read_jobs t.entry_name t.jobs st

  -- The loop over the tasks.
  unfoldable pub recover_tasks : List TaskEntry → Jobs → Recovered
  recover_tasks [] st = (st, ok tt)
  recover_tasks (t ∷ ts) st =
      let r = visit_task (t.is_dir && is_hex_id t.entry_name) t st in
      let rest = recover_tasks ts (r.0) in next_entries (r.1) (r.0) rest

  abbrev pub recover_read : Result EngineError (List TaskEntry) → Jobs → Recovered
  recover_read (err x) st = (st, err x)
  recover_read (ok ts) st = recover_tasks ts st

  -- recoverJobs, from the entries of the directory of tasks
  unfoldable pub recover_jobs : Result EngineError (List TaskEntry) → Jobs → Recovered
  recover_jobs tasks st = recover_read tasks st
