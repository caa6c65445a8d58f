-- ===== src/Engine/Jobs/Samples.antt =====
-- Two jobs on the disk, one of which still runs (internal/engine/jobs.go).
use Prim.Native.Nat.{zero, suc}
use sandbox_codex.Common.{
  List, Str, [], arith, delete, insert, ok, refl, some, str_eq, true, ℕ, ◌∷◌, ◌≡◌,
}
use sandbox_codex.Engine.Jobs.{
  Execution, JobEntry, Jobs, Processes, TaskEntry, ended_job, recover_entries, recover_jobs,
  recover_tasks,
}
use sandbox_codex.Engine.Jobs.Recovery.{recover_jobs-IsSound}
use sandbox_codex.Engine.Jobs.Turns.{IsSound}

abbrev zeros : ℕ → Str
zeros zero = []
zeros (suc n) = b'0' ∷ zeros n

abbrev running_job : Execution
running_job = record {
  id = zeros 64;
  container = zeros 64;
  detached = true;
  running = true;
  exit_code = 0;
}

abbrev lost_job : Execution
lost_job = record running_job { id = b'1' ∷ zeros 63 }

abbrev job_entry : Execution → JobEntry
job_entry e = record { entry_name = e.id; is_dir = true; content = ok e }

abbrev sample_tasks : List TaskEntry
sample_tasks =
    record {
      entry_name = zeros 64;
      is_dir = true;
      jobs = ok (some (job_entry running_job ∷ job_entry lost_job ∷ []));
    }
    ∷ []

-- The task is there; only the process of the first job is.
abbrev sample_processes : Processes
sample_processes = record {
  load = λ c. ok tt;
  has_task = λ c. ok true;
  has_process = λ e. ok (str_eq e.id (zeros 64));
  wait = λ e. ok tt;
}

abbrev no_jobs : Jobs
no_jobs = record { execs = []; saved = []; watched = [] }

jobs_recovered :
    (recover_jobs sample_processes (ok sample_tasks) no_jobs).0.saved ≡ ended_job lost_job ∷ []
unfolding recover_jobs recover_tasks recover_entries insert delete
jobs_recovered = refl

recover_jobs-IsSound_example : IsSound (recover_jobs sample_processes (ok sample_tasks) no_jobs)
recover_jobs-IsSound_example =
    recover_jobs-IsSound sample_processes (ok sample_tasks) no_jobs
      (record { bound = omega arith; own = tt }) tt
