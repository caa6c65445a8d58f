-- ===== src/Sandbox/Reap/Samples.antt =====
-- A node that counts its calls, and a run of Reap (internal/sandbox/policy.go) on it.
use sandbox_codex.Common.{
  All, Result, Str, [], ap, codes, false, length, ok, pos, refl, some, str_eq, str_eq_iff, sym,
  true, ℕ, ◌+◌, ◌∷◌, ◌≡◌, ◌≢◌,
}
use sandbox_codex.Sandbox.Reap.{
  Lifecycle, Node, Readers, ReapError, Worker, after_idle_stop, due_action, due_idle, judge,
  perform, reap, reap_loop, stop_idle, visit,
}
use sandbox_codex.Sandbox.Reap.Calls.{IsReliable}
use sandbox_codex.Sandbox.Reap.DryRun.{reap_dry_run}
use sandbox_codex.Sandbox.Reap.Justified.{IsDueAction, reap-IsDueAction}
use sandbox_codex.WorkerEgress.Arguments.{atoi}

abbrev idle_worker : Str → Worker
idle_worker w = record {
  id = w;
  is_complete = true;
  lifecycle = codes "{}";
  last_activity = codes "1";
  active_executions = codes "0";
  isolation = codes "kata";
  allocation = [];
  created = codes "0";
  running = true;
  status = codes "running";
  finished_at = [];
}

abbrev counting_node : Node ℕ
counting_node = record {
  is_live = λ s. true;
  list = λ s. ok (codes "a" ∷ codes "b" ∷ []);
  inspect = λ s w. ok (idle_worker w);
  run = λ c s. (s + 1, ok true);
}

abbrev short_idle : Lifecycle
short_idle = record { max_lifetime = pos 0; idle_timeout = pos 5; retention = pos 0 }

abbrev sample_readers : Readers
sample_readers = record { read_lifecycle = λ s. some short_idle; read_time = λ s. some (length s) }

same_id :
    (w : Str) (c : Worker) → Path (Result ReapError Worker) (ok (idle_worker w)) (ok c) → c.id ≡ w
same_id w c e = let same : idle_worker w ≡ c = cc e in sym (ap (λ k. k.id) same)

counting_node-IsReliable : IsReliable counting_node
counting_node-IsReliable = record {
  others = λ c s v h. refl;
  live = λ c s. refl;
  locked = λ i s. refl;
  named = λ s w c e. same_id w c e;
  succeeds = λ c s. refl;
}

-- Both idle workers are stopped, by five calls each.
idle_workers_stop :
    reap counting_node sample_readers 10 false 0
    ≡ (10, (due_action (codes "a") (due_idle 5) ∷ due_action (codes "b") (due_idle 5) ∷ [], []))
unfolding reap reap_loop visit judge perform stop_idle after_idle_stop atoi
idle_workers_stop = refl

b_not_a : codes "b" ≢ codes "a"
b_not_a e =
    let differ : str_eq (codes "b") (codes "a") ≡ true = (str_eq_iff (codes "b") (codes "a")).1 e in
    cc differ

reap_dry_run_example :
    ((reap counting_node sample_readers 10 true 0).0 ≡ 0)
    × ((reap counting_node sample_readers 10 false 0).1
        ≡ (reap counting_node sample_readers 10 true 0).1)
reap_dry_run_example =
    reap_dry_run counting_node sample_readers 10 0 (codes "a" ∷ codes "b" ∷ [])
      counting_node-IsReliable refl ((b_not_a, tt), (tt, tt))

reap-IsDueAction_example :
    All
      (IsDueAction counting_node sample_readers 10)
      ((reap counting_node sample_readers 10 false 0).1).0
reap-IsDueAction_example = reap-IsDueAction counting_node sample_readers 10 false 0
