-- ===== src/Sandbox/Reap/Calls.antt =====
-- The calls of Reap (internal/sandbox/policy.go) under the laws of a node whose calls succeed.
-- What the documentation of the node promises: a call about one worker leaves what the inspection
-- of the others shows, and taking the lock of a worker what its own shows; an inspection shows the
-- worker that was asked for. The last law says that every call succeeds.
use sandbox_codex.Common.{
  All, Bool, Bool-cases, List, Result, Str, [], ap, codes, inl, inr, ok, refl, str_eq, subst, sym,
  true, ℕ, ◌∙◌, ◌∷◌, ◌≡◌, ◌≢◌,
}
use sandbox_codex.Sandbox.Reap.{
  Call, Due, Node, ReapError, Worker, after_idle_stop, due_idle, due_lifetime, due_retention,
  idle_stop, join_results, lock_cleanup, perform, release_allocation, release_stopped,
  remove_worker, revoke_token, stop_idle, stop_inspected, stop_locked, stop_worker, subject,
  succeeded, unlock_cleanup,
}

pub record IsReliable {S : Type 0} (node : Node S) : Type 0 where
  pub others :
      (c : Call) (s : S) (v : Str)
      → v ≢ subject c
      → node.inspect ((node.run c s).0) v ≡ node.inspect s v
  pub live : (c : Call) (s : S) → node.is_live ((node.run c s).0) ≡ node.is_live s
  pub locked :
      (i : Str) (s : S) → node.inspect ((node.run (lock_cleanup i) s).0) i ≡ node.inspect s i
  pub named : (s : S) (w : Str) (c : Worker) → node.inspect s w ≡ ok c → c.id ≡ w
  pub succeeds : (c : Call) (s : S) → (node.run c s).1 ≡ ok true

abbrev pub Distinct : List Str → Type 0
Distinct [] = Unit
Distinct (w ∷ ws) = All (λ v. v ≢ w) ws × Distinct ws

module _ {S : Type 0} (node : Node S) (law : IsReliable node) where
  -- From one state to another, only the inspection of the worker may change.
  pub record Keeps (w : Str) (s t : S) : Type 0 where
    pub live : node.is_live t ≡ node.is_live s
    pub others : (v : Str) → v ≢ w → node.inspect t v ≡ node.inspect s v

  pub Keeps-refl : (w : Str) (s : S) → Keeps w s s
  Keeps-refl w s = record { live = refl; others = λ v h. refl }

  Keeps-trans : (w : Str) (s t u : S) → Keeps w s t → Keeps w t u → Keeps w s u
  Keeps-trans w s t u a b = record {
    live = b.live ∙ a.live;
    others = λ v h. b.others v h ∙ a.others v h;
  }

  -- A call that keeps the other workers and succeeds.
  pub record IsDone (w : Str) (s : S) (r : S × Result ReapError Bool) : Type 0 where
    pub keeps : Keeps w s (r.0)
    pub succeeds : r.1 ≡ ok true

  run-IsDone : (c : Call) (w : Str) (s : S) → subject c ≡ w → IsDone w s (node.run c s)
  run-IsDone c w s same = record {
    keeps = record { live = law.live c s; others = λ v h. law.others c s v (λ e. h (e ∙ same)) };
    succeeds = law.succeeds c s;
  }

  then-IsDone :
      (w : Str) (s t : S) (r : S × Result ReapError Bool)
      → Keeps w s t
      → IsDone w t r
      → IsDone w s r
  then-IsDone w s t r k d = record {
    keeps = Keeps-trans w s t (r.0) k d.keeps;
    succeeds = d.succeeds;
  }

  release_stopped-IsDone : (c : Worker) (s : S) → IsDone c.id s (release_stopped node c (ok true) s)
  release_stopped-IsDone c s = elim (Bool-cases (str_eq c.isolation (codes "kata"))) [
    | inr runc ↦ rw runc (record { keeps = Keeps-refl c.id s; succeeds = refl })
    | inl kata ↦
        let call = release_allocation c.allocation c.id in
        let d = run-IsDone call c.id s refl in
        rw kata
          (record { keeps = d.keeps; succeeds = ap (λ r. join_results r (ok true)) d.succeeds })
  ]

  after_idle_stop-IsDone : (c : Worker) (s : S) → IsDone c.id s (after_idle_stop node c (ok true) s)
  unfolding after_idle_stop
  after_idle_stop-IsDone c s =
      let d = run-IsDone (revoke_token c.id) c.id s refl in
      let t = (node.run (revoke_token c.id) s).0 in
      subst (λ r. IsDone c.id s (release_stopped node c r t)) (sym d.succeeds)
        (then-IsDone c.id s t _ d.keeps (release_stopped-IsDone c t))

  stop_inspected-IsDone :
      (c : Worker) (before : ℕ) (s : S) → IsDone c.id s (stop_inspected node c.id before s (ok c))
  stop_inspected-IsDone c before s =
      let d = run-IsDone (idle_stop c.id before) c.id s refl in
      let t = (node.run (idle_stop c.id before) s).0 in
      subst (λ r. IsDone c.id s (after_idle_stop node c r t)) (sym d.succeeds)
        (then-IsDone c.id s t _ d.keeps (after_idle_stop-IsDone c t))

  stop_idle-IsDone :
      (c : Worker) (before : ℕ) (s : S)
      → node.inspect s c.id ≡ ok c
      → IsDone c.id s (stop_idle node c.id before s)
  unfolding stop_idle
  stop_idle-IsDone c before s shown =
      let d = run-IsDone (lock_cleanup c.id) c.id s refl in
      let t = (node.run (lock_cleanup c.id) s).0 in
      let still = law.locked c.id s ∙ shown in
      let stopped = stop_inspected-IsDone c before t in
      let u = (stop_inspected node c.id before t (ok c)).0 in
      let unlocked = run-IsDone (unlock_cleanup c.id) c.id u refl in
      let inner : IsDone c.id s (stop_locked node c.id before (t, ok true)) =
        subst
          (λ r. IsDone c.id s (
            (node.run (unlock_cleanup c.id) ((stop_inspected node c.id before t r).0)).0,
            (stop_inspected node c.id before t r).1,
          ))
          (sym still)
          (record {
            keeps =
                Keeps-trans c.id s t _ d.keeps
                  (Keeps-trans c.id t u _ stopped.keeps unlocked.keeps);
            succeeds = stopped.succeeds;
          }) in
      subst (λ r. IsDone c.id s (stop_locked node c.id before (t, r))) (sym d.succeeds) inner

  succeeded-IsDone :
      (c : Call) (s : S) → IsDone (subject c) s ((node.run c s).0, succeeded ((node.run c s).1))
  succeeded-IsDone c s =
      let d = run-IsDone c (subject c) s refl in
      record { keeps = d.keeps; succeeds = ap succeeded d.succeeds }

  pub perform-IsDone :
      (c : Worker) (due : Due) (s : S)
      → node.inspect s c.id ≡ ok c
      → IsDone c.id s (perform node c.id c.id due s)
  unfolding perform
  perform-IsDone c due_lifetime s shown = succeeded-IsDone (stop_worker c.id) s
  perform-IsDone c (due_idle before) s shown = stop_idle-IsDone c before s shown
  perform-IsDone c due_retention s shown = succeeded-IsDone (remove_worker c.id) s
