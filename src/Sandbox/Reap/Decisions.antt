-- ===== src/Sandbox/Reap/Decisions.antt =====
-- What Reap of internal/sandbox/policy.go decides, and that it acts on nothing else.
use sandbox_codex.Common.{
  &&-eq-true, ==_iff, >>=-eq-ok, Bool-cases, Option, Str, ap, arith, codes, ensure, false, inl, inr,
  is_empty, negsuc, none, not, ok, pos, refl, some, str_eq, str_eq_iff, subst, true, ℕ, ℤ, ◌&&◌,
  ◌+◌, ◌<◌, ◌==◌, ◌∙◌, ◌≡◌, ◌≤◌,
}
use sandbox_codex.PolicyEvents.{since}
use sandbox_codex.Sandbox.Reap.{
  Due, Lifecycle, Readers, ReapError, Worker, back, bad_time, due_idle, due_lifetime, due_retention,
  has_passed, is_set, judge_idle, judge_running, judge_stopped, natural, no_activity, no_executions,
  or_fail, valid_lifecycle, validate_lifecycle,
}
use sandbox_codex.WorkerEgress.Arguments.{atoi}

-- A positive duration has passed since an instant.
abbrev pub HasElapsed : ℤ → ℕ → ℕ → Type 0
HasElapsed d start now = (n : ℕ) × (d ≡ pos n) × (0 < n) × (start + n ≤ now)

module _ (readers : Readers) (now : ℕ) (c : Worker) (p : Lifecycle) where
  -- When a worker is due under a policy: running for longer than its lifetime, or running without
  -- an execution and idle for longer than its timeout, or exited for longer than its retention.
  abbrev pub IsDue : Due → Type 0
  IsDue due_lifetime =
      (c.running ≡ true)
      × (created : ℕ) × (readers.read_time c.created ≡ some created)
      × HasElapsed p.max_lifetime created now
  IsDue (due_idle before) =
      (c.running ≡ true)
      × (active : ℕ) × (readers.read_time c.last_activity ≡ some active)
      × (atoi c.active_executions ≡ some (pos 0))
      × HasElapsed p.idle_timeout active now
  IsDue due_retention =
      (c.running ≡ false)
      × (c.status ≡ codes "exited")
      × (finished : ℕ) × (readers.read_time c.finished_at ≡ some finished)
      × HasElapsed p.retention finished now

-- The worker has a lifecycle policy that is valid, and is due under it.
abbrev pub IsJustified : Readers → ℕ → Worker → Due → Type 0
IsJustified readers now c due =
    (p : Lifecycle) × (readers.read_lifecycle c.lifecycle ≡ some p)
    × (validate_lifecycle p ≡ true)
    × IsDue readers now c p due

has_passed-HasElapsed :
    (d : ℤ) (start now : ℕ) → has_passed d start now ≡ true → HasElapsed d start now
has_passed-HasElapsed (negsuc n) start now e = cc e
has_passed-HasElapsed (pos n) start now e = (n, refl, ground arith, ground arith)

pub or_fail-some :
    {A : Type 0} (e : ReapError) (o : Option A) (a : A) → or_fail e o ≡ ok a → o ≡ some a
or_fail-some e none a h = cc h
or_fail-some e (some b) a h = ap some (cc h)

natural-some : (o : Option ℤ) (n : ℕ) → natural o ≡ some n → o ≡ some (pos n)
natural-some none n e = cc e
natural-some (some (negsuc m)) n e = cc e
natural-some (some (pos m)) n e = ap some (ap pos (cc e))

pub valid_lifecycle-some :
    (w : Str) (o : Option Lifecycle) (p : Lifecycle)
    → valid_lifecycle w o ≡ ok p
    → (o ≡ some p) × (validate_lifecycle p ≡ true)
valid_lifecycle-some w none p e = cc e
valid_lifecycle-some w (some q) p e = elim (Bool-cases (validate_lifecycle q)) [
  | inr bad ↦ cc (rw bad at e)
  | inl good ↦
      let same : q ≡ p = cc (rw good at e) in
      (ap some same, subst (λ k. validate_lifecycle k ≡ true) same good)
]

module _ (readers : Readers) (now : ℕ) (w : Str) (c : Worker) (p : Lifecycle) where
  judge_idle-IsDue :
      (due : Due)
      → c.running ≡ true
      → judge_idle readers now w c p ≡ ok (some due)
      → IsDue readers now c p due
  judge_idle-IsDue due running e =
      let (_, _, e₁) = >>=-eq-ok (ensure (not (is_empty c.last_activity)) (no_activity w)) _ e in
      let (active, at_active, e₂) =
        >>=-eq-ok (or_fail bad_time (readers.read_time c.last_activity)) _ e₁ in
      let (count, counted, e₃) =
        >>=-eq-ok (or_fail (no_executions w) (natural (atoi c.active_executions))) _ e₂ in
      elim (Bool-cases (count == 0)) [
        | inr busy ↦ cc (rw busy at e₃)
        | inl free ↦ elim (Bool-cases (has_passed p.idle_timeout active now)) [
          | inr early ↦ cc (rw (free, early) at e₃)
          | inl passed ↦
              let same : due_idle (back p.idle_timeout now) ≡ due = cc (rw (free, passed) at e₃) in
              let none_left = (==_iff count 0).0 free in
              let parsed =
                natural-some (atoi c.active_executions) count
                  (or_fail-some (no_executions w) _ count counted) in
              subst (IsDue readers now c p) same (
                running,
                active,
                or_fail-some bad_time (readers.read_time c.last_activity) active at_active,
                parsed ∙ ap some (ap pos none_left),
                has_passed-HasElapsed p.idle_timeout active now passed,
              )
        ]
      ]

  pub judge_running-IsDue :
      (created : ℕ) (due : Due)
      → readers.read_time c.created ≡ some created
      → c.running ≡ true
      → judge_running readers now w c p created ≡ ok (some due)
      → IsDue readers now c p due
  judge_running-IsDue created due since running e =
      elim (Bool-cases (has_passed p.max_lifetime created now)) [
        | inl passed ↦
            let same : due_lifetime ≡ due = cc (rw passed at e) in
            subst (IsDue readers now c p) same
              (running, created, since, has_passed-HasElapsed p.max_lifetime created now passed)
        | inr early ↦ elim (Bool-cases (is_set p.idle_timeout)) [
          | inr unset ↦ cc (rw (early, unset) at e)
          | inl timed ↦ judge_idle-IsDue due running (rw (early, timed) at e)
        ]
      ]

  pub judge_stopped-IsDue :
      (due : Due)
      → c.running ≡ false
      → judge_stopped readers now w c p ≡ ok (some due)
      → IsDue readers now c p due
  judge_stopped-IsDue due stopped e =
      elim (Bool-cases (str_eq c.status (codes "exited") && is_set p.retention)) [
        | inr other ↦ cc (rw other at e)
        | inl ended ↦
            let (exited, _) =
              &&-eq-true (str_eq c.status (codes "exited")) (is_set p.retention) ended in
            let (finished, at_finish, e₁) =
              >>=-eq-ok (or_fail bad_time (readers.read_time c.finished_at)) _ (rw ended at e) in
            elim (Bool-cases (has_passed p.retention finished now)) [
              | inr early ↦ cc (rw early at e₁)
              | inl passed ↦
                  let same : due_retention ≡ due = cc (rw passed at e₁) in
                  subst (IsDue readers now c p) same (
                    stopped,
                    (str_eq_iff c.status (codes "exited")).0 exited,
                    finished,
                    or_fail-some bad_time (readers.read_time c.finished_at) finished at_finish,
                    has_passed-HasElapsed p.retention finished now passed,
                  )
            ]
      ]
