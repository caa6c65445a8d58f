-- ===== src/Sandbox/Reap/Justified.antt =====
-- Every action that Reap of internal/sandbox/policy.go reports is due.
use sandbox_codex.Common.{
  >>=-eq-ok, All, Bool, Bool-cases, List, Option, Result, Str, [], err, false, inl, inr, is_empty,
  none, not, ok, refl, some, true, ℕ, ◌||◌, ◌∷◌, ◌≡◌,
}
use sandbox_codex.PolicyEvents.{since}
use sandbox_codex.Sandbox.Reap.{
  Due, Node, Note, Readers, ReapAction, ReapError, Reaped, Worker, action_note, bad_time,
  due_action, due_idle, due_lifetime, due_retention, failure_note, judge, no_note, or_fail,
  outcome_note, perform, reap, reap_listed, reap_loop, valid_lifecycle, visit, visit_inspected,
  visit_judged, with_note,
}
use sandbox_codex.Sandbox.Reap.Decisions.{
  IsJustified, judge_running-IsDue, judge_stopped-IsDue, or_fail-some, valid_lifecycle-some,
}

judge-IsJustified :
    (readers : Readers) (now : ℕ) (w : Str) (c : Worker) (due : Due)
    → judge readers now w c ≡ ok (some due)
    → IsJustified readers now c due
unfolding judge
judge-IsJustified readers now w c due e =
    elim (Bool-cases (not c.is_complete || is_empty c.lifecycle)) [
      | inl skipped ↦ cc (rw skipped at e)
      | inr read ↦
          let (p, policy, e₁) =
            >>=-eq-ok (valid_lifecycle w (readers.read_lifecycle c.lifecycle)) _ (rw read at e) in
          let (created, since, e₂) =
            >>=-eq-ok (or_fail bad_time (readers.read_time c.created)) _ e₁ in
          let (decoded, valid) =
            valid_lifecycle-some w (readers.read_lifecycle c.lifecycle) p policy in
          let at_start = or_fail-some bad_time (readers.read_time c.created) created since in
          (
            p,
            decoded,
            valid,
            elim (Bool-cases c.running) [
              | inl running ↦
                  judge_running-IsDue readers now w c p created due at_start running
                    (rw running at e₂)
              | inr stopped ↦ judge_stopped-IsDue readers now w c p due stopped (rw stopped at e₂)
            ],
          )
    ]

module _ {S : Type 0} (node : Node S) (readers : Readers) (now : ℕ) where
  -- The action is that of a worker that was due when it was inspected.
  abbrev pub IsDueAction : ReapAction → Type 0
  IsDueAction a =
      (s : S) × (c : Worker) × (due : Due) × (node.inspect s a.worker ≡ ok c)
      × (a ≡ due_action a.worker due)
      × IsJustified readers now c due

  abbrev OnlyDue : Note → Type 0
  OnlyDue no_note = Unit
  OnlyDue (failure_note e) = Unit
  OnlyDue (action_note a) = IsDueAction a

  due_action-IsDueAction :
      (s : S) (w : Str) (c : Worker) (due : Due)
      → node.inspect s w ≡ ok c
      → IsJustified readers now c due
      → IsDueAction (due_action w due)
  due_action-IsDueAction s w c due_lifetime shown just = (s, c, due_lifetime, shown, refl, just)
  due_action-IsDueAction s w c (due_idle before) shown just =
      (s, c, due_idle before, shown, refl, just)
  due_action-IsDueAction s w c due_retention shown just = (s, c, due_retention, shown, refl, just)

  outcome-OnlyDue :
      (a : ReapAction) (r : Result ReapError Bool) → IsDueAction a → OnlyDue (outcome_note a r)
  outcome-OnlyDue a (ok true) due = due
  outcome-OnlyDue a (ok false) due = tt
  outcome-OnlyDue a (err e) due = tt

  judged-OnlyDue :
      (dry_run : Bool) (s : S) (w : Str) (c : Worker) (r : Result ReapError (Option Due))
      → node.inspect s w ≡ ok c
      → judge readers now w c ≡ r
      → OnlyDue ((visit_judged node readers now dry_run w c.id s r).1)
  judged-OnlyDue dry_run s w c (err e) shown j = tt
  judged-OnlyDue dry_run s w c (ok none) shown j = tt
  judged-OnlyDue true s w c (ok (some due)) shown j =
      due_action-IsDueAction s w c due shown (judge-IsJustified readers now w c due j)
  judged-OnlyDue false s w c (ok (some due)) shown j =
      outcome-OnlyDue (due_action w due) ((perform node w c.id due s).1)
        (due_action-IsDueAction s w c due shown (judge-IsJustified readers now w c due j))

  inspected-OnlyDue :
      (dry_run : Bool) (s : S) (w : Str) (r : Result ReapError Worker)
      → node.inspect s w ≡ r
      → OnlyDue ((visit_inspected node readers now dry_run w s r).1)
  inspected-OnlyDue dry_run s w (err e) shown = tt
  inspected-OnlyDue dry_run s w (ok c) shown =
      judged-OnlyDue dry_run s w c (judge readers now w c) shown refl

  with_note-OnlyDue :
      (note : Note) (r : Reaped S)
      → OnlyDue note
      → All IsDueAction r.actions
      → All IsDueAction (with_note note r).actions
  with_note-OnlyDue no_note r one others = others
  with_note-OnlyDue (failure_note e) r one others = others
  with_note-OnlyDue (action_note a) r one others = (one, others)

  module _ (dry_run : Bool) where
    loop-OnlyDue :
        (ws : List Str) (s : S) → All IsDueAction (reap_loop node readers now dry_run ws s).actions
    unfolding reap_loop visit
    loop-OnlyDue [] s = tt
    loop-OnlyDue (w ∷ ws) s = elim (Bool-cases (node.is_live s)) [
      | inr ended ↦ rw ended tt
      | inl going ↦
          let turn = visit node readers now dry_run w s in
          rw going (
            with_note-OnlyDue (turn.1) (reap_loop node readers now dry_run ws (turn.0))
              (inspected-OnlyDue dry_run s w (node.inspect s w) refl) (loop-OnlyDue ws (turn.0)))
    ]

    listed-OnlyDue :
        (s : S) (l : Result ReapError (List Str))
        → All IsDueAction ((reap_listed node readers now dry_run s l).1).0
    listed-OnlyDue s (err e) = tt
    listed-OnlyDue s (ok ws) = loop-OnlyDue ws s

    -- Every action that Reap reports, in a dry run or not, is that of a worker that was due when
    -- it was inspected: with a valid lifecycle policy, and either running past its lifetime, or
    -- running with no execution and idle past its timeout, or exited past its retention.
    pub reap-IsDueAction : (s : S) → All IsDueAction ((reap node readers now dry_run s).1).0
    unfolding reap
    reap-IsDueAction s = listed-OnlyDue s (node.list s)
