-- ===== src/Sandbox/Reap/DryRun.antt =====
-- A dry run of Reap (internal/sandbox/policy.go) against the run that it announces.
-- The two runs report the same.
use sandbox_codex.Common.{
  All, All-zip, Bool-cases, List, Option, Result, Result-cases, Str, [], ap, err, false, inl, inr,
  none, ok, refl, some, subst, sym, true, ℕ, ◌∙◌, ◌∷◌, ◌≡◌, ◌≢◌,
}
use sandbox_codex.Sandbox.Reap.{
  Due, Node, Note, Readers, ReapError, Reaped, Worker, action_note, due_action, failure_note, judge,
  no_note, outcome_note, reap, reap_listed, reap_loop, report, visit, visit_inspected, visit_judged,
  with_note,
}
use sandbox_codex.Sandbox.Reap.Calls.{Distinct, IsReliable, Keeps, Keeps-refl, perform-IsDone}

pub record SameReport {S : Type 0} (a b : Reaped S) : Type 0 where
  pub actions : a.actions ≡ b.actions
  pub failures : a.failures ≡ b.failures
  pub was_cancelled : a.was_cancelled ≡ b.was_cancelled

module _ {S : Type 0} where
  with_note-SameReport :
      (note : Note) (a b : Reaped S)
      → SameReport a b
      → SameReport (with_note note a) (with_note note b)
  with_note-SameReport no_note a b same = same
  with_note-SameReport (failure_note e) a b same = record {
    actions = same.actions;
    failures = ap (λ fs. e ∷ fs) same.failures;
    was_cancelled = same.was_cancelled;
  }
  with_note-SameReport (action_note x) a b same = record {
    actions = ap (λ xs. x ∷ xs) same.actions;
    failures = same.failures;
    was_cancelled = same.was_cancelled;
  }

  with_note_state : (note : Note) (a : Reaped S) → (with_note note a).state ≡ a.state
  with_note_state no_note a = refl
  with_note_state (failure_note e) a = refl
  with_note_state (action_note x) a = refl

module _ {S : Type 0} (node : Node S) (law : IsReliable node) (readers : Readers) (now : ℕ) where
  -- The turn of a dry run leaves the state.
  dry_visit_state : (w : Str) (s : S) → (visit node readers now true w s).0 ≡ s
  unfolding visit
  dry_visit_state w s = of_inspected (node.inspect s w)
    where
      of_judged :
          (i : Str) (r : Result ReapError (Option Due))
          → (visit_judged node readers now true w i s r).0 ≡ s
      of_judged i (err e) = refl
      of_judged i (ok none) = refl
      of_judged i (ok (some due)) = refl

      of_inspected :
          (r : Result ReapError Worker) → (visit_inspected node readers now true w s r).0 ≡ s
      of_inspected (err e) = refl
      of_inspected (ok c) = of_judged c.id (judge readers now w c)

  -- The turn of a real run notes what that of a dry run does, and keeps the other workers.
  record Matches (w : Str) (s : S) (turn dry_turn : S × Note) : Type 0 where
    keeps : Keeps node law w s (turn.0)
    note : turn.1 ≡ dry_turn.1

  judged-Matches :
      (c : Worker) (s t : S) (r : Result ReapError (Option Due))
      → node.inspect s c.id ≡ ok c
      → Matches c.id s
          (visit_judged node readers now false c.id c.id s r)
          (visit_judged node readers now true c.id c.id t r)
  judged-Matches c s t (err e) shown = record { keeps = Keeps-refl node law c.id s; note = refl }
  judged-Matches c s t (ok none) shown = record { keeps = Keeps-refl node law c.id s; note = refl }
  judged-Matches c s t (ok (some due)) shown =
      let d = perform-IsDone node law c due s shown in
      record { keeps = d.keeps; note = ap (outcome_note (due_action c.id due)) d.succeeds }

  visit-Matches :
      (w : Str) (s t : S)
      → node.inspect s w ≡ node.inspect t w
      → Matches w s (visit node readers now false w s) (visit node readers now true w t)
  unfolding visit
  visit-Matches w s t same = elim (Result-cases (node.inspect s w)) [
    | inr (e, failed) ↦
        subst
          (λ r.
            Matches w s (visit_inspected node readers now false w s r)
              (visit_inspected node readers now true w t (node.inspect t w)))
          (sym failed)
          (subst
            (λ r. Matches w s (s, failure_note e) (visit_inspected node readers now true w t r))
            (sym failed ∙ same) (record { keeps = Keeps-refl node law w s; note = refl }))
    | inl (c, shown) ↦
        let name = law.named s w c shown in
        let at_id = subst (λ i. node.inspect s i ≡ ok c) (sym name) shown in
        let matched =
          subst
            (λ i.
              Matches i s (visit_judged node readers now false i c.id s (judge readers now i c))
                (visit_judged node readers now true i c.id t (judge readers now i c)))
            name (judged-Matches c s t (judge readers now c.id c) at_id) in
        subst
          (λ r.
            Matches w s (visit_inspected node readers now false w s r)
              (visit_inspected node readers now true w t (node.inspect t w)))
          (sym shown)
          (subst
            (λ r.
              Matches w s (visit_judged node readers now false w c.id s (judge readers now w c))
                (visit_inspected node readers now true w t r))
            (sym shown ∙ same) matched)
  ]

  -- Both runs see the same of the workers that are left.
  record Agrees (ws : List Str) (s t : S) : Type 0 where
    live : node.is_live s ≡ node.is_live t
    shown : All (λ v. node.inspect s v ≡ node.inspect t v) ws

  Agrees-next :
      (w : Str) (ws : List Str) (s t : S)
      → All (λ v. v ≢ w) ws
      → Agrees (w ∷ ws) s t
      → Agrees ws ((visit node readers now false w s).0) ((visit node readers now true w t).0)
  Agrees-next w ws s t new same =
      let m = visit-Matches w s t (same.shown.0) in
      let kept = dry_visit_state w t in
      record {
        live = m.keeps.live ∙ same.live ∙ ap node.is_live (sym kept);
        shown =
            All-zip (λ v. v ≢ w) (λ v. node.inspect s v ≡ node.inspect t v) _
              (λ x other equal.
                m.keeps.others x other ∙ equal ∙ ap (λ k. node.inspect k x) (sym kept))
              ws new (same.shown.1);
      }

  reap_loop-SameReport :
      (ws : List Str) (s t : S)
      → Distinct ws
      → Agrees ws s t
      → SameReport (reap_loop node readers now false ws s) (reap_loop node readers now true ws t)
  unfolding reap_loop
  reap_loop-SameReport [] s t distinct same = record {
    actions = refl;
    failures = refl;
    was_cancelled = refl;
  }
  reap_loop-SameReport (w ∷ ws) s t (new, distinct) same = elim (Bool-cases (node.is_live t)) [
    | inr ended ↦
        rw (same.live ∙ ended, ended)
          (record { actions = refl; failures = refl; was_cancelled = refl })
    | inl going ↦
        let m = visit-Matches w s t (same.shown.0) in
        let u = (visit node readers now false w s).0 in
        let v = (visit node readers now true w t).0 in
        let real = reap_loop node readers now false ws u in
        let dry = reap_loop node readers now true ws v in
        let later = reap_loop-SameReport ws u v distinct (Agrees-next w ws s t new same) in
        let dry_note = (visit node readers now true w t).1 in
        rw (same.live ∙ going, going)
          (subst (λ n. SameReport (with_note n real) (with_note dry_note dry)) (sym m.note)
            (with_note-SameReport dry_note real dry later))
  ]

  dry_loop_state : (ws : List Str) (s : S) → (reap_loop node readers now true ws s).state ≡ s
  unfolding reap_loop
  dry_loop_state [] s = refl
  dry_loop_state (w ∷ ws) s = elim (Bool-cases (node.is_live s)) [
    | inr ended ↦ rw ended refl
    | inl going ↦
        let turn = visit node readers now true w s in
        rw going (
          with_note_state (turn.1) (reap_loop node readers now true ws (turn.0))
          ∙ dry_loop_state ws (turn.0)
          ∙ dry_visit_state w s)
  ]

report_same : {S : Type 0} (a b : Reaped S) → SameReport a b → report a ≡ report b
report_same a b same = cc (same.actions, same.failures, same.was_cancelled)

inspection_same :
    {S : Type 0} (node : Node S) (s : S) (ws : List Str)
    → All (λ v. node.inspect s v ≡ node.inspect s v) ws
inspection_same node s [] = tt
inspection_same node s (w ∷ ws) = (refl, inspection_same node s ws)

-- On a node whose calls succeed, keep the other workers and do not change whether the context is
-- live: a dry run of Reap over a list of different workers changes nothing, and it returns exactly
-- the actions and the errors of the run that carries them out.
pub reap_dry_run :
    {S : Type 0} (node : Node S) (readers : Readers) (now : ℕ) (s : S) (ws : List Str)
    → IsReliable node
    → node.list s ≡ ok ws
    → Distinct ws
    → ((reap node readers now true s).0 ≡ s)
      × ((reap node readers now false s).1 ≡ (reap node readers now true s).1)
unfolding reap
reap_dry_run node readers now s ws law listed distinct =
    let same =
      reap_loop-SameReport node law readers now ws s s distinct
        (record { live = refl; shown = inspection_same node s ws }) in
    subst
      (λ l.
        ((reap_listed node readers now true s l).0 ≡ s)
        × ((reap_listed node readers now false s l).1 ≡ (reap_listed node readers now true s l).1))
      (sym listed) (dry_loop_state node law readers now ws s, report_same _ _ same)
