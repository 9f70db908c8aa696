-- ===== src/Orchestration/Compensation.antt =====
-- Compensating the steps of a failed workflow (internal/orchestration/workflow.go): CompensateWorkflow.
-- The index of a step is in range, as steps are never removed.
pub mod Retry
use Prim.Native.String.{◌++◌ as text_append}
use agent_federation_hub.Base.{
  ℕ, zero, suc, String, Bool, true, false, ◌&&◌, ◌||◌, not, List, [], ◌∷◌, ◌++◌, Option, none, some,
  ◌==◌, get_elem?, length, if◌then◌else◌,
}
use agent_federation_hub.Base.Int.{pos}
use agent_federation_hub.Base.Text.{decimal}
use agent_federation_hub.Model.{
  Time, Task, TaskState, completed, failed, Problem, same_state, is_terminal,
}
use agent_federation_hub.Model.Workflow.{
  Workflow, WorkflowStep, WorkflowState, unset, compensating, compensated, failed as all_failed,
  partially_failed,
}
use agent_federation_hub.Store.State.{Error, rejected, Result, ok, err, JournalStore}
use agent_federation_hub.Store.Journal.{and_then}
use agent_federation_hub.Store.Tasks.{get_task}
use agent_federation_hub.Store.Workflows.{WorkflowMutation, get_workflow, apply_workflow_version}
use agent_federation_hub.Hub.Service.{Service, Draws, Remote}
use agent_federation_hub.Hub.Submission.{submit_task}
use agent_federation_hub.Orchestration.Inputs.{WorkflowInput}
use agent_federation_hub.Orchestration.States.{is_failure}
use agent_federation_hub.Orchestration.Steps.{set_step, workflow_event}
use agent_federation_hub.Orchestration.Control.{Failures, change, state_text}
use agent_federation_hub.Orchestration.Rounds.{Coordinator, Branch, step_request, no_token}
use agent_federation_hub.Orchestration.Review.{reconcile_compensation}

unfoldable pub can_compensate : WorkflowState → Bool
can_compensate all_failed = true
can_compensate partially_failed = true
can_compensate _ = false

unfoldable pub compensating_update : Time → WorkflowMutation
compensating_update now w = ok (
  record w { state = compensating; updated_at = now },
  workflow_event "workflow.compensation.started" "hub" compensating "" none now,
)

unfoldable pub needs_compensation : WorkflowStep → Bool
needs_compensation x =
    same_state x.state completed && not (x.compensation_text == "") && x.compensation_task_id == ""

abbrev pub compensation_failed : String → Problem
compensation_failed message = record {
  category = "provider";
  code = "COMPENSATION_SUBMIT_FAILED";
  message = message;
  retryable = true;
  is_ambiguous = false;
}

unfoldable pub unsubmitted_update : Time → ℕ → String → String → WorkflowMutation
unfolding set_step
unsubmitted_update now i id message w =
    let p = compensation_failed message in
    let mark = λ (x : WorkflowStep). record x {
      compensation_state = failed;
      compensation_problem = some p;
    } in
    ok (
      record w { steps = set_step i mark w.steps; state = all_failed; updated_at = now },
      workflow_event "workflow.compensation.failed" "hub" all_failed id (some p) now,
    )

unfoldable pub compensation_update : Time → ℕ → String → Task → WorkflowMutation
unfolding set_step
compensation_update now i id t w =
    let mark = λ (x : WorkflowStep). record x {
      compensation_task_id = t.id;
      compensation_state = t.state;
    } in
    ok (
      record w { steps = set_step i mark w.steps; updated_at = now },
      workflow_event "workflow.compensation.submitted" "hub" w.state id none now,
    )

abbrev pub compensation_key : WorkflowStep → String
compensation_key x = text_append "compensation:" x.id

-- What the loop knows: the workflow as it was last read, and the failures.
abbrev pub Compensating : Type 0
Compensating = Workflow × Failures

-- After the submission. The result of recording a failure is not looked at.
unfoldable pub record_compensation :
    Coordinator
    → Draws
    → String
    → String
    → ℕ
    → WorkflowStep
    → Compensating
    → Result Task
    → JournalStore
    → Result Compensating × JournalStore
unfolding apply_workflow_version unsubmitted_update get_workflow change compensation_update and_then
record_compensation c d tenant id i x (w, fs) (err e) s = (
  ok (w, fs ++ (x.id, e) ∷ []),
  (apply_workflow_version (d.id 0) tenant id 0 (compensation_key x)
      (unsubmitted_update (d.time 0) i x.id (c.message e)) s).1,
)
record_compensation c d tenant id i x (w, fs) (ok t) s = elim (get_workflow tenant id s) [
  | err e ↦ (err e, s)
  | ok _ ↦
      and_then
        (change (d.id 0) tenant id (compensation_key x) (compensation_update (d.time 0) i x.id t) s)
        λ w' s'. (ok (w', fs), s')
]

unfoldable pub compensate_step :
    Coordinator
    → Branch
    → String
    → String
    → ℕ
    → WorkflowStep
    → Compensating
    → JournalStore
    → Result Compensating × JournalStore
unfolding needs_compensation submit_task record_compensation
compensate_step c b tenant id i x known s =
    let request = step_request x.agent_id "" (record { body = x.compensation_text; parts = [] }) in
    let (r, s') = submit_task c.service b.draws no_token b.remote tenant request s in
    let recorded = record_compensation c b.recorded tenant id i x known r s' in
    if needs_compensation x then recorded else (ok known, s)

-- The loop, with the number of steps that are left. The steps are those of the workflow as last read.
unfoldable pub compensate_each :
    Coordinator
    → (ℕ → Branch)
    → String
    → String
    → ℕ
    → ℕ
    → Compensating
    → JournalStore
    → Result Compensating × JournalStore
unfolding compensate_step and_then
compensate_each c env tenant id zero i known s = (ok known, s)
compensate_each c env tenant id (suc left) i known s = elim (get_elem? known.0.steps i) [
  | none ↦ compensate_each c env tenant id left (suc i) known s
  | some x ↦
      and_then (compensate_step c (env i) tenant id i x known s)
        λ known' s'. compensate_each c env tenant id left (suc i) known' s'
]

unfoldable pub compensate_known :
    Coordinator
    → Draws
    → (ℕ → Branch)
    → (ℕ → Draws)
    → String
    → String
    → Result Workflow
    → JournalStore
    → Result (Workflow × Failures) × JournalStore
unfolding can_compensate change compensating_update compensate_each reconcile_compensation and_then
compensate_known c d env reviews tenant id (err e) s = (err e, s)
compensate_known c d env reviews tenant id (ok w) s =
    if not (can_compensate w.state)
    then (err (rejected "workflow compensation requires failed state"), s)
    else and_then
        (change (d.id 0) tenant id "compensation:started" (compensating_update (d.time 0)) s)
        λ w1 s1.
          and_then (compensate_each c env tenant id (length w1.steps) 0 (w1, []) s1) λ known s2.
            and_then
              (reconcile_compensation
                (record { id = λ n. d.id (suc n); time = λ n. d.time (suc n) }) reviews tenant id
                s2)
              λ w' s3. (ok (w', known.1), s3)

unfoldable pub compensate_workflow :
    Coordinator
    → Draws
    → (ℕ → Branch)
    → (ℕ → Draws)
    → String
    → String
    → JournalStore
    → Result (Workflow × Failures) × JournalStore
unfolding compensate_known get_workflow
compensate_workflow c d env reviews tenant id s =
    compensate_known c d env reviews tenant id (get_workflow tenant id s) s
