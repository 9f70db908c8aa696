-- ===== src/Orchestration/Review.antt =====
-- The progress of a compensation (internal/orchestration/workflow.go): reconcileCompensation. The index
-- of a step is in range, as steps are never removed.
use Prim.Native.String.{◌++◌ as text_append}
use agent_federation_hub.Base.{
  ℕ, suc, String, Bool, true, false, ◌&&◌, ◌||◌, not, List, [], ◌∷◌, Option, none, some, ◌==◌,
  if◌then◌else◌,
}
use agent_federation_hub.Base.Text.{decimal}
use agent_federation_hub.Model.{Time, Task, completed, Problem, same_state, is_terminal}
use agent_federation_hub.Model.Workflow.{
  Workflow, WorkflowStep, WorkflowState, unset, compensated, failed as all_failed,
}
use agent_federation_hub.Store.State.{Result, ok, err, JournalStore}
use agent_federation_hub.Store.Journal.{and_then}
use agent_federation_hub.Store.Tasks.{get_task}
use agent_federation_hub.Store.Workflows.{WorkflowMutation, get_workflow}
use agent_federation_hub.Hub.Service.{Draws}
use agent_federation_hub.Orchestration.States.{is_failure}
use agent_federation_hub.Orchestration.Steps.{set_step, workflow_event}
use agent_federation_hub.Orchestration.Control.{change, state_text}

-- reconcileCompensation: allDone and anyFailed.
pub record Outcome : Type 0 where
  pub all_done : Bool
  pub any_failed : Bool

unfoldable pub without_task : WorkflowStep → Outcome → Outcome
unfolding is_failure
without_task x o =
    if is_failure x.compensation_state
    then record o { any_failed = true }
    else if same_state x.state completed && not (x.compensation_text == "")
    then record o { all_done = false }
    else o

unfoldable pub with_task : Task → Outcome → Outcome
unfolding is_failure
with_task t o = record {
  all_done = o.all_done && is_terminal t.state;
  any_failed = o.any_failed || is_failure t.state;
}

unfoldable pub or_problem : Option Problem → Option Problem → Option Problem
or_problem none old = old
or_problem (some p) old = some p

unfoldable pub compensation_status_update : Time → ℕ → String → Task → WorkflowMutation
unfolding set_step or_problem
compensation_status_update now i id t w =
    let mark = λ (x : WorkflowStep). record x {
      compensation_state = t.state;
      compensation_problem = or_problem t.problem x.compensation_problem;
    } in
    ok (
      record w { steps = set_step i mark w.steps; updated_at = now },
      workflow_event "workflow.compensation.status" "hub" unset id none now,
    )

unfoldable pub compensation_state_key : WorkflowStep → Task → String
unfolding state_text
compensation_state_key x t =
    text_append "compensation:state:" (text_append x.id (text_append ":" (state_text t.state)))

abbrev pub Reviewed : Type 0
Reviewed = Workflow × Outcome

unfoldable pub review_step :
    Draws
    → String
    → String
    → ℕ
    → WorkflowStep
    → Reviewed
    → JournalStore
    → Result Reviewed × JournalStore
unfolding without_task with_task get_task change compensation_status_update compensation_state_key
    and_then
review_step d tenant id i x (w, o) s =
    if x.compensation_task_id == ""
    then (ok (w, without_task x o), s)
    else elim (get_task tenant x.compensation_task_id s) [
      | err e ↦ (err e, s)
      | ok t ↦
          and_then
            (change (d.id 0) tenant id (compensation_state_key x t)
              (compensation_status_update (d.time 0) i x.id t) s)
            λ w' s'. (ok (w', with_task t o), s')
    ]

unfoldable pub review_each :
    (ℕ → Draws)
    → String
    → String
    → ℕ
    → List WorkflowStep
    → Reviewed
    → JournalStore
    → Result Reviewed × JournalStore
unfolding review_step and_then
review_each env tenant id i [] known s = (ok known, s)
review_each env tenant id i (x ∷ xs) known s =
    and_then (review_step (env i) tenant id i x known s)
      λ known' s'. review_each env tenant id (suc i) xs known' s'

unfoldable pub terminal_update : Time → WorkflowState → WorkflowMutation
terminal_update now state w = ok (
  record w { state = state; updated_at = now },
  workflow_event "workflow.compensation.terminal" "hub" state "" none now,
)

unfoldable pub final_state : Outcome → WorkflowState
final_state o = if o.any_failed then all_failed else compensated

unfoldable pub terminal_key : Outcome → Workflow → String
unfolding decimal
terminal_key o w = text_append "compensation:terminal:" (
    text_append (if o.any_failed then "FAILED" else "COMPENSATED")
      (text_append ":" (decimal w.revision)))

unfoldable pub conclude :
    Draws → String → String → Reviewed → JournalStore → Result Workflow × JournalStore
unfolding change terminal_update final_state terminal_key
conclude d tenant id (w, o) s =
    if o.all_done
    then change (d.id 0) tenant id (terminal_key o w) (terminal_update (d.time 0) (final_state o)) s
    else (ok w, s)

unfoldable pub reconcile_compensation :
    Draws → (ℕ → Draws) → String → String → JournalStore → Result Workflow × JournalStore
unfolding get_workflow review_each conclude and_then
reconcile_compensation d env tenant id s = elim (get_workflow tenant id s) [
  | err e ↦ (err e, s)
  | ok w ↦
      and_then
        (review_each env tenant id 0 w.steps (w, record { all_done = true; any_failed = false }) s)
        λ known s'. conclude d tenant id known s'
]
