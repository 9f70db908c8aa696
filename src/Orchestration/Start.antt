-- ===== src/Orchestration/Start.antt =====
-- Starting a workflow (internal/orchestration/workflow.go): StartWorkflow. Of a call that fails, the error
-- alone is kept.
pub mod Repeats
use Prim.Native.String.{◌++◌ as text_append}
use agent_federation_hub.Base.{
  ℕ, zero, suc, String, Bool, true, false, ◌&&◌, ◌||◌, not, List, [], ◌∷◌, ◌++◌, Option, none, some,
  ◌==◌, get_elem?, length, if◌then◌else◌,
}
use agent_federation_hub.Base.Int.{ℤ, pos, pos_part, eqb_ℤ}
use agent_federation_hub.Base.Text.{trim}
use agent_federation_hub.Model.{Time, Part, Task, unset}
use agent_federation_hub.Model.Workflow.{
  Workflow, WorkflowStep, WorkflowState, pending, waiting_input, paused, compensating,
  unset as unset_state,
}
use agent_federation_hub.Store.State.{Error, conflict, rejected, Result, ok, err, JournalStore}
use agent_federation_hub.Store.Journal.{and_then}
use agent_federation_hub.Store.Workflows.{WorkflowMutation, create_workflow, get_workflow}
use agent_federation_hub.Hub.Service.{Service, Draws, Remote}
use agent_federation_hub.Hub.Tasks.{reconcile_task, continue_task}
use agent_federation_hub.Hub.Submission.{is_conflict}
use agent_federation_hub.Orchestration.Inputs.{WorkflowInput}
use agent_federation_hub.Orchestration.States.{waiting_task_state}
use agent_federation_hub.Orchestration.Steps.{set_step, workflow_event}
use agent_federation_hub.Orchestration.Control.{Failures, change, update_step}
use agent_federation_hub.Orchestration.Rounds.{
  Coordinator, Round, Scheduled, scheduled, out_of_rounds, submit_workflow_ready,
}
use agent_federation_hub.Orchestration.Review.{reconcile_compensation}
use agent_federation_hub.Orchestration.Definition.{
  WorkflowStepInput, WorkflowDefinition, define_workflow, limit_of, version_of, new_workflow,
  workflow_id, or_default,
}
use agent_federation_hub.Orchestration.Runs.{Run, done, finish_run}

unfoldable pub input_update : Time → ℕ → String → String → String → WorkflowMutation
unfolding set_step
input_update now i id ref digest w =
    let keep = λ (x : WorkflowStep). record x { input_ref = ref; input_digest = digest } in
    ok (
      record w { steps = set_step i keep w.steps; updated_at = now },
      workflow_event "workflow.input.stored" "hub" unset_state id none now,
    )

-- The loop that puts the inputs into the vault and their references into the workflow.
unfoldable pub store_inputs :
    Coordinator
    → (ℕ → Draws)
    → String
    → Workflow
    → ℕ
    → List WorkflowStep
    → List WorkflowStepInput
    → JournalStore
    → Result (Unit {0}) × JournalStore
unfolding change input_update and_then
store_inputs c env tenant w i [] inputs s = (ok tt, s)
store_inputs c env tenant w i (x ∷ xs) [] s = (ok tt, s)
store_inputs c env tenant w i (x ∷ xs) (y ∷ ys) s =
    let input : WorkflowInput = record { body = y.body; parts = y.parts } in
    elim (c.store_input tenant w.id x.id input) [
      | err e ↦ (err e, s)
      | ok ref ↦
          and_then
            (change ((env i).id 0) tenant w.id (text_append "input:" x.id)
              (input_update ((env i).time 0) i x.id ref (c.digest_input input)) s)
            λ v s'. store_inputs c env tenant w (suc i) xs ys s'
    ]

-- A workflow that an earlier call with the same key created.
unfoldable pub is_same_definition : WorkflowDefinition → Workflow → Bool
unfolding trim version_of
is_same_definition definition w =
    w.idempotency_key == trim definition.idempotency_key
    && eqb_ℤ w.definition_version (version_of definition)

unfoldable pub existing_run :
    WorkflowDefinition → Error → Result Workflow → Result (Workflow × Failures)
unfolding is_same_definition trim is_conflict
existing_run definition e (err _) = err e
existing_run definition e (ok w) =
    if is_conflict e
      && not (trim definition.idempotency_key == "")
      && is_same_definition definition w
    then ok (w, [])
    else err e

unfoldable pub launch :
    ℕ
    → Coordinator
    → (ℕ → Draws)
    → (ℕ → Round)
    → String
    → WorkflowDefinition
    → List WorkflowStep
    → Workflow
    → JournalStore
    → Run
unfolding store_inputs submit_workflow_ready finish_run limit_of
launch fuel c env rounds tenant definition xs w s =
    let (r, s') = store_inputs c env tenant w 0 xs definition.steps s in
    elim r [
      | err e ↦ done (err e) s'
      | ok _ ↦
          finish_run tenant w.id []
            (submit_workflow_ready fuel c rounds tenant w.id (pos_part (limit_of definition)) s')
    ]

unfoldable pub start_workflow :
    ℕ
    → Coordinator
    → Draws
    → (ℕ → Draws)
    → (ℕ → Round)
    → String
    → WorkflowDefinition
    → JournalStore
    → Run
unfolding define_workflow workflow_id new_workflow create_workflow existing_run get_workflow launch
start_workflow fuel c d env rounds tenant definition s =
    elim (define_workflow c.service.formats tenant definition) [
      | err e ↦ done (err e) s
      | ok xs ↦
          let w =
            new_workflow (workflow_id c.service.digest (d.id 0) tenant definition) tenant (d.time 0)
              definition xs in
          let (r, s') =
            create_workflow (d.id 1) w
              (workflow_event "workflow.created" "hub" pending "" none (d.time 0)) s in
          elim r [
            | err e ↦ done (existing_run definition e (get_workflow tenant w.id s')) s'
            | ok w' ↦ launch fuel c env rounds tenant definition xs w' s'
          ]
    ]
