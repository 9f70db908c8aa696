-- ===== src/Orchestration/Steps.antt =====
-- The changes that the coordinator makes to a stored workflow: the callbacks of ApplyWorkflowVersion in
-- internal/orchestration/workflow.go. The index of a step is in range, as steps are never removed.
use agent_federation_hub.Base.{
  ℕ, zero, suc, ◌+◌, String, Bool, true, false, ◌||◌, not, List, [], ◌∷◌, Option, none, some,
  if◌then◌else◌,
}
use agent_federation_hub.Base.Int.{u32}
use agent_federation_hub.Model.{Time, rejected, failed, Problem, Task}
use agent_federation_hub.Model.Workflow.{
  Workflow, WorkflowStep, WorkflowEvent, WorkflowState, unset, paused, canceled, is_terminal,
}
use agent_federation_hub.Store.State.{Error, rejected as refused, Result, ok, err}
use agent_federation_hub.Store.Workflows.{WorkflowMutation}
use agent_federation_hub.Orchestration.States.{workflow_state_for_steps}

unfoldable pub set_step : ℕ → (WorkflowStep → WorkflowStep) → List WorkflowStep → List WorkflowStep
set_step i f [] = []
set_step zero f (x ∷ xs) = f x ∷ xs
set_step (suc i) f (x ∷ xs) = x ∷ set_step i f xs

-- The fields that an event of the coordinator sets. The store fills in the others.
abbrev pub workflow_event :
    String → String → WorkflowState → String → Option Problem → Time → WorkflowEvent
workflow_event kind source state step_id p now = record {
  id = "";
  dedup_key = "";
  workflow_id = "";
  tenant_id = "";
  sequence = 0;
  kind = kind;
  source = source;
  state = state;
  step_id = step_id;
  problem = p;
  created_at = now;
}

-- The state of the workflow follows its steps.
abbrev pub with_steps : Time → List WorkflowStep → Workflow → Workflow
with_steps now xs w = record w { steps = xs; state = workflow_state_for_steps xs; updated_at = now }

abbrev pub dependency_failed : Problem
dependency_failed = record {
  category = "state";
  code = "DEPENDENCY_FAILED";
  message = "a required workflow dependency failed";
  retryable = false;
  is_ambiguous = false;
}

unfoldable pub blocked_update : Time → ℕ → String → WorkflowMutation
unfolding set_step
blocked_update now i id w =
    let refuse =
      λ (x : WorkflowStep). record x { state = rejected; problem = some dependency_failed } in
    let w' = with_steps now (set_step i refuse w.steps) w in
    ok (w', workflow_event "workflow.step.blocked" "hub" w'.state id (some dependency_failed) now)

unfoldable pub submit_failed : String → Problem
submit_failed message = record {
  category = "provider";
  code = "STEP_SUBMIT_FAILED";
  message = message;
  retryable = true;
  is_ambiguous = false;
}

-- The step after its Task was submitted, or failed to be. `message` is the text of the error.
unfoldable pub submitted_step : (Error → String) → Result Task → WorkflowStep → WorkflowStep
unfolding submit_failed
submitted_step message (err e) x = record x {
  attempt = u32 (x.attempt + 1);
  state = failed;
  problem = some (submit_failed (message e));
}
submitted_step message (ok t) x = record x {
  attempt = u32 (x.attempt + 1);
  task_id = t.id;
  agent_id = t.agent_id;
  state = t.state;
}

unfoldable pub submitted_update :
    (Error → String) → Time → ℕ → String → Result Task → WorkflowMutation
unfolding set_step submitted_step
submitted_update message now i id r w =
    let w' = with_steps now (set_step i (submitted_step message r) w.steps) w in
    ok (w', workflow_event "workflow.step.submitted" "hub" w'.state id none now)

-- The callback of updateStep, where the Task is the step's own.
unfoldable pub status_step : Task → WorkflowStep → WorkflowStep
status_step t x = record x { task_id = t.id; state = t.state; problem = t.problem }

unfoldable pub status_update : Time → ℕ → String → Task → WorkflowMutation
unfolding set_step status_step
status_update now i id t w =
    let w' = with_steps now (set_step i (status_step t) w.steps) w in
    ok (w', workflow_event "workflow.step.status" "hub" w'.state id none now)

unfoldable pub is_paused : WorkflowState → Bool
is_paused paused = true
is_paused _ = false

unfoldable pub cannot_pause : WorkflowState → Bool
unfolding is_paused
cannot_pause s = is_terminal s || is_paused s

unfoldable pub pause_update : Time → WorkflowMutation
unfolding cannot_pause
pause_update now w =
    if cannot_pause w.state
    then err (refused "workflow cannot be paused")
    else ok (
      record w { paused_from = w.state; state = paused; updated_at = now },
      workflow_event "workflow.paused" "operator" paused "" none now,
    )

unfoldable pub resume_update : Time → WorkflowMutation
unfolding is_paused
resume_update now w =
    let w' = record (with_steps now w.steps w) { paused_from = unset } in
    if not (is_paused w.state)
    then err (refused "workflow cannot be resumed")
    else ok (w', workflow_event "workflow.resumed" "operator" w'.state "" none now)

unfoldable pub cancel_update : Time → WorkflowMutation
cancel_update now w = ok (
  record w { state = canceled; updated_at = now },
  workflow_event "workflow.canceled" "operator" canceled "" none now,
)
