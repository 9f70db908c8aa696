-- ===== src/Orchestration/States.antt =====
-- The state of a workflow from those of its steps (internal/orchestration/workflow.go):
-- workflowStateForSteps, waitingTaskState.
use agent_federation_hub.Base.{Bool, true, false, ◌&&◌, ◌||◌, List, [], ◌∷◌, if◌then◌else◌}
use agent_federation_hub.Model.{
  TaskState, completed, failed, canceled, rejected, input_required, auth_required, is_terminal,
  same_state,
}
use agent_federation_hub.Model.Workflow.{
  WorkflowStep, WorkflowState, waiting_input, running, partially_failed, completed as all_done,
  failed as all_failed,
}

unfoldable pub waiting_task_state : TaskState → Bool
waiting_task_state s = same_state s input_required || same_state s auth_required

unfoldable pub is_failure : TaskState → Bool
is_failure s = same_state s failed || same_state s rejected || same_state s canceled

-- Whether a state of some step, or of every step, passes a test: the flags that the loop computes.
unfoldable pub any_step : (TaskState → Bool) → List WorkflowStep → Bool
any_step p [] = false
any_step p (x ∷ xs) = p x.state || any_step p xs

unfoldable pub all_steps : (TaskState → Bool) → List WorkflowStep → Bool
all_steps p [] = true
all_steps p (x ∷ xs) = p x.state && all_steps p xs

unfoldable pub workflow_state_for_steps : List WorkflowStep → WorkflowState
unfolding any_step all_steps waiting_task_state is_failure
workflow_state_for_steps xs =
    if any_step waiting_task_state xs
    then waiting_input
    else if all_steps is_terminal xs && all_steps (λ s. same_state s completed) xs
    then all_done
    else if all_steps is_terminal xs && any_step is_failure xs
    then (if any_step (λ s. same_state s completed) xs then partially_failed else all_failed)
    else running
