-- ===== src/Orchestration/Schedule.antt =====
-- Which steps of a workflow can start (submitWorkflowReady of internal/orchestration/workflow.go).
pub mod Progress
use agent_federation_hub.Base.{
  ℕ, zero, suc, ◌+◌, String, Bool, true, false, ◌&&◌, ◌||◌, not, List, [], ◌∷◌, Option, none, some,
  ◌==◌, if◌then◌else◌,
}
use agent_federation_hub.Model.{TaskState, unknown, completed, is_terminal, same_state}
use agent_federation_hub.Model.Workflow.{WorkflowStep}
use agent_federation_hub.Orchestration.Graph.{find_workflow_step}

-- The step was not submitted or refused yet.
unfoldable pub is_open : WorkflowStep → Bool
is_open x = x.task_id == "" && same_state x.state unknown

unfoldable pub is_finished : Option WorkflowStep → Bool
is_finished none = false
is_finished (some x) = is_terminal x.state

unfoldable pub is_completed : Option WorkflowStep → Bool
is_completed none = false
is_completed (some x) = same_state x.state completed

-- allTerminal, after the loop over the dependencies
unfoldable pub are_finished : List WorkflowStep → List String → Bool
unfolding is_finished find_workflow_step
are_finished xs [] = true
are_finished xs (d ∷ ds) = is_finished (find_workflow_step xs d) && are_finished xs ds

-- dependencyFailed, where the loop reached the end
unfoldable pub has_failed : List WorkflowStep → List String → Bool
unfolding is_completed find_workflow_step
has_failed xs [] = false
has_failed xs (d ∷ ds) = not (is_completed (find_workflow_step xs d)) || has_failed xs ds

unfoldable pub is_blocked : List WorkflowStep → WorkflowStep → Bool
unfolding is_open are_finished has_failed
is_blocked xs x =
    is_open x && are_finished xs x.depends_on && (has_failed xs x.depends_on && x.required)

unfoldable pub is_ready : List WorkflowStep → WorkflowStep → Bool
unfolding is_open are_finished has_failed
is_ready xs x =
    is_open x && are_finished xs x.depends_on && not (has_failed xs x.depends_on && x.required)

-- The indices of the steps that pass a test, counted from an index.
unfoldable pub indices : (WorkflowStep → Bool) → ℕ → List WorkflowStep → List ℕ
indices p i [] = []
indices p i (x ∷ xs) = let later = indices p (suc i) xs in if p x then i ∷ later else later

unfoldable pub ready_steps : List WorkflowStep → List ℕ
unfolding indices is_ready
ready_steps xs = indices (is_ready xs) 0 xs

unfoldable pub blocked_steps : List WorkflowStep → List ℕ
unfolding indices is_blocked
blocked_steps xs = indices (is_blocked xs) 0 xs
