-- ===== src/Orchestration/Control.antt =====
-- Pausing, resuming and cancelling a workflow, and following the Task of a step
-- (internal/orchestration/workflow.go): PauseWorkflow, ResumeWorkflow, CancelWorkflow, updateStep.
-- The store supports workflows. Of a call that fails, the error alone is kept.
pub mod Changes
pub mod Pausing
use Prim.Native.String.{◌++◌ as text_append}
use agent_federation_hub.Base.{
  ℕ, suc, String, Bool, true, false, ◌||◌, not, List, [], ◌∷◌, Option, none, some, ◌==◌,
  if◌then◌else◌,
}
use agent_federation_hub.Base.Text.{decimal}
use agent_federation_hub.Model.{Task, TaskState, is_terminal}
use agent_federation_hub.Model.Workflow.{Workflow, WorkflowStep, is_terminal as is_over}
use agent_federation_hub.Store.State.{
  Error, rejected, revision_conflict, Result, ok, err, Applied, applied, duplicate, stale,
  JournalStore,
}
use agent_federation_hub.Store.Journal.{and_then}
use agent_federation_hub.Store.Workflows.{WorkflowMutation, apply_workflow_version, get_workflow}
use agent_federation_hub.Hub.Service.{Service, Draws, Remote}
use agent_federation_hub.Hub.Tasks.{cancel_task}
use agent_federation_hub.Orchestration.Steps.{
  cannot_pause, is_paused, pause_update, resume_update, cancel_update, status_update,
}

-- The workflow that the store answers with, whether the change was applied or known.
unfoldable pub workflow_of :
    Result (Applied Workflow) × JournalStore → Result Workflow × JournalStore
workflow_of (ok (applied w), s) = (ok w, s)
workflow_of (ok (duplicate w), s) = (ok w, s)
workflow_of (ok (stale w), s) = (err revision_conflict, s)
workflow_of (err e, s) = (err e, s)

unfoldable pub change :
    String
    → String
    → String
    → String
    → WorkflowMutation
    → JournalStore
    → Result Workflow × JournalStore
unfolding apply_workflow_version workflow_of
change id tenant workflow_id dedup f s =
    workflow_of (apply_workflow_version id tenant workflow_id 0 dedup f s)

-- fmt.Sprintf("workflow:...:%d", workflow.Revision)
unfoldable pub revision_key : String → Workflow → String
unfolding decimal
revision_key prefix w = text_append prefix (decimal w.revision)

unfoldable pub pause_known :
    Draws → String → String → Result Workflow → JournalStore → Result Workflow × JournalStore
unfolding cannot_pause change pause_update revision_key
pause_known d tenant id (err e) s = (err e, s)
pause_known d tenant id (ok w) s =
    if cannot_pause w.state
    then (err (rejected "workflow cannot be paused"), s)
    else change (d.id 0) tenant id (revision_key "workflow:pause:" w) (pause_update (d.time 0)) s

unfoldable pub pause_workflow :
    Draws → String → String → JournalStore → Result Workflow × JournalStore
unfolding pause_known get_workflow
pause_workflow d tenant id s = pause_known d tenant id (get_workflow tenant id s) s

unfoldable pub resume_known :
    Draws → String → String → Result Workflow → JournalStore → Result Workflow × JournalStore
unfolding is_paused change resume_update revision_key
resume_known d tenant id (err e) s = (err e, s)
resume_known d tenant id (ok w) s =
    if not (is_paused w.state)
    then (err (rejected "workflow cannot be resumed"), s)
    else change (d.id 0) tenant id (revision_key "workflow:resume:" w) (resume_update (d.time 0)) s

unfoldable pub resume_workflow :
    Draws → String → String → JournalStore → Result Workflow × JournalStore
unfolding resume_known get_workflow
resume_workflow d tenant id s = resume_known d tenant id (get_workflow tenant id s) s

-- What failed, by step.
abbrev pub Failures : Type 0
Failures = List (String × Error)

unfoldable pub note_failure {ℓ} : {A : Type ℓ} → String → Result A → Failures → Failures
note_failure id (ok a) fs = fs
note_failure id (err e) fs = (id, e) ∷ fs

-- The loop of CancelWorkflow. Each step has its own draws and answers.
unfoldable pub cancel_each :
    Service
    → (ℕ → Draws × Remote)
    → String
    → ℕ
    → List WorkflowStep
    → JournalStore
    → Failures × JournalStore
unfolding cancel_task note_failure
cancel_each svc env tenant i [] s = ([], s)
cancel_each svc env tenant i (x ∷ xs) s =
    let skipped = cancel_each svc env tenant (suc i) xs s in
    let (d, remote) = env i in
    let (r, s') = cancel_task svc d remote tenant x.task_id s in
    let (fs, s'') = cancel_each svc env tenant (suc i) xs s' in
    if x.task_id == "" || is_terminal x.state then skipped else (note_failure x.id r fs, s'')

unfoldable pub cancel_known :
    Service
    → Draws
    → (ℕ → Draws × Remote)
    → String
    → String
    → Result Workflow
    → JournalStore
    → Result (Workflow × Failures) × JournalStore
unfolding cancel_each change cancel_update revision_key and_then
cancel_known svc d env tenant id (err e) s = (err e, s)
cancel_known svc d env tenant id (ok w) s =
    let (fs, s') = cancel_each svc env tenant 0 w.steps s in
    if is_over w.state
    then (err (rejected "workflow is already terminal"), s)
    else and_then
        (change (d.id 0) tenant id (revision_key "workflow:cancel:" w) (cancel_update (d.time 0))
          s')
        λ w' s''. (ok (w', fs), s'')

unfoldable pub cancel_workflow :
    Service
    → Draws
    → (ℕ → Draws × Remote)
    → String
    → String
    → JournalStore
    → Result (Workflow × Failures) × JournalStore
unfolding cancel_known get_workflow
cancel_workflow svc d env tenant id s =
    cancel_known svc d env tenant id (get_workflow tenant id s) s

-- The value of a TaskState.
unfoldable pub state_text : TaskState → String
state_text TaskState.unset = ""
state_text TaskState.unknown = "UNKNOWN"
state_text TaskState.submitted = "SUBMITTED"
state_text TaskState.working = "WORKING"
state_text TaskState.input_required = "INPUT_REQUIRED"
state_text TaskState.auth_required = "AUTH_REQUIRED"
state_text TaskState.completed = "COMPLETED"
state_text TaskState.failed = "FAILED"
state_text TaskState.canceled = "CANCELED"
state_text TaskState.rejected = "REJECTED"

-- fmt.Sprintf("task:%s:%d:%s", ...)
unfoldable pub step_key : WorkflowStep → Task → String
unfolding decimal state_text
step_key x t = text_append "task:" (
    text_append x.id
      (text_append ":" (text_append (decimal t.revision) (text_append ":" (state_text t.state)))))

-- updateStep, for the Task of the step itself: no call has `compensation`.
unfoldable pub update_step :
    Draws → Workflow → ℕ → WorkflowStep → Task → JournalStore → Result Workflow × JournalStore
unfolding change status_update step_key
update_step d w i x t s =
    change (d.id 0) w.tenant_id w.id (step_key x t) (status_update (d.time 0) i x.id t) s
