-- ===== src/Hub/Lifecycle.antt =====
-- Runs of the Hub's operations on Tasks (internal/hub/service.go), with whatever answers of remote
-- Agents, and what becomes of a Task under them.
use agent_federation_hub.Base.{String, ◌≡◌, Bool, List, [], ◌∷◌, some}
use agent_federation_hub.Base.Dict.{lookup}
use agent_federation_hub.Model.{Part, Task}
use agent_federation_hub.Model.Queue.{InboxItem}
use agent_federation_hub.Store.State.{Result, Maps, JournalStore}
use agent_federation_hub.Store.Tasks.{list_recoverable}
use agent_federation_hub.Store.Tasks.Versions.{IsFiled}
use agent_federation_hub.Store.Tasks.Progress.{IsLater, Progress, Progress-refl}
use agent_federation_hub.Federation.{Observation}
use agent_federation_hub.Hub.Service.{Service, Draws, Remote}
use agent_federation_hub.Hub.Tasks.{reconcile_task, recover, cancel_task, continue_task}
use agent_federation_hub.Hub.Submission.{SubmitTaskInput, submit_task}
use agent_federation_hub.Hub.Push.{accept_push, apply_inbox_item}
use agent_federation_hub.Hub.Forward.{KeepsTasks}
use agent_federation_hub.Hub.Forward.Calls.{
  reconcile_task-Progress, recover_each-Progress, cancel_task-Progress, continue_task-Progress,
}
use agent_federation_hub.Hub.Forward.Submit.{
  submit_task-Progress, accept_push-Progress, apply_inbox_item-Progress,
}

pub data Call : Type 0 where
  submits : Draws → Result String → Remote → String → SubmitTaskInput → Call
  continues : Draws → Remote → String → String → String → List Part → Call
  cancels : Draws → Remote → String → String → Call
  reconciles : Remote → Bool → String → String → Call
  recovers : (Task → Remote) → Bool → Call
  accepts_push : Draws → String → String → String → Observation → Call
  applies_item : Draws → InboxItem → Call

-- The store after a call, whether it succeeded or not.
unfoldable pub call : Service → Call → JournalStore → JournalStore
unfolding submit_task continue_task cancel_task reconcile_task recover accept_push apply_inbox_item
call svc (submits d token r tenant i) s = (submit_task svc d token r tenant i s).1
call svc (continues d r tenant task_id body parts) s =
    (continue_task svc d r tenant task_id body parts s).1
call svc (cancels d r tenant task_id) s = (cancel_task svc d r tenant task_id s).1
call svc (reconciles r subscribes tenant task_id) s =
    (reconcile_task svc r subscribes tenant task_id s).1
call svc (recovers r subscribes) s = (recover svc r subscribes s).1
call svc (accepts_push d tenant task_id token o) s = (accept_push svc d tenant task_id token o s).1
call svc (applies_item d i) s = (apply_inbox_item svc d i s).1

unfoldable pub calls : Service → List Call → JournalStore → JournalStore
unfolding call
calls svc [] s = s
calls svc (c ∷ cs) s = calls svc cs (call svc c s)

module _ (m : Maps) (svc : Service) (keeps : KeepsTasks svc) where
  pub call-Progress :
      (c : Call) (s : JournalStore) → Progress m s.maps → Progress m (call svc c s).maps
  unfolding call recover
  call-Progress (submits d token r tenant i) s h =
      submit_task-Progress m svc keeps d token r tenant i s h
  call-Progress (continues d r tenant task_id body parts) s h =
      continue_task-Progress m svc keeps d r tenant task_id body parts s h
  call-Progress (cancels d r tenant task_id) s h =
      cancel_task-Progress m svc keeps d r tenant task_id s h
  call-Progress (reconciles r subscribes tenant task_id) s h =
      reconcile_task-Progress m svc keeps r subscribes tenant task_id s h
  call-Progress (recovers r subscribes) s h =
      recover_each-Progress m svc keeps r subscribes (list_recoverable s) s h
  call-Progress (accepts_push d tenant task_id token o) s h =
      accept_push-Progress m svc keeps d tenant task_id token o s h
  call-Progress (applies_item d i) s h = apply_inbox_item-Progress m svc keeps d i s h

  pub calls-Progress :
      (cs : List Call) (s : JournalStore) → Progress m s.maps → Progress m (calls svc cs s).maps
  unfolding calls
  calls-Progress [] s h = h
  calls-Progress (c ∷ cs) s h = calls-Progress cs (call svc c s) (call-Progress c s h)

-- In a store that files each Task under its own key, and where storing an Artifact's content changes no
-- Task: under any sequence of calls, with whatever answers of the remote Agents, pushed observations
-- and outcomes of writes, a Task that is there stays there. It keeps its identity and request, a
-- terminal state, a remote identifier that was observed, and a request to cancel.
pub calls-IsLater :
    (svc : Service) (cs : List Call) (s : JournalStore) (key : String) (t : Task)
    → KeepsTasks svc
    → IsFiled s.maps
    → lookup key s.maps.tasks ≡ some t
    → (t' : Task) × (lookup key (calls svc cs s).maps.tasks ≡ some t') × IsLater t t'
calls-IsLater svc cs s key t keeps filed found =
    (calls-Progress s.maps svc keeps cs s (Progress-refl s.maps filed)).kept key t found
