-- ===== src/Orchestration/Runs.antt =====
-- Following and continuing a workflow (internal/orchestration/workflow.go): ReconcileWorkflow,
-- ContinueWorkflow. Of a call that fails, the error alone is kept.
use agent_federation_hub.Base.{
  ℕ, zero, suc, String, Bool, true, false, ◌||◌, not, List, [], ◌∷◌, ◌++◌, none, some, ◌==◌,
  get_elem?, length, if◌then◌else◌,
}
use agent_federation_hub.Base.Int.{pos, pos_part}
use agent_federation_hub.Model.{Part, Task}
use agent_federation_hub.Model.Workflow.{
  Workflow, WorkflowStep, WorkflowState, waiting_input, paused, compensating,
}
use agent_federation_hub.Store.State.{rejected, Result, ok, err, JournalStore}
use agent_federation_hub.Store.Journal.{and_then}
use agent_federation_hub.Store.Workflows.{get_workflow}
use agent_federation_hub.Hub.Service.{Service, Draws, Remote}
use agent_federation_hub.Hub.Tasks.{reconcile_task, continue_task}
use agent_federation_hub.Orchestration.States.{waiting_task_state}
use agent_federation_hub.Orchestration.Control.{Failures, update_step}
use agent_federation_hub.Orchestration.Rounds.{
  Coordinator, Round, Scheduled, scheduled, out_of_rounds, submit_workflow_ready,
}
use agent_federation_hub.Orchestration.Review.{reconcile_compensation}
use agent_federation_hub.Orchestration.Definition.{or_default}

-- The result of a run, or that the model's bound on the scheduler's rounds was reached.
pub data Run : Type 0 where
  done : Result (Workflow × Failures) → JournalStore → Run
  unfinished : Run

-- The end of a run: the workflow as it is stored then, and the failures from before and from the rounds.
unfoldable pub finish_run : String → String → Failures → Scheduled → Run
unfolding get_workflow
finish_run tenant id fs out_of_rounds = unfinished
finish_run tenant id fs (scheduled (err e) s) = done (err e) s
finish_run tenant id fs (scheduled (ok gs) s) =
    done (elim (get_workflow tenant id s) [ err e ↦ err e | ok w ↦ ok (w, fs ++ gs) ]) s

-- What the loops over the steps know: the workflow as it was last stored, and the failures.
abbrev pub Followed : Type 0
Followed = Workflow × Failures

-- What is made of the answer for one step.
unfoldable pub follow_answer :
    Draws
    → ℕ
    → WorkflowStep
    → Followed
    → Result Task
    → JournalStore
    → Result Followed × JournalStore
unfolding update_step and_then
follow_answer d i x (w, fs) (err e) s = (ok (w, fs ++ (x.id, e) ∷ []), s)
follow_answer d i x (w, fs) (ok t) s = and_then (update_step d w i x t s) λ w' s'. (ok (w', fs), s')

-- The loop of ReconcileWorkflow, with the number of steps that are left.
unfoldable pub reconcile_each :
    Service
    → (ℕ → Draws × Remote)
    → Bool
    → String
    → ℕ
    → ℕ
    → Followed
    → JournalStore
    → Result Followed × JournalStore
unfolding reconcile_task follow_answer and_then
reconcile_each svc env subscribes tenant zero i known s = (ok known, s)
reconcile_each svc env subscribes tenant (suc left) i known s = elim (get_elem? known.0.steps i) [
  | none ↦ reconcile_each svc env subscribes tenant left (suc i) known s
  | some x ↦
      let (d, remote) = env i in
      let (r, s') = reconcile_task svc remote subscribes tenant x.task_id s in
      let skipped = reconcile_each svc env subscribes tenant left (suc i) known s in
      let followed =
        and_then (follow_answer d i x known r s')
          λ known' s''. reconcile_each svc env subscribes tenant left (suc i) known' s'' in
      if x.task_id == "" then skipped else followed
]

unfoldable pub concurrency_of : Workflow → ℕ
unfolding or_default
concurrency_of w = pos_part (or_default (pos (length w.steps)) w.max_concurrency)

unfoldable pub advance :
    ℕ → Coordinator → (ℕ → Round) → String → String → Result Followed × JournalStore → Run
unfolding submit_workflow_ready finish_run concurrency_of
advance fuel c rounds tenant id (err e, s) = done (err e) s
advance fuel c rounds tenant id (ok (w, fs), s) =
    finish_run tenant id fs (submit_workflow_ready fuel c rounds tenant id (concurrency_of w) s)

-- The answers to one call: those for each step, and those of the rounds.
pub record Calls : Type 0 where
  pub draws : Draws
  pub steps : ℕ → Draws × Remote
  pub rounds : ℕ → Round

abbrev draws_of : Calls → ℕ → Draws
draws_of a i = (a.steps i).0

unfoldable pub reconcile_known :
    ℕ → Coordinator → Calls → Bool → String → String → Result Workflow → JournalStore → Run
unfolding reconcile_compensation reconcile_each advance
reconcile_known fuel c a subscribes tenant id (err e) s = done (err e) s
reconcile_known fuel c a subscribes tenant id (ok w) s = elim w.state [
  | compensating ↦
      let (r, s') = reconcile_compensation a.draws (draws_of a) tenant id s in
      done (elim r [ err e ↦ err e | ok w' ↦ ok (w', []) ]) s'
  | paused ↦ done (ok (w, [])) s
  | _ ↦
      advance fuel c a.rounds tenant id
        (reconcile_each c.service a.steps subscribes tenant (length w.steps) 0 (w, []) s)
]

unfoldable pub reconcile_workflow :
    ℕ → Coordinator → Calls → Bool → String → String → JournalStore → Run
unfolding reconcile_known get_workflow
reconcile_workflow fuel c a subscribes tenant id s =
    reconcile_known fuel c a subscribes tenant id (get_workflow tenant id s) s

-- The loop of ContinueWorkflow, over the steps as they were at the start.
unfoldable pub continue_each :
    Service
    → (ℕ → Draws × Remote)
    → String
    → String
    → List Part
    → ℕ
    → List WorkflowStep
    → Followed
    → JournalStore
    → Result Followed × JournalStore
unfolding waiting_task_state continue_task follow_answer and_then
continue_each svc env tenant body parts i [] known s = (ok known, s)
continue_each svc env tenant body parts i (x ∷ xs) known s =
    let (d, remote) = env i in
    let (r, s') = continue_task svc d remote tenant x.task_id body parts s in
    let skipped = continue_each svc env tenant body parts (suc i) xs known s in
    let followed =
      and_then (follow_answer d i x known r s')
        λ known' s''. continue_each svc env tenant body parts (suc i) xs known' s'' in
    if not (waiting_task_state x.state) || x.task_id == "" then skipped else followed

unfoldable pub is_waiting : WorkflowState → Bool
is_waiting waiting_input = true
is_waiting _ = false

unfoldable pub continue_known :
    ℕ
    → Coordinator
    → Calls
    → String
    → String
    → String
    → List Part
    → Result Workflow
    → JournalStore
    → Run
unfolding is_waiting continue_each advance
continue_known fuel c a tenant id body parts (err e) s = done (err e) s
continue_known fuel c a tenant id body parts (ok w) s =
    if not (is_waiting w.state)
    then done (err (rejected "workflow continuation requires WAITING_INPUT state")) s
    else advance fuel c a.rounds tenant id
        (continue_each c.service a.steps tenant body parts 0 w.steps (w, []) s)

unfoldable pub continue_workflow :
    ℕ → Coordinator → Calls → String → String → String → List Part → JournalStore → Run
unfolding continue_known get_workflow
continue_workflow fuel c a tenant id body parts s =
    continue_known fuel c a tenant id body parts (get_workflow tenant id s) s
