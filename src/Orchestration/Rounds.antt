-- ===== src/Orchestration/Rounds.antt =====
-- The scheduler of a workflow's steps (submitWorkflowReady of internal/orchestration/workflow.go). The
-- branches of a round run one after another, and their results are recorded after that, in the
-- order of the steps.
use Prim.Native.String.{◌++◌ as text_append}
use agent_federation_hub.Base.{
  ℕ, zero, suc, String, Bool, true, false, List, [], ◌∷◌, ◌++◌, none, some, get_elem?, take,
}
use agent_federation_hub.Base.Int.{pos}
use agent_federation_hub.Model.{Task}
use agent_federation_hub.Model.Workflow.{Workflow, WorkflowStep}
use agent_federation_hub.Store.State.{
  Error, invalid, rejected, Result, ok, err, Applied, applied, duplicate, stale, revision_conflict,
  JournalStore,
}
use agent_federation_hub.Store.Journal.{and_then}
use agent_federation_hub.Store.Workflows.{apply_workflow_version, get_workflow}
use agent_federation_hub.Hub.Service.{Service, Draws, Remote}
use agent_federation_hub.Hub.Submission.{SubmitTaskInput, submit_task}
use agent_federation_hub.Orchestration.Inputs.{WorkflowInput, project_artifact_inputs}
use agent_federation_hub.Orchestration.Schedule.{ready_steps, blocked_steps}
use agent_federation_hub.Orchestration.Steps.{blocked_update, submitted_update}
use agent_federation_hub.Orchestration.Control.{Failures, change}

-- Coordinator: the service, the answers of the vault of inputs to Get and Put, and the texts of errors.
pub record Coordinator : Type 0 where
  pub service : Service
  pub read_input : String → String → Result WorkflowInput
  pub store_input : String → String → String → WorkflowInput → Result String
  pub digest_input : WorkflowInput → String
  pub message : Error → String

-- What is drawn and answered for one step of a round: while its Task is submitted, and while the result
-- is recorded.
pub record Branch : Type 0 where
  pub draws : Draws
  pub remote : Remote
  pub recorded : Draws

-- The request for a step's Task. No callback is asked for, so no token is drawn.
unfoldable pub step_request : String → String → WorkflowInput → SubmitTaskInput
step_request agent_id skill i = record {
  agent_id = agent_id;
  skill = skill;
  body = i.body;
  parts = i.parts;
  enable_push = false;
  priority = pos 0;
  extensions = [];
  metadata = [];
  idempotency_key = "";
}

abbrev pub no_token : Result String
no_token = err (invalid "no token is drawn")

unfoldable pub start_step :
    Coordinator
    → Branch
    → String
    → Workflow
    → WorkflowStep
    → JournalStore
    → Result Task × JournalStore
unfolding project_artifact_inputs submit_task step_request
start_step c b tenant w x s = elim (c.read_input tenant x.input_ref) [
  | err e ↦ (err e, s)
  | ok i ↦ elim (project_artifact_inputs tenant w.steps s x.artifact_inputs) [
    | err e ↦ (err e, s)
    | ok ps ↦
        submit_task c.service b.draws no_token b.remote tenant
          (step_request x.agent_id x.skill (record i { parts = i.parts ++ ps })) s
  ]
]

-- A step that was started, with its index.
abbrev pub Started : Type 0
Started = ℕ × WorkflowStep × Result Task

unfoldable pub start_each :
    Coordinator
    → (ℕ → Branch)
    → String
    → Workflow
    → List ℕ
    → JournalStore
    → List Started × JournalStore
unfolding start_step
start_each c env tenant w [] s = ([], s)
start_each c env tenant w (i ∷ is) s = elim (get_elem? w.steps i) [
  | none ↦ start_each c env tenant w is s
  | some x ↦
      let (r, s') = start_step c (env i) tenant w x s in
      let (rs, s'') = start_each c env tenant w is s' in ((i, x, r) ∷ rs, s'')
]

-- The failures that the callback notes when it runs.
unfoldable pub noted {ℓ} :
    {A : Type ℓ} → String → Result Task → Result (Applied A) → Result Failures
noted id r (err e) = err e
noted id (ok t) (ok (applied a)) = ok []
noted id (err e) (ok (applied a)) = ok ((id, e) ∷ [])
noted id r (ok (duplicate a)) = ok []
noted id r (ok (stale a)) = err revision_conflict

unfoldable pub record_result :
    Coordinator → Branch → String → String → Started → JournalStore → Result Failures × JournalStore
unfolding apply_workflow_version submitted_update noted
record_result c b tenant id (i, x, r) s =
    let (a, s') =
      apply_workflow_version (b.recorded.id 0) tenant id 0 (text_append "start:" x.id)
        (submitted_update c.message (b.recorded.time 0) i x.id r) s in
    (noted x.id r a, s')

unfoldable pub record_each :
    Coordinator
    → (ℕ → Branch)
    → String
    → String
    → List Started
    → JournalStore
    → Result Failures × JournalStore
unfolding record_result and_then
record_each c env tenant id [] s = (ok [], s)
record_each c env tenant id (r ∷ rs) s =
    and_then (record_result c (env r.0) tenant id r s)
      λ fs s'. and_then (record_each c env tenant id rs s') λ gs s''. (ok (fs ++ gs), s'')

unfoldable pub block_each :
    (ℕ → Draws) → String → Workflow → List ℕ → JournalStore → Result Failures × JournalStore
unfolding change blocked_update and_then
block_each env tenant w [] s = (ok [], s)
block_each env tenant w (i ∷ is) s = elim (get_elem? w.steps i) [
  | none ↦ block_each env tenant w is s
  | some x ↦
      and_then
        (change ((env i).id 0) tenant w.id (text_append "blocked:" x.id)
          (blocked_update ((env i).time 0) i x.id) s)
        λ v s'.
          and_then (block_each env tenant w is s')
            λ fs s''. (ok ((x.id, rejected "required dependency failed") ∷ fs), s'')
]

-- What is drawn and answered in one round.
pub record Round : Type 0 where
  pub branch : ℕ → Branch
  pub refused : ℕ → Draws

abbrev pub Passed : Type 0
Passed = Bool × Failures

-- The rest of a round, where some steps can be ready: whether steps were started, and the failures.
unfoldable pub start_ready :
    Coordinator
    → Round
    → String
    → String
    → ℕ
    → Workflow
    → Failures
    → List ℕ
    → JournalStore
    → Result Passed × JournalStore
unfolding start_each record_each and_then
start_ready c round tenant id limit w fs [] s = (ok (false, fs), s)
start_ready c round tenant id limit w fs (i ∷ is) s =
    let (rs, s') = start_each c round.branch tenant w (take limit (i ∷ is)) s in
    and_then (record_each c round.branch tenant id rs s') λ gs s''. (ok (true, fs ++ gs), s'')

unfoldable pub run_round :
    Coordinator
    → Round
    → String
    → String
    → ℕ
    → Result Workflow
    → JournalStore
    → Result Passed × JournalStore
unfolding block_each start_ready ready_steps blocked_steps and_then
run_round c round tenant id limit (err e) s = (err e, s)
run_round c round tenant id limit (ok w) s =
    and_then (block_each round.refused tenant w (blocked_steps w.steps) s)
      λ fs s'. start_ready c round tenant id limit w fs (ready_steps w.steps) s'

-- How the loop ends. The model bounds the number of its rounds.
pub data Scheduled : Type 0 where
  scheduled : Result Failures → JournalStore → Scheduled
  out_of_rounds : Scheduled

unfoldable pub more_failures : Failures → Scheduled → Scheduled
more_failures fs (scheduled (ok gs) s) = scheduled (ok (fs ++ gs)) s
more_failures fs (scheduled (err e) s) = scheduled (err e) s
more_failures fs out_of_rounds = out_of_rounds

unfoldable pub submit_workflow_ready :
    ℕ → Coordinator → (ℕ → Round) → String → String → ℕ → JournalStore → Scheduled
unfolding run_round get_workflow more_failures
submit_workflow_ready zero c rounds tenant id limit s = out_of_rounds
submit_workflow_ready (suc fuel) c rounds tenant id limit s =
    let (r, s') = run_round c (rounds 0) tenant id limit (get_workflow tenant id s) s in
    let later = submit_workflow_ready fuel c (λ n. rounds (suc n)) tenant id limit s' in
    elim r [
      | err e ↦ scheduled (err e) s'
      | ok (true, fs) ↦ more_failures fs later
      | ok (false, fs) ↦ scheduled (ok fs) s'
    ]
