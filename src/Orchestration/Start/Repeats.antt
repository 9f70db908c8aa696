-- ===== src/Orchestration/Start/Repeats.antt =====
-- A workflow that is started again.
use agent_federation_hub.Base.{
  arith, ℕ, String, ◌≡◌, refl, ap, false, ◌&&◌, ◌||◌, List, [], none, some, ◌==◌, eqb, length,
  if◌then◌else◌,
}
use agent_federation_hub.Base.Dict.{lookup}
use agent_federation_hub.Base.Int.{eqb_ℤ}
use agent_federation_hub.Base.Text.{trim}
use agent_federation_hub.Model.Workflow.{Workflow, WorkflowStep, WorkflowEvent, pending}
use agent_federation_hub.Store.State.{conflict, Result, ok, err, Maps, JournalStore}
use agent_federation_hub.Store.Journal.{resource_key}
use agent_federation_hub.Store.Workflows.{create_workflow, create_workflow_plan, get_workflow}
use agent_federation_hub.Store.Writes.{Took, transact-ok}
use agent_federation_hub.Hub.Service.{Draws}
use agent_federation_hub.Hub.Submission.{is_conflict}
use agent_federation_hub.Orchestration.Steps.{workflow_event}
use agent_federation_hub.Orchestration.Rounds.{Coordinator, Round}
use agent_federation_hub.Orchestration.Definition.{
  WorkflowDefinition, define_workflow, new_workflow, version_of, workflow_id,
}
use agent_federation_hub.Orchestration.Runs.{done}
use agent_federation_hub.Orchestration.Start.{start_workflow, existing_run, is_same_definition}

create_known :
    (id : String) (w old : Workflow) (e : WorkflowEvent) (s : JournalStore)
    → (w.tenant_id == "" || w.id == "" || eqb (length w.steps) 0) ≡ false
    → lookup (resource_key w.tenant_id w.id) s.maps.workflows ≡ some old
    → create_workflow id w e s ≡ (err conflict, s)
unfolding create_workflow
create_known id w old e s complete there = rw (complete, there) refl

get_stored :
    (tenant id : String) (w : Workflow) (s : JournalStore)
    → lookup (resource_key tenant id) s.maps.workflows ≡ some w
    → get_workflow tenant id s ≡ ok w
unfolding get_workflow
get_stored tenant id w s h = rw h

known_answer :
    (definition : WorkflowDefinition) (old : Workflow)
    → (trim definition.idempotency_key == "") ≡ false
    → existing_run definition conflict (ok old)
      ≡ (if is_same_definition definition old then ok (old, []) else err conflict)
unfolding existing_run is_conflict
known_answer definition old named = rw named refl

-- What the creation of a workflow tells of it.
created_fields :
    (id : String) (w v : Workflow) (e : WorkflowEvent) (m m' : Maps)
    → Took (create_workflow_plan id w e m) v m m'
    → ((w.tenant_id == "") ≡ false)
      × ((w.id == "") ≡ false)
      × (v.id ≡ w.id)
      × (v.idempotency_key ≡ w.idempotency_key)
      × (v.definition_version ≡ w.definition_version)
unfolding create_workflow_plan
created_fields id w v e m m' h = ground arith

same_id :
    (digest : String → String) (drawn drawn' tenant : String) (x y : WorkflowDefinition)
    → x.id ≡ ""
    → y.id ≡ ""
    → (trim x.idempotency_key == "") ≡ false
    → trim y.idempotency_key ≡ trim x.idempotency_key
    → workflow_id digest drawn' tenant y ≡ workflow_id digest drawn tenant x
unfolding workflow_id
same_id digest drawn drawn' tenant x y a b named same = rw (a, b, same, named) refl

-- Where StartWorkflow has created a workflow for a definition without an identifier and with a
-- key that is not blank, and the workflow is there later with its key and its version: starting a
-- second definition without an identifier that has the same key up to blanks around it, passes
-- the checks and has a step, changes nothing, whatever identifiers and times are drawn and
-- whatever Agents would answer. The answer is the workflow that is there, if the two definitions
-- have the same version and the key of the first one has no blanks around it, and a conflict
-- otherwise.
pub repeated_start :
    (fuel : ℕ) (c : Coordinator) (d d' : Draws) (env : ℕ → Draws) (rounds : ℕ → Round)
    (tenant : String) (first second : WorkflowDefinition) (xs ys : List WorkflowStep)
    (w old : Workflow) (s s1 s2 : JournalStore)
    → first.id ≡ ""
    → second.id ≡ ""
    → (trim first.idempotency_key == "") ≡ false
    → trim second.idempotency_key ≡ trim first.idempotency_key
    → create_workflow
        (d.id 1)
        (new_workflow
          (workflow_id c.service.digest (d.id 0) tenant first)
          tenant
          (d.time 0)
          first
          xs)
        (workflow_event "workflow.created" "hub" pending "" none (d.time 0))
        s
      ≡ (ok w, s1)
    → lookup (resource_key tenant w.id) s2.maps.workflows ≡ some old
    → old.idempotency_key ≡ w.idempotency_key
    → old.definition_version ≡ w.definition_version
    → define_workflow c.service.formats tenant second ≡ ok ys
    → eqb (length ys) 0 ≡ false
    → start_workflow fuel c d' env rounds tenant second s2
      ≡ done
          (if first.idempotency_key == trim first.idempotency_key
              && eqb_ℤ (version_of first) (version_of second)
            then ok (old, [])
            else err conflict)
          s2
unfolding start_workflow new_workflow get_workflow create_workflow is_same_definition
repeated_start fuel c d d' env rounds tenant first second xs ys w old s s1 s2 a b named same created
      there key version defined steps =
    let id = workflow_id c.service.digest (d.id 0) tenant first in
    let id' = workflow_id c.service.digest (d'.id 0) tenant second in
    let event = workflow_event "workflow.created" "hub" pending "" none (d.time 0) in
    let w1 = new_workflow id tenant (d.time 0) first xs in
    let fields =
      created_fields (d.id 1) w1 w event s.maps s1.maps
        (transact-ok (create_workflow_plan (d.id 1) w1 event) w s s1 created) in
    let again : id' ≡ id =
      same_id c.service.digest (d.id 0) (d'.id 0) tenant first second a b named same in
    let own : w.id ≡ id' = cc (fields.2, again) in
    let found : lookup (resource_key tenant id') s2.maps.workflows ≡ some old = rw (← own) there in
    let complete : (tenant == "" || id' == "" || eqb (length ys) 0) ≡ false =
      rw (again, fields.0, fields.1, steps) refl in
    let w2 = new_workflow id' tenant (d'.time 0) second ys in
    let again_event = workflow_event "workflow.created" "hub" pending "" none (d'.time 0) in
    let refused = create_known (d'.id 1) w2 old again_event s2 complete found in
    let left = ap (λ (x : Result Workflow × JournalStore). x.1) refused in
    rw (defined, start_workflow)
      (rw refused (
        rw left (
          rw (get_stored tenant id' old s2 found) (
            rw (known_answer second old (rw same named))
              (rw (key, fields.3, version, fields.4, same) refl)))))
