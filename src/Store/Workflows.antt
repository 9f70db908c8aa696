-- ===== src/Store/Workflows.antt =====
-- Workflows (internal/core/store.go): CreateWorkflow, ApplyWorkflowVersion, GetWorkflow,
-- ListWorkflows. The identifier that `NewID` draws is an argument.
use agent_federation_hub.Base.{
  ℕ, ◌+◌, String, Bool, ◌||◌, List, Option, none, some, ◌==◌, text_ltb, if◌then◌else◌, select, map,
  length, eqb,
}
use agent_federation_hub.Base.Int.{u64}
use agent_federation_hub.Base.Dict.{lookup}
use agent_federation_hub.Base.Sort.{sort}
use agent_federation_hub.Model.Workflow.{Workflow, WorkflowEvent}
use agent_federation_hub.Store.State.{
  not_found, conflict, invalid, Result, ok, err, Applied, applied, duplicate, stale, workflow,
  record_of, JournalRecord, Maps, JournalStore,
}
use agent_federation_hub.Store.Journal.{resource_key, Plan, reply, refuse, write, transact}
use agent_federation_hub.Store.Tasks.{local_key, has_key, is_stale, or_not_found}

unfoldable pub workflow_record : Workflow → WorkflowEvent → JournalRecord
workflow_record w e = record (record_of workflow) {
  workflow_entry = some w;
  workflow_event = some e;
}

unfoldable pub stamp_workflow_event : String → Workflow → String → WorkflowEvent → WorkflowEvent
unfolding local_key
stamp_workflow_event id w key e = record e {
  id = id;
  workflow_id = w.id;
  tenant_id = w.tenant_id;
  sequence = w.last_sequence;
  dedup_key = local_key id key;
}

unfoldable pub create_workflow_plan : String → Workflow → WorkflowEvent → Maps → Plan Workflow
unfolding workflow_record stamp_workflow_event
create_workflow_plan id w e m =
    let w' = record w { revision = 1; last_sequence = 1 } in
    if w.tenant_id == "" || w.id == "" || eqb (length w.steps) 0
    then refuse (invalid "workflow tenant, ID, and steps are required")
    else elim (lookup (resource_key w.tenant_id w.id) m.workflows) [
      | some _ ↦ refuse conflict
      | none ↦ write (workflow_record w' (stamp_workflow_event id w' e.dedup_key e)) w'
    ]

unfoldable pub create_workflow :
    String → Workflow → WorkflowEvent → JournalStore → Result Workflow × JournalStore
unfolding create_workflow_plan transact
create_workflow id w e s = transact (create_workflow_plan id w e) s

abbrev pub WorkflowMutation : Type 0
WorkflowMutation = Workflow → Result (Workflow × WorkflowEvent)

unfoldable pub apply_workflow_mutation :
    String → String → Result (Workflow × WorkflowEvent) → Plan (Applied Workflow)
unfolding workflow_record stamp_workflow_event
apply_workflow_mutation id dedup (err e) = refuse e
apply_workflow_mutation id dedup (ok (w, e)) =
    let w' = record w {
      revision = u64 (w.revision + 1);
      last_sequence = u64 (w.last_sequence + 1);
    } in
    write (workflow_record w' (stamp_workflow_event id w' dedup e)) (applied w')

unfoldable pub apply_current_workflow :
    String → ℕ → String → WorkflowMutation → Bool → Option Workflow → Plan (Applied Workflow)
unfolding apply_workflow_mutation is_stale
apply_current_workflow id expected dedup mutate known none = refuse not_found
apply_current_workflow id expected dedup mutate known (some w) =
    if is_stale expected w.revision
    then reply (stale w)
    else if known
    then reply (duplicate w)
    else apply_workflow_mutation id dedup (mutate w)

unfoldable pub apply_workflow_plan :
    String → String → String → ℕ → String → WorkflowMutation → Maps → Plan (Applied Workflow)
unfolding apply_current_workflow has_key
apply_workflow_plan id tenant workflow_id expected dedup mutate m =
    let key = resource_key tenant workflow_id in
    apply_current_workflow id expected dedup mutate (has_key m.workflow_dedup key dedup)
      (lookup key m.workflows)

unfoldable pub apply_workflow_version :
    String
    → String
    → String
    → ℕ
    → String
    → WorkflowMutation
    → JournalStore
    → Result (Applied Workflow) × JournalStore
unfolding apply_workflow_plan transact
apply_workflow_version id tenant workflow_id expected dedup mutate s =
    transact (apply_workflow_plan id tenant workflow_id expected dedup mutate) s

unfoldable pub get_workflow : String → String → JournalStore → Result Workflow
unfolding or_not_found
get_workflow tenant id s = or_not_found (lookup (resource_key tenant id) s.maps.workflows)

unfoldable pub list_workflows : String → JournalStore → List Workflow
unfolding sort
list_workflows tenant s =
    sort (λ a b. text_ltb a.id b.id)
      (select (λ w. w.tenant_id == tenant) (map (λ e. e.1) s.maps.workflows))
