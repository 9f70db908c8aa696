-- ===== src/Orchestration/Control/Changes.antt =====
-- A change of a stored workflow whose deduplication key is new.
use agent_federation_hub.Base.{◌+◌, String, ◌≡◌, refl, subst, false, some, eq_refl}
use agent_federation_hub.Base.Int.{u64}
use agent_federation_hub.Base.Dict.{lookup, insert, lookup-insert}
use agent_federation_hub.Model.Workflow.{Workflow, WorkflowEvent}
use agent_federation_hub.Store.State.{
  Result, ok, err, Applied, applied, duplicate, stale, Maps, JournalRecord, JournalStore,
}
use agent_federation_hub.Store.Journal.{resource_key, write, apply_record, put_workflow}
use agent_federation_hub.Store.Writes.{Took, transact-ok, after_write, transact-after_write}
use agent_federation_hub.Store.Tasks.{has_key, is_stale}
use agent_federation_hub.Store.Workflows.{
  WorkflowMutation, workflow_record, stamp_workflow_event, apply_workflow_plan,
  apply_workflow_version,
}
use agent_federation_hub.Orchestration.Control.{workflow_of, change}

-- The next revision of a workflow, as the store files it.
abbrev pub next_workflow : Workflow → Workflow
next_workflow w = record w {
  revision = u64 (w.revision + 1);
  last_sequence = u64 (w.last_sequence + 1);
}

-- The change that is made under a key was not made before.
abbrev pub IsNewKey : String → String → String → JournalStore → Type 0
IsNewKey tenant id dedup s = has_key s.maps.workflow_dedup (resource_key tenant id) dedup ≡ false

workflow_of_cases :
    (r : Result (Applied Workflow) × JournalStore) (w : Workflow) (s : JournalStore)
    → workflow_of r ≡ (ok w, s)
    → (a : Applied Workflow) × (r ≡ (ok a, s))
unfolding workflow_of
workflow_of_cases (ok (applied v), t) w s h = (applied v, cc)
workflow_of_cases (ok (duplicate v), t) w s h = (duplicate v, cc)
workflow_of_cases (ok (stale v), t) w s h = cc
workflow_of_cases (err e, t) w s h = cc

applied_workflow :
    (a : Applied Workflow) (v w : Workflow) (s t : JournalStore)
    → applied v ≡ a
    → workflow_of (ok a, t) ≡ (ok w, s)
    → (w ≡ v) × (s ≡ t)
unfolding workflow_of
applied_workflow (applied u) v w s t e h = (cc (e, h), cc (h))
applied_workflow (duplicate u) v w s t e h = cc
applied_workflow (stale u) v w s t e h = cc

put_workflow-workflows :
    (w : Workflow) (e : WorkflowEvent) (m : Maps)
    → (put_workflow (some w) (some e) m).workflows
      ≡ insert (resource_key w.tenant_id w.id) w m.workflows
unfolding put_workflow
put_workflow-workflows w e m = refl

module _ (id tenant workflow_id dedup : String) (f : WorkflowMutation) (w w' : Workflow)
    (e : WorkflowEvent) (s : JournalStore)
    (found : lookup (resource_key tenant workflow_id) s.maps.workflows ≡ some w)
    (new_key : IsNewKey tenant workflow_id dedup s) (made : f w ≡ ok (w', e)) where
  abbrev pub record_of_change : JournalRecord
  record_of_change =
      workflow_record (next_workflow w') (stamp_workflow_event id (next_workflow w') dedup e)

  plan_new :
      apply_workflow_plan id tenant workflow_id 0 dedup f s.maps
      ≡ write record_of_change (applied (next_workflow w'))
  unfolding apply_workflow_plan is_stale
  plan_new = rw (found, new_key, made) refl

  -- The store after the change, whether its write succeeded or not.
  pub change_write :
      (apply_workflow_version id tenant workflow_id 0 dedup f s).1 ≡ after_write record_of_change s
  unfolding apply_workflow_version
  change_write =
      transact-after_write (apply_workflow_plan id tenant workflow_id 0 dedup f) record_of_change
        (applied (next_workflow w')) _ s _ plan_new refl

  Took-change :
      (a : Applied Workflow) (t : JournalStore)
      → apply_workflow_version id tenant workflow_id 0 dedup f s ≡ (ok a, t)
      → (applied (next_workflow w') ≡ a) × (t.maps ≡ apply_record record_of_change s.maps)
  unfolding apply_workflow_version
  Took-change a t h =
      subst (λ p. Took p a s.maps t.maps) plan_new
        (transact-ok (apply_workflow_plan id tenant workflow_id 0 dedup f) a s t h)

  -- The change answers with the next revision of what the callback made, and files it.
  pub change_made :
      (v : Workflow) (t : JournalStore)
      → change id tenant workflow_id dedup f s ≡ (ok v, t)
      → resource_key w'.tenant_id w'.id ≡ resource_key tenant workflow_id
      → (v ≡ next_workflow w')
        × (lookup (resource_key tenant workflow_id) t.maps.workflows ≡ some v)
  unfolding change apply_record workflow_record
  change_made v t h own =
      let (a, q) =
        workflow_of_cases (apply_workflow_version id tenant workflow_id 0 dedup f s) v t h in
      let (same, written) = Took-change a t q in
      let (answer, end) = applied_workflow a (next_workflow w') v t t same (cc (h, q)) in
      let filed : t.maps.workflows
          ≡ insert (resource_key tenant workflow_id) (next_workflow w') s.maps.workflows =
        rw (written, ← own) (put_workflow-workflows (next_workflow w') _ s.maps) in
      (answer, rw (filed, answer, lookup-insert, eq_refl) refl)
