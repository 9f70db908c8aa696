-- ===== src/Orchestration/Compensation/Retry.antt =====
-- A compensation that is tried again after its submission failed.
use text.Mathlib.TextLemmas.{append-eq-nil_iff}
use mathlib.Core.Bool.{false≢true}
use agent_federation_hub.Base.{
  ℕ, String, ◌≡◌, ◌≢◌, refl, sym, ap, ◌∙◌, true, false, List, ◌∷◌, some, subst, inl, inr, ◌==◌,
  text_ne, eq_refl, Bool-cases,
}
use agent_federation_hub.Base.Dict.{lookup, lookup-insert, lookup_or-insert}
use agent_federation_hub.Model.{Task}
use agent_federation_hub.Model.Workflow.{Workflow, WorkflowStep}
use agent_federation_hub.Store.State.{Error, Result, ok, err, Maps, JournalStore}
use agent_federation_hub.Store.Journal.{resource_key, apply_record, put_workflow}
use agent_federation_hub.Store.Tasks.{has_key, is_stale}
use agent_federation_hub.Store.Workflows.{
  WorkflowMutation, workflow_record, stamp_workflow_event, apply_workflow_version, get_workflow,
}
use agent_federation_hub.Model.Workflow.{WorkflowEvent}
use agent_federation_hub.Orchestration.Control.Changes.{
  next_workflow, record_of_change, change_write,
}
use agent_federation_hub.Store.Writes.{after_write, after_write-changed}
use agent_federation_hub.Store.Operations.{Operation, applies_workflow, step, run}
use agent_federation_hub.Store.Operations.Known.{workflow-run, workflow_key-run}
use agent_federation_hub.Hub.Service.{Draws}
use agent_federation_hub.Orchestration.Control.{change, Failures}
use agent_federation_hub.Orchestration.Rounds.{Coordinator}
use agent_federation_hub.Orchestration.Compensation.{
  Compensating, compensation_key, unsubmitted_update, compensation_update, record_compensation,
}

-- A change under a key that was used answers with what is stored and changes nothing.
change_known :
    (id tenant workflow_id dedup : String) (f : WorkflowMutation) (w : Workflow) (s : JournalStore)
    → lookup (resource_key tenant workflow_id) s.maps.workflows ≡ some w
    → has_key s.maps.workflow_dedup (resource_key tenant workflow_id) dedup ≡ true
    → change id tenant workflow_id dedup f s ≡ (ok w, s)
unfolding change apply_workflow_version is_stale
change_known id tenant workflow_id dedup f w s found used = rw (found, used) refl

not_recorded :
    (c : Coordinator) (d : Draws) (tenant id : String) (i : ℕ) (x : WorkflowStep)
    (w stored : Workflow) (fs : Failures) (t : Task) (s : JournalStore)
    → lookup (resource_key tenant id) s.maps.workflows ≡ some stored
    → has_key s.maps.workflow_dedup (resource_key tenant id) (compensation_key x) ≡ true
    → record_compensation c d tenant id i x (w, fs) (ok t) s ≡ (ok (stored, fs), s)
unfolding record_compensation get_workflow
not_recorded c d tenant id i x w stored fs t s found used =
    rw (found, record_compensation)
      (rw
        (change_known (d.id 0) tenant id (compensation_key x)
          (compensation_update (d.time 0) i x.id t) stored s found used)
        refl)

-- The key of a compensation is not empty.
compensation_key-named : (x : WorkflowStep) → (compensation_key x == "") ≡ false
compensation_key-named x = text_ne (compensation_key x) "" λ e.
    let none_left : ◌≡◌ {A = String} "compensation:" "" =
      ((append-eq-nil_iff {p = "compensation:"} {q = x.id}).0 e).0 in
    false≢true (ap (λ (y : String). y == "") none_left)

used_by_record :
    (id dedup : String) (w : Workflow) (e : WorkflowEvent) (m : Maps)
    → (dedup == "") ≡ false
    → has_key
        (apply_record (workflow_record w (stamp_workflow_event id w dedup e)) m).workflow_dedup
        (resource_key w.tenant_id w.id)
        dedup
      ≡ true
unfolding has_key apply_record workflow_record stamp_workflow_event put_workflow
used_by_record id dedup w e m named =
    rw (named, lookup_or-insert) (rw eq_refl (rw lookup-insert (rw eq_refl)))

known_change :
    (id tenant workflow_id dedup : String) (f : WorkflowMutation) (w : Workflow) (s : JournalStore)
    → lookup (resource_key tenant workflow_id) s.maps.workflows ≡ some w
    → has_key s.maps.workflow_dedup (resource_key tenant workflow_id) dedup ≡ true
    → (apply_workflow_version id tenant workflow_id 0 dedup f s).1.maps ≡ s.maps
unfolding apply_workflow_version is_stale
known_change id tenant workflow_id dedup f w s found known = rw (found, known) refl

-- A change that was written leaves its key behind.
key_used :
    (id tenant workflow_id dedup : String) (f : WorkflowMutation) (w w' : Workflow)
    (e : WorkflowEvent) (s s1 : JournalStore)
    → lookup (resource_key tenant workflow_id) s.maps.workflows ≡ some w
    → f w ≡ ok (w', e)
    → (dedup == "") ≡ false
    → resource_key w'.tenant_id w'.id ≡ resource_key tenant workflow_id
    → s1 ≡ (apply_workflow_version id tenant workflow_id 0 dedup f s).1
    → s1.maps ≢ s.maps
    → has_key s1.maps.workflow_dedup (resource_key tenant workflow_id) dedup ≡ true
key_used id tenant workflow_id dedup f w w' e s s1 found made named own first changed =
    elim (Bool-cases (has_key s.maps.workflow_dedup (resource_key tenant workflow_id) dedup)) [
      | inl known ↦
          absurd (changed (rw first (known_change id tenant workflow_id dedup f w s found known)))
      | inr new_key ↦
          let r = record_of_change id tenant workflow_id dedup f w w' e s found new_key made in
          let write : s1 ≡ after_write r s =
            first ∙ change_write id tenant workflow_id dedup f w w' e s found new_key made in
          let maps : s1.maps ≡ apply_record r s.maps =
            rw write (after_write-changed r s (rw (← write) changed)) in
          rw (maps, ← own) (used_by_record id dedup (next_workflow w') e s.maps named)
    ]

-- Where a workflow is filed under its own key, the submission of a compensation of one of its
-- steps has failed, and recording the failure has changed the store: after any further operations
-- of the store the workflow is there, and recording the Task of another attempt at the
-- compensation of that step, whatever the Task, changes nothing: the workflow stays as it is
-- stored then, without that Task, and the call goes on without an error.
pub retry_is_lost :
    (c : Coordinator) (d d' : Draws) (tenant id : String) (i i' : ℕ) (x x' : WorkflowStep)
    (w w' stored : Workflow) (fs fs' : Failures) (e : Error) (t : Task) (os : List Operation)
    (r : Result Compensating) (s s1 : JournalStore)
    → lookup (resource_key tenant id) s.maps.workflows ≡ some stored
    → resource_key stored.tenant_id stored.id ≡ resource_key tenant id
    → record_compensation c d tenant id i x (w, fs) (err e) s ≡ (r, s1)
    → s1.maps ≢ s.maps
    → x'.id ≡ x.id
    → (v : Workflow) × (lookup (resource_key tenant id) (run os s1).maps.workflows ≡ some v)
      × (record_compensation c d' tenant id i' x' (w', fs') (ok t) (run os s1)
          ≡ (ok (v, fs'), run os s1))
unfolding record_compensation unsubmitted_update run step
retry_is_lost c d d' tenant id i i' x x' w w' stored fs fs' e t os r s s1 found own failed changed
      same =
    let first : (record_compensation c d tenant id i x (w, fs) (err e) s).1 ≡ s1 =
      ap (λ y. y.1) failed in
    let used =
      key_used (d.id 0) tenant id (compensation_key x)
        (unsubmitted_update (d.time 0) i x.id (c.message e)) stored _ _ s s1 found refl
        (compensation_key-named x) own (sym first) changed in
    let (v, kept) =
      workflow-run
        (applies_workflow (d.id 0) tenant id 0 (compensation_key x)
            (unsubmitted_update (d.time 0) i x.id (c.message e))
          ∷ os)
        s (resource_key tenant id) stored found in
    let there : lookup (resource_key tenant id) (run os s1).maps.workflows ≡ some v =
      subst (λ u. lookup (resource_key tenant id) (run os u).maps.workflows ≡ some v) first kept in
    let still = workflow_key-run os s1 (resource_key tenant id) (compensation_key x) used in
    (v, there, not_recorded c d' tenant id i' x' w' v fs' t (run os s1) there (rw same still))
