-- ===== src/Orchestration/Control/Pausing.antt =====
-- What pausing, resuming and following a step make of the state of a workflow.
use agent_federation_hub.Base.{
  ℕ, String, ◌≡◌, ◌≢◌, refl, sym, subst, ap, ap₂, ◌∙◌, Bool, true, false, not, none, some, List,
  arith, if◌then◌else◌,
}
use agent_federation_hub.Base.Dict.{lookup}
use agent_federation_hub.Model.{Task}
use agent_federation_hub.Model.Workflow.{
  Workflow, WorkflowEvent, WorkflowStep, paused, canceled, unset,
}
use agent_federation_hub.Store.State.{Error, rejected, Result, ok, err, JournalStore}
use agent_federation_hub.Store.Journal.{resource_key}
use agent_federation_hub.Store.Workflows.{WorkflowMutation, get_workflow}
use agent_federation_hub.Hub.Service.{Draws}
use agent_federation_hub.Orchestration.States.{workflow_state_for_steps}
use agent_federation_hub.Orchestration.Steps.{
  with_steps, set_step, status_step, cannot_pause, is_paused, pause_update, resume_update,
  status_update, workflow_event,
}
use agent_federation_hub.Orchestration.Control.{
  change, revision_key, pause_known, pause_workflow, resume_known, resume_workflow, step_key,
  update_step,
}
use agent_federation_hub.Orchestration.Control.Changes.{next_workflow, IsNewKey, change_made}

-- The store files the workflow under its own key.
abbrev pub IsStored : String → String → Workflow → JournalStore → Type 0
IsStored tenant id w s =
    (lookup (resource_key tenant id) s.maps.workflows ≡ some w)
    × (w.tenant_id ≡ tenant)
    × (w.id ≡ id)

get_stored :
    (tenant id : String) (w : Workflow) (s : JournalStore)
    → lookup (resource_key tenant id) s.maps.workflows ≡ some w
    → get_workflow tenant id s ≡ ok w
unfolding get_workflow
get_stored tenant id w s h = rw h

abbrev Answer : Type 0
Answer = Result Workflow × JournalStore

-- A call that succeeded passed its check.
past_check :
    (b : Bool) (e : Error) (s : JournalStore) (r : Answer) (v : Workflow) (t : JournalStore)
    → (if b then (err e, s) else r) ≡ (ok v, t)
    → (b ≡ false) × (r ≡ (ok v, t))
past_check true e s r v t h = cc
past_check false e s r v t h = (refl, h)

IsStored-change :
    (id tenant workflow_id dedup : String) (f : WorkflowMutation) (w w' v : Workflow)
    (e : WorkflowEvent) (s t : JournalStore)
    → IsStored tenant workflow_id w s
    → IsNewKey tenant workflow_id dedup s
    → f w ≡ ok (w', e)
    → (w'.tenant_id ≡ w.tenant_id) × (w'.id ≡ w.id)
    → change id tenant workflow_id dedup f s ≡ (ok v, t)
    → (v ≡ next_workflow w') × IsStored tenant workflow_id v t
IsStored-change id tenant workflow_id dedup f w w' v e s t (found, own_tenant, own_id) new_key made
      same h =
    let tenant_kept : w'.tenant_id ≡ tenant = same.0 ∙ own_tenant in
    let id_kept : w'.id ≡ workflow_id = same.1 ∙ own_id in
    let (answer, filed) =
      change_made id tenant workflow_id dedup f w w' e s found new_key made v t h
        (ap₂ resource_key tenant_kept id_kept) in
    (
      answer,
      (
        filed,
        ap (λ (x : Workflow). x.tenant_id) answer ∙ tenant_kept,
        ap (λ (x : Workflow). x.id) answer ∙ id_kept,
      ),
    )

abbrev paused_workflow : Draws → Workflow → Workflow
paused_workflow d w = record w { paused_from = w.state; state = paused; updated_at = d.time 0 }

pausing :
    (d : Draws) (tenant id : String) (w v : Workflow) (s t : JournalStore)
    → IsStored tenant id w s
    → IsNewKey tenant id (revision_key "workflow:pause:" w) s
    → pause_workflow d tenant id s ≡ (ok v, t)
    → (v ≡ next_workflow (paused_workflow d w)) × IsStored tenant id v t
unfolding pause_workflow pause_known pause_update
pausing d tenant id w v s t stored new_key h =
    let known =
      subst (λ r. pause_known d tenant id r s ≡ (ok v, t)) (get_stored tenant id w s stored.0) h in
    let key = revision_key "workflow:pause:" w in
    let (can, q) =
      past_check (cannot_pause w.state) (rejected "workflow cannot be paused") s
        (change (d.id 0) tenant id key (pause_update (d.time 0)) s) v t known in
    IsStored-change (d.id 0) tenant id key (pause_update (d.time 0)) w (paused_workflow d w) v
      (workflow_event "workflow.paused" "operator" paused "" none (d.time 0)) s t stored new_key
      (rw can refl) (refl, refl) q

abbrev resumed_workflow : Draws → Workflow → Workflow
resumed_workflow d w = record (with_steps (d.time 0) w.steps w) { paused_from = unset }

resuming :
    (d : Draws) (tenant id : String) (w v : Workflow) (s t : JournalStore)
    → IsStored tenant id w s
    → IsNewKey tenant id (revision_key "workflow:resume:" w) s
    → resume_workflow d tenant id s ≡ (ok v, t)
    → (v ≡ next_workflow (resumed_workflow d w)) × IsStored tenant id v t
unfolding resume_workflow resume_known resume_update
resuming d tenant id w v s t stored new_key h =
    let known =
      subst (λ r. resume_known d tenant id r s ≡ (ok v, t)) (get_stored tenant id w s stored.0) h in
    let key = revision_key "workflow:resume:" w in
    let w' = resumed_workflow d w in
    let (can, q) =
      past_check (not (is_paused w.state)) (rejected "workflow cannot be resumed") s
        (change (d.id 0) tenant id key (resume_update (d.time 0)) s) v t known in
    IsStored-change (d.id 0) tenant id key (resume_update (d.time 0)) w w' v
      (workflow_event "workflow.resumed" "operator" w'.state "" none (d.time 0)) s t stored new_key
      (rw can refl) (refl, refl) q

-- Where the store files a workflow under its own key: when it is paused and then resumed, both under
-- keys that are new, and both calls succeed, it is stored with its steps as they were and with the
-- state of those steps, whatever its state was before.
pub resume_after_pause :
    (d d' : Draws) (tenant id : String) (w paused_one resumed : Workflow) (s s' s'' : JournalStore)
    → IsStored tenant id w s
    → IsNewKey tenant id (revision_key "workflow:pause:" w) s
    → pause_workflow d tenant id s ≡ (ok paused_one, s')
    → IsNewKey tenant id (revision_key "workflow:resume:" paused_one) s'
    → resume_workflow d' tenant id s' ≡ (ok resumed, s'')
    → (lookup (resource_key tenant id) s''.maps.workflows ≡ some resumed)
      × (resumed.steps ≡ w.steps)
      × (resumed.state ≡ workflow_state_for_steps w.steps)
resume_after_pause d d' tenant id w paused_one resumed s s' s'' stored new_key h new_key' h' =
    let (p, stored') = pausing d tenant id w paused_one s s' stored new_key h in
    let (r, stored'') = resuming d' tenant id paused_one resumed s' s'' stored' new_key' h' in
    (
      stored''.0,
      ap (λ (x : Workflow). x.steps) r ∙ ap (λ (x : Workflow). x.steps) p,
      ap (λ (x : Workflow). x.state) r ∙ ap (λ (x : Workflow). workflow_state_for_steps x.steps) p,
    )

never_canceled : (xs : List WorkflowStep) → workflow_state_for_steps xs ≢ canceled
unfolding workflow_state_for_steps
never_canceled xs e = ground (arith, e)

-- Where the store files a workflow under its own key: recording the state of the Task of one of its
-- steps, under a key that is new, gives the workflow the state of its steps, and that is never
-- CANCELED. So a workflow that was cancelled does not stay so.
pub update_step_revives :
    (d : Draws) (seen w v : Workflow) (i : ℕ) (x : WorkflowStep) (t : Task) (s s' : JournalStore)
    → IsStored seen.tenant_id seen.id w s
    → IsNewKey seen.tenant_id seen.id (step_key x t) s
    → update_step d seen i x t s ≡ (ok v, s')
    → (v.state ≡ workflow_state_for_steps (set_step i (status_step t) w.steps))
      × (v.state ≢ canceled)
      × (lookup (resource_key seen.tenant_id seen.id) s'.maps.workflows ≡ some v)
unfolding update_step status_update
update_step_revives d seen w v i x t s s' stored new_key h =
    let w' = with_steps (d.time 0) (set_step i (status_step t) w.steps) w in
    let (r, stored') =
      IsStored-change (d.id 0) seen.tenant_id seen.id (step_key x t)
        (status_update (d.time 0) i x.id t) w w' v
        (workflow_event "workflow.step.status" "hub" w'.state x.id none (d.time 0)) s s' stored
        new_key refl (refl, refl) h in
    let state : v.state ≡ workflow_state_for_steps (set_step i (status_step t) w.steps) =
      ap (λ (y : Workflow). y.state) r in
    (state, (λ e. never_canceled (set_step i (status_step t) w.steps) (sym state ∙ e)), stored'.0)
