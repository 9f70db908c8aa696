-- ===== src/Store/Operations/Filed.antt =====
-- Each Task and each Artifact object of JournalStore (internal/core/store.go) stands under the key
-- that its tenant and its identifier make.
use agent_federation_hub.Base.{◌≡◌, refl, List, Option, none, some, arith, All}
use agent_federation_hub.Base.Dict.{All-insert}
use agent_federation_hub.Model.{Task, Event}
use agent_federation_hub.Model.Objects.{ArtifactObject}
use agent_federation_hub.Model.Queue.{OutboxItem}
use agent_federation_hub.Store.State.{
  RecordKind, agent, task, lease, inbox, inbox_state, outbox, outbox_state, revocation, artifact,
  artifact_lease, workflow, worker_control, other, JournalRecord, Maps, JournalStore,
}
use agent_federation_hub.Store.Journal.{
  resource_key, put_task, put_agent, put_lease, put_inbox, put_inbox_state, put_outbox,
  put_outbox_state, put_revocation, put_artifact_object, put_artifact_usage, put_artifact_lease,
  put_workflow, put_worker_control, apply_kind, apply_record,
}
use agent_federation_hub.Store.Writes.{Writes-keep}
use agent_federation_hub.Store.Tasks.Versions.{IsFiled, put_task-tasks}
use agent_federation_hub.Store.Operations.{Operation, step, run, claims_tasks}
use agent_federation_hub.Store.Leases.{claim_recoverable}
use agent_federation_hub.Base.{String}
use agent_federation_hub.Base.Int.{ℤ}
use agent_federation_hub.Model.{Time, Duration}
use agent_federation_hub.Store.Operations.Chains.{step-Writes, run-Writes}

abbrev pub AreFiled : Maps → Type 0
AreFiled m = IsFiled m × All (λ e. resource_key e.1.tenant_id e.1.id ≡ e.0) m.artifact_objects

put_task-objects :
    (t : Option Task) (e : Option Event) (o : Option OutboxItem) (m : Maps)
    → (put_task t e o m).artifact_objects ≡ m.artifact_objects
unfolding put_task
put_task-objects t e o m = ground arith

put_task-AreFiled :
    (t : Option Task) (e : Option Event) (o : Option OutboxItem) (m : Maps)
    → AreFiled m
    → AreFiled (put_task t e o m)
put_task-AreFiled none e o m h = unfold put_task in h
put_task-AreFiled (some t) e o m h = (
  rw (put_task-tasks t e o m)
      (All-insert (λ e. resource_key e.1.tenant_id e.1.id ≡ e.0) _ t m.tasks refl h.0),
  rw (put_task-objects (some t) e o m) h.1,
)

put_artifact_object-AreFiled :
    (o : Option ArtifactObject) (m : Maps) → AreFiled m → AreFiled (put_artifact_object o m)
unfolding put_artifact_object
put_artifact_object-AreFiled none m h = h
put_artifact_object-AreFiled (some o) m h =
    (h.0, All-insert (λ e. resource_key e.1.tenant_id e.1.id ≡ e.0) _ o m.artifact_objects refl h.1)

apply_kind-AreFiled :
    (k : RecordKind) (r : JournalRecord) (m : Maps) → AreFiled m → AreFiled (apply_kind k r m)
unfolding apply_kind
apply_kind-AreFiled task r m h = put_task-AreFiled r.task_entry r.event r.outbox_entry m h
apply_kind-AreFiled artifact r m h =
    let h' = put_artifact_object-AreFiled r.artifact_object m h in
    unfold put_artifact_lease put_artifact_usage in ground arith
apply_kind-AreFiled agent r m h = unfold put_agent in ground arith
apply_kind-AreFiled lease r m h = unfold put_lease in ground arith
apply_kind-AreFiled inbox r m h = unfold put_inbox in ground arith
apply_kind-AreFiled inbox_state r m h = unfold put_inbox_state in ground arith
apply_kind-AreFiled outbox r m h = unfold put_outbox in ground arith
apply_kind-AreFiled outbox_state r m h = unfold put_outbox_state in ground arith
apply_kind-AreFiled revocation r m h = unfold put_revocation in ground arith
apply_kind-AreFiled artifact_lease r m h = unfold put_artifact_lease in ground arith
apply_kind-AreFiled workflow r m h = unfold put_workflow in ground arith
apply_kind-AreFiled worker_control r m h = unfold put_worker_control in ground arith
apply_kind-AreFiled (other k) r m h = h

-- Every operation, with any arguments and any outcome of its writes, leaves each Task and each
-- Artifact object under its own key, if it was so before.
pub run-AreFiled :
    (os : List Operation) (s : JournalStore) → AreFiled s.maps → AreFiled (run os s).maps
unfolding apply_record
run-AreFiled os s h =
    Writes-keep AreFiled (λ r m l h. apply_kind-AreFiled r.kind r m h) (λ left m h. h)
      (run-Writes os s) h

pub step-AreFiled : (o : Operation) (s : JournalStore) → AreFiled s.maps → AreFiled (step o s).maps
unfolding apply_record
step-AreFiled o s h =
    Writes-keep AreFiled (λ r m l h. apply_kind-AreFiled r.kind r m h) (λ left m h. h)
      (step-Writes {J = Unit {0}} o s (λ _. tt)) h

pub claim_recoverable-AreFiled :
    (owner : String) (limit : ℤ) (now : Time) (duration : Duration) (s : JournalStore)
    → AreFiled s.maps
    → AreFiled (claim_recoverable owner limit now duration s).1.maps
unfolding step
claim_recoverable-AreFiled owner limit now duration s h =
    step-AreFiled (claims_tasks owner limit now duration) s h
