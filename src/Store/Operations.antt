-- ===== src/Store/Operations.antt =====
-- Every operation of JournalStore that changes the maps, as one type, and a run of such operations. The
-- identifiers and times that an operation draws, and the answers of `json.Valid`, are its
-- arguments.
pub mod Chains
pub mod Recovery
pub mod Finality
pub mod Filed
pub mod Known
use agent_federation_hub.Base.{ℕ, String, Bool, List, [], ◌∷◌}
use agent_federation_hub.Base.Int.{ℤ}
use agent_federation_hub.Model.{
  Time, Duration, Agent, Task, Event, WorkLease, TokenRevocation, WorkerControl,
}
use agent_federation_hub.Model.Objects.{ArtifactObject, ArtifactQuota, ArtifactDeletionLease}
use agent_federation_hub.Model.Queue.{InboxItem, InboxLease, OutboxItem, OutboxLease}
use agent_federation_hub.Model.Workflow.{Workflow, WorkflowEvent}
use agent_federation_hub.Store.State.{JournalStore}
use agent_federation_hub.Store.Tasks.{Mutation, create_task, apply_task_version}
use agent_federation_hub.Store.Leases.{claim_recoverable, renew_lease, release_lease}
use agent_federation_hub.Store.Inbox.{
  enqueue_inbox, claim_inbox, renew_inbox_lease, ack_inbox, retry_inbox,
}
use agent_federation_hub.Store.Outbox.{
  enqueue_outbox, claim_outbox, renew_outbox_lease, ack_outbox, retry_outbox, dead_letter_outbox,
}
use agent_federation_hub.Store.Outbox.Admin.{replay_outbox, purge_outbox}
use agent_federation_hub.Store.Revocations.{revoke_token, prune_revocations}
use agent_federation_hub.Store.Control.{put_agent, set_worker_control}
use agent_federation_hub.Store.Workflows.{WorkflowMutation, create_workflow, apply_workflow_version}
use agent_federation_hub.Store.Artifacts.{
  Finalization, reserve_artifact, finalize_artifact, fail_artifact,
}
use agent_federation_hub.Store.Artifacts.Deletion.{
  claim_expired_artifacts, renew_artifact_lease, complete_artifact_deletion,
  retry_artifact_deletion,
}

pub data Operation : Type 0 where
  puts_agent : Agent → Operation
  creates_task : String → Task → Event → Operation
  applies_task : String → String → String → ℕ → String → Mutation → Operation
  creates_workflow : String → Workflow → WorkflowEvent → Operation
  applies_workflow : String → String → String → ℕ → String → WorkflowMutation → Operation
  claims_tasks : String → ℤ → Time → Duration → Operation
  renews_task : WorkLease → Time → Duration → Operation
  releases_task : WorkLease → Time → Bool → Operation
  enqueues_inbox : InboxItem → Operation
  claims_inbox : String → ℤ → Time → Duration → Operation
  renews_inbox : InboxLease → Time → Duration → Operation
  acks_inbox : InboxLease → Operation
  retries_inbox : InboxLease → Time → Operation
  enqueues_outbox : (String → Bool) → OutboxItem → Operation
  claims_outbox : String → ℤ → Time → Duration → Operation
  renews_outbox : OutboxLease → Time → Duration → Operation
  acks_outbox : Time → OutboxLease → Operation
  retries_outbox : OutboxLease → Time → Operation
  dead_letters_outbox : Time → OutboxLease → String → Operation
  replays_outbox : String → String → Time → Operation
  purges_outbox : Time → String → Time → ℤ → Operation
  revokes_token : TokenRevocation → Operation
  reserves_artifact : ArtifactObject → ArtifactQuota → Operation
  finalizes_artifact : String → String → Finalization → Operation
  fails_artifact : String → String → String → Time → Operation
  claims_artifacts : String → ℤ → Time → Duration → Operation
  renews_artifact : ArtifactDeletionLease → Time → Duration → Operation
  completes_deletion : ArtifactDeletionLease → Time → Operation
  retries_deletion : ArtifactDeletionLease → Time → Operation
  sets_worker_control : Time → WorkerControl → ℕ → Operation
  prunes_revocations : Time → Operation

-- The store after an operation, whether it succeeded or not.
unfoldable pub step : Operation → JournalStore → JournalStore
unfolding put_agent create_task apply_task_version create_workflow apply_workflow_version
    claim_recoverable renew_lease release_lease enqueue_inbox claim_inbox renew_inbox_lease
    ack_inbox retry_inbox enqueue_outbox claim_outbox renew_outbox_lease ack_outbox retry_outbox
    dead_letter_outbox replay_outbox purge_outbox revoke_token reserve_artifact finalize_artifact
    fail_artifact claim_expired_artifacts renew_artifact_lease complete_artifact_deletion
    retry_artifact_deletion set_worker_control prune_revocations
step (puts_agent a) s = (put_agent a s).1
step (creates_task id t e) s = (create_task id t e s).1
step (applies_task id tenant task expected dedup f) s =
    (apply_task_version id tenant task expected dedup f s).1
step (creates_workflow id w e) s = (create_workflow id w e s).1
step (applies_workflow id tenant workflow expected dedup f) s =
    (apply_workflow_version id tenant workflow expected dedup f s).1
step (claims_tasks owner limit now duration) s = (claim_recoverable owner limit now duration s).1
step (renews_task w now duration) s = (renew_lease w now duration s).1
step (releases_task w at reset) s = (release_lease w at reset s).1
step (enqueues_inbox i) s = (enqueue_inbox i s).1
step (claims_inbox owner limit now duration) s = (claim_inbox owner limit now duration s).1
step (renews_inbox l now duration) s = (renew_inbox_lease l now duration s).1
step (acks_inbox l) s = (ack_inbox l s).1
step (retries_inbox l at) s = (retry_inbox l at s).1
step (enqueues_outbox valid i) s = (enqueue_outbox valid i s).1
step (claims_outbox owner limit now duration) s = (claim_outbox owner limit now duration s).1
step (renews_outbox l now duration) s = (renew_outbox_lease l now duration s).1
step (acks_outbox now l) s = (ack_outbox now l s).1
step (retries_outbox l at) s = (retry_outbox l at s).1
step (dead_letters_outbox now l reason) s = (dead_letter_outbox now l reason s).1
step (replays_outbox tenant id now) s = (replay_outbox tenant id now s).1
step (purges_outbox now tenant before limit) s = (purge_outbox now tenant before limit s).1
step (revokes_token r) s = (revoke_token r s).1
step (reserves_artifact o q) s = (reserve_artifact o q s).1
step (finalizes_artifact tenant id f) s = (finalize_artifact tenant id f s).1
step (fails_artifact tenant id code now) s = (fail_artifact tenant id code now s).1
step (claims_artifacts owner limit now duration) s =
    (claim_expired_artifacts owner limit now duration s).1
step (renews_artifact d now duration) s = (renew_artifact_lease d now duration s).1
step (completes_deletion d now) s = (complete_artifact_deletion d now s).1
step (retries_deletion d at) s = (retry_artifact_deletion d at s).1
step (sets_worker_control now c expected) s = (set_worker_control now c expected s).1
step (prunes_revocations now) s = (prune_revocations now s).1

unfoldable pub run : List Operation → JournalStore → JournalStore
unfolding step
run [] s = s
run (o ∷ os) s = run os (step o s)
