-- ===== src/Store/Tests.antt =====
-- A small store with a Task, a queued message and an Artifact object, and the theorems on it.
mod Limits
use mathlib.Core.Bool.{false≢true}
use agent_federation_hub.Base.{
  ◌==◌, ap, String, ◌≡◌, ◌≢◌, refl, true, false, List, [], ◌∷◌, none, inl, arith, All,
}
use agent_federation_hub.Base.Int.{pos, i64, ◌+ℤ◌}
use agent_federation_hub.Base.Dict.{lookup, lookup_or, insert}
use agent_federation_hub.Model.{Task, Event, submitted, working, pending, WorkLease}
use agent_federation_hub.Model.Objects.{
  ArtifactObject, ArtifactQuota, pending as reserved, not_scanned, available, clean,
}
use agent_federation_hub.Model.Queue.{InboxItem, InboxLease, OutboxLease, OutboxItem, raw}
use agent_federation_hub.Store.State.{ok, applied, duplicate, stale, JournalStore, durable, failed}
use agent_federation_hub.Store.Journal.{
  reopen, resource_key, apply_record, put_task, put_inbox, put_inbox_state, put_outbox_state,
  put_lease, put_artifact_lease, put_artifact_usage, put_artifact_object,
}
use agent_federation_hub.Store.Durability.{forget_keys}
use agent_federation_hub.Store.Artifacts.{Finalization, get_artifact}
use agent_federation_hub.Store.Tasks.{Mutation, apply_task_version, apply_task}
use agent_federation_hub.Store.Tasks.Versions.{KeepsIdentity, lost_update}
use agent_federation_hub.Store.Leases.{claim_recoverable, work_key}
use agent_federation_hub.Store.Leases.Exclusive.{claims_exclusive}
use agent_federation_hub.Store.Inbox.{is_inbox_held}
use agent_federation_hub.Store.Outbox.{is_outbox_held}
use agent_federation_hub.Store.Operations.{
  Operation, creates_task, enqueues_inbox, claims_inbox, acks_inbox, claims_outbox, acks_outbox,
  replays_outbox, reserves_artifact, finalizes_artifact, run,
}
use agent_federation_hub.Store.Operations.Recovery.{
  fresh, maps_of, restart-run, get_artifact-restart,
}
use agent_federation_hub.Store.Operations.Chains.{IsJournaled}
use agent_federation_hub.Store.Operations.Finality.{
  IsDone, inbox_state_of, outbox_state_of, inbox_acked-run, outbox-IsDone-run,
}
use agent_federation_hub.Store.Operations.Filed.{AreFiled, run-AreFiled}

abbrev translation : Task
translation = record {
  id = "t1";
  tenant_id = "acme";
  agent_id = "a1";
  message_id = "m1";
  input_digest = "";
  idempotency_key = "i1";
  requested_extensions = [];
  extension_metadata = [];
  priority = pos 5;
  remote_task_id = "r1";
  remote_context_id = "";
  state = submitted;
  delivery = pending;
  cancel_requested = false;
  push_token_hash = "";
  artifacts = [];
  problem = none;
  last_remote_observed_at = none;
  created_at = pos 10;
  updated_at = pos 10;
  revision = 0;
  last_sequence = 0;
}

abbrev note : String → Event
note key = record {
  id = "";
  dedup_key = key;
  task_id = "";
  tenant_id = "";
  sequence = 0;
  kind = "task.updated";
  source = "hub";
  state = working;
  artifact = none;
  problem = none;
  observed_at = none;
  created_at = pos 11;
}

abbrev message : InboxItem
message = record {
  id = "i1";
  tenant_id = "acme";
  task_id = "t1";
  dedup_key = "d1";
  protocol = "a2a";
  payload = "{}";
  created_at = pos 10;
}

abbrev report : ArtifactObject
report = record {
  id = "o1";
  tenant_id = "acme";
  task_id = "t1";
  artifact_id = "x1";
  part_index = pos 0;
  storage_key = "";
  sha256 = "abc";
  size_bytes = pos 40;
  declared_media_type = "";
  detected_media_type = "";
  filename = "report.txt";
  source_uri = "";
  status = reserved;
  scan_status = not_scanned;
  created_at = pos 10;
  updated_at = pos 10;
  expires_at = pos 100;
  deleted_at = none;
  failure_code = "";
}

abbrev quota : ArtifactQuota
quota = record { max_bytes = pos 100; max_objects = pos 2 }

abbrev stored_report : Finalization
stored_report = record {
  storage_key = "acme/o1";
  detected_media_type = "text/plain";
  scan_status = clean;
  status = available;
  now = pos 12;
}

-- The callback that starts the work on a Task.
abbrev start : Mutation
start t = ok (record t { state = working }, note "")

start-KeepsIdentity : KeepsIdentity start
start-KeepsIdentity = record { keeps = λ t t' e h. ground arith }

abbrev setup : List Operation
setup =
    creates_task "e1" translation (note "k1")
    ∷ enqueues_inbox message
    ∷ reserves_artifact report quota
    ∷ finalizes_artifact "acme" "o1" stored_report
    ∷ []

-- The store that the tests start from. The write of the inbox item fails the first time.
abbrev filled : JournalStore
filled = run setup (fresh [])

abbrev updated : JournalStore
updated = (apply_task_version "e2" "acme" "t1" 1 "k2" start filled).1

abbrev started : Task
started = record translation { state = working; revision = 2; last_sequence = 2 }

filled-AreFiled : AreFiled filled.maps
filled-AreFiled = run-AreFiled setup (fresh []) (tt, tt)

start_applies :
    apply_task_version "e2" "acme" "t1" 1 "k2" start filled ≡ (ok (applied started), updated)
unfolding apply_task_version claim_recoverable run reopen forget_keys get_artifact lookup lookup_or
    insert resource_key i64 ◌+ℤ◌ apply_record put_task put_inbox put_inbox_state put_outbox_state
    put_lease put_artifact_lease put_artifact_usage put_artifact_object
start_applies = refl

setup-IsJournaled : All IsJournaled setup
setup-IsJournaled = (
  λ now e. ground arith,
  (λ now e. ground arith, (λ now e. ground arith, (λ now e. ground arith, tt))),
)

restart-run_example :
    maps_of (reopen (run setup (fresh (durable ∷ failed ∷ []))))
    ≡ ok (forget_keys (run setup (fresh (durable ∷ failed ∷ []))).maps)
restart-run_example = restart-run setup (durable ∷ failed ∷ []) tt setup-IsJournaled

lost_update_example :
    apply_task_version "e3" "acme" "t1" 1 "k3" start updated ≡ (ok (stale started), updated)
lost_update_example =
    lost_update "e2" "e3" "acme" "t1" 1 "k2" "k3" start start started filled updated
      filled-AreFiled.0 start-KeepsIdentity (λ e. ground arith) start_applies

abbrev claimed_store : JournalStore
claimed_store = (claim_recoverable "w1" (pos 1) (pos 20) (pos 30) filled).1

abbrev leased : WorkLease
leased = record {
  task = record translation { revision = 1; last_sequence = 1 };
  owner = "w1";
  expires_at = pos 50;
  attempt = 1;
}

w1_claims :
    claim_recoverable "w1" (pos 1) (pos 20) (pos 30) filled ≡ (ok (leased ∷ []), claimed_store)
unfolding apply_task_version claim_recoverable run reopen forget_keys get_artifact lookup lookup_or
    insert resource_key i64 ◌+ℤ◌ apply_record put_task put_inbox put_inbox_state put_outbox_state
    put_lease put_artifact_lease put_artifact_usage put_artifact_object
w1_claims = refl

w2_claims : claim_recoverable "w2" (pos 1) (pos 49) (pos 30) claimed_store ≡ (ok [], claimed_store)
unfolding apply_task_version claim_recoverable run reopen forget_keys get_artifact lookup lookup_or
    insert resource_key i64 ◌+ℤ◌ apply_record put_task put_inbox put_inbox_state put_outbox_state
    put_lease put_artifact_lease put_artifact_usage put_artifact_object
w2_claims = refl

claims_exclusive_example : All (λ w. All (λ w'. work_key w ≢ work_key w') []) (leased ∷ [])
claims_exclusive_example =
    claims_exclusive "w1" "w2" (pos 1) (pos 1) (pos 20) (pos 49) (pos 30) (pos 30) filled
      claimed_store claimed_store (leased ∷ []) [] filled-AreFiled w1_claims
      (unfold ◌+ℤ◌ in ground arith) w2_claims

abbrev message_lease : InboxLease
message_lease = record { item = message; owner = "w1"; expires_at = pos 50; attempt = 1 }

abbrev after_ack : JournalStore
after_ack = run (claims_inbox "w1" (pos 1) (pos 20) (pos 30) ∷ acks_inbox message_lease ∷ []) filled

after_ack_acked : (inbox_state_of "i1" after_ack.maps).acked ≡ true
unfolding apply_task_version claim_recoverable run reopen forget_keys get_artifact lookup lookup_or
    insert resource_key i64 ◌+ℤ◌ apply_record put_task put_inbox put_inbox_state put_outbox_state
    put_lease put_artifact_lease put_artifact_usage put_artifact_object
after_ack_acked = refl

inbox_acked-run_example :
    is_inbox_held
      (inbox_state_of "i1" (run (claims_inbox "w2" (pos 5) (pos 90) (pos 1) ∷ []) after_ack).maps)
      (pos 90)
    ≡ true
inbox_acked-run_example =
    inbox_acked-run (claims_inbox "w2" (pos 5) (pos 90) (pos 1) ∷ []) after_ack "i1" (pos 90)
      after_ack_acked

abbrev event_item : OutboxItem
event_item = record {
  id = "e1";
  tenant_id = "acme";
  task_id = "t1";
  dedup_key = "k1";
  topic = "task.updated";
  payload = raw "";
  created_at = pos 11;
}

abbrev event_lease : OutboxLease
event_lease = record { item = event_item; owner = "w1"; expires_at = pos 50; attempt = 1 }

abbrev after_send : JournalStore
after_send =
    run (claims_outbox "w1" (pos 1) (pos 20) (pos 30) ∷ acks_outbox (pos 25) event_lease ∷ [])
      filled

after_send-IsDone : IsDone (outbox_state_of "e1" after_send.maps)
unfolding apply_task_version claim_recoverable run reopen forget_keys get_artifact lookup lookup_or
    insert resource_key i64 ◌+ℤ◌ apply_record put_task put_inbox put_inbox_state put_outbox_state
    put_lease put_artifact_lease put_artifact_usage put_artifact_object
after_send-IsDone = inl refl

outbox-IsDone-run_example :
    IsDone (outbox_state_of "e1" (run (replays_outbox "acme" "e1" (pos 60) ∷ []) after_send).maps)
    × (is_outbox_held
          (outbox_state_of "e1" (run (replays_outbox "acme" "e1" (pos 60) ∷ []) after_send).maps)
          (pos 99)
        ≡ true)
outbox-IsDone-run_example =
    outbox-IsDone-run (replays_outbox "acme" "e1" (pos 60) ∷ []) after_send "e1" (pos 99)
      after_send-IsDone

run-AreFiled_example : AreFiled (run setup (fresh [])).maps
run-AreFiled_example = run-AreFiled setup (fresh []) (tt, tt)

abbrev filed_report : ArtifactObject
filed_report = record report {
  storage_key = "acme/o1";
  detected_media_type = "text/plain";
  scan_status = clean;
  status = available;
  updated_at = pos 12;
}

report_is_stored : get_artifact "acme" "o1" filled ≡ ok filed_report
unfolding apply_task_version claim_recoverable run reopen forget_keys get_artifact lookup lookup_or
    insert resource_key i64 ◌+ℤ◌ apply_record put_task put_inbox put_inbox_state put_outbox_state
    put_lease put_artifact_lease put_artifact_usage put_artifact_object
report_is_stored = refl

get_artifact-restart_example :
    (s : JournalStore) × (reopen filled ≡ ok s)
    × (get_artifact "acme" "o1" s ≡ ok (record filed_report { storage_key = "" }))
get_artifact-restart_example =
    get_artifact-restart setup [] "acme" "o1" filed_report tt setup-IsJournaled report_is_stored
