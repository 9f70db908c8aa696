-- ===== src/Store/Tests/Limits.antt =====
-- The theorems on what the store does once or up to a limit, on the small store of the tests.
use agent_federation_hub.Base.{
  ◌≤◌, String, ◌≡◌, ◌≢◌, refl, ap, ◌==◌, Bool, true, false, List, [], ◌∷◌, ◌++◌, none, some, arith,
  length,
}
use mathlib.Core.Bool.{false≢true}
use agent_federation_hub.Base.Text.{is_blank}
use agent_federation_hub.Base.Int.{pos, i64, ◌+ℤ◌, ◌≤ℤ◌, ◌<ℤ◌}
use agent_federation_hub.Base.Dict.{lookup, lookup_or, insert}
use agent_federation_hub.Model.{Task, Event, WorkLease, WorkerControl, zero_time}
use agent_federation_hub.Model.Objects.{ArtifactObject}
use agent_federation_hub.Model.Queue.{InboxItem, OutboxItem, raw, encoded}
use agent_federation_hub.Store.State.{
  ok, err, conflict, lease_lost, applied, duplicate, stale, JournalRecord, JournalStore, Maps,
  empty_maps,
}
use agent_federation_hub.Store.Journal.{
  resource_key, inbox_dedup_key, outbox_dedup_key, apply_record, put_worker_control,
}
use agent_federation_hub.Store.Operations.Recovery.{fresh}
use agent_federation_hub.Store.Tasks.{create_task, apply_task}
use agent_federation_hub.Store.Tasks.Log.{apply_task_queues}
use agent_federation_hub.Store.Inbox.{enqueue_inbox, is_inbox_item}
use agent_federation_hub.Store.Outbox.{enqueue_outbox, is_outbox_item, is_valid_payload}
use agent_federation_hub.Store.Once.{
  enqueue_inbox_once, enqueue_outbox_once, create_task_once, apply_task_once,
}
use agent_federation_hub.Store.Leases.Fencing.{claim_fences, claim_limit}
use agent_federation_hub.Store.Leases.{renew_lease, release_lease, work_key}
use agent_federation_hub.Store.Writes.{after_write}
use agent_federation_hub.Store.Operations.{
  Operation, run, applies_task, claims_tasks, enqueues_inbox, claims_inbox, acks_inbox,
  enqueues_outbox,
}
use agent_federation_hub.Store.Control.{
  normalize_worker_mode, set_worker_control, get_worker_control,
}
use agent_federation_hub.Store.Control.Revisions.{lost_control}
use agent_federation_hub.Store.Artifacts.{
  is_reservation, reserve_artifact, reserved_object, get_artifact_usage, usage_of,
}
use agent_federation_hub.Store.Artifacts.Quota.{reserve_within_quota, reserve_overflow}
use agent_federation_hub.Store.Tests.{
  translation, note, message, report, quota, start, start-KeepsIdentity, filled, filled-AreFiled,
  updated, started, start_applies, leased, claimed_store, w1_claims, event_item,
}

apply_task_queues_example :
    (current : Task) × (made : Task) × (event : Event) × (e : Event) × (o : OutboxItem)
    × (r : JournalRecord) × (lookup (resource_key "acme" "t1") filled.maps.tasks ≡ some current)
    × (start current ≡ ok (made, event))
    × (e ≡ record event {
      id = "e2";
      task_id = "t1";
      tenant_id = "acme";
      sequence = 2;
      dedup_key = "k2";
    })
    × (o ≡ record {
      id = "e2";
      tenant_id = "acme";
      task_id = "t1";
      dedup_key = e.dedup_key;
      topic = event.kind;
      payload = encoded e;
      created_at = event.created_at;
    })
    × (r.task_entry ≡ some started)
    × (r.event ≡ some e)
    × (r.outbox_entry ≡ some o)
    × (updated ≡ after_write r filled)
    × (lookup_or [] (resource_key "acme" "t1") updated.maps.events
        ≡ lookup_or [] (resource_key "acme" "t1") filled.maps.events ++ e ∷ [])
    × (lookup "e2" updated.maps.outbox_items ≡ some o)
apply_task_queues_example =
    apply_task_queues "e2" "acme" "t1" 1 "k2" start started filled updated filled-AreFiled.0
      start-KeepsIdentity start_applies

abbrev with_message : JournalStore
with_message = (enqueue_inbox message (fresh [])).1

message_is_new : enqueue_inbox message (fresh []) ≡ (ok true, with_message)
unfolding enqueue_inbox lookup insert
message_is_new = refl

abbrev again : InboxItem
again = record message { id = "i2"; payload = "[]" }

-- The first item is acknowledged, and another one is queued.
abbrev later : List Operation
later =
    claims_inbox "w1" (pos 1) (pos 20) (pos 30)
    ∷ acks_inbox (record { item = message; owner = "w1"; expires_at = pos 50; attempt = 1 })
    ∷ enqueues_inbox (record message { id = "i3"; dedup_key = "d3" })
    ∷ []

enqueue_inbox_once_example :
    enqueue_inbox again (run later with_message) ≡ (ok false, run later with_message)
unfolding inbox_dedup_key is_inbox_item
enqueue_inbox_once_example =
    enqueue_inbox_once message again later (fresh []) with_message message_is_new refl refl

abbrev nonempty : String → Bool
nonempty text = true

abbrev update_item : OutboxItem
update_item = record event_item { payload = raw "{}" }

abbrev with_item : JournalStore
with_item = (enqueue_outbox nonempty update_item (fresh [])).1

item_is_new : enqueue_outbox nonempty update_item (fresh []) ≡ (ok true, with_item)
unfolding enqueue_outbox lookup insert
item_is_new = refl

abbrev more : List Operation
more = enqueues_outbox nonempty (record update_item { id = "e3"; dedup_key = "k3" }) ∷ []

enqueue_outbox_once_example :
    enqueue_outbox nonempty (record update_item { id = "e9" }) (run more with_item)
    ≡ (ok false, run more with_item)
unfolding outbox_dedup_key is_valid_payload is_outbox_item
enqueue_outbox_once_example =
    enqueue_outbox_once nonempty update_item (record update_item { id = "e9" }) more (fresh [])
      with_item item_is_new refl refl refl

abbrev with_task : JournalStore
with_task = (create_task "e1" translation (note "k1") (fresh [])).1

task_is_new :
    create_task "e1" translation (note "k1") (fresh [])
    ≡ (ok (record translation { revision = 1; last_sequence = 1 }), with_task)
unfolding create_task lookup insert
task_is_new = refl

create_task_once_example :
    create_task "e5" (record translation { agent_id = "a2" }) (note "k5") with_task
    ≡ (err conflict, with_task)
create_task_once_example =
    create_task_once "e1" "e5" translation (record translation { agent_id = "a2" })
      (record translation { revision = 1; last_sequence = 1 }) (note "k1") (note "k5") (fresh [])
      with_task task_is_new refl

w1-ne-w2 : ◌≢◌ {A = String} "w1" "w2"
w1-ne-w2 = λ e. false≢true (ap (λ (x : String). x == "w2") e)

-- A lease on the Task that the second worker held before.
abbrev old_lease : WorkLease
old_lease = record leased { owner = "w2"; expires_at = pos 15; attempt = 7 }

claim_fences_example :
    (renew_lease old_lease (pos 14) (pos 60) claimed_store ≡ (err lease_lost, claimed_store))
    × (release_lease old_lease (pos 0) true claimed_store ≡ (err lease_lost, claimed_store))
unfolding work_key
claim_fences_example =
    claim_fences "w1" (pos 1) (pos 20) (pos 14) (pos 0) (pos 30) (pos 60) true filled claimed_store
      (leased ∷ []) 0 leased old_lease filled-AreFiled.0 w1_claims refl refl w1-ne-w2

claim_limit_example : length (leased ∷ []) ≤ 1
claim_limit_example =
    claim_limit "w1" (pos 1) (pos 20) (pos 30) filled claimed_store (leased ∷ []) w1_claims

abbrev paused : WorkerControl
paused = record { scope = "hub"; mode = " paused"; revision = 0; updated_at = zero_time }

abbrev mode_1 : JournalStore
mode_1 = (set_worker_control (pos 5) paused 0 (fresh [])).1

abbrev mode_2 : JournalStore
mode_2 = (set_worker_control (pos 6) (record paused { mode = "Running" }) 1 mode_1).1

abbrev running : WorkerControl
running = record { scope = "hub"; mode = "RUNNING"; revision = 2; updated_at = pos 6 }

running_is_set :
    set_worker_control (pos 6) (record paused { mode = "Running" }) 1 mode_1
    ≡ (ok (applied running), mode_2)
unfolding set_worker_control lookup insert lookup_or apply_record put_worker_control
running_is_set = refl

lost_control_example :
    (get_worker_control (pos 7) "hub" mode_2 ≡ ok running)
    × (normalize_worker_mode "Running" ≡ ok "RUNNING")
    × (running.scope ≡ "hub")
    × (running.revision ≡ 2)
    × (set_worker_control (pos 7) paused 1 mode_2 ≡ (ok (stale running), mode_2))
unfolding is_blank normalize_worker_mode
lost_control_example =
    lost_control (pos 6) (pos 7) (record paused { mode = "Running" }) paused running 1 "PAUSED"
      mode_1 mode_2 (λ e. ground arith) running_is_set refl refl refl

abbrev with_report : JournalStore
with_report = (reserve_artifact report quota (fresh [])).1

report_is_reserved :
    reserve_artifact report quota (fresh []) ≡ (ok (reserved_object report, true), with_report)
unfolding reserve_artifact lookup insert i64 ◌+ℤ◌ lookup_or
report_is_reserved = refl

reserve_within_quota_example :
    let u = get_artifact_usage "acme" (fresh []) in
    let u' = get_artifact_usage "acme" with_report in
    (u'.bytes ≡ u.bytes +ℤ pos 40)
    × (u'.objects ≡ u.objects +ℤ pos 1)
    × (u'.bytes ≤ℤ pos 100)
    × (u'.objects ≤ℤ pos 2)
unfolding get_artifact_usage lookup lookup_or
reserve_within_quota_example =
    reserve_within_quota report (reserved_object report) quota (fresh []) with_report
      (ground arith, ground arith, ground arith, ground arith, ground arith) (ground arith)
      (ground arith) report_is_reserved

abbrev huge : ArtifactObject
huge = record report { size_bytes = pos 9223372036854775807 }

abbrev one_byte_used : Maps
one_byte_used = record empty_maps {
  artifact_usages = ("acme", record { tenant_id = "acme"; bytes = pos 1; objects = pos 1 }) ∷ [];
}

reserve_overflow_example :
    let r =
      reserve_artifact huge
        (record { max_bytes = pos 100; max_objects = pos 0 })
        (record { file = none; maps = one_byte_used }) in
    (r.0 ≡ ok (reserved_object huge, true)) × ((get_artifact_usage "acme" r.1).bytes <ℤ pos 0)
unfolding usage_of lookup lookup_or is_reservation
reserve_overflow_example =
    reserve_overflow huge (record { max_bytes = pos 100; max_objects = pos 0 }) one_byte_used
      (ground arith, ground arith, ground arith, ground arith, ground arith) (ground arith) refl
      refl refl

abbrev more_updates : List Operation
more_updates =
    applies_task "e3" "acme" "t1" 2 "k3" start ∷ claims_tasks "w1" (pos 1) (pos 20) (pos 30) ∷ []

k2-ne-empty : ◌≢◌ {A = String} "k2" ""
k2-ne-empty = λ e. false≢true (ap (λ (x : String). x == "") e)

apply_task_once_example :
    (t : Task) × (lookup (resource_key "acme" "t1") (run more_updates updated).maps.tasks ≡ some t)
    × (apply_task "e4" "acme" "t1" "k2" start (run more_updates updated)
        ≡ (ok (duplicate t), run more_updates updated))
apply_task_once_example =
    apply_task_once "e2" "e4" "acme" "t1" 1 "k2" start start started more_updates filled updated
      filled-AreFiled.0 start-KeepsIdentity k2-ne-empty start_applies
