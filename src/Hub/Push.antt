-- ===== src/Hub/Push.antt =====
-- Pushed observations (internal/hub/service.go): AcceptPush checks and queues them, and ApplyInboxItem
-- applies them later.
use Prim.Native.String.{◌++◌ as text_append}
use agent_federation_hub.Base.{String, Bool, ◌&&◌, ◌||◌, not, none, some, ◌==◌, if◌then◌else◌}
use agent_federation_hub.Model.{Task}
use agent_federation_hub.Model.Queue.{InboxItem}
use agent_federation_hub.Store.State.{rejected, Result, ok, err, JournalStore}
use agent_federation_hub.Store.Journal.{and_then}
use agent_federation_hub.Store.Tasks.{get_task}
use agent_federation_hub.Store.Inbox.{enqueue_inbox}
use agent_federation_hub.Federation.{Observation}
use agent_federation_hub.Hub.Service.{Service, Draws}
use agent_federation_hub.Hub.Observations.{apply_observation}

-- ErrPushTaskMismatch: no remote Task is named, or another one than the Task's.
unfoldable pub is_mismatch : Task → Observation → Bool
is_mismatch t o =
    o.remote_task_id == ""
    || (not (t.remote_task_id == "") && not (o.remote_task_id == t.remote_task_id))

abbrev pub pushed : Observation → Observation
pushed o = record o { source = "a2a-push" }

unfoldable pub push_key : Service → Observation → String
push_key svc o =
    if o.dedup_key == "" then text_append "push:" (svc.digest_observation o) else o.dedup_key

unfoldable pub push_item : Service → Draws → String → String → Observation → String → InboxItem
unfolding push_key
push_item svc d tenant task_id o payload = record {
  id = d.id 0;
  tenant_id = tenant;
  task_id = task_id;
  dedup_key = push_key svc o;
  protocol = "a2a";
  payload = payload;
  created_at = d.time 0;
}

unfoldable pub queue_push :
    Service
    → Draws
    → String
    → String
    → Observation
    → Task
    → JournalStore
    → Result Task × JournalStore
unfolding push_item enqueue_inbox and_then
queue_push svc d tenant task_id o t s = elim (svc.encode_observation o) [
  | none ↦ (err (rejected "encode Push observation"), s)
  | some payload ↦
      and_then (enqueue_inbox (push_item svc d tenant task_id o payload) s) λ new s'. (ok t, s')
]

unfoldable pub accept_known :
    Service
    → Draws
    → String
    → String
    → String
    → Observation
    → Result Task
    → JournalStore
    → Result Task × JournalStore
unfolding is_mismatch queue_push
accept_known svc d tenant task_id token o (err e) s = (err e, s)
accept_known svc d tenant task_id token o (ok t) s =
    if t.push_token_hash == "" || not (t.push_token_hash == svc.digest token)
    then (err (rejected "invalid Push credential"), s)
    else if is_mismatch t o
    then (err (rejected "Push task does not match callback task"), s)
    else queue_push svc d tenant task_id (pushed o) t s

unfoldable pub accept_push :
    Service
    → Draws
    → String
    → String
    → String
    → Observation
    → JournalStore
    → Result Task × JournalStore
unfolding accept_known get_task
accept_push svc d tenant task_id token o s =
    accept_known svc d tenant task_id token o (get_task tenant task_id s) s

unfoldable pub apply_pushed :
    Service → Draws → Observation → Result Task → JournalStore → Result Task × JournalStore
unfolding is_mismatch apply_observation
apply_pushed svc d o (err e) s = (err e, s)
apply_pushed svc d o (ok t) s =
    if is_mismatch t o
    then (err (rejected "Push task does not match callback task"), s)
    else apply_observation svc d t (pushed o) s

unfoldable pub apply_inbox_item :
    Service → Draws → InboxItem → JournalStore → Result Task × JournalStore
unfolding apply_pushed get_task
apply_inbox_item svc d i s =
    if not (i.protocol == "a2a")
    then (err (rejected "unsupported inbox protocol"), s)
    else elim (svc.decode_observation i.payload) [
      | none ↦ (err (rejected "decode queued Push observation"), s)
      | some o ↦ apply_pushed svc d o (get_task i.tenant_id i.task_id s) s
    ]
