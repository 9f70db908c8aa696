-- ===== src/Store/Tasks.antt =====
-- Tasks and their event log (internal/core/store.go): CreateTask, ApplyTask, ApplyTaskVersion,
-- GetTask, ListRecoverable, EventsAfter. The identifier that `NewID` draws is an argument.
use Prim.Native.String.{◌++◌ as text_append}
pub mod Versions
pub mod Log
pub mod Progress
use agent_federation_hub.Base.{
  ℕ, ◌+◌, String, Bool, true, false, ◌&&◌, not, List, [], Option, none, some, ◌==◌, eqb, ltb,
  text_ltb, if◌then◌else◌, select, map,
}
use agent_federation_hub.Base.Int.{u64, ltb_ℤ, eqb_ℤ}
use agent_federation_hub.Base.Dict.{Dict, lookup, lookup_or}
use agent_federation_hub.Base.Sort.{sort}
use agent_federation_hub.Model.{Task, Event, is_terminal}
use agent_federation_hub.Model.Queue.{OutboxItem, encoded}
use agent_federation_hub.Store.State.{
  not_found, conflict, Result, ok, err, Applied, applied, duplicate, stale, task, record_of,
  JournalRecord, Maps, JournalStore,
}
use agent_federation_hub.Store.Journal.{resource_key, Plan, reply, refuse, write, transact}

unfoldable pub outbox_from_event : Event → OutboxItem
outbox_from_event e = record {
  id = e.id;
  tenant_id = e.tenant_id;
  task_id = e.task_id;
  dedup_key = e.dedup_key;
  topic = e.kind;
  payload = encoded e;
  created_at = e.created_at;
}

-- if event.DedupKey == "" { event.DedupKey = "local:" + event.ID }
unfoldable pub local_key : String → String → String
local_key id key = if key == "" then text_append "local:" id else key

unfoldable pub task_record : Task → Event → JournalRecord
unfolding outbox_from_event
task_record t e = record (record_of task) {
  task_entry = some t;
  event = some e;
  outbox_entry = some (outbox_from_event e);
}

-- The event as the store completes it, for the Task that it belongs to.
unfoldable pub stamp_event : String → Task → String → Event → Event
unfolding local_key
stamp_event id t key e = record e {
  id = id;
  task_id = t.id;
  tenant_id = t.tenant_id;
  sequence = t.last_sequence;
  dedup_key = local_key id key;
}

unfoldable pub create_task_plan : String → Task → Event → Maps → Plan Task
unfolding task_record stamp_event
create_task_plan id t e m =
    let t' = record t { revision = 1; last_sequence = 1 } in
    elim (lookup (resource_key t.tenant_id t.id) m.tasks) [
      | some _ ↦ refuse conflict
      | none ↦ write (task_record t' (stamp_event id t' e.dedup_key e)) t'
    ]

unfoldable pub create_task : String → Task → Event → JournalStore → Result Task × JournalStore
unfolding create_task_plan transact
create_task id t e s = transact (create_task_plan id t e) s

-- The callback changes the Task that it is given and returns an event, or an error.
abbrev pub Mutation : Type 0
Mutation = Task → Result (Task × Event)

-- dedupKey != "" and it is in the set of the Task's keys
unfoldable pub has_key : Dict (Dict (Unit {0})) → String → String → Bool
has_key sets key dedup =
    if dedup == ""
    then false
    else elim (lookup dedup (lookup_or [] key sets)) [ some _ ↦ true | none ↦ false ]

unfoldable pub apply_mutation : String → String → Result (Task × Event) → Plan (Applied Task)
unfolding task_record stamp_event
apply_mutation id dedup (err e) = refuse e
apply_mutation id dedup (ok (t, e)) =
    let t' = record t {
      revision = u64 (t.revision + 1);
      last_sequence = u64 (t.last_sequence + 1);
    } in
    write (task_record t' (stamp_event id t' dedup e)) (applied t')

-- expectedRevision != 0 && current.Revision != expectedRevision
unfoldable pub is_stale : ℕ → ℕ → Bool
is_stale expected revision = not (eqb expected 0) && not (eqb revision expected)

unfoldable pub apply_current :
    String → ℕ → String → Mutation → Bool → Option Task → Plan (Applied Task)
unfolding apply_mutation is_stale
apply_current id expected dedup mutate known none = refuse not_found
apply_current id expected dedup mutate known (some t) =
    if is_stale expected t.revision
    then reply (stale t)
    else if known
    then reply (duplicate t)
    else apply_mutation id dedup (mutate t)

unfoldable pub apply_task_plan :
    String → String → String → ℕ → String → Mutation → Maps → Plan (Applied Task)
unfolding apply_current has_key
apply_task_plan id tenant task_id expected dedup mutate m =
    let key = resource_key tenant task_id in
    apply_current id expected dedup mutate (has_key m.dedup_keys key dedup) (lookup key m.tasks)

unfoldable pub apply_task_version :
    String
    → String
    → String
    → ℕ
    → String
    → Mutation
    → JournalStore
    → Result (Applied Task) × JournalStore
unfolding apply_task_plan transact
apply_task_version id tenant task_id expected dedup mutate s =
    transact (apply_task_plan id tenant task_id expected dedup mutate) s

unfoldable pub apply_task :
    String
    → String
    → String
    → String
    → Mutation
    → JournalStore
    → Result (Applied Task) × JournalStore
unfolding apply_task_version
apply_task id tenant task_id dedup mutate s = apply_task_version id tenant task_id 0 dedup mutate s

unfoldable pub or_not_found {ℓ} : {A : Type ℓ} → Option A → Result A
or_not_found none = err not_found
or_not_found (some a) = ok a

unfoldable pub get_task : String → String → JournalStore → Result Task
unfolding or_not_found
get_task tenant id s = or_not_found (lookup (resource_key tenant id) s.maps.tasks)

unfoldable pub is_recoverable : Task → Bool
is_recoverable t = not (is_terminal t.state) && not (t.remote_task_id == "")

-- The higher priority first, and then the smaller identifier.
unfoldable pub before_task : Task → Task → Bool
before_task a b =
    if eqb_ℤ a.priority b.priority then text_ltb a.id b.id else ltb_ℤ b.priority a.priority

unfoldable pub list_recoverable : JournalStore → List Task
unfolding is_recoverable before_task sort
list_recoverable s = sort before_task (select is_recoverable (map (λ e. e.1) s.maps.tasks))

unfoldable pub events_after : String → String → ℕ → JournalStore → Result (List Event)
events_after tenant id after s =
    let key = resource_key tenant id in
    elim (lookup key s.maps.tasks) [
      | none ↦ err not_found
      | some _ ↦ ok (select (λ e. ltb after e.sequence) (lookup_or [] key s.maps.events))
    ]
