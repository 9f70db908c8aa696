-- ===== src/Store/Once.antt =====
-- What JournalStore (internal/core/store.go) does at most once: the creation of a Task, and the
-- update of a Task and the enqueueing of an item with a given deduplication key.
use agent_federation_hub.Base.{
  ℕ, String, ◌≡◌, ◌≢◌, refl, Bool, true, false, List, some, arith, eq_refl,
}
use agent_federation_hub.Base.Dict.{lookup, lookup-insert}
use agent_federation_hub.Model.{Task, Event}
use agent_federation_hub.Model.Queue.{InboxItem, OutboxItem}
use agent_federation_hub.Store.State.{ok, err, conflict, applied, duplicate, Maps, JournalStore}
use agent_federation_hub.Store.Journal.{
  resource_key, inbox_dedup_key, outbox_dedup_key, apply_record, put_inbox, put_outbox, put_task,
}
use agent_federation_hub.Store.Writes.{Took, transact-ok}
use agent_federation_hub.Store.Tasks.{
  Mutation, create_task, create_task_plan, is_stale, apply_task_version, apply_task,
}
use agent_federation_hub.Store.Tasks.Versions.{
  IsFiled, KeepsIdentity, Update-of_applied, update_found, update_known, current_is_duplicate,
}
use agent_federation_hub.Store.Operations.{Operation, run}
use agent_federation_hub.Store.Operations.Known.{
  task-run, has_key-run, inbox_dedup-run, outbox_dedup-run,
}
use agent_federation_hub.Store.Inbox.{enqueue_inbox, enqueue_inbox_plan, is_inbox_item}
use agent_federation_hub.Store.Outbox.{
  enqueue_outbox, enqueue_outbox_plan, is_outbox_item, is_valid_payload,
}

new_inbox :
    (i : InboxItem) (m m' : Maps)
    → Took (enqueue_inbox_plan i m) true m m'
    → lookup (inbox_dedup_key i) m'.inbox_dedup ≡ some i.id
unfolding enqueue_inbox_plan apply_record put_inbox
new_inbox i m m' h = ground (
  arith,
  lookup-insert (inbox_dedup_key i) (inbox_dedup_key i) i.id m.inbox_dedup,
  eq_refl (inbox_dedup_key i),
)

-- After an inbox item was enqueued, and after any further operations of the store, acknowledgements
-- among them, a complete item with the same tenant, Task and deduplication key, whatever the rest of
-- it, is answered with false and changes nothing.
pub enqueue_inbox_once :
    (i j : InboxItem) (os : List Operation) (s s' : JournalStore)
    → enqueue_inbox i s ≡ (ok true, s')
    → is_inbox_item j ≡ true
    → inbox_dedup_key j ≡ inbox_dedup_key i
    → enqueue_inbox j (run os s') ≡ (ok false, run os s')
unfolding enqueue_inbox
enqueue_inbox_once i j os s s' h v k =
    let known = new_inbox i s.maps s'.maps (transact-ok (enqueue_inbox_plan i) true s s' h) in
    let (id, still) = inbox_dedup-run os s' (inbox_dedup_key i) i.id known in rw v (rw k (rw still))

new_outbox :
    (valid : String → Bool) (i : OutboxItem) (m m' : Maps)
    → Took (enqueue_outbox_plan valid i m) true m m'
    → lookup (outbox_dedup_key i) m'.outbox_dedup ≡ some i.id
unfolding enqueue_outbox_plan apply_record put_outbox
new_outbox valid i m m' h = ground (
  arith,
  lookup-insert (outbox_dedup_key i) (outbox_dedup_key i) i.id m.outbox_dedup,
  eq_refl (outbox_dedup_key i),
)

-- After an outbox item was enqueued, and after any further operations of the store, acknowledgements
-- and purges among them, a complete item with a valid payload and the same tenant, Task and
-- deduplication key is answered with false and changes nothing.
pub enqueue_outbox_once :
    (valid : String → Bool) (i j : OutboxItem) (os : List Operation) (s s' : JournalStore)
    → enqueue_outbox valid i s ≡ (ok true, s')
    → is_outbox_item j ≡ true
    → is_valid_payload valid j.payload ≡ true
    → outbox_dedup_key j ≡ outbox_dedup_key i
    → enqueue_outbox valid j (run os s') ≡ (ok false, run os s')
unfolding enqueue_outbox
enqueue_outbox_once valid i j os s s' h v p k =
    let known =
      new_outbox valid i s.maps s'.maps (transact-ok (enqueue_outbox_plan valid i) true s s' h) in
    let (id, still) = outbox_dedup-run os s' (outbox_dedup_key i) i.id known in
    rw v (rw p (rw k (rw still)))

created_task :
    (id : String) (t t' : Task) (e : Event) (m m' : Maps)
    → Took (create_task_plan id t e m) t' m m'
    → lookup (resource_key t.tenant_id t.id) m'.tasks ≡ some t'
unfolding create_task_plan apply_record put_task
created_task id t t' e m m' h = ground (
  arith,
  lookup-insert (resource_key t.tenant_id t.id) (resource_key t.tenant_id t.id) t' m.tasks,
  eq_refl (resource_key t.tenant_id t.id),
)

-- What the creation of a Task files.
pub create_task-found :
    (id : String) (t t' : Task) (e : Event) (s s' : JournalStore)
    → create_task id t e s ≡ (ok t', s')
    → (t' ≡ record t { revision = 1; last_sequence = 1 })
      × (lookup (resource_key t.tenant_id t.id) s'.maps.tasks ≡ some t')
unfolding create_task create_task_plan
create_task-found id t t' e s s' h =
    let took = transact-ok (create_task_plan id t e) t' s s' h in
    (ground arith, created_task id t t' e s.maps s'.maps took)

-- After a Task was created, the creation of a Task with the same tenant and identifier is a
-- conflict and changes nothing.
pub create_task_once :
    (id id' : String) (t u t' : Task) (e e' : Event) (s s' : JournalStore)
    → create_task id t e s ≡ (ok t', s')
    → resource_key u.tenant_id u.id ≡ resource_key t.tenant_id t.id
    → create_task id' u e' s' ≡ (err conflict, s')
unfolding create_task lookup
create_task_once id id' t u t' e e' s s' h k =
    let known =
      created_task id t t' e s.maps s'.maps (transact-ok (create_task_plan id t e) t' s s' h) in
    ground (arith, known, k)

-- In a store that files each Task under its own key, and where the first callback leaves the
-- Task's identifiers, revision and sequence number alone: an update with a nonempty deduplication
-- key takes effect once. After it was applied, and after any further operations of the store, other
-- updates of the Task among them, the Task is there, and a further update of it with that key,
-- whatever its callback, answers with the Task as it is stored then and false, and changes nothing.
-- (ApplyTask expects no revision.)
pub apply_task_once :
    (id id' tenant task_id : String) (revision : ℕ) (dedup : String) (f g : Mutation) (t : Task)
    (os : List Operation) (s s' : JournalStore)
    → IsFiled s.maps
    → KeepsIdentity f
    → dedup ≢ ""
    → apply_task_version id tenant task_id revision dedup f s ≡ (ok (applied t), s')
    → (t' : Task) × (lookup (resource_key tenant task_id) (run os s').maps.tasks ≡ some t')
      × (apply_task id' tenant task_id dedup g (run os s') ≡ (ok (duplicate t'), run os s'))
unfolding apply_task
apply_task_once id id' tenant task_id revision dedup f g t os s s' filed keeps ne h =
    let u = Update-of_applied id tenant task_id revision dedup f t s s' h in
    let found = update_found id tenant task_id revision dedup f t s.maps s'.maps filed keeps u in
    let known = update_known id tenant task_id revision dedup f t s.maps s'.maps filed keeps u ne in
    let (t', there) = task-run os s' (resource_key tenant task_id) t found in
    (
      t',
      there,
      current_is_duplicate id' tenant task_id 0 dedup g t' (run os s') there
          (unfold is_stale in refl) (has_key-run os s' (resource_key tenant task_id) dedup known),
    )
