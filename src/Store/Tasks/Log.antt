-- ===== src/Store/Tasks/Log.antt =====
-- The event log and the transactional outbox of Task updates (ApplyTaskVersion of
-- internal/core/store.go).
use Prim.Native.String.{◌++◌ as text_append}
use agent_federation_hub.Base.{
  ℕ, String, ◌≡◌, refl, [], ◌∷◌, ◌++◌, some, ◌==◌, eq_refl, if◌then◌else◌,
}
use agent_federation_hub.Base.Dict.{lookup, lookup_or, lookup-insert, lookup_or-insert}
use agent_federation_hub.Model.{Task, Event}
use agent_federation_hub.Store.State.{ok, applied, JournalRecord, JournalStore, Maps}
use agent_federation_hub.Store.Journal.{resource_key, apply_record, put_task}
use agent_federation_hub.Model.Queue.{OutboxItem, encoded}
use agent_federation_hub.Store.Writes.{after_write, transact-after_write}
use agent_federation_hub.Store.Tasks.{
  Mutation, task_record, stamp_event, outbox_from_event, local_key, apply_task_plan,
  apply_task_version,
}
use agent_federation_hub.Store.Tasks.Versions.{
  IsFiled, KeepsIdentity, Update, Update-of_applied, update_key,
}

-- What the write of a Task and its event does to the log and to the outbox.
task_record-maps :
    (key : String) (t : Task) (e : Event) (m m' : Maps)
    → m' ≡ apply_record (task_record t e) m
    → resource_key t.tenant_id t.id ≡ key
    → (lookup_or [] key m'.events ≡ lookup_or [] key m.events ++ e ∷ [])
      × (lookup e.id m'.outbox_items ≡ some (outbox_from_event e))
unfolding apply_record task_record put_task
task_record-maps key t e m m' w k =
    (rw (w, k) (rw lookup_or-insert (rw eq_refl)), rw w (rw lookup-insert (rw eq_refl)))

-- The write of an update that was applied.
Update-after_write :
    (id tenant task_id : String) (expected : ℕ) (dedup : String) (f : Mutation) (t : Task)
    (s s' : JournalStore) (u : Update id tenant task_id expected dedup f t s.maps s'.maps)
    → apply_task_version id tenant task_id expected dedup f s ≡ (ok (applied t), s')
    → s' ≡ after_write (task_record t (stamp_event id t dedup u.event)) s
unfolding apply_task_version apply_task_plan
Update-after_write id tenant task_id expected dedup f t s s' u h =
    transact-after_write (apply_task_plan id tenant task_id expected dedup f)
      (task_record t (stamp_event id t dedup u.event)) (applied t) (ok (applied t)) s s'
      (rw u.bumped (rw u.found (rw u.fresh (rw u.unknown_key (rw u.mutated refl))))) h

-- In a store that files each Task under its own key, and where the callback leaves the Task's
-- identifiers, revision and sequence number alone: an update that is applied is one write, of one
-- record with the new Task, one event and one outbox item. The event is the one that the callback
-- made of the stored Task, with the drawn identifier, the identifiers and the sequence number of
-- the new Task, and the deduplication key, or "local:" and the identifier for an empty key; the item
-- carries that event under its identifier. The event is appended to the log of the Task that the
-- caller named, and the item is filed in the outbox.
pub apply_task_queues :
    (id tenant task_id : String) (expected : ℕ) (dedup : String) (f : Mutation) (t : Task)
    (s s' : JournalStore)
    → IsFiled s.maps
    → KeepsIdentity f
    → apply_task_version id tenant task_id expected dedup f s ≡ (ok (applied t), s')
    → (current : Task) × (made : Task) × (event : Event) × (e : Event) × (o : OutboxItem)
      × (r : JournalRecord) × (lookup (resource_key tenant task_id) s.maps.tasks ≡ some current)
      × (f current ≡ ok (made, event))
      × (e ≡ record event {
        id = id;
        task_id = t.id;
        tenant_id = t.tenant_id;
        sequence = t.last_sequence;
        dedup_key = if dedup == "" then text_append "local:" id else dedup;
      })
      × (o ≡ record {
        id = id;
        tenant_id = t.tenant_id;
        task_id = t.id;
        dedup_key = e.dedup_key;
        topic = event.kind;
        payload = encoded e;
        created_at = event.created_at;
      })
      × (r.task_entry ≡ some t)
      × (r.event ≡ some e)
      × (r.outbox_entry ≡ some o)
      × (s' ≡ after_write r s)
      × (lookup_or [] (resource_key tenant task_id) s'.maps.events
          ≡ lookup_or [] (resource_key tenant task_id) s.maps.events ++ e ∷ [])
      × (lookup id s'.maps.outbox_items ≡ some o)
unfolding stamp_event outbox_from_event task_record local_key
apply_task_queues id tenant task_id expected dedup f t s s' filed keeps h =
    let u = Update-of_applied id tenant task_id expected dedup f t s s' h in
    let e = stamp_event id t dedup u.event in
    let key = update_key id tenant task_id expected dedup f t s.maps s'.maps filed keeps u in
    let m = task_record-maps (resource_key tenant task_id) t e s.maps s'.maps u.written key in
    let w = Update-after_write id tenant task_id expected dedup f t s s' u h in
    (
      u.current,
      u.made,
      u.event,
      e,
      outbox_from_event e,
      task_record t e,
      u.found,
      u.mutated,
      refl,
      refl,
      refl,
      refl,
      refl,
      w,
      m.0,
      m.1,
    )
