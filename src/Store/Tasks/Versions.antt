-- ===== src/Store/Tasks/Versions.antt =====
-- Optimistic concurrency and deduplication of Task updates (ApplyTaskVersion of
-- internal/core/store.go), and the creation of Tasks.
use agent_federation_hub.Base.{
  ℕ, ◌+◌, String, ◌≡◌, refl, sym, ap, ◌∙◌, ◌≢◌, text_ne, Bool, true, false, Option, none, some,
  arith, ◌==◌, eq_refl, All, if◌then◌else◌,
}
use agent_federation_hub.Base.Int.{u64}
use agent_federation_hub.Base.Dict.{lookup, insert, All-lookup, lookup-insert, lookup_or-insert}
use agent_federation_hub.Model.{Task, Event}
use agent_federation_hub.Model.Queue.{OutboxItem}
use agent_federation_hub.Store.State.{
  Result, ok, err, applied, duplicate, stale, Maps, JournalStore,
}
use agent_federation_hub.Store.Journal.{resource_key, apply_record, put_task, reply}
use agent_federation_hub.Store.Writes.{Took, transact-ok}
use agent_federation_hub.Store.Tasks.{
  Mutation, task_record, stamp_event, has_key, is_stale, apply_mutation, apply_current,
  apply_task_plan, apply_task_version,
}

-- How an update that was applied came about: the current Task, what the callback made of it, and
-- the record that was written.
pub record Update (id tenant task_id : String) (expected : ℕ) (dedup : String) (f : Mutation)
    (t : Task) (m m' : Maps) : Type 0 where
  pub current : Task
  pub made : Task
  pub event : Event
  pub found : lookup (resource_key tenant task_id) m.tasks ≡ some current
  pub fresh : is_stale expected current.revision ≡ false
  pub unknown_key : has_key m.dedup_keys (resource_key tenant task_id) dedup ≡ false
  pub mutated : f current ≡ ok (made, event)
  pub bumped : t ≡ record made {
    revision = u64 (made.revision + 1);
    last_sequence = u64 (made.last_sequence + 1);
  }
  pub written : m' ≡ apply_record (task_record t (stamp_event id t dedup event)) m

module _ (id tenant task_id : String) (expected : ℕ) (dedup : String) (f : Mutation)
    (t : Task) where
  Update-of_mutation :
      (current : Task) (r : Result (Task × Event)) (m m' : Maps)
      → lookup (resource_key tenant task_id) m.tasks ≡ some current
      → is_stale expected current.revision ≡ false
      → has_key m.dedup_keys (resource_key tenant task_id) dedup ≡ false
      → f current ≡ r
      → Took (apply_mutation id dedup r) (applied t) m m'
      → Update id tenant task_id expected dedup f t m m'
  unfolding apply_mutation
  Update-of_mutation current (err e) m m' a b c d h = absurd h.0
  Update-of_mutation current (ok (t', e)) m m' a b c d h =
      let e' : record t' {
        revision = u64 (t'.revision + 1);
        last_sequence = u64 (t'.last_sequence + 1);
      }
          ≡ t =
        cc in
      record {
        current = current;
        made = t';
        event = e;
        found = a;
        fresh = b;
        unknown_key = c;
        mutated = d;
        bumped = sym e';
        written = rw (← e') h.1;
      }

  Update-of_current :
      (cur : Option Task) (known : Bool) (m m' : Maps)
      → lookup (resource_key tenant task_id) m.tasks ≡ cur
      → has_key m.dedup_keys (resource_key tenant task_id) dedup ≡ known
      → Took (apply_current id expected dedup f known cur) (applied t) m m'
      → Update id tenant task_id expected dedup f t m m'
  unfolding apply_current
  Update-of_current none known m m' a b h = absurd h.0
  Update-of_current (some c) known m m' a b h = split (is_stale expected c.revision) known refl b h
    where
      split :
          (old k : Bool)
          → is_stale expected c.revision ≡ old
          → has_key m.dedup_keys (resource_key tenant task_id) dedup ≡ k
          → Took
              (if old
                then reply (stale c)
                else if k
                then reply (duplicate c)
                else apply_mutation id dedup (f c))
              (applied t)
              m
              m'
          → Update id tenant task_id expected dedup f t m m'
      split true k x y w = absurd (unmixed w.0)
        where
          unmixed : stale c ≡ applied t → ⊥
          unmixed q = cc
      split false true x y w = absurd (unmixed w.0)
        where
          unmixed : duplicate c ≡ applied t → ⊥
          unmixed q = cc
      split false false x y w = Update-of_mutation c (f c) m m' a x y refl w

  -- Inversion of an update that was applied.
  pub Update-of_applied :
      (s s' : JournalStore)
      → apply_task_version id tenant task_id expected dedup f s ≡ (ok (applied t), s')
      → Update id tenant task_id expected dedup f t s.maps s'.maps
  unfolding apply_task_version apply_task_plan
  Update-of_applied s s' h =
      Update-of_current (lookup (resource_key tenant task_id) s.maps.tasks)
        (has_key s.maps.dedup_keys (resource_key tenant task_id) dedup) s.maps s'.maps refl refl
        (transact-ok (apply_task_plan id tenant task_id expected dedup f) (applied t) s s' h)

-- A callback that leaves alone what the store itself maintains.
pub record KeepsIdentity (f : Mutation) : Type 0 where
  pub keeps :
      (t t' : Task) (e : Event)
      → f t ≡ ok (t', e)
      → (t'.id ≡ t.id)
        × (t'.tenant_id ≡ t.tenant_id)
        × (t'.revision ≡ t.revision)
        × (t'.last_sequence ≡ t.last_sequence)

-- Each Task is filed under its own key.
abbrev pub IsFiled : Maps → Type 0
IsFiled m = All (λ e. resource_key e.1.tenant_id e.1.id ≡ e.0) m.tasks

pub put_task-tasks :
    (t : Task) (e : Option Event) (o : Option OutboxItem) (m : Maps)
    → (put_task (some t) e o m).tasks ≡ insert (resource_key t.tenant_id t.id) t m.tasks
unfolding put_task
put_task-tasks t e o m = ground arith

module _ (id tenant task_id : String) (expected : ℕ) (dedup : String) (f : Mutation) (t : Task)
    (m m' : Maps) (filed : IsFiled m) (keeps : KeepsIdentity f)
    (u : Update id tenant task_id expected dedup f t m m') where
  pub update_key : resource_key t.tenant_id t.id ≡ resource_key tenant task_id
  update_key =
      let k = keeps.keeps u.current u.made u.event u.mutated in
      let own : resource_key u.current.tenant_id u.current.id ≡ resource_key tenant task_id =
        All-lookup _ _ u.current m.tasks filed u.found in
      cc (own, k.0, k.1, ap (λ (x : Task). x.id) u.bumped, ap (λ (x : Task). x.tenant_id) u.bumped)

  -- The updated Task stands under the key that the caller named.
  pub update_found : lookup (resource_key tenant task_id) m'.tasks ≡ some t
  unfolding apply_record task_record
  update_found =
      let stored : m'.tasks ≡ insert (resource_key tenant task_id) t m.tasks =
        rw (u.written, ← update_key) (put_task-tasks t _ _ m) in
      rw (stored, lookup-insert, eq_refl)

  -- It has the next revision.
  pub update_revision : t.revision ≡ u64 (u.current.revision + 1)
  update_revision = ground (arith, keeps.keeps u.current u.made u.event u.mutated)

  -- Its deduplication key is known from then on.
  pub update_known : dedup ≢ "" → has_key m'.dedup_keys (resource_key tenant task_id) dedup ≡ true
  unfolding has_key apply_record task_record stamp_event put_task
  update_known ne =
      let new : (dedup == "") ≡ false = text_ne dedup "" ne in
      rw (u.written, update_key, new, lookup_or-insert) (rw eq_refl (rw lookup-insert (rw eq_refl)))

-- The answer to an update where a Task of some revision is found.
current_is_stale :
    (id tenant task_id : String) (expected : ℕ) (dedup : String) (f : Mutation) (t : Task)
    (s : JournalStore)
    → lookup (resource_key tenant task_id) s.maps.tasks ≡ some t
    → is_stale expected t.revision ≡ true
    → apply_task_version id tenant task_id expected dedup f s ≡ (ok (stale t), s)
unfolding apply_task_version
current_is_stale id tenant task_id expected dedup f t s e h = rw e (rw h)

pub current_is_duplicate :
    (id tenant task_id : String) (expected : ℕ) (dedup : String) (f : Mutation) (t : Task)
    (s : JournalStore)
    → lookup (resource_key tenant task_id) s.maps.tasks ≡ some t
    → is_stale expected t.revision ≡ false
    → has_key s.maps.dedup_keys (resource_key tenant task_id) dedup ≡ true
    → apply_task_version id tenant task_id expected dedup f s ≡ (ok (duplicate t), s)
unfolding apply_task_version
current_is_duplicate id tenant task_id expected dedup f t s e h k = rw e (rw h (rw k))

fresh_revision : (expected r : ℕ) → expected ≢ 0 → is_stale expected r ≡ false → r ≡ expected
unfolding is_stale
fresh_revision expected r ne h = ground arith

next_is_stale : (r : ℕ) → r ≢ 0 → is_stale r (u64 (r + 1)) ≡ true
unfolding is_stale
next_is_stale r ne = ground arith

-- In a store that files each Task under its own key, and where the first callback leaves the
-- Task's identifiers, revision and sequence number alone: of two updates in a row that both expect
-- the same nonzero revision of a Task, only the first is applied: the second answers with the Task
-- that the first stored and a revision conflict, and changes nothing.
pub lost_update :
    (id id' tenant task_id : String) (revision : ℕ) (dedup dedup' : String) (f g : Mutation)
    (t : Task) (s s' : JournalStore)
    → IsFiled s.maps
    → KeepsIdentity f
    → revision ≢ 0
    → apply_task_version id tenant task_id revision dedup f s ≡ (ok (applied t), s')
    → apply_task_version id' tenant task_id revision dedup' g s' ≡ (ok (stale t), s')
lost_update id id' tenant task_id revision dedup dedup' f g t s s' filed keeps ne h =
    let u = Update-of_applied id tenant task_id revision dedup f t s s' h in
    let r : u.current.revision ≡ revision = fresh_revision revision _ ne u.fresh in
    let next : t.revision ≡ u64 (revision + 1) =
      update_revision id tenant task_id revision dedup f t s.maps s'.maps filed keeps u
      ∙ ap (λ n. u64 (n + 1)) r in
    current_is_stale id' tenant task_id revision dedup' g t s'
      (update_found id tenant task_id revision dedup f t s.maps s'.maps filed keeps u)
      (rw next (next_is_stale revision ne))
