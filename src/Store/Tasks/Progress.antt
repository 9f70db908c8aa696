-- ===== src/Store/Tasks/Progress.antt =====
-- What the updates of Tasks (ApplyTask and CreateTask of internal/core/store.go) leave of the Tasks
-- that were there, for callbacks that move a Task only forward.
use agent_federation_hub.Base.{
  ℕ, String, ◌≡◌, refl, ◌∙◌, Bool, true, false, Option, none, some, inl, inr, ◌==◌, eq_iff,
  if◌then◌else◌, Bool-cases, Option-cases,
}
use agent_federation_hub.Base.Dict.{lookup, insert, All-lookup, All-insert, lookup-insert}
use agent_federation_hub.Model.{Task, Event, is_terminal}
use agent_federation_hub.Store.State.{Result, ok, err, Maps, JournalRecord, JournalStore}
use agent_federation_hub.Store.Journal.{
  Plan, reply, refuse, write, resource_key, apply_record, append, commit, perform, transact,
}
use agent_federation_hub.Store.Claims.{After}
use agent_federation_hub.Store.Tasks.{
  Mutation, task_record, has_key, is_stale, apply_mutation, apply_current, apply_task_plan,
  apply_task_version, apply_task, create_task_plan, create_task,
}
use agent_federation_hub.Store.Tasks.Versions.{IsFiled, put_task-tasks}

-- The same Task at a later time: its identity and request are the same, a terminal state and a remote
-- identifier stay, and a request to cancel is not withdrawn.
abbrev pub IsLater : Task → Task → Type 0
IsLater t t' =
    (t'.id ≡ t.id)
    × (t'.tenant_id ≡ t.tenant_id)
    × (t'.agent_id ≡ t.agent_id)
    × (t'.message_id ≡ t.message_id)
    × (t'.input_digest ≡ t.input_digest)
    × (t'.idempotency_key ≡ t.idempotency_key)
    × (is_terminal t.state ≡ true → t'.state ≡ t.state)
    × ((t.remote_task_id == "") ≡ false → t'.remote_task_id ≡ t.remote_task_id)
    × (t.cancel_requested ≡ true → t'.cancel_requested ≡ true)

pub IsLater-refl : (t : Task) → IsLater t t
IsLater-refl t = (refl, refl, refl, refl, refl, refl, λ h. refl, λ h. refl, λ h. h)

pub IsLater-trans : (t u v : Task) → IsLater t u → IsLater u v → IsLater t v
IsLater-trans t u v h k = (
  k.0 ∙ h.0,
  k.1 ∙ h.1,
  k.2 ∙ h.2,
  k.3 ∙ h.3,
  k.4 ∙ h.4,
  k.5 ∙ h.5,
  λ z. k.6 (rw (h.6 z) z) ∙ h.6 z,
  λ z. k.7 (rw (h.7 z) z) ∙ h.7 z,
  λ z. k.8 (h.8 z),
)

-- A callback that moves a Task only forward.
abbrev pub Advances : Mutation → Type 0
Advances f = (t t' : Task) (e : Event) → f t ≡ ok (t', e) → IsLater t t'

-- The Tasks of later maps.
pub record Progress (m m' : Maps) : Type 0 where
  pub filed : IsFiled m'
  pub kept :
      (key : String) (t : Task)
      → lookup key m.tasks ≡ some t
      → (t' : Task) × (lookup key m'.tasks ≡ some t') × IsLater t t'

pub Progress-refl : (m : Maps) → IsFiled m → Progress m m
Progress-refl m h = record { filed = h; kept = λ key t e. (t, e, IsLater-refl t) }

pub Progress-trans : (m n o : Maps) → Progress m n → Progress n o → Progress m o
Progress-trans m n o p q = record {
  filed = q.filed;
  kept = λ key t e.
      let (u, eu, lu) = p.kept key t e in
      let (v, ev, lv) = q.kept key u eu in (v, ev, IsLater-trans t u v lu lv);
}

-- Maps with the same Tasks.
pub Progress-same : (m n : Maps) → IsFiled m → n.tasks ≡ m.tasks → Progress m n
Progress-same m n h e = record { filed = rw e h; kept = λ key t k. (t, rw e k, IsLater-refl t) }

commit-After {ℓ κ} :
    {A : Type ℓ} (P : Maps → Type κ) (r : JournalRecord) (a : A) (s : JournalStore)
    → P s.maps
    → P (apply_record r s.maps)
    → P (commit r a s).1.maps
unfolding commit
commit-After P r a s old new = elim (Bool-cases (append r s.file).0) [
  | inl e ↦ rw (e, commit) new
  | inr e ↦ rw (e, commit) old
]

perform-After {ℓ κ} :
    {A : Type ℓ} (P : Maps → Type κ) (p : Plan A) (s : JournalStore)
    → P s.maps
    → After P p s.maps
    → P (perform p s).1.maps
unfolding perform
perform-After P (reply a) s h k = k
perform-After P (refuse e) s h k = k
perform-After P (write r a) s h k = commit-After P r a s h k

-- What holds of the maps after a plan holds of them after the plan is performed, whatever becomes of
-- the write.
pub transact-After {ℓ κ} :
    {A : Type ℓ} (P : Maps → Type κ) (plan : Maps → Plan A) (s : JournalStore)
    → P s.maps
    → After P (plan s.maps) s.maps
    → P (transact plan s).1.maps
unfolding transact
transact-After P plan s h k = perform-After P (plan s.maps) s h k

pub After-if {ℓ κ} :
    {A : Type ℓ} (P : Maps → Type κ) (b : Bool) (p q : Plan A) (m : Maps)
    → After P p m
    → After P q m
    → After P (if b then p else q) m
After-if P true p q m h k = h
After-if P false p q m h k = k

-- The write of a later Task in the place of the one that was there.
put-Progress :
    (key : String) (t t' : Task) (e : Event) (m : Maps)
    → IsFiled m
    → lookup key m.tasks ≡ some t
    → resource_key t'.tenant_id t'.id ≡ key
    → IsLater t t'
    → Progress m (apply_record (task_record t' e) m)
unfolding apply_record task_record
put-Progress key t t' e m filed found own later =
    let stored : (apply_record (task_record t' e) m).tasks ≡ insert key t' m.tasks =
      rw (← own) (put_task-tasks t' _ _ m) in
    record {
      filed =
          rw stored
            (All-insert (λ x. resource_key x.1.tenant_id x.1.id ≡ x.0) key t' m.tasks own filed);
      kept = λ j u k. elim (Bool-cases (key == j)) [
        | inl same ↦
            let there : key ≡ j = (eq_iff key j).0 same in
            let old : u ≡ t = cc (k, found, there) in
            (t', rw (stored, lookup-insert) (rw same), rw old later)
        | inr other ↦ (u, rw (stored, lookup-insert) (rw other k), IsLater-refl u)
      ];
    }

module _ (id tenant task_id dedup : String) (f : Mutation) (advances : Advances f) (m : Maps)
    (filed : IsFiled m) where
  mutation-Progress :
      (t : Task) (r : Result (Task × Event))
      → lookup (resource_key tenant task_id) m.tasks ≡ some t
      → f t ≡ r
      → After (Progress m) (apply_mutation id dedup r) m
  unfolding apply_mutation
  mutation-Progress t (err e) found made = Progress-refl m filed
  mutation-Progress t (ok (t', e)) found made =
      let later = advances t t' e made in
      let own : resource_key t.tenant_id t.id ≡ resource_key tenant task_id =
        All-lookup (λ x. resource_key x.1.tenant_id x.1.id ≡ x.0) _ t m.tasks filed found in
      put-Progress (resource_key tenant task_id) t _ _ m filed found (cc (own, later.0, later.1))
        later

  current-Progress :
      (cur : Option Task) (known : Bool) (expected : ℕ)
      → lookup (resource_key tenant task_id) m.tasks ≡ cur
      → After (Progress m) (apply_current id expected dedup f known cur) m
  unfolding apply_current
  current-Progress none known expected found = Progress-refl m filed
  current-Progress (some t) known expected found =
      After-if (Progress m) (is_stale expected t.revision) _ _ m (Progress-refl m filed) (
        After-if (Progress m) known _ _ m (Progress-refl m filed)
          (mutation-Progress t (f t) found refl))

-- An update with a callback that moves a Task forward moves every Task only forward.
pub apply_task-Progress :
    (id tenant task_id dedup : String) (f : Mutation) (s : JournalStore)
    → Advances f
    → IsFiled s.maps
    → Progress s.maps (apply_task id tenant task_id dedup f s).1.maps
unfolding apply_task apply_task_version apply_task_plan
apply_task-Progress id tenant task_id dedup f s advances filed =
    transact-After (Progress s.maps) (apply_task_plan id tenant task_id 0 dedup f) s
      (Progress-refl s.maps filed)
      (current-Progress id tenant task_id dedup f advances s.maps filed
        (lookup (resource_key tenant task_id) s.maps.tasks)
        (has_key s.maps.dedup_keys (resource_key tenant task_id) dedup) 0 refl)

-- The write of a Task whose key was free.
new-Progress :
    (key : String) (t' : Task) (e : Event) (m : Maps)
    → IsFiled m
    → lookup key m.tasks ≡ none
    → resource_key t'.tenant_id t'.id ≡ key
    → Progress m (apply_record (task_record t' e) m)
unfolding apply_record task_record
new-Progress key t' e m filed free own =
    let stored : (apply_record (task_record t' e) m).tasks ≡ insert key t' m.tasks =
      rw (← own) (put_task-tasks t' _ _ m) in
    record {
      filed =
          rw stored
            (All-insert (λ x. resource_key x.1.tenant_id x.1.id ≡ x.0) key t' m.tasks own filed);
      kept = λ j u k. elim (Bool-cases (key == j)) [
        | inl same ↦ let there : key ≡ j = (eq_iff key j).0 same in absurd (cc (k, free, there))
        | inr other ↦ (u, rw (stored, lookup-insert) (rw other k), IsLater-refl u)
      ];
    }

create_plan-Progress :
    (id : String) (t : Task) (e : Event) (m : Maps)
    → IsFiled m
    → After (Progress m) (create_task_plan id t e m) m
unfolding create_task_plan
create_plan-Progress id t e m filed =
    elim (Option-cases (lookup (resource_key t.tenant_id t.id) m.tasks)) [
      | inl free ↦
          rw (free, After)
            (new-Progress (resource_key t.tenant_id t.id)
              (record t { revision = 1; last_sequence = 1 }) _ m filed free refl)
      | inr (old, found) ↦ rw (found, After) (Progress-refl m filed)
    ]

pub create_task-Progress :
    (id : String) (t : Task) (e : Event) (s : JournalStore)
    → IsFiled s.maps
    → Progress s.maps (create_task id t e s).1.maps
unfolding create_task
create_task-Progress id t e s filed =
    transact-After (Progress s.maps) (create_task_plan id t e) s (Progress-refl s.maps filed)
      (create_plan-Progress id t e s.maps filed)
