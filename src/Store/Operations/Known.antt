-- ===== src/Store/Operations/Known.antt =====
-- What no operation of JournalStore (internal/core/store.go) forgets: a Task, the deduplication
-- keys of a Task's updates, and the deduplication keys of the items of the inbox and the outbox.
use agent_federation_hub.Base.{
  String, ◌≡◌, refl, Bool, true, false, List, Option, none, some, arith, ◌==◌, eq_iff, [],
  Bool-cases, inl, inr,
}
use agent_federation_hub.Base.Dict.{
  Dict, lookup, lookup_or, insert, lookup-insert, lookup_or-insert,
}
use agent_federation_hub.Model.{Task, Event}
use agent_federation_hub.Model.Queue.{InboxItem, OutboxItem}
use agent_federation_hub.Model.Workflow.{Workflow, WorkflowEvent}
use agent_federation_hub.Store.State.{
  RecordKind, agent, task, lease, inbox, inbox_state, outbox, outbox_state, revocation, artifact,
  artifact_lease, workflow, worker_control, other, JournalRecord, Maps, JournalStore,
}
use agent_federation_hub.Store.Journal.{
  resource_key, inbox_dedup_key, outbox_dedup_key, put_event, put_task, put_agent, put_lease,
  put_inbox, put_inbox_state, put_outbox, put_outbox_state, put_revocation, put_artifact_object,
  put_artifact_usage, put_artifact_lease, put_workflow, put_workflow_event, put_worker_control,
  apply_kind, apply_record,
}
use agent_federation_hub.Store.Tasks.{has_key}
use agent_federation_hub.Store.Writes.{Writes-keep}
use agent_federation_hub.Store.Operations.{Operation, run}
use agent_federation_hub.Store.Operations.Chains.{run-Writes}

abbrev is_some {ℓ} : {A : Type ℓ} → Option A → Bool
is_some none = false
is_some (some a) = true

some-of_is_some {ℓ} : {A : Type ℓ} (o : Option A) → is_some o ≡ true → (a : A) × (o ≡ some a)
some-of_is_some none h = cc
some-of_is_some (some a) h = (a, refl)

abbrev KeySets : Type 0
KeySets = Dict (Dict (Unit {0}))

abbrev knows : KeySets → String → String → Bool
knows sets key dedup = is_some (lookup dedup (lookup_or [] key sets))

-- The parts of the maps from which nothing is removed.
abbrev Index : Type 0
Index = Dict String × Dict String × Dict Task × KeySets × Dict Workflow × KeySets

abbrev index : Maps → Index
index m = (m.inbox_dedup, m.outbox_dedup, m.tasks, m.dedup_keys, m.workflows, m.workflow_dedup)

-- All keys of the first index are keys of the second.
record Grows (a b : Index) : Type 0 where
  pub inbox : (k : String) → is_some (lookup k a.0) ≡ true → is_some (lookup k b.0) ≡ true
  pub outbox : (k : String) → is_some (lookup k a.1) ≡ true → is_some (lookup k b.1) ≡ true
  pub tasks : (k : String) → is_some (lookup k a.2) ≡ true → is_some (lookup k b.2) ≡ true
  pub keys : (k d : String) → knows a.3 k d ≡ true → knows b.3 k d ≡ true
  pub workflows : (k : String) → is_some (lookup k a.4) ≡ true → is_some (lookup k b.4) ≡ true
  pub workflow_keys : (k d : String) → knows a.5 k d ≡ true → knows b.5 k d ≡ true

insert-is_some {ℓ} :
    {A : Type ℓ} (j k : String) (v : A) (d : Dict A)
    → is_some (lookup k d) ≡ true
    → is_some (lookup k (insert j v d)) ≡ true
insert-is_some j k v d h =
    rw lookup-insert (elim (Bool-cases (j == k)) [ inl e ↦ rw e refl | inr e ↦ rw e h ])

insert-knows :
    (key dedup k d : String) (sets : KeySets)
    → knows sets k d ≡ true
    → knows (insert key (insert dedup tt (lookup_or [] key sets)) sets) k d ≡ true
insert-knows key dedup k d sets h = rw lookup_or-insert (elim (Bool-cases (key == k)) [
  | inl e ↦
      let same : key ≡ k = grind (arith, eq_iff key k) in
      rw e (insert-is_some dedup d tt (lookup_or [] key sets) (rw same h))
  | inr e ↦ rw e h
])

module _ (a : Maps) where
  abbrev Extends : Maps → Type 0
  Extends m = Grows (index a) (index m)

  put_inbox-Extends : (i : Option InboxItem) (m : Maps) → Extends m → Extends (put_inbox i m)
  unfolding put_inbox
  put_inbox-Extends none m h = h
  put_inbox-Extends (some i) m h = record {
    inbox = λ k e. insert-is_some (inbox_dedup_key i) k i.id m.inbox_dedup (h.inbox k e);
    outbox = h.outbox;
    tasks = h.tasks;
    keys = h.keys;
    workflows = h.workflows;
    workflow_keys = h.workflow_keys;
  }

  put_outbox-Extends : (o : Option OutboxItem) (m : Maps) → Extends m → Extends (put_outbox o m)
  unfolding put_outbox
  put_outbox-Extends none m h = h
  put_outbox-Extends (some o) m h = record {
    inbox = h.inbox;
    outbox = λ k e. insert-is_some (outbox_dedup_key o) k o.id m.outbox_dedup (h.outbox k e);
    tasks = h.tasks;
    keys = h.keys;
    workflows = h.workflows;
    workflow_keys = h.workflow_keys;
  }

  put_event-Extends :
      (key : String) (e : Option Event) (m : Maps) → Extends m → Extends (put_event key e m)
  unfolding put_event
  put_event-Extends key none m h = h
  put_event-Extends key (some e) m h = record {
    inbox = h.inbox;
    outbox = h.outbox;
    tasks = h.tasks;
    keys = λ k d x. insert-knows key e.dedup_key k d m.dedup_keys (h.keys k d x);
    workflows = h.workflows;
    workflow_keys = h.workflow_keys;
  }

  put_task-Extends :
      (t : Option Task) (e : Option Event) (o : Option OutboxItem) (m : Maps)
      → Extends m
      → Extends (put_task t e o m)
  unfolding put_task
  put_task-Extends none e o m h = h
  put_task-Extends (some t) e o m h =
      let key = resource_key t.tenant_id t.id in
      put_outbox-Extends o _ (
        put_event-Extends key e (record m { tasks = insert key t m.tasks })
          (record {
            inbox = h.inbox;
            outbox = h.outbox;
            tasks = λ k x. insert-is_some key k t m.tasks (h.tasks k x);
            keys = h.keys;
            workflows = h.workflows;
            workflow_keys = h.workflow_keys;
          }))

  put_workflow_event-Extends :
      (key : String) (e : Option WorkflowEvent) (m : Maps)
      → Extends m
      → Extends (put_workflow_event key e m)
  unfolding put_workflow_event
  put_workflow_event-Extends key none m h = h
  put_workflow_event-Extends key (some e) m h = record {
    inbox = h.inbox;
    outbox = h.outbox;
    tasks = h.tasks;
    keys = h.keys;
    workflows = h.workflows;
    workflow_keys =
        λ k d x. insert-knows key e.dedup_key k d m.workflow_dedup (h.workflow_keys k d x);
  }

  put_workflow-Extends :
      (w : Option Workflow) (e : Option WorkflowEvent) (m : Maps)
      → Extends m
      → Extends (put_workflow w e m)
  unfolding put_workflow
  put_workflow-Extends none e m h = h
  put_workflow-Extends (some w) e m h =
      let key = resource_key w.tenant_id w.id in
      put_workflow_event-Extends key e (record m { workflows = insert key w m.workflows })
        (record {
          inbox = h.inbox;
          outbox = h.outbox;
          tasks = h.tasks;
          keys = h.keys;
          workflows = λ k x. insert-is_some key k w m.workflows (h.workflows k x);
          workflow_keys = h.workflow_keys;
        })

  apply_kind-Extends :
      (k : RecordKind) (r : JournalRecord) (m : Maps) → Extends m → Extends (apply_kind k r m)
  unfolding apply_kind
  apply_kind-Extends task r m h = put_task-Extends r.task_entry r.event r.outbox_entry m h
  apply_kind-Extends inbox r m h = put_inbox-Extends r.inbox_entry m h
  apply_kind-Extends outbox r m h = put_outbox-Extends r.outbox_entry m h
  apply_kind-Extends artifact r m h =
      unfold put_artifact_lease put_artifact_usage put_artifact_object in ground arith
  apply_kind-Extends agent r m h = unfold put_agent in ground arith
  apply_kind-Extends lease r m h = unfold put_lease in ground arith
  apply_kind-Extends inbox_state r m h = unfold put_inbox_state in ground arith
  apply_kind-Extends outbox_state r m h = unfold put_outbox_state in ground arith
  apply_kind-Extends revocation r m h = unfold put_revocation in ground arith
  apply_kind-Extends artifact_lease r m h = unfold put_artifact_lease in ground arith
  apply_kind-Extends workflow r m h = put_workflow-Extends r.workflow_entry r.workflow_event m h
  apply_kind-Extends worker_control r m h = unfold put_worker_control in ground arith
  apply_kind-Extends (other k) r m h = h

Grows-refl : (a : Index) → Grows a a
Grows-refl a = record {
  inbox = λ k h. h;
  outbox = λ k h. h;
  tasks = λ k h. h;
  keys = λ k d h. h;
  workflows = λ k h. h;
  workflow_keys = λ k d h. h;
}

-- Any operations, with any arguments and any outcome of their writes, keep the Tasks and the
-- deduplication keys that there are.
run-Grows : (os : List Operation) (s : JournalStore) → Grows (index s.maps) (index (run os s).maps)
unfolding apply_record
run-Grows os s =
    Writes-keep (Extends s.maps) (λ r m l h. apply_kind-Extends s.maps r.kind r m h) (λ left m h. h)
      (run-Writes os s) (Grows-refl (index s.maps))

-- A deduplication key that is known stays known.
knows-of_has_key :
    (sets : KeySets) (key dedup : String)
    → has_key sets key dedup ≡ true
    → knows sets key dedup ≡ true
unfolding has_key
knows-of_has_key sets key dedup h = ground arith

has_key-of_knows :
    (sets : KeySets) (key dedup : String)
    → (dedup == "") ≡ false
    → knows sets key dedup ≡ true
    → has_key sets key dedup ≡ true
unfolding has_key
has_key-of_knows sets key dedup ne h = ground arith

named-of_has_key :
    (sets : KeySets) (key dedup : String) → has_key sets key dedup ≡ true → (dedup == "") ≡ false
unfolding has_key
named-of_has_key sets key dedup h = ground arith

pub has_key-run :
    (os : List Operation) (s : JournalStore) (key dedup : String)
    → has_key s.maps.dedup_keys key dedup ≡ true
    → has_key (run os s).maps.dedup_keys key dedup ≡ true
has_key-run os s key dedup h =
    has_key-of_knows (run os s).maps.dedup_keys key dedup
      (named-of_has_key s.maps.dedup_keys key dedup h)
      ((run-Grows os s).keys key dedup (knows-of_has_key s.maps.dedup_keys key dedup h))

pub workflow_key-run :
    (os : List Operation) (s : JournalStore) (key dedup : String)
    → has_key s.maps.workflow_dedup key dedup ≡ true
    → has_key (run os s).maps.workflow_dedup key dedup ≡ true
workflow_key-run os s key dedup h =
    has_key-of_knows (run os s).maps.workflow_dedup key dedup
      (named-of_has_key s.maps.workflow_dedup key dedup h)
      ((run-Grows os s).workflow_keys key dedup
        (knows-of_has_key s.maps.workflow_dedup key dedup h))

pub task-run :
    (os : List Operation) (s : JournalStore) (key : String) (t : Task)
    → lookup key s.maps.tasks ≡ some t
    → (t' : Task) × (lookup key (run os s).maps.tasks ≡ some t')
task-run os s key t h =
    some-of_is_some (lookup key (run os s).maps.tasks) ((run-Grows os s).tasks key (rw h refl))

pub workflow-run :
    (os : List Operation) (s : JournalStore) (key : String) (w : Workflow)
    → lookup key s.maps.workflows ≡ some w
    → (w' : Workflow) × (lookup key (run os s).maps.workflows ≡ some w')
workflow-run os s key w h =
    some-of_is_some (lookup key (run os s).maps.workflows)
      ((run-Grows os s).workflows key (rw h refl))

pub inbox_dedup-run :
    (os : List Operation) (s : JournalStore) (key id : String)
    → lookup key s.maps.inbox_dedup ≡ some id
    → (id' : String) × (lookup key (run os s).maps.inbox_dedup ≡ some id')
inbox_dedup-run os s key id h =
    some-of_is_some (lookup key (run os s).maps.inbox_dedup)
      ((run-Grows os s).inbox key (rw h refl))

pub outbox_dedup-run :
    (os : List Operation) (s : JournalStore) (key id : String)
    → lookup key s.maps.outbox_dedup ≡ some id
    → (id' : String) × (lookup key (run os s).maps.outbox_dedup ≡ some id')
outbox_dedup-run os s key id h =
    some-of_is_some (lookup key (run os s).maps.outbox_dedup)
      ((run-Grows os s).outbox key (rw h refl))
