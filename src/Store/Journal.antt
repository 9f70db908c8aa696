-- ===== src/Store/Journal.antt =====
-- The journal of JournalStore (internal/core/store.go): keys, applyRecord, append and replay, and
-- the shape that its operations share: read the maps, then answer, refuse, or write one record.
use Prim.Native.String.{◌++◌ as text_append}
use mathlib.Core.Option
use agent_federation_hub.Base.{
  String, Bool, true, false, List, [], ◌∷◌, ◌++◌, Option, none, some, ◌==◌, eqb, if◌then◌else◌,
}
use agent_federation_hub.Base.Dict.{insert, lookup_or}
use agent_federation_hub.Model.{Agent, Task, Event, TokenRevocation, WorkerControl}
use agent_federation_hub.Model.Objects.{ArtifactObject, ArtifactUsage}
use agent_federation_hub.Model.Queue.{InboxItem, OutboxItem}
use agent_federation_hub.Model.Workflow.{Workflow, WorkflowEvent}
use agent_federation_hub.Store.State.{
  Error, journal_failed, decode_failed, unsupported_version, Result, ok, err, LeaseState,
  InboxState, OutboxState, RecordKind, agent, task, lease, inbox, inbox_state, outbox, outbox_state,
  revocation, artifact, artifact_lease, workflow, worker_control, other, JournalRecord, Maps,
  empty_maps, JournalLine, decoded, garbled, WriteOutcome, durable, failed, unsynced, JournalFile,
  JournalStore,
}

abbrev join_keys : String → String → String
join_keys a b = text_append a (text_append "\0" b)

unfoldable pub resource_key : String → String → String
resource_key tenant id = join_keys tenant id

unfoldable pub inbox_dedup_key : InboxItem → String
inbox_dedup_key item = join_keys item.tenant_id (join_keys item.task_id item.dedup_key)

unfoldable pub outbox_dedup_key : OutboxItem → String
outbox_dedup_key item = join_keys item.tenant_id (join_keys item.task_id item.dedup_key)

unfoldable pub revocation_key : String → String → String → String
revocation_key issuer token_id tenant_id = join_keys issuer (join_keys token_id tenant_id)

-- The cases of applyRecord. A record whose part is missing changes nothing.
unfoldable pub put_agent : Option Agent → Maps → Maps
put_agent none m = m
put_agent (some a) m = record m { agents = insert (resource_key a.tenant_id a.id) a m.agents }

unfoldable pub put_event : String → Option Event → Maps → Maps
put_event key none m = m
put_event key (some e) m = record m {
  events = insert key (lookup_or [] key m.events ++ (e ∷ [])) m.events;
  dedup_keys = insert key (insert e.dedup_key tt (lookup_or [] key m.dedup_keys)) m.dedup_keys;
}

unfoldable pub put_outbox : Option OutboxItem → Maps → Maps
put_outbox none m = m
put_outbox (some o) m = record m {
  outbox_items = insert o.id o m.outbox_items;
  outbox_dedup = insert (outbox_dedup_key o) o.id m.outbox_dedup;
}

unfoldable pub put_task : Option Task → Option Event → Option OutboxItem → Maps → Maps
unfolding put_event put_outbox
put_task none e o m = m
put_task (some t) e o m =
    let key = resource_key t.tenant_id t.id in
    put_outbox o (put_event key e (record m { tasks = insert key t m.tasks }))

unfoldable pub put_lease : String → Option LeaseState → Maps → Maps
put_lease key none m = m
put_lease key (some l) m = if key == "" then m else record m { leases = insert key l m.leases }

unfoldable pub put_inbox : Option InboxItem → Maps → Maps
put_inbox none m = m
put_inbox (some i) m = record m {
  inbox_items = insert i.id i m.inbox_items;
  inbox_dedup = insert (inbox_dedup_key i) i.id m.inbox_dedup;
}

unfoldable pub put_inbox_state : String → Option InboxState → Maps → Maps
put_inbox_state id none m = m
put_inbox_state id (some x) m =
    if id == "" then m else record m { inbox_states = insert id x m.inbox_states }

unfoldable pub put_outbox_state : String → Option OutboxState → Maps → Maps
put_outbox_state id none m = m
put_outbox_state id (some x) m =
    if id == "" then m else record m { outbox_states = insert id x m.outbox_states }

unfoldable pub put_revocation : Option TokenRevocation → Maps → Maps
put_revocation none m = m
put_revocation (some r) m = record m {
  revocations = insert (revocation_key r.issuer r.token_id r.tenant_id) r m.revocations;
}

unfoldable pub put_artifact_object : Option ArtifactObject → Maps → Maps
put_artifact_object none m = m
put_artifact_object (some o) m = record m {
  artifact_objects = insert (resource_key o.tenant_id o.id) o m.artifact_objects;
}

unfoldable pub put_artifact_usage : Option ArtifactUsage → Maps → Maps
put_artifact_usage none m = m
put_artifact_usage (some u) m = record m {
  artifact_usages = insert u.tenant_id u m.artifact_usages;
}

unfoldable pub put_artifact_lease : String → Option LeaseState → Maps → Maps
put_artifact_lease id none m = m
put_artifact_lease id (some l) m =
    if id == "" then m else record m { artifact_leases = insert id l m.artifact_leases }

unfoldable pub put_workflow_event : String → Option WorkflowEvent → Maps → Maps
put_workflow_event key none m = m
put_workflow_event key (some e) m = record m {
  workflow_dedup =
      insert key (insert e.dedup_key tt (lookup_or [] key m.workflow_dedup)) m.workflow_dedup;
}

unfoldable pub put_workflow : Option Workflow → Option WorkflowEvent → Maps → Maps
unfolding put_workflow_event
put_workflow none e m = m
put_workflow (some w) e m =
    let key = resource_key w.tenant_id w.id in
    put_workflow_event key e (record m { workflows = insert key w m.workflows })

unfoldable pub put_worker_control : Option WorkerControl → Maps → Maps
put_worker_control none m = m
put_worker_control (some c) m = record m { worker_controls = insert c.scope c m.worker_controls }

-- The `switch` of applyRecord.
unfoldable pub apply_kind : RecordKind → JournalRecord → Maps → Maps
apply_kind agent r m = put_agent r.agent_entry m
apply_kind task r m = put_task r.task_entry r.event r.outbox_entry m
apply_kind lease r m = put_lease r.task_key r.lease_entry m
apply_kind inbox r m = put_inbox r.inbox_entry m
apply_kind inbox_state r m = put_inbox_state r.inbox_id r.inbox_state_entry m
apply_kind outbox r m = put_outbox r.outbox_entry m
apply_kind outbox_state r m = put_outbox_state r.outbox_id r.outbox_state_entry m
apply_kind revocation r m = put_revocation r.revocation_entry m
apply_kind artifact r m =
    put_artifact_lease r.artifact_lease_id r.artifact_lease_entry
      (put_artifact_usage r.artifact_usage (put_artifact_object r.artifact_object m))
apply_kind artifact_lease r m = put_artifact_lease r.artifact_lease_id r.artifact_lease_entry m
apply_kind workflow r m = put_workflow r.workflow_entry r.workflow_event m
apply_kind worker_control r m = put_worker_control r.worker_control_entry m
apply_kind (other k) r m = m

unfoldable pub apply_record : JournalRecord → Maps → Maps
unfolding apply_kind
apply_record r m = apply_kind r.kind r m

-- What decoding gives back of an encoded object: the field `StorageKey` is tagged `json:"-"`.
unfoldable pub json_object : ArtifactObject → ArtifactObject
json_object o = record o { storage_key = "" }

-- A record as a later replay decodes it.
unfoldable pub json_record : JournalRecord → JournalRecord
unfolding json_object
json_record r = record r { artifact_object = Option.map json_object r.artifact_object }

-- One write to the file, with the outcome that the environment has for it.
unfoldable pub write_line : JournalRecord → List WriteOutcome → JournalFile → Bool × JournalFile
unfolding json_record
write_line r [] f = (true, record f { lines = f.lines ++ (decoded (json_record r) ∷ []) })
write_line r (durable ∷ rest) f =
    (true, record { lines = f.lines ++ (decoded (json_record r) ∷ []); outcomes = rest })
write_line r (failed ∷ rest) f = (false, record { lines = f.lines; outcomes = rest })
write_line r (unsynced ∷ rest) f =
    (false, record { lines = f.lines ++ (decoded (json_record r) ∷ []); outcomes = rest })

-- `append`: whether it returned no error, and the file after it.
unfoldable pub append : JournalRecord → Option JournalFile → Bool × Option JournalFile
unfolding write_line
append r none = (true, none)
append r (some f) = let (done, f') = write_line r f.outcomes f in (done, some f')

-- if err := s.append(record); err != nil { return err }; s.applyRecord(record); return a
unfoldable pub commit {ℓ} :
    {A : Type ℓ} → JournalRecord → A → JournalStore → Result A × JournalStore
unfolding append
commit r a s =
    let (done, file') = append r s.file in
    if done
    then (ok a, record { file = file'; maps = apply_record r s.maps })
    else (err journal_failed, record s { file = file' })

-- What an operation decides under the lock, from the maps alone.
pub data Plan {ℓ} (A : Type ℓ) : Type ℓ where
  reply : A → Plan A
  refuse : Error → Plan A
  write : JournalRecord → A → Plan A

unfoldable pub perform {ℓ} : {A : Type ℓ} → Plan A → JournalStore → Result A × JournalStore
unfolding commit
perform (reply a) s = (ok a, s)
perform (refuse e) s = (err e, s)
perform (write r a) s = commit r a s

unfoldable pub transact {ℓ} :
    {A : Type ℓ} → (Maps → Plan A) → JournalStore → Result A × JournalStore
unfolding perform
transact plan s = perform (plan s.maps) s

-- What follows a step that may fail, from the state that the step left.
unfoldable pub and_then {ℓ κ} :
    {A : Type ℓ} {B : Type κ}
    → Result A × JournalStore
    → (A → JournalStore → Result B × JournalStore)
    → Result B × JournalStore
and_then (ok a, s) f = f a s
and_then (err e, s) f = (err e, s)

-- The loops that claim leases: each round writes one record, and the first error ends the loop.
unfoldable pub claim_each {ℓ κ} :
    {K : Type ℓ} {A : Type κ}
    → (K → Maps → Plan A)
    → List K
    → JournalStore
    → Result (List A) × JournalStore
unfolding transact and_then
claim_each plan [] s = (ok [], s)
claim_each plan (k ∷ ks) s =
    and_then (transact (plan k) s)
      λ a s'. and_then (claim_each plan ks s') λ rest s''. (ok (a ∷ rest), s'')

-- `replay` over the lines of the file, from the maps so far.
unfoldable pub replay_from : Maps → List JournalLine → Result Maps
unfolding apply_record
replay_from m [] = ok m
replay_from m (garbled ∷ rest) = err decode_failed
replay_from m (decoded r ∷ rest) =
    let after = replay_from (apply_record r m) rest in
    if eqb r.version 1 then after else err unsupported_version

-- `replay` fills the empty maps that OpenJournal makes.
unfoldable pub replay : List JournalLine → Result Maps
unfolding replay_from
replay lines = replay_from empty_maps lines

-- OpenJournal on the file of a store that stopped: the writes to come are durable.
unfoldable pub reopen : JournalStore → Result JournalStore
unfolding replay
reopen s = elim s.file [
  | none ↦ ok (record { file = none; maps = empty_maps })
  | some f ↦ elim (replay f.lines) [
    | ok m ↦ ok (record { file = some (record { lines = f.lines; outcomes = [] }); maps = m })
    | err e ↦ err e
  ]
]
