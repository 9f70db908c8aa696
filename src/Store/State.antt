-- ===== src/Store/State.antt =====
-- The state of JournalStore (internal/core/store.go), its journal records and its errors.
use agent_federation_hub.Base.{ℕ, String, Bool, false, List, [], Option, none}
use agent_federation_hub.Base.Dict.{Dict}
use agent_federation_hub.Model.{
  Time, zero_time, Problem, Agent, Task, Event, TokenRevocation, WorkerControl,
}
use agent_federation_hub.Model.Objects.{ArtifactObject, ArtifactUsage}
use agent_federation_hub.Model.Queue.{InboxItem, OutboxItem}
use agent_federation_hub.Model.Workflow.{Workflow, WorkflowEvent}

-- The sentinel errors, the validation errors with their texts, the journal's, those that a callback
-- returns, and those of a protocol adapter that carry a problem (federation.Error).
pub data Error : Type 0 where
  not_found conflict revision_conflict lease_lost quota_exceeded : Error
  invalid : String → Error
  journal_failed decode_failed unsupported_version : Error
  rejected : String → Error
  remote : Problem → Error

pub data Result {ℓ} (A : Type ℓ) : Type ℓ where
  ok : A → Result A
  err : Error → Result A

-- What ApplyTaskVersion and ApplyWorkflowVersion return beside an error: (new, true, nil),
-- (current, false, nil) for a known deduplication key, and (current, false, ErrRevisionConflict).
pub data Applied {ℓ} (A : Type ℓ) : Type ℓ where
  applied duplicate stale : A → Applied A

-- leaseState and artifactLeaseState
pub record LeaseState : Type 0 where
  pub owner : String
  pub expires_at : Time
  pub available_at : Time
  pub attempt : ℕ  -- uint32

abbrev pub no_lease : LeaseState
no_lease = record { owner = ""; expires_at = zero_time; available_at = zero_time; attempt = 0 }

pub record InboxState : Type 0 where
  pub owner : String
  pub expires_at : Time
  pub available_at : Time
  pub attempt : ℕ  -- uint32
  pub acked : Bool

abbrev pub new_inbox_state : InboxState
new_inbox_state = record {
  owner = "";
  expires_at = zero_time;
  available_at = zero_time;
  attempt = 0;
  acked = false;
}

pub record OutboxState : Type 0 where
  pub owner : String
  pub expires_at : Time
  pub available_at : Time
  pub attempt : ℕ  -- uint32
  pub acked : Bool
  pub dead_lettered : Bool
  pub purged : Bool
  pub last_error : String
  pub acked_at : Time
  pub dead_letter_at : Time
  pub purged_at : Time

abbrev pub new_outbox_state : OutboxState
new_outbox_state = record {
  owner = "";
  expires_at = zero_time;
  available_at = zero_time;
  attempt = 0;
  acked = false;
  dead_lettered = false;
  purged = false;
  last_error = "";
  acked_at = zero_time;
  dead_letter_at = zero_time;
  purged_at = zero_time;
}

-- The values of `Kind` that `applyRecord` knows; it ignores any other.
pub data RecordKind : Type 0 where
  agent task lease inbox inbox_state outbox outbox_state revocation : RecordKind
  artifact artifact_lease workflow worker_control : RecordKind
  other : String → RecordKind

pub record JournalRecord : Type 0 where
  pub version : ℕ
  pub kind : RecordKind
  pub agent_entry : Option Agent
  pub task_entry : Option Task
  pub event : Option Event
  pub task_key : String
  pub lease_entry : Option LeaseState
  pub inbox_entry : Option InboxItem
  pub inbox_id : String
  pub inbox_state_entry : Option InboxState
  pub outbox_entry : Option OutboxItem
  pub outbox_id : String
  pub outbox_state_entry : Option OutboxState
  pub revocation_entry : Option TokenRevocation
  pub artifact_object : Option ArtifactObject
  pub artifact_usage : Option ArtifactUsage
  pub artifact_lease_id : String
  pub artifact_lease_entry : Option LeaseState
  pub workflow_entry : Option Workflow
  pub workflow_event : Option WorkflowEvent
  pub worker_control_entry : Option WorkerControl

-- journalRecord{Version: 1, Kind: kind}, to which an operation adds its fields.
abbrev pub record_of : RecordKind → JournalRecord
record_of k = record {
  version = 1;
  kind = k;
  agent_entry = none;
  task_entry = none;
  event = none;
  task_key = "";
  lease_entry = none;
  inbox_entry = none;
  inbox_id = "";
  inbox_state_entry = none;
  outbox_entry = none;
  outbox_id = "";
  outbox_state_entry = none;
  revocation_entry = none;
  artifact_object = none;
  artifact_usage = none;
  artifact_lease_id = "";
  artifact_lease_entry = none;
  workflow_entry = none;
  workflow_event = none;
  worker_control_entry = none;
}

-- The maps of JournalStore. A set of keys is a dictionary into `Unit`.
pub record Maps : Type 0 where
  pub agents : Dict Agent
  pub tasks : Dict Task
  pub events : Dict (List Event)
  pub dedup_keys : Dict (Dict (Unit {0}))
  pub leases : Dict LeaseState
  pub inbox_items : Dict InboxItem
  pub inbox_dedup : Dict String
  pub inbox_states : Dict InboxState
  pub outbox_items : Dict OutboxItem
  pub outbox_dedup : Dict String
  pub outbox_states : Dict OutboxState
  pub revocations : Dict TokenRevocation
  pub artifact_objects : Dict ArtifactObject
  pub artifact_usages : Dict ArtifactUsage
  pub artifact_leases : Dict LeaseState
  pub workflows : Dict Workflow
  pub workflow_dedup : Dict (Dict (Unit {0}))
  pub worker_controls : Dict WorkerControl

abbrev pub empty_maps : Maps
empty_maps = record {
  agents = [];
  tasks = [];
  events = [];
  dedup_keys = [];
  leases = [];
  inbox_items = [];
  inbox_dedup = [];
  inbox_states = [];
  outbox_items = [];
  outbox_dedup = [];
  outbox_states = [];
  revocations = [];
  artifact_objects = [];
  artifact_usages = [];
  artifact_leases = [];
  workflows = [];
  workflow_dedup = [];
  worker_controls = [];
}

-- One line of the journal file: a record that decodes, or text that does not.
pub data JournalLine : Type 0 where
  decoded : JournalRecord → JournalLine
  garbled : JournalLine

-- What the file system does with the next line: it is durable; nothing is written (an encoding or
-- write error); or it is written and `Sync` fails. A line cut short by a crash is not modelled.
pub data WriteOutcome : Type 0 where
  durable failed unsynced : WriteOutcome

-- The journal file. The outcomes of the writes to come are the environment's choice; when the
-- list is used up every write is durable.
pub record JournalFile : Type 0 where
  pub lines : List JournalLine
  pub outcomes : List WriteOutcome

-- `file` is `none` for a store that is kept in memory alone.
pub record JournalStore : Type 0 where
  pub file : Option JournalFile
  pub maps : Maps
