-- ===== src/Model.antt =====
-- The data of internal/core/model.go. Strings with a fixed vocabulary are enumerations; a Go
-- pointer is an `Option`; times are nanoseconds from Go's zero time, so that the zero value of
-- `time.Time` is `zero_time`; `any` is a JSON value.
pub mod Json
pub mod Objects
pub mod Workflow
pub mod Queue
use agent_federation_hub.Base.{ℕ, String, Bool, true, false, List, Option, eqb}
use agent_federation_hub.Base.Int.{ℤ, pos}
use Json.{JsonValue}

abbrev pub Time : Type 0
Time = ℤ

abbrev pub Duration : Type 0
Duration = ℤ

abbrev pub zero_time : Time
zero_time = pos 0

-- `unset` is the empty string, the zero value of the type.
pub data TaskState : Type 0 where
  unset unknown submitted working input_required auth_required : TaskState
  completed failed canceled rejected : TaskState

-- TaskState.Terminal
abbrev pub is_terminal : TaskState → Bool
is_terminal completed = true
is_terminal failed = true
is_terminal canceled = true
is_terminal rejected = true
is_terminal _ = false

pub data DeliveryState : Type 0 where
  pending acknowledged ambiguous : DeliveryState

pub data PartKind : Type 0 where
  text file structured : PartKind

pub record Part : Type 0 where
  pub kind : PartKind
  pub media_type : String
  pub filename : String
  pub body : String
  pub bytes_base64 : String
  pub uri : String
  pub content : JsonValue
  pub object_id : String
  pub size_bytes : ℤ
  pub sha256 : String

pub record Artifact : Type 0 where
  pub id : String
  pub name : String
  pub description : String
  pub parts : List Part
  pub complete : Bool

pub record Problem : Type 0 where
  pub category : String
  pub code : String
  pub message : String
  pub retryable : Bool
  pub is_ambiguous : Bool

pub record Agent : Type 0 where
  pub id : String
  pub tenant_id : String
  pub card_url : String
  pub name : String
  pub provider_version : String
  pub protocol_binding : String
  pub protocol_version : String
  pub endpoint : String
  pub streaming : Bool
  pub push_notifications : Bool
  pub security_schemes : List String
  pub card_signature_verified : Bool
  pub card_signature_key_id : String
  pub skills : List String
  pub extensions : List String
  pub credential_env : List (String × String)
  pub registration_source : String
  pub registry_endpoint : String
  pub last_registry_sync_at : Option Time
  pub health_status : String
  pub health_message : String
  pub last_health_check_at : Option Time
  pub created_at : Time
  pub updated_at : Time

pub record Task : Type 0 where
  pub id : String
  pub tenant_id : String
  pub agent_id : String
  pub message_id : String
  pub input_digest : String
  pub idempotency_key : String
  pub requested_extensions : List String
  pub extension_metadata : List (String × JsonValue)
  pub priority : ℤ
  pub remote_task_id : String
  pub remote_context_id : String
  pub state : TaskState
  pub delivery : DeliveryState
  pub cancel_requested : Bool
  pub push_token_hash : String
  pub artifacts : List Artifact
  pub problem : Option Problem
  pub last_remote_observed_at : Option Time
  pub created_at : Time
  pub updated_at : Time
  pub revision : ℕ  -- uint64
  pub last_sequence : ℕ  -- uint64

pub record Event : Type 0 where
  pub id : String
  pub dedup_key : String
  pub task_id : String
  pub tenant_id : String
  pub sequence : ℕ  -- uint64
  pub kind : String
  pub source : String
  pub state : TaskState
  pub artifact : Option Artifact
  pub problem : Option Problem
  pub observed_at : Option Time
  pub created_at : Time

pub record WorkLease : Type 0 where
  pub task : Task
  pub owner : String
  pub expires_at : Time
  pub attempt : ℕ  -- uint32

pub record TokenRevocation : Type 0 where
  pub issuer : String
  pub token_id : String
  pub tenant_id : String
  pub reason : String
  pub revoked_at : Time
  pub expires_at : Time

-- `mode` is the text that the source keeps; `Store.Control` normalises it.
pub record WorkerControl : Type 0 where
  pub scope : String
  pub mode : String
  pub revision : ℕ  -- uint64
  pub updated_at : Time

-- A number for each state, to compare them by.
abbrev pub state_number : TaskState → ℕ
state_number unset = 0
state_number unknown = 1
state_number submitted = 2
state_number working = 3
state_number input_required = 4
state_number auth_required = 5
state_number completed = 6
state_number failed = 7
state_number canceled = 8
state_number rejected = 9

abbrev pub same_state : TaskState → TaskState → Bool
same_state a b = eqb (state_number a) (state_number b)
