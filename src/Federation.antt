-- ===== src/Federation.antt =====
-- What the Hub exchanges with a remote Agent (internal/federation/adapter.go). The adapters
-- themselves call protocol libraries: their answers are arguments of the Hub's operations.
use agent_federation_hub.Base.{String, Bool, List, Option}
use agent_federation_hub.Model.{Time, TaskState, Problem, Part, Artifact}
use agent_federation_hub.Model.Json.{JsonValue}

pub record Extension : Type 0 where
  pub uri : String
  pub required : Bool

pub record Descriptor : Type 0 where
  pub name : String
  pub provider_version : String
  pub protocol_binding : String
  pub protocol_version : String
  pub endpoint : String
  pub streaming : Bool
  pub push_notifications : Bool
  pub security_schemes : List String
  pub skills : List String
  pub extensions : List Extension
  pub card_signature_verified : Bool
  pub card_signature_key_id : String

pub record PushConfig : Type 0 where
  pub url : String
  pub token : String

pub record Message : Type 0 where
  pub id : String
  pub body : String
  pub parts : List Part
  pub remote_task_id : String
  pub remote_context_id : String
  pub return_immediately : Bool
  pub push : Option PushConfig
  pub extensions : List String
  pub metadata : List (String × JsonValue)

pub record ArtifactUpdate : Type 0 where
  pub artifact : Artifact
  pub appends : Bool

pub record Observation : Type 0 where
  pub dedup_key : String
  pub source : String
  pub remote_task_id : String
  pub remote_context_id : String
  pub state : TaskState
  pub artifacts : List ArtifactUpdate
  pub problem : Option Problem
  pub remote_observed_at : Option Time
  pub cancel_requested : Bool
  pub final : Bool
