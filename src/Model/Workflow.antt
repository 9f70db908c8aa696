-- ===== src/Model/Workflow.antt =====
-- The Hub's workflows of internal/core/model.go: aggregates over Tasks of several Providers.
use agent_federation_hub.Base.{ℕ, String, Bool, true, false, List, Option}
use agent_federation_hub.Base.Int.{ℤ}
use agent_federation_hub.Model.{TaskState, Problem}

pub data WorkflowState : Type 0 where
  unset pending running waiting_input completed failed partially_failed : WorkflowState
  compensating compensated canceled paused : WorkflowState

-- WorkflowState.Terminal
abbrev pub is_terminal : WorkflowState → Bool
is_terminal completed = true
is_terminal failed = true
is_terminal partially_failed = true
is_terminal compensated = true
is_terminal canceled = true
is_terminal _ = false

pub record WorkflowArtifactInput : Type 0 where
  pub from_step_id : String
  pub artifact_id : String
  pub part_index : Option ℤ

pub record WorkflowStep : Type 0 where
  pub id : String
  pub agent_id : String
  pub skill : String
  pub depends_on : List String
  pub artifact_inputs : List WorkflowArtifactInput
  pub input_ref : String
  pub input_digest : String
  pub task_id : String
  pub state : TaskState
  pub required : Bool
  pub attempt : ℕ  -- uint32
  pub compensation_text : String
  pub compensation_task_id : String
  pub compensation_state : TaskState
  pub problem : Option Problem
  pub compensation_problem : Option Problem

-- `paused_from` is `unset` where the source has the empty string.
pub record Workflow : Type 0 where
  pub id : String
  pub tenant_id : String
  pub name : String
  pub definition_version : ℤ
  pub idempotency_key : String
  pub max_concurrency : ℤ
  pub state : WorkflowState
  pub steps : List WorkflowStep
  pub created_at : ℤ
  pub updated_at : ℤ
  pub paused_from : WorkflowState
  pub revision : ℕ  -- uint64
  pub last_sequence : ℕ  -- uint64

pub record WorkflowEvent : Type 0 where
  pub id : String
  pub dedup_key : String
  pub workflow_id : String
  pub tenant_id : String
  pub sequence : ℕ  -- uint64
  pub kind : String
  pub source : String
  pub state : WorkflowState
  pub step_id : String
  pub problem : Option Problem
  pub created_at : ℤ
