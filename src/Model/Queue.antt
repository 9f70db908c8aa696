-- ===== src/Model/Queue.antt =====
-- The durable queues of internal/core/model.go: pushed messages coming in, committed events going
-- out.
use agent_federation_hub.Base.{ℕ, String, Option}
use agent_federation_hub.Base.Int.{ℤ}
use agent_federation_hub.Model.{Event}

pub record InboxItem : Type 0 where
  pub id : String
  pub tenant_id : String
  pub task_id : String
  pub dedup_key : String
  pub protocol : String
  pub payload : String
  pub created_at : ℤ

pub record InboxLease : Type 0 where
  pub item : InboxItem
  pub owner : String
  pub expires_at : ℤ
  pub attempt : ℕ  -- uint32

-- The JSON text of an item: that of an event which the store itself encoded, or any other.
pub data Payload : Type 0 where
  encoded : Event → Payload
  raw : String → Payload

pub record OutboxItem : Type 0 where
  pub id : String
  pub tenant_id : String
  pub task_id : String
  pub dedup_key : String
  pub topic : String
  pub payload : Payload
  pub created_at : ℤ

pub record OutboxLease : Type 0 where
  pub item : OutboxItem
  pub owner : String
  pub expires_at : ℤ
  pub attempt : ℕ  -- uint32

pub data OutboxStatus : Type 0 where
  pending acked dead_lettered purged : OutboxStatus

pub record OutboxRecord : Type 0 where
  pub item : OutboxItem
  pub status : OutboxStatus
  pub attempts : ℕ  -- uint32
  pub available_at : ℤ
  pub last_error : String
  pub acked_at : Option ℤ
  pub dead_letter_at : Option ℤ
  pub purged_at : Option ℤ
