-- ===== src/Model/Objects.antt =====
-- The stored Artifact objects of internal/core/model.go: their metadata, quota and deletion leases.
use agent_federation_hub.Base.{ℕ, String, Option}
use agent_federation_hub.Base.Int.{ℤ}

pub data ArtifactObjectStatus : Type 0 where
  pending available quarantined failed deleting deleted : ArtifactObjectStatus

pub data ArtifactScanStatus : Type 0 where
  clean infected error not_scanned : ArtifactScanStatus

-- The zero value of a status is the empty string, which no constructor stands for: an object
-- always has a status that `reserve_artifact` or a later operation set.
pub record ArtifactObject : Type 0 where
  pub id : String
  pub tenant_id : String
  pub task_id : String
  pub artifact_id : String
  pub part_index : ℤ
  pub storage_key : String
  pub sha256 : String
  pub size_bytes : ℤ  -- int64
  pub declared_media_type : String
  pub detected_media_type : String
  pub filename : String
  pub source_uri : String
  pub status : ArtifactObjectStatus
  pub scan_status : ArtifactScanStatus
  pub created_at : ℤ
  pub updated_at : ℤ
  pub expires_at : ℤ
  pub deleted_at : Option ℤ
  pub failure_code : String

pub record ArtifactQuota : Type 0 where
  pub max_bytes : ℤ  -- int64
  pub max_objects : ℤ  -- int64

pub record ArtifactUsage : Type 0 where
  pub tenant_id : String
  pub bytes : ℤ  -- int64
  pub objects : ℤ  -- int64

pub record ArtifactDeletionLease : Type 0 where
  pub object : ArtifactObject
  pub owner : String
  pub expires_at : ℤ
  pub attempt : ℕ  -- uint32
