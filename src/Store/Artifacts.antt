-- ===== src/Store/Artifacts.antt =====
-- Artifact metadata and quota (internal/core/store.go): ReserveArtifact, FinalizeArtifact,
-- FailArtifact, GetArtifact, GetArtifactUsage. Sizes and counts are `int64`, which wraps.
pub mod Deletion
pub mod Quota
use agent_federation_hub.Base.{
  ℕ, ◌+◌, String, Bool, true, false, ◌&&◌, ◌||◌, not, List, Option, none, some, ◌==◌, if◌then◌else◌,
}
use agent_federation_hub.Base.Int.{ℤ, pos, ◌+ℤ◌, ◌-ℤ◌, ltb_ℤ, eqb_ℤ, i64}
use agent_federation_hub.Base.Dict.{lookup, lookup_or}
use agent_federation_hub.Model.{Time, zero_time}
use agent_federation_hub.Model.Objects.{
  ArtifactObjectStatus, pending, available, quarantined, failed, deleting, deleted,
  ArtifactScanStatus, not_scanned, ArtifactObject, ArtifactQuota, ArtifactUsage,
}
use agent_federation_hub.Store.State.{
  conflict, not_found, quota_exceeded, invalid, Result, artifact, record_of, JournalRecord, Maps,
  JournalStore,
}
use agent_federation_hub.Store.Journal.{resource_key, Plan, reply, refuse, write, transact}
use agent_federation_hub.Store.Tasks.{or_not_found}

-- validateArtifactReservation
unfoldable pub is_reservation : ArtifactObject → Bool
is_reservation o =
    not (o.id == "")
    && not (o.tenant_id == "")
    && not (o.task_id == "")
    && not (o.artifact_id == "")
    && not (o.sha256 == "")
    && not (ltb_ℤ o.size_bytes (pos 0))
    && not (eqb_ℤ o.expires_at zero_time)

-- sameArtifactIdentity
unfoldable pub same_identity : ArtifactObject → ArtifactObject → Bool
same_identity a b =
    a.tenant_id == b.tenant_id
    && a.task_id == b.task_id
    && a.artifact_id == b.artifact_id
    && eqb_ℤ a.part_index b.part_index
    && a.sha256 == b.sha256
    && eqb_ℤ a.size_bytes b.size_bytes

abbrev pub same_status : ArtifactObjectStatus → ArtifactObjectStatus → Bool
same_status pending pending = true
same_status available available = true
same_status quarantined quarantined = true
same_status failed failed = true
same_status deleting deleting = true
same_status deleted deleted = true
same_status _ _ = false

abbrev pub no_usage : ArtifactUsage
no_usage = record { tenant_id = ""; bytes = pos 0; objects = pos 0 }

unfoldable pub usage_of : String → Maps → ArtifactUsage
usage_of tenant m =
    let u = lookup_or no_usage tenant m.artifact_usages in record u { tenant_id = tenant }

-- A quota that is not positive does not limit.
unfoldable pub exceeds_quota : ArtifactQuota → ArtifactUsage → ℤ → Bool
exceeds_quota q u size =
    (ltb_ℤ (pos 0) q.max_bytes && ltb_ℤ q.max_bytes (i64 (u.bytes +ℤ size)))
    || (ltb_ℤ (pos 0) q.max_objects && ltb_ℤ q.max_objects (i64 (u.objects +ℤ pos 1)))

unfoldable pub reserved_object : ArtifactObject → ArtifactObject
reserved_object o = record o {
  status = pending;
  scan_status = not_scanned;
  storage_key = "";
  failure_code = "";
  deleted_at = none;
}

unfoldable pub charge : ArtifactUsage → ℤ → ArtifactUsage
charge u size = record u { bytes = i64 (u.bytes +ℤ size); objects = i64 (u.objects +ℤ pos 1) }

unfoldable pub refund : ArtifactUsage → ℤ → ArtifactUsage
refund u size = record u { bytes = i64 (u.bytes -ℤ size); objects = i64 (u.objects -ℤ pos 1) }

unfoldable pub artifact_record : ArtifactObject → Option ArtifactUsage → JournalRecord
artifact_record o u = record (record_of artifact) { artifact_object = some o; artifact_usage = u }

-- The answer is the stored object, and whether this call reserved it.
unfoldable pub charge_artifact :
    ArtifactObject → ArtifactQuota → Maps → Plan (ArtifactObject × Bool)
unfolding usage_of exceeds_quota reserved_object charge artifact_record
charge_artifact o q m =
    let u = usage_of o.tenant_id m in
    if exceeds_quota q u o.size_bytes
    then refuse quota_exceeded
    else write (artifact_record (reserved_object o) (some (charge u o.size_bytes)))
        (reserved_object o, true)

unfoldable pub reserve_known :
    ArtifactObject → ArtifactQuota → Maps → Option ArtifactObject → Plan (ArtifactObject × Bool)
unfolding charge_artifact same_identity
reserve_known o q m none = charge_artifact o q m
reserve_known o q m (some old) =
    if not (same_identity old o)
    then refuse conflict
    else if not (same_status old.status failed)
    then reply (old, false)
    else charge_artifact o q m

unfoldable pub reserve_artifact_plan :
    ArtifactObject → ArtifactQuota → Maps → Plan (ArtifactObject × Bool)
unfolding is_reservation reserve_known
reserve_artifact_plan o q m =
    if is_reservation o
    then reserve_known o q m (lookup (resource_key o.tenant_id o.id) m.artifact_objects)
    else refuse (
        invalid
          "artifact ID, tenant, Task, Artifact, digest, non-negative size, and expiry are required")

unfoldable pub reserve_artifact :
    ArtifactObject → ArtifactQuota → JournalStore → Result (ArtifactObject × Bool) × JournalStore
unfolding reserve_artifact_plan transact
reserve_artifact o q s = transact (reserve_artifact_plan o q) s

-- The arguments of FinalizeArtifact beside the object's key.
pub record Finalization : Type 0 where
  pub storage_key : String
  pub detected_media_type : String
  pub scan_status : ArtifactScanStatus
  pub status : ArtifactObjectStatus
  pub now : Time

unfoldable pub finalized : Finalization → ArtifactObject → ArtifactObject
finalized f o = record o {
  storage_key = f.storage_key;
  detected_media_type = f.detected_media_type;
  scan_status = f.scan_status;
  status = f.status;
  updated_at = f.now;
}

unfoldable pub finalize_known : Finalization → Option ArtifactObject → Plan ArtifactObject
unfolding finalized artifact_record
finalize_known f none = refuse not_found
finalize_known f (some o) =
    if same_status o.status pending
    then write (artifact_record (finalized f o) none) (finalized f o)
    else if same_status o.status f.status && o.storage_key == f.storage_key
    then reply o
    else refuse conflict

unfoldable pub finalize_artifact_plan : String → String → Finalization → Maps → Plan ArtifactObject
unfolding finalize_known
finalize_artifact_plan tenant id f m =
    if f.storage_key == ""
      || not (same_status f.status available || same_status f.status quarantined)
    then refuse (invalid "storage key and a final available or quarantined status are required")
    else finalize_known f (lookup (resource_key tenant id) m.artifact_objects)

unfoldable pub finalize_artifact :
    String → String → Finalization → JournalStore → Result ArtifactObject × JournalStore
unfolding finalize_artifact_plan transact
finalize_artifact tenant id f s = transact (finalize_artifact_plan tenant id f) s

unfoldable pub failed_object : String → Time → ArtifactObject → ArtifactObject
failed_object code now o = record o { status = failed; failure_code = code; updated_at = now }

-- usage.Bytes < 0 || usage.Objects < 0
unfoldable pub is_overdrawn : ArtifactUsage → Bool
is_overdrawn u = ltb_ℤ u.bytes (pos 0) || ltb_ℤ u.objects (pos 0)

unfoldable pub fail_known :
    String → Time → ArtifactUsage → Option ArtifactObject → Plan ArtifactObject
unfolding failed_object refund is_overdrawn artifact_record
fail_known code now u none = refuse not_found
fail_known code now u (some o) =
    if same_status o.status failed
    then reply o
    else if not (same_status o.status pending)
    then refuse conflict
    else if is_overdrawn (refund u o.size_bytes)
    then refuse (invalid "artifact usage invariant violated")
    else write (artifact_record (failed_object code now o) (some (refund u o.size_bytes)))
        (failed_object code now o)

unfoldable pub fail_artifact_plan : String → String → String → Time → Maps → Plan ArtifactObject
unfolding fail_known
fail_artifact_plan tenant id code now m =
    fail_known code now (lookup_or no_usage tenant m.artifact_usages)
      (lookup (resource_key tenant id) m.artifact_objects)

unfoldable pub fail_artifact :
    String → String → String → Time → JournalStore → Result ArtifactObject × JournalStore
unfolding fail_artifact_plan transact
fail_artifact tenant id code now s = transact (fail_artifact_plan tenant id code now) s

unfoldable pub get_artifact : String → String → JournalStore → Result ArtifactObject
unfolding or_not_found
get_artifact tenant id s = or_not_found (lookup (resource_key tenant id) s.maps.artifact_objects)

unfoldable pub get_artifact_usage : String → JournalStore → ArtifactUsage
unfolding usage_of
get_artifact_usage tenant s = usage_of tenant s.maps
