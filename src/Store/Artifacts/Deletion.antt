-- ===== src/Store/Artifacts/Deletion.antt =====
-- Deletion of expired Artifacts (internal/core/store.go): ClaimExpiredArtifacts,
-- RenewArtifactLease, CompleteArtifactDeletion, RetryArtifactDeletion.
use agent_federation_hub.Base.{
  String, Bool, ◌&&◌, ◌||◌, not, List, Option, none, some, ◌==◌, text_ltb, if◌then◌else◌, select,
  take,
}
use agent_federation_hub.Base.Int.{ℤ, ◌+ℤ◌, ltb_ℤ, pos_part}
use agent_federation_hub.Base.Dict.{lookup, lookup_or}
use agent_federation_hub.Base.Sort.{sort}
use agent_federation_hub.Model.{Time, zero_time, Duration}
use agent_federation_hub.Model.Objects.{
  available, quarantined, deleting, deleted, ArtifactObject, ArtifactUsage, ArtifactDeletionLease,
}
use agent_federation_hub.Store.State.{
  invalid, lease_lost, Result, err, LeaseState, no_lease, artifact, artifact_lease, record_of,
  JournalRecord, Maps, JournalStore,
}
use agent_federation_hub.Store.Journal.{resource_key, Plan, refuse, write, transact, claim_each}
use agent_federation_hub.Store.Leases.{is_claim, is_held, claimed}
use agent_federation_hub.Store.Artifacts.{same_status, no_usage, refund, is_overdrawn}

unfoldable pub is_deletable : ArtifactObject → Bool
is_deletable o =
    same_status o.status available
    || same_status o.status quarantined
    || same_status o.status deleting

unfoldable pub is_expired_free : Maps → Time → String × ArtifactObject → Bool
unfolding is_deletable is_held
is_expired_free m now (key, o) =
    is_deletable o
    && not (ltb_ℤ now o.expires_at)
    && not (is_held (lookup_or no_lease key m.artifact_leases) now)

unfoldable pub expired_candidates : ℤ → Time → Maps → List (String × ArtifactObject)
unfolding is_expired_free sort
expired_candidates limit now m =
    take (pos_part limit)
      (sort (λ a b. text_ltb a.0 b.0) (select (is_expired_free m now) m.artifact_objects))

unfoldable pub deleting_object : Time → ArtifactObject → ArtifactObject
deleting_object now o = record o { status = deleting; updated_at = now }

unfoldable pub deletion_record :
    ArtifactObject → Option ArtifactUsage → String → LeaseState → JournalRecord
deletion_record o u key l = record (record_of artifact) {
  artifact_object = some o;
  artifact_usage = u;
  artifact_lease_id = key;
  artifact_lease_entry = some l;
}

unfoldable pub claim_artifact_plan :
    String → Time → Duration → String × ArtifactObject → Maps → Plan ArtifactDeletionLease
unfolding claimed deleting_object deletion_record
claim_artifact_plan owner now duration (key, o) m =
    let l = claimed (lookup_or no_lease key m.artifact_leases) owner now duration in
    write (deletion_record (deleting_object now o) none key l) (record {
      object = deleting_object now o;
      owner = owner;
      expires_at = l.expires_at;
      attempt = l.attempt;
    })

unfoldable pub claim_expired_artifacts :
    String → ℤ → Time → Duration → JournalStore → Result (List ArtifactDeletionLease) × JournalStore
unfolding is_claim expired_candidates claim_artifact_plan claim_each
claim_expired_artifacts owner limit now duration s =
    if is_claim owner limit duration
    then claim_each (claim_artifact_plan owner now duration) (expired_candidates limit now s.maps) s
    else (err (invalid "artifact lease owner, positive limit, and duration are required"), s)

unfoldable pub artifact_lease_record : String → LeaseState → JournalRecord
artifact_lease_record key l = record (record_of artifact_lease) {
  artifact_lease_id = key;
  artifact_lease_entry = some l;
}

unfoldable pub deletion_key : ArtifactDeletionLease → String
deletion_key d = resource_key d.object.tenant_id d.object.id

unfoldable pub renew_artifact_plan :
    ArtifactDeletionLease → Time → Duration → Maps → Plan ArtifactDeletionLease
unfolding artifact_lease_record deletion_key
renew_artifact_plan d now duration m = elim (lookup (deletion_key d) m.artifact_leases) [
  | none ↦ refuse lease_lost
  | some l ↦
      let l' = record l { expires_at = now +ℤ duration } in
      if l.owner == d.owner && ltb_ℤ now l.expires_at
      then write (artifact_lease_record (deletion_key d) l')
          (record d { expires_at = l'.expires_at })
      else refuse lease_lost
]

unfoldable pub renew_artifact_lease :
    ArtifactDeletionLease
    → Time
    → Duration
    → JournalStore
    → Result ArtifactDeletionLease × JournalStore
unfolding renew_artifact_plan transact
renew_artifact_lease d now duration s = transact (renew_artifact_plan d now duration) s

unfoldable pub deleted_object : Time → ArtifactObject → ArtifactObject
deleted_object now o = record o { status = deleted; updated_at = now; deleted_at = some now }

unfoldable pub complete_known :
    ArtifactDeletionLease
    → Time
    → Maps
    → Option LeaseState
    → Option ArtifactObject
    → Plan (Unit {0})
unfolding refund is_overdrawn deleted_object deletion_record deletion_key
complete_known d now m none o = refuse lease_lost
complete_known d now m (some l) none = refuse lease_lost
complete_known d now m (some l) (some o) =
    let u = refund (lookup_or no_usage o.tenant_id m.artifact_usages) o.size_bytes in
    if not (l.owner == d.owner) || not (same_status o.status deleting)
    then refuse lease_lost
    else if is_overdrawn u
    then refuse (invalid "artifact usage invariant violated")
    else write (deletion_record (deleted_object now o) (some u) (deletion_key d) no_lease) tt

unfoldable pub complete_deletion_plan : ArtifactDeletionLease → Time → Maps → Plan (Unit {0})
unfolding complete_known
complete_deletion_plan d now m =
    complete_known d now m (lookup (deletion_key d) m.artifact_leases)
      (lookup (deletion_key d) m.artifact_objects)

unfoldable pub complete_artifact_deletion :
    ArtifactDeletionLease → Time → JournalStore → Result (Unit {0}) × JournalStore
unfolding complete_deletion_plan transact
complete_artifact_deletion d now s = transact (complete_deletion_plan d now) s

unfoldable pub retry_deletion_plan : ArtifactDeletionLease → Time → Maps → Plan (Unit {0})
unfolding artifact_lease_record deletion_key
retry_deletion_plan d available_at m = elim (lookup (deletion_key d) m.artifact_leases) [
  | none ↦ refuse lease_lost
  | some l ↦
      if l.owner == d.owner
      then write
          (artifact_lease_record (deletion_key d)
            (record l { owner = ""; expires_at = zero_time; available_at = available_at }))
          tt
      else refuse lease_lost
]

unfoldable pub retry_artifact_deletion :
    ArtifactDeletionLease → Time → JournalStore → Result (Unit {0}) × JournalStore
unfolding retry_deletion_plan transact
retry_artifact_deletion d available_at s = transact (retry_deletion_plan d available_at) s
