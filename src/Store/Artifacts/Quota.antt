-- ===== src/Store/Artifacts/Quota.antt =====
-- Quota of Artifact storage (ReserveArtifact and FailArtifact of internal/core/store.go).
use agent_federation_hub.Base.{
  ℕ, ◌+◌, ◌≤◌, ◌<◌, ◌≡◌, Bool, true, false, some, none, arith, eq_refl, Option, ap, subst, sym,
}
use agent_federation_hub.Base.Int.{ℤ, pos, ◌+ℤ◌, ◌<ℤ◌, ◌≤ℤ◌, i64, i64_in_range, max_int64, pos_part}
use agent_federation_hub.Base.Dict.{lookup, lookup_or-insert}
use agent_federation_hub.Model.Objects.{ArtifactObject, ArtifactQuota, ArtifactUsage}
use agent_federation_hub.Store.State.{Result, ok, Maps, JournalStore}
use agent_federation_hub.Store.Journal.{
  write, resource_key, apply_record, put_artifact_object, put_artifact_usage, put_artifact_lease,
}
use agent_federation_hub.Store.Writes.{Took, transact-ok}
use agent_federation_hub.Store.Artifacts.{
  is_reservation, reserve_artifact, reserve_artifact_plan, reserve_known, charge_artifact,
  exceeds_quota, usage_of, charge, get_artifact_usage, artifact_record, reserved_object, no_usage,
}

-- A reservation that was made charged the usage, which the quota allowed.
abbrev Charged : ArtifactObject → ArtifactQuota → Maps → Maps → Type 0
Charged o q m m' =
    (exceeds_quota q (usage_of o.tenant_id m) o.size_bytes ≡ false)
    × (usage_of o.tenant_id m' ≡ charge (usage_of o.tenant_id m) o.size_bytes)

charge_artifact-Charged :
    (o o' : ArtifactObject) (q : ArtifactQuota) (m m' : Maps)
    → Took (charge_artifact o q m) (o', true) m m'
    → Charged o q m m'
unfolding charge_artifact apply_record put_artifact_object put_artifact_usage put_artifact_lease
charge_artifact-Charged o o' q m m' h = ground (
  arith,
  lookup_or-insert no_usage o.tenant_id o.tenant_id (charge (usage_of o.tenant_id m) o.size_bytes)
      m.artifact_usages,
  eq_refl o.tenant_id,
)

known-Charged :
    (o o' : ArtifactObject) (q : ArtifactQuota) (m m' : Maps) (old : Option ArtifactObject)
    → Took (reserve_known o q m old) (o', true) m m'
    → Charged o q m m'
unfolding reserve_known
known-Charged o o' q m m' none h = charge_artifact-Charged o o' q m m' h
known-Charged o o' q m m' (some old) h =
    let charged = charge_artifact-Charged o o' q m m' in ground (arith, charged)

reserve-Charged :
    (o o' : ArtifactObject) (q : ArtifactQuota) (s s' : JournalStore)
    → reserve_artifact o q s ≡ (ok (o', true), s')
    → Charged o q s.maps s'.maps
unfolding reserve_artifact reserve_artifact_plan
reserve-Charged o o' q s s' h =
    let took = transact-ok (reserve_artifact_plan o q) (o', true) s s' h in
    let charged =
      known-Charged o o' q s.maps s'.maps
        (lookup (resource_key o.tenant_id o.id) s.maps.artifact_objects) in
    ground (arith, took, charged)

-- A usage that grows by a size and an object within `int64`.
abbrev pub HasRoom : ArtifactUsage → ℤ → Type 0
HasRoom u size =
    (pos 0 ≤ℤ u.bytes)
    × (pos 0 ≤ℤ u.objects)
    × (pos 0 ≤ℤ size)
    × (pos_part u.bytes + pos_part size ≤ max_int64)
    × (pos_part u.objects < max_int64)

charge_in_range :
    (u : ArtifactUsage) (size : ℤ)
    → HasRoom u size
    → (i64 (u.bytes +ℤ size) ≡ u.bytes +ℤ size) × (i64 (u.objects +ℤ pos 1) ≡ u.objects +ℤ pos 1)
unfolding ◌+ℤ◌
charge_in_range u size h = (
  i64_in_range (u.bytes +ℤ size) (ground arith) (ground arith),
  i64_in_range (u.objects +ℤ pos 1) (ground arith) (ground arith),
)

-- Where the usage and the size are not negative, their sums are in the range of int64, and both
-- limits of the quota are positive: a new reservation adds the object's size and one object to the
-- usage of its tenant, and the usage is then within both limits.
pub reserve_within_quota :
    (o o' : ArtifactObject) (q : ArtifactQuota) (s s' : JournalStore)
    → HasRoom (get_artifact_usage o.tenant_id s) o.size_bytes
    → pos 0 <ℤ q.max_bytes
    → pos 0 <ℤ q.max_objects
    → reserve_artifact o q s ≡ (ok (o', true), s')
    → let u = get_artifact_usage o.tenant_id s in
      let u' = get_artifact_usage o.tenant_id s' in
      (u'.bytes ≡ u.bytes +ℤ o.size_bytes)
      × (u'.objects ≡ u.objects +ℤ pos 1)
      × (u'.bytes ≤ℤ q.max_bytes)
      × (u'.objects ≤ℤ q.max_objects)
unfolding get_artifact_usage exceeds_quota charge
reserve_within_quota o o' q s s' room a b h =
    let c = reserve-Charged o o' q s s' h in
    let r = charge_in_range (usage_of o.tenant_id s.maps) o.size_bytes room in ground (arith, c, r)

i64_wraps : (n : ℕ) → max_int64 < n → n ≤ max_int64 + max_int64 → i64 (pos n) <ℤ pos 0
unfolding i64
i64_wraps n h k = ground arith

-- Sizes within `int64` whose sum is not.
abbrev pub Overflows : ArtifactUsage → ℤ → Type 0
Overflows u size =
    (pos 0 ≤ℤ u.bytes)
    × (pos 0 ≤ℤ size)
    × (pos_part u.bytes ≤ max_int64)
    × (pos_part size ≤ max_int64)
    × (max_int64 < pos_part u.bytes + pos_part size)

charge_overflows :
    (u : ArtifactUsage) (size : ℤ) → Overflows u size → i64 (u.bytes +ℤ size) <ℤ pos 0
unfolding ◌+ℤ◌
charge_overflows u size h =
    let wraps = i64_wraps (pos_part u.bytes + pos_part size) h.4 (ground arith) in ground arith

overflow_plan :
    (o : ArtifactObject) (q : ArtifactQuota) (m : Maps)
    → i64 ((usage_of o.tenant_id m).bytes +ℤ o.size_bytes) <ℤ pos 0
    → pos 0 <ℤ q.max_bytes
    → q.max_objects ≡ pos 0
    → is_reservation o ≡ true
    → lookup (resource_key o.tenant_id o.id) m.artifact_objects ≡ none
    → reserve_artifact_plan o q m
      ≡ write
          (artifact_record
            (reserved_object o)
            (some (charge (usage_of o.tenant_id m) o.size_bytes)))
          (reserved_object o, true)
unfolding reserve_artifact_plan exceeds_quota
overflow_plan o q m negative a b valid new =
    let allowed : exceeds_quota q (usage_of o.tenant_id m) o.size_bytes ≡ false = ground arith in
    rw valid (rw new (rw allowed))

-- In a store kept in memory, with a quota that limits bytes and not objects, a complete reservation
-- of a new object whose size and the tenant's usage add up to more than int64 holds is granted
-- whatever the limit, and leaves a negative usage.
pub reserve_overflow :
    (o : ArtifactObject) (q : ArtifactQuota) (m : Maps)
    → Overflows (usage_of o.tenant_id m) o.size_bytes
    → pos 0 <ℤ q.max_bytes
    → q.max_objects ≡ pos 0
    → is_reservation o ≡ true
    → lookup (resource_key o.tenant_id o.id) m.artifact_objects ≡ none
    → let r = reserve_artifact o q (record { file = none; maps = m }) in
      (r.0 ≡ ok (reserved_object o, true)) × ((get_artifact_usage o.tenant_id r.1).bytes <ℤ pos 0)
unfolding reserve_artifact get_artifact_usage charge
reserve_overflow o q m over a b valid new =
    let negative = charge_overflows (usage_of o.tenant_id m) o.size_bytes over in
    let r = reserve_artifact o q (record { file = none; maps = m }) in
    let granted : r.0 ≡ ok (reserved_object o, true) =
      rw (overflow_plan o q m negative a b valid new) in
    let c =
      reserve-Charged o (reserved_object o) q (record { file = none; maps = m }) r.1
        (ap (λ (x : Result (ArtifactObject × Bool)). (x, r.1)) granted) in
    (granted, subst (λ (u : ArtifactUsage). u.bytes <ℤ pos 0) (sym c.1) negative)
