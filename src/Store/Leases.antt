-- ===== src/Store/Leases.antt =====
-- Work leases on Tasks (internal/core/store.go): ClaimRecoverable, RenewLease, ReleaseLease.
pub mod Exclusive
pub mod Fencing
use agent_federation_hub.Base.{
  ◌+◌, String, Bool, ◌&&◌, ◌||◌, not, List, none, some, ◌==◌, text_ltb, if◌then◌else◌, select, take,
}
use agent_federation_hub.Base.Int.{ℤ, pos, ◌+ℤ◌, ltb_ℤ, eqb_ℤ, pos_part, u32}
use agent_federation_hub.Base.Dict.{lookup, lookup_or}
use agent_federation_hub.Base.Sort.{sort}
use agent_federation_hub.Model.{Time, zero_time, Duration, Task, WorkLease}
use agent_federation_hub.Store.State.{
  invalid, lease_lost, Result, err, LeaseState, no_lease, lease, record_of, JournalRecord, Maps,
  JournalStore,
}
use agent_federation_hub.Store.Journal.{resource_key, Plan, refuse, write, transact, claim_each}
use agent_federation_hub.Store.Tasks.{is_recoverable}

-- The tests that every claim of a lease starts with.
unfoldable pub is_claim : String → ℤ → Duration → Bool
is_claim owner limit duration = not (owner == "") && ltb_ℤ (pos 0) limit && ltb_ℤ (pos 0) duration

-- AvailableAt.After(now) || (Owner != "" && ExpiresAt.After(now))
unfoldable pub is_held : LeaseState → Time → Bool
is_held l now = ltb_ℤ now l.available_at || (not (l.owner == "") && ltb_ℤ now l.expires_at)

-- The lease after a claim.
unfoldable pub claimed : LeaseState → String → Time → Duration → LeaseState
claimed l owner now duration = record l {
  owner = owner;
  expires_at = now +ℤ duration;
  attempt = u32 (l.attempt + 1);
}

unfoldable pub is_claimable : Maps → Time → String × Task → Bool
unfolding is_held is_recoverable
is_claimable m now (key, t) =
    is_recoverable t && not (is_held (lookup_or no_lease key m.leases) now)

-- The order of the claim: the higher priority first, and then the smaller key.
unfoldable pub before_entry : String × Task → String × Task → Bool
before_entry (j, a) (k, b) =
    if eqb_ℤ a.priority b.priority then text_ltb j k else ltb_ℤ b.priority a.priority

unfoldable pub claim_candidates : ℤ → Time → Maps → List (String × Task)
unfolding is_claimable before_entry sort
claim_candidates limit now m =
    take (pos_part limit) (sort before_entry (select (is_claimable m now) m.tasks))

unfoldable pub lease_record : String → LeaseState → JournalRecord
lease_record key l = record (record_of lease) { task_key = key; lease_entry = some l }

-- The body of the loop, for one key.
unfoldable pub claim_task_plan : String → Time → Duration → String × Task → Maps → Plan WorkLease
unfolding claimed lease_record
claim_task_plan owner now duration (key, t) m =
    let l = claimed (lookup_or no_lease key m.leases) owner now duration in
    write (lease_record key l)
      (record { task = t; owner = owner; expires_at = l.expires_at; attempt = l.attempt })

unfoldable pub claim_recoverable :
    String → ℤ → Time → Duration → JournalStore → Result (List WorkLease) × JournalStore
unfolding is_claim claim_candidates claim_task_plan claim_each
claim_recoverable owner limit now duration s =
    if is_claim owner limit duration
    then claim_each (claim_task_plan owner now duration) (claim_candidates limit now s.maps) s
    else (err (invalid "lease owner, positive limit, and duration are required"), s)

unfoldable pub work_key : WorkLease → String
work_key w = resource_key w.task.tenant_id w.task.id

unfoldable pub renew_lease_plan : WorkLease → Time → Duration → Maps → Plan WorkLease
unfolding lease_record work_key
renew_lease_plan w now duration m = elim (lookup (work_key w) m.leases) [
  | none ↦ refuse lease_lost
  | some l ↦
      let l' = record l { expires_at = now +ℤ duration } in
      if l.owner == w.owner && ltb_ℤ now l.expires_at
      then write (lease_record (work_key w) l') (record w { expires_at = l'.expires_at })
      else refuse lease_lost
]

unfoldable pub renew_lease :
    WorkLease → Time → Duration → JournalStore → Result WorkLease × JournalStore
unfolding renew_lease_plan transact
renew_lease w now duration s = transact (renew_lease_plan w now duration) s

unfoldable pub released : LeaseState → Time → Bool → LeaseState
released l available_at reset = record l {
  owner = "";
  expires_at = zero_time;
  available_at = available_at;
  attempt = if reset then 0 else l.attempt;
}

unfoldable pub release_lease_plan : WorkLease → Time → Bool → Maps → Plan (Unit {0})
unfolding lease_record work_key released
release_lease_plan w available_at reset m = elim (lookup (work_key w) m.leases) [
  | none ↦ refuse lease_lost
  | some l ↦
      if l.owner == w.owner
      then write (lease_record (work_key w) (released l available_at reset)) tt
      else refuse lease_lost
]

unfoldable pub release_lease :
    WorkLease → Time → Bool → JournalStore → Result (Unit {0}) × JournalStore
unfolding release_lease_plan transact
release_lease w available_at reset s = transact (release_lease_plan w available_at reset) s
