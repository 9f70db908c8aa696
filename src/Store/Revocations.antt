-- ===== src/Store/Revocations.antt =====
-- Revoked tokens (internal/core/store.go): RevokeToken, TokenRevoked, PruneRevocations.
use agent_federation_hub.Base.{
  ℕ, zero, suc, String, Bool, false, ◌&&◌, not, List, [], ◌∷◌, Option, none, some, ◌==◌,
  if◌then◌else◌,
}
use agent_federation_hub.Base.Int.{ltb_ℤ, eqb_ℤ}
use agent_federation_hub.Base.Dict.{Dict, lookup, delete}
use agent_federation_hub.Model.{Time, zero_time, TokenRevocation}
use agent_federation_hub.Store.State.{
  invalid, Result, revocation, record_of, JournalRecord, Maps, JournalStore,
}
use agent_federation_hub.Store.Journal.{revocation_key, Plan, refuse, write, transact}

unfoldable pub is_revocation : TokenRevocation → Bool
is_revocation r =
    not (r.issuer == "")
    && not (r.token_id == "")
    && not (r.tenant_id == "")
    && not (eqb_ℤ r.revoked_at zero_time)
    && not (eqb_ℤ r.expires_at zero_time)

unfoldable pub revocation_record : TokenRevocation → JournalRecord
revocation_record r = record (record_of revocation) { revocation_entry = some r }

unfoldable pub revoke_token_plan : TokenRevocation → Maps → Plan (Unit {0})
unfolding is_revocation revocation_record
revoke_token_plan r m =
    if is_revocation r
    then write (revocation_record r) tt
    else refuse
        (invalid "revocation issuer, token ID, tenant, revoked time, and expiry are required")

unfoldable pub revoke_token : TokenRevocation → JournalStore → Result (Unit {0}) × JournalStore
unfolding revoke_token_plan transact
revoke_token r s = transact (revoke_token_plan r) s

-- ok && now.Before(revocation.ExpiresAt)
unfoldable pub is_in_force : Time → Option TokenRevocation → Bool
is_in_force now none = false
is_in_force now (some r) = ltb_ℤ now r.expires_at

unfoldable pub token_revoked : String → String → String → Time → JournalStore → Bool
unfolding is_in_force
token_revoked issuer token_id tenant_id now s =
    is_in_force now (lookup (revocation_key issuer token_id tenant_id) s.maps.revocations)

-- The traversal deletes from the map while it runs, which Go allows; `left` is what it has still to
-- visit. The answer is the number of removed entries.
unfoldable pub prune :
    Time → List (String × TokenRevocation) → Dict TokenRevocation → ℕ × Dict TokenRevocation
prune now [] m = (zero, m)
prune now ((k, r) ∷ left) m =
    let (n, m') = prune now left (if ltb_ℤ now r.expires_at then m else delete k m) in
    (if ltb_ℤ now r.expires_at then n else suc n, m')

-- Nothing is written to the journal.
unfoldable pub prune_revocations : Time → JournalStore → ℕ × JournalStore
unfolding prune
prune_revocations now s =
    let (n, left) = prune now s.maps.revocations s.maps.revocations in
    (n, record s { maps = record (s.maps) { revocations = left } })
