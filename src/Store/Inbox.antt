-- ===== src/Store/Inbox.antt =====
-- The durable inbox of pushed messages (internal/core/store.go): EnqueueInbox, ClaimInbox,
-- RenewInboxLease, AckInbox, RetryInbox.
use agent_federation_hub.Base.{
  ◌+◌, String, Bool, true, false, ◌&&◌, ◌||◌, not, List, none, some, ◌==◌, text_ltb, if◌then◌else◌,
  select, take,
}
use agent_federation_hub.Base.Int.{ℤ, ◌+ℤ◌, ltb_ℤ, pos_part, u32}
use agent_federation_hub.Base.Dict.{lookup, lookup_or}
use agent_federation_hub.Base.Sort.{sort}
use agent_federation_hub.Model.{Time, zero_time, Duration}
use agent_federation_hub.Model.Queue.{InboxItem, InboxLease}
use agent_federation_hub.Store.State.{
  invalid, lease_lost, Result, err, InboxState, new_inbox_state, inbox, inbox_state, record_of,
  JournalRecord, Maps, JournalStore,
}
use agent_federation_hub.Store.Journal.{
  inbox_dedup_key, Plan, reply, refuse, write, transact, claim_each,
}
use agent_federation_hub.Store.Leases.{is_claim}

unfoldable pub is_inbox_item : InboxItem → Bool
is_inbox_item i =
    not (i.id == "") && not (i.tenant_id == "") && not (i.task_id == "") && not (i.dedup_key == "")

unfoldable pub inbox_record : InboxItem → JournalRecord
inbox_record i = record (record_of inbox) { inbox_entry = some i }

-- The answer says whether the item is new.
unfoldable pub enqueue_inbox_plan : InboxItem → Maps → Plan Bool
unfolding is_inbox_item inbox_record
enqueue_inbox_plan i m =
    if is_inbox_item i
    then elim (lookup (inbox_dedup_key i) m.inbox_dedup) [
      | some _ ↦ reply false
      | none ↦ write (inbox_record i) true
    ]
    else refuse (invalid "inbox ID, tenant, Task, and dedup key are required")

unfoldable pub enqueue_inbox : InboxItem → JournalStore → Result Bool × JournalStore
unfolding enqueue_inbox_plan transact
enqueue_inbox i s = transact (enqueue_inbox_plan i) s

-- state.Acked || state.AvailableAt.After(now) || (state.Owner != "" && state.ExpiresAt.After(now))
unfoldable pub is_inbox_held : InboxState → Time → Bool
is_inbox_held x now =
    x.acked || ltb_ℤ now x.available_at || (not (x.owner == "") && ltb_ℤ now x.expires_at)

unfoldable pub inbox_candidates : ℤ → Time → Maps → List (String × InboxItem)
unfolding is_inbox_held sort
inbox_candidates limit now m = take (pos_part limit) (
    sort (λ a b. text_ltb a.0 b.0)
      (select (λ e. not (is_inbox_held (lookup_or new_inbox_state e.0 m.inbox_states) now))
        m.inbox_items))

unfoldable pub inbox_state_record : String → InboxState → JournalRecord
inbox_state_record id x = record (record_of inbox_state) {
  inbox_id = id;
  inbox_state_entry = some x;
}

unfoldable pub inbox_claimed : InboxState → String → Time → Duration → InboxState
inbox_claimed x owner now duration = record x {
  owner = owner;
  expires_at = now +ℤ duration;
  attempt = u32 (x.attempt + 1);
}

unfoldable pub claim_inbox_plan :
    String → Time → Duration → String × InboxItem → Maps → Plan InboxLease
unfolding inbox_claimed inbox_state_record
claim_inbox_plan owner now duration (id, item) m =
    let x = inbox_claimed (lookup_or new_inbox_state id m.inbox_states) owner now duration in
    write (inbox_state_record id x)
      (record { item = item; owner = owner; expires_at = x.expires_at; attempt = x.attempt })

unfoldable pub claim_inbox :
    String → ℤ → Time → Duration → JournalStore → Result (List InboxLease) × JournalStore
unfolding is_claim inbox_candidates claim_inbox_plan claim_each
claim_inbox owner limit now duration s =
    if is_claim owner limit duration
    then claim_each (claim_inbox_plan owner now duration) (inbox_candidates limit now s.maps) s
    else (err (invalid "inbox lease owner, positive limit, and duration are required"), s)

unfoldable pub renew_inbox_plan : InboxLease → Time → Duration → Maps → Plan InboxLease
unfolding inbox_state_record
renew_inbox_plan l now duration m = elim (lookup l.item.id m.inbox_states) [
  | none ↦ refuse lease_lost
  | some x ↦
      let x' = record x { expires_at = now +ℤ duration } in
      if x.owner == l.owner && ltb_ℤ now x.expires_at && not x.acked
      then write (inbox_state_record l.item.id x') (record l { expires_at = x'.expires_at })
      else refuse lease_lost
]

unfoldable pub renew_inbox_lease :
    InboxLease → Time → Duration → JournalStore → Result InboxLease × JournalStore
unfolding renew_inbox_plan transact
renew_inbox_lease l now duration s = transact (renew_inbox_plan l now duration) s

-- The shared guard of AckInbox and RetryInbox.
unfoldable pub inbox_update_plan : InboxLease → (InboxState → InboxState) → Maps → Plan (Unit {0})
unfolding inbox_state_record
inbox_update_plan l change m = elim (lookup l.item.id m.inbox_states) [
  | none ↦ refuse lease_lost
  | some x ↦
      if x.owner == l.owner && not x.acked
      then write (inbox_state_record l.item.id (change x)) tt
      else refuse lease_lost
]

unfoldable pub inbox_acked : InboxState → InboxState
inbox_acked x = record x { owner = ""; expires_at = zero_time; acked = true }

unfoldable pub inbox_retried : Time → InboxState → InboxState
inbox_retried available_at x = record x {
  owner = "";
  expires_at = zero_time;
  available_at = available_at;
}

unfoldable pub ack_inbox : InboxLease → JournalStore → Result (Unit {0}) × JournalStore
unfolding inbox_update_plan inbox_acked transact
ack_inbox l s = transact (inbox_update_plan l inbox_acked) s

unfoldable pub retry_inbox : InboxLease → Time → JournalStore → Result (Unit {0}) × JournalStore
unfolding inbox_update_plan inbox_retried transact
retry_inbox l available_at s = transact (inbox_update_plan l (inbox_retried available_at)) s
