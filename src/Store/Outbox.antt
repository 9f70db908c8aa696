-- ===== src/Store/Outbox.antt =====
-- The durable outbox of committed events (internal/core/store.go): EnqueueOutbox, ClaimOutbox,
-- RenewOutboxLease, AckOutbox, RetryOutbox, DeadLetterOutbox. `time.Now` is an argument.
pub mod Admin
use agent_federation_hub.Base.{
  ℕ, ◌+◌, String, Bool, true, false, ◌&&◌, ◌||◌, not, List, Option, none, some, ◌==◌, text_ltb,
  if◌then◌else◌, select, take,
}
use agent_federation_hub.Base.Int.{ℤ, ◌+ℤ◌, ltb_ℤ, eqb_ℤ, pos_part, u32}
use agent_federation_hub.Base.Dict.{lookup, lookup_or}
use agent_federation_hub.Base.Sort.{sort}
use agent_federation_hub.Model.{Time, zero_time, Duration}
use agent_federation_hub.Model.Queue.{Payload, encoded, raw, OutboxItem, OutboxLease}
use agent_federation_hub.Store.State.{
  invalid, lease_lost, Result, err, OutboxState, new_outbox_state, outbox, outbox_state, record_of,
  JournalRecord, Maps, JournalStore,
}
use agent_federation_hub.Store.Journal.{
  outbox_dedup_key, Plan, reply, refuse, write, transact, claim_each,
}
use agent_federation_hub.Store.Leases.{is_claim}

unfoldable pub is_outbox_item : OutboxItem → Bool
is_outbox_item i =
    not (i.id == "")
    && not (i.tenant_id == "")
    && not (i.task_id == "")
    && not (i.dedup_key == "")
    && not (i.topic == "")

-- len(item.Payload) != 0 && json.Valid(item.Payload); an encoded event is valid. `json.Valid` is
-- the argument.
unfoldable pub is_valid_payload : (String → Bool) → Payload → Bool
is_valid_payload valid (encoded e) = true
is_valid_payload valid (raw text) = not (text == "") && valid text

unfoldable pub outbox_record : OutboxItem → JournalRecord
outbox_record i = record (record_of outbox) { outbox_entry = some i }

unfoldable pub enqueue_outbox_plan : (String → Bool) → OutboxItem → Maps → Plan Bool
unfolding is_outbox_item is_valid_payload outbox_record
enqueue_outbox_plan valid i m =
    if not (is_outbox_item i)
    then refuse (invalid "outbox ID, tenant, Task, dedup key, and topic are required")
    else if not (is_valid_payload valid i.payload)
    then refuse (invalid "outbox payload must be valid JSON")
    else elim (lookup (outbox_dedup_key i) m.outbox_dedup) [
      | some _ ↦ reply false
      | none ↦ write (outbox_record i) true
    ]

unfoldable pub enqueue_outbox :
    (String → Bool) → OutboxItem → JournalStore → Result Bool × JournalStore
unfolding enqueue_outbox_plan transact
enqueue_outbox valid i s = transact (enqueue_outbox_plan valid i) s

unfoldable pub is_outbox_held : OutboxState → Time → Bool
is_outbox_held x now =
    x.acked
    || x.dead_lettered
    || x.purged
    || ltb_ℤ now x.available_at
    || (not (x.owner == "") && ltb_ℤ now x.expires_at)

-- The earlier created first, and then the smaller identifier.
unfoldable pub before_outbox : String × OutboxItem → String × OutboxItem → Bool
before_outbox (j, a) (k, b) =
    ltb_ℤ a.created_at b.created_at || (eqb_ℤ a.created_at b.created_at && text_ltb j k)

unfoldable pub is_outbox_claimable : Maps → Time → String × OutboxItem → Bool
unfolding is_outbox_held
is_outbox_claimable m now (id, item) =
    not (is_outbox_held (lookup_or new_outbox_state id m.outbox_states) now)

unfoldable pub outbox_candidates : ℤ → Time → Maps → List (String × OutboxItem)
unfolding is_outbox_claimable before_outbox sort
outbox_candidates limit now m =
    take (pos_part limit) (sort before_outbox (select (is_outbox_claimable m now) m.outbox_items))

unfoldable pub outbox_state_record : String → OutboxState → JournalRecord
outbox_state_record id x = record (record_of outbox_state) {
  outbox_id = id;
  outbox_state_entry = some x;
}

unfoldable pub outbox_claimed : OutboxState → String → Time → Duration → OutboxState
outbox_claimed x owner now duration = record x {
  owner = owner;
  expires_at = now +ℤ duration;
  attempt = u32 (x.attempt + 1);
}

unfoldable pub claim_outbox_plan :
    String → Time → Duration → String × OutboxItem → Maps → Plan OutboxLease
unfolding outbox_claimed outbox_state_record
claim_outbox_plan owner now duration (id, item) m =
    let x = outbox_claimed (lookup_or new_outbox_state id m.outbox_states) owner now duration in
    write (outbox_state_record id x)
      (record { item = item; owner = owner; expires_at = x.expires_at; attempt = x.attempt })

unfoldable pub claim_outbox :
    String → ℤ → Time → Duration → JournalStore → Result (List OutboxLease) × JournalStore
unfolding is_claim outbox_candidates claim_outbox_plan claim_each
claim_outbox owner limit now duration s =
    if is_claim owner limit duration
    then claim_each (claim_outbox_plan owner now duration) (outbox_candidates limit now s.maps) s
    else (err (invalid "outbox lease owner, positive limit, and duration are required"), s)

unfoldable pub renew_outbox_plan : OutboxLease → Time → Duration → Maps → Plan OutboxLease
unfolding outbox_state_record
renew_outbox_plan l now duration m = elim (lookup l.item.id m.outbox_states) [
  | none ↦ refuse lease_lost
  | some x ↦
      let x' = record x { expires_at = now +ℤ duration } in
      if x.owner == l.owner && ltb_ℤ now x.expires_at && not x.acked
      then write (outbox_state_record l.item.id x') (record l { expires_at = x'.expires_at })
      else refuse lease_lost
]

unfoldable pub renew_outbox_lease :
    OutboxLease → Time → Duration → JournalStore → Result OutboxLease × JournalStore
unfolding renew_outbox_plan transact
renew_outbox_lease l now duration s = transact (renew_outbox_plan l now duration) s

-- The guarded updates: `blocked` is what the source tests beside the owner.
unfoldable pub outbox_update_plan :
    OutboxLease → (OutboxState → Bool) → (OutboxState → OutboxState) → Maps → Plan (Unit {0})
unfolding outbox_state_record
outbox_update_plan l blocked change m = elim (lookup l.item.id m.outbox_states) [
  | none ↦ refuse lease_lost
  | some x ↦
      if x.owner == l.owner && not (blocked x)
      then write (outbox_state_record l.item.id (change x)) tt
      else refuse lease_lost
]

unfoldable pub outbox_acked : Time → OutboxState → OutboxState
outbox_acked now x = record x { owner = ""; expires_at = zero_time; acked = true; acked_at = now }

unfoldable pub outbox_retried : Time → OutboxState → OutboxState
outbox_retried available_at x = record x {
  owner = "";
  expires_at = zero_time;
  available_at = available_at;
}

unfoldable pub outbox_dead_lettered : Time → String → OutboxState → OutboxState
outbox_dead_lettered now reason x = record x {
  owner = "";
  expires_at = zero_time;
  dead_lettered = true;
  last_error = reason;
  dead_letter_at = now;
}

unfoldable pub ack_outbox : Time → OutboxLease → JournalStore → Result (Unit {0}) × JournalStore
unfolding outbox_update_plan outbox_acked transact
ack_outbox now l s = transact (outbox_update_plan l (λ x. x.acked) (outbox_acked now)) s

unfoldable pub retry_outbox : OutboxLease → Time → JournalStore → Result (Unit {0}) × JournalStore
unfolding outbox_update_plan outbox_retried transact
retry_outbox l available_at s =
    transact (outbox_update_plan l (λ x. x.acked || x.dead_lettered) (outbox_retried available_at))
      s

unfoldable pub dead_letter_outbox :
    Time → OutboxLease → String → JournalStore → Result (Unit {0}) × JournalStore
unfolding outbox_update_plan outbox_dead_lettered transact
dead_letter_outbox now l reason s =
    transact
      (outbox_update_plan l (λ x. x.acked || x.dead_lettered) (outbox_dead_lettered now reason)) s
