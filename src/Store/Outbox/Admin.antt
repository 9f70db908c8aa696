-- ===== src/Store/Outbox/Admin.antt =====
-- The operator's side of the outbox (internal/core/store.go): ListOutbox, outboxRecordLocked,
-- ReplayOutbox, PurgeOutbox.
use agent_federation_hub.Base.{
  ℕ, zero, suc, ◌+◌, String, Bool, true, false, ◌&&◌, ◌||◌, not, List, [], ◌∷◌, Option, none, some,
  ◌==◌, eqb, if◌then◌else◌, select, take, map,
}
use agent_federation_hub.Base.Int.{ℤ, pos, ltb_ℤ, eqb_ℤ, pos_part}
use agent_federation_hub.Base.Dict.{lookup, lookup_or}
use agent_federation_hub.Base.Sort.{sort}
use agent_federation_hub.Model.{Time, zero_time}
use agent_federation_hub.Model.Queue.{
  OutboxItem, OutboxStatus, pending, acked, dead_lettered, purged, OutboxRecord,
}
use agent_federation_hub.Store.State.{
  Error, not_found, invalid, Result, ok, err, OutboxState, new_outbox_state, Maps, JournalStore,
}
use agent_federation_hub.Store.Journal.{Plan, reply, refuse, write, transact}
use agent_federation_hub.Store.Outbox.{before_outbox, outbox_state_record}

unfoldable pub status_of : OutboxState → OutboxStatus
status_of x =
    if x.purged
    then purged
    else if x.dead_lettered
    then dead_lettered
    else if x.acked
    then acked
    else pending

-- if !t.IsZero() { value := t; p = &value }
unfoldable pub unless_zero : Time → Option Time
unless_zero t = if eqb_ℤ t zero_time then none else some t

-- outboxRecordLocked, for an entry of the outbox
unfoldable pub outbox_record_of : Maps → String × OutboxItem → OutboxRecord
unfolding status_of unless_zero
outbox_record_of m (id, item) =
    let x = lookup_or new_outbox_state id m.outbox_states in
    record {
      item = item;
      status = status_of x;
      attempts = x.attempt;
      available_at = x.available_at;
      last_error = x.last_error;
      acked_at = unless_zero x.acked_at;
      dead_letter_at = unless_zero x.dead_letter_at;
      purged_at = unless_zero x.purged_at;
    }

abbrev same_status : OutboxStatus → OutboxStatus → Bool
same_status pending pending = true
same_status acked acked = true
same_status dead_lettered dead_lettered = true
same_status purged purged = true
same_status _ _ = false

-- A status of `none` is the empty string, which lists every item.
unfoldable pub has_status : Option OutboxStatus → OutboxRecord → Bool
has_status none r = true
has_status (some status) r = same_status r.status status

unfoldable pub list_outbox :
    String → Option OutboxStatus → ℤ → JournalStore → Result (List OutboxRecord)
unfolding outbox_record_of has_status before_outbox sort
list_outbox tenant status limit s =
    let own = sort before_outbox (select (λ e. e.1.tenant_id == tenant) s.maps.outbox_items) in
    if tenant == "" || not (ltb_ℤ (pos 0) limit)
    then err (invalid "tenant and positive outbox limit are required")
    else ok (take (pos_part limit) (select (has_status status) (map (outbox_record_of s.maps) own)))

unfoldable pub outbox_replayed : Time → OutboxState → OutboxState
outbox_replayed now x = record x {
  dead_lettered = false;
  owner = "";
  expires_at = zero_time;
  available_at = now;
  last_error = "";
  dead_letter_at = zero_time;
}

unfoldable pub replay_outbox_plan : String → String → Time → Maps → Plan (Unit {0})
unfolding outbox_replayed outbox_state_record
replay_outbox_plan tenant id now m = elim (lookup id m.outbox_items) [
  | none ↦ refuse not_found
  | some item ↦
      let x = lookup_or new_outbox_state id m.outbox_states in
      if not (item.tenant_id == tenant)
      then refuse not_found
      else if not x.dead_lettered || x.purged
      then refuse (invalid "only a non-purged dead-letter outbox item can be replayed")
      else write (outbox_state_record id (outbox_replayed now x)) tt
]

unfoldable pub replay_outbox :
    String → String → Time → JournalStore → Result (Unit {0}) × JournalStore
unfolding replay_outbox_plan transact
replay_outbox tenant id now s = transact (replay_outbox_plan tenant id now) s

-- Whether an item of the tenant is old enough and done.
unfoldable pub is_purgeable : String → Time → OutboxItem → OutboxState → Bool
is_purgeable tenant before item x =
    item.tenant_id == tenant
    && ltb_ℤ item.created_at before
    && (x.acked || x.dead_lettered)
    && not x.purged

unfoldable pub outbox_purged : Time → OutboxState → OutboxState
outbox_purged now x = record x {
  purged = true;
  purged_at = now;
  owner = "";
  expires_at = zero_time;
}

-- The body of the loop for one item: 1 if it was purged, 0 if it was passed over.
unfoldable pub purge_item_plan : String → Time → Time → String × OutboxItem → Maps → Plan ℕ
unfolding is_purgeable outbox_purged outbox_state_record
purge_item_plan tenant before now (id, item) m =
    let x = lookup_or new_outbox_state id m.outbox_states in
    if is_purgeable tenant before item x
    then write (outbox_state_record id (outbox_purged now x)) 1
    else reply 0

-- What the loop returns: the count, and the error that ended it.
abbrev pub Purged : Type 0
Purged = (ℕ × Option Error) × JournalStore

unfoldable pub count_on : Result ℕ × JournalStore → (ℕ → JournalStore → Purged) → Purged
count_on (err e, s) f = ((0, some e), s)
count_on (ok n, s) f = let ((k, e), s') = f n s in ((n + k, e), s')

-- The loop: `room` is what is left of the limit, and a failed write ends it.
unfoldable pub purge_each :
    String → Time → Time → ℕ → List (String × OutboxItem) → JournalStore → Purged
unfolding purge_item_plan transact count_on
purge_each tenant before now room [] s = ((0, none), s)
purge_each tenant before now zero (e ∷ es) s = ((0, none), s)
purge_each tenant before now (suc room) (e ∷ es) s =
    count_on (transact (purge_item_plan tenant before now e) s)
      λ n s'. purge_each tenant before now (if eqb n 0 then suc room else room) es s'

unfoldable pub purge_outbox : Time → String → Time → ℤ → JournalStore → Purged
unfolding purge_each
purge_outbox now tenant before limit s =
    if tenant == "" || not (ltb_ℤ (pos 0) limit)
    then ((0, some (invalid "tenant and positive outbox purge limit are required")), s)
    else purge_each tenant before now (pos_part limit) s.maps.outbox_items s
