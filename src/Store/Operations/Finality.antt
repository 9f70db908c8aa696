-- ===== src/Store/Operations/Finality.antt =====
-- What no operation of JournalStore (internal/core/store.go) takes back: the acknowledgement of a
-- queued item and the purge of an outbox item.
use agent_federation_hub.Base.{
  String, ◌≡◌, refl, true, List, Option, none, some, ◌⊎◌, inl, inr, arith, eq_iff,
}
use agent_federation_hub.Base.Dict.{lookup_or, lookup_or-insert}
use agent_federation_hub.Model.{Time}
use agent_federation_hub.Store.State.{
  InboxState, new_inbox_state, OutboxState, new_outbox_state, RecordKind, agent, task, lease, inbox,
  inbox_state, outbox, outbox_state, revocation, artifact, artifact_lease, workflow, worker_control,
  other, JournalRecord, Maps, JournalStore,
}
use agent_federation_hub.Store.Journal.{
  put_task, put_agent, put_lease, put_inbox, put_inbox_state, put_outbox, put_outbox_state,
  put_revocation, put_artifact_object, put_artifact_usage, put_artifact_lease, put_workflow,
  put_worker_control, apply_kind, apply_record,
}
use agent_federation_hub.Store.Inbox.{is_inbox_held}
use agent_federation_hub.Store.Outbox.{is_outbox_held}
use agent_federation_hub.Store.Writes.{KeepsInbox, KeepsOutbox, IsLegal, Writes-keep}
use agent_federation_hub.Store.Operations.{Operation, run}
use agent_federation_hub.Store.Operations.Chains.{run-Writes}

abbrev pub inbox_state_of : String → Maps → InboxState
inbox_state_of id m = lookup_or new_inbox_state id m.inbox_states

abbrev pub outbox_state_of : String → Maps → OutboxState
outbox_state_of id m = lookup_or new_outbox_state id m.outbox_states

-- Only the records of a kind reach the map of that kind.
inbox_states-apply_kind :
    (k : RecordKind) (r : JournalRecord) (m : Maps)
    → ((apply_kind k r m).inbox_states ≡ m.inbox_states)
      ⊎ ((apply_kind k r m).inbox_states
          ≡ (put_inbox_state r.inbox_id r.inbox_state_entry m).inbox_states)
unfolding apply_kind
inbox_states-apply_kind inbox_state r m = inr refl
inbox_states-apply_kind agent r m = inl (unfold put_agent in ground arith)
inbox_states-apply_kind task r m = inl (unfold put_task in ground arith)
inbox_states-apply_kind lease r m = inl (unfold put_lease in ground arith)
inbox_states-apply_kind inbox r m = inl (unfold put_inbox in ground arith)
inbox_states-apply_kind outbox r m = inl (unfold put_outbox in ground arith)
inbox_states-apply_kind outbox_state r m = inl (unfold put_outbox_state in ground arith)
inbox_states-apply_kind revocation r m = inl (unfold put_revocation in ground arith)
inbox_states-apply_kind artifact r m =
    inl (unfold put_artifact_lease put_artifact_usage put_artifact_object in ground arith)
inbox_states-apply_kind artifact_lease r m = inl (unfold put_artifact_lease in ground arith)
inbox_states-apply_kind workflow r m = inl (unfold put_workflow in ground arith)
inbox_states-apply_kind worker_control r m = inl (unfold put_worker_control in ground arith)
inbox_states-apply_kind (other k) r m = inl refl

outbox_states-apply_kind :
    (k : RecordKind) (r : JournalRecord) (m : Maps)
    → ((apply_kind k r m).outbox_states ≡ m.outbox_states)
      ⊎ ((apply_kind k r m).outbox_states
          ≡ (put_outbox_state r.outbox_id r.outbox_state_entry m).outbox_states)
unfolding apply_kind
outbox_states-apply_kind outbox_state r m = inr refl
outbox_states-apply_kind agent r m = inl (unfold put_agent in ground arith)
outbox_states-apply_kind task r m = inl (unfold put_task in ground arith)
outbox_states-apply_kind lease r m = inl (unfold put_lease in ground arith)
outbox_states-apply_kind inbox r m = inl (unfold put_inbox in ground arith)
outbox_states-apply_kind outbox r m = inl (unfold put_outbox in ground arith)
outbox_states-apply_kind inbox_state r m = inl (unfold put_inbox_state in ground arith)
outbox_states-apply_kind revocation r m = inl (unfold put_revocation in ground arith)
outbox_states-apply_kind artifact r m =
    inl (unfold put_artifact_lease put_artifact_usage put_artifact_object in ground arith)
outbox_states-apply_kind artifact_lease r m = inl (unfold put_artifact_lease in ground arith)
outbox_states-apply_kind workflow r m = inl (unfold put_workflow in ground arith)
outbox_states-apply_kind worker_control r m = inl (unfold put_worker_control in ground arith)
outbox_states-apply_kind (other k) r m = inl refl

put_inbox_state-acked :
    (id k : String) (x : Option InboxState) (m : Maps)
    → KeepsInbox k x m
    → (inbox_state_of id m).acked ≡ true
    → (inbox_state_of id (put_inbox_state k x m)).acked ≡ true
unfolding put_inbox_state
put_inbox_state-acked id k none m l h = h
put_inbox_state-acked id k (some x) m l h =
    ground (arith, lookup_or-insert new_inbox_state k id x m.inbox_states, eq_iff k id)

inbox_acked_keep :
    (id : String) (r : JournalRecord) (m : Maps)
    → IsLegal r m
    → (inbox_state_of id m).acked ≡ true
    → (inbox_state_of id (apply_record r m)).acked ≡ true
unfolding apply_record
inbox_acked_keep id r m l h = elim (inbox_states-apply_kind r.kind r m) [
  | inl e ↦ rw e h
  | inr e ↦ rw e (put_inbox_state-acked id r.inbox_id r.inbox_state_entry m l.inbox h)
]

-- An outbox item that no claim takes: acknowledged or purged.
abbrev pub IsDone : OutboxState → Type 0
IsDone x = (x.acked ≡ true) ⊎ (x.purged ≡ true)

put_outbox_state-IsDone :
    (id k : String) (x : Option OutboxState) (m : Maps)
    → KeepsOutbox k x m
    → IsDone (outbox_state_of id m)
    → IsDone (outbox_state_of id (put_outbox_state k x m))
unfolding put_outbox_state
put_outbox_state-IsDone id k none m l h = h
put_outbox_state-IsDone id k (some x) m l h =
    ground (arith, lookup_or-insert new_outbox_state k id x m.outbox_states, eq_iff k id)

outbox-IsDone_keep :
    (id : String) (r : JournalRecord) (m : Maps)
    → IsLegal r m
    → IsDone (outbox_state_of id m)
    → IsDone (outbox_state_of id (apply_record r m))
unfolding apply_record
outbox-IsDone_keep id r m l h = elim (outbox_states-apply_kind r.kind r m) [
  | inl e ↦ rw e h
  | inr e ↦ rw e (put_outbox_state-IsDone id r.outbox_id r.outbox_state_entry m l.outbox h)
]

-- An inbox item that was acknowledged is acknowledged after any operations with any arguments, so
-- no later claim at any time takes it.
pub inbox_acked-run :
    (os : List Operation) (s : JournalStore) (id : String) (now : Time)
    → (inbox_state_of id s.maps).acked ≡ true
    → is_inbox_held (inbox_state_of id (run os s).maps) now ≡ true
unfolding is_inbox_held
inbox_acked-run os s id now h = ground (
  arith,
  Writes-keep (λ m. (inbox_state_of id m).acked ≡ true) (inbox_acked_keep id) (λ left m h. h)
      (run-Writes os s) h,
)

-- An outbox item that was acknowledged or purged stays so after any operations with any arguments,
-- replays of dead letters among them, so no later claim at any time takes it.
pub outbox-IsDone-run :
    (os : List Operation) (s : JournalStore) (id : String) (now : Time)
    → IsDone (outbox_state_of id s.maps)
    → IsDone (outbox_state_of id (run os s).maps)
      × (is_outbox_held (outbox_state_of id (run os s).maps) now ≡ true)
unfolding is_outbox_held
outbox-IsDone-run os s id now h =
    let final : IsDone (outbox_state_of id (run os s).maps) =
      Writes-keep (λ m. IsDone (outbox_state_of id m)) (outbox-IsDone_keep id) (λ left m h. h)
        (run-Writes os s) h in
    (final, ground arith)
