-- ===== src/Store/Durability.antt =====
-- Crash recovery of JournalStore: what `replay` (internal/core/store.go) rebuilds of the maps.
use mathlib.Core.Option
use agent_federation_hub.Base.{String, ◌≡◌, refl, List, [], ◌∷◌, ◌++◌, Option, none, some, arith}
use agent_federation_hub.Base.Dict.{map_values, map_values-insert}
use agent_federation_hub.Model.Objects.{ArtifactObject, ArtifactUsage}
use agent_federation_hub.Store.State.{
  ok, LeaseState, RecordKind, agent, task, lease, inbox, inbox_state, outbox, outbox_state,
  revocation, artifact, artifact_lease, workflow, worker_control, other, JournalRecord, Maps,
  empty_maps, JournalLine, decoded, garbled, WriteOutcome, durable, failed, unsynced, JournalFile,
  JournalStore,
}
use agent_federation_hub.Store.Writes.{Writes, unchanged, then, pruned, after_write}
use agent_federation_hub.Store.Journal.{
  put_agent, put_task, put_outbox, put_lease, put_inbox, put_inbox_state, put_outbox_state,
  put_revocation, put_artifact_object, put_artifact_usage, put_artifact_lease, put_workflow,
  put_worker_control, apply_kind, apply_record, json_object, json_record, commit, replay,
  replay_from,
}

-- The maps without the storage keys, which the journal does not hold.
unfoldable pub forget_keys : Maps → Maps
unfolding map_values
forget_keys m = record m { artifact_objects = map_values json_object m.artifact_objects }

-- Each case of applyRecord commutes with forgetting the storage keys.
object-forget_keys :
    (o : Option ArtifactObject) (m : Maps)
    → put_artifact_object (Option.map json_object o) (forget_keys m)
      ≡ forget_keys (put_artifact_object o m)
unfolding put_artifact_object forget_keys json_object
object-forget_keys none m = refl
object-forget_keys (some o) m = rw map_values-insert

usage-forget_keys :
    (u : Option ArtifactUsage) (m : Maps)
    → put_artifact_usage u (forget_keys m) ≡ forget_keys (put_artifact_usage u m)
unfolding put_artifact_usage forget_keys
usage-forget_keys none m = refl
usage-forget_keys (some u) m = refl

lease-forget_keys :
    (k : String) (l : Option LeaseState) (m : Maps)
    → put_artifact_lease k l (forget_keys m) ≡ forget_keys (put_artifact_lease k l m)
unfolding put_artifact_lease forget_keys
lease-forget_keys k none m = refl
lease-forget_keys k (some l) m = ground arith

apply_kind-forget_keys :
    (k : RecordKind) (r : JournalRecord) (m : Maps)
    → apply_kind k (json_record r) (forget_keys m) ≡ forget_keys (apply_kind k r m)
unfolding apply_kind json_record
apply_kind-forget_keys artifact r m =
    rw object-forget_keys (rw usage-forget_keys (lease-forget_keys _ _ _))
apply_kind-forget_keys artifact_lease r m = lease-forget_keys _ _ _
apply_kind-forget_keys agent r m = unfold put_agent forget_keys in ground arith
apply_kind-forget_keys task r m = unfold put_task forget_keys in ground arith
apply_kind-forget_keys lease r m = unfold put_lease forget_keys in ground arith
apply_kind-forget_keys inbox r m = unfold put_inbox forget_keys in ground arith
apply_kind-forget_keys inbox_state r m = unfold put_inbox_state forget_keys in ground arith
apply_kind-forget_keys outbox r m = unfold put_outbox forget_keys in ground arith
apply_kind-forget_keys outbox_state r m = unfold put_outbox_state forget_keys in ground arith
apply_kind-forget_keys revocation r m = unfold put_revocation forget_keys in ground arith
apply_kind-forget_keys workflow r m = unfold put_workflow forget_keys in ground arith
apply_kind-forget_keys worker_control r m = unfold put_worker_control forget_keys in ground arith
apply_kind-forget_keys (other k) r m = refl

-- Replaying the encoded record after the encoded maps is applying the record, then encoding.
pub apply_record-forget_keys :
    (r : JournalRecord) (m : Maps)
    → apply_record (json_record r) (forget_keys m) ≡ forget_keys (apply_record r m)
unfolding apply_record json_record
apply_record-forget_keys r m = apply_kind-forget_keys r.kind r m

replay_from-append :
    (m : Maps) (lines : List JournalLine) (r : JournalRecord) (m' : Maps)
    → r.version ≡ 1
    → replay_from m lines ≡ ok m'
    → replay_from m (lines ++ decoded r ∷ []) ≡ ok (apply_record r m')
unfolding replay_from
replay_from-append m [] r m' v e = ground arith
replay_from-append m (garbled ∷ rest) r m' v e = cc
replay_from-append m (decoded x ∷ rest) r m' v e =
    ground (arith, replay_from-append (apply_record x m) rest r m' v)

-- No write to come is both kept by the file and reported as failed.
abbrev pub AllSynced : List WriteOutcome → Type 0
AllSynced [] = Unit
AllSynced (durable ∷ rest) = AllSynced rest
AllSynced (failed ∷ rest) = AllSynced rest
AllSynced (unsynced ∷ rest) = ⊥

-- There is a journal, and it replays to the maps without their storage keys.
abbrev pub Recovers : Option JournalFile → Maps → Type 0
Recovers none m = ⊥
Recovers (some f) m = AllSynced f.outcomes × (replay f.lines ≡ ok (forget_keys m))

abbrev pub IsRecoverable : JournalStore → Type 0
IsRecoverable s = Recovers s.file s.maps

written :
    (r : JournalRecord) (lines : List JournalLine) (m : Maps)
    → r.version ≡ 1
    → replay lines ≡ ok (forget_keys m)
    → replay (lines ++ decoded (json_record r) ∷ []) ≡ ok (forget_keys (apply_record r m))
unfolding replay
written r lines m v e = rw (← apply_record-forget_keys r m) (
    replay_from-append empty_maps lines (json_record r) (forget_keys m) (unfold json_record in v) e)

commit_line-IsRecoverable {ℓ} :
    {A : Type ℓ} (r : JournalRecord) (a : A) (os : List WriteOutcome) (lines : List JournalLine)
    (m : Maps)
    → r.version ≡ 1
    → AllSynced os
    → replay lines ≡ ok (forget_keys m)
    → let f : JournalFile = record { lines = lines; outcomes = os } in
      IsRecoverable (commit r a (record { file = some f; maps = m })).1
unfolding commit
commit_line-IsRecoverable r a [] lines m v h e = (h, written r lines m v e)
commit_line-IsRecoverable r a (durable ∷ rest) lines m v h e = (h, written r lines m v e)
commit_line-IsRecoverable r a (failed ∷ rest) lines m v h e = (h, e)
commit_line-IsRecoverable r a (unsynced ∷ rest) lines m v h e = absurd h

commit-IsRecoverable {ℓ} :
    {A : Type ℓ} (r : JournalRecord) (a : A) (file : Option JournalFile) (m : Maps)
    → r.version ≡ 1
    → Recovers file m
    → IsRecoverable (commit r a (record { file = file; maps = m })).1
unfolding commit
commit-IsRecoverable r a none m v h = absurd h
commit-IsRecoverable r a (some f) m v h =
    commit_line-IsRecoverable r a f.outcomes f.lines m v h.0 h.1

after_write-IsRecoverable :
    (r : JournalRecord) (s : JournalStore)
    → r.version ≡ 1
    → IsRecoverable s
    → IsRecoverable (after_write r s)
unfolding after_write
after_write-IsRecoverable r s v h = commit-IsRecoverable {0} {A = Unit {0}} r tt s.file s.maps v h

-- Every sequence of journal writes keeps the journal and the maps together.
pub Writes-IsRecoverable : {s t : JournalStore} → Writes ⊥ s t → IsRecoverable s → IsRecoverable t
Writes-IsRecoverable unchanged h = h
Writes-IsRecoverable (pruned left j w) h = absurd j
Writes-IsRecoverable (then r v w) h =
    after_write-IsRecoverable r _ v.version (Writes-IsRecoverable w h)
