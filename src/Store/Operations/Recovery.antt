-- ===== src/Store/Operations/Recovery.antt =====
-- After a run of journaled operations a restart replays the journal to the maps that the store held, but
-- for the storage keys of Artifacts (internal/core/store.go).
use agent_federation_hub.Base.{String, ◌≡◌, refl, List, [], Option, none, some, arith, All}
use agent_federation_hub.Base.Dict.{lookup-map_values}
use agent_federation_hub.Model.Objects.{ArtifactObject}
use agent_federation_hub.Store.State.{Result, ok, err, Maps, JournalStore}
use agent_federation_hub.Store.Journal.{reopen, replay, json_object}
use agent_federation_hub.Store.Operations.Chains.{IsJournaled, run-Writes_journaled}
use agent_federation_hub.Store.Durability.{
  IsRecoverable, Recovers, AllSynced, forget_keys, Writes-IsRecoverable,
}
use agent_federation_hub.Store.State.{JournalFile, empty_maps, WriteOutcome}
use agent_federation_hub.Store.Artifacts.{get_artifact}
use agent_federation_hub.Store.Operations.{Operation, run}

-- A new store over an empty journal file, with the outcomes of its writes to come.
abbrev pub fresh : List WriteOutcome → JournalStore
fresh outcomes = record {
  file = some (record { lines = []; outcomes = outcomes });
  maps = empty_maps;
}

abbrev pub maps_of : Result JournalStore → Result Maps
maps_of (ok s) = ok s.maps
maps_of (err e) = err e

restart_file :
    (file : Option JournalFile) (m : Maps)
    → Recovers file m
    → maps_of (reopen (record { file = file; maps = m })) ≡ ok (forget_keys m)
unfolding reopen
restart_file none m h = absurd h
restart_file (some f) m h = rw (h.1, reopen)

restarted_file :
    (file : Option JournalFile) (m : Maps)
    → Recovers file m
    → (s : JournalStore) × (reopen (record { file = file; maps = m }) ≡ ok s)
      × (s.maps ≡ forget_keys m)
unfolding reopen
restarted_file none m h = absurd h
restarted_file (some f) m h = (
  record { file = some (record f { outcomes = [] }); maps = forget_keys m },
  rw (h.1, reopen),
  refl,
)

restarted :
    (s : JournalStore)
    → IsRecoverable s
    → (s' : JournalStore) × (reopen s ≡ ok s') × (s'.maps ≡ forget_keys s.maps)
restarted s h = restarted_file s.file s.maps h

pub restart-IsRecoverable :
    (s : JournalStore) → IsRecoverable s → maps_of (reopen s) ≡ ok (forget_keys s.maps)
restart-IsRecoverable s h = restart_file s.file s.maps h

reopened-run :
    (os : List Operation) (outcomes : List WriteOutcome)
    → AllSynced outcomes
    → All IsJournaled os
    → IsRecoverable (run os (fresh outcomes))
reopened-run os outcomes h j =
    Writes-IsRecoverable (run-Writes_journaled os (fresh outcomes) j)
      (h, unfold replay forget_keys in refl)

-- From an empty journal, after any operations but PruneRevocations with any arguments, and with
-- writes that may fail but leave no line behind when they do, a restart replays the journal without
-- an error to the maps that the store held, up to the storage keys of the Artifact objects.
pub restart-run :
    (os : List Operation) (outcomes : List WriteOutcome)
    → AllSynced outcomes
    → All IsJournaled os
    → let s = run os (fresh outcomes) in maps_of (reopen s) ≡ ok (forget_keys s.maps)
restart-run os outcomes h j =
    restart-IsRecoverable (run os (fresh outcomes)) (reopened-run os outcomes h j)

-- From an empty journal, after any operations but PruneRevocations with any arguments, and with
-- writes that may fail but leave no line behind when they do: a restart succeeds, and of each
-- Artifact that the store answers with it keeps all but the storage key, which is the empty text
-- afterwards.
pub get_artifact-restart :
    (os : List Operation) (outcomes : List WriteOutcome) (tenant id : String) (o : ArtifactObject)
    → AllSynced outcomes
    → All IsJournaled os
    → get_artifact tenant id (run os (fresh outcomes)) ≡ ok o
    → (s : JournalStore) × (reopen (run os (fresh outcomes)) ≡ ok s)
      × (get_artifact tenant id s ≡ ok (record o { storage_key = "" }))
unfolding get_artifact forget_keys json_object
get_artifact-restart os outcomes tenant id o h j e =
    let (s, r, m) = restarted (run os (fresh outcomes)) (reopened-run os outcomes h j) in
    (s, r, rw m (rw lookup-map_values (ground arith)))
