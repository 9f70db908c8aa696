-- ===== src/Hub/Observations.antt =====
-- What the Hub makes of an observation of a remote Task (internal/hub/service.go): shouldApplyState,
-- mergeArtifact, externalizeArtifact, applyObservation, problemFromError, recordProblem.
use Prim.Native.String.{◌++◌ as text_append}
use agent_federation_hub.Base.{
  ℕ, suc, String, Bool, true, false, ◌&&◌, ◌||◌, not, List, [], ◌∷◌, ◌++◌, Option, none, some, ◌==◌,
  if◌then◌else◌,
}
use agent_federation_hub.Base.Int.{ltb_ℤ}
use agent_federation_hub.Base.Text.{decimal}
use agent_federation_hub.Model.{
  Time, TaskState, unset, unknown, is_terminal, same_state, acknowledged, PartKind, text, file,
  structured, Part, Artifact, Problem, Task, Event,
}
use agent_federation_hub.Model.Objects.{ArtifactObject}
use agent_federation_hub.Store.State.{
  Error, revision_conflict, invalid, rejected, remote, Result, ok, err, Applied, applied, duplicate,
  stale, JournalStore,
}
use agent_federation_hub.Store.Journal.{and_then}
use agent_federation_hub.Store.Tasks.{Mutation, apply_task}
use agent_federation_hub.Federation.{ArtifactUpdate, Observation}
use agent_federation_hub.Hub.Service.{Service, Draws}

-- What `task, _, err := Store.ApplyTask(...)` leaves.
unfoldable pub task_of : Result (Applied Task) × JournalStore → Result Task × JournalStore
task_of (ok (applied t), s) = (ok t, s)
task_of (ok (duplicate t), s) = (ok t, s)
task_of (ok (stale t), s) = (err revision_conflict, s)
task_of (err e, s) = (err e, s)

-- An update of a Task without a deduplication key or with one.
unfoldable pub update_task :
    String → String → String → String → Mutation → JournalStore → Result Task × JournalStore
unfolding task_of apply_task
update_task id tenant task_id dedup f s = task_of (apply_task id tenant task_id dedup f s)

-- The events that the Hub writes. The store fills in what is left out here.
abbrev pub hub_event : String → String → TaskState → Option Problem → Time → Event
hub_event kind source state problem at = record {
  id = "";
  dedup_key = "";
  task_id = "";
  tenant_id = "";
  sequence = 0;
  kind = kind;
  source = source;
  state = state;
  artifact = none;
  problem = problem;
  observed_at = none;
  created_at = at;
}

-- remoteObservedAt.Before(lastRemoteObservedAt), where both are known
unfoldable pub is_older : Option Time → Option Time → Bool
is_older none last = false
is_older (some at) none = false
is_older (some at) (some last) = ltb_ℤ at last

unfoldable pub should_apply_state : Task → Observation → Bool
unfolding is_older
should_apply_state t o =
    if is_terminal t.state && not (same_state t.state o.state)
    then false
    else if is_older o.remote_observed_at t.last_remote_observed_at
    then false
    else true

unfoldable pub observed_state : Task → Observation → TaskState
unfolding should_apply_state
observed_state t o =
    if not (same_state o.state unknown) && should_apply_state t o then o.state else t.state

-- The later of the two times, and the old one where the new one is not known.
unfoldable pub observed_time : Option Time → Option Time → Option Time
unfolding is_older
observed_time none last = last
observed_time (some at) last = if is_older (some at) last then last else some at

unfoldable pub or_old : String → String → String
or_old new old = if new == "" then old else new

-- The callback of applyObservation for the status.
unfoldable pub status_update : Time → Observation → Mutation
unfolding observed_state observed_time or_old
status_update now o t =
    let t' = record t {
      remote_task_id = or_old o.remote_task_id t.remote_task_id;
      remote_context_id = or_old o.remote_context_id t.remote_context_id;
      delivery = acknowledged;
      cancel_requested = t.cancel_requested || o.cancel_requested;
      state = observed_state t o;
      last_remote_observed_at = observed_time o.remote_observed_at t.last_remote_observed_at;
      problem = o.problem;
      updated_at = now;
    } in
    if not (o.remote_task_id == "")
      && not (t.remote_task_id == "")
      && not (t.remote_task_id == o.remote_task_id)
    then err (rejected "remote task ID changed")
    else ok (
      t',
      record (hub_event "task.status" o.source (observed_state t o) o.problem now) {
        observed_at = o.remote_observed_at;
      },
    )

unfoldable pub extended : Artifact → Artifact → Artifact
unfolding or_old
extended old new = record old {
  parts = old.parts ++ new.parts;
  complete = new.complete;
  name = or_old new.name old.name;
  description = or_old new.description old.description;
}

-- The loop of mergeArtifact: the first Artifact with the identifier is extended or replaced.
unfoldable pub merge_into : ArtifactUpdate → List Artifact → List Artifact
unfolding extended
merge_into u [] = u.artifact ∷ []
merge_into u (a ∷ as') =
    let later = merge_into u as' in
    if a.id == u.artifact.id
    then (if u.appends then extended a u.artifact else u.artifact) ∷ as'
    else a ∷ later

unfoldable pub merge_artifact : ArtifactUpdate → Task → Task
unfolding merge_into
merge_artifact u t = record t { artifacts = merge_into u t.artifacts }

-- The callback of applyObservation for an Artifact.
unfoldable pub artifact_update : Time → String → ArtifactUpdate → Mutation
unfolding merge_artifact
artifact_update now source u t = ok (
  record (merge_artifact u t) { updated_at = now },
  record (hub_event "task.artifact" source unset none now) { artifact = some u.artifact },
)

-- part.Kind == PartFile && ObjectID == "" && (BytesBase64 != "" || URI != "")
unfoldable pub is_inline_file : PartKind → Part → Bool
is_inline_file file p = p.object_id == "" && (not (p.bytes_base64 == "") || not (p.uri == ""))
is_inline_file text p = false
is_inline_file structured p = false

unfoldable pub stored_part : Part → ArtifactObject → Part
stored_part p o = record p {
  bytes_base64 = "";
  uri = "";
  object_id = o.id;
  size_bytes = o.size_bytes;
  sha256 = o.sha256;
  media_type = o.detected_media_type;
}

-- The body of the loop over the Parts of an Artifact.
unfoldable pub externalize_part :
    Service → Task → String → String → ℕ → Part → JournalStore → Result Part × JournalStore
unfolding is_inline_file stored_part and_then
externalize_part svc t artifact_id key index p s =
    if not (is_inline_file p.kind p) then (ok p, s) else elim svc.artifacts [
      | none ↦ (err (invalid "artifact object storage is not configured"), s)
      | some a ↦ and_then (a.ingest t artifact_id key index p s) λ o s'. (ok (stored_part p o), s')
    ]

unfoldable pub externalize_parts :
    Service
    → Task
    → String
    → String
    → ℕ
    → List Part
    → JournalStore
    → Result (List Part) × JournalStore
unfolding externalize_part
externalize_parts svc t artifact_id key index [] s = (ok [], s)
externalize_parts svc t artifact_id key index (p ∷ ps) s =
    and_then (externalize_part svc t artifact_id key index p s) λ q s'.
      and_then (externalize_parts svc t artifact_id key (suc index) ps s')
        λ qs s''. (ok (q ∷ qs), s'')

-- The loop over the Artifact updates, whose content is stored before any of them is applied. The
-- deduplication key carries the index of the update.
unfoldable pub externalize_updates :
    Service
    → Task
    → String
    → ℕ
    → List ArtifactUpdate
    → JournalStore
    → Result (List ArtifactUpdate) × JournalStore
unfolding externalize_parts
externalize_updates svc t key index [] s = (ok [], s)
externalize_updates svc t key index (u ∷ us) s =
    and_then
      (externalize_parts svc t u.artifact.id (text_append key (text_append ":" (decimal index))) 0
        u.artifact.parts s)
      λ ps s'.
        and_then (externalize_updates svc t key (suc index) us s')
          λ vs s''. (ok (record u { artifact = record (u.artifact) { parts = ps } } ∷ vs), s'')

-- if observation.State == "" { observation.State = TaskStateUnknown }
unfoldable pub with_state : Observation → Observation
with_state o = if same_state o.state unset then record o { state = unknown } else o

unfoldable pub base_key : Service → Observation → String
base_key svc o =
    if o.dedup_key == "" then text_append "observation:" (svc.digest_observation o) else o.dedup_key

unfoldable pub is_some {ℓ} : {A : Type ℓ} → Option A → Bool
is_some none = false
is_some (some a) = true

unfoldable pub has_status : Observation → Bool
unfolding is_some
has_status o =
    not (same_state o.state unknown)
    || not (o.remote_task_id == "")
    || is_some o.problem
    || o.cancel_requested

unfoldable pub apply_status :
    Draws → String → Observation → Task → JournalStore → Result Task × JournalStore
unfolding has_status status_update update_task
apply_status d key o t s =
    if has_status o
    then update_task (d.id 0) t.tenant_id t.id (text_append key ":status")
        (status_update (d.time 0) o) s
    else (ok t, s)

-- fmt.Sprintf("%s:artifact:%s:%d", baseKey, update.Artifact.ID, i)
unfoldable pub artifact_key : String → String → ℕ → String
artifact_key key id index =
    text_append key (text_append ":artifact:" (text_append id (text_append ":" (decimal index))))

unfoldable pub apply_artifacts :
    Draws
    → String
    → String
    → ℕ
    → List ArtifactUpdate
    → Task
    → JournalStore
    → Result Task × JournalStore
unfolding artifact_key artifact_update update_task and_then
apply_artifacts d key source index [] t s = (ok t, s)
apply_artifacts d key source index (u ∷ us) t s =
    and_then
      (update_task (d.id (suc index)) t.tenant_id t.id (artifact_key key u.artifact.id index)
        (artifact_update (d.time (suc index)) source u) s)
      λ t' s'. apply_artifacts d key source (suc index) us t' s'

unfoldable pub apply_normalized :
    Service → Draws → Task → Observation → JournalStore → Result Task × JournalStore
unfolding externalize_updates base_key apply_status apply_artifacts and_then
apply_normalized svc d t o s =
    and_then (externalize_updates svc t (base_key svc o) 0 o.artifacts s) λ us s1.
      and_then (apply_status d (base_key svc o) o t s1)
        λ t' s2. apply_artifacts d (base_key svc o) o.source 0 us t' s2

-- applyObservation
unfoldable pub apply_observation :
    Service → Draws → Task → Observation → JournalStore → Result Task × JournalStore
unfolding with_state apply_normalized
apply_observation svc d t o s = apply_normalized svc d t (with_state o) s

-- problemFromError
unfoldable pub problem_from_error : Error → Problem
problem_from_error (remote p) = p
problem_from_error _ = record {
  category = "internal";
  code = "FEDERATION_ERROR";
  message = "federation operation failed";
  retryable = false;
  is_ambiguous = false;
}

unfoldable pub problem_update : Time → String → Problem → Mutation
problem_update now kind p t =
    ok (record t { problem = some p; updated_at = now }, hub_event kind "hub" unset (some p) now)

-- recordProblem
unfoldable pub record_problem :
    String → Time → Task → String → Problem → JournalStore → Result Task × JournalStore
unfolding problem_update update_task
record_problem id now t kind p s = update_task id t.tenant_id t.id "" (problem_update now kind p) s
