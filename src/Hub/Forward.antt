-- ===== src/Hub/Forward.antt =====
-- Whatever remote Agents answer, the Hub's operations on Tasks (internal/hub/service.go) move each Task
-- only forward.
pub mod Calls
pub mod Submit
use Prim.Native.String.{◌++◌ as text_append}
use agent_federation_hub.Base.{
  ℕ, suc, String, ◌≡◌, refl, sym, ap, subst, ◌∙◌, Bool, true, false, not, ◌&&◌, ◌||◌, List, [], ◌∷◌,
  Option, none, some, inl, inr, arith, ◌==◌, eq_iff, if◌then◌else◌, Bool-cases, Option-cases,
}
use agent_federation_hub.Model.{
  Time, TaskState, unset, unknown, submitted, working, input_required, auth_required, completed,
  failed, canceled, rejected, state_number, same_state, is_terminal, Problem, Part, Agent, Task,
  Event,
}
use agent_federation_hub.Store.State.{
  Error, invalid, remote, Result, ok, err, Applied, applied, duplicate, stale, Maps, JournalStore,
}
use agent_federation_hub.Store.Journal.{and_then}
use agent_federation_hub.Store.Tasks.{Mutation, apply_task, get_task, create_task}
use agent_federation_hub.Store.Tasks.Progress.{
  IsLater, Advances, Progress, Progress-trans, Progress-same, apply_task-Progress,
  create_task-Progress,
}
use agent_federation_hub.Federation.{ArtifactUpdate, Observation}
use agent_federation_hub.Hub.Service.{Service, Artifacts, Draws, Reply, observed, broke, Remote}
use agent_federation_hub.Hub.Observations.{
  task_of, update_task, should_apply_state, observed_state, or_old, status_update, merge_artifact,
  artifact_update, externalize_part, externalize_parts, externalize_updates, apply_status,
  apply_artifacts, apply_normalized, apply_observation, has_status, with_state, base_key,
  problem_update, record_problem, artifact_key, is_inline_file, stored_part,
}
use agent_federation_hub.Hub.Tasks.{cancel_update}
use agent_federation_hub.Hub.Submission.{started_update, unsent_update, disconnected_update}

same_state_sound : (a b : TaskState) → same_state a b ≡ true → a ≡ b
same_state_sound a b h = ground arith

-- The remote identifier of a Task that has one stays, unless the update is refused.
remote_kept :
    (old new : String)
    → (not (new == "") && not (old == "") && not (old == new)) ≡ false
    → (old == "") ≡ false
    → or_old new old ≡ old
unfolding or_old
remote_kept old new h ne = ground (arith, eq_iff old new)

state_kept :
    (t : Task) (o : Observation) → is_terminal t.state ≡ true → observed_state t o ≡ t.state
unfolding observed_state should_apply_state
state_kept t o h = ground (arith, same_state_sound t.state o.state)

cancel_kept : (a b : Bool) → a ≡ true → (a || b) ≡ true
cancel_kept a b h = rw h

abbrev Returned : Type 0
Returned = Result (Task × Event)

returned : (t t' : Task) (e e' : Event) → ◌≡◌ {A = Returned} (ok (t, e)) (ok (t', e')) → t ≡ t'
returned t t' e e' h = cc

passed :
    (b : Bool) (x : Error) (t t' : Task) (e e' : Event)
    → ◌≡◌ {A = Returned} (if b then err x else ok (t, e)) (ok (t', e'))
    → (b ≡ false) × (t ≡ t')
passed true x t t' e e' h = cc
passed false x t t' e e' h = (refl, returned t t' e e' h)

status_update-Advances : (now : Time) (o : Observation) → Advances (status_update now o)
unfolding status_update
status_update-Advances now o t t' e h =
    let p =
      passed
        (not (o.remote_task_id == "")
          && not (t.remote_task_id == "")
          && not (t.remote_task_id == o.remote_task_id))
        _ _ t' _ e h in
    subst (IsLater t) p.1 (
      refl,
      refl,
      refl,
      refl,
      refl,
      refl,
      state_kept t o,
      remote_kept t.remote_task_id o.remote_task_id p.0,
      cancel_kept t.cancel_requested o.cancel_requested,
    )

artifact_update-Advances :
    (now : Time) (source : String) (u : ArtifactUpdate) → Advances (artifact_update now source u)
unfolding artifact_update
artifact_update-Advances now source u t t' e h =
    subst (IsLater t) (returned _ t' _ e h)
      (refl, refl, refl, refl, refl, refl, λ z. refl, λ z. refl, λ z. z)

pub problem_update-Advances :
    (now : Time) (kind : String) (p : Problem) → Advances (problem_update now kind p)
unfolding problem_update
problem_update-Advances now kind p t t' e h =
    subst (IsLater t) (returned _ t' _ e h)
      (refl, refl, refl, refl, refl, refl, λ z. refl, λ z. refl, λ z. z)

pub cancel_update-Advances : (now : Time) → Advances (cancel_update now)
unfolding cancel_update
cancel_update-Advances now t t' e h =
    subst (IsLater t) (returned _ t' _ e h)
      (refl, refl, refl, refl, refl, refl, λ z. refl, λ z. refl, λ z. refl)

pub started_update-Advances : (now : Time) → Advances (started_update now)
unfolding started_update
started_update-Advances now t t' e h =
    subst (IsLater t) (returned _ t' _ e h)
      (refl, refl, refl, refl, refl, refl, λ z. refl, λ z. refl, λ z. z)

pub unsent_update-Advances : (now : Time) (p : Problem) → Advances (unsent_update now p)
unfolding unsent_update
unsent_update-Advances now p t t' e h =
    subst (IsLater t) (returned _ t' _ e h)
      (refl, refl, refl, refl, refl, refl, λ z. refl, λ z. refl, λ z. z)

pub disconnected_update-Advances : (now : Time) (p : Problem) → Advances (disconnected_update now p)
unfolding disconnected_update
disconnected_update-Advances now p t t' e h =
    subst (IsLater t) (returned _ t' _ e h)
      (refl, refl, refl, refl, refl, refl, λ z. refl, λ z. refl, λ z. z)

-- What the parts of the Hub that are not modelled leave alone: storing an Artifact's content changes no
-- Task.
pub record KeepsTasks (svc : Service) : Type 0 where
  pub kept :
      (a : Artifacts)
      → svc.artifacts ≡ some a
      → (t : Task) (id key : String) (index : ℕ) (p : Part) (s : JournalStore)
      → (a.ingest t id key index p s).1.maps.tasks ≡ s.maps.tasks

-- A predicate of the maps that the steps keep, a chain of steps keeps.
pub and_then-keep {ℓ κ μ} :
    {A : Type ℓ} {B : Type κ} (P : Maps → Type μ) (r : Result A × JournalStore)
    (f : A → JournalStore → Result B × JournalStore)
    → P r.1.maps
    → ((a : A) (t : JournalStore) → P t.maps → P (f a t).1.maps)
    → P (and_then r f).1.maps
unfolding and_then
and_then-keep P (ok a, t) f h k = k a t h
and_then-keep P (err e, t) f h k = h

pub if-keep {ℓ κ} :
    {A : Type ℓ} (P : Maps → Type κ) (b : Bool) (x y : A × JournalStore)
    → P x.1.maps
    → P y.1.maps
    → P (if b then x else y).1.maps
if-keep P true x y h k = h
if-keep P false x y h k = k

module _ (m : Maps) where
  task_of-Progress :
      (r : Result (Applied Task) × JournalStore)
      → Progress m r.1.maps
      → Progress m (task_of r).1.maps
  unfolding task_of
  task_of-Progress (ok (applied t), s) h = h
  task_of-Progress (ok (duplicate t), s) h = h
  task_of-Progress (ok (stale t), s) h = h
  task_of-Progress (err e, s) h = h

  pub update_task-Progress :
      (id tenant task_id dedup : String) (f : Mutation) (s : JournalStore)
      → Advances f
      → Progress m s.maps
      → Progress m (update_task id tenant task_id dedup f s).1.maps
  unfolding update_task
  update_task-Progress id tenant task_id dedup f s a h =
      task_of-Progress (apply_task id tenant task_id dedup f s)
        (Progress-trans m s.maps _ h (apply_task-Progress id tenant task_id dedup f s a h.filed))

  pub create-Progress :
      (id : String) (t : Task) (e : Event) (s : JournalStore)
      → Progress m s.maps
      → Progress m (create_task id t e s).1.maps
  create-Progress id t e s h = Progress-trans m s.maps _ h (create_task-Progress id t e s h.filed)

  module _ (svc : Service) (keeps : KeepsTasks svc) where
    externalize_part-Progress :
        (t : Task) (id key : String) (index : ℕ) (p : Part) (s : JournalStore)
        → Progress m s.maps
        → Progress m (externalize_part svc t id key index p s).1.maps
    unfolding externalize_part
    externalize_part-Progress t id key index p s h =
        if-keep (Progress m) (not (is_inline_file p.kind p)) _ _ h (stored svc.artifacts refl)
      where
        stored :
            (a : Option Artifacts)
            → svc.artifacts ≡ a
            → Progress m
                (let r : Result Part × JournalStore = elim a [
                  | none ↦ (err (invalid "artifact object storage is not configured"), s)
                  | some x ↦
                      and_then (x.ingest t id key index p s) λ o s'. (ok (stored_part p o), s')
                ] in
                  r).1.maps
        stored none e = h
        stored (some a) e =
            and_then-keep (Progress m) (a.ingest t id key index p s) _
              (Progress-trans m s.maps _ h
                (Progress-same s.maps _ h.filed (keeps.kept a e t id key index p s)))
              λ o s' k. k

    externalize_parts-Progress :
        (t : Task) (id key : String) (index : ℕ) (ps : List Part) (s : JournalStore)
        → Progress m s.maps
        → Progress m (externalize_parts svc t id key index ps s).1.maps
    unfolding externalize_parts
    externalize_parts-Progress t id key index [] s h = h
    externalize_parts-Progress t id key index (p ∷ ps) s h =
        and_then-keep (Progress m) (externalize_part svc t id key index p s) _
          (externalize_part-Progress t id key index p s h)
          λ q s' k.
            and_then-keep (Progress m) (externalize_parts svc t id key (suc index) ps s') _
              (externalize_parts-Progress t id key (suc index) ps s' k) λ qs s'' l. l

    externalize_updates-Progress :
        (t : Task) (key : String) (index : ℕ) (us : List ArtifactUpdate) (s : JournalStore)
        → Progress m s.maps
        → Progress m (externalize_updates svc t key index us s).1.maps
    unfolding externalize_updates
    externalize_updates-Progress t key index [] s h = h
    externalize_updates-Progress t key index (u ∷ us) s h =
        and_then-keep (Progress m) (externalize_parts svc t u.artifact.id _ 0 u.artifact.parts s) _
          (externalize_parts-Progress t u.artifact.id _ 0 u.artifact.parts s h)
          λ q s' k.
            and_then-keep (Progress m) (externalize_updates svc t key (suc index) us s') _
              (externalize_updates-Progress t key (suc index) us s' k) λ qs s'' l. l

    apply_status-Progress :
        (d : Draws) (key : String) (o : Observation) (t : Task) (s : JournalStore)
        → Progress m s.maps
        → Progress m (apply_status d key o t s).1.maps
    unfolding apply_status
    apply_status-Progress d key o t s h =
        if-keep (Progress m) (has_status o) _ _
          (update_task-Progress (d.id 0) t.tenant_id t.id (text_append key ":status")
            (status_update (d.time 0) o) s (status_update-Advances (d.time 0) o) h)
          h

    apply_artifacts-Progress :
        (d : Draws) (key source : String) (index : ℕ) (us : List ArtifactUpdate) (t : Task)
        (s : JournalStore)
        → Progress m s.maps
        → Progress m (apply_artifacts d key source index us t s).1.maps
    unfolding apply_artifacts
    apply_artifacts-Progress d key source index [] t s h = h
    apply_artifacts-Progress d key source index (u ∷ us) t s h =
        let change = artifact_update (d.time (suc index)) source u in
        let dedup = artifact_key key u.artifact.id index in
        and_then-keep (Progress m) (update_task (d.id (suc index)) t.tenant_id t.id dedup change s)
          (λ t' s'. apply_artifacts d key source (suc index) us t' s')
          (update_task-Progress (d.id (suc index)) t.tenant_id t.id dedup change s
            (artifact_update-Advances (d.time (suc index)) source u) h)
          λ t' s' k. apply_artifacts-Progress d key source (suc index) us t' s' k

    normalized-Progress :
        (d : Draws) (t : Task) (o : Observation) (s : JournalStore)
        → Progress m s.maps
        → Progress m (apply_normalized svc d t o s).1.maps
    unfolding apply_normalized
    normalized-Progress d t o s h =
        and_then-keep (Progress m) (externalize_updates svc t (base_key svc o) 0 o.artifacts s) _
          (externalize_updates-Progress t (base_key svc o) 0 o.artifacts s h)
          λ us s1 k.
            and_then-keep (Progress m) (apply_status d (base_key svc o) o t s1) _
              (apply_status-Progress d (base_key svc o) o t s1 k)
              λ t' s2 l. apply_artifacts-Progress d (base_key svc o) o.source 0 us t' s2 l

    pub apply_observation-Progress :
        (d : Draws) (t : Task) (o : Observation) (s : JournalStore)
        → Progress m s.maps
        → Progress m (apply_observation svc d t o s).1.maps
    unfolding apply_observation
    apply_observation-Progress d t o s h = normalized-Progress d t (with_state o) s h
