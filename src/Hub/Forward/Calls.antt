-- ===== src/Hub/Forward/Calls.antt =====
-- CancelTask, ContinueTask, ReconcileTask and Recover (internal/hub/service.go) move Tasks only forward.
use agent_federation_hub.Base.{
  String, Bool, not, ◌&&◌, ◌||◌, List, [], ◌∷◌, none, some, ◌==◌, if◌then◌else◌,
}
use agent_federation_hub.Model.{
  Part, Agent, Task, is_terminal, input_required, auth_required, same_state,
}
use agent_federation_hub.Store.State.{Result, ok, err, Maps, JournalStore}
use agent_federation_hub.Store.Tasks.{get_task}
use agent_federation_hub.Store.Tasks.Progress.{Progress}
use agent_federation_hub.Store.Control.{get_agent}
use agent_federation_hub.Hub.Service.{Service, Draws, Reply, observed, broke, Remote}
use agent_federation_hub.Hub.Observations.{
  update_task, apply_observation, record_problem, problem_from_error, problem_update,
}
use agent_federation_hub.Hub.Parts.{normalize_message_parts, materialize_message_parts}
use agent_federation_hub.Hub.Tasks.{
  Read, read_stream, read_reply, follow, refresh, reconcile_known, reconcile_task, recover_each,
  cancel_update, send_cancel, cancel_task, ended, is_nonempty, send_continuation, continuation,
  continue_known, continue_task,
}
use agent_federation_hub.Hub.Forward.{
  KeepsTasks, and_then-keep, if-keep, update_task-Progress, apply_observation-Progress,
  cancel_update-Advances, problem_update-Advances,
}

module _ (m : Maps) (svc : Service) (keeps : KeepsTasks svc) where
  pub read_stream-Progress :
      (rs : List Reply) (t : Task) (s : JournalStore)
      → Progress m s.maps
      → Progress m (read_stream svc rs t s).1.maps
  unfolding read_stream
  read_stream-Progress [] t s h = h
  read_stream-Progress (broke e ∷ rs) t s h = h
  read_stream-Progress (observed d o ∷ rs) t s h =
      and_then-keep (Progress m) (apply_observation svc d t o s) (λ t' s'. read_stream svc rs t' s')
        (apply_observation-Progress m svc keeps d t o s h)
        λ t' s' k. read_stream-Progress rs t' s' k

  read_reply-Progress :
      (r : Reply) (t : Task) (s : JournalStore)
      → Progress m s.maps
      → Progress m (read_reply svc r t s).1.maps
  unfolding read_reply
  read_reply-Progress (broke e) t s h = h
  read_reply-Progress (observed d o) t s h = apply_observation-Progress m svc keeps d t o s h

  follow-Progress :
      (rs : List Reply) (t : Task) (s : JournalStore)
      → Progress m s.maps
      → Progress m (follow svc rs t s).1.maps
  unfolding follow
  follow-Progress [] t s h = h
  follow-Progress (broke e ∷ rs) t s h = h
  follow-Progress (observed d o ∷ rs) t s h =
      and_then-keep (Progress m) (apply_observation svc d t o s)
        (λ t' s'. if is_terminal t'.state then (ok t', s') else follow svc rs t' s')
        (apply_observation-Progress m svc keeps d t o s h)
        λ t' s' k. if-keep (Progress m) (is_terminal t'.state) _ _ k (follow-Progress rs t' s' k)

  refresh-Progress :
      (r : Remote) (subscribes : Bool) (a : Agent) (t : Task) (s : JournalStore)
      → Progress m s.maps
      → Progress m (refresh svc r subscribes a t s).1.maps
  unfolding refresh
  refresh-Progress r subscribes a t s h =
      and_then-keep (Progress m) (read_reply svc (r.get a t.remote_task_id) t s)
        (λ t' s'.
          if is_terminal t'.state || not subscribes || not a.streaming
          then (ok t', s')
          else follow svc (r.subscribe a t'.remote_task_id) t' s')
        (read_reply-Progress (r.get a t.remote_task_id) t s h)
        λ t' s' k.
          if-keep (Progress m) (is_terminal t'.state || not subscribes || not a.streaming) _ _ k
            (follow-Progress (r.subscribe a t'.remote_task_id) t' s' k)

  -- What follows the reading of an Agent or of a Task.
  pub found-Progress {ℓ} :
      {A : Type ℓ} (r : Result A) (f : A → Result Task × JournalStore) (s : JournalStore)
      → Progress m s.maps
      → ((a : A) → Progress m (f a).1.maps)
      → Progress m
          (let x : Result Task × JournalStore = elim r [ err e ↦ (err e, s) | ok a ↦ f a ] in
            x).1.maps
  found-Progress (err e) f s h k = h
  found-Progress (ok a) f s h k = k a

  reconcile_known-Progress :
      (r : Remote) (subscribes : Bool) (tenant : String) (found : Result Task) (s : JournalStore)
      → Progress m s.maps
      → Progress m (reconcile_known svc r subscribes tenant found s).1.maps
  unfolding reconcile_known
  reconcile_known-Progress r subscribes tenant (err e) s h = h
  reconcile_known-Progress r subscribes tenant (ok t) s h =
      if-keep (Progress m) (t.remote_task_id == "") _ _ h (
        found-Progress (get_agent tenant t.agent_id s) (λ a. refresh svc r subscribes a t s) s h
          λ a. refresh-Progress r subscribes a t s h)

  pub reconcile_task-Progress :
      (r : Remote) (subscribes : Bool) (tenant task_id : String) (s : JournalStore)
      → Progress m s.maps
      → Progress m (reconcile_task svc r subscribes tenant task_id s).1.maps
  unfolding reconcile_task
  reconcile_task-Progress r subscribes tenant task_id s h =
      reconcile_known-Progress r subscribes tenant (get_task tenant task_id s) s h

  pub recover_each-Progress :
      (r : Task → Remote) (subscribes : Bool) (ts : List Task) (s : JournalStore)
      → Progress m s.maps
      → Progress m (recover_each svc r subscribes ts s).1.maps
  unfolding recover_each
  recover_each-Progress r subscribes [] s h = h
  recover_each-Progress r subscribes (t ∷ ts) s h =
      recover_each-Progress r subscribes ts
        (reconcile_task svc (r t) subscribes t.tenant_id t.id s).1
        (reconcile_task-Progress (r t) subscribes t.tenant_id t.id s h)

  send_cancel-Progress :
      (d : Draws) (r : Reply) (t : Task) (s : JournalStore)
      → Progress m s.maps
      → Progress m (send_cancel svc d r t s).1.maps
  unfolding send_cancel record_problem
  send_cancel-Progress d (observed x o) t s h = read_reply-Progress (observed x o) t s h
  send_cancel-Progress d (broke e) t s h =
      let change = problem_update (d.time 1) "task.cancel_unconfirmed" (problem_from_error e) in
      and_then-keep (Progress m) (update_task (d.id 1) t.tenant_id t.id "" change s)
        (λ t' s'. (err e, s'))
        (update_task-Progress m (d.id 1) t.tenant_id t.id "" change s
          (problem_update-Advances (d.time 1) "task.cancel_unconfirmed" (problem_from_error e)) h)
        λ t' s' k. k

  pub cancel_task-Progress :
      (d : Draws) (r : Remote) (tenant task_id : String) (s : JournalStore)
      → Progress m s.maps
      → Progress m (cancel_task svc d r tenant task_id s).1.maps
  unfolding cancel_task
  cancel_task-Progress d r tenant task_id s h =
      and_then-keep (Progress m)
        (update_task (d.id 0) tenant task_id "" (cancel_update (d.time 0)) s) _
        (update_task-Progress m (d.id 0) tenant task_id "" (cancel_update (d.time 0)) s
          (cancel_update-Advances (d.time 0)) h)
        λ t s' k. if-keep (Progress m) (t.remote_task_id == "") _ _ k (
          found-Progress (get_agent tenant t.agent_id s')
            (λ a. send_cancel svc d (r.cancel a t.remote_task_id) t s') s' k
            λ a. send_cancel-Progress d (r.cancel a t.remote_task_id) t s' k)

  ended-Progress :
      (seen : Bool) (r : Read) (s : JournalStore)
      → Progress m s.maps
      → Progress m (ended seen r s).1.maps
  unfolding ended
  ended-Progress seen (t, some e) s h = h
  ended-Progress seen (t, none) s h = if-keep (Progress m) seen _ _ h h

  send_continuation-Progress :
      (rs : List Reply) (t : Task) (s : JournalStore)
      → Progress m s.maps
      → Progress m (send_continuation svc rs t s).1.maps
  unfolding send_continuation
  send_continuation-Progress rs t s h =
      and_then-keep (Progress m) (read_stream svc rs t s) (λ r s'. ended (is_nonempty rs) r s')
        (read_stream-Progress rs t s h) λ r s' k. ended-Progress (is_nonempty rs) r s' k

  continue_known-Progress :
      (d : Draws) (r : Remote) (tenant : String) (parts : List Part) (found : Result Task)
      (s : JournalStore)
      → Progress m s.maps
      → Progress m (continue_known svc d r tenant parts found s).1.maps
  unfolding continue_known
  continue_known-Progress d r tenant parts (err e) s h = h
  continue_known-Progress d r tenant parts (ok t) s h =
      if-keep (Progress m) (t.remote_task_id == "" || t.remote_context_id == "") _ _ h (
        if-keep (Progress m)
          (not (same_state t.state input_required) && not (same_state t.state auth_required)) _ _ h
          (found-Progress (get_agent tenant t.agent_id s) _ s h λ a.
            found-Progress (materialize_message_parts svc.artifacts tenant parts) _ s h
              λ ps. send_continuation-Progress (r.send a (continuation (d.id 0) parts ps t)) t s h))

  pub continue_task-Progress :
      (d : Draws) (r : Remote) (tenant task_id body : String) (values : List Part)
      (s : JournalStore)
      → Progress m s.maps
      → Progress m (continue_task svc d r tenant task_id body values s).1.maps
  unfolding continue_task
  continue_task-Progress d r tenant task_id body values s h =
      found-Progress (normalize_message_parts svc.formats body values) _ s h
        λ parts. continue_known-Progress d r tenant parts (get_task tenant task_id s) s h
