-- ===== src/Hub/Tasks.antt =====
-- The Hub's operations on Tasks (internal/hub/service.go): SubmitTask, ContinueTask, CancelTask,
-- ReconcileTask, Recover. Of a call that fails, the error alone is kept, and not the Task beside it.
use agent_federation_hub.Base.{
  String, Bool, true, false, ◌&&◌, ◌||◌, not, List, [], ◌∷◌, Option, none, some, ◌==◌,
  if◌then◌else◌,
}
use agent_federation_hub.Model.{
  Time, unset, input_required, auth_required, is_terminal, same_state, Part, Agent, Task,
}
use agent_federation_hub.Store.State.{Error, rejected, Result, ok, err, JournalStore}
use agent_federation_hub.Store.Journal.{and_then}
use agent_federation_hub.Store.Tasks.{Mutation, get_task, list_recoverable}
use agent_federation_hub.Store.Control.{get_agent}
use agent_federation_hub.Federation.{Message}
use agent_federation_hub.Hub.Service.{Service, Draws, Reply, observed, broke, Remote}
use agent_federation_hub.Hub.Parts.{
  normalize_message_parts, materialize_message_parts, first_text_part,
}
use agent_federation_hub.Hub.Observations.{
  hub_event, update_task, apply_observation, problem_from_error, record_problem,
}

-- What is left of a stream that was read until it ended or broke: the Task, and the error.
abbrev pub Read : Type 0
Read = Task × Option Error

-- for observation, err := range stream { ... }
unfoldable pub read_stream : Service → List Reply → Task → JournalStore → Result Read × JournalStore
unfolding apply_observation and_then
read_stream svc [] t s = (ok (t, none), s)
read_stream svc (broke e ∷ rs) t s = (ok (t, some e), s)
read_stream svc (observed d o ∷ rs) t s =
    and_then (apply_observation svc d t o s) λ t' s'. read_stream svc rs t' s'

-- An answer that is a single observation.
unfoldable pub read_reply : Service → Reply → Task → JournalStore → Result Task × JournalStore
unfolding apply_observation
read_reply svc (broke e) t s = (err e, s)
read_reply svc (observed d o) t s = apply_observation svc d t o s

-- The loop over the subscription, which ends when the Task is terminal.
unfoldable pub follow : Service → List Reply → Task → JournalStore → Result Task × JournalStore
unfolding apply_observation and_then
follow svc [] t s = (ok t, s)
follow svc (broke e ∷ rs) t s = (err e, s)
follow svc (observed d o ∷ rs) t s =
    and_then (apply_observation svc d t o s) λ t' s'.
      let later = follow svc rs t' s' in if is_terminal t'.state then (ok t', s') else later

unfoldable pub refresh :
    Service → Remote → Bool → Agent → Task → JournalStore → Result Task × JournalStore
unfolding read_reply follow and_then
refresh svc remote subscribes a t s =
    and_then (read_reply svc (remote.get a t.remote_task_id) t s) λ t' s'.
      if is_terminal t'.state || not subscribes || not a.streaming
      then (ok t', s')
      else follow svc (remote.subscribe a t'.remote_task_id) t' s'

unfoldable pub reconcile_known :
    Service → Remote → Bool → String → Result Task → JournalStore → Result Task × JournalStore
unfolding refresh get_agent
reconcile_known svc remote subscribes tenant (err e) s = (err e, s)
reconcile_known svc remote subscribes tenant (ok t) s =
    if t.remote_task_id == ""
    then (
      err (rejected "ambiguous task has no remote task ID and cannot be automatically reconciled"),
      s,
    )
    else elim (get_agent tenant t.agent_id s) [
      | err e ↦ (err e, s)
      | ok a ↦ refresh svc remote subscribes a t s
    ]

-- ReconcileTask
unfoldable pub reconcile_task :
    Service → Remote → Bool → String → String → JournalStore → Result Task × JournalStore
unfolding reconcile_known get_task
reconcile_task svc remote subscribes tenant task_id s =
    reconcile_known svc remote subscribes tenant (get_task tenant task_id s) s

-- The loop of Recover: the identifiers of the Tasks that failed, and the store. Each Task has its own
-- answers of the adapter.
unfoldable pub recover_each :
    Service → (Task → Remote) → Bool → List Task → JournalStore → List String × JournalStore
unfolding reconcile_task
recover_each svc remote subscribes [] s = ([], s)
recover_each svc remote subscribes (t ∷ ts) s =
    let (r, s') = reconcile_task svc (remote t) subscribes t.tenant_id t.id s in
    let (failed, s'') = recover_each svc remote subscribes ts s' in
    (elim r [ ok _ ↦ failed | err _ ↦ t.id ∷ failed ], s'')

unfoldable pub recover :
    Service → (Task → Remote) → Bool → JournalStore → List String × JournalStore
unfolding recover_each list_recoverable
recover svc remote subscribes s = recover_each svc remote subscribes (list_recoverable s) s

-- CancelTask
unfoldable pub cancel_update : Time → Mutation
cancel_update now t = ok (
  record t { cancel_requested = true; updated_at = now },
  hub_event "task.cancel_requested" "hub" unset none now,
)

unfoldable pub send_cancel :
    Service → Draws → Reply → Task → JournalStore → Result Task × JournalStore
unfolding record_problem problem_from_error and_then read_reply
send_cancel svc d (observed o_draws o) t s = read_reply svc (observed o_draws o) t s
send_cancel svc d (broke e) t s =
    and_then
      (record_problem (d.id 1) (d.time 1) t "task.cancel_unconfirmed" (problem_from_error e) s)
      λ t' s'. (err e, s')

unfoldable pub cancel_task :
    Service → Draws → Remote → String → String → JournalStore → Result Task × JournalStore
unfolding cancel_update update_task send_cancel and_then get_agent
cancel_task svc d remote tenant task_id s =
    and_then (update_task (d.id 0) tenant task_id "" (cancel_update (d.time 0)) s) λ t s'.
      if t.remote_task_id == ""
      then (err (rejected "task has no acknowledged remote task ID"), s')
      else elim (get_agent tenant t.agent_id s') [
        | err e ↦ (err e, s')
        | ok a ↦ send_cancel svc d (remote.cancel a t.remote_task_id) t s'
      ]

-- The message of ContinueTask.
unfoldable pub continuation : String → List Part → List Part → Task → Message
unfolding first_text_part
continuation id parts materialized t = record {
  id = id;
  body = first_text_part parts;
  parts = materialized;
  remote_task_id = t.remote_task_id;
  remote_context_id = t.remote_context_id;
  return_immediately = true;
  push = none;
  extensions = t.requested_extensions;
  metadata = t.extension_metadata;
}

unfoldable pub ended : Bool → Read → JournalStore → Result Task × JournalStore
ended seen (t, some e) s = (err e, s)
ended seen (t, none) s =
    if seen then (ok t, s) else (err (rejected "remote Agent returned no continuation result"), s)

abbrev pub is_nonempty {ℓ} : {A : Type ℓ} → List A → Bool
is_nonempty [] = false
is_nonempty (x ∷ xs) = true

unfoldable pub send_continuation :
    Service → List Reply → Task → JournalStore → Result Task × JournalStore
unfolding read_stream ended and_then
send_continuation svc rs t s = and_then (read_stream svc rs t s) λ r s'. ended (is_nonempty rs) r s'

unfoldable pub continue_known :
    Service
    → Draws
    → Remote
    → String
    → List Part
    → Result Task
    → JournalStore
    → Result Task × JournalStore
unfolding send_continuation continuation materialize_message_parts get_agent
continue_known svc d remote tenant parts (err e) s = (err e, s)
continue_known svc d remote tenant parts (ok t) s =
    if t.remote_task_id == "" || t.remote_context_id == ""
    then (err (rejected "task has no remote Task and Context IDs"), s)
    else if not (same_state t.state input_required) && not (same_state t.state auth_required)
    then (err (rejected "task continuation requires INPUT_REQUIRED or AUTH_REQUIRED state"), s)
    else elim (get_agent tenant t.agent_id s) [
      | err e ↦ (err e, s)
      | ok a ↦ elim (materialize_message_parts svc.artifacts tenant parts) [
        | err e ↦ (err e, s)
        | ok ps ↦ send_continuation svc (remote.send a (continuation (d.id 0) parts ps t)) t s
      ]
    ]

unfoldable pub continue_task :
    Service
    → Draws
    → Remote
    → String
    → String
    → String
    → List Part
    → JournalStore
    → Result Task × JournalStore
unfolding continue_known normalize_message_parts get_task
continue_task svc d remote tenant task_id body values s =
    elim (normalize_message_parts svc.formats body values) [
      | err e ↦ (err e, s)
      | ok parts ↦ continue_known svc d remote tenant parts (get_task tenant task_id s) s
    ]
