-- ===== src/Hub/Forward/Submit.antt =====
-- SubmitTask, AcceptPush and ApplyInboxItem (internal/hub/service.go) move Tasks only forward.
use agent_federation_hub.Base.{
  String, refl, true, not, ◌||◌, Option, none, some, ◌==◌, if◌then◌else◌, arith,
}
use agent_federation_hub.Model.{Task}
use agent_federation_hub.Model.Queue.{InboxItem}
use agent_federation_hub.Store.State.{Error, rejected, Result, ok, err, Maps, JournalStore}
use agent_federation_hub.Store.Journal.{and_then, apply_record, put_inbox}
use agent_federation_hub.Store.Claims.{After}
use agent_federation_hub.Store.Tasks.{get_task, create_task}
use agent_federation_hub.Store.Tasks.Progress.{
  Progress, Progress-same, Progress-trans, transact-After,
}
use agent_federation_hub.Store.Inbox.{enqueue_inbox, enqueue_inbox_plan, inbox_record}
use agent_federation_hub.Federation.{Observation, PushConfig}
use agent_federation_hub.Hub.Service.{Service, Draws, Remote}
use agent_federation_hub.Hub.Observations.{update_task, problem_from_error, hub_event}
use agent_federation_hub.Hub.Tasks.{Read, read_stream, reconcile_task}
use agent_federation_hub.Hub.Submission.{
  SubmitTaskInput, Request, submit_task, check_request, with_push, new_task, create_and_deliver,
  deliver, settle_delivery, repeated, is_conflict, started_update, unsent_update,
  disconnected_update, submission_message,
}
use agent_federation_hub.Hub.Push.{
  accept_push, accept_known, queue_push, push_item, apply_inbox_item, apply_pushed, is_mismatch,
  pushed,
}
use agent_federation_hub.Hub.Forward.{
  KeepsTasks, and_then-keep, if-keep, update_task-Progress, create-Progress,
  apply_observation-Progress, started_update-Advances, unsent_update-Advances,
  disconnected_update-Advances,
}
use agent_federation_hub.Hub.Forward.Calls.{
  read_stream-Progress, found-Progress, reconcile_task-Progress,
}

enqueue_plan-Progress :
    (m n : Maps) (i : InboxItem) → Progress m n → After (Progress m) (enqueue_inbox_plan i n) n
unfolding enqueue_inbox_plan apply_record put_inbox
enqueue_plan-Progress m n i h =
    let same =
      Progress-trans m n (apply_record (inbox_record i) n) h
        (Progress-same n (apply_record (inbox_record i) n) h.filed refl) in
    ground (arith, same)

module _ (m : Maps) where
  enqueue_inbox-Progress :
      (i : InboxItem) (s : JournalStore) → Progress m s.maps → Progress m (enqueue_inbox i s).1.maps
  unfolding enqueue_inbox
  enqueue_inbox-Progress i s h =
      transact-After (Progress m) (enqueue_inbox_plan i) s h (enqueue_plan-Progress m s.maps i h)

  module _ (svc : Service) (keeps : KeepsTasks svc) where
    -- The answer of the last reconciliation decides which store is left, and both are later.
    reconciled-Progress :
        (r : Result Task × JournalStore) (f : JournalStore → Result Task × JournalStore)
        → Progress m r.1.maps
        → ((s : JournalStore) → Progress m s.maps → Progress m (f s).1.maps)
        → Progress m
            (let x : Result Task × JournalStore = elim r.0 [ ok t ↦ (ok t, r.1) | err e ↦ f r.1 ] in
              x).1.maps
    reconciled-Progress (ok t, s) f h k = h
    reconciled-Progress (err e, s) f h k = k s h

    settle_delivery-Progress :
        (d : Draws) (r : Remote) (tenant : String) (x : Read) (s : JournalStore)
        → Progress m s.maps
        → Progress m (settle_delivery svc d r tenant x s).1.maps
    unfolding settle_delivery
    settle_delivery-Progress d r tenant (t, none) s h = h
    settle_delivery-Progress d r tenant (t, some e) s h =
        let p = problem_from_error e in
        let unsent = unsent_update (d.time 2) p in
        let cut = disconnected_update (d.time 2) p in
        if-keep (Progress m) (t.remote_task_id == "") _ _
          (and_then-keep (Progress m) (update_task (d.id 4) tenant t.id "" unsent s)
            (λ t' s'. (if p.is_ambiguous then ok t' else err e, s'))
            (update_task-Progress m (d.id 4) tenant t.id "" unsent s
              (unsent_update-Advances (d.time 2) p) h)
            λ t' s' k. k)
          (reconciled-Progress (reconcile_task svc r true tenant t.id s)
            (λ s'. update_task (d.id 4) tenant t.id "" cut s')
            (reconcile_task-Progress m svc keeps r true tenant t.id s h)
            λ s' k.
              update_task-Progress m (d.id 4) tenant t.id "" cut s'
                (disconnected_update-Advances (d.time 2) p) k)

    pub deliver-Progress :
        (d : Draws) (r : Remote) (tenant : String) (q : Request) (push : Option PushConfig)
        (t : Task) (s : JournalStore)
        → Progress m s.maps
        → Progress m (deliver svc d r tenant q push t s).1.maps
    unfolding deliver
    deliver-Progress d r tenant q push t s h =
        let begun = started_update (d.time 1) in
        and_then-keep (Progress m) (update_task (d.id 3) tenant t.id "" begun s)
          (λ t1 s1.
            and_then (read_stream svc (r.send q.agent (submission_message t1 q push)) t1 s1)
              λ x s2. settle_delivery svc d r tenant x s2)
          (update_task-Progress m (d.id 3) tenant t.id "" begun s
            (started_update-Advances (d.time 1)) h)
          λ t1 s1 k.
            and_then-keep (Progress m)
              (read_stream svc (r.send q.agent (submission_message t1 q push)) t1 s1)
              (λ x s2. settle_delivery svc d r tenant x s2)
              (read_stream-Progress m svc keeps (r.send q.agent (submission_message t1 q push)) t1
                s1 k)
              λ x s2 l. settle_delivery-Progress d r tenant x s2 l

    created-Progress :
        (c : Result Task × JournalStore) (f : Task → JournalStore → Result Task × JournalStore)
        (g : Error → JournalStore → Result Task)
        → Progress m c.1.maps
        → ((t : Task) (s : JournalStore) → Progress m s.maps → Progress m (f t s).1.maps)
        → Progress m
            (let x : Result Task × JournalStore = elim c.0 [
              | ok t ↦ f t c.1
              | err e ↦ (g e c.1, c.1)
            ] in
              x).1.maps
    created-Progress (ok t, s) f g h k = k t s h
    created-Progress (err e, s) f g h k = h

    create_and_deliver-Progress :
        (d : Draws) (r : Remote) (tenant : String) (q : Request) (x : Task × Option PushConfig)
        (s : JournalStore)
        → Progress m s.maps
        → Progress m (create_and_deliver svc d r tenant q x s).1.maps
    unfolding create_and_deliver
    create_and_deliver-Progress d r tenant q (t, push) s h =
        let e = hub_event "task.submitted" "hub" t.state none (d.time 0) in
        created-Progress (create_task (d.id 2) t e s) (λ t' s'. deliver svc d r tenant q push t' s')
          (λ x s'. if is_conflict x then repeated x t (get_task tenant t.id s') else err x)
          (create-Progress m (d.id 2) t e s h) λ t' s' k. deliver-Progress d r tenant q push t' s' k

    pub submit_task-Progress :
        (d : Draws) (token : Result String) (r : Remote) (tenant : String) (i : SubmitTaskInput)
        (s : JournalStore)
        → Progress m s.maps
        → Progress m (submit_task svc d token r tenant i s).1.maps
    unfolding submit_task
    submit_task-Progress d token r tenant i s h =
        found-Progress m svc keeps (check_request svc tenant i s) _ s h λ q.
          found-Progress m svc keeps
            (with_push svc tenant i.enable_push q.agent token (new_task svc d tenant i q)) _ s h
            λ x. create_and_deliver-Progress d r tenant q x s h

    queue_push-Progress :
        (d : Draws) (tenant task_id : String) (o : Observation) (t : Task) (s : JournalStore)
        → Progress m s.maps
        → Progress m (queue_push svc d tenant task_id o t s).1.maps
    unfolding queue_push
    queue_push-Progress d tenant task_id o t s h = queued (svc.encode_observation o)
      where
        queued :
            (payload : Option String)
            → Progress m
                (let x : Result Task × JournalStore = elim payload [
                  | none ↦ (err (rejected "encode Push observation"), s)
                  | some p ↦
                      and_then
                        (enqueue_inbox (push_item svc d tenant task_id o p) s)
                        λ new s'. (ok t, s')
                ] in
                  x).1.maps
        queued none = h
        queued (some p) =
            let i = push_item svc d tenant task_id o p in
            and_then-keep (Progress m) (enqueue_inbox i s) (λ new s'. (ok t, s'))
              (enqueue_inbox-Progress i s h) λ b s' k. k

    pub accept_push-Progress :
        (d : Draws) (tenant task_id token : String) (o : Observation) (s : JournalStore)
        → Progress m s.maps
        → Progress m (accept_push svc d tenant task_id token o s).1.maps
    unfolding accept_push accept_known
    accept_push-Progress d tenant task_id token o s h = known (get_task tenant task_id s)
      where
        known :
            (r : Result Task) → Progress m (accept_known svc d tenant task_id token o r s).1.maps
        known (err e) = h
        known (ok t) =
            if-keep (Progress m)
              (t.push_token_hash == "" || not (t.push_token_hash == svc.digest token)) _ _ h
              (if-keep (Progress m) (is_mismatch t o) _ _ h
                (queue_push-Progress d tenant task_id (pushed o) t s h))

    apply_pushed-Progress :
        (d : Draws) (o : Observation) (r : Result Task) (s : JournalStore)
        → Progress m s.maps
        → Progress m (apply_pushed svc d o r s).1.maps
    unfolding apply_pushed
    apply_pushed-Progress d o (err e) s h = h
    apply_pushed-Progress d o (ok t) s h =
        if-keep (Progress m) (is_mismatch t o) _ _ h
          (apply_observation-Progress m svc keeps d t (pushed o) s h)

    pub apply_inbox_item-Progress :
        (d : Draws) (i : InboxItem) (s : JournalStore)
        → Progress m s.maps
        → Progress m (apply_inbox_item svc d i s).1.maps
    unfolding apply_inbox_item
    apply_inbox_item-Progress d i s h =
        if-keep (Progress m) (not (i.protocol == "a2a")) _ _ h
          (decoded (svc.decode_observation i.payload))
      where
        decoded :
            (r : Option Observation)
            → Progress m
                (let x : Result Task × JournalStore = elim r [
                  | none ↦ (err (rejected "decode queued Push observation"), s)
                  | some o ↦ apply_pushed svc d o (get_task i.tenant_id i.task_id s) s
                ] in
                  x).1.maps
        decoded none = h
        decoded (some o) = apply_pushed-Progress d o (get_task i.tenant_id i.task_id s) s h
