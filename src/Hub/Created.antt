-- ===== src/Hub/Created.antt =====
-- What a submission that succeeds (SubmitTask of internal/hub/service.go) leaves in the store, and what
-- it answers where its Task is there.
use agent_federation_hub.Base.{
  String, ◌≡◌, refl, ap, subst, ◌∙◌, Bool, true, false, Option, none, some, eq_iff, arith,
  if◌then◌else◌, inl, inr, Bool-cases,
}
use agent_federation_hub.Base.Dict.{lookup}
use agent_federation_hub.Model.{Agent, Task, Event}
use agent_federation_hub.Store.State.{Error, conflict, Result, ok, err, JournalStore}
use agent_federation_hub.Store.Journal.{resource_key}
use agent_federation_hub.Store.Once.{create_task-found}
use agent_federation_hub.Store.Tasks.{get_task, create_task, or_not_found}
use agent_federation_hub.Store.Tasks.Versions.{IsFiled}
use agent_federation_hub.Store.Tasks.Progress.{IsLater, Progress-refl}
use agent_federation_hub.Federation.{PushConfig}
use agent_federation_hub.Hub.Service.{Service, Draws, Remote}
use agent_federation_hub.Hub.Observations.{hub_event}
use agent_federation_hub.Hub.Forward.{KeepsTasks, create-Progress}
use agent_federation_hub.Hub.Forward.Submit.{deliver-Progress}
use agent_federation_hub.Hub.Submission.{
  SubmitTaskInput, Request, submit_task, check_request, with_push, new_task, create_and_deliver,
  repeated, is_repeated, is_conflict, deliver,
}

create_conflict :
    (id : String) (t old : Task) (e : Event) (s : JournalStore)
    → lookup (resource_key t.tenant_id t.id) s.maps.tasks ≡ some old
    → create_task id t e s ≡ (err conflict, s)
unfolding create_task
create_conflict id t old e s h = ground (arith, h)

pub get_known :
    (tenant id : String) (t : Task) (s : JournalStore)
    → lookup (resource_key tenant id) s.maps.tasks ≡ some t
    → get_task tenant id s ≡ ok t
unfolding get_task
get_known tenant id t s h = rw h

-- The end of a submission whose Task is there.
pub known_answer :
    (svc : Service) (d : Draws) (remote : Remote) (tenant : String) (r : Request) (t old : Task)
    (push : Option PushConfig) (s : JournalStore)
    → t.tenant_id ≡ tenant
    → lookup (resource_key tenant t.id) s.maps.tasks ≡ some old
    → create_and_deliver svc d remote tenant r (t, push) s
      ≡ (if is_repeated t old then ok old else err conflict, s)
unfolding repeated create_and_deliver
known_answer svc d remote tenant r t old push s own there =
    let e = hub_event "task.submitted" "hub" t.state none (d.time 0) in
    let refused = create_conflict (d.id 2) t old e s (rw own there) in
    rw (refused, create_and_deliver)
      (rw (ap (λ (x : Result Task × JournalStore). x.1) refused)
        (rw (get_known tenant t.id old s there) refl))

-- A Task with the content of a request.
abbrev pub IsFor : Task → Task → Type 0
IsFor proposed t =
    (t.idempotency_key ≡ proposed.idempotency_key)
    × (t.input_digest ≡ proposed.input_digest)
    × (t.agent_id ≡ proposed.agent_id)

-- The Task of a submission is filed, with the content of the request.
abbrev pub IsSubmitted : String → Task → JournalStore → Type 0
IsSubmitted tenant proposed s =
    (t : Task) × (lookup (resource_key tenant proposed.id) s.maps.tasks ≡ some t) × IsFor proposed t

is_repeated-IsFor : (proposed t : Task) → is_repeated proposed t ≡ true → IsFor proposed t
unfolding is_repeated
is_repeated-IsFor p t h = ground (
  arith,
  eq_iff t.idempotency_key p.idempotency_key,
  eq_iff t.input_digest p.input_digest,
  eq_iff t.agent_id p.agent_id,
)

pub with_push-fields :
    (svc : Service) (tenant : String) (enabled : Bool) (a : Agent) (token : Result String)
    (t p : Task) (push : Option PushConfig)
    → with_push svc tenant enabled a token t ≡ ok (p, push)
    → (p.id ≡ t.id) × (p.tenant_id ≡ t.tenant_id) × IsFor t p
unfolding with_push
with_push-fields svc tenant enabled a token t p push h = ground arith

found_option : (o : Option Task) (t : Task) → or_not_found o ≡ ok t → o ≡ some t
unfolding or_not_found
found_option none t h = cc
found_option (some u) t h = cc

pub found_task :
    (tenant id : String) (t : Task) (s : JournalStore)
    → get_task tenant id s ≡ ok t
    → lookup (resource_key tenant id) s.maps.tasks ≡ some t
unfolding get_task
found_task tenant id t s h = found_option (lookup (resource_key tenant id) s.maps.tasks) t h

repeated_ok :
    (e : Error) (p t : Task) (g : Result Task)
    → repeated e p g ≡ ok t
    → (g ≡ ok t) × (is_repeated p t ≡ true)
unfolding repeated
repeated_ok e p t (err x) h = cc
repeated_ok e p t (ok old) h = elim (Bool-cases (is_repeated p old)) [
  | inl y ↦
      let same : ok old ≡ ok t = rw (← h) (rw y refl) in
      let task : old ≡ t = cc in (same, rw (← task) y)
  | inr n ↦ let bad : err e ≡ ok t = rw (← h) (rw n refl) in cc
]

conflict_ok :
    (b : Bool) (e : Error) (p t : Task) (g : Result Task)
    → (if b then repeated e p g else err e) ≡ ok t
    → (g ≡ ok t) × (is_repeated p t ≡ true)
conflict_ok true e p t g h = repeated_ok e p t g h
conflict_ok false e p t g h = cc

-- The content stays under the calls of the Hub.
pub IsFor-later : (p t u : Task) → IsFor p t → IsLater t u → IsFor p u
IsFor-later p t u h l = (l.5 ∙ h.0, l.4 ∙ h.1, l.2 ∙ h.2)

module _ (svc : Service) (keeps : KeepsTasks svc) (d : Draws) (remote : Remote) (tenant : String)
    (r : Request) (p : Task) (push : Option PushConfig) (t : Task) (s s1 : JournalStore)
    (filed : IsFiled s.maps) (own : p.tenant_id ≡ tenant) where
  -- What becomes of a Task that was created while it is delivered.
  delivered-IsSubmitted :
      (t0 : Task) (s0 : JournalStore)
      → create_task (d.id 2) p (hub_event "task.submitted" "hub" p.state none (d.time 0)) s
        ≡ (ok t0, s0)
      → deliver svc d remote tenant r push t0 s0 ≡ (ok t, s1)
      → IsSubmitted tenant p s1
  delivered-IsSubmitted t0 s0 made h =
      let e = hub_event "task.submitted" "hub" p.state none (d.time 0) in
      let found = create_task-found (d.id 2) p t0 e s s0 made in
      let first = create-Progress s.maps (d.id 2) p e s (Progress-refl s.maps filed) in
      let left : (create_task (d.id 2) p e s).1 ≡ s0 = ap (λ x. x.1) made in
      let filed0 : IsFiled s0.maps = subst (λ x. IsFiled x.maps) left first.filed in
      let later =
        deliver-Progress s0.maps svc keeps d remote tenant r push t0 s0
          (Progress-refl s0.maps filed0) in
      let end : (deliver svc d remote tenant r push t0 s0).1 ≡ s1 = ap (λ x. x.1) h in
      let (u, there, l) = later.kept (resource_key tenant p.id) t0 (rw (← own) found.1) in
      (
        u,
        subst (λ x. lookup (resource_key tenant p.id) x.maps.tasks ≡ some u) end there,
        IsFor-later p t0 u (rw found.0 (refl, refl, refl)) l,
      )

  after_creation-IsSubmitted :
      (c : Result Task × JournalStore)
      → create_task (d.id 2) p (hub_event "task.submitted" "hub" p.state none (d.time 0)) s ≡ c
      → (let x : Result Task × JournalStore = elim c.0 [
        | ok t' ↦ deliver svc d remote tenant r push t' c.1
        | err e ↦ (if is_conflict e then repeated e p (get_task tenant p.id c.1) else err e, c.1)
      ] in
          x)
        ≡ (ok t, s1)
      → IsSubmitted tenant p s1
  after_creation-IsSubmitted (ok t0, s0) made h = delivered-IsSubmitted t0 s0 made h
  after_creation-IsSubmitted (err e, s0) made h =
      let old = conflict_ok (is_conflict e) e p t (get_task tenant p.id s0) (ap (λ x. x.0) h) in
      let same : s0 ≡ s1 = ap (λ x. x.1) h in
      (t, rw (← same) (found_task tenant p.id t s0 old.0), is_repeated-IsFor p t old.1)

  pub created-IsSubmitted :
      create_and_deliver svc d remote tenant r (p, push) s ≡ (ok t, s1) → IsSubmitted tenant p s1
  unfolding create_and_deliver
  created-IsSubmitted h = after_creation-IsSubmitted _ refl h

-- After a submission that passed the checks and succeeded, its Task is filed with its content.
pub submit_task-IsSubmitted :
    (svc : Service) (d : Draws) (token : Result String) (remote : Remote) (tenant : String)
    (i : SubmitTaskInput) (r : Request) (t : Task) (s s1 : JournalStore)
    → KeepsTasks svc
    → IsFiled s.maps
    → check_request svc tenant i s ≡ ok r
    → submit_task svc d token remote tenant i s ≡ (ok t, s1)
    → IsSubmitted tenant (new_task svc d tenant i r) s1
unfolding submit_task new_task
submit_task-IsSubmitted svc d token remote tenant i r t s s1 keeps filed checked h =
    go (with_push svc tenant i.enable_push r.agent token (new_task svc d tenant i r)) refl (
      subst
        (λ (c : Result Request).
          (let x : Result Task × JournalStore = elim c [
            | err e ↦ (err e, s)
            | ok q ↦
                elim (with_push svc tenant i.enable_push q.agent token
                  (new_task svc d tenant i q)) [
                    | err e ↦ (err e, s)
                    | ok y ↦ create_and_deliver svc d remote tenant q y s
                  ]
          ] in
            x)
          ≡ (ok t, s1))
        checked h)
  where
    go :
        (c : Result (Task × Option PushConfig))
        → with_push svc tenant i.enable_push r.agent token (new_task svc d tenant i r) ≡ c
        → (let x : Result Task × JournalStore = elim c [
          | err e ↦ (err e, s)
          | ok y ↦ create_and_deliver svc d remote tenant r y s
        ] in
            x)
          ≡ (ok t, s1)
        → IsSubmitted tenant (new_task svc d tenant i r) s1
    go (err e) same k = cc
    go (ok (p, push)) same k =
        let f =
          with_push-fields svc tenant i.enable_push r.agent token (new_task svc d tenant i r) p push
            same in
        let (u, there, content) =
          created-IsSubmitted svc keeps d remote tenant r p push t s s1 filed f.1 k in
        (u, rw (← f.0) there, (content.0 ∙ f.2.0, content.1 ∙ f.2.1, content.2 ∙ f.2.2))
