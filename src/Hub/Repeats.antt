-- ===== src/Hub/Repeats.antt =====
-- A submission that is repeated (SubmitTask of internal/hub/service.go).
use agent_federation_hub.Base.{
  String, ◌≡◌, refl, ◌∙◌, false, List, Option, some, ◌==◌, eq_refl, ap, subst, arith, if◌then◌else◌,
}
use agent_federation_hub.Base.Dict.{lookup}
use agent_federation_hub.Model.{Task}
use agent_federation_hub.Store.State.{conflict, Result, ok, err, JournalStore}
use agent_federation_hub.Store.Journal.{resource_key}
use agent_federation_hub.Store.Tasks.Versions.{IsFiled}
use agent_federation_hub.Federation.{PushConfig}
use agent_federation_hub.Hub.Service.{Service, Draws, Remote}
use agent_federation_hub.Hub.Forward.{KeepsTasks}
use agent_federation_hub.Hub.Lifecycle.{Call, calls, calls-IsLater}
use agent_federation_hub.Hub.Forward.Submit.{submit_task-Progress}
use agent_federation_hub.Store.Tasks.Progress.{Progress-refl}
use agent_federation_hub.Hub.Created.{
  IsFor, with_push-fields, known_answer, submit_task-IsSubmitted, IsFor-later,
}
use agent_federation_hub.Hub.Submission.{
  SubmitTaskInput, Request, submit_task, check_request, with_push, new_task, is_repeated,
  submission_id,
}

-- The identifier of a Task with a nonempty key is the same for each submission.
same_id :
    (svc : Service) (d d' : Draws) (tenant : String) (r r' : Request)
    → (r.key == "") ≡ false
    → r'.key ≡ r.key
    → r'.agent.id ≡ r.agent.id
    → submission_id svc d' tenant r' ≡ submission_id svc d tenant r
unfolding submission_id
same_id svc d d' tenant r r' named key agent = rw (key, agent, named) refl

-- A later Task repeats the first one if the contents are the same.
repeat_test :
    (first second old : Task)
    → (second.idempotency_key == "") ≡ false
    → second.idempotency_key ≡ first.idempotency_key
    → second.agent_id ≡ first.agent_id
    → IsFor first old
    → is_repeated second old ≡ (first.input_digest == second.input_digest)
unfolding is_repeated
repeat_test first second old named key agent kept =
    rw
      (
        named,
        kept.0,
        kept.1,
        kept.2,
        key,
        agent,
        eq_refl first.idempotency_key,
        eq_refl first.agent_id,
      )
      (ground arith)

-- Where storing an Artifact's content changes no Task, and in a store that files each Task under
-- its own key: after a submission with a nonempty idempotency key passed the checks and
-- succeeded, and after any further calls of the Hub, the Task of that submission is there. A
-- second submission that passes the checks, gets a token if it asks for pushes, and has the same
-- key and the same Agent, whatever identifiers, times and answers of the Agent, changes nothing:
-- it answers with the Task as it is stored then, if the digests of the two contents are equal,
-- and with a conflict otherwise.
pub resubmission :
    (svc : Service) (d d' : Draws) (token token' : Result String) (remote remote' : Remote)
    (tenant : String) (i i' : SubmitTaskInput) (r r' : Request) (t proposed : Task)
    (push : Option PushConfig) (cs : List Call) (s s1 : JournalStore)
    → KeepsTasks svc
    → IsFiled s.maps
    → check_request svc tenant i s ≡ ok r
    → (r.key == "") ≡ false
    → submit_task svc d token remote tenant i s ≡ (ok t, s1)
    → check_request svc tenant i' (calls svc cs s1) ≡ ok r'
    → r'.key ≡ r.key
    → r'.agent.id ≡ r.agent.id
    → with_push svc tenant i'.enable_push r'.agent token' (new_task svc d' tenant i' r')
      ≡ ok (proposed, push)
    → (old : Task) × (lookup
          (resource_key tenant (submission_id svc d tenant r))
          (calls svc cs s1).maps.tasks
        ≡ some old)
      × (submit_task svc d' token' remote' tenant i' (calls svc cs s1) ≡ (
        if svc.digest_input r.parts r.extensions r.metadata
              == svc.digest_input r'.parts r'.extensions r'.metadata
            then ok old
            else err conflict,
        calls svc cs s1,
      ))
unfolding submit_task new_task
resubmission svc d d' token token' remote remote' tenant i i' r r' t proposed push cs s s1 keeps
      filed checked named done checked' key agent pushes =
    let p1 = new_task svc d tenant i r in
    let (u, there, content) =
      submit_task-IsSubmitted svc d token remote tenant i r t s s1 keeps filed checked done in
    let left : (submit_task svc d token remote tenant i s).1 ≡ s1 = ap (λ x. x.1) done in
    let filed1 : IsFiled s1.maps =
      subst (λ x. IsFiled x.maps) left
        (submit_task-Progress s.maps svc keeps d token remote tenant i s
          (Progress-refl s.maps filed)).filed in
    let (old, still, later) =
      calls-IsLater svc cs s1 (resource_key tenant p1.id) u keeps filed1 there in
    let kept : IsFor p1 old = IsFor-later p1 u old content later in
    let f =
      with_push-fields svc tenant i'.enable_push r'.agent token' (new_task svc d' tenant i' r')
        proposed push pushes in
    let id : proposed.id ≡ p1.id = f.0 ∙ same_id svc d d' tenant r r' named key agent in
    let answer =
      known_answer svc d' remote' tenant r' proposed old push (calls svc cs s1) f.1 (rw id still) in
    let digest : proposed.input_digest ≡ svc.digest_input r'.parts r'.extensions r'.metadata =
      f.2.1 in
    let test : is_repeated proposed old ≡ (
        svc.digest_input r.parts r.extensions r.metadata
        == svc.digest_input r'.parts r'.extensions r'.metadata) =
      repeat_test p1 proposed old (rw (f.2.0, key) named) (f.2.0 ∙ key) (f.2.2 ∙ agent) kept
      ∙ rw digest refl in
    (old, still, rw (checked', submit_task) (rw pushes (rw answer (rw test refl))))
