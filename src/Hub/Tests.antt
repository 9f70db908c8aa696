-- ===== src/Hub/Tests.antt =====
-- A Hub with one Agent and one Task, and the theorems on it.
use agent_federation_hub.Base.{◌≡◌, ◌≢◌, refl, true, false, List, [], ◌∷◌, none, some}
use agent_federation_hub.Base.Int.{pos}
use agent_federation_hub.Base.Dict.{lookup, lookup_or, insert}
use agent_federation_hub.Base.Text.{is_blank}
use agent_federation_hub.Model.{Agent, Task, submitted, working, completed}
use agent_federation_hub.Store.State.{invalid, Result, ok, err, JournalStore}
use agent_federation_hub.Store.Tasks.Versions.{IsFiled}
use agent_federation_hub.Store.Journal.{resource_key, apply_record, put_agent, put_task}
use agent_federation_hub.Store.Tasks.Progress.{IsLater}
use agent_federation_hub.Store.Operations.{puts_agent, creates_task, run}
use agent_federation_hub.Store.Operations.Recovery.{fresh}
use agent_federation_hub.Store.Operations.Filed.{run-AreFiled}
use agent_federation_hub.Federation.{Observation}
use agent_federation_hub.Hub.Service.{Service, Formats, Draws, observed, broke, Remote}
use agent_federation_hub.Hub.Observations.{hub_event, apply_observation}
use agent_federation_hub.Hub.Submission.{
  SubmitTaskInput, Request, check_request, with_push, new_task, submit_task, submission_id,
  submission_message_id,
}
use agent_federation_hub.Hub.Parts.{text_part}
use agent_federation_hub.Hub.Push.{accept_push, apply_inbox_item, push_item, pushed}
use agent_federation_hub.Hub.Forward.{KeepsTasks}
use agent_federation_hub.Hub.Lifecycle.{
  Call, submits, cancels, reconciles, accepts_push, calls, calls-IsLater,
}
use agent_federation_hub.Hub.Repeats.{resubmission}
use agent_federation_hub.Hub.Pushed.{IsQueued, pushed_applies}

abbrev formats : Formats
formats = record {
  is_media_type = λ x. true;
  is_base64 = λ x. true;
  parse_url = λ x. none;
  encodes = λ x. true;
  encoded_size = λ x. some 2;
  is_public_ip = λ x. none;
}

abbrev draws : Draws
draws = record { id = λ n. "x"; time = λ n. pos 20 }

abbrev report : Observation
report = record {
  dedup_key = "o1";
  source = "a2a-get";
  remote_task_id = "r1";
  remote_context_id = "c1";
  state = working;
  artifacts = [];
  problem = none;
  remote_observed_at = some (pos 19);
  cancel_requested = false;
  final = false;
}

-- Every text is its own digest.
abbrev svc : Service
svc = record {
  formats = formats;
  artifacts = none;
  digest = λ x. x;
  digest_observation = λ o. o.dedup_key;
  digest_input = λ ps es m. "input";
  encode_observation = λ o. some "o";
  decode_observation = λ x. some (pushed report);
  push_url = λ id tenant. id;
  public_base_url = "";
  allow_private_agent_urls = false;
}

svc-KeepsTasks : KeepsTasks svc
svc-KeepsTasks = record { kept = λ a e t id key index p s. cc }

abbrev remote : Remote
remote = record {
  send = λ a m. observed draws report ∷ [];
  get = λ a id. observed draws report;
  cancel = λ a id. broke (invalid "offline");
  subscribe = λ a id. [];
}

abbrev translator : Agent
translator = record {
  id = "a1";
  tenant_id = "acme";
  card_url = "";
  name = "Translator";
  provider_version = "";
  protocol_binding = "";
  protocol_version = "";
  endpoint = "";
  streaming = false;
  push_notifications = false;
  security_schemes = [];
  card_signature_verified = false;
  card_signature_key_id = "";
  skills = "translate" ∷ [];
  extensions = [];
  credential_env = [];
  registration_source = "";
  registry_endpoint = "";
  last_registry_sync_at = none;
  health_status = "HEALTHY";
  health_message = "";
  last_health_check_at = none;
  created_at = pos 1;
  updated_at = pos 1;
}

abbrev input : SubmitTaskInput
input = record {
  agent_id = "a1";
  skill = "translate";
  body = "hello";
  parts = [];
  enable_push = false;
  priority = pos 0;
  extensions = [];
  metadata = [];
  idempotency_key = "k1";
}

abbrev request : Request
request = record {
  agent = translator;
  parts = text_part "hello" ∷ [];
  materialized = text_part "hello" ∷ [];
  extensions = [];
  metadata = [];
  key = "k1";
}

abbrev proposed : Task
proposed = new_task svc draws "acme" input request

abbrev existing : Task
existing = record proposed {
  push_token_hash = "secret";
  remote_task_id = "r1";
  state = completed;
  revision = 1;
  last_sequence = 1;
}

-- The Hub after the Agent has done the Task.
abbrev hub : JournalStore
hub =
    run
      (puts_agent translator
        ∷ creates_task "e1" existing (hub_event "task.submitted" "hub" submitted none (pos 9))
        ∷ [])
      (fresh [])

hub_knows : lookup (resource_key "acme" proposed.id) hub.maps.tasks ≡ some existing
unfolding run lookup insert resource_key new_task submission_id submission_message_id apply_record
    put_agent put_task
hub_knows = refl

input_passes : check_request svc "acme" input hub ≡ ok request
unfolding check_request run lookup insert resource_key apply_record put_agent put_task
input_passes = refl

-- The Hub before the Task was submitted.
abbrev empty_hub : JournalStore
empty_hub = run (puts_agent translator ∷ []) (fresh [])

abbrev submission : JournalStore → Result Task × JournalStore
submission = submit_task svc draws (err (invalid "no token")) remote "acme" input

abbrev task_or : Task → Result Task → Task
task_or other (ok t) = t
task_or other (err e) = other

abbrev first_task : Task
first_task = task_or existing (submission empty_hub).0

abbrev first_hub : JournalStore
first_hub = (submission empty_hub).1

first_done : submission empty_hub ≡ (ok first_task, first_hub)
unfolding submit_task run lookup insert resource_key new_task submission_id submission_message_id
    apply_record put_agent put_task lookup_or
first_done = refl

abbrev later_draws : Draws
later_draws = record { id = λ n. "y"; time = λ n. pos 30 }

abbrev follow_up : List Call
follow_up = cancels draws remote "acme" proposed.id ∷ []

resubmission_example :
    (old : Task) × (lookup
        (resource_key "acme" proposed.id)
        (calls svc follow_up first_hub).maps.tasks
      ≡ some old)
    × (submit_task svc later_draws
          (err (invalid "no token"))
          remote
          "acme"
          input
          (calls svc follow_up first_hub)
        ≡ (ok old, calls svc follow_up first_hub))
unfolding with_push new_task check_request is_blank lookup run apply_record put_agent insert
    resource_key calls put_task lookup_or
resubmission_example =
    resubmission svc draws later_draws (err (invalid "no token")) (err (invalid "no token")) remote
      remote "acme" input input request request first_task
      (new_task svc later_draws "acme" input request) none follow_up empty_hub first_hub
      svc-KeepsTasks (run-AreFiled (puts_agent translator ∷ []) (fresh []) (tt, tt)).0 refl refl
      first_done refl refl refl refl

hub-IsFiled : IsFiled hub.maps
hub-IsFiled =
    (run-AreFiled
      (puts_agent translator
        ∷ creates_task "e1" existing (hub_event "task.submitted" "hub" submitted none (pos 9))
        ∷ [])
      (fresh []) (tt, tt)).0

abbrev after_push : JournalStore
after_push = (accept_push svc draws "acme" proposed.id "secret" report hub).1

push_accepted :
    accept_push svc draws "acme" proposed.id "secret" report hub ≡ (ok existing, after_push)
unfolding accept_push lookup run apply_record put_agent put_task insert resource_key new_task
push_accepted = refl

pushed_applies_example :
    (lookup (resource_key "acme" proposed.id) hub.maps.tasks ≡ some existing)
    × (existing.push_token_hash ≢ "")
    × (existing.push_token_hash ≡ svc.digest "secret")
    × IsQueued (push_item svc draws "acme" proposed.id (pushed report) "o") hub.maps after_push.maps
    × (u : Task) × (lookup
          (resource_key "acme" proposed.id)
          (calls svc follow_up after_push).maps.tasks
        ≡ some u)
    × (apply_inbox_item svc draws
          (push_item svc draws "acme" proposed.id (pushed report) "o")
          (calls svc follow_up after_push)
        ≡ apply_observation svc draws u (pushed report) (calls svc follow_up after_push))
pushed_applies_example =
    pushed_applies svc draws draws "acme" proposed.id "secret" "o" report existing follow_up hub
      after_push svc-KeepsTasks refl refl hub-IsFiled push_accepted refl

abbrev late_calls : List Call
late_calls =
    accepts_push draws "acme" proposed.id "secret" report
    ∷ reconciles remote true "acme" proposed.id
    ∷ cancels draws remote "acme" proposed.id
    ∷ submits draws (ok "") remote "acme" input
    ∷ []

calls-IsLater_example :
    (t' : Task) × (lookup (resource_key "acme" proposed.id) (calls svc late_calls hub).maps.tasks
      ≡ some t')
    × IsLater existing t'
calls-IsLater_example =
    calls-IsLater svc late_calls hub (resource_key "acme" proposed.id) existing svc-KeepsTasks
      hub-IsFiled hub_knows
