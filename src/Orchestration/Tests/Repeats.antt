-- ===== src/Orchestration/Tests/Repeats.antt =====
-- Operations on workflows that are tried again, on concrete data.
use mathlib.Core.Bool.{false≢true}
use agent_federation_hub.Base.{ℕ, ◌≡◌, ◌≢◌, sym, ap, refl, List, [], ◌∷◌, none, some, true, false}
use agent_federation_hub.Base.Int.{pos}
use agent_federation_hub.Base.Dict.{lookup, lookup_or, insert}
use agent_federation_hub.Base.Text.{is_blank}
use agent_federation_hub.Model.{Agent, completed, unknown}
use agent_federation_hub.Model.Workflow.{Workflow, WorkflowStep, pending, partially_failed}
use agent_federation_hub.Store.State.{Result, ok, err, invalid, conflict, JournalStore}
use agent_federation_hub.Store.Journal.{resource_key, apply_record, put_agent, put_workflow}
use agent_federation_hub.Store.Operations.{
  Operation, puts_agent, creates_workflow, applies_workflow, run,
}
use agent_federation_hub.Store.Tasks.{has_key}
use agent_federation_hub.Store.Workflows.{create_workflow}
use agent_federation_hub.Store.Operations.Recovery.{fresh}
use agent_federation_hub.Hub.Service.{Formats, Service, Draws, broke}
use agent_federation_hub.Orchestration.Steps.{workflow_event}
use agent_federation_hub.Orchestration.Rounds.{Coordinator, Branch, Round}
use agent_federation_hub.Orchestration.Compensation.{
  unsubmitted_update, Compensating, record_compensation,
}
use agent_federation_hub.Orchestration.Compensation.Retry.{retry_is_lost}
use agent_federation_hub.Orchestration.Definition.{
  WorkflowDefinition, WorkflowStepInput, define_workflow, new_workflow, workflow_id,
}
use agent_federation_hub.Orchestration.Runs.{done}
use agent_federation_hub.Orchestration.Start.{start_workflow}
use agent_federation_hub.Orchestration.Start.Repeats.{repeated_start}
use agent_federation_hub.Orchestration.Tests.{step}
use agent_federation_hub.Orchestration.Tests.Changes.{draws, report, resumed_task}

abbrev formats : Formats
formats = record {
  is_media_type = λ x. true;
  is_base64 = λ x. true;
  parse_url = λ x. none;
  encodes = λ x. true;
  encoded_size = λ x. some 2;
  is_public_ip = λ x. none;
}

-- Every text is its own digest.
abbrev svc : Service
svc = record {
  formats = formats;
  artifacts = none;
  digest = λ x. x;
  digest_observation = λ o. o.dedup_key;
  digest_input = λ ps es m. "input";
  encode_observation = λ o. none;
  decode_observation = λ x. none;
  push_url = λ id tenant. id;
  public_base_url = "";
  allow_private_agent_urls = false;
}

abbrev coordinator : Coordinator
coordinator = record {
  service = svc;
  read_input = λ tenant ref. err (invalid "no input");
  store_input = λ tenant id step_id i. err (invalid "no vault");
  digest_input = λ i. "";
  message = λ e. "failed";
}

abbrev writer : Agent
writer = record {
  id = "a1";
  tenant_id = "acme";
  card_url = "";
  name = "Writer";
  provider_version = "";
  protocol_binding = "";
  protocol_version = "";
  endpoint = "";
  streaming = false;
  push_notifications = false;
  security_schemes = [];
  card_signature_verified = false;
  card_signature_key_id = "";
  skills = [];
  extensions = [];
  credential_env = [];
  registration_source = "";
  registry_endpoint = "";
  last_registry_sync_at = none;
  health_status = "HEALTHY";
  health_message = "";
  last_health_check_at = none;
  created_at = pos 1;
  updated_at = pos 1;
}

-- The Agent answers nothing.
abbrev branch : Branch
branch = record {
  draws = draws;
  remote = record {
    send = λ a m. [];
    get = λ a id. broke (invalid "offline");
    cancel = λ a id. broke (invalid "offline");
    subscribe = λ a id. [];
  };
  recorded = draws;
}

abbrev undo : WorkflowStep
undo = step "a" [] "t1" completed

-- Step "a" is to be compensated.
abbrev before_failure : JournalStore
before_failure =
    run
      (puts_agent writer
        ∷ creates_workflow "e1" report
            (workflow_event "workflow.created" "hub" partially_failed "" none (pos 10))
        ∷ [])
      (fresh [])

abbrev stored_report : Workflow
stored_report = record report { revision = 1; last_sequence = 1 }

abbrev attempt : Result Compensating × JournalStore
attempt =
    record_compensation coordinator draws "acme" "w1" 0 undo (stored_report, [])
      (err (invalid "offline")) before_failure

-- The submission failed, and the failure was recorded.
abbrev after_failure : JournalStore
after_failure = attempt.1

report_is_there :
    lookup (resource_key "acme" "w1") before_failure.maps.workflows ≡ some stored_report
unfolding lookup run apply_record put_agent put_workflow insert resource_key lookup_or
    record_compensation unsubmitted_update create_workflow new_workflow
report_is_there = refl

failure_is_recorded : after_failure.maps ≢ before_failure.maps
unfolding lookup run apply_record put_agent put_workflow insert resource_key lookup_or
    record_compensation unsubmitted_update create_workflow new_workflow
failure_is_recorded = λ e.
    false≢true
      (sym (ap (λ m. has_key m.workflow_dedup (resource_key "acme" "w1") "compensation:a") e))

abbrev rerun : List Operation
rerun =
    applies_workflow "e2" "acme" "w1" 0 "compensation:again" (unsubmitted_update (pos 12) 0 "a" "")
    ∷ []

retry_is_lost_example :
    (v : Workflow) × (lookup (resource_key "acme" "w1") (run rerun after_failure).maps.workflows
      ≡ some v)
    × (record_compensation coordinator draws "acme" "w1" 0 undo
          (stored_report, [])
          (ok resumed_task)
          (run rerun after_failure)
        ≡ (ok (v, []), run rerun after_failure))
unfolding lookup run apply_record put_agent put_workflow insert resource_key lookup_or
    record_compensation unsubmitted_update create_workflow new_workflow
retry_is_lost_example =
    retry_is_lost coordinator draws draws "acme" "w1" 0 0 undo undo stored_report stored_report
      stored_report [] [] (invalid "offline") resumed_task rerun attempt.0 before_failure
      after_failure report_is_there refl refl failure_is_recorded refl

abbrev outline : WorkflowStepInput
outline = record {
  id = "a";
  agent_id = "a1";
  skill = "";
  depends_on = [];
  body = "write";
  parts = [];
  artifact_inputs = [];
  required = true;
  compensation_text = "";
}

-- The key of the stored workflow has blanks around it.
abbrev definition : WorkflowDefinition
definition = record {
  id = "";
  name = "Report";
  definition_version = pos 1;
  idempotency_key = " k1 ";
  max_concurrency = pos 2;
  steps = outline ∷ [];
}

abbrev defined_steps : List WorkflowStep
defined_steps = record (step "a" [] "" unknown) { compensation_text = "" } ∷ []

definition_passes : define_workflow formats "acme" definition ≡ ok defined_steps
unfolding define_workflow lookup_or insert is_blank
definition_passes = refl

abbrev round : ℕ → Round
round n = record { branch = λ i. branch; refused = λ i. draws }

abbrev other_draws : Draws
other_draws = record { id = λ n. "y"; time = λ n. pos 30 }

abbrev first_run : Result Workflow × JournalStore
first_run =
    create_workflow "x"
      (new_workflow (workflow_id svc.digest "x" "acme" definition) "acme" (pos 20) definition
        defined_steps)
      (workflow_event "workflow.created" "hub" pending "" none (pos 20)) before_failure

abbrev workflow_or : Workflow → Result Workflow → Workflow
workflow_or other (ok w) = w
workflow_or other (err e) = other

abbrev first_workflow : Workflow
first_workflow = workflow_or report first_run.0

repeated_start_example :
    start_workflow 1 coordinator other_draws (λ i. draws) round "acme" definition first_run.1
    ≡ done (err conflict) first_run.1
unfolding lookup run apply_record put_agent put_workflow insert resource_key lookup_or
    record_compensation unsubmitted_update create_workflow new_workflow workflow_id
repeated_start_example =
    repeated_start 1 coordinator draws other_draws (λ i. draws) round "acme" definition definition
      defined_steps defined_steps first_workflow first_workflow before_failure first_run.1
      first_run.1 refl refl refl refl refl refl refl refl definition_passes refl
