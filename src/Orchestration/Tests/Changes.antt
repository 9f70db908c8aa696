-- ===== src/Orchestration/Tests/Changes.antt =====
-- A stored workflow whose first step is completed and whose second step failed, and the theorems on it.
use agent_federation_hub.Base.{◌≡◌, ◌≢◌, refl, [], ◌∷◌, none, some, true}
use agent_federation_hub.Base.Int.{pos}
use agent_federation_hub.Base.Dict.{lookup, lookup_or, insert}
use agent_federation_hub.Model.{Task, failed, completed, working, acknowledged}
use agent_federation_hub.Model.Workflow.{
  Workflow, paused, canceled, running, partially_failed, unset as unset_state,
}
use agent_federation_hub.Store.State.{ok, JournalStore}
use agent_federation_hub.Store.Journal.{resource_key, apply_record, put_workflow}
use agent_federation_hub.Store.Operations.{creates_workflow, run}
use agent_federation_hub.Store.Operations.Recovery.{fresh}
use agent_federation_hub.Hub.Service.{Draws}
use agent_federation_hub.Orchestration.States.{workflow_state_for_steps}
use agent_federation_hub.Orchestration.Steps.{workflow_event, set_step, status_step}
use agent_federation_hub.Orchestration.Control.{
  pause_workflow, resume_workflow, update_step, step_key, revision_key,
}
use agent_federation_hub.Orchestration.Control.Pausing.{resume_after_pause, update_step_revives}
use agent_federation_hub.Orchestration.Tests.{step}

abbrev pub draws : Draws
draws = record { id = λ n. "x"; time = λ n. pos 20 }

abbrev pub report : Workflow
report = record {
  id = "w1";
  tenant_id = "acme";
  name = "Report";
  definition_version = pos 1;
  idempotency_key = " k1 ";
  max_concurrency = pos 2;
  state = partially_failed;
  steps = step "a" [] "t1" completed ∷ step "b" [] "t2" failed ∷ [];
  created_at = pos 10;
  updated_at = pos 10;
  paused_from = unset_state;
  revision = 0;
  last_sequence = 0;
}

abbrev active : Workflow
active = record report { state = running }

abbrev pub stored : Workflow → Workflow
stored w = record w { revision = 1; last_sequence = 1 }

abbrev with_workflow : Workflow → JournalStore
with_workflow w =
    run
      (creates_workflow "e1" w (workflow_event "workflow.created" "hub" w.state "" none (pos 10))
        ∷ [])
      (fresh [])

active_is_there :
    lookup (resource_key "acme" "w1") (with_workflow active).maps.workflows ≡ some (stored active)
unfolding run lookup insert resource_key apply_record put_workflow
active_is_there = refl

abbrev paused_one : Workflow
paused_one = record active {
  state = paused;
  paused_from = running;
  updated_at = pos 20;
  revision = 2;
  last_sequence = 2;
}

abbrev after_pause : JournalStore
after_pause = (pause_workflow draws "acme" "w1" (with_workflow active)).1

active_pauses :
    pause_workflow draws "acme" "w1" (with_workflow active) ≡ (ok paused_one, after_pause)
unfolding pause_workflow run lookup insert resource_key apply_record put_workflow lookup_or
active_pauses = refl

abbrev resumed_one : Workflow
resumed_one = record active {
  state = partially_failed;
  updated_at = pos 20;
  revision = 3;
  last_sequence = 3;
}

abbrev after_resume : JournalStore
after_resume = (resume_workflow draws "acme" "w1" after_pause).1

paused_resumes : resume_workflow draws "acme" "w1" after_pause ≡ (ok resumed_one, after_resume)
unfolding resume_workflow pause_workflow run lookup insert resource_key apply_record put_workflow
    lookup_or workflow_state_for_steps
paused_resumes = refl

resume_after_pause_example :
    (lookup (resource_key "acme" "w1") after_resume.maps.workflows ≡ some resumed_one)
    × (resumed_one.steps ≡ active.steps)
    × (resumed_one.state ≡ workflow_state_for_steps active.steps)
unfolding pause_workflow run lookup insert resource_key apply_record put_workflow revision_key
    lookup_or
resume_after_pause_example =
    resume_after_pause draws draws "acme" "w1" (stored active) paused_one resumed_one
      (with_workflow active) after_pause after_resume (active_is_there, refl, refl) refl
      active_pauses refl paused_resumes

-- The second Task was taken up again after the workflow was cancelled.
abbrev pub resumed_task : Task
resumed_task = record {
  id = "t2";
  tenant_id = "acme";
  agent_id = "a1";
  message_id = "";
  input_digest = "";
  idempotency_key = "";
  requested_extensions = [];
  extension_metadata = [];
  priority = pos 0;
  remote_task_id = "r2";
  remote_context_id = "";
  state = working;
  delivery = acknowledged;
  cancel_requested = true;
  push_token_hash = "";
  artifacts = [];
  problem = none;
  last_remote_observed_at = none;
  created_at = pos 10;
  updated_at = pos 20;
  revision = 7;
  last_sequence = 7;
}

abbrev cancelled : Workflow
cancelled = record report { state = canceled }

abbrev revived : Workflow
revived = record report {
  steps = step "a" [] "t1" completed ∷ step "b" [] "t2" working ∷ [];
  state = running;
  updated_at = pos 20;
  revision = 2;
  last_sequence = 2;
}

abbrev after_update : JournalStore
after_update =
    (update_step draws (stored cancelled) 1 (step "b" [] "t2" failed) resumed_task
      (with_workflow cancelled)).1

cancelled_updates :
    update_step draws
      (stored cancelled)
      1
      (step "b" [] "t2" failed)
      resumed_task
      (with_workflow cancelled)
    ≡ (ok revived, after_update)
unfolding update_step run lookup insert resource_key apply_record put_workflow lookup_or
    workflow_state_for_steps
cancelled_updates = refl

update_step_revives_example :
    (revived.state
      ≡ workflow_state_for_steps (set_step 1 (status_step resumed_task) cancelled.steps))
    × (revived.state ≢ canceled)
    × (lookup (resource_key "acme" "w1") after_update.maps.workflows ≡ some revived)
unfolding run lookup insert resource_key apply_record put_workflow lookup_or step_key
update_step_revives_example =
    update_step_revives draws (stored cancelled) (stored cancelled) revived 1
      (step "b" [] "t2" failed) resumed_task (with_workflow cancelled) after_update
      (refl, refl, refl) refl cancelled_updates
