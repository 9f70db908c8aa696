-- ===== src/Orchestration/Tests.antt =====
-- Workflows of a few steps, and the theorems on them.
mod Changes
mod Repeats
use agent_federation_hub.Base.{
  String, ◌≡◌, ◌≢◌, ◌↔◌, refl, List, [], ◌∷◌, ◌++◌, none, some, true, false, inl, inr, arith, All,
  ◌==◌, eqb, ap,
}
use mathlib.Core.Bool.{false≢true}
use agent_federation_hub.Base.Dict.{Dict, lookup, lookup_or, insert}
use agent_federation_hub.Base.Text.{codes}
use agent_federation_hub.Model.{TaskState, unset, unknown, completed}
use agent_federation_hub.Model.Workflow.{WorkflowStep}
use agent_federation_hub.Store.State.{ok}
use agent_federation_hub.Orchestration.Graph.{validate_workflow_graph, valid, unfinished, step_ids}
use agent_federation_hub.Orchestration.Graph.Edges.{AreKnown}
use agent_federation_hub.Orchestration.Graph.Valid.{Ranked, valid_iff_Ranked, validation_ends}
use agent_federation_hub.Orchestration.Schedule.{ready_steps, blocked_steps, indices, is_open}
use agent_federation_hub.Orchestration.Schedule.Progress.{schedule_progresses}
use agent_federation_hub.Orchestration.Inputs.{
  WorkflowInput, Encoding, input_ref, put_input, get_input,
}
use agent_federation_hub.Orchestration.Inputs.Vault.{get_input-put_input, vault_isolates}

abbrev pub step : String → List String → String → TaskState → WorkflowStep
step id dependencies task_id state = record {
  id = id;
  agent_id = "a1";
  skill = "";
  depends_on = dependencies;
  artifact_inputs = [];
  input_ref = "";
  input_digest = "";
  task_id = task_id;
  state = state;
  required = true;
  attempt = 0;
  compensation_text = "undo";
  compensation_task_id = "";
  compensation_state = unset;
  problem = none;
  compensation_problem = none;
}

-- The last two steps depend on each other.
abbrev tangled : List WorkflowStep
tangled =
    step "a" [] "" unknown
    ∷ step "b" ("a" ∷ "c" ∷ []) "" unknown
    ∷ step "c" ("b" ∷ []) "" unknown
    ∷ []

-- The step that the others depend on was completed.
abbrev ordered : List WorkflowStep
ordered =
    step "b" ("a" ∷ []) "" unknown
    ∷ step "c" ("b" ∷ "a" ∷ []) "" unknown
    ∷ step "a" [] "t1" completed
    ∷ []

valid_iff_Ranked_example :
    (validate_workflow_graph ordered ≡ valid)
    ↔ (AreKnown (step_ids ordered) ordered × Ranked ordered)
valid_iff_Ranked_example = valid_iff_Ranked ordered

validation_ends_example : validate_workflow_graph tangled ≢ unfinished
validation_ends_example = validation_ends tangled

ordered_is_valid : validate_workflow_graph ordered ≡ valid
unfolding validate_workflow_graph lookup_or insert
ordered_is_valid = refl

some_are_open : indices is_open 0 ordered ≢ []
unfolding indices is_open
some_are_open e = cc

schedule_progresses_example : ready_steps ordered ++ blocked_steps ordered ≢ []
unfolding is_open
schedule_progresses_example =
    schedule_progresses ordered ordered_is_valid (inl refl, (inl refl, (inr refl, tt)))
      some_are_open

abbrev encoding : Encoding
encoding = record { size = λ i. some 100; same = λ i j. true }

abbrev greeting : WorkflowInput
greeting = record { body = "hello"; parts = [] }

abbrev vault : Dict WorkflowInput
vault = insert (input_ref "acme" "w1" "a") greeting []

greeting_is_put :
    put_input encoding "acme" "w1" "a" greeting [] ≡ (ok (input_ref "acme" "w1" "a"), vault)
unfolding put_input lookup
greeting_is_put = refl

get_input-put_input_example : get_input "acme" (input_ref "acme" "w1" "a") vault ≡ ok greeting
get_input-put_input_example =
    get_input-put_input encoding "acme" "w1" "a" (input_ref "acme" "w1" "a") greeting [] vault
      greeting_is_put

acme-ne-evil : ◌≢◌ {A = String} "acme" "evil"
acme-ne-evil = λ e. false≢true (ap (λ (x : String). x == "evil") e)

vault_isolates_example : get_input "evil" (input_ref "acme" "w1" "a") vault ≢ ok greeting
vault_isolates_example =
    vault_isolates "acme" "evil" "w1" "a" vault (refl, (refl, (refl, (refl, tt))))
      (refl, (refl, (refl, (refl, tt)))) acme-ne-evil greeting
