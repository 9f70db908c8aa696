-- ===== src/Orchestration/Definition.antt =====
-- What StartWorkflow (internal/orchestration/workflow.go) makes of a definition of
-- internal/hub/workflow_types.go.
use Prim.Native.String.{◌++◌ as text_append}
use agent_federation_hub.Base.{
  ℕ, suc, String, Bool, ◌&&◌, ◌||◌, not, List, [], ◌∷◌, none, ◌==◌, length, ltb, if◌then◌else◌,
}
use agent_federation_hub.Base.Int.{ℤ, pos, ltb_ℤ}
use agent_federation_hub.Base.Text.{trim, contains, decimal, take_text}
use agent_federation_hub.Model.{Time, Part, unset, unknown}
use agent_federation_hub.Model.Workflow.{
  Workflow, WorkflowStep, WorkflowArtifactInput, pending, unset as unset_state,
}
use agent_federation_hub.Store.State.{invalid, Result, ok, err}
use agent_federation_hub.Hub.Service.{Formats}
use agent_federation_hub.Hub.Parts.{normalize_message_parts}
use agent_federation_hub.Orchestration.Graph.{
  normalize_dependencies, normalize_artifact_inputs, Validation, valid, unknown_step, cyclic,
  unfinished, validate_workflow_graph,
}

pub record WorkflowStepInput : Type 0 where
  pub id : String
  pub agent_id : String
  pub skill : String
  pub depends_on : List String
  pub body : String
  pub parts : List Part
  pub artifact_inputs : List WorkflowArtifactInput
  pub required : Bool
  pub compensation_text : String

pub record WorkflowDefinition : Type 0 where
  pub id : String
  pub name : String
  pub definition_version : ℤ
  pub idempotency_key : String
  pub max_concurrency : ℤ
  pub steps : List WorkflowStepInput

-- The identifier of the step at an index.
unfoldable pub step_name : ℕ → WorkflowStepInput → String
unfolding decimal
step_name i x = if x.id == "" then text_append "step-" (decimal (suc i)) else x.id

unfoldable pub new_step :
    String → WorkflowStepInput → List String → List WorkflowArtifactInput → WorkflowStep
new_step id x dependencies inputs = record {
  id = id;
  agent_id = x.agent_id;
  skill = x.skill;
  depends_on = dependencies;
  artifact_inputs = inputs;
  input_ref = "";
  input_digest = "";
  task_id = "";
  state = unknown;
  required = x.required;
  attempt = 0;
  compensation_text = x.compensation_text;
  compensation_task_id = "";
  compensation_state = unset;
  problem = none;
  compensation_problem = none;
}

unfoldable pub link_step : String → WorkflowStepInput → Result WorkflowStep
unfolding normalize_dependencies normalize_artifact_inputs new_step
link_step id x = elim (normalize_dependencies id x.depends_on) [
  | err e ↦ err e
  | ok ds ↦ elim (normalize_artifact_inputs ds x.artifact_inputs) [
    | err e ↦ err e
    | ok is ↦ ok (new_step id x ds is)
  ]
]

-- The body of the loop over the steps, with the identifiers that were seen.
unfoldable pub define_step :
    Formats → List String → String → WorkflowStepInput → Result WorkflowStep
unfolding contains normalize_message_parts link_step
define_step formats seen id x =
    if contains id seen
    then err (invalid "duplicate workflow step")
    else if x.agent_id == "" && x.skill == ""
    then err (invalid "workflow step requires agentId or skill")
    else elim (normalize_message_parts formats x.body x.parts) [
      | err e ↦ err e
      | ok _ ↦ link_step id x
    ]

unfoldable pub define_steps :
    Formats → List String → ℕ → List WorkflowStepInput → Result (List WorkflowStep)
unfolding step_name define_step
define_steps formats seen i [] = ok []
define_steps formats seen i (x ∷ xs) =
    let id = step_name i x in
    let later = define_steps formats (id ∷ seen) (suc i) xs in
    elim (define_step formats seen id x) [
      | err e ↦ err e
      | ok y ↦ elim later [ err e ↦ err e | ok ys ↦ ok (y ∷ ys) ]
    ]

unfoldable pub check_graph : List WorkflowStep → Validation → Result (List WorkflowStep)
check_graph xs valid = ok xs
check_graph xs unknown_step = err (invalid "workflow step depends on unknown step")
check_graph xs cyclic = err (invalid "workflow dependency cycle detected")
check_graph xs unfinished = err (invalid "workflow dependency cycle detected")

-- A number that is not positive stands for a default.
unfoldable pub or_default : ℤ → ℤ → ℤ
or_default default z = if ltb_ℤ (pos 0) z then z else default

unfoldable pub version_of : WorkflowDefinition → ℤ
unfolding or_default
version_of definition = or_default (pos 1) definition.definition_version

unfoldable pub limit_of : WorkflowDefinition → ℤ
unfolding or_default
limit_of definition = or_default (pos (length definition.steps)) definition.max_concurrency

-- The checks of StartWorkflow in their order, and the steps.
unfoldable pub define_workflow : Formats → String → WorkflowDefinition → Result (List WorkflowStep)
unfolding version_of limit_of define_steps check_graph validate_workflow_graph
define_workflow formats tenant definition =
    if tenant == "" || not (ltb 0 (length definition.steps))
    then err (invalid "workflow tenant and at least one step are required")
    else if ltb_ℤ (pos 1000) (version_of definition)
    then err (invalid "workflow definition version must be between 1 and 1000")
    else if ltb_ℤ (limit_of definition) (pos 1) || ltb_ℤ (pos 1024) (limit_of definition)
    then err (invalid "workflow maxConcurrency must be between 1 and 1024")
    else elim (define_steps formats [] 0 definition.steps) [
      | err e ↦ err e
      | ok xs ↦ check_graph xs (validate_workflow_graph xs)
    ]

-- The identifier: the given one, or one from the key, or one that is drawn.
unfoldable pub workflow_id : (String → String) → String → String → WorkflowDefinition → String
unfolding trim take_text
workflow_id digest drawn tenant definition =
    let key = trim definition.idempotency_key in
    if not (definition.id == "")
    then definition.id
    else if not (key == "")
    then text_append "wf-" (take_text 32 (digest (text_append tenant (text_append "\0" key))))
    else drawn

unfoldable pub new_workflow :
    String → String → Time → WorkflowDefinition → List WorkflowStep → Workflow
unfolding version_of limit_of
new_workflow id tenant now definition xs = record {
  id = id;
  tenant_id = tenant;
  name = definition.name;
  definition_version = version_of definition;
  idempotency_key = definition.idempotency_key;
  max_concurrency = limit_of definition;
  state = pending;
  steps = xs;
  created_at = now;
  updated_at = now;
  paused_from = unset_state;
  revision = 0;
  last_sequence = 0;
}
