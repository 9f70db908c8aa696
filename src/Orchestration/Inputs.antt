-- ===== src/Orchestration/Inputs.antt =====
-- What the steps of a workflow send: the inputs that a vault keeps (MemoryInputStore of
-- internal/orchestration/input_store.go), and the Parts that dependencies have produced
-- (projectArtifactInputs of internal/orchestration/workflow.go).
pub mod Vault
use Prim.Native.String.{◌++◌ as text_append}
use agent_federation_hub.Base.{
  ℕ, String, Bool, true, false, ◌&&◌, ◌||◌, not, List, [], ◌∷◌, ◌++◌, Option, none, some, ◌==◌, ltb,
  eqb, length, get_elem?, if◌then◌else◌,
}
use agent_federation_hub.Base.Int.{ℤ, pos, negsuc}
use agent_federation_hub.Base.Text.{codes, starts_with}
use agent_federation_hub.Base.Dict.{Dict, lookup, insert}
use agent_federation_hub.Model.{Part, Artifact, Task, TaskState, completed, same_state}
use agent_federation_hub.Model.Workflow.{WorkflowStep, WorkflowArtifactInput}
use agent_federation_hub.Store.State.{not_found, invalid, rejected, Result, ok, err, JournalStore}
use agent_federation_hub.Store.Tasks.{get_task, or_not_found}
use agent_federation_hub.Orchestration.Graph.{find_workflow_step}

pub record WorkflowInput : Type 0 where
  pub body : String
  pub parts : List Part

-- The encoding of an input as JSON: the number of its bytes, if there is one, and whether the encodings
-- of two inputs are there and are the same.
pub record Encoding : Type 0 where
  pub size : WorkflowInput → Option ℕ
  pub same : WorkflowInput → WorkflowInput → Bool

unfoldable pub validate : Encoding → WorkflowInput → Result (Unit {0})
validate encoding i =
    if i.body == "" && eqb (length i.parts) 0
    then err (invalid "workflow provider input requires text or at least one part")
    else elim (encoding.size i) [
      | none ↦ err (invalid "workflow provider input must be JSON")
      | some n ↦
          if ltb 1048576 n then err (invalid "workflow provider input exceeds 1 MiB") else ok tt
    ]

unfoldable pub input_ref : String → String → String → String
input_ref tenant workflow_id step_id =
    text_append tenant (text_append "/" (text_append workflow_id (text_append "/" step_id)))

-- A stored input that another one would replace.
unfoldable pub is_other : Encoding → WorkflowInput → Option WorkflowInput → Bool
is_other encoding i none = false
is_other encoding i (some old) = not (encoding.same old i)

-- The copies that cloneWorkflowInput makes of an input, by encoding and decoding it, are the input.
unfoldable pub put_input :
    Encoding
    → String
    → String
    → String
    → WorkflowInput
    → Dict WorkflowInput
    → Result String × Dict WorkflowInput
unfolding validate input_ref is_other
put_input encoding tenant workflow_id step_id i values =
    let ref = input_ref tenant workflow_id step_id in
    if tenant == "" || workflow_id == "" || step_id == ""
    then (err (invalid "workflow input store requires tenant, workflow, step, and input"), values)
    else elim (validate encoding i) [
      | err e ↦ (err e, values)
      | ok _ ↦
          if is_other encoding i (lookup ref values)
          then (err (rejected "workflow input reference already contains different input"), values)
          else (ok ref, insert ref i values)
    ]

unfoldable pub get_input : String → String → Dict WorkflowInput → Result WorkflowInput
unfolding or_not_found starts_with
get_input tenant ref values =
    if tenant == "" || ref == ""
    then err (invalid "workflow input lookup requires tenant and reference")
    else if not (starts_with (codes ref) (codes (text_append tenant "/")))
    then err not_found
    else or_not_found (lookup ref values)

-- The Parts of an Artifact that an input selects. The index is not negative.
unfoldable pub selected_parts : WorkflowArtifactInput → Artifact → List Part
selected_parts i a =
    if not (i.artifact_id == "") && not (a.id == i.artifact_id) then [] else elim i.part_index [
      | none ↦ a.parts
      | some (pos n) ↦ elim (get_elem? a.parts n) [ none ↦ [] | some p ↦ p ∷ [] ]
      | some (negsuc n) ↦ []
    ]

unfoldable pub all_selected : WorkflowArtifactInput → List Artifact → List Part
unfolding selected_parts
all_selected i [] = []
all_selected i (a ∷ as') = selected_parts i a ++ all_selected i as'

-- The step whose Artifacts an input names, if its Task is completed.
unfoldable pub completed_source : Option WorkflowStep → Option String
completed_source none = none
completed_source (some x) =
    if x.task_id == "" || not (same_state x.state completed) then none else some x.task_id

unfoldable pub project_input :
    String → List WorkflowStep → JournalStore → WorkflowArtifactInput → Result (List Part)
unfolding completed_source find_workflow_step all_selected get_task
project_input tenant xs s i = elim (completed_source (find_workflow_step xs i.from_step_id)) [
  | none ↦ err (rejected "Artifact input source step has not completed")
  | some task_id ↦ elim (get_task tenant task_id s) [
    | err e ↦ err e
    | ok t ↦
        if eqb (length (all_selected i t.artifacts)) 0
        then err (rejected "Artifact input did not match an observed Artifact")
        else ok (all_selected i t.artifacts)
  ]
]

unfoldable pub project_artifact_inputs :
    String → List WorkflowStep → JournalStore → List WorkflowArtifactInput → Result (List Part)
unfolding project_input
project_artifact_inputs tenant xs s [] = ok []
project_artifact_inputs tenant xs s (i ∷ is) =
    let later = project_artifact_inputs tenant xs s is in
    elim (project_input tenant xs s i) [
      | err e ↦ err e
      | ok ps ↦ elim later [ err e ↦ err e | ok qs ↦ ok (ps ++ qs) ]
    ]
