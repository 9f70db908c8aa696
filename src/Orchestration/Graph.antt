-- ===== src/Orchestration/Graph.antt =====
-- The dependencies of a workflow's steps (internal/orchestration/workflow.go): normalizeDependencies,
-- normalizeArtifactInputs, validateWorkflowGraph, findWorkflowStep.
pub mod Order
pub mod Edges
pub mod Depth
pub mod Rise
pub mod Valid
use Prim.Native.String.{◌++◌ as text_append}
use agent_federation_hub.Base.{
  ℕ, zero, suc, String, Bool, true, false, ◌&&◌, not, List, [], ◌∷◌, ◌++◌, Option, none, some, ◌==◌,
  eqb, text_ltb, if◌then◌else◌, map, length,
}
use agent_federation_hub.Base.Int.{ℤ, pos, negsuc, ltb_ℤ}
use agent_federation_hub.Base.Text.{trim, contains, decimal}
use agent_federation_hub.Base.Sort.{sort}
use agent_federation_hub.Base.Dict.{Dict, lookup_or, insert}
use agent_federation_hub.Model.Workflow.{WorkflowStep, WorkflowArtifactInput}
use agent_federation_hub.Store.State.{Error, invalid, Result, ok, err}

-- The loop of normalizeDependencies, with the names that were kept so far.
unfoldable pub collect_dependencies : String → List String → List String → Result (List String)
unfolding trim contains
collect_dependencies step_id seen [] = ok []
collect_dependencies step_id seen (raw ∷ rest) =
    let name = trim raw in
    let known = collect_dependencies step_id seen rest in
    let later = collect_dependencies step_id (name ∷ seen) rest in
    if name == ""
    then err (invalid "workflow step has an empty dependency")
    else if name == step_id
    then err (invalid "workflow step cannot depend on itself")
    else if contains name seen
    then known
    else elim later [ err e ↦ err e | ok names ↦ ok (name ∷ names) ]

unfoldable pub normalize_dependencies : String → List String → Result (List String)
unfolding collect_dependencies sort
normalize_dependencies step_id values = elim (collect_dependencies step_id [] values) [
  | err e ↦ err e
  | ok names ↦ ok (sort text_ltb names)
]

unfoldable pub is_negative : Option ℤ → Bool
is_negative none = false
is_negative (some i) = ltb_ℤ i (pos 0)

-- %d of an index that is not negative.
unfoldable pub index_text : Option ℤ → String
unfolding decimal
index_text none = ""
index_text (some (pos n)) = decimal n
index_text (some (negsuc n)) = text_append "-" (decimal (suc n))

unfoldable pub input_key : WorkflowArtifactInput → String
unfolding index_text
input_key i =
    text_append i.from_step_id
      (text_append "\0" (text_append i.artifact_id (text_append "\0" (index_text i.part_index))))

unfoldable pub trimmed_input : WorkflowArtifactInput → WorkflowArtifactInput
unfolding trim
trimmed_input i = record i { from_step_id = trim i.from_step_id; artifact_id = trim i.artifact_id }

-- The body of the loop of normalizeArtifactInputs for one input, with the keys that were seen.
unfoldable pub check_input : List String → List String → WorkflowArtifactInput → Option Error
unfolding contains is_negative input_key
check_input dependencies seen i =
    if i.from_step_id == ""
    then some (invalid "workflow step Artifact input requires fromStepId")
    else if not (contains i.from_step_id dependencies)
    then some (invalid "workflow step Artifact input must name a direct dependency")
    else if is_negative i.part_index
    then some (invalid "workflow step Artifact input partIndex must not be negative")
    else if contains (input_key i) seen
    then some (invalid "workflow step repeats an Artifact input")
    else none

unfoldable pub collect_inputs :
    List String → List String → List WorkflowArtifactInput → Result (List WorkflowArtifactInput)
unfolding check_input trimmed_input input_key
collect_inputs dependencies seen [] = ok []
collect_inputs dependencies seen (i ∷ is) =
    let later = collect_inputs dependencies (input_key (trimmed_input i) ∷ seen) is in
    elim (check_input dependencies seen (trimmed_input i)) [
      | some e ↦ err e
      | none ↦ elim later [ err e ↦ err e | ok found ↦ ok (trimmed_input i ∷ found) ]
    ]

unfoldable pub normalize_artifact_inputs :
    List String → List WorkflowArtifactInput → Result (List WorkflowArtifactInput)
unfolding collect_inputs
normalize_artifact_inputs dependencies values = collect_inputs dependencies [] values

unfoldable pub find_workflow_step : List WorkflowStep → String → Option WorkflowStep
find_workflow_step [] id = none
find_workflow_step (x ∷ xs) id =
    let later = find_workflow_step xs id in if x.id == id then some x else later

abbrev pub step_ids : List WorkflowStep → List String
step_ids xs = map (λ (x : WorkflowStep). x.id) xs

-- graph[step.ID] = append(graph[step.ID], dependency)
unfoldable pub add_edges : String → List String → Dict (List String) → Dict (List String)
add_edges id [] g = g
add_edges id (d ∷ ds) g = add_edges id ds (insert id (lookup_or [] id g ++ d ∷ []) g)

unfoldable pub all_known : List String → List String → Bool
unfolding contains
all_known known [] = true
all_known known (d ∷ ds) = contains d known && all_known known ds

-- The loops that fill the graph. `none` is a dependency on a step that is not known.
unfoldable pub build_graph :
    List String → List WorkflowStep → Dict (List String) → Option (Dict (List String))
unfolding all_known add_edges
build_graph known [] g = some g
build_graph known (x ∷ xs) g =
    let later = build_graph known xs (add_edges x.id x.depends_on g) in
    if all_known known x.depends_on then later else none

-- How a walk over the graph ends: with the marks of the steps, 1 while a step's dependencies are walked
-- and 2 when they are done; at a cycle; or when the fuel runs out.
pub data Walk : Type 0 where
  walked : Dict ℕ → Walk
  cycle out_of_fuel : Walk

-- `next` from the marks where a walk ended.
unfoldable pub and_walk : Walk → (Dict ℕ → Walk) → Walk
and_walk (walked visit) next = next visit
and_walk cycle next = cycle
and_walk out_of_fuel next = out_of_fuel

-- The loop over some identifiers, with what `walk` does for one.
unfoldable pub walk_each : (String → Dict ℕ → Walk) → List String → Dict ℕ → Walk
unfolding and_walk
walk_each walk_one [] visit = walked visit
walk_each walk_one (d ∷ ds) visit = and_walk (walk_one d visit) (walk_each walk_one ds)

unfoldable pub finish : String → Walk → Walk
finish id (walked visit) = walked (insert id 2 visit)
finish id cycle = cycle
finish id out_of_fuel = out_of_fuel

-- The fuel bounds the depth of the recursion.
unfoldable pub walk : ℕ → Dict (List String) → String → Dict ℕ → Walk
unfolding walk_each finish
walk zero g id visit = out_of_fuel
walk (suc fuel) g id visit =
    let deeper = finish id (walk_each (walk fuel g) (lookup_or [] id g) (insert id 1 visit)) in
    if eqb (lookup_or 0 id visit) 1
    then cycle
    else if eqb (lookup_or 0 id visit) 2
    then walked visit
    else deeper

pub data Validation : Type 0 where
  valid unknown_step cyclic unfinished : Validation

unfoldable pub outcome : Walk → Validation
outcome (walked visit) = valid
outcome cycle = cyclic
outcome out_of_fuel = unfinished

-- The walks from each step. Every nested call marks another step, so the depth is at most one more than
-- the number of steps.
unfoldable pub walk_graph : List WorkflowStep → Option (Dict (List String)) → Validation
unfolding outcome walk_each walk
walk_graph xs none = unknown_step
walk_graph xs (some g) = outcome (walk_each (walk (suc (length xs)) g) (step_ids xs) [])

unfoldable pub validate_workflow_graph : List WorkflowStep → Validation
unfolding build_graph walk_graph
validate_workflow_graph xs = walk_graph xs (build_graph (step_ids xs) xs [])
