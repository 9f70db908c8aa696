-- ===== src/Orchestration/Graph/Valid.antt =====
-- What validateWorkflowGraph accepts.
use agent_federation_hub.Base.{
  ℕ, suc, String, ◌≡◌, ◌≢◌, ◌≤◌, ◌<◌, ◌↔◌, true, List, [], ◌∷◌, length, Option, none, some,
  Option-cases, All, All-mono, arith, Bool-cases, inl, inr, eq_refl, refl,
}
use agent_federation_hub.Base.Text.{contains}
use agent_federation_hub.Base.Dict.{Dict, lookup, lookup_or}
use agent_federation_hub.Model.Workflow.{WorkflowStep}
use agent_federation_hub.Orchestration.Graph.{
  Walk, walked, cycle, out_of_fuel, walk_each, walk, valid, unfinished, outcome, step_ids,
  build_graph, walk_graph, validate_workflow_graph,
}
use agent_federation_hub.Orchestration.Graph.Edges.{
  Edges, Dependencies, Edges-build_graph, build_graph-Edges, AreKnown, build_graph-AreKnown,
  build_graph_of_known,
}
use agent_federation_hub.Orchestration.Graph.Order.{
  Has, Sound, IsOrdered, Below, rank, mark, rank-Below, walk-Sound, walk_each-Sound,
}
use agent_federation_hub.Orchestration.Graph.Depth.{unmarked, Ends, walk-Ends, walk_each-Ends}
use agent_federation_hub.Orchestration.Graph.Rise.{Open, Rises, walk-Rises, walk_each-Rises}

-- A number for each step that is greater than those of its dependencies.
abbrev pub Ranked : List WorkflowStep → Type 0
Ranked xs = (r : String → ℕ) × Dependencies (λ x d. r d < r x) xs

Edges-nil : (P : String → String → Type 0) → Edges P []
unfolding lookup_or lookup
Edges-nil P x = tt

ids_contained :
    (ids more : List String)
    → All (λ d. contains d more ≡ true) ids
    → (y : String) → All (λ d. contains d (y ∷ more) ≡ true) (y ∷ ids)
unfolding contains
ids_contained ids more a y = (
  ground (arith, eq_refl y),
  All-mono (λ d. contains d more ≡ true) (λ d. contains d (y ∷ more) ≡ true)
      (λ d h. ground (arith, h)) ids a,
)

All-contained : (ids : List String) → All (λ d. contains d ids ≡ true) ids
All-contained [] = tt
All-contained (y ∷ ids) = ids_contained ids ids (All-contained ids) y

unmarked-length :
    (visit : Dict ℕ) (xs : List WorkflowStep) → unmarked visit (step_ids xs) ≤ length xs
unfolding unmarked
unmarked-length visit [] = omega arith
unmarked-length visit (x ∷ xs) = ground (arith, unmarked-length visit xs)

-- The walks that validateWorkflowGraph makes in a graph.
abbrev walks : List WorkflowStep → Dict (List String) → Walk
walks xs g = walk_each (walk (suc (length xs)) g) (step_ids xs) []

Edges-known :
    (xs : List WorkflowStep) (g : Dict (List String))
    → AreKnown (step_ids xs) xs
    → build_graph (step_ids xs) xs [] ≡ some g
    → Edges (λ x d. contains d (step_ids xs) ≡ true) g
Edges-known xs g a e =
    Edges-build_graph (λ x d. contains d (step_ids xs) ≡ true) (step_ids xs) xs [] g e a
      (Edges-nil (λ x d. contains d (step_ids xs) ≡ true))

walks-Ends :
    (xs : List WorkflowStep) (g : Dict (List String))
    → (h : Edges (λ x d. contains d (step_ids xs) ≡ true) g)
    → Ends g (step_ids xs) h [] (walks xs g)
walks-Ends xs g h =
    let ids = step_ids xs in
    walk_each-Ends g ids h (walk (suc (length xs)) g) (suc (length xs))
      (walk-Ends g ids h (suc (length xs))) ids [] (All-contained ids)
      (omega (arith, unmarked-length [] xs))

Open-nil :
    (g : Dict (List String)) (r : String → ℕ) (h : Edges (λ x d. r d < r x) g) (n : ℕ)
    → Open g r h [] n
unfolding mark lookup_or lookup
Open-nil g r h n x m = omega (arith, m)

All-every : (P : String → Type 0) → ((x : String) → P x) → (xs : List String) → All P xs
All-every P f [] = tt
All-every P f (x ∷ xs) = (f x, All-every P f xs)

walks-Rises :
    (xs : List WorkflowStep) (g : Dict (List String)) (r : String → ℕ)
    → (h : Edges (λ x d. r d < r x) g) → Rises g r h [] (walks xs g)
walks-Rises xs g r h =
    walk_each-Rises g r h (walk (suc (length xs)) g) (walk-Rises g r h (suc (length xs)))
      (step_ids xs) []
      (All-every (λ d. Open g r h [] (r d)) (λ d. Open-nil g r h (r d)) (step_ids xs))

outcome-Ends :
    (g : Dict (List String)) (ids : List String) (h : Edges (λ x d. contains d ids ≡ true) g)
    (w : Walk)
    → Ends g ids h [] w
    → outcome w ≢ unfinished
unfolding outcome
outcome-Ends g ids h (walked visit) e q = cc
outcome-Ends g ids h cycle e q = cc
outcome-Ends g ids h out_of_fuel e q = e

outcome-Rises :
    (g : Dict (List String)) (r : String → ℕ) (h : Edges (λ x d. r d < r x) g) (w : Walk)
    → Rises g r h [] w
    → outcome w ≢ unfinished
    → outcome w ≡ valid
unfolding outcome
outcome-Rises g r h (walked visit) e q = refl
outcome-Rises g r h cycle e q = absurd e
outcome-Rises g r h out_of_fuel e q = absurd (q refl)

-- The order that walks leave behind has the identifiers that they started from.
outcome-Sound :
    (g : Dict (List String)) (ids : List String) (w : Walk)
    → Sound g [] ids w
    → outcome w ≡ valid
    → (order : List String) × IsOrdered g order × All (Has order) ids
unfolding outcome
outcome-Sound g ids cycle s q = cc
outcome-Sound g ids out_of_fuel s q = cc
outcome-Sound g ids (walked visit) (order, p, e, a) q = (order, p.1, a)

walks-Sound :
    (xs : List WorkflowStep) (g : Dict (List String)) → Sound g [] (step_ids xs) (walks xs g)
unfolding mark lookup_or lookup
walks-Sound xs g =
    walk_each-Sound g (walk (suc (length xs)) g) (walk-Sound g (suc (length xs))) (step_ids xs) []
      [] (λ x m. absurd (omega (arith, m)), tt)

-- An edge from an identifier of the order leads to a lower rank.
abbrev Falls : List String → String → String → Type 0
Falls order x d = Has order x → rank order d < rank order x

Edges-Falls :
    (g : Dict (List String)) (order : List String) → IsOrdered g order → Edges (Falls order) g
Edges-Falls g order o x = elim (Bool-cases (contains x order)) [
  | inl t ↦
      All-mono (Below g order x) (Falls order x) (λ d b h. b.1) (lookup_or [] x g)
        (rank-Below g order o x t)
  | inr f ↦ All-every (Falls order x) (λ d h. cc) (lookup_or [] x g)
]

Dependencies-ranked :
    (order : List String) (xs : List WorkflowStep)
    → Dependencies (Falls order) xs
    → All (Has order) (step_ids xs)
    → Dependencies (λ x d. rank order d < rank order x) xs
Dependencies-ranked order [] f a = tt
Dependencies-ranked order (x ∷ xs) f a = (
  All-mono (Falls order x.id) (λ d. rank order d < rank order x.id) (λ d k. k a.0) x.depends_on f.0,
  Dependencies-ranked order xs f.1 a.1,
)

graph-Ranked :
    (xs : List WorkflowStep) (g : Dict (List String))
    → build_graph (step_ids xs) xs [] ≡ some g
    → outcome (walks xs g) ≡ valid
    → Ranked xs
graph-Ranked xs g e v =
    let (order, o, a) = outcome-Sound g (step_ids xs) (walks xs g) (walks-Sound xs g) v in
    let (nothing, f) =
      build_graph-Edges (Falls order) (step_ids xs) xs [] g e (Edges-Falls g order o) in
    (rank order, Dependencies-ranked order xs f a)

graph_valid :
    (xs : List WorkflowStep) (g : Dict (List String))
    → AreKnown (step_ids xs) xs
    → Ranked xs
    → build_graph (step_ids xs) xs [] ≡ some g
    → outcome (walks xs g) ≡ valid
graph_valid xs g a (r, ds) e =
    let h = Edges-known xs g a e in
    let k : Edges (λ x d. r d < r x) g =
      Edges-build_graph (λ x d. r d < r x) (step_ids xs) xs [] g e ds
        (Edges-nil (λ x d. r d < r x)) in
    outcome-Rises g r k (walks xs g) (walks-Rises xs g r k)
      (outcome-Ends g (step_ids xs) h (walks xs g) (walks-Ends xs g h))

-- The check of a workflow's graph always ends: the model's fuel never runs out.
pub validation_ends : (xs : List WorkflowStep) → validate_workflow_graph xs ≢ unfinished
unfolding validate_workflow_graph walk_graph
validation_ends xs = elim (Option-cases (build_graph (step_ids xs) xs [])) [
  | inl e ↦ rw e (λ q. cc)
  | inr (g, e) ↦
      let h = Edges-known xs g (build_graph-AreKnown (step_ids xs) xs [] g e) e in
      rw e (outcome-Ends g (step_ids xs) h (walks xs g) (walks-Ends xs g h))
]

accepted_sound :
    (xs : List WorkflowStep) (built : Option (Dict (List String)))
    → build_graph (step_ids xs) xs [] ≡ built
    → walk_graph xs built ≡ valid
    → AreKnown (step_ids xs) xs × Ranked xs
unfolding walk_graph
accepted_sound xs none e v = cc
accepted_sound xs (some g) e v =
    (build_graph-AreKnown (step_ids xs) xs [] g e, graph-Ranked xs g e v)

accepted_complete :
    (xs : List WorkflowStep)
    → AreKnown (step_ids xs) xs × Ranked xs
    → validate_workflow_graph xs ≡ valid
unfolding validate_workflow_graph walk_graph
accepted_complete xs (a, k) =
    let (g, e) = build_graph_of_known (step_ids xs) xs [] a in rw e (graph_valid xs g a k e)

-- The check accepts the steps of a workflow exactly when every dependency is one of the steps and the
-- steps can be numbered so that each has a greater number than the steps that it depends on. (So a
-- workflow that is accepted has no cycle of dependencies, and every other workflow without a cycle
-- and without an unknown step is accepted.)
pub valid_iff_Ranked :
    (xs : List WorkflowStep)
    → (validate_workflow_graph xs ≡ valid) ↔ (AreKnown (step_ids xs) xs × Ranked xs)
unfolding validate_workflow_graph walk_graph
valid_iff_Ranked xs =
    (λ v. accepted_sound xs (build_graph (step_ids xs) xs []) refl v, λ k. accepted_complete xs k)
