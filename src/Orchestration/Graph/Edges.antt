-- ===== src/Orchestration/Graph/Edges.antt =====
-- The graph that validateWorkflowGraph builds: its edges are the dependencies of the steps.
use agent_federation_hub.Base.{
  String, ◌≡◌, true, false, List, [], ◌∷◌, ◌++◌, Option, some, All, All-append, append-All, subst,
  sym, arith, ◌==◌, eq_refl, eq_iff, Bool-cases, inl, inr,
}
use agent_federation_hub.Base.Text.{contains}
use agent_federation_hub.Base.Dict.{Dict, lookup_or, insert, lookup_or-insert}
use agent_federation_hub.Model.Workflow.{WorkflowStep}
use agent_federation_hub.Orchestration.Graph.{add_edges, all_known, build_graph}

module _ (P : String → String → Type 0) where
  -- What holds of every edge.
  abbrev pub Edges : Dict (List String) → Type 0
  Edges g = (x : String) → All (P x) (lookup_or [] x g)

  -- What holds of every dependency of every step.
  abbrev pub Dependencies : List WorkflowStep → Type 0
  Dependencies xs = All (λ x. All (P x.id) x.depends_on) xs

  edges_same :
      (id d x : String) (g : Dict (List String))
      → (id == x) ≡ true
      → lookup_or [] x (insert id (lookup_or [] id g ++ d ∷ []) g) ≡ lookup_or [] x g ++ d ∷ []
  edges_same id d x g t =
      ground (arith, t, eq_iff id x, lookup_or-insert [] id x (lookup_or [] id g ++ d ∷ []) g)

  edges_other :
      (id d x : String) (g : Dict (List String))
      → (id == x) ≡ false
      → lookup_or [] x (insert id (lookup_or [] id g ++ d ∷ []) g) ≡ lookup_or [] x g
  edges_other id d x g f =
      ground (arith, f, lookup_or-insert [] id x (lookup_or [] id g ++ d ∷ []) g)

  Edges-insert :
      (id d : String) (g : Dict (List String))
      → P id d
      → Edges g
      → Edges (insert id (lookup_or [] id g ++ d ∷ []) g)
  Edges-insert id d g p h x = elim (Bool-cases (id == x)) [
    | inl t ↦ rw (edges_same id d x g t) (
        All-append (P x) (lookup_or [] x g) (d ∷ []) (h x)
          (subst (λ i. P i d) ((eq_iff id x).0 t) p, tt))
    | inr f ↦ rw (edges_other id d x g f) (h x)
  ]

  insert-Edges :
      (id d : String) (g : Dict (List String))
      → Edges (insert id (lookup_or [] id g ++ d ∷ []) g)
      → Edges g × P id d
  insert-Edges id d g h = (
    λ x. elim (Bool-cases (id == x)) [
      | inl t ↦
          (append-All (P x) (lookup_or [] x g) (d ∷ [])
            (subst (All (P x)) (edges_same id d x g t) (h x))).0
      | inr f ↦ subst (All (P x)) (edges_other id d x g f) (h x)
    ],
    (append-All (P id) (lookup_or [] id g) (d ∷ [])
        (subst (All (P id)) (edges_same id d id g (eq_refl id)) (h id))).1.0,
  )

  Edges-add_edges :
      (id : String) (ds : List String) (g : Dict (List String))
      → All (P id) ds
      → Edges g
      → Edges (add_edges id ds g)
  unfolding add_edges
  Edges-add_edges id [] g a h = h
  Edges-add_edges id (d ∷ ds) g a h =
      Edges-add_edges id ds (insert id (lookup_or [] id g ++ d ∷ []) g) a.1
        (Edges-insert id d g a.0 h)

  add_edges-Edges :
      (id : String) (ds : List String) (g : Dict (List String))
      → Edges (add_edges id ds g)
      → Edges g × All (P id) ds
  unfolding add_edges
  add_edges-Edges id [] g h = (h, tt)
  add_edges-Edges id (d ∷ ds) g h =
      let (h', a) = add_edges-Edges id ds (insert id (lookup_or [] id g ++ d ∷ []) g) h in
      let (h'', p) = insert-Edges id d g h' in (h'', (p, a))

  built_nothing :
      (g g' : Dict (List String))
      → ◌≡◌ {A = Option (Dict (List String))} (some g) (some g')
      → g ≡ g'
  built_nothing g g' e = cc

  -- A graph that is built has no other edges than the dependencies.
  pub Edges-build_graph :
      (known : List String) (xs : List WorkflowStep) (g g' : Dict (List String))
      → build_graph known xs g ≡ some g'
      → Dependencies xs
      → Edges g
      → Edges g'
  unfolding build_graph
  Edges-build_graph known [] g g' e a h = rw (sym (built_nothing g g' e)) h
  Edges-build_graph known (x ∷ xs) g g' e a h =
      Edges-build_graph known xs (add_edges x.id x.depends_on g) g' (ground (arith, e)) a.1
        (Edges-add_edges x.id x.depends_on g a.0 h)

  pub build_graph-Edges :
      (known : List String) (xs : List WorkflowStep) (g g' : Dict (List String))
      → build_graph known xs g ≡ some g'
      → Edges g'
      → Edges g × Dependencies xs
  unfolding build_graph
  build_graph-Edges known [] g g' e h = (rw (built_nothing g g' e) h, tt)
  build_graph-Edges known (x ∷ xs) g g' e h =
      let (h', a) =
        build_graph-Edges known xs (add_edges x.id x.depends_on g) g' (ground (arith, e)) h in
      let (h'', b) = add_edges-Edges x.id x.depends_on g h' in (h'', (b, a))

all_known-All :
    (known ds : List String) → all_known known ds ≡ true → All (λ d. contains d known ≡ true) ds
unfolding all_known
all_known-All known [] h = tt
all_known-All known (d ∷ ds) h = ground (arith, h, all_known-All known ds)

All-all_known :
    (known ds : List String) → All (λ d. contains d known ≡ true) ds → all_known known ds ≡ true
unfolding all_known
All-all_known known [] h = cc
All-all_known known (d ∷ ds) h = ground (arith, h.0, All-all_known known ds h.1)

-- Every dependency is a step.
abbrev pub AreKnown : List String → List WorkflowStep → Type 0
AreKnown known xs = Dependencies (λ x d. contains d known ≡ true) xs

pub build_graph-AreKnown :
    (known : List String) (xs : List WorkflowStep) (g g' : Dict (List String))
    → build_graph known xs g ≡ some g'
    → AreKnown known xs
unfolding build_graph
build_graph-AreKnown known [] g g' e = tt
build_graph-AreKnown known (x ∷ xs) g g' e = (
  all_known-All known x.depends_on (ground (arith, e)),
  build_graph-AreKnown known xs (add_edges x.id x.depends_on g) g' (ground (arith, e)),
)

pub build_graph_of_known :
    (known : List String) (xs : List WorkflowStep) (g : Dict (List String))
    → AreKnown known xs
    → (g' : Dict (List String)) × (build_graph known xs g ≡ some g')
unfolding build_graph
build_graph_of_known known [] g a = (g, cc)
build_graph_of_known known (x ∷ xs) g a =
    let (g', e) = build_graph_of_known known xs (add_edges x.id x.depends_on g) a.1 in
    (g', ground (arith, e, All-all_known known x.depends_on a.0))
