-- ===== src/Orchestration/Schedule/Progress.antt =====
-- Which steps submitWorkflowReady (internal/orchestration/workflow.go) finds ready or blocked while a
-- workflow has steps that were not started.
use agent_federation_hub.Base.{
  ℕ, zero, suc, ◌<◌, String, ◌≡◌, ◌≢◌, ◌⊎◌, inl, inr, refl, subst, Bool, true, false, ◌&&◌, List,
  [], ◌∷◌, ◌++◌, some, ◌==◌, eq_iff, All, All-mono, All-pair, arith, Bool-cases,
}
use agent_federation_hub.Base.Text.{contains}
use agent_federation_hub.Model.{is_terminal}
use agent_federation_hub.Model.Workflow.{WorkflowStep}
use agent_federation_hub.Orchestration.Graph.{
  find_workflow_step, step_ids, validate_workflow_graph, valid,
}
use agent_federation_hub.Orchestration.Graph.Edges.{Dependencies, AreKnown}
use agent_federation_hub.Orchestration.Graph.Valid.{valid_iff_Ranked}
use agent_federation_hub.Orchestration.Schedule.{
  is_open, is_finished, are_finished, is_ready, is_blocked, indices, ready_steps, blocked_steps,
}

-- The step can be submitted or refused now.
abbrev is_candidate : List WorkflowStep → WorkflowStep → Bool
is_candidate xs x = is_open x && are_finished xs x.depends_on

indices_later :
    (p : WorkflowStep → Bool) (i : ℕ) (x : WorkflowStep) (xs : List WorkflowStep)
    → indices p (suc i) xs ≢ []
    → indices p i (x ∷ xs) ≢ []
unfolding indices
indices_later p i x xs h e = ground (arith, h, e)

indices_here :
    (p : WorkflowStep → Bool) (i : ℕ) (x : WorkflowStep) (xs : List WorkflowStep)
    → p x ≡ true
    → indices p i (x ∷ xs) ≢ []
unfolding indices
indices_here p i x xs t e = ground (arith, t, e)

All-indices :
    (p : WorkflowStep → Bool) (i : ℕ) (xs : List WorkflowStep)
    → All (λ y. p y ≡ true → indices p i xs ≢ []) xs
All-indices p i [] = tt
All-indices p i (x ∷ xs) = (
  indices_here p i x xs,
  All-mono (λ y. p y ≡ true → indices p (suc i) xs ≢ [])
      (λ y. p y ≡ true → indices p i (x ∷ xs) ≢ []) (λ y h t. indices_later p i x xs (h t)) xs
      (All-indices p (suc i) xs),
)

All-find :
    (P : WorkflowStep → Type 0) (xs : List WorkflowStep) (d : String) (y : WorkflowStep)
    → All P xs
    → find_workflow_step xs d ≡ some y
    → P y × (y.id ≡ d)
unfolding find_workflow_step
All-find P [] d y a e = cc
All-find P (x ∷ xs) d y a e = elim (Bool-cases (x.id == d)) [
  | inl t ↦
      let same : x ≡ y = ground (arith, t, e) in
      (subst P same a.0, subst (λ z. z.id ≡ d) same ((eq_iff x.id d).0 t))
  | inr f ↦ All-find P xs d y a.1 (ground (arith, f, e))
]

find_known :
    (xs : List WorkflowStep) (d : String)
    → contains d (step_ids xs) ≡ true
    → (y : WorkflowStep) × (find_workflow_step xs d ≡ some y)
unfolding find_workflow_step contains
find_known [] d h = cc
find_known (x ∷ xs) d h = elim (Bool-cases (x.id == d)) [
  | inl t ↦ (x, ground (arith, t))
  | inr f ↦ let (y, e) = find_known xs d (ground (arith, f, h)) in (y, ground (arith, f, e))
]

-- A dependency that is not finished.
unfinished_of :
    (P : String → Type 0) (xs : List WorkflowStep) (ds : List String)
    → are_finished xs ds ≡ false
    → All P ds
    → (d : String) × (is_finished (find_workflow_step xs d) ≡ false) × P d
unfolding are_finished
unfinished_of P xs [] f a = cc
unfinished_of P xs (d ∷ ds) f a = elim (Bool-cases (is_finished (find_workflow_step xs d))) [
  | inl t ↦ unfinished_of P xs ds (ground (arith, t, f)) a.1
  | inr k ↦ (d, k, a.0)
]

module _ (xs : List WorkflowStep) (r : String → ℕ) where
  abbrev Found : Type 0
  Found = indices (is_candidate xs) 0 xs ≢ []

  -- The step was not started or is terminal, its dependencies are known and of lower rank, and it is one
  -- of the steps.
  abbrev Good : WorkflowStep → Type 0
  Good y =
      ((is_open y ≡ true) ⊎ (is_terminal y.state ≡ true))
      × All (λ d. (contains d (step_ids xs) ≡ true) × (r d < r y.id)) y.depends_on
      × (is_candidate xs y ≡ true → Found)

  still_open :
      (d : String) (y : WorkflowStep)
      → find_workflow_step xs d ≡ some y
      → is_finished (find_workflow_step xs d) ≡ false
      → (is_open y ≡ true) ⊎ (is_terminal y.state ≡ true)
      → is_open y ≡ true
  unfolding is_finished
  still_open d y e f (inl o) = o
  still_open d y e f (inr t) = ground (arith, e, f, t)

  -- Below an open step there is a candidate.
  descend :
      (n : ℕ) (x : WorkflowStep) → All Good xs → Good x → is_open x ≡ true → r x.id < n → Found
  descend zero x a g o l = absurd (omega (arith, l))
  descend (suc n) x a g o l = elim (Bool-cases (are_finished xs x.depends_on)) [
    | inl t ↦ g.2 (rw (o, t) refl)
    | inr f ↦
        let (d, k, (c, less)) =
          unfinished_of (λ d. (contains d (step_ids xs) ≡ true) × (r d < r x.id)) xs x.depends_on f
            g.1 in
        let (y, e) = find_known xs d c in
        let (good, same) = All-find Good xs d y a e in
        descend n y a good (still_open d y e k good.0) (rw same (omega (arith, less, l)))
  ]

  first_open :
      (i : ℕ) (ys : List WorkflowStep)
      → All Good ys
      → indices is_open i ys ≢ []
      → (x : WorkflowStep) × (is_open x ≡ true) × Good x
  unfolding indices
  first_open i [] a h = absurd (h refl)
  first_open i (y ∷ ys) a h = elim (Bool-cases (is_open y)) [
    | inl t ↦ (y, t, a.0)
    | inr f ↦ first_open (suc i) ys a.1 (λ e. h (ground (arith, f, e)))
  ]

no_candidates :
    (zs : List WorkflowStep) (i : ℕ) (xs : List WorkflowStep)
    → indices (is_ready zs) i xs ≡ []
    → indices (is_blocked zs) i xs ≡ []
    → indices (is_candidate zs) i xs ≡ []
unfolding indices is_ready is_blocked
no_candidates zs i [] h k = refl
no_candidates zs i (x ∷ xs) h k = ground (arith, h, k, no_candidates zs (suc i) xs)

-- The step was not started, or its Task has ended.
abbrev pub IsSettled : WorkflowStep → Type 0
IsSettled x = (is_open x ≡ true) ⊎ (is_terminal x.state ≡ true)

All-Good :
    (xs : List WorkflowStep) (r : String → ℕ)
    → All IsSettled xs
    → AreKnown (step_ids xs) xs
    → Dependencies (λ x d. r d < r x) xs
    → All (Good xs r) xs
All-Good xs r s k d =
    let known = λ (x : WorkflowStep). All (λ i. contains i (step_ids xs) ≡ true) x.depends_on in
    let lower = λ (x : WorkflowStep). All (λ i. r i < r x.id) x.depends_on in
    let found = λ (x : WorkflowStep). is_candidate xs x ≡ true → Found xs r in
    let deps = All-pair known lower xs k d in
    let rest =
      All-pair (λ x. known x × lower x) found xs deps (All-indices (is_candidate xs) 0 xs) in
    All-mono (λ x. IsSettled x × ((known x × lower x) × found x)) (Good xs r)
      (λ x h. (
        h.0,
        All-pair (λ i. contains i (step_ids xs) ≡ true) (λ i. r i < r x.id) x.depends_on h.1.0.0
            h.1.0.1,
        h.1.1,
      ))
      xs (All-pair IsSettled (λ x. (known x × lower x) × found x) xs s rest)

append_empty : (is js : List ℕ) → is ++ js ≡ [] → (is ≡ []) × (js ≡ [])
append_empty [] js e = (refl, e)
append_empty (i ∷ is) js e = cc

-- In a workflow that the check of its graph accepts, and where the Task of every step that was started
-- has ended: while a step is left that was not started, some step is ready or some step is
-- blocked.
pub schedule_progresses :
    (xs : List WorkflowStep)
    → validate_workflow_graph xs ≡ valid
    → All IsSettled xs
    → indices is_open 0 xs ≢ []
    → ready_steps xs ++ blocked_steps xs ≢ []
unfolding ready_steps blocked_steps
schedule_progresses xs v s o none_left =
    let (none_ready, none_blocked) = append_empty (ready_steps xs) (blocked_steps xs) none_left in
    let (known, (r, lower)) = (valid_iff_Ranked xs).0 v in
    let good = All-Good xs r s known lower in
    let (x, left, g) = first_open xs r 0 xs good o in
    descend xs r (suc (r x.id)) x good g left (omega arith)
      (no_candidates xs 0 xs none_ready none_blocked)
