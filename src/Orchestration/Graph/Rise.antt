-- ===== src/Orchestration/Graph/Rise.antt =====
-- When the walk of validateWorkflowGraph meets no cycle: in a graph with a rank, the marks of the open
-- calls are on steps of higher rank.
use agent_federation_hub.Base.{
  ℕ, zero, suc, String, ◌≡◌, ◌<◌, List, [], ◌∷◌, All, All-mono, arith, eq_iff,
}
use agent_federation_hub.Base.Dict.{Dict, lookup_or, insert, lookup_or-insert}
use agent_federation_hub.Orchestration.Graph.{
  Walk, walked, cycle, out_of_fuel, and_walk, walk_each, finish, walk,
}
use agent_federation_hub.Orchestration.Graph.Edges.{Edges}
use agent_federation_hub.Orchestration.Graph.Order.{mark, walk-cases}

-- In a graph with a rank.
module _ (g : Dict (List String)) (r : String → ℕ) (h : Edges (λ x d. r d < r x) g) where
  -- The open calls are on identifiers of higher rank.
  abbrev pub Open : Dict ℕ → ℕ → Type 0
  Open visit n = (x : String) → mark x visit ≡ 1 → n < r x

  abbrev pub Rises : Dict ℕ → Walk → Type 0
  Rises visit (walked visit') = (x : String) → mark x visit' ≡ 1 → mark x visit ≡ 1
  Rises visit cycle = ⊥
  Rises visit out_of_fuel = Unit

  and_walk-Rises :
      (visit : Dict ℕ) (w : Walk) (next : Dict ℕ → Walk)
      → Rises visit w
      → ((visit' : Dict ℕ)
          → ((x : String) → mark x visit' ≡ 1 → mark x visit ≡ 1)
          → Rises visit' (next visit'))
      → Rises visit (and_walk w next)
  unfolding and_walk
  and_walk-Rises visit cycle next e k = e
  and_walk-Rises visit out_of_fuel next e k = tt
  and_walk-Rises visit (walked visit') next e k = after (next visit') (k visit' e)
    where
      after : (w : Walk) → Rises visit' w → Rises visit w
      after (walked visit'') f = λ x q. e x (f x q)
      after cycle f = f
      after out_of_fuel f = tt

  pub walk_each-Rises :
      (one : String → Dict ℕ → Walk)
      → ((d : String) (visit : Dict ℕ) → Open visit (r d) → Rises visit (one d visit))
      → (ds : List String) (visit : Dict ℕ) → All (λ d. Open visit (r d)) ds
      → Rises visit (walk_each one ds visit)
  unfolding walk_each
  walk_each-Rises one k [] visit a = λ x q. q
  walk_each-Rises one k (d ∷ ds) visit a =
      and_walk-Rises visit (one d visit) (walk_each one ds) (k d visit a.0) (λ visit' e.
        walk_each-Rises one k ds visit' (
          All-mono (λ i. Open visit (r i)) (λ i. Open visit' (r i)) (λ i o x q. o x (e x q)) ds
            a.1))

  mark_closed :
      (id x : String) (visit visit' : Dict ℕ)
      → (mark x visit' ≡ 1 → mark x (insert id 1 visit) ≡ 1)
      → mark x (insert id 2 visit') ≡ 1
      → mark x visit ≡ 1
  unfolding mark
  mark_closed id x visit visit' e m =
      ground (arith, e, m, lookup_or-insert 0 id x 1 visit, lookup_or-insert 0 id x 2 visit')

  finish-Rises :
      (id : String) (visit : Dict ℕ) (w : Walk)
      → Rises (insert id 1 visit) w
      → Rises visit (finish id w)
  unfolding finish
  finish-Rises id visit cycle e = e
  finish-Rises id visit out_of_fuel e = tt
  finish-Rises id visit (walked visit') e = λ x. mark_closed id x visit visit' (e x)

  Open-insert :
      (id d : String) (visit : Dict ℕ)
      → Open visit (r id)
      → r d < r id
      → Open (insert id 1 visit) (r d)
  unfolding mark
  Open-insert id d visit o l x m =
      ground (arith, o x, l, m, eq_iff id x, lookup_or-insert 0 id x 1 visit)

  -- No walk meets a cycle.
  pub walk-Rises :
      (fuel : ℕ) (id : String) (visit : Dict ℕ)
      → Open visit (r id)
      → Rises visit (walk fuel g id visit)
  unfolding walk
  walk-Rises zero id visit o = tt
  walk-Rises (suc fuel) id visit o =
      walk-cases (Rises visit) fuel g id visit (λ m. omega (arith, o id m)) (λ m x q. q)
        (λ one two.
          finish-Rises id visit (walk_each (walk fuel g) (lookup_or [] id g) (insert id 1 visit)) (
            walk_each-Rises (walk fuel g) (walk-Rises fuel) (lookup_or [] id g) (insert id 1 visit)
              (All-mono (λ d. r d < r id) (λ d. Open (insert id 1 visit) (r d))
                (λ d l. Open-insert id d visit o l) (lookup_or [] id g) (h id))))
