-- ===== src/Orchestration/Graph/Depth.antt =====
-- How deep the walk of validateWorkflowGraph goes: every call marks another step.
use agent_federation_hub.Base.{
  ℕ, zero, suc, String, Bool, ◌≡◌, ◌≤◌, ◌<◌, ◌+◌, true, not, ◌&&◌, List, [], ◌∷◌, All, arith, eqb,
  eq_iff, if◌then◌else◌, refl, inl, inr, ◌⊎◌,
}
use agent_federation_hub.Base.Text.{contains}
use agent_federation_hub.Base.Dict.{Dict, lookup_or, insert, lookup_or-insert}
use agent_federation_hub.Orchestration.Graph.{
  Walk, walked, cycle, out_of_fuel, and_walk, walk_each, finish, walk,
}
use agent_federation_hub.Orchestration.Graph.Edges.{Edges}
use agent_federation_hub.Orchestration.Graph.Order.{mark, walk-cases}

abbrev is_fresh : Dict ℕ → String → Bool
is_fresh visit x = not (eqb (mark x visit) 1) && not (eqb (mark x visit) 2)

-- The identifiers that are not marked yet.
unfoldable pub unmarked : Dict ℕ → List String → ℕ
unmarked visit [] = 0
unmarked visit (x ∷ xs) = (if is_fresh visit x then 1 else 0) + unmarked visit xs

abbrev IsFewer : Dict ℕ → Dict ℕ → Type 0
IsFewer visit' visit = (x : String) → is_fresh visit' x ≡ true → is_fresh visit x ≡ true

unmarked-IsFewer :
    (visit' visit : Dict ℕ) (ids : List String)
    → IsFewer visit' visit
    → unmarked visit' ids ≤ unmarked visit ids
unfolding unmarked
unmarked-IsFewer visit' visit [] h = omega arith
unmarked-IsFewer visit' visit (x ∷ xs) h = ground (arith, h x, unmarked-IsFewer visit' visit xs h)

IsFewer-insert :
    (id : String) (n : ℕ) (visit : Dict ℕ) → (n ≡ 1) ⊎ (n ≡ 2) → IsFewer (insert id n visit) visit
unfolding mark
IsFewer-insert id n visit k x f = ground (arith, k, f, lookup_or-insert 0 id x n visit)

unmarked-insert :
    (id : String) (visit : Dict ℕ) (ids : List String)
    → is_fresh visit id ≡ true
    → contains id ids ≡ true
    → suc (unmarked (insert id 1 visit) ids) ≤ unmarked visit ids
unfolding unmarked contains mark
unmarked-insert id visit [] f h = cc
unmarked-insert id visit (x ∷ xs) f h = ground (
  arith,
  f,
  h,
  eq_iff x id,
  lookup_or-insert 0 id x 1 visit,
  unmarked-insert id visit xs f,
  unmarked-IsFewer (insert id 1 visit) visit xs (IsFewer-insert id 1 visit (inl refl)),
)

-- In a graph whose edges lead to known identifiers.
module _ (g : Dict (List String)) (ids : List String)
    (h : Edges (λ x d. contains d ids ≡ true) g) where
  abbrev pub Ends : Dict ℕ → Walk → Type 0
  Ends visit (walked visit') = IsFewer visit' visit
  Ends visit cycle = Unit
  Ends visit out_of_fuel = ⊥

  and_walk-Ends :
      (visit : Dict ℕ) (fuel : ℕ) (w : Walk) (next : Dict ℕ → Walk)
      → unmarked visit ids < fuel
      → Ends visit w
      → ((visit' : Dict ℕ) → unmarked visit' ids < fuel → Ends visit' (next visit'))
      → Ends visit (and_walk w next)
  unfolding and_walk
  and_walk-Ends visit fuel cycle next l e k = tt
  and_walk-Ends visit fuel out_of_fuel next l e k = e
  and_walk-Ends visit fuel (walked visit') next l e k =
      after (next visit') (k visit' (omega (arith, l, unmarked-IsFewer visit' visit ids e)))
    where
      after : (w : Walk) → Ends visit' w → Ends visit w
      after (walked visit'') f = λ x q. e x (f x q)
      after cycle f = tt
      after out_of_fuel f = f

  pub walk_each-Ends :
      (one : String → Dict ℕ → Walk) (fuel : ℕ)
      → ((d : String) (visit : Dict ℕ)
          → contains d ids ≡ true
          → unmarked visit ids < fuel
          → Ends visit (one d visit))
      → (ds : List String) (visit : Dict ℕ) → All (λ d. contains d ids ≡ true) ds
      → unmarked visit ids < fuel
      → Ends visit (walk_each one ds visit)
  unfolding walk_each
  walk_each-Ends one fuel k [] visit a l = λ x q. q
  walk_each-Ends one fuel k (d ∷ ds) visit a l =
      and_walk-Ends visit fuel (one d visit) (walk_each one ds) l (k d visit a.0 l)
        (λ visit' l'. walk_each-Ends one fuel k ds visit' a.1 l')

  finish-Ends :
      (id : String) (visit : Dict ℕ) (w : Walk)
      → Ends (insert id 1 visit) w
      → Ends visit (finish id w)
  unfolding finish
  finish-Ends id visit cycle e = tt
  finish-Ends id visit out_of_fuel e = e
  finish-Ends id visit (walked visit') e = λ x q.
      IsFewer-insert id 1 visit (inl refl) x (e x (IsFewer-insert id 2 visit' (inr refl) x q))

  -- Fuel for more calls than there are unmarked identifiers is enough.
  pub walk-Ends :
      (fuel : ℕ) (id : String) (visit : Dict ℕ)
      → contains id ids ≡ true
      → unmarked visit ids < fuel
      → Ends visit (walk fuel g id visit)
  unfolding walk
  walk-Ends zero id visit k l = omega (arith, l)
  walk-Ends (suc fuel) id visit k l =
      walk-cases (Ends visit) fuel g id visit (λ m. tt) (λ m x q. q)
        (λ one two.
          finish-Ends id visit (walk_each (walk fuel g) (lookup_or [] id g) (insert id 1 visit)) (
            walk_each-Ends (walk fuel g) fuel (walk-Ends fuel) (lookup_or [] id g)
              (insert id 1 visit) (h id)
              (omega (arith, l, unmarked-insert id visit ids (ground (arith, one, two)) k))))
