-- ===== src/Orchestration/Graph/Order.antt =====
-- An order of the steps that the walk of a graph leaves behind, and a rank of the steps from it.
use agent_federation_hub.Base.{
  ℕ, zero, suc, String, ◌≡◌, ◌≤◌, true, false, List, [], ◌∷◌, length, All, All-mono, arith, eqb,
  eq_refl, eq_iff, subst, ◌<◌, Bool-cases, inl, inr, if◌then◌else◌,
}
use agent_federation_hub.Base.Text.{contains}
use agent_federation_hub.Base.Dict.{Dict, lookup_or, insert, lookup_or-insert}
use agent_federation_hub.Orchestration.Graph.{
  Walk, walked, cycle, out_of_fuel, and_walk, walk_each, finish, walk,
}

unfoldable pub mark : String → Dict ℕ → ℕ
mark id visit = lookup_or 0 id visit

abbrev pub Has : List String → String → Type 0
Has order x = contains x order ≡ true

abbrev pub Extends : List String → List String → Type 0
Extends order order' = (x : String) → Has order x → Has order' x

All-Extends :
    (order order' ids : List String)
    → Extends order order'
    → All (Has order) ids
    → All (Has order') ids
All-Extends order order' ids e h = All-mono (Has order) (Has order') e ids h

contains-cons : (y : String) (order : List String) → Extends order (y ∷ order)
unfolding contains
contains-cons y order x h = ground (arith, h)

contains_first : (y : String) (order : List String) → Has (y ∷ order) y
unfolding contains
contains_first y order = ground (arith, eq_refl y)

-- The place of an identifier in a list, counted from the end, at its last occurrence.
unfoldable pub rank : List String → String → ℕ
unfolding contains
rank [] x = 0
rank (y ∷ ys) x = let later = rank ys x in if contains x ys then later else suc (length ys)

rank-length : (order : List String) (x : String) → rank order x ≤ length order
unfolding rank
rank-length [] x = omega arith
rank-length (y ∷ ys) x = ground (arith, rank-length ys x)

marked_done :
    (id x : String) (order : List String) (visit : Dict ℕ)
    → (mark x visit ≡ 2 → Has order x)
    → mark x (insert id 2 visit) ≡ 2
    → Has (id ∷ order) x
unfolding contains mark
marked_done id x order visit h m = ground (arith, h, m, lookup_or-insert 0 id x 2 visit)

mark_entered : (id x : String) (visit : Dict ℕ) → mark x (insert id 1 visit) ≡ 2 → mark x visit ≡ 2
unfolding mark
mark_entered id x visit m = ground (arith, m, lookup_or-insert 0 id x 1 visit)

-- To split a walk on the mark of its identifier.
pub walk-cases {ℓ} :
    (P : Walk → Type ℓ) (fuel : ℕ) (g : Dict (List String)) (id : String) (visit : Dict ℕ)
    → (mark id visit ≡ 1 → P cycle)
    → (mark id visit ≡ 2 → P (walked visit))
    → (eqb (mark id visit) 1 ≡ false
        → eqb (mark id visit) 2 ≡ false
        → P (finish id (walk_each (walk fuel g) (lookup_or [] id g) (insert id 1 visit))))
    → P (walk (suc fuel) g id visit)
unfolding walk mark
walk-cases P fuel g id visit one two other = elim (Bool-cases (eqb (mark id visit) 1)) [
  | inl t ↦ rw t (one (ground (arith, t)))
  | inr f ↦ elim (Bool-cases (eqb (mark id visit) 2)) [
    | inl t ↦ rw (f, t) (two (ground (arith, t)))
    | inr k ↦ rw (f, k) (other f k)
  ]
]

module _ (g : Dict (List String)) where
  abbrev pub edges : String → List String
  edges x = lookup_or [] x g

  -- Each identifier stands before those that it depends on.
  abbrev pub IsOrdered : List String → Type 0
  IsOrdered [] = Unit
  IsOrdered (x ∷ xs) = All (Has xs) (edges x) × IsOrdered xs

  abbrev pub Placed : Dict ℕ → List String → Type 0
  Placed visit order = ((x : String) → mark x visit ≡ 2 → Has order x) × IsOrdered order

  abbrev pub Sound : List String → List String → Walk → Type 0
  Sound order ids (walked visit) =
      (order' : List String) × Placed visit order' × Extends order order' × All (Has order') ids
  Sound order ids cycle = Unit
  Sound order ids out_of_fuel = Unit

  and_walk-Sound :
      (order : List String) (d : String) (ds : List String) (w : Walk) (next : Dict ℕ → Walk)
      → Sound order (d ∷ []) w
      → ((visit : Dict ℕ) (o : List String) → Placed visit o → Sound o ds (next visit))
      → Sound order (d ∷ ds) (and_walk w next)
  unfolding and_walk
  and_walk-Sound order d ds cycle next s h = tt
  and_walk-Sound order d ds out_of_fuel next s h = tt
  and_walk-Sound order d ds (walked visit) next (o, p, e, a) h = after (next visit) (h visit o p)
    where
      after : (w : Walk) → Sound o ds w → Sound order (d ∷ ds) w
      after cycle t = tt
      after out_of_fuel t = tt
      after (walked visit') (o', p', e', a') = (o', p', λ x k. e' x (e x k), (e' d a.0, a'))

  pub walk_each-Sound :
      (one : String → Dict ℕ → Walk)
      → ((d : String) (visit : Dict ℕ) (o : List String)
          → Placed visit o
          → Sound o (d ∷ []) (one d visit))
      → (ds : List String) (visit : Dict ℕ) (order : List String) → Placed visit order
      → Sound order ds (walk_each one ds visit)
  unfolding walk_each
  walk_each-Sound one h [] visit order p = (order, p, λ x k. k, tt)
  walk_each-Sound one h (d ∷ ds) visit order p =
      and_walk-Sound order d ds (one d visit) (walk_each one ds) (h d visit order p)
        (λ visit' o. walk_each-Sound one h ds visit' o)

  finish-Sound :
      (id : String) (order : List String) (w : Walk)
      → Sound order (edges id) w
      → Sound order (id ∷ []) (finish id w)
  unfolding finish
  finish-Sound id order cycle s = tt
  finish-Sound id order out_of_fuel s = tt
  finish-Sound id order (walked visit) (o, p, e, a) = (
    id ∷ o,
    ((λ x m. marked_done id x o visit (p.0 x) m), (a, p.1)),
    (λ x k. contains-cons id o x (e x k)),
    (contains_first id o, tt),
  )

  pub walk-Sound :
      (fuel : ℕ) (id : String) (visit : Dict ℕ) (order : List String)
      → Placed visit order
      → Sound order (id ∷ []) (walk fuel g id visit)
  unfolding walk
  walk-Sound zero id visit order p = tt
  walk-Sound (suc fuel) id visit order p =
      walk-cases (Sound order (id ∷ [])) fuel g id visit (λ m. tt)
        (λ m. (order, p, λ x k. k, (p.0 id m, tt)))
        (λ m k. finish-Sound id order (walk_each (walk fuel g) (edges id) (insert id 1 visit)) (
          walk_each-Sound (walk fuel g) (walk-Sound fuel) (edges id) (insert id 1 visit) order
            (λ x marked. p.0 x (mark_entered id x visit marked), p.1)))

  abbrev pub Below : List String → String → String → Type 0
  Below order x d = Has order d × (rank order d < rank order x)

  Below-later :
      (y : String) (ys : List String) (x d : String) → Has ys x → Below ys x d → Below (y ∷ ys) x d
  unfolding rank contains
  Below-later y ys x d h b = ground (arith, h, b)

  Below-first :
      (y : String) (ys : List String) (x d : String)
      → contains x ys ≡ false
      → Has ys d
      → Below (y ∷ ys) x d
  unfolding rank contains
  Below-first y ys x d f h = ground (arith, f, h, rank-length ys d)

  first_of :
      (y : String) (ys : List String) (x : String) → Has (y ∷ ys) x → contains x ys ≡ false → y ≡ x
  unfolding contains
  first_of y ys x h f = ground (arith, h, f, eq_iff y x)

  -- In an ordered list the dependencies of an identifier are of lower rank.
  pub rank-Below :
      (order : List String)
      → IsOrdered order
      → (x : String) → Has order x
      → All (Below order x) (edges x)
  unfolding contains
  rank-Below [] o x h = cc
  rank-Below (y ∷ ys) (e, o) x h = elim (Bool-cases (contains x ys)) [
    | inl t ↦
        All-mono (Below ys x) (Below (y ∷ ys) x) (λ d. Below-later y ys x d t) (edges x)
          (rank-Below ys o x t)
    | inr f ↦
        All-mono (Has ys) (Below (y ∷ ys) x) (λ d. Below-first y ys x d f) (edges x)
          (subst (λ i. All (Has ys) (edges i)) (first_of y ys x h f) e)
  ]
