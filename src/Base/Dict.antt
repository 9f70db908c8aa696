-- ===== src/Base/Dict.antt =====
-- Go's `map[string]V` as an association list. Go leaves the order of a traversal open: the list's
-- order stands for the one that a run happens to use.
use Prim.Native.String.{String}
use mathlib.Core.Path.{◌≡◌, refl, subst, sym}
use mathlib.Core.Logic.{inl, inr}
use mathlib.Core.Option
use mathlib.Core.Option.{Option, none, some}
use mathlib.Core.List.{List, [], ◌∷◌, map}
use native.Mathlib.Omega.{arith}
use text.Mathlib.Text.{◌==◌}
use text.Mathlib.TextEquality.{eq_iff}
use agent_federation_hub.Base.Tests.{if◌then◌else◌, Bool-cases}
use agent_federation_hub.Base.Lists.{All}

abbrev pub Dict {ℓ} : Type ℓ → Type ℓ
Dict V = List (String × V)

module _ {ℓ} {V : Type ℓ} where
  -- delete(m, k)
  unfoldable pub delete : String → Dict V → Dict V
  delete gone [] = []
  delete gone ((key, val) ∷ es) =
      let left = delete gone es in if key == gone then left else (key, val) ∷ left

  -- m[k], with the test of `v, ok := m[k]`
  unfoldable pub lookup : String → Dict V → Option V
  lookup wanted [] = none
  lookup wanted ((key, val) ∷ es) =
      let later = lookup wanted es in if key == wanted then some val else later

  -- m[k] where a missing key has the zero value `zero_val`
  unfoldable pub lookup_or : V → String → Dict V → V
  unfolding lookup
  lookup_or zero_val k m = Option.get_or (lookup k m) zero_val

  -- m[k] = v, in place where the key is there
  unfoldable pub insert : String → V → Dict V → Dict V
  insert new val [] = (new, val) ∷ []
  insert new val ((key, old) ∷ es) =
      let later = insert new val es in if key == new then (key, val) ∷ es else (key, old) ∷ later

  abbrev pub keys : Dict V → List String
  keys m = map (λ e. e.0) m

  pub lookup-insert :
      (k j : String) (v : V) (m : Dict V)
      → lookup j (insert k v m) ≡ (if k == j then some v else lookup j m)
  unfolding lookup insert
  lookup-insert new wanted val [] = refl
  lookup-insert new wanted val (e ∷ es) =
      ground (
        arith,
        lookup-insert new wanted val es,
        eq_iff new wanted,
        eq_iff e.0 new,
        eq_iff e.0 wanted,
      )

  pub lookup_or-insert :
      (d : V) (k j : String) (v : V) (m : Dict V)
      → lookup_or d j (insert k v m) ≡ (if k == j then v else lookup_or d j m)
  unfolding lookup_or
  lookup_or-insert d k j v m = ground (arith, lookup-insert k j v m)

  pub lookup-delete :
      (k j : String) (m : Dict V) → lookup j (delete k m) ≡ (if k == j then none else lookup j m)
  unfolding lookup delete
  lookup-delete k j [] = ground arith
  lookup-delete k j ((i, w) ∷ m) =
      ground (arith, eq_iff k j, eq_iff i k, eq_iff i j, lookup-delete k j m)

-- A predicate of the entries.
module _ {ℓ κ} {V : Type ℓ} (P : String × V → Type κ) where
  pub All-insert : (k : String) (v : V) (m : Dict V) → P (k, v) → All P m → All P (insert k v m)
  unfolding insert
  All-insert k v [] p h = (p, tt)
  All-insert k v ((j, w) ∷ m) p h = elim (Bool-cases (j == k)) [
    | inl t ↦ rw t (subst (λ i. P (i, v)) (sym ((eq_iff j k).0 t)) p, h.1)
    | inr f ↦ rw f (h.0, All-insert k v m p h.1)
  ]

  pub All-lookup : (k : String) (v : V) (m : Dict V) → All P m → lookup k m ≡ some v → P (k, v)
  unfolding lookup
  All-lookup k v [] h e = cc
  All-lookup k v ((j, w) ∷ m) h e = elim (Bool-cases (j == k)) [
    | inl t ↦
        let found : w ≡ v = ground (arith, t) in
        subst (λ i. P (i, v)) ((eq_iff j k).0 t) (subst (λ x. P (j, x)) found h.0)
    | inr f ↦ All-lookup k v m h.1 (ground (arith, f))
  ]

module _ {ℓ κ} {V : Type ℓ} {W : Type κ} (f : V → W) where
  unfoldable pub map_values : Dict V → Dict W
  map_values [] = []
  map_values ((k, v) ∷ m) = (k, f v) ∷ map_values m

  pub map_values-insert :
      (k : String) (v : V) (m : Dict V) → map_values (insert k v m) ≡ insert k (f v) (map_values m)
  unfolding map_values insert
  map_values-insert k v [] = refl
  map_values-insert k v ((j, w) ∷ m) = ground (arith, map_values-insert k v m)

  pub lookup-map_values :
      (k : String) (m : Dict V) → lookup k (map_values m) ≡ Option.map f (lookup k m)
  unfolding map_values lookup
  lookup-map_values k [] = refl
  lookup-map_values k ((j, w) ∷ m) = ground (arith, lookup-map_values k m)
