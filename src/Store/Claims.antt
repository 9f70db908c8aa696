-- ===== src/Store/Claims.antt =====
-- The loops of JournalStore that claim leases (internal/core/store.go): what holds of every lease
-- that a loop returned, once the loop is over.
use agent_federation_hub.Base.{◌≡◌, refl, subst, List, [], ◌∷◌, All}
use agent_federation_hub.Store.State.{Result, ok, err, Maps, JournalStore}
use agent_federation_hub.Store.Journal.{
  apply_record, Plan, reply, refuse, write, transact, and_then, claim_each,
}
use agent_federation_hub.Store.Writes.{Took, transact-ok}

-- Inversion of a step that is followed by another.
pub and_then-ok {ℓ κ} :
    {A : Type ℓ} {B : Type κ} (r : Result A × JournalStore)
    (f : A → JournalStore → Result B × JournalStore) (b : B) (s' : JournalStore)
    → and_then r f ≡ (ok b, s')
    → (a : A) × (s : JournalStore) × (r ≡ (ok a, s)) × (f a s ≡ (ok b, s'))
unfolding and_then
and_then-ok (ok a, s) f b s' h = (a, s, refl, h)
and_then-ok (err e, s) f b s' h = cc

-- A property of the maps after the plan, and one of the maps and the answer.
abbrev pub After {ℓ κ} : {A : Type ℓ} → (Maps → Type κ) → Plan A → Maps → Type κ
After P (reply a) m = P m
After P (refuse e) m = P m
After P (write r a) m = P (apply_record r m)

abbrev pub Answers {ℓ κ} : {A : Type ℓ} → (A → Maps → Type κ) → Plan A → Maps → Type κ
Answers Q (reply a) m = Q a m
Answers Q (refuse e) m = Unit
Answers Q (write r a) m = Q a (apply_record r m)

Answers-Took {ℓ κ} :
    {A : Type ℓ} (Q : A → Maps → Type κ) (p : Plan A) (b : A) (m m' : Maps)
    → Took p b m m'
    → Answers Q p m
    → Q b m'
Answers-Took Q (reply a) b m m' h q = rw (← h.0, h.1) q
Answers-Took Q (refuse e) b m m' h q = absurd h.0
Answers-Took Q (write r a) b m m' h q = rw (← h.0, h.1) q

After-Took {ℓ κ} :
    {A : Type ℓ} (P : Maps → Type κ) (p : Plan A) (b : A) (m m' : Maps)
    → Took p b m m'
    → After P p m
    → P m'
After-Took P (reply a) b m m' h q = rw h.1 q
After-Took P (refuse e) b m m' h q = absurd h.0
After-Took P (write r a) b m m' h q = rw h.1 q

module _ {ℓ κ} {K : Type ℓ} {A : Type ℓ} (plan : K → Maps → Plan A) (V : K → Type κ)
    (Q : A → Maps → Type κ) (makes : (k : K) (m : Maps) → V k → Answers Q (plan k m) m)
    (keeps : (a : A) (k : K) (m : Maps) → V k → Q a m → After (Q a) (plan k m) m) where
  claim_each-keeps :
      (a : A) (ks : List K) (s s' : JournalStore) (as' : List A)
      → All V ks
      → claim_each plan ks s ≡ (ok as', s')
      → Q a s.maps
      → Q a s'.maps
  unfolding claim_each
  claim_each-keeps a [] s s' as' v h q = let e : s ≡ s' = cc in rw (← e) q
  claim_each-keeps a (k ∷ ks) s s' as' v h q =
      let (b, t, first, more) = and_then-ok (transact (plan k) s) _ as' s' h in
      let (bs, u, rest, done) = and_then-ok (claim_each plan ks t) _ as' s' more in
      let last : u ≡ s' = cc in
      rw (← last) (
        claim_each-keeps a ks t u bs v.1 rest (
          After-Took (Q a) (plan k s.maps) b s.maps t.maps (transact-ok (plan k) b s t first)
            (keeps a k s.maps v.0 q)))

  -- Every lease that the loop returned has, at its end, the property that its round gave it.
  pub claim_each-All :
      (ks : List K) (s s' : JournalStore) (as' : List A)
      → All V ks
      → claim_each plan ks s ≡ (ok as', s')
      → All (λ a. Q a s'.maps) as'
  unfolding claim_each
  claim_each-All [] s s' as' v h = let e : [] ≡ as' = cc in subst (All (λ a. Q a s'.maps)) e tt
  claim_each-All (k ∷ ks) s s' as' v h =
      let (b, t, first, more) = and_then-ok (transact (plan k) s) _ as' s' h in
      let (bs, u, rest, done) = and_then-ok (claim_each plan ks t) _ as' s' more in
      let last : u ≡ s' = cc in
      let all : (b ∷ bs) ≡ as' = cc in
      let made : Q b t.maps =
        Answers-Took Q (plan k s.maps) b s.maps t.maps (transact-ok (plan k) b s t first)
          (makes k s.maps v.0) in
      let head' : Q b u.maps = claim_each-keeps b ks t u bs v.1 rest made in
      let tail' : All (λ a. Q a u.maps) bs = claim_each-All ks t u bs v.1 rest in
      subst (λ (x : JournalStore). All (λ a. Q a x.maps) as') last
        (subst (All (λ a. Q a u.maps)) all (head', tail'))
