-- ===== src/Store/Leases/Fencing.antt =====
-- A new claim fences off the leases that others held on its Tasks, and takes no more Tasks than its
-- limit (ClaimRecoverable, RenewLease, ReleaseLease of internal/core/store.go).
use agent_federation_hub.Base.{
  ℕ, zero, suc, ◌≤◌, String, ◌≡◌, ◌≢◌, Bool, false, List, [], ◌∷◌, some, arith, ◌==◌, text_ne, All,
  get_elem?, length, length-take,
}
use agent_federation_hub.Base.Int.{ℤ, pos_part}
use agent_federation_hub.Base.Dict.{lookup_or}
use agent_federation_hub.Model.{Time, Duration, WorkLease}
use agent_federation_hub.Store.State.{ok, err, lease_lost, Maps, JournalStore}
use agent_federation_hub.Store.Journal.{Plan, transact, claim_each}
use agent_federation_hub.Store.Claims.{and_then-ok}
use agent_federation_hub.Store.Tasks.Versions.{IsFiled}
use agent_federation_hub.Store.Leases.{
  claim_recoverable, claim_candidates, claim_task_plan, renew_lease, release_lease, work_key,
}
use agent_federation_hub.Store.Leases.Exclusive.{lease_of, claim-HoldsUntil, claim_loop}

All-get_elem? {ℓ κ} :
    {A : Type ℓ} (P : A → Type κ) (n : ℕ) (a : A) (xs : List A)
    → All P xs
    → get_elem? xs n ≡ some a
    → P a
All-get_elem? P n a [] h e = cc
All-get_elem? P zero a (x ∷ xs) h e = let same : x ≡ a = cc in rw (← same) h.0
All-get_elem? P (suc n) a (x ∷ xs) h e = All-get_elem? P n a xs h.1 e

-- An owner that does not hold the lease of the Task can neither renew nor release it.
fenced_renewal :
    (w : WorkLease) (now : Time) (duration : Duration) (s : JournalStore)
    → ((lease_of (work_key w) s.maps).owner == w.owner) ≡ false
    → renew_lease w now duration s ≡ (err lease_lost, s)
unfolding renew_lease lookup_or
fenced_renewal w now duration s h = ground (arith, h)

fenced_release :
    (w : WorkLease) (at : Time) (reset : Bool) (s : JournalStore)
    → ((lease_of (work_key w) s.maps).owner == w.owner) ≡ false
    → release_lease w at reset s ≡ (err lease_lost, s)
unfolding release_lease lookup_or
fenced_release w at reset s h = ground (arith, h)

-- In a store that files each Task under its own key: after a claim, any lease on one of the claimed
-- Tasks that names another owner, with whatever expiry, attempt and state of the Task, can be neither
-- renewed nor released, whatever the times: both answer that the lease is lost and change nothing.
pub claim_fences :
    (owner : String) (limit : ℤ) (now later at : Time) (duration longer : Duration) (reset : Bool)
    (s s' : JournalStore) (ws : List WorkLease) (n : ℕ) (w l : WorkLease)
    → IsFiled s.maps
    → claim_recoverable owner limit now duration s ≡ (ok ws, s')
    → get_elem? ws n ≡ some w
    → work_key l ≡ work_key w
    → owner ≢ l.owner
    → (renew_lease l later longer s' ≡ (err lease_lost, s'))
      × (release_lease l at reset s' ≡ (err lease_lost, s'))
claim_fences owner limit now later at duration longer reset s s' ws n w l filed h claimed same ne =
    let held =
      All-get_elem? _ n w ws (claim-HoldsUntil owner limit now duration s s' ws filed h) claimed in
    let other : ((lease_of (work_key l) s'.maps).owner == l.owner) ≡ false =
      rw same (rw held.2 (text_ne owner l.owner ne)) in
    (fenced_renewal l later longer s' other, fenced_release l at reset s' other)

claim_each-length {ℓ} :
    {K : Type ℓ} {A : Type ℓ} (plan : K → Maps → Plan A) (ks : List K) (s s' : JournalStore)
    (as' : List A)
    → claim_each plan ks s ≡ (ok as', s')
    → length as' ≡ length ks
unfolding claim_each
claim_each-length plan [] s s' as' h = let e : [] ≡ as' = cc in rw (← e)
claim_each-length plan (k ∷ ks) s s' as' h =
    let (b, t, first, more) = and_then-ok (transact (plan k) s) _ as' s' h in
    let (bs, u, rest, done) = and_then-ok (claim_each plan ks t) _ as' s' more in
    let all : (b ∷ bs) ≡ as' = cc in
    rw (← all) (omega (arith, claim_each-length plan ks t u bs rest))

-- A claim returns at most as many leases as its limit.
pub claim_limit :
    (owner : String) (limit : ℤ) (now : Time) (duration : Duration) (s s' : JournalStore)
    (ws : List WorkLease)
    → claim_recoverable owner limit now duration s ≡ (ok ws, s')
    → length ws ≤ pos_part limit
unfolding claim_candidates
claim_limit owner limit now duration s s' ws h =
    rw
      (claim_each-length (claim_task_plan owner now duration) (claim_candidates limit now s.maps) s
        s' ws (claim_loop owner limit now duration s s' ws h).1)
      (length-take (pos_part limit) _)
