-- ===== src/Store/Leases/Exclusive.antt =====
-- Leases on Tasks exclude one another (ClaimRecoverable of internal/core/store.go).
use Prim.Native.String.{◌++◌}
use text.Mathlib.TextLemmas.{cons-append, append-ne-nil_of_right_ne-nil, cons-ne-nil}
use agent_federation_hub.Base.{
  String, ◌≡◌, ◌≢◌, refl, subst, ap, sym, ◌∙◌, true, false, List, arith, ◌==◌, eq_refl, text_ne,
  inl, inr, Bool-cases, if◌then◌else◌, All, All-select_keep, All-take, All-mono,
}
use mathlib.Core.Bool.{false≢true}
use agent_federation_hub.Store.Operations.Filed.{AreFiled, claim_recoverable-AreFiled}
use agent_federation_hub.Base.Int.{ℤ, ◌<ℤ◌, ◌+ℤ◌, pos_part}
use agent_federation_hub.Base.Dict.{lookup_or, lookup_or-insert}
use agent_federation_hub.Base.Sort.{All-sort}
use agent_federation_hub.Model.{Time, Duration, Task, WorkLease}
use agent_federation_hub.Store.State.{Result, ok, LeaseState, no_lease, Maps, JournalStore}
use agent_federation_hub.Store.Journal.{resource_key, apply_record, put_lease, claim_each}
use agent_federation_hub.Store.Claims.{After, Answers, claim_each-All}
use agent_federation_hub.Store.Tasks.Versions.{IsFiled}
use agent_federation_hub.Store.Leases.{
  is_claim, is_held, claimed, is_claimable, before_entry, claim_candidates, lease_record,
  claim_task_plan, claim_recoverable, work_key,
}

pub resource_key-ne-empty : (tenant id : String) → resource_key tenant id ≢ ""
unfolding resource_key
resource_key-ne-empty tenant id =
    append-ne-nil_of_right_ne-nil tenant
      λ e. cons-ne-nil "\0" (String.[] ++ id) (sym (cons-append "\0" String.[] id) ∙ e)

abbrev pub lease_of : String → Maps → LeaseState
lease_of key m = lookup_or no_lease key m.leases

-- The lease of the Task is the owner's, and runs to the given time.
abbrev pub HoldsUntil : String → Time → WorkLease → Maps → Type 0
HoldsUntil owner expiry w m =
    (w.owner ≡ owner)
    × (w.expires_at ≡ expiry)
    × ((lease_of (work_key w) m).owner ≡ owner)
    × ((lease_of (work_key w) m).expires_at ≡ expiry)

-- A Task with the key under which it is filed.
abbrev IsEntry : String × Task → Type 0
IsEntry (key, t) = resource_key t.tenant_id t.id ≡ key

module _ (owner : String) (now : Time) (duration : Duration) where
  -- What the write of a lease does to the lease of a key.
  lease_of-record :
      (key j : String) (l : LeaseState) (m : Maps)
      → key ≢ ""
      → lease_of j (apply_record (lease_record key l) m) ≡ (if key == j then l else lease_of j m)
  unfolding apply_record lease_record put_lease
  lease_of-record key j l m ne = rw (text_ne key "" ne) (lookup_or-insert no_lease key j l m.leases)

  claim_task-Answers :
      (k : String × Task) (m : Maps)
      → IsEntry k
      → Answers (HoldsUntil owner (now +ℤ duration)) (claim_task_plan owner now duration k m) m
  unfolding claim_task_plan work_key
  claim_task-Answers (key, t) m e =
      let ne : key ≢ "" = λ z. resource_key-ne-empty t.tenant_id t.id (e ∙ z) in
      let l = claimed (lease_of key m) owner now duration in
      let w : lease_of (resource_key t.tenant_id t.id) (apply_record (lease_record key l) m) ≡ l =
        rw e (rw (lease_of-record key key l m ne) (rw eq_refl)) in
      (refl, refl, ap (λ (x : LeaseState). x.owner) w, ap (λ (x : LeaseState). x.expires_at) w)

  claim_task-After :
      (w : WorkLease) (k : String × Task) (m : Maps)
      → IsEntry k
      → HoldsUntil owner (now +ℤ duration) w m
      → After (HoldsUntil owner (now +ℤ duration) w) (claim_task_plan owner now duration k m) m
  unfolding claim_task_plan
  claim_task-After w (key, t) m e h =
      let ne : key ≢ "" = λ z. resource_key-ne-empty t.tenant_id t.id (e ∙ z) in
      let l = claimed (lease_of key m) owner now duration in
      ground (arith, lease_of-record key (work_key w) l m ne)

  -- A Task under its key that no other owner holds.
  abbrev IsFree : Maps → String × Task → Type 0
  IsFree m e = IsEntry e × (is_held (lease_of e.0 m) now ≡ false)

  IsFree-of_claimable :
      (m : Maps) (e : String × Task) → IsEntry e × (is_claimable m now e ≡ true) → IsFree m e
  unfolding is_claimable
  IsFree-of_claimable m (key, t) h = ground arith

  candidates-IsFree :
      (limit : ℤ) (m : Maps) → IsFiled m → All (IsFree m) (claim_candidates limit now m)
  unfolding claim_candidates
  candidates-IsFree limit m h = All-take (IsFree m) (pos_part limit) _ (
      All-sort before_entry (IsFree m) _ (
        All-mono _ (IsFree m) (IsFree-of_claimable m) _
          (All-select_keep IsEntry (is_claimable m now) m.tasks h)))

-- A claim that succeeded is its loop over the candidates, for an owner that has a name.
pub claim_loop :
    (owner : String) (limit : ℤ) (now : Time) (duration : Duration) (s s' : JournalStore)
    (ws : List WorkLease)
    → claim_recoverable owner limit now duration s ≡ (ok ws, s')
    → ((owner == "") ≡ false)
      × (claim_each (claim_task_plan owner now duration) (claim_candidates limit now s.maps) s
          ≡ (ok ws, s'))
unfolding claim_recoverable
claim_loop owner limit now duration s s' ws h = elim (Bool-cases (is_claim owner limit duration)) [
  | inl e ↦ (unfold is_claim in ground arith, ground arith)
  | inr e ↦ ground arith
]

module _ (owner : String) (limit : ℤ) (now : Time) (duration : Duration) (s s' : JournalStore)
    (ws : List WorkLease) (filed : IsFiled s.maps)
    (claim : claim_recoverable owner limit now duration s ≡ (ok ws, s')) where
  -- Each lease that the claim returned is in force at its end.
  pub claim-HoldsUntil : All (λ w. HoldsUntil owner (now +ℤ duration) w s'.maps) ws
  claim-HoldsUntil =
      claim_each-All (claim_task_plan owner now duration) IsEntry
        (HoldsUntil owner (now +ℤ duration)) (claim_task-Answers owner now duration)
        (λ w k m v q. claim_task-After owner now duration w k m v q)
        (claim_candidates limit now s.maps) s s' ws
        (All-mono _ IsEntry (λ e f. f.0) _
          (candidates-IsFree owner now duration limit s.maps filed))
        (claim_loop owner limit now duration s s' ws claim).1

  -- None of the Tasks was held by an owner at its start.
  claim_was_free : All (λ w. is_held (lease_of (work_key w) s.maps) now ≡ false) ws
  unfolding claim_task_plan work_key
  claim_was_free =
      claim_each-All (claim_task_plan owner now duration) (IsFree owner now duration s.maps)
        (λ w m. is_held (lease_of (work_key w) s.maps) now ≡ false) (λ (key, t) m v. rw v.0 v.1)
        (λ w k m v q. q) (claim_candidates limit now s.maps) s s' ws
        (candidates-IsFree owner now duration limit s.maps filed)
        (claim_loop owner limit now duration s s' ws claim).1

-- A lease of a named owner that has not expired keeps its Task from being free.
held_not_free :
    (l : LeaseState) (owner : String) (now : Time)
    → (owner == "") ≡ false
    → l.owner ≡ owner
    → now <ℤ l.expires_at
    → is_held l now ≡ true
unfolding is_held
held_not_free l owner now ne e h = ground arith

-- In a store that files each Task and Artifact object under its own key, the claim that follows a
-- claim, by whatever owner and while the leases of the first one run, returns no lease on one of
-- the same Tasks: the keys of the Tasks that the two claims return are different.
pub claims_exclusive :
    (owner owner' : String) (limit limit' : ℤ) (now now' : Time) (duration duration' : Duration)
    (s s' s'' : JournalStore) (ws ws' : List WorkLease)
    → AreFiled s.maps
    → claim_recoverable owner limit now duration s ≡ (ok ws, s')
    → now' <ℤ now +ℤ duration
    → claim_recoverable owner' limit' now' duration' s' ≡ (ok ws', s'')
    → All (λ w. All (λ w'. work_key w ≢ work_key w') ws') ws
claims_exclusive owner owner' limit limit' now now' duration duration' s s' s'' ws ws' filed c t
      c' =
    let filed' : IsFiled s'.maps =
      subst (λ (x : JournalStore). IsFiled x.maps)
        (ap (λ (x : Result (List WorkLease) × JournalStore). x.1) c)
        (claim_recoverable-AreFiled owner limit now duration s filed).0 in
    All-mono _ (λ w. All (λ w'. work_key w ≢ work_key w') ws')
      (λ w h.
        All-mono _ (λ w'. work_key w ≢ work_key w')
          (λ w' free same. false≢true (
            sym (rw same free)
            ∙ held_not_free (lease_of (work_key w) s'.maps) owner now'
                (claim_loop owner limit now duration s s' ws c).0 h.2 (rw h.3 t)))
          ws' (claim_was_free owner' limit' now' duration' s' s'' ws' filed' c'))
      ws (claim-HoldsUntil owner limit now duration s s' ws filed.0 c)
