-- ===== src/Store/Operations/Chains.antt =====
-- Each operation of JournalStore (internal/core/store.go) as a sequence of journal writes, so that
-- what every write keeps, every operation keeps.
use agent_federation_hub.Base.{
  ℕ, zero, suc, String, Bool, true, false, ◌||◌, not, ◌==◌, List, [], ◌∷◌, some, arith,
  if◌then◌else◌, eqb, ◌≡◌, ◌≢◌, refl, All,
}
use agent_federation_hub.Base.Int.{pos, ltb_ℤ, pos_part}
use agent_federation_hub.Model.{Time}
use agent_federation_hub.Base.Dict.{lookup_or}
use agent_federation_hub.Model.Queue.{OutboxItem}
use agent_federation_hub.Store.State.{Error, invalid, Result, ok, err, Maps, JournalStore}
use agent_federation_hub.Store.Journal.{Plan, transact, claim_each, and_then}
use agent_federation_hub.Store.Writes.{
  Writes, unchanged, pruned, Emits, transact-Writes, Writes-trans,
}
use agent_federation_hub.Store.Tasks.{create_task_plan, apply_task_plan}
use agent_federation_hub.Store.Leases.{
  is_claim, claim_candidates, claim_task_plan, renew_lease_plan, release_lease_plan,
}
use agent_federation_hub.Store.Inbox.{
  inbox_candidates, claim_inbox_plan, enqueue_inbox_plan, renew_inbox_plan, inbox_update_plan,
  inbox_acked, inbox_retried,
}
use agent_federation_hub.Store.Outbox.{
  outbox_candidates, claim_outbox_plan, enqueue_outbox_plan, renew_outbox_plan, outbox_update_plan,
  outbox_acked, outbox_retried, outbox_dead_lettered,
}
use agent_federation_hub.Store.Outbox.Admin.{
  replay_outbox_plan, purge_item_plan, purge_each, count_on, Purged,
}
use agent_federation_hub.Store.Revocations.{revoke_token_plan}
use agent_federation_hub.Store.Control.{put_agent_plan, set_worker_control_plan}
use agent_federation_hub.Store.Workflows.{create_workflow_plan, apply_workflow_plan}
use agent_federation_hub.Store.Artifacts.{
  reserve_artifact_plan, finalize_artifact_plan, fail_artifact_plan,
}
use agent_federation_hub.Store.Artifacts.Deletion.{
  expired_candidates, claim_artifact_plan, renew_artifact_plan, complete_deletion_plan,
  retry_deletion_plan,
}
use agent_federation_hub.Store.Operations.{
  Operation, puts_agent, creates_task, applies_task, creates_workflow, applies_workflow,
  claims_tasks, renews_task, releases_task, enqueues_inbox, claims_inbox, renews_inbox, acks_inbox,
  retries_inbox, enqueues_outbox, claims_outbox, renews_outbox, acks_outbox, retries_outbox,
  dead_letters_outbox, replays_outbox, purges_outbox, revokes_token, reserves_artifact,
  finalizes_artifact, fails_artifact, claims_artifacts, renews_artifact, completes_deletion,
  retries_deletion, sets_worker_control, prunes_revocations, step, run,
}

and_then-Writes {ℓ κ} :
    {J : Type 0} {A : Type ℓ} {B : Type κ} (s : JournalStore) (r : Result A × JournalStore)
    (f : A → JournalStore → Result B × JournalStore)
    → Writes J s r.1
    → ((a : A) (t : JournalStore) → Writes J s t → Writes J s (f a t).1)
    → Writes J s (and_then r f).1
unfolding and_then
and_then-Writes s (ok a, t) f h k = k a t h
and_then-Writes s (err e, t) f h k = h

claim_each-Writes {ℓ κ} :
    {J : Type 0} {K : Type ℓ} {A : Type κ} (plan : K → Maps → Plan A) (ks : List K)
    (s t : JournalStore)
    → ((k : K) (m : Maps) → Emits (plan k m) m)
    → Writes J s t
    → Writes J s (claim_each plan ks t).1
unfolding claim_each
claim_each-Writes plan [] s t w h = h
claim_each-Writes plan (k ∷ ks) s t w h =
    and_then-Writes s (transact (plan k) t) _ (transact-Writes (plan k) s t (w k t.maps) h)
      λ a t' h'.
        and_then-Writes s (claim_each plan ks t') _ (claim_each-Writes plan ks s t' w h')
          λ rest t'' h''. h''

-- A claim: the loop where the arguments are valid, and an error with no change where not.
claim-Writes {ℓ κ} :
    {J : Type 0} {K : Type ℓ} {A : Type κ} (valid : Bool) (plan : K → Maps → Plan A) (ks : List K)
    (e : Error) (s : JournalStore)
    → ((k : K) (m : Maps) → Emits (plan k m) m)
    → Writes J s (if valid then claim_each plan ks s else (err e, s)).1
claim-Writes true plan ks e s w = claim_each-Writes plan ks s s w unchanged
claim-Writes false plan ks e s w = unchanged

count_on-Writes :
    {J : Type 0} (s : JournalStore) (r : Result ℕ × JournalStore) (f : ℕ → JournalStore → Purged)
    → Writes J s r.1
    → ((n : ℕ) (t : JournalStore) → Writes J s t → Writes J s (f n t).1)
    → Writes J s (count_on r f).1
unfolding count_on
count_on-Writes s (ok n, t) f h k = k n t h
count_on-Writes s (err e, t) f h k = h

purge_each-Writes :
    {J : Type 0} (tenant : String) (before now : Time) (room : ℕ) (es : List (String × OutboxItem))
    (s t : JournalStore)
    → Writes J s t
    → Writes J s (purge_each tenant before now room es t).1
unfolding purge_each
purge_each-Writes tenant before now zero [] s t h = h
purge_each-Writes tenant before now (suc room) [] s t h = h
purge_each-Writes tenant before now zero (e ∷ es) s t h = h
purge_each-Writes tenant before now (suc room) (e ∷ es) s t h =
    count_on-Writes s (transact (purge_item_plan tenant before now e) t) _
      (transact-Writes (purge_item_plan tenant before now e) s t
        (unfold purge_item_plan in ground arith) h)
      λ n t' h'. purge_each-Writes tenant before now (if eqb n 0 then suc room else room) es s t' h'

purge-Writes :
    {J : Type 0} (refused : Bool) (tenant : String) (before now : Time) (room : ℕ)
    (es : List (String × OutboxItem)) (e : Error) (s : JournalStore)
    → Writes J s (if refused then ((0, some e), s) else purge_each tenant before now room es s).1
purge-Writes true tenant before now room es e s = unchanged
purge-Writes false tenant before now room es e s =
    purge_each-Writes tenant before now room es s s unchanged

-- The operation drops revocations, and writes no journal record.
abbrev IsPrune : Operation → Type 0
IsPrune o = (now : Time) × (o ≡ prunes_revocations now)

-- Every operation, with whatever arguments and result, is a sequence of journal writes, but for the
-- one that prunes revocations.
pub step-Writes :
    {J : Type 0} (o : Operation) (s : JournalStore) → (IsPrune o → J) → Writes J s (step o s)
unfolding step lookup_or
step-Writes (puts_agent a) s allow = transact-Writes (put_agent_plan a) s s (ground arith) unchanged
step-Writes (creates_task id t e) s allow =
    transact-Writes (create_task_plan id t e) s s (ground arith) unchanged
step-Writes (applies_task id tenant task expected dedup f) s allow =
    transact-Writes (apply_task_plan id tenant task expected dedup f) s s (ground arith) unchanged
step-Writes (creates_workflow id w e) s allow =
    transact-Writes (create_workflow_plan id w e) s s (ground arith) unchanged
step-Writes (applies_workflow id tenant workflow expected dedup f) s allow =
    transact-Writes (apply_workflow_plan id tenant workflow expected dedup f) s s (ground arith)
      unchanged
step-Writes (claims_tasks owner limit now duration) s allow =
    claim-Writes (is_claim owner limit duration) (claim_task_plan owner now duration)
      (claim_candidates limit now s.maps)
      (invalid "lease owner, positive limit, and duration are required") s (λ k m. ground arith)
step-Writes (renews_task w now duration) s allow =
    transact-Writes (renew_lease_plan w now duration) s s (ground arith) unchanged
step-Writes (releases_task w at reset) s allow =
    transact-Writes (release_lease_plan w at reset) s s (ground arith) unchanged
step-Writes (enqueues_inbox i) s allow =
    transact-Writes (enqueue_inbox_plan i) s s (ground arith) unchanged
step-Writes (claims_inbox owner limit now duration) s allow =
    claim-Writes (is_claim owner limit duration) (claim_inbox_plan owner now duration)
      (inbox_candidates limit now s.maps)
      (invalid "inbox lease owner, positive limit, and duration are required") s
      (λ k m. ground arith)
step-Writes (renews_inbox l now duration) s allow =
    transact-Writes (renew_inbox_plan l now duration) s s (ground arith) unchanged
step-Writes (acks_inbox l) s allow =
    transact-Writes (inbox_update_plan l inbox_acked) s s (ground arith) unchanged
step-Writes (retries_inbox l at) s allow =
    transact-Writes (inbox_update_plan l (inbox_retried at)) s s (ground arith) unchanged
step-Writes (enqueues_outbox valid i) s allow =
    transact-Writes (enqueue_outbox_plan valid i) s s (ground arith) unchanged
step-Writes (claims_outbox owner limit now duration) s allow =
    claim-Writes (is_claim owner limit duration) (claim_outbox_plan owner now duration)
      (outbox_candidates limit now s.maps)
      (invalid "outbox lease owner, positive limit, and duration are required") s
      (λ k m. ground arith)
step-Writes (renews_outbox l now duration) s allow =
    transact-Writes (renew_outbox_plan l now duration) s s (ground arith) unchanged
step-Writes (acks_outbox now l) s allow =
    transact-Writes (outbox_update_plan l (λ x. x.acked) (outbox_acked now)) s s (ground arith)
      unchanged
step-Writes (retries_outbox l at) s allow =
    transact-Writes (outbox_update_plan l (λ x. x.acked || x.dead_lettered) (outbox_retried at)) s s
      (ground arith) unchanged
step-Writes (dead_letters_outbox now l reason) s allow =
    transact-Writes
      (outbox_update_plan l (λ x. x.acked || x.dead_lettered) (outbox_dead_lettered now reason)) s s
      (ground arith) unchanged
step-Writes (replays_outbox tenant id now) s allow =
    transact-Writes (replay_outbox_plan tenant id now) s s (ground arith) unchanged
step-Writes (purges_outbox now tenant before limit) s allow =
    purge-Writes (tenant == "" || not (ltb_ℤ (pos 0) limit)) tenant before now (pos_part limit)
      s.maps.outbox_items (invalid "tenant and positive outbox purge limit are required") s
step-Writes (revokes_token r) s allow =
    transact-Writes (revoke_token_plan r) s s (ground arith) unchanged
step-Writes (reserves_artifact o q) s allow =
    transact-Writes (reserve_artifact_plan o q) s s (ground arith) unchanged
step-Writes (finalizes_artifact tenant id f) s allow =
    transact-Writes (finalize_artifact_plan tenant id f) s s (ground arith) unchanged
step-Writes (fails_artifact tenant id code now) s allow =
    transact-Writes (fail_artifact_plan tenant id code now) s s (ground arith) unchanged
step-Writes (claims_artifacts owner limit now duration) s allow =
    claim-Writes (is_claim owner limit duration) (claim_artifact_plan owner now duration)
      (expired_candidates limit now s.maps)
      (invalid "artifact lease owner, positive limit, and duration are required") s
      (λ k m. ground arith)
step-Writes (renews_artifact d now duration) s allow =
    transact-Writes (renew_artifact_plan d now duration) s s (ground arith) unchanged
step-Writes (completes_deletion d now) s allow =
    transact-Writes (complete_deletion_plan d now) s s (ground arith) unchanged
step-Writes (retries_deletion d at) s allow =
    transact-Writes (retry_deletion_plan d at) s s (ground arith) unchanged
step-Writes (sets_worker_control now c expected) s allow =
    transact-Writes (set_worker_control_plan now c expected) s s (ground arith) unchanged
step-Writes (prunes_revocations now) s allow = pruned _ (allow (now, refl)) unchanged

-- A run of any operations.
pub run-Writes : (os : List Operation) (s : JournalStore) → Writes (Unit {0}) s (run os s)
unfolding run
run-Writes [] s = unchanged
run-Writes (o ∷ os) s = Writes-trans (step-Writes o s (λ _. tt)) (run-Writes os (step o s))

-- The operation writes its changes to the journal: it is not one that prunes revocations.
abbrev pub IsJournaled : Operation → Type 0
IsJournaled o = (now : Time) → o ≢ prunes_revocations now

-- A run of operations that write their changes to the journal.
pub run-Writes_journaled :
    (os : List Operation) (s : JournalStore) → All IsJournaled os → Writes ⊥ s (run os s)
unfolding run
run-Writes_journaled [] s h = unchanged
run-Writes_journaled (o ∷ os) s h =
    Writes-trans (step-Writes o s (λ p. h.0 p.0 p.1)) (run-Writes_journaled os (step o s) h.1)
