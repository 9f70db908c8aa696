-- ===== src/Worker/Queues.antt =====
-- One pass of the processors of the queues: RunOnce of internal/worker/inbox.go and of
-- internal/worker/outbox.go. The processor has a store and an applier or publisher, whose answers are an
-- argument.
use agent_federation_hub.Base.{
  ℕ, suc, String, Bool, ◌&&◌, not, List, [], ◌∷◌, ◌++◌, ◌==◌, ltb, leb, length, if◌then◌else◌,
}
use agent_federation_hub.Base.Int.{ℤ, pos, ◌+ℤ◌, ltb_ℤ}
use agent_federation_hub.Model.{Time, Duration}
use agent_federation_hub.Model.Queue.{InboxItem, InboxLease, OutboxItem, OutboxLease}
use agent_federation_hub.Store.State.{Error, invalid, rejected, Result, ok, err, JournalStore}
use agent_federation_hub.Store.Inbox.{claim_inbox, ack_inbox, retry_inbox}
use agent_federation_hub.Store.Outbox.{claim_outbox, ack_outbox, retry_outbox, dead_letter_outbox}
use agent_federation_hub.Worker.Backoff.{bounded_backoff, base_backoff, max_backoff}

-- The settings that both processors have. `max_attempts` is that of the outbox.
pub record Processor : Type 0 where
  pub worker_id : String
  pub batch_size : ℤ
  pub lease_duration : Duration
  pub base : Duration
  pub maximum : Duration
  pub max_attempts : ℕ  -- uint32

unfoldable pub batch_size_of : Processor → ℤ
batch_size_of p = if ltb_ℤ (pos 0) p.batch_size then p.batch_size else pos 32

unfoldable pub lease_duration_of : Processor → Duration
lease_duration_of p = if ltb_ℤ (pos 0) p.lease_duration then p.lease_duration else pos 30000000000

unfoldable pub delay_of : Processor → ℕ → Duration
unfolding bounded_backoff base_backoff max_backoff
delay_of p attempt = bounded_backoff attempt (base_backoff p.base) (max_backoff p.maximum)

-- What failed, by item. A failure of the store after one of the item comes second.
abbrev pub Failed : Type 0
Failed = List (String × List Error)

unfoldable pub failure_after {ℓ} : {A : Type ℓ} → String → List Error → Result A → Failed
failure_after id es (ok a) = (id, es) ∷ []
failure_after id es (err e) = (id, es ++ e ∷ []) ∷ []

unfoldable pub failure_of {ℓ} : {A : Type ℓ} → String → Result A → Failed
failure_of id (ok a) = []
failure_of id (err e) = (id, e ∷ []) ∷ []

module _ {ℓ} {A : Type ℓ} (apply : InboxItem → JournalStore → Result A × JournalStore)
    (p : Processor) where
  -- The body of the loop for one lease, with the time that the clock shows after a failure.
  unfoldable pub settle_inbox : Time → InboxLease → Result A × JournalStore → Failed × JournalStore
  unfolding retry_inbox ack_inbox failure_after failure_of delay_of ◌+ℤ◌
  settle_inbox now l (ok a, s) = let (r, s') = ack_inbox l s in (failure_of l.item.id r, s')
  settle_inbox now l (err e, s) =
      let (r, s') = retry_inbox l (now +ℤ delay_of p l.attempt) s in
      (failure_after l.item.id (e ∷ []) r, s')

  unfoldable pub process_inbox :
      (ℕ → Time) → ℕ → List InboxLease → JournalStore → Failed × JournalStore
  unfolding settle_inbox
  process_inbox now i [] s = ([], s)
  process_inbox now i (l ∷ ls) s =
      let (fs, s') = settle_inbox (now i) l (apply l.item s) in
      let (gs, s'') = process_inbox now (suc i) ls s' in (fs ++ gs, s'')

  -- The number of leases that were claimed, and the failures.
  unfoldable pub run_inbox : Bool → (ℕ → Time) → JournalStore → Result (ℕ × Failed) × JournalStore
  unfolding claim_inbox process_inbox batch_size_of lease_duration_of
  run_inbox gate_allows now s =
      let (r, s') = claim_inbox p.worker_id (batch_size_of p) (now 0) (lease_duration_of p) s in
      if p.worker_id == ""
      then (err (invalid "inbox processor Store, Apply, and WorkerID are required"), s)
      else if not gate_allows
      then (err (rejected "worker is paused"), s)
      else elim r [
        | err e ↦ (err e, s')
        | ok ls ↦ let (fs, s'') = process_inbox now 1 ls s' in (ok (length ls, fs), s'')
      ]

module _ (publish : OutboxItem → Result (Unit {0})) (message : Error → String) (p : Processor) where
  unfoldable pub is_exhausted : OutboxLease → Bool
  is_exhausted l = ltb 0 p.max_attempts && leb p.max_attempts l.attempt

  unfoldable pub settle_outbox :
      Time → OutboxLease → Result (Unit {0}) → JournalStore → Failed × JournalStore
  unfolding is_exhausted retry_outbox ack_outbox dead_letter_outbox failure_after failure_of
      delay_of ◌+ℤ◌
  settle_outbox now l (ok _) s = let (r, s') = ack_outbox now l s in (failure_of l.item.id r, s')
  settle_outbox now l (err e) s =
      let (r, s') = dead_letter_outbox now l (message e) s in
      let (q, s'') = retry_outbox l (now +ℤ delay_of p l.attempt) s in
      if is_exhausted l
      then (failure_after l.item.id (e ∷ []) r, s')
      else (failure_after l.item.id (e ∷ []) q, s'')

  unfoldable pub process_outbox :
      (ℕ → Time) → ℕ → List OutboxLease → JournalStore → Failed × JournalStore
  unfolding settle_outbox
  process_outbox now i [] s = ([], s)
  process_outbox now i (l ∷ ls) s =
      let (fs, s') = settle_outbox (now i) l (publish l.item) s in
      let (gs, s'') = process_outbox now (suc i) ls s' in (fs ++ gs, s'')

  unfoldable pub run_outbox : Bool → (ℕ → Time) → JournalStore → Result (ℕ × Failed) × JournalStore
  unfolding claim_outbox process_outbox batch_size_of lease_duration_of
  run_outbox gate_allows now s =
      let (r, s') = claim_outbox p.worker_id (batch_size_of p) (now 0) (lease_duration_of p) s in
      if p.worker_id == ""
      then (err (invalid "outbox processor Store, Publisher, and WorkerID are required"), s)
      else if not gate_allows
      then (err (rejected "worker is paused"), s)
      else elim r [
        | err e ↦ (err e, s')
        | ok ls ↦ let (fs, s'') = process_outbox now 1 ls s' in (ok (length ls, fs), s'')
      ]
