-- ===== src/Store/Writes.antt =====
-- Sequences of journal writes, the only way in which the operations of JournalStore
-- (internal/core/store.go) change the store, but for PruneRevocations, which changes the revocations
-- without a record.
use agent_federation_hub.Base.{
  String, ◌≡◌, ◌≢◌, refl, ap, subst, true, Option, none, some, inl, inr, Bool-cases, arith,
}
use agent_federation_hub.Base.Dict.{Dict, lookup_or}
use agent_federation_hub.Model.{TokenRevocation}
use agent_federation_hub.Store.State.{
  Result, ok, InboxState, new_inbox_state, OutboxState, new_outbox_state, JournalRecord, Maps,
  JournalStore,
}
use agent_federation_hub.Store.Journal.{
  append, commit, apply_record, Plan, reply, refuse, write, perform, transact,
}

-- The store after one write, whether it succeeded or not.
unfoldable pub after_write : JournalRecord → JournalStore → JournalStore
unfolding commit
after_write r s = (commit {0} {A = Unit {0}} r tt s).1

commit-after_write {ℓ} :
    {A : Type ℓ} (r : JournalRecord) (a : A) (s : JournalStore) → (commit r a s).1 ≡ after_write r s
unfolding commit after_write
commit-after_write r a s = ground arith

-- A new state of an inbox item takes back no acknowledgement.
abbrev pub KeepsInbox : String → Option InboxState → Maps → Type 0
KeepsInbox id none m = Unit
KeepsInbox id (some x) m =
    (lookup_or new_inbox_state id m.inbox_states).acked ≡ true → x.acked ≡ true

-- A new state of an outbox item takes back neither an acknowledgement nor a purge.
abbrev pub KeepsOutbox : String → Option OutboxState → Maps → Type 0
KeepsOutbox id none m = Unit
KeepsOutbox id (some x) m =
    ((lookup_or new_outbox_state id m.outbox_states).acked ≡ true → x.acked ≡ true)
    × ((lookup_or new_outbox_state id m.outbox_states).purged ≡ true → x.purged ≡ true)

-- What a record that an operation writes satisfies: its version is the one that `replay` reads, and
-- it takes back nothing that is final.
pub record IsLegal (r : JournalRecord) (m : Maps) : Type 0 where
  pub version : r.version ≡ 1
  pub inbox : KeepsInbox r.inbox_id r.inbox_state_entry m
  pub outbox : KeepsOutbox r.outbox_id r.outbox_state_entry m

-- The store with other revocations.
abbrev pub with_revocations : Dict TokenRevocation → JournalStore → JournalStore
with_revocations left s = record s { maps = record (s.maps) { revocations = left } }

-- The second store is the first after some writes of legal records and, where J holds, after some
-- changes of the revocations that the journal does not hold.
pub data Writes (J : Type 0) (s : JournalStore) : JournalStore → Type 0 where
  unchanged : Writes J s s
  then :
      {t : JournalStore} (r : JournalRecord)
      → IsLegal r t.maps
      → Writes J s t
      → Writes J s (after_write r t)
  pruned :
      {t : JournalStore} (left : Dict TokenRevocation)
      → J
      → Writes J s t
      → Writes J s (with_revocations left t)

pub Writes-trans : {J : Type 0} {s t u : JournalStore} → Writes J s t → Writes J t u → Writes J s u
Writes-trans w unchanged = w
Writes-trans w (pruned left j x) = pruned left j (Writes-trans w x)
Writes-trans w (then r v x) = then r v (Writes-trans w x)

after_write-keep {ℓ} :
    (P : Maps → Type ℓ) (r : JournalRecord) (s : JournalStore)
    → P s.maps
    → P (apply_record r s.maps)
    → P (after_write r s).maps
unfolding after_write
after_write-keep P r s old new = elim (Bool-cases (append r s.file).0) [
  | inl e ↦ rw (e, after_write) new
  | inr e ↦ rw (e, after_write) old
]

-- What every write and every change of the revocations keeps of the maps, a sequence of writes keeps.
pub Writes-keep {ℓ} :
    {J : Type 0} (P : Maps → Type ℓ)
    → ((r : JournalRecord) (m : Maps) → IsLegal r m → P m → P (apply_record r m))
    → ((left : Dict TokenRevocation) (m : Maps) → P m → P (record m { revocations = left }))
    → {s t : JournalStore} → Writes J s t
    → P s.maps
    → P t.maps
Writes-keep P keep prune unchanged h = h
Writes-keep P keep prune (then {t} r v w) h =
    let old : P t.maps = Writes-keep P keep prune w h in
    after_write-keep P r t old (keep r t.maps v old)
Writes-keep P keep prune (pruned {t} left j w) h = prune left t.maps (Writes-keep P keep prune w h)

-- Whatever a plan writes is legal.
abbrev pub Emits {ℓ} : {A : Type ℓ} → Plan A → Maps → Type 0
Emits (reply a) m = Unit
Emits (refuse e) m = Unit
Emits (write r a) m = IsLegal r m

perform-Writes {ℓ} :
    {J : Type 0} {A : Type ℓ} (p : Plan A) (s t : JournalStore)
    → Emits p t.maps
    → Writes J s t
    → Writes J s (perform p t).1
unfolding perform
perform-Writes (reply a) s t v w = w
perform-Writes (refuse e) s t v w = w
perform-Writes (write r a) s t v w = rw (commit-after_write r a t) (then r v w)

pub transact-Writes {ℓ} :
    {J : Type 0} {A : Type ℓ} (plan : Maps → Plan A) (s t : JournalStore)
    → Emits (plan t.maps) t.maps
    → Writes J s t
    → Writes J s (transact plan t).1
unfolding transact
transact-Writes plan s t = perform-Writes (plan t.maps) s t

-- What an operation that returned `b` without an error did to the maps.
abbrev pub Took {ℓ} : {A : Type ℓ} → Plan A → A → Maps → Maps → Type ℓ
Took (reply a) b m m' = (a ≡ b) × (m' ≡ m)
Took (refuse e) b m m' = (a : ⊥) × (b ≡ b)
Took (write r a) b m m' = (a ≡ b) × (m' ≡ apply_record r m)

commit-ok {ℓ} :
    {A : Type ℓ} (r : JournalRecord) (a b : A) (s s' : JournalStore)
    → commit r a s ≡ (ok b, s')
    → (a ≡ b) × (s'.maps ≡ apply_record r s.maps)
unfolding commit
commit-ok r a b s s' h = ground arith

perform-ok {ℓ} :
    {A : Type ℓ} (p : Plan A) (b : A) (s s' : JournalStore)
    → perform p s ≡ (ok b, s')
    → Took p b s.maps s'.maps
unfolding perform
perform-ok (reply a) b s s' h = ground arith
perform-ok (refuse e) b s s' h = cc
perform-ok (write r a) b s s' h = commit-ok r a b s s' h

pub transact-ok {ℓ} :
    {A : Type ℓ} (plan : Maps → Plan A) (b : A) (s s' : JournalStore)
    → transact plan s ≡ (ok b, s')
    → Took (plan s.maps) b s.maps s'.maps
unfolding transact
transact-ok plan b s s' h = perform-ok (plan s.maps) b s s' h

pub transact-after_write {ℓ} :
    {A : Type ℓ} (plan : Maps → Plan A) (r : JournalRecord) (a : A) (b : Result A)
    (s s' : JournalStore)
    → plan s.maps ≡ write r a
    → transact plan s ≡ (b, s')
    → s' ≡ after_write r s
unfolding transact perform
transact-after_write plan r a b s s' p h =
    let q : perform (write r a) s ≡ (b, s') = subst (λ x. perform x s ≡ (b, s')) p h in
    let left : (commit r a s).1 ≡ s' = ap (λ x. x.1) q in cc (left, commit-after_write r a s)

-- A write after which the maps are others was made.
pub after_write-changed :
    (r : JournalRecord) (s : JournalStore)
    → (after_write r s).maps ≢ s.maps
    → (after_write r s).maps ≡ apply_record r s.maps
unfolding after_write
after_write-changed r s ne = elim (Bool-cases (append r s.file).0) [
  | inl e ↦ rw (e, after_write) refl
  | inr e ↦ absurd (ne (rw (e, after_write) refl))
]
