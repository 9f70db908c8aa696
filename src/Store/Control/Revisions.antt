-- ===== src/Store/Control/Revisions.antt =====
-- Revisions of the worker mode (SetWorkerControl of internal/core/store.go).
use agent_federation_hub.Base.{
  ℕ, ◌+◌, String, ◌≡◌, ◌≢◌, refl, if◌then◌else◌, Bool, true, false, some, arith, eq_refl,
}
use agent_federation_hub.Base.Int.{u64}
use agent_federation_hub.Base.Dict.{lookup, lookup_or, lookup-insert}
use agent_federation_hub.Base.Text.{is_blank}
use agent_federation_hub.Model.{Time, WorkerControl}
use agent_federation_hub.Store.State.{Result, ok, err, invalid, applied, stale, Maps, JournalStore}
use agent_federation_hub.Store.Journal.{reply, refuse, apply_record, put_worker_control}
use agent_federation_hub.Store.Writes.{Took, transact-ok}
use agent_federation_hub.Store.Tasks.{is_stale}
use agent_federation_hub.Store.Control.{
  set_worker_control, set_worker_control_plan, store_control, normalize_worker_mode, no_control,
  get_worker_control,
}

-- What a stored mode tells of the maps before it and after it.
abbrev Stored : ℕ → WorkerControl → WorkerControl → Maps → Maps → Type 0
Stored expected c d m m' =
    let old = (lookup_or no_control c.scope m.worker_controls).revision in
    (lookup c.scope m'.worker_controls ≡ some d)
    × (d.revision ≡ u64 (old + 1))
    × (is_stale expected old ≡ false)
    × (d.scope ≡ c.scope)
    × (normalize_worker_mode c.mode ≡ ok d.mode)

store_control-Stored :
    (now : Time) (c d : WorkerControl) (expected : ℕ) (r : Result String) (m m' : Maps)
    → normalize_worker_mode c.mode ≡ r
    → Took (store_control now c expected r m) (applied d) m m'
    → Stored expected c d m m'
unfolding store_control apply_record put_worker_control
store_control-Stored now c d expected (err e) m m' x h = absurd h.0
store_control-Stored now c d expected (ok mode) m m' x h =
    ground (arith, lookup-insert c.scope c.scope d m.worker_controls, eq_refl c.scope)

set_worker_control-Stored :
    (now : Time) (c d : WorkerControl) (expected : ℕ) (m m' : Maps)
    → Took (set_worker_control_plan now c expected m) (applied d) m m'
    → Stored expected c d m m'
unfolding set_worker_control_plan
set_worker_control-Stored now c d expected m m' h = go (is_blank c.scope) h
  where
    go :
        (blank : Bool)
        → Took
            (if blank
              then refuse (invalid "worker control scope is required")
              else store_control now c expected (normalize_worker_mode c.mode) m)
            (applied d)
            m
            m'
        → Stored expected c d m m'
    go true k = absurd k.0
    go false k = store_control-Stored now c d expected (normalize_worker_mode c.mode) m m' refl k

next_control_is_stale :
    (r old next : ℕ)
    → r ≢ 0
    → is_stale r old ≡ false
    → next ≡ u64 (old + 1)
    → is_stale r next ≡ true
unfolding is_stale
next_control_is_stale r old next ne fresh e = ground arith

next_revision :
    (r old next : ℕ) → r ≢ 0 → is_stale r old ≡ false → next ≡ u64 (old + 1) → next ≡ u64 (r + 1)
unfolding is_stale
next_revision r old next ne fresh e = ground arith

-- The answer to an update of a scope that has a mode of another revision.
store_control-stale :
    (now : Time) (c d : WorkerControl) (expected : ℕ) (mode : String) (m : Maps)
    → lookup c.scope m.worker_controls ≡ some d
    → is_stale expected d.revision ≡ true
    → store_control now c expected (ok mode) m ≡ reply (stale d)
unfolding store_control lookup_or
store_control-stale now c d expected mode m e h = rw e (rw h)

-- A worker mode that was set for a scope that is not blank, expecting a nonzero revision, is what
-- a read of the scope answers next: the requested mode in its normal form, for the requested scope,
-- with the revision after the expected one. A second valid mode for the scope that expects the same
-- nonzero revision is refused with the first one and changes nothing.
pub lost_control :
    (now now' : Time) (c c' d : WorkerControl) (revision : ℕ) (mode : String) (s s' : JournalStore)
    → revision ≢ 0
    → set_worker_control now c revision s ≡ (ok (applied d), s')
    → is_blank c.scope ≡ false
    → c'.scope ≡ c.scope
    → normalize_worker_mode c'.mode ≡ ok mode
    → (get_worker_control now' c.scope s' ≡ ok d)
      × (normalize_worker_mode c.mode ≡ ok d.mode)
      × (d.scope ≡ c.scope)
      × (d.revision ≡ u64 (revision + 1))
      × (set_worker_control now' c' revision s' ≡ (ok (stale d), s'))
unfolding set_worker_control get_worker_control
lost_control now now' c c' d revision mode s s' ne h named same valid =
    let x =
      set_worker_control-Stored now c d revision s.maps s'.maps
        (transact-ok (set_worker_control_plan now c revision) (applied d) s s' h) in
    let old = next_control_is_stale revision _ d.revision ne x.2 x.1 in
    let found : lookup c'.scope s'.maps.worker_controls ≡ some d = rw same x.0 in
    let answer = store_control-stale now' c' d revision mode s'.maps found old in
    let blank : is_blank c'.scope ≡ false = rw same named in
    (
      rw named (rw x.0),
      x.4,
      x.3,
      next_revision revision _ d.revision ne x.2 x.1,
      rw blank (rw valid (rw answer)),
    )
