-- ===== src/Store/Control.antt =====
-- Agents and the operator's worker mode (internal/core/store.go): PutAgent, GetAgent, ListAgents,
-- normalizeWorkerMode, GetWorkerControl, SetWorkerControl. `time.Now` is an argument.
pub mod Revisions
use agent_federation_hub.Base.{
  ℕ, ◌+◌, String, List, none, some, ◌==◌, text_ltb, if◌then◌else◌, select, map,
}
use agent_federation_hub.Base.Int.{u64}
use agent_federation_hub.Base.Dict.{lookup, lookup_or}
use agent_federation_hub.Base.Sort.{sort}
use agent_federation_hub.Base.Text.{reads_as, is_blank}
use agent_federation_hub.Model.{Time, zero_time, Agent, WorkerControl}
use agent_federation_hub.Store.State.{
  invalid, Result, ok, err, agent, worker_control, record_of, JournalRecord, Applied, applied,
  stale, Maps, JournalStore,
}
use agent_federation_hub.Store.Journal.{resource_key, Plan, reply, refuse, write, transact}
use agent_federation_hub.Store.Tasks.{or_not_found, is_stale}

unfoldable pub agent_record : Agent → JournalRecord
agent_record a = record (record_of agent) { agent_entry = some a }

unfoldable pub put_agent_plan : Agent → Maps → Plan (Unit {0})
unfolding agent_record
put_agent_plan a m = write (agent_record a) tt

unfoldable pub put_agent : Agent → JournalStore → Result (Unit {0}) × JournalStore
unfolding put_agent_plan transact
put_agent a s = transact (put_agent_plan a) s

unfoldable pub get_agent : String → String → JournalStore → Result Agent
unfolding or_not_found
get_agent tenant id s = or_not_found (lookup (resource_key tenant id) s.maps.agents)

unfoldable pub list_agents : String → JournalStore → List Agent
unfolding sort
list_agents tenant s =
    sort (λ a b. text_ltb a.id b.id)
      (select (λ a. a.tenant_id == tenant) (map (λ e. e.1) s.maps.agents))

-- normalizeWorkerMode
unfoldable pub normalize_worker_mode : String → Result String
unfolding reads_as
normalize_worker_mode mode =
    if reads_as mode "RUNNING"
    then ok "RUNNING"
    else if reads_as mode "PAUSED"
    then ok "PAUSED"
    else if reads_as mode "DRAINING"
    then ok "DRAINING"
    else err (invalid "unsupported worker mode")

-- The zero value that the map gives for a missing scope.
abbrev pub no_control : WorkerControl
no_control = record { scope = ""; mode = ""; revision = 0; updated_at = zero_time }

unfoldable pub get_worker_control : Time → String → JournalStore → Result WorkerControl
unfolding is_blank
get_worker_control now scope s =
    if is_blank scope
    then err (invalid "worker control scope is required")
    else elim (lookup scope s.maps.worker_controls) [
      | some c ↦ ok c
      | none ↦ ok (record { scope = scope; mode = "RUNNING"; revision = 0; updated_at = now })
    ]

unfoldable pub worker_control_record : WorkerControl → JournalRecord
worker_control_record c = record (record_of worker_control) { worker_control_entry = some c }

unfoldable pub store_control :
    Time → WorkerControl → ℕ → Result String → Maps → Plan (Applied WorkerControl)
unfolding is_stale worker_control_record
store_control now c expected (err e) m = refuse e
store_control now c expected (ok mode) m =
    let current = lookup_or no_control c.scope m.worker_controls in
    let c' = record c { mode = mode; revision = u64 (current.revision + 1); updated_at = now } in
    if is_stale expected current.revision
    then reply (stale current)
    else write (worker_control_record c') (applied c')

unfoldable pub set_worker_control_plan :
    Time → WorkerControl → ℕ → Maps → Plan (Applied WorkerControl)
unfolding store_control is_blank normalize_worker_mode
set_worker_control_plan now c expected m =
    if is_blank c.scope
    then refuse (invalid "worker control scope is required")
    else store_control now c expected (normalize_worker_mode c.mode) m

-- The source puts the entry into the map itself, which is what applyRecord does with its record.
unfoldable pub set_worker_control :
    Time → WorkerControl → ℕ → JournalStore → Result (Applied WorkerControl) × JournalStore
unfolding set_worker_control_plan transact
set_worker_control now c expected s = transact (set_worker_control_plan now c expected) s
