-- ===== src/Lib.antt =====
-- The verification library of the Agent Federation Hub, a Go service that forwards Tasks to remote
-- Agents and keeps their state. It models the Hub's single-process durable store, its service over
-- that store, the coordination of workflows, and parts of its workers.
--
-- Parts of the program and files of the library:
-- - Model and Model/ are the data of internal/core/model.go: Tasks, events, Agents and worker
--   controls in Model, the stored Artifact objects in Model/Objects, the inbox and outbox items in
--   Model/Queue, workflows in Model/Workflow, decoded JSON values in Model/Json.
-- - Store and Store/ are JournalStore of internal/core/store.go. Store/State holds the struct: its
--   maps (Maps), its journal file (JournalFile) and journalRecord. Store/Journal has applyRecord,
--   append, replay and OpenJournal. An operation of the source locks the store, decides from the
--   maps, appends one record and applies it: the decision is a function into Plan (named after the
--   operation, with _plan), and `transact` performs it. A claim of leases is a loop of such steps.
-- - Store/Tasks: CreateTask, ApplyTask, ApplyTaskVersion, GetTask, ListRecoverable, EventsAfter.
--   Store/Leases: ClaimRecoverable, RenewLease, ReleaseLease. Store/Inbox: EnqueueInbox, ClaimInbox,
--   RenewInboxLease, AckInbox, RetryInbox. Store/Outbox and Store/Outbox/Admin: the same for the
--   outbox, and DeadLetterOutbox, ListOutbox, ReplayOutbox, PurgeOutbox. Store/Revocations:
--   RevokeToken, TokenRevoked, PruneRevocations. Store/Control: PutAgent, GetAgent, ListAgents,
--   GetWorkerControl, SetWorkerControl. Store/Workflows: CreateWorkflow, ApplyWorkflowVersion,
--   GetWorkflow, ListWorkflows. Store/Artifacts and Store/Artifacts/Deletion: ReserveArtifact,
--   FinalizeArtifact, FailArtifact, GetArtifact, GetArtifactUsage, ClaimExpiredArtifacts,
--   RenewArtifactLease, CompleteArtifactDeletion, RetryArtifactDeletion.
-- - Store/Operations is the type of all operations that change the maps, and their runs. Store/Writes
--   and Store/Operations/Chains reduce an operation to the journal writes that it makes;
--   PruneRevocations is the one that changes the maps without a journal record.
-- - Store/Durability and Store/Operations/Recovery are about restarts, Store/Operations/Finality,
--   Store/Operations/Filed and Store/Operations/Known about what every operation keeps, Store/Tasks/Versions and Store/Tasks/Log
--   about Task updates, Store/Leases/Exclusive and Store/Leases/Fencing about claims, Store/Once about
--   repeated creations, updates and items, Store/Control/Revisions about worker modes, Store/Artifacts/Quota about the
--   storage quota. Store/Tests and Store/Tests/Limits run the store on concrete data.
-- - Federation is the data of internal/federation/adapter.go, which the Hub exchanges with an adapter
--   of a remote Agent's protocol.
-- - Hub and Hub/ are the service of internal/hub/service.go, with the files it uses. Hub/Service holds
--   the struct Service and what the environment answers in one operation. Hub/Parts is
--   internal/hub/parts.go, Hub/Urls is validateHTTPURL of internal/hub/security.go, Hub/Routing is
--   ResolveAgent. Hub/Observations is applyObservation, with externalizeArtifact, shouldApplyState,
--   mergeArtifact, recordProblem and problemFromError. Hub/Tasks is ReconcileTask, Recover, CancelTask
--   and ContinueTask, Hub/Submission is SubmitTask, Hub/Push is AcceptPush and ApplyInboxItem.
--   All of them change the store by Store/Tasks and Store/Inbox. Hub/Lifecycle is the type of all these
--   calls and their runs; it rests on Store/Tasks/Progress, Hub/Forward and its children, which follow a
--   Task through one update, one observation and one call. Hub/Created is about what a submission
--   leaves behind, Hub/Repeats about repeated submissions, Hub/Pushed about pushed observations, and
--   Hub/Tests runs the service on concrete data.
-- - Orchestration and Orchestration/ are the coordinator of internal/orchestration/workflow.go, which
--   runs workflows by Store/Workflows and the calls of Hub. Definition makes the steps of a workflow
--   from a definition of internal/hub/workflow_types.go; Graph is the normalisation of dependencies and
--   inputs and validateWorkflowGraph. States is workflowStateForSteps, Schedule says which steps are
--   ready or blocked, Steps has the callbacks that change a stored workflow. Rounds is
--   submitWorkflowReady, Start is StartWorkflow, Runs is ReconcileWorkflow and ContinueWorkflow, Control
--   is PauseWorkflow, ResumeWorkflow, CancelWorkflow and updateStep, Compensation is CompensateWorkflow,
--   Review is reconcileCompensation. Inputs is MemoryInputStore of
--   internal/orchestration/input_store.go, and projectArtifactInputs.
--   The children of Graph follow the walk of the graph: Edges about the graph that is built, Order about
--   what the walk leaves behind, Depth about its depth, Rise about cycles, Valid about the whole check.
--   Schedule/Progress, Inputs/Vault, Control/Pausing (with Control/Changes), Start/Repeats and
--   Compensation/Retry are about those parts. Orchestration/Tests and its children run them.
-- - Worker/Queues is RunOnce of internal/worker/inbox.go and internal/worker/outbox.go.
-- - Worker/Backoff is boundedBackoff of internal/worker/inbox.go, with the defaults of its durations;
--   Worker/Tests runs it. Its loop runs at most attempt - 1 rounds, and recurses on that number.
-- - Base and Base/ are shared helpers: Boolean tests, lists, dictionaries in place of Go's maps,
--   stable sorting, signed integers and the wrap-around of int64, uint32 and uint64, and the blanks
--   and letters of texts.
--
-- How the model reads the source: times and durations are integers in nanoseconds, counted from
-- Go's zero time and without a bound. `uint32`, `uint64` and `int64` wrap. The mutex of the store
-- makes each operation one step. The identifiers of NewID, the results of time.Now and the answers
-- of json.Valid are arguments, and so are the callbacks that update Tasks and workflows. The file
-- system decides for each write whether it is durable, fails, or is written with a failing Sync.
-- Decoding an encoded record gives the record back, except for the field of an Artifact object that
-- the tag `json:"-"` leaves out. Values are immutable, so the deep copies of CloneTask,
-- CloneWorkflow and CloneAgent are the values themselves, and copying does not fail. So is the copy
-- of an input that cloneWorkflowInput makes by encoding and decoding it. The order in
-- which Go visits a map is the order of the entries of its dictionary. What an adapter answers is an
-- argument of each call of the service: a stream is the list of its elements up to its end or its
-- first error. So are the digests, the codec of observations, the parsers of URLs, media types and
-- addresses, and the Artifact service, which takes and returns the store. An error keeps its text
-- and not what it wraps; of a call that fails, the Task beside the error is left out. Metrics and
-- traces are left out. Loops are structural recursions over lists, except for the walk of a
-- workflow's graph: its fuel bounds the depth of its calls and is one more than the number of steps,
-- which is enough since each nested call marks another step. The rounds of the scheduler are bounded
-- by a fuel that the caller gives, and a run that reaches the bound says so. The branches of a
-- round run one after another; the vault of inputs answers the coordinator by arguments.
--
-- Not modelled: the PostgreSQL store; backup and restore of journal files; lines cut short by a
-- crash and the limit of 16 MiB on a line that replay reads; cancelled contexts; the texts of the
-- errors of libraries; the registration of Agents; the Hub's HTTP interface, adapters and commands;
-- the fan-out calls and the templates of workflows; the vaults in files and databases; and of the
-- workers the reconciler, the gates and the transports.
pub mod Base
pub mod Model
pub mod Store
pub mod Federation
pub mod Hub
pub mod Orchestration
pub mod Worker
