-- ===== src/Hub/Submission.antt =====
-- SubmitTask (internal/hub/service.go): the checks of a request, the durable Task, and the delivery.
use Prim.Native.String.{◌++◌ as text_append}
use agent_federation_hub.Base.{
  String, Bool, true, false, ◌&&◌, ◌||◌, not, List, [], ◌∷◌, Option, none, some, ◌==◌, ltb,
  text_ltb, if◌then◌else◌, length,
}
use agent_federation_hub.Base.Int.{ℤ, pos, negsuc, ltb_ℤ}
use agent_federation_hub.Base.Text.{contains, trim, byte_length, take_text, drop_text}
use agent_federation_hub.Base.Sort.{sort}
use agent_federation_hub.Model.{
  Time, unset, submitted, pending, ambiguous, Problem, Part, Agent, Task,
}
use agent_federation_hub.Model.Json.{JsonValue}
use agent_federation_hub.Store.State.{
  Error, conflict, invalid, rejected, Result, ok, err, JournalStore,
}
use agent_federation_hub.Store.Journal.{and_then}
use agent_federation_hub.Store.Tasks.{Mutation, create_task, get_task}
use agent_federation_hub.Federation.{Message, PushConfig}
use agent_federation_hub.Hub.Service.{ParsedUrl, Formats, Service, Draws, Remote}
use agent_federation_hub.Hub.Parts.{
  normalize_message_parts, materialize_message_parts, first_text_part,
}
use agent_federation_hub.Hub.Urls.{validate_http_url}
use agent_federation_hub.Hub.Routing.{resolve_agent}
use agent_federation_hub.Hub.Observations.{hub_event, update_task, problem_from_error}
use agent_federation_hub.Hub.Tasks.{Read, read_stream, reconcile_task}

pub record SubmitTaskInput : Type 0 where
  pub agent_id : String
  pub skill : String
  pub body : String
  pub parts : List Part
  pub enable_push : Bool
  pub priority : ℤ
  pub extensions : List String
  pub metadata : List (String × JsonValue)
  pub idempotency_key : String

-- The body of the loop of normalizeRequestExtensions, on a text that is trimmed.
unfoldable pub is_extension_url : Option ParsedUrl → Bool
is_extension_url none = false
is_extension_url (some u) =
    not (u.scheme == "") && not (u.host == "") && not u.has_user && u.fragment == ""

-- The loop, with the texts that were kept so far.
unfoldable pub collect_extensions : Formats → List String → List String → Result (List String)
unfolding trim is_extension_url contains
collect_extensions formats seen [] = ok []
collect_extensions formats seen (raw ∷ rest) =
    let value = trim raw in
    let known = collect_extensions formats seen rest in
    let later = collect_extensions formats (value ∷ seen) rest in
    if value == ""
    then err (invalid "A2A extension URI must not be empty")
    else if not (is_extension_url (formats.parse_url value))
    then err (invalid "invalid A2A extension URI")
    else if contains value seen
    then known
    else elim later [ err e ↦ err e | ok values ↦ ok (value ∷ values) ]

unfoldable pub normalize_request_extensions : Formats → List String → Result (List String)
unfolding collect_extensions sort
normalize_request_extensions formats values = elim (collect_extensions formats [] values) [
  | err e ↦ err e
  | ok found ↦ ok (sort text_ltb found)
]

-- validateExtensionMetadata. The decoded copy is the value itself.
unfoldable pub validate_extension_metadata :
    Formats → List (String × JsonValue) → Result (List (String × JsonValue))
validate_extension_metadata formats [] = ok []
validate_extension_metadata formats (e ∷ es) =
    if ltb 64 (length (e ∷ es))
    then err (invalid "extension metadata has too many keys")
    else elim (formats.encoded_size (e ∷ es)) [
      | none ↦ err (invalid "extension metadata must be JSON")
      | some size ↦
          if ltb 65536 size then err (invalid "extension metadata exceeds 64 KiB") else ok (e ∷ es)
    ]

-- What SubmitTask knows before it creates the Task.
pub record Request : Type 0 where
  pub agent : Agent
  pub parts : List Part
  pub materialized : List Part
  pub extensions : List String
  pub metadata : List (String × JsonValue)
  pub key : String

unfoldable pub check_key :
    Agent
    → List Part
    → List Part
    → List String
    → List (String × JsonValue)
    → String
    → Result Request
check_key a ps ms es meta key =
    if ltb 256 (byte_length key)
    then err (invalid "task idempotency key exceeds 256 characters")
    else ok (record {
      agent = a;
      parts = ps;
      materialized = ms;
      extensions = es;
      metadata = meta;
      key = key;
    })

-- The checks in their order, up to the length of the idempotency key.
unfoldable pub check_request : Service → String → SubmitTaskInput → JournalStore → Result Request
unfolding normalize_message_parts normalize_request_extensions validate_extension_metadata
    resolve_agent materialize_message_parts check_key trim byte_length
check_request svc tenant i s = elim (normalize_message_parts svc.formats i.body i.parts) [
  | err e ↦ err e
  | ok ps ↦
      if ltb_ℤ i.priority (negsuc 999) || ltb_ℤ (pos 1000) i.priority
      then err (invalid "task priority must be between -1000 and 1000")
      else elim (normalize_request_extensions svc.formats i.extensions) [
        | err e ↦ err e
        | ok es ↦ elim (validate_extension_metadata svc.formats i.metadata) [
          | err e ↦ err e
          | ok meta ↦ elim (resolve_agent tenant i.agent_id i.skill s) [
            | err e ↦ err e
            | ok a ↦ elim (materialize_message_parts svc.artifacts tenant ps) [
              | err e ↦ err e
              | ok ms ↦ check_key a ps ms es meta (trim i.idempotency_key)
            ]
          ]
        ]
      ]
]

-- The identifiers: drawn, or from the digest of the tenant, the Agent and the key.
unfoldable pub submission_id : Service → Draws → String → Request → String
unfolding take_text
submission_id svc d tenant r =
    if r.key == ""
    then d.id 0
    else text_append "task-" (
        take_text 32 (
          svc.digest (
            text_append tenant
              (text_append "\0" (text_append r.agent.id (text_append "\0" r.key))))))

unfoldable pub submission_message_id : Service → Draws → String → Request → String
unfolding drop_text
submission_message_id svc d tenant r =
    if r.key == ""
    then d.id 1
    else text_append "message-" (
        drop_text 32 (
          svc.digest (
            text_append tenant
              (text_append "\0" (text_append r.agent.id (text_append "\0" r.key))))))

unfoldable pub new_task : Service → Draws → String → SubmitTaskInput → Request → Task
unfolding submission_id submission_message_id
new_task svc d tenant i r = record {
  id = submission_id svc d tenant r;
  tenant_id = tenant;
  agent_id = r.agent.id;
  message_id = submission_message_id svc d tenant r;
  input_digest = svc.digest_input r.parts r.extensions r.metadata;
  idempotency_key = r.key;
  requested_extensions = r.extensions;
  extension_metadata = r.metadata;
  priority = i.priority;
  remote_task_id = "";
  remote_context_id = "";
  state = submitted;
  delivery = pending;
  cancel_requested = false;
  push_token_hash = "";
  artifacts = [];
  problem = none;
  last_remote_observed_at = none;
  created_at = d.time 0;
  updated_at = d.time 0;
  revision = 0;
  last_sequence = 0;
}

-- The Task with the hash of the callback's token, and the callback, where the request asks for one.
-- The token, or the error of the generator, is the argument.
unfoldable pub with_push :
    Service → String → Bool → Agent → Result String → Task → Result (Task × Option PushConfig)
unfolding validate_http_url
with_push svc tenant enabled a token t =
    if not enabled
    then ok (t, none)
    else if not a.push_notifications
    then err (rejected "remote Agent does not declare Push support")
    else elim (validate_http_url svc.formats svc.public_base_url
        (not svc.allow_private_agent_urls)) [
          | err e ↦ err e
          | ok _ ↦ elim token [
            | err e ↦ err e
            | ok value ↦ ok (
              record t { push_token_hash = svc.digest value },
              some (record { url = svc.push_url t.id tenant; token = value }),
            )
          ]
        ]

-- A Task that an earlier call with the same key and content created.
unfoldable pub is_repeated : Task → Task → Bool
is_repeated proposed existing =
    not (proposed.idempotency_key == "")
    && existing.idempotency_key == proposed.idempotency_key
    && existing.input_digest == proposed.input_digest
    && existing.agent_id == proposed.agent_id

unfoldable pub repeated : Error → Task → Result Task → Result Task
unfolding is_repeated
repeated e proposed (err _) = err e
repeated e proposed (ok existing) = if is_repeated proposed existing then ok existing else err e

unfoldable pub is_conflict : Error → Bool
is_conflict conflict = true
is_conflict _ = false

-- Once an attempt to send starts, its outcome is unknown until a remote Task is observed.
unfoldable pub started_update : Time → Mutation
started_update now t = ok (
  record t { delivery = ambiguous; updated_at = now },
  hub_event "delivery.started" "hub" unset none now,
)

unfoldable pub submission_message : Task → Request → Option PushConfig → Message
unfolding first_text_part
submission_message t r push = record {
  id = t.message_id;
  body = first_text_part r.parts;
  parts = r.materialized;
  remote_task_id = "";
  remote_context_id = "";
  return_immediately = true;
  push = push;
  extensions = t.requested_extensions;
  metadata = t.extension_metadata;
}

-- The callback after a stream that broke before a remote Task was observed.
unfoldable pub unsent_update : Time → Problem → Mutation
unsent_update now p t = ok (
  record t {
    delivery = if p.is_ambiguous then t.delivery else pending;
    problem = some p;
    updated_at = now;
  },
  hub_event (if p.is_ambiguous then "delivery.ambiguous" else "delivery.rejected") "hub" unset
      (some p) now,
)

unfoldable pub disconnected_update : Time → Problem → Mutation
disconnected_update now p t = ok (
  record t { problem = some p; updated_at = now },
  hub_event "delivery.disconnected" "hub" unset (some p) now,
)

-- The end of SubmitTask, after the stream.
unfoldable pub settle_delivery :
    Service → Draws → Remote → String → Read → JournalStore → Result Task × JournalStore
unfolding unsent_update disconnected_update reconcile_task update_task problem_from_error and_then
settle_delivery svc d remote tenant (t, none) s = (ok t, s)
settle_delivery svc d remote tenant (t, some e) s =
    let p = problem_from_error e in
    if t.remote_task_id == ""
    then and_then (update_task (d.id 4) tenant t.id "" (unsent_update (d.time 2) p) s)
        (λ t' s'. (if p.is_ambiguous then ok t' else err e, s'))
    else let (r, s') = reconcile_task svc remote true tenant t.id s in
      elim r [
        | ok t' ↦ (ok t', s')
        | err _ ↦ update_task (d.id 4) tenant t.id "" (disconnected_update (d.time 2) p) s'
      ]

unfoldable pub deliver :
    Service
    → Draws
    → Remote
    → String
    → Request
    → Option PushConfig
    → Task
    → JournalStore
    → Result Task × JournalStore
unfolding started_update submission_message read_stream settle_delivery update_task and_then
deliver svc d remote tenant r push t s =
    and_then (update_task (d.id 3) tenant t.id "" (started_update (d.time 1)) s) λ t1 s1.
      and_then (read_stream svc (remote.send r.agent (submission_message t1 r push)) t1 s1)
        λ x s2. settle_delivery svc d remote tenant x s2

unfoldable pub create_and_deliver :
    Service
    → Draws
    → Remote
    → String
    → Request
    → Task × Option PushConfig
    → JournalStore
    → Result Task × JournalStore
unfolding create_task get_task deliver repeated is_conflict
create_and_deliver svc d remote tenant r (t, push) s =
    let (created, s') =
      create_task (d.id 2) t (hub_event "task.submitted" "hub" t.state none (d.time 0)) s in
    elim created [
      | ok t' ↦ deliver svc d remote tenant r push t' s'
      | err e ↦ (if is_conflict e then repeated e t (get_task tenant t.id s') else err e, s')
    ]

unfoldable pub submit_task :
    Service
    → Draws
    → Result String
    → Remote
    → String
    → SubmitTaskInput
    → JournalStore
    → Result Task × JournalStore
unfolding check_request new_task with_push create_and_deliver
submit_task svc d token remote tenant i s = elim (check_request svc tenant i s) [
  | err e ↦ (err e, s)
  | ok r ↦ elim (with_push svc tenant i.enable_push r.agent token (new_task svc d tenant i r)) [
    | err e ↦ (err e, s)
    | ok proposed ↦ create_and_deliver svc d remote tenant r proposed s
  ]
]
