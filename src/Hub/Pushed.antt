-- ===== src/Hub/Pushed.antt =====
-- A pushed observation, from AcceptPush to ApplyInboxItem (internal/hub/service.go).
use mathlib.Core.Bool.{false≢true}
use agent_federation_hub.Base.{
  String, ◌≡◌, ◌≢◌, refl, ap, sym, subst, ◌∙◌, Bool, true, false, List, Option, none, some, ◌⊎◌,
  inl, inr, ◌==◌, eq_iff, eq_refl, arith, Option-cases,
}
use agent_federation_hub.Base.Dict.{lookup, lookup-insert}
use agent_federation_hub.Model.{Task}
use agent_federation_hub.Model.Queue.{InboxItem}
use agent_federation_hub.Store.State.{rejected, Result, ok, err, Maps, JournalStore}
use agent_federation_hub.Store.Journal.{
  and_then, resource_key, inbox_dedup_key, apply_record, put_inbox,
}
use agent_federation_hub.Store.Claims.{and_then-ok}
use agent_federation_hub.Store.Writes.{Took, transact-ok}
use agent_federation_hub.Store.Tasks.{get_task}
use agent_federation_hub.Store.Tasks.Versions.{IsFiled}
use agent_federation_hub.Store.Tasks.Progress.{Progress-refl}
use agent_federation_hub.Store.Inbox.{enqueue_inbox, enqueue_inbox_plan}
use agent_federation_hub.Federation.{Observation}
use agent_federation_hub.Hub.Service.{Service, Draws}
use agent_federation_hub.Hub.Observations.{apply_observation}
use agent_federation_hub.Hub.Forward.{KeepsTasks}
use agent_federation_hub.Hub.Forward.Submit.{accept_push-Progress}
use agent_federation_hub.Hub.Lifecycle.{Call, calls, calls-IsLater}
use agent_federation_hub.Hub.Created.{get_known, found_task}
use agent_federation_hub.Hub.Push.{
  accept_push, accept_known, queue_push, push_item, apply_inbox_item, apply_pushed, is_mismatch,
  pushed,
}

-- The item is in the inbox afterwards, or one with its deduplication key was there before.
abbrev pub IsQueued : InboxItem → Maps → Maps → Type 0
IsQueued i m m' =
    (lookup i.id m'.inbox_items ≡ some i)
    ⊎ ((id : String) × (lookup (inbox_dedup_key i) m.inbox_dedup ≡ some id) × (m' ≡ m))

enqueued :
    (i : InboxItem) (b : Bool) (m m' : Maps)
    → Took (enqueue_inbox_plan i m) b m m'
    → IsQueued i m m'
unfolding enqueue_inbox_plan apply_record put_inbox
enqueued i b m m' h = elim (Option-cases (lookup (inbox_dedup_key i) m.inbox_dedup)) [
  | inl none_there ↦ inl (ground (arith, lookup-insert i.id i.id i m.inbox_items, eq_refl i.id))
  | inr (id, known) ↦ inr (id, known, ground arith)
]

enqueue_inbox-IsQueued :
    (i : InboxItem) (b : Bool) (s s' : JournalStore)
    → enqueue_inbox i s ≡ (ok b, s')
    → IsQueued i s.maps s'.maps
unfolding enqueue_inbox
enqueue_inbox-IsQueued i b s s' h =
    enqueued i b s.maps s'.maps (transact-ok (enqueue_inbox_plan i) b s s' h)

queued :
    (svc : Service) (d : Draws) (tenant task_id : String) (o : Observation) (t t' : Task)
    (s s' : JournalStore)
    → queue_push svc d tenant task_id o t s ≡ (ok t', s')
    → (t ≡ t')
      × (payload : String) × (svc.encode_observation o ≡ some payload)
      × IsQueued (push_item svc d tenant task_id o payload) s.maps s'.maps
unfolding queue_push
queued svc d tenant task_id o t t' s s' h = go (svc.encode_observation o) refl h
  where
    go :
        (c : Option String)
        → svc.encode_observation o ≡ c
        → (let x : Result Task × JournalStore = elim c [
          | none ↦ (err (rejected "encode Push observation"), s)
          | some payload ↦
              and_then
                (enqueue_inbox (push_item svc d tenant task_id o payload) s)
                λ new s'. (ok t, s')
        ] in
            x)
          ≡ (ok t', s')
        → (t ≡ t')
          × (payload : String) × (svc.encode_observation o ≡ some payload)
          × IsQueued (push_item svc d tenant task_id o payload) s.maps s'.maps
    go none e k = cc
    go (some payload) e k =
        let i = push_item svc d tenant task_id o payload in
        let (b, u, first, more) = and_then-ok (enqueue_inbox i s) _ t' s' k in
        let left : u ≡ s' = ap (λ x. x.1) more in
        (
          cc (more),
          payload,
          e,
          subst (λ x. IsQueued i s.maps x.maps) left (enqueue_inbox-IsQueued i b s u first),
        )

-- What a push that is accepted tells.
accepted :
    (svc : Service) (d : Draws) (tenant task_id token : String) (o : Observation) (t : Task)
    (g : Result Task) (s s' : JournalStore)
    → accept_known svc d tenant task_id token o g s ≡ (ok t, s')
    → (u : Task) × (g ≡ ok u)
      × ((u.push_token_hash == "") ≡ false)
      × ((u.push_token_hash == svc.digest token) ≡ true)
      × (is_mismatch u o ≡ false)
      × (queue_push svc d tenant task_id (pushed o) u s ≡ (ok t, s'))
unfolding accept_known
accepted svc d tenant task_id token o t (err e) s s' h = cc
accepted svc d tenant task_id token o t (ok u) s s' h =
    (u, refl, ground arith, ground arith, ground arith, ground arith)

-- A Task with a remote identifier matches the observations of that identifier later too.
still_matches :
    (t u : Task) (o : Observation)
    → is_mismatch t o ≡ false
    → u.remote_task_id ≡ t.remote_task_id
    → is_mismatch u o ≡ false
unfolding is_mismatch
still_matches t u o h e = rw e h

apply_queued :
    (svc : Service) (d d' : Draws) (tenant task_id payload : String) (o : Observation) (t : Task)
    (s : JournalStore)
    → svc.decode_observation payload ≡ some (pushed o)
    → lookup (resource_key tenant task_id) s.maps.tasks ≡ some t
    → is_mismatch t o ≡ false
    → apply_inbox_item svc d' (push_item svc d tenant task_id (pushed o) payload) s
      ≡ apply_observation svc d' t (pushed o) s
unfolding apply_inbox_item apply_pushed is_mismatch push_item
apply_queued svc d d' tenant task_id payload o t s dec there fits =
    rw dec (rw (get_known tenant task_id t s there) (rw fits))

-- Where the observation, with its source set, is encoded as a text that decodes to it, and storing an
-- Artifact's content changes no Task, and in a store that files each Task under its own key: a push that is accepted for a
-- Task with a remote identifier came with a token whose digest is the nonempty hash that the Task
-- has. An item with that text is then in the inbox, unless an
-- item with its deduplication key was there before. Whatever calls of the Hub come in between, the
-- Task is there, and applying the item later is applying that observation to the Task as it is
-- stored then.
pub pushed_applies :
    (svc : Service) (d d' : Draws) (tenant task_id token payload : String) (o : Observation)
    (t : Task) (cs : List Call) (s s' : JournalStore)
    → KeepsTasks svc
    → svc.encode_observation (pushed o) ≡ some payload
    → svc.decode_observation payload ≡ some (pushed o)
    → IsFiled s.maps
    → accept_push svc d tenant task_id token o s ≡ (ok t, s')
    → (t.remote_task_id == "") ≡ false
    → (lookup (resource_key tenant task_id) s.maps.tasks ≡ some t)
      × (t.push_token_hash ≢ "")
      × (t.push_token_hash ≡ svc.digest token)
      × IsQueued (push_item svc d tenant task_id (pushed o) payload) s.maps s'.maps
      × (u : Task) × (lookup (resource_key tenant task_id) (calls svc cs s').maps.tasks ≡ some u)
      × (apply_inbox_item svc d'
            (push_item svc d tenant task_id (pushed o) payload)
            (calls svc cs s')
          ≡ apply_observation svc d' u (pushed o) (calls svc cs s'))
unfolding accept_push
pushed_applies svc d d' tenant task_id token payload o t cs s s' keeps enc dec filed h remote =
    let (v, there, named, token_fits, fits, rest) =
      accepted svc d tenant task_id token o t (get_task tenant task_id s) s s' h in
    let (same, text, encodes, item) = queued svc d tenant task_id (pushed o) v t s s' rest in
    let found : lookup (resource_key tenant task_id) s.maps.tasks ≡ some t =
      rw (← same) (found_task tenant task_id v s there) in
    let text_same : text ≡ payload = cc (enc, encodes) in
    let hashed : (t.push_token_hash == "") ≡ false = rw (← same) named in
    let left : (accept_push svc d tenant task_id token o s).1 ≡ s' = ap (λ x. x.1) h in
    let p =
      accept_push-Progress s.maps svc keeps d tenant task_id token o s
        (Progress-refl s.maps filed) in
    let (w, found', l) = p.kept (resource_key tenant task_id) t found in
    let found1 : lookup (resource_key tenant task_id) s'.maps.tasks ≡ some w =
      subst (λ x. lookup (resource_key tenant task_id) x.maps.tasks ≡ some w) left found' in
    let filed1 : IsFiled s'.maps = subst (λ x. IsFiled x.maps) left p.filed in
    let (u, found2, l') =
      calls-IsLater svc cs s' (resource_key tenant task_id) w keeps filed1 found1 in
    let kept : w.remote_task_id ≡ t.remote_task_id = l.7 remote in
    let kept' : u.remote_task_id ≡ t.remote_task_id = l'.7 (rw kept remote) ∙ kept in
    (
      found,
      (λ e. false≢true (sym hashed ∙ ap (λ x. x == "") e)),
      (eq_iff t.push_token_hash (svc.digest token)).0 (rw (← same) token_fits),
      subst (λ x. IsQueued (push_item svc d tenant task_id (pushed o) x) s.maps s'.maps) text_same
          item,
      u,
      found2,
      apply_queued svc d d' tenant task_id payload o u (calls svc cs s') dec found2
          (still_matches t u o (rw (← same) fits) kept'),
    )
