-- ===== src/Hub/Service.antt =====
-- What the Hub's operations rest on: the fields of Service (internal/hub/service.go), and the answers
-- of the environment to one operation.
use agent_federation_hub.Base.{ℕ, String, Bool, List, Option}
use agent_federation_hub.Base.Int.{ℤ}
use agent_federation_hub.Model.{Time, Part, Task, Agent}
use agent_federation_hub.Model.Json.{JsonValue}
use agent_federation_hub.Model.Objects.{ArtifactObject}
use agent_federation_hub.Store.State.{Error, Result, JournalStore}
use agent_federation_hub.Federation.{Observation, Message}

-- What `url.Parse` makes of a text.
pub record ParsedUrl : Type 0 where
  pub scheme : String
  pub host : String
  pub hostname : String
  pub has_user : Bool
  pub fragment : String

-- The libraries' tests of texts and values: mime.ParseMediaType, base64.StdEncoding, url.Parse, whether
-- json.Marshal accepts a value, the bytes that it makes of an object if it does, and whether the
-- address that net.ParseIP reads, if it reads one, is public by the tests of package net.
pub record Formats : Type 0 where
  pub is_media_type : String → Bool
  pub is_base64 : String → Bool
  pub parse_url : String → Option ParsedUrl
  pub encodes : JsonValue → Bool
  pub encoded_size : List (String × JsonValue) → Option ℕ
  pub is_public_ip : String → Option Bool

-- A stored object that was opened: its metadata, and what reading it up to a limit gives, as a number
-- of bytes and their encoding in base64.
pub record OpenObject : Type 0 where
  pub object : ArtifactObject
  pub read : ℤ → Result (ℤ × String)

-- The Artifact service: storing the content of a Part of an Artifact (IngestBase64 or IngestURI, for
-- the Task, the Artifact's identifier, a deduplication key and the index and value of the Part), and
-- opening a stored object of a tenant.
pub record Artifacts : Type 0 where
  pub ingest :
      Task → String → String → ℕ → Part → JournalStore → Result ArtifactObject × JournalStore
  pub open_object : String → String → Result OpenObject
  pub max_bytes : ℤ

-- Service. The digests are SHA-256 of texts and of the JSON of a value; the codec is json.Marshal and
-- json.Unmarshal of an observation; `push_url` is the callback URL of a Task for a tenant.
pub record Service : Type 0 where
  pub formats : Formats
  pub artifacts : Option Artifacts
  pub digest : String → String
  pub digest_observation : Observation → String
  pub digest_input : List Part → List String → List (String × JsonValue) → String
  pub encode_observation : Observation → Option String
  pub decode_observation : String → Option Observation
  pub push_url : String → String → String
  pub public_base_url : String
  pub allow_private_agent_urls : Bool

-- The identifiers that `NewID` draws and the times that the clock shows in one operation.
pub record Draws : Type 0 where
  pub id : ℕ → String
  pub time : ℕ → Time

-- An element of an adapter's stream, with what is drawn while it is handled.
pub data Reply : Type 0 where
  observed : Draws → Observation → Reply
  broke : Error → Reply

-- What the adapter answers in one operation.
pub record Remote : Type 0 where
  pub send : Agent → Message → List Reply
  pub get : Agent → String → Reply
  pub cancel : Agent → String → Reply
  pub subscribe : Agent → String → List Reply
