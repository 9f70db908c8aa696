-- ===== src/Model/Json.antt =====
-- A decoded JSON value, which Go holds as `any`. A number is kept as its text.
use agent_federation_hub.Base.{String, Bool}

mutual
  pub data JsonValue : Type 0 where
    null : JsonValue
    boolean : Bool → JsonValue
    number : String → JsonValue
    text : String → JsonValue
    array : Elements → JsonValue
    object : Members → JsonValue

  pub data Elements : Type 0 where
    nil : Elements
    cons : JsonValue → Elements → Elements

  pub data Members : Type 0 where
    end : Members
    member : String → JsonValue → Members → Members
