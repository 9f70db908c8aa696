-- ===== src/Hub/Parts.antt =====
-- The Parts of a message to an Agent (internal/hub/parts.go).
use agent_federation_hub.Base.{
  ℕ, ◌+◌, String, Bool, true, false, ◌&&◌, ◌||◌, not, List, [], ◌∷◌, Option, none, some, ◌==◌, eqb,
  ltb, if◌then◌else◌,
}
use agent_federation_hub.Base.Int.{ℤ, pos, ◌+ℤ◌, ltb_ℤ, eqb_ℤ, i64}
use agent_federation_hub.Base.Text.{trim, is_blank, byte_length}
use agent_federation_hub.Model.{PartKind, text, file, structured, Part}
use agent_federation_hub.Model.Json.{
  JsonValue, null, boolean, number, text as json_text, array, object,
}
use agent_federation_hub.Store.State.{invalid, Result, ok, err}
use agent_federation_hub.Hub.Service.{ParsedUrl, Formats, OpenObject, Artifacts}

-- part.Data != nil
unfoldable pub has_content : JsonValue → Bool
has_content null = false
has_content (boolean b) = true
has_content (number n) = true
has_content (json_text t) = true
has_content (array es) = true
has_content (object ms) = true

unfoldable pub is_too_long : Part → Bool
unfolding byte_length
is_too_long p =
    ltb 512 (byte_length p.filename)
    || ltb 256 (byte_length p.media_type)
    || ltb 512 (byte_length p.object_id)
    || ltb 4096 (byte_length p.uri)

unfoldable pub check_text_part : Part → Result (Unit {0})
unfolding has_content
check_text_part p =
    if is_blank p.body
    then err (invalid "text part must not be blank")
    else if not (p.bytes_base64 == "")
        || not (p.uri == "")
        || not (p.object_id == "")
        || has_content p.content
    then err (invalid "text part must contain only text")
    else ok tt

unfoldable pub check_data_part : Formats → Part → Result (Unit {0})
unfolding has_content
check_data_part formats p =
    if not (has_content p.content)
    then err (invalid "data part requires a JSON value")
    else if not (formats.encodes p.content)
    then err (invalid "data part must be JSON")
    else if not (p.body == "")
        || not (p.bytes_base64 == "")
        || not (p.uri == "")
        || not (p.object_id == "")
    then err (invalid "data part must contain only data")
    else ok tt

-- An HTTPS URL with a host, and without user information or fragment.
unfoldable pub is_file_url : Option ParsedUrl → Bool
is_file_url none = false
is_file_url (some u) =
    u.scheme == "https" && not (u.host == "") && not u.has_user && u.fragment == ""

-- strings.ContainsAny(s, "\r\n")
unfoldable pub has_line_break : String → Bool
has_line_break String.[] = false
has_line_break (String.◌∷◌ c s) =
    String.◌∷◌ c String.[] == "\r" || String.◌∷◌ c String.[] == "\n" || has_line_break s

unfoldable pub selects : String → ℕ
selects value = if value == "" then 0 else 1

unfoldable pub check_file_part : Formats → Part → Result (Unit {0})
unfolding is_file_url has_line_break selects has_content
check_file_part formats p =
    if not (p.bytes_base64 == "") && not (formats.is_base64 p.bytes_base64)
    then err (invalid "file bytesBase64 is not valid standard base64")
    else if not (p.uri == "") && not (is_file_url (formats.parse_url p.uri))
    then err (invalid "file URI must be an HTTPS URL without user information or fragment")
    else if not (p.object_id == "")
        && (not (trim p.object_id == p.object_id) || has_line_break p.object_id)
    then err (invalid "file objectId is invalid")
    else if not (eqb (selects p.bytes_base64 + selects p.uri + selects p.object_id) 1)
    then err (invalid "file part requires exactly one of bytesBase64, uri, or objectId")
    else if not (p.body == "") || has_content p.content
    then err (invalid "file part must not include text or data")
    else ok tt

-- The `switch` on the kind.
unfoldable pub check_kind : Formats → PartKind → Part → Result (Unit {0})
unfolding check_text_part check_data_part check_file_part
check_kind formats text p = check_text_part p
check_kind formats structured p = check_data_part formats p
check_kind formats file p = check_file_part formats p

unfoldable pub validate_message_part : Formats → Part → Result (Unit {0})
unfolding is_too_long check_kind
validate_message_part formats p =
    if is_too_long p
    then err (invalid "message part field exceeds its maximum size")
    else if not (p.media_type == "") && not (formats.is_media_type p.media_type)
    then err (invalid "invalid media type")
    else check_kind formats p.kind p

unfoldable pub check_parts : Formats → List Part → Result (Unit {0})
unfolding validate_message_part
check_parts formats [] = ok tt
check_parts formats (p ∷ ps) =
    let later = check_parts formats ps in
    elim (validate_message_part formats p) [ ok _ ↦ later | err e ↦ err e ]

-- core.Part{Kind: core.PartText, Text: text}
abbrev pub text_part : String → Part
text_part body = record {
  kind = text;
  media_type = "";
  filename = "";
  body = body;
  bytes_base64 = "";
  uri = "";
  content = null;
  object_id = "";
  size_bytes = pos 0;
  sha256 = "";
}

unfoldable pub with_text : String → List Part → List Part
with_text body ps = if is_blank body then ps else text_part body ∷ ps

unfoldable pub nonempty_parts : List Part → Result (List Part)
nonempty_parts [] = err (invalid "task text or at least one message part is required")
nonempty_parts (p ∷ ps) = ok (p ∷ ps)

unfoldable pub normalize_message_parts : Formats → String → List Part → Result (List Part)
unfolding check_parts with_text nonempty_parts
normalize_message_parts formats body values = elim (check_parts formats values) [
  | err e ↦ err e
  | ok _ ↦ nonempty_parts (with_text body values)
]

unfoldable pub first_text_part : List Part → String
first_text_part [] = ""
first_text_part (p ∷ ps) =
    let later = first_text_part ps in
    elim p.kind [ text ↦ p.body | file ↦ later | structured ↦ later ]

-- The limit on the bytes of an outbound object.
unfoldable pub outbound_limit : Artifacts → ℤ
outbound_limit a = if ltb_ℤ (pos 0) a.max_bytes then a.max_bytes else pos 33554432

unfoldable pub or_text : String → String → String
or_text value fallback = if value == "" then fallback else value

-- The Part with the bytes that were read in place of the reference.
unfoldable pub filled_part : Part → OpenObject → ℤ → Result (ℤ × String) → Result Part
unfolding or_text
filled_part p o maximum (err e) = err e
filled_part p o maximum (ok (size, encoded)) =
    if not (eqb_ℤ size o.object.size_bytes) || ltb_ℤ maximum size
    then err (invalid "file object reference changed while being read")
    else ok (record p {
      object_id = "";
      bytes_base64 = encoded;
      size_bytes = o.object.size_bytes;
      sha256 = o.object.sha256;
      media_type = or_text p.media_type o.object.detected_media_type;
      filename = or_text p.filename o.object.filename;
    })

unfoldable pub read_part : Part → ℤ → Result OpenObject → Result Part
unfolding filled_part
read_part p maximum (err e) = err e
read_part p maximum (ok o) =
    if ltb_ℤ maximum o.object.size_bytes
    then err (invalid "file object reference exceeds outbound limit")
    else filled_part p o maximum (o.read (i64 (maximum +ℤ pos 1)))

unfoldable pub refers_to_object : PartKind → Part → Bool
refers_to_object file p = not (p.object_id == "")
refers_to_object text p = false
refers_to_object structured p = false

unfoldable pub materialize_part : Option Artifacts → String → Part → Result Part
unfolding refers_to_object outbound_limit read_part
materialize_part artifacts tenant p =
    if not (refers_to_object p.kind p) then ok p else elim artifacts [
      | none ↦ err (invalid "artifact object storage is required for file object references")
      | some a ↦ read_part p (outbound_limit a) (a.open_object tenant p.object_id)
    ]

unfoldable pub materialize_message_parts :
    Option Artifacts → String → List Part → Result (List Part)
unfolding materialize_part
materialize_message_parts artifacts tenant [] = ok []
materialize_message_parts artifacts tenant (p ∷ ps) =
    let later = materialize_message_parts artifacts tenant ps in
    elim (materialize_part artifacts tenant p) [
      | err e ↦ err e
      | ok q ↦ elim later [ err e ↦ err e | ok qs ↦ ok (q ∷ qs) ]
    ]
