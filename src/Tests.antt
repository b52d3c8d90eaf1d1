-- ===== src/Tests.antt =====
-- Concrete data for the witnesses: packages that keep their laws, a schema, a frame and a server.
pub mod Payloads
pub mod Frames
pub mod Wire
pub mod Sockets
pub mod Clients
pub mod Lifecycle
pub mod Packages
pub mod Delivery
pub mod Messages
pub mod Worlds
use bit_socket_go.Base.{
  ℕ, pos, true, false, ◌==◌, if◌then◌else◌, Text, Bytes, List, [], ◌∷◌, text, Option, none, some,
  Outcome, ok, err, external,
}
use bit_socket_go.Protocol.Types.{
  SchemaDef, FieldDefs, tag, array, object, no_fields, field, Value, Items, Entries, null, unsigned,
  bool, str, dict, slice, nil, cons, end, entry, w16, native, Externals,
}
use bit_socket_go.Protocol.Frame.{FrameOptions}

-- Of msgpack, nil and the Booleans; of DEFLATE, a stream that stores its data behind one byte.
abbrev toy_marshal : Value → Outcome Bytes
toy_marshal null = ok (192 ∷ [])
toy_marshal (bool false) = ok (194 ∷ [])
toy_marshal (bool true) = ok (195 ∷ [])
toy_marshal _ = err (external (text "type"))

abbrev toy_unmarshal : Bytes → Outcome Value
toy_unmarshal [] = err (external (text "EOF"))
toy_unmarshal (c ∷ cs) =
    if c == 192
    then ok null
    else if c == 194
    then ok (bool false)
    else if c == 195
    then ok (bool true)
    else err (external (text "code"))

abbrev toy_inflate : Bytes → Outcome Bytes
toy_inflate [] = err (external (text "EOF"))
toy_inflate (c ∷ bs) = if c == 1 then ok bs else err (external (text "stream"))

abbrev pub world : Externals
world = record {
  marshal = toy_marshal;
  unmarshal = toy_unmarshal;
  deflate = λ bs. ok (1 ∷ bs);
  inflate = toy_inflate;
  float32_to_uint64 = λ n. 0;
  float64_to_uint64 = λ n. 0;
  float32_to_int64 = λ n. pos 0;
  float64_to_int64 = λ n. pos 0;
  float32_to_float64 = λ n. 0;
  int_to_float64 = λ n. 0;
}

abbrev pub chat_fields : FieldDefs
chat_fields = field (text "id") (tag (text "uint16")) (
    field (text "tags") (array (tag (text "string")))
      (field (text "extra") (tag (text "any")) no_fields))

abbrev pub chat : SchemaDef
chat = object chat_fields

abbrev pub hello : Value
hello = dict (
    entry (text "id") (unsigned native 65538) (
      entry (text "tags") (slice (cons (str (text "a")) (cons (str (text "bc")) nil)))
        (entry (text "extra") (bool true) end)))

-- What the encoder makes of it.
abbrev pub hello_bytes : Bytes
hello_bytes =
    0 ∷ 2 ∷ 0 ∷ 0 ∷ 0 ∷ 2 ∷ 0 ∷ 0 ∷ 0 ∷ 1 ∷ 97 ∷ 0 ∷ 0 ∷ 0 ∷ 2 ∷ 98 ∷ 99 ∷ 0 ∷ 0 ∷ 0 ∷ 1 ∷ 195 ∷ []

abbrev pub event_frame : Value → FrameOptions
event_frame payload = record {
  frame_type = 2;
  nsp = text "/chat";
  event = text "msg";
  ack_id = 258;
  payload = payload;
}
