-- ===== src/Tests/Delivery.antt =====
-- Witnesses for typed values and tables on the wire, and for what client and server send each other.
use bit_socket_go.Base.{
  ◌≡◌, refl, arith, true, Bytes, [], ◌∷◌, ◌++◌, text, ◌=?◌, Table, lookup, DistinctKeys, ok,
}
use bit_socket_go.Protocol.Types.{
  SchemaDef, tag, kind_of, Value, bool, unsigned, str, slice, cons, nil, dict, entry, end, w16,
}
use bit_socket_go.Protocol.Words.{tail_from, uint16}
use bit_socket_go.Protocol.Schema.{Schema, encode_payload, decode_payload}
use bit_socket_go.Protocol.Schema.Typed.{HasType, IsKeyed}
use bit_socket_go.Protocol.Schema.Typed.Back.{Survives, decode_payload-encode_payload_typed}
use bit_socket_go.Protocol.Schema.Typed.Decoded.{decode_payload-HasType}
use bit_socket_go.Protocol.SchemaWire.{decode_namespace_schema_payload}
use bit_socket_go.Protocol.SchemaWire.Tables.{exported, decode_namespace_schema_payload-exported}
use bit_socket_go.Protocol.SchemaWire.{write_schema_def}
use bit_socket_go.Protocol.Frame.{default_encode_payload}
use bit_socket_go.Protocol.Schema.Decode.{decode_value, read_tag}
use bit_socket_go.Tests.{world, chat}
use bit_socket_go.Tests.Wire.{pack, laws}
use bit_socket_go.Tests.Packages.{packing, packing_marshals, packing_flate}

abbrev typed_hello : Value
typed_hello = dict (
    entry (text "id") (unsigned w16 2) (
      entry (text "tags") (slice (cons (str (text "a")) (cons (str (text "bc")) nil)))
        (entry (text "extra") (bool true) end)))

chat-IsKeyed : IsKeyed chat
chat-IsKeyed = (tt, (λ e. cc, (λ e. cc, tt)), (tt, (λ e. cc, tt), (tt, tt, tt)))

hello-HasType : HasType (Survives world) chat typed_hello
unfolding kind_of ◌=?◌
hello-HasType = (
  entry (text "id") (unsigned w16 2) (
      entry (text "tags") (slice (cons (str (text "a")) (cons (str (text "bc")) nil)))
        (entry (text "extra") (bool true) end)),
  refl,
  (
    refl,
    (2, refl, omega arith),
    (
      refl,
      (
        cons (str (text "a")) (cons (str (text "bc")) nil),
        refl,
        omega arith,
        ((text "a", refl, omega arith), ((text "bc", refl, omega arith), tt)),
      ),
      (refl, (195 ∷ [], refl, refl, omega arith), tt),
    ),
  ),
)

decode_payload-encode_payload_typed_example :
    (bs : Bytes) × (encode_payload world chat typed_hello ≡ ok bs)
    × ((post spare : Bytes)
        → decode_payload world chat (record { items = bs ++ post; spare = spare }) ≡ ok typed_hello)
decode_payload-encode_payload_typed_example =
    decode_payload-encode_payload_typed world chat typed_hello chat-IsKeyed hello-HasType

-- A uint16 with a byte behind it.
number_read :
    decode_payload world (tag (text "uint16")) (record { items = 1 ∷ 2 ∷ 3 ∷ []; spare = [] })
    ≡ ok (unsigned w16 258)
unfolding decode_payload decode_value read_tag kind_of ◌=?◌ tail_from uint16
number_read = refl

decode_payload-HasType_example : HasType (λ w. Unit {0}) (tag (text "uint16")) (unsigned w16 258)
decode_payload-HasType_example =
    decode_payload-HasType world (tag (text "uint16"))
      (record { items = 1 ∷ 2 ∷ 3 ∷ []; spare = [] }) (unsigned w16 258)
      (omega arith, (omega arith, (omega arith, tt))) tt number_read

abbrev number : Schema
number = record { name = text "msg"; definition = tag (text "uint16") }

abbrev sent_defs : Table SchemaDef
sent_defs = (text "msg", tag (text "uint16")) ∷ (text "bye", tag (text "any")) ∷ []

abbrev sent_bytes : Bytes
sent_bytes =
    1 ∷ 130 ∷ (217 ∷ 3 ∷ text "msg")
    ++ ((217 ∷ 6 ∷ text "uint16") ++ ((217 ∷ 3 ∷ text "bye") ++ (217 ∷ 3 ∷ text "any")))

packed_defs : default_encode_payload packing (dict (exported sent_defs)) ≡ ok sent_bytes
unfolding default_encode_payload write_schema_def
packed_defs = refl

sent-DistinctKeys : DistinctKeys sent_defs
unfolding lookup ◌=?◌
sent-DistinctKeys = (refl, (refl, tt))

decode_namespace_schema_payload-exported_example :
    decode_namespace_schema_payload pack packing sent_bytes ≡ ok sent_defs
decode_namespace_schema_payload-exported_example =
    decode_namespace_schema_payload-exported pack packing laws packing_marshals packing_flate
      sent_defs sent_bytes sent-DistinctKeys packed_defs
