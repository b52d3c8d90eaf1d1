-- ===== src/Tests/Payloads.antt =====
-- Witnesses for the properties of the schema codec, protocol/schema.go.
use bit_socket_go.Base.{◌≡◌, refl, ◌∙◌, arith, [], ◌∷◌, ◌++◌, text, ok, ◌=?◌}
use bit_socket_go.Protocol.Types.{tag, kind_of, string, str}
use bit_socket_go.Protocol.Words.{put_uint16, put_uint32}
use bit_socket_go.Protocol.Schema.{encode_payload, decode_payload}
use bit_socket_go.Protocol.Schema.Layout.{layout, layout_tag, layout_items}
use bit_socket_go.Protocol.Schema.Encode.{field_value}
use bit_socket_go.Protocol.Coerce.{to_slice, to_map, get_entry, to_uint64, to_string_val, to_bool}
use bit_socket_go.Protocol.Schema.RoundTrip.{read_back, Fits}
use bit_socket_go.Protocol.Schema.Agree.Passes.{encode_payload-eq-layout}
use bit_socket_go.Protocol.Schema.RoundTrip.Values.{decode_payload-encode_payload}
use bit_socket_go.Protocol.Schema.Unchecked.{decode_payload-overrun}
use bit_socket_go.Tests.{world, chat, hello, hello_bytes}

encode_payload-eq-layout_example : encode_payload world chat hello ≡ layout world chat hello
encode_payload-eq-layout_example = encode_payload-eq-layout world chat hello

hello-layout : layout world chat hello ≡ ok hello_bytes
unfolding layout layout_tag layout_items kind_of ◌=?◌ to_slice field_value to_map get_entry
    to_uint64 to_string_val to_bool put_uint16 put_uint32
hello-layout = refl

hello_encoded : encode_payload world chat hello ≡ ok hello_bytes
hello_encoded = encode_payload-eq-layout world chat hello ∙ hello-layout

hello-Fits : Fits world chat hello
unfolding kind_of ◌=?◌ field_value to_map get_entry to_slice to_string_val
hello-Fits = (tt, ((omega arith, (omega arith, (omega arith, tt))), (omega arith, tt)))

decode_payload-encode_payload_example :
    decode_payload world chat (record { items = hello_bytes ++ (7 ∷ []); spare = 9 ∷ [] })
    ≡ read_back world chat hello
decode_payload-encode_payload_example =
    decode_payload-encode_payload world chat hello hello_bytes (7 ∷ []) (9 ∷ []) hello-Fits
      hello_encoded

is_string : kind_of (text "string") ≡ string
unfolding kind_of ◌=?◌
is_string = refl

-- A prefix of five on a payload of two bytes reads three bytes of what lies behind.
decode_payload-overrun_example :
    decode_payload world
      (tag (text "string"))
      (record { items = put_uint32 5 ++ text "hi"; spare = text "key" ++ text "s" })
    ≡ ok (str (text "hi" ++ text "key"))
decode_payload-overrun_example =
    decode_payload-overrun world (text "string") (text "hi") (text "key") (text "s") is_string
      (omega arith)
