-- ===== src/Client/Emit.antt =====
-- doEmit, doJoin and doLeave of client/client.go.
use bit_socket_go.Base.{
  ℕ, ◌+◌, ◌%◌, ◌^◌, Text, List, ◌∷◌, text, Option, none, some, lookup, Outcome, ok, ◌>>=◌,
}
use bit_socket_go.Protocol.Types.{Value, str, dict, entry, end, Externals}
use bit_socket_go.Protocol.FrameType
use bit_socket_go.Protocol.Schema
use bit_socket_go.Protocol.Frame.{Serializers, encode_frame}
use bit_socket_go.Client.{Client, Action, forget_callback, send_made, plain}
use bit_socket_go.Client.Schemas.{schema_key, bucket}

-- With a callback the next number is taken.
unfoldable pub take_number : Client → Option ℕ → Client × ℕ
take_number c none = (c, 0)
take_number c (some k) = (
  record c {
    callbacks = (c.ack_counter, k) ∷ forget_callback c.ack_counter c.callbacks;
    ack_counter = (c.ack_counter + 1) % 2 ^ 32;
  },
  c.ack_counter,
)

abbrev pub emit_serializers : Externals → Client → Text → Text → Serializers
emit_serializers ext c event nsp = elim (lookup event (bucket (schema_key nsp) c.store)) [
  | none ↦ c.serializers
  | some schema ↦ record {
    encode_payload = some (Schema.encode_payload ext schema.definition);
    decode_payload = none;
    decode_payload_with_event = none;
  }
]

unfoldable pub do_emit :
    Externals → Client → Text → Value → Option ℕ → Text → Outcome (Client × List Action)
do_emit ext c event payload cb nsp = do
  let (c', ack_id) = take_number c cb
  out ← send_made c' (
      encode_frame
        (record {
          frame_type = FrameType.event;
          nsp = nsp;
          event = event;
          ack_id = ack_id;
          payload = payload;
        })
        (emit_serializers ext c' event nsp))
  ok (c', out)

abbrev pub room_of : Text → Value
room_of room = dict (entry (text "room") (str room) end)

unfoldable pub do_join : Client → Text → Text → Outcome (List Action)
do_join c room nsp =
    send_made c (encode_frame (plain FrameType.join nsp (room_of room)) c.serializers)

unfoldable pub do_leave : Client → Text → Text → Outcome (List Action)
do_leave c room nsp =
    send_made c (encode_frame (plain FrameType.leave nsp (room_of room)) c.serializers)
