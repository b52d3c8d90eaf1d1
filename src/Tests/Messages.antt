-- ===== src/Tests/Messages.antt =====
-- Witnesses for what client and server send each other.
use bit_socket_go.Base.{
  ◌≡◌, ◌≢◌, refl, arith, true, false, Text, Bytes, List, DistinctKeys, [], ◌∷◌, ◌++◌, text, ◌=?◌,
  if◌then◌else◌, some, lookup, ok, ◌>>=◌,
}
use bit_socket_go.Protocol.Types.{tag, kind_of, null, bool, unsigned, w16}
use bit_socket_go.Protocol.Words.{put_uint16}
use bit_socket_go.Protocol.Coerce.{to_uint64}
use bit_socket_go.Protocol.SchemaWire.{write_schema_def}
use bit_socket_go.Protocol.Schema.{Schema, new_schema, encode_payload, decode_payload}
use bit_socket_go.Protocol.Schema.Layout.{layout, layout_tag}
use bit_socket_go.Protocol.Schema.Agree.Passes.{encode_payload-eq-layout}
use bit_socket_go.Protocol.Frame.{Serializers, default_encode_payload, default_serializers}
use bit_socket_go.Server.Types.{Namespace, Socket, EventPacket, write, called}
use bit_socket_go.Server.Namespace.{fire_connection, schema_for, export_schemas, encode_event}
use bit_socket_go.Server.Socket.{has_room, invoke_handler}
use bit_socket_go.Server.Core.{namespace_of}
use bit_socket_go.Server.Hub.{State, socket_at, admit}
use bit_socket_go.Server.Hub
use bit_socket_go.Client.{
  Client, Channel, Action, sent, trigger_event, handle_message, unless_bad, handle_ack,
}
use bit_socket_go.Client.Emit.{do_join, do_leave}
use bit_socket_go.Client.Schemas.{schema_key, bucket}
use bit_socket_go.Delivery.Connects.{exports, handle_message-admit}
use bit_socket_go.Delivery.Acks.{handle_message-invoke_handler}
use bit_socket_go.Delivery.Events.{handle_message-encode_event}
use bit_socket_go.Delivery.Rooms.{handle_message-do_join}
use bit_socket_go.Tests.Wire.{pack, laws}
use bit_socket_go.Tests.Sockets.{hands, echo, alice, chat_space, house}
use bit_socket_go.Tests.Clients.{carol}
use bit_socket_go.Tests.Packages.{packing, packing_marshals, packing_flate}

abbrev number : Schema
number = record { name = text "msg"; definition = tag (text "uint16") }

abbrev typed_space : Namespace
typed_space = record chat_space { schemas = (text "msg", number) ∷ [] }

abbrev schema_bytes : Bytes
schema_bytes = 1 ∷ 129 ∷ (217 ∷ 3 ∷ text "msg") ++ (217 ∷ 6 ∷ text "uint16")

schemas_packed : default_encode_payload packing (export_schemas typed_space) ≡ ok schema_bytes
unfolding default_encode_payload export_schemas write_schema_def
schemas_packed = refl

-- Carol has the schema of "msg", and listens to it.
abbrev chat_channel : Channel
chat_channel = record { nsp = text "/chat"; listeners = (text "msg", tt) ∷ []; middlewares = [] }

abbrev informed : Client
informed = record carol {
  store = record { schemas = (text "chat", (text "msg", number) ∷ []) ∷ []; flat_schemas = [] };
  namespaces = (text "/chat", chat_channel) ∷ [];
}

number_bytes : encode_payload packing (tag (text "uint16")) (unsigned w16 7) ≡ ok (0 ∷ 7 ∷ [])
unfolding layout layout_tag kind_of ◌=?◌ to_uint64 put_uint16
number_bytes = encode_payload-eq-layout packing (tag (text "uint16")) (unsigned w16 7)

not_empty : encode_payload packing (tag (text "uint16")) (unsigned w16 7) ≢ ok []
not_empty e = cc (e, number_bytes)

not_null : unsigned w16 7 ≢ null
not_null e = cc

handle_message-encode_event_example :
    (raw : Bytes) × (encode_event packing house typed_space (text "msg") (unsigned w16 7) ≡ ok raw)
    × (handle_message pack packing (record { items = raw; spare = [] }) informed
        ≡ (trigger_event chat_channel (text "msg") (unsigned w16 7) >>= λ out. ok (informed, out)))
unfolding schema_for lookup ◌=?◌ bucket schema_key kind_of
handle_message-encode_event_example =
    handle_message-encode_event pack packing house typed_space informed chat_channel (text "msg")
      number (unsigned w16 7) [] refl refl refl (omega arith) (omega arith) tt
      (7, refl, omega arith) not_null not_empty

abbrev packs_all : Serializers
packs_all = default_serializers packing

abbrev caller : Client
caller = record carol { serializers = packs_all }

abbrev at_home : State
at_home = record {
  server = record house { serializers = packs_all };
  hub = record { conn = 7; handshake = hands; joined = (text "/chat", 0) ∷ [] };
}

abbrev lobby_bytes : Bytes
lobby_bytes = 129 ∷ (217 ∷ 4 ∷ text "room") ++ (217 ∷ 3 ∷ text "red")

handle_message-do_join_example :
    (join_frame leave_frame : Bytes) × (inside outside : State) × (joined left : Socket) × (do_join
        caller
        (text "red")
        (text "/chat")
      ≡ ok (sent join_frame ∷ []))
    × (do_leave caller (text "red") (text "/chat") ≡ ok (sent leave_frame ∷ []))
    × (Hub.handle_message packing (text "c1") (record { items = join_frame; spare = [] }) at_home
        ≡ ok (inside, []))
    × (Hub.handle_message packing (text "c1") (record { items = leave_frame; spare = [] }) at_home
        ≡ ok (outside, []))
    × (socket_at 0 inside.server ≡ some joined)
    × (socket_at 0 outside.server ≡ some left)
    × ((other : Text)
        → (has_room joined other ≡ (if text "red" =? other then true else has_room alice other))
          × (has_room left other ≡ (if text "red" =? other then false else has_room alice other)))
unfolding lookup ◌=?◌ schema_for
handle_message-do_join_example =
    handle_message-do_join packing (text "c1") caller at_home 0 alice chat_space (text "red")
      lobby_bytes (1 ∷ lobby_bytes) [] packing_flate refl refl refl refl refl refl (omega arith)
      refl refl refl refl refl

-- Alice's listener answers with what it gets; Carol has a schema for the event.
abbrev ready : Client
ready = record informed { serializers = packs_all }

abbrev asked_packet : EventPacket
asked_packet = record { event = text "msg"; payload = bool true }

answer_given : bool true ≢ null
answer_given e = cc

handle_message-invoke_handler_example :
    (raw : Bytes) × (invoke_handler packs_all alice asked_packet 5
      ≡ ok (called (text "msg") (bool true) true ∷ write 7 raw ∷ []))
    × (handle_message pack packing (record { items = raw; spare = [] }) ready
        ≡ unless_bad
            (decode_payload packing
              (tag (text "uint16"))
              (record { items = 1 ∷ 195 ∷ []; spare = [] }))
            (λ payload. ok (handle_ack 5 payload ready))
            ready)
unfolding lookup ◌=?◌ bucket schema_key
handle_message-invoke_handler_example =
    handle_message-invoke_handler packing (195 ∷ []) (1 ∷ 195 ∷ []) (bool true) answer_given refl
      refl pack packing_flate alice echo asked_packet 5 (bool true) ready chat_channel [] refl refl
      refl (omega arith) (omega arith) (omega arith) (omega arith) refl refl refl refl

-- Alice's connection gets its socket into the namespace with the schema; Carol's client hears of it.
abbrev at_door : State
at_door = record {
  server = record house { serializers = packs_all; namespaces = (text "/chat", typed_space) ∷ [] };
  hub = record { conn = 7; handshake = hands; joined = [] };
}

typed-DistinctKeys : DistinctKeys (namespace_of at_door.server (text "/chat")).schemas
unfolding namespace_of lookup ◌=?◌
typed-DistinctKeys = (refl, tt)

told : default_encode_payload packing (exports (text "/chat") at_door) ≡ ok schema_bytes
unfolding namespace_of lookup ◌=?◌
told = schemas_packed

handle_message-admit_example :
    (st' : State) × (raw : Bytes) × (admit packing 0 (text "/chat") (exports (text "/chat")) at_door
      ≡ ok (st', write 7 raw ∷ []))
    × ((event : Text) (schema : Schema)
        → schema_for (namespace_of at_door.server (text "/chat")) event ≡ some schema
        → new_schema event schema.definition ≡ ok schema
        → (c' : Client) × (out : List Action) × (handle_message pack packing
              (record { items = raw; spare = [] })
              caller
            ≡ ok (c', out))
          × (lookup event (bucket (schema_key (text "/chat")) c'.store) ≡ some schema))
unfolding lookup ◌=?◌ fire_connection namespace_of
handle_message-admit_example =
    handle_message-admit pack packing laws packing_marshals packing_flate at_door 0 alice
      (text "/chat") schema_bytes [] caller
      (record { nsp = text "/chat"; listeners = []; middlewares = [] }) refl refl refl refl told
      typed-DistinctKeys refl refl (omega arith) refl refl
