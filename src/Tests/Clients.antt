-- ===== src/Tests/Clients.antt =====
-- Witnesses for the properties of the client, client/client.go.
use bit_socket_go.Base.{
  ℕ, ◌+◌, ◌%◌, ◌^◌, arith, get_elem?, ◌≡◌, ◌≢◌, refl, true, false, List, [], ◌∷◌, text, ◌=?◌, some,
  Table, lookup, ok,
}
use bit_socket_go.Protocol.Types.{Value, null, bool, SchemaDef, tag}
use bit_socket_go.Protocol.Frame.{default_serializers, payload_bytes}
use bit_socket_go.Protocol.Frame.Encoding.{frame_bytes, encode_frame-layout}
use bit_socket_go.Server.Core.{schema_export_key}
use bit_socket_go.Client.{
  Client, Action, sent, answered, hung_up, handle_ack, callback_at, forget_callback, send_made,
  safe_send, ping_tick, handle_message, pong_timeout,
}
use bit_socket_go.Client.Emit.{do_emit, take_number}
use bit_socket_go.Client.Schemas.{SchemaStore, schema_key, bucket, absorb_defs}
use bit_socket_go.Client.Schemas.Sync.{schema_key-eq-schema_export_key, synced, absorb_defs_lem}
use bit_socket_go.Client.Numbers.{Request, sent_as, emit_all, emit_all-numbers}
use bit_socket_go.Client.Acks.{do_emit-handle_ack}
use bit_socket_go.Client.Connect.{connect, connect_lem}
use bit_socket_go.Client.Heartbeat.{pong_bytes, ping_tick-pong_timeout}
use bit_socket_go.Tests.{world}
use bit_socket_go.Tests.Wire.{pack}

abbrev pub empty_store : SchemaStore
empty_store = record { schemas = []; flat_schemas = [] }

-- A client of "/chat" only.
abbrev pub carol : Client
carol = record {
  serializers = default_serializers world;
  use_schemas = true;
  auto_reconnect = true;
  reconnect_attempts = 0;
  max_attempts = 15;
  callbacks = [];
  ack_counter = 1;
  store = empty_store;
  namespaces = (text "/chat", record { nsp = text "/chat"; listeners = []; middlewares = [] }) ∷ [];
  nsp = text "/chat";
  connected = true;
  pinging = true;
  pong_armed = false;
  closed_by_user = false;
}

abbrev asking : Client
asking = record carol { callbacks = (1, 9) ∷ []; ack_counter = 2 }

asked :
    do_emit world carol (text "sum") null (some 9) (text "/chat")
    ≡ ok (asking, sent (frame_bytes 2 (text "/chat") (text "sum") 1 []) ∷ [])
unfolding do_emit take_number forget_callback send_made safe_send bucket lookup schema_key ◌=?◌
    payload_bytes
asked =
    rw
      (encode_frame-layout
        (record {
          frame_type = 2;
          nsp = text "/chat";
          event = text "sum";
          ack_id = 1;
          payload = null;
        })
        (default_serializers world))
      refl

do_emit-handle_ack_example :
    (c'' : Client) × (handle_ack 1 (bool true) asking ≡ (c'', answered 9 (bool true) ∷ []))
    × ((again : Value) → handle_ack 1 again c'' ≡ (c'', []))
    × ((m : ℕ) → m ≢ 1 → callback_at m c''.callbacks ≡ callback_at m [])
do_emit-handle_ack_example =
    do_emit-handle_ack world carol asking (text "sum") (text "/chat") null (bool true) 9
      (sent (frame_bytes 2 (text "/chat") (text "sum") 1 []) ∷ []) asked

ping_tick-pong_timeout_example :
    (c₁ c₂ : Client) × (out : List Action) × (ping_tick carol ≡ ok (c₁, out))
    × (handle_message pack world (record { items = pong_bytes; spare = [] }) c₁ ≡ ok (c₂, []))
    × (pong_timeout c₂ ≡ hung_up ∷ [])
unfolding lookup ◌=?◌
ping_tick-pong_timeout_example = ping_tick-pong_timeout pack world carol [] refl refl

schema_key-eq-schema_export_key_example :
    schema_key (text "/chat") ≡ schema_export_key (text "/chat")
schema_key-eq-schema_export_key_example = schema_key-eq-schema_export_key (text "/chat")

abbrev sent_defs : Table SchemaDef
sent_defs = (text "msg", tag (text "string")) ∷ (text "no good", tag (text "any")) ∷ []

absorb_defs_lem_example :
    lookup (text "msg") (bucket (text "chat") (absorb_defs (text "chat") sent_defs empty_store))
    ≡ synced
        (text "msg")
        (lookup (text "msg") sent_defs)
        (lookup (text "msg") (bucket (text "chat") empty_store))
unfolding lookup ◌=?◌
absorb_defs_lem_example =
    absorb_defs_lem (text "chat") (text "msg") sent_defs empty_store (refl, (refl, tt))

-- Carol comes back after a break.
connect_lem_example :
    connect (record carol { connected = false; reconnect_attempts = 3 })
    ≡ ok (carol, sent (frame_bytes 1 (text "/chat") [] 0 []) ∷ [])
unfolding ◌=?◌
connect_lem_example = connect_lem (record carol { connected = false; reconnect_attempts = 3 })

-- The last number that there is, and the first.
abbrev worn : Client
worn = record carol { ack_counter = 4294967295 }

abbrev sums : List Request
sums =
    record { event = text "sum"; payload = null; packed = []; callback = 8; nsp = text "/chat" }
    ∷ record { event = text "sum"; payload = null; packed = []; callback = 9; nsp = text "/chat" }
    ∷ []

emit_all-numbers_example :
    (c' : Client) × (outs : List (List Action)) × (emit_all world sums worn ≡ ok (c', outs))
    × ((i : ℕ) (q : Request)
        → get_elem? sums i ≡ some q
        → (get_elem? outs i ≡ some (sent_as ((4294967295 + i) % 2 ^ 32) q))
          × (callback_at ((4294967295 + i) % 2 ^ 32) c'.callbacks ≡ some q.callback))
unfolding payload_bytes
emit_all-numbers_example =
    emit_all-numbers world sums worn refl (omega arith) (omega arith) (refl, (refl, tt))
