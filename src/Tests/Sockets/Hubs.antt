-- ===== src/Tests/Sockets/Hubs.antt =====
-- Witnesses for the properties of connections, server/hub.go and server.go.
use bit_socket_go.Base.{
  ℕ, ◌≡◌, refl, arith, ◌↔◌, ◌⊎◌, true, false, ◌=?◌, if◌then◌else◌, Bytes, List, [], ◌∷◌, ◌++◌, text,
  lookup, insert, ok, stop, panic,
}
use bit_socket_go.Protocol.Types.{null, tag, kind_of}
use bit_socket_go.Protocol.Words.{put_uint32}
use bit_socket_go.Protocol.Frame.{
  FrameOptions, default_encode_payload, default_serializers, payload_bytes,
}
use bit_socket_go.Protocol.Frame.Encoding.{name_bytes, frame_bytes, encode_frame-layout}
use bit_socket_go.Server.Types.{Middleware, Effect, fails, Socket, Namespace, Server, write, close}
use bit_socket_go.Server.Socket.{send, send_encoded, close_conn, new_socket, error_payload}
use bit_socket_go.Server.Chain.{once, run_chain, run_steps}
use bit_socket_go.Server.Namespace.{is_member, schema_for, add_socket, fire_connection}
use bit_socket_go.Server.Core.{origin_allowed, namespace_of, put_namespace}
use bit_socket_go.Server.Core.Origins.{Listed, origin_allowed_iff}
use bit_socket_go.Server.Hub.{
  State, handle_close, handle_message, handle_namespace_connect, admit, connect_socket,
  reject_connection, send_to, change_socket, on_socket,
}
use bit_socket_go.Server.Hub.Close.{is_in, any_leaves, handle_close-is_in}
use bit_socket_go.Server.Hub.Again.{admit-is_in}
use bit_socket_go.Server.Hub.Admission.{handle_namespace_connect-refused}
use bit_socket_go.Server.Hub.Messages.{handle_message-broken, handle_message-panics}
use bit_socket_go.Tests.{world}
use bit_socket_go.Tests.Sockets.{codec, hands, alice, chat_space, house}

-- The connection of Alice.
abbrev at_home : State
at_home = record {
  server = house;
  hub = record { conn = 7; handshake = hands; joined = (text "/chat", 0) ∷ [] };
}

origin_allowed_iff_example : (origin_allowed house (text "https://a.example") ≡ true) ↔ (
    Listed (text "*") house.allowed_origins
    ⊎ Listed (text "https://a.example") house.allowed_origins)
origin_allowed_iff_example = origin_allowed_iff house (text "https://a.example")

handle_close-is_in_example :
    (is_in (handle_close at_home).server (text "/chat") 0 ≡ (
      if any_leaves house (text "/chat") 0 ((text "/chat", 0) ∷ [])
      then false
      else is_in house (text "/chat") 0))
    × ((handle_close at_home).hub.joined ≡ [])
handle_close-is_in_example = handle_close-is_in at_home (text "/chat") 0

-- A CONNECT frame cut off after its type.
handle_message-broken_example :
    handle_message world (text "c1") (record { items = 1 ∷ []; spare = [] }) at_home
    ≡ ok (at_home, [])
unfolding put_uint32
handle_message-broken_example =
    handle_message-broken world (text "c1") at_home 1 0 (text "/chat") [] (1 ∷ [])
      (name_bytes (text "/chat") ++ (0 ∷ 0 ∷ 0 ∷ 0 ∷ 0 ∷ [])) [] (omega arith) (omega arith)
      (omega arith) (omega arith, tt) refl (λ e. cc)

abbrev typed : Namespace
typed = record chat_space {
  schemas = (text "msg", record { name = text "msg"; definition = tag (text "uint32") }) ∷ [];
}

abbrev typed_home : State
typed_home = record at_home { server = record house { namespaces = (text "/chat", typed) ∷ [] } }

-- A payload of one byte where the schema says uint32.
handle_message-panics_example :
    handle_message world
      (text "c1")
      (record { items = frame_bytes 2 (text "/chat") (text "msg") 0 (9 ∷ []); spare = [] })
      typed_home
    ≡ stop panic
unfolding lookup schema_for ◌=?◌ kind_of
handle_message-panics_example =
    handle_message-panics world (text "c1") typed_home typed
      (record { name = text "msg"; definition = tag (text "uint32") }) (text "uint32") 2 0
      (text "/chat") (text "msg") 9 [] [] refl refl refl (omega arith) (omega arith) (omega arith)
      (omega arith)

-- Alice alone in the namespace, with a second socket made for her connection.
abbrev alone : Namespace
alone = record chat_space { members = 0 ∷ [] }

abbrev quiet_house : List ℕ → Server
quiet_house members = record house {
  use_schemas = false;
  namespaces = (text "/chat", record alone { members = members }) ∷ [];
  store = alice ∷ record alice { id = text "a2" } ∷ [];
}

abbrev before_again : State
before_again = record at_home { server = quiet_house (0 ∷ []) }

abbrev after_again : State
after_again = record {
  server = quiet_house (1 ∷ 0 ∷ []);
  hub = record { conn = 7; handshake = hands; joined = (text "/chat", 1) ∷ [] };
}

abbrev connect_bytes : Bytes
connect_bytes = frame_bytes 1 (text "/chat") [] 0 []

joined_again :
    admit world 1 (text "/chat") (λ st. null) before_again
    ≡ ok (after_again, write 7 connect_bytes ∷ [])
unfolding admit send_to send_encoded send change_socket put_namespace insert namespace_of lookup
    ◌=?◌ add_socket is_member fire_connection payload_bytes
joined_again =
    rw
      (
        admit,
        send_to,
        encode_frame-layout
            (record { frame_type = 1; nsp = text "/chat"; event = []; ack_id = 0; payload = null })
            codec,
      )
      refl

admit-is_in_example : is_in (handle_close after_again).server (text "/chat") 0 ≡ true
unfolding is_in lookup is_member ◌=?◌
admit-is_in_example =
    admit-is_in world 1 0 (text "/chat") (λ st. null) before_again after_again
      (write 7 connect_bytes ∷ []) (λ e. omega arith) (refl, tt) (λ e. refl, tt) refl joined_again

-- A namespace that lets nobody in.
abbrev deny : Middleware Socket Effect
deny = once (λ s. record { change = λ t. t; performs = []; call = fails (text "no") })

abbrev guarded : Namespace
guarded = record chat_space { name = text "/vip"; members = []; conn_middlewares = deny ∷ [] }

abbrev vip_server : List Socket → Server
vip_server store = record house { namespaces = (text "/vip", guarded) ∷ []; store = store }

abbrev at_door : State
at_door = record {
  server = vip_server [];
  hub = record { conn = 7; handshake = hands; joined = [] };
}

abbrev turned_away : State
turned_away = record at_door {
  server =
      vip_server (record (new_socket (text "c1") 7 (text "/vip") hands) { closed = true } ∷ []);
}

abbrev refusal : FrameOptions
refusal = record {
  frame_type = 3;
  nsp = text "/vip";
  event = text "error";
  ack_id = 0;
  payload = error_payload (text "no");
}

refused :
    handle_namespace_connect world (text "c1") (text "/vip") at_door
    ≡ ok (turned_away, close 7 ∷ [])
unfolding handle_namespace_connect connect_socket reject_connection run_chain run_steps on_socket
    new_socket send_to send_encoded close_conn change_socket lookup ◌=?◌ payload_bytes
    default_encode_payload default_serializers
refused = rw (encode_frame-layout refusal codec) refl

handle_namespace_connect-refused_example :
    (turned_away.hub.joined ≡ []) × (turned_away.server.namespaces ≡ (text "/vip", guarded) ∷ [])
unfolding lookup ◌=?◌
handle_namespace_connect-refused_example =
    handle_namespace_connect-refused at_door world (text "c1") (text "/vip") guarded [] deny []
      turned_away (close 7 ∷ []) refl refl (λ s. (λ e. cc, tt)) refused
