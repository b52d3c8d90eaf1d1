-- ===== src/Tests/Worlds.antt =====
-- A witness for the invariant of the server with its connections, server/server.go and hub.go.
use bit_socket_go.Base.{◌≡◌, refl, true, false, ◌=?◌, [], ◌∷◌, text, none, some, lookup, insert, ok}
use bit_socket_go.Protocol.Types.{null}
use bit_socket_go.Protocol.Frame.{default_serializers, payload_bytes}
use bit_socket_go.Protocol.Frame.Encoding.{frame_bytes, encode_frame-layout}
use bit_socket_go.Server.Types.{Socket, write}
use bit_socket_go.Server.Chain.{run_chain}
use bit_socket_go.Server.Socket.{send, send_encoded, new_socket}
use bit_socket_go.Server.Namespace.{new_namespace, is_member, add_socket, fire_connection}
use bit_socket_go.Server.Core.{
  Config, new_server, namespace_of, put_namespace, of, origin_allowed, origin_in,
}
use bit_socket_go.Server.Http.{Request, served, http_handler}
use bit_socket_go.Server.Hub.{
  State, new_conn_hub, handle_connection, handle_close, connect_socket, admit, send_to,
  change_socket,
}
use bit_socket_go.Server.World.{World, state_of, world_of, requests, closes, Reach, start, move}
use bit_socket_go.Server.World.Always.{SoundWorld, new_server-Reach}
use bit_socket_go.Tests.{world}
use bit_socket_go.Tests.Sockets.{hands}

abbrev plain_config : Config
plain_config = record { serializers = none; use_schemas = some false; cors_origins = [] }

abbrev empty_world : World
empty_world = record { server = new_server world plain_config; hubs = [] }

-- The first socket, on the root namespace.
abbrev visitor : Socket
visitor = new_socket (text "v1") 0 (text "/") hands

abbrev welcomed : State
welcomed = record {
  server = record {
    serializers = default_serializers world;
    use_schemas = false;
    allowed_origins = text "*" ∷ [];
    namespaces = (text "/", record (new_namespace (text "/")) { members = 0 ∷ [] }) ∷ [];
    store = visitor ∷ [];
  };
  hub = record { conn = 0; handshake = hands; joined = (text "/", 0) ∷ [] };
}

welcome :
    handle_connection world (text "v1") (state_of empty_world (new_conn_hub 0 hands))
    ≡ ok (welcomed, write 0 (frame_bytes 1 (text "/") [] 0 []) ∷ [])
unfolding handle_connection connect_socket run_chain admit send_to send_encoded send lookup insert
    ◌=?◌ add_socket is_member fire_connection change_socket new_server of namespace_of put_namespace
    new_namespace payload_bytes new_conn_hub new_socket
welcome =
    rw
      (encode_frame-layout
        (record { frame_type = 1; nsp = text "/"; event = []; ack_id = 0; payload = null })
        (default_serializers world))
      refl

abbrev with_visitor : World
with_visitor = record { server = welcomed.server; hubs = welcomed.hub ∷ [] }

abbrev visit : Request
visit = record { origin = text "https://a.example"; handshake = hands; upgrades = true }

admitted :
    http_handler world (text "v1") 0 visit empty_world.server
    ≡ ok (served welcomed (write 0 (frame_bytes 1 (text "/") [] 0 []) ∷ []))
unfolding http_handler origin_allowed origin_in new_server of put_namespace insert ◌=?◌
admitted = rw (http_handler, welcome) refl

history :
    Reach world empty_world
      (world_of with_visitor 0 (handle_close (state_of with_visitor welcomed.hub)))
history =
    move with_visitor (world_of with_visitor 0 (handle_close (state_of with_visitor welcomed.hub)))
      (move empty_world with_visitor start (
        requests (text "v1") visit empty_world welcomed
          (write 0 (frame_bytes 1 (text "/") [] 0 []) ∷ []) admitted))
      (closes 0 welcomed.hub with_visitor refl)

new_server-Reach_example :
    SoundWorld (world_of with_visitor 0 (handle_close (state_of with_visitor welcomed.hub)))
new_server-Reach_example = new_server-Reach world plain_config _ history
