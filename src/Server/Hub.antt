-- ===== src/Server/Hub.antt =====
-- server/hub.go: one connection shared by the sockets of several namespaces; and handleConnection of
-- server/server.go and runMiddlewares of server/namespace.go, by which a socket comes to join.
pub mod Close
pub mod Again
pub mod Admission
pub mod Messages
use bit_socket_go.Base.{
  ℕ, suc, Bool, true, false, Text, Bytes, List, [], ◌∷◌, ◌++◌, map, text, ◌==◌, ◌=?◌, if◌then◌else◌,
  length, get_elem?, Option, none, some, Table, lookup, insert, Outcome, ok, stop, error, panic,
  exhausted, ◌>>=◌, set,
}
use bit_socket_go.Protocol.Types.{Value, null, str, dict, end, entry, Externals}
use bit_socket_go.Protocol.Words.{Slice}
use bit_socket_go.Protocol.FrameType
use bit_socket_go.Protocol.Schema
use bit_socket_go.Protocol.Frame.{Serializers, FrameOptions, Frame, encode_frame, decode_frame}
use bit_socket_go.Server.Types.{
  Step, Middleware, ConnectionHandler, Handshake, Socket, Namespace, Server, Hub, Effect, write,
}
use bit_socket_go.Server.Chain.{Effects, run_chain}
use bit_socket_go.Server.Socket.{
  new_socket, send, close_conn, send_encoded, error_payload, dispatch,
}
use bit_socket_go.Server.Namespace.{
  schema_for, export_schemas, fire_connection, add_socket, remove_socket, emit_excluding,
  to_excluding, serializers_for,
}
use bit_socket_go.Server.Core.{namespace_of, put_namespace, of, export_all_schemas}

-- The server and the hub of the connection at hand.
pub record State : Type 0 where
  pub server : Server
  pub hub : Hub

unfoldable pub new_conn_hub : ℕ → Handshake → Hub
new_conn_hub conn handshake = record { conn = conn; handshake = handshake; joined = [] }

-- The socket at a place of the store, and a change to it.
abbrev pub socket_at : ℕ → Server → Option Socket
socket_at r srv = get_elem? srv.store r

abbrev pub change_at : ℕ → (Socket → Socket) → List Socket → List Socket
change_at r f store = elim (get_elem? store r) [ none ↦ store | some s ↦ set store r (f s) ]

unfoldable pub change_socket : ℕ → (Socket → Socket) → State → State
change_socket r f st = record st {
  server = record (st.server) { store = change_at r f st.server.store };
}

unfoldable pub send_to : ℕ → State → Outcome Bytes → Outcome Effects
send_to r st buf = elim (socket_at r st.server) [ none ↦ ok [] | some s ↦ send_encoded s buf ]

abbrev pub relocate : ℕ → Step Socket Effect → Step State Effect
relocate r step = record {
  change = change_socket r step.change;
  performs = step.performs;
  call = step.call;
}

-- A middleware of sockets, on the socket at `r`.
unfoldable pub on_socket : ℕ → Middleware Socket Effect → Middleware State Effect
on_socket r m st = elim (socket_at r st.server) [ none ↦ [] | some s ↦ map (relocate r) (m s) ]

-- What the connection handlers do to the outside, on the socket at `r`.
abbrev pub handler_effects : ℕ → List ConnectionHandler → State → Effects
handler_effects r handlers st = elim (socket_at r st.server) [
  | none ↦ []
  | some s ↦ (fire_connection handlers s).1
]

module _ (ext : Externals) where
  -- A middleware rejected the connection: the client is told, and the whole connection is closed.
  unfoldable pub reject_connection : ℕ → Text → Text → State → Outcome (State × Effects)
  reject_connection r nsp message st = do
    out ← send_to r st (
        encode_frame
          (record {
            frame_type = FrameType.ack;
            nsp = nsp;
            event = text "error";
            ack_id = 0;
            payload = error_payload message;
          })
          st.server.serializers)
    let st' = change_socket r (λ s. (close_conn s).0) st
    ok (st', out ++ Effect.close st.hub.conn ∷ [])

  -- All passed: the socket joins, is told so, and its handlers run.
  unfoldable pub admit : ℕ → Text → (State → Value) → State → Outcome (State × Effects)
  admit r nsp export st = do
    let ns = namespace_of st.server nsp
    let srv = put_namespace st.server nsp (add_socket r ns)
    let joined : State = record {
      server = srv;
      hub = record (st.hub) { joined = insert nsp r st.hub.joined };
    }
    out ← send_to r joined (
        encode_frame
          (record {
            frame_type = FrameType.connect;
            nsp = nsp;
            event = [];
            ack_id = 0;
            payload = if srv.use_schemas then export joined else null;
          })
          srv.serializers)
    ok (
      change_socket r (λ s. (fire_connection ns.conn_handlers s).0) joined,
      out ++ handler_effects r ns.conn_handlers joined,
    )

  -- A new socket for a namespace of the server, through the namespace's middlewares.
  unfoldable pub connect_socket :
      Text → Text → Namespace → (State → Value) → State → Outcome (State × Effects)
  connect_socket id nsp ns export st = do
    let r = length st.server.store
    let s = new_socket id st.hub.conn nsp st.hub.handshake
    let made : State = record st {
      server = record (st.server) { store = st.server.store ++ s ∷ [] };
    }
    run_chain (λ es. es) (admit r nsp export) (reject_connection r ns.name)
        (map (on_socket r) ns.conn_middlewares) made

  abbrev missing_message : Text → Text
  missing_message nsp = text "Requested namespace '" ++ (nsp ++ text "' does not exist on cluster.")

  -- `handleNamespaceConnect`.
  unfoldable pub handle_namespace_connect : Text → Text → State → Outcome (State × Effects)
  handle_namespace_connect id nsp st = elim (lookup nsp st.server.namespaces) [
    | none ↦
        elim (encode_frame
          (record {
            frame_type = FrameType.ack;
            nsp = nsp;
            event = text "error";
            ack_id = 0;
            payload = error_payload (missing_message nsp);
          })
          st.server.serializers) [
            | ok buf ↦ ok (st, write st.hub.conn buf ∷ [])
            | stop (error e) ↦ ok (st, [])
            | stop panic ↦ stop panic
            | stop exhausted ↦ stop exhausted
          ]
    | some ns ↦ connect_socket id nsp ns (λ st'. export_schemas (namespace_of st'.server nsp)) st
  ]

  -- `handleConnection`, after the upgrade: the root socket of a new connection.
  unfoldable pub handle_connection : Text → State → Outcome (State × Effects)
  handle_connection id st =
      let root : State = record st { server = of st.server (text "/") } in
      connect_socket id (text "/") (namespace_of st.server (text "/"))
        (λ st'. export_all_schemas st'.server) root

  -- The payload codec of `handleMessage`: the schema of the event in the namespace, if there is one.
  unfoldable pub decode_with_schema : Server → Slice → Text → Text → Outcome Value
  decode_with_schema srv buf event nsp =
      let fallback : Outcome Value = elim srv.serializers.decode_payload [
        | none ↦ stop panic
        | some decode ↦ decode buf
      ] in
      elim (lookup nsp srv.namespaces) [
        | none ↦ fallback
        | some ns ↦ elim (schema_for ns event) [
          | none ↦ fallback
          | some schema ↦ Schema.decode_payload ext schema.definition buf
        ]
      ]

  abbrev pub hub_serializers : Server → Serializers
  hub_serializers srv = record {
    encode_payload = none;
    decode_payload = none;
    decode_payload_with_event = some (decode_with_schema srv);
  }

  unfoldable pub dispatch_frame : ℕ → Frame → State → Outcome (State × Effects)
  dispatch_frame r frame st = elim (socket_at r st.server) [
    | none ↦ ok (st, [])
    | some s ↦ do
      (s', out) ← dispatch st.server.serializers s frame
      ok (change_socket r (λ _. s') st, out)
  ]

  -- The cases of `handleMessage` on a frame.
  unfoldable pub handle_frame : Text → Frame → State → Outcome (State × Effects)
  unfolding ◌=?◌
  handle_frame id frame st =
      if frame.frame_type == FrameType.connect
      then if frame.nsp =? text "/" then ok (st, []) else handle_namespace_connect id frame.nsp st
      else elim (lookup frame.nsp st.hub.joined) [
        | none ↦ ok (st, [])
        | some r ↦ dispatch_frame r frame st
      ]

  -- A frame that does not decode is dropped. `id` is the id of a socket that may have to be made.
  unfoldable pub handle_message : Text → Slice → State → Outcome (State × Effects)
  handle_message id raw st = elim (decode_frame raw (hub_serializers st.server)) [
    | ok frame ↦ handle_frame id frame st
    | stop (error e) ↦ ok (st, [])
    | stop panic ↦ stop panic
    | stop exhausted ↦ stop exhausted
  ]

-- One socket of a closed connection leaves the namespace that it names.
unfoldable pub detach : ℕ → Server → Server
unfolding put_namespace
detach r srv = elim (socket_at r srv) [
  | none ↦ srv
  | some s ↦ elim (lookup s.nsp srv.namespaces) [
    | none ↦ srv
    | some ns ↦ put_namespace srv s.nsp (remove_socket r ns)
  ]
]

unfoldable pub detach_all : Table ℕ → Server → Server
unfolding detach
detach_all [] srv = srv
detach_all ((nsp, r) ∷ rest) srv = detach_all rest (detach r srv)

-- `handleClose`.
unfoldable pub handle_close : State → State
unfolding detach_all
handle_close st = record {
  server = detach_all st.hub.joined st.server;
  hub = record (st.hub) { joined = [] };
}

-- `readLoop`, on the messages that come before the first error; with each the id of a socket that may
-- have to be made.
unfoldable pub read_loop : Externals → List (Text × Slice) → State → Outcome (State × Effects)
read_loop ext [] st = ok (handle_close st, [])
read_loop ext ((id, raw) ∷ rest) st = do
  (st₁, out) ← handle_message ext id raw st
  (st₂, outs) ← read_loop ext rest st₁
  ok (st₂, out ++ outs)
