-- ===== src/Server/World.antt =====
-- The server of server/server.go with all of its connections, server/hub.go: what clients and the
-- server's user can do, in any order. A step runs to its end before the next. What code of the user does
-- to any socket, beside the effects that it has while it is called, is the move `touches`.
pub mod Places
pub mod Connects
pub mod Messages
pub mod Closes
pub mod Always
use bit_socket_go.Base.{
  ℕ, ◌≡◌, true, Text, List, [], ◌∷◌, ◌++◌, All, length, get_elem?, set, Option, some, Outcome, ok,
}
use bit_socket_go.Protocol.Types.{Externals}
use bit_socket_go.Protocol.Words.{Slice}
use bit_socket_go.Protocol.Schema.{Schema}
use bit_socket_go.Server.Types.{
  Step, Handshake, Socket, Middleware, ConnectionHandler, Server, Hub, Effect,
}
use bit_socket_go.Server.Chain.{Effects}
use bit_socket_go.Server.Namespace.{use_conn_middleware, on_connection, add_schemas}
use bit_socket_go.Server.Core.{namespace_of, put_namespace, of, origin_allowed}
use bit_socket_go.Server.Http.{Request, served, http_handler}
use bit_socket_go.Server.Hub.{
  State, new_conn_hub, handle_connection, handle_message, handle_close, change_at,
}

-- A connection is known by its place among all connections ever made.
pub record World : Type 0 where
  pub server : Server
  pub hubs : List Hub

-- Code of the server's user that leaves the namespace of a socket, which is the exported field `Nsp`,
-- and its connection, which is private to the package, as they are.
abbrev pub KeepsPlace : (Socket → Socket) → Type 0
KeepsPlace f = (s : Socket) → ((f s).nsp ≡ s.nsp) × ((f s).conn ≡ s.conn)

abbrev pub HandlerKeeps : ConnectionHandler → Type 0
HandlerKeeps h = KeepsPlace (λ s. (h s).0)

abbrev pub IsPolite : Middleware Socket Effect → Type 0
IsPolite m = (s : Socket) → All (λ step. KeepsPlace step.change) (m s)

abbrev pub state_of : World → Hub → State
state_of w hub = record { server = w.server; hub = hub }

abbrev pub world_of : World → ℕ → State → World
world_of w i st = record { server = st.server; hubs = set w.hubs i st.hub }

module _ (ext : Externals) where
  pub data Move : World → World → Type 0 where
    requests :
        (id : Text) (req : Request) (w : World) (st : State) (out : Effects)
        → http_handler ext id (length w.hubs) req w.server ≡ ok (served st out)
        → Move w (record { server = st.server; hubs = w.hubs ++ st.hub ∷ [] })
    receives :
        (id : Text) (raw : Slice) (i : ℕ) (hub : Hub) (w : World) (st : State) (out : Effects)
        → get_elem? w.hubs i ≡ some hub
        → handle_message ext id raw (state_of w hub) ≡ ok (st, out)
        → Move w (world_of w i st)
    closes :
        (i : ℕ) (hub : Hub) (w : World)
        → get_elem? w.hubs i ≡ some hub
        → Move w (world_of w i (handle_close (state_of w hub)))
    opens : (name : Text) (w : World) → Move w (record w { server = of w.server name })
    uses :
        (name : Text) (m : Middleware Socket Effect) (w : World)
        → IsPolite m
        → Move w (record w {
          server = put_namespace w.server name (use_conn_middleware (namespace_of w.server name) m);
        })
    handles :
        (name : Text) (h : ConnectionHandler) (w : World)
        → HandlerKeeps h
        → Move w (record w {
          server = put_namespace w.server name (on_connection (namespace_of w.server name) h);
        })
    declares :
        (name : Text) (schemas : List Schema) (w : World)
        → Move w (record w {
          server = put_namespace w.server name (add_schemas (namespace_of w.server name) schemas);
        })
    touches :
        (r : ℕ) (f : Socket → Socket) (w : World)
        → KeepsPlace f
        → Move w (record w { server = record (w.server) { store = change_at r f w.server.store } })

  pub data Reach (w₀ : World) : World → Type 0 where
    start : Reach w₀ w₀
    move : (w w' : World) → Reach w₀ w → Move w w' → Reach w₀ w'
