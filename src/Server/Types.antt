-- ===== src/Server/Types.antt =====
-- The state of the package server: server/types.go, and the structs of socket.go, namespace.go, hub.go
-- and server.go. A `*Socket` is its place in the store of all sockets ever made.
use bit_socket_go.Base.{ℕ, Bool, Text, Bytes, List, Table}
use bit_socket_go.Protocol.Types.{Value}
use bit_socket_go.Protocol.Schema.{Schema}
use bit_socket_go.Protocol.Frame.{Serializers}

pub record Handshake : Type 0 where
  pub headers : Table Text
  pub url : Text
  pub time : ℕ

pub record EventPacket : Type 0 where
  pub event : Text
  pub payload : Value

-- What a call does beside its result, in order: a message written to a connection, a connection closed, a
-- listener called, with whether it could acknowledge, and a room that code of the user joins or leaves
-- with the socket that it runs for.
pub data Effect : Type 0 where
  write : ℕ → Bytes → Effect
  close : ℕ → Effect
  called : Text → Value → Bool → Effect
  entered : Text → Effect
  exited : Text → Effect

-- How a middleware goes on: it calls `next` with nil, or with an error and its message, or it returns.
pub data Call : Type 0 where
  passes : Call
  fails : Text → Call
  returns : Call

-- A middleware is code of the user. It calls `next` some number of times and returns; a step is what it
-- does until then from the call before: to the state, and to the outside, with what comes next.
pub record Step (S F : Type 0) : Type 0 where
  pub change : S → S
  pub performs : List F
  pub call : Call

-- Which calls it makes may depend on the state that it is given.
abbrev pub Middleware : Type 0 → Type 0 → Type 0
Middleware S F = S → List (Step S F)

-- What a listener does, in its order: it calls `ack`, or it has effects of its own, by emitting,
-- broadcasting, or joining and leaving rooms.
pub data Reaction : Type 0 where
  acknowledges : Value → Reaction
  performs : Effect → Reaction

-- A listener is code of the user, on a payload, and on whether its `ack` is there rather than nil. What
-- else it does to the sockets and to the server, such as On or Use, is a move of its own, in
-- Server/World.
abbrev pub EventHandler : Type 0
EventHandler = Value → Bool → List Reaction

-- `conn` is the connection under the hub that the socket belongs to; `rooms` and the `sockets` of a
-- namespace are Go maps used as sets.
pub record Socket : Type 0 where
  pub id : Text
  pub nsp : Text
  pub handshake : Handshake
  pub conn : ℕ
  pub closed : Bool
  pub rooms : Table (Unit {0})
  pub listeners : Table EventHandler
  pub middlewares : List (Middleware EventPacket Effect)

-- A connection handler is code of the user: what it does to its socket, and to the outside.
abbrev pub ConnectionHandler : Type 0
ConnectionHandler = Socket → Socket × List Effect

pub record Namespace : Type 0 where
  pub name : Text
  pub members : List ℕ
  pub conn_middlewares : List (Middleware Socket Effect)
  pub conn_handlers : List ConnectionHandler
  pub schemas : Table Schema

pub record Server : Type 0 where
  pub serializers : Serializers
  pub use_schemas : Bool
  pub allowed_origins : List Text
  pub namespaces : Table Namespace
  pub store : List Socket

-- A connection, and the sockets that share it, by namespace.
pub record Hub : Type 0 where
  pub conn : ℕ
  pub handshake : Handshake
  pub joined : Table ℕ
