-- ===== src/Server/Namespace.antt =====
-- server/namespace.go: the sockets, middlewares and schemas under one path.
pub mod Broadcast
pub mod Order
use bit_socket_go.Base.{
  ℕ, Bool, true, false, not, ◌&&◌, Text, Bytes, List, [], ◌∷◌, ◌++◌, text, ◌==◌, if◌then◌else◌,
  get_elem?, Option, none, some, Table, lookup, insert, Outcome, ok, stop, error, panic, exhausted,
  ◌>>=◌,
}
use bit_socket_go.Protocol.Types.{Value, Entries, null, dict, end, entry, wire_schema, Externals}
use bit_socket_go.Protocol.Words.{Slice}
use bit_socket_go.Protocol.FrameType
use bit_socket_go.Protocol.Schema.{Schema}
use bit_socket_go.Protocol.Schema
use bit_socket_go.Protocol.Frame.{Serializers, FrameOptions, encode_frame}
use bit_socket_go.Server.Types.{Socket, Namespace, Server, Middleware, ConnectionHandler, Effect}
use bit_socket_go.Server.Chain.{Effects}
use bit_socket_go.Server.Socket.{send, has_room}

unfoldable pub new_namespace : Text → Namespace
new_namespace name = record {
  name = name;
  members = [];
  conn_middlewares = [];
  conn_handlers = [];
  schemas = [];
}

-- `Schema(schemas...)`: the last of two schemas of one name stays.
unfoldable pub register_schemas : List Schema → Table Schema → Table Schema
register_schemas [] table = table
register_schemas (s ∷ ss) table = register_schemas ss (insert s.name s table)

unfoldable pub add_schemas : Namespace → List Schema → Namespace
unfolding register_schemas
add_schemas ns schemas = record ns { schemas = register_schemas schemas ns.schemas }

unfoldable pub schema_for : Namespace → Text → Option Schema
schema_for ns event = lookup event ns.schemas

abbrev pub export_table : Table Schema → Entries
export_table [] = end
export_table ((event, schema) ∷ rest) =
    entry event (wire_schema schema.definition) (export_table rest)

unfoldable pub export_schemas : Namespace → Value
export_schemas ns = dict (export_table ns.schemas)

-- `Use` and `OnConnection`.
unfoldable pub use_conn_middleware : Namespace → Middleware Socket Effect → Namespace
use_conn_middleware ns m = record ns { conn_middlewares = ns.conn_middlewares ++ m ∷ [] }

unfoldable pub on_connection : Namespace → ConnectionHandler → Namespace
on_connection ns h = record ns { conn_handlers = ns.conn_handlers ++ h ∷ [] }

-- Every handler in turn, on the socket.
unfoldable pub fire_connection : List ConnectionHandler → Socket → Socket × Effects
fire_connection [] s = (s, [])
fire_connection (h ∷ hs) s =
    let (s₁, out₁) = h s in let (s₂, out₂) = fire_connection hs s₁ in (s₂, out₁ ++ out₂)

-- `map[*Socket]struct{}` as the list of its keys.
unfoldable pub is_member : ℕ → List ℕ → Bool
is_member r [] = false
is_member r (x ∷ xs) = if x == r then true else is_member r xs

unfoldable pub add_socket : ℕ → Namespace → Namespace
unfolding is_member
add_socket r ns = if is_member r ns.members then ns else record ns { members = r ∷ ns.members }

unfoldable pub delete_member : ℕ → List ℕ → List ℕ
delete_member r [] = []
delete_member r (x ∷ xs) = let rest = delete_member r xs in if x == r then rest else x ∷ rest

unfoldable pub remove_socket : ℕ → Namespace → Namespace
remove_socket r ns = record ns { members = delete_member r ns.members }

abbrev schema_serializers : Externals → Schema → Serializers
schema_serializers ext schema = record {
  encode_payload = some (Schema.encode_payload ext schema.definition);
  decode_payload = none;
  decode_payload_with_event = none;
}

unfoldable pub serializers_for : Externals → Server → Namespace → Text → Serializers
serializers_for ext srv ns event = elim (schema_for ns event) [
  | none ↦ srv.serializers
  | some schema ↦ schema_serializers ext schema
]

-- `s == exclude`, where nil excludes nobody.
abbrev pub is_excluded : Option ℕ → ℕ → Bool
is_excluded none r = false
is_excluded (some x) r = r == x

-- The loop over the members: a message to each that `keep` lets through.
unfoldable pub broadcast : List Socket → (ℕ → Socket → Bool) → Bytes → List ℕ → Effects
broadcast store keep buf [] = []
broadcast store keep buf (r ∷ rs) =
    (elim (get_elem? store r) [ none ↦ [] | some s ↦ if keep r s then send s buf else [] ])
    ++ broadcast store keep buf rs

abbrev pub to_all : Option ℕ → ℕ → Socket → Bool
to_all exclude r s = not (is_excluded exclude r)

abbrev pub to_room : Text → Option ℕ → ℕ → Socket → Bool
to_room room exclude r s = not (is_excluded exclude r) && has_room s room

-- An error of the encoder ends the call in silence.
abbrev pub unless_error : Outcome Bytes → (Bytes → Effects) → Outcome Effects
unless_error (ok buf) f = ok (f buf)
unless_error (stop (error e)) f = ok []
unless_error (stop panic) f = stop panic
unless_error (stop exhausted) f = stop exhausted

module _ (ext : Externals) (srv : Server) (ns : Namespace) where
  abbrev pub encode_event : Text → Value → Outcome Bytes
  encode_event event payload =
      encode_frame
        (record {
          frame_type = FrameType.event;
          nsp = ns.name;
          event = event;
          ack_id = 0;
          payload = payload;
        })
        (serializers_for ext srv ns event)

  unfoldable pub emit_excluding : Text → Value → Option ℕ → Outcome Effects
  emit_excluding event payload exclude =
      unless_error (encode_event event payload)
        (λ buf. broadcast srv.store (to_all exclude) buf ns.members)

  unfoldable pub emit : Text → Value → Outcome Effects
  unfolding emit_excluding
  emit event payload = emit_excluding event payload none

  unfoldable pub to_excluding : Text → Text → Value → Option ℕ → Outcome Effects
  to_excluding room event payload exclude =
      unless_error (encode_event event payload)
        (λ buf. broadcast srv.store (to_room room exclude) buf ns.members)
