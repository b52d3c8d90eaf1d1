-- ===== src/Server/Core.antt =====
-- server/server.go: the server and its table of namespaces. Listening on a port and the HTTP upgrade
-- are not modelled.
pub mod Origins
use bit_socket_go.Base.{
  ℕ, Bool, true, false, ◌||◌, Text, Bytes, List, [], ◌∷◌, text, ◌==◌, ◌=?◌, if◌then◌else◌, Option,
  none, some, Table, lookup, insert, Outcome, ok, String,
}
use bit_socket_go.Protocol.Types.{Value, Entries, end, dict, Externals}
use bit_socket_go.Protocol.Coerce.{set_entry}
use bit_socket_go.Protocol.Schema.{Schema}
use bit_socket_go.Protocol.Frame.{Serializers, default_serializers}
use bit_socket_go.Server.Types.{Server, Namespace, Socket, ConnectionHandler, Middleware, Effect}
use bit_socket_go.Server.Chain.{Effects}
use bit_socket_go.Server.Namespace.{
  new_namespace, use_conn_middleware, on_connection, export_schemas, to_excluding, emit,
}

-- `Of`: the namespace of that name, made on demand.
unfoldable pub namespace_of : Server → Text → Namespace
unfolding lookup new_namespace
namespace_of srv name = elim (lookup name srv.namespaces) [
  | none ↦ new_namespace name
  | some ns ↦ ns
]

unfoldable pub put_namespace : Server → Text → Namespace → Server
unfolding insert
put_namespace srv name ns = record srv { namespaces = insert name ns srv.namespaces }

unfoldable pub of : Server → Text → Server
unfolding namespace_of put_namespace
of srv name = elim (lookup name srv.namespaces) [
  | none ↦ put_namespace srv name (new_namespace name)
  | some ns ↦ srv
]

-- The fields of `Config` that the model keeps; nil is `none`.
pub record Config : Type 0 where
  pub serializers : Option Serializers
  pub use_schemas : Option Bool
  pub cors_origins : List Text

abbrev or_else {ℓ} : {A : Type ℓ} → Option A → A → A
or_else none d = d
or_else (some a) d = a

abbrev origins_or_all : List Text → List Text
origins_or_all [] = text "*" ∷ []
origins_or_all (o ∷ os) = o ∷ os

-- The root namespace always exists.
unfoldable pub new_server : Externals → Config → Server
unfolding of
new_server ext cfg =
    of
      (record {
        serializers = or_else cfg.serializers (default_serializers ext);
        use_schemas = or_else cfg.use_schemas true;
        allowed_origins = origins_or_all cfg.cors_origins;
        namespaces = [];
        store = [];
      })
      (text "/")

unfoldable pub origin_in : Text → List Text → Bool
unfolding ◌=?◌
origin_in origin [] = false
origin_in origin (o ∷ os) = if o =? text "*" || o =? origin then true else origin_in origin os

unfoldable pub origin_allowed : Server → Text → Bool
unfolding origin_in
origin_allowed srv origin = origin_in origin srv.allowed_origins

-- `Use` and `OnConnection` on the root namespace.
unfoldable pub use_root_middleware : Server → Middleware Socket Effect → Server
unfolding of namespace_of
use_root_middleware srv m =
    put_namespace (of srv (text "/")) (text "/")
      (use_conn_middleware (namespace_of srv (text "/")) m)

unfoldable pub on_root_connection : Server → ConnectionHandler → Server
unfolding of namespace_of
on_root_connection srv h =
    put_namespace (of srv (text "/")) (text "/") (on_connection (namespace_of srv (text "/")) h)

-- `strings.TrimPrefix(nsp, "/")`.
abbrev pub trim_slash : Text → Text
trim_slash [] = []
trim_slash (c ∷ cs) = if c == b'/' then cs else c ∷ cs

unfoldable pub schema_export_key : Text → Text
unfolding ◌=?◌
schema_export_key nsp = if nsp =? text "/" then text "root" else trim_slash nsp

-- `Schemas`, in the order of the table; Go's order is random.
unfoldable pub collect_schemas : Table Namespace → Table (Table Schema) → Table (Table Schema)
unfolding schema_export_key
collect_schemas [] out = out
collect_schemas ((nsp, ns) ∷ rest) out =
    collect_schemas rest (insert (schema_export_key nsp) ns.schemas out)

unfoldable pub schemas_of : Server → Table (Table Schema)
unfolding collect_schemas
schemas_of srv = collect_schemas srv.namespaces []

unfoldable pub export_namespaces : Table Namespace → Entries → Entries
unfolding schema_export_key set_entry export_schemas
export_namespaces [] out = out
export_namespaces ((nsp, ns) ∷ rest) out =
    export_namespaces rest (set_entry (schema_export_key nsp) (export_schemas ns) out)

unfoldable pub export_all_schemas : Server → Value
unfolding export_namespaces
export_all_schemas srv = dict (export_namespaces srv.namespaces end)

module _ (ext : Externals) (srv : Server) where
  -- `Emit` on the root namespace.
  unfoldable pub emit_root : Text → Value → Outcome Effects
  unfolding namespace_of
  emit_root event payload = emit ext srv (namespace_of srv (text "/")) event payload

  abbrev nsp_argument : Option Text → Text
  nsp_argument none = text "/"
  nsp_argument (some []) = text "/"
  nsp_argument (some (c ∷ cs)) = c ∷ cs

  -- `To(room, nsp...).Emit(event, payload)`: to a namespace that is not there, nothing.
  unfoldable pub to_emit : Text → Option Text → Text → Value → Outcome Effects
  to_emit room nsp event payload = elim (lookup (nsp_argument nsp) srv.namespaces) [
    | none ↦ ok []
    | some ns ↦ to_excluding ext srv ns room event payload none
  ]
