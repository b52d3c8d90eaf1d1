-- ===== src/Client/Schemas.antt =====
-- The schemas that a client knows, its own and those that the server sent: client/types.go and
-- client/client.go.
pub mod Sync
use bit_socket_go.Base.{
  ℕ, Bool, true, false, Text, Bytes, List, [], ◌∷◌, text, ◌==◌, ◌=?◌, if◌then◌else◌, Option, none,
  some, Table, lookup, insert, Outcome, ok, stop, error, panic, exhausted,
}
use bit_socket_go.Protocol.Types.{SchemaDef, Value, null, Externals}
use bit_socket_go.Protocol.Words.{Slice}
use bit_socket_go.Protocol.Schema.{Schema, new_schema}
use bit_socket_go.Protocol.Schema
use bit_socket_go.Protocol.Frame.{Serializers}
use bit_socket_go.Protocol.SchemaWire.{
  Msgpack, decode_namespace_schema_payload, decode_root_schema_payload,
}

abbrev without_slash : Text → Text
without_slash [] = []
without_slash (c ∷ cs) = if c == b'/' then cs else c ∷ cs

unfoldable pub schema_key : Text → Text
unfolding ◌=?◌
schema_key nsp = if nsp =? text "/" then text "root" else without_slash nsp

-- `schemas`, by namespace key and event, and `flatSchemas`, by event.
pub record SchemaStore : Type 0 where
  pub schemas : Table (Table Schema)
  pub flat_schemas : Table Schema

-- `c.schemas[nspKey]`; a nil map has no entries.
unfoldable pub bucket : Text → SchemaStore → Table Schema
unfolding lookup
bucket key st = elim (lookup key st.schemas) [ none ↦ [] | some b ↦ b ]

unfoldable pub ensure_schema_bucket : Text → SchemaStore → SchemaStore
unfolding lookup insert
ensure_schema_bucket key st = elim (lookup key st.schemas) [
  | none ↦ record st { schemas = insert key [] st.schemas }
  | some b ↦ st
]

-- `c.schemas[nspKey][name] = s`.
unfoldable pub put_schema : Text → Text → Schema → SchemaStore → SchemaStore
unfolding insert bucket
put_schema key name s st = record st {
  schemas = insert key (insert name s (bucket key st)) st.schemas;
}

abbrev put_schemas : Text → List Schema → SchemaStore → SchemaStore
put_schemas key [] st = st
put_schemas key (s ∷ ss) st = put_schemas key ss (put_schema key s.name s st)

unfoldable pub register_schemas : Text → List Schema → SchemaStore → SchemaStore
register_schemas nsp ss st =
    put_schemas (schema_key nsp) ss (ensure_schema_bucket (schema_key nsp) st)

unfoldable pub get_schema : SchemaStore → Text → Option Schema
unfolding lookup
get_schema st event = lookup event st.flat_schemas

unfoldable pub schemas_for : SchemaStore → Text → Table Schema
schemas_for st nsp = bucket (schema_key nsp) st

-- A schema that the server sent also goes to the flat table.
unfoldable pub put_synced : Text → Text → Schema → SchemaStore → SchemaStore
unfolding insert
put_synced key event s st = record {
  schemas = (put_schema key event s st).schemas;
  flat_schemas = insert event s st.flat_schemas;
}

abbrev absorb_def : Text → Text → Outcome Schema → SchemaStore → SchemaStore
absorb_def key event (ok s) st = put_synced key event s st
absorb_def key event (stop e) st = st

-- The loop over the definitions of one namespace; one with a bad name is left out.
unfoldable pub absorb_defs : Text → Table SchemaDef → SchemaStore → SchemaStore
absorb_defs key [] st = st
absorb_defs key ((event, def) ∷ rest) st =
    absorb_defs key rest (absorb_def key event (new_schema event def) st)

unfoldable pub absorb_tables : Table (Table SchemaDef) → SchemaStore → SchemaStore
absorb_tables [] st = st
absorb_tables ((key, defs) ∷ rest) st =
    absorb_tables rest (absorb_defs key defs (ensure_schema_bucket key st))

-- A payload that does not decode changes nothing.
abbrev unless_error :
    {A : Type 0} → Outcome A → (A → SchemaStore) → SchemaStore → Outcome SchemaStore
unless_error (ok a) f st = ok (f a)
unless_error (stop (error e)) f st = ok st
unless_error (stop panic) f st = stop panic
unless_error (stop exhausted) f st = stop exhausted

module _ (mp : Msgpack) (ext : Externals) where
  unfoldable pub absorb_schema_payload : Text → Slice → SchemaStore → Outcome SchemaStore
  absorb_schema_payload nsp payload st =
      if nsp =? text "/"
      then unless_error (decode_root_schema_payload mp ext payload.items)
          (λ defs. absorb_tables defs st) st
      else unless_error (decode_namespace_schema_payload mp ext payload.items)
          (λ defs. absorb_defs (schema_key nsp) defs (ensure_schema_bucket (schema_key nsp) st)) st

-- No bytes are nil; else the schema of the event goes before the codec.
unfoldable pub decode_app_payload :
    Externals → Serializers → SchemaStore → Slice → Text → Text → Outcome Value
decode_app_payload ext ser st payload event nsp = elim payload.items [
  | [] ↦ ok null
  | b ∷ bs ↦ elim (lookup event (bucket (schema_key nsp) st)) [
    | some schema ↦ Schema.decode_payload ext schema.definition payload
    | none ↦ elim ser.decode_payload [ none ↦ stop panic | some decode ↦ decode payload ]
  ]
]
