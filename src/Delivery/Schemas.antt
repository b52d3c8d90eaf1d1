-- ===== src/Delivery/Schemas.antt =====
-- From Namespace.exportSchemas of server/namespace.go, by the CONNECT payload, to absorbSchemaPayload of
-- client/client.go.
use bit_socket_go.Base.{
  ◌≡◌, refl, ap, ◌∙◌, false, Bool-cases, inl, inr, Text, Bytes, [], ◌∷◌, text, ◌=?◌, none, some,
  Table, lookup, DistinctKeys, ok,
}
use bit_socket_go.Protocol.Types.{SchemaDef, dict, entry, wire_schema, Externals}
use bit_socket_go.Protocol.Schema.{Schema, new_schema}
use bit_socket_go.Protocol.SchemaWire.{Msgpack, decode_namespace_schema_payload}
use bit_socket_go.Protocol.SchemaWire.RoundTrip.{MsgpackLaws}
use bit_socket_go.Protocol.SchemaWire.Tables.{
  MarshalLaws, exported, decode_namespace_schema_payload-exported,
}
use bit_socket_go.Protocol.Frame.{default_encode_payload}
use bit_socket_go.Protocol.Frame.RoundTrip.{FlateLaws}
use bit_socket_go.Server.Types.{Namespace}
use bit_socket_go.Server.Namespace.{schema_for, export_schemas, export_table}
use bit_socket_go.Client.Schemas.{
  schema_key, SchemaStore, bucket, ensure_schema_bucket, absorb_defs, absorb_schema_payload,
}
use bit_socket_go.Client.Schemas.Sync.{absorb_defs_lem}

-- The definitions of a table of schemas.
abbrev pub definitions : Table Schema → Table SchemaDef
definitions [] = []
definitions ((event, s) ∷ rest) = (event, s.definition) ∷ definitions rest

exported-definitions :
    (schemas : Table Schema) → exported (definitions schemas) ≡ export_table schemas
exported-definitions [] = refl
exported-definitions ((event, s) ∷ rest) =
    ap (entry event (wire_schema s.definition)) (exported-definitions rest)

lookup-definitions :
    (event : Text) (schemas : Table Schema)
    → lookup event (definitions schemas)
      ≡ elim (lookup event schemas) [ none ↦ none | some s ↦ some s.definition ]
unfolding lookup
lookup-definitions event [] = refl
lookup-definitions event ((k, s) ∷ rest) = elim (Bool-cases (k =? event)) [
  | inl same ↦ rw same refl
  | inr other ↦ rw other (lookup-definitions event rest)
]

DistinctKeys-definitions :
    (schemas : Table Schema) → DistinctKeys schemas → DistinctKeys (definitions schemas)
DistinctKeys-definitions [] h = tt
DistinctKeys-definitions ((k, s) ∷ rest) h =
    (lookup-definitions k rest ∙ rw h.0 refl, DistinctKeys-definitions rest h.1)

module _ (mp : Msgpack) (ext : Externals) (laws : MsgpackLaws mp) (marshals : MarshalLaws mp ext)
    (flate : FlateLaws ext) where
  absorbs :
      (nsp : Text) (defs : Table SchemaDef) (raw spare : Bytes) (st : SchemaStore)
      → (nsp =? text "/") ≡ false
      → decode_namespace_schema_payload mp ext raw ≡ ok defs
      → absorb_schema_payload mp ext nsp (record { items = raw; spare = spare }) st
        ≡ ok (absorb_defs (schema_key nsp) defs (ensure_schema_bucket (schema_key nsp) st))
  unfolding absorb_schema_payload
  absorbs nsp defs raw spare st sub e = rw (sub, e) refl

  -- A schema that a namespace of the server has, under a name that NewSchema accepts, is the client's
  -- schema of that event once the namespace's CONNECT payload is taken over. The namespace is not
  -- the root, the codec is the default one, and the packages keep their laws.
  pub absorb_schema_payload-export_schemas :
      (ns : Namespace) (nsp event : Text) (s : Schema) (raw spare : Bytes) (st : SchemaStore)
      → (nsp =? text "/") ≡ false
      → DistinctKeys ns.schemas
      → default_encode_payload ext (export_schemas ns) ≡ ok raw
      → schema_for ns event ≡ some s
      → new_schema event s.definition ≡ ok s
      → (st' : SchemaStore) × (absorb_schema_payload mp ext nsp
            (record { items = raw; spare = spare })
            st
          ≡ ok st')
        × (lookup event (bucket (schema_key nsp) st') ≡ some s)
  unfolding export_schemas schema_for
  absorb_schema_payload-export_schemas ns nsp event s raw spare st sub keys e has good =
      let defs = definitions ns.schemas in
      let distinct = DistinctKeys-definitions ns.schemas keys in
      let back =
        decode_namespace_schema_payload-exported mp ext laws marshals flate defs raw distinct
          (ap (λ es. default_encode_payload ext (dict es)) (exported-definitions ns.schemas) ∙ e) in
      let store = ensure_schema_bucket (schema_key nsp) st in
      let sent : lookup event defs ≡ some s.definition =
        lookup-definitions event ns.schemas ∙ rw has refl in
      (
        absorb_defs (schema_key nsp) defs store,
        absorbs nsp defs raw spare st sub back,
        absorb_defs_lem (schema_key nsp) event defs store distinct ∙ rw (sent, good) refl,
      )
