-- ===== src/Client/Schemas/Sync.antt =====
-- The schemas that a client takes over from a CONNECT payload: absorbSchemaPayload of client/client.go,
-- and the keys that it shares with schemaExportKey of server/server.go.
use bit_socket_go.Base.{
  ◌≡◌, refl, sym, ap, ◌∙◌, Bool-cases, inl, inr, Text, [], ◌∷◌, ◌=?◌, =?_iff, =?_refl,
  if◌then◌else◌, Option, none, some, Table, DistinctKeys, lookup-nil, lookup-here, lookup-there,
  lookup, insert, lookup-insert, Outcome, ok, stop,
}
use bit_socket_go.Protocol.Types.{SchemaDef}
use bit_socket_go.Protocol.Schema.{Schema, new_schema}
use bit_socket_go.Server.Core.{schema_export_key}
use bit_socket_go.Client.Schemas.{
  schema_key, SchemaStore, bucket, put_schema, put_synced, absorb_def, absorb_defs,
}

-- Client and server name a namespace's schemas by the same key.
pub schema_key-eq-schema_export_key : (nsp : Text) → schema_key nsp ≡ schema_export_key nsp
unfolding schema_key schema_export_key
schema_key-eq-schema_export_key [] = refl
schema_key-eq-schema_export_key (c ∷ cs) = refl

lookup-put_synced :
    (key event other : Text) (s : Schema) (st : SchemaStore)
    → lookup other (bucket key (put_synced key event s st))
      ≡ (if event =? other then some s else lookup other (bucket key st))
unfolding bucket put_synced put_schema
lookup-put_synced key event other s st =
    ap (λ o. lookup other (elim o [ none ↦ [] | some b ↦ b ]))
      (lookup-insert key key (insert event s (bucket key st)) st.schemas)
    ∙ rw (=?_refl) (lookup-insert event other s (bucket key st))

abbrev pub made_or : Outcome Schema → Option Schema → Option Schema
made_or (ok s) before = some s
made_or (stop e) before = before

-- What an event's schema is to be: the one sent, if its name is a schema's name, or the one before.
abbrev pub synced : Text → Option SchemaDef → Option Schema → Option Schema
synced event none before = before
synced event (some def) before = made_or (new_schema event def) before

one_synced :
    (key e event : Text) (r : Outcome Schema) (st : SchemaStore)
    → lookup event (bucket key (absorb_def key e r st)) ≡ (
        if e =? event
        then made_or r (lookup event (bucket key st))
        else lookup event (bucket key st))
one_synced key e event (ok s) st = lookup-put_synced key e event s st
one_synced key e event (stop x) st = elim (Bool-cases (e =? event)) [
  | inl t ↦ rw t refl
  | inr f ↦ rw f refl
]

-- After a namespace's definitions have been taken over, each of its events has the schema that was
-- sent for it, where the name is valid, and any other event has the schema from before.
pub absorb_defs_lem :
    (key event : Text) (defs : Table SchemaDef) (st : SchemaStore)
    → DistinctKeys defs
    → lookup event (bucket key (absorb_defs key defs st))
      ≡ synced event (lookup event defs) (lookup event (bucket key st))
unfolding absorb_defs
absorb_defs_lem key event [] st h =
    ap (λ o. synced event o (lookup event (bucket key st))) (sym (lookup-nil event))
absorb_defs_lem key event ((e, d) ∷ rest) st h =
    let before = lookup event (bucket key st) in
    let rest_done = absorb_defs_lem key event rest (absorb_def key e (new_schema e d) st) h.1 in
    let first = one_synced key e event (new_schema e d) st in
    elim (Bool-cases (e =? event)) [
      | inr other ↦
          rest_done
          ∙ ap (synced event (lookup event rest)) (rw other at first)
          ∙ rw (lookup-there e event d rest other) refl
      | inl same ↦
          let is : event ≡ e = sym ((=?_iff e event).0 same) in
          let gone : lookup event rest ≡ none = rw is h.0 in
          rest_done ∙ rw (gone) (first ∙ rw same (rw is (rw (lookup-here e d rest) refl)))
    ]
