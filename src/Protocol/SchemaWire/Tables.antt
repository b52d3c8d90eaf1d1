-- ===== src/Protocol/SchemaWire/Tables.antt =====
-- The tables of definitions that a CONNECT payload carries: what wireSchemaDef.EncodeMsgpack and msgpack's
-- encoder of maps write, and what DecodeNamespaceSchemaPayload of protocol/schema_wire.go reads.
use bit_socket_go.Base.{
  ℕ, suc, ◌≡◌, refl, sym, ap, ◌∙◌, Text, Bytes, [], ◌∷◌, ◌++◌, append_assoc, append-nil, length,
  none, some, Table, lookup, insert-eq-append, true, lookup-append, DistinctKeys, =?_iff, =?_comm,
  lookup-nil, lookup-there, lookup-here, ◌=?◌, Bool-cases, inl, inr, Outcome, ok, lift, Fallible,
  done, failed, ◌>>=◌, >>=-eq-ok,
}
use bit_socket_go.Protocol.Types.{SchemaDef, Entries, end, entry, dict, wire_schema, Externals}
use bit_socket_go.Protocol.SchemaWire.{
  Msgpack, write_schema_def, read_def_table, decode_schema_def_map, decode_namespace_schema_payload,
}
use bit_socket_go.Protocol.SchemaWire.RoundTrip.{MsgpackLaws, decode_schema_def-write_schema_def}
use bit_socket_go.Protocol.Frame.{default_encode_payload}
use bit_socket_go.Protocol.Frame.RoundTrip.{FlateLaws}

abbrev pub count_entries : Entries → ℕ
count_entries end = 0
count_entries (entry k v es) = suc (count_entries es)

module _ (mp : Msgpack) (ext : Externals) where
  unfoldable pub marshal_entries : Entries → Outcome Bytes
  marshal_entries end = ok []
  marshal_entries (entry k v es) = do
    key ← lift (mp.encode_string k)
    value ← ext.marshal v
    rest ← marshal_entries es
    ok (key ++ (value ++ rest))

  -- What the code relies on of msgpack.Marshal: a map is its length and then its entries in some order,
  -- which is that of the model's map; a value with a method EncodeMsgpack is what that writes.
  pub record MarshalLaws : Type 0 where
    pub marshal_dict :
        (es : Entries)
        → ext.marshal (dict es) ≡ (
            lift (mp.encode_map_len (count_entries es)) >>= λ head.
            marshal_entries es >>= λ rest. ok (head ++ rest))
    pub marshal_wire_schema : (d : SchemaDef) → ext.marshal (wire_schema d) ≡ write_schema_def mp d

-- A table of definitions as exportSchemas makes it.
abbrev pub exported : Table SchemaDef → Entries
exported [] = end
exported ((event, def) ∷ rest) = entry event (wire_schema def) (exported rest)

count_entries-exported : (defs : Table SchemaDef) → count_entries (exported defs) ≡ length defs
count_entries-exported [] = refl
count_entries-exported ((k, d) ∷ defs) = ap suc (count_entries-exported defs)

-- No key of the second table is in the first.
abbrev Apart : Table SchemaDef → Table SchemaDef → Type 0
Apart before [] = Unit {0}
Apart before ((k, d) ∷ rest) = (lookup k before ≡ none) × Apart before rest

ok-injective : {a b : Bytes} → ◌≡◌ {A = Outcome Bytes} (ok a) (ok b) → a ≡ b
ok-injective e = cc

Apart-step :
    (k : Text) (d : SchemaDef) (before rest : Table SchemaDef)
    → lookup k rest ≡ none
    → Apart before rest
    → Apart (before ++ (k, d) ∷ []) rest
Apart-step k d before [] h apart = tt
Apart-step k d before ((j, e) ∷ rest) h apart = elim (Bool-cases (j =? k)) [
  | inl same ↦ absurd (cc (rw (lookup-at j k e rest same) at h))
  | inr other ↦ (
    lookup-append j before ((k, d) ∷ [])
        ∙ rw apart.0 (lookup-there k j d [] (=?_comm k j ∙ other) ∙ lookup-nil j),
    Apart-step k d before rest (sym (lookup-there j k e rest other) ∙ h) apart.1,
  )
]
  where
    lookup-at :
        (j k : Text) (e : SchemaDef) (rest : Table SchemaDef)
        → (j =? k) ≡ true
        → lookup k ((j, e) ∷ rest) ≡ some e
    lookup-at j k e rest same = rw (← (=?_iff j k).0 same) (lookup-here j e rest)

Apart-nil : (defs : Table SchemaDef) → Apart [] defs
Apart-nil [] = tt
Apart-nil ((k, d) ∷ rest) = (lookup-nil k, Apart-nil rest)

lift-eq-ok {ℓ} : {A : Type ℓ} (m : Fallible A) {a : A} → lift m ≡ ok a → m ≡ done a
lift-eq-ok (done a) e = cc
lift-eq-ok (failed message) e = cc

module _ (mp : Msgpack) (ext : Externals) (laws : MsgpackLaws mp)
    (marshals : MarshalLaws mp ext) where
  read_def_table-exported :
      (defs before : Table SchemaDef) (bs rest : Bytes)
      → Apart before defs
      → DistinctKeys defs
      → marshal_entries mp ext (exported defs) ≡ ok bs
      → read_def_table mp (length defs) before (bs ++ rest) ≡ ok (before ++ defs, rest)
  unfolding read_def_table marshal_entries
  read_def_table-exported [] before bs rest apart keys e = rw (← ok-injective e, append-nil) refl
  read_def_table-exported ((k, d) ∷ defs) before bs rest apart keys e =
      let (key, e₁, k₁) = >>=-eq-ok (lift (mp.encode_string k)) _ e in
      let (value, e₂, k₂) = >>=-eq-ok (ext.marshal (wire_schema d)) _ k₁ in
      let (others, e₃, k₃) = >>=-eq-ok (marshal_entries mp ext (exported defs)) _ k₂ in
      let split : bs ++ rest ≡ key ++ (value ++ (others ++ rest)) = rw (← ok-injective k₃) (
        append_assoc key (value ++ others) rest
        ∙ ap (λ x. key ++ x) (append_assoc value others rest)) in
      let name =
        laws.string_back k key (value ++ (others ++ rest)) (lift-eq-ok (mp.encode_string k) e₁) in
      let def =
        decode_schema_def-write_schema_def mp laws d value (others ++ rest)
          (sym (marshals.marshal_wire_schema d) ∙ e₂) in
      let more =
        read_def_table-exported defs (before ++ (k, d) ∷ []) others rest
          (Apart-step k d before defs keys.0 apart.1) keys.1 e₃ in
      rw (split, name, def)
        (rw (insert-eq-append k d before apart.0)
          (more ∙ ap (λ t. ok (t, rest)) (append_assoc before ((k, d) ∷ []) defs)))

  -- The definitions of a namespace arrive as they are, in their order, when a table of them is packed
  -- by the default codec and read by the client's decoder; the table has no key twice, and the
  -- packages keep their laws.
  pub decode_namespace_schema_payload-exported :
      (flate : FlateLaws ext) (defs : Table SchemaDef) (raw : Bytes)
      → DistinctKeys defs
      → default_encode_payload ext (dict (exported defs)) ≡ ok raw
      → decode_namespace_schema_payload mp ext raw ≡ ok defs
  unfolding default_encode_payload decode_namespace_schema_payload decode_schema_def_map
  decode_namespace_schema_payload-exported flate defs raw keys e =
      let (packed, e₁, k₁) = >>=-eq-ok (ext.marshal (dict (exported defs))) _ e in
      let (head, e₂, k₂) =
        >>=-eq-ok (lift (mp.encode_map_len (count_entries (exported defs)))) _
          (sym (marshals.marshal_dict (exported defs)) ∙ e₁) in
      let (body, e₃, k₃) = >>=-eq-ok (marshal_entries mp ext (exported defs)) _ k₂ in
      let len =
        laws.map_back (count_entries (exported defs)) head body
          (lift-eq-ok (mp.encode_map_len (count_entries (exported defs))) e₂) in
      let table =
        rw append-nil at (read_def_table-exported defs [] body [] (Apart-nil defs) keys e₃) in
      rw (flate.inflate_deflate packed raw k₁, ← ok-injective k₃, len, count_entries-exported defs)
        (rw table refl)
