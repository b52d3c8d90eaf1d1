-- ===== src/Tests/Packages.antt =====
-- A world whose msgpack also packs strings, maps and definitions.
use bit_socket_go.Base.{
  ◌≡◌, refl, ◌==◌, true, false, if◌then◌else◌, Bytes, [], ◌∷◌, ◌++◌, text, Outcome, ok, err,
  external, lift, ◌>>=◌,
}
use bit_socket_go.Protocol.Types.{
  Value, Entries, null, bool, str, dict, wire_schema, end, entry, Externals,
}
use bit_socket_go.Protocol.SchemaWire.{write_schema_def}
use bit_socket_go.Protocol.SchemaWire.Tables.{count_entries, marshal_entries, MarshalLaws}
use bit_socket_go.Protocol.Frame.RoundTrip.{FlateLaws}
use bit_socket_go.Tests.{world}
use bit_socket_go.Tests.Wire.{pack}

abbrev mutual
  pack_value : Value → Outcome Bytes
  pack_value null = ok (192 ∷ [])
  pack_value (bool false) = ok (194 ∷ [])
  pack_value (bool true) = ok (195 ∷ [])
  pack_value (str t) = lift (pack.encode_string t)
  pack_value (dict es) = lift (pack.encode_map_len (count_entries es)) >>= λ head.
      pack_entries es >>= λ rest. ok (head ++ rest)
  pack_value (wire_schema d) = write_schema_def pack d
  pack_value _ = err (external (text "type"))

  pack_entries : Entries → Outcome Bytes
  pack_entries end = ok []
  pack_entries (entry k v es) = do
    key ← lift (pack.encode_string k)
    value ← pack_value v
    rest ← pack_entries es
    ok (key ++ (value ++ rest))

-- Of maps, those with one string.
abbrev unpack_value : Bytes → Outcome Value
unpack_value [] = err (external (text "EOF"))
unpack_value (c ∷ cs) =
    if c == 129
    then (do
      (key, bs) ← lift (pack.decode_string cs)
      (t, rest) ← lift (pack.decode_string bs)
      ok (dict (entry key (str t) end)))
    else world.unmarshal (c ∷ cs)

abbrev pub packing : Externals
packing = record world { marshal = pack_value; unmarshal = unpack_value }

marshal_entries-packing : (es : Entries) → marshal_entries pack packing es ≡ pack_entries es
unfolding marshal_entries
marshal_entries-packing end = refl
marshal_entries-packing (entry k v es) = rw (marshal_entries, marshal_entries-packing es) refl

pub packing_marshals : MarshalLaws pack packing
packing_marshals = record {
  marshal_dict = λ es. rw (marshal_entries-packing es) refl;
  marshal_wire_schema = λ d. refl;
}

one_byte : {bs : Bytes} → ◌≡◌ {A = Outcome Bytes} (ok (1 ∷ bs)) (ok []) → ⊥
one_byte e = cc

same_bytes : {a b : Bytes} → ◌≡◌ {A = Outcome Bytes} (ok a) (ok b) → a ≡ b
same_bytes e = cc

pub packing_flate : FlateLaws packing
packing_flate = record {
  inflate_deflate = λ raw packed e. rw (← same_bytes e) refl;
  deflate_ne = λ raw e. one_byte e;
}
