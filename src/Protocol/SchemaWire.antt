-- ===== src/Protocol/SchemaWire.antt =====
-- protocol/schema_wire.go: schema definitions as msgpack, with the order of the fields kept. The
-- streaming encoder and decoder of the msgpack package are a parameter.
pub mod RoundTrip
pub mod Fuel
pub mod Tables
use bit_socket_go.Base.{
  ℕ, zero, suc, ◌+◌, ◌*◌, ℤ, pos, negsuc, Bool, true, false, ◌||◌, ◌==◌, if◌then◌else◌, Text, Bytes,
  [], ◌∷◌, ◌++◌, length, Table, insert, Fallible, lift, Outcome, ok, stop, err, error, panic,
  exhausted, invalid_definition, invalid_array, unsupported_code, ◌>>=◌, ◌>>◌, guard,
}
use bit_socket_go.Protocol.Types.{
  SchemaDef, FieldDefs, tag, array, object, invalid, no_fields, field, Externals,
}

-- `msgpack.Encoder` as the bytes that a call appends, `msgpack.Decoder` as a function of the bytes
-- that are left, and what the code uses of `msgpcode`.
pub record Msgpack : Type 0 where
  pub encode_string : Text → Fallible Bytes
  pub encode_array_len : ℕ → Fallible Bytes
  pub encode_map_len : ℕ → Fallible Bytes
  pub peek_code : Bytes → Fallible ℕ
  pub decode_string : Bytes → Fallible (Text × Bytes)
  pub decode_array_len : Bytes → Fallible (ℤ × Bytes)
  pub decode_map_len : Bytes → Fallible (ℤ × Bytes)
  pub is_string : ℕ → Bool
  pub is_bin : ℕ → Bool
  pub is_fixed_array : ℕ → Bool
  pub is_fixed_map : ℕ → Bool
  pub array16 : ℕ
  pub array32 : ℕ
  pub map16 : ℕ
  pub map32 : ℕ

-- `len(t.Fields)`.
abbrev pub field_count : FieldDefs → ℕ
field_count no_fields = 0
field_count (field k t fs) = suc (field_count fs)

-- A loop up to a negative length makes no round.
abbrev pub rounds : ℤ → ℕ
rounds (pos n) = n
rounds (negsuc n) = 0

-- `make([]FieldDef, 0, n)` panics on a negative length.
abbrev pub capacity : ℤ → Outcome ℕ
capacity (pos n) = ok n
capacity (negsuc n) = stop panic

abbrev pub is_one : ℤ → Bool
is_one (pos n) = n == 1
is_one (negsuc n) = false

module _ (mp : Msgpack) where
  unfoldable mutual
    pub write_schema_def : SchemaDef → Outcome Bytes
    write_schema_def (tag t) = lift (mp.encode_string t)
    write_schema_def (array e) = do
      head ← lift (mp.encode_array_len 1)
      rest ← write_schema_def e
      ok (head ++ rest)
    write_schema_def (object fs) = do
      head ← lift (mp.encode_map_len (field_count fs))
      rest ← write_field_defs fs
      ok (head ++ rest)
    write_schema_def invalid = err invalid_definition

    pub write_field_defs : FieldDefs → Outcome Bytes
    write_field_defs no_fields = ok []
    write_field_defs (field k t fs) = do
      key ← lift (mp.encode_string k)
      def ← write_schema_def t
      rest ← write_field_defs fs
      ok (key ++ (def ++ rest))

  abbrev pub is_text_code : ℕ → Bool
  is_text_code c = mp.is_string c || mp.is_bin c

  abbrev pub is_array_code : ℕ → Bool
  is_array_code c = mp.is_fixed_array c || (c == mp.array16 || c == mp.array32)

  abbrev pub is_map_code : ℕ → Bool
  is_map_code c = mp.is_fixed_map c || (c == mp.map16 || c == mp.map32)

  -- The loop over the fields of a definition, and the reader of their types.
  unfoldable pub read_field_defs :
      (Bytes → Outcome (SchemaDef × Bytes)) → ℕ → Bytes → Outcome (FieldDefs × Bytes)
  read_field_defs f zero bs = ok (no_fields, bs)
  read_field_defs f (suc n) bs = do
    (key, bs₁) ← lift (mp.decode_string bs)
    (def, bs₂) ← f bs₁
    (fs, bs₃) ← read_field_defs f n bs₂
    ok (field key def fs, bs₃)

  -- The cases on the code that comes next, with the reader of the parts.
  unfoldable pub read_by_code :
      (Bytes → Outcome (SchemaDef × Bytes)) → ℕ → Bytes → Outcome (SchemaDef × Bytes)
  read_by_code f code bs =
      if is_text_code code
      then (do (t, rest) ← lift (mp.decode_string bs); ok (tag t, rest))
      else if is_array_code code
      then (do
        (n, bs₁) ← lift (mp.decode_array_len bs)
        guard (is_one n) (error invalid_array)
        (def, rest) ← f bs₁
        ok (array def, rest))
      else if is_map_code code
      then (do
        (n, bs₁) ← lift (mp.decode_map_len bs)
        count ← capacity n
        (fs, rest) ← read_field_defs f count bs₁
        ok (object fs, rest))
      else err (unsupported_code code)

  -- The fuel bounds the depth of the calls.
  unfoldable pub read_schema_def : ℕ → Bytes → Outcome (SchemaDef × Bytes)
  read_schema_def zero bs = stop exhausted
  read_schema_def (suc fuel) bs = do
    code ← lift (mp.peek_code bs)
    read_by_code (read_schema_def fuel) code bs

  -- Every level of a definition takes a byte, so this is enough.
  unfoldable pub decode_schema_def : Bytes → Outcome (SchemaDef × Bytes)
  decode_schema_def bs = read_schema_def (length bs + 1) bs

  unfoldable pub read_def_table : ℕ → Table SchemaDef → Bytes → Outcome (Table SchemaDef × Bytes)
  read_def_table zero out bs = ok (out, bs)
  read_def_table (suc n) out bs = do
    (key, bs₁) ← lift (mp.decode_string bs)
    (def, bs₂) ← decode_schema_def bs₁
    read_def_table n (insert key def out) bs₂

  unfoldable pub decode_schema_def_map : Bytes → Outcome (Table SchemaDef × Bytes)
  decode_schema_def_map bs = do
    (n, bs₁) ← lift (mp.decode_map_len bs)
    read_def_table (rounds n) [] bs₁

  unfoldable pub decode_namespace_schema_payload : Externals → Bytes → Outcome (Table SchemaDef)
  decode_namespace_schema_payload ext raw = do
    inflated ← ext.inflate raw
    (table, rest) ← decode_schema_def_map inflated
    ok table

  unfoldable pub read_root_table :
      ℕ → Table (Table SchemaDef) → Bytes → Outcome (Table (Table SchemaDef) × Bytes)
  read_root_table zero out bs = ok (out, bs)
  read_root_table (suc n) out bs = do
    (key, bs₁) ← lift (mp.decode_string bs)
    (inner, bs₂) ← decode_schema_def_map bs₁
    read_root_table n (insert key inner out) bs₂

  unfoldable pub decode_root_schema_payload : Externals → Bytes → Outcome (Table (Table SchemaDef))
  decode_root_schema_payload ext raw = do
    inflated ← ext.inflate raw
    (n, bs) ← lift (mp.decode_map_len inflated)
    (table, rest) ← read_root_table (rounds n) [] bs
    ok table
