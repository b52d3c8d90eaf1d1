-- ===== src/Protocol/Schema/Decode.antt =====
-- decodeValue of protocol/schema.go. Nothing there checks a bound: a read outside the slice panics.
use bit_socket_go.Base.{
  ℕ, zero, suc, ◌+◌, ◌^◌, signed_of, not, ◌==◌, Text, Bytes, Outcome, ok, err, unsupported_type,
  invalid_definition, ◌>>=◌,
}
use bit_socket_go.Protocol.Types.{
  SchemaDef, FieldDefs, tag, array, object, invalid, no_fields, field, Kind, kind_of, uint8, uint16,
  uint32, int32, float64, boolean, string, bytes, unsupported, Value, Items, Entries, signed,
  unsigned, float64_bits, bool, str, blob, slice, dict, nil, cons, end, w8, w16, w32, Externals,
}
use bit_socket_go.Protocol.Coerce.{set_entry}
use bit_socket_go.Protocol.Words.{Slice, index, tail_from, sub_slice}
use bit_socket_go.Protocol.Words

-- `binary.BigEndian.Uint32(buf[off.offset:])`.
unfoldable pub read_uint32 : Slice → ℕ → Outcome ℕ
read_uint32 s off = do rest ← tail_from s off; Words.uint32 rest.items

-- A length prefix, and as many bytes of the slice.
unfoldable pub read_prefixed : Slice → ℕ → Outcome (Bytes × ℕ)
read_prefixed s off = do n ← read_uint32 s off; bs ← sub_slice s (off + 4) n; ok (bs, off + 4 + n)

-- `for i := 0; i < n; i++`.
unfoldable pub read_items : (ℕ → Outcome (Value × ℕ)) → ℕ → ℕ → Outcome (Items × ℕ)
read_items f zero off = ok (nil, off)
read_items f (suc n) off = do
  (x, off') ← f off
  (xs, off'') ← read_items f n off'
  ok (cons x xs, off'')

module _ (ext : Externals) where
  unfoldable pub read_tag : Kind → Text → Slice → ℕ → Outcome (Value × ℕ)
  read_tag uint8 t s off = do b ← index s off; ok (unsigned w8 b, off + 1)
  read_tag boolean t s off = do b ← index s off; ok (bool (not (b == 0)), off + 1)
  read_tag uint16 t s off = do
    rest ← tail_from s off
    n ← Words.uint16 rest.items
    ok (unsigned w16 n, off + 2)
  read_tag uint32 t s off = do n ← read_uint32 s off; ok (unsigned w32 n, off + 4)
  read_tag int32 t s off = do n ← read_uint32 s off; ok (signed w32 (signed_of (2 ^ 31) n), off + 4)
  read_tag float64 t s off = do
    rest ← tail_from s off
    n ← Words.uint64 rest.items
    ok (float64_bits n, off + 8)
  read_tag string t s off = do (bs, off') ← read_prefixed s off; ok (str bs, off')
  read_tag bytes t s off = do (bs, off') ← read_prefixed s off; ok (blob bs, off')
  read_tag unsupported t s off = err (unsupported_type t)
  read_tag _ t s off = do (bs, off') ← read_prefixed s off; v ← ext.unmarshal bs; ok (v, off')

  unfoldable mutual
    pub decode_value : SchemaDef → Slice → ℕ → Outcome (Value × ℕ)
    decode_value (tag t) s off = read_tag (kind_of t) t s off
    decode_value (array e) s off = do
      n ← read_uint32 s off
      (xs, off') ← read_items (decode_value e s) n (off + 4)
      ok (slice xs, off')
    decode_value (object fs) s off = do (es, off') ← read_fields fs end s off; ok (dict es, off')
    decode_value invalid s off = err invalid_definition

    pub read_fields : FieldDefs → Entries → Slice → ℕ → Outcome (Entries × ℕ)
    read_fields no_fields obj s off = ok (obj, off)
    read_fields (field k t fs) obj s off = do
      (v, off') ← decode_value t s off
      read_fields fs (set_entry k v obj) s off'
