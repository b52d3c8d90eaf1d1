-- ===== src/Protocol/Schema/Layout.antt =====
-- The wire format that the comment on Schema in protocol/schema.go describes, in one pass and with
-- no buffer: a reference for the encoder.
use bit_socket_go.Base.{
  ◌+◌, ◌%◌, ◌^◌, ◌≡◌, Text, Bytes, [], ◌∷◌, ◌++◌, length, length-append, arith, wrap, if◌then◌else◌,
  Option, Outcome, ok, err, unsupported_type, invalid_definition, ◌>>=◌,
}
use bit_socket_go.Protocol.Types.{
  SchemaDef, FieldDefs, tag, array, object, invalid, no_fields, field, Kind, kind_of, uint8, uint16,
  uint32, int32, float64, boolean, string, bytes, unsupported, Value, Items, Entries, nil, cons,
  Externals,
}
use bit_socket_go.Protocol.Coerce.{
  to_uint64, to_int64, to_float64, to_bool, to_string_val, to_bytes_val, to_slice, to_map,
}
use bit_socket_go.Protocol.Words.{put_uint16, put_uint32, put_uint64, length-put_uint32}
use bit_socket_go.Protocol.Schema.Encode.{count, field_value}

-- The 4-byte length prefix.
abbrev pub length_word : Bytes → Bytes
length_word bs = put_uint32 (length bs % 2 ^ 32)

-- The prefix and the bytes.
abbrev pub prefixed : Bytes → Bytes
prefixed bs = length_word bs ++ bs

pub length-prefixed : (bs : Bytes) → length (prefixed bs) ≡ 4 + length bs
length-prefixed bs =
    omega (arith, length-append (length_word bs) bs, length-put_uint32 (length bs % 2 ^ 32))

unfoldable pub layout_items : (Value → Outcome Bytes) → Items → Outcome Bytes
layout_items f nil = ok []
layout_items f (cons x xs) = do b ← f x; bs ← layout_items f xs; ok (b ++ bs)

module _ (ext : Externals) where
  unfoldable pub layout_tag : Kind → Text → Value → Outcome Bytes
  layout_tag uint8 t v = ok ((to_uint64 ext v % 2 ^ 8) ∷ [])
  layout_tag boolean t v = ok ((if to_bool v then 1 else 0) ∷ [])
  layout_tag uint16 t v = ok (put_uint16 (to_uint64 ext v % 2 ^ 16))
  layout_tag uint32 t v = ok (put_uint32 (to_uint64 ext v % 2 ^ 32))
  layout_tag int32 t v = ok (put_uint32 (wrap (2 ^ 32) (to_int64 ext v)))
  layout_tag float64 t v = ok (put_uint64 (to_float64 ext v))
  layout_tag string t v = ok (prefixed (to_string_val v))
  layout_tag bytes t v = ok (prefixed (to_bytes_val v))
  layout_tag unsupported t v = err (unsupported_type t)
  layout_tag _ t v = do packed ← ext.marshal v; ok (prefixed packed)

  unfoldable mutual
    pub layout : SchemaDef → Value → Outcome Bytes
    layout (tag t) v = layout_tag (kind_of t) t v
    layout (array e) v = do
      bs ← layout_items (layout e) (to_slice v)
      ok (put_uint32 (count (to_slice v) % 2 ^ 32) ++ bs)
    layout (object fs) v = layout_fields fs (to_map v)
    layout invalid v = err invalid_definition

    pub layout_fields : FieldDefs → Option Entries → Outcome Bytes
    layout_fields no_fields obj = ok []
    layout_fields (field k t fs) obj = do
      b ← layout t (field_value obj k)
      bs ← layout_fields fs obj
      ok (b ++ bs)
