-- ===== src/Protocol/Schema/RoundTrip.antt =====
-- What decodeValue of protocol/schema.go gives back for a payload that encodeValue wrote: the
-- value after the encoder's coercions, and the sizes within which the length prefixes hold.
pub mod Reads
pub mod Leaves
pub mod Tags
pub mod Values
use bit_socket_go.Base.{
  ℕ, ◌+◌, ◌%◌, ◌<◌, ◌^◌, signed_of, wrap, Text, Bytes, length, Option, Outcome, ok, stop, err,
  unsupported_type, invalid_definition, ◌>>=◌,
}
use bit_socket_go.Protocol.Types.{
  SchemaDef, FieldDefs, tag, array, object, invalid, no_fields, field, Kind, kind_of, uint8, uint16,
  uint32, int32, float64, boolean, string, bytes, object_any, array_any, any, unsupported, Value,
  Items, Entries, signed, unsigned, float64_bits, bool, str, blob, slice, dict, nil, cons, end, w8,
  w16, w32, Externals,
}
use bit_socket_go.Protocol.Coerce.{
  to_uint64, to_int64, to_float64, to_bool, to_string_val, to_bytes_val, to_slice, to_map,
  set_entry,
}
use bit_socket_go.Protocol.Schema.Encode.{count, field_value}

unfoldable pub back_items : (Value → Outcome Value) → Items → Outcome Items
back_items f nil = ok nil
back_items f (cons x xs) = do y ← f x; ys ← back_items f xs; ok (cons y ys)

abbrev pub AllItems : (Value → Type 0) → Items → Type 0
AllItems P nil = Unit {0}
AllItems P (cons x xs) = P x × AllItems P xs

abbrev pub IsShort : Outcome Bytes → Type 0
IsShort (ok bs) = length bs < 2 ^ 32
IsShort (stop s) = Unit {0}

module _ (ext : Externals) where
  -- Integers are cut to the field's width, a value of a wrong type is the zero value, and a dynamic
  -- value comes back as the msgpack package gives it back.
  unfoldable pub back_tag : Kind → Text → Value → Outcome Value
  back_tag uint8 t v = ok (unsigned w8 (to_uint64 ext v % 2 ^ 8))
  back_tag boolean t v = ok (bool (to_bool v))
  back_tag uint16 t v = ok (unsigned w16 (to_uint64 ext v % 2 ^ 16))
  back_tag uint32 t v = ok (unsigned w32 (to_uint64 ext v % 2 ^ 32))
  back_tag int32 t v = ok (signed w32 (signed_of (2 ^ 31) (wrap (2 ^ 32) (to_int64 ext v))))
  back_tag float64 t v = ok (float64_bits (to_float64 ext v))
  back_tag string t v = ok (str (to_string_val v))
  back_tag bytes t v = ok (blob (to_bytes_val v))
  back_tag unsupported t v = err (unsupported_type t)
  back_tag _ t v = ext.marshal v >>= ext.unmarshal

  unfoldable mutual
    pub read_back : SchemaDef → Value → Outcome Value
    read_back (tag t) v = back_tag (kind_of t) t v
    read_back (array e) v = back_items (read_back e) (to_slice v) >>= λ xs. ok (slice xs)
    read_back (object fs) v = back_fields fs (to_map v) end >>= λ es. ok (dict es)
    read_back invalid v = err invalid_definition

    pub back_fields : FieldDefs → Option Entries → Entries → Outcome Entries
    back_fields no_fields obj done = ok done
    back_fields (field k t fs) obj done = do
      y ← read_back t (field_value obj k)
      back_fields fs obj (set_entry k y done)

  -- Every length prefix holds its length, and a float's bits are 64.
  abbrev pub FitsTag : Kind → Value → Type 0
  FitsTag float64 v = to_float64 ext v < 2 ^ 64
  FitsTag string v = length (to_string_val v) < 2 ^ 32
  FitsTag bytes v = length (to_bytes_val v) < 2 ^ 32
  FitsTag object_any v = IsShort (ext.marshal v)
  FitsTag array_any v = IsShort (ext.marshal v)
  FitsTag any v = IsShort (ext.marshal v)
  FitsTag _ v = Unit {0}

  abbrev mutual
    pub Fits : SchemaDef → Value → Type 0
    Fits (tag t) v = FitsTag (kind_of t) v
    Fits (array e) v = (count (to_slice v) < 2 ^ 32) × AllItems (Fits e) (to_slice v)
    Fits (object fs) v = FitsFields fs (to_map v)
    Fits invalid v = Unit {0}

    pub FitsFields : FieldDefs → Option Entries → Type 0
    FitsFields no_fields obj = Unit {0}
    FitsFields (field k t fs) obj = Fits t (field_value obj k) × FitsFields fs obj
