-- ===== src/Protocol/Coerce.antt =====
-- protocol/coerce.go: the permissive conversions that the schema encoder applies to dynamic values.
use bit_socket_go.Base.{
  ℕ, ◌^◌, ℤ, pos, wrap, signed_of, Bool, false, Text, Bytes, ◌=?◌, Option, none, some, [],
  if◌then◌else◌,
}
use bit_socket_go.Protocol.Types.{
  Value, Items, Entries, null, signed, unsigned, float32_bits, float64_bits, bool, str, blob, slice,
  dict, nil, end, entry, Externals,
}

module _ (ext : Externals) where
  -- Every integer type goes through `uint64(t)`, which wraps; a type that is not a number gives 0.
  unfoldable pub to_uint64 : Value → ℕ
  to_uint64 (signed w z) = wrap (2 ^ 64) z
  to_uint64 (unsigned w n) = n
  to_uint64 (float32_bits b) = ext.float32_to_uint64 b
  to_uint64 (float64_bits b) = ext.float64_to_uint64 b
  to_uint64 _ = 0

  unfoldable pub to_int64 : Value → ℤ
  to_int64 (signed w z) = z
  to_int64 (unsigned w n) = signed_of (2 ^ 63) n
  to_int64 (float32_bits b) = ext.float32_to_int64 b
  to_int64 (float64_bits b) = ext.float64_to_int64 b
  to_int64 _ = pos 0

  -- The bit pattern of the result; that of 0 is 0.
  unfoldable pub to_float64 : Value → ℕ
  to_float64 (float32_bits b) = ext.float32_to_float64 b
  to_float64 (float64_bits b) = b
  to_float64 (signed w z) = ext.int_to_float64 z
  to_float64 (unsigned w n) = ext.int_to_float64 (pos n)
  to_float64 _ = 0

unfoldable pub to_bool : Value → Bool
to_bool (bool b) = b
to_bool _ = false

unfoldable pub to_string_val : Value → Text
to_string_val (str s) = s
to_string_val _ = []

unfoldable pub to_bytes_val : Value → Bytes
to_bytes_val (blob b) = b
to_bytes_val _ = []

-- The nil slice is the empty one.
unfoldable pub to_slice : Value → Items
to_slice (slice xs) = xs
to_slice _ = nil

-- `none` is the nil map.
unfoldable pub to_map : Value → Option Entries
to_map (dict es) = some es
to_map _ = none

-- `m[k]` of a `map[string]interface{}`: nil where the key is missing.
unfoldable pub get_entry : Text → Entries → Value
get_entry k end = null
get_entry k (entry j v es) = if j =? k then v else get_entry k es

-- `m[k] = v`.
unfoldable pub set_entry : Text → Value → Entries → Entries
set_entry k v end = entry k v end
set_entry k v (entry j w es) = if j =? k then entry k v es else entry j w (set_entry k v es)
