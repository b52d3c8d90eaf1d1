-- ===== src/Protocol/Schema/Encode.antt =====
-- computeSize and encodeValue of protocol/schema.go.
use bit_socket_go.Base.{
  ℕ, suc, ◌+◌, ◌%◌, ◌^◌, Text, Bytes, List, [], ◌∷◌, ◌++◌, length, get_elem?, wrap, if◌then◌else◌,
  Option, none, some, Outcome, ok, panic, err, unsupported_type, invalid_definition, ◌>>=◌, or_stop,
}
use bit_socket_go.Protocol.Types.{
  SchemaDef, FieldDefs, tag, array, object, invalid, no_fields, field, Kind, kind_of, uint8, uint16,
  uint32, int32, float64, boolean, string, bytes, unsupported, Value, Items, Entries, null, nil,
  cons, Externals,
}
use bit_socket_go.Protocol.Coerce.{
  to_uint64, to_int64, to_float64, to_bool, to_string_val, to_bytes_val, to_slice, to_map,
  get_entry,
}
use bit_socket_go.Protocol.Words.{put_uint16, put_uint32, put_uint64}
use bit_socket_go.Protocol.Schema.Buffer.{Writer, put, copy_in}

abbrev pub Queue : Type 0
Queue = List Bytes

-- `len(arr)`.
abbrev pub count : Items → ℕ
count nil = 0
count (cons x xs) = suc (count xs)

-- `var fv interface{}; if obj != nil { fv = obj[f.Key] }`.
unfoldable pub field_value : Option Entries → Text → Value
unfolding get_entry
field_value none k = null
field_value (some es) k = get_entry k es

-- The loop over an array's elements, and the step for each.
unfoldable pub size_items :
    (Value → Queue → Outcome (ℕ × Queue)) → Items → ℕ → Queue → Outcome (ℕ × Queue)
size_items f nil size queue = ok (size, queue)
size_items f (cons x xs) size queue = do (s, queue') ← f x queue; size_items f xs (size + s) queue'

unfoldable pub write_items : (Value → Writer → Outcome Writer) → Items → Writer → Outcome Writer
write_items f nil w = ok w
write_items f (cons x xs) w = do w' ← f x w; write_items f xs w'

-- `enc := queue[qi.idx]; qi.idx++`, then the length and the bytes.
unfoldable pub write_queued : Queue → Writer → Outcome Writer
write_queued queue w = do
  enc ← or_stop (get_elem? queue w.idx) panic
  w' ← put (put_uint32 (length enc % 2 ^ 32)) (record w { idx = w.idx + 1 })
  copy_in enc w'

module _ (ext : Externals) where
  unfoldable pub size_tag : Kind → Text → Value → Queue → Outcome (ℕ × Queue)
  size_tag uint8 t v queue = ok (1, queue)
  size_tag boolean t v queue = ok (1, queue)
  size_tag uint16 t v queue = ok (2, queue)
  size_tag uint32 t v queue = ok (4, queue)
  size_tag int32 t v queue = ok (4, queue)
  size_tag float64 t v queue = ok (8, queue)
  size_tag string t v queue = let b = to_string_val v in ok (4 + length b, queue ++ b ∷ [])
  size_tag bytes t v queue = ok (4 + length (to_bytes_val v), queue)
  size_tag unsupported t v queue = err (unsupported_type t)
  size_tag _ t v queue = do packed ← ext.marshal v; ok (4 + length packed, queue ++ packed ∷ [])

  unfoldable mutual
    pub compute_size : SchemaDef → Value → Queue → Outcome (ℕ × Queue)
    compute_size (tag t) v queue = size_tag (kind_of t) t v queue
    compute_size (array e) v queue = size_items (compute_size e) (to_slice v) 4 queue
    compute_size (object fs) v queue = size_fields fs (to_map v) 0 queue
    compute_size invalid v queue = err invalid_definition

    pub size_fields : FieldDefs → Option Entries → ℕ → Queue → Outcome (ℕ × Queue)
    size_fields no_fields obj size queue = ok (size, queue)
    size_fields (field k t fs) obj size queue = do
      (s, queue') ← compute_size t (field_value obj k) queue
      size_fields fs obj (size + s) queue'

  unfoldable pub write_tag : Kind → Value → Queue → Writer → Outcome Writer
  unfolding write_queued
  write_tag uint8 v queue w = put ((to_uint64 ext v % 2 ^ 8) ∷ []) w
  write_tag boolean v queue w = put ((if to_bool v then 1 else 0) ∷ []) w
  write_tag uint16 v queue w = put (put_uint16 (to_uint64 ext v % 2 ^ 16)) w
  write_tag uint32 v queue w = put (put_uint32 (to_uint64 ext v % 2 ^ 32)) w
  write_tag int32 v queue w = put (put_uint32 (wrap (2 ^ 32) (to_int64 ext v))) w
  write_tag float64 v queue w = put (put_uint64 (to_float64 ext v)) w
  write_tag bytes v queue w = do
    w' ← put (put_uint32 (length (to_bytes_val v) % 2 ^ 32)) w
    copy_in (to_bytes_val v) w'
  write_tag unsupported v queue w = ok w
  write_tag _ v queue w = write_queued queue w

  unfoldable mutual
    pub encode_value : SchemaDef → Value → Queue → Writer → Outcome Writer
    encode_value (tag t) v queue w = write_tag (kind_of t) v queue w
    encode_value (array e) v queue w = do
      w' ← put (put_uint32 (count (to_slice v) % 2 ^ 32)) w
      write_items (λ x. encode_value e x queue) (to_slice v) w'
    encode_value (object fs) v queue w = write_fields fs (to_map v) queue w
    encode_value invalid v queue w = ok w

    pub write_fields : FieldDefs → Option Entries → Queue → Writer → Outcome Writer
    write_fields no_fields obj queue w = ok w
    write_fields (field k t fs) obj queue w = do
      w' ← encode_value t (field_value obj k) queue w
      write_fields fs obj queue w'
