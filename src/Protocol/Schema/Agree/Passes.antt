-- ===== src/Protocol/Schema/Agree/Passes.antt =====
-- computeSize, encodeValue and EncodePayload of protocol/schema.go against the reference.
use bit_socket_go.Base.{
  ℕ, ◌+◌, ◌≤◌, ◌%◌, ◌^◌, ◌≡◌, refl, sym, ap, arith, Text, Bytes, [], ◌∷◌, ◌++◌, append-nil, length,
  length-replicate, drop_all, replicate, drop, Option, Outcome, ok, stop, ◌>>=◌,
}
use bit_socket_go.Protocol.Types.{
  SchemaDef, FieldDefs, tag, array, object, invalid, no_fields, field, Kind, kind_of, uint8, uint16,
  uint32, int32, float64, boolean, string, bytes, unsupported, Value, Items, Entries, nil, cons,
  Externals,
}
use bit_socket_go.Protocol.Coerce.{to_bytes_val, to_string_val, to_slice, to_map}
use bit_socket_go.Protocol.Words.{length-put_uint32, put_uint16, put_uint32, put_uint64}
use bit_socket_go.Protocol.Schema.{encode_payload}
use bit_socket_go.Protocol.Schema.Buffer.{Writer}
use bit_socket_go.Protocol.Schema.Encode.{
  Queue, count, field_value, size_items, write_items, size_tag, write_tag, write_queued,
  compute_size, encode_value, size_fields, write_fields,
}
use bit_socket_go.Protocol.Schema.Layout.{prefixed, layout_items, layout_tag, layout, layout_fields}
use bit_socket_go.Protocol.Schema.Agree.{
  Agrees, good, bad, Writes-nothing, Agrees-seq, Agrees-put, Agrees-header, Agrees-direct,
  Agrees-queued,
}

items-Agrees :
    (size : Value → Queue → Outcome (ℕ × Queue)) (write : Value → Queue → Writer → Outcome Writer)
    (ref : Value → Outcome Bytes)
    → ((v : Value) → Agrees 0 (size v) (write v) (ref v))
    → (xs : Items) (base : ℕ)
    → Agrees base
        (size_items size xs base)
        (λ q. write_items (λ x. write x q) xs)
        (layout_items ref xs)
unfolding size_items write_items layout_items
items-Agrees size write ref h nil base =
    good base [] (omega arith) (λ queue. rw append-nil) Writes-nothing
items-Agrees size write ref h (cons x xs) base =
    Agrees-seq (size_items size xs) (h x) (λ n. items-Agrees size write ref h xs (base + n))

dynamic-Agrees :
    (r : Outcome Bytes)
    → Agrees 0
        (λ q. r >>= λ packed. ok (4 + length packed, q ++ packed ∷ []))
        write_queued
        (r >>= λ packed. ok (prefixed packed))
dynamic-Agrees (ok packed) = Agrees-queued packed
dynamic-Agrees (stop s) = bad (λ queue. refl)

room : (n : ℕ) (bs : Bytes) → n ≡ 0 + length bs → length bs ≤ length (replicate {A = ℕ} n 0)
room n bs e = omega (arith, length-replicate {A = ℕ} n 0)

left : (n : ℕ) (bs : Bytes) → n ≡ 0 + length bs → drop (length bs) (replicate {A = ℕ} n 0) ≡ []
left n bs e = drop_all (length bs) (replicate n 0) (omega (arith, length-replicate {A = ℕ} n 0))

module _ (ext : Externals) where
  tag-Agrees :
      (k : Kind) (t : Text) (v : Value)
      → Agrees 0 (size_tag ext k t v) (write_tag ext k v) (layout_tag ext k t v)
  unfolding size_tag write_tag layout_tag put_uint16 put_uint32 put_uint64
  tag-Agrees uint8 t v = Agrees-put 1 _ refl
  tag-Agrees boolean t v = Agrees-put 1 _ refl
  tag-Agrees uint16 t v = Agrees-put 2 _ refl
  tag-Agrees uint32 t v = Agrees-put 4 _ refl
  tag-Agrees int32 t v = Agrees-put 4 _ refl
  tag-Agrees float64 t v = Agrees-put 8 _ refl
  tag-Agrees string t v = Agrees-queued (to_string_val v)
  tag-Agrees bytes t v = Agrees-direct (to_bytes_val v)
  tag-Agrees unsupported t v = bad (λ queue. refl)
  tag-Agrees _ t v = dynamic-Agrees (ext.marshal v)

  mutual
    unfolding compute_size encode_value layout

    value-Agrees :
        (d : SchemaDef) (v : Value)
        → Agrees 0 (compute_size ext d v) (encode_value ext d v) (layout ext d v)
    value-Agrees (tag t) v = tag-Agrees (kind_of t) t v
    value-Agrees (array e) v =
        Agrees-header (put_uint32 (count (to_slice v) % 2 ^ 32)) (length-put_uint32 _) (
          items-Agrees (compute_size ext e) (encode_value ext e) (layout ext e) (value-Agrees e)
            (to_slice v) 4)
    value-Agrees (object fs) v = fields-Agrees fs (to_map v) 0
    value-Agrees invalid v = bad (λ queue. refl)

    fields-Agrees :
        (fs : FieldDefs) (obj : Option Entries) (base : ℕ)
        → Agrees base
            (size_fields ext fs obj base)
            (write_fields ext fs obj)
            (layout_fields ext fs obj)
    fields-Agrees no_fields obj base =
        good base [] (omega arith) (λ queue. rw append-nil) Writes-nothing
    fields-Agrees (field k t fs) obj base =
        Agrees-seq (size_fields ext fs obj) (value-Agrees t (field_value obj k))
          (λ n. fields-Agrees fs obj (base + n))

  payload-Agrees :
      (d : SchemaDef) (v : Value) {r : Outcome Bytes}
      → Agrees 0 (compute_size ext d v) (encode_value ext d v) r
      → encode_payload ext d v ≡ r
  unfolding encode_payload
  payload-Agrees d v (good {bs} n qs e sizes writes) =
      rw
        (
          sizes [],
          writes qs [] [] (replicate n 0) 0 (sym (append-nil qs)) (room n bs e),
          left n bs e,
        )
        (ap ok (append-nil bs))
  payload-Agrees d v (bad stops) = rw (stops [])

  -- The two-pass encoder gives what the documented layout gives, byte for byte, and stops where it
  -- stops, with the same error: the buffer is exactly filled and no write falls outside it.
  pub encode_payload-eq-layout :
      (d : SchemaDef) (v : Value) → encode_payload ext d v ≡ layout ext d v
  encode_payload-eq-layout d v = payload-Agrees d v (value-Agrees d v)
