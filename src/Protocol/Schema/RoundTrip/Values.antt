-- ===== src/Protocol/Schema/RoundTrip/Values.antt =====
-- decodeValue of protocol/schema.go on what encodeValue wrote, for every definition and value.
use bit_socket_go.Base.{
  ℕ, ◌+◌, ◌%◌, ◌<◌, ◌^◌, ◌≡◌, refl, sym, ap, ◌∙◌, arith, Bytes, ◌++◌, append_assoc, length,
  length-append, drop, drop-add, Option, Outcome, ok, stop, ◌>>=◌, >>=-eq-ok,
}
use bit_socket_go.Protocol.Types.{
  SchemaDef, FieldDefs, tag, array, object, invalid, no_fields, field, kind_of, Value, Items,
  Entries, slice, dict, nil, cons, end, Externals,
}
use bit_socket_go.Protocol.Coerce.{to_slice, to_map, set_entry}
use bit_socket_go.Protocol.Words.{Slice, put_uint32, length-put_uint32}
use bit_socket_go.Protocol.Schema.{encode_payload, decode_payload}
use bit_socket_go.Protocol.Schema.Encode.{count, field_value}
use bit_socket_go.Protocol.Schema.Decode.{read_uint32, read_items, decode_value, read_fields}
use bit_socket_go.Protocol.Schema.Layout.{layout_items, layout, layout_fields}
use bit_socket_go.Protocol.Schema.Agree.Passes.{encode_payload-eq-layout}
use bit_socket_go.Protocol.Schema.RoundTrip.{
  back_items, read_back, back_fields, AllItems, Fits, FitsFields,
}
use bit_socket_go.Protocol.Schema.RoundTrip.Reads.{
  Reads, Reads-seq, Reads-map, Reads-nothing, Reads-stop, ok-injective,
}
use bit_socket_go.Protocol.Schema.RoundTrip.Tags.{tag-Reads}
use bit_socket_go.Protocol.Schema.RoundTrip.Leaves.{read_uint32-held}

items-Reads :
    (f : Value → Outcome Bytes) (read : Slice → ℕ → Outcome (Value × ℕ))
    (back : Value → Outcome Value) (P : Value → Type 0)
    → ((v : Value) → P v → Reads read (back v) (f v))
    → (xs : Items) → AllItems P xs
    → Reads (λ s. read_items (read s) (count xs)) (back_items back xs) (layout_items f xs)
unfolding read_items back_items layout_items
items-Reads f read back P h nil all = Reads-nothing nil
items-Reads f read back P h (cons x xs) all =
    Reads-seq (f x) (layout_items f xs) read
      (λ y s off. read_items (read s) (count xs) off >>= λ (ys, o). ok (cons y ys, o)) (back x)
      (λ y. back_items back xs >>= λ ys. ok (cons y ys)) (h x all.0)
      (λ y.
        Reads-map (cons y) (layout_items f xs) (λ s. read_items (read s) (count xs))
          (back_items back xs) (items-Reads f read back P h xs all.1))

after_count :
    (n : ℕ) (rest b : Bytes) (s : Slice) (off : ℕ)
    → drop off s.items ≡ put_uint32 (n % 2 ^ 32) ++ rest
    → (drop (off + 4) s.items ≡ rest)
      × (off + length (put_uint32 (n % 2 ^ 32) ++ b) ≡ off + 4 + length b)
after_count n rest b s off e =
    let four = length-put_uint32 (n % 2 ^ 32) in
    (
      rw (← four) (drop-add off s.items (put_uint32 (n % 2 ^ 32)) rest e),
      omega (arith, four, length-append (put_uint32 (n % 2 ^ 32)) b),
    )

value_part : (r : Outcome Value) (n : ℕ) → (r >>= (λ v. ok (v, n)) >>= λ (v, o). ok v) ≡ r
value_part (ok v) n = refl
value_part (stop t) n = refl

-- The number of elements in front, and the elements.
array-Reads :
    (n : ℕ) (body : Outcome Bytes) (read : Slice → ℕ → Outcome (Value × ℕ)) (back : Outcome Items)
    → n < 2 ^ 32
    → Reads (λ s. read_items (read s) n) back body
    → Reads
        (λ s off. do
          m ← read_uint32 s off
          (xs, o) ← read_items (read s) m (off + 4)
          ok (slice xs, o))
        (back >>= λ xs. ok (slice xs))
        (body >>= λ bs. ok (put_uint32 (n % 2 ^ 32) ++ bs))
array-Reads n body read back h inner bs e s off post held =
    let (b, e₂, k) = >>=-eq-ok body _ e in
    let whole = ok-injective k in
    let size : n % 2 ^ 32 ≡ n = omega arith in
    let front =
      held ∙ ap (λ x. x ++ post) (sym whole) ∙ append_assoc (put_uint32 (n % 2 ^ 32)) b post in
    let (behind, length_bs) = after_count n (b ++ post) b s off front in
    rw
      (
        read_uint32-held s off (n % 2 ^ 32) (b ++ post) (omega arith) front,
        size,
        ← whole,
        length_bs,
      )
      (Reads-map slice body (λ s'. read_items (read s') n) back inner b e₂ s (off + 4) post behind)

module _ (ext : Externals) where
  mutual
    unfolding decode_value read_back layout

    value-Reads :
        (d : SchemaDef) (v : Value)
        → Fits ext d v
        → Reads (decode_value ext d) (read_back ext d v) (layout ext d v)
    value-Reads (tag t) v fits = tag-Reads ext (kind_of t) t v fits
    value-Reads (array e) v fits =
        array-Reads (count (to_slice v)) (layout_items (layout ext e) (to_slice v))
          (decode_value ext e) (back_items (read_back ext e) (to_slice v)) fits.0
          (items-Reads (layout ext e) (decode_value ext e) (read_back ext e) (Fits ext e)
            (value-Reads e) (to_slice v) fits.1)
    value-Reads (object fs) v fits =
        Reads-map dict (layout_fields ext fs (to_map v)) (read_fields ext fs end)
          (back_fields ext fs (to_map v) end) (fields-Reads fs (to_map v) end fits)
    value-Reads invalid v fits = Reads-stop _ (read_back ext invalid v) _

    fields-Reads :
        (fs : FieldDefs) (obj : Option Entries) (done : Entries)
        → FitsFields ext fs obj
        → Reads (read_fields ext fs done) (back_fields ext fs obj done) (layout_fields ext fs obj)
    fields-Reads no_fields obj done fits = Reads-nothing done
    fields-Reads (field k t fs) obj done fits =
        Reads-seq (layout ext t (field_value obj k)) (layout_fields ext fs obj) (decode_value ext t)
          (λ y. read_fields ext fs (set_entry k y done)) (read_back ext t (field_value obj k))
          (λ y. back_fields ext fs obj (set_entry k y done))
          (value-Reads t (field_value obj k) fits.0)
          (λ y. fields-Reads fs obj (set_entry k y done) fits.1)

  -- Decoding an encoded payload whose lengths fit their prefixes gives back the value as the definition keeps it, at the front of any
  -- slice and with any spare room behind it.
  pub decode_payload-encode_payload :
      (d : SchemaDef) (v : Value) (bs post spare : Bytes)
      → Fits ext d v
      → encode_payload ext d v ≡ ok bs
      → decode_payload ext d (record { items = bs ++ post; spare = spare }) ≡ read_back ext d v
  unfolding decode_payload
  decode_payload-encode_payload d v bs post spare fits e =
      rw
        (value-Reads d v fits bs (sym (encode_payload-eq-layout ext d v) ∙ e)
          (record { items = bs ++ post; spare = spare }) 0 post refl)
        (value_part (read_back ext d v) (0 + length bs))
