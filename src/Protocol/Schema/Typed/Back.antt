-- ===== src/Protocol/Schema/Typed/Back.antt =====
-- Values of a definition's type through EncodePayload and DecodePayload of protocol/schema.go.
use bit_socket_go.Base.{
  ◌%◌, ◌<◌, ◌^◌, ◌≡◌, refl, sym, ap, ◌∙◌, arith, signed_of-wrap, Text, Bytes, [], ◌++◌, length,
  some, ok, ◌>>=◌,
}
use bit_socket_go.Protocol.Types.{
  SchemaDef, FieldDefs, tag, array, object, invalid, no_fields, field, Kind, kind_of, uint8, uint16,
  uint32, int32, float64, boolean, string, bytes, object_any, array_any, any, unsupported, Value,
  Items, Entries, signed, unsigned, nil, cons, end, entry, w8, w16, w32, Externals,
}
use bit_socket_go.Protocol.Coerce.{
  to_uint64, to_int64, to_float64, to_bool, to_string_val, to_bytes_val, to_slice, to_map,
}
use bit_socket_go.Protocol.Words.{put_uint32}
use bit_socket_go.Protocol.Schema.{encode_payload, decode_payload}
use bit_socket_go.Protocol.Schema.Encode.{count, field_value}
use bit_socket_go.Protocol.Schema.Layout.{layout, layout_fields, layout_items, layout_tag, prefixed}
use bit_socket_go.Protocol.Schema.Agree.Passes.{encode_payload-eq-layout}
use bit_socket_go.Protocol.Schema.RoundTrip.{
  back_tag, read_back, back_fields, back_items, AllItems, IsShort, FitsTag, Fits, FitsFields,
}
use bit_socket_go.Protocol.Schema.RoundTrip.Values.{decode_payload-encode_payload}
use bit_socket_go.Protocol.Schema.Typed.{HasKind, HasType, HasFields, IsKeyed, KeyedFields}
use bit_socket_go.Protocol.Schema.Typed.Entry.{
  append_entries, append_entries-end, Fresh, set_entry-Absent, get_entry-append_entries,
  append_entries_step, Fresh-append_entries, Fresh-end,
}

module _ (ext : Externals) where
  -- The msgpack package gives the value back, and its bytes fit a length prefix.
  abbrev pub Survives : Value → Type 0
  Survives v = (p : Bytes) × (ext.marshal v ≡ ok p) × (ext.unmarshal p ≡ ok v) × (length p < 2 ^ 32)

  -- What is to hold of a part: it can be laid out, its lengths fit, and it is read back as it was.
  abbrev Whole : (d : SchemaDef) (v : Value) → Type 0
  Whole d v = ((bs : Bytes) × (layout ext d v ≡ ok bs)) × Fits ext d v × (read_back ext d v ≡ ok v)

  dynamic-Whole :
      (v : Value)
      → Survives v
      → ((bs : Bytes) × ((ext.marshal v >>= λ packed. ok (prefixed packed)) ≡ ok bs))
        × IsShort (ext.marshal v)
        × ((ext.marshal v >>= ext.unmarshal) ≡ ok v)
  dynamic-Whole v (p, packs, back, short) = rw packs ((prefixed p, refl), short, back)

  kind-Whole :
      (k : Kind) (t : Text) (v : Value)
      → HasKind Survives k v
      → ((bs : Bytes) × (layout_tag ext k t v ≡ ok bs))
        × FitsTag ext k v
        × (back_tag ext k t v ≡ ok v)
  unfolding layout_tag back_tag to_uint64 to_int64 to_float64 to_bool to_string_val to_bytes_val
  kind-Whole uint8 t v (n, is, small) =
      rw is ((_, refl), tt, ap (λ m. ok (unsigned w8 m)) (omega arith))
  kind-Whole uint16 t v (n, is, small) =
      rw is ((_, refl), tt, ap (λ m. ok (unsigned w16 m)) (omega arith))
  kind-Whole uint32 t v (n, is, small) =
      rw is ((_, refl), tt, ap (λ m. ok (unsigned w32 m)) (omega arith))
  kind-Whole int32 t v (z, is, small) =
      rw is ((_, refl), tt, ap (λ m. ok (signed w32 m)) (signed_of-wrap z small))
  kind-Whole float64 t v (n, is, small) = rw is ((_, refl), small, refl)
  kind-Whole boolean t v (b, is) = rw is ((_, refl), tt, refl)
  kind-Whole string t v (x, is, small) = rw is ((_, refl), small, refl)
  kind-Whole bytes t v (x, is, small) = rw is ((_, refl), small, refl)
  kind-Whole unsupported t v h = absurd h
  kind-Whole object_any t v h = dynamic-Whole v h
  kind-Whole array_any t v h = dynamic-Whole v h
  kind-Whole any t v h = dynamic-Whole v h

  items-Whole :
      (e : SchemaDef) (xs : Items)
      → ((v : Value) → HasType Survives e v → Whole e v)
      → AllItems (HasType Survives e) xs
      → ((bs : Bytes) × (layout_items (layout ext e) xs ≡ ok bs))
        × AllItems (Fits ext e) xs
        × (back_items (read_back ext e) xs ≡ ok xs)
  unfolding layout_items back_items
  items-Whole e nil each h = (([], refl), tt, refl)
  items-Whole e (cons x xs) each h =
      let ((b, lays), fits, back) = each x h.0 in
      let ((bs, lays_all), fit_all, back_all) = items-Whole e xs each h.1 in
      ((b ++ bs, rw (lays, lays_all) refl), (fits, fit_all), rw (back, back_all) refl)

  mutual
    unfolding layout read_back to_slice to_map field_value

    value-Whole : (d : SchemaDef) (v : Value) → IsKeyed d → HasType Survives d v → Whole d v
    value-Whole (tag t) v keyed h = kind-Whole (kind_of t) t v h
    value-Whole (array e) v keyed (xs, is, few, each) =
        let ((bs, lays), fits, back) = items-Whole e xs (λ x h. value-Whole e x keyed h) each in
        rw is ((put_uint32 (count xs % 2 ^ 32) ++ bs, rw lays refl), (few, fits), rw back refl)
    value-Whole (object fs) v keyed (es, is, each) =
        let ((bs, lays), fits, back) = fields-Whole fs es end keyed (Fresh-end fs) each in
        rw is ((bs, lays), fits, rw back refl)
    value-Whole invalid v keyed h = absurd h

    -- The entries from `es` on are those of the fields; `before` are those of the fields before.
    fields-Whole :
        (fs : FieldDefs) (es before : Entries)
        → KeyedFields fs
        → Fresh fs before
        → HasFields Survives fs es
        → ((bs : Bytes) × (layout_fields ext fs (some (append_entries before es)) ≡ ok bs))
          × FitsFields ext fs (some (append_entries before es))
          × (back_fields ext fs (some (append_entries before es)) before
              ≡ ok (append_entries before es))
    fields-Whole no_fields end before keyed fresh h =
        (([], refl), tt, ap ok (sym (append_entries-end before)))
    fields-Whole no_fields (entry j v es) before keyed fresh h = absurd h
    fields-Whole (field k t fs) end before keyed fresh h = absurd h
    fields-Whole (field k t fs) (entry j v es) before keyed fresh (same, typed, others) =
        let all = append_entries before (entry k v es) in
        let found = get_entry-append_entries k v before es fresh.0 in
        let ((b, lays), fits, back) = value-Whole t v keyed.0 typed in
        let ((bs, lays_all), fit_all, back_all) = rw (append_entries_step k v before es) at (
          fields-Whole fs es (append_entries before (entry k v end)) keyed.2
            (Fresh-append_entries k v fs before keyed.1 fresh.1) others) in
        rw same (
          (b ++ bs, rw (found, lays, lays_all) refl),
          (rw found fits, fit_all),
          rw (found, back, set_entry-Absent k v before fresh.0) back_all,
        )

  -- A value of a definition's type can be encoded, and decoding it gives back the very value, at the
  -- front of any slice and with any spare room behind it; the definition's objects have no field
  -- twice, and a dynamic field holds a value that msgpack gives back.
  pub decode_payload-encode_payload_typed :
      (d : SchemaDef) (v : Value)
      → IsKeyed d
      → HasType Survives d v
      → (bs : Bytes) × (encode_payload ext d v ≡ ok bs)
        × ((post spare : Bytes)
            → decode_payload ext d (record { items = bs ++ post; spare = spare }) ≡ ok v)
  decode_payload-encode_payload_typed d v keyed typed =
      let ((bs, lays), fits, back) = value-Whole d v keyed typed in
      let made = encode_payload-eq-layout ext d v ∙ lays in
      (bs, made, λ post spare. decode_payload-encode_payload ext d v bs post spare fits made ∙ back)
