-- ===== src/Protocol/SchemaWire/RoundTrip.antt =====
-- decodeSchemaDef of protocol/schema_wire.go on what writeSchemaDef wrote.
use bit_socket_go.Base.{
  ℕ, zero, suc, max, ◌+◌, ◌≤◌, ◌<◌, ◌≡◌, refl, ◌∙◌, arith, ℤ, pos, true, false, Text, Bytes, [],
  ◌++◌, append_assoc, append-nil, length, length-append, Fallible, done, failed, lift, Outcome, ok,
  ◌>>=◌, >>=-eq-ok,
}
use bit_socket_go.Protocol.Types.{
  SchemaDef, FieldDefs, tag, array, object, invalid, no_fields, field,
}
use bit_socket_go.Protocol.SchemaWire.{
  Msgpack, field_count, write_schema_def, write_field_defs, is_text_code, is_array_code,
  is_map_code, capacity, rounds, read_field_defs, read_by_code, read_schema_def, decode_schema_def,
}

-- What the code relies on of the msgpack package: a decoder reads back what the encoder wrote, before
-- anything that follows, by a code of its own kind, and takes a byte at least.
pub record MsgpackLaws (mp : Msgpack) : Type 0 where
  pub string_back :
      (t : Text) (bs rest : Bytes)
      → mp.encode_string t ≡ done bs
      → mp.decode_string (bs ++ rest) ≡ done (t, rest)
  pub string_code :
      (t : Text) (bs rest : Bytes)
      → mp.encode_string t ≡ done bs
      → (c : ℕ) × (mp.peek_code (bs ++ rest) ≡ done c) × (is_text_code mp c ≡ true)
  pub array_back :
      (n : ℕ) (bs rest : Bytes)
      → mp.encode_array_len n ≡ done bs
      → mp.decode_array_len (bs ++ rest) ≡ done (pos n, rest)
  pub array_code :
      (n : ℕ) (bs rest : Bytes)
      → mp.encode_array_len n ≡ done bs
      → (c : ℕ) × (mp.peek_code (bs ++ rest) ≡ done c)
        × (is_text_code mp c ≡ false)
        × (is_array_code mp c ≡ true)
  pub map_back :
      (n : ℕ) (bs rest : Bytes)
      → mp.encode_map_len n ≡ done bs
      → mp.decode_map_len (bs ++ rest) ≡ done (pos n, rest)
  pub map_code :
      (n : ℕ) (bs rest : Bytes)
      → mp.encode_map_len n ≡ done bs
      → (c : ℕ) × (mp.peek_code (bs ++ rest) ≡ done c)
        × (is_text_code mp c ≡ false)
        × (is_array_code mp c ≡ false)
        × (is_map_code mp c ≡ true)
  pub map_counts :
      (bs rest : Bytes) (c : ℕ) (n : ℤ)
      → mp.peek_code bs ≡ done c
      → is_map_code mp c ≡ true
      → mp.decode_map_len bs ≡ done (n, rest)
      → capacity n ≡ ok (rounds n)
  pub array_takes :
      (bs rest : Bytes) (n : ℤ) → mp.decode_array_len bs ≡ done (n, rest) → length rest < length bs
  pub map_takes :
      (bs rest : Bytes) (n : ℤ) → mp.decode_map_len bs ≡ done (n, rest) → length rest < length bs
  pub string_takes :
      (bs rest : Bytes) (t : Text) → mp.decode_string bs ≡ done (t, rest) → length rest < length bs

ok-injective : {a b : Bytes} → ◌≡◌ {A = Outcome Bytes} (ok a) (ok b) → a ≡ b
ok-injective e = cc

lift-eq-ok {ℓ} : {A : Type ℓ} (m : Fallible A) {a : A} → lift m ≡ ok a → m ≡ done a
lift-eq-ok (done a) e = cc
lift-eq-ok (failed message) e = cc

-- The levels of a definition.
abbrev mutual
  pub depth : SchemaDef → ℕ
  depth (tag t) = 0
  depth (array e) = suc (depth e)
  depth (object fs) = suc (depth_fields fs)
  depth invalid = 0

  pub depth_fields : FieldDefs → ℕ
  depth_fields no_fields = 0
  depth_fields (field k t fs) = max (depth t) (depth_fields fs)

module _ (mp : Msgpack) where
  read_step :
      (fuel : ℕ) (bs : Bytes)
      → read_schema_def mp (suc fuel) bs
        ≡ (lift (mp.peek_code bs) >>= λ code. read_by_code mp (read_schema_def mp fuel) code bs)
  unfolding read_schema_def
  read_step fuel bs = refl

  read_none :
      (f : Bytes → Outcome (SchemaDef × Bytes)) (bs : Bytes)
      → read_field_defs mp f 0 bs ≡ ok (no_fields, bs)
  unfolding read_field_defs
  read_none f bs = refl

-- A part of a definition as the reader meets it, with any reader of the parts inside it.
module _ (mp : Msgpack) (laws : MsgpackLaws mp) (f : Bytes → Outcome (SchemaDef × Bytes)) where
  abbrev next : Bytes → Outcome (SchemaDef × Bytes)
  next bs = lift (mp.peek_code bs) >>= λ code. read_by_code mp f code bs

  next_text :
      (t : Text) (bs rest : Bytes)
      → mp.encode_string t ≡ done bs
      → next (bs ++ rest) ≡ ok (tag t, rest)
  unfolding read_by_code
  next_text t bs rest e =
      let (c, peek, is_text) = laws.string_code t bs rest e in
      rw (peek, is_text, laws.string_back t bs rest e)

  next_array :
      (head bs rest : Bytes) (d : SchemaDef)
      → mp.encode_array_len 1 ≡ done head
      → f bs ≡ ok (d, rest)
      → next (head ++ bs) ≡ ok (array d, rest)
  unfolding read_by_code
  next_array head bs rest d e inner =
      let (c, peek, not_text, is_array) = laws.array_code 1 head bs e in
      rw (peek, not_text, is_array, laws.array_back 1 head bs e, inner)

  next_object :
      (head bs rest : Bytes) (fs : FieldDefs)
      → mp.encode_map_len (field_count fs) ≡ done head
      → read_field_defs mp f (field_count fs) bs ≡ ok (fs, rest)
      → next (head ++ bs) ≡ ok (object fs, rest)
  unfolding read_by_code
  next_object head bs rest fs e inner =
      let (c, peek, not_text, not_array, is_map) = laws.map_code (field_count fs) head bs e in
      rw (peek, not_text, not_array, is_map, laws.map_back (field_count fs) head bs e, inner)

  read_field :
      (k : Text) (key bs₁ bs₂ rest : Bytes) (d : SchemaDef) (fs : FieldDefs)
      → mp.encode_string k ≡ done key
      → f bs₁ ≡ ok (d, bs₂)
      → read_field_defs mp f (field_count fs) bs₂ ≡ ok (fs, rest)
      → read_field_defs mp f (suc (field_count fs)) (key ++ bs₁) ≡ ok (field k d fs, rest)
  unfolding read_field_defs
  read_field k key bs₁ bs₂ rest d fs e first others =
      rw (laws.string_back k key bs₁ e, first) (rw others)

module _ (mp : Msgpack) (laws : MsgpackLaws mp) where
  mutual
    unfolding write_schema_def

    def-back :
        (d : SchemaDef) (fuel : ℕ) (bs rest : Bytes)
        → write_schema_def mp d ≡ ok bs
        → depth d < fuel
        → read_schema_def mp fuel (bs ++ rest) ≡ ok (d, rest)
    def-back d zero bs rest e h = absurd (omega arith)
    def-back (tag t) (suc fuel) bs rest e h =
        read_step mp fuel (bs ++ rest)
        ∙ next_text mp laws _ t bs rest (lift-eq-ok (mp.encode_string t) e)
    def-back (array d) (suc fuel) bs rest e h =
        let (head, e₁, k₁) = >>=-eq-ok (lift (mp.encode_array_len 1)) _ e in
        let (body, e₂, k₂) = >>=-eq-ok (write_schema_def mp d) _ k₁ in
        rw (← ok-injective k₂, append_assoc)
          (read_step mp fuel (head ++ (body ++ rest))
            ∙ next_array mp laws _ head (body ++ rest) rest d
                (lift-eq-ok (mp.encode_array_len 1) e₁)
                (def-back d fuel body rest e₂ (omega arith)))
    def-back (object fs) (suc fuel) bs rest e h =
        let (head, e₁, k₁) = >>=-eq-ok (lift (mp.encode_map_len (field_count fs))) _ e in
        let (body, e₂, k₂) = >>=-eq-ok (write_field_defs mp fs) _ k₁ in
        rw (← ok-injective k₂, append_assoc)
          (read_step mp fuel (head ++ (body ++ rest))
            ∙ next_object mp laws _ head (body ++ rest) rest fs
                (lift-eq-ok (mp.encode_map_len (field_count fs)) e₁)
                (fields-back fs fuel body rest e₂ (omega arith)))
    def-back invalid (suc fuel) bs rest e h = cc

    fields-back :
        (fs : FieldDefs) (fuel : ℕ) (bs rest : Bytes)
        → write_field_defs mp fs ≡ ok bs
        → depth_fields fs < fuel
        → read_field_defs mp (read_schema_def mp fuel) (field_count fs) (bs ++ rest) ≡ ok (fs, rest)
    fields-back no_fields fuel bs rest e h =
        rw (← ok-injective e) (read_none mp (read_schema_def mp fuel) rest)
    fields-back (field k d fs) fuel bs rest e h =
        let (key, e₁, k₁) = >>=-eq-ok (lift (mp.encode_string k)) _ e in
        let (def, e₂, k₂) = >>=-eq-ok (write_schema_def mp d) _ k₁ in
        let (body, e₃, k₃) = >>=-eq-ok (write_field_defs mp fs) _ k₂ in
        rw (← ok-injective k₃, append_assoc, append_assoc)
          (read_field mp laws _ k key (def ++ (body ++ rest)) (body ++ rest) rest d fs
            (lift-eq-ok (mp.encode_string k) e₁)
            (def-back d fuel def (body ++ rest) e₂ (omega arith))
            (fields-back fs fuel body rest e₃ (omega arith)))

  array_head : (n : ℕ) (head : Bytes) → mp.encode_array_len n ≡ done head → 0 < length head
  array_head n head e =
      rw append-nil at (laws.array_takes (head ++ []) [] (pos n) (laws.array_back n head [] e))

  map_head : (n : ℕ) (head : Bytes) → mp.encode_map_len n ≡ done head → 0 < length head
  map_head n head e =
      rw append-nil at (laws.map_takes (head ++ []) [] (pos n) (laws.map_back n head [] e))

  mutual
    unfolding write_schema_def

    depth-le : (d : SchemaDef) (bs : Bytes) → write_schema_def mp d ≡ ok bs → depth d ≤ length bs
    depth-le (tag t) bs e = omega arith
    depth-le (array d) bs e =
        let (head, e₁, k₁) = >>=-eq-ok (lift (mp.encode_array_len 1)) _ e in
        let (body, e₂, k₂) = >>=-eq-ok (write_schema_def mp d) _ k₁ in
        rw (← ok-injective k₂) (
          omega (
            arith,
            length-append head body,
            array_head 1 head (lift-eq-ok (mp.encode_array_len 1) e₁),
            depth-le d body e₂,
          ))
    depth-le (object fs) bs e =
        let (head, e₁, k₁) = >>=-eq-ok (lift (mp.encode_map_len (field_count fs))) _ e in
        let (body, e₂, k₂) = >>=-eq-ok (write_field_defs mp fs) _ k₁ in
        rw (← ok-injective k₂) (
          omega (
            arith,
            length-append head body,
            map_head (field_count fs) head (lift-eq-ok (mp.encode_map_len (field_count fs)) e₁),
            depth_fields-le fs body e₂,
          ))
    depth-le invalid bs e = omega arith

    depth_fields-le :
        (fs : FieldDefs) (bs : Bytes) → write_field_defs mp fs ≡ ok bs → depth_fields fs ≤ length bs
    depth_fields-le no_fields bs e = omega arith
    depth_fields-le (field k d fs) bs e =
        let (key, e₁, k₁) = >>=-eq-ok (lift (mp.encode_string k)) _ e in
        let (def, e₂, k₂) = >>=-eq-ok (write_schema_def mp d) _ k₁ in
        let (body, e₃, k₃) = >>=-eq-ok (write_field_defs mp fs) _ k₂ in
        rw (← ok-injective k₃) (
          omega (
            arith,
            length-append key (def ++ body),
            length-append def body,
            depth-le d def e₂,
            depth_fields-le fs body e₃,
          ))

  -- With a msgpack package that keeps its laws, a definition that was written is read back whole, the order of its fields included, and what
  -- follows it is left.
  pub decode_schema_def-write_schema_def :
      (d : SchemaDef) (bs rest : Bytes)
      → write_schema_def mp d ≡ ok bs
      → decode_schema_def mp (bs ++ rest) ≡ ok (d, rest)
  unfolding decode_schema_def
  decode_schema_def-write_schema_def d bs rest e =
      def-back d (length (bs ++ rest) + 1) bs rest e
        (omega (arith, length-append bs rest, depth-le d bs e))
