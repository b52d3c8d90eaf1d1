-- ===== src/Protocol/Schema/Typed/Decoded.antt =====
-- The type of what DecodePayload of protocol/schema.go gives, on any bytes.
use bit_socket_go.Base.{
  ℕ, zero, suc, ◌+◌, ◌<◌, ◌^◌, ◌≡◌, refl, sym, ap, ◌∙◌, arith, signed_of, InRange, Text, Bool-cases,
  ltb, not, ◌==◌, inl, inr, Outcome, ok, >>=-eq-ok,
}
use bit_socket_go.Protocol.Types.{
  SchemaDef, FieldDefs, tag, array, object, invalid, no_fields, field, Kind, kind_of, uint8, uint16,
  uint32, int32, float64, boolean, string, bytes, unsupported, Value, Entries, end, entry,
  Externals,
}
use bit_socket_go.Protocol.Words.{AreBytes, Slice, index, tail_from, sub_slice}
use bit_socket_go.Protocol.Words
use bit_socket_go.Protocol.Schema.{decode_payload}
use bit_socket_go.Protocol.Schema.Decode.{
  read_uint32, read_prefixed, read_items, read_tag, decode_value, read_fields,
}
use bit_socket_go.Protocol.Schema.Encode.{count}
use bit_socket_go.Protocol.Schema.RoundTrip.{AllItems}
use bit_socket_go.Protocol.Schema.Typed.{HasKind, HasType, HasFields, IsKeyed, KeyedFields}
use bit_socket_go.Protocol.Schema.Typed.Bounds.{
  fst_of, word, tail_from-AreBytes, uint16-lt, uint64-lt, read_uint32-lt, index-lt,
  read_prefixed-lt,
}
use bit_socket_go.Protocol.Schema.Typed.Entry.{
  append_entries, append_entries-end, Fresh, set_entry-Absent, append_entries_step,
  Fresh-append_entries, Fresh-end,
}

-- The value of a read, when it has one, satisfies `P`.
abbrev Yields : {A : Type 0} → (A → Type 0) → Outcome (A × ℕ) → Type 0
Yields {A} P r = (a : A) (off : ℕ) → r ≡ ok (a, off) → P a

abbrev Anything : Value → Type 0
Anything v = Unit {0}

signed_of-InRange : (n : ℕ) → n < 2 ^ 32 → InRange (2 ^ 31) (signed_of (2 ^ 31) n)
signed_of-InRange n h = elim (Bool-cases (ltb n (2 ^ 31))) [
  | inl low ↦ rw low (ground arith)
  | inr high ↦ rw high (ground arith)
]

module _ (ext : Externals) (s : Slice) (hb : AreBytes s.items) where
  kind-Yields :
      (k : Kind) (t : Text) (off : ℕ) → Yields (HasKind Anything k) (read_tag ext k t s off)
  unfolding read_tag
  kind-Yields uint8 t off v off' e =
      let (b, e₁, k₁) = >>=-eq-ok (index s off) _ e in (b, sym (fst_of k₁), index-lt s off b hb e₁)
  kind-Yields boolean t off v off' e =
      let (b, e₁, k₁) = >>=-eq-ok (index s off) _ e in (not (b == 0), sym (fst_of k₁))
  kind-Yields uint16 t off v off' e =
      let (r, e₁, k₁) = >>=-eq-ok (tail_from s off) _ e in
      let (n, e₂, k₂) = >>=-eq-ok (Words.uint16 r.items) _ k₁ in
      (n, sym (fst_of k₂), uint16-lt r.items n (tail_from-AreBytes s r off hb e₁) e₂)
  kind-Yields uint32 t off v off' e =
      let (n, e₁, k₁) = >>=-eq-ok (read_uint32 s off) _ e in
      (n, sym (fst_of k₁), read_uint32-lt s off n hb e₁)
  kind-Yields int32 t off v off' e =
      let (n, e₁, k₁) = >>=-eq-ok (read_uint32 s off) _ e in
      (signed_of (2 ^ 31) n, sym (fst_of k₁), signed_of-InRange n (read_uint32-lt s off n hb e₁))
  kind-Yields float64 t off v off' e =
      let (r, e₁, k₁) = >>=-eq-ok (tail_from s off) _ e in
      let (n, e₂, k₂) = >>=-eq-ok (Words.uint64 r.items) _ k₁ in
      (n, sym (fst_of k₂), uint64-lt r.items n (tail_from-AreBytes s r off hb e₁) e₂)
  kind-Yields string t off v off' e =
      let ((bs, o), e₁, k₁) = >>=-eq-ok (read_prefixed s off) _ e in
      (bs, sym (fst_of k₁), read_prefixed-lt s off o bs hb e₁)
  kind-Yields bytes t off v off' e =
      let ((bs, o), e₁, k₁) = >>=-eq-ok (read_prefixed s off) _ e in
      (bs, sym (fst_of k₁), read_prefixed-lt s off o bs hb e₁)
  kind-Yields unsupported t off v off' e = absurd (cc)
  kind-Yields _ t off v off' e = tt

  items-Yields :
      (P : Value → Type 0) (f : ℕ → Outcome (Value × ℕ)) (n off : ℕ)
      → ((o : ℕ) → Yields P (f o))
      → Yields (λ xs. (count xs ≡ n) × AllItems P xs) (read_items f n off)
  unfolding read_items
  items-Yields P f zero off h xs off' e = rw (← fst_of e) (refl, tt)
  items-Yields P f (suc n) off h xs off' e =
      let ((y, o), e₁, k₁) = >>=-eq-ok (f off) _ e in
      let ((ys, o'), e₂, k₂) = >>=-eq-ok (read_items f n o) _ k₁ in
      let (len, all) = items-Yields P f n o h ys o' e₂ in
      rw (← fst_of k₂) (ap suc len, (h off y o e₁, all))

  mutual
    unfolding decode_value read_fields

    value-Yields :
        (d : SchemaDef) (off : ℕ)
        → IsKeyed d
        → Yields (HasType Anything d) (decode_value ext d s off)
    value-Yields (tag t) off keyed v off' h = kind-Yields (kind_of t) t off v off' h
    value-Yields (array e) off keyed v off' h =
        let (n, e₁, k₁) = >>=-eq-ok (read_uint32 s off) _ h in
        let ((xs, o), e₂, k₂) = >>=-eq-ok (read_items (decode_value ext e s) n (off + 4)) _ k₁ in
        let (len, all) =
          items-Yields (HasType Anything e) (decode_value ext e s) n (off + 4)
            (λ o. value-Yields e o keyed) xs o e₂ in
        (xs, sym (fst_of k₂), omega (arith, len, read_uint32-lt s off n hb e₁), all)
    value-Yields (object fs) off keyed v off' h =
        let ((es, o), e₁, k₁) = >>=-eq-ok (read_fields ext fs end s off) _ h in
        let (new, is, typed) = fields-Yields fs end off keyed (Fresh-end fs) es o e₁ in
        (es, sym (fst_of k₁), rw is typed)
    value-Yields invalid off keyed v off' h = absurd (cc)

    fields-Yields :
        (fs : FieldDefs) (before : Entries) (off : ℕ)
        → KeyedFields fs
        → Fresh fs before
        → Yields
            (λ es. (new : Entries) × (es ≡ append_entries before new) × HasFields Anything fs new)
            (read_fields ext fs before s off)
    fields-Yields no_fields before off keyed fresh es off' h =
        (end, sym (fst_of h) ∙ sym (append_entries-end before), tt)
    fields-Yields (field k t fs) before off keyed fresh es off' h =
        let ((v, o), e₁, k₁) = >>=-eq-ok (decode_value ext t s off) _ h in
        let moved = rw (set_entry-Absent k v before fresh.0) at k₁ in
        let (new, is, typed) =
          fields-Yields fs (append_entries before (entry k v end)) o keyed.2
            (Fresh-append_entries k v fs before keyed.1 fresh.1) es off' moved in
        (
          entry k v new,
          is ∙ append_entries_step k v before new,
          (refl, value-Yields t off keyed.0 v o e₁, typed),
        )

-- Whatever bytes a payload has, if it is decoded, its value has the definition's type: numbers within
-- their width, and for each field of an object an entry of the field's type, and no other entry. The
-- definition's objects have no field twice; of a dynamic field nothing is said.
pub decode_payload-HasType :
    (ext : Externals) (d : SchemaDef) (s : Slice) (v : Value)
    → AreBytes s.items
    → IsKeyed d
    → decode_payload ext d s ≡ ok v
    → HasType (λ w. Unit {0}) d v
unfolding decode_payload
decode_payload-HasType ext d s v hb keyed e =
    let ((w, off), e₁, k₁) = >>=-eq-ok (decode_value ext d s 0) _ e in
    rw (← word k₁) (value-Yields ext s hb d 0 keyed w off e₁)
