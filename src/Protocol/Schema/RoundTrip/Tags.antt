-- ===== src/Protocol/Schema/RoundTrip/Tags.antt =====
-- The cases of decodeValue in protocol/schema.go for a type tag, on what encodeValue wrote.
use bit_socket_go.Base.{
  ℕ, ◌%◌, ◌<◌, ◌^◌, ◌≡◌, refl, arith, signed_of, wrap, Text, Bytes, [], ◌∷◌, ◌++◌, length, Outcome,
  ok, stop, ◌>>=◌, if◌then◌else◌, Bool, true, false, ℤ, pos, negsuc,
}
use bit_socket_go.Protocol.Types.{
  Kind, uint8, uint16, uint32, int32, float64, boolean, string, bytes, object_any, array_any, any,
  unsupported, Value, signed, unsigned, float64_bits, bool, str, blob, w8, w16, w32, Externals,
}
use bit_socket_go.Protocol.Coerce.{
  to_uint64, to_int64, to_float64, to_bool, to_string_val, to_bytes_val,
}
use bit_socket_go.Protocol.Words.{
  put_uint16, put_uint32, put_uint64, uint16-put_uint16, uint64-put_uint64, length-put_uint32,
}
use bit_socket_go.Protocol.Schema.Decode.{read_prefixed, read_tag}
use bit_socket_go.Protocol.Schema.Layout.{prefixed, layout_tag}
use bit_socket_go.Protocol.Schema.RoundTrip.{back_tag, IsShort, FitsTag}
use bit_socket_go.Protocol.Schema.RoundTrip.Reads.{Reads, Reads-map, Reads-known, Reads-stop}
use bit_socket_go.Protocol.Schema.RoundTrip.Leaves.{
  tail_from-held, index-held, read_uint32-held, read_prefixed-held,
}

prefixed-Reads : (bs : Bytes) → length bs < 2 ^ 32 → Reads read_prefixed (ok bs) (ok (prefixed bs))
prefixed-Reads bs h =
    Reads-known read_prefixed (ok bs) (prefixed bs)
      λ s off post held. read_prefixed-held s off bs post h held

put_uint64_pos :
    (n : ℕ) (rest : Bytes) → (0 < length (put_uint64 n ++ rest)) × (length (put_uint64 n) ≡ 8)
unfolding put_uint64
put_uint64_pos n rest = (omega arith, refl)

put_uint16_pos :
    (n : ℕ) (rest : Bytes) → (0 < length (put_uint16 n ++ rest)) × (length (put_uint16 n) ≡ 2)
unfolding put_uint16
put_uint16_pos n rest = (omega arith, refl)

module _ (ext : Externals) where
  uint8-Reads : (t : Text) (n : ℕ) → Reads (read_tag ext uint8 t) (ok (unsigned w8 n)) (ok (n ∷ []))
  unfolding read_tag
  uint8-Reads t n =
      Reads-known (read_tag ext uint8 t) (ok (unsigned w8 n)) (n ∷ [])
        λ s off post held. rw (index-held s off n post held)

  boolean-Reads :
      (t : Text) (b : Bool)
      → Reads (read_tag ext boolean t) (ok (bool b)) (ok ((if b then 1 else 0) ∷ []))
  unfolding read_tag
  boolean-Reads t true =
      Reads-known (read_tag ext boolean t) (ok (bool true)) (1 ∷ [])
        λ s off post held. rw (index-held s off 1 post held)
  boolean-Reads t false =
      Reads-known (read_tag ext boolean t) (ok (bool false)) (0 ∷ [])
        λ s off post held. rw (index-held s off 0 post held)

  uint16-Reads :
      (t : Text) (n : ℕ)
      → n < 2 ^ 16
      → Reads (read_tag ext uint16 t) (ok (unsigned w16 n)) (ok (put_uint16 n))
  unfolding read_tag
  uint16-Reads t n h =
      Reads-known (read_tag ext uint16 t) (ok (unsigned w16 n)) (put_uint16 n) λ s off post held.
        let (some_left, two) = put_uint16_pos n post in
        rw (
          tail_from-held s off (put_uint16 n ++ post) held some_left,
          uint16-put_uint16 n post h,
          two,
        )

  uint32-Reads :
      (t : Text) (n : ℕ)
      → n < 2 ^ 32
      → Reads (read_tag ext uint32 t) (ok (unsigned w32 n)) (ok (put_uint32 n))
  unfolding read_tag
  uint32-Reads t n h =
      Reads-known (read_tag ext uint32 t) (ok (unsigned w32 n)) (put_uint32 n)
        λ s off post held. rw (read_uint32-held s off n post h held, length-put_uint32)

  int32-Reads :
      (t : Text) (n : ℕ)
      → n < 2 ^ 32
      → Reads (read_tag ext int32 t) (ok (signed w32 (signed_of (2 ^ 31) n))) (ok (put_uint32 n))
  unfolding read_tag
  int32-Reads t n h =
      Reads-known (read_tag ext int32 t) (ok (signed w32 (signed_of (2 ^ 31) n))) (put_uint32 n)
        λ s off post held. rw (read_uint32-held s off n post h held, length-put_uint32)

  float64-Reads :
      (t : Text) (n : ℕ)
      → n < 2 ^ 64
      → Reads (read_tag ext float64 t) (ok (float64_bits n)) (ok (put_uint64 n))
  unfolding read_tag
  float64-Reads t n h =
      Reads-known (read_tag ext float64 t) (ok (float64_bits n)) (put_uint64 n) λ s off post held.
        let (some_left, eight) = put_uint64_pos n post in
        rw (
          tail_from-held s off (put_uint64 n ++ post) held some_left,
          uint64-put_uint64 n post h,
          eight,
        )

  dynamic-Reads :
      (r : Outcome Bytes)
      → IsShort r
      → Reads
          (λ s off. read_prefixed s off >>= λ (bs, o). ext.unmarshal bs >>= λ v. ok (v, o))
          (r >>= ext.unmarshal)
          (r >>= λ packed. ok (prefixed packed))
  dynamic-Reads (ok packed) short =
      Reads-known _ (ext.unmarshal packed) (prefixed packed)
        λ s off post held. rw (read_prefixed-held s off packed post short held)
  dynamic-Reads (stop t) short = Reads-stop _ (stop t) t

  wrap-lt : (z : ℤ) → wrap (2 ^ 32) z < 2 ^ 32
  wrap-lt (pos n) = omega arith
  wrap-lt (negsuc n) = omega arith

  pub tag-Reads :
      (k : Kind) (t : Text) (v : Value)
      → FitsTag ext k v
      → Reads (read_tag ext k t) (back_tag ext k t v) (layout_tag ext k t v)
  unfolding read_tag back_tag layout_tag
  tag-Reads uint8 t v fits = uint8-Reads t _
  tag-Reads boolean t v fits = boolean-Reads t (to_bool v)
  tag-Reads uint16 t v fits = uint16-Reads t (to_uint64 ext v % 2 ^ 16) (omega arith)
  tag-Reads uint32 t v fits = uint32-Reads t (to_uint64 ext v % 2 ^ 32) (omega arith)
  tag-Reads int32 t v fits =
      int32-Reads t (wrap (2 ^ 32) (to_int64 ext v)) (wrap-lt (to_int64 ext v))
  tag-Reads float64 t v fits = float64-Reads t (to_float64 ext v) fits
  tag-Reads string t v fits =
      Reads-map str (ok (prefixed (to_string_val v))) read_prefixed (ok (to_string_val v))
        (prefixed-Reads (to_string_val v) fits)
  tag-Reads bytes t v fits =
      Reads-map blob (ok (prefixed (to_bytes_val v))) read_prefixed (ok (to_bytes_val v))
        (prefixed-Reads (to_bytes_val v) fits)
  tag-Reads unsupported t v fits = Reads-stop _ (back_tag ext unsupported t v) _
  tag-Reads object_any t v fits = dynamic-Reads (ext.marshal v) fits
  tag-Reads array_any t v fits = dynamic-Reads (ext.marshal v) fits
  tag-Reads any t v fits = dynamic-Reads (ext.marshal v) fits
