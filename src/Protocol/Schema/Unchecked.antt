-- ===== src/Protocol/Schema/Unchecked.antt =====
-- What decodeValue of protocol/schema.go does on bytes that no encoder wrote: it checks no bound of
-- its own.
use bit_socket_go.Base.{
  ℕ, ◌+◌, ◌<◌, ◌^◌, ◌≡◌, refl, ap, arith, Text, Bytes, [], ◌∷◌, ◌++◌, append_assoc, length,
  length-append, drop, drop-append, take-append, leb, true, ok, stop, panic,
}
use bit_socket_go.Protocol.Types.{
  tag, Kind, kind_of, uint8, uint16, float64, boolean, string, unsupported, str, Externals,
}
use bit_socket_go.Protocol.Words.{Slice, index, tail_from, sub_slice, put_uint32, length-put_uint32}
use bit_socket_go.Protocol.Words
use bit_socket_go.Protocol.Schema.{decode_payload}
use bit_socket_go.Protocol.Schema.Decode.{read_uint32, read_prefixed, read_tag, decode_value}
use bit_socket_go.Protocol.Schema.RoundTrip.Leaves.{read_uint32-held}

-- The bytes that a type takes at least.
abbrev pub width : Kind → ℕ
width uint8 = 1
width boolean = 1
width uint16 = 2
width float64 = 8
width unsupported = 0
width _ = 4

uint32_panics :
    (spare xs : Bytes)
    → length xs < 4
    → read_uint32 (record { items = xs; spare = spare }) 0 ≡ stop panic
unfolding read_uint32 tail_from Words.uint32
uint32_panics spare [] h = refl
uint32_panics spare (a ∷ []) h = ground arith
uint32_panics spare (a ∷ b ∷ []) h = ground arith
uint32_panics spare (a ∷ b ∷ c ∷ []) h = ground arith
uint32_panics spare (a ∷ b ∷ c ∷ d ∷ xs) h = absurd (omega arith)

uint16_panics : (xs : Bytes) → length xs < 2 → Words.uint16 xs ≡ stop panic
unfolding Words.uint16
uint16_panics [] h = refl
uint16_panics (a ∷ []) h = refl
uint16_panics (a ∷ b ∷ xs) h = absurd (omega arith)

uint64_panics : (xs : Bytes) → length xs < 8 → Words.uint64 xs ≡ stop panic
unfolding Words.uint64
uint64_panics [] h = refl
uint64_panics (a ∷ []) h = refl
uint64_panics (a ∷ b ∷ []) h = refl
uint64_panics (a ∷ b ∷ c ∷ []) h = refl
uint64_panics (a ∷ b ∷ c ∷ d ∷ []) h = refl
uint64_panics (a ∷ b ∷ c ∷ d ∷ e ∷ []) h = refl
uint64_panics (a ∷ b ∷ c ∷ d ∷ e ∷ f ∷ []) h = refl
uint64_panics (a ∷ b ∷ c ∷ d ∷ e ∷ f ∷ g ∷ []) h = refl
uint64_panics (a ∷ b ∷ c ∷ d ∷ e ∷ f ∷ g ∷ h₁ ∷ xs) h = absurd (omega arith)

whole_tail : (s : Slice) → tail_from s 0 ≡ ok s
unfolding tail_from
whole_tail s = ground arith

no_first :
    (spare xs : Bytes) → length xs < 1 → index (record { items = xs; spare = spare }) 0 ≡ stop panic
unfolding index
no_first spare [] h = refl
no_first spare (x ∷ xs) h = absurd (omega arith)

-- Behind the length prefix, across the end of the payload.
across :
    (inside behind more : Bytes)
    → let n = length inside + length behind in
      sub_slice (record { items = put_uint32 n ++ inside; spare = behind ++ more }) 4 n
      ≡ ok (inside ++ behind)
unfolding sub_slice
across inside behind more =
    let n = length inside + length behind in
    let four = length-put_uint32 n in
    let test : leb (4 + n) (length (put_uint32 n ++ inside) + length (behind ++ more)) ≡ true =
      ground (arith, four, length-append (put_uint32 n) inside, length-append behind more) in
    let body : drop 4 (put_uint32 n ++ (inside ++ (behind ++ more))) ≡ inside ++ (behind ++ more) =
      rw (← four) (drop-append (put_uint32 n) (inside ++ (behind ++ more))) in
    rw
      (
        test,
        append_assoc (put_uint32 n) inside (behind ++ more),
        body,
        ← append_assoc inside behind more,
        ← length-append inside behind,
      )
      (ap ok (take-append (inside ++ behind) more))

module _ (ext : Externals) where
  tag_panics :
      (k : Kind) (t : Text) (s : Slice)
      → length s.items < width k
      → read_tag ext k t s 0 ≡ stop panic
  unfolding read_tag read_prefixed
  tag_panics uint8 t s h = rw (no_first s.spare s.items h)
  tag_panics boolean t s h = rw (no_first s.spare s.items h)
  tag_panics uint16 t s h = rw (whole_tail s, uint16_panics s.items h)
  tag_panics float64 t s h = rw (whole_tail s, uint64_panics s.items h)
  tag_panics unsupported t s h = absurd (omega arith)
  tag_panics _ t s h = rw (uint32_panics s.spare s.items h)

  -- A payload shorter than its type panics: there is no error for it.
  pub decode_payload-short :
      (t : Text) (s : Slice)
      → length s.items < width (kind_of t)
      → decode_payload ext (tag t) s ≡ stop panic
  unfolding decode_payload decode_value
  decode_payload-short t s h = rw (tag_panics (kind_of t) t s h)

  -- A string whose length prefix runs past the payload is read on into the spare room of the slice:
  -- the result is the payload's bytes and then those that lie behind it, and no error.
  pub decode_payload-overrun :
      (t : Text) (inside behind more : Bytes)
      → kind_of t ≡ string
      → length inside + length behind < 2 ^ 32
      → decode_payload ext (tag t) (record {
        items = put_uint32 (length inside + length behind) ++ inside;
        spare = behind ++ more;
      })
        ≡ ok (str (inside ++ behind))
  unfolding decode_payload decode_value read_tag read_prefixed
  decode_payload-overrun t inside behind more k h =
      let n = length inside + length behind in
      let s : Slice = record { items = put_uint32 n ++ inside; spare = behind ++ more } in
      rw (k, read_uint32-held s 0 n inside h refl, across inside behind more)
