-- ===== src/Protocol/Frame.antt =====
-- protocol/constants.go, protocol.go, encoder.go, decoder.go and compress.go: the frame that every
-- message travels in, and the payload codecs that a caller plugs in.
pub mod Encoding
pub mod Header
pub mod Accepts
pub mod RoundTrip
pub mod Overflow
use bit_socket_go.Base.{
  ℕ, ◌+◌, ◌%◌, ◌^◌, ◌≡◌, refl, Bool, not, true, false, Text, Bytes, List, [], ◌∷◌, ◌++◌, text, ltb,
  length, replicate, if◌then◌else◌, Option, none, some, Outcome, Part, type_part, nsp_length,
  nsp_part, event_length, event_part, ack_part, too_short, ok, stop, error, panic, ◌>>=◌, ◌>>◌,
  guard, or_stop,
}
use bit_socket_go.Protocol.Types.{Value, null, Externals}
use bit_socket_go.Protocol.Words.{Slice, index, tail_from, sub_slice, put_uint32}
use bit_socket_go.Protocol.Words
use bit_socket_go.Protocol.Schema.Buffer.{Writer, put, copy_in}

-- The fields are functions, which may be nil.
pub record Serializers : Type 0 where
  pub encode_payload : Option (Value → Outcome Bytes)
  pub decode_payload : Option (Slice → Outcome Value)
  pub decode_payload_with_event : Option (Slice → Text → Text → Outcome Value)

module _ (ext : Externals) where
  unfoldable pub default_encode_payload : Value → Outcome Bytes
  default_encode_payload payload = do packed ← ext.marshal payload; ext.deflate packed

  unfoldable pub default_decode_payload : Slice → Outcome Value
  default_decode_payload buf = do raw ← ext.inflate buf.items; ext.unmarshal raw

  unfoldable pub default_serializers : Serializers
  unfolding default_encode_payload default_decode_payload
  default_serializers = record {
    encode_payload = some default_encode_payload;
    decode_payload = some default_decode_payload;
    decode_payload_with_event = none;
  }

pub record FrameOptions : Type 0 where
  pub frame_type : ℕ
  pub nsp : Text
  pub event : Text
  pub ack_id : ℕ
  pub payload : Value

abbrev pub nsp_or_root : Text → Text
nsp_or_root [] = text "/"
nsp_or_root (c ∷ cs) = c ∷ cs

-- A nil payload has no bytes at all. A call of a nil function panics.
unfoldable pub payload_bytes : Value → Serializers → Outcome Bytes
payload_bytes null ser = ok []
payload_bytes v ser = do encode ← or_stop ser.encode_payload panic; encode v

-- The last `copy` is guarded by `len(payloadBytes) > 0`.
abbrev copy_payload : Bytes → Writer → Outcome Writer
copy_payload [] w = ok w
copy_payload (b ∷ bs) w = copy_in (b ∷ bs) w

-- The writes to the buffer, in order.
unfoldable pub write_frame : ℕ → Text → Text → ℕ → Bytes → Writer → Outcome Writer
write_frame frame_type nsp event ack_id payload w₀ = do
  w₁ ← put (frame_type ∷ []) w₀
  w₂ ← put ((length nsp % 2 ^ 8) ∷ []) w₁
  w₃ ← copy_in nsp w₂
  w₄ ← put ((length event % 2 ^ 8) ∷ []) w₃
  w₅ ← copy_in event w₄
  w₆ ← put (put_uint32 ack_id) w₅
  copy_payload payload w₆

abbrev frame_size : Text → Text → Bytes → ℕ
frame_size nsp event payload = 1 + 1 + length nsp + 1 + length event + 4 + length payload

-- The allocation of the buffer, and the writes.
unfoldable pub fill_frame : ℕ → Text → Text → ℕ → Bytes → Outcome Bytes
fill_frame frame_type nsp event ack_id payload = do
  let buf = replicate {A = ℕ} (frame_size nsp event payload) 0
  w ← write_frame frame_type nsp event ack_id payload (record { buf = buf; offset = 0; idx = 0 })
  ok w.buf

unfoldable pub encode_frame : FrameOptions → Serializers → Outcome Bytes
encode_frame opts ser = do
  payload ← payload_bytes opts.payload ser
  fill_frame opts.frame_type (nsp_or_root opts.nsp) opts.event opts.ack_id payload

pub record FrameHeader : Type 0 where
  pub frame_type : ℕ
  pub nsp : Text
  pub event : Text
  pub ack_id : ℕ

pub record Frame : Type 0 where
  pub header : FrameHeader
  pub open header use *
  pub payload : Value

-- `if len(raw) < off+n { return …, "frame too short" }`.
unfoldable pub want : Slice → ℕ → ℕ → Part → Outcome (Unit {0})
want raw off n part = guard (not (ltb (length raw.items) (off + n))) (error (too_short part))

-- A length byte and as many bytes, each with its check.
unfoldable pub read_name : Slice → ℕ → Part → Part → Outcome (Text × ℕ)
read_name raw off length_part part = do
  want raw off 1 length_part
  n ← index raw off
  want raw (off + 1) n part
  name ← sub_slice raw (off + 1) n
  ok (name, off + 1 + n)

unfoldable pub decode_frame_header : Slice → Outcome (FrameHeader × Slice)
decode_frame_header raw = do
  want raw 0 1 type_part
  frame_type ← index raw 0
  (nsp, off) ← read_name raw 1 nsp_length nsp_part
  (event, off') ← read_name raw off event_length event_part
  want raw off' 4 ack_part
  word ← sub_slice raw off' 4
  ack_id ← Words.uint32 word
  rest ← tail_from raw (off' + 4)
  ok (record { frame_type = frame_type; nsp = nsp; event = event; ack_id = ack_id }, rest)

-- No bytes decode to nil; else `DecodePayloadWithEvent` goes before `DecodePayload`.
unfoldable pub decode_frame_payload : Slice → FrameHeader → Serializers → Outcome Value
decode_frame_payload buf hdr ser = elim buf.items [
  | [] ↦ ok null
  | b ∷ bs ↦ elim ser.decode_payload_with_event [
    | some decode ↦ decode buf hdr.event hdr.nsp
    | none ↦ or_stop ser.decode_payload panic >>= λ decode. decode buf
  ]
]

unfoldable pub decode_frame : Slice → Serializers → Outcome Frame
decode_frame raw ser = do
  (hdr, payload_slice) ← decode_frame_header raw
  payload ← decode_frame_payload payload_slice hdr ser
  ok (record { header = hdr; payload = payload })
