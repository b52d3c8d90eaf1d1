-- ===== src/Tests/Frames.antt =====
-- Witnesses for the properties of the frames, protocol/encoder.go and decoder.go.
use bit_socket_go.Base.{
  ◌≡◌, ◌≢◌, ltb, true, false, Bool, Bool-cases, inl, inr, if◌then◌else◌, refl, ◌∙◌, arith, Text,
  Bytes, [], ◌∷◌, replicate, text, ok, ◌>>=◌,
}
use bit_socket_go.Protocol.Types.{bool, null}
use bit_socket_go.Protocol.Words.{AreBytes, put_uint32}
use bit_socket_go.Protocol.Frame.{
  FrameOptions, Serializers, payload_bytes, encode_frame, decode_frame_header, decode_frame_payload,
  decode_frame, default_serializers, default_encode_payload,
}
use bit_socket_go.Protocol.Frame.Encoding.{frame_bytes, encode_frame-layout}
use bit_socket_go.Protocol.Frame.Accepts.{Headed, decode_frame_header-Headed}
use bit_socket_go.Protocol.Frame.RoundTrip.{
  FitsFrame, FlateLaws, header_of, decode_frame-encode_frame, decode_frame-encode_frame_default,
}
use bit_socket_go.Protocol.Frame.Overflow.{Clipped, decode_frame_header-long_nsp}
use bit_socket_go.Tests.{world, event_frame}

abbrev are_bytes : Bytes → Bool
are_bytes [] = true
are_bytes (b ∷ bs) = if ltb b 256 then are_bytes bs else false

false-ne-true : false ≢ true
false-ne-true e = cc

all_bytes : (bs : Bytes) → are_bytes bs ≡ true → AreBytes bs
all_bytes [] e = tt
all_bytes (b ∷ bs) e = elim (Bool-cases (ltb b 256)) [
  | inl small ↦ (ground arith, all_bytes bs (rw small at e))
  | inr large ↦ absurd (false-ne-true (rw large at e))
]

abbrev codec : Serializers
codec = default_serializers world

abbrev yes : FrameOptions
yes = event_frame (bool true)

-- The bytes on the wire.
abbrev yes_bytes : Bytes
yes_bytes = frame_bytes 2 (text "/chat") (text "msg") 258 (1 ∷ 195 ∷ [])

encode_frame-layout_example : encode_frame yes codec ≡ (
    payload_bytes (bool true) codec >>= λ payload.
    ok (frame_bytes 2 (text "/chat") (text "msg") 258 payload))
encode_frame-layout_example = encode_frame-layout yes codec

yes_packed : payload_bytes (bool true) codec ≡ ok (1 ∷ 195 ∷ [])
unfolding payload_bytes default_serializers default_encode_payload
yes_packed = refl

yes_encoded : encode_frame yes codec ≡ ok yes_bytes
yes_encoded = encode_frame-layout yes codec ∙ rw yes_packed

yes_fits : FitsFrame yes
yes_fits = record { nsp_fits = omega arith; event_fits = omega arith; ack_fits = omega arith }

decode_frame_header-Headed_example :
    Headed
      (record { items = yes_bytes; spare = [] })
      (decode_frame_header (record { items = yes_bytes; spare = [] }))
unfolding put_uint32
decode_frame_header-Headed_example =
    decode_frame_header-Headed (record { items = yes_bytes; spare = [] }) (all_bytes yes_bytes refl)

decode_frame-encode_frame_example :
    decode_frame (record { items = yes_bytes; spare = [] }) codec ≡ (
      decode_frame_payload (record { items = 1 ∷ 195 ∷ []; spare = [] }) (header_of yes) codec
      >>= λ v. ok (record { header = header_of yes; payload = v }))
decode_frame-encode_frame_example =
    decode_frame-encode_frame yes codec codec (1 ∷ 195 ∷ []) yes_bytes [] yes_fits yes_packed
      yes_encoded

inflate_back : (raw packed : Bytes) → world.deflate raw ≡ ok packed → world.inflate packed ≡ ok raw
inflate_back raw [] e = cc
inflate_back raw (c ∷ bs) e = ground arith

flate : FlateLaws world
flate = record {
  inflate_deflate = λ raw packed e. inflate_back raw packed e;
  deflate_ne = λ raw e. cc;
}

decode_frame-encode_frame_default_example :
    decode_frame (record { items = yes_bytes; spare = [] }) codec
    ≡ ok (record { header = header_of yes; payload = bool true })
decode_frame-encode_frame_default_example =
    decode_frame-encode_frame_default world yes (195 ∷ []) yes_bytes [] (bool true) flate yes_fits
      (λ e. cc) refl refl yes_encoded

-- A namespace of 256 bytes, whose length byte is 0.
abbrev long_name : Text
long_name = replicate 256 b'a'

abbrev long_frame : FrameOptions
long_frame = record { frame_type = 1; nsp = long_name; event = []; ack_id = 0; payload = null }

long_payload : payload_bytes null codec ≡ ok []
unfolding payload_bytes
long_payload = refl

decode_frame_header-long_nsp_example :
    (raw : Bytes) × (encode_frame long_frame codec ≡ ok raw)
    × Clipped long_name (decode_frame_header (record { items = raw; spare = [] }))
decode_frame_header-long_nsp_example =
    decode_frame_header-long_nsp long_frame codec [] [] (omega arith) long_payload (omega arith)
      (all_bytes long_name refl) tt tt
