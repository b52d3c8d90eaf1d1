-- ===== src/Protocol/Frame/RoundTrip.antt =====
-- DecodeFrame of protocol/decoder.go on what EncodeFrame of protocol/encoder.go made.
use bit_socket_go.Base.{
  ◌<◌, ◌^◌, ◌≡◌, ◌≢◌, refl, sym, ◌∙◌, Bytes, [], ◌∷◌, length, ok, ◌>>=◌, >>=-eq-ok,
}
use bit_socket_go.Protocol.Types.{Value, null, Externals}
use bit_socket_go.Protocol.Frame.{
  FrameOptions, FrameHeader, Serializers, nsp_or_root, payload_bytes, encode_frame,
  decode_frame_payload, decode_frame, default_serializers,
}
use bit_socket_go.Protocol.Frame.Encoding.{frame_bytes, encode_frame-layout}
use bit_socket_go.Protocol.Frame.Header.{decode_frame_header-frame_bytes}

-- The header that a receiver is meant to see.
abbrev pub header_of : FrameOptions → FrameHeader
header_of opts = record {
  frame_type = opts.frame_type;
  nsp = nsp_or_root opts.nsp;
  event = opts.event;
  ack_id = opts.ack_id;
}

-- The names and the number fit their fields.
pub record FitsFrame (opts : FrameOptions) : Type 0 where
  pub nsp_fits : length (nsp_or_root opts.nsp) < 2 ^ 8
  pub event_fits : length opts.event < 2 ^ 8
  pub ack_fits : opts.ack_id < 2 ^ 32

encoded :
    (opts : FrameOptions) (ser : Serializers) (p raw : Bytes)
    → payload_bytes opts.payload ser ≡ ok p
    → encode_frame opts ser ≡ ok raw
    → raw ≡ frame_bytes opts.frame_type (nsp_or_root opts.nsp) opts.event opts.ack_id p
encoded opts ser p raw hp e = cc (rw hp at (encode_frame-layout opts ser))

-- Where the names and the number fit their fields, and the payload can be encoded, a decoded frame is
-- the sender's header, with the payload that the receiver's codec reads from the
-- bytes that the sender's codec wrote.
pub decode_frame-encode_frame :
    (opts : FrameOptions) (sender receiver : Serializers) (p raw spare : Bytes)
    → FitsFrame opts
    → payload_bytes opts.payload sender ≡ ok p
    → encode_frame opts sender ≡ ok raw
    → decode_frame (record { items = raw; spare = spare }) receiver ≡ (
        decode_frame_payload (record { items = p; spare = spare }) (header_of opts) receiver
        >>= λ v. ok (record { header = header_of opts; payload = v }))
unfolding decode_frame
decode_frame-encode_frame opts sender receiver p raw spare fits hp e = rw (
  encoded opts sender p raw hp e,
  decode_frame_header-frame_bytes opts.frame_type opts.ack_id (nsp_or_root opts.nsp) opts.event p
      spare fits.nsp_fits fits.event_fits fits.ack_fits,
)

-- A frame without a payload arrives as it was sent, whatever the codecs.
pub decode_frame-encode_frame_null :
    (opts : FrameOptions) (sender receiver : Serializers) (raw spare : Bytes)
    → FitsFrame opts
    → opts.payload ≡ null
    → encode_frame opts sender ≡ ok raw
    → decode_frame (record { items = raw; spare = spare }) receiver
      ≡ ok (record { header = header_of opts; payload = null })
unfolding decode_frame_payload payload_bytes
decode_frame-encode_frame_null opts sender receiver raw spare fits none_given e =
    decode_frame-encode_frame opts sender receiver [] raw spare fits (rw none_given) e

-- What the code relies on of compress/flate: inflating undoes deflating, and a deflated stream has at
-- least its final block.
pub record FlateLaws (ext : Externals) : Type 0 where
  pub inflate_deflate :
      (raw_data packed : Bytes)
      → ext.deflate raw_data ≡ ok packed
      → ext.inflate packed ≡ ok raw_data
  pub deflate_ne : (raw_data : Bytes) → ext.deflate raw_data ≢ ok []

deflated :
    (ext : Externals) (packed bs : Bytes) {v : Value} (spare : Bytes) (hdr : FrameHeader)
    → FlateLaws ext
    → ext.deflate packed ≡ ok bs
    → ext.unmarshal packed ≡ ok v
    → decode_frame_payload (record { items = bs; spare = spare }) hdr (default_serializers ext)
      ≡ ok v
unfolding decode_frame_payload default_serializers
deflated ext packed [] spare hdr laws d u = absurd (laws.deflate_ne packed d)
deflated ext packed (b ∷ bs) spare hdr laws d u = rw (laws.inflate_deflate packed (b ∷ bs) d) u

pub payload_bytes-default :
    (ext : Externals) (v : Value)
    → v ≢ null
    → payload_bytes v (default_serializers ext) ≡ (ext.marshal v >>= ext.deflate)
unfolding payload_bytes default_serializers
payload_bytes-default ext null ne = absurd (ne refl)
payload_bytes-default ext _ ne = refl

-- With the default codec on both sides, and inflating undoing deflating, a frame with a payload that
-- fits its fields arrives with its header, and its payload as msgpack gives it back.
pub decode_frame-encode_frame_default :
    (ext : Externals) (opts : FrameOptions) (packed raw spare : Bytes) (v : Value)
    → FlateLaws ext
    → FitsFrame opts
    → opts.payload ≢ null
    → ext.marshal opts.payload ≡ ok packed
    → ext.unmarshal packed ≡ ok v
    → encode_frame opts (default_serializers ext) ≡ ok raw
    → decode_frame (record { items = raw; spare = spare }) (default_serializers ext)
      ≡ ok (record { header = header_of opts; payload = v })
decode_frame-encode_frame_default ext opts packed raw spare v laws fits ne m u e =
    let ser = default_serializers ext in
    let (bs, hp, _) =
      >>=-eq-ok (payload_bytes opts.payload ser) _ (sym (encode_frame-layout opts ser) ∙ e) in
    let packing = rw m at (sym (payload_bytes-default ext opts.payload ne) ∙ hp) in
    decode_frame-encode_frame opts ser ser bs raw spare fits hp e
    ∙ rw (deflated ext packed bs spare (header_of opts) laws packing u)
