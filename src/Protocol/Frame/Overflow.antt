-- ===== src/Protocol/Frame/Overflow.antt =====
-- EncodeFrame of protocol/encoder.go on a namespace that is longer than its length byte can say.
use bit_socket_go.Base.{
  ℕ, ◌%◌, ◌≤◌, ◌<◌, ◌^◌, ◌≡◌, refl, sym, ap, ◌∙◌, arith, Text, Bytes, List, [], ◌∷◌, ◌++◌, length,
  take, Part, too_short, All-append, Outcome, ok, err, ◌>>=◌,
}
use bit_socket_go.Protocol.Words.{AreBytes, Slice, put_uint32}
use bit_socket_go.Protocol.Frame.{
  FrameOptions, FrameHeader, Serializers, nsp_or_root, payload_bytes, encode_frame,
  decode_frame_header,
}
use bit_socket_go.Protocol.Frame.Encoding.{frame_bytes, encode_frame-layout}
use bit_socket_go.Protocol.Frame.Accepts.{Headed, whole, short, decode_frame_header-Headed}

-- The header that comes of it has no more of the name than its first bytes, as many as the length has
-- modulo 256; or the frame is refused as too short.
pub data Clipped (nsp : Text) : Outcome (FrameHeader × Slice) → Type 0 where
  clipped :
      (h : FrameHeader) (rest : Slice)
      → h.nsp ≡ take (length nsp % 2 ^ 8) nsp
      → length h.nsp < length nsp
      → Clipped nsp (ok (h, rest))
  refused : (part : Part) → Clipped nsp (err (too_short part))

-- The bytes that both lists begin with.
common :
    {A : Type 0} (xs ys us vs : List A)
    → length xs ≤ length ys
    → xs ++ us ≡ ys ++ vs
    → xs ≡ take (length xs) ys
common [] ys us vs h e = refl
common (x ∷ xs) [] us vs h e = absurd (omega arith)
common (x ∷ xs) (y ∷ ys) us vs h e =
    let (same, rest) = cons_eq e in
    ap (λ z. z ∷ xs) same ∙ ap (λ zs. y ∷ zs) (common xs ys us vs (omega arith) rest)
  where
    cons_eq : {A : Type 0} {a b : A} {xs ys : List A} → (a ∷ xs) ≡ (b ∷ ys) → (a ≡ b) × (xs ≡ ys)
    cons_eq h = (cc, cc)

AreBytes-put_uint32 : (n : ℕ) → AreBytes (put_uint32 n)
unfolding put_uint32
AreBytes-put_uint32 n = omega arith

AreBytes-frame_bytes :
    (frame_type : ℕ) (nsp event : Text) (ack_id : ℕ) (payload : Bytes)
    → frame_type < 2 ^ 8
    → AreBytes nsp
    → AreBytes event
    → AreBytes payload
    → AreBytes (frame_bytes frame_type nsp event ack_id payload)
AreBytes-frame_bytes frame_type nsp event ack_id payload ht hn he hp = (
  omega arith,
  (
    omega arith,
    All-append _ nsp _ hn (
      omega arith,
      All-append _ event _ he
          (All-append _ (put_uint32 ack_id) payload (AreBytes-put_uint32 ack_id) hp),
    ),
  ),
)

long_nsp-Clipped :
    (frame_type ack_id : ℕ) (nsp event : Text) (p : Bytes) (raw : Slice)
    {r : Outcome (FrameHeader × Slice)}
    → 2 ^ 8 ≤ length nsp
    → raw.items ≡ frame_bytes frame_type nsp event ack_id p
    → Headed raw r
    → Clipped nsp r
long_nsp-Clipped frame_type ack_id nsp event p raw long made (short part) = refused part
long_nsp-Clipped frame_type ack_id nsp event p raw long made (whole h payload split hn he ha) =
    let (size, names) = parts (sym split ∙ made) in
    let few : length h.nsp ≡ length nsp % 2 ^ 8 = omega (arith, size, hn) in
    clipped h (record { items = payload; spare = raw.spare })
      (common h.nsp nsp _ _ (omega (arith, few, long)) names ∙ ap (λ n. take n nsp) few)
      (omega (arith, few, long))
  where
    parts : {a b c d : ℕ} {xs ys : Bytes} → (a ∷ c ∷ xs) ≡ (b ∷ d ∷ ys) → (c ≡ d) × (xs ≡ ys)
    parts e = (cc, cc)

-- For a namespace of 256 bytes or more, of whatever payload can be encoded, EncodeFrame makes a frame
-- all the same, without an error. Off that frame DecodeFrameHeader reads no namespace longer than the
-- first bytes of the name, as many as its length has modulo 256, if it reads a header at all.
pub decode_frame_header-long_nsp :
    (opts : FrameOptions) (ser : Serializers) (p spare : Bytes)
    → 2 ^ 8 ≤ length opts.nsp
    → payload_bytes opts.payload ser ≡ ok p
    → opts.frame_type < 2 ^ 8
    → AreBytes opts.nsp
    → AreBytes opts.event
    → AreBytes p
    → (raw : Bytes) × (encode_frame opts ser ≡ ok raw)
      × Clipped opts.nsp (decode_frame_header (record { items = raw; spare = spare }))
decode_frame_header-long_nsp opts ser p spare long encodes ht hn he hp =
    let raw = frame_bytes opts.frame_type opts.nsp opts.event opts.ack_id p in
    let named = own opts.nsp (omega (arith, long)) in
    let bytes =
      AreBytes-frame_bytes opts.frame_type opts.nsp opts.event opts.ack_id p ht hn he hp in
    (
      raw,
      encode_frame-layout opts ser
          ∙ ap
              (λ r. r >>= λ bs.
                ok (frame_bytes opts.frame_type (nsp_or_root opts.nsp) opts.event opts.ack_id bs))
              encodes
          ∙ ap (λ n. ok (frame_bytes opts.frame_type n opts.event opts.ack_id p)) named,
      long_nsp-Clipped opts.frame_type opts.ack_id opts.nsp opts.event p
          (record { items = raw; spare = spare }) long refl
          (decode_frame_header-Headed (record { items = raw; spare = spare }) bytes),
    )
  where
    own : (nsp : Text) → 0 < length nsp → nsp_or_root nsp ≡ nsp
    own [] h = absurd (omega arith)
    own (x ∷ xs) h = refl
