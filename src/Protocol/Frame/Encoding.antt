-- ===== src/Protocol/Frame/Encoding.antt =====
-- EncodeFrame of protocol/encoder.go against the layout that its comment gives.
use mathlib.Core.Path.{fun_ext}
use bit_socket_go.Base.{
  ℕ, ◌≤◌, ◌%◌, ◌^◌, ◌≡◌, refl, ap, arith, Text, Bytes, [], ◌∷◌, ◌++◌, append-nil, length,
  length-append, drop, drop_all, replicate, length-replicate, Outcome, ok, ◌>>=◌,
}
use bit_socket_go.Protocol.Words.{put_uint32, length-put_uint32}
use bit_socket_go.Protocol.Schema.Buffer.{Writer, put, copy_in}
use bit_socket_go.Protocol.Schema.Agree.{
  Writes, Writes-seq, put-Writes, copy-Writes, Writes-nothing,
}
use bit_socket_go.Protocol.Schema.Encode.{Queue}
use bit_socket_go.Protocol.Frame.{
  copy_payload, write_frame, frame_size, fill_frame, FrameOptions, Serializers, nsp_or_root,
  payload_bytes, encode_frame,
}

-- `[nspLen:1][nsp]`.
abbrev pub name_bytes : Text → Bytes
name_bytes name = (length name % 2 ^ 8) ∷ name

-- `[type:1][nspLen:1][nsp][eventLen:1][event][ackId:4][payload...]`.
abbrev pub frame_bytes : ℕ → Text → Text → ℕ → Bytes → Bytes
frame_bytes frame_type nsp event ack_id payload =
    frame_type ∷ (name_bytes nsp ++ (name_bytes event ++ (put_uint32 ack_id ++ payload)))

payload-Writes : (payload : Bytes) → Writes (λ q w. copy_payload payload w) payload []
payload-Writes [] = Writes-nothing
payload-Writes (b ∷ bs) = copy-Writes (b ∷ bs)

then-put :
    (bs rest : Bytes) (next : Queue → Writer → Outcome Writer)
    → Writes next rest []
    → Writes (λ q w. put bs w >>= next q) (bs ++ rest) []
then-put bs rest next h = Writes-seq (λ q w. put bs w) next bs rest [] [] (put-Writes bs) h

then-copy :
    (bs rest : Bytes) (next : Queue → Writer → Outcome Writer)
    → Writes next rest []
    → Writes (λ q w. copy_in bs w >>= next q) (bs ++ rest) []
then-copy bs rest next h = Writes-seq (λ q w. copy_in bs w) next bs rest [] [] (copy-Writes bs) h

module _ (frame_type : ℕ) (nsp event : Text) (ack_id : ℕ) (payload : Bytes) where
  frame-Writes :
      Writes
        (λ q w. write_frame frame_type nsp event ack_id payload w)
        (frame_bytes frame_type nsp event ack_id payload)
        []
  unfolding write_frame
  frame-Writes = then-put (frame_type ∷ []) _ _ (
      then-put ((length nsp % 2 ^ 8) ∷ []) _ _ (
        then-copy nsp _ _ (
          then-put ((length event % 2 ^ 8) ∷ []) _ _ (
            then-copy event _ _ (
              then-put (put_uint32 ack_id) payload (λ q w. copy_payload payload w)
                (payload-Writes payload))))))

  length-frame_bytes :
      length (frame_bytes frame_type nsp event ack_id payload) ≡ frame_size nsp event payload
  length-frame_bytes = omega (
    arith,
    length-append nsp (name_bytes event ++ (put_uint32 ack_id ++ payload)),
    length-append event (put_uint32 ack_id ++ payload),
    length-append (put_uint32 ack_id) payload,
    length-put_uint32 ack_id,
  )

  -- The buffer has exactly the size of the frame.
  fill_frame_lem :
      fill_frame frame_type nsp event ack_id payload
      ≡ ok (frame_bytes frame_type nsp event ack_id payload)
  unfolding fill_frame
  fill_frame_lem =
      let frame = frame_bytes frame_type nsp event ack_id payload in
      let size = frame_size nsp event payload in
      let room : length frame ≤ length (replicate {A = ℕ} size 0) =
        omega (arith, length-frame_bytes, length-replicate {A = ℕ} size 0) in
      let full : drop (length frame) (replicate {A = ℕ} size 0) ≡ [] =
        drop_all (length frame) (replicate size 0)
          (omega (arith, length-frame_bytes, length-replicate {A = ℕ} size 0)) in
      rw (frame-Writes [] [] [] (replicate size 0) 0 refl room, full) (ap ok (append-nil frame))

-- The frame is the layout of the comment around the payload's bytes; it fails only where those do.
pub encode_frame-layout :
    (opts : FrameOptions) (ser : Serializers)
    → encode_frame opts ser ≡ (
        payload_bytes opts.payload ser >>= λ payload.
        ok (frame_bytes opts.frame_type (nsp_or_root opts.nsp) opts.event opts.ack_id payload))
unfolding encode_frame
encode_frame-layout opts ser =
    ap (λ f. payload_bytes opts.payload ser >>= f)
      (fun_ext λ payload.
        fill_frame_lem opts.frame_type (nsp_or_root opts.nsp) opts.event opts.ack_id payload)
