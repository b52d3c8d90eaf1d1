-- ===== src/Protocol/Frame/Header.antt =====
-- DecodeFrameHeader of protocol/decoder.go: it takes a frame apart, accepts nothing else, and never
-- reads outside the bytes that it was given.
use bit_socket_go.Base.{
  ℕ, ◌+◌, ◌%◌, ◌^◌, ◌≤◌, ◌<◌, ◌≡◌, refl, sym, ap, ◌∙◌, arith, Text, Bytes, [], ◌∷◌, ◌++◌,
  append-nil, length, length-append, length-drop, drop, drop-add, Part, type_part, nsp_length,
  nsp_part, event_length, event_part, ack_part, Outcome, ok,
}
use bit_socket_go.Protocol.Words.{
  Slice, index, tail_from, sub_slice, put_uint32, uint32-put_uint32, length-put_uint32,
}
use bit_socket_go.Protocol.Words
use bit_socket_go.Protocol.Schema.RoundTrip.Leaves.{index-held, sub_slice-held, tail_from-le}
use bit_socket_go.Protocol.Frame.{want, read_name, FrameHeader, decode_frame_header}
use bit_socket_go.Protocol.Frame.Encoding.{name_bytes, frame_bytes}

want-held :
    (raw : Slice) (off n : ℕ) (part : Part)
    → off + n ≤ length raw.items
    → want raw off n part ≡ ok tt
unfolding want
want-held raw off n part h = ground arith

read_name-held :
    (raw : Slice) (off : ℕ) (name post : Bytes) (p q : Part)
    → length name < 2 ^ 8
    → drop off raw.items ≡ name_bytes name ++ post
    → read_name raw off p q ≡ ok (name, off + length (name_bytes name))
unfolding read_name
read_name-held raw off name post p q h e =
    let bound : off + 1 + length name ≤ length raw.items =
      omega (arith, length-drop off raw.items, ap length e, length-append name post) in
    let size : length name % 2 ^ 8 ≡ length name = omega arith in
    rw
      (
        want-held raw off 1 p (omega arith),
        index-held raw off (length name % 2 ^ 8) (name ++ post) e,
        size,
        want-held raw (off + 1) (length name) q bound,
        sub_slice-held raw (off + 1) name post (omega arith)
            (drop-add off raw.items ((length name % 2 ^ 8) ∷ []) (name ++ post) e),
      )
      (ap (λ n. ok (name, n)) (omega arith))

-- The acknowledgement number at `off`, and the payload behind it.
ack_held :
    (raw : Slice) (off ack_id : ℕ) (payload : Bytes)
    → ack_id < 2 ^ 32
    → off < length raw.items
    → drop off raw.items ≡ put_uint32 ack_id ++ payload
    → (want raw off 4 ack_part ≡ ok tt)
      × (sub_slice raw off 4 ≡ ok (put_uint32 ack_id))
      × (Words.uint32 (put_uint32 ack_id) ≡ ok ack_id)
      × (tail_from raw (off + 4) ≡ ok (record raw { items = payload }))
ack_held raw off ack_id payload h inside e =
    let four = length-put_uint32 ack_id in
    let bound : off + 4 ≤ length raw.items = omega (
      arith,
      four,
      length-drop off raw.items,
      ap length e,
      length-append (put_uint32 ack_id) payload,
    ) in
    let behind : drop (off + 4) raw.items ≡ payload =
      rw (← four) (drop-add off raw.items (put_uint32 ack_id) payload e) in
    (
      want-held raw off 4 ack_part bound,
      rw four at (sub_slice-held raw off (put_uint32 ack_id) payload (omega arith) e),
      rw append-nil at (uint32-put_uint32 ack_id [] h),
      rw (tail_from-le raw (off + 4) bound, behind),
    )

module _ (frame_type ack_id : ℕ) (nsp event : Text) (payload spare : Bytes)
    (hn : length nsp < 2 ^ 8) (he : length event < 2 ^ 8) (ha : ack_id < 2 ^ 32) where
  abbrev raw_frame : Slice
  raw_frame = record { items = frame_bytes frame_type nsp event ack_id payload; spare = spare }

  abbrev after_nsp : Bytes
  after_nsp = name_bytes event ++ (put_uint32 ack_id ++ payload)

  abbrev nsp_end : ℕ
  nsp_end = 1 + length (name_bytes nsp)

  abbrev event_end : ℕ
  event_end = nsp_end + length (name_bytes event)

  nsp_held : drop nsp_end raw_frame.items ≡ after_nsp
  nsp_held = drop-add 1 raw_frame.items (name_bytes nsp) after_nsp refl

  event_held : drop event_end raw_frame.items ≡ put_uint32 ack_id ++ payload
  event_held =
      drop-add nsp_end raw_frame.items (name_bytes event) (put_uint32 ack_id ++ payload) nsp_held

  event_inside : event_end < length raw_frame.items
  event_inside = omega (
    arith,
    length-append nsp after_nsp,
    length-append event (put_uint32 ack_id ++ payload),
    length-append (put_uint32 ack_id) payload,
    length-put_uint32 ack_id,
  )

  -- A frame whose names fit their length bytes comes apart into what it was made of.
  pub decode_frame_header-frame_bytes :
      decode_frame_header raw_frame
      ≡ ok (
        record { frame_type = frame_type; nsp = nsp; event = event; ack_id = ack_id },
        record { items = payload; spare = spare },
      )
  unfolding decode_frame_header
  decode_frame_header-frame_bytes =
      let (enough, word, number, rest) =
        ack_held raw_frame event_end ack_id payload ha event_inside event_held in
      rw (
        want-held raw_frame 0 1 type_part (omega arith),
        index-held raw_frame 0 frame_type (name_bytes nsp ++ after_nsp) refl,
        read_name-held raw_frame 1 nsp after_nsp nsp_length nsp_part hn refl,
        read_name-held raw_frame nsp_end event (put_uint32 ack_id ++ payload) event_length
            event_part he nsp_held,
        enough,
        word,
        number,
        rest,
      )

-- Two layouts of fields that fit, of the same bytes, are of the same payload.
pub frame_bytes-payload :
    (frame_type ack_id frame_type' ack_id' : ℕ) (nsp event payload nsp' event' payload' : Bytes)
    → length nsp < 2 ^ 8
    → length event < 2 ^ 8
    → ack_id < 2 ^ 32
    → length nsp' < 2 ^ 8
    → length event' < 2 ^ 8
    → ack_id' < 2 ^ 32
    → frame_bytes frame_type nsp event ack_id payload
      ≡ frame_bytes frame_type' nsp' event' ack_id' payload'
    → payload ≡ payload'
frame_bytes-payload frame_type ack_id frame_type' ack_id' nsp event payload nsp' event' payload' hn
      he ha hn' he' ha' same =
    items_eq (
      sym (decode_frame_header-frame_bytes frame_type ack_id nsp event payload [] hn he ha)
      ∙ ap (λ bs. decode_frame_header (record { items = bs; spare = [] })) same
      ∙ decode_frame_header-frame_bytes frame_type' ack_id' nsp' event' payload' [] hn' he' ha')
  where
    items_eq :
        {h h' : FrameHeader} {bs bs' : Bytes}
        → ◌≡◌ {A = Outcome (FrameHeader × Slice)}
            (ok (h, record { items = bs; spare = [] }))
            (ok (h', record { items = bs'; spare = [] }))
        → bs ≡ bs'
    items_eq e = cc
