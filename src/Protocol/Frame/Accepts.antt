-- ===== src/Protocol/Frame/Accepts.antt =====
-- DecodeFrameHeader of protocol/decoder.go on any bytes at all.
use mathlib.Core.Path.{subst}
use bit_socket_go.Base.{
  ℕ, ◌+◌, ◌*◌, ◌%◌, ◌^◌, ◌≤◌, ◌<◌, ◌≡◌, refl, sym, ap, ◌∙◌, arith, ◌⊎◌, inl, inr, Text, Bytes, [],
  ◌∷◌, ◌++◌, length, length-drop, take, drop, drop-drop, drop-add, take-append-drop, length-take_le,
  split_head, All-drop, All-take, Part, type_part, nsp_length, nsp_part, event_length, event_part,
  ack_part, too_short, Outcome, ok, err, ◌>>=◌, ◌>>◌,
}
use bit_socket_go.Protocol.Words.{AreBytes, Slice, index, tail_from, sub_slice, put_uint32}
use bit_socket_go.Protocol.Words
use bit_socket_go.Protocol.Schema.RoundTrip.Leaves.{index-held, sub_slice-held, tail_from-le}
use bit_socket_go.Protocol.Frame.{want, read_name, decode_frame_header, FrameHeader}
use bit_socket_go.Protocol.Frame.Encoding.{name_bytes, frame_bytes}

want_cases :
    (raw : Slice) (off n : ℕ) (part : Part)
    → ((want raw off n part ≡ ok tt) × (off + n ≤ length raw.items))
      ⊎ (want raw off n part ≡ err (too_short part))
unfolding want
want_cases raw off n part = ground arith

-- What `read_name` does: it takes a length byte and a name off the bytes, or it reports that they end.
data Named (raw : Slice) (off : ℕ) : Outcome (Text × ℕ) → Type 0 where
  named :
      (name : Text) (end : ℕ)
      → end ≤ length raw.items
      → drop off raw.items ≡ name_bytes name ++ drop end raw.items
      → length name < 2 ^ 8
      → Named raw off (ok (name, end))
  short : (part : Part) → Named raw off (err (too_short part))

-- `n` bytes within the length.
taken :
    (raw : Slice) (off n : ℕ)
    → off + n ≤ length raw.items
    → (bs : Bytes) × (length bs ≡ n)
      × (sub_slice raw off n ≡ ok bs)
      × (drop off raw.items ≡ bs ++ drop (off + n) raw.items)
      × (AreBytes raw.items → AreBytes bs)
taken raw off n h =
    let left = drop off raw.items in
    let size = length-take_le n left (omega (arith, length-drop off raw.items)) in
    let split = take-append-drop n left in
    (
      take n left,
      size,
      rw size at (sub_slice-held raw off (take n left) (drop n left) (omega arith) (sym split)),
      sym split ∙ ap (λ x. take n left ++ x) (drop-drop n off raw.items),
      λ bytes. All-take _ n left (All-drop _ off raw.items bytes),
    )

length_byte : (x : ℕ) (name : Bytes) → length name ≡ x → x < 2 ^ 8 → x ≡ length name % 2 ^ 8
length_byte x name e h = omega arith

name_after :
    (raw : Slice) (off x : ℕ) (xs : Bytes) (part : Part)
    → drop off raw.items ≡ x ∷ xs
    → x < 2 ^ 8
    → Named raw off
        (do want raw (off + 1) x part; name ← sub_slice raw (off + 1) x; ok (name, off + 1 + x))
name_after raw off x xs part e small = elim (want_cases raw (off + 1) x part) [
  | inr few ↦ rw few (short part)
  | inl (enough, inside) ↦
      let (name, size, word, split, _) = taken raw (off + 1) x inside in
      rw (enough, word)
        (named name (off + 1 + x) inside
          (e
            ∙ ap (◌∷◌ x) (sym (drop-add off raw.items (x ∷ []) xs e) ∙ split)
            ∙ ap (λ b. b ∷ (name ++ drop (off + 1 + x) raw.items)) (length_byte x name size small))
          (omega arith))
]

read_name-Named :
    (raw : Slice) (off : ℕ) (p q : Part)
    → AreBytes raw.items
    → Named raw off (read_name raw off p q)
unfolding read_name
read_name-Named raw off p q bytes = elim (want_cases raw off 1 p) [
  | inr few ↦ rw few (short p)
  | inl (enough, inside) ↦
      let (x, xs, e) = split_head (drop off raw.items) (omega (arith, length-drop off raw.items)) in
      rw (enough, index-held raw off x xs e)
        (name_after raw off x xs q e (subst AreBytes e (All-drop _ off raw.items bytes)).0)
]

-- The four bytes of a word are those of its number.
number_of :
    (word : Bytes)
    → length word ≡ 4
    → AreBytes word
    → (n : ℕ) × (Words.uint32 word ≡ ok n) × (put_uint32 n ≡ word) × (n < 2 ^ 32)
unfolding Words.uint32 put_uint32
number_of [] e bytes = absurd (omega arith)
number_of (a ∷ []) e bytes = absurd (omega arith)
number_of (a ∷ b ∷ []) e bytes = absurd (omega arith)
number_of (a ∷ b ∷ c ∷ []) e bytes = absurd (omega arith)
number_of (a ∷ b ∷ c ∷ d ∷ []) e bytes =
    (a * 16777216 + b * 65536 + c * 256 + d, refl, ground arith, omega arith)
number_of (a ∷ b ∷ c ∷ d ∷ x ∷ xs) e bytes = absurd (omega arith)

-- What DecodeFrameHeader does: the bytes are the layout of the header and of the payload that it
-- gives, or it reports that they end early.
pub data Headed (raw : Slice) : Outcome (FrameHeader × Slice) → Type 0 where
  whole :
      (h : FrameHeader) (payload : Bytes)
      → raw.items ≡ frame_bytes h.frame_type h.nsp h.event h.ack_id payload
      → length h.nsp < 2 ^ 8
      → length h.event < 2 ^ 8
      → h.ack_id < 2 ^ 32
      → Headed raw (ok (h, record { items = payload; spare = raw.spare }))
  short : (part : Part) → Headed raw (err (too_short part))

-- What is left of the code after a name, as functions of where the name ends.
read_ack : Slice → ℕ → Text → Text → ℕ → Outcome (FrameHeader × Slice)
read_ack raw frame_type nsp event off = do
  want raw off 4 ack_part
  word ← sub_slice raw off 4
  ack_id ← Words.uint32 word
  rest ← tail_from raw (off + 4)
  ok (record { frame_type = frame_type; nsp = nsp; event = event; ack_id = ack_id }, rest)

read_ack-Headed :
    (raw : Slice) (frame_type : ℕ) (nsp event : Text) (off : ℕ)
    → AreBytes raw.items
    → raw.items ≡ frame_type ∷ (name_bytes nsp ++ (name_bytes event ++ drop off raw.items))
    → length nsp < 2 ^ 8
    → length event < 2 ^ 8
    → Headed raw (read_ack raw frame_type nsp event off)
unfolding read_ack
read_ack-Headed raw frame_type nsp event off bytes split hn he =
    elim (want_cases raw off 4 ack_part) [
      | inr few ↦ rw few (short ack_part)
      | inl (enough, inside) ↦
          let (word, size, read, left, are) = taken raw off 4 inside in
          let (ack_id, number, put, small) = number_of word size (are bytes) in
          rw (enough, read, number, tail_from-le raw (off + 4) inside)
            (whole (record { frame_type = frame_type; nsp = nsp; event = event; ack_id = ack_id })
              (drop (off + 4) raw.items)
              (split
                ∙ ap (λ x. frame_type ∷ (name_bytes nsp ++ (name_bytes event ++ x)))
                    (left ∙ ap (λ w. w ++ drop (off + 4) raw.items) (sym put)))
              hn he small)
    ]

read_event-Headed :
    (raw : Slice) (frame_type : ℕ) (nsp : Text) (off : ℕ) {r : Outcome (Text × ℕ)}
    → AreBytes raw.items
    → raw.items ≡ frame_type ∷ (name_bytes nsp ++ drop off raw.items)
    → length nsp < 2 ^ 8
    → Named raw off r
    → Headed raw (r >>= λ (event, off'). read_ack raw frame_type nsp event off')
read_event-Headed raw frame_type nsp off bytes split hn (named event end inside left small) =
    read_ack-Headed raw frame_type nsp event end bytes
      (split ∙ ap (λ x. frame_type ∷ (name_bytes nsp ++ x)) left) hn small
read_event-Headed raw frame_type nsp off bytes split hn (short part) = short part

read_nsp-Headed :
    (raw : Slice) (frame_type : ℕ) {r : Outcome (Text × ℕ)}
    → AreBytes raw.items
    → raw.items ≡ frame_type ∷ drop 1 raw.items
    → Named raw 1 r
    → Headed raw (
        r >>= λ (nsp, off). read_name raw off event_length event_part >>= λ (event, off').
        read_ack raw frame_type nsp event off')
read_nsp-Headed raw frame_type bytes split (named nsp end inside left small) =
    read_event-Headed raw frame_type nsp end bytes (split ∙ ap (λ x. frame_type ∷ x) left) small
      (read_name-Named raw end event_length event_part bytes)
read_nsp-Headed raw frame_type bytes split (short part) = short part

-- Of any bytes whatever, DecodeFrameHeader gives the parts whose layout they are, each within its
-- field, or the error that they end early. It neither panics nor fails otherwise.
pub decode_frame_header-Headed :
    (raw : Slice) → AreBytes raw.items → Headed raw (decode_frame_header raw)
unfolding decode_frame_header read_ack
decode_frame_header-Headed raw bytes = elim (want_cases raw 0 1 type_part) [
  | inr few ↦ rw few (short type_part)
  | inl (enough, inside) ↦
      let (x, xs, e) = split_head raw.items (omega arith) in
      rw (enough, index-held raw 0 x xs e)
        (read_nsp-Headed raw x bytes
          (e ∙ ap (λ l. x ∷ l) (sym (drop-add 0 raw.items (x ∷ []) xs e)))
          (read_name-Named raw 1 nsp_length nsp_part bytes))
]
