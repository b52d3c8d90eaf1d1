-- ===== src/Protocol/Schema/Buffer.antt =====
-- The buffer that the second pass of the schema encoder fills: buf, offsetRef and queueIdx of
-- protocol/schema.go, and the writes to the buffer.
use bit_socket_go.Base.{
  ℕ, ◌+◌, ◌-◌, ◌≤◌, ◌≡◌, ap, arith, Bytes, ◌++◌, leb, length, length-append, take, drop,
  take-append, drop-append, if◌then◌else◌, Outcome, ok, stop, panic, append_assoc, drop-drop,
  take_all, sym, ◌∙◌, true,
}

pub record Writer : Type 0 where
  pub buf : Bytes
  pub offset : ℕ
  pub idx : ℕ

-- `buf[off] = b`, or `PutUint16/32/64(buf[off:], …)`, with the step of the offset that follows: a
-- panic where the word does not fit.
unfoldable pub put : Bytes → Writer → Outcome Writer
put bs w =
    if leb (w.offset + length bs) (length w.buf)
    then ok (record w {
      buf = take w.offset w.buf ++ bs ++ drop (w.offset + length bs) w.buf;
      offset = w.offset + length bs;
    })
    else stop panic

-- `copy(buf[off:], bs)`, which drops what does not fit, and the step of the offset by `len(bs)`.
unfoldable pub copy_in : Bytes → Writer → Outcome Writer
copy_in bs w =
    if leb w.offset (length w.buf)
    then ok (record w {
      buf =
          take w.offset w.buf
          ++ take (length w.buf - w.offset) bs
          ++ drop (w.offset + length bs) w.buf;
      offset = w.offset + length bs;
    })
    else stop panic

-- The writer that has written `done`, with `room` left.
abbrev pub at : Bytes → Bytes → ℕ → Writer
at done room i = record { buf = done ++ room; offset = length done; idx = i }

room_test :
    (bs done room : Bytes)
    → length bs ≤ length room
    → leb (length done + length bs) (length (done ++ room)) ≡ true
room_test bs done room h = ground (arith, length-append done room)

drop_past : (n : ℕ) (done room : Bytes) → drop (length done + n) (done ++ room) ≡ drop n room
drop_past n done room =
    sym (drop-drop n (length done) (done ++ room)) ∙ ap (drop n) (drop-append done room)

pub put-at :
    (bs done room : Bytes) (i : ℕ)
    → length bs ≤ length room
    → put bs (at done room i) ≡ ok (at (done ++ bs) (drop (length bs) room) i)
unfolding put
put-at bs done room i h =
    rw (room_test bs done room h) (simp (take-append, drop_past, length-append, append_assoc))

offset_test : (done room : Bytes) → leb (length done) (length (done ++ room)) ≡ true
offset_test done room = ground (arith, length-append done room)

take_fits :
    (bs done room : Bytes)
    → length bs ≤ length room
    → take (length (done ++ room) - length done) bs ≡ bs
take_fits bs done room h = take_all _ bs (omega (arith, length-append done room))

pub copy_in-at :
    (bs done room : Bytes) (i : ℕ)
    → length bs ≤ length room
    → copy_in bs (at done room i) ≡ ok (at (done ++ bs) (drop (length bs) room) i)
unfolding copy_in
copy_in-at bs done room i h =
    rw (offset_test done room, take_fits bs done room h)
      (simp (take-append, drop_past, length-append, append_assoc))
