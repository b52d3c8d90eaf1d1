-- ===== src/Protocol/Schema/RoundTrip/Leaves.antt =====
-- The reads of single words and of length-prefixed bytes in protocol/schema.go.
use bit_socket_go.Base.{
  ℕ, ◌+◌, ◌%◌, ◌^◌, ◌≤◌, ◌<◌, ◌≡◌, ap, ◌∙◌, arith, Bytes, ◌∷◌, ◌++◌, append_assoc, leb, length,
  length-append, length-drop, drop, take-append, drop-add, drop-append_le, get_elem?-drop, true, ok,
}
use bit_socket_go.Protocol.Words.{
  Slice, tail_from, sub_slice, index, put_uint32, length-put_uint32, uint32-put_uint32,
}
use bit_socket_go.Protocol.Schema.Layout.{prefixed, length_word, length-prefixed}
use bit_socket_go.Protocol.Schema.Decode.{read_uint32, read_prefixed}

-- What is held at the offset lies within the slice's length.
within :
    (s : Slice) (off : ℕ) (xs : Bytes)
    → drop off s.items ≡ xs
    → 0 < length xs
    → off + length xs ≤ length s.items
within s off xs e h = omega (arith, length-drop off s.items, ap length e)

pub tail_from-held :
    (s : Slice) (off : ℕ) (xs : Bytes)
    → drop off s.items ≡ xs
    → 0 < length xs
    → tail_from s off ≡ ok (record s { items = xs })
unfolding tail_from
tail_from-held s off xs e h =
    let test : leb off (length s.items) ≡ true = ground (arith, within s off xs e h) in rw (test, e)

pub tail_from-le :
    (s : Slice) (off : ℕ)
    → off ≤ length s.items
    → tail_from s off ≡ ok (record s { items = drop off s.items })
unfolding tail_from
tail_from-le s off h = ground arith

pub index-held :
    (s : Slice) (off x : ℕ) (xs : Bytes) → drop off s.items ≡ x ∷ xs → index s off ≡ ok x
unfolding index
index-held s off x xs e = rw (get_elem?-drop off s.items xs x e)

put_uint32_pos : (n : ℕ) (rest : Bytes) → 0 < length (put_uint32 n ++ rest)
unfolding put_uint32
put_uint32_pos n rest = omega arith

pub read_uint32-held :
    (s : Slice) (off n : ℕ) (rest : Bytes)
    → n < 2 ^ 32
    → drop off s.items ≡ put_uint32 n ++ rest
    → read_uint32 s off ≡ ok n
unfolding read_uint32
read_uint32-held s off n rest h e =
    rw (tail_from-held s off _ e (put_uint32_pos n rest)) (uint32-put_uint32 n rest h)

pub sub_slice-held :
    (s : Slice) (off : ℕ) (bs post : Bytes)
    → off ≤ length s.items
    → drop off s.items ≡ bs ++ post
    → sub_slice s off (length bs) ≡ ok bs
unfolding sub_slice
sub_slice-held s off bs post h e =
    let test : leb (off + length bs) (length s.items + length s.spare) ≡ true =
      ground (arith, length-drop off s.items, ap length e, length-append bs post) in
    rw (test, drop-append_le off s.items s.spare h, e, append_assoc) (ap ok (take-append bs _))

-- Behind the length prefix.
behind_word :
    (s : Slice) (off : ℕ) (bs rest : Bytes)
    → drop off s.items ≡ length_word bs ++ rest
    → (off + 4 ≤ length s.items) × (drop (off + 4) s.items ≡ rest)
behind_word s off bs rest e =
    let four = length-put_uint32 (length bs % 2 ^ 32) in
    (
      omega
          (arith, four, length-append (length_word bs) rest, length-drop off s.items, ap length e),
      rw (← four) (drop-add off s.items (length_word bs) rest e),
    )

pub read_prefixed-held :
    (s : Slice) (off : ℕ) (bs post : Bytes)
    → length bs < 2 ^ 32
    → drop off s.items ≡ prefixed bs ++ post
    → read_prefixed s off ≡ ok (bs, off + length (prefixed bs))
unfolding read_prefixed put_uint32
read_prefixed-held s off bs post h e =
    let held = e ∙ append_assoc (length_word bs) bs post in
    let (inside, behind) = behind_word s off bs (bs ++ post) held in
    let size : length bs % 2 ^ 32 ≡ length bs = omega arith in
    rw
      (
        read_uint32-held s off (length bs % 2 ^ 32) (bs ++ post) (omega arith) held,
        size,
        sub_slice-held s (off + 4) bs post inside behind,
      )
      (ap (λ n. ok (bs, n)) (omega (arith, length-prefixed bs)))
