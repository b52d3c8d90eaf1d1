-- ===== src/Protocol/Schema/Agree.antt =====
-- The two passes of the encoder in protocol/schema.go against the one-pass reference: what each
-- pass does on a part of a payload, and how the parts compose.
pub mod Passes
use native.Mathlib.Nat.{add_assoc, add-zero}
use bit_socket_go.Base.{
  ℕ, zero, suc, ◌+◌, ◌≤◌, ◌%◌, ◌^◌, ◌≡◌, refl, sym, ap, ◌∙◌, arith, Bytes, [], ◌∷◌, ◌++◌,
  append_assoc, append-nil, length, length-append, length-drop, drop, drop-add, drop-drop,
  get_elem?-drop, Outcome, Stop, ok, stop, ◌>>=◌,
}
use bit_socket_go.Protocol.Words.{put_uint32}
use bit_socket_go.Protocol.Schema.Buffer.{Writer, at, put, copy_in, put-at, copy_in-at}
use bit_socket_go.Protocol.Schema.Encode.{Queue, write_queued}
use bit_socket_go.Protocol.Schema.Layout.{prefixed, length_word, length-prefixed}

-- From the queued strings `qs` on, `write` puts `bs` at the writer's offset, and takes the `qs`.
abbrev pub Writes : (Queue → Writer → Outcome Writer) → Bytes → Queue → Type 0
Writes write bs qs =
    (queue more : Queue) (done room : Bytes) (i : ℕ)
    → drop i queue ≡ qs ++ more
    → length bs ≤ length room
    → write queue (at done room i) ≡ ok (at (done ++ bs) (drop (length bs) room) (i + length qs))

-- The first pass adds the length of the bytes to `base` and queues strings that the second pass
-- takes; or both stop alike.
pub data Agrees (base : ℕ) (size : Queue → Outcome (ℕ × Queue))
    (write : Queue → Writer → Outcome Writer) : Outcome Bytes → Type 0 where
  good :
      {bs : Bytes} (n : ℕ) (qs : Queue)
      → n ≡ base + length bs
      → ((queue : Queue) → size queue ≡ ok (n, queue ++ qs))
      → Writes write bs qs
      → Agrees base size write (ok bs)
  bad : {s : Stop} → ((queue : Queue) → size queue ≡ stop s) → Agrees base size write (stop s)

pub Writes-seq :
    (w₁ w₂ : Queue → Writer → Outcome Writer) (b₁ b₂ : Bytes) (q₁ q₂ : Queue)
    → Writes w₁ b₁ q₁
    → Writes w₂ b₂ q₂
    → Writes (λ q w. w₁ q w >>= w₂ q) (b₁ ++ b₂) (q₁ ++ q₂)
Writes-seq w₁ w₂ b₁ b₂ q₁ q₂ h₁ h₂ queue more done room i e fits =
    rw (h₁ queue (q₂ ++ more) done room i (e ∙ append_assoc q₁ q₂ more) (omega (arith, sizes))) (
      h₂ queue more (done ++ b₁) (drop (length b₁) room) (i + length q₁)
        (drop-add i queue q₁ (q₂ ++ more) (e ∙ append_assoc q₁ q₂ more))
        (omega (arith, sizes, length-drop (length b₁) room))
      ∙ simp (append_assoc, drop-drop, length-append, add_assoc))
  where
    sizes : length b₁ + length b₂ ≤ length room
    sizes = omega (arith, length-append b₁ b₂)

Agrees-then :
    {base : ℕ} {b₁ : Bytes} {r : Outcome Bytes} {s₂ : Queue → Outcome (ℕ × Queue)}
    {w₂ : Queue → Writer → Outcome Writer} (w₁ : Queue → Writer → Outcome Writer) (n₁ : ℕ)
    (q₁ : Queue) (size : Queue → Outcome (ℕ × Queue))
    → n₁ ≡ length b₁
    → ((queue : Queue) → size queue ≡ s₂ (queue ++ q₁))
    → Writes w₁ b₁ q₁
    → Agrees (base + n₁) s₂ w₂ r
    → Agrees base size (λ q w. w₁ q w >>= w₂ q) (r >>= λ bs. ok (b₁ ++ bs))
Agrees-then {base} {b₁} {w₂ = w₂} w₁ n₁ q₁ size e sizes h₁ (good {bs} n₂ q₂ e₂ sizes₂ h₂) =
    good n₂ (q₁ ++ q₂) (omega (arith, length-append b₁ bs))
      (λ queue. sizes queue ∙ rw (sizes₂ (queue ++ q₁)) (rw append_assoc))
      (Writes-seq w₁ w₂ b₁ bs q₁ q₂ h₁ h₂)
Agrees-then w₁ n₁ q₁ size e sizes h₁ (bad stops) = bad (λ queue. sizes queue ∙ stops (queue ++ q₁))

-- Two parts in a row, as the loops of both passes run them.
pub Agrees-seq :
    {base : ℕ} {r₁ r₂ : Outcome Bytes} {s₁ : Queue → Outcome (ℕ × Queue)}
    {w₁ w₂ : Queue → Writer → Outcome Writer} (s₂ : ℕ → Queue → Outcome (ℕ × Queue))
    → Agrees 0 s₁ w₁ r₁
    → ((n : ℕ) → Agrees (base + n) (s₂ (base + n)) w₂ r₂)
    → Agrees base
        (λ q. s₁ q >>= λ (s, q'). s₂ (base + s) q')
        (λ q w. w₁ q w >>= w₂ q)
        (r₁ >>= λ b. r₂ >>= λ bs. ok (b ++ bs))
Agrees-seq {w₁ = w₁} s₂ (good n q₁ e sizes h) next =
    Agrees-then w₁ n q₁ _ (omega arith) (λ queue. rw (sizes queue)) h (next n)
Agrees-seq s₂ (bad stops) next = bad (λ queue. rw (stops queue))

-- An empty part writes nothing.
pub Writes-nothing : Writes (λ q w. ok w) [] []
Writes-nothing queue more done room i e fits = rw (append-nil, add-zero)

pub put-Writes : (bs : Bytes) → Writes (λ q w. put bs w) bs []
put-Writes bs queue more done room i e fits = put-at bs done room i fits ∙ rw add-zero

-- A word of `n` bytes, which queues nothing.
pub Agrees-put :
    (n : ℕ) (bs : Bytes) → n ≡ length bs → Agrees 0 (λ q. ok (n, q)) (λ q w. put bs w) (ok bs)
Agrees-put n bs e = good n [] (omega arith) (λ queue. rw append-nil) (put-Writes bs)

-- A word in front, which `base` already counts.
pub Agrees-header :
    {base : ℕ} {r : Outcome Bytes} {size : Queue → Outcome (ℕ × Queue)}
    {write : Queue → Writer → Outcome Writer} (bs : Bytes)
    → length bs ≡ base
    → Agrees base size write r
    → Agrees 0 size (λ q w. put bs w >>= write q) (r >>= λ rest. ok (bs ++ rest))
Agrees-header {write = write} bs e (good {bs = rest} n qs en sizes h) =
    good n qs (omega (arith, length-append bs rest)) sizes
      (Writes-seq (λ q w. put bs w) write bs rest [] qs (put-Writes bs) h)
Agrees-header bs e (bad stops) = bad stops

pub copy-Writes : (bs : Bytes) → Writes (λ q w. copy_in bs w) bs []
copy-Writes bs queue more done room i e fits = copy_in-at bs done room i fits ∙ rw add-zero

direct-Writes :
    (bs : Bytes) → Writes (λ q w. put (length_word bs) w >>= copy_in bs) (prefixed bs) []
direct-Writes bs =
    Writes-seq (λ q w. put (length_word bs) w) (λ q w. copy_in bs w) (length_word bs) bs [] []
      (put-Writes (length_word bs)) (copy-Writes bs)

queued-Writes : (bs : Bytes) → Writes write_queued (prefixed bs) (bs ∷ [])
unfolding write_queued
queued-Writes bs queue more done room i e fits =
    rw (get_elem?-drop i queue more bs e)
      (direct-Writes bs queue (drop (i + 1) queue) done room (i + 1) refl fits ∙ rw add-zero)

-- Bytes behind their length, taken from the value in both passes.
pub Agrees-direct :
    (bs : Bytes)
    → Agrees 0
        (λ q. ok (4 + length bs, q))
        (λ q w. put (length_word bs) w >>= copy_in bs)
        (ok (prefixed bs))
Agrees-direct bs =
    good (4 + length bs) [] (omega (arith, length-prefixed bs)) (λ queue. rw append-nil)
      (direct-Writes bs)

-- Bytes behind their length, queued by the first pass and taken from the queue by the second.
pub Agrees-queued :
    (bs : Bytes) → Agrees 0 (λ q. ok (4 + length bs, q ++ bs ∷ [])) write_queued (ok (prefixed bs))
Agrees-queued bs =
    good (4 + length bs) (bs ∷ []) (omega (arith, length-prefixed bs)) (λ queue. refl)
      (queued-Writes bs)
