-- ===== src/Client/Numbers.antt =====
-- The acknowledgement numbers that doEmit of client/client.go takes: a uint32 counter.
use bit_socket_go.Base.{
  ℕ, zero, suc, ◌+◌, ◌%◌, ◌≤◌, ◌<◌, ◌^◌, ◌≡◌, ◌≢◌, refl, sym, ap, ◌∙◌, arith, Text, Bytes, List, [],
  ◌∷◌, true, All, length, get_elem?, Option, some, Outcome, ok, ◌>>=◌,
}
use bit_socket_go.Protocol.Types.{Value, Externals}
use bit_socket_go.Protocol.FrameType
use bit_socket_go.Protocol.Frame.{payload_bytes, nsp_or_root}
use bit_socket_go.Protocol.Frame.Encoding.{frame_bytes, encode_frame-layout}
use bit_socket_go.Client.{Client, Action, sent, callback_at, send_made, safe_send}
use bit_socket_go.Client.Emit.{take_number, emit_serializers, do_emit}
use bit_socket_go.Client.Acks.{callback_at-take_number}

-- An emit with a callback, and the bytes that its payload is to be encoded to.
pub record Request : Type 0 where
  pub event : Text
  pub payload : Value
  pub packed : Bytes
  pub callback : ℕ
  pub nsp : Text

-- Emits with callbacks in a row, and what each puts out.
unfoldable pub emit_all : Externals → List Request → Client → Outcome (Client × List (List Action))
emit_all ext [] c = ok (c, [])
emit_all ext (q ∷ qs) c = do
  (c₁, out) ← do_emit ext c q.event q.payload (some q.callback) q.nsp
  (c₂, outs) ← emit_all ext qs c₁
  ok (c₂, out ∷ outs)

-- The client's codec, or its schema of the event, encodes the payload to those bytes.
abbrev pub Encodes : Externals → Client → Request → Type 0
Encodes ext c q = payload_bytes q.payload (emit_serializers ext c q.event q.nsp) ≡ ok q.packed

-- The frame of an emit that carries the number `n`.
abbrev pub sent_as : ℕ → Request → List Action
sent_as n q = sent (frame_bytes FrameType.event (nsp_or_root q.nsp) q.event n q.packed) ∷ []

module _ (ext : Externals) where
  do_emit-sent_as :
      (c : Client) (q : Request)
      → c.connected ≡ true
      → Encodes ext c q
      → do_emit ext c q.event q.payload (some q.callback) q.nsp
        ≡ ok ((take_number c (some q.callback)).0, sent_as c.ack_counter q)
  unfolding do_emit take_number send_made safe_send
  do_emit-sent_as c q up encodes = rw (encode_frame-layout, encodes, up) refl

  -- The numbers that wait afterwards.
  abbrev Waiting : ℕ → Client → List Request → List (List Action) → Type 0
  Waiting a c' qs outs =
      (i : ℕ) (q : Request)
      → get_elem? qs i ≡ some q
      → (get_elem? outs i ≡ some (sent_as ((a + i) % 2 ^ 32) q))
        × (callback_at ((a + i) % 2 ^ 32) c'.callbacks ≡ some q.callback)

  abbrev Untaken : ℕ → ℕ → ℕ → Type 0
  Untaken a n m = (i : ℕ) → i < n → (a + i) % 2 ^ 32 ≢ m

  option_eq : {A : Type 0} {x y : A} → ◌≡◌ {A = Option A} (some x) (some y) → x ≡ y
  option_eq e = cc

  Waiting-cons :
      (a : ℕ) (c' : Client) (q : Request) (qs : List Request) (outs : List (List Action))
      → a < 2 ^ 32
      → callback_at a c'.callbacks ≡ some q.callback
      → Waiting ((a + 1) % 2 ^ 32) c' qs outs
      → Waiting a c' (q ∷ qs) (sent_as a q ∷ outs)
  Waiting-cons a c' q qs outs small mine waiting zero x e =
      let place : a ≡ (a + 0) % 2 ^ 32 = omega arith in
      let same : q ≡ x = option_eq e in
      (
        ap (λ n. some (sent_as n q)) place ∙ ap (λ r. some (sent_as ((a + 0) % 2 ^ 32) r)) same,
        ap (λ n. callback_at n c'.callbacks) (sym place) ∙ mine ∙ ap (λ r. some r.callback) same,
      )
  Waiting-cons a c' q qs outs small mine waiting (suc i) x e =
      let place : ((a + 1) % 2 ^ 32 + i) % 2 ^ 32 ≡ (a + suc i) % 2 ^ 32 = omega arith in
      let (out, waits) = waiting i x e in
      (
        out ∙ ap (λ n. some (sent_as n x)) place,
        ap (λ n. callback_at n c'.callbacks) (sym place) ∙ waits,
      )

  emit_all-Waiting :
      (qs : List Request) (c : Client)
      → c.connected ≡ true
      → c.ack_counter < 2 ^ 32
      → length qs ≤ 2 ^ 32
      → All (Encodes ext c) qs
      → (c' : Client) × (outs : List (List Action)) × (emit_all ext qs c ≡ ok (c', outs))
        × Waiting c.ack_counter c' qs outs
        × ((m : ℕ)
            → Untaken c.ack_counter (length qs) m
            → callback_at m c'.callbacks ≡ callback_at m c.callbacks)
  unfolding emit_all take_number
  emit_all-Waiting [] c up small few encodes = (c, [], refl, λ i q e. absurd (cc), λ m h. refl)
  emit_all-Waiting (q ∷ qs) c up small few encodes =
      let a = c.ack_counter in
      let c₁ = (take_number c (some q.callback)).0 in
      let (c₂, outs, e, waiting, kept) =
        emit_all-Waiting qs c₁ up (omega arith) (omega arith) encodes.1 in
      let registered = λ (m : ℕ). callback_at-take_number c q.callback m in
      (
        c₂,
        sent_as a q ∷ outs,
        ap (λ r. r >>= λ (d, out). emit_all ext qs d >>= λ (d', more). ok (d', out ∷ more))
              (do_emit-sent_as c q up encodes.0)
            ∙ ap (λ r. r >>= λ (d', more). ok (d', sent_as a q ∷ more)) e,
        Waiting-cons a c₂ q qs outs small
            (kept a (λ i h same. absurd (omega (arith, same, h, small, few)))
              ∙ registered a
              ∙ ground arith)
            waiting,
        λ m free.
            let other : a ≢ m = λ same. free zero (omega arith) (omega (arith, same, small)) in
            kept m (λ i h same. free (suc i) (omega arith) (omega (arith, same)))
            ∙ registered m
            ∙ ground (arith, other),
      )

  -- Up to 2 ^ 32 emits with callbacks in a row, by a connected client that can encode their payloads,
  -- take the counter's number and the next ones modulo 2 ^ 32: each puts out one EVENT frame, with its
  -- number, and afterwards the number of each has the callback of that emit waiting.
  pub emit_all-numbers :
      (qs : List Request) (c : Client)
      → c.connected ≡ true
      → c.ack_counter < 2 ^ 32
      → length qs ≤ 2 ^ 32
      → All (Encodes ext c) qs
      → (c' : Client) × (outs : List (List Action)) × (emit_all ext qs c ≡ ok (c', outs))
        × ((i : ℕ) (q : Request)
            → get_elem? qs i ≡ some q
            → (get_elem? outs i ≡ some (sent_as ((c.ack_counter + i) % 2 ^ 32) q))
              × (callback_at ((c.ack_counter + i) % 2 ^ 32) c'.callbacks ≡ some q.callback))
  emit_all-numbers qs c up small few encodes =
      let (c', outs, e, waiting, kept) = emit_all-Waiting qs c up small few encodes in
      (c', outs, e, waiting)
