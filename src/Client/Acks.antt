-- ===== src/Client/Acks.antt =====
-- Acknowledgements: doEmit and handleMessage of client/client.go.
use bit_socket_go.Base.{
  ℕ, ◌≡◌, ◌≢◌, refl, ap, ◌∙◌, arith, ◌==◌, if◌then◌else◌, Text, List, [], ◌∷◌, none, some, Outcome,
  ok, >>=-eq-ok,
}
use bit_socket_go.Protocol.Types.{Value, Externals}
use bit_socket_go.Client.{
  Client, Action, answered, callback_at, forget_callback, send_made, handle_ack,
}
use bit_socket_go.Client.Emit.{take_number, do_emit}

pub callback_at-forget_callback :
    (n m : ℕ) (cs : List (ℕ × ℕ))
    → callback_at m (forget_callback n cs) ≡ (if n == m then none else callback_at m cs)
unfolding callback_at forget_callback
callback_at-forget_callback n m [] = ground arith
callback_at-forget_callback n m ((i, k) ∷ cs) = ground (arith, callback_at-forget_callback n m cs)

-- The numbers that wait for an answer after an emit with a callback.
pub callback_at-take_number :
    (c : Client) (k m : ℕ)
    → callback_at m (take_number c (some k)).0.callbacks
      ≡ (if c.ack_counter == m then some k else callback_at m c.callbacks)
unfolding callback_at take_number
callback_at-take_number c k m =
    ground (arith, callback_at-forget_callback c.ack_counter m c.callbacks)

pub do_emit-callbacks :
    (ext : Externals) (c c' : Client) (event nsp : Text) (payload : Value) (k : ℕ)
    (out : List Action)
    → do_emit ext c event payload (some k) nsp ≡ ok (c', out)
    → c' ≡ (take_number c (some k)).0
unfolding do_emit
do_emit-callbacks ext c c' event nsp payload k out e =
    let (o, e₁, k₁) = >>=-eq-ok (send_made (take_number c (some k)).0 _) _ e in fst_eq k₁
  where
    fst_eq :
        {a b : Client} {x y : List Action}
        → ◌≡◌ {A = Outcome (Client × List Action)} (ok (a, x)) (ok (b, y))
        → b ≡ a
    fst_eq h = cc

-- Each callback is called once: an emit with a callback that ends takes the counter's number, the first
-- acknowledgement with that number calls the callback with the answer, and after it the number calls
-- nothing, while the callbacks of the other numbers stay.
pub do_emit-handle_ack :
    (ext : Externals) (c c' : Client) (event nsp : Text) (payload answer : Value) (k : ℕ)
    (out : List Action)
    → do_emit ext c event payload (some k) nsp ≡ ok (c', out)
    → (c'' : Client) × (handle_ack c.ack_counter answer c' ≡ (c'', answered k answer ∷ []))
      × ((again : Value) → handle_ack c.ack_counter again c'' ≡ (c'', []))
      × ((m : ℕ) → m ≢ c.ack_counter → callback_at m c''.callbacks ≡ callback_at m c.callbacks)
unfolding handle_ack
do_emit-handle_ack ext c c' event nsp payload answer k out e =
    let n = c.ack_counter in
    let is = do_emit-callbacks ext c c' event nsp payload k out e in
    let there : callback_at n c'.callbacks ≡ some k =
      ap (λ x. callback_at n x.callbacks) is ∙ callback_at-take_number c k n ∙ ground arith in
    let gone : callback_at n (forget_callback n c'.callbacks) ≡ none =
      callback_at-forget_callback n n c'.callbacks ∙ ground arith in
    (
      record c' { callbacks = forget_callback n c'.callbacks },
      rw (handle_ack, there) refl,
      λ again. rw (handle_ack, gone) refl,
      λ m ne.
          callback_at-forget_callback n m c'.callbacks
          ∙ ground (arith, ap (λ x. callback_at m x.callbacks) is, callback_at-take_number c k m),
    )
