-- ===== src/Client/Reconnect.antt =====
-- The end of a connection and the way to the next one: connect, readLoop, handleClose and
-- executeReconnectionSchedule of client/client.go.
use bit_socket_go.Base.{
  ℕ, zero, suc, append-nil, ◌+◌, ◌≤◌, ◌<◌, ◌≡◌, refl, sym, ap, ◌∙◌, arith, Bool, true, false, ltb,
  List, [], ◌∷◌, ◌++◌, All, text, pos, Option, none, some, Outcome, ok, stop, >>=-eq-ok, exhausted,
  ◌>>=◌,
}
use bit_socket_go.Protocol.Types.{Value, signed, native, Externals}
use bit_socket_go.Protocol.Words.{Slice}
use bit_socket_go.Protocol.SchemaWire.{Msgpack}
use bit_socket_go.Client.{
  Client, Action, handled, planned, trigger_all, handle_message, handle_close,
}
use bit_socket_go.Client.Connect.{connect, connects, connect_lem}
use bit_socket_go.Client.Lifecycle.{IsHandled, trigger_all-OnlyCalls}
use bit_socket_go.Client.Namespace.{close_client}

-- `connect`, with whether the dialling succeeds.
unfoldable pub dial : Bool → Client → Outcome (Client × List Action)
dial true c = connect c
dial false c = handle_close c

-- The timer's function in `executeReconnectionSchedule`; the attempt is a Go int.
unfoldable pub reconnect : ℕ → Bool → Client → Outcome (Client × List Action)
reconnect attempt answers c = do
  out ← trigger_all c.namespaces (text "reconnecting") (signed native (pos attempt))
  (c', outs) ← dial answers c
  ok (c', out ++ outs)

-- `readLoop`, on the messages that come before the first error.
unfoldable pub read_loop :
    Msgpack → Externals → List Slice → Client → Outcome (Client × List Action)
read_loop mp ext [] c = handle_close c
read_loop mp ext (raw ∷ rest) c = do
  (c₁, out) ← handle_message mp ext raw c
  (c₂, outs) ← read_loop mp ext rest c₁
  ok (c₂, out ++ outs)

-- The attempt that was planned last.
abbrev pub planned_in : List Action → Option ℕ
planned_in [] = none
planned_in (planned k ∷ rest) = some k
planned_in (a ∷ rest) = planned_in rest

-- While no dialling succeeds, every planned attempt is made when its timer has run out; the attempts
-- that were made. The bound counts them.
unfoldable pub retry : ℕ → Option ℕ → Client → Outcome (Client × List ℕ)
retry zero pending c = stop exhausted
retry (suc fuel) none c = ok (c, [])
retry (suc fuel) (some k) c = do
  (c₁, out) ← reconnect k false c
  (c₂, made) ← retry fuel (planned_in out) c₁
  ok (c₂, k ∷ made)

unfoldable pub lose : ℕ → Client → Outcome (Client × List ℕ)
lose fuel c = do (c', out) ← handle_close c; retry fuel (planned_in out) c'

-- The `n` attempts after attempt `a`.
abbrev pub attempts_after : ℕ → ℕ → List ℕ
attempts_after a zero = []
attempts_after a (suc n) = (a + 1) ∷ attempts_after (a + 1) n

planned_in-IsHandled :
    (xs ys : List Action) → All IsHandled xs → planned_in (xs ++ ys) ≡ planned_in ys
planned_in-IsHandled [] ys h = refl
planned_in-IsHandled (handled event payload ∷ xs) ys h = planned_in-IsHandled xs ys h.1
planned_in-IsHandled (planned k ∷ xs) ys h = absurd h.0
planned_in-IsHandled (Action.sent b ∷ xs) ys h = absurd h.0
planned_in-IsHandled (Action.answered n v ∷ xs) ys h = absurd h.0
planned_in-IsHandled (Action.hung_up ∷ xs) ys h = absurd h.0

abbrev shut : Client → Client
shut c = record c { connected = false; pinging = false; pong_armed = false }

module _ (c : Client) (on : c.auto_reconnect ≡ true) (wanted : c.closed_by_user ≡ false) where
  handle_close-plans :
      c.reconnect_attempts < c.max_attempts
      → (out : List Action) × (handle_close c
          ≡ ok (record (shut c) { reconnect_attempts = c.reconnect_attempts + 1 }, out))
        × (planned_in out ≡ some (c.reconnect_attempts + 1))
  unfolding handle_close
  handle_close-plans few =
      let (out, e, calls) = trigger_all-OnlyCalls c.namespaces (text "disconnect") Value.null in
      let below : ltb c.reconnect_attempts c.max_attempts ≡ true = ground arith in
      (
        out ++ planned (c.reconnect_attempts + 1) ∷ [],
        rw (handle_close, e) (rw (wanted, on, below) refl),
        planned_in-IsHandled out _ calls,
      )

  handle_close-ends :
      c.max_attempts ≤ c.reconnect_attempts
      → (out : List Action) × (handle_close c ≡ ok (shut c, out)) × (planned_in out ≡ none)
  unfolding handle_close
  handle_close-ends many =
      let (out, e, calls) = trigger_all-OnlyCalls c.namespaces (text "disconnect") Value.null in
      let past : ltb c.reconnect_attempts c.max_attempts ≡ false = ground arith in
      (
        out,
        rw (handle_close, e) (rw (wanted, on, past) refl),
        ap planned_in (sym (append-nil out)) ∙ planned_in-IsHandled out [] calls,
      )

module _ (c : Client) where
  reconnect-fails :
      (k : ℕ) (c' : Client) (out : List Action)
      → handle_close c ≡ ok (c', out)
      → (outs : List Action) × (reconnect k false c ≡ ok (c', outs))
        × (planned_in outs ≡ planned_in out)
  unfolding reconnect dial
  reconnect-fails k c' out e =
      let (calls, e₁, only) =
        trigger_all-OnlyCalls c.namespaces (text "reconnecting") (signed native (pos k)) in
      (calls ++ out, rw (reconnect, e₁, dial, e) refl, planned_in-IsHandled calls out only)

  retry-fails :
      (fuel k : ℕ) (c' c'' : Client) (out : List Action) (made : List ℕ)
      → handle_close c ≡ ok (c', out)
      → retry fuel (planned_in out) c' ≡ ok (c'', made)
      → retry (suc fuel) (some k) c ≡ ok (c'', k ∷ made)
  unfolding retry
  retry-fails fuel k c' c'' out made e rest =
      let (outs, e₁, same) = reconnect-fails k c' out e in rw (retry, e₁) (rw (same, rest) refl)

-- A client that reconnects by itself and loses its connection makes, while no dialling succeeds, each
-- of the attempts that are left up to its maximum, in order, and then no more: it ends without a
-- connection, with a count of its maximum. A bound greater than the attempts left is enough.
pub lose_lem :
    (left fuel : ℕ) (c : Client)
    → c.auto_reconnect ≡ true
    → c.closed_by_user ≡ false
    → c.max_attempts ≡ c.reconnect_attempts + left
    → left < fuel
    → (c' : Client) × (lose fuel c ≡ ok (c', attempts_after c.reconnect_attempts left))
      × (c'.reconnect_attempts ≡ c.max_attempts)
      × (c'.connected ≡ false)
unfolding lose retry
lose_lem left zero c on wanted count few = absurd (omega arith)
lose_lem zero (suc fuel) c on wanted count few =
    let (out, e, none_planned) = handle_close-ends c on wanted (omega arith) in
    (shut c, rw (lose, e) (rw (none_planned) refl), omega arith, refl)
lose_lem (suc left) (suc fuel) c on wanted count few =
    let a = c.reconnect_attempts in
    let c₁ : Client = record (shut c) { reconnect_attempts = a + 1 } in
    let (out, e, is) = handle_close-plans c on wanted (omega arith) in
    let (c₂, rest, max, off) = lose_lem left fuel c₁ on wanted (omega arith) (omega arith) in
    let ((c₃, outs), e₁, k₁) = >>=-eq-ok (handle_close c₁) _ rest in
    (c₂, rw (lose, e) (rw is (retry-fails c₁ fuel (a + 1) c₃ c₂ outs _ e₁ k₁)), max, off)

-- Close does not call off an attempt that is planned: when its timer has run out and the dialling
-- succeeds, the client that its user has closed has a connection again, and joins its namespaces.
pub reconnect-close_client :
    (attempt : ℕ) (c : Client)
    → c.connected ≡ false
    → (c' : Client) × (out : List Action) × (close_client c
        ≡ (record c { closed_by_user = true }, []))
      × (reconnect attempt true (close_client c).0 ≡ ok (c', out ++ connects c.namespaces))
      × (c'.connected ≡ true)
      × (c'.closed_by_user ≡ true)
unfolding reconnect dial close_client
reconnect-close_client attempt c off =
    let (out, e, only) =
      trigger_all-OnlyCalls c.namespaces (text "reconnecting") (signed native (pos attempt)) in
    let closed : Client = record c { closed_by_user = true } in
    (
      record closed { connected = true; reconnect_attempts = 0 },
      out,
      rw off refl,
      rw (reconnect, e, connect_lem closed) refl,
      refl,
      refl,
    )
