-- ===== src/Server/World/Messages.antt =====
-- The invariant under a message: handleMessage of server/hub.go.
use bit_socket_go.Base.{
  ℕ, ◌≡◌, refl, sym, ap, ◌∙◌, Bool, true, false, Option-cases, inl, inr, ◌==◌, ◌=?◌, if◌then◌else◌,
  Text, [], text, Option, none, some, lookup, Outcome, ok, stop, error, panic, exhausted, >>=-eq-ok,
}
use bit_socket_go.Protocol.Types.{Externals}
use bit_socket_go.Protocol.Words.{Slice}
use bit_socket_go.Protocol.FrameType
use bit_socket_go.Protocol.Frame.{Frame, decode_frame}
use bit_socket_go.Server.Types.{Socket}
use bit_socket_go.Server.Chain.{Effects}
use bit_socket_go.Server.Socket.{dispatch}
use bit_socket_go.Server.Socket.Kept.{SameBut, dispatch-SameBut}
use bit_socket_go.Server.Hub.{
  State, socket_at, change_socket, dispatch_frame, handle_frame, handle_message, hub_serializers,
}
use bit_socket_go.Server.World.Places.{Joined, SoundServer, Grows-refl}
use bit_socket_go.Server.World.Connects.{
  Sound, Keeping, Keeping-ok, change_socket-Sound, handle_namespace_connect-Keeping,
}

Keeping-if :
    (st : State) (b : Bool) (x y : Outcome (State × Effects))
    → Keeping st x
    → Keeping st y
    → Keeping st (if b then x else y)
Keeping-if st true x y h k = h
Keeping-if st false x y h k = k

socket_eq : {a b : Socket} → ◌≡◌ {A = Option Socket} (some a) (some b) → a ≡ b
socket_eq e = cc

module _ (ext : Externals) (st : State) (sound : SoundServer st.server)
    (joined : Joined st.server st.hub.conn st.hub.joined) where
  unmoved : Sound st.server st.hub.conn st
  unmoved = (Grows-refl st.server, sound, joined, refl)

  dispatch_frame-Keeping : (r : ℕ) (frame : Frame) → Keeping st (dispatch_frame ext r frame st)
  unfolding dispatch_frame
  dispatch_frame-Keeping r frame st' out e = elim (Option-cases (socket_at r st.server)) [
    | inl gone ↦ Keeping-ok st st [] unmoved st' out (rw (dispatch_frame, gone) at e)
    | inr (s, here) ↦
        let ((s', o), e₁, k₁) =
          >>=-eq-ok (dispatch st.server.serializers s frame) _ (rw (dispatch_frame, here) at e) in
        let same = dispatch-SameBut st.server.serializers s frame s' o e₁ in
        Keeping-ok st (change_socket r (λ t. s') st) o
          (change_socket-Sound st.server st.hub.conn r (λ t. s') st
            (λ x found. kept s s' x same (socket_eq (sym here ∙ found))) unmoved)
          st' out k₁
  ]
    where
      kept : (s s' x : Socket) → SameBut s s' → s ≡ x → (s'.nsp ≡ x.nsp) × (s'.conn ≡ x.conn)
      kept s s' x same is =
          (ap (λ t. t.nsp) same ∙ ap (λ t. t.nsp) is, ap (λ t. t.conn) same ∙ ap (λ t. t.conn) is)

  joined_frame :
      (frame : Frame) (found : Option ℕ)
      → Keeping st (elim found [ none ↦ ok (st, []) | some r ↦ dispatch_frame ext r frame st ])
  joined_frame frame none = Keeping-ok st st [] unmoved
  joined_frame frame (some r) = dispatch_frame-Keeping r frame

  handle_frame-Keeping : (id : Text) (frame : Frame) → Keeping st (handle_frame ext id frame st)
  unfolding handle_frame
  handle_frame-Keeping id frame =
      Keeping-if st (frame.frame_type == FrameType.connect) _ _
        (Keeping-if st (frame.nsp =? text "/") _ _ (Keeping-ok st st [] unmoved)
          (handle_namespace_connect-Keeping ext id frame.nsp st sound joined))
        (joined_frame frame (lookup frame.nsp st.hub.joined))

  decoded :
      (id : Text) (result : Outcome Frame)
      → Keeping st (elim result [
        | ok frame ↦ handle_frame ext id frame st
        | stop (error e) ↦ ok (st, [])
        | stop panic ↦ stop panic
        | stop exhausted ↦ stop exhausted
      ])
  decoded id (ok frame) = handle_frame-Keeping id frame
  decoded id (stop (error x)) = Keeping-ok st st [] unmoved
  decoded id (stop panic) = λ st' out e. absurd (cc)
  decoded id (stop exhausted) = λ st' out e. absurd (cc)

  pub handle_message-Keeping : (id : Text) (raw : Slice) → Keeping st (handle_message ext id raw st)
  unfolding handle_message
  handle_message-Keeping id raw = decoded id (decode_frame raw (hub_serializers ext st.server))
