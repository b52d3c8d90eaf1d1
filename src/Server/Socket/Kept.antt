-- ===== src/Server/Socket/Kept.antt =====
-- What dispatch of server/socket.go leaves of a socket.
use bit_socket_go.Base.{
  ◌≡◌, refl, ◌==◌, Bool-cases, inl, inr, Text, [], ◌∷◌, Option, none, some, Outcome, ok, stop,
  ◌>>=◌, ◌=?◌,
}
use bit_socket_go.Protocol.FrameType
use bit_socket_go.Protocol.Frame.{Serializers, Frame}
use bit_socket_go.Server.Types.{Socket, write, close, called, entered, exited}
use bit_socket_go.Server.Chain.{Effects}
use bit_socket_go.Server.Socket.{
  settle, send_encoded, process_event, dispatch, dispatch_type, join, leave, join_room, leave_room,
  room_from_payload,
}

fst_eq :
    {A : Type 0} {a b : A} {out out' : Effects}
    → ◌≡◌ {A = Outcome (A × Effects)} (ok (a, out)) (ok (b, out'))
    → a ≡ b
fst_eq e = cc

-- Of the fields of a socket the rooms at most are others.
abbrev pub SameBut : Socket → Socket → Type 0
SameBut s s' = s' ≡ record s { rooms = s'.rooms }

join_room-SameBut :
    (ser : Serializers) (s : Socket) (room : Option Text) → SameBut s (join_room ser s room)
unfolding join
join_room-SameBut ser s none = refl
join_room-SameBut ser s (some room) = refl

leave_room-SameBut :
    (ser : Serializers) (s : Socket) (room : Option Text) → SameBut s (leave_room ser s room)
unfolding leave
leave_room-SameBut ser s none = refl
leave_room-SameBut ser s (some room) = refl

Local : Socket → Outcome (Socket × Effects) → Type 0
Local s r = (s' : Socket) (out : Effects) → r ≡ ok (s', out) → SameBut s s'

quiet : (s t : Socket) → SameBut s t → Local s (ok (t, []))
unfolding Local
quiet s t h s' out e = rw (← fst_eq e) h

spoken : (s : Socket) (r : Outcome Effects) → Local s (r >>= λ out. ok (s, out))
unfolding Local
spoken s (ok o) s' out e = rw (← fst_eq e) refl
spoken s (stop x) s' out e = absurd (cc)

settle-SameBut : (es : Effects) (s : Socket) → SameBut s (settle es s)
unfolding settle join leave
settle-SameBut [] s = refl
settle-SameBut (entered room ∷ es) s = settle-SameBut es (join s room)
settle-SameBut (exited room ∷ es) s = settle-SameBut es (leave s room)
settle-SameBut (write c bs ∷ es) s = settle-SameBut es s
settle-SameBut (close c ∷ es) s = settle-SameBut es s
settle-SameBut (called event payload can ∷ es) s = settle-SameBut es s

settled : (s : Socket) (r : Outcome Effects) → Local s (r >>= λ out. ok (settle out s, out))
unfolding Local
settled s (ok o) s' out e = rw (← fst_eq e) (settle-SameBut o s)
settled s (stop x) s' out e = absurd (cc)

dispatch_type-Local :
    (ser : Serializers) (s : Socket) (frame : Frame) → Local s (dispatch_type ser s frame)
unfolding dispatch_type
dispatch_type-Local ser s frame = elim (Bool-cases (frame.frame_type == FrameType.event)) [
  | inl t ↦ rw t (settled s (process_event ser s frame))
  | inr n₁ ↦ elim (Bool-cases (frame.frame_type == FrameType.join)) [
    | inl t ↦ rw (n₁, t) (quiet s _ (join_room-SameBut ser s (room_from_payload frame.payload)))
    | inr n₂ ↦ elim (Bool-cases (frame.frame_type == FrameType.leave)) [
      | inl t ↦
          rw (n₁, n₂, t) (quiet s _ (leave_room-SameBut ser s (room_from_payload frame.payload)))
      | inr n₃ ↦ elim (Bool-cases (frame.frame_type == FrameType.ping)) [
        | inl t ↦ rw (n₁, n₂, n₃, t) (spoken s (send_encoded s _))
        | inr n₄ ↦ rw (n₁, n₂, n₃, n₄) (quiet s s refl)
      ]
    ]
  ]
]

-- A frame changes of its socket the rooms at most.
pub dispatch-SameBut :
    (ser : Serializers) (s : Socket) (frame : Frame) (s' : Socket) (out : Effects)
    → dispatch ser s frame ≡ ok (s', out)
    → SameBut s s'
unfolding dispatch Local
dispatch-SameBut ser s frame s' out e = elim (Bool-cases (frame.nsp =? s.nsp)) [
  | inl here ↦ dispatch_type-Local ser s frame s' out (rw here at e)
  | inr elsewhere ↦ quiet s s refl s' out (rw elsewhere at e)
]
