-- ===== src/Server/Namespace/Broadcast.antt =====
-- Who receives a broadcast of server/namespace.go.
use bit_socket_go.Base.{
  ℕ, ◌≡◌, ◌≢◌, ◌==◌, ◌↔◌, arith, lookup, Option-cases, refl, sym, ap, Bool, true, false, Bytes,
  Text, List, [], ◌∷◌, ◌++◌, get_elem?, Option, none, some, if◌then◌else◌, Bool-cases, inl, inr,
  ◌⊎◌, ok,
}
use bit_socket_go.Protocol.Types.{Value, Externals}
use bit_socket_go.Server.Types.{Socket, Namespace, Server, Effect, write}
use bit_socket_go.Server.Chain.{Effects}
use bit_socket_go.Server.Socket.{send, has_room}
use bit_socket_go.Server.Namespace.{
  broadcast, to_room, to_all, encode_event, to_excluding, emit_excluding,
}

-- A member that the message is for: it is there, it is one that is meant, and it is open.
pub record Receives (Meant : Socket → Type 0) (o : Option Socket) (conn : ℕ) : Type 0 where
  pub socket : Socket
  pub present : o ≡ some socket
  pub meant : Meant socket
  pub unclosed : socket.closed ≡ false
  pub connection : socket.conn ≡ conn

-- Some member of the list receives on `conn`.
abbrev pub SomeReceives : List Socket → (ℕ → Socket → Type 0) → ℕ → List ℕ → Type 0
SomeReceives store Meant conn [] = ⊥
SomeReceives store Meant conn (r ∷ rs) =
    Receives (Meant r) (get_elem? store r) conn ⊎ SomeReceives store Meant conn rs

-- Another socket than the sender.
abbrev pub IsOther : Option ℕ → ℕ → Socket → Type 0
IsOther exclude r s = exclude ≢ some r

-- Another socket than the sender, with the room in its set of rooms.
abbrev pub IsRoommate : Text → Option ℕ → ℕ → Socket → Type 0
IsRoommate room exclude r s = IsOther exclude r s × (lookup room s.rooms ≡ some tt)

SomeReceives-map :
    (store : List Socket) (P Q : ℕ → Socket → Type 0) (conn : ℕ) (rs : List ℕ)
    → ((r : ℕ) (s : Socket) → P r s → Q r s)
    → SomeReceives store P conn rs
    → SomeReceives store Q conn rs
SomeReceives-map store P Q conn [] f h = absurd h
SomeReceives-map store P Q conn (r ∷ rs) f (inl h) = inl (record {
  socket = h.socket;
  present = h.present;
  meant = f r h.socket h.meant;
  unclosed = h.unclosed;
  connection = h.connection;
})
SomeReceives-map store P Q conn (r ∷ rs) f (inr h) = inr (SomeReceives-map store P Q conn rs f h)

to_all_iff :
    (exclude : Option ℕ) (r : ℕ) (s : Socket) → (to_all exclude r s ≡ true) ↔ IsOther exclude r s
to_all_iff none r s = (λ h q. absurd (cc), λ h. refl)
to_all_iff (some x) r s = elim (Bool-cases (r == x)) [
  | inl same ↦
      let place : r ≡ x = ground (arith, same) in
      (λ h. absurd (cc (rw same at h)), λ h. absurd (h (ap some (sym place))))
  | inr other ↦ (λ h q. absurd (ground (arith, other, some_eq q)), λ h. rw other refl)
]
  where
    some_eq : {a b : ℕ} → ◌≡◌ {A = Option ℕ} (some a) (some b) → a ≡ b
    some_eq e = cc

has_room_iff :
    (s : Socket) (room : Text) → (has_room s room ≡ true) ↔ (lookup room s.rooms ≡ some tt)
unfolding has_room
has_room_iff s room = elim (Option-cases (lookup room s.rooms)) [
  | inl missing ↦ (λ h. absurd (cc (rw (has_room, missing) at h)), λ h. absurd (cc))
  | inr (u, found) ↦ (λ h. found, λ h. rw (has_room, found) refl)
]

to_room_iff :
    (room : Text) (exclude : Option ℕ) (r : ℕ) (s : Socket)
    → (to_room room exclude r s ≡ true) ↔ IsRoommate room exclude r s
to_room_iff room exclude r s = elim (Bool-cases (to_all exclude r s)) [
  | inl other ↦ (
    λ h. ((to_all_iff exclude r s).0 other, (has_room_iff s room).0 (rw other at h)),
    λ (_, inside). rw other ((has_room_iff s room).1 inside),
  )
  | inr same ↦ (
    λ h. absurd (cc (rw same at h)),
    λ (other, _). absurd (cc (same, (to_all_iff exclude r s).1 other)),
  )
]

-- What the code's test lets through.
abbrev Passes : (ℕ → Socket → Bool) → ℕ → Socket → Type 0
Passes keep r s = keep r s ≡ true

-- The effect is among the effects.
abbrev pub Occurs : Effect → Effects → Type 0
Occurs e [] = ⊥
Occurs e (x ∷ xs) = (x ≡ e) ⊎ Occurs e xs

Occurs-append : (e : Effect) (xs ys : Effects) → Occurs e (xs ++ ys) ↔ (Occurs e xs ⊎ Occurs e ys)
Occurs-append e [] ys = (λ o. inr o, elim [ inl h ↦ absurd h | inr o ↦ o ])
Occurs-append e (x ∷ xs) ys = (
  elim [
    | inl h ↦ inl (inl h)
    | inr o ↦ elim ((Occurs-append e xs ys).0 o) [ inl a ↦ inl (inr a) | inr b ↦ inr b ]
  ],
  elim [
    | inl h ↦ elim h [ inl p ↦ inl p | inr a ↦ inr ((Occurs-append e xs ys).1 (inl a)) ]
    | inr b ↦ inr ((Occurs-append e xs ys).1 (inr b))
  ],
)

-- One member's share of a broadcast.
abbrev share_of : (Socket → Bool) → Bytes → Option Socket → Effects
share_of keep buf o = elim o [ none ↦ [] | some s ↦ if keep s then send s buf else [] ]

module _ (keep : Socket → Bool) (buf : Bytes) where
  share-Occurs :
      (conn : ℕ) (o : Option Socket)
      → Receives (λ s. keep s ≡ true) o conn
      → Occurs (write conn buf) (share_of keep buf o)
  unfolding send
  share-Occurs conn o h =
      let open_ = h.unclosed in
      rw (h.present) (rw (h.meant) (rw open_ (inl (ap (λ c. write c buf) h.connection))))

  Occurs-share :
      (o : Option Socket) (e : Effect)
      → Occurs e (share_of keep buf o)
      → (c : ℕ) × (e ≡ write c buf) × Receives (λ s. keep s ≡ true) o c
  unfolding send
  Occurs-share none e h = absurd h
  Occurs-share (some s) e h = elim (Bool-cases (keep s)) [
    | inl kept ↦ elim (Bool-cases s.closed) [
      | inl closed ↦ absurd (rw (kept, closed) at h)
      | inr unclosed ↦
          let only : (write s.conn buf ≡ e) ⊎ ⊥ = rw (kept, unclosed) at h in
          elim only [
            | inr none_else ↦ absurd none_else
            | inl p ↦ (
              s.conn,
              sym p,
              record {
                socket = s;
                present = refl;
                meant = kept;
                unclosed = unclosed;
                connection = refl;
              },
            )
          ]
    ]
    | inr dropped ↦ absurd (rw dropped at h)
  ]

module _ (store : List Socket) (keep : ℕ → Socket → Bool) (buf : Bytes) where
  broadcast-Occurs :
      (rs : List ℕ) (conn : ℕ)
      → SomeReceives store (Passes keep) conn rs
      → Occurs (write conn buf) (broadcast store keep buf rs)
  unfolding broadcast
  broadcast-Occurs [] conn h = absurd h
  broadcast-Occurs (r ∷ rs) conn (inl h) =
      (Occurs-append _ (share_of (keep r) buf (get_elem? store r)) _).1
        (inl (share-Occurs (keep r) buf conn (get_elem? store r) h))
  broadcast-Occurs (r ∷ rs) conn (inr h) =
      (Occurs-append _ (share_of (keep r) buf (get_elem? store r)) _).1
        (inr (broadcast-Occurs rs conn h))

  Occurs-broadcast :
      (rs : List ℕ) (e : Effect)
      → Occurs e (broadcast store keep buf rs)
      → (conn : ℕ) × (e ≡ write conn buf) × SomeReceives store (Passes keep) conn rs
  unfolding broadcast
  Occurs-broadcast [] e h = absurd h
  Occurs-broadcast (r ∷ rs) e h =
      elim ((Occurs-append e (share_of (keep r) buf (get_elem? store r)) _).0 h) [
        | inl mine ↦
            let (conn, same, got) = Occurs-share (keep r) buf (get_elem? store r) e mine in
            (conn, same, inl got)
        | inr others ↦ let (conn, same, got) = Occurs-broadcast rs e others in (conn, same, inr got)
      ]

-- Who is let through by the code's test, and who is meant.
module _ (store : List Socket) (keep : ℕ → Socket → Bool) (Meant : ℕ → Socket → Type 0) where
  broadcast_iff :
      (buf : Bytes) (rs : List ℕ) (out : Effects) (e : Effect)
      → ((r : ℕ) (s : Socket) → (keep r s ≡ true) ↔ Meant r s)
      → broadcast store keep buf rs ≡ out
      → Occurs e out ↔ ((conn : ℕ) × (e ≡ write conn buf) × SomeReceives store Meant conn rs)
  broadcast_iff buf rs out e right same = (
    λ h.
        let (conn, is, got) = Occurs-broadcast store keep buf rs e (rw (← same) at h) in
        (conn, is, SomeReceives-map store (Passes keep) Meant conn rs (λ r s. (right r s).0) got),
    λ (conn, is, got).
        let passing =
          SomeReceives-map store Meant (Passes keep) conn rs (λ r s. (right r s).1) got in
        rw (is, ← same) (broadcast-Occurs store keep buf rs conn passing),
  )

-- A message to a room whose frame can be made, sent by the socket `exclude` or by nobody in
-- particular, does exactly this: it is written to the connection of each member of the namespace that
-- is open, has the room in its set of rooms and is not the sender; and nothing else is written, and no
-- connection closed.
pub to_excluding-Occurs :
    (ext : Externals) (srv : Server) (ns : Namespace) (room event : Text) (payload : Value)
    (exclude : Option ℕ) (buf : Bytes) (out : Effects) (e : Effect)
    → encode_event ext srv ns event payload ≡ ok buf
    → to_excluding ext srv ns room event payload exclude ≡ ok out
    → Occurs e out ↔ (
        (conn : ℕ) × (e ≡ write conn buf)
        × SomeReceives srv.store (IsRoommate room exclude) conn ns.members)
unfolding to_excluding
to_excluding-Occurs ext srv ns room event payload exclude buf out e made sent =
    broadcast_iff srv.store (to_room room exclude) (IsRoommate room exclude) buf ns.members out e
      (to_room_iff room exclude) (cc (rw made at sent))

-- Likewise, a message to the whole namespace whose frame can be made is written to the connection of
-- each open member that is not the sender, and nothing else is done.
pub emit_excluding-Occurs :
    (ext : Externals) (srv : Server) (ns : Namespace) (event : Text) (payload : Value)
    (exclude : Option ℕ) (buf : Bytes) (out : Effects) (e : Effect)
    → encode_event ext srv ns event payload ≡ ok buf
    → emit_excluding ext srv ns event payload exclude ≡ ok out
    → Occurs e out ↔ (
        (conn : ℕ) × (e ≡ write conn buf)
        × SomeReceives srv.store (IsOther exclude) conn ns.members)
unfolding emit_excluding
emit_excluding-Occurs ext srv ns event payload exclude buf out e made sent =
    broadcast_iff srv.store (to_all exclude) (IsOther exclude) buf ns.members out e
      (to_all_iff exclude) (cc (rw made at sent))
