-- ===== src/Server/Namespace/Order.antt =====
-- Emit and To of server/namespace.go, and the order in which Go gives out the sockets of a namespace.
use mathlib.Core.List.{Perm, Permᴰ}
use mathlib.Core.List.Permᴰ
use mathlib.Core.List.Perm
use mathlib.Core.Path.{subst}
use mathlib.Core.Logic.{∥∥₁_elim}
use bit_socket_go.Base.{
  ℕ, ◌≡◌, refl, Bool, Bytes, Text, List, [], ◌∷◌, ◌++◌, append_assoc, get_elem?, Option, none, some,
  if◌then◌else◌, Outcome, ok, stop, error, panic, exhausted,
}
use bit_socket_go.Protocol.Types.{Value, Externals}
use bit_socket_go.Server.Types.{Socket, Namespace, Server}
use bit_socket_go.Server.Chain.{Effects}
use bit_socket_go.Server.Socket.{send}
use bit_socket_go.Server.Namespace.{
  broadcast, to_room, to_all, encode_event, unless_error, schema_for, serializers_for, to_excluding,
  emit_excluding,
}

module _ (store : List Socket) (keep : ℕ → Socket → Bool) (buf : Bytes) where
  abbrev share : ℕ → Effects
  share r = elim (get_elem? store r) [ none ↦ [] | some s ↦ if keep r s then send s buf else [] ]

  shares_swap :
      (a b : ℕ) (rest : Effects)
      → Permᴰ (share a ++ (share b ++ rest)) (share b ++ (share a ++ rest))
  shares_swap a b rest =
      subst (λ xs. Permᴰ xs (share b ++ (share a ++ rest))) (append_assoc (share a) (share b) rest)
        (subst (Permᴰ ((share a ++ share b) ++ rest)) (append_assoc (share b) (share a) rest)
          (Permᴰ.append_right rest (Permᴰ.append_comm (share a) (share b))))

  broadcast-Permᴰ :
      {ms ms' : List ℕ}
      → Permᴰ ms ms'
      → Permᴰ (broadcast store keep buf ms) (broadcast store keep buf ms')
  unfolding broadcast
  broadcast-Permᴰ Permᴰ.nil = Permᴰ.nil
  broadcast-Permᴰ (Permᴰ.cons {a} {b} {l₁} {l₂} e p) =
      subst (λ r. Permᴰ (broadcast store keep buf (a ∷ l₁)) (broadcast store keep buf (r ∷ l₂))) e
        (Permᴰ.append_left (share a) (broadcast-Permᴰ p))
  broadcast-Permᴰ (Permᴰ.swap {a} {b} {a'} {b'} {l} e e') =
      subst
        (λ r. Permᴰ (broadcast store keep buf (a ∷ b ∷ l)) (broadcast store keep buf (a' ∷ r ∷ l)))
        e
        (subst
          (λ r. Permᴰ (broadcast store keep buf (a ∷ b ∷ l)) (broadcast store keep buf (r ∷ a ∷ l)))
          e' (shares_swap a b (broadcast store keep buf l)))
  broadcast-Permᴰ (Permᴰ.trans p q) = Permᴰ.trans (broadcast-Permᴰ p) (broadcast-Permᴰ q)

-- The same effects in any order, or the same failure.
abbrev pub SameEffects : Outcome Effects → Outcome Effects → Type 0
SameEffects (ok xs) (ok ys) = Perm xs ys
SameEffects (ok xs) (stop s) = ⊥
SameEffects (stop s) (ok ys) = ⊥
SameEffects (stop s) (stop t) = s ≡ t

SameEffects-unless_error :
    (r : Outcome Bytes) (f g : Bytes → Effects)
    → ((buf : Bytes) → Perm (f buf) (g buf))
    → SameEffects (unless_error r f) (unless_error r g)
SameEffects-unless_error (ok buf) f g h = h buf
SameEffects-unless_error (stop (error e)) f g h = Perm.refl []
SameEffects-unless_error (stop panic) f g h = refl
SameEffects-unless_error (stop exhausted) f g h = refl

broadcast-Perm :
    (store : List Socket) (keep : ℕ → Socket → Bool) (buf : Bytes) (ms ms' : List ℕ)
    → Perm ms ms'
    → Perm (broadcast store keep buf ms) (broadcast store keep buf ms')
broadcast-Perm store keep buf ms ms' h =
    ∥∥₁_elim h (hlevel) (λ p. ∣ broadcast-Permᴰ store keep buf p ∣₁)

-- In whichever order a namespace's sockets come, Emit and To send the same messages, each as often, in
-- some order, or fail alike.
pub emit_excluding-Perm :
    (ext : Externals) (srv : Server) (ns : Namespace) (members : List ℕ) (event : Text)
    (payload : Value) (exclude : Option ℕ) (room : Text)
    → Perm ns.members members
    → SameEffects
        (emit_excluding ext srv ns event payload exclude)
        (emit_excluding ext srv (record ns { members = members }) event payload exclude)
      × SameEffects
          (to_excluding ext srv ns room event payload exclude)
          (to_excluding ext srv (record ns { members = members }) room event payload exclude)
unfolding emit_excluding to_excluding serializers_for schema_for
emit_excluding-Perm ext srv ns members event payload exclude room h =
    let made = encode_event ext srv ns event payload in
    (
      SameEffects-unless_error made _ _
          (λ buf. broadcast-Perm srv.store (to_all exclude) buf ns.members members h),
      SameEffects-unless_error made _ _
          (λ buf. broadcast-Perm srv.store (to_room room exclude) buf ns.members members h),
    )
