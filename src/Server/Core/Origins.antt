-- ===== src/Server/Core/Origins.antt =====
-- originAllowed of server/server.go.
use bit_socket_go.Base.{◌≡◌, ◌↔◌, ◌⊎◌, inl, inr, arith, true, Text, List, [], ◌∷◌, text, =?_iff}
use bit_socket_go.Server.Types.{Server}
use bit_socket_go.Server.Core.{origin_in, origin_allowed}

abbrev pub Listed : Text → List Text → Type 0
Listed origin [] = ⊥
Listed origin (o ∷ os) = (o ≡ origin) ⊎ Listed origin os

origin_in_iff :
    (origin : Text) (os : List Text)
    → (origin_in origin os ≡ true) ↔ (Listed (text "*") os ⊎ Listed origin os)
unfolding origin_in
origin_in_iff origin [] = (λ e. cc, elim [ inl h ↦ absurd h | inr h ↦ absurd h ])
origin_in_iff origin (o ∷ os) =
    ground (arith, =?_iff o (text "*"), =?_iff o origin, origin_in_iff origin os)

-- An origin is let through exactly if it is listed or a star is.
pub origin_allowed_iff :
    (srv : Server) (origin : Text)
    → (origin_allowed srv origin ≡ true)
      ↔ (Listed (text "*") srv.allowed_origins ⊎ Listed origin srv.allowed_origins)
unfolding origin_allowed
origin_allowed_iff srv origin = origin_in_iff origin srv.allowed_origins
