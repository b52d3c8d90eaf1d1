-- ===== src/Server/Socket/Settled.antt =====
-- The rooms of a socket in server/socket.go after an event: code of the user may have joined and left some.
use bit_socket_go.Base.{Bool, true, false, Text, [], ◌∷◌, ◌=?◌, if◌then◌else◌}
use bit_socket_go.Protocol.FrameType
use bit_socket_go.Protocol.Frame.{Frame}
use bit_socket_go.Server.Types.{Socket, write, close, called, entered, exited}
use bit_socket_go.Server.Chain.{Effects}

-- Whether the socket is in the room after these effects, if `before` says whether it was: the last that
-- is about the room counts.
abbrev pub in_after : Text → Effects → Bool → Bool
in_after room [] before = before
in_after room (entered other ∷ es) before =
    in_after room es (if other =? room then true else before)
in_after room (exited other ∷ es) before =
    in_after room es (if other =? room then false else before)
in_after room (write c bs ∷ es) before = in_after room es before
in_after room (close c ∷ es) before = in_after room es before
in_after room (called event payload can ∷ es) before = in_after room es before
