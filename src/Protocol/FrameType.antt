-- ===== src/Protocol/FrameType.antt =====
-- protocol/constants.go: the types of a frame.
use bit_socket_go.Base.{ℕ}

abbrev pub connect : ℕ
connect = 1

abbrev pub event : ℕ
event = 2

abbrev pub ack : ℕ
ack = 3

abbrev pub ping : ℕ
ping = 4

abbrev pub pong : ℕ
pong = 5

abbrev pub join : ℕ
join = 6

abbrev pub leave : ℕ
leave = 7
