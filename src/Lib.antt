-- ===== src/Lib.antt =====
-- BitSocket for Go: namespaces, rooms and acknowledgements over one WebSocket, with a binary protocol.
--
-- The parts and where they are modelled (paths from the repository's root; the file of a model stands
-- first):
--
--   Base: shared lemmas. Outcome is what a Go function comes to: a value, an error, or a panic.
--   Protocol/Types, Protocol/Coerce: protocol/types.go and coerce.go. SchemaDef has the kinds of
--     definition; Value is `interface{}`, with floats as their bits; to_uint64 … to_map are toUint64 …
--     toMap. The fields of Externals are the calls of msgpack and compress/flate, and the conversions
--     between floats and integers, which Go leaves to the machine.
--   Protocol/Words: slices with their spare room, and encoding/binary.
--   Protocol/Schema: protocol/schema.go. compute_size and encode_value are the two passes of
--     EncodePayload over one queue of strings; a Writer is the buffer, the offset and the place in the
--     queue, and a write out of bounds panics. decode_value is decodeValue. Layout is the wire format
--     of the comment on Schema, in one pass; Agree compares the two; RoundTrip says what the decoder
--     gives back; Typed has the Go types that the type tags stand for; Unchecked is about bytes that no
--     encoder wrote.
--   Protocol/Frame: protocol/encoder.go, decoder.go, protocol.go and constants.go. encode_frame,
--     decode_frame_header and decode_frame are EncodeFrame, DecodeFrameHeader and DecodeFrame.
--   Protocol/SchemaWire: protocol/schema_wire.go. The encoder and decoder of msgpack are the record
--     Msgpack, with the laws MsgpackLaws; Tables adds what msgpack.Marshal makes of a map.
--   Server/Types: the structs of server/. A `*Socket` is its place in the server's store of sockets.
--   Server/Chain: the middleware chains. A middleware is user code: the calls of `next` that it makes,
--     each with the change of the state and the effects before it, and an error or none, and its
--     return.
--   Server/Socket, Server/Emit, Server/Namespace, Server/Core, Server/Hub: server/socket.go,
--     namespace.go, server.go and hub.go, a function for a method. Effects are what leaves the program, in order:
--     writes to a connection, closings, calls of listeners, and the rooms that user code joins and leaves. A listener is user
--     code: its calls of `ack` and its own effects, in order; settle takes the rooms over. What else it
--     does to sockets and to the server, such as an On, is a Move of its own. A connection handler is
--     user code that changes its socket and has effects.
--   Server/Http: httpHandler of server/server.go. Server/World: the server with all its connections; a
--     Move is a request, a message, the end of a connection, or a call of the server's user.
--   Client and its modules: client/client.go, namespace.go and types.go. The state is the record Client; an
--     Action is what a step does outside. Namespace has the user's calls, Connect and Reconnect the ways
--     to a connection, Steps all that can happen. A timer is a step that the environment takes.
--   Delivery: what one side sends, as the other side takes it: schemas, events, rooms, acknowledgements.
--   Tests: the theorems at concrete inputs, with small codecs that keep the laws.
--
-- A frame comes in by handle_message (Server/Hub), is decoded with the schema of its event, and goes to
-- the socket that the hub holds for its namespace, by dispatch (Server/Socket); that changes rooms or
-- runs middlewares and a listener. CONNECT makes a socket and runs the namespace's middlewares, and
-- the end of the chain lets it in (admit). Broadcasts go over the namespace's members.
--
-- Bounds: Go's int holds every length here, so sizes are natural numbers; conversions to bytes and
-- to 16- and 32-bit words wrap as in Go. The recursion of decodeSchemaDef runs on fuel, one more
-- than the bytes that are left, and every level takes a byte. The attempts in Client/Reconnect run on
-- fuel, one more than the attempts that are left.
--
-- Not modelled: locks and goroutines (every operation is one step); the network (listening on a port and
-- its end in Close; whether an upgrade or a dialling succeeds, and which messages come, are
-- arguments); the order of Go's maps (a table keeps its order; Server/Namespace/Order is about
-- broadcasts); running out of memory; the delay of a reconnection, which is floating-point arithmetic on
-- a random number; tests and examples. That a nil `*Serializers` stands for
-- the default codec is left to the caller, who passes it.
pub mod Base
pub mod Client
pub mod Delivery
pub mod Protocol
pub mod Server
pub mod Tests
