-- ===== src/Protocol/Schema.antt =====
-- protocol/schema.go: schemas, and the codec that lays a payload out by position. Encoding takes
-- two passes: the first computes the size and queues the encoded strings, the second fills a buffer.
pub mod Buffer
pub mod Encode
pub mod Decode
pub mod Layout
pub mod Agree
pub mod RoundTrip
pub mod Unchecked
pub mod Typed
use bit_socket_go.Base.{
  ℕ, Bool, true, false, ◌&&◌, ◌||◌, Text, Bytes, List, [], ◌∷◌, text, leb, ◌==◌, if◌then◌else◌,
  Outcome, ok, stop, panic, error, invalid_name, ◌>>=◌, ◌>>◌, guard, replicate,
}
use bit_socket_go.Protocol.Types.{SchemaDef, Value, Externals}
use bit_socket_go.Protocol.Words.{Slice}
use Buffer.{Writer}
use Encode.{compute_size, encode_value}
use Decode.{decode_value}

unfoldable pub is_name_byte : ℕ → Bool
is_name_byte c =
    (leb b'a' c && leb c b'z')
    || (leb b'A' c && leb c b'Z')
    || (leb b'0' c && leb c b'9')
    || c == b'_'

-- Every byte matches; `schemaNameRe` also asks for one byte at least.
unfoldable pub are_name_bytes : Text → Bool
unfolding is_name_byte
are_name_bytes [] = true
are_name_bytes (c ∷ cs) = is_name_byte c && are_name_bytes cs

pub record Schema : Type 0 where
  pub name : Text
  pub definition : SchemaDef

unfoldable pub new_schema : Text → SchemaDef → Outcome Schema
unfolding are_name_bytes
new_schema [] definition = ok (record { name = text "unknown"; definition = definition })
new_schema (c ∷ cs) definition = do
  guard (are_name_bytes (c ∷ cs)) (error (invalid_name (c ∷ cs)))
  ok (record { name = c ∷ cs; definition = definition })

-- An error becomes a panic.
unfoldable pub must_new_schema : Text → SchemaDef → Outcome Schema
unfolding new_schema
must_new_schema name definition = elim (new_schema name definition) [
  | ok s ↦ ok s
  | stop _ ↦ stop panic
]

module _ (ext : Externals) where
  unfoldable pub encode_payload : SchemaDef → Value → Outcome Bytes
  encode_payload def payload = do
    (size, queue) ← compute_size ext def payload []
    w ← encode_value ext def payload queue (record { buf = replicate size 0; offset = 0; idx = 0 })
    ok w.buf

  unfoldable pub decode_payload : SchemaDef → Slice → Outcome Value
  decode_payload def buf = do (v, offset) ← decode_value ext def buf 0; ok v
