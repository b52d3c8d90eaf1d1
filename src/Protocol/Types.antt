-- ===== src/Protocol/Types.antt =====
-- protocol/types.go: schema definitions; and the dynamic values (`interface{}`) that the codec handles.
use bit_socket_go.Base.{ℕ, ℤ, Bool, Text, Bytes, text, ◌=?◌, if◌then◌else◌, Outcome}

-- `SchemaDef` is an `interface{}`: a type tag (a string), an `*ArrayDef`, an `*ObjectDef`, or a
-- value of any other type, which no function accepts. `FieldDefs` is `[]FieldDef`.
mutual
  pub data SchemaDef : Type 0 where
    tag : Text → SchemaDef
    array : SchemaDef → SchemaDef
    object : FieldDefs → SchemaDef
    invalid : SchemaDef

  pub data FieldDefs : Type 0 where
    no_fields : FieldDefs
    field : Text → SchemaDef → FieldDefs → FieldDefs

-- The cases of the switches on a tag.
pub data Kind : Type 0 where
  uint8 uint16 uint32 int32 float64 boolean string bytes : Kind
  object_any array_any any unsupported : Kind

unfoldable pub kind_of : Text → Kind
unfolding ◌=?◌
kind_of t =
    if t =? text "uint8"
    then uint8
    else if t =? text "uint16"
    then uint16
    else if t =? text "uint32"
    then uint32
    else if t =? text "int32"
    then int32
    else if t =? text "float64"
    then float64
    else if t =? text "boolean"
    then boolean
    else if t =? text "string"
    then string
    else if t =? text "bytes"
    then bytes
    else if t =? text "object"
    then object_any
    else if t =? text "array"
    then array_any
    else if t =? text "any"
    then any
    else unsupported

-- The integer types of Go: `native` is `int` and `uint`.
pub data Width : Type 0 where
  native w8 w16 w32 w64 : Width

-- An `interface{}`. A float is its IEEE 754 bit pattern. `slice` is `[]interface{}`, `dict` is
-- `map[string]interface{}`, `wire_schema` is `wireSchemaDef`, `other` a value of any other type.
mutual
  pub data Value : Type 0 where
    null : Value
    signed : Width → ℤ → Value
    unsigned : Width → ℕ → Value
    float32_bits : ℕ → Value
    float64_bits : ℕ → Value
    bool : Bool → Value
    str : Text → Value
    blob : Bytes → Value
    slice : Items → Value
    dict : Entries → Value
    wire_schema : SchemaDef → Value
    other : Value

  pub data Items : Type 0 where
    nil : Items
    cons : Value → Items → Items

  pub data Entries : Type 0 where
    end : Entries
    entry : Text → Value → Entries → Entries

-- What the code uses of the msgpack and DEFLATE packages, and of the machine's float conversions,
-- whose results the Go specification leaves open where they are out of range.
pub record Externals : Type 0 where
  pub marshal : Value → Outcome Bytes
  pub unmarshal : Bytes → Outcome Value
  pub deflate : Bytes → Outcome Bytes
  pub inflate : Bytes → Outcome Bytes
  pub float32_to_uint64 : ℕ → ℕ
  pub float64_to_uint64 : ℕ → ℕ
  pub float32_to_int64 : ℕ → ℤ
  pub float64_to_int64 : ℕ → ℤ
  pub float32_to_float64 : ℕ → ℕ
  pub int_to_float64 : ℤ → ℕ
