-- ===== src/Protocol/Schema/Typed.antt =====
-- The Go types of the values that a definition of protocol/types.go describes, as its comments on the type
-- tags give them, and what keeps two fields of an object apart.
pub mod Entry
pub mod Bounds
pub mod Back
pub mod Decoded
use bit_socket_go.Base.{ℕ, ℤ, ◌<◌, ◌^◌, ◌≡◌, ◌≢◌, InRange, Bool, Text, Bytes, length}
use bit_socket_go.Protocol.Types.{
  SchemaDef, FieldDefs, tag, array, object, invalid, no_fields, field, Kind, kind_of, uint8, uint16,
  uint32, int32, float64, boolean, string, bytes, object_any, array_any, any, unsupported, Value,
  Items, Entries, signed, unsigned, float64_bits, bool, str, blob, slice, dict, nil, cons, end,
  entry, w8, w16, w32,
}
use bit_socket_go.Protocol.Schema.Encode.{count}
use bit_socket_go.Protocol.Schema.RoundTrip.{AllItems}

-- Of a dynamic field it is asked what `Dynamic` says.
module _ (Dynamic : Value → Type 0) where
  abbrev pub HasKind : Kind → Value → Type 0
  HasKind uint8 v = (n : ℕ) × (v ≡ unsigned w8 n) × (n < 2 ^ 8)
  HasKind uint16 v = (n : ℕ) × (v ≡ unsigned w16 n) × (n < 2 ^ 16)
  HasKind uint32 v = (n : ℕ) × (v ≡ unsigned w32 n) × (n < 2 ^ 32)
  HasKind int32 v = (z : ℤ) × (v ≡ signed w32 z) × InRange (2 ^ 31) z
  HasKind float64 v = (n : ℕ) × (v ≡ float64_bits n) × (n < 2 ^ 64)
  HasKind boolean v = (b : Bool) × (v ≡ bool b)
  HasKind string v = (t : Text) × (v ≡ str t) × (length t < 2 ^ 32)
  HasKind bytes v = (bs : Bytes) × (v ≡ blob bs) × (length bs < 2 ^ 32)
  HasKind unsupported v = ⊥
  HasKind object_any v = Dynamic v
  HasKind array_any v = Dynamic v
  HasKind any v = Dynamic v

  -- A map has an entry for each field, in the order of the fields, and no other.
  abbrev mutual
    pub HasType : SchemaDef → Value → Type 0
    HasType (tag t) v = HasKind (kind_of t) v
    HasType (array e) v =
        (xs : Items) × (v ≡ slice xs) × (count xs < 2 ^ 32) × AllItems (HasType e) xs
    HasType (object fs) v = (es : Entries) × (v ≡ dict es) × HasFields fs es
    HasType invalid v = ⊥

    pub HasFields : FieldDefs → Entries → Type 0
    HasFields no_fields end = Unit {0}
    HasFields no_fields (entry j v es) = ⊥
    HasFields (field k t fs) end = ⊥
    HasFields (field k t fs) (entry j v es) = (j ≡ k) × HasType t v × HasFields fs es

-- No field of that name.
abbrev pub NoField : Text → FieldDefs → Type 0
NoField k no_fields = Unit {0}
NoField k (field j t fs) = (j ≢ k) × NoField k fs

-- No two fields of an object have one name.
abbrev mutual
  pub IsKeyed : SchemaDef → Type 0
  IsKeyed (tag t) = Unit {0}
  IsKeyed (array e) = IsKeyed e
  IsKeyed (object fs) = KeyedFields fs
  IsKeyed invalid = Unit {0}

  pub KeyedFields : FieldDefs → Type 0
  KeyedFields no_fields = Unit {0}
  KeyedFields (field k t fs) = IsKeyed t × NoField k fs × KeyedFields fs
