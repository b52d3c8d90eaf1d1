-- ===== src/Protocol/SchemaWire/Fuel.antt =====
-- The bound on the depth of decodeSchemaDef's calls in the model of protocol/schema_wire.go is enough.
use bit_socket_go.Base.{
  ℕ, ℤ, external, zero, suc, ◌+◌, ◌≤◌, ◌<◌, ◌≡◌, refl, arith, Bool, true, false, Bytes, length,
  Error, Fallible, done, failed, lift, error, Outcome, ok, err, ◌>>=◌, ◌>>◌, guard, invalid_array,
  unsupported_code, Bool-cases, inl, inr,
}
use bit_socket_go.Protocol.Types.{SchemaDef, tag, array, object, no_fields, field}
use bit_socket_go.Protocol.SchemaWire.{
  Msgpack, capacity, rounds, is_one, is_text_code, is_array_code, is_map_code, read_field_defs,
  read_by_code, read_schema_def, decode_schema_def,
}
use bit_socket_go.Protocol.SchemaWire.RoundTrip.{MsgpackLaws}

-- A read that ends by itself: with an error, or with fewer than `n` bytes left.
pub data Ends {A : Type 0} (n : ℕ) : Outcome (A × Bytes) → Type 0 where
  left : (a : A) (rest : Bytes) → length rest < n → Ends n (ok (a, rest))
  failure : (e : Error) → Ends n (err e)

Ends-bind :
    {A B : Type 0} {n m : ℕ} {r : Outcome (A × Bytes)} (k : A × Bytes → Outcome (B × Bytes))
    → Ends n r
    → ((a : A) (rest : Bytes) → length rest < n → Ends m (k (a, rest)))
    → Ends m (r >>= k)
Ends-bind k (left a rest h) next = next a rest h
Ends-bind k (failure e) next = failure e

-- A call of the package takes a byte at least.
lift-Ends :
    {A : Type 0} (m : Fallible (A × Bytes)) (n : ℕ)
    → ((a : A) (rest : Bytes) → m ≡ done (a, rest) → length rest < n)
    → Ends n (lift m)
lift-Ends (done (a, rest)) n h = left a rest (h a rest refl)
lift-Ends (failed message) n h = failure _

Ends-mono : {A : Type 0} {n m : ℕ} {r : Outcome (A × Bytes)} → n ≤ m → Ends n r → Ends m r
Ends-mono h (left a rest short) = left a rest (omega arith)
Ends-mono h (failure e) = failure e

-- A reader of the parts that ends by itself on fewer than `m` bytes.
abbrev EndsBelow : ℕ → (Bytes → Outcome (SchemaDef × Bytes)) → Type 0
EndsBelow m f = (bs : Bytes) → length bs < m → Ends (suc (length bs)) (f bs)

module _ (mp : Msgpack) (laws : MsgpackLaws mp) where
  string-Ends : (bs : Bytes) → Ends (length bs) (lift (mp.decode_string bs))
  string-Ends bs =
      lift-Ends (mp.decode_string bs) (length bs) (λ t rest e. laws.string_takes bs rest t e)

  read_field_defs-Ends :
      (f : Bytes → Outcome (SchemaDef × Bytes)) (m : ℕ)
      → EndsBelow m f
      → (n : ℕ) (bs : Bytes) → length bs ≤ m
      → Ends (suc (length bs)) (read_field_defs mp f n bs)
  unfolding read_field_defs
  read_field_defs-Ends f m h zero bs short = left no_fields bs (omega arith)
  read_field_defs-Ends f m h (suc n) bs short = Ends-bind _ (string-Ends bs) λ key bs₁ h₁.
      Ends-bind _ (h bs₁ (omega arith)) λ def bs₂ h₂.
        Ends-bind _ (read_field_defs-Ends f m h n bs₂ (omega arith))
          λ fs bs₃ h₃. left (field key def fs) bs₃ (omega arith)

  one-Ends :
      (f : Bytes → Outcome (SchemaDef × Bytes)) (m : ℕ) (b : Bool) (bs : Bytes)
      → EndsBelow m f
      → length bs < m
      → Ends
          (suc (length bs))
          (do guard b (error invalid_array); (def, rest) ← f bs; ok (array def, rest))
  one-Ends f m true bs h short =
      Ends-bind _ (h bs short) λ def rest h'. left (array def) rest (omega arith)
  one-Ends f m false bs h short = failure invalid_array

  map-Ends :
      (f : Bytes → Outcome (SchemaDef × Bytes)) (code : ℕ) (bs : Bytes)
      → EndsBelow (length bs) f
      → mp.peek_code bs ≡ done code
      → is_map_code mp code ≡ true
      → (r : Fallible (ℤ × Bytes)) → mp.decode_map_len bs ≡ r
      → Ends (suc (length bs)) (do
        (n, bs₁) ← lift r
        count ← capacity n
        (fs, rest) ← read_field_defs mp f count bs₁
        ok (object fs, rest))
  map-Ends f code bs h peek is (failed message) e = failure (external message)
  map-Ends f code bs h peek is (done (k, bs₁)) e = rw (laws.map_counts bs bs₁ code k peek is e) (
      Ends-bind _
        (read_field_defs-Ends f (length bs) h (rounds k) bs₁
          (omega (arith, laws.map_takes bs bs₁ k e)))
        λ fs rest h₂. left (object fs) rest (omega (arith, laws.map_takes bs bs₁ k e)))

  read_by_code-Ends :
      (f : Bytes → Outcome (SchemaDef × Bytes)) (code : ℕ) (bs : Bytes)
      → EndsBelow (length bs) f
      → mp.peek_code bs ≡ done code
      → Ends (suc (length bs)) (read_by_code mp f code bs)
  unfolding read_by_code
  read_by_code-Ends f code bs h peek = elim (Bool-cases (is_text_code mp code)) [
    | inl t ↦ rw t (Ends-bind _ (string-Ends bs) λ t rest h'. left (tag t) rest (omega arith))
    | inr n ↦ elim (Bool-cases (is_array_code mp code)) [
      | inl a ↦
          rw (n, a)
            (Ends-bind _
              (lift-Ends (mp.decode_array_len bs) (length bs)
                (λ k rest e. laws.array_takes bs rest k e))
              λ k bs₁ h₁. Ends-mono (omega arith) (one-Ends f (length bs) (is_one k) bs₁ h h₁))
      | inr o ↦ elim (Bool-cases (is_map_code mp code)) [
        | inl p ↦ rw (n, o, p) (map-Ends f code bs h peek p (mp.decode_map_len bs) refl)
        | inr q ↦ rw (n, o, q) (failure (unsupported_code code))
      ]
    ]
  ]

  peek-Ends :
      (m : Fallible ℕ) (n : ℕ) (k : ℕ → Outcome (SchemaDef × Bytes))
      → ((c : ℕ) → m ≡ done c → Ends n (k c))
      → Ends n (lift m >>= k)
  peek-Ends (done c) n k h = h c refl
  peek-Ends (failed message) n k h = failure _

  read_schema_def-Ends :
      (fuel : ℕ) (bs : Bytes)
      → length bs < fuel
      → Ends (suc (length bs)) (read_schema_def mp fuel bs)
  unfolding read_schema_def
  read_schema_def-Ends zero bs h = absurd (omega arith)
  read_schema_def-Ends (suc fuel) bs h =
      let parts : EndsBelow (length bs) (read_schema_def mp fuel) =
        λ bs' h'. read_schema_def-Ends fuel bs' (omega arith) in
      peek-Ends (mp.peek_code bs) (suc (length bs)) _
        λ c peek. read_by_code-Ends (read_schema_def mp fuel) c bs parts peek

  -- With a msgpack package that keeps its laws, on any bytes decodeSchemaDef ends with a definition or with an error, and never for want of fuel.
  pub decode_schema_def-Ends : (bs : Bytes) → Ends (suc (length bs)) (decode_schema_def mp bs)
  unfolding decode_schema_def
  decode_schema_def-Ends bs = read_schema_def-Ends (length bs + 1) bs (omega arith)
