-- ===== src/Tests/Wire.antt =====
-- Witnesses for the properties of schemas on the wire, protocol/schema_wire.go, with the part of msgpack
-- that they use: strings under 256 bytes, and arrays and maps under 16 entries.
use bit_socket_go.Base.{
  ℕ, ◌+◌, ◌-◌, ◌<◌, ◌≡◌, refl, ap, arith, ltb, leb, ◌==◌, true, false, Bool, ◌&&◌, Bool-cases, inl,
  inr, if◌then◌else◌, ℤ, pos, Text, Bytes, [], ◌∷◌, ◌++◌, length, length-append, length-drop, take,
  drop, take-append, drop-append, text, ok, Fallible, done, failed,
}
use bit_socket_go.Protocol.SchemaWire.{
  capacity, rounds, Msgpack, write_schema_def, decode_schema_def,
}
use bit_socket_go.Protocol.SchemaWire.RoundTrip.{MsgpackLaws, decode_schema_def-write_schema_def}
use bit_socket_go.Protocol.SchemaWire.Fuel.{Ends, decode_schema_def-Ends}
use bit_socket_go.Tests.{chat}

abbrev put_string : Text → Fallible Bytes
put_string t = if ltb (length t) 256 then done (217 ∷ length t ∷ t) else failed (text "size")

abbrev put_len : ℕ → ℕ → Fallible Bytes
put_len base n = if ltb n 16 then done ((base + n) ∷ []) else failed (text "size")

abbrev peek : Bytes → Fallible ℕ
peek [] = failed (text "EOF")
peek (c ∷ bs) = done c

abbrev get_string : Bytes → Fallible (Text × Bytes)
get_string [] = failed (text "EOF")
get_string (c ∷ []) = failed (text "EOF")
get_string (c ∷ n ∷ bs) =
    if c == 217
    then if leb n (length bs) then done (take n bs, drop n bs) else failed (text "EOF")
    else failed (text "code")

abbrev in_range : ℕ → ℕ → Bool
in_range base c = leb base c && ltb c (base + 16)

abbrev get_len : ℕ → Bytes → Fallible (ℤ × Bytes)
get_len base [] = failed (text "EOF")
get_len base (c ∷ bs) = if in_range base c then done (pos (c - base), bs) else failed (text "code")

abbrev pub pack : Msgpack
pack = record {
  encode_string = put_string;
  encode_array_len = put_len 144;
  encode_map_len = put_len 128;
  peek_code = peek;
  decode_string = get_string;
  decode_array_len = get_len 144;
  decode_map_len = get_len 128;
  is_string = λ c. c == 217;
  is_bin = λ c. false;
  is_fixed_array = in_range 144;
  is_fixed_map = in_range 128;
  array16 = 220;
  array32 = 221;
  map16 = 222;
  map32 = 223;
}

put_string-eq : (t : Text) (bs : Bytes) → put_string t ≡ done bs → (217 ∷ length t ∷ t) ≡ bs
put_string-eq t bs e = elim (Bool-cases (ltb (length t) 256)) [
  | inl small ↦ cc (rw small at e)
  | inr large ↦ cc (rw large at e)
]

put_len-eq :
    (base n : ℕ) (bs : Bytes) → put_len base n ≡ done bs → (((base + n) ∷ []) ≡ bs) × (n < 16)
put_len-eq base n bs e = elim (Bool-cases (ltb n 16)) [
  | inl small ↦ (cc (rw small at e), ground arith)
  | inr large ↦ absurd (cc (rw large at e))
]

get_string-append : (t rest : Bytes) → get_string (217 ∷ length t ∷ (t ++ rest)) ≡ done (t, rest)
get_string-append t rest =
    let room : leb (length t) (length (t ++ rest)) ≡ true = ground (arith, length-append t rest) in
    rw (room, take-append t rest, drop-append t rest)

get_len-back :
    (base n : ℕ) (rest : Bytes) → n < 16 → get_len base ((base + n) ∷ rest) ≡ done (pos n, rest)
get_len-back base n rest h = ground arith

left_over :
    {A : Type 0} {a b : A} {bs rest : Bytes}
    → ◌≡◌ {A = Fallible (A × Bytes)} (done (a, bs)) (done (b, rest))
    → bs ≡ rest
left_over e = cc

get_len-takes :
    (base : ℕ) (bs rest : Bytes) (n : ℤ)
    → get_len base bs ≡ done (n, rest)
    → length rest < length bs
get_len-takes base [] rest n e = absurd (cc)
get_len-takes base (c ∷ bs) rest n e = elim (Bool-cases (in_range base c)) [
  | inl inside ↦ omega (arith, ap length (left_over (rw inside at e)))
  | inr outside ↦ absurd (cc (rw outside at e))
]

get_string-takes :
    (bs rest : Bytes) (t : Text) → get_string bs ≡ done (t, rest) → length rest < length bs
get_string-takes [] rest t e = absurd (cc)
get_string-takes (c ∷ []) rest t e = absurd (cc)
get_string-takes (c ∷ n ∷ bs) rest t e = elim (Bool-cases (c == 217)) [
  | inl is ↦ elim (Bool-cases (leb n (length bs))) [
    | inl room ↦ omega (arith, length-drop n bs, ap length (left_over (rw (is, room) at e)))
    | inr none_left ↦ absurd (cc (rw (is, none_left) at e))
  ]
  | inr other ↦ absurd (cc (rw other at e))
]

counted : (n : ℤ) (bs rest : Bytes) → get_len 128 bs ≡ done (n, rest) → capacity n ≡ ok (rounds n)
counted n [] rest e = absurd (cc)
counted n (c ∷ bs) rest e = elim (Bool-cases (in_range 128 c)) [
  | inl inside ↦ rw (← number (rw inside at e)) refl
  | inr outside ↦ absurd (cc (rw outside at e))
]
  where
    number :
        {a b : ℤ} {x y : Bytes} → ◌≡◌ {A = Fallible (ℤ × Bytes)} (done (a, x)) (done (b, y)) → a ≡ b
    number e' = cc

pub laws : MsgpackLaws pack
laws = record {
  string_back = λ t bs rest e. rw (← put_string-eq t bs e) (get_string-append t rest);
  string_code = λ t bs rest e. (217, rw (← put_string-eq t bs e) refl, refl);
  array_back = λ n bs rest e.
      let (is, small) = put_len-eq 144 n bs e in rw (← is) (get_len-back 144 n rest small);
  array_code = λ n bs rest e.
      let (is, small) = put_len-eq 144 n bs e in
      (144 + n, rw (← is) refl, ground arith, ground arith);
  map_back = λ n bs rest e.
      let (is, small) = put_len-eq 128 n bs e in rw (← is) (get_len-back 128 n rest small);
  map_code = λ n bs rest e.
      let (is, small) = put_len-eq 128 n bs e in
      (128 + n, rw (← is) refl, ground arith, ground arith, ground arith);
  map_counts = λ bs rest c n peek is e. counted n bs rest e;
  array_takes = get_len-takes 144;
  map_takes = get_len-takes 128;
  string_takes = get_string-takes;
}

abbrev chat_bytes : Bytes
chat_bytes =
    131 ∷ (217 ∷ 2 ∷ text "id")
    ++ ((217 ∷ 6 ∷ text "uint16")
        ++ ((217 ∷ 4 ∷ text "tags")
            ++ (145 ∷ (217 ∷ 6 ∷ text "string")
                ++ ((217 ∷ 5 ∷ text "extra") ++ (217 ∷ 3 ∷ text "any")))))

decode_schema_def-write_schema_def_example :
    decode_schema_def pack (chat_bytes ++ (7 ∷ [])) ≡ ok (chat, 7 ∷ [])
unfolding write_schema_def
decode_schema_def-write_schema_def_example =
    decode_schema_def-write_schema_def pack laws chat chat_bytes (7 ∷ []) refl

-- A map of one field that breaks off.
decode_schema_def-Ends_example : Ends 4 (decode_schema_def pack (129 ∷ 217 ∷ 2 ∷ []))
decode_schema_def-Ends_example = decode_schema_def-Ends pack laws (129 ∷ 217 ∷ 2 ∷ [])
