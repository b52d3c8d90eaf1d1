-- ===== src/Protocol/Words.antt =====
-- What the protocol uses of encoding/binary (big-endian words) and of Go slices: a slice is its
-- elements and the spare elements between its length and its capacity.
use bit_socket_go.Base.{
  ℕ, All, ◌+◌, ◌*◌, ◌/◌, ◌%◌, ◌<◌, ◌^◌, ◌≡◌, refl, arith, Bytes, [], ◌∷◌, ◌++◌, leb, length, take,
  drop, get_elem?, if◌then◌else◌, Outcome, ok, stop, panic, or_stop,
}

-- What a `[]byte` holds.
abbrev pub AreBytes : Bytes → Type 0
AreBytes xs = All (λ b. b < 2 ^ 8) xs

unfoldable pub put_uint16 : ℕ → Bytes
put_uint16 n = (n / 256 % 256) ∷ (n % 256) ∷ []

unfoldable pub put_uint32 : ℕ → Bytes
put_uint32 n = (n / 16777216 % 256) ∷ (n / 65536 % 256) ∷ (n / 256 % 256) ∷ (n % 256) ∷ []

unfoldable pub put_uint64 : ℕ → Bytes
unfolding put_uint32
put_uint64 n = put_uint32 (n / 2 ^ 32) ++ put_uint32 (n % 2 ^ 32)

pub length-put_uint32 : (n : ℕ) → length (put_uint32 n) ≡ 4
unfolding put_uint32
length-put_uint32 n = refl

-- The words read the bytes at the front of a slice, and panic if there are too few.
unfoldable pub uint16 : Bytes → Outcome ℕ
uint16 (a ∷ b ∷ _) = ok (a * 256 + b)
uint16 _ = stop panic

unfoldable pub uint32 : Bytes → Outcome ℕ
uint32 (a ∷ b ∷ c ∷ d ∷ _) = ok (a * 16777216 + b * 65536 + c * 256 + d)
uint32 _ = stop panic

unfoldable pub uint64 : Bytes → Outcome ℕ
uint64 (a ∷ b ∷ c ∷ d ∷ e ∷ f ∷ g ∷ h ∷ _) =
    ok
      ((a * 16777216 + b * 65536 + c * 256 + d) * 2 ^ 32 + (e * 16777216 + f * 65536 + g * 256 + h))
uint64 _ = stop panic

pub uint16-put_uint16 : (n : ℕ) (rest : Bytes) → n < 2 ^ 16 → uint16 (put_uint16 n ++ rest) ≡ ok n
unfolding uint16 put_uint16
uint16-put_uint16 n rest h = ground arith

pub uint32-put_uint32 : (n : ℕ) (rest : Bytes) → n < 2 ^ 32 → uint32 (put_uint32 n ++ rest) ≡ ok n
unfolding uint32 put_uint32
uint32-put_uint32 n rest h = ground arith

join32 :
    (n : ℕ)
    → n < 2 ^ 32
    → n / 16777216 % 256 * 16777216 + n / 65536 % 256 * 65536 + n / 256 % 256 * 256 + n % 256 ≡ n
join32 n h = omega arith

pub uint64-put_uint64 : (n : ℕ) (rest : Bytes) → n < 2 ^ 64 → uint64 (put_uint64 n ++ rest) ≡ ok n
unfolding uint64 put_uint64
uint64-put_uint64 n rest h =
    rw (join32 (n / 2 ^ 32) (omega arith), join32 (n % 2 ^ 32) (omega arith)) (ground arith)

pub record Slice : Type 0 where
  pub items : Bytes
  pub spare : Bytes

-- `s[i]`.
unfoldable pub index : Slice → ℕ → Outcome ℕ
index s i = or_stop (get_elem? s.items i) panic

-- `s[low:]`, whose bound is the length.
unfoldable pub tail_from : Slice → ℕ → Outcome Slice
tail_from s low =
    if leb low (length s.items) then ok (record s { items = drop low s.items }) else stop panic

-- The elements of `s[low:low+n]`, whose bound is the capacity.
unfoldable pub sub_slice : Slice → ℕ → ℕ → Outcome Bytes
sub_slice s low n =
    if leb (low + n) (length s.items + length s.spare)
    then ok (take n (drop low (s.items ++ s.spare)))
    else stop panic
