-- ===== src/Prelude/Bytes.antt =====
-- Big-endian words: `binary.BigEndian` of Go's standard library, over lists of bytes.
use Prim.Native.Nat.{ℕ, zero, suc, ◌+◌, ◌*◌, ◌/◌, ◌%◌, ◌^◌, ◌<◌}
use mathlib.Core.Path.{◌≡◌}
use mathlib.Core.List.{List, [], ◌∷◌, ◌++◌}
use native.Mathlib.Omega.{arith}

-- A value of type `[]byte` holds bytes.
abbrev pub IsBytes : List ℕ → Type 0
IsBytes [] = Unit
IsBytes (b ∷ bs) = (b < 256) × IsBytes bs

-- `b[i]`; an index out of range, which no caller uses, reads as 0.
abbrev pub byte_at : List ℕ → ℕ → ℕ
byte_at [] i = 0
byte_at (b ∷ bs) zero = b
byte_at (b ∷ bs) (suc i) = byte_at bs i

-- `PutUint16`: the two bytes of a word, the high one first.
unfoldable pub put_uint16 : ℕ → List ℕ
put_uint16 v = (v / 256 % 256) ∷ (v % 256) ∷ []

-- `PutUint64`: the eight bytes of a word, the highest first.
unfoldable pub put_uint64 : ℕ → List ℕ
put_uint64 v =
    (v / 2 ^ 56 % 256)
    ∷ (v / 2 ^ 48 % 256)
    ∷ (v / 2 ^ 40 % 256)
    ∷ (v / 2 ^ 32 % 256)
    ∷ (v / 2 ^ 24 % 256)
    ∷ (v / 2 ^ 16 % 256)
    ∷ (v / 2 ^ 8 % 256)
    ∷ (v % 256)
    ∷ []

-- `Uint64`: the word that the bytes stand for.
unfoldable pub uint_of : ℕ → List ℕ → ℕ
uint_of acc [] = acc
uint_of acc (b ∷ bs) = uint_of (acc * 256 + b) bs

pub uint_of-put_uint64 : (v : ℕ) → v < 2 ^ 64 → uint_of 0 (put_uint64 v) ≡ v
unfolding uint_of put_uint64
uint_of-put_uint64 v h = omega arith

pub IsBytes-append : (xs ys : List ℕ) → IsBytes xs → IsBytes ys → IsBytes (xs ++ ys)
IsBytes-append [] ys h k = k
IsBytes-append (x ∷ xs) ys h k = (h.0, IsBytes-append xs ys h.1 k)
