-- ===== src/BigEndian.antt =====
-- The fixed-width big-endian words of Go's encoding/binary, as the library uses them.
-- A byte is a number below 256, and a slice of bytes is a list.
use rsocket_go.Base.{ℕ, ◌+◌, ◌*◌, ◌/◌, ◌%◌, ◌^◌, ◌<◌, ◌≡◌, refl, ap, arith}
use rsocket_go.Base.{List, [], ◌∷◌, ◌++◌, length, All}
use rsocket_go.Base.Outcome.{Outcome, done, panic, ◌>>=◌}

abbrev pub Bytes : Type 0
Bytes = List ℕ

abbrev pub IsByte : ℕ → Type 0
IsByte b = b < 256

-- `byte(v)`
abbrev pub byte : ℕ → ℕ
byte v = v % 256

unfoldable pub put_uint16 : ℕ → Bytes
put_uint16 v = byte (v / 2 ^ 8) ∷ byte v ∷ []

unfoldable pub put_uint32 : ℕ → Bytes
put_uint32 v = byte (v / 2 ^ 24) ∷ byte (v / 2 ^ 16) ∷ byte (v / 2 ^ 8) ∷ byte v ∷ []

unfoldable pub put_uint64 : ℕ → Bytes
unfolding put_uint32
put_uint64 v = put_uint32 (v / 2 ^ 32) ++ put_uint32 (v % 2 ^ 32)

-- Fewer bytes than the word has are an index out of range.
unfoldable pub uint16 : Bytes → Outcome ℕ
uint16 (a ∷ b ∷ rest) = done (a * 2 ^ 8 + b)
uint16 _ = panic

unfoldable pub uint32 : Bytes → Outcome ℕ
uint32 (a ∷ b ∷ c ∷ d ∷ rest) = done (a * 2 ^ 24 + b * 2 ^ 16 + c * 2 ^ 8 + d)
uint32 _ = panic

unfoldable pub uint64 : Bytes → Outcome ℕ
unfolding uint32
uint64 (a ∷ b ∷ c ∷ d ∷ e ∷ f ∷ g ∷ h ∷ rest) = do
  hi ← uint32 (a ∷ b ∷ c ∷ d ∷ [])
  lo ← uint32 (e ∷ f ∷ g ∷ h ∷ [])
  done (hi * 2 ^ 32 + lo)
uint64 _ = panic

pub uint16-put : (v : ℕ) (rest : Bytes) → v < 2 ^ 16 → uint16 (put_uint16 v ++ rest) ≡ done v
unfolding uint16 put_uint16
uint16-put v rest h = ap done (omega arith)

pub uint32-put : (v : ℕ) (rest : Bytes) → v < 2 ^ 32 → uint32 (put_uint32 v ++ rest) ≡ done v
unfolding uint32 put_uint32
uint32-put v rest h = ap done (omega arith)

word_of_bytes :
    (v : ℕ)
    → v < 2 ^ 32
    → byte (v / 2 ^ 24) * 2 ^ 24 + byte (v / 2 ^ 16) * 2 ^ 16 + byte (v / 2 ^ 8) * 2 ^ 8 + byte v
      ≡ v
word_of_bytes v h = omega arith

pub uint64-put : (v : ℕ) (rest : Bytes) → v < 2 ^ 64 → uint64 (put_uint64 v ++ rest) ≡ done v
unfolding uint64 put_uint64
uint64-put v rest h = ap done (
    omega
      (arith, word_of_bytes (v / 2 ^ 32) (omega arith), word_of_bytes (v % 2 ^ 32) (omega arith)))

pub length-put_uint16 : (v : ℕ) → length (put_uint16 v) ≡ 2
unfolding put_uint16
length-put_uint16 v = refl

pub length-put_uint32 : (v : ℕ) → length (put_uint32 v) ≡ 4
unfolding put_uint32
length-put_uint32 v = refl

pub length-put_uint64 : (v : ℕ) → length (put_uint64 v) ≡ 8
unfolding put_uint64
length-put_uint64 v = refl

pub put_uint32-IsByte : (v : ℕ) → All IsByte (put_uint32 v)
unfolding put_uint32
put_uint32-IsByte v = omega arith
