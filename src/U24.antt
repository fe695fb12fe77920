-- ===== src/U24.antt =====
-- internal/u24/u24.go: the three-byte lengths in front of frames and of metadata.
use rsocket_go.Base.{ℕ, ◌+◌, ◌*◌, ◌/◌, ◌^◌, ◌<◌, ◌≤◌, ◌≡◌, refl, ap, arith}
use rsocket_go.Base.{[], ◌∷◌, ◌++◌, length, Option, none, some, ltb, if◌then◌else◌}
use rsocket_go.Base.Int.{ℤ, pos, negsuc}
use rsocket_go.Base.Outcome.{Outcome, done, panic, ◌>>=◌}
use rsocket_go.BigEndian.{Bytes, byte}

abbrev pub max_uint24 : ℕ
max_uint24 = 16777215

pub data Error : Type 0 where
  exceed_max_uint24 negative_number : Error

-- [3]byte
pub record Uint24 : Type 0 where
  pub b0 : ℕ
  pub b1 : ℕ
  pub b2 : ℕ

unfoldable pub bytes : Uint24 → Bytes
bytes p = p.b0 ∷ p.b1 ∷ p.b2 ∷ []

unfoldable pub as_int : Uint24 → ℕ
as_int p = p.b0 * 2 ^ 16 + p.b1 * 2 ^ 8 + p.b2

-- Beyond the maximum the error is set, and the low three bytes are still stored.
unfoldable pub new_uint24 : ℤ → Uint24 × Option Error
new_uint24 (negsuc n) = (record { b0 = 0; b1 = 0; b2 = 0 }, some negative_number)
new_uint24 (pos v) = (
  record { b0 = byte (v / 2 ^ 16); b1 = byte (v / 2 ^ 8); b2 = byte v },
  if ltb max_uint24 v then some exceed_max_uint24 else none,
)

abbrev or_panic : Uint24 × Option Error → Outcome Uint24
or_panic (u, none) = done u
or_panic (u, some e) = panic

unfoldable pub must_new_uint24 : ℤ → Outcome Uint24
must_new_uint24 n = or_panic (new_uint24 n)

unfoldable pub new_uint24_bytes : Bytes → Outcome Uint24
new_uint24_bytes (a ∷ b ∷ c ∷ rest) = done (record { b0 = a; b1 = b; b2 = c })
new_uint24_bytes _ = panic

unfoldable pub read_uint24_to_int : Bytes → Outcome ℕ
read_uint24_to_int (a ∷ b ∷ c ∷ rest) = done (a * 2 ^ 16 + b * 2 ^ 8 + c)
read_uint24_to_int _ = panic

-- What reaches the writer, and the error: nothing is written where the number is refused.
abbrev written : Uint24 × Option Error → Bytes × Option Error
written (u, none) = (bytes u, none)
written (u, some e) = ([], some e)

unfoldable pub write_uint24 : ℤ → Bytes × Option Error
write_uint24 n = written (new_uint24 n)

-- The three bytes of a length that fits.
unfoldable pub length_field : ℕ → Bytes
length_field v = byte (v / 2 ^ 16) ∷ byte (v / 2 ^ 8) ∷ byte v ∷ []

pub length-length_field : (v : ℕ) → length (length_field v) ≡ 3
unfolding length_field
length-length_field v = refl

pub must_new_uint24_fits :
    (v : ℕ)
    → v ≤ max_uint24
    → (must_new_uint24 (pos v) >>= λ u. done (bytes u)) ≡ done (length_field v)
unfolding must_new_uint24 new_uint24 bytes length_field
must_new_uint24_fits v h = ground arith

pub must_new_uint24_exceeds : (v : ℕ) → max_uint24 < v → must_new_uint24 (pos v) ≡ panic
unfolding must_new_uint24 new_uint24
must_new_uint24_exceeds v h = ground arith

pub write_uint24_fits : (v : ℕ) → v ≤ max_uint24 → write_uint24 (pos v) ≡ (length_field v, none)
unfolding write_uint24 new_uint24 bytes length_field
write_uint24_fits v h = ground arith

pub write_uint24_exceeds :
    (v : ℕ) → max_uint24 < v → write_uint24 (pos v) ≡ ([], some exceed_max_uint24)
unfolding write_uint24 new_uint24
write_uint24_exceeds v h = ground arith

pub read-length_field :
    (v : ℕ) (rest : Bytes) → v ≤ max_uint24 → read_uint24_to_int (length_field v ++ rest) ≡ done v
unfolding read_uint24_to_int length_field
read-length_field v rest h = ap done (omega arith)

pub new_uint24_bytes_field :
    (v : ℕ) (rest : Bytes)
    → v ≤ max_uint24
    → (u : Uint24) × (new_uint24_bytes (length_field v ++ rest) ≡ done u) × (as_int u ≡ v)
unfolding new_uint24_bytes as_int length_field
new_uint24_bytes_field v rest h =
    (record { b0 = byte (v / 2 ^ 16); b1 = byte (v / 2 ^ 8); b2 = byte v }, refl, omega arith)

-- An int becomes three bytes that read back as it exactly when it lies in [0, 16777215];
-- any other int is refused with the error for its side.
pub new_uint24_lem :
    (v : ℕ)
    → ((v ≤ max_uint24) → ((new_uint24 (pos v)).1 ≡ none) × (as_int (new_uint24 (pos v)).0 ≡ v))
      × ((max_uint24 < v) → (new_uint24 (pos v)).1 ≡ some exceed_max_uint24)
      × ((new_uint24 (negsuc v)).1 ≡ some negative_number)
unfolding new_uint24 as_int
new_uint24_lem v = ((λ h. (ground arith, omega arith)), (λ h. ground arith), refl)
