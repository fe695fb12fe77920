-- ===== src/Framing/Setup/Fields.antt =====
-- The flags of a setup frame, and the lengths of the fields in front of its MIME types.
use rsocket_go.Base.{ℕ, ◌+◌, ◌%◌, ◌^◌, ◌≡◌, refl, arith}
use rsocket_go.Base.{Bool, true, false, [], ◌∷◌, ◌++◌, length, append_assoc}
use rsocket_go.Base.{if◌then◌else◌, nonempty, length-append}
use rsocket_go.Base.Outcome.{done}
use rsocket_go.BigEndian.{Bytes, put_uint16, put_uint32, length-put_uint16, length-put_uint32}
use rsocket_go.Common.{uint32_milliseconds}
use rsocket_go.Core.Flag
use rsocket_go.Core.Types.{IsFlag, check}
use rsocket_go.Core.Version
use rsocket_go.Core.Version.{Version}
use rsocket_go.Framing.Program.{chunk, word, nothing, ◌⨟◌, emit}
use rsocket_go.Framing.Parts.{mark_metadata, Allows}
use rsocket_go.Framing.Setup.{mark, built_flag, written_flag, token_field, fixed_fields}

-- Facts about the flags are finitely many closed computations.
pub written_flag-IsFlag : (t : Bytes) (lease : Bool) → IsFlag (written_flag t lease)
unfolding written_flag mark
written_flag-IsFlag [] true = omega arith
written_flag-IsFlag [] false = omega arith
written_flag-IsFlag (x ∷ xs) true = omega arith
written_flag-IsFlag (x ∷ xs) false = omega arith

pub flag-Allows : (m t : Bytes) (lease : Bool) → Allows m (written_flag t lease)
unfolding written_flag mark check
flag-Allows m [] true h = refl
flag-Allows m [] false h = refl
flag-Allows m (x ∷ xs) true h = refl
flag-Allows m (x ∷ xs) false h = refl

pub built-written_flag : (t : Bytes) (lease : Bool) → built_flag t lease ≡ written_flag t lease
unfolding built_flag written_flag mark
built-written_flag [] true = refl
built-written_flag [] false = refl
built-written_flag (x ∷ xs) true = refl
built-written_flag (x ∷ xs) false = refl

pub check-resume :
    (m t : Bytes) (lease : Bool)
    → check (mark_metadata m (written_flag t lease)) Flag.resume ≡ nonempty t
unfolding mark_metadata written_flag mark check
check-resume [] [] true = refl
check-resume [] [] false = refl
check-resume [] (y ∷ ys) true = refl
check-resume [] (y ∷ ys) false = refl
check-resume (x ∷ xs) [] true = refl
check-resume (x ∷ xs) [] false = refl
check-resume (x ∷ xs) (y ∷ ys) true = refl
check-resume (x ∷ xs) (y ∷ ys) false = refl

pub check-lease :
    (m t : Bytes) (lease : Bool) → check (mark_metadata m (written_flag t lease)) Flag.lease ≡ lease
unfolding mark_metadata written_flag mark check
check-lease [] [] true = refl
check-lease [] [] false = refl
check-lease [] (y ∷ ys) true = refl
check-lease [] (y ∷ ys) false = refl
check-lease (x ∷ xs) [] true = refl
check-lease (x ∷ xs) [] false = refl
check-lease (x ∷ xs) (y ∷ ys) true = refl
check-lease (x ∷ xs) (y ∷ ys) false = refl

module _ (v : Version) (ka lt : ℕ) where
  -- The twelve bytes in front of the token.
  unfoldable pub times : Bytes
  times =
      (Version.bytes v ++ put_uint32 (uint32_milliseconds ka))
      ++ put_uint32 (uint32_milliseconds lt)

  pub fixed_fields_lem : (t : Bytes) → fixed_fields v ka lt t ≡ times ++ token_field t
  unfolding times
  fixed_fields_lem t = rw (append_assoc, append_assoc)

  pub length-times : length times ≡ 12
  unfolding times Version.bytes
  length-times = omega (
    arith,
    length-append (Version.bytes v ++ put_uint32 (uint32_milliseconds ka))
        (put_uint32 (uint32_milliseconds lt)),
    length-append (Version.bytes v) (put_uint32 (uint32_milliseconds ka)),
    length-append (put_uint16 v.major) (put_uint16 v.minor),
    length-put_uint16 v.major,
    length-put_uint16 v.minor,
    length-put_uint32 (uint32_milliseconds ka),
    length-put_uint32 (uint32_milliseconds lt),
  )

pub length-token_field :
    (t : Bytes) → length (token_field t) ≡ (if nonempty t then 2 + length t else 0)
unfolding token_field
length-token_field [] = refl
length-token_field (x ∷ xs) = omega (
  arith,
  length-append (put_uint16 (length (x ∷ xs) % 2 ^ 16)) (x ∷ xs),
  length-put_uint16 (length (x ∷ xs) % 2 ^ 16),
)

pub emit_token :
    (t : Bytes)
    → emit (if nonempty t then word (put_uint16 (length t % 2 ^ 16)) ⨟ chunk t else nothing)
      ≡ done (token_field t)
unfolding emit token_field
emit_token [] = refl
emit_token (x ∷ xs) = refl
