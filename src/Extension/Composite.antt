-- ===== src/Extension/Composite.antt =====
-- extension/composite_metadata.go. A string is its bytes.
pub mod RoundTrip
use rsocket_go.Base.{
  ℕ, zero, suc, ◌+◌, ◌*◌, ◌-◌, ◌/◌, ◌%◌, ◌≤◌, ◌<◌, ◌≡◌, refl, ap, arith, ◌∙◌, sym, bit_and, bit_or,
}
use rsocket_go.Base.{
  Bool, true, false, List, [], ◌∷◌, ◌++◌, length, All, append_assoc, append-nil, length-append,
}
use rsocket_go.Base.{
  Option, none, some, ltb, if◌then◌else◌, nonempty, ◌==◌, ltb-false_iff, ==_iff, not, lt→ltb,
  all_below, all_below→holds,
}
use rsocket_go.Base.Int.{pos}
use rsocket_go.Base.Outcome.{
  Outcome, done, panic, ◌>>=◌, >>=-eq-done, index, slice, slice_from, slice-append,
  slice_from-append,
}
use rsocket_go.BigEndian.{Bytes}
use rsocket_go.U24.{
  Uint24, max_uint24, bytes, as_int, must_new_uint24, new_uint24_bytes, length_field,
  length-length_field, must_new_uint24_fits, new_uint24_bytes_field,
}
use rsocket_go.Extension.Mime.{string, parse_mime, parse_mime-string}

-- An element of `k`: a MIME or a string.
pub data MimeKey : Type 0 where
  well_known : ℕ → MimeKey
  custom : Bytes → MimeKey

-- The slices `k` and `v` grow together.
abbrev pub Builder : Type 0
Builder = List (MimeKey × Bytes)

unfoldable pub push_well_known : ℕ → Bytes → Builder → Builder
push_well_known mime metadata c = c ++ ((well_known mime, metadata) ∷ [])

abbrev pub key_of : Option ℕ → Bytes → MimeKey
key_of none s = custom s
key_of (some k) s = well_known k

unfoldable pub push : Bytes → Bytes → Builder → Builder
push mime metadata c = c ++ ((key_of (parse_mime mime) mime, metadata) ∷ [])

-- What is written for a key; none is the error for a type of more than 127 bytes.
unfoldable pub key_bytes : MimeKey → Option Bytes
key_bytes (well_known mime) = some (bit_or 0x80 (mime % 256) ∷ [])
key_bytes (custom s) = if ltb 127 (length s) then none else some ((length s + 255) % 256 ∷ s)

-- u24.MustNewUint24(metadataLen).Bytes(), then the metadata where there is some.
unfoldable pub value_bytes : Bytes → Outcome Bytes
value_bytes metadata = do
  u ← must_new_uint24 (pos (length metadata))
  done (bytes u ++ (if nonempty metadata then metadata else []))

abbrev pub build_entry :
    Option Bytes → Bytes → Bytes → (Bytes → Outcome (Option Bytes)) → Outcome (Option Bytes)
build_entry none metadata bf go = done none
build_entry (some key) metadata bf go = do v ← value_bytes metadata; go (bf ++ (key ++ v))

unfoldable pub build_loop : Builder → Bytes → Outcome (Option Bytes)
build_loop [] bf = done (some bf)
build_loop ((k, metadata) ∷ rest) bf =
    build_entry (key_bytes k) metadata bf (λ b. build_loop rest b)

unfoldable pub build : Builder → Outcome (Option Bytes)
unfolding build_loop
build c = build_loop c []

pub record Scanner : Type 0 where
  pub offset : ℕ
  pub raw : Bytes

abbrev pub scanner : Bytes → Scanner
scanner c = record { offset = 0; raw = c }

unfoldable pub scan : Scanner → Bool
scan c = ltb c.offset (length c.raw)

-- The metadata behind `size` bytes, and the length with it.
unfoldable pub read_value : Bytes → ℕ → Outcome (ℕ × Bytes)
read_value raw size = do
  field ← slice raw size (size + 3)
  u ← new_uint24_bytes field
  let end = size + 3 + as_int u
  metadata ← slice raw (size + 3) end
  done (end, metadata)

unfoldable pub read_mime : Bytes → ℕ → Outcome (ℕ × Bytes)
read_mime raw m =
    let id_or_len = (m * 2 % 256) / 2 in
    let mime_type_len = id_or_len + 1 in
    if bit_and m 0x80 == 0x80
    then done (1, string id_or_len)
    else (slice raw 1 (1 + mime_type_len) >>= λ s. done (1 + mime_type_len, s))

-- The length of the entry, its MIME type and its metadata.
unfoldable pub decode_composite_metadata_once : Bytes → Outcome (ℕ × Bytes × Bytes)
decode_composite_metadata_once raw = do
  m ← index raw 0
  (size, mime) ← read_mime raw m
  (end, metadata) ← read_value raw size
  done (end, mime, metadata)

-- Metadata(): the entry at the offset.
unfoldable pub metadata : Scanner → Outcome (Scanner × Bytes × Bytes)
metadata c = do
  raw ← slice_from c.raw c.offset
  (l, mime, value) ← decode_composite_metadata_once raw
  done (record c { offset = c.offset + l }, mime, value)

-- for scanner.Scan() { scanner.Metadata() }, on fuel; with no fuel left it counts as a panic.
unfoldable pub scan_all : ℕ → Scanner → Outcome (List (Bytes × Bytes))
scan_all zero c = panic
scan_all (suc fuel) c =
    if scan c
    then (metadata c >>= λ x. scan_all fuel x.0 >>= λ rest. done ((x.1, x.2) ∷ rest))
    else done []

-- Pushing a list of entries.
unfoldable pub push_all : List (Bytes × Bytes) → Builder → Builder
push_all [] c = c
push_all ((mime, value) ∷ rest) c = push_all rest (push mime value c)
