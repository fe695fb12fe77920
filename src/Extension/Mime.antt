-- ===== src/Extension/Mime.antt =====
-- extension/mime.go: the table of well-known MIME types, as bytes.
use rsocket_go.Base.{ℕ, ◌≡◌, ◌<◌, refl, Bool, true, false, List, [], ◌∷◌, Option, none, some, ◌==◌}
use rsocket_go.Base.{
  if◌then◌else◌, bytes_eq, bytes_eq→eq, ap, sym, ◌∙◌, arith, ltb, ltb→lt, ◌&&◌, Bool-cases, inl,
  inr, ==_iff, not,
}
use rsocket_go.BigEndian.{Bytes}

-- _mimeTypes
abbrev pub mime_types : List (ℕ × Bytes)
mime_types =
    -- application/avro
    (
      0,
      97 ∷ 112 ∷ 112 ∷ 108 ∷ 105 ∷ 99 ∷ 97 ∷ 116 ∷ 105 ∷ 111 ∷ 110 ∷ 47 ∷ 97 ∷ 118 ∷ 114 ∷ 111 ∷ [],
    )
    ∷  -- application/cbor
        (
          1,
          97 ∷ 112 ∷ 112 ∷ 108 ∷ 105 ∷ 99 ∷ 97 ∷ 116 ∷ 105 ∷ 111 ∷ 110 ∷ 47 ∷ 99 ∷ 98 ∷ 111 ∷ 114
              ∷ [],
        )
    ∷  -- application/graphql
        (
          2,
          97 ∷ 112 ∷ 112 ∷ 108 ∷ 105 ∷ 99 ∷ 97 ∷ 116 ∷ 105 ∷ 111 ∷ 110 ∷ 47 ∷ 103 ∷ 114 ∷ 97 ∷ 112
              ∷ 104 ∷ 113 ∷ 108 ∷ [],
        )
    ∷  -- application/gzip
        (
          3,
          97 ∷ 112 ∷ 112 ∷ 108 ∷ 105 ∷ 99 ∷ 97 ∷ 116 ∷ 105 ∷ 111 ∷ 110 ∷ 47 ∷ 103 ∷ 122 ∷ 105 ∷ 112
              ∷ [],
        )
    ∷  -- application/javascript
        (
          4,
          97 ∷ 112 ∷ 112 ∷ 108 ∷ 105 ∷ 99 ∷ 97 ∷ 116 ∷ 105 ∷ 111 ∷ 110 ∷ 47 ∷ 106 ∷ 97 ∷ 118 ∷ 97
              ∷ 115 ∷ 99 ∷ 114 ∷ 105 ∷ 112 ∷ 116 ∷ [],
        )
    ∷  -- application/json
        (
          5,
          97 ∷ 112 ∷ 112 ∷ 108 ∷ 105 ∷ 99 ∷ 97 ∷ 116 ∷ 105 ∷ 111 ∷ 110 ∷ 47 ∷ 106 ∷ 115 ∷ 111 ∷ 110
              ∷ [],
        )
    ∷  -- application/octet-stream
        (
          6,
          97 ∷ 112 ∷ 112 ∷ 108 ∷ 105 ∷ 99 ∷ 97 ∷ 116 ∷ 105 ∷ 111 ∷ 110 ∷ 47 ∷ 111 ∷ 99 ∷ 116 ∷ 101
              ∷ 116 ∷ 45 ∷ 115 ∷ 116 ∷ 114 ∷ 101 ∷ 97 ∷ 109 ∷ [],
        )
    ∷  -- application/pdf
        (
          7,
          97 ∷ 112 ∷ 112 ∷ 108 ∷ 105 ∷ 99 ∷ 97 ∷ 116 ∷ 105 ∷ 111 ∷ 110 ∷ 47 ∷ 112 ∷ 100 ∷ 102 ∷ [],
        )
    ∷  -- application/vnd.apache.thrift.binary
        (
          8,
          97 ∷ 112 ∷ 112 ∷ 108 ∷ 105 ∷ 99 ∷ 97 ∷ 116 ∷ 105 ∷ 111 ∷ 110 ∷ 47 ∷ 118 ∷ 110 ∷ 100 ∷ 46
              ∷ 97 ∷ 112 ∷ 97 ∷ 99 ∷ 104 ∷ 101 ∷ 46 ∷ 116 ∷ 104 ∷ 114 ∷ 105 ∷ 102 ∷ 116 ∷ 46 ∷ 98
              ∷ 105 ∷ 110 ∷ 97 ∷ 114 ∷ 121 ∷ [],
        )
    ∷  -- application/vnd.google.protobuf
        (
          9,
          97 ∷ 112 ∷ 112 ∷ 108 ∷ 105 ∷ 99 ∷ 97 ∷ 116 ∷ 105 ∷ 111 ∷ 110 ∷ 47 ∷ 118 ∷ 110 ∷ 100 ∷ 46
              ∷ 103 ∷ 111 ∷ 111 ∷ 103 ∷ 108 ∷ 101 ∷ 46 ∷ 112 ∷ 114 ∷ 111 ∷ 116 ∷ 111 ∷ 98 ∷ 117
              ∷ 102 ∷ [],
        )
    ∷  -- application/xml
        (
          10,
          97 ∷ 112 ∷ 112 ∷ 108 ∷ 105 ∷ 99 ∷ 97 ∷ 116 ∷ 105 ∷ 111 ∷ 110 ∷ 47 ∷ 120 ∷ 109 ∷ 108 ∷ [],
        )
    ∷  -- application/zip
        (
          11,
          97 ∷ 112 ∷ 112 ∷ 108 ∷ 105 ∷ 99 ∷ 97 ∷ 116 ∷ 105 ∷ 111 ∷ 110 ∷ 47 ∷ 122 ∷ 105 ∷ 112 ∷ [],
        )
    ∷  -- audio/aac
        (12, 97 ∷ 117 ∷ 100 ∷ 105 ∷ 111 ∷ 47 ∷ 97 ∷ 97 ∷ 99 ∷ [])
    ∷  -- audio/mp3
        (13, 97 ∷ 117 ∷ 100 ∷ 105 ∷ 111 ∷ 47 ∷ 109 ∷ 112 ∷ 51 ∷ [])
    ∷  -- audio/mp4
        (14, 97 ∷ 117 ∷ 100 ∷ 105 ∷ 111 ∷ 47 ∷ 109 ∷ 112 ∷ 52 ∷ [])
    ∷  -- audio/mpeg3
        (15, 97 ∷ 117 ∷ 100 ∷ 105 ∷ 111 ∷ 47 ∷ 109 ∷ 112 ∷ 101 ∷ 103 ∷ 51 ∷ [])
    ∷  -- audio/mpeg
        (16, 97 ∷ 117 ∷ 100 ∷ 105 ∷ 111 ∷ 47 ∷ 109 ∷ 112 ∷ 101 ∷ 103 ∷ [])
    ∷  -- audio/ogg
        (17, 97 ∷ 117 ∷ 100 ∷ 105 ∷ 111 ∷ 47 ∷ 111 ∷ 103 ∷ 103 ∷ [])
    ∷  -- audio/opus
        (18, 97 ∷ 117 ∷ 100 ∷ 105 ∷ 111 ∷ 47 ∷ 111 ∷ 112 ∷ 117 ∷ 115 ∷ [])
    ∷  -- audio/vorbis
        (19, 97 ∷ 117 ∷ 100 ∷ 105 ∷ 111 ∷ 47 ∷ 118 ∷ 111 ∷ 114 ∷ 98 ∷ 105 ∷ 115 ∷ [])
    ∷  -- image/bmp
        (20, 105 ∷ 109 ∷ 97 ∷ 103 ∷ 101 ∷ 47 ∷ 98 ∷ 109 ∷ 112 ∷ [])
    ∷  -- image/gif
        (21, 105 ∷ 109 ∷ 97 ∷ 103 ∷ 101 ∷ 47 ∷ 103 ∷ 105 ∷ 102 ∷ [])
    ∷  -- image/heic-sequence
        (
          22,
          105 ∷ 109 ∷ 97 ∷ 103 ∷ 101 ∷ 47 ∷ 104 ∷ 101 ∷ 105 ∷ 99 ∷ 45 ∷ 115 ∷ 101 ∷ 113 ∷ 117 ∷ 101
              ∷ 110 ∷ 99 ∷ 101 ∷ [],
        )
    ∷  -- image/heic
        (23, 105 ∷ 109 ∷ 97 ∷ 103 ∷ 101 ∷ 47 ∷ 104 ∷ 101 ∷ 105 ∷ 99 ∷ [])
    ∷  -- image/heif-sequence
        (
          24,
          105 ∷ 109 ∷ 97 ∷ 103 ∷ 101 ∷ 47 ∷ 104 ∷ 101 ∷ 105 ∷ 102 ∷ 45 ∷ 115 ∷ 101 ∷ 113 ∷ 117 ∷ 101
              ∷ 110 ∷ 99 ∷ 101 ∷ [],
        )
    ∷  -- image/heif
        (25, 105 ∷ 109 ∷ 97 ∷ 103 ∷ 101 ∷ 47 ∷ 104 ∷ 101 ∷ 105 ∷ 102 ∷ [])
    ∷  -- image/jpeg
        (26, 105 ∷ 109 ∷ 97 ∷ 103 ∷ 101 ∷ 47 ∷ 106 ∷ 112 ∷ 101 ∷ 103 ∷ [])
    ∷  -- image/png
        (27, 105 ∷ 109 ∷ 97 ∷ 103 ∷ 101 ∷ 47 ∷ 112 ∷ 110 ∷ 103 ∷ [])
    ∷  -- image/tiff
        (28, 105 ∷ 109 ∷ 97 ∷ 103 ∷ 101 ∷ 47 ∷ 116 ∷ 105 ∷ 102 ∷ 102 ∷ [])
    ∷  -- multipart/mixed
        (
          29,
          109 ∷ 117 ∷ 108 ∷ 116 ∷ 105 ∷ 112 ∷ 97 ∷ 114 ∷ 116 ∷ 47 ∷ 109 ∷ 105 ∷ 120 ∷ 101 ∷ 100
              ∷ [],
        )
    ∷  -- text/css
        (30, 116 ∷ 101 ∷ 120 ∷ 116 ∷ 47 ∷ 99 ∷ 115 ∷ 115 ∷ [])
    ∷  -- text/csv
        (31, 116 ∷ 101 ∷ 120 ∷ 116 ∷ 47 ∷ 99 ∷ 115 ∷ 118 ∷ [])
    ∷  -- text/html
        (32, 116 ∷ 101 ∷ 120 ∷ 116 ∷ 47 ∷ 104 ∷ 116 ∷ 109 ∷ 108 ∷ [])
    ∷  -- text/plain
        (33, 116 ∷ 101 ∷ 120 ∷ 116 ∷ 47 ∷ 112 ∷ 108 ∷ 97 ∷ 105 ∷ 110 ∷ [])
    ∷  -- text/xml
        (34, 116 ∷ 101 ∷ 120 ∷ 116 ∷ 47 ∷ 120 ∷ 109 ∷ 108 ∷ [])
    ∷  -- video/H264
        (35, 118 ∷ 105 ∷ 100 ∷ 101 ∷ 111 ∷ 47 ∷ 72 ∷ 50 ∷ 54 ∷ 52 ∷ [])
    ∷  -- video/H265
        (36, 118 ∷ 105 ∷ 100 ∷ 101 ∷ 111 ∷ 47 ∷ 72 ∷ 50 ∷ 54 ∷ 53 ∷ [])
    ∷  -- video/VP8
        (37, 118 ∷ 105 ∷ 100 ∷ 101 ∷ 111 ∷ 47 ∷ 86 ∷ 80 ∷ 56 ∷ [])
    ∷  -- application/x-hessian
        (
          38,
          97 ∷ 112 ∷ 112 ∷ 108 ∷ 105 ∷ 99 ∷ 97 ∷ 116 ∷ 105 ∷ 111 ∷ 110 ∷ 47 ∷ 120 ∷ 45 ∷ 104 ∷ 101
              ∷ 115 ∷ 115 ∷ 105 ∷ 97 ∷ 110 ∷ [],
        )
    ∷  -- application/x-java-object
        (
          39,
          97 ∷ 112 ∷ 112 ∷ 108 ∷ 105 ∷ 99 ∷ 97 ∷ 116 ∷ 105 ∷ 111 ∷ 110 ∷ 47 ∷ 120 ∷ 45 ∷ 106 ∷ 97
              ∷ 118 ∷ 97 ∷ 45 ∷ 111 ∷ 98 ∷ 106 ∷ 101 ∷ 99 ∷ 116 ∷ [],
        )
    ∷  -- application/cloudevents+json
        (
          40,
          97 ∷ 112 ∷ 112 ∷ 108 ∷ 105 ∷ 99 ∷ 97 ∷ 116 ∷ 105 ∷ 111 ∷ 110 ∷ 47 ∷ 99 ∷ 108 ∷ 111 ∷ 117
              ∷ 100 ∷ 101 ∷ 118 ∷ 101 ∷ 110 ∷ 116 ∷ 115 ∷ 43 ∷ 106 ∷ 115 ∷ 111 ∷ 110 ∷ [],
        )
    ∷  -- message/x.rsocket.mime-type.v0
        (
          122,
          109 ∷ 101 ∷ 115 ∷ 115 ∷ 97 ∷ 103 ∷ 101 ∷ 47 ∷ 120 ∷ 46 ∷ 114 ∷ 115 ∷ 111 ∷ 99 ∷ 107 ∷ 101
              ∷ 116 ∷ 46 ∷ 109 ∷ 105 ∷ 109 ∷ 101 ∷ 45 ∷ 116 ∷ 121 ∷ 112 ∷ 101 ∷ 46 ∷ 118 ∷ 48 ∷ [],
        )
    ∷  -- message/x.rsocket.accept-mime-types.v0
        (
          123,
          109 ∷ 101 ∷ 115 ∷ 115 ∷ 97 ∷ 103 ∷ 101 ∷ 47 ∷ 120 ∷ 46 ∷ 114 ∷ 115 ∷ 111 ∷ 99 ∷ 107 ∷ 101
              ∷ 116 ∷ 46 ∷ 97 ∷ 99 ∷ 99 ∷ 101 ∷ 112 ∷ 116 ∷ 45 ∷ 109 ∷ 105 ∷ 109 ∷ 101 ∷ 45 ∷ 116
              ∷ 121 ∷ 112 ∷ 101 ∷ 115 ∷ 46 ∷ 118 ∷ 48 ∷ [],
        )
    ∷  -- message/x.rsocket.authentication.v0
        (
          124,
          109 ∷ 101 ∷ 115 ∷ 115 ∷ 97 ∷ 103 ∷ 101 ∷ 47 ∷ 120 ∷ 46 ∷ 114 ∷ 115 ∷ 111 ∷ 99 ∷ 107 ∷ 101
              ∷ 116 ∷ 46 ∷ 97 ∷ 117 ∷ 116 ∷ 104 ∷ 101 ∷ 110 ∷ 116 ∷ 105 ∷ 99 ∷ 97 ∷ 116 ∷ 105 ∷ 111
              ∷ 110 ∷ 46 ∷ 118 ∷ 48 ∷ [],
        )
    ∷  -- message/x.rsocket.tracing-zipkin.v0
        (
          125,
          109 ∷ 101 ∷ 115 ∷ 115 ∷ 97 ∷ 103 ∷ 101 ∷ 47 ∷ 120 ∷ 46 ∷ 114 ∷ 115 ∷ 111 ∷ 99 ∷ 107 ∷ 101
              ∷ 116 ∷ 46 ∷ 116 ∷ 114 ∷ 97 ∷ 99 ∷ 105 ∷ 110 ∷ 103 ∷ 45 ∷ 122 ∷ 105 ∷ 112 ∷ 107 ∷ 105
              ∷ 110 ∷ 46 ∷ 118 ∷ 48 ∷ [],
        )
    ∷  -- message/x.rsocket.routing.v0
        (
          126,
          109 ∷ 101 ∷ 115 ∷ 115 ∷ 97 ∷ 103 ∷ 101 ∷ 47 ∷ 120 ∷ 46 ∷ 114 ∷ 115 ∷ 111 ∷ 99 ∷ 107 ∷ 101
              ∷ 116 ∷ 46 ∷ 114 ∷ 111 ∷ 117 ∷ 116 ∷ 105 ∷ 110 ∷ 103 ∷ 46 ∷ 118 ∷ 48 ∷ [],
        )
    ∷  -- message/x.rsocket.composite-metadata.v0
        (
          127,
          109 ∷ 101 ∷ 115 ∷ 115 ∷ 97 ∷ 103 ∷ 101 ∷ 47 ∷ 120 ∷ 46 ∷ 114 ∷ 115 ∷ 111 ∷ 99 ∷ 107 ∷ 101
              ∷ 116 ∷ 46 ∷ 99 ∷ 111 ∷ 109 ∷ 112 ∷ 111 ∷ 115 ∷ 105 ∷ 116 ∷ 101 ∷ 45 ∷ 109 ∷ 101 ∷ 116
              ∷ 97 ∷ 100 ∷ 97 ∷ 116 ∷ 97 ∷ 46 ∷ 118 ∷ 48 ∷ [],
        )
    ∷ []

-- p.String(); a missing key has the empty string.
unfoldable pub string_in : List (ℕ × Bytes) → ℕ → Bytes
string_in [] p = []
string_in ((k, v) ∷ rest) p = if k == p then v else string_in rest p

unfoldable pub string : ℕ → Bytes
unfolding string_in
string p = string_in mime_types p

unfoldable pub parse_in : List (ℕ × Bytes) → Bytes → Option ℕ
parse_in [] s = none
parse_in ((k, v) ∷ rest) s = if bytes_eq v s then some k else parse_in rest s

-- The key, or none where ParseMIME has false.
unfoldable pub parse_mime : Bytes → Option ℕ
unfolding parse_in
parse_mime s = parse_in mime_types s

has_key : ℕ → List (ℕ × Bytes) → Bool
has_key p [] = false
has_key p ((k, v) ∷ rest) = if k == p then true else has_key p rest

-- The keys are distinct, and of seven bits.
distinct : List (ℕ × Bytes) → Bool
distinct [] = true
distinct ((k, v) ∷ rest) = not (has_key k rest) && (ltb k 128 && distinct rest)

mime_types-distinct : distinct mime_types ≡ true
unfolding distinct has_key
mime_types-distinct = refl

split_and : (a b : Bool) → (a && b) ≡ true → (a ≡ true) × (b ≡ true)
split_and true b e = (refl, e)
split_and false b e = cc

not-true : (b : Bool) → not b ≡ true → b ≡ false
not-true false e = refl
not-true true e = cc

clash : {b : Bool} → b ≡ true → b ≡ false → ⊥
clash e g = cc

some_eq {ℓ} : {A : Type ℓ} {x y : A} → some x ≡ some y → x ≡ y
some_eq e = cc

-- A key that is found is in the table, and its string is what was looked for.
parse_in-string_in :
    (t : List (ℕ × Bytes)) (s : Bytes) (p : ℕ)
    → distinct t ≡ true
    → parse_in t s ≡ some p
    → (string_in t p ≡ s) × (has_key p t ≡ true) × (p < 128)
unfolding parse_in string_in distinct has_key
parse_in-string_in [] s p d e = cc
parse_in-string_in ((k, v) ∷ rest) s p d e =
    let (fresh, more) = split_and (not (has_key k rest)) (ltb k 128 && distinct rest) d in
    let (small, d') = split_and (ltb k 128) (distinct rest) more in
    elim (Bool-cases (bytes_eq v s)) [
      | inl y ↦
          let same : k ≡ p =
            some_eq (sym (ap (λ b. if b then some k else parse_in rest s) y) ∙ e) in
          let hit : k == p ≡ true = (==_iff k p).1 same in
          (
            ap (λ b. if b then v else string_in rest p) hit ∙ bytes_eq→eq v s y,
            ap (λ b. if b then true else has_key p rest) hit,
            omega (arith, same, ltb→lt k 128 small),
          )
      | inr n ↦
          let (es, h, below) =
            parse_in-string_in rest s p d'
              (sym (ap (λ b. if b then some k else parse_in rest s) n) ∙ e) in
          elim (Bool-cases (k == p)) [
            | inl y ↦ absurd (
                clash (ap (λ x. has_key x rest) ((==_iff k p).0 y) ∙ h)
                  (not-true (has_key k rest) fresh))
            | inr z ↦ (
              ap (λ b. if b then v else string_in rest p) z ∙ es,
              ap (λ b. if b then true else has_key p rest) z ∙ h,
              below,
            )
          ]
    ]

pub parse_mime-string : (s : Bytes) (p : ℕ) → parse_mime s ≡ some p → (string p ≡ s) × (p < 128)
unfolding parse_mime string
parse_mime-string s p e =
    let (es, h, below) = parse_in-string_in mime_types s p mime_types-distinct e in (es, below)
