-- ===== src/Extension/Composite/RoundTrip.antt =====
-- What a builder of composite metadata writes, and what a scanner reads of it.
use rsocket_go.Base.{
  ℕ, suc, ◌+◌, ◌*◌, ◌-◌, ◌/◌, ◌%◌, ◌≤◌, ◌<◌, ◌≡◌, refl, ap, arith, ◌∙◌, sym, bit_and, bit_or,
}
use rsocket_go.Base.{
  Bool, true, false, List, [], ◌∷◌, ◌++◌, length, All, append_assoc, append-nil, length-append,
}
use rsocket_go.Base.{
  Option, none, some, if◌then◌else◌, nonempty, ◌==◌, ltb-false_iff, ==_iff, not, lt→ltb, all_below,
  all_below→holds,
}
use rsocket_go.Base.Int.{pos}
use rsocket_go.Base.Outcome.{
  Outcome, done, ◌>>=◌, >>=-eq-done, slice, slice-append, slice_from-append,
}
use rsocket_go.BigEndian.{Bytes}
use rsocket_go.U24.{
  Uint24, max_uint24, bytes, as_int, must_new_uint24, new_uint24_bytes, length_field,
  length-length_field, must_new_uint24_fits, new_uint24_bytes_field,
}
use rsocket_go.Extension.Mime.{string, parse_mime, parse_mime-string}
use rsocket_go.Extension.Composite.{
  Builder, key_of, push, key_bytes, value_bytes, build_entry, build_loop, build, Scanner, scanner,
  scan, read_value, read_mime, decode_composite_metadata_once, metadata, scan_all, push_all,
}

-- What an entry is as bytes.
mime_bytes : Option ℕ → Bytes → Bytes
mime_bytes none s = (length s - 1) ∷ s
mime_bytes (some k) s = (128 + k) ∷ []

entry_bytes : Bytes × Bytes → Bytes
entry_bytes (mime, value) =
    mime_bytes (parse_mime mime) mime ++ (length_field (length value) ++ value)

all_bytes : List (Bytes × Bytes) → Bytes
all_bytes [] = []
all_bytes (e ∷ es) = entry_bytes e ++ all_bytes es

-- A MIME type of one to 127 bytes, and metadata of a length that fits its field.
abbrev pub IsEntry : Bytes × Bytes → Type 0
IsEntry (mime, value) = (0 < length mime) × (length mime ≤ 127) × (length value ≤ max_uint24)

nonempty_same : (v : Bytes) → (if nonempty v then v else []) ≡ v
nonempty_same [] = refl
nonempty_same (x ∷ xs) = refl

done_eq {ℓ} : {A : Type ℓ} {x y : A} → done x ≡ done y → x ≡ y
done_eq e = cc

value_fits :
    (v : Bytes) → length v ≤ max_uint24 → value_bytes v ≡ done (length_field (length v) ++ v)
unfolding value_bytes
value_fits v h =
    let (u, e, f) =
      >>=-eq-done (must_new_uint24 (pos (length v))) (λ u. done (bytes u))
        (must_new_uint24_fits (length v) h) in
    ap (λ o. o >>= λ u. done (bytes u ++ (if nonempty v then v else []))) e
    ∙ ap (λ b. done (b ++ (if nonempty v then v else []))) (done_eq f)
    ∙ ap (λ x. done (length_field (length v) ++ x)) (nonempty_same v)

-- The first bit of a byte is its tag.
tagged : (k : ℕ) → k < 128 → bit_and (128 + k) 0x80 == 0x80 ≡ true
unfolding all_below
tagged k h = all_below→holds 128 (λ k. bit_and (128 + k) 0x80 == 0x80) k refl h

tags : (k : ℕ) → k < 128 → bit_or 0x80 k ≡ 128 + k
unfolding all_below
tags k h =
    (==_iff (bit_or 0x80 k) (128 + k)).0
      (all_below→holds 128 (λ k. bit_or 0x80 k == 128 + k) k refl h)

untagged : (k : ℕ) → k < 128 → bit_and k 0x80 == 0x80 ≡ false
unfolding all_below
untagged k h = is_false _ (all_below→holds 128 (λ k. not (bit_and k 0x80 == 0x80)) k refl h)
  where
    is_false : (b : Bool) → not b ≡ true → b ≡ false
    is_false true e = cc
    is_false false e = refl

key_fits :
    (o : Option ℕ) (s : Bytes)
    → ((p : ℕ) → o ≡ some p → p < 128)
    → 0 < length s
    → length s ≤ 127
    → key_bytes (key_of o s) ≡ some (mime_bytes o s)
unfolding key_bytes mime_bytes
key_fits none s h some_byte le =
    rw ((ltb-false_iff 127 (length s)).1 le) (ap (λ n. some (n ∷ s)) pred_mod)
  where
    pred_mod : (length s + 255) % 256 ≡ length s - 1
    pred_mod = omega arith
key_fits (some k) s h some_byte le =
    ap (λ n. some (n ∷ [])) (ap (bit_or 0x80) small ∙ tags k (h k refl))
  where
    small : k % 256 ≡ k
    small = omega (arith, h k refl)

read_value-framed :
    (pre v rest : Bytes)
    → length v ≤ max_uint24
    → read_value (pre ++ (length_field (length v) ++ (v ++ rest))) (length pre)
      ≡ done (length pre + 3 + length v, v)
unfolding read_value
read_value-framed pre v rest h =
    let (u, eu, n) = new_uint24_bytes_field (length v) [] h in
    ap (λ o. o >>= λ field. new_uint24_bytes field >>= next)
      (slice-append pre field (v ++ rest) (length pre) (length pre + 3) refl
        (omega (arith, length-length_field (length v))))
    ∙ ap (λ o. o >>= next) (ap new_uint24_bytes (sym (append-nil field)) ∙ eu)
    ∙ ap
        (λ k. slice raw (length pre + 3) (length pre + 3 + k) >>= λ m. done (length pre + 3 + k, m))
        n
    ∙ ap
        (λ r. slice r (length pre + 3) (length pre + 3 + length v) >>= λ m.
          done (length pre + 3 + length v, m))
        (sym (append_assoc pre field (v ++ rest)))
    ∙ ap (λ o. o >>= λ m. done (length pre + 3 + length v, m))
        (slice-append (pre ++ field) v rest (length pre + 3) (length pre + 3 + length v)
          (omega (arith, length-append pre field, length-length_field (length v)))
          (omega (arith, length-append pre field, length-length_field (length v))))
  where
    field : Bytes
    field = length_field (length v)

    raw : Bytes
    raw = pre ++ (field ++ (v ++ rest))

    next : Uint24 → Outcome (ℕ × Bytes)
    next u = slice raw (length pre + 3) (length pre + 3 + as_int u) >>= λ m.
        done (length pre + 3 + as_int u, m)

read_mime-custom :
    (s rest : Bytes)
    → 0 < length s
    → length s ≤ 127
    → read_mime ((length s - 1) ∷ (s ++ rest)) (length s - 1) ≡ done (1 + length s, s)
unfolding read_mime
read_mime-custom s rest p h =
    rw (untagged (length s - 1) (omega arith), width)
      (ap (λ o. o >>= λ m. done (1 + length s, m))
        (slice-append ((length s - 1) ∷ []) s rest 1 (1 + length s) refl refl))
  where
    width : (length s - 1) * 2 % 256 / 2 + 1 ≡ length s
    width = omega arith

read_mime-known :
    (raw s : Bytes) (k : ℕ) → k < 128 → string k ≡ s → read_mime raw (128 + k) ≡ done (1, s)
unfolding read_mime
read_mime-known raw s k h e = rw (tagged k h, same, e) refl
  where
    same : (128 + k) * 2 % 256 / 2 ≡ k
    same = omega arith

-- The entry at the front of some bytes.
decoded :
    (e : Bytes × Bytes) (rest : Bytes)
    → IsEntry e
    → decode_composite_metadata_once (entry_bytes e ++ rest)
      ≡ done (length (entry_bytes e), e.0, e.1)
unfolding decode_composite_metadata_once entry_bytes mime_bytes
decoded (s, v) rest (some_byte, short, fits) =
    by_key (parse_mime s) (λ k e. parse_mime-string s k e)
  where
    field : Bytes
    field = length_field (length v)

    after : Bytes → ℕ × Bytes → Outcome (ℕ × Bytes × Bytes)
    after raw (size, mime) = read_value raw size >>= λ x. done (x.0, mime, x.1)

    valued :
        (head : Bytes) (size : ℕ)
        → size ≡ length head
        → after ((head ++ (field ++ v)) ++ rest) (size, s)
          ≡ done (length (head ++ (field ++ v)), s, v)
    valued head size e =
        ap (λ n. after ((head ++ (field ++ v)) ++ rest) (n, s)) e
        ∙ ap (λ r. after r (length head, s))
            (append_assoc head (field ++ v) rest ∙ ap (λ x. head ++ x) (append_assoc field v rest))
        ∙ ap (λ o. o >>= λ x. done (x.0, s, x.1)) (read_value-framed head v rest fits)
        ∙ ap (λ n. done (n, s, v))
            (omega (
              arith,
              length-append head (field ++ v),
              length-append field v,
              length-length_field (length v),
            ))

    by_key :
        (o : Option ℕ)
        → ((k : ℕ) → o ≡ some k → (string k ≡ s) × (k < 128))
        → decode_composite_metadata_once ((mime_bytes o s ++ (field ++ v)) ++ rest)
          ≡ done (length (mime_bytes o s ++ (field ++ v)), s, v)
    by_key none h =
        ap (λ o. o >>= after (((length s - 1) ∷ (s ++ (field ++ v))) ++ rest))
          (ap (λ r. read_mime ((length s - 1) ∷ r) (length s - 1))
              (append_assoc s (field ++ v) rest)
            ∙ read_mime-custom s ((field ++ v) ++ rest) some_byte short)
        ∙ valued ((length s - 1) ∷ s) (1 + length s) (omega arith)
    by_key (some k) h =
        ap (λ o. o >>= after (((128 + k) ∷ (field ++ v)) ++ rest))
          (read_mime-known (((128 + k) ∷ (field ++ v)) ++ rest) s k (h k refl).1 (h k refl).0)
        ∙ valued ((128 + k) ∷ []) 1 refl

keyed : List (Bytes × Bytes) → Builder
keyed [] = []
keyed ((mime, value) ∷ rest) = (key_of (parse_mime mime) mime, value) ∷ keyed rest

push_all-keyed : (es : List (Bytes × Bytes)) (c : Builder) → push_all es c ≡ c ++ keyed es
unfolding push_all push keyed
push_all-keyed [] c = sym (append-nil c)
push_all-keyed ((mime, value) ∷ rest) c =
    push_all-keyed rest (push mime value c)
    ∙ append_assoc c ((key_of (parse_mime mime) mime, value) ∷ []) (keyed rest)

build_loop-keyed :
    (es : List (Bytes × Bytes)) (bf : Bytes)
    → All IsEntry es
    → build_loop (keyed es) bf ≡ done (some (bf ++ all_bytes es))
unfolding build_loop keyed all_bytes entry_bytes
build_loop-keyed [] bf h = ap (λ b. done (some b)) (sym (append-nil bf))
build_loop-keyed ((mime, value) ∷ rest) bf ((some_byte, short, fits), hs) =
    ap (λ o. build_entry o value bf go)
      (key_fits (parse_mime mime) mime (λ p e. (parse_mime-string mime p e).1) some_byte short)
    ∙ ap (λ o. o >>= λ v. go (bf ++ (mime_bytes (parse_mime mime) mime ++ v)))
        (value_fits value fits)
    ∙ build_loop-keyed rest (bf ++ entry_bytes (mime, value)) hs
    ∙ ap (λ b. done (some b)) (append_assoc bf (entry_bytes (mime, value)) (all_bytes rest))
  where
    go : Bytes → Outcome (Option Bytes)
    go b = build_loop (keyed rest) b

entry_bytes_long : (e : Bytes × Bytes) → 0 < length (entry_bytes e)
unfolding entry_bytes
entry_bytes_long (mime, value) = omega (
  arith,
  length-append (mime_bytes (parse_mime mime) mime) (length_field (length value) ++ value),
  length-append (length_field (length value)) value,
  length-length_field (length value),
)

-- One round for each entry, and one that ends.
rounds : List (Bytes × Bytes) → ℕ → ℕ
rounds [] fuel = suc fuel
rounds (e ∷ es) fuel = suc (rounds es fuel)

rounds_lem : (es : List (Bytes × Bytes)) (fuel : ℕ) → rounds es fuel ≡ length es + 1 + fuel
unfolding rounds
rounds_lem [] fuel = omega arith
rounds_lem (e ∷ es) fuel = omega (arith, rounds_lem es fuel)

scan_all-all_bytes :
    (es : List (Bytes × Bytes)) (pre : Bytes) (fuel : ℕ)
    → All IsEntry es
    → scan_all (rounds es fuel) (record { offset = length pre; raw = pre ++ all_bytes es })
      ≡ done es
unfolding scan_all scan all_bytes metadata rounds
scan_all-all_bytes [] pre fuel h =
    rw (append-nil pre, (ltb-false_iff (length pre) (length pre)).1 (omega arith)) refl
scan_all-all_bytes (e ∷ es) pre fuel (h, hs) =
    ap (λ b. if b then go (metadata c) else done [])
      (lt→ltb (length pre) (length (pre ++ (entry_bytes e ++ all_bytes es))) (
        omega (
          arith,
          length-append pre (entry_bytes e ++ all_bytes es),
          length-append (entry_bytes e) (all_bytes es),
          entry_bytes_long e,
        )))
    ∙ ap go read
    ∙ ap (λ s. scan_all (rounds es fuel) s >>= λ rest. done ((e.0, e.1) ∷ rest)) moved
    ∙ ap (λ o. o >>= λ rest. done ((e.0, e.1) ∷ rest))
        (scan_all-all_bytes es (pre ++ entry_bytes e) fuel hs)
  where
    c : Scanner
    c = record { offset = length pre; raw = pre ++ (entry_bytes e ++ all_bytes es) }

    go : Outcome (Scanner × Bytes × Bytes) → Outcome (List (Bytes × Bytes))
    go o = o >>= λ x. scan_all (rounds es fuel) x.0 >>= λ rest. done ((x.1, x.2) ∷ rest)

    next : ℕ × Bytes × Bytes → Outcome (Scanner × Bytes × Bytes)
    next x = done (record c { offset = length pre + x.0 }, x.1, x.2)

    read : metadata c ≡ done (record c { offset = length pre + length (entry_bytes e) }, e.0, e.1)
    read =
        ap (λ o. o >>= λ raw. decode_composite_metadata_once raw >>= λ x. next x)
          (slice_from-append pre (entry_bytes e ++ all_bytes es) (length pre) refl)
        ∙ ap (λ o. o >>= λ x. next x) (decoded e (all_bytes es) h)

    moved : record c { offset = length pre + length (entry_bytes e) } ≡ record {
      offset = length (pre ++ entry_bytes e);
      raw = (pre ++ entry_bytes e) ++ all_bytes es;
    }
    moved = (λ i. record {
      offset = sym (length-append pre (entry_bytes e)) i;
      raw = sym (append_assoc pre (entry_bytes e) (all_bytes es)) i;
    })

-- Entries with MIME types of 1 to 127 bytes and metadata of at most 16777215 bytes, pushed one
-- after another, are built without an error or a panic, and scanning the bytes gives the entries
-- in order, MIME types of the table included, within one round more than there are entries.
pub composite_round_trip :
    (es : List (Bytes × Bytes)) (fuel : ℕ)
    → All IsEntry es
    → length es < fuel
    → (raw : Bytes) × (build (push_all es []) ≡ done (some raw))
      × (scan_all fuel (scanner raw) ≡ done es)
unfolding build
composite_round_trip es fuel h enough = (
  all_bytes es,
  ap (λ c. build_loop c []) (push_all-keyed es []) ∙ build_loop-keyed es [] h,
  ap (λ n. scan_all n (scanner (all_bytes es))) split
      ∙ scan_all-all_bytes es [] (fuel - suc (length es)) h,
)
  where
    split : fuel ≡ rounds es (fuel - suc (length es))
    split = omega (arith, rounds_lem es (fuel - suc (length es)))
