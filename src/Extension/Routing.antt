-- ===== src/Extension/Routing.antt =====
-- extension/routing.go. A tag is its bytes.
use rsocket_go.Base.{ℕ, zero, suc, ◌+◌, ◌≤◌, ◌<◌, ◌≡◌, refl, ap, arith, ◌∙◌, sym}
use rsocket_go.Base.{Bool, true, false, Bool-cases, inl, inr, List, [], ◌∷◌, ◌++◌, length, All}
use rsocket_go.Base.{
  Option, none, some, ltb, leb, if◌then◌else◌, append_assoc, append-nil, length-append,
}
use rsocket_go.Base.{ltb-false_iff, le→leb}
use native.Mathlib.Decide.{dec_le}
use rsocket_go.Base.Outcome.{
  Outcome, done, panic, ◌>>=◌, index, slice, slice-append, index-append, index_within, slice_within,
}
use rsocket_go.BigEndian.{Bytes, byte}

-- `none` is errTagLengthExceed, with a nil result.
encode_tags : Bytes → List Bytes → Option Bytes
encode_tags raw [] = some raw
encode_tags raw (it ∷ rest) =
    let others = encode_tags ((raw ++ (byte (length it) ∷ [])) ++ it) rest in
    if ltb 0xFF (length it) then none else others

unfoldable pub encode_routing : Bytes → List Bytes → Option Bytes
unfolding encode_tags
encode_routing tag other_tags =
    if ltb 0xFF (length tag)
    then none
    else encode_tags (([] ++ (byte (length tag) ∷ [])) ++ tag) other_tags

-- The tags, and whether the error is nil; tags that were read before an error stay in the result.
abbrev and_tag : Bytes → Outcome (List Bytes × Bool) → Outcome (List Bytes × Bool)
and_tag tag panic = panic
and_tag tag (done (tags, ok)) = done (tag ∷ tags, ok)

-- The loop, on fuel; a cursor grows by one at least, so one round more than there are bytes is enough.
parse_loop : ℕ → Bytes → ℕ → Outcome (List Bytes × Bool)
parse_loop zero bs cursor = panic
parse_loop (suc fuel) bs cursor =
    if leb (length bs) cursor
    then done ([], true)
    else (index bs cursor >>= λ tag_len.
        let end = cursor + 1 + tag_len in
        if ltb (length bs) end
        then done ([], false)
        else (slice bs (cursor + 1) end >>= λ tag.
            and_tag tag (parse_loop fuel bs (cursor + (tag_len + 1)))))

unfoldable pub parse_routing_tags : Bytes → Outcome (List Bytes × Bool)
unfolding parse_loop
parse_routing_tags bs = parse_loop (length bs + 1) bs 0

-- The layout: each tag behind a byte with its length.
tag_bytes : Bytes → Bytes
tag_bytes tag = length tag ∷ tag

all_tag_bytes : List Bytes → Bytes
all_tag_bytes [] = []
all_tag_bytes (tag ∷ tags) = tag_bytes tag ++ all_tag_bytes tags

abbrev pub IsTag : Bytes → Type 0
IsTag tag = length tag ≤ 0xFF

fits : (n : ℕ) → n ≤ 0xFF → ltb 0xFF n ≡ false
fits n h = (ltb-false_iff 0xFF n).1 h

byte-fits : (n : ℕ) → n ≤ 0xFF → byte n ≡ n
byte-fits n h = omega arith

append_tag :
    (raw it : Bytes) → IsTag it → (raw ++ (byte (length it) ∷ [])) ++ it ≡ raw ++ tag_bytes it
unfolding tag_bytes
append_tag raw it h =
    append_assoc raw (byte (length it) ∷ []) it
    ∙ ap (λ b. raw ++ (b ∷ it)) (byte-fits (length it) h)

encode_tags-layout :
    (raw : Bytes) (tags : List Bytes)
    → All IsTag tags
    → encode_tags raw tags ≡ some (raw ++ all_tag_bytes tags)
unfolding encode_tags all_tag_bytes
encode_tags-layout raw [] h = ap some (sym (append-nil raw))
encode_tags-layout raw (it ∷ rest) (h, hs) =
    ap (λ b. if b then none else encode_tags ((raw ++ (byte (length it) ∷ [])) ++ it) rest)
      (fits (length it) h)
    ∙ ap (λ r. encode_tags r rest) (append_tag raw it h)
    ∙ encode_tags-layout (raw ++ tag_bytes it) rest hs
    ∙ ap some (append_assoc raw (tag_bytes it) (all_tag_bytes rest))

encode_routing-layout :
    (tag : Bytes) (tags : List Bytes)
    → IsTag tag
    → All IsTag tags
    → encode_routing tag tags ≡ some (all_tag_bytes (tag ∷ tags))
unfolding encode_routing all_tag_bytes
encode_routing-layout tag tags h hs =
    ap (λ b. if b then none else encode_tags (([] ++ (byte (length tag) ∷ [])) ++ tag) tags)
      (fits (length tag) h)
    ∙ ap (λ r. encode_tags r tags) (append_tag [] tag h)
    ∙ encode_tags-layout (tag_bytes tag) tags hs

abbrev tag_at : ℕ → Bytes → ℕ → ℕ → Outcome (List Bytes × Bool)
tag_at fuel bs cursor tag_len =
    let end = cursor + 1 + tag_len in
    if ltb (length bs) end
    then done ([], false)
    else (slice bs (cursor + 1) end >>= λ tag.
        and_tag tag (parse_loop fuel bs (cursor + (tag_len + 1))))

tag_at-layout :
    (fuel : ℕ) (front it rest : Bytes)
    → tag_at fuel (front ++ (tag_bytes it ++ rest)) (length front) (length it)
      ≡ and_tag it
          (parse_loop fuel (front ++ (tag_bytes it ++ rest)) (length front + (length it + 1)))
unfolding tag_bytes
tag_at-layout fuel front it rest =
    ap (λ b. if b then done ([], false) else sliced) within
    ∙ ap (λ o. o >>= λ tag. and_tag tag (parse_loop fuel bs (length front + (length it + 1)))) exact
  where
    bs : Bytes
    bs = front ++ (length it ∷ (it ++ rest))

    sliced : Outcome (List Bytes × Bool)
    sliced = slice bs (length front + 1) (length front + 1 + length it) >>= λ tag.
        and_tag tag (parse_loop fuel bs (length front + (length it + 1)))

    within : ltb (length bs) (length front + 1 + length it) ≡ false
    within =
        (ltb-false_iff (length bs) (length front + 1 + length it)).1
          (omega (arith, length-append front (length it ∷ (it ++ rest)), length-append it rest))

    exact : slice bs (length front + 1) (length front + 1 + length it) ≡ done it
    exact =
        ap (λ x. slice x (length front + 1) (length front + 1 + length it))
          (sym (append_assoc front (length it ∷ []) (it ++ rest)))
        ∙ slice-append (front ++ (length it ∷ [])) it rest (length front + 1)
            (length front + 1 + length it) (omega (arith, length-append front (length it ∷ [])))
            (omega (arith, length-append front (length it ∷ [])))

parse_loop_end :
    (fuel : ℕ) (bs : Bytes) (cursor : ℕ)
    → length bs ≤ cursor
    → parse_loop (suc fuel) bs cursor ≡ done ([], true)
unfolding parse_loop
parse_loop_end fuel bs cursor h = rw (le→leb (length bs) cursor h) refl

parse_loop_tag :
    (fuel : ℕ) (bs : Bytes) (cursor tag_len : ℕ)
    → cursor < length bs
    → index bs cursor ≡ done tag_len
    → parse_loop (suc fuel) bs cursor ≡ tag_at fuel bs cursor tag_len
unfolding parse_loop
parse_loop_tag fuel bs cursor tag_len h e = rw (before (length bs) cursor h, e) refl
  where
    before : (a b : ℕ) → b < a → leb a b ≡ false
    before a b lt = ground arith

parse_loop-layout :
    (tags : List Bytes) (fuel : ℕ) (front : Bytes)
    → length (all_tag_bytes tags) < fuel
    → parse_loop fuel (front ++ all_tag_bytes tags) (length front) ≡ done (tags, true)
unfolding all_tag_bytes tag_bytes
parse_loop-layout tags zero front enough = absurd (omega arith)
parse_loop-layout [] (suc fuel) front enough =
    parse_loop_end fuel (front ++ []) (length front) (omega (arith, length-append front []))
parse_loop-layout (it ∷ rest) (suc fuel) front enough =
    parse_loop_tag fuel bs (length front) (length it)
      (omega (arith, length-append front (length it ∷ (it ++ all_tag_bytes rest))))
      (index-append front (it ++ all_tag_bytes rest) (length it))
    ∙ tag_at-layout fuel front it (all_tag_bytes rest)
    ∙ ap (λ n. and_tag it (parse_loop fuel bs n))
        (omega (arith, length-append front (length it ∷ it)))
    ∙ ap (λ x. and_tag it (parse_loop fuel x (length (front ++ (length it ∷ it)))))
        (sym (append_assoc front (length it ∷ it) (all_tag_bytes rest)))
    ∙ ap (and_tag it) (
        parse_loop-layout rest fuel (front ++ (length it ∷ it))
          (omega (arith, enough, length-append it (all_tag_bytes rest))))
  where
    bs : Bytes
    bs = front ++ (length it ∷ (it ++ all_tag_bytes rest))

abbrev Ends : Outcome (List Bytes × Bool) → Type 0
Ends o = (tags : List Bytes) × (ok : Bool) × (o ≡ done (tags, ok))

and_tag-Ends : (tag : Bytes) (o : Outcome (List Bytes × Bool)) → Ends o → Ends (and_tag tag o)
and_tag-Ends tag o (tags, ok, e) = (tag ∷ tags, ok, ap (and_tag tag) e)

tag_at-Ends :
    (fuel : ℕ) (bs : Bytes) (cursor tag_len : ℕ)
    → ((c : ℕ) → cursor < c → c ≤ length bs → Ends (parse_loop fuel bs c))
    → Ends (tag_at fuel bs cursor tag_len)
tag_at-Ends fuel bs cursor tag_len next =
    elim (Bool-cases (ltb (length bs) (cursor + 1 + tag_len))) [
      | inl bad ↦ ([], false, ap (λ b. if b then done ([], false) else sliced) bad)
      | inr good ↦
          let within = (ltb-false_iff (length bs) (cursor + 1 + tag_len)).0 good in
          let (tag, e) = slice_within bs (cursor + 1) (cursor + 1 + tag_len) (omega arith) within in
          let (tags, ok, ends) =
            and_tag-Ends tag (parse_loop fuel bs (cursor + (tag_len + 1)))
              (next (cursor + (tag_len + 1)) (omega arith) (omega arith)) in
          (
            tags,
            ok,
            ap (λ b. if b then done ([], false) else sliced) good
                ∙ ap (λ o. o >>= λ t. and_tag t (parse_loop fuel bs (cursor + (tag_len + 1)))) e
                ∙ ends,
          )
    ]
  where
    sliced : Outcome (List Bytes × Bool)
    sliced = slice bs (cursor + 1) (cursor + 1 + tag_len) >>= λ tag.
        and_tag tag (parse_loop fuel bs (cursor + (tag_len + 1)))

parse_loop-Ends :
    (fuel : ℕ) (bs : Bytes) (cursor : ℕ)
    → cursor ≤ length bs
    → length bs < fuel + cursor
    → Ends (parse_loop fuel bs cursor)
parse_loop-Ends zero bs cursor h enough = absurd (omega arith)
parse_loop-Ends (suc fuel) bs cursor h enough = elim (dec_le (length bs) cursor) [
  | yes past ↦ ([], true, parse_loop_end fuel bs cursor past)
  | no inside ↦
      let (tag_len, e) = index_within bs cursor (omega arith) in
      let (tags, ok, ends) =
        tag_at-Ends fuel bs cursor tag_len
          (λ c lt le. parse_loop-Ends fuel bs c le (omega arith)) in
      (tags, ok, parse_loop_tag fuel bs cursor tag_len (omega arith) e ∙ ends)
]

-- On any bytes the parser of routing tags ends and does not panic.
pub parse_routing_tags_total :
    (bs : Bytes) → (tags : List Bytes) × (ok : Bool) × (parse_routing_tags bs ≡ done (tags, ok))
unfolding parse_routing_tags
parse_routing_tags_total bs = parse_loop-Ends (length bs + 1) bs 0 (omega arith) (omega arith)

-- Tags of at most 255 bytes each are encoded without an error, and parsing the result gives the
-- tags, in order and without an error.
pub routing_round_trip :
    (tag : Bytes) (tags : List Bytes)
    → IsTag tag
    → All IsTag tags
    → (raw : Bytes) × (encode_routing tag tags ≡ some raw)
      × (parse_routing_tags raw ≡ done (tag ∷ tags, true))
unfolding parse_routing_tags
routing_round_trip tag tags h hs = (
  all_tag_bytes (tag ∷ tags),
  encode_routing-layout tag tags h hs,
  parse_loop-layout (tag ∷ tags) (length (all_tag_bytes (tag ∷ tags)) + 1) [] (omega arith),
)
