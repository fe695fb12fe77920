-- ===== src/Extension/Authentication.antt =====
-- extension/authentication.go. A string is its bytes.
use mathlib.Core.Path.{subst}
use rsocket_go.Base.{
  ℕ, zero, suc, ◌+◌, ◌-◌, ◌%◌, ◌≤◌, ◌<◌, ◌≡◌, refl, ap, arith, ◌∙◌, sym, bit_and, bit_or,
}
use rsocket_go.Base.{Bool, true, false, [], ◌∷◌, ◌++◌, length, length-append, not}
use rsocket_go.Base.{
  Option, none, some, ltb, if◌then◌else◌, ◌==◌, ==_iff, ltb-false_iff, all_below, all_below→holds,
}
use rsocket_go.Base.{bytes_eq, bytes_eq→eq, Bool-cases, inl, inr}
use rsocket_go.Base.Outcome.{
  Outcome, done, ◌>>=◌, index, slice, slice_from, slice-append, slice_from-append,
}
use rsocket_go.BigEndian.{Bytes}

-- "simple", "bearer" and "unknown"
abbrev pub simple_auth : Bytes
simple_auth = 115 ∷ 105 ∷ 109 ∷ 112 ∷ 108 ∷ 101 ∷ []

abbrev pub bearer_auth : Bytes
bearer_auth = 98 ∷ 101 ∷ 97 ∷ 114 ∷ 101 ∷ 114 ∷ []

abbrev pub not_well_known : Bytes
not_well_known = 117 ∷ 110 ∷ 107 ∷ 110 ∷ 111 ∷ 119 ∷ 110 ∷ []

unfoldable pub well_known_string : ℕ → Bytes
well_known_string w = if w == 0 then simple_auth else if w == 1 then bearer_auth else not_well_known

pub record Authentication : Type 0 where
  pub type : Bytes
  pub payload : Bytes

-- None where the length is exceeded.
unfoldable pub new_authentication : Bytes → Bytes → Option Authentication
new_authentication auth_type payload =
    if ltb 0x7F (length auth_type)
    then none
    else some (record { type = auth_type; payload = payload })

unfoldable pub parse_well_known_authenticate_type : Bytes → Option ℕ
parse_well_known_authenticate_type type =
    if bytes_eq type simple_auth then some 0 else if bytes_eq type bearer_auth then some 1 else none

unfoldable pub type_bytes : Option ℕ → Bytes → Bytes
type_bytes none type = length type % 256 ∷ type
type_bytes (some w) type = bit_or w 0x80 ∷ []

unfoldable pub raw_bytes : Authentication → Bytes
raw_bytes a = type_bytes (parse_well_known_authenticate_type a.type) a.type ++ a.payload

-- None is errInvalidAuthBytes.
unfoldable pub parse_authentication : Bytes → Outcome (Option Authentication)
parse_authentication raw =
    let totals = length raw in
    if ltb totals 2
    then done none
    else (index raw 0 >>= λ first.
        let n = bit_and 0x7F first in
        if not (bit_and first 0x80 == 0)
        then (slice_from raw 1 >>= λ p.
            done (some (record { type = well_known_string n; payload = p })))
        else if n == 0
        then done none
        else if ltb (totals - 1) n
        then done none
        else (slice raw 1 (1 + n) >>= λ type.
            slice_from raw (n + 1) >>= λ p. done (some (record { type = type; payload = p }))))

-- The bits of the first byte of a custom type.
length_byte : (n : ℕ) → n < 128 → (bit_and 0x7F n ≡ n) × (not (bit_and n 0x80 == 0) ≡ false)
unfolding all_below
length_byte n h = (
  (==_iff (bit_and 0x7F n) n).0 (all_below→holds 128 (λ n. bit_and 0x7F n == n) n refl h),
  is_false _ (all_below→holds 128 (λ n. bit_and n 0x80 == 0) n refl h),
)
  where
    is_false : (b : Bool) → b ≡ true → not b ≡ false
    is_false true e = refl
    is_false false e = cc

custom_parsed :
    (type payload : Bytes)
    → 0 < length type
    → length type ≤ 127
    → parse_authentication ((length type % 256 ∷ type) ++ payload)
      ≡ done (some (record { type = type; payload = payload }))
unfolding parse_authentication
custom_parsed type payload some_byte short =
    let (same, unset) = length_byte (length type) (omega arith) in
    ap (λ n. parse_authentication (n ∷ (type ++ payload))) small
    ∙ rw
        (
          (ltb-false_iff totals 2).1 (omega (arith, size)),
          same,
          unset,
          nonzero,
          (ltb-false_iff (totals - 1) (length type)).1 (omega (arith, size)),
        )
        (ap
            (λ o. o >>= λ type'. slice_from raw (length type + 1) >>= λ p.
              done (some (record { type = type'; payload = p })))
            (slice-append (length type ∷ []) type payload 1 (1 + length type) refl refl)
          ∙ ap (λ o. o >>= λ p. done (some (record { type = type; payload = p })))
              (slice_from-append (length type ∷ type) payload (length type + 1) (omega arith)))
  where
    raw : Bytes
    raw = length type ∷ (type ++ payload)

    totals : ℕ
    totals = length raw

    size : totals ≡ 1 + (length type + length payload)
    size = omega (arith, length-append type payload)

    small : length type % 256 ≡ length type
    small = omega arith

    nonzero : length type == 0 ≡ false
    nonzero = elim (Bool-cases (length type == 0)) [
      | inl e ↦ absurd (omega (arith, (==_iff (length type) 0).0 e))
      | inr e ↦ e
    ]

known_parsed :
    (w : ℕ) (payload : Bytes)
    → w < 2
    → 0 < length payload
    → parse_authentication ((bit_or w 0x80 ∷ []) ++ payload)
      ≡ done (some (record { type = well_known_string w; payload = payload }))
unfolding parse_authentication
known_parsed w payload h some_byte =
    rw
      (
        (ltb-false_iff (length (bit_or w 0x80 ∷ payload)) 2).1 (omega arith),
        (tag w h).0,
        (tag w h).1,
      )
      (ap (λ o. o >>= λ p. done (some (record { type = well_known_string w; payload = p })))
        (slice_from-append (bit_or w 0x80 ∷ []) payload 1 refl))
  where
    tag :
        (w : ℕ)
        → w < 2
        → (not (bit_and (bit_or w 0x80) 0x80 == 0) ≡ true) × (bit_and 0x7F (bit_or w 0x80) ≡ w)
    tag zero h = (refl, refl)
    tag (suc zero) h = (refl, refl)
    tag (suc (suc k)) h = absurd (omega arith)

-- The type that is written, by what it is.
written :
    (type payload : Bytes)
    → 0 < length type
    → length type ≤ 127
    → 0 < length payload
    → parse_authentication (type_bytes (parse_well_known_authenticate_type type) type ++ payload)
      ≡ done (some (record { type = type; payload = payload }))
unfolding parse_well_known_authenticate_type type_bytes well_known_string
written type payload some_byte short some_payload = elim (Bool-cases (bytes_eq type simple_auth)) [
  | inl e ↦
      rw e (known_parsed 0 payload (omega arith) some_payload)
      ∙ ap (λ t. done (some (record { type = t; payload = payload })))
          (sym (bytes_eq→eq type simple_auth e))
  | inr e ↦ elim (Bool-cases (bytes_eq type bearer_auth)) [
    | inl f ↦
        rw (e, f) (known_parsed 1 payload (omega arith) some_payload)
        ∙ ap (λ t. done (some (record { type = t; payload = payload })))
            (sym (bytes_eq→eq type bearer_auth f))
    | inr f ↦ rw (e, f) (custom_parsed type payload some_byte short)
  ]
]

-- An authentication that NewAuthentication makes of a type and a payload that are not empty has
-- that type and that payload, and parsing its bytes gives it back without an error.
pub authentication_round_trip :
    (type payload : Bytes) (a : Authentication)
    → new_authentication type payload ≡ some a
    → 0 < length type
    → 0 < length payload
    → (a ≡ record { type = type; payload = payload })
      × (parse_authentication (raw_bytes a) ≡ done (some a))
unfolding new_authentication raw_bytes
authentication_round_trip type payload a made some_byte some_payload =
    elim (Bool-cases (ltb 0x7F (length type))) [
      | inl e ↦ absurd (none_some (sym (ap (λ b. if b then none else some made_of) e) ∙ made))
      | inr e ↦
          let same : made_of ≡ a =
            some_eq (sym (ap (λ b. if b then none else some made_of) e) ∙ made) in
          (
            sym same,
            subst (λ x. parse_authentication (raw_bytes x) ≡ done (some x)) same
                (written type payload some_byte ((ltb-false_iff 0x7F (length type)).0 e)
                  some_payload),
          )
    ]
  where
    made_of : Authentication
    made_of = record { type = type; payload = payload }

    none_some : ◌≡◌ {A = Option Authentication} none (some a) → ⊥
    none_some e = cc

    some_eq : {x y : Authentication} → some x ≡ some y → x ≡ y
    some_eq e = cc
