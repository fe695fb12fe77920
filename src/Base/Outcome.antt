-- ===== src/Base/Outcome.antt =====
-- What a Go call comes to: it returns, or it panics.
use Prim.Native.Nat.{ℕ, zero, suc, ◌+◌, ◌-◌, ◌≤◌, ◌<◌}
use mathlib.Core.Path.{◌≡◌, refl, ap}
use mathlib.Core.List.{List, [], ◌∷◌, ◌++◌}
use native.Mathlib.Omega.{arith}
use rsocket_go.Base.Tests.{leb, le→leb, if◌then◌else◌}
use rsocket_go.Base.Lists.{length, take, drop, length-append, drop-append, take-append}

-- `panic` is a run-time panic: an index or a slice outside its bytes, or a call of `panic`.
pub data Outcome {ℓ} (A : Type ℓ) : Type ℓ where
  done : A → Outcome A
  panic : Outcome A

infixl 5 ◌>>=◌
abbrev pub ◌>>=◌ {ℓ κ} : {A : Type ℓ} {B : Type κ} → Outcome A → (A → Outcome B) → Outcome B
done a >>= f = f a
panic >>= f = panic

pub >>=-eq-done {ℓ κ} :
    {A : Type ℓ} {B : Type κ} (m : Outcome A) (f : A → Outcome B) {b : B}
    → (m >>= f) ≡ done b
    → (a : A) × (m ≡ done a) × (f a ≡ done b)
>>=-eq-done (done a) f h = (a, refl, h)
>>=-eq-done panic f h = cc

module _ {ℓ} {A : Type ℓ} where
  -- bs[i]
  abbrev pub index : List A → ℕ → Outcome A
  index [] i = panic
  index (x ∷ xs) zero = done x
  index (x ∷ xs) (suc i) = index xs i

  -- bs[lo:]
  pub slice_from : List A → ℕ → Outcome (List A)
  slice_from xs lo = if leb lo (length xs) then done (drop lo xs) else panic

  -- bs[lo:hi], within the bytes that `bs` shows.
  pub slice : List A → ℕ → ℕ → Outcome (List A)
  slice xs lo hi =
      if leb lo hi
      then if leb hi (length xs) then done (take (hi - lo) (drop lo xs)) else panic
      else panic

  pub index-append : (xs ys : List A) (y : A) → index (xs ++ (y ∷ ys)) (length xs) ≡ done y
  index-append [] ys y = refl
  index-append (x ∷ xs) ys y = index-append xs ys y

  pub slice_from-append :
      (xs ys : List A) (lo : ℕ) → lo ≡ length xs → slice_from (xs ++ ys) lo ≡ done ys
  unfolding slice_from
  slice_from-append xs ys lo e =
      rw (e, le→leb (length xs) (length (xs ++ ys)) (omega (arith, length-append xs ys)))
        (ap done (drop-append xs ys))

  pub slice-append :
      (xs ys zs : List A) (lo hi : ℕ)
      → lo ≡ length xs
      → hi ≡ length xs + length ys
      → slice (xs ++ (ys ++ zs)) lo hi ≡ done ys
  unfolding slice
  slice-append xs ys zs lo hi e f =
      rw (e, f)
        (rw (
          le→leb (length xs) (length xs + length ys) (omega arith),
          le→leb (length xs + length ys) (length (xs ++ (ys ++ zs)))
              (omega (arith, length-append xs (ys ++ zs), length-append ys zs)),
          drop-append xs (ys ++ zs),
          width,
          take-append ys zs,
        ))
    where
      width : length xs + length ys - length xs ≡ length ys
      width = omega arith

  -- A slice whose bounds are in the wrong order.
  pub slice_reversed : (xs : List A) (lo hi : ℕ) → hi < lo → slice xs lo hi ≡ panic
  unfolding slice
  slice_reversed xs lo hi h = ground arith

  pub slice_from_past : (xs : List A) (lo : ℕ) → length xs < lo → slice_from xs lo ≡ panic
  unfolding slice_from
  slice_from_past xs lo h = ground arith

  pub index_past : (xs : List A) (i : ℕ) → length xs ≤ i → index xs i ≡ panic
  index_past [] i h = refl
  index_past (x ∷ xs) zero h = absurd (omega arith)
  index_past (x ∷ xs) (suc i) h = index_past xs i (omega arith)

  pub index_within : (xs : List A) (i : ℕ) → i < length xs → (x : A) × (index xs i ≡ done x)
  index_within [] i h = absurd (omega arith)
  index_within (x ∷ xs) zero h = (x, refl)
  index_within (x ∷ xs) (suc i) h = index_within xs i (omega arith)

  pub slice_within :
      (xs : List A) (lo hi : ℕ)
      → lo ≤ hi
      → hi ≤ length xs
      → (ys : List A) × (slice xs lo hi ≡ done ys)
  unfolding slice
  slice_within xs lo hi h k =
      (take (hi - lo) (drop lo xs), rw (le→leb lo hi h, le→leb hi (length xs) k) refl)
