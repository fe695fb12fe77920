-- ===== src/Base/Bits.antt =====
-- `&` and `|` on words: the law for the lowest digit, and what follows for masks and shifted fields.
use Prim.Native.Nat.{ℕ, zero, suc, ◌+◌, ◌*◌, ◌/◌, ◌%◌, ◌^◌, ◌≤◌, ◌<◌, min, max, bit_and, bit_or}
use Prim.Native.Nat.{digits, bit_and-bitwise, bit_or-bitwise}
use mathlib.Core.Path.{◌≡◌, refl, ap, sym}
use native.Mathlib.Nat.{pow-suc, mul-one, div-add-mod, div-div-eq-div-mul}
use native.Mathlib.Omega.{arith}

-- More fuel than the first number needs changes nothing.
fuel_irrelevant :
    (z : ℕ → ℕ) (f : ℕ → ℕ → ℕ) (m a b n : ℕ) → a ≤ m → a ≤ n → digits z f m a b ≡ digits z f n a b
fuel_irrelevant z f zero zero b zero h k = refl
fuel_irrelevant z f zero zero b (suc n) h k = refl
fuel_irrelevant z f (suc m) zero b zero h k = refl
fuel_irrelevant z f (suc m) zero b (suc n) h k = refl
fuel_irrelevant z f zero (suc a) b n h k = absurd (omega arith)
fuel_irrelevant z f (suc m) (suc a) b zero h k = absurd (omega arith)
fuel_irrelevant z f (suc m) (suc a) b (suc n) h k =
    ap (λ (d : ℕ). d * 2 + f (suc a % 2) (b % 2))
      (fuel_irrelevant z f m (suc a / 2) (b / 2) n (omega arith) (omega arith))

pub bit_and_digit : (a b : ℕ) → bit_and a b ≡ bit_and (a / 2) (b / 2) * 2 + min (a % 2) (b % 2)
bit_and_digit zero b = omega (arith, bit_and-bitwise 0 b, bit_and-bitwise 0 (b / 2))
bit_and_digit (suc a) b = omega (
  arith,
  bit_and-bitwise (suc a) b,
  bit_and-bitwise (suc a / 2) (b / 2),
  fuel_irrelevant (λ y. 0) min a (suc a / 2) (b / 2) (suc a / 2) (omega arith) (omega arith),
)

pub bit_or_digit : (a b : ℕ) → bit_or a b ≡ bit_or (a / 2) (b / 2) * 2 + max (a % 2) (b % 2)
bit_or_digit zero b = omega (arith, bit_or-bitwise 0 b, bit_or-bitwise 0 (b / 2))
bit_or_digit (suc a) b = omega (
  arith,
  bit_or-bitwise (suc a) b,
  bit_or-bitwise (suc a / 2) (b / 2),
  fuel_irrelevant (λ y. y) max a (suc a / 2) (b / 2) (suc a / 2) (omega arith) (omega arith),
)

bit_or-nothing : (bound a : ℕ) → a ≤ bound → bit_or a 0 ≡ a
bit_or-nothing bound zero h = refl
bit_or-nothing zero (suc a) h = absurd (omega arith)
bit_or-nothing (suc bound) (suc a) h =
    omega (arith, bit_or_digit (suc a) 0, bit_or-nothing bound (suc a / 2) (omega arith))

bit_and-nothing : (bound a : ℕ) → a ≤ bound → bit_and a 0 ≡ 0
bit_and-nothing bound zero h = refl
bit_and-nothing zero (suc a) h = absurd (omega arith)
bit_and-nothing (suc bound) (suc a) h =
    omega (arith, bit_and_digit (suc a) 0, bit_and-nothing bound (suc a / 2) (omega arith))

-- The number with `k` binary ones.
abbrev pub ones : ℕ → ℕ
ones zero = 0
ones (suc k) = ones k * 2 + 1

-- Halving, under division and remainder by an even number.
half_div : (p a : ℕ) → a / (2 * p) ≡ a / 2 / p
half_div p a = sym (div-div-eq-div-mul a 2 p)

half_mod : (p a : ℕ) → a % (2 * p) ≡ a / 2 % p * 2 + a % 2
half_mod p a =
    omega
      (arith, div-add-mod a (2 * p), div-add-mod (a / 2) p, ap (λ (t : ℕ). p * t) (half_div p a))

twice_pow : (k : ℕ) → 2 ^ suc k ≡ 2 * 2 ^ k
twice_pow k = omega (arith, pow-suc 2 k)

-- A mask of `k` ones keeps the remainder.
pub bit_and-ones : (k a : ℕ) → bit_and a (ones k) ≡ a % 2 ^ k
bit_and-ones zero a = omega (arith, bit_and-nothing a a (omega arith))
bit_and-ones (suc k) a =
    rw (twice_pow k, half_mod (2 ^ k) a, bit_and_digit a (ones k * 2 + 1), halved)
      (omega (arith, bit_and-ones k (a / 2)))
  where
    halved : (ones k * 2 + 1) / 2 ≡ ones k
    halved = omega arith

shifted_digit : (q p : ℕ) → q * (2 * p) / 2 ≡ q * p
shifted_digit q p = omega arith

-- A mask shifted by `k` reads the number from digit `k` on.
pub bit_and_shifted : (k a m : ℕ) → bit_and a (m * 2 ^ k) ≡ bit_and (a / 2 ^ k) m * 2 ^ k
bit_and_shifted zero a m = ground (arith, ◌*◌)
bit_and_shifted (suc k) a m =
    rw (twice_pow k, half_div (2 ^ k) a)
      (omega (
        arith,
        bit_and_digit a (m * (2 * 2 ^ k)),
        ap (bit_and (a / 2)) (shifted_digit m (2 ^ k)),
        bit_and_shifted k (a / 2) m,
      ))

-- A field that fits `k` digits joins a number shifted by `k`.
pub bit_or_shifted : (k q r : ℕ) → r < 2 ^ k → bit_or (q * 2 ^ k) r ≡ q * 2 ^ k + r
bit_or_shifted zero q zero h = rw mul-one (omega (arith, bit_or-nothing q q (omega arith)))
bit_or_shifted zero q (suc r) h = absurd (omega arith)
bit_or_shifted (suc k) q r h = rw (twice_pow k) (
    omega (
      arith,
      bit_or_digit (q * (2 * 2 ^ k)) r,
      ap (λ (t : ℕ). bit_or t (r / 2)) (shifted_digit q (2 ^ k)),
      bit_or_shifted k q (r / 2) (omega (arith, twice_pow k)),
    ))

bit_and_comm_below : (bound a b : ℕ) → a ≤ bound → b ≤ bound → bit_and a b ≡ bit_and b a
bit_and_comm_below bound zero b h k =
    omega (arith, bit_and-bitwise 0 b, bit_and-nothing b b (omega arith))
bit_and_comm_below zero (suc a) b h k = absurd (omega arith)
bit_and_comm_below (suc bound) (suc a) b h k = omega (
  arith,
  bit_and_digit (suc a) b,
  bit_and_digit b (suc a),
  bit_and_comm_below bound (suc a / 2) (b / 2) (omega arith) (omega arith),
)

pub bit_and_comm : (a b : ℕ) → bit_and a b ≡ bit_and b a
bit_and_comm a b = bit_and_comm_below (a + b) a b (omega arith) (omega arith)
