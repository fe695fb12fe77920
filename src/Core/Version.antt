-- ===== src/Core/Version.antt =====
-- core/version.go: the protocol version, a pair of uint16.
use rsocket_go.Base.{ℕ, ◌+◌, ◌*◌, ◌<◌, ◌≡◌, arith, ◌⊎◌, ◌^◌}
use rsocket_go.Base.{Bool, true, false, ◌&&◌, ◌==◌, ltb, if◌then◌else◌, ◌++◌}
use rsocket_go.BigEndian.{Bytes, put_uint16}

pub record Version : Type 0 where
  pub major : ℕ
  pub minor : ℕ

abbrev pub default_version : Version
default_version = record { major = 1; minor = 0 }

unfoldable pub bytes : Version → Bytes
bytes p = put_uint16 p.major ++ put_uint16 p.minor

unfoldable pub equals : Version → Version → Bool
equals p v = p.major == v.major && p.minor == v.minor

unfoldable pub greater_than : Version → Version → Bool
greater_than p v = if p.major == v.major then ltb v.minor p.minor else ltb v.major p.major

unfoldable pub less_than : Version → Version → Bool
less_than p v = if p.major == v.major then ltb p.minor v.minor else ltb p.major v.major

-- Of any two versions exactly one of LessThan, Equals and GreaterThan holds.
pub trichotomy :
    (p v : Version)
    → ((less_than p v ≡ true) × (equals p v ≡ false) × (greater_than p v ≡ false))
      ⊎ (((less_than p v ≡ false) × (equals p v ≡ true) × (greater_than p v ≡ false))
          ⊎ ((less_than p v ≡ false) × (equals p v ≡ false) × (greater_than p v ≡ true)))
unfolding equals greater_than less_than
trichotomy p v = ground arith

-- A version as the four bytes of it read as one number.
abbrev pub weight : Version → ℕ
weight p = p.major * 2 ^ 16 + p.minor

-- For minor numbers of 16 bits, LessThan is the order of the versions as numbers of 32 bits.
pub less_than-weight :
    (p v : Version)
    → p.minor < 2 ^ 16
    → v.minor < 2 ^ 16
    → less_than p v ≡ ltb (weight p) (weight v)
unfolding less_than
less_than-weight p v h k = ground arith
