-- ===== src/Core/Types.antt =====
-- core/types.go: the test of a flag, and what setting one does to the ten flag bits of a header.
use rsocket_go.Base.{ℕ, ◌%◌, ◌^◌, ◌<◌, ◌≡◌, refl, arith, bit_and, bit_or}
use rsocket_go.Base.{Bool, true, false, ◌==◌, ==_iff, all_below, all_below→holds}
use rsocket_go.Core.Flag

-- f.Check(flag)
unfoldable pub check : ℕ → ℕ → Bool
check f flag = bit_and flag f == flag

-- The flags that fit the ten bits of a header.
abbrev pub IsFlag : ℕ → Type 0
IsFlag f = f < 2 ^ 10

-- A fact about all flags of a header is a table of 1024 entries.
pub flag_table :
    (f g : ℕ → ℕ) → all_below 1024 (λ x. f x == g x) ≡ true → (x : ℕ) → IsFlag x → f x ≡ g x
flag_table f g table x h = (==_iff (f x) (g x)).0 (all_below→holds 1024 (λ x. f x == g x) x table h)

bool_table : (p : ℕ → Bool) → all_below 1024 p ≡ true → (x : ℕ) → IsFlag x → p x ≡ true
bool_table p table x h = all_below→holds 1024 p x table h

same : Bool → Bool → Bool
same true b = b
same false true = false
same false false = true

same→eq : (a b : Bool) → same a b ≡ true → a ≡ b
unfolding same
same→eq a b h = ground arith

module _ (p q : ℕ → Bool) where
  test_table : all_below 1024 (λ x. same (p x) (q x)) ≡ true → (x : ℕ) → IsFlag x → p x ≡ q x
  test_table table x h = same→eq (p x) (q x) (bool_table (λ x. same (p x) (q x)) table x h)

-- Setting a flag makes it present, keeps a header's flags a header's flags, and leaves
-- each other flag as it was.
pub check-set_metadata : (f : ℕ) → IsFlag f → check (bit_or f Flag.metadata) Flag.metadata ≡ true
unfolding check all_below
check-set_metadata f h = bool_table (λ f. check (bit_or f Flag.metadata) Flag.metadata) refl f h

pub set_metadata-IsFlag : (f : ℕ) → IsFlag f → IsFlag (bit_or f Flag.metadata)
unfolding all_below
set_metadata-IsFlag f h =
    rw (flag_table (λ x. bit_or x Flag.metadata) (λ x. bit_or x Flag.metadata % 1024) refl f h)
      (omega arith)

pub check-follow-set_metadata :
    (f : ℕ) → IsFlag f → check (bit_or f Flag.metadata) Flag.follow ≡ check f Flag.follow
unfolding check all_below same
check-follow-set_metadata f h =
    test_table (λ f. check (bit_or f Flag.metadata) Flag.follow) (λ f. check f Flag.follow) refl f h

pub check-next-set_metadata :
    (f : ℕ) → IsFlag f → check (bit_or f Flag.metadata) Flag.next ≡ check f Flag.next
unfolding check all_below same
check-next-set_metadata f h =
    test_table (λ f. check (bit_or f Flag.metadata) Flag.next) (λ f. check f Flag.next) refl f h

pub check-complete-set_metadata :
    (f : ℕ) → IsFlag f → check (bit_or f Flag.metadata) Flag.complete ≡ check f Flag.complete
unfolding check all_below same
check-complete-set_metadata f h =
    test_table (λ f. check (bit_or f Flag.metadata) Flag.complete) (λ f. check f Flag.complete) refl
      f h
