-- ===== src/Common/Bits.antt =====
-- Laws of the bit operations of the native numbers at variables, from their recursion on digits,
-- and the bit at a position.
use Prim.Native.Nat.{ℕ, zero, suc, ◌+◌, ◌*◌, ◌/◌, ◌%◌, ◌^◌, ◌≤◌, ◌<◌, min, max, bit_and, bit_or}
use Prim.Native.Nat.{digits, bit_and-bitwise, bit_or-bitwise}
use mathlib.Core.Path.{◌≡◌, refl, ◌∙◌, ap}
use mathlib.Core.Logic.{inl, inr, ◌≢◌}
use native.Mathlib.Omega.{arith}
use native.Mathlib.Nat.{pow-succ', div-div-eq-div-mul}
use tak_rs.Common.Tests.{◌==◌, if◌then◌else◌, Bool-cases}

-- The recursion on digits does not depend on its fuel, once there is enough.
module _ (pad : ℕ → ℕ) (op : ℕ → ℕ → ℕ) where
  digits_fuel : (n m a b : ℕ) → a ≤ n → a ≤ m → digits pad op n a b ≡ digits pad op m a b
  digits_fuel (suc n) (suc m) (suc a) b p q =
      omega (arith, digits_fuel n m (suc a / 2) (b / 2) (omega arith) (omega arith))
  digits_fuel (suc n) (suc m) zero b p q = refl
  digits_fuel (suc n) zero (suc a) b p q = absurd (omega arith)
  digits_fuel (suc n) zero zero b p q = refl
  digits_fuel zero (suc m) (suc a) b p q = absurd (omega arith)
  digits_fuel zero (suc m) zero b p q = refl
  digits_fuel zero zero a b p q = refl

bit_and-zero_left : (b : ℕ) → bit_and 0 b ≡ 0
bit_and-zero_left b = bit_and-bitwise 0 b

bit_or-zero_left : (b : ℕ) → bit_or 0 b ≡ b
bit_or-zero_left b = bit_or-bitwise 0 b

pub bit_and-digit : (a b : ℕ) → bit_and a b ≡ bit_and (a / 2) (b / 2) * 2 + min (a % 2) (b % 2)
bit_and-digit zero b = omega (arith, bit_and-zero_left b, bit_and-zero_left (b / 2))
bit_and-digit (suc a) b = omega (
  arith,
  bit_and-bitwise (suc a) b,
  bit_and-bitwise (suc a / 2) (b / 2),
  digits_fuel (λ _. zero) min a (suc a / 2) (suc a / 2) (b / 2) (omega arith) (omega arith),
)

pub bit_or-digit : (a b : ℕ) → bit_or a b ≡ bit_or (a / 2) (b / 2) * 2 + max (a % 2) (b % 2)
bit_or-digit zero b = omega (arith, bit_or-zero_left b, bit_or-zero_left (b / 2))
bit_or-digit (suc a) b = omega (
  arith,
  bit_or-bitwise (suc a) b,
  bit_or-bitwise (suc a / 2) (b / 2),
  digits_fuel (λ d. d) max a (suc a / 2) (suc a / 2) (b / 2) (omega arith) (omega arith),
)

-- The bit of `a` at position `n`.
abbrev pub bit : ℕ → ℕ → ℕ
bit a n = a / 2 ^ n % 2

pub bit-zero : (a : ℕ) → bit a 0 ≡ a % 2
bit-zero a = omega arith

pub bit-suc : (a n : ℕ) → bit a (suc n) ≡ bit (a / 2) n
bit-suc a n = rw (pow-succ' 2 n, ← div-div-eq-div-mul a 2 (2 ^ n)) refl

pub bit-bit_and : (a b n : ℕ) → bit (bit_and a b) n ≡ min (bit a n) (bit b n)
bit-bit_and a b zero = omega (arith, bit_and-digit a b)
bit-bit_and a b (suc n) = omega (
  arith,
  bit-suc (bit_and a b) n,
  bit-suc a n,
  bit-suc b n,
  bit-bit_and (a / 2) (b / 2) n,
  ap (λ (t : ℕ). bit t n) (half_and a b),
)
  where
    half_and : (x y : ℕ) → bit_and x y / 2 ≡ bit_and (x / 2) (y / 2)
    half_and x y = omega (arith, bit_and-digit x y)

pub bit-bit_or : (a b n : ℕ) → bit (bit_or a b) n ≡ max (bit a n) (bit b n)
bit-bit_or a b zero = omega (arith, bit_or-digit a b)
bit-bit_or a b (suc n) = omega (
  arith,
  bit-suc (bit_or a b) n,
  bit-suc a n,
  bit-suc b n,
  bit-bit_or (a / 2) (b / 2) n,
  ap (λ (t : ℕ). bit t n) (half_or a b),
)
  where
    half_or : (x y : ℕ) → bit_or x y / 2 ≡ bit_or (x / 2) (y / 2)
    half_or x y = omega (arith, bit_or-digit x y)

pub zero-bit : (n : ℕ) → bit 0 n ≡ 0
zero-bit zero = refl
zero-bit (suc n) = bit-suc 0 n ∙ zero-bit n

-- A power of two has one bit.
pub bit-pow : (k n : ℕ) → bit (2 ^ k) n ≡ (if k == n then 1 else 0)
bit-pow zero zero = refl
bit-pow zero (suc n) = ground (arith, bit-suc 1 n, zero-bit n)
bit-pow (suc k) zero = ground (arith, pow-succ' 2 k)
bit-pow (suc k) (suc n) = ground (arith, bit-suc (2 ^ suc k) n, half k, bit-pow k n)
  where
    half : (k : ℕ) → 2 ^ suc k / 2 ≡ 2 ^ k
    half k = omega (arith, pow-succ' 2 k)

-- A number that is not 0 has a bit, below its width.
pub some_bit : (w a : ℕ) → a < 2 ^ w → a ≢ 0 → (n : ℕ) × (n < w) × (bit a n ≡ 1)
some_bit zero a h p = absurd (p (omega arith))
some_bit (suc w) a h p = elim (Bool-cases (a % 2 == 1)) [
  | inl odd ↦ (0, omega arith, ground arith)
  | inr even ↦
      let (n, lt, e) = some_bit w (a / 2) (omega (arith, pow-succ' 2 w)) (ground arith) in
      (suc n, omega arith, bit-suc a n ∙ e)
]

-- The disjunction of numbers that share no digit is their sum.
pub bit_or-disjoint : (s a g : ℕ) → a < 2 ^ s → bit_or a (g * 2 ^ s) ≡ a + g * 2 ^ s
bit_or-disjoint zero zero g h = omega (arith, bit_or-zero_left (g * 1))
bit_or-disjoint zero (suc a) g h = absurd (omega arith)
bit_or-disjoint (suc s) a g h = omega (
  arith,
  doubled,
  bit_or-digit a (g * 2 ^ suc s),
  ap (λ (t : ℕ). bit_or (a / 2) t) halved,
  bit_or-disjoint s (a / 2) g (omega (arith, pow-succ' 2 s)),
)
  where
    doubled : g * 2 ^ suc s ≡ 2 * (g * 2 ^ s)
    doubled = omega (arith, ap (λ (t : ℕ). g * t) (pow-succ' 2 s))

    halved : g * 2 ^ suc s / 2 ≡ g * 2 ^ s
    halved = omega (arith, doubled)

bit_and_none : (w a : ℕ) → a ≤ w → bit_and a 0 ≡ 0
bit_and_none w zero h = bit_and-zero_left 0
bit_and_none zero (suc a) h = absurd (omega arith)
bit_and_none (suc w) (suc a) h =
    omega (arith, bit_and-digit (suc a) 0, bit_and_none w (suc a / 2) (omega arith))

-- The low bits of any number, one digit more each time.
mask_one : (a : ℕ) → bit_and a 1 ≡ a % 2
mask_one a = omega (arith, bit_and-digit a 1, bit_and_none (a / 2) (a / 2) (omega arith))

mask_two : (a : ℕ) → bit_and a 3 ≡ a % 4
mask_two a = omega (arith, bit_and-digit a 3, mask_one (a / 2))

mask_three : (a : ℕ) → bit_and a 7 ≡ a % 8
mask_three a = omega (arith, bit_and-digit a 7, mask_two (a / 2))

mask_four : (a : ℕ) → bit_and a 15 ≡ a % 16
mask_four a = omega (arith, bit_and-digit a 15, mask_three (a / 2))

mask_five : (a : ℕ) → bit_and a 31 ≡ a % 32
mask_five a = omega (arith, bit_and-digit a 31, mask_four (a / 2))

mask_six : (a : ℕ) → bit_and a 63 ≡ a % 64
mask_six a = omega (arith, bit_and-digit a 63, mask_five (a / 2))

pub mask_low : (a : ℕ) → bit_and a 0x7f ≡ a % 128
mask_low a = omega (arith, bit_and-digit a 127, mask_six (a / 2))

-- The top bit of a number, one digit more each time.
top_one : (a : ℕ) → a < 2 → bit_and a 1 ≡ a
top_one a h = omega (arith, mask_one a)

top_two : (a : ℕ) → a < 4 → bit_and a 2 ≡ a / 2 * 2
top_two a h = omega (arith, bit_and-digit a 2, top_one (a / 2) (omega arith))

top_three : (a : ℕ) → a < 8 → bit_and a 4 ≡ a / 4 * 4
top_three a h = omega (arith, bit_and-digit a 4, top_two (a / 2) (omega arith))

top_four : (a : ℕ) → a < 16 → bit_and a 8 ≡ a / 8 * 8
top_four a h = omega (arith, bit_and-digit a 8, top_three (a / 2) (omega arith))

top_five : (a : ℕ) → a < 32 → bit_and a 16 ≡ a / 16 * 16
top_five a h = omega (arith, bit_and-digit a 16, top_four (a / 2) (omega arith))

top_six : (a : ℕ) → a < 64 → bit_and a 32 ≡ a / 32 * 32
top_six a h = omega (arith, bit_and-digit a 32, top_five (a / 2) (omega arith))

top_seven : (a : ℕ) → a < 128 → bit_and a 64 ≡ a / 64 * 64
top_seven a h = omega (arith, bit_and-digit a 64, top_six (a / 2) (omega arith))

pub mask_top : (b : ℕ) → b < 256 → bit_and b 0x80 ≡ b / 128 * 128
mask_top b h = omega (arith, bit_and-digit b 128, top_seven (b / 2) (omega arith))

raise_one : (a : ℕ) → a < 1 → bit_or a 1 ≡ a + 1
raise_one zero h = bit_or-zero_left 1
raise_one (suc a) h = absurd (omega arith)

raise_two : (a : ℕ) → a < 2 → bit_or a 2 ≡ a + 2
raise_two a h = omega (arith, bit_or-digit a 2, raise_one (a / 2) (omega arith))

raise_three : (a : ℕ) → a < 4 → bit_or a 4 ≡ a + 4
raise_three a h = omega (arith, bit_or-digit a 4, raise_two (a / 2) (omega arith))

raise_four : (a : ℕ) → a < 8 → bit_or a 8 ≡ a + 8
raise_four a h = omega (arith, bit_or-digit a 8, raise_three (a / 2) (omega arith))

raise_five : (a : ℕ) → a < 16 → bit_or a 16 ≡ a + 16
raise_five a h = omega (arith, bit_or-digit a 16, raise_four (a / 2) (omega arith))

raise_six : (a : ℕ) → a < 32 → bit_or a 32 ≡ a + 32
raise_six a h = omega (arith, bit_or-digit a 32, raise_five (a / 2) (omega arith))

raise_seven : (a : ℕ) → a < 64 → bit_or a 64 ≡ a + 64
raise_seven a h = omega (arith, bit_or-digit a 64, raise_six (a / 2) (omega arith))

pub set_top : (b : ℕ) → b < 128 → bit_or b 0x80 ≡ b + 128
set_top b h = omega (arith, bit_or-digit b 128, raise_seven (b / 2) (omega arith))

-- A disjunction is no wider than its parts.
pub bit_or-lt : (w a b : ℕ) → a < 2 ^ w → b < 2 ^ w → bit_or a b < 2 ^ w
bit_or-lt zero zero b h k = omega (arith, bit_or-zero_left b)
bit_or-lt zero (suc a) b h k = absurd (omega arith)
bit_or-lt (suc w) a b h k = omega (
  arith,
  pow-succ' 2 w,
  bit_or-digit a b,
  bit_or-lt w (a / 2) (b / 2) (omega (arith, pow-succ' 2 w)) (omega (arith, pow-succ' 2 w)),
)

-- A disjunction is at least each of its parts, a conjunction at most.
bit_or-ge_fuel : (w a b : ℕ) → a ≤ w → (a ≤ bit_or a b) × (b ≤ bit_or a b)
bit_or-ge_fuel w zero b h = omega (arith, bit_or-zero_left b)
bit_or-ge_fuel zero (suc a) b h = absurd (omega arith)
bit_or-ge_fuel (suc w) (suc a) b h =
    omega (arith, bit_or-digit (suc a) b, bit_or-ge_fuel w (suc a / 2) (b / 2) (omega arith))

pub bit_or-ge : (a b : ℕ) → (a ≤ bit_or a b) × (b ≤ bit_or a b)
bit_or-ge a b = bit_or-ge_fuel a a b (omega arith)

bit_and-le_fuel : (w a b : ℕ) → a ≤ w → bit_and a b ≤ a
bit_and-le_fuel w zero b h = omega (arith, bit_and-zero_left b)
bit_and-le_fuel zero (suc a) b h = absurd (omega arith)
bit_and-le_fuel (suc w) (suc a) b h =
    omega (arith, bit_and-digit (suc a) b, bit_and-le_fuel w (suc a / 2) (b / 2) (omega arith))

-- Two words have a bit in common exactly when their conjunction is not 0.
pub common_bit :
    (w a b : ℕ) → a < 2 ^ w → bit_and a b ≢ 0 → (n : ℕ) × (n < w) × (bit a n ≡ 1) × (bit b n ≡ 1)
common_bit w a b h p =
    let (n, lt, e) =
      some_bit w (bit_and a b) (omega (arith, bit_and-le_fuel a a b (omega arith))) p in
    (n, lt, omega (arith, bit-bit_and a b n), omega (arith, bit-bit_and a b n))

pub bit_and-ne-zero : (a b n : ℕ) → bit a n ≡ 1 → bit b n ≡ 1 → bit_and a b ≢ 0
bit_and-ne-zero a b n p q e =
    omega (arith, bit-bit_and a b n, zero-bit n, ap (λ (t : ℕ). bit t n) e)
