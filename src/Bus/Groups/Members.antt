-- ===== src/Bus/Groups/Members.antt =====
-- A `GroupBitvector` as a set of groups.
use tak_rs.Common.{
  ℕ, zero, suc, ◌+◌, ◌*◌, ◌/◌, ◌%◌, ◌^◌, Bool, not, ltb, ◌==◌, if◌then◌else◌, bit_and, bit_or, ◌<◌,
  ◌≡◌, false, ◌↔◌, ◌&&◌, ◌||◌, true, arith, inl, inr, Bool-cases, ◌≢◌, refl,
}
use tak_rs.Common.Bits.{bit, bit-bit_or, bit-pow, common_bit, bit_and-ne-zero, bit_or-ge, zero-bit}
use tak_rs.Bus.Groups.{GroupBitvector, empty, intersects, or_word, with_bit}

-- Each word is a `u64`.
pub record IsValid (g : GroupBitvector) : Type 0 where
  pub fits0 : g.w0 < 2 ^ 64
  pub fits1 : g.w1 < 2 ^ 64
  pub fits2 : g.w2 < 2 ^ 64
  pub fits3 : g.w3 < 2 ^ 64

abbrev word : GroupBitvector → ℕ → ℕ
word g zero = g.w0
word g (suc zero) = g.w1
word g (suc (suc zero)) = g.w2
word g (suc (suc (suc i))) = g.w3

-- Whether group `n` is in the set.
unfoldable pub member : GroupBitvector → ℕ → Bool
member g n = ltb n 256 && (bit (word g (n / 64)) (n % 64) == 1)

-- A bit of one of the four words is a group.
member_at :
    (g : GroupBitvector) (q r : ℕ)
    → q < 4
    → r < 64
    → bit (word g q) r ≡ 1
    → member g (q * 64 + r) ≡ true
unfolding member
member_at g q r hq hr e = rw (quotient, remainder) (ground arith)
  where
    quotient : (q * 64 + r) / 64 ≡ q
    quotient = omega arith

    remainder : (q * 64 + r) % 64 ≡ r
    remainder = omega arith

member-bit : (g : GroupBitvector) (n : ℕ) → member g n ≡ true → bit (word g (n / 64)) (n % 64) ≡ 1
unfolding member
member-bit g n e = ground arith

abbrev both : GroupBitvector → GroupBitvector → ℕ → ℕ
both a b q = bit_and (word a q) (word b q)

word-lt : (g : GroupBitvector) (q : ℕ) → IsValid g → word g q < 2 ^ 64
word-lt g zero v = v.fits0
word-lt g (suc zero) v = v.fits1
word-lt g (suc (suc zero)) v = v.fits2
word-lt g (suc (suc (suc q))) v = v.fits3

-- The tests of `intersects`, a word at a time.
some_word : (a b : GroupBitvector) → intersects a b ≡ true → (q : ℕ) × (q < 4) × (both a b q ≢ 0)
unfolding intersects
some_word a b h = elim (Bool-cases (both a b 0 == 0)) [
  | inr e ↦ (0, omega arith, ground arith)
  | inl e0 ↦ elim (Bool-cases (both a b 1 == 0)) [
    | inr e ↦ (1, omega arith, ground arith)
    | inl e1 ↦ elim (Bool-cases (both a b 2 == 0)) [
      | inr e ↦ (2, omega arith, ground arith)
      | inl e2 ↦ elim (Bool-cases (both a b 3 == 0)) [
        | inr e ↦ (3, omega arith, ground arith)
        | inl e3 ↦ absurd (
            all_zero (bit_and a.w0 b.w0) (bit_and a.w1 b.w1) (bit_and a.w2 b.w2) (bit_and a.w3 b.w3)
              (ground arith) (ground arith) (ground arith) (ground arith) h)
      ]
    ]
  ]
]
  where
    all_zero :
        (x y z w : ℕ)
        → x ≡ 0
        → y ≡ 0
        → z ≡ 0
        → w ≡ 0
        → not (bit_or (bit_or x y) (bit_or z w) == 0) ≡ true
        → ⊥
    all_zero x y z w p q r s t = cc (rw (p, q, r, s) at t)

intersects_word : (a b : GroupBitvector) (q : ℕ) → both a b q ≢ 0 → intersects a b ≡ true
unfolding intersects
intersects_word a b q h = ground (
  arith,
  parts q h,
  bit_or-ge (bit_and a.w0 b.w0) (bit_and a.w1 b.w1),
  bit_or-ge (bit_and a.w2 b.w2) (bit_and a.w3 b.w3),
  bit_or-ge (bit_or (bit_and a.w0 b.w0) (bit_and a.w1 b.w1))
      (bit_or (bit_and a.w2 b.w2) (bit_and a.w3 b.w3)),
)
  where
    parts : (q : ℕ) → both a b q ≢ 0 → 0 < both a b 0 + both a b 1 + both a b 2 + both a b 3
    parts zero h = ground arith
    parts (suc zero) h = ground arith
    parts (suc (suc zero)) h = ground arith
    parts (suc (suc (suc q))) h = ground arith

-- Two vectors, the first with words below 2^64, intersect exactly when some group is in both.
pub intersects_iff :
    (a b : GroupBitvector)
    → IsValid a
    → (intersects a b ≡ true) ↔ ((n : ℕ) × (member a n ≡ true) × (member b n ≡ true))
intersects_iff a b v = (shared, meets)
  where
    shared : intersects a b ≡ true → (n : ℕ) × (member a n ≡ true) × (member b n ≡ true)
    shared h =
        let (q, small, p) = some_word a b h in
        let (r, lt, e, e') = common_bit 64 (word a q) (word b q) (word-lt a q v) p in
        (q * 64 + r, member_at a q r small lt e, member_at b q r small lt e')

    meets : (n : ℕ) × (member a n ≡ true) × (member b n ≡ true) → intersects a b ≡ true
    meets (n, p, q) = intersects_word a b (n / 64) (
        bit_and-ne-zero (word a (n / 64)) (word b (n / 64)) (n % 64) (member-bit a n p)
          (member-bit b n q))

word-or_word :
    (g : GroupBitvector) (q q' mask : ℕ)
    → q < 4
    → q' < 4
    → word (or_word g q mask) q' ≡ (if q == q' then bit_or (word g q') mask else word g q')
unfolding or_word
word-or_word g zero zero mask h h' = refl
word-or_word g zero (suc q') mask h h' = ground arith
word-or_word g (suc zero) q' mask h h' = ground arith
word-or_word g (suc (suc zero)) q' mask h h' = ground arith
word-or_word g (suc (suc (suc q))) q' mask h h' = ground arith

-- `with_bit` adds the group, if it is one of the 256, and no other.
pub member-with_bit :
    (g : GroupBitvector) (n m : ℕ) → member (with_bit g n) m ≡ ((n == m && ltb n 256) || member g m)
unfolding with_bit member
member-with_bit g n m = ground (
  arith,
  word-or_word g (n / 64) (m / 64) (2 ^ (n % 64)),
  bit-bit_or (word g (m / 64)) (2 ^ (n % 64)) (m % 64),
  bit-pow (n % 64) (m % 64),
)

pub member-empty : (n : ℕ) → member empty n ≡ false
unfolding member
member-empty n = rw (no_word (n / 64), zero-bit (n % 64)) (ground arith)
  where
    no_word : (q : ℕ) → word empty q ≡ 0
    no_word zero = refl
    no_word (suc zero) = refl
    no_word (suc (suc zero)) = refl
    no_word (suc (suc (suc q))) = refl
