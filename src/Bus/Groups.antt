-- ===== src/Bus/Groups.antt =====
-- `GroupBitvector` of crates/tak-bus/src/lib.rs: 256 groups in four 64-bit words.
pub mod Members
use tak_rs.Common.{
  ℕ, zero, suc, ◌+◌, ◌*◌, ◌/◌, ◌%◌, ◌^◌, ◌-◌, Bool, not, ltb, ◌==◌, if◌then◌else◌, bit_and, bit_or,
}

-- `[u64; 4]`
pub record GroupBitvector : Type 0 where
  pub w0 : ℕ
  pub w1 : ℕ
  pub w2 : ℕ
  pub w3 : ℕ

abbrev pub empty : GroupBitvector
empty = record { w0 = 0; w1 = 0; w2 = 0; w3 = 0 }

abbrev pub all : GroupBitvector
all = record { w0 = 2 ^ 64 - 1; w1 = 2 ^ 64 - 1; w2 = 2 ^ 64 - 1; w3 = 2 ^ 64 - 1 }

unfoldable pub intersects : GroupBitvector → GroupBitvector → Bool
intersects a b =
    let lo = bit_or (bit_and a.w0 b.w0) (bit_and a.w1 b.w1) in
    let hi = bit_or (bit_and a.w2 b.w2) (bit_and a.w3 b.w3) in not (bit_or lo hi == 0)

-- `self.0[i] |= mask`
unfoldable pub or_word : GroupBitvector → ℕ → ℕ → GroupBitvector
or_word g zero mask = record g { w0 = bit_or g.w0 mask }
or_word g (suc zero) mask = record g { w1 = bit_or g.w1 mask }
or_word g (suc (suc zero)) mask = record g { w2 = bit_or g.w2 mask }
or_word g (suc (suc (suc i))) mask = record g { w3 = bit_or g.w3 mask }

-- `1u64 << (n % 64)`: the shift is below 64, so nothing is lost.
unfoldable pub with_bit : GroupBitvector → ℕ → GroupBitvector
unfolding or_word
with_bit g n = if ltb n 256 then or_word g (n / 64) (2 ^ (n % 64)) else g
