-- ===== src/Cot/Framing/Reader.antt =====
-- `read_varint` of crates/tak-cot/src/framing.rs on any input, well formed or not.
use tak_rs.Common.{
  ℕ, ◌+◌, ◌-◌, ◌*◌, ◌%◌, ◌^◌, ◌≤◌, ◌<◌, ◌≡◌, ◌≢◌, arith, min, bit_or, bit_and, false, List, [], ◌∷◌,
  ◌++◌, length,
}
use tak_rs.Common.Bits.{bit_or-lt}
use tak_rs.Cot.{Error, ok, err, panic, is_incomplete}
use tak_rs.Cot.Framing.{read_varint_loop, read_varint}

-- Whatever the input, a varint that is read has 1 to 10 bytes of it, and fits a `u64`.
read_varint_loop_bounds :
    (n : ℕ) (src : List ℕ) (i value shift v k : ℕ)
    → value < 2 ^ 64
    → i ≤ 10
    → read_varint_loop n src i value shift ≡ ok (v, k)
    → (v < 2 ^ 64) × (i < k) × (k ≤ 10) × (k ≤ i + length src)
unfolding read_varint_loop
read_varint_loop_bounds n [] i value shift v k hv hi e = cc
read_varint_loop_bounds n (b ∷ rest) i value shift v k hv hi e = ground (
  arith,
  bit_or-lt 64 value (bit_and b 0x7f * 2 ^ shift % 2 ^ 64),
  read_varint_loop_bounds n rest (i + 1) (bit_or value (bit_and b 0x7f * 2 ^ shift % 2 ^ 64))
      (min (shift + 7) (2 ^ 32 - 1)) v k,
)

read_varint_loop-append :
    (n m : ℕ) (src more : List ℕ) (i value shift v k : ℕ)
    → read_varint_loop n src i value shift ≡ ok (v, k)
    → read_varint_loop m (src ++ more) i value shift ≡ ok (v, k)
unfolding read_varint_loop
read_varint_loop-append n m [] more i value shift v k e = cc
read_varint_loop-append n m (b ∷ rest) more i value shift v k e = ground (
  arith,
  read_varint_loop-append n m rest more (i + 1) (bit_or value (bit_and b 0x7f * 2 ^ shift % 2 ^ 64))
      (min (shift + 7) (2 ^ 32 - 1)) v k,
)

pub read_varint_bounds :
    (src : List ℕ) (v k : ℕ)
    → read_varint src ≡ ok (v, k)
    → (v < 2 ^ 64) × (0 < k) × (k ≤ 10) × (k ≤ length src)
unfolding read_varint
read_varint_bounds src v k e = ground (arith, read_varint_loop_bounds (length src) src 0 0 0 v k)

pub read_varint-append :
    (src more : List ℕ) (v k : ℕ)
    → read_varint src ≡ ok (v, k)
    → read_varint (src ++ more) ≡ ok (v, k)
unfolding read_varint
read_varint-append src more v k e =
    read_varint_loop-append (length src) (length (src ++ more)) src more 0 0 0 v k e

read_varint_loop-ne-panic :
    (n : ℕ) (src : List ℕ) (i value shift : ℕ) → read_varint_loop n src i value shift ≢ panic
unfolding read_varint_loop
read_varint_loop-ne-panic n [] i value shift e = cc
read_varint_loop-ne-panic n (b ∷ rest) i value shift e = ground (
  arith,
  read_varint_loop-ne-panic n rest (i + 1) (bit_or value (bit_and b 0x7f * 2 ^ shift % 2 ^ 64))
      (min (shift + 7) (2 ^ 32 - 1)),
)

read_varint_loop-append_err :
    (n m : ℕ) (src more : List ℕ) (i value shift : ℕ) (e : Error)
    → is_incomplete e ≡ false
    → read_varint_loop n src i value shift ≡ err e
    → read_varint_loop m (src ++ more) i value shift ≡ err e
unfolding read_varint_loop
read_varint_loop-append_err n m [] more i value shift e final h = ground arith
read_varint_loop-append_err n m (b ∷ rest) more i value shift e final h = ground (
  arith,
  read_varint_loop-append_err n m rest more (i + 1)
      (bit_or value (bit_and b 0x7f * 2 ^ shift % 2 ^ 64)) (min (shift + 7) (2 ^ 32 - 1)) e,
)

pub read_varint-ne-panic : (src : List ℕ) → read_varint src ≢ panic
unfolding read_varint
read_varint-ne-panic src = read_varint_loop-ne-panic (length src) src 0 0 0

pub read_varint-append_err :
    (src more : List ℕ) (e : Error)
    → is_incomplete e ≡ false
    → read_varint src ≡ err e
    → read_varint (src ++ more) ≡ err e
unfolding read_varint
read_varint-append_err src more e final h =
    read_varint_loop-append_err (length src) (length (src ++ more)) src more 0 0 0 e final h
