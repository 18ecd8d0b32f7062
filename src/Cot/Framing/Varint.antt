-- ===== src/Cot/Framing/Varint.antt =====
-- `write_varint` and `read_varint` of crates/tak-cot/src/framing.rs.
use tak_rs.Common.{
  ℕ, zero, suc, ◌+◌, ◌*◌, ◌/◌, ◌%◌, ◌^◌, ◌≤◌, ◌<◌, ◌≡◌, ap, arith, bit_or, bit_and, some, List, [],
  ◌∷◌, ◌++◌, length, All, leb, if◌then◌else◌, Bool-cases, inl, inr,
}
use tak_rs.Common.Bits.{mask_low, mask_top, set_top, bit_or-disjoint}
use native.Mathlib.Nat.{div-add-mod}
use native.Mathlib.Numerals.{towards_suc}
use tak_rs.Cot.{ok}
use tak_rs.Cot.Framing.{IsByte, read_varint_loop, read_varint, varint_bytes}

shift_seven : (s : ℕ) → 2 ^ (s + 7) ≡ 128 * 2 ^ s
shift_seven s = simp towards_suc (omega arith)

-- The lowest seven bits of `v` and the others, both shifted by `s`.
split_group : (v s : ℕ) → v * 2 ^ s ≡ v % 128 * 2 ^ s + v / 128 * 2 ^ (s + 7)
split_group v s = omega (
  arith,
  ap (λ (t : ℕ). t * 2 ^ s) (div-add-mod v 128),
  ap (λ (t : ℕ). v / 128 * t) (shift_seven s),
)

below_next : (value g s : ℕ) → value < 2 ^ s → g < 128 → value + g * 2 ^ s < 2 ^ (s + 7)
below_next value g s h k = rw (shift_seven s) (grind arith)

-- `value |= (byte & 0x7f) << shift` adds the group where nothing is cut off.
add_group :
    (byte value s : ℕ)
    → value < 2 ^ s
    → byte % 128 * 2 ^ s < 2 ^ 64
    → bit_or value (bit_and byte 0x7f * 2 ^ s % 2 ^ 64) ≡ value + byte % 128 * 2 ^ s
add_group byte value s h fits = rw (mask_low byte, small) (bit_or-disjoint s value (byte % 128) h)
  where
    small : byte % 128 * 2 ^ s % 2 ^ 64 ≡ byte % 128 * 2 ^ s
    small = omega arith

module _ (n i value s : ℕ) (rest : List ℕ) where
  -- One round on a last byte, and on a byte whose top bit says that more follow.
  last_byte :
      (w : ℕ)
      → w < 128
      → i < 10
      → value < 2 ^ s
      → w * 2 ^ s < 2 ^ 64
      → read_varint_loop n (w ∷ rest) i value s ≡ ok (value + w * 2 ^ s, i + 1)
  unfolding read_varint_loop
  last_byte w hw hi hv fits = ground (arith, add_group w value s, mask_top w)

  inner_byte :
      (g : ℕ)
      → g < 128
      → i < 10
      → s < 64
      → value < 2 ^ s
      → g * 2 ^ s < 2 ^ 64
      → read_varint_loop n ((g + 128) ∷ rest) i value s
        ≡ read_varint_loop n rest (i + 1) (value + g * 2 ^ s) (s + 7)
  unfolding read_varint_loop
  inner_byte g hg hi hs hv fits = ground (arith, add_group (g + 128) value s, mask_top (g + 128))

-- The two bytes that the writer makes of a number.
last_group : (v : ℕ) → v < 128 → bit_and v 0x7f % 2 ^ 8 ≡ v
last_group v h = omega (arith, mask_low v)

inner_group : (v : ℕ) → bit_or (bit_and v 0x7f % 2 ^ 8) 0x80 ≡ v % 128 + 128
inner_group v = rw (mask_low v, small) (set_top (v % 128) (omega arith))
  where
    small : v % 128 % 2 ^ 8 ≡ v % 128
    small = omega arith

-- The protobuf encoding of `v < 128 ^ (k + 1)`: digits to the base 128, the lowest first, with 128
-- added to all but the last.
unfoldable pub base128 : ℕ → ℕ → List ℕ
base128 zero v = v ∷ []
base128 (suc k) v =
    let more = base128 k (v / 128) in if leb 0x80 v then (v % 128 + 128) ∷ more else v ∷ []

pub varint_bytes-base128 : (k v : ℕ) → v < 128 ^ suc k → varint_bytes (suc k) v ≡ some (base128 k v)
unfolding varint_bytes base128
varint_bytes-base128 zero v h = ground (arith, last_group v)
varint_bytes-base128 (suc k) v h = elim (Bool-cases (leb 0x80 v)) [
  | inl more ↦ rw (more, varint_bytes-base128 k (v / 128) (omega arith), inner_group v)
  | inr last ↦ rw (last, last_group v (ground arith))
]

pub base128-IsByte : (k v : ℕ) → v < 128 ^ suc k → All IsByte (base128 k v)
unfolding base128
base128-IsByte zero v h = omega arith
base128-IsByte (suc k) v h = ground (arith, base128-IsByte k (v / 128) (omega arith))

pub length-base128 : (k v : ℕ) → (1 ≤ length (base128 k v)) × (length (base128 k v) ≤ suc k)
unfolding base128
length-base128 zero v = omega arith
length-base128 (suc k) v = ground (arith, length-base128 k (v / 128))

-- `v` is what is still to be read, and `value` what was read, from bit `shift` down.
read_varint_loop-base128 :
    (k n i value shift v : ℕ) (rest : List ℕ)
    → v < 128 ^ suc k
    → i + suc k ≤ 10
    → shift ≡ 7 * i
    → value < 2 ^ shift
    → v * 2 ^ shift < 2 ^ 64
    → read_varint_loop n (base128 k v ++ rest) i value shift
      ≡ ok (value + v * 2 ^ shift, i + length (base128 k v))
unfolding base128
read_varint_loop-base128 zero n i value shift v rest hv hi hs low fits =
    last_byte n i value shift rest v (omega arith) (omega arith) low fits
read_varint_loop-base128 (suc k) n i value shift v rest hv hi hs low fits =
    elim (Bool-cases (leb 0x80 v)) [
      | inl more ↦ rw more (
          ground (
            arith,
            split_group v shift,
            below_next value (v % 128) shift,
            inner_byte n i value shift (base128 k (v / 128) ++ rest) (v % 128),
            read_varint_loop-base128 k n (i + 1) (value + v % 128 * 2 ^ shift) (shift + 7) (v / 128)
                rest,
          ))
      | inr last ↦ rw last (last_byte n i value shift rest v (ground arith) (omega arith) low fits)
    ]

pub read_varint-base128 :
    (v : ℕ) (rest : List ℕ)
    → v < 2 ^ 64
    → read_varint (base128 9 v ++ rest) ≡ ok (v, length (base128 9 v))
unfolding read_varint
read_varint-base128 v rest h =
    ground (arith, read_varint_loop-base128 9 (length (base128 9 v ++ rest)) 0 0 0 v rest)
