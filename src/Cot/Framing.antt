-- ===== src/Cot/Framing.antt =====
-- crates/tak-cot/src/framing.rs: TAK Protocol v1 wire framing. A byte slice is a list of numbers
-- below 256. `usize` is 64 bits wide.
pub mod Varint
pub mod Reader
pub mod Stream
pub mod RoundTrip
mod Tests
use Prim.Native.String.{String}
use tak_rs.Common.{
  ℕ, zero, suc, ◌+◌, ◌-◌, ◌*◌, ◌/◌, ◌%◌, ◌^◌, min, bit_and, bit_or, Bool, not, Option, none, some,
  ◌++◌, List, [], ◌∷◌, ◌&&◌, ltb, leb, ◌==◌, ◌=?◌, if◌then◌else◌, length, take, drop, list_eq,
  nat_eq, ◌<◌,
}
use mathlib.Core.Option
use tak_rs.Cot.{Error, Result, ok, err, panic, invalid_magic, incomplete, ◌>>=◌}

abbrev pub magic : ℕ
magic = 0xBF

abbrev pub mesh_header : List ℕ
mesh_header = magic ∷ 0x01 ∷ magic ∷ []

abbrev pub max_varint_bytes : ℕ
max_varint_bytes = 10

pub data ProtoVersion : Type 0 where
  xml v1 : ProtoVersion

pub data FrameKind : Type 0 where
  v1 legacy_xml : FrameKind

abbrev pub IsByte : ℕ → Type 0
IsByte b = b < 256

-- A slice is at most `isize::MAX` bytes long.
abbrev pub IsSlice : List ℕ → Type 0
IsSlice buf = length buf < 2 ^ 63

-- `a.saturating_add(b)` on `w` bits.
abbrev pub saturating_add : ℕ → ℕ → ℕ → ℕ
saturating_add w a b = min (a + b) (2 ^ w - 1)

-- `&buf[from..to]`
unfoldable pub slice : List ℕ → ℕ → ℕ → Result (List ℕ)
slice buf from to =
    if leb from to && leb to (length buf) then ok (drop from (take to buf)) else panic

unfoldable pub peek : List ℕ → Result FrameKind
peek [] = err (incomplete 1 0)
peek (b ∷ _) = if b == magic then ok FrameKind.v1 else ok legacy_xml

-- The loop of `read_varint` from index `i` on: `n` is `buf.len()`, and the list is what the
-- iteration has not reached.
unfoldable pub read_varint_loop : ℕ → List ℕ → ℕ → ℕ → ℕ → Result (ℕ × ℕ)
read_varint_loop n [] i value shift = err (incomplete (saturating_add 64 n 1) n)
read_varint_loop n (byte ∷ rest) i value shift =
    let value' = bit_or value (bit_and byte 0x7f * 2 ^ shift % 2 ^ 64) in
    let next = read_varint_loop n rest (i + 1) value' (saturating_add 32 shift 7) in
    if leb max_varint_bytes i
    then err (Error.framing "varint exceeds 10 bytes")
    else if bit_and byte 0x80 == 0
    then ok (value', saturating_add 64 i 1)
    else next

unfoldable pub read_varint : List ℕ → Result (ℕ × ℕ)
read_varint buf = read_varint_loop (length buf) buf 0 0 0

-- The bytes that the loop of `write_varint` stores in its buffer, which has `slots` places left;
-- `none` is an index out of range.
unfoldable pub varint_bytes : ℕ → ℕ → Option (List ℕ)
varint_bytes zero value = none
varint_bytes (suc slots) value =
    let more = varint_bytes slots (value / 2 ^ 7) in
    if leb 0x80 value
    then Option.map (λ bytes. bit_or (bit_and value 0x7f % 2 ^ 8) 0x80 ∷ bytes) more
    else some (bit_and value 0x7f % 2 ^ 8 ∷ [])

-- What follows the magic byte and the length in `decode_stream`.
unfoldable pub stream_payload : List ℕ → ℕ × ℕ → Result (ℕ × List ℕ)
unfolding slice
stream_payload buf (len, varint_size) =
    let header = saturating_add 64 1 varint_size in
    let total = header + len in
    if not (ltb len (2 ^ 64))
    then err (Error.framing "frame length overflow")
    else if not (ltb total (2 ^ 64))
    then err (Error.framing "frame size overflow")
    else if ltb (length buf) total
    then err (incomplete total (length buf))
    else do payload ← slice buf header total; ok (total, payload)

unfoldable pub decode_stream : List ℕ → Result (ℕ × List ℕ)
decode_stream [] = err (incomplete 1 0)
decode_stream (b ∷ rest) =
    if b == magic
    then (do len ← read_varint rest; stream_payload (b ∷ rest) len)
    else err (invalid_magic b)

unfoldable pub decode_mesh : List ℕ → Result (List ℕ)
decode_mesh [] = err (incomplete 3 0)
decode_mesh (b ∷ rest) =
    if ltb (length (b ∷ rest)) (length mesh_header)
    then err (incomplete (length mesh_header) (length (b ∷ rest)))
    else if take 3 (b ∷ rest) =? mesh_header
    then ok (drop (length mesh_header) (b ∷ rest))
    else err (invalid_magic b)

-- `io::Write`: a writer takes the bytes or fails, and keeps its state either way.
pub record Writer (W : Type 0) : Type 0 where
  pub write_all : List ℕ → W → Result (Unit {0}) × W

-- An action on a writer, and what follows it with `?`.
abbrev pub Write : Type 0 → Type 0
Write W = W → Result (Unit {0}) × W

abbrev pub and_then : {W : Type 0} → Write W → Result (Unit {0}) × W → Result (Unit {0}) × W
and_then k (ok u, w) = k w
and_then k (err e, w) = (err e, w)
and_then k (panic, w) = (panic, w)

infixl 4 ◌>>◌
abbrev pub ◌>>◌ : {W : Type 0} → Write W → Write W → Write W
◌>>◌ m k w = and_then k (m w)

-- `Vec<u8>` as a writer: it takes everything.
abbrev pub vec_writer : Writer (List ℕ)
vec_writer = record { write_all = λ bytes out. (ok tt, out ++ bytes) }

module _ {W : Type 0} (writer : Writer W) where
  open writer use {write_all}

  write_bytes : Option (List ℕ) → Write W
  write_bytes none w = (panic, w)
  write_bytes (some bytes) w = write_all bytes w

  unfoldable pub write_varint : ℕ → Write W
  unfolding write_bytes
  write_varint value = write_bytes (varint_bytes max_varint_bytes value)

  unfoldable pub encode_stream : List ℕ → Write W
  unfolding write_varint
  encode_stream payload =
      write_all (magic ∷ []) >> write_varint (length payload % 2 ^ 64) >> write_all payload

  unfoldable pub encode_mesh : List ℕ → Write W
  encode_mesh payload = write_all mesh_header >> write_all payload
