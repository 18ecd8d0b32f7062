-- ===== src/Cot/Framing/Tests.antt =====
-- The theorems of the framing at small buffers.
use tak_rs.Common.{
  ℕ, ◌+◌, ◌-◌, ◌≤◌, some, List, [], ◌∷◌, ◌++◌, length, take, drop, ◌≡◌, ◌≢◌, refl, arith,
}
use tak_rs.Cot.{ok, err, panic, invalid_magic, incomplete}
use tak_rs.Cot.Framing.{
  read_varint, varint_bytes, decode_stream, decode_mesh, encode_stream, encode_mesh, vec_writer,
  slice, read_varint_loop, stream_payload,
}
use tak_rs.Cot.Framing.Varint.{base128, varint_bytes-base128, read_varint-base128}
use tak_rs.Cot.Framing.Stream.{decode_stream_bounds, decode_stream-ne-panic}
use tak_rs.Cot.Framing.RoundTrip.{
  decode_stream-encode_stream, decode_stream_prefix, decode_mesh-encode_mesh,
}

abbrev frame_bytes : List ℕ
frame_bytes = 0xBF ∷ 2 ∷ 7 ∷ 8 ∷ 9 ∷ []

frame_decoded : decode_stream frame_bytes ≡ ok (4, 7 ∷ 8 ∷ [])
unfolding decode_stream read_varint read_varint_loop stream_payload slice
frame_decoded = refl

bad_magic : decode_stream (3 ∷ []) ≡ err (invalid_magic 3)
unfolding decode_stream
bad_magic = refl

varint_bytes-base128_example : varint_bytes 10 300 ≡ some (base128 9 300)
varint_bytes-base128_example = varint_bytes-base128 9 300 (omega arith)

read_varint-base128_example :
    read_varint (base128 9 300 ++ (5 ∷ [])) ≡ ok (300, length (base128 9 300))
read_varint-base128_example = read_varint-base128 300 (5 ∷ []) (omega arith)

decode_stream_bounds_example :
    (2 ≤ 4)
    × (4 ≤ length frame_bytes)
    × (2 + 2 ≤ 4)
    × (4 ≤ 2 + 11)
    × (7 ∷ 8 ∷ [] ≡ drop (4 - 2) (take 4 frame_bytes))
decode_stream_bounds_example = decode_stream_bounds frame_bytes 4 (7 ∷ 8 ∷ []) frame_decoded

decode_stream-ne-panic_example : decode_stream frame_bytes ≢ panic
decode_stream-ne-panic_example = decode_stream-ne-panic frame_bytes

decode_stream-encode_stream_example :
    decode_stream ((encode_stream vec_writer (1 ∷ 2 ∷ 3 ∷ []) []).1 ++ (4 ∷ []))
    ≡ ok (length (encode_stream vec_writer (1 ∷ 2 ∷ 3 ∷ []) []).1, 1 ∷ 2 ∷ 3 ∷ [])
decode_stream-encode_stream_example =
    decode_stream-encode_stream (1 ∷ 2 ∷ 3 ∷ []) (4 ∷ []) (omega arith)

decode_stream_prefix_example :
    (need : ℕ) × (have : ℕ) × (decode_stream (0xBF ∷ []) ≡ err (incomplete need have))
unfolding encode_stream varint_bytes
decode_stream_prefix_example =
    decode_stream_prefix (7 ∷ []) (0xBF ∷ []) (7 ∷ []) 1 (omega arith) refl

decode_mesh-encode_mesh_example :
    decode_mesh (encode_mesh vec_writer (9 ∷ 8 ∷ []) []).1 ≡ ok (9 ∷ 8 ∷ [])
decode_mesh-encode_mesh_example = decode_mesh-encode_mesh (9 ∷ 8 ∷ [])
