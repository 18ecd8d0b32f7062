-- ===== src/Cot/Framing/RoundTrip.antt =====
-- The encoders and decoders of crates/tak-cot/src/framing.rs together.
use tak_rs.Common.{
  ℕ, suc, ◌+◌, ◌%◌, ◌^◌, ◌≤◌, ◌≡◌, refl, ap, arith, List, [], ◌∷◌, ◌++◌, length, ◌∙◌, ◌↔◌,
  length-append, take, drop, append_assoc, take-length_append, drop-length_append, append-nil,
  list_eqb,
}
use tak_rs.Cot.{Result, ok, err, panic, incomplete}
use tak_rs.Cot.Framing.{
  IsSlice, stream_payload, decode_stream, decode_mesh, magic, mesh_header, encode_stream,
  encode_mesh, vec_writer,
}
use tak_rs.Cot.Framing.Varint.{base128, varint_bytes-base128, read_varint-base128, length-base128}
use tak_rs.Cot.Framing.Stream.{
  decode_stream-append, decode_stream-ne-panic, decode_stream-append_err, decode_stream_bounds,
}

-- A frame: the magic byte, the length of the payload, the payload.
unfoldable pub frame : List ℕ → List ℕ
frame payload = magic ∷ (base128 9 (length payload) ++ payload)

pub encode_stream-frame :
    (payload out : List ℕ)
    → IsSlice payload
    → encode_stream vec_writer payload out ≡ (ok tt, out ++ frame payload)
unfolding encode_stream frame
encode_stream-frame payload out h =
    rw (same_length, varint_bytes-base128 9 (length payload) (omega arith)) (simp append_assoc)
  where
    same_length : length payload % 2 ^ 64 ≡ length payload
    same_length = omega arith

-- The slice behind a header of `k + 1` bytes.
stream_payload-exact :
    (head payload rest : List ℕ) (k : ℕ)
    → length head ≡ k + 1
    → k ≤ 10
    → IsSlice payload
    → stream_payload (head ++ (payload ++ rest)) (length payload, k)
      ≡ ok (length head + length payload, payload)
unfolding stream_payload
stream_payload-exact head payload rest k hk small h =
    ground (arith, length-append head (payload ++ rest), length-append payload rest, drop_head)
  where
    total : ℕ
    total = length head + length payload

    drop_head : drop (length head) (take total (head ++ (payload ++ rest))) ≡ payload
    drop_head =
        rw
          (
            ← append_assoc head payload rest,
            ← length-append head payload,
            take-length_append (head ++ payload) rest,
          )
          (drop-length_append head payload)

pub decode_stream-frame :
    (payload rest : List ℕ)
    → IsSlice payload
    → decode_stream (frame payload ++ rest) ≡ ok (length (frame payload), payload)
unfolding decode_stream frame
decode_stream-frame payload rest h =
    rw (append_assoc, read_varint-base128 (length payload) (payload ++ rest) (omega arith))
      (stream_payload-exact (magic ∷ digits) payload rest (length digits) (omega arith)
          (omega (arith, length-base128 9 (length payload))) h
        ∙ ap (λ (n : ℕ). ok (n, payload)) sizes)
  where
    digits : List ℕ
    digits = base128 9 (length payload)

    sizes : suc (length digits) + length payload ≡ suc (length (digits ++ payload))
    sizes = omega (arith, length-append digits payload)

-- For a payload of less than 2^63 bytes: decoding what `encode_stream` wrote into an empty vector,
-- whatever bytes follow it, gives back the payload and the length of what was written.
pub decode_stream-encode_stream :
    (payload rest : List ℕ)
    → IsSlice payload
    → decode_stream ((encode_stream vec_writer payload []).1 ++ rest)
      ≡ ok (length (encode_stream vec_writer payload []).1, payload)
decode_stream-encode_stream payload rest h =
    rw (encode_stream-frame payload [] h) (decode_stream-frame payload rest h)

-- Of the frame that `encode_stream` wrote for a payload of less than 2^63 bytes, every proper
-- prefix is `incomplete` to `decode_stream`.
pub decode_stream_prefix :
    (payload front back : List ℕ) (x : ℕ)
    → IsSlice payload
    → (encode_stream vec_writer payload []).1 ≡ front ++ (x ∷ back)
    → (need : ℕ) × (have : ℕ) × (decode_stream front ≡ err (incomplete need have))
decode_stream_prefix payload front back x h e = answer (decode_stream front) refl
  where
    whole : decode_stream (front ++ (x ∷ back)) ≡ ok (length (front ++ (x ∷ back)), payload)
    whole = rw (append-nil, e) at (decode_stream-encode_stream payload [] h)

    answer :
        (r : Result (ℕ × List ℕ))
        → decode_stream front ≡ r
        → (need : ℕ) × (have : ℕ) × (decode_stream front ≡ err (incomplete need have))
    answer (ok (total, p)) q = absurd (
        ground (
          arith,
          whole,
          decode_stream-append front (x ∷ back) total p q,
          decode_stream_bounds front total p q,
          length-append front (x ∷ back),
        ))
    answer (err (incomplete need have)) q = (need, have, q)
    answer (err other) q =
        absurd (cc (whole, decode_stream-append_err front (x ∷ back) other refl q))
    answer panic q = absurd (decode_stream-ne-panic front q)

-- A mesh datagram decodes to the payload that `encode_mesh` was given, whatever it is.
pub decode_mesh-encode_mesh :
    (payload : List ℕ) → decode_mesh (encode_mesh vec_writer payload []).1 ≡ ok payload
unfolding decode_mesh encode_mesh list_eqb
decode_mesh-encode_mesh payload = ground arith

-- `decode_mesh` accepts exactly the datagrams that begin with the mesh header, and returns what
-- follows it.
pub decode_mesh_accepts :
    (buf payload : List ℕ) → (decode_mesh buf ≡ ok payload) ↔ (buf ≡ mesh_header ++ payload)
unfolding decode_mesh list_eqb
decode_mesh_accepts [] payload = ground arith
decode_mesh_accepts (a ∷ []) payload = ground arith
decode_mesh_accepts (a ∷ b ∷ []) payload = ground arith
decode_mesh_accepts (a ∷ b ∷ c ∷ rest) payload = ground arith
