-- ===== src/Cot/Framing/Stream.antt =====
-- `decode_stream` of crates/tak-cot/src/framing.rs on any input, well formed or not.
use tak_rs.Common.{
  ℕ, ◌+◌, ◌-◌, ◌≤◌, ◌≡◌, ◌≢◌, arith, false, List, [], ◌∷◌, ◌++◌, length, ◌==◌, Bool-cases, inl, inr,
  length-append, take, drop, take-append, length-take, length-drop,
}
use tak_rs.Cot.{Error, ok, err, panic, bind-eq-ok, bind-ne-panic, bind-eq-err, is_incomplete}
use tak_rs.Cot.Framing.{read_varint, stream_payload, decode_stream, magic}
use tak_rs.Cot.Framing.Reader.{
  read_varint_bounds, read_varint-append, read_varint-ne-panic, read_varint-append_err,
}

module _ (buf : List ℕ) (len k : ℕ) where
  stream_payload_bounds :
      (total : ℕ) (payload : List ℕ)
      → k ≤ 10
      → stream_payload buf (len, k) ≡ ok (total, payload)
      → (total ≡ 1 + k + len) × (total ≤ length buf) × (payload ≡ drop (1 + k) (take total buf))
  unfolding stream_payload
  stream_payload_bounds total payload hk e = ground arith

  stream_payload-ne-panic : k ≤ 10 → stream_payload buf (len, k) ≢ panic
  unfolding stream_payload
  stream_payload-ne-panic hk e = ground arith

  stream_payload-append :
      (more : List ℕ) (total : ℕ) (payload : List ℕ)
      → k ≤ 10
      → stream_payload buf (len, k) ≡ ok (total, payload)
      → stream_payload (buf ++ more) (len, k) ≡ ok (total, payload)
  unfolding stream_payload
  stream_payload-append more total payload hk e =
      ground (arith, length-append buf more, take-append total buf more)

  stream_payload-append_err :
      (more : List ℕ) (e : Error)
      → k ≤ 10
      → is_incomplete e ≡ false
      → stream_payload buf (len, k) ≡ err e
      → stream_payload (buf ++ more) (len, k) ≡ err e
  unfolding stream_payload
  stream_payload-append_err more e hk final h = ground (arith, length-append buf more)

-- The steps that a successful `decode_stream` took.
pub record Header (b : ℕ) (rest : List ℕ) (total : ℕ) (payload : List ℕ) : Type 0 where
  pub len : ℕ
  pub size : ℕ
  pub is_magic : b ≡ magic
  pub varint : read_varint rest ≡ ok (len, size)
  pub framed : stream_payload (b ∷ rest) (len, size) ≡ ok (total, payload)

decode_stream-Header :
    (b : ℕ) (rest : List ℕ) (total : ℕ) (payload : List ℕ)
    → decode_stream (b ∷ rest) ≡ ok (total, payload)
    → Header b rest total payload
unfolding decode_stream
decode_stream-Header b rest total payload e = elim (Bool-cases (b == magic)) [
  | inl same ↦
      let ((len, k), read, framed) =
        bind-eq-ok (stream_payload (b ∷ rest)) (read_varint rest) (rw same at e) in
      record { len = len; size = k; is_magic = ground arith; varint = read; framed = framed }
  | inr other ↦ absurd (ground arith)
]

-- A frame that `decode_stream` finds takes at least two bytes and lies inside the buffer. Its
-- payload is the end of it, and from 2 to 11 bytes shorter.
pub decode_stream_bounds :
    (buf : List ℕ) (total : ℕ) (payload : List ℕ)
    → decode_stream buf ≡ ok (total, payload)
    → (2 ≤ total)
      × (total ≤ length buf)
      × (length payload + 2 ≤ total)
      × (total ≤ length payload + 11)
      × (payload ≡ drop (total - length payload) (take total buf))
unfolding decode_stream
decode_stream_bounds [] total payload e = cc
decode_stream_bounds (b ∷ rest) total payload e =
    let h = decode_stream-Header b rest total payload e in
    ground (
      arith,
      read_varint_bounds rest h.len h.size h.varint,
      stream_payload_bounds (b ∷ rest) h.len h.size total payload
          (read_varint_bounds rest h.len h.size h.varint).2 h.framed,
      length-take total (b ∷ rest),
      length-drop (1 + h.size) (take total (b ∷ rest)),
    )

-- A frame that is found stays found, whatever bytes arrive behind it.
pub decode_stream-append :
    (buf more : List ℕ) (total : ℕ) (payload : List ℕ)
    → decode_stream buf ≡ ok (total, payload)
    → decode_stream (buf ++ more) ≡ ok (total, payload)
unfolding decode_stream
decode_stream-append [] more total payload e = cc
decode_stream-append (b ∷ rest) more total payload e =
    let h = decode_stream-Header b rest total payload e in
    ground (
      arith,
      h.is_magic,
      read_varint-append rest more h.len h.size h.varint,
      stream_payload-append (b ∷ rest) h.len h.size more total payload
          (read_varint_bounds rest h.len h.size h.varint).2 h.framed,
    )

-- Decoding never indexes or slices out of range.
pub decode_stream-ne-panic : (buf : List ℕ) → decode_stream buf ≢ panic
unfolding decode_stream
decode_stream-ne-panic [] = λ e. cc
decode_stream-ne-panic (b ∷ rest) = elim (Bool-cases (b == magic)) [
  | inl same ↦ rw same (
      bind-ne-panic (stream_payload (b ∷ rest)) (read_varint rest) (read_varint-ne-panic rest)
        λ (len, k) e. stream_payload-ne-panic (b ∷ rest) len k (read_varint_bounds rest len k e).2)
  | inr other ↦ rw other (λ p. cc)
]

-- An error other than `incomplete` is final: no bytes that arrive later change it.
pub decode_stream-append_err :
    (buf more : List ℕ) (e : Error)
    → is_incomplete e ≡ false
    → decode_stream buf ≡ err e
    → decode_stream (buf ++ more) ≡ err e
unfolding decode_stream
decode_stream-append_err [] more e final h = ground arith
decode_stream-append_err (b ∷ rest) more e final h = elim (Bool-cases (b == magic)) [
  | inl same ↦ elim (bind-eq-err (stream_payload (b ∷ rest)) (read_varint rest) (rw same at h)) [
    | inl bad ↦ rw (same, read_varint-append_err rest more e final bad)
    | inr ((len, k), read, bad) ↦
        rw (same, read_varint-append rest more len k read)
          (stream_payload-append_err (b ∷ rest) len k more e (read_varint_bounds rest len k read).2
            final bad)
  ]
  | inr other ↦ rw other (rw other at h)
]
