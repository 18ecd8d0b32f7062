-- ===== src/Server/Firehose/Chunks.antt =====
-- What `read_loop` does depends on the bytes of the connection, and not on the reads that they
-- came in.
use tak_rs.Common.{
  ℕ, false, Option, List, [], ◌∷◌, ◌++◌, length, is_empty, All, ◌≡◌, refl, arith, length-append,
}
use mathlib.Core.Path.{sym, ◌∙◌}
use mathlib.Core.List.{append_assoc, append-nil}
use tak_rs.Cot.{Error, err, is_incomplete}
use tak_rs.Cot.Framing.{decode_stream, encode_stream, vec_writer}
use tak_rs.Cot.Framing.Stream.{decode_stream-append_err}
use tak_rs.Server.Firehose.{Session, drain, handle_message, read_loop}
use tak_rs.Server.Firehose.Drain.{is_ok, drain_stuck, drain_done, drain_fuel, drain-append}

-- The bytes of all reads.
abbrev pub concat : List (List ℕ) → List ℕ
concat [] = []
concat (xs ∷ xss) = xs ++ concat xss

-- A read that is not the end of the input has bytes.
abbrev pub IsRead : List ℕ → Type 0
IsRead bytes = is_empty bytes ≡ false

-- What `encode_stream` writes for a payload.
abbrev pub encoded : List ℕ → List ℕ
encoded payload = (encode_stream vec_writer payload []).1

module _ {Msg S : Type 0} (decode_message : List ℕ → Option Msg)
    (deliver : Msg → List ℕ → S → S) where
  -- A buffer drained before the next bytes come, and drained only then.
  drain_read :
      (filled more : List ℕ) (s : Session S)
      → (let (rest, after) = drain decode_message deliver (length filled) filled s in
          drain decode_message deliver (length (rest ++ more)) (rest ++ more) after)
        ≡ drain decode_message deliver (length (filled ++ more)) (filled ++ more) s
  drain_read filled more s =
      rw
        (
          drain-append decode_message deliver all filled more s (omega arith),
          drain_fuel decode_message deliver all (length filled) filled s
              (omega (arith, length-append filled more)) (omega arith),
        )
        (drain_fuel decode_message deliver (length (rest ++ more)) all (rest ++ more) after
          (omega arith)
          (ground (
            arith,
            length-append filled more,
            length-append rest more,
            drain_done decode_message deliver (length filled) filled s,
          )))
    where
      all : ℕ
      all = length (filled ++ more)

      rest : List ℕ
      rest = (drain decode_message deliver (length filled) filled s).0

      after : Session S
      after = (drain decode_message deliver (length filled) filled s).1

  -- From a buffer from which no frame can be decoded, the read loop does, in any number of reads
  -- that are not empty, what one drain of the buffer with all their bytes does.
  pub read_loop-drain :
      (reads : List (List ℕ)) (buf : List ℕ) (s : Session S)
      → All IsRead reads
      → is_ok (decode_stream buf) ≡ false
      → read_loop decode_message deliver reads buf s
        ≡ drain decode_message deliver (length (buf ++ concat reads)) (buf ++ concat reads) s
  unfolding read_loop
  read_loop-drain [] buf s full stuck =
      rw (append-nil) (sym (drain_stuck decode_message deliver (length buf) buf s stuck))
  read_loop-drain ([] ∷ reads) buf s full stuck = absurd (cc (full.0))
  read_loop-drain ((b ∷ bytes) ∷ reads) buf s full stuck =
      read_loop-drain reads (drained).0 (drained).1 full.1 left
      ∙ (rw append_assoc at (drain_read (buf ++ (b ∷ bytes)) (concat reads) s))
    where
      drained : List ℕ × Session S
      drained = drain decode_message deliver (length (buf ++ (b ∷ bytes))) (buf ++ (b ∷ bytes)) s

      left : is_ok (decode_stream drained.0) ≡ false
      left =
          (drain_done decode_message deliver (length (buf ++ (b ∷ bytes))) (buf ++ (b ∷ bytes)) s
            (omega arith)).0

  -- The messages of the frames, one after the other.
  unfoldable pub handle_all : List (List ℕ) → Session S → Session S
  handle_all [] s = s
  handle_all (payload ∷ payloads) s =
      handle_all payloads
        (handle_message decode_message deliver (encoded payload) (decode_message payload) s)

  unfoldable pub stream : List (List ℕ) → List ℕ
  stream [] = []
  stream (payload ∷ payloads) = encoded payload ++ stream payloads

  -- If decoding the buffer gives an error other than `incomplete`, then reads that are not empty
  -- deliver nothing, and the buffer keeps all their bytes.
  pub read_loop_stuck :
      (reads : List (List ℕ)) (buf : List ℕ) (e : Error) (s : Session S)
      → All IsRead reads
      → is_incomplete e ≡ false
      → decode_stream buf ≡ err e
      → read_loop decode_message deliver reads buf s ≡ (buf ++ concat reads, s)
  read_loop_stuck reads buf e s full final bad =
      rw (read_loop-drain reads buf s full (rw bad refl)) (
        drain_stuck decode_message deliver (length (buf ++ concat reads)) (buf ++ concat reads) s
          (rw (decode_stream-append_err buf (concat reads) e final bad) refl))
