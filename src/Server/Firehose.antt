-- ===== src/Server/Firehose.antt =====
-- `read_loop` of crates/tak-server/src/firehose.rs: the bytes of a connection are cut into frames,
-- and each frame goes to the pipeline. What one `read_buf` yields is a list of bytes, and the empty
-- one is the end of the input.
pub mod Drain
pub mod Chunks
mod Tests
use tak_rs.Common.{
  ℕ, zero, suc, ◌+◌, ◌%◌, ◌^◌, Bool, true, false, Option, none, some, List, [], ◌∷◌, ◌++◌, length,
  take, drop,
}
use tak_rs.Cot.{Result, ok, err, panic}
use tak_rs.Cot.Framing.{decode_stream}

-- What a connection has done: the state that its handlers share, and the count of its messages.
pub record Session (S : Type 0) : Type 0 where
  pub state : S
  pub decoded : ℕ

module _ {Msg S : Type 0}
    -- `TakMessage::decode`, generated by prost
    (decode_message : List ℕ → Option Msg)
    -- the plugin host and the pipeline, which take the message and its frame
    (deliver : Msg → List ℕ → S → S) where
  unfoldable pub handle_message : List ℕ → Option Msg → Session S → Session S
  handle_message framed none s = s
  handle_message framed (some msg) s = record {
    state = deliver msg framed s.state;
    decoded = (s.decoded + 1) % 2 ^ 64;
  }

  unfoldable pub handle_frame : List ℕ → Session S → Session S
  unfolding handle_message
  handle_frame framed s = elim (decode_stream framed) [
    | ok (total, payload) ↦ handle_message framed (decode_message payload) s
    | err e ↦ s
    | panic ↦ s
  ]

  -- The `while let` over the buffer. The fuel is the length of the buffer: each round takes a frame
  -- of at least two bytes off it.
  unfoldable pub drain : ℕ → List ℕ → Session S → List ℕ × Session S
  unfolding handle_frame
  drain zero buf s = (buf, s)
  drain (suc n) buf s = elim (decode_stream buf) [
    | ok (total, payload) ↦ drain n (drop total buf) (handle_frame (take total buf) s)
    | err e ↦ (buf, s)
    | panic ↦ (buf, s)
  ]

  unfoldable pub read_loop : List (List ℕ) → List ℕ → Session S → List ℕ × Session S
  unfolding drain
  read_loop [] buf s = (buf, s)
  read_loop ([] ∷ reads) buf s = (buf, s)
  read_loop ((b ∷ bytes) ∷ reads) buf s =
      let filled = buf ++ (b ∷ bytes) in
      let (rest, after) = drain (length filled) filled s in read_loop reads rest after
