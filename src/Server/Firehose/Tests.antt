-- ===== src/Server/Firehose/Tests.antt =====
-- The theorems of the read loop at two frames that arrive in three reads.
use tak_rs.Common.{ℕ, ◌≤◌, false, Option, none, some, List, [], ◌∷◌, ◌++◌, length, ◌≡◌, refl, arith}
use tak_rs.Cot.{err, invalid_magic}
use tak_rs.Cot.Framing.{decode_stream}
use tak_rs.Server.Firehose.{Session, drain, read_loop}
use tak_rs.Server.Firehose.Drain.{is_ok, drain_done}
use tak_rs.Server.Firehose.Chunks.{concat, read_loop_stuck}

-- A message is its payload, if that is not empty, and delivering it keeps its frame.
abbrev decode_any : List ℕ → Option (List ℕ)
decode_any [] = none
decode_any (b ∷ bytes) = some (b ∷ bytes)

abbrev keep : List ℕ → List ℕ → List (List ℕ) → List (List ℕ)
keep msg framed log = log ++ (framed ∷ [])

abbrev at_start : Session (List (List ℕ))
at_start = record { state = []; decoded = 0 }

abbrev reads : List (List ℕ)
reads = (0xBF ∷ []) ∷ (1 ∷ 7 ∷ 0xBF ∷ 2 ∷ []) ∷ (8 ∷ 9 ∷ []) ∷ []

drain_done_example :
    (is_ok (decode_stream (drain decode_any keep 3 (0xBF ∷ 1 ∷ 7 ∷ []) at_start).0) ≡ false)
    × (length (drain decode_any keep 3 (0xBF ∷ 1 ∷ 7 ∷ []) at_start).0 ≤ 3)
drain_done_example = drain_done decode_any keep 3 (0xBF ∷ 1 ∷ 7 ∷ []) at_start (omega arith)

bad_start : decode_stream (3 ∷ []) ≡ err (invalid_magic 3)
unfolding decode_stream
bad_start = refl

read_loop_stuck_example :
    read_loop decode_any keep reads (3 ∷ []) at_start ≡ (3 ∷ concat reads, at_start)
read_loop_stuck_example =
    read_loop_stuck decode_any keep reads (3 ∷ []) (invalid_magic 3) at_start
      (refl, (refl, (refl, tt))) refl bad_start
