-- ===== src/Store/Tests.antt =====
-- The store of crates/tak-store/src/lib.rs on a channel of two places, with numbers as rows.
use tak_rs.Common.{ℕ, ◌+◌, true, false, List, [], ◌∷◌, ◌≡◌, refl, arith}
use tak_rs.Store.Channel.Small.{small_mpsc, mpsc_laws, has_room, send_if, receive_from}
use tak_rs.Store.{
  committed, begin_failed, run_writer, Store, Writer, try_insert_event, flush, on_receive,
}
use tak_rs.Store.Runs.{Reach, started, accepted, refused, received, dropped}
use tak_rs.Store.Flushes.{IsSound}
use tak_rs.Store.Invariant.{Reach-IsSound}
use tak_rs.Store.Closed.{failures_below, Returned, run_writer-Returned}

-- Three rows for two places, of which one is received before the senders are gone.
abbrev Run : List ℕ → ℕ → ℕ → Writer (small_mpsc {Row = ℕ}) → Store (small_mpsc {Row = ℕ}) → Type 0
Run = Reach small_mpsc 2 1

end_of_run : Store (small_mpsc {Row = ℕ})
end_of_run = record {
  pool = [];
  insert_tx = record { queue = 8 ∷ []; capacity = 2; closed = true };
  dropped = 1;
  inserted = 0;
}

three_rows : Run (7 ∷ 8 ∷ []) 1 1 (record { buf = []; stopped = false }) end_of_run
unfolding try_insert_event on_receive flush has_room send_if receive_from end_of_run
three_rows = dropped (
    received {rows = 7 ∷ 8 ∷ []} (refused (accepted (accepted started 7 refl) 8 refl) 9 refl) refl
      (7 ∷ []) begin_failed refl refl)

Reach-IsSound_example :
    IsSound small_mpsc mpsc_laws 1
      (7 ∷ 8 ∷ [])
      1
      1
      (record { buf = []; stopped = false })
      end_of_run
Reach-IsSound_example = Reach-IsSound small_mpsc mpsc_laws 1 three_rows

run_writer-Returned_example :
    Returned small_mpsc mpsc_laws 2 1
      (λ n. committed)
      (7 ∷ 8 ∷ [])
      (1 + failures_below 2 (λ n. committed))
      (run_writer small_mpsc 1 2 (λ n. committed) (record { buf = []; stopped = false }) end_of_run)
unfolding end_of_run mpsc_laws
run_writer-Returned_example =
    run_writer-Returned small_mpsc mpsc_laws 2 1 (λ n. committed) 2 three_rows refl (omega arith)

-- The batch with 7 had no transaction, and the one with 8 is committed.
test_run_writer :
    ((run_writer small_mpsc 1 2
        (λ n. committed)
        (record { buf = []; stopped = false })
        end_of_run).1.pool
      ≡ record { rows = 8 ∷ []; is_committed = true } ∷ [])
    × ((run_writer small_mpsc 1 2
          (λ n. committed)
          (record { buf = []; stopped = false })
          end_of_run).1.inserted
        ≡ 1)
unfolding run_writer on_receive flush receive_from end_of_run
test_run_writer = (refl, refl)
