-- ===== src/Store.antt =====
-- crates/tak-store/src/lib.rs: the side channel for rows, and the writer that batches them into
-- transactions. Of the database, the store sees whether a transaction began and was committed.
pub mod Channel
pub mod Runs
pub mod Flushes
pub mod Invariant
pub mod Closed
mod Tests
use tak_rs.Common.{
  ℕ, zero, suc, ◌+◌, ◌-◌, ◌%◌, ◌^◌, max, Bool, true, false, Option, none, some, List, [], ◌∷◌, ◌++◌,
  leb, if◌then◌else◌, length, is_empty, Str,
}
use tak_rs.Store.Channel.{Mpsc}

abbrev pub default_insert_capacity : ℕ
default_insert_capacity = 8192

abbrev pub default_batch_max : ℕ
default_batch_max = 1000

-- One row for `cot_router`; an `i64` that holds a time of the message is not negative.
pub record CotInsert (F B : Type 0) : Type 0 where
  pub uid : Str
  pub cot_type : Str
  pub time_ms : ℕ
  pub start_ms : ℕ
  pub stale_ms : ℕ
  pub how : Str
  pub lat : F
  pub lon : F
  pub hae : F
  pub ce : F
  pub le : F
  pub detail : Str
  pub wire_bytes : B

-- How a flush ends; whether each row of a transaction was inserted has no effect on the code.
pub data FlushOutcome : Type 0 where
  begin_failed commit_failed committed : FlushOutcome

-- A transaction that began, with the rows that it was given.
pub record Transaction (Row : Type 0) : Type 0 where
  pub rows : List Row
  pub is_committed : Bool

module _ {Row : Type 0} (mpsc : Mpsc Row) where
  open mpsc use {Chan, channel, try_send, recv_many}

  -- `insert_tx` is the channel, both ends of it; `pool` is the transactions that began so far.
  pub record Store : Type 0 where
    pub pool : List (Transaction Row)
    pub insert_tx : Chan
    pub dropped : ℕ
    pub inserted : ℕ

  abbrev pub fresh_store : ℕ → Store
  fresh_store channel_capacity = record {
    pool = [];
    insert_tx = channel channel_capacity;
    dropped = 0;
    inserted = 0;
  }

  -- What is left after a `try_send`: `Ok` or any error.
  abbrev pub after_insert : Bool × Chan → Store → Bool × Store
  after_insert (true, tx) store = (true, record store { insert_tx = tx })
  after_insert (false, tx) store =
      (false, record store { insert_tx = tx; dropped = (store.dropped + 1) % 2 ^ 64 })

  unfoldable pub try_insert_event : Row → Store → Bool × Store
  try_insert_event event store = after_insert (try_send store.insert_tx event) store

  -- The buffer is empty after it. If no transaction begins, its rows are dropped.
  unfoldable pub flush : FlushOutcome → List Row → Store → List Row × Store
  flush outcome [] store = ([], store)
  flush begin_failed (row ∷ buf) store = ([], store)
  flush commit_failed (row ∷ buf) store = (
    [],
    record store { pool = store.pool ++ (record { rows = row ∷ buf; is_committed = false } ∷ []) },
  )
  flush committed (row ∷ buf) store = (
    [],
    record store {
      pool = store.pool ++ (record { rows = row ∷ buf; is_committed = true } ∷ []);
      inserted = (store.inserted + length (row ∷ buf)) % 2 ^ 64;
    },
  )

  -- The task of `run_writer`: its buffer, and whether it has returned.
  pub record Writer : Type 0 where
    pub buf : List Row
    pub stopped : Bool

  abbrev pub fresh_writer : Writer
  fresh_writer = record { buf = []; stopped = false }

  abbrev pub recv_limit : ℕ → List Row → ℕ
  recv_limit batch_max buf = max (batch_max - length buf) 1

  abbrev pub with_buf : Bool → List Row × Store → Writer × Store
  with_buf stopped (buf, store) = (record { buf = buf; stopped = stopped }, store)

  -- The branch of `recv_many`, which appended these rows to the buffer.
  unfoldable pub on_receive : ℕ → FlushOutcome → List Row → List Row → Store → Writer × Store
  unfolding flush
  on_receive batch_max outcome [] buf store = with_buf true (flush outcome buf store)
  on_receive batch_max outcome (row ∷ rows) buf store =
      let filled = buf ++ (row ∷ rows) in
      if leb batch_max (length filled)
      then with_buf false (flush outcome filled store)
      else (record { buf = filled; stopped = false }, store)

  -- The branch of the interval.
  unfoldable pub on_tick : FlushOutcome → List Row → Store → Writer × Store
  unfolding flush
  on_tick outcome buf store = with_buf false (flush outcome buf store)

  abbrev pub next_round :
      Bool
      → Option (List Row × Chan)
      → (List Row → Chan → Writer × Store)
      → Writer × Store
      → Writer × Store
  next_round false (some (rows, tx)) go here = go rows tx
  next_round _ _ go here = here

  -- The rounds of the loop as long as `recv_many` is ready: the select is biased, and prefers it to
  -- the interval. The flush of a round ends as the outcome of the number of rounds behind it.
  unfoldable pub run_writer : ℕ → ℕ → (ℕ → FlushOutcome) → Writer → Store → Writer × Store
  unfolding on_receive
  run_writer batch_max zero outcome w store = (w, store)
  run_writer batch_max (suc rounds) outcome w store =
      next_round w.stopped (recv_many store.insert_tx (recv_limit batch_max w.buf))
        (λ rows tx.
          let (w', store') =
            on_receive batch_max (outcome rounds) rows w.buf (record store { insert_tx = tx }) in
          run_writer batch_max rounds outcome w' store')
        (w, store)
