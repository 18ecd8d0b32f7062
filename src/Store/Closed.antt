-- ===== src/Store/Closed.antt =====
-- The end of the writer of crates/tak-store/src/lib.rs: on a closed channel it comes to its return.
use tak_rs.Common.{
  ℕ, zero, suc, ◌+◌, ◌≤◌, Bool, true, false, some, List, [], ◌∷◌, ◌++◌, length, append-nil,
  length-append, leb, if◌then◌else◌, ◌<◌, ◌≡◌, refl, ap, sym, ◌∙◌, arith, Bool-cases, inl, inr,
}
use mathlib.Core.Path.{subst}
use tak_rs.Store.Channel.{Mpsc, MpscLaws}
use tak_rs.Store.{
  FlushOutcome, Transaction, Store, Writer, recv_limit, flush, with_buf, on_receive, next_round,
  run_writer,
}
use tak_rs.Store.Runs.{failed, Reach, received}
use tak_rs.Store.Flushes.{Batch, all_rows, begun, lost}
use tak_rs.Store.Invariant.{Reach-IsSound}

-- How many of the first outcomes are of a transaction that does not begin.
abbrev pub failures_below : ℕ → (ℕ → FlushOutcome) → ℕ
failures_below zero outcome = 0
failures_below (suc n) outcome = failed (outcome n) + failures_below n outcome

-- The rows are those of batches whose transactions are the pool, up to a number of lost batches.
pub record AllFlushed {Row : Type 0} (rows : List Row) (failures : ℕ)
    (pool : List (Transaction Row)) : Type 0 where
  pub history : List (Batch Row)
  pub flushed : all_rows history ≡ rows
  pub transactions : pool ≡ begun history
  pub few : lost history ≤ failures

module _ {Row : Type 0} (mpsc : Mpsc Row) (laws : MpscLaws mpsc) (channel_capacity batch_max : ℕ)
    (outcome : ℕ → FlushOutcome) where
  open laws use {queued, is_closed}

  flush-insert_tx :
      (o : FlushOutcome) (buf : List Row) (s : Store mpsc)
      → (flush mpsc o buf s).1.insert_tx ≡ s.insert_tx
  unfolding flush
  flush-insert_tx o [] s = refl
  flush-insert_tx FlushOutcome.begin_failed (row ∷ buf) s = refl
  flush-insert_tx FlushOutcome.commit_failed (row ∷ buf) s = refl
  flush-insert_tx FlushOutcome.committed (row ∷ buf) s = refl

  -- A round does not touch the channel.
  on_receive-insert_tx :
      (o : FlushOutcome) (rows buf : List Row) (s : Store mpsc)
      → (on_receive mpsc batch_max o rows buf s).1.insert_tx ≡ s.insert_tx
  unfolding on_receive
  on_receive-insert_tx o [] buf s = flush-insert_tx o buf s
  on_receive-insert_tx o (row ∷ rows) buf s = go (leb batch_max (length (buf ++ (row ∷ rows))))
    where
      go :
          (b : Bool)
          → (if b
              then with_buf mpsc false (flush mpsc o (buf ++ (row ∷ rows)) s)
              else (record { buf = buf ++ (row ∷ rows); stopped = false }, s)).1.insert_tx
            ≡ s.insert_tx
      go true = flush-insert_tx o (buf ++ (row ∷ rows)) s
      go false = refl

  -- The rounds behind one that received rows.
  abbrev rest_of : ℕ → Writer mpsc → Store mpsc → List Row → mpsc.Chan → Writer mpsc × Store mpsc
  rest_of rounds w s rows tx =
      run_writer mpsc batch_max rounds outcome
        (on_receive mpsc batch_max (outcome rounds) rows w.buf (record s { insert_tx = tx })).0
        (on_receive mpsc batch_max (outcome rounds) rows w.buf (record s { insert_tx = tx })).1

  run_writer-stopped :
      (rounds : ℕ) (w : Writer mpsc) (s : Store mpsc)
      → w.stopped ≡ true
      → run_writer mpsc batch_max (suc rounds) outcome w s ≡ (w, s)
  unfolding run_writer
  run_writer-stopped rounds w s e =
      ap
        (λ b.
          next_round mpsc b (mpsc.recv_many s.insert_tx (recv_limit mpsc batch_max w.buf))
            (rest_of rounds w s) (w, s))
        e

  run_writer-received :
      (rounds : ℕ) (w : Writer mpsc) (s : Store mpsc) (new : List Row) (tx : mpsc.Chan)
      → w.stopped ≡ false
      → mpsc.recv_many s.insert_tx (recv_limit mpsc batch_max w.buf) ≡ some (new, tx)
      → run_writer mpsc batch_max (suc rounds) outcome w s ≡ rest_of rounds w s new tx
  unfolding run_writer
  run_writer-received rounds w s new tx e got =
      ap
        (λ b.
          next_round mpsc b (mpsc.recv_many s.insert_tx (recv_limit mpsc batch_max w.buf))
            (rest_of rounds w s) (w, s))
        e
      ∙ ap (λ o. next_round mpsc false o (rest_of rounds w s) (w, s)) got

  -- What the writer and the store are when the writer has returned.
  pub record Returned (rows : List Row) (failures : ℕ) (r : Writer mpsc × Store mpsc) : Type 0 where
    pub returned : r.0.stopped ≡ true
    pub empty : (r.0.buf ≡ []) × (queued r.1.insert_tx ≡ [])
    pub all_flushed : AllFlushed rows failures r.1.pool

  stopped-Returned :
      {rows : List Row} {refusals failures : ℕ} {w : Writer mpsc} {s : Store mpsc} (bound : ℕ)
      → Reach mpsc channel_capacity batch_max rows refusals failures w s
      → w.stopped ≡ true
      → failures ≤ bound
      → Returned rows bound (w, s)
  stopped-Returned {rows} {w = w} {s = s} bound r e h =
      let i = Reach-IsSound mpsc laws batch_max r in
      let (buf, queue, _) = i.ended e in
      record {
        returned = e;
        empty = (buf, queue);
        all_flushed = record {
          history = i.history;
          flushed =
              sym (append-nil (all_rows i.history))
              ∙ ap (λ t. all_rows i.history ++ t)
                  (sym (ap (λ b. b ++ queued s.insert_tx) buf ∙ queue))
              ∙ i.order;
          transactions = i.recorded.pool;
          few = omega (arith, i.recorded.few, h);
        };
      }

  less :
      (rounds : ℕ) (w : Writer mpsc) (s : Store mpsc) (new : List Row) (tx : mpsc.Chan)
      → length (queued s.insert_tx) < suc rounds
      → mpsc.recv_many s.insert_tx (recv_limit mpsc batch_max w.buf) ≡ some (new, tx)
      → (on_receive mpsc batch_max
          (outcome rounds)
          new
          w.buf
          (record s { insert_tx = tx })).0.stopped
        ≡ false
      → length (
          queued
            (on_receive mpsc batch_max
              (outcome rounds)
              new
              w.buf
              (record s { insert_tx = tx })).1.insert_tx)
        < rounds
  unfolding on_receive
  less rounds w s [] tx h got e = absurd (cc (e))
  less rounds w s (row ∷ new) tx h got e = omega (
    arith,
    h,
    ap (λ t. length (queued t))
        (on_receive-insert_tx (outcome rounds) (row ∷ new) w.buf (record s { insert_tx = tx })),
    ap length (laws.recv-queued s.insert_tx tx _ (row ∷ new) got),
    length-append (row ∷ new) (queued tx),
  )

  -- Each round takes a row of the channel, or is the last one.
  run_writer-bounded :
      (rounds : ℕ) {rows : List Row} {refusals failures : ℕ} (w : Writer mpsc) (s : Store mpsc)
      (bound : ℕ)
      → Reach mpsc channel_capacity batch_max rows refusals failures w s
      → is_closed s.insert_tx ≡ true
      → (w.stopped ≡ false → length (queued s.insert_tx) < rounds)
      → failures + failures_below rounds outcome ≤ bound
      → Returned rows bound (run_writer mpsc batch_max rounds outcome w s)
  unfolding run_writer
  run_writer-bounded zero w s bound r c h le = elim (Bool-cases w.stopped) [
    | inl e ↦ stopped-Returned bound r e (omega (arith, le))
    | inr e ↦ absurd (omega (arith, h e))
  ]
  run_writer-bounded (suc rounds) {rows} w s bound r c h le = elim (Bool-cases w.stopped) [
    | inl e ↦
        subst (Returned rows bound) (sym (run_writer-stopped rounds w s e))
          (stopped-Returned bound r e (omega (arith, le)))
    | inr e ↦
        let (new, tx, got) = laws.recv-ready s.insert_tx (recv_limit mpsc batch_max w.buf) c in
        subst (Returned rows bound) (sym (run_writer-received rounds w s new tx e got)) (
          run_writer-bounded rounds _ _ bound (received r e new (outcome rounds) got refl)
            (ap is_closed (on_receive-insert_tx (outcome rounds) new w.buf _)
              ∙ laws.recv-is_closed s.insert_tx tx _ new got
              ∙ c)
            (less rounds w s new tx (h e) got) (omega (arith, le)))
  ]

  -- Once the last sender is gone, the writer of any run returns, after one round more than the channel
  -- has rows at most and however the transactions end. Then its buffer and the channel are empty, and
  -- every row that try_insert_event accepted was flushed: the rows are, in order, those of batches
  -- whose transactions are the pool, but for the batches for which no transaction could begin. These
  -- are no more than the steps of the run and the rounds of the end in which none could begin.
  pub run_writer-Returned :
      {rows : List Row} {refusals failures : ℕ} {w : Writer mpsc} {s : Store mpsc} (rounds : ℕ)
      → Reach mpsc channel_capacity batch_max rows refusals failures w s
      → is_closed s.insert_tx ≡ true
      → length (queued s.insert_tx) < rounds
      → Returned rows
          (failures + failures_below rounds outcome)
          (run_writer mpsc batch_max rounds outcome w s)
  run_writer-Returned {w = w} {s = s} rounds r c h =
      run_writer-bounded rounds w s _ r c (λ e. h) (omega arith)
