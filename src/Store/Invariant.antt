-- ===== src/Store/Invariant.antt =====
-- What holds in every run of the store of crates/tak-store/src/lib.rs.
use tak_rs.Common.{
  ℕ, suc, ◌+◌, ◌≤◌, max, Bool, true, false, some, List, [], ◌∷◌, ◌++◌, length, leb, if◌then◌else◌,
  length-append, append_assoc, ◌≡◌, refl, ap, sym, ◌∙◌, arith,
}
use mathlib.Core.Path.{subst}
use tak_rs.Store.Channel.{Mpsc, MpscLaws}
use tak_rs.Store.{
  FlushOutcome, Store, try_insert_event, after_insert, flush, Writer, with_buf, recv_limit,
  on_receive, on_tick,
}
use tak_rs.Store.Flushes.{Batch, all_rows, IsRecorded, IsSound, flush-Flushed, Flushed-IsSound}
use tak_rs.Store.Runs.{failed, Reach, started, accepted, refused, received, ticked, dropped}

module _ {Row : Type 0} (mpsc : Mpsc Row) (laws : MpscLaws mpsc) (batch_max : ℕ) where
  open laws use {queued, is_closed}

  moved :
      {h : List (Batch Row)} {failures more : ℕ} {s : Store mpsc}
      → IsRecorded mpsc laws batch_max h failures s
      → failures ≤ more
      → (tx : mpsc.Chan) → IsRecorded mpsc laws batch_max h more (record s { insert_tx = tx })
  moved c le tx = record {
    pool = c.pool;
    few = omega (arith, c.few, le);
    sized = c.sized;
    count = c.count;
  }

  after_send :
      (c : mpsc.Chan) (row : Row) (r : Bool × mpsc.Chan)
      → mpsc.try_send c row ≡ r
      → (queued r.1 ≡ (if r.0 then queued c ++ (row ∷ []) else queued c))
        × (is_closed r.1 ≡ is_closed c)
        × (is_closed c ≡ true → r.0 ≡ false)
  after_send c row r q =
      subst
        (λ (r : Bool × mpsc.Chan).
          (queued r.1 ≡ (if r.0 then queued c ++ (row ∷ []) else queued c))
          × (is_closed r.1 ≡ is_closed c)
          × (is_closed c ≡ true → r.0 ≡ false))
        q (laws.send-queued c row, laws.send-is_closed c row, laws.send-closed c row)

  -- A producer's row is behind the others, or it is counted as dropped.
  after_insert-IsSound :
      (rows : List Row) (refusals failures : ℕ) (w : Writer mpsc) (s : Store mpsc) (row : Row)
      (r : Bool × mpsc.Chan)
      → IsSound mpsc laws batch_max rows refusals failures w s
      → mpsc.try_send s.insert_tx row ≡ r
      → IsSound mpsc laws batch_max
          (if r.0 then rows ++ (row ∷ []) else rows)
          (if r.0 then refusals else suc refusals)
          failures
          w
          (after_insert mpsc r s).1
  after_insert-IsSound rows refusals failures w s row (true, tx) i q =
      let (queue, same, refuses) = after_send s.insert_tx row (true, tx) q in
      record {
        history = i.history;
        order =
            ap (λ t. all_rows i.history ++ (w.buf ++ t)) queue
            ∙ ap (λ t. all_rows i.history ++ t)
                (sym (append_assoc w.buf (queued s.insert_tx) (row ∷ [])))
            ∙ sym (append_assoc (all_rows i.history) (w.buf ++ queued s.insert_tx) (row ∷ []))
            ∙ ap (λ t. t ++ (row ∷ [])) i.order;
        recorded = moved i.recorded (omega arith) tx;
        small = i.small;
        dropped = i.dropped;
        ended = λ h. absurd (cc (refuses (i.ended h).2));
      }
  after_insert-IsSound rows refusals failures w s row (false, tx) i q =
      let (queue, same, refuses) = after_send s.insert_tx row (false, tx) q in
      record {
        history = i.history;
        order = ap (λ t. all_rows i.history ++ (w.buf ++ t)) queue ∙ i.order;
        recorded = record {
          pool = i.recorded.pool;
          few = i.recorded.few;
          sized = i.recorded.sized;
          count = i.recorded.count;
        };
        small = i.small;
        dropped = omega (arith, i.dropped);
        ended = λ h. let (a, b, c) = i.ended h in (a, queue ∙ b, same ∙ c);
      }

  after_insert-result : (r : Bool × mpsc.Chan) (s : Store mpsc) → (after_insert mpsc r s).0 ≡ r.0
  after_insert-result (true, tx) s = refl
  after_insert-result (false, tx) s = refl

  -- What try_insert_event answered is what the run is told.
  inserted :
      (rows : List Row) (refusals failures : ℕ) (w : Writer mpsc) (s : Store mpsc) (row : Row)
      {b : Bool} {s' : Store mpsc}
      → try_insert_event mpsc row s ≡ (b, s')
      → IsSound mpsc laws batch_max rows refusals failures w s
      → IsSound mpsc laws batch_max
          (if b then rows ++ (row ∷ []) else rows)
          (if b then refusals else suc refusals)
          failures
          w
          s'
  unfolding try_insert_event
  inserted rows refusals failures w s row {b} {s'} e i =
      subst
        (λ (x : Bool × Store mpsc).
          IsSound mpsc laws batch_max (if x.0 then rows ++ (row ∷ []) else rows)
            (if x.0 then refusals else suc refusals) failures w x.1)
        e
        (subst
          (λ b.
            IsSound mpsc laws batch_max (if b then rows ++ (row ∷ []) else rows)
              (if b then refusals else suc refusals) failures w
              (after_insert mpsc (mpsc.try_send s.insert_tx row) s).1)
          (sym (after_insert-result (mpsc.try_send s.insert_tx row) s))
          (after_insert-IsSound rows refusals failures w s row (mpsc.try_send s.insert_tx row) i
            refl))

  receive-IsSound :
      (rows : List Row) (refusals failures : ℕ) (w : Writer mpsc) (s : Store mpsc) (new : List Row)
      (o : FlushOutcome) (tx : mpsc.Chan)
      → IsSound mpsc laws batch_max rows refusals failures w s
      → mpsc.recv_many s.insert_tx (recv_limit mpsc batch_max w.buf) ≡ some (new, tx)
      → IsSound mpsc laws batch_max rows refusals
          (failures + failed o)
          (on_receive mpsc batch_max o new w.buf (record s { insert_tx = tx })).0
          (on_receive mpsc batch_max o new w.buf (record s { insert_tx = tx })).1
  unfolding on_receive
  receive-IsSound rows refusals failures w s [] o tx i e =
      let (empty, closed) =
        laws.recv-none s.insert_tx tx (recv_limit mpsc batch_max w.buf) (omega arith) e in
      let taken = laws.recv-queued s.insert_tx tx (recv_limit mpsc batch_max w.buf) [] e in
      Flushed-IsSound mpsc laws batch_max rows refusals (failures + failed o) w.buf i.history
        (record s { insert_tx = tx }) _ true
        (ap (λ t. all_rows i.history ++ (w.buf ++ t)) (sym taken) ∙ i.order) i.dropped
        (λ h. (sym taken ∙ empty, laws.recv-is_closed s.insert_tx tx _ [] e ∙ closed))
        (flush-Flushed mpsc laws batch_max o w.buf i.history failures (record s { insert_tx = tx })
          (omega (arith, i.small)) (moved i.recorded (omega arith) tx))
  receive-IsSound rows refusals failures w s (row ∷ new) o tx i e =
      go (leb batch_max (length filled)) refl
    where
      filled : List Row
      filled = w.buf ++ (row ∷ new)

      order : all_rows i.history ++ (filled ++ queued tx) ≡ rows
      order =
          ap (λ t. all_rows i.history ++ t) (append_assoc w.buf (row ∷ new) (queued tx))
          ∙ ap (λ t. all_rows i.history ++ (w.buf ++ t))
              (sym
                (laws.recv-queued s.insert_tx tx (recv_limit mpsc batch_max w.buf) (row ∷ new) e))
          ∙ i.order

      size : length filled ≤ max batch_max 1
      size = omega (
        arith,
        length-append w.buf (row ∷ new),
        laws.recv-limit s.insert_tx tx (recv_limit mpsc batch_max w.buf) (row ∷ new) (omega arith)
            e,
        i.small,
      )

      go :
          (b : Bool)
          → leb batch_max (length filled) ≡ b
          → IsSound mpsc laws batch_max rows refusals
              (failures + failed o)
              (if b
                then with_buf mpsc false (flush mpsc o filled (record s { insert_tx = tx }))
                else (record { buf = filled; stopped = false }, record s { insert_tx = tx })).0
              (if b
                then with_buf mpsc false (flush mpsc o filled (record s { insert_tx = tx }))
                else (record { buf = filled; stopped = false }, record s { insert_tx = tx })).1
      go true q =
          Flushed-IsSound mpsc laws batch_max rows refusals (failures + failed o) filled i.history
            (record s { insert_tx = tx }) _ false order i.dropped (λ h. absurd (cc (h)))
            (flush-Flushed mpsc laws batch_max o filled i.history failures
              (record s { insert_tx = tx }) size (moved i.recorded (omega arith) tx))
      go false q = record {
        history = i.history;
        order = order;
        small = ground (arith, q);
        recorded = moved i.recorded (omega arith) tx;
        dropped = i.dropped;
        ended = λ h. absurd (cc (h));
      }

  tick-IsSound :
      (rows : List Row) (refusals failures : ℕ) (w : Writer mpsc) (s : Store mpsc)
      (o : FlushOutcome)
      → IsSound mpsc laws batch_max rows refusals failures w s
      → IsSound mpsc laws batch_max rows refusals
          (failures + failed o)
          (on_tick mpsc o w.buf s).0
          (on_tick mpsc o w.buf s).1
  unfolding on_tick
  tick-IsSound rows refusals failures w s o i =
      Flushed-IsSound mpsc laws batch_max rows refusals (failures + failed o) w.buf i.history s _
        false i.order i.dropped (λ h. absurd (cc (h)))
        (flush-Flushed mpsc laws batch_max o w.buf i.history failures s (omega (arith, i.small))
          i.recorded)

  -- In every run, with any number of producers, any batch limit and whatever the database does: the
  -- rows that try_insert_event accepted are, in this order, those of a sequence of flushed batches,
  -- those in the writer's buffer and those in the channel. The transactions of the pool are those of
  -- the batches, in order, without the batches for which none could begin; these are dropped, and
  -- there are at most as many as steps in which no transaction could begin. The buffer is below the limit and
  -- each batch has one row at least and the limit at most, which is one if `batch_max` is 0; the
  -- counters are the rows of committed transactions and the refusals, on 64 bits; and a writer that
  -- has returned left no row in the buffer or in the channel.
  pub Reach-IsSound :
      {channel_capacity refusals failures : ℕ} {rows : List Row} {w : Writer mpsc} {s : Store mpsc}
      → Reach mpsc channel_capacity batch_max rows refusals failures w s
      → IsSound mpsc laws batch_max rows refusals failures w s
  unfolding try_insert_event
  Reach-IsSound {channel_capacity} started = record {
    history = [];
    order = laws.new-queued channel_capacity;
    small = omega arith;
    recorded = record { pool = refl; few = omega arith; sized = tt; count = refl };
    dropped = refl;
    ended = λ h. absurd (cc (h));
  }
  Reach-IsSound (accepted {rows} {refusals} {failures} {w} {s} r row e) =
      inserted rows refusals failures w s row e (Reach-IsSound r)
  Reach-IsSound (refused {rows} {refusals} {failures} {w} {s} r row e) =
      inserted rows refusals failures w s row e (Reach-IsSound r)
  Reach-IsSound (received {rows} {refusals} {failures} {w} {w'} {s} {s'} {tx} r go new o got e) =
      subst
        (λ (x : Writer mpsc × Store mpsc).
          IsSound mpsc laws batch_max rows refusals (failures + failed o) x.0 x.1)
        e (receive-IsSound rows refusals failures w s new o tx (Reach-IsSound r) got)
  Reach-IsSound (ticked {rows} {refusals} {failures} {w} {w'} {s} {s'} r go o e) =
      subst
        (λ (x : Writer mpsc × Store mpsc).
          IsSound mpsc laws batch_max rows refusals (failures + failed o) x.0 x.1)
        e (tick-IsSound rows refusals failures w s o (Reach-IsSound r))
  Reach-IsSound (dropped {rows} {refusals} {failures} {w} {s} r) = close (Reach-IsSound r)
    where
      close :
          IsSound mpsc laws batch_max rows refusals failures w s
          → IsSound mpsc laws batch_max rows refusals failures w
              (record s { insert_tx = mpsc.drop_senders s.insert_tx })
      close i = record {
        history = i.history;
        order =
            ap (λ t. all_rows i.history ++ (w.buf ++ t)) (laws.drop_senders-queued s.insert_tx)
            ∙ i.order;
        recorded = moved i.recorded (omega arith) (mpsc.drop_senders s.insert_tx);
        small = i.small;
        dropped = i.dropped;
        ended = λ h.
            let (a, b, c) = i.ended h in
            (a, laws.drop_senders-queued s.insert_tx ∙ b, laws.drop_senders-is_closed s.insert_tx);
      }
