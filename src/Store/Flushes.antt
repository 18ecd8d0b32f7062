-- ===== src/Store/Flushes.antt =====
-- What a flush of crates/tak-store/src/lib.rs keeps of the rows and of the counters.
use tak_rs.Common.{
  ℕ, ◌+◌, ◌%◌, ◌^◌, ◌≤◌, ◌<◌, max, Bool, true, false, if◌then◌else◌, List, [], ◌∷◌, ◌++◌, length,
  All, All-append, append_assoc, append-nil, ◌≡◌, refl, ap, sym, ◌∙◌, arith,
}
use tak_rs.Store.Channel.{Mpsc, MpscLaws}
use tak_rs.Store.{
  FlushOutcome, begin_failed, commit_failed, committed, Transaction, Store, flush, Writer, with_buf,
}
use tak_rs.Store.Runs.{failed}

-- A batch that was flushed, and how that ended.
pub record Batch (Row : Type 0) : Type 0 where
  pub rows : List Row
  pub outcome : FlushOutcome

-- The rows of some batches, in order; the transactions of those for which one began; and the number
-- of the others.
abbrev pub all_rows : {Row : Type 0} → List (Batch Row) → List Row
all_rows [] = []
all_rows (b ∷ history) = b.rows ++ all_rows history

abbrev begun_of : {Row : Type 0} → FlushOutcome → List Row → List (Transaction Row)
begun_of begin_failed rows = []
begun_of commit_failed rows = record { rows = rows; is_committed = false } ∷ []
begun_of committed rows = record { rows = rows; is_committed = true } ∷ []

abbrev pub begun : {Row : Type 0} → List (Batch Row) → List (Transaction Row)
begun [] = []
begun (b ∷ history) = begun_of b.outcome b.rows ++ begun history

abbrev pub lost : {Row : Type 0} → List (Batch Row) → ℕ
lost [] = 0
lost (b ∷ history) = failed b.outcome + lost history

abbrev pub committed_rows : {Row : Type 0} → List (Transaction Row) → ℕ
committed_rows [] = 0
committed_rows (t ∷ pool) = (if t.is_committed then length t.rows else 0) + committed_rows pool

abbrev pub IsSized : {Row : Type 0} → ℕ → Batch Row → Type 0
IsSized batch_max b = (0 < length b.rows) × (length b.rows ≤ max batch_max 1)

all_rows-append :
    {Row : Type 0} (xs ys : List (Batch Row)) → all_rows (xs ++ ys) ≡ all_rows xs ++ all_rows ys
all_rows-append [] ys = refl
all_rows-append (x ∷ xs) ys =
    ap (λ t. x.rows ++ t) (all_rows-append xs ys)
    ∙ sym (append_assoc x.rows (all_rows xs) (all_rows ys))

begun-append : {Row : Type 0} (xs ys : List (Batch Row)) → begun (xs ++ ys) ≡ begun xs ++ begun ys
begun-append [] ys = refl
begun-append (x ∷ xs) ys =
    ap (λ t. begun_of x.outcome x.rows ++ t) (begun-append xs ys)
    ∙ sym (append_assoc (begun_of x.outcome x.rows) (begun xs) (begun ys))

lost-append : {Row : Type 0} (xs ys : List (Batch Row)) → lost (xs ++ ys) ≡ lost xs + lost ys
lost-append [] ys = omega arith
lost-append (x ∷ xs) ys = omega (arith, lost-append xs ys)

committed_rows-append :
    {Row : Type 0} (xs ys : List (Transaction Row))
    → committed_rows (xs ++ ys) ≡ committed_rows xs + committed_rows ys
committed_rows-append [] ys = omega arith
committed_rows-append (x ∷ xs) ys = omega (arith, committed_rows-append xs ys)

module _ {Row : Type 0} (mpsc : Mpsc Row) (laws : MpscLaws mpsc) (batch_max : ℕ) where
  open laws use {queued, is_closed}

  -- What the store has of the batches that were flushed: the transactions of all but those for which
  -- none could begin, which are as many as the failures at most.
  pub record IsRecorded (history : List (Batch Row)) (failures : ℕ) (s : Store mpsc) : Type 0 where
    pub pool : s.pool ≡ begun history
    pub few : lost history ≤ failures
    pub sized : All (IsSized batch_max) history
    pub count : s.inserted ≡ committed_rows s.pool % 2 ^ 64

  -- The invariant: the accepted rows are those of the flushed batches, of the buffer and of the
  -- channel, none doubled or reordered; no batch is empty or over the limit, the counters count, and
  -- a writer that has returned left nothing.
  pub record IsSound (rows : List Row) (refusals failures : ℕ) (w : Writer mpsc) (s : Store mpsc)
      : Type 0 where
    pub history : List (Batch Row)
    pub order : all_rows history ++ (w.buf ++ queued s.insert_tx) ≡ rows
    pub recorded : IsRecorded history failures s
    pub small : length w.buf < max batch_max 1
    pub dropped : s.dropped ≡ refusals % 2 ^ 64
    pub ended :
        w.stopped ≡ true → (w.buf ≡ []) × (queued s.insert_tx ≡ []) × (is_closed s.insert_tx ≡ true)

  -- What a flush does.
  pub record Flushed (buf : List Row) (h : List (Batch Row)) (failures : ℕ) (s : Store mpsc)
      (r : List Row × Store mpsc) : Type 0 where
    pub history : List (Batch Row)
    pub empty : r.0 ≡ []
    pub rows : all_rows history ≡ all_rows h ++ buf
    pub same_tx : r.1.insert_tx ≡ s.insert_tx
    pub same_dropped : r.1.dropped ≡ s.dropped
    pub recorded : IsRecorded history failures r.1

  module _ (h : List (Batch Row)) (failures : ℕ) (row : Row) (buf : List Row)
      (small : length (row ∷ buf) ≤ max batch_max 1) where
    -- The history with one batch more.
    with_batch : FlushOutcome → List (Batch Row)
    with_batch o = h ++ (record { rows = row ∷ buf; outcome = o } ∷ [])

    rows-with_batch : (o : FlushOutcome) → all_rows (with_batch o) ≡ all_rows h ++ (row ∷ buf)
    unfolding with_batch
    rows-with_batch o =
        all_rows-append h (record { rows = row ∷ buf; outcome = o } ∷ [])
        ∙ ap (λ t. all_rows h ++ (row ∷ t)) (append-nil buf)

    -- The store after it.
    Recorded-batch :
        (o : FlushOutcome) (s s' : Store mpsc)
        → IsRecorded h failures s
        → s'.pool ≡ s.pool ++ begun_of o (row ∷ buf)
        → s'.inserted ≡ (s.inserted + committed_rows (begun_of o (row ∷ buf))) % 2 ^ 64
        → IsRecorded (with_batch o) (failures + failed o) s'
    unfolding with_batch
    Recorded-batch o s s' c p n = record {
      pool =
          p
          ∙ ap (λ t. t ++ begun_of o (row ∷ buf)) c.pool
          ∙ ap (λ t. begun h ++ t) (sym (append-nil (begun_of o (row ∷ buf))))
          ∙ sym (begun-append h (record { rows = row ∷ buf; outcome = o } ∷ []));
      few = omega (arith, c.few, lost-append h (record { rows = row ∷ buf; outcome = o } ∷ []));
      sized = All-append (IsSized batch_max) h _ c.sized ((omega arith, small), tt);
      count = omega (
        arith,
        n,
        c.count,
        ap committed_rows p,
        committed_rows-append s.pool (begun_of o (row ∷ buf)),
      );
    }

  pub flush-Flushed :
      (o : FlushOutcome) (buf : List Row) (h : List (Batch Row)) (failures : ℕ) (s : Store mpsc)
      → length buf ≤ max batch_max 1
      → IsRecorded h failures s
      → Flushed buf h (failures + failed o) s (flush mpsc o buf s)
  unfolding flush
  flush-Flushed o [] h failures s small c = record {
    history = h;
    empty = refl;
    rows = sym (append-nil (all_rows h));
    same_tx = refl;
    same_dropped = refl;
    recorded = record {
      pool = c.pool;
      few = omega (arith, c.few);
      sized = c.sized;
      count = c.count;
    };
  }
  flush-Flushed begin_failed (row ∷ buf) h failures s small c = record {
    history = with_batch h failures row buf small begin_failed;
    empty = refl;
    rows = rows-with_batch h failures row buf small begin_failed;
    same_tx = refl;
    same_dropped = refl;
    recorded =
        Recorded-batch h failures row buf small begin_failed s s c (sym (append-nil s.pool))
          (omega (arith, c.count));
  }
  flush-Flushed commit_failed (row ∷ buf) h failures s small c = record {
    history = with_batch h failures row buf small commit_failed;
    empty = refl;
    rows = rows-with_batch h failures row buf small commit_failed;
    same_tx = refl;
    same_dropped = refl;
    recorded =
        Recorded-batch h failures row buf small commit_failed s _ c refl (omega (arith, c.count));
  }
  flush-Flushed committed (row ∷ buf) h failures s small c = record {
    history = with_batch h failures row buf small committed;
    empty = refl;
    rows = rows-with_batch h failures row buf small committed;
    same_tx = refl;
    same_dropped = refl;
    recorded =
        Recorded-batch h failures row buf small committed s _ c refl (omega (arith, c.count));
  }

  -- The writer goes on behind a flush.
  pub Flushed-IsSound :
      (rows : List Row) (refusals failures : ℕ) (buf : List Row) (h : List (Batch Row))
      (s : Store mpsc) (r : List Row × Store mpsc) (stop : Bool)
      → all_rows h ++ (buf ++ queued s.insert_tx) ≡ rows
      → s.dropped ≡ refusals % 2 ^ 64
      → (stop ≡ true → (queued s.insert_tx ≡ []) × (is_closed s.insert_tx ≡ true))
      → Flushed buf h failures s r
      → IsSound rows refusals failures (with_buf mpsc stop r).0 (with_buf mpsc stop r).1
  Flushed-IsSound rows refusals failures buf h s (buf', s') stop order d e f = record {
    history = f.history;
    order =
        ap (λ t. t ++ (buf' ++ queued s'.insert_tx)) f.rows
        ∙ append_assoc (all_rows h) buf (buf' ++ queued s'.insert_tx)
        ∙ ap (λ b. all_rows h ++ (buf ++ (b ++ queued s'.insert_tx))) f.empty
        ∙ ap (λ c. all_rows h ++ (buf ++ queued c)) f.same_tx
        ∙ order;
    recorded = f.recorded;
    small = rw f.empty (omega arith);
    dropped = f.same_dropped ∙ d;
    ended = λ h. (f.empty, ap queued f.same_tx ∙ (e h).0, ap is_closed f.same_tx ∙ (e h).1);
  }
