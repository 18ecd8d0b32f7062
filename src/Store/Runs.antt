-- ===== src/Store/Runs.antt =====
-- The runs of the store of crates/tak-store/src/lib.rs: producers, the writer and its interval take
-- their steps in any order.
use tak_rs.Common.{ℕ, suc, ◌+◌, true, false, some, List, [], ◌∷◌, ◌++◌, ◌≡◌}
use tak_rs.Store.Channel.{Mpsc}
use tak_rs.Store.{
  FlushOutcome, begin_failed, Store, fresh_store, try_insert_event, Writer, fresh_writer,
  recv_limit, on_receive, on_tick,
}

-- One for a flush whose transaction does not begin.
abbrev pub failed : FlushOutcome → ℕ
failed begin_failed = 1
failed _ = 0

module _ {Row : Type 0} (mpsc : Mpsc Row) (channel_capacity batch_max : ℕ) where
  open mpsc use {Chan, recv_many, drop_senders}

  -- A writer and a store that a run leads to: the rows that were accepted so far, in order, and the
  -- number of those that were refused, and of the steps in which no transaction could begin.
  pub data Reach : List Row → ℕ → ℕ → Writer mpsc → Store mpsc → Type 0 where
    started : Reach [] 0 0 (fresh_writer mpsc) (fresh_store mpsc channel_capacity)
    accepted :
        {rows : List Row} {refusals failures : ℕ} {w : Writer mpsc} {s s' : Store mpsc}
        → Reach rows refusals failures w s
        → (row : Row) → try_insert_event mpsc row s ≡ (true, s')
        → Reach (rows ++ (row ∷ [])) refusals failures w s'
    refused :
        {rows : List Row} {refusals failures : ℕ} {w : Writer mpsc} {s s' : Store mpsc}
        → Reach rows refusals failures w s
        → (row : Row) → try_insert_event mpsc row s ≡ (false, s')
        → Reach rows (suc refusals) failures w s'
    received :
        {rows : List Row} {refusals failures : ℕ} {w w' : Writer mpsc} {s s' : Store mpsc}
        {tx : Chan}
        → Reach rows refusals failures w s
        → w.stopped ≡ false
        → (new : List Row) (outcome : FlushOutcome)
        → recv_many s.insert_tx (recv_limit mpsc batch_max w.buf) ≡ some (new, tx)
        → on_receive mpsc batch_max outcome new w.buf (record s { insert_tx = tx }) ≡ (w', s')
        → Reach rows refusals (failures + failed outcome) w' s'
    ticked :
        {rows : List Row} {refusals failures : ℕ} {w w' : Writer mpsc} {s s' : Store mpsc}
        → Reach rows refusals failures w s
        → w.stopped ≡ false
        → (outcome : FlushOutcome) → on_tick mpsc outcome w.buf s ≡ (w', s')
        → Reach rows refusals (failures + failed outcome) w' s'
    dropped :
        {rows : List Row} {refusals failures : ℕ} {w : Writer mpsc} {s : Store mpsc}
        → Reach rows refusals failures w s
        → Reach rows refusals failures w (record s { insert_tx = drop_senders s.insert_tx })
