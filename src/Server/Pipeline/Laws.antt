-- ===== src/Server/Pipeline/Laws.antt =====
-- The pipeline of crates/tak-server/src/pipeline.rs with the bus and the store that it calls.
use tak_rs.Common.{
  ℕ, ◌+◌, Bool, true, false, Option, none, some, List, [], ◌∷◌, ◌++◌, if◌then◌else◌, ◌⊎◌, inl, inr,
  ◌≡◌, refl, ◌∙◌, arith,
}
use tak_rs.Bus.Groups.{GroupBitvector}
use tak_rs.Bus.Platform.{Platform, Sent, sent, full, closed}
use tak_rs.Bus.State.{DispatchStats}
use tak_rs.Cot.Proto.{CotEvent, TakMessage}
use tak_rs.Store.Channel.{Mpsc}
use tak_rs.Store.{CotInsert, Store}
use tak_rs.Server.Pipeline.{
  Metric, delivered, dropped_full, dropped_closed, filtered_groups, filtered_geo, PipelineError,
  increment, PipelineStats, record_dispatch_metrics, Dispatched, dispatch_cot, dispatch_only,
  persist_cot, dispatch_and_persist,
}

abbrev same_metric : Metric → Metric → Bool
same_metric delivered delivered = true
same_metric dropped_full dropped_full = true
same_metric dropped_closed dropped_closed = true
same_metric filtered_groups filtered_groups = true
same_metric filtered_geo filtered_geo = true
same_metric _ _ = false

-- What a log of increments adds to one metric.
abbrev pub amount : Metric → List (Metric × ℕ) → ℕ
amount m [] = 0
amount m ((metric, n) ∷ log) = (if same_metric m metric then n else 0) + amount m log

pub amount-append :
    (m : Metric) (xs ys : List (Metric × ℕ)) → amount m (xs ++ ys) ≡ amount m xs + amount m ys
amount-append m [] ys = omega arith
amount-append m ((metric, n) ∷ xs) ys = omega (arith, amount-append m xs ys)

amount-increment :
    (m metric : Metric) (n : ℕ)
    → amount m (increment metric n) ≡ (if same_metric m metric then n else 0)
amount-increment m metric n = ground arith

-- The metric that counts an answer of a channel.
abbrev pub metric_of : Sent → Metric
metric_of sent = delivered
metric_of full = dropped_full
metric_of closed = dropped_closed

module _ (p : Platform) where
  open p use {Float, Bytes}

  -- The counter of a dispatch that a metric sums up.
  abbrev pub counter_of : Metric → DispatchStats p → ℕ
  counter_of delivered st = st.delivered
  counter_of dropped_full st = st.dropped_full
  counter_of dropped_closed st = st.dropped_closed
  counter_of filtered_groups st = st.filtered_groups
  counter_of filtered_geo st = st.filtered_geo

  pub amount-record_dispatch_metrics :
      (m : Metric) (st : DispatchStats p)
      → amount m (record_dispatch_metrics p st) ≡ counter_of m st
  unfolding record_dispatch_metrics
  amount-record_dispatch_metrics m st = parts m ∙ whole m
    where
      parts :
          (m : Metric)
          → amount m (record_dispatch_metrics p st)
            ≡ (if same_metric m delivered then st.delivered else 0)
              + (if same_metric m dropped_full then st.dropped_full else 0)
              + (if same_metric m dropped_closed then st.dropped_closed else 0)
              + (if same_metric m filtered_groups then st.filtered_groups else 0)
              + (if same_metric m filtered_geo then st.filtered_geo else 0)
      parts m = omega (
        arith,
        amount-increment m delivered st.delivered,
        amount-increment m dropped_full st.dropped_full,
        amount-increment m dropped_closed st.dropped_closed,
        amount-increment m filtered_groups st.filtered_groups,
        amount-increment m filtered_geo st.filtered_geo,
        amount-append m (increment delivered st.delivered) _,
        amount-append m (increment dropped_full st.dropped_full) _,
        amount-append m (increment dropped_closed st.dropped_closed) _,
        amount-append m (increment filtered_groups st.filtered_groups)
            (increment filtered_geo st.filtered_geo),
      )

      whole :
          (m : Metric)
          → (if same_metric m delivered then st.delivered else 0)
              + (if same_metric m dropped_full then st.dropped_full else 0)
              + (if same_metric m dropped_closed then st.dropped_closed else 0)
              + (if same_metric m filtered_groups then st.filtered_groups else 0)
              + (if same_metric m filtered_geo then st.filtered_geo else 0)
            ≡ counter_of m st
      whole delivered = omega arith
      whole dropped_full = omega arith
      whole dropped_closed = omega arith
      whole filtered_groups = omega arith
      whole filtered_geo = omega arith

  -- The dispatch's counters without the store's answer.
  abbrev pub without_store : PipelineError ⊎ PipelineStats p → PipelineError ⊎ DispatchStats p
  without_store (inl e) = inl e
  without_store (inr stats) = inr stats.dispatch

  module _ (mpsc : Mpsc (CotInsert Float Bytes)) (sender_groups : GroupBitvector)
      (payload : Bytes) where
    -- The store has no part in the fan-out: whatever its state, dispatch_and_persist leaves the
    -- bus, the scratch and the metrics as dispatch_only does, and reports the same counters or the
    -- same error.
    pub dispatch_and_persist-dispatch_only :
        (msg : TakMessage Float) (world : Dispatched p) (store : Store mpsc)
        → (without_store (dispatch_and_persist p mpsc msg sender_groups payload world store).0
            ≡ (dispatch_only p msg sender_groups payload world).0)
          × ((dispatch_and_persist p mpsc msg sender_groups payload world store).1
              ≡ (dispatch_only p msg sender_groups payload world).1)
    unfolding dispatch_and_persist dispatch_only persist_cot dispatch_cot
    dispatch_and_persist-dispatch_only msg world store = go msg.cot_event
      where
        go :
            (o : Option (CotEvent Float))
            → (without_store (persist_cot p mpsc o sender_groups payload world store).0
                ≡ (dispatch_cot p o sender_groups payload world).0)
              × ((persist_cot p mpsc o sender_groups payload world store).1
                  ≡ (dispatch_cot p o sender_groups payload world).1)
        go none = (refl, refl)
        go (some cot) = (refl, refl)
