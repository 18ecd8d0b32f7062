-- ===== src/Server/Pipeline.antt =====
-- crates/tak-server/src/pipeline.rs: a decoded message goes to the bus, and its row to the store.
pub mod Laws
pub mod Handled
pub mod Tests
use tak_rs.Common.{
  ℕ, ◌+◌, ◌-◌, ◌^◌, min, Bool, Option, none, some, List, [], ◌∷◌, ◌++◌, ◌==◌, if◌then◌else◌, ◌⊎◌,
  inl, inr,
}
use tak_rs.Bus.Groups.{GroupBitvector}
use tak_rs.Bus.TypeIndex.{Ids}
use tak_rs.Bus.Platform.{Platform}
use tak_rs.Bus.Filter.{Inbound}
use tak_rs.Bus.State.{Bus, DispatchStats}
use tak_rs.Bus.Dispatch.{dispatch}
use tak_rs.Cot.Proto.{Detail, CotEvent, TakMessage}
use tak_rs.Cot.Proto.Read.{or_else}
use tak_rs.Store.Channel.{Mpsc}
use tak_rs.Store.{CotInsert, Store, try_insert_event}

-- The counters of the `metrics` crate that the pipeline increments.
pub data Metric : Type 0 where
  delivered dropped_full dropped_closed filtered_groups filtered_geo : Metric

pub data PipelineError : Type 0 where
  missing_cot_event : PipelineError

abbrev pub increment : Metric → ℕ → List (Metric × ℕ)
increment metric n = if n == 0 then [] else (metric, n) ∷ []

-- `i64::try_from(ms).unwrap_or(i64::MAX)`
abbrev pub to_i64 : ℕ → ℕ
to_i64 ms = min ms (2 ^ 63 - 1)

module _ (p : Platform) where
  open p use {Float, Bytes}

  pub record PipelineStats : Type 0 where
    pub dispatch : DispatchStats p
    pub persisted : Bool

  -- The increments, in order.
  unfoldable pub record_dispatch_metrics : DispatchStats p → List (Metric × ℕ)
  record_dispatch_metrics stats =
      increment delivered stats.delivered
      ++ (increment dropped_full stats.dropped_full
          ++ (increment dropped_closed stats.dropped_closed
              ++ (increment filtered_groups stats.filtered_groups
                  ++ increment filtered_geo stats.filtered_geo)))

  abbrev pub inbound_of : CotEvent Float → GroupBitvector → Bytes → Inbound p
  inbound_of cot sender_groups payload = record {
    payload = payload;
    sender_groups = sender_groups;
    cot_type = cot.kind;
    lat = cot.lat;
    lon = cot.lon;
    uid = some cot.uid;
    callsign = none;
  }

  abbrev pub row_of : CotEvent Float → Bytes → CotInsert Float Bytes
  row_of cot payload = record {
    uid = cot.uid;
    cot_type = cot.kind;
    time_ms = to_i64 cot.send_time;
    start_ms = to_i64 cot.start_time;
    stale_ms = to_i64 cot.stale_time;
    how = cot.how;
    lat = cot.lat;
    lon = cot.lon;
    hae = cot.hae;
    ce = cot.ce;
    le = cot.le;
    detail = elim cot.detail [ none ↦ [] | some d ↦ d.xml_detail ];
    wire_bytes = payload;
  }

  -- What a call of the bus leaves: the scratch, the bus, and the increments so far.
  pub record Dispatched : Type 0 where
    pub scratch : Ids
    pub bus : Bus p
    pub metrics : List (Metric × ℕ)

  -- The bus's dispatch and its metrics.
  unfoldable pub dispatch_metered : Inbound p → Dispatched → DispatchStats p × Dispatched
  unfolding record_dispatch_metrics
  dispatch_metered inbound world =
      let (scratch, bus, stats) = dispatch p inbound world.scratch world.bus in
      (
        stats,
        record {
          scratch = scratch;
          bus = bus;
          metrics = world.metrics ++ record_dispatch_metrics stats;
        },
      )

  unfoldable pub dispatch_cot :
      Option (CotEvent Float)
      → GroupBitvector
      → Bytes
      → Dispatched
      → (PipelineError ⊎ DispatchStats p) × Dispatched
  unfolding dispatch_metered
  dispatch_cot none sender_groups payload world = (inl missing_cot_event, world)
  dispatch_cot (some cot) sender_groups payload world =
      let (stats, world') = dispatch_metered (inbound_of cot sender_groups payload) world in
      (inr stats, world')

  unfoldable pub dispatch_only :
      TakMessage Float
      → GroupBitvector
      → Bytes
      → Dispatched
      → (PipelineError ⊎ DispatchStats p) × Dispatched
  unfolding dispatch_cot
  dispatch_only msg = dispatch_cot msg.cot_event

  module _ (mpsc : Mpsc (CotInsert Float Bytes)) where
    unfoldable pub persist_cot :
        Option (CotEvent Float)
        → GroupBitvector
        → Bytes
        → Dispatched
        → Store mpsc
        → (PipelineError ⊎ PipelineStats) × Dispatched × Store mpsc
    unfolding dispatch_metered
    persist_cot none sender_groups payload world store = (inl missing_cot_event, world, store)
    persist_cot (some cot) sender_groups payload world store =
        let (stats, world') = dispatch_metered (inbound_of cot sender_groups payload) world in
        let (persisted, store') = try_insert_event mpsc (row_of cot payload) store in
        (inr (record { dispatch = stats; persisted = persisted }), world', store')

    unfoldable pub dispatch_and_persist :
        TakMessage Float
        → GroupBitvector
        → Bytes
        → Dispatched
        → Store mpsc
        → (PipelineError ⊎ PipelineStats) × Dispatched × Store mpsc
    unfolding persist_cot
    dispatch_and_persist msg = persist_cot msg.cot_event
