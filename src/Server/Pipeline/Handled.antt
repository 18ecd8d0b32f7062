-- ===== src/Server/Pipeline/Handled.antt =====
-- A message with an event in the pipeline of crates/tak-server/src/pipeline.rs: what the bus, the
-- metrics and the store have of it.
use tak_rs.Common.{
  ℕ, ◌+◌, ◌-◌, ◌%◌, ◌^◌, ltb, Bool, true, false, Option, none, some, [], ◌∷◌, ◌++◌, if◌then◌else◌,
  ◌⊎◌, inr, Str, ◌≡◌,
}
use mathlib.Core.Option
use tak_rs.Bus.Groups.{GroupBitvector}
use tak_rs.Bus.Identity.{SubscriptionId, id_eq}
use tak_rs.Bus.Platform.{Platform}
use tak_rs.Bus.Filter.{filter_matches}
use tak_rs.Bus.State.{Entry, entry_of}
use tak_rs.Bus.Registry.Invariant.{IsValid}
use tak_rs.Bus.Dispatch.{dispatch, offer}
use tak_rs.Cot.Proto.{Detail, CotEvent}
use tak_rs.Store.Channel.{Mpsc, MpscLaws}
use tak_rs.Store.{CotInsert, Store}
use tak_rs.Server.Pipeline.{Metric, PipelineError, PipelineStats, inbound_of, Dispatched}
use tak_rs.Server.Pipeline.Laws.{amount, counter_of}

-- A time as an `i64`.
abbrev pub clamped : ℕ → ℕ
clamped ms = if ltb ms (2 ^ 63) then ms else 2 ^ 63 - 1

abbrev pub detail_text : {F : Type 0} → Option (Detail F) → Str
detail_text none = []
detail_text (some d) = d.xml_detail

-- The row of an event, field by field.
pub record IsRowOf {F B : Type 0} (cot : CotEvent F) (payload : B) (row : CotInsert F B)
    : Type 0 where
  pub uid : row.uid ≡ cot.uid
  pub cot_type : row.cot_type ≡ cot.kind
  pub time_ms : row.time_ms ≡ clamped cot.send_time
  pub start_ms : row.start_ms ≡ clamped cot.start_time
  pub stale_ms : row.stale_ms ≡ clamped cot.stale_time
  pub how : row.how ≡ cot.how
  pub lat : row.lat ≡ cot.lat
  pub lon : row.lon ≡ cot.lon
  pub hae : row.hae ≡ cot.hae
  pub ce : row.ce ≡ cot.ce
  pub le : row.le ≡ cot.le
  pub detail : row.detail ≡ detail_text cot.detail
  pub wire_bytes : row.wire_bytes ≡ payload

module _ (p : Platform) (mpsc : Mpsc (CotInsert p.Float p.Bytes)) (store_laws : MpscLaws mpsc) where
  open p use {Float, Bytes}
  open store_laws use {queued, is_closed}

  -- A store that was offered one row.
  pub record Offered (row : CotInsert Float Bytes) (store : Store mpsc) (r : Bool × Store mpsc)
      : Type 0 where
    pub queue :
        queued r.1.insert_tx
        ≡ (if r.0 then queued store.insert_tx ++ (row ∷ []) else queued store.insert_tx)
    pub refused_if_closed : is_closed store.insert_tx ≡ true → r.0 ≡ false
    pub dropped : r.1.dropped ≡ (if r.0 then store.dropped else (store.dropped + 1) % 2 ^ 64)
    pub same_pool : r.1.pool ≡ store.pool
    pub same_inserted : r.1.inserted ≡ store.inserted

  module _ (sender_groups : GroupBitvector) (payload : Bytes) (cot : CotEvent Float)
      (world : Dispatched p) (store : Store mpsc) where
    -- What an event does to the subscriptions, the metrics and the store.
    pub record Handled (r : (PipelineError ⊎ PipelineStats p) × Dispatched p × Store mpsc)
        : Type 0 where
      pub stats : PipelineStats p
      pub answer : r.0 ≡ inr stats
      pub valid : IsValid p r.1.bus
      pub offered :
          (id : SubscriptionId)
          → entry_of p r.1.bus.subs id
            ≡ Option.map
                (λ (e : Entry p).
                  if filter_matches p e.filter (inbound_of p cot sender_groups payload)
                  then offer p payload e
                  else e)
                (entry_of p world.bus.subs id)
      pub counted :
          (m : Metric)
          → amount m r.1.metrics ≡ amount m world.metrics + counter_of p m stats.dispatch
      pub row : CotInsert Float Bytes
      pub row_of_event : IsRowOf cot payload row
      pub persisted : Offered row store (stats.persisted, r.2)
