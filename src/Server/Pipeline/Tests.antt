-- ===== src/Server/Pipeline/Tests.antt =====
-- The pipeline of crates/tak-server/src/pipeline.rs on the small platform.
use tak_rs.Common.{ℕ, none, some, List, [], str}
use tak_rs.Bus.Identity.{id_eq}
use tak_rs.Bus.Platform.Small.{small}
use tak_rs.Cot.Proto.{CotEvent, TakMessage}
use tak_rs.Store.Channel.Small.{small_mpsc}
use tak_rs.Store.{CotInsert, Store, fresh_store}
use tak_rs.Vopr.Model.Tests.{bus1}
use tak_rs.Server.Pipeline.{Dispatched}
use tak_rs.Server.Pipeline.Handled.{Handled}

abbrev pub event : CotEvent ℕ
event = record {
  kind = str "a-f";
  access = [];
  qos = [];
  opex = [];
  caveat = [];
  releaseable_to = [];
  uid = str "V1";
  send_time = 5;
  start_time = 5;
  stale_time = 9;
  how = str "m-g";
  lat = 0;
  lon = 0;
  hae = 0;
  ce = 0;
  le = 0;
  detail = none;
}

abbrev message : TakMessage ℕ
message = record {
  tak_control = none;
  cot_event = some event;
  submission_time = 0;
  creation_time = 0;
}

abbrev world : Dispatched small
world = record { scratch = []; bus = bus1; metrics = [] }

abbrev Rows : Type 0
Rows = CotInsert ℕ (List ℕ)

abbrev store : Store (small_mpsc {Row = Rows})
store = fresh_store small_mpsc 1
