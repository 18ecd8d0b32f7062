-- ===== src/Bus/Filter.antt =====
-- `Filter`, `GeoBbox` and `Inbound` of crates/tak-bus/src, and when a filter takes a message:
-- `filter_matches` of crates/tak-bus-vopr/src/model.rs.
use tak_rs.Common.{Bool, true, false, not, ◌&&◌, Option, none, some, if◌then◌else◌, Str}
use tak_rs.Bus.Groups.{GroupBitvector, intersects}
use tak_rs.Bus.TypeIndex.Pattern.{type_prefix_matches}
use tak_rs.Bus.Platform.{Platform}

module _ (p : Platform) where
  open p use {Float, le_float, Bytes}

  pub record GeoBbox : Type 0 where
    pub min_lat : Float
    pub min_lon : Float
    pub max_lat : Float
    pub max_lon : Float

  unfoldable pub contains : GeoBbox → Float → Float → Bool
  contains b lat lon =
      le_float b.min_lat lat
      && le_float lat b.max_lat
      && le_float b.min_lon lon
      && le_float lon b.max_lon

  pub record Filter : Type 0 where
    pub interest_uid : Option Str
    pub interest_callsign : Option Str
    pub group_mask : GroupBitvector
    pub type_prefix : Option Str
    pub geo_bbox : Option GeoBbox

  pub record Inbound : Type 0 where
    pub payload : Bytes
    pub sender_groups : GroupBitvector
    pub cot_type : Str
    pub lat : Float
    pub lon : Float
    pub uid : Option Str
    pub callsign : Option Str

  abbrev pub bbox_accepts : Option GeoBbox → Float → Float → Bool
  bbox_accepts none lat lon = true
  bbox_accepts (some bbox) lat lon = contains bbox lat lon

  unfoldable pub filter_matches : Filter → Inbound → Bool
  filter_matches filter inbound =
      if not (type_prefix_matches filter.type_prefix inbound.cot_type)
      then false
      else if not (intersects filter.group_mask inbound.sender_groups)
      then false
      else if not (bbox_accepts filter.geo_bbox inbound.lat inbound.lon)
      then false
      else true
