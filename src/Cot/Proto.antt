-- ===== src/Cot/Proto.antt =====
-- crates/tak-cot/src/proto.rs: the messages that prost generates from crates/tak-proto/proto, and
-- what the bridge between XML and protobuf takes from outside. Text is its UTF-8 bytes.
pub mod Decimal
pub mod Read
pub mod Write
pub mod Laws
pub mod Typed
pub mod Children
pub mod Round
pub mod Lossless
pub mod Lines
pub mod Events
pub mod Document
pub mod RoundTrip
mod Tests
use Prim.Native.String.{String}
use tak_rs.Common.{ℕ, Option, none, [], Str, ◌⊎◌}

-- `i64`
pub data ℤ : Type 0 where
  pos : ℕ → ℤ
  negsuc : ℕ → ℤ

pub record Contact : Type 0 where
  pub endpoint : Str
  pub callsign : Str

pub record Group : Type 0 where
  pub name : Str
  pub role : Str

pub record PrecisionLocation : Type 0 where
  pub geopointsrc : Str
  pub altsrc : Str

pub record Status : Type 0 where
  pub battery : ℕ

pub record Takv : Type 0 where
  pub device : Str
  pub platform : Str
  pub os : Str
  pub version : Str

pub record Track (F : Type 0) : Type 0 where
  pub speed : F
  pub course : F

pub record Detail (F : Type 0) : Type 0 where
  pub xml_detail : Str
  pub contact : Option Contact
  pub group : Option Group
  pub precision_location : Option PrecisionLocation
  pub status : Option Status
  pub takv : Option Takv
  pub track : Option (Track F)

-- `r#type` is `kind`.
pub record CotEvent (F : Type 0) : Type 0 where
  pub kind : Str
  pub access : Str
  pub qos : Str
  pub opex : Str
  pub caveat : Str
  pub releaseable_to : Str
  pub uid : Str
  pub send_time : ℕ
  pub start_time : ℕ
  pub stale_time : ℕ
  pub how : Str
  pub lat : F
  pub lon : F
  pub hae : F
  pub ce : F
  pub le : F
  pub detail : Option (Detail F)

pub record TakControl : Type 0 where
  pub min_proto_version : ℕ
  pub max_proto_version : ℕ

pub record TakMessage (F : Type 0) : Type 0 where
  pub tak_control : Option TakControl
  pub cot_event : Option (CotEvent F)
  pub submission_time : ℕ
  pub creation_time : ℕ

-- `f64` and its texts, and `jiff::Timestamp`, whose errors are their texts; `string_of` is the
-- string of UTF-8 bytes.
pub record Formats (F T : Type 0) : Type 0 where
  pub zero_f64 : F
  pub f64_from_str : Str → Option F
  pub f64_display : F → Str
  pub parse_timestamp : Str → Str ⊎ T
  pub as_millisecond : T → ℤ
  pub from_millisecond : ℤ → Str ⊎ T
  pub strftime : T → Str
  pub string_of : Str → String

-- `Detail::default()`
abbrev pub default_detail : {F : Type 0} → Detail F
default_detail = record {
  xml_detail = [];
  contact = none;
  group = none;
  precision_location = none;
  status = none;
  takv = none;
  track = none;
}
