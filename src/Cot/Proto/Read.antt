-- ===== src/Cot/Proto/Read.antt =====
-- From a view of a CoT event to a message: `view_to_takmessage` of crates/tak-cot/src/proto.rs.
use tak_rs.Common.{
  ℕ, Bool, true, false, Option, none, some, List, [], ◌∷◌, ◌++◌, ◌&&◌, ◌=?◌, ◌==◌, if◌then◌else◌,
  is_empty, Str, str, list_eq, nat_eq, ◌⊎◌, inl, inr,
}
use mathlib.Core.Option
use tak_rs.Cot.{Error, Result, ok, err, ◌>>=◌, missing_event_attr}
use tak_rs.Cot.Xml.{DetailChild, DetailView, CotEventView, PointAttrs, walk_attrs}
use tak_rs.Cot.Proto.{
  ℤ, pos, negsuc, Contact, Group, PrecisionLocation, Status, Takv, Track, Detail, TakMessage,
  Formats, default_detail,
}
use tak_rs.Cot.Proto.Decimal.{parse_u32}

-- Up to the first `>` and with it, or everything.
abbrev pub header_of : Str → Str
header_of [] = []
header_of (c ∷ s) = let rest = header_of s in if c == b'>' then c ∷ [] else c ∷ rest

unfoldable pub walk_child_attrs :
    {S : Type 0} → (Str → Str → S → Result S) → DetailChild → S → Result S
walk_child_attrs f child = walk_attrs f (header_of child.raw)

-- What a closure over two keys collects, and the message that `new` makes of it. `try_contact`,
-- `try_group`, `try_precision_location` and `try_track` differ in the keys and in the reading.
pub record TwoAttrs (A : Type 0) : Type 0 where
  pub first : Option A
  pub second : Option A
  pub has_extra : Bool

abbrev pub no_two : {A : Type 0} → TwoAttrs A
no_two = record { first = none; second = none; has_extra = false }

abbrev pub set_two :
    {A : Type 0} → Str → Str → (Str → Option A) → Str → Str → TwoAttrs A → Result (TwoAttrs A)
set_two key1 key2 read k v acc =
    if k =? key1
    then ok (record acc { first = read v })
    else if k =? key2
    then ok (record acc { second = read v })
    else ok (record acc { has_extra = true })

abbrev pub both : {A M : Type 0} → (A → A → M) → Option A → Option A → Option M
both new (some a) (some b) = some (new a b)
both new _ _ = none

abbrev pub finish_two : {A M : Type 0} → (A → A → M) → TwoAttrs A → Result (Option M)
finish_two new acc = ok (if acc.has_extra then none else both new acc.first acc.second)

unfoldable pub try_contact : DetailChild → Result (Option Contact)
unfolding walk_child_attrs
try_contact child =
    walk_child_attrs (set_two (str "endpoint") (str "callsign") some) child no_two
    >>= finish_two λ e c. record { endpoint = e; callsign = c }

unfoldable pub try_group : DetailChild → Result (Option Group)
unfolding walk_child_attrs
try_group child =
    walk_child_attrs (set_two (str "name") (str "role") some) child no_two
    >>= finish_two λ n r. record { name = n; role = r }

unfoldable pub try_precision_location : DetailChild → Result (Option PrecisionLocation)
unfolding walk_child_attrs
try_precision_location child =
    walk_child_attrs (set_two (str "geopointsrc") (str "altsrc") some) child no_two
    >>= finish_two λ g a. record { geopointsrc = g; altsrc = a }

pub record StatusAttrs : Type 0 where
  pub battery : Option ℕ
  pub has_extra : Bool

unfoldable pub set_status : Str → Str → StatusAttrs → Result StatusAttrs
set_status k v acc =
    if k =? str "battery"
    then ok (record acc { battery = parse_u32 v })
    else ok (record acc { has_extra = true })

abbrev pub finish_status : StatusAttrs → Result (Option Status)
finish_status acc =
    ok (if acc.has_extra then none else Option.map (λ b. record { battery = b }) acc.battery)

unfoldable pub try_status : DetailChild → Result (Option Status)
unfolding walk_child_attrs set_status
try_status child =
    walk_child_attrs set_status child (record { battery = none; has_extra = false })
    >>= finish_status

pub record TakvAttrs : Type 0 where
  pub device : Option Str
  pub platform : Option Str
  pub os : Option Str
  pub version : Option Str
  pub has_extra : Bool

unfoldable pub set_takv : Str → Str → TakvAttrs → Result TakvAttrs
set_takv k v acc =
    if k =? str "device"
    then ok (record acc { device = some v })
    else if k =? str "platform"
    then ok (record acc { platform = some v })
    else if k =? str "os"
    then ok (record acc { os = some v })
    else if k =? str "version"
    then ok (record acc { version = some v })
    else ok (record acc { has_extra = true })

abbrev pub all_four : Option Str → Option Str → Option Str → Option Str → Option Takv
all_four (some d) (some p) (some o) (some v) =
    some (record { device = d; platform = p; os = o; version = v })
all_four _ _ _ _ = none

abbrev pub finish_takv : TakvAttrs → Result (Option Takv)
finish_takv acc =
    ok (if acc.has_extra then none else all_four acc.device acc.platform acc.os acc.version)

abbrev pub no_takv : TakvAttrs
no_takv = record { device = none; platform = none; os = none; version = none; has_extra = false }

unfoldable pub try_takv : DetailChild → Result (Option Takv)
unfolding walk_child_attrs set_takv
try_takv child = walk_child_attrs set_takv child no_takv >>= finish_takv

-- The detail so far, and whether the child was consumed.
abbrev pub put :
    {F M : Type 0} → (M → Detail F → Detail F) → Detail F → Option M → Result (Detail F × Bool)
put set detail none = ok (detail, false)
put set detail (some m) = ok (set m detail, true)

abbrev pub is_none : {A : Type 0} → Option A → Bool
is_none none = true
is_none (some _) = false

abbrev pub or_else : {A : Type 0} → A → Option A → A
or_else a none = a
or_else a (some b) = b

-- The text that the second loop of `build_detail` has so far, with one more child.
unfoldable pub append_raw : Str → Str → Str
append_raw xml_detail raw = (if is_empty xml_detail then [] else xml_detail ++ str "\n") ++ raw

unfoldable pub join_opaque : List DetailChild → List Bool → Str → Str
unfolding append_raw
join_opaque (child ∷ children) (true ∷ consumed) xml_detail =
    join_opaque children consumed xml_detail
join_opaque (child ∷ children) (false ∷ consumed) xml_detail =
    join_opaque children consumed (append_raw xml_detail child.raw)
join_opaque _ _ xml_detail = xml_detail

module _ {F T : Type 0} (formats : Formats F T) where
  open formats use {zero_f64, f64_from_str, parse_timestamp, as_millisecond, string_of}

  unfoldable pub try_track : DetailChild → Result (Option (Track F))
  unfolding walk_child_attrs
  try_track child =
      walk_child_attrs (set_two (str "speed") (str "course") f64_from_str) child no_two
      >>= finish_two λ s c. record { speed = s; course = c }

  -- One round of the first loop of `build_detail`.
  unfoldable pub convert_child : DetailChild → Detail F → Result (Detail F × Bool)
  unfolding try_contact try_group try_precision_location try_status try_takv try_track
  convert_child child detail =
      if (child.name =? str "contact") && is_none detail.contact
      then try_contact child >>= put (λ c d. record d { contact = some c }) detail
      else if (child.name =? str "__group") && is_none detail.group
      then try_group child >>= put (λ g d. record d { group = some g }) detail
      else if (child.name =? str "precisionlocation") && is_none detail.precision_location
      then try_precision_location child
        >>= put (λ p d. record d { precision_location = some p }) detail
      else if (child.name =? str "status") && is_none detail.status
      then try_status child >>= put (λ s d. record d { status = some s }) detail
      else if (child.name =? str "takv") && is_none detail.takv
      then try_takv child >>= put (λ t d. record d { takv = some t }) detail
      else if (child.name =? str "track") && is_none detail.track
      then try_track child >>= put (λ t d. record d { track = some t }) detail
      else ok (detail, false)

  -- The loop, with `consumed` in the order of the children.
  unfoldable pub convert_children : List DetailChild → Detail F → Result (Detail F × List Bool)
  unfolding convert_child
  convert_children [] detail = ok (detail, [])
  convert_children (child ∷ children) detail = do
    (detail', flag) ← convert_child child detail
    (detail'', consumed) ← convert_children children detail'
    ok (detail'', flag ∷ consumed)

  unfoldable pub build_detail : DetailView → Result (Detail F)
  unfolding convert_children join_opaque
  build_detail view = do
    (detail, consumed) ← convert_children view.children default_detail
    ok (record detail { xml_detail = join_opaque view.children consumed [] })

  -- `u64::try_from`
  unfoldable pub millis_of : Str → ℤ → Result ℕ
  millis_of s (pos ms) = ok ms
  millis_of s (negsuc _) =
      err (Error.xml (string_of (str "timestamp `" ++ s ++ str "` predates epoch")))

  unfoldable pub timestamp_ms : Str → Str ⊎ T → Result ℕ
  unfolding millis_of
  timestamp_ms s (inl e) = err (Error.xml (string_of (str "timestamp `" ++ s ++ str "`: " ++ e)))
  timestamp_ms s (inr ts) = millis_of s (as_millisecond ts)

  unfoldable pub parse_iso8601_ms : Str → Result ℕ
  unfolding timestamp_ms
  parse_iso8601_ms s = timestamp_ms s (parse_timestamp s)

  abbrev pub parse_f64 : Str → F
  parse_f64 s = or_else zero_f64 (f64_from_str s)

  abbrev pub coordinate : (PointAttrs → Str) → Option PointAttrs → F
  coordinate field none = zero_f64
  coordinate field (some p) = parse_f64 (field p)

  unfoldable pub view_to_takmessage : CotEventView → Result (TakMessage F)
  unfolding parse_iso8601_ms build_detail
  view_to_takmessage view =
      if is_empty view.event.uid
      then err (missing_event_attr "uid")
      else if is_empty view.event.kind
      then err (missing_event_attr "type")
      else do
        send_time ← parse_iso8601_ms view.event.time
        start_time ← parse_iso8601_ms view.event.start
        stale_time ← parse_iso8601_ms view.event.stale
        detail ← build_detail view.detail
        ok (record {
          tak_control = none;
          cot_event = some (record {
            kind = view.event.kind;
            access = or_else [] view.event.access;
            qos = or_else [] view.event.qos;
            opex = or_else [] view.event.opex;
            caveat = or_else [] view.event.caveat;
            releaseable_to = or_else [] view.event.releaseable_to;
            uid = view.event.uid;
            send_time = send_time;
            start_time = start_time;
            stale_time = stale_time;
            how = view.event.how;
            lat = coordinate (λ p. p.lat) view.point;
            lon = coordinate (λ p. p.lon) view.point;
            hae = coordinate (λ p. p.hae) view.point;
            ce = coordinate (λ p. p.ce) view.point;
            le = coordinate (λ p. p.le) view.point;
            detail = some detail;
          });
          submission_time = 0;
          creation_time = 0;
        })
