-- ===== src/Cot/Proto/Write.antt =====
-- From a message to CoT XML: `takmessage_to_xml` of crates/tak-cot/src/proto.rs.
use tak_rs.Common.{
  ℕ, ◌^◌, Option, none, some, [], ◌∷◌, ◌++◌, if◌then◌else◌, ltb, Str, str, ◌⊎◌, inl, inr,
}
use tak_rs.Cot.{Error, Result, ok, err, panic, special_char_in_value}
use tak_rs.Cot.Framing.{Writer, Write, ◌>>◌}
use tak_rs.Cot.Xml.{find_special}
use tak_rs.Cot.Proto.{
  pos, Contact, Group, PrecisionLocation, Status, Takv, Track, Detail, CotEvent, TakMessage,
  Formats,
}
use tak_rs.Cot.Proto.Decimal.{display}

module _ {W : Type 0} (writer : Writer W) where
  open writer use {write_all}

  unfoldable pub write_str_attr : Str → Str → Write W
  write_str_attr key value w = elim (find_special value) [
    | some c ↦ (err (special_char_in_value c), w)
    | none ↦
        (write_all (str " ")
            >> write_all key
            >> write_all (str "=\"")
            >> write_all value
            >> write_all (str "\""))
          w
  ]

  unfoldable pub write_str_attr_opt : Str → Str → Write W
  unfolding write_str_attr
  write_str_attr_opt key [] w = (ok tt, w)
  write_str_attr_opt key (c ∷ value) w = write_str_attr key (c ∷ value) w

  -- `write!(out, " {key}=\"{value}\"")` for a number's text.
  unfoldable pub write_number : Str → Str → Write W
  write_number key value =
      write_all (str " ")
      >> write_all key
      >> write_all (str "=\"")
      >> write_all value
      >> write_all (str "\"")

  -- A time is formatted before its attribute is written.
  unfoldable pub write_formatted : Str → Result Str → Write W
  unfolding write_str_attr
  write_formatted key panic w = (panic, w)
  write_formatted key (err e) w = (err e, w)
  write_formatted key (ok value) w = write_str_attr key value w

  -- `if let Some(m) = …`
  abbrev pub write_some : {M : Type 0} → (M → Write W) → Option M → Write W
  write_some write none w = (ok tt, w)
  write_some write (some m) w = write m w

  unfoldable pub write_takv : Takv → Write W
  unfolding write_str_attr
  write_takv t =
      write_all (str "    <takv")
      >> write_str_attr (str "device") t.device
      >> write_str_attr (str "platform") t.platform
      >> write_str_attr (str "os") t.os
      >> write_str_attr (str "version") t.version
      >> write_all (str "/>\n")

  unfoldable pub write_contact : Contact → Write W
  unfolding write_str_attr
  write_contact c =
      write_all (str "    <contact")
      >> write_str_attr (str "endpoint") c.endpoint
      >> write_str_attr (str "callsign") c.callsign
      >> write_all (str "/>\n")

  unfoldable pub write_group : Group → Write W
  unfolding write_str_attr
  write_group g =
      write_all (str "    <__group")
      >> write_str_attr (str "name") g.name
      >> write_str_attr (str "role") g.role
      >> write_all (str "/>\n")

  unfoldable pub write_status : Status → Write W
  unfolding write_number
  write_status s =
      write_all (str "    <status")
      >> write_number (str "battery") (display s.battery)
      >> write_all (str "/>\n")

  unfoldable pub write_precision_location : PrecisionLocation → Write W
  unfolding write_str_attr
  write_precision_location p =
      write_all (str "    <precisionlocation")
      >> write_str_attr (str "geopointsrc") p.geopointsrc
      >> write_str_attr (str "altsrc") p.altsrc
      >> write_all (str "/>\n")

  unfoldable pub write_xml_detail : Str → Write W
  write_xml_detail [] w = (ok tt, w)
  write_xml_detail (c ∷ xml_detail) w =
      (write_all (str "    ") >> write_all (c ∷ xml_detail) >> write_all (str "\n")) w

module _ {F T : Type 0} (formats : Formats F T) where
  open formats use {from_millisecond, strftime, string_of}

  unfoldable pub format_timestamp : ℕ → Str ⊎ T → Result Str
  format_timestamp ms (inl e) =
      err
        (Error.xml (string_of (str "timestamp from_millisecond(" ++ display ms ++ str "): " ++ e)))
  format_timestamp ms (inr ts) = ok (strftime ts)

  -- `i64::try_from` comes first.
  unfoldable pub format_iso8601 : ℕ → Result Str
  unfolding format_timestamp
  format_iso8601 ms =
      if ltb ms (2 ^ 63)
      then format_timestamp ms (from_millisecond (pos ms))
      else err (Error.xml "timestamp overflow")

module _ {F T W : Type 0} (formats : Formats F T) (writer : Writer W) where
  open formats use {f64_display}
  open writer use {write_all}

  unfoldable pub write_f64_attr : Str → F → Write W
  unfolding write_number
  write_f64_attr key value = write_number writer key (f64_display value)

  unfoldable pub write_time : Str → ℕ → Write W
  unfolding write_formatted format_iso8601
  write_time key ms = write_formatted writer key (format_iso8601 formats ms)

  unfoldable pub write_track : Track F → Write W
  unfolding write_f64_attr
  write_track t =
      write_all (str "    <track")
      >> write_f64_attr (str "speed") t.speed
      >> write_f64_attr (str "course") t.course
      >> write_all (str "/>\n")

  unfoldable pub write_typed_subs : Detail F → Write W
  unfolding write_takv write_contact write_group write_status write_track write_precision_location
  write_typed_subs d =
      write_some writer (write_takv writer) d.takv
      >> write_some writer (write_contact writer) d.contact
      >> write_some writer (write_group writer) d.group
      >> write_some writer (write_status writer) d.status
      >> write_some writer write_track d.track
      >> write_some writer (write_precision_location writer) d.precision_location

  unfoldable pub write_detail : Detail F → Write W
  unfolding write_typed_subs write_xml_detail
  write_detail d = write_typed_subs d >> write_xml_detail writer d.xml_detail

  unfoldable pub write_cot_event : CotEvent F → Write W
  unfolding write_str_attr write_str_attr_opt write_time
  write_cot_event cot =
      write_all (str "<event")
      >> write_str_attr writer (str "version") (str "2.0")
      >> write_str_attr writer (str "uid") cot.uid
      >> write_str_attr writer (str "type") cot.kind
      >> write_time (str "time") cot.send_time
      >> write_time (str "start") cot.start_time
      >> write_time (str "stale") cot.stale_time
      >> write_str_attr writer (str "how") cot.how
      >> write_str_attr_opt writer (str "access") cot.access
      >> write_str_attr_opt writer (str "qos") cot.qos
      >> write_str_attr_opt writer (str "opex") cot.opex
      >> write_str_attr_opt writer (str "caveat") cot.caveat
      >> write_str_attr_opt writer (str "releaseableTo") cot.releaseable_to
      >> write_all (str ">\n")

  unfoldable pub write_cot_point : CotEvent F → Write W
  unfolding write_f64_attr
  write_cot_point cot =
      write_all (str "  <point")
      >> write_f64_attr (str "lat") cot.lat
      >> write_f64_attr (str "lon") cot.lon
      >> write_f64_attr (str "hae") cot.hae
      >> write_f64_attr (str "ce") cot.ce
      >> write_f64_attr (str "le") cot.le
      >> write_all (str "/>\n")

  unfoldable pub write_cot : Option (CotEvent F) → Write W
  unfolding write_cot_event write_cot_point write_detail
  write_cot none w = (err (Error.xml "TakMessage missing cot_event"), w)
  write_cot (some cot) w =
      (write_all (str "<?xml version=\"1.0\" encoding=\"UTF-8\"?>\n")
          >> write_cot_event cot
          >> write_cot_point cot
          >> write_all (str "  <detail>\n")
          >> write_some writer write_detail cot.detail
          >> write_all (str "  </detail>\n")
          >> write_all (str "</event>\n"))
        w

  unfoldable pub takmessage_to_xml : TakMessage F → Write W
  unfolding write_cot
  takmessage_to_xml msg = write_cot msg.cot_event
