-- ===== src/Cot/Proto/Tests.antt =====
-- The bridge of crates/tak-cot/src/proto.rs at one message, with floats 0 and 1 and the epoch as
-- the one timestamp.
use tak_rs.Common.{
  ℕ, zero, suc, Bool, true, false, none, some, Option, List, [], ◌∷◌, ◌++◌, Str, str, ◌≡◌, refl,
  inl, inr, list_eqb, list_eq, nat_eq, arith, ap, ◌=?◌, if◌then◌else◌,
}
use tak_rs.Cot.{ok}
use tak_rs.Cot.Framing.{vec_writer}
use tak_rs.Cot.Xml.{
  DetailChild, DetailView, no_event, walk_attrs, parse_event_attrs, parse_point_attrs, find_special,
}
use tak_rs.Cot.Xml.Attrs.{IsPlain, find_special-IsPlain}
use tak_rs.Cot.Xml.Written.{AllPlain}
use mathlib.Core.Path.{subst}
use tak_rs.Cot.Proto.Typed.{contact_attrs}
use tak_rs.Cot.Xml.Document.{event_header, point_header}
use tak_rs.Cot.Proto.{pos, negsuc, Status, Detail, CotEvent, TakMessage, Formats, default_detail}
use tak_rs.Cot.Proto.Decimal.{display, digits, parse_u32, parse_u32-display}
use tak_rs.Cot.Proto.Laws.{FormatLaws}
use tak_rs.Cot.Proto.Read.{
  walk_child_attrs, try_contact, try_status, set_status, convert_child, append_raw, build_detail,
  view_to_takmessage,
}
use tak_rs.Cot.Proto.Write.{format_timestamp, format_iso8601, write_cot, takmessage_to_xml}
use tak_rs.Cot.Proto.Children.{IsPlainDetail, joined, typed_children}
use tak_rs.Cot.Proto.Lossless.{leftover, build_detail-again}
use tak_rs.Cot.Proto.Lines.{lines}
use tak_rs.Cot.Proto.Events.{event_of, point_of}
use tak_rs.Cot.Proto.Document.{cot_document}
use tak_rs.Cot.Proto.RoundTrip.{view_of, takmessage_to_xml-back}

f64_text : Bool → Str
f64_text true = str "1"
f64_text false = str "0"

f64_of : Str → Option Bool
f64_of s = if s =? str "1" then some true else if s =? str "0" then some false else none

abbrev epoch : Str
epoch = str "1970-01-01T00:00:00.000Z"

abbrev small_formats : Formats Bool (Unit {0})
small_formats = record {
  zero_f64 = false;
  f64_from_str = f64_of;
  f64_display = f64_text;
  parse_timestamp = λ s. inr tt;
  as_millisecond = λ ts. pos 0;
  from_millisecond = λ ms. elim ms [
    | pos n ↦ elim n [ zero ↦ inr tt | suc k ↦ inl (str "out of range") ]
    | negsuc n ↦ inl (str "out of range")
  ];
  strftime = λ ts. epoch;
  string_of = λ s. "";
}

small_laws : FormatLaws small_formats
unfolding f64_text f64_of find_special list_eqb
small_laws = record {
  display-IsPlain = plain;
  f64_from_str-display = back;
  f64_from_str-nil = refl;
  strftime-IsPlain = λ ts. find_special-IsPlain epoch refl;
  parse_timestamp-strftime = at_epoch;
}
  where
    plain : (x : Bool) → IsPlain (f64_text x)
    plain true = (refl, tt)
    plain false = (refl, tt)

    back : (x : Bool) → f64_of (f64_text x) ≡ some x
    back true = refl
    back false = refl

    at_epoch :
        (ms : ℕ) (ts : Unit {0})
        → small_formats.from_millisecond (pos ms) ≡ inr ts
        → (now : Unit {0}) × (small_formats.parse_timestamp epoch ≡ inr now) × (pos 0 ≡ pos ms)
    at_epoch zero ts h = (tt, refl, refl)
    at_epoch (suc k) ts h = absurd (cc (h))

abbrev chat : DetailChild
chat = record { name = str "__chat"; raw = str "<__chat/>" }

abbrev viper_detail : Detail Bool
viper_detail = record default_detail {
  xml_detail = str "<__chat/>";
  contact = some (record { endpoint = str "*:-1:stcp"; callsign = str "VIPER" });
  status = some (record { battery = 75 });
  track = some (record { speed = true; course = false });
}

abbrev viper : CotEvent Bool
viper = record {
  kind = str "a-f-G";
  access = [];
  qos = str "1-r-c";
  opex = [];
  caveat = [];
  releaseable_to = [];
  uid = str "V1";
  send_time = 0;
  start_time = 0;
  stale_time = 0;
  how = str "m-g";
  lat = true;
  lon = false;
  hae = false;
  ce = true;
  le = true;
  detail = some viper_detail;
}

abbrev message : TakMessage Bool
message = record {
  tak_control = none;
  cot_event = some viper;
  submission_time = 7;
  creation_time = 8;
}

battery_of : Option Status → ℕ
battery_of none = 0
battery_of (some s) = s.battery

message_sent :
    takmessage_to_xml small_formats vec_writer message []
    ≡ (ok tt, cot_document small_formats viper)
unfolding takmessage_to_xml write_cot lines f64_text display digits find_special format_iso8601
    format_timestamp
message_sent = refl

abbrev message_back : TakMessage Bool
message_back = record message { submission_time = 0; creation_time = 0 }

takmessage_to_xml-back_example :
    ([] ++ cot_document small_formats viper ≡ [] ++ cot_document small_formats viper)
    × (parse_event_attrs (event_header (event_of small_formats viper)) no_event
        ≡ ok (event_of small_formats viper))
    × (parse_point_attrs (point_header (point_of small_formats viper))
        ≡ ok (point_of small_formats viper))
    × (view_to_takmessage small_formats (
          view_of small_formats viper [] (typed_children small_formats viper_detail ++ (chat ∷ [])))
        ≡ ok message_back)
unfolding convert_child joined append_raw list_eqb battery_of
takmessage_to_xml-back_example =
    takmessage_to_xml-back small_formats small_laws message viper viper_detail (chat ∷ []) [] [] _
      refl refl refl refl (λ s h. omega (arith, ap battery_of h)) (refl, tt) refl message_sent

-- A detail with a contact, a second contact and an element that no converter knows.
abbrev view : DetailView
view = record {
  raw = [];
  children =
      record { name = str "contact"; raw = str "<contact callsign='C' endpoint='e'/>" }
      ∷ chat
      ∷ record { name = str "contact"; raw = str "<contact callsign='D' endpoint='f'/>" }
      ∷ [];
}

abbrev built : Detail Bool
built = record default_detail {
  xml_detail = str "<__chat/>\n<contact callsign='D' endpoint='f'/>";
  contact = some (record { endpoint = str "e"; callsign = str "C" });
}

view_built : build_detail small_formats view ≡ ok built
unfolding build_detail try_contact convert_child walk_child_attrs walk_attrs list_eqb append_raw
view_built = refl

built_plain : IsPlainDetail built
unfolding find_special
built_plain = record {
  plain_takv = λ t h. absurd (cc (h));
  plain_contact = λ c h.
      subst (λ c. AllPlain (contact_attrs c))
        {x = record { endpoint = str "e"; callsign = str "C" }} (cc (h))
        (find_special-IsPlain (str "e") refl, (find_special-IsPlain (str "C") refl, tt));
  plain_group = λ g h. absurd (cc (h));
  small_battery = λ s h. absurd (cc (h));
  plain_precision_location = λ q h. absurd (cc (h));
}

build_detail-again_example :
    (consumed : List Bool) × (build_detail small_formats (record {
      raw = [];
      children = typed_children small_formats built ++ leftover view.children consumed;
    })
      ≡ ok built)
build_detail-again_example =
    build_detail-again small_formats small_laws view built [] built_plain view_built

parse_u32-display_example : parse_u32 (display 4294967295) ≡ some 4294967295
parse_u32-display_example = parse_u32-display 4294967295 (omega arith)

-- An element whose value holds a `>` is cut there, and taken with what is left of the value.
test_cut :
    build_detail small_formats (record {
      raw = [];
      children =
          record { name = str "contact"; raw = str "<contact callsign='C' endpoint='a>b'/>" } ∷ [];
    })
    ≡ ok (record default_detail {
      contact = some (record { endpoint = str "a>"; callsign = str "C" });
    })
unfolding build_detail try_contact convert_child walk_child_attrs walk_attrs list_eqb
test_cut = refl

-- What stands inside an element is gone once its attributes are taken.
test_content :
    build_detail small_formats (record {
      raw = [];
      children =
          record { name = str "status"; raw = str "<status battery='75'><x/></status>" } ∷ [];
    })
    ≡ ok (record default_detail { status = some (record { battery = 75 }) })
unfolding build_detail try_status set_status convert_child walk_child_attrs walk_attrs list_eqb
    parse_u32
test_content = refl
