-- ===== src/Cot/Xml/Tests.antt =====
-- The codec of crates/tak-cot/src/xml.rs at one event: encoder, attribute walk and decoder.
use tak_rs.Common.{ℕ, none, some, [], ◌∷◌, ◌++◌, Str, str, ◌≡◌, refl, list_eqb}
use tak_rs.Cot.{ok}
use tak_rs.Cot.Framing.{vec_writer}
use tak_rs.Cot.Xml.{
  CotEventView, no_event, set_event_attr, walk_attrs, parse_event_attrs, encode_xml, write_event,
  write_attr, write_opt, write_point, write_detail, find_special,
}
use tak_rs.Cot.Xml.{parse_point_attrs, set_point_attr, require_lat_lon}
use tak_rs.Cot.Xml.Decode.{
  XmlEvent, Token, Events, start_tag, empty_tag, end_tag, other, decode_xml, decode_event, at_start,
  at_empty, at_end, end_child, slice_of, element_name, finish_decoding,
}
use tak_rs.Cot.Xml.Complete.{IsComplete, decode_xml-IsComplete}
use tak_rs.Cot.Xml.Written.{Writes}
use tak_rs.Cot.Xml.Document.{
  IsEncodable, document, event_header, PointBack, encode_xml-Writes, encode_xml-back,
}

abbrev viper : CotEventView
viper = record {
  event = record no_event {
    version = some (str "2.0");
    uid = str "V1";
    kind = str "a-f-G";
    how = str "m-g";
  };
  point = some (record { lat = str "1"; lon = str "2"; hae = str "0"; ce = str "9"; le = str "9" });
  detail = record { raw = str "<a/>"; children = [] };
}

-- Both quotes, blanks around the sign, and a key that nobody asks for.
test_walk :
    parse_event_attrs (str "<event  uid = 'V1' x=\"7\" how=\"m\">") no_event
    ≡ ok (record no_event { uid = str "V1"; how = str "m" })
unfolding parse_event_attrs walk_attrs set_event_attr list_eqb
test_walk = refl

encode_xml-Writes_example :
    Writes (encode_xml vec_writer viper) (IsEncodable viper) (document viper)
encode_xml-Writes_example = encode_xml-Writes viper

viper_encoded : encode_xml vec_writer viper [] ≡ (ok tt, document viper)
unfolding encode_xml write_event write_attr write_opt write_point write_detail find_special
viper_encoded = refl

encode_xml-back_example :
    ([] ++ document viper ≡ [] ++ document viper)
    × ((parse_event_attrs (event_header viper.event) no_event ≡ ok viper.event)
        × PointBack viper.point)
encode_xml-back_example = encode_xml-back viper [] (document viper) viper_encoded

abbrev token : XmlEvent → ℕ → ℕ → Token
token event from to = record { event = event; pos_before = from; pos_after = to }

-- What the reader reports for the document.
abbrev viper_events : Str → Events
viper_events input = record {
  tokens =
      token other 0 38
      ∷ token other 38 39
      ∷ token start_tag 39 118
      ∷ token other 118 121
      ∷ token empty_tag 121 167
      ∷ token other 167 170
      ∷ token start_tag 170 178
      ∷ token other 178 179
      ∷ token empty_tag 179 183
      ∷ token other 183 186
      ∷ token end_tag 186 195
      ∷ token other 195 196
      ∷ token end_tag 196 204
      ∷ token other 204 205
      ∷ [];
  failure = none;
}

abbrev viper_decoded : CotEventView
viper_decoded = record viper {
  detail = record { raw = str "<a/>"; children = record { name = str "a"; raw = str "<a/>" } ∷ [] };
}

test_decode_xml : decode_xml viper_events (document viper) ≡ ok viper_decoded
unfolding decode_xml decode_event at_start at_empty at_end end_child slice_of element_name
    finish_decoding parse_event_attrs parse_point_attrs set_event_attr set_point_attr
    require_lat_lon walk_attrs list_eqb
test_decode_xml = refl

decode_xml-IsComplete_example : IsComplete viper_decoded
decode_xml-IsComplete_example =
    decode_xml-IsComplete viper_events (document viper) viper_decoded test_decode_xml
