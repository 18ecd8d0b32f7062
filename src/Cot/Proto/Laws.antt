-- ===== src/Cot/Proto/Laws.antt =====
-- What crates/tak-cot/src/proto.rs relies on in the texts of `f64` and of jiff's timestamps.
use tak_rs.Common.{ℕ, some, none, [], ◌≡◌, inr}
use tak_rs.Cot.Xml.Attrs.{IsPlain}
use tak_rs.Cot.Proto.{pos, Formats}

-- The text of a float or of a time has no character that XML escapes, the text of a float is read
-- back (all NaN taken as one), the empty text is no float, and the text of a time in whole
-- milliseconds is read back.
pub record FormatLaws {F T : Type 0} (formats : Formats F T) : Type 0 where
  pub display-IsPlain : (x : F) → IsPlain (formats.f64_display x)
  pub f64_from_str-display : (x : F) → formats.f64_from_str (formats.f64_display x) ≡ some x
  pub f64_from_str-nil : formats.f64_from_str [] ≡ none
  pub strftime-IsPlain : (ts : T) → IsPlain (formats.strftime ts)
  pub parse_timestamp-strftime :
      (ms : ℕ) (ts : T)
      → formats.from_millisecond (pos ms) ≡ inr ts
      → (back : T) × (formats.parse_timestamp (formats.strftime ts) ≡ inr back)
        × (formats.as_millisecond back ≡ pos ms)
