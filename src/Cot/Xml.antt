-- ===== src/Cot/Xml.antt =====
-- crates/tak-cot/src/xml.rs: the views of a CoT event, the walk over the attributes of an element
-- header, and the encoder. Text is its UTF-8 bytes, and every cut is at an ASCII byte.
pub mod Attrs
pub mod Headers
pub mod Written
pub mod Document
pub mod Decode
pub mod Complete
mod Tests
use Prim.Native.String.{String}
use tak_rs.Common.{
  ℕ, zero, suc, Bool, true, false, not, ◌&&◌, ◌||◌, Option, none, some, List, [], ◌∷◌, ◌++◌, ◌==◌,
  ◌=?◌, if◌then◌else◌, length, is_empty, Str, str, list_eq, nat_eq,
}
use tak_rs.Cot.{
  Error, Result, ok, err, panic, ◌>>=◌, entity_not_supported, missing_event_attr,
  missing_point_attr, special_char_in_value,
}
use tak_rs.Cot.Framing.{Writer, Write, ◌>>◌, and_then}

pub record EventAttrs : Type 0 where
  pub version : Option Str
  pub uid : Str
  pub kind : Str
  pub time : Str
  pub start : Str
  pub stale : Str
  pub how : Str
  pub access : Option Str
  pub qos : Option Str
  pub opex : Option Str
  pub caveat : Option Str
  pub releaseable_to : Option Str

pub record PointAttrs : Type 0 where
  pub lat : Str
  pub lon : Str
  pub hae : Str
  pub ce : Str
  pub le : Str

pub record DetailChild : Type 0 where
  pub name : Str
  pub raw : Str

pub record DetailView : Type 0 where
  pub raw : Str
  pub children : List DetailChild

pub record CotEventView : Type 0 where
  pub event : EventAttrs
  pub point : Option PointAttrs
  pub detail : DetailView

abbrev pub no_event : EventAttrs
no_event = record {
  version = none;
  uid = [];
  kind = [];
  time = [];
  start = [];
  stale = [];
  how = [];
  access = none;
  qos = none;
  opex = none;
  caveat = none;
  releaseable_to = none;
}

abbrev pub no_point : PointAttrs
no_point = record { lat = []; lon = []; hae = []; ce = []; le = [] }

abbrev pub is_ws : ℕ → Bool
is_ws c = c == b' ' || c == b'\t' || c == b'\n' || c == b'\r'

abbrev pub is_name_break : ℕ → Bool
is_name_break b = is_ws b || b == b'>' || b == b'/'

-- A byte of a key, and what is skipped behind the key.
abbrev pub is_key_byte : ℕ → Bool
is_key_byte b = not (b == b'=' || is_name_break b)

abbrev pub is_key_gap : ℕ → Bool
is_key_gap b = b == b'=' || is_ws b

-- A loop that moves the index while the test holds: what it passes, and what is behind.
abbrev pub take_while : (ℕ → Bool) → Str → Str
take_while p [] = []
take_while p (c ∷ s) = let rest = take_while p s in if p c then c ∷ rest else []

abbrev pub drop_while : (ℕ → Bool) → Str → Str
drop_while p [] = []
drop_while p (c ∷ s) = let rest = drop_while p s in if p c then rest else c ∷ s

-- The quoted value up to the closing quote, or to the end, and what is behind the quote.
unfoldable pub read_value : ℕ → Str → Result (Str × Str)
read_value quote [] = ok ([], [])
read_value quote (b ∷ s) =
    let rest = read_value quote s in
    if b == quote
    then ok ([], s)
    else if b == b'&'
    then err entity_not_supported
    else (do (value, behind) ← rest; ok (b ∷ value, behind))

module _ {S : Type 0} (f : Str → Str → S → Result S) where
  -- One attribute behind its key; `next` is the rest of the loop.
  unfoldable pub walk_value : (Str → S → Result S) → Str → Str → S → Result S
  walk_value next key [] st = ok st
  walk_value next key (quote ∷ s) st =
      if not (quote == b'"' || quote == b'\'')
      then err (Error.xml "attribute value must be quoted")
      else do (value, rest) ← read_value quote s; st' ← f key value st; next rest st'

  -- The loop of `walk_attrs`; each round that goes on takes a byte of the key.
  unfoldable pub walk_loop : ℕ → Str → S → Result S
  unfolding walk_value read_value
  walk_loop zero s st = ok st
  walk_loop (suc n) s st =
      let attr = drop_while is_ws s in
      let key = take_while is_key_byte attr in
      if is_empty key
      then ok st
      else walk_value (walk_loop n) key (drop_while is_key_gap (drop_while is_key_byte attr)) st

  abbrev pub skip_lt : Str → Str
  skip_lt [] = []
  skip_lt (b ∷ s) = if b == b'<' then s else b ∷ s

  unfoldable pub walk_attrs : Str → S → Result S
  unfolding walk_loop
  walk_attrs header =
      walk_loop (length header) (drop_while (λ b. not (is_name_break b)) (skip_lt header))

-- The closure of `parse_event_attrs`.
unfoldable pub set_event_attr : Str → Str → EventAttrs → Result EventAttrs
set_event_attr key value out =
    if key =? str "version"
    then ok (record out { version = some value })
    else if key =? str "uid"
    then ok (record out { uid = value })
    else if key =? str "type"
    then ok (record out { kind = value })
    else if key =? str "time"
    then ok (record out { time = value })
    else if key =? str "start"
    then ok (record out { start = value })
    else if key =? str "stale"
    then ok (record out { stale = value })
    else if key =? str "how"
    then ok (record out { how = value })
    else if key =? str "access"
    then ok (record out { access = some value })
    else if key =? str "qos"
    then ok (record out { qos = some value })
    else if key =? str "opex"
    then ok (record out { opex = some value })
    else if key =? str "caveat"
    then ok (record out { caveat = some value })
    else if key =? str "releaseableTo"
    then ok (record out { releaseable_to = some value })
    else ok out

unfoldable pub parse_event_attrs : Str → EventAttrs → Result EventAttrs
unfolding set_event_attr
parse_event_attrs = walk_attrs set_event_attr

unfoldable pub set_point_attr : Str → Str → PointAttrs → Result PointAttrs
set_point_attr key value out =
    if key =? str "lat"
    then ok (record out { lat = value })
    else if key =? str "lon"
    then ok (record out { lon = value })
    else if key =? str "hae"
    then ok (record out { hae = value })
    else if key =? str "ce"
    then ok (record out { ce = value })
    else if key =? str "le"
    then ok (record out { le = value })
    else ok out

unfoldable pub require_lat_lon : PointAttrs → Result PointAttrs
require_lat_lon out =
    if is_empty out.lat
    then err (missing_point_attr "lat")
    else if is_empty out.lon
    then err (missing_point_attr "lon")
    else ok out

unfoldable pub parse_point_attrs : Str → Result PointAttrs
unfolding set_point_attr require_lat_lon
parse_point_attrs header = walk_attrs set_point_attr header no_point >>= require_lat_lon

-- The first character that `write_attr` refuses.
abbrev pub is_special : ℕ → Bool
is_special c = c == b'<' || c == b'>' || c == b'&' || c == b'"' || c == b'\''

unfoldable pub find_special : Str → Option ℕ
find_special [] = none
find_special (c ∷ s) = let rest = find_special s in if is_special c then some c else rest

module _ {W : Type 0} (writer : Writer W) where
  open writer use {write_all}

  unfoldable pub write_attr : Str → Str → Write W
  write_attr key value w = elim (find_special value) [
    | some c ↦ (err (special_char_in_value c), w)
    | none ↦
        (write_all (str " ")
            >> write_all key
            >> write_all (str "=\"")
            >> write_all value
            >> write_all (str "\""))
          w
  ]

  -- `if let Some(v) = value { write_attr(out, key, v)?; }`
  unfoldable pub write_opt : Str → Option Str → Write W
  unfolding write_attr
  write_opt key none w = (ok tt, w)
  write_opt key (some value) w = write_attr key value w

  unfoldable pub write_event : EventAttrs → Write W
  unfolding write_attr write_opt
  write_event e =
      write_all (str "<event")
      >> write_opt (str "version") e.version
      >> write_attr (str "uid") e.uid
      >> write_attr (str "type") e.kind
      >> write_attr (str "time") e.time
      >> write_attr (str "start") e.start
      >> write_attr (str "stale") e.stale
      >> write_attr (str "how") e.how
      >> write_opt (str "access") e.access
      >> write_opt (str "qos") e.qos
      >> write_opt (str "opex") e.opex
      >> write_opt (str "caveat") e.caveat
      >> write_opt (str "releaseableTo") e.releaseable_to
      >> write_all (str ">\n")

  unfoldable pub write_point : Option PointAttrs → Write W
  unfolding write_attr
  write_point none w = (ok tt, w)
  write_point (some q) w =
      (write_all (str "  <point")
          >> write_attr (str "lat") q.lat
          >> write_attr (str "lon") q.lon
          >> write_attr (str "hae") q.hae
          >> write_attr (str "ce") q.ce
          >> write_attr (str "le") q.le
          >> write_all (str "/>\n"))
        w

  unfoldable pub write_detail : Str → Write W
  write_detail [] w = (ok tt, w)
  write_detail (c ∷ raw) w = (write_all (c ∷ raw) >> write_all (str "\n")) w

  unfoldable pub encode_xml : CotEventView → Write W
  unfolding write_event write_point write_detail
  encode_xml view w =
      if is_empty view.event.uid
      then (err (missing_event_attr "uid"), w)
      else if is_empty view.event.kind
      then (err (missing_event_attr "type"), w)
      else (write_all (str "<?xml version=\"1.0\" encoding=\"UTF-8\"?>\n")
            >> write_event view.event
            >> write_point view.point
            >> write_all (str "  <detail>\n")
            >> write_detail view.detail.raw
            >> write_all (str "  </detail>\n")
            >> write_all (str "</event>\n"))
          w
