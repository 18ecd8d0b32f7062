-- ===== src/Cot/Proto/Typed.antt =====
-- The elements of the typed sub-messages of crates/tak-cot/src/proto.rs, read back one by one.
use tak_rs.Common.{
  not, ◌&&◌, ℕ, ◌<◌, ◌^◌, Bool, true, false, some, List, [], ◌∷◌, ◌++◌, ◌==◌, Str, str, ◌≡◌, refl,
  ap, ◌∙◌, arith, All, All-append, list_eqb, Option, ◌=?◌, list_eq, nat_eq, eqb_refl,
}
use tak_rs.Cot.{Result, ok, ◌>>=◌}
use tak_rs.Cot.Xml.{DetailChild, is_name_break}
use tak_rs.Cot.Xml.Attrs.{
  IsPlain, IsKey, IsName, AllRendered, rendered, render_all, fold_attrs, walk_attrs-render_all,
}
use tak_rs.Cot.Xml.Written.{AllPlain}
use tak_rs.Cot.Xml.Document.{IsKey-by, AllRendered-of, AllKeys, all_key_bytes}
use tak_rs.Cot.Proto.{Contact, Group, PrecisionLocation, Status, Takv, Track, Formats}
use tak_rs.Cot.Proto.Decimal.{display, parse_u32-display, display-IsPlain}
use tak_rs.Cot.Proto.Laws.{FormatLaws}
use tak_rs.Cot.Proto.Read.{
  header_of, walk_child_attrs, set_two, no_two, finish_two, try_contact, try_group,
  try_precision_location, set_status, finish_status, try_status, set_takv, no_takv, finish_takv,
  try_takv, try_track,
}

abbrev NoGt : Str → Type 0
NoGt s = All (λ c. (c == b'>') ≡ false) s

header_of-append : (s t : Str) → NoGt s → header_of (s ++ t) ≡ s ++ header_of t
header_of-append [] t h = refl
header_of-append (c ∷ s) t h = rw (h.0, header_of-append s t h.1) refl

All-imp : {P Q : ℕ → Type 0} (s : Str) → ((c : ℕ) → P c → Q c) → All P s → All Q s
All-imp [] f h = tt
All-imp (c ∷ s) f h = (f c h.0, All-imp s f h.1)

append-NoGt : (s t : Str) → NoGt s → NoGt t → NoGt (s ++ t)
append-NoGt s t = All-append (λ c. (c == b'>') ≡ false) s t

rendered-NoGt : (key value : Str) → IsKey key → IsPlain value → NoGt (rendered key value)
rendered-NoGt key value k v = (
  refl,
  append-NoGt key (b'=' ∷ b'"' ∷ (value ++ (b'"' ∷ [])))
      (All-imp key (λ c h. ground (arith, h)) k.1)
      (
        refl,
        (
          refl,
          append-NoGt value (b'"' ∷ []) (All-imp value (λ c h. ground (arith, h)) v) (refl, tt),
        ),
      ),
)

render_all-NoGt : (attrs : List (Str × Str)) → AllRendered attrs → NoGt (render_all attrs)
render_all-NoGt [] a = tt
render_all-NoGt ((key, value) ∷ attrs) a =
    append-NoGt (rendered key value) (render_all attrs) (rendered-NoGt key value a.0 a.1.0)
      (render_all-NoGt attrs a.1.1)

-- The element with these attributes, as the writer closes it.
abbrev pub element : Str → List (Str × Str) → DetailChild
element name attrs = record {
  name = name;
  raw = b'<' ∷ (name ++ (render_all attrs ++ (b'/' ∷ b'>' ∷ [])));
}

header_of-element :
    (name : Str) (attrs : List (Str × Str))
    → IsName name
    → AllRendered attrs
    → header_of (element name attrs).raw ≡ (element name attrs).raw
header_of-element name attrs n a =
    ap (λ t. b'<' ∷ t)
      (header_of-append name (render_all attrs ++ (b'/' ∷ b'>' ∷ []))
          (All-imp name (λ c h. ground (arith, h)) n)
        ∙ ap (λ t. name ++ t)
            (header_of-append (render_all attrs) (b'/' ∷ b'>' ∷ []) (render_all-NoGt attrs a)))

-- The closure is called for each attribute of the element, in order.
walk_child_attrs-element :
    {S : Type 0} (f : Str → Str → S → Result S) (name : Str) (attrs : List (Str × Str)) (st : S)
    → IsName name
    → AllKeys attrs
    → AllPlain attrs
    → walk_child_attrs f (element name attrs) st ≡ fold_attrs f attrs st
unfolding walk_child_attrs
walk_child_attrs-element f name attrs st n k p =
    rw (header_of-element name attrs n (AllRendered-of attrs k p))
      (walk_attrs-render_all f name attrs b'/' (b'>' ∷ []) st n (AllRendered-of attrs k p) refl)

all_name_bytes : Str → Bool
all_name_bytes [] = true
all_name_bytes (c ∷ s) = not (is_name_break c) && all_name_bytes s

-- A name in the source is one by evaluation.
IsName-by : (s : Str) → all_name_bytes s ≡ true → IsName s
unfolding all_name_bytes
IsName-by [] h = tt
IsName-by (c ∷ s) h = (ground (arith, h), IsName-by s (ground (arith, h)))

-- The attributes and the element of each sub-message.
abbrev pub contact_attrs : Contact → List (Str × Str)
contact_attrs c = (str "endpoint", c.endpoint) ∷ (str "callsign", c.callsign) ∷ []

abbrev pub group_attrs : Group → List (Str × Str)
group_attrs g = (str "name", g.name) ∷ (str "role", g.role) ∷ []

abbrev pub precision_location_attrs : PrecisionLocation → List (Str × Str)
precision_location_attrs p = (str "geopointsrc", p.geopointsrc) ∷ (str "altsrc", p.altsrc) ∷ []

abbrev pub status_attrs : Status → List (Str × Str)
status_attrs s = (str "battery", display s.battery) ∷ []

abbrev pub takv_attrs : Takv → List (Str × Str)
takv_attrs t =
    (str "device", t.device)
    ∷ (str "platform", t.platform)
    ∷ (str "os", t.os)
    ∷ (str "version", t.version)
    ∷ []

-- Two attributes that the converter asks for are taken.
two_back :
    {A M : Type 0} (name key1 key2 v1 v2 : Str) (read : Str → Option A) (new : A → A → M) (a b : A)
    → IsName name
    → IsKey key1
    → IsKey key2
    → IsPlain v1
    → IsPlain v2
    → (key2 =? key1) ≡ false
    → read v1 ≡ some a
    → read v2 ≡ some b
    → (walk_child_attrs
          (set_two key1 key2 read)
          (element name ((key1, v1) ∷ (key2, v2) ∷ []))
          no_two
        >>= finish_two new)
      ≡ ok (some (new a b))
unfolding AllKeys
two_back name key1 key2 v1 v2 read new a b n k1 k2 p1 p2 e r1 r2 =
    ap (λ r. r >>= finish_two new)
      (walk_child_attrs-element (set_two key1 key2 read) name ((key1, v1) ∷ (key2, v2) ∷ []) no_two
        n (k1, (k2, tt)) (p1, (p2, tt)))
    ∙ rw (eqb_refl key1, eqb_refl key2, e, r1, r2) refl

pub try_contact-back :
    (c : Contact)
    → AllPlain (contact_attrs c)
    → try_contact (element (str "contact") (contact_attrs c)) ≡ ok (some c)
unfolding try_contact list_eqb all_key_bytes all_name_bytes
try_contact-back c p =
    two_back (str "contact") (str "endpoint") (str "callsign") c.endpoint c.callsign some
      (λ e c. record { endpoint = e; callsign = c }) c.endpoint c.callsign
      (refl, (refl, (refl, (refl, (refl, (refl, (refl, tt))))))) (IsKey-by (str "endpoint") refl)
      (IsKey-by (str "callsign") refl) p.0 p.1.0 refl refl refl

pub try_group-back :
    (g : Group)
    → AllPlain (group_attrs g)
    → try_group (element (str "__group") (group_attrs g)) ≡ ok (some g)
unfolding try_group list_eqb all_key_bytes all_name_bytes
try_group-back g p =
    two_back (str "__group") (str "name") (str "role") g.name g.role some
      (λ n r. record { name = n; role = r }) g.name g.role
      (refl, (refl, (refl, (refl, (refl, (refl, (refl, tt))))))) (IsKey-by (str "name") refl)
      (IsKey-by (str "role") refl) p.0 p.1.0 refl refl refl

pub try_status-back :
    (s : Status)
    → s.battery < 2 ^ 32
    → try_status (element (str "status") (status_attrs s)) ≡ ok (some s)
unfolding try_status set_status list_eqb all_key_bytes all_name_bytes AllKeys
try_status-back s h =
    ap (λ r. r >>= finish_status)
      (walk_child_attrs-element set_status (str "status") (status_attrs s) _
        (IsName-by (str "status") refl) (IsKey-by (str "battery") refl, tt)
        (display-IsPlain s.battery, tt))
    ∙ rw (parse_u32-display s.battery h) refl

pub try_takv-back :
    (t : Takv)
    → AllPlain (takv_attrs t)
    → try_takv (element (str "takv") (takv_attrs t)) ≡ ok (some t)
unfolding try_takv set_takv list_eqb all_key_bytes all_name_bytes AllKeys
try_takv-back t p =
    ap (λ r. r >>= finish_takv)
      (walk_child_attrs-element set_takv (str "takv") (takv_attrs t) no_takv
        (IsName-by (str "takv") refl)
        (
          IsKey-by (str "device") refl,
          (
            IsKey-by (str "platform") refl,
            (IsKey-by (str "os") refl, (IsKey-by (str "version") refl, tt)),
          ),
        )
        p)

pub try_precision_location-back :
    (p : PrecisionLocation)
    → AllPlain (precision_location_attrs p)
    → try_precision_location (element (str "precisionlocation") (precision_location_attrs p))
      ≡ ok (some p)
unfolding try_precision_location list_eqb all_key_bytes all_name_bytes
try_precision_location-back p h =
    two_back (str "precisionlocation") (str "geopointsrc") (str "altsrc") p.geopointsrc p.altsrc
      some (λ g a. record { geopointsrc = g; altsrc = a }) p.geopointsrc p.altsrc
      (IsName-by (str "precisionlocation") refl) (IsKey-by (str "geopointsrc") refl)
      (IsKey-by (str "altsrc") refl) h.0 h.1.0 refl refl refl

module _ {F T : Type 0} (formats : Formats F T) where
  open formats use {f64_display}

  abbrev pub track_attrs : Track F → List (Str × Str)
  track_attrs t = (str "speed", f64_display t.speed) ∷ (str "course", f64_display t.course) ∷ []

  pub try_track-back :
      FormatLaws formats
      → (t : Track F) → try_track formats (element (str "track") (track_attrs t)) ≡ ok (some t)
  unfolding try_track list_eqb all_key_bytes all_name_bytes
  try_track-back laws t =
      two_back (str "track") (str "speed") (str "course") (f64_display t.speed)
        (f64_display t.course) formats.f64_from_str (λ s c. record { speed = s; course = c })
        t.speed t.course (IsName-by (str "track") refl) (IsKey-by (str "speed") refl)
        (IsKey-by (str "course") refl) (laws.display-IsPlain t.speed)
        (laws.display-IsPlain t.course) refl (laws.f64_from_str-display t.speed)
        (laws.f64_from_str-display t.course)
