-- ===== src/Cot/Xml/Document.antt =====
-- The document that `encode_xml` writes, and its headers read back.
use tak_rs.Common.{
  ℕ, Bool, true, false, not, ◌&&◌, Option, none, some, List, [], ◌∷◌, ◌++◌, if◌then◌else◌, is_empty,
  Str, str, ◌≡◌, refl, arith, append_assoc, append-nil, All, All-append,
}
use Prim.Native.String.{String}
use mathlib.Core.Path.{ap, ◌∙◌, sym}
use tak_rs.Cot.{Error, Result, ok, err, ◌>>=◌, missing_event_attr}
use tak_rs.Cot.Framing.{Write, vec_writer}
use tak_rs.Cot.Xml.{
  EventAttrs, PointAttrs, no_event, no_point, set_event_attr, set_point_attr, is_key_byte,
  parse_event_attrs, parse_point_attrs, require_lat_lon, write_point, CotEventView, write_detail,
  encode_xml,
}
use tak_rs.Cot.Xml.Attrs.{IsKey, AllRendered, render_all, walk_attrs-render_all}
use tak_rs.Cot.Xml.Headers.{opt_attr, event_attrs, point_attrs, fold-event_attrs, fold-point_attrs}
use tak_rs.Cot.Xml.Written.{
  Writes, Writes-seq, Writes-same, Writes-text, Writes-event, Writes-point, AllPlain, event_text,
  point_text,
}

unfoldable pub AllKeys : List (Str × Str) → Type 0
AllKeys attrs = All (λ (kv : Str × Str). IsKey kv.0) attrs

pub AllRendered-of : (attrs : List (Str × Str)) → AllKeys attrs → AllPlain attrs → AllRendered attrs
unfolding AllKeys
AllRendered-of [] k p = tt
AllRendered-of ((key, value) ∷ attrs) k p = (k.0, (p.0, AllRendered-of attrs k.1 p.1))

opt_attr-AllKeys : (key : Str) (o : Option Str) → IsKey key → AllKeys (opt_attr key o)
unfolding AllKeys
opt_attr-AllKeys key none k = tt
opt_attr-AllKeys key (some v) k = (k, tt)

unfoldable pub all_key_bytes : Str → Bool
all_key_bytes [] = true
all_key_bytes (c ∷ s) = is_key_byte c && all_key_bytes s

-- A name in the source is a key by evaluation.
pub IsKey-by : (k : Str) → (not (is_empty k) && all_key_bytes k) ≡ true → IsKey k
unfolding all_key_bytes
IsKey-by [] h = absurd (cc (h))
IsKey-by (c ∷ s) h = (refl, bytes (c ∷ s) h)
  where
    bytes : (k : Str) → all_key_bytes k ≡ true → All (λ c. is_key_byte c ≡ true) k
    bytes [] h = tt
    bytes (c ∷ s) h = (ground (arith, h), bytes s (ground (arith, h)))

AllKeys-append : (xs ys : List (Str × Str)) → AllKeys xs → AllKeys ys → AllKeys (xs ++ ys)
unfolding AllKeys
AllKeys-append xs ys = All-append (λ (kv : Str × Str). IsKey kv.0) xs ys

-- Behind one attribute, and behind one that may be missing.
pub AllKeys-cons :
    (key : String) (value : Str) (attrs : List (Str × Str))
    → (not (is_empty (str key)) && all_key_bytes (str key)) ≡ true
    → AllKeys attrs
    → AllKeys ((str key, value) ∷ attrs)
unfolding AllKeys
AllKeys-cons key value attrs h a = (IsKey-by (str key) h, a)

AllKeys-opt :
    (key : String) (o : Option Str) (attrs : List (Str × Str))
    → (not (is_empty (str key)) && all_key_bytes (str key)) ≡ true
    → AllKeys attrs
    → AllKeys (opt_attr (str key) o ++ attrs)
AllKeys-opt key o attrs h a =
    AllKeys-append (opt_attr (str key) o) attrs
      (opt_attr-AllKeys (str key) o (IsKey-by (str key) h)) a

pub event_attrs-AllKeys : (e : EventAttrs) → AllKeys (event_attrs e)
unfolding all_key_bytes
event_attrs-AllKeys e = AllKeys-opt "version" _ _ refl (
    AllKeys-cons "uid" _ _ refl (
      AllKeys-cons "type" _ _ refl (
        AllKeys-cons "time" _ _ refl (
          AllKeys-cons "start" _ _ refl (
            AllKeys-cons "stale" _ _ refl (
              AllKeys-cons "how" _ _ refl (
                AllKeys-opt "access" _ _ refl (
                  AllKeys-opt "qos" _ _ refl (
                    AllKeys-opt "opex" _ _ refl (
                      AllKeys-opt "caveat" _ _ refl (
                        opt_attr-AllKeys (str "releaseableTo") e.releaseable_to
                          (IsKey-by (str "releaseableTo") refl))))))))))))

point_attrs-AllKeys : (q : PointAttrs) → AllKeys (point_attrs q)
unfolding AllKeys all_key_bytes
point_attrs-AllKeys q = (
  IsKey-by (str "lat") refl,
  (
    IsKey-by (str "lon") refl,
    (IsKey-by (str "hae") refl, (IsKey-by (str "ce") refl, (IsKey-by (str "le") refl, tt))),
  ),
)

-- The start tag of the event, and the empty tag of the point.
abbrev pub event_header : EventAttrs → Str
event_header e = str "<event" ++ (render_all (event_attrs e) ++ str ">")

abbrev pub point_header : PointAttrs → Str
point_header q = str "<point" ++ (render_all (point_attrs q) ++ str "/>")

pub event_header-back :
    (e : EventAttrs) → AllPlain (event_attrs e) → parse_event_attrs (event_header e) no_event ≡ ok e
unfolding parse_event_attrs
event_header-back e p =
    walk_attrs-render_all set_event_attr (str "event") (event_attrs e) b'>' [] no_event
      (refl, (refl, (refl, (refl, (refl, tt)))))
      (AllRendered-of (event_attrs e) (event_attrs-AllKeys e) p) refl
    ∙ fold-event_attrs e

pub point_header-back :
    (q : PointAttrs)
    → AllPlain (point_attrs q)
    → parse_point_attrs (point_header q) ≡ require_lat_lon q
unfolding parse_point_attrs
point_header-back q p =
    ap (λ r. r >>= require_lat_lon)
      (walk_attrs-render_all set_point_attr (str "point") (point_attrs q) b'/' (b'>' ∷ []) no_point
          (refl, (refl, (refl, (refl, (refl, tt)))))
          (AllRendered-of (point_attrs q) (point_attrs-AllKeys q) p) refl
        ∙ fold-point_attrs q)

abbrev pub opt_point_text : Option PointAttrs → Str
opt_point_text none = []
opt_point_text (some q) = point_text q

abbrev pub detail_text : Str → Str
detail_text [] = []
detail_text (c ∷ raw) = (c ∷ raw) ++ str "\n"

abbrev pub IsPlainPoint : Option PointAttrs → Type 0
IsPlainPoint none = Unit {0}
IsPlainPoint (some q) = AllPlain (point_attrs q)

-- The views that the encoder accepts: a uid, a type, and no value with one of the five characters.
pub record IsEncodable (view : CotEventView) : Type 0 where
  pub has_uid : is_empty view.event.uid ≡ false
  pub has_kind : is_empty view.event.kind ≡ false
  pub plain_event : AllPlain (event_attrs view.event)
  pub plain_point : IsPlainPoint view.point

abbrev pub document : CotEventView → Str
document view =
    str "<?xml version=\"1.0\" encoding=\"UTF-8\"?>\n"
    ++ (event_text view.event
        ++ (opt_point_text view.point
            ++ (str "  <detail>\n"
                ++ (detail_text view.detail.raw ++ (str "  </detail>\n" ++ str "</event>\n")))))

Writes-opt_point :
    (q : Option PointAttrs) → Writes (write_point vec_writer q) (IsPlainPoint q) (opt_point_text q)
unfolding write_point
Writes-opt_point none = record {
  appends = λ p out. ap (λ x. (ok tt, x)) (sym (append-nil out));
  demands = λ out w h. tt;
}
Writes-opt_point (some q) = Writes-point q

Writes-detail : (raw : Str) → Writes (write_detail vec_writer raw) (Unit {0}) (detail_text raw)
unfolding write_detail
Writes-detail [] = record {
  appends = λ p out. ap (λ x. (ok tt, x)) (sym (append-nil out));
  demands = λ out w h. tt;
}
Writes-detail (c ∷ raw) =
    Writes-same (Writes-seq (Writes-text (c ∷ raw)) (Writes-text (str "\n"))) (λ p. tt)
      (λ p. (tt, tt)) refl

-- A check before the action.
Writes-guard :
    {m : Write (List ℕ)} {P : Type 0} {text : Str} (b : Bool) (e : Error)
    → Writes m P text
    → Writes (λ w. if b then (err e, w) else m w) ((b ≡ false) × P) text
Writes-guard true e a = record {
  appends = λ p out. absurd (cc (p.0));
  demands = λ out w h. absurd (cc (ap (λ (r : Result (Unit {0}) × List ℕ). r.0) h));
}
Writes-guard false e a = record {
  appends = λ p out. a.appends p.1 out;
  demands = λ out w h. (refl, a.demands out w h);
}

-- `encode_xml` into a vector succeeds exactly for a view with a uid, a type and no value that needs
-- an escape, and then it appends the document.
pub encode_xml-Writes :
    (view : CotEventView) → Writes (encode_xml vec_writer view) (IsEncodable view) (document view)
unfolding encode_xml
encode_xml-Writes view =
    Writes-same
      (Writes-guard (is_empty view.event.uid) (missing_event_attr "uid") (
        Writes-guard (is_empty view.event.kind) (missing_event_attr "type") (
          Writes-seq
            (Writes-seq
              (Writes-seq
                (Writes-seq
                  (Writes-seq
                    (Writes-seq (Writes-text (str "<?xml version=\"1.0\" encoding=\"UTF-8\"?>\n"))
                      (Writes-event view.event))
                    (Writes-opt_point view.point))
                  (Writes-text (str "  <detail>\n")))
                (Writes-detail view.detail.raw))
              (Writes-text (str "  </detail>\n")))
            (Writes-text (str "</event>\n")))))
      (λ (u, (k, ((((((_, e), q), _), _), _), _))). record {
        has_uid = u;
        has_kind = k;
        plain_event = e;
        plain_point = q;
      })
      (λ v. (v.has_uid, (v.has_kind, ((((((tt, v.plain_event), v.plain_point), tt), tt), tt), tt))))
      (simp append_assoc)

abbrev pub PointBack : Option PointAttrs → Type 0
PointBack none = Unit {0}
PointBack (some q) = parse_point_attrs (point_header q) ≡ require_lat_lon q

-- Whenever `encode_xml` into a vector succeeds, the decoder's `parse_event_attrs` reads the start tag
-- of the event that stands in the document back to the view's event, and `parse_point_attrs` reads
-- the tag of the point back to the view's point, or reports that its `lat` or `lon` is empty.
pub encode_xml-back :
    (view : CotEventView) (out w : List ℕ)
    → encode_xml vec_writer view out ≡ (ok tt, w)
    → (w ≡ out ++ document view)
      × ((parse_event_attrs (event_header view.event) no_event ≡ ok view.event)
          × PointBack view.point)
encode_xml-back view out w h = (
  ap (λ (r : Result (Unit {0}) × List ℕ). r.1) (sym h ∙ written.appends v out),
  (event_header-back view.event v.plain_event, point view.point v.plain_point),
)
  where
    written : Writes (encode_xml vec_writer view) (IsEncodable view) (document view)
    written = encode_xml-Writes view

    v : IsEncodable view
    v = written.demands out w h

    point : (q : Option PointAttrs) → IsPlainPoint q → PointBack q
    point none p = tt
    point (some q) p = point_header-back q p
