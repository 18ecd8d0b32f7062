-- ===== src/Cot/Proto/RoundTrip.antt =====
-- The round trip that crates/tak-cot/src/proto.rs promises: a message written as XML and read back.
use tak_rs.Common.{
  ℕ, ◌<◌, ◌^◌, Bool, true, false, Option, some, none, List, [], ◌∷◌, ◌++◌, Str, str, ◌≡◌, refl, ap,
  sym, ◌∙◌, ◌⊎◌, inl, inr, All, All-append, is_empty, ltb, if◌then◌else◌,
}
use mathlib.Core.Path.{subst}
use tak_rs.Cot.{Error, Result, ok, err}
use tak_rs.Cot.Framing.{vec_writer}
use tak_rs.Cot.Xml.{
  DetailChild, CotEventView, no_event, parse_event_attrs, parse_point_attrs, require_lat_lon,
}
use tak_rs.Cot.Xml.Attrs.{IsPlain}
use tak_rs.Cot.Xml.Headers.{opt_attr, event_attrs, point_attrs}
use tak_rs.Cot.Xml.Written.{Writes, AllPlain}
use tak_rs.Cot.Xml.Document.{event_header, point_header, event_header-back, point_header-back}
use tak_rs.Cot.Proto.{pos, Status, Detail, CotEvent, TakMessage, Formats}
use tak_rs.Cot.Proto.Laws.{FormatLaws}
use tak_rs.Cot.Proto.Read.{
  or_else, timestamp_ms, millis_of, parse_iso8601_ms, build_detail, view_to_takmessage,
}
use tak_rs.Cot.Proto.Write.{format_iso8601, format_timestamp, write_cot, takmessage_to_xml}
use tak_rs.Cot.Proto.Children.{IsPlainDetail, IsOpaque, joined, typed_children, build_detail-typed}
use tak_rs.Cot.Proto.Lines.{OnSome, IsPlainSubs}
use tak_rs.Cot.Proto.Events.{opt_text, text_of, event_of, point_of, IsPlainCot}
use tak_rs.Cot.Proto.Document.{IsSendable, cot_document, write_cot-Writes}

opt_text-AllPlain : (key value : Str) → IsPlain value → AllPlain (opt_attr key (opt_text value))
opt_text-AllPlain key [] p = tt
opt_text-AllPlain key (c ∷ value) p = (p, tt)

or_else-opt_text : (s : Str) → or_else [] (opt_text s) ≡ s
or_else-opt_text [] = refl
or_else-opt_text (c ∷ s) = refl

AllPlain-append : (xs ys : List (Str × Str)) → AllPlain xs → AllPlain ys → AllPlain (xs ++ ys)
AllPlain-append = All-append (λ (kv : Str × Str). IsPlain kv.1)

OnSome-at : {M : Type 0} (P : M → Type 0) (o : Option M) (m : M) → OnSome P o → o ≡ some m → P m
OnSome-at P o m p e = subst (OnSome P) e p

module _ {F T : Type 0} (formats : Formats F T) where
  event_of-AllPlain :
      (cot : CotEvent F) → IsPlainCot formats cot → AllPlain (event_attrs (event_of formats cot))
  event_of-AllPlain cot p = (
    (refl, (refl, (refl, tt))),
    (
      p.uid,
      (
        p.kind,
        (
          p.time.plain,
          (
            p.start.plain,
            (
              p.stale.plain,
              (
                p.how,
                AllPlain-append (opt_attr (str "access") (opt_text cot.access)) _
                    (opt_text-AllPlain (str "access") cot.access p.access)
                    (AllPlain-append (opt_attr (str "qos") (opt_text cot.qos)) _
                      (opt_text-AllPlain (str "qos") cot.qos p.qos)
                      (AllPlain-append (opt_attr (str "opex") (opt_text cot.opex)) _
                        (opt_text-AllPlain (str "opex") cot.opex p.opex)
                        (AllPlain-append (opt_attr (str "caveat") (opt_text cot.caveat)) _
                          (opt_text-AllPlain (str "caveat") cot.caveat p.caveat)
                          (opt_text-AllPlain (str "releaseableTo") cot.releaseable_to
                            p.releaseable_to)))),
              ),
            ),
          ),
        ),
      ),
    ),
  )

  -- A time that has a text is read back from it.
  time_back :
      FormatLaws formats
      → (ms : ℕ) (text : Str) → format_iso8601 formats ms ≡ ok text
      → parse_iso8601_ms formats text ≡ ok ms
  unfolding format_iso8601 format_timestamp parse_iso8601_ms timestamp_ms millis_of
  time_back laws ms text = go (ltb ms (2 ^ 63))
    where
      formatted :
          (r : Str ⊎ T)
          → formats.from_millisecond (pos ms) ≡ r
          → format_timestamp formats ms r ≡ ok text
          → parse_iso8601_ms formats text ≡ ok ms
      formatted (inl e) q h = absurd (cc (h))
      formatted (inr ts) q h =
          let (back, parsed, millis) = laws.parse_timestamp-strftime ms ts q in
          subst (λ t. parse_iso8601_ms formats t ≡ ok ms) (ap text_of h) (rw (parsed, millis) refl)

      go :
          (b : Bool)
          → (if b
              then format_timestamp formats ms (formats.from_millisecond (pos ms))
              else err (Error.xml "timestamp overflow"))
            ≡ ok text
          → parse_iso8601_ms formats text ≡ ok ms
      go true h = formatted (formats.from_millisecond (pos ms)) refl h
      go false h = absurd (cc (h))

  -- The view that stands in the document of a message, with these children in the detail.
  abbrev pub view_of : CotEvent F → Str → List DetailChild → CotEventView
  view_of cot raw children = record {
    event = event_of formats cot;
    point = some (point_of formats cot);
    detail = record { raw = raw; children = children };
  }

  view_of-back :
      FormatLaws formats
      → (cot : CotEvent F) (d : Detail F) (raw : Str) (children : List DetailChild)
      → is_empty cot.uid ≡ false
      → is_empty cot.kind ≡ false
      → IsPlainCot formats cot
      → cot.detail ≡ some d
      → build_detail formats (record { raw = raw; children = children }) ≡ ok d
      → view_to_takmessage formats (view_of cot raw children)
        ≡ ok (record {
          tak_control = none;
          cot_event = some cot;
          submission_time = 0;
          creation_time = 0;
        })
  unfolding view_to_takmessage
  view_of-back laws cot d raw children u k p e b =
      rw
        (
          u,
          k,
          b,
          time_back laws cot.send_time _ p.time.formatted,
          time_back laws cot.start_time _ p.start.formatted,
          time_back laws cot.stale_time _ p.stale.formatted,
          or_else-opt_text cot.access,
          or_else-opt_text cot.qos,
          or_else-opt_text cot.opex,
          or_else-opt_text cot.caveat,
          or_else-opt_text cot.releaseable_to,
          laws.f64_from_str-display cot.lat,
          laws.f64_from_str-display cot.lon,
          laws.f64_from_str-display cot.hae,
          laws.f64_from_str-display cot.ce,
          laws.f64_from_str-display cot.le,
        )
        (ap
          (λ o. ok (record {
            tak_control = none;
            cot_event = some (record cot { detail = o });
            submission_time = 0;
            creation_time = 0;
          }))
          (sym e))

  point_of_complete :
      FormatLaws formats
      → (cot : CotEvent F) → require_lat_lon (point_of formats cot) ≡ ok (point_of formats cot)
  unfolding require_lat_lon
  point_of_complete laws cot = rw (filled cot.lat, filled cot.lon) refl
    where
      filled : (x : F) → is_empty (formats.f64_display x) ≡ false
      filled x = go (formats.f64_display x) (laws.f64_from_str-display x)
        where
          go : (s : Str) → formats.f64_from_str s ≡ some x → is_empty s ≡ false
          go [] h = absurd (cc (h, laws.f64_from_str-nil))
          go (c ∷ s) h = refl

  point_of-AllPlain :
      FormatLaws formats → (cot : CotEvent F) → AllPlain (point_attrs (point_of formats cot))
  point_of-AllPlain laws cot = (
    laws.display-IsPlain cot.lat,
    (
      laws.display-IsPlain cot.lon,
      (
        laws.display-IsPlain cot.hae,
        (laws.display-IsPlain cot.ce, (laws.display-IsPlain cot.le, tt)),
      ),
    ),
  )

  IsPlainDetail-of :
      (d : Detail F)
      → IsPlainSubs formats d
      → ((s : Status) → d.status ≡ some s → s.battery < 2 ^ 32)
      → IsPlainDetail d
  IsPlainDetail-of d p b = record {
    plain_takv = λ t. OnSome-at _ d.takv t p.takv;
    plain_contact = λ c. OnSome-at _ d.contact c p.contact;
    plain_group = λ g. OnSome-at _ d.group g p.group;
    small_battery = b;
    plain_precision_location = λ q. OnSome-at _ d.precision_location q p.precision_location;
  }

  -- A message of which `takmessage_to_xml` into a vector succeeds is appended as its document, the
  -- decoder reads the tags of event and point back to the attributes that stand for the message, and
  -- `view_to_takmessage` of the view with the elements of the document's detail is the message again,
  -- without control and server times: if the texts of floats and times read back, the uid and the
  -- type are not empty, the battery is a `u32`, and `xml_detail` is the text of children that
  -- `build_detail` leaves alone.
  pub takmessage_to_xml-back :
      FormatLaws formats
      → (msg : TakMessage F) (cot : CotEvent F) (d : Detail F) (opaque : List DetailChild)
        (raw : Str) (out w : List ℕ)
      → msg.cot_event ≡ some cot
      → cot.detail ≡ some d
      → is_empty cot.uid ≡ false
      → is_empty cot.kind ≡ false
      → ((s : Status) → d.status ≡ some s → s.battery < 2 ^ 32)
      → All (IsOpaque formats (record d { xml_detail = [] })) opaque
      → joined opaque [] ≡ d.xml_detail
      → takmessage_to_xml formats vec_writer msg out ≡ (ok tt, w)
      → (w ≡ out ++ cot_document formats cot)
        × (parse_event_attrs (event_header (event_of formats cot)) no_event
            ≡ ok (event_of formats cot))
        × (parse_point_attrs (point_header (point_of formats cot)) ≡ ok (point_of formats cot))
        × (view_to_takmessage formats (view_of cot raw (typed_children formats d ++ opaque))
            ≡ ok (record msg { tak_control = none; submission_time = 0; creation_time = 0 }))
  unfolding takmessage_to_xml
  takmessage_to_xml-back laws msg cot d opaque raw out w has_cot has_detail u k b left text h = (
    ap (λ (r : Result (Unit {0}) × List ℕ). r.1) (sym sent ∙ written.appends p out),
    event_header-back (event_of formats cot) (event_of-AllPlain cot p.plain_event),
    point_header-back (point_of formats cot) (point_of-AllPlain laws cot)
        ∙ point_of_complete laws cot,
    view_of-back laws cot d raw (typed_children formats d ++ opaque) u k p.plain_event has_detail
          built
        ∙ ap
            (λ o. ok (record {
              tak_control = none;
              cot_event = o;
              submission_time = 0;
              creation_time = 0;
            }))
            (sym has_cot),
  )
    where
      written :
          Writes
            (write_cot formats vec_writer (some cot))
            (IsSendable formats cot)
            (cot_document formats cot)
      written = write_cot-Writes formats cot

      sent : write_cot formats vec_writer (some cot) out ≡ (ok tt, w)
      sent = ap (λ o. write_cot formats vec_writer o out) (sym has_cot) ∙ h

      p : IsSendable formats cot
      p = written.demands out w sent

      built :
          build_detail formats (record { raw = raw; children = typed_children formats d ++ opaque })
          ≡ ok d
      built =
          build_detail-typed formats laws d opaque raw
            (IsPlainDetail-of d
              (OnSome-at (IsPlainSubs formats) cot.detail d p.plain_subs has_detail) b)
            left
          ∙ ap (λ t. ok (record d { xml_detail = t })) text
