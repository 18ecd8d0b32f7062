-- ===== src/Cot/Proto/Children.antt =====
-- `build_detail` of crates/tak-cot/src/proto.rs on the elements that the writer makes of a detail.
use tak_rs.Common.{
  ◌<◌, ◌^◌, Bool, true, false, Option, some, none, List, [], ◌∷◌, ◌++◌, Str, str, ◌≡◌, refl, ap,
  ◌∙◌, append_assoc, All, list_eqb,
}
use tak_rs.Cot.{ok}
use tak_rs.Cot.Xml.{DetailChild}
use tak_rs.Cot.Xml.Written.{AllPlain}
use tak_rs.Cot.Proto.{
  Contact, Group, PrecisionLocation, Status, Takv, Detail, Formats, default_detail,
}
use tak_rs.Cot.Proto.Laws.{FormatLaws}
use tak_rs.Cot.Proto.Read.{append_raw, join_opaque, convert_child, convert_children, build_detail}
use tak_rs.Cot.Proto.Typed.{
  element, contact_attrs, group_attrs, precision_location_attrs, status_attrs, takv_attrs,
  track_attrs, try_contact-back, try_group-back, try_precision_location-back, try_status-back,
  try_takv-back, try_track-back,
}

abbrev pub opt_child : {M : Type 0} → (M → DetailChild) → Option M → List DetailChild
opt_child child none = []
opt_child child (some m) = child m ∷ []

-- The text of the children that stay opaque, in order.
unfoldable pub joined : List DetailChild → Str → Str
joined [] xml_detail = xml_detail
joined (child ∷ children) xml_detail = joined children (append_raw xml_detail child.raw)

-- What the writer accepts of a detail, and what a `u32` is.
pub record IsPlainDetail {F : Type 0} (d : Detail F) : Type 0 where
  pub plain_takv : (t : Takv) → d.takv ≡ some t → AllPlain (takv_attrs t)
  pub plain_contact : (c : Contact) → d.contact ≡ some c → AllPlain (contact_attrs c)
  pub plain_group : (g : Group) → d.group ≡ some g → AllPlain (group_attrs g)
  pub small_battery : (s : Status) → d.status ≡ some s → s.battery < 2 ^ 32
  pub plain_precision_location :
      (p : PrecisionLocation)
      → d.precision_location ≡ some p
      → AllPlain (precision_location_attrs p)

module _ {F T : Type 0} (formats : Formats F T) where
  -- The elements of a detail in the order of the writer.
  abbrev pub typed_children : Detail F → List DetailChild
  typed_children d =
      opt_child (λ t. element (str "takv") (takv_attrs t)) d.takv
      ++ (opt_child (λ c. element (str "contact") (contact_attrs c)) d.contact
          ++ (opt_child (λ g. element (str "__group") (group_attrs g)) d.group
              ++ (opt_child (λ s. element (str "status") (status_attrs s)) d.status
                  ++ (opt_child (λ t. element (str "track") (track_attrs formats t)) d.track
                      ++ opt_child
                          (λ p. element (str "precisionlocation") (precision_location_attrs p))
                          d.precision_location))))

  -- From `d` the loop consumes these children, and goes on with `d'`.
  record Consumed (children : List DetailChild) (d d' : Detail F) : Type 0 where
    goes_on :
        (rest : List DetailChild) (last : Detail F) (flags : List Bool)
        → convert_children formats rest d' ≡ ok (last, flags)
        → (all : List Bool) × (convert_children formats (children ++ rest) d ≡ ok (last, all))
          × ((text : Str) → join_opaque (children ++ rest) all text ≡ join_opaque rest flags text)

  Consumed-append :
      {xs ys : List DetailChild} {d e f : Detail F}
      → Consumed xs d e
      → Consumed ys e f
      → Consumed (xs ++ ys) d f
  Consumed-append {xs} {ys} {d} a b = record {
    goes_on = λ rest last flags h.
        let (more, run, text) = b.goes_on rest last flags h in
        let (all, run', text') = a.goes_on (ys ++ rest) last more run in
        (
          all,
          rw (append_assoc xs ys rest) run',
          λ t. rw (append_assoc xs ys rest) (text' t ∙ text t),
        );
  }

  Consumed-opt :
      {M : Type 0} (child : M → DetailChild) (o : Option M) (at : Option M → Detail F)
      → ((m : M) → o ≡ some m → convert_child formats (child m) (at none) ≡ ok (at (some m), true))
      → Consumed (opt_child child o) (at none) (at o)
  unfolding convert_children join_opaque
  Consumed-opt child none at h = record { goes_on = λ rest last flags h. (flags, h, λ t. refl) }
  Consumed-opt child (some m) at h = record {
    goes_on = λ rest last flags k. (true ∷ flags, rw (h m refl, k) refl, λ t. refl);
  }

  typed_children-Consumed :
      FormatLaws formats
      → (d : Detail F) → IsPlainDetail d
      → Consumed (typed_children d) default_detail (record d { xml_detail = [] })
  unfolding convert_child list_eqb
  typed_children-Consumed laws d p =
      Consumed-append
        (Consumed-opt (λ t. element (str "takv") (takv_attrs t)) d.takv
          (λ o. record default_detail { takv = o })
          (λ t e. rw (try_takv-back t (p.plain_takv t e)) refl))
        (Consumed-append
          (Consumed-opt (λ c. element (str "contact") (contact_attrs c)) d.contact
            (λ o. record default_detail { takv = d.takv; contact = o })
            (λ c e. rw (try_contact-back c (p.plain_contact c e)) refl))
          (Consumed-append
            (Consumed-opt (λ g. element (str "__group") (group_attrs g)) d.group
              (λ o. record default_detail { takv = d.takv; contact = d.contact; group = o })
              (λ g e. rw (try_group-back g (p.plain_group g e)) refl))
            (Consumed-append
              (Consumed-opt (λ s. element (str "status") (status_attrs s)) d.status
                (λ o. record d {
                  xml_detail = [];
                  status = o;
                  track = none;
                  precision_location = none;
                })
                (λ s e. rw (try_status-back s (p.small_battery s e)) refl))
              (Consumed-append
                (Consumed-opt (λ t. element (str "track") (track_attrs formats t)) d.track
                  (λ o. record d { xml_detail = []; track = o; precision_location = none })
                  (λ t e. rw (try_track-back formats laws t) refl))
                (Consumed-opt (λ p. element (str "precisionlocation") (precision_location_attrs p))
                  d.precision_location (λ o. record d { xml_detail = []; precision_location = o })
                  (λ q e.
                    rw (try_precision_location-back q (p.plain_precision_location q e)) refl))))))

  -- A child that the loop leaves alone at this detail.
  abbrev pub IsOpaque : Detail F → DetailChild → Type 0
  IsOpaque d child = convert_child formats child d ≡ ok (d, false)

  opaque-unconsumed :
      (d : Detail F) (children : List DetailChild)
      → All (IsOpaque d) children
      → (flags : List Bool) × (convert_children formats children d ≡ ok (d, flags))
        × ((text : Str) → join_opaque children flags text ≡ joined children text)
  unfolding convert_children join_opaque joined
  opaque-unconsumed d [] h = ([], refl, λ t. refl)
  opaque-unconsumed d (child ∷ children) h =
      let (flags, run, text) = opaque-unconsumed d children h.1 in
      (false ∷ flags, rw (h.0, run) refl, λ t. text (append_raw t child.raw))

  -- The elements of a detail, and behind them children that no converter takes, are read back as
  -- the detail, with the children's text in `xml_detail`.
  pub build_detail-typed :
      FormatLaws formats
      → (d : Detail F) (opaque : List DetailChild) (raw : Str) → IsPlainDetail d
      → All (IsOpaque (record d { xml_detail = [] })) opaque
      → build_detail formats (record { raw = raw; children = typed_children d ++ opaque })
        ≡ ok (record d { xml_detail = joined opaque [] })
  unfolding build_detail
  build_detail-typed laws d opaque raw p h =
      let (flags, run, text) = opaque-unconsumed (record d { xml_detail = [] }) opaque h in
      let (all, run', text') =
        (typed_children-Consumed laws d p).goes_on opaque (record d { xml_detail = [] }) flags
          run in
      rw run' (ap (λ t. ok (record d { xml_detail = t })) (text' [] ∙ text []))
