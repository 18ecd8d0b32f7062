-- ===== src/Cot/Xml/Headers.antt =====
-- The headers of `<event>` and `<point>`: what the encoder writes, the decoder reads back.
use tak_rs.Common.{Option, none, some, List, [], ◌∷◌, ◌++◌, Str, str, ◌≡◌, refl, list_eqb}
use mathlib.Core.Path.{◌∙◌}
use tak_rs.Cot.{ok}
use tak_rs.Cot.Xml.{EventAttrs, PointAttrs, no_event, no_point, set_event_attr, set_point_attr}
use tak_rs.Cot.Xml.Attrs.{fold_attrs}

abbrev pub opt_attr : Str → Option Str → List (Str × Str)
opt_attr key none = []
opt_attr key (some value) = (key, value) ∷ []

-- The attributes of an event in the order of the encoder.
abbrev pub event_attrs : EventAttrs → List (Str × Str)
event_attrs e =
    opt_attr (str "version") e.version
    ++ ((str "uid", e.uid)
        ∷ (str "type", e.kind)
        ∷ (str "time", e.time)
        ∷ (str "start", e.start)
        ∷ (str "stale", e.stale)
        ∷ (str "how", e.how)
        ∷ (opt_attr (str "access") e.access
            ++ (opt_attr (str "qos") e.qos
                ++ (opt_attr (str "opex") e.opex
                    ++ (opt_attr (str "caveat") e.caveat
                        ++ opt_attr (str "releaseableTo") e.releaseable_to)))))

abbrev pub point_attrs : PointAttrs → List (Str × Str)
point_attrs q =
    (str "lat", q.lat)
    ∷ (str "lon", q.lon)
    ∷ (str "hae", q.hae)
    ∷ (str "ce", q.ce)
    ∷ (str "le", q.le)
    ∷ []

-- An optional attribute, and what follows it.
fold_opt :
    (key : Str) (o : Option Str) (attrs : List (Str × Str)) (put : Option Str → EventAttrs)
    → ((v : Str) → set_event_attr key v (put none) ≡ ok (put (some v)))
    → fold_attrs set_event_attr (opt_attr key o ++ attrs) (put none)
      ≡ fold_attrs set_event_attr attrs (put o)
fold_opt key none attrs put h = refl
fold_opt key (some v) attrs put h = rw (h v) refl

-- Setting the attributes of an event one after the other gives the event.
pub fold-event_attrs : (e : EventAttrs) → fold_attrs set_event_attr (event_attrs e) no_event ≡ ok e
unfolding set_event_attr list_eqb
fold-event_attrs e =
    fold_opt (str "version") e.version _ (λ o. record no_event { version = o }) (λ v. refl)
    ∙ fold_opt (str "access") e.access _
        (λ o. record e {
          access = o;
          qos = none;
          opex = none;
          caveat = none;
          releaseable_to = none;
        })
        (λ v. refl)
    ∙ fold_opt (str "qos") e.qos _
        (λ o. record e { qos = o; opex = none; caveat = none; releaseable_to = none }) (λ v. refl)
    ∙ fold_opt (str "opex") e.opex _
        (λ o. record e { opex = o; caveat = none; releaseable_to = none }) (λ v. refl)
    ∙ fold_opt (str "caveat") e.caveat _ (λ o. record e { caveat = o; releaseable_to = none })
        (λ v. refl)
    ∙ last_one e.releaseable_to
  where
    last_one :
        (o : Option Str)
        → fold_attrs set_event_attr
            (opt_attr (str "releaseableTo") o)
            (record e { releaseable_to = none })
          ≡ ok (record e { releaseable_to = o })
    last_one none = refl
    last_one (some v) = refl

pub fold-point_attrs : (q : PointAttrs) → fold_attrs set_point_attr (point_attrs q) no_point ≡ ok q
unfolding set_point_attr list_eqb
fold-point_attrs q = refl
