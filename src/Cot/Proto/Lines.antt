-- ===== src/Cot/Proto/Lines.antt =====
-- The lines that `write_typed_subs` of crates/tak-cot/src/proto.rs writes, one for each element.
use tak_rs.Common.{
  ℕ, Option, some, none, List, [], ◌∷◌, ◌++◌, Str, str, ◌≡◌, refl, ap, sym, ◌∙◌, append_assoc,
  append-nil,
}
use tak_rs.Cot.{ok}
use tak_rs.Cot.Framing.{Write, vec_writer, ◌>>◌}
use tak_rs.Cot.Xml.{DetailChild, write_attr}
use tak_rs.Cot.Xml.Attrs.{IsPlain, rendered}
use tak_rs.Cot.Xml.Written.{Writes, Writes-seq, Writes-same, Writes-text, Writes-attr, AllPlain}
use tak_rs.Cot.Proto.{Contact, Group, PrecisionLocation, Status, Takv, Track, Detail, Formats}
use tak_rs.Cot.Proto.Decimal.{display}
use tak_rs.Cot.Proto.Write.{
  write_str_attr, write_number, write_f64_attr, write_some, write_takv, write_contact, write_group,
  write_status, write_track, write_precision_location, write_typed_subs,
}
use tak_rs.Cot.Proto.Typed.{
  element, contact_attrs, group_attrs, precision_location_attrs, status_attrs, takv_attrs,
  track_attrs,
}
use tak_rs.Cot.Proto.Children.{opt_child, typed_children}

-- Each element on a line of its own.
abbrev pub line : DetailChild → Str
line child = str "    " ++ (child.raw ++ str "\n")

unfoldable pub lines : List DetailChild → Str
lines [] = []
lines (child ∷ children) = line child ++ lines children

lines-append : (xs ys : List DetailChild) → lines (xs ++ ys) ≡ lines xs ++ lines ys
unfolding lines
lines-append [] ys = refl
lines-append (x ∷ xs) ys =
    ap (λ t. line x ++ t) (lines-append xs ys) ∙ sym (append_assoc (line x) (lines xs) (lines ys))

pub Writes-str_attr :
    (key value : Str)
    → Writes (write_str_attr vec_writer key value) (IsPlain value) (rendered key value)
unfolding write_str_attr write_attr
Writes-str_attr key value = Writes-attr key value

pub Writes-number :
    (key value : Str) → Writes (write_number vec_writer key value) (Unit {0}) (rendered key value)
unfolding write_number
Writes-number key value =
    Writes-same
      (Writes-seq
        (Writes-seq
          (Writes-seq (Writes-seq (Writes-text (str " ")) (Writes-text key))
            (Writes-text (str "=\"")))
          (Writes-text value))
        (Writes-text (str "\"")))
      (λ p. tt) (λ p. ((((tt, tt), tt), tt), tt)) (simp append_assoc)

-- What is asked of a sub-message that is there.
abbrev pub OnSome : {M : Type 0} → (M → Type 0) → Option M → Type 0
OnSome P none = Unit {0}
OnSome P (some m) = P m

Writes-some :
    {M : Type 0} (write : M → Write (List ℕ)) (P : M → Type 0) (child : M → DetailChild)
    (o : Option M)
    → ((m : M) → Writes (write m) (P m) (line (child m)))
    → Writes (write_some vec_writer write o) (OnSome P o) (lines (opt_child child o))
unfolding lines
Writes-some write P child none h = record {
  appends = λ p out. ap (λ x. (ok tt, x)) (sym (append-nil out));
  demands = λ out w e. tt;
}
Writes-some write P child (some m) h =
    Writes-same (h m) (λ p. p) (λ p. p) (sym (append-nil (line (child m))))

-- An element with two attributes.
Writes-two :
    {m k : Write (List ℕ)} {P Q : Type 0} (name key1 v1 key2 v2 : Str)
    → Writes m P (rendered key1 v1)
    → Writes k Q (rendered key2 v2)
    → Writes
        (vec_writer.write_all (str "    <" ++ name) >> m >> k >> vec_writer.write_all (str "/>\n"))
        (P × Q)
        (line (element name ((key1, v1) ∷ (key2, v2) ∷ [])))
Writes-two name key1 v1 key2 v2 a b =
    Writes-same
      (Writes-seq (Writes-seq (Writes-seq (Writes-text (str "    <" ++ name)) a) b)
        (Writes-text (str "/>\n")))
      (λ (((_, p), q), _). (p, q)) (λ (p, q). (((tt, p), q), tt)) (simp append_assoc)

Writes-contact :
    (c : Contact)
    → Writes
        (write_contact vec_writer c)
        (AllPlain (contact_attrs c))
        (line (element (str "contact") (contact_attrs c)))
unfolding write_contact
Writes-contact c =
    Writes-same
      (Writes-two (str "contact") (str "endpoint") c.endpoint (str "callsign") c.callsign
        (Writes-str_attr (str "endpoint") c.endpoint) (Writes-str_attr (str "callsign") c.callsign))
      (λ (p, q). (p, (q, tt))) (λ (p, (q, _)). (p, q)) refl

Writes-group :
    (g : Group)
    → Writes
        (write_group vec_writer g)
        (AllPlain (group_attrs g))
        (line (element (str "__group") (group_attrs g)))
unfolding write_group
Writes-group g =
    Writes-same
      (Writes-two (str "__group") (str "name") g.name (str "role") g.role
        (Writes-str_attr (str "name") g.name) (Writes-str_attr (str "role") g.role))
      (λ (p, q). (p, (q, tt))) (λ (p, (q, _)). (p, q)) refl

Writes-precision_location :
    (p : PrecisionLocation)
    → Writes
        (write_precision_location vec_writer p)
        (AllPlain (precision_location_attrs p))
        (line (element (str "precisionlocation") (precision_location_attrs p)))
unfolding write_precision_location
Writes-precision_location p =
    Writes-same
      (Writes-two (str "precisionlocation") (str "geopointsrc") p.geopointsrc (str "altsrc")
        p.altsrc (Writes-str_attr (str "geopointsrc") p.geopointsrc)
        (Writes-str_attr (str "altsrc") p.altsrc))
      (λ (p, q). (p, (q, tt))) (λ (p, (q, _)). (p, q)) refl

Writes-status :
    (s : Status)
    → Writes (write_status vec_writer s) (Unit {0}) (line (element (str "status") (status_attrs s)))
unfolding write_status
Writes-status s =
    Writes-same
      (Writes-seq
        (Writes-seq (Writes-text (str "    <status"))
          (Writes-number (str "battery") (display s.battery)))
        (Writes-text (str "/>\n")))
      (λ p. tt) (λ p. ((tt, tt), tt)) (simp append_assoc)

Writes-takv :
    (t : Takv)
    → Writes
        (write_takv vec_writer t)
        (AllPlain (takv_attrs t))
        (line (element (str "takv") (takv_attrs t)))
unfolding write_takv
Writes-takv t =
    Writes-same
      (Writes-seq
        (Writes-seq
          (Writes-seq
            (Writes-seq
              (Writes-seq (Writes-text (str "    <takv")) (Writes-str_attr (str "device") t.device))
              (Writes-str_attr (str "platform") t.platform))
            (Writes-str_attr (str "os") t.os))
          (Writes-str_attr (str "version") t.version))
        (Writes-text (str "/>\n")))
      (λ (((((_, a), b), c), d), _). (a, (b, (c, (d, tt)))))
      (λ (a, (b, (c, (d, _)))). (((((tt, a), b), c), d), tt)) (simp append_assoc)

module _ {F T : Type 0} (formats : Formats F T) where
  pub Writes-f64_attr :
      (key : Str) (x : F)
      → Writes
          (write_f64_attr formats vec_writer key x)
          (Unit {0})
          (rendered key (formats.f64_display x))
  unfolding write_f64_attr
  Writes-f64_attr key x = Writes-number key (formats.f64_display x)

  Writes-track :
      (t : Track F)
      → Writes
          (write_track formats vec_writer t)
          (Unit {0})
          (line (element (str "track") (track_attrs formats t)))
  unfolding write_track
  Writes-track t =
      Writes-same
        (Writes-two (str "track") (str "speed") (formats.f64_display t.speed) (str "course")
          (formats.f64_display t.course) (Writes-f64_attr (str "speed") t.speed)
          (Writes-f64_attr (str "course") t.course))
        (λ p. tt) (λ p. (tt, tt)) refl

  -- The texts of the sub-messages need no escape.
  pub record IsPlainSubs (d : Detail F) : Type 0 where
    pub takv : OnSome (λ t. AllPlain (takv_attrs t)) d.takv
    pub contact : OnSome (λ c. AllPlain (contact_attrs c)) d.contact
    pub group : OnSome (λ g. AllPlain (group_attrs g)) d.group
    pub precision_location :
        OnSome (λ p. AllPlain (precision_location_attrs p)) d.precision_location

  pub Writes-typed_subs :
      (d : Detail F)
      → Writes
          (write_typed_subs formats vec_writer d)
          (IsPlainSubs d)
          (lines (typed_children formats d))
  unfolding write_typed_subs
  Writes-typed_subs d =
      Writes-same
        (Writes-seq
          (Writes-seq
            (Writes-seq
              (Writes-seq
                (Writes-seq
                  (Writes-some (write_takv vec_writer) (λ t. AllPlain (takv_attrs t))
                    (λ t. element (str "takv") (takv_attrs t)) d.takv Writes-takv)
                  (Writes-some (write_contact vec_writer) (λ c. AllPlain (contact_attrs c))
                    (λ c. element (str "contact") (contact_attrs c)) d.contact Writes-contact))
                (Writes-some (write_group vec_writer) (λ g. AllPlain (group_attrs g))
                  (λ g. element (str "__group") (group_attrs g)) d.group Writes-group))
              (Writes-some (write_status vec_writer) (λ s. Unit {0})
                (λ s. element (str "status") (status_attrs s)) d.status Writes-status))
            (Writes-some (write_track formats vec_writer) (λ t. Unit {0})
              (λ t. element (str "track") (track_attrs formats t)) d.track Writes-track))
          (Writes-some (write_precision_location vec_writer)
            (λ p. AllPlain (precision_location_attrs p))
            (λ p. element (str "precisionlocation") (precision_location_attrs p))
            d.precision_location Writes-precision_location))
        (λ (((((a, b), c), _), _), e). record {
          takv = a;
          contact = b;
          group = c;
          precision_location = e;
        })
        (λ p. (
          ((((p.takv, p.contact), p.group), always d.status), always d.track),
          p.precision_location,
        ))
        (simp (append_assoc, lines-append))
    where
      always : {M : Type 0} (o : Option M) → OnSome (λ m. Unit {0}) o
      always none = tt
      always (some m) = tt
