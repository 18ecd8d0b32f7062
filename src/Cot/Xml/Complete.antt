-- ===== src/Cot/Xml/Complete.antt =====
-- What `decode_xml` of crates/tak-cot/src/xml.rs promises of the views that it returns.
use tak_rs.Common.{
  ℕ, Bool, true, false, Option, none, some, List, [], ◌∷◌, if◌then◌else◌, is_empty, Str, ◌≡◌, arith,
  Bool-cases, inl, inr,
}
use Prim.Native.String.{String}
use mathlib.Core.Path.{subst}
use tak_rs.Cot.{Result, ok, ◌>>=◌, bind-eq-ok}
use tak_rs.Cot.Xml.{
  PointAttrs, CotEventView, parse_point_attrs, require_lat_lon, walk_attrs, set_point_attr,
  no_point,
}
use tak_rs.Cot.Xml.Decode.{
  XmlEvent, Token, Events, Decoding, start_tag, empty_tag, end_tag, other, decoding_start, at_start,
  at_empty, end_child, at_end, decode_event, decode_loop, finish_decoding, decode_xml, leave,
}

abbrev pub HasPlace : Option PointAttrs → Type 0
HasPlace none = Unit {0}
HasPlace (some q) = (is_empty q.lat ≡ false) × (is_empty q.lon ≡ false)

-- If a step succeeds, the point has its place.
record Keeps (r : Result Decoding) : Type 0 where
  kept : (st : Decoding) → r ≡ ok st → HasPlace st.view.point

Keeps-ok : (st : Decoding) → HasPlace st.view.point → Keeps (ok st)
Keeps-ok st h = record {
  kept = λ st' e. subst (λ (x : Decoding). HasPlace x.view.point) (of_ok st st' e) h;
}
  where
    of_ok : (x y : Decoding) → ok x ≡ ok y → x ≡ y
    of_ok x y e = cc (e)

Keeps-bind :
    {A : Type 0} (m : Result A) (f : A → Result Decoding)
    → ((a : A) → m ≡ ok a → Keeps (f a))
    → Keeps (m >>= f)
Keeps-bind m f h = record {
  kept = λ st e. let (a, e1, e2) = bind-eq-ok f m e in (h a e1).kept st e2;
}

Keeps-then :
    (m : Result Decoding) (f : Decoding → Result Decoding)
    → Keeps m
    → ((st : Decoding) → HasPlace st.view.point → Keeps (f st))
    → Keeps (m >>= f)
Keeps-then m f a h = Keeps-bind m f (λ st e. h st (a.kept st e))

leave-Keeps : (st : Decoding) → HasPlace st.view.point → Keeps (leave st)
leave-Keeps st h = Keeps-ok _ h

Keeps-if : (b : Bool) (x y : Result Decoding) → Keeps x → Keeps y → Keeps (if b then x else y)
Keeps-if true x y a b = a
Keeps-if false x y a b = b

parse_point_attrs-HasPlace :
    (header : Str) (q : PointAttrs) → parse_point_attrs header ≡ ok q → HasPlace (some q)
unfolding parse_point_attrs require_lat_lon
parse_point_attrs-HasPlace header q e =
    let (a, e1, e2) = bind-eq-ok require_lat_lon (walk_attrs set_point_attr header no_point) e in
    checked a e2
  where
    checked : (a : PointAttrs) → require_lat_lon a ≡ ok q → HasPlace (some q)
    checked a e = elim (Bool-cases (is_empty a.lat)) [
      | inl h ↦ absurd (ground (arith, h, e))
      | inr h ↦ elim (Bool-cases (is_empty a.lon)) [
        | inl g ↦ absurd (ground (arith, h, g, e))
        | inr g ↦ ground (arith, h, g, e)
      ]
    ]

module _ (input : Str) (t : Token) (st : Decoding) (h : HasPlace st.view.point) where
  at_start-Keeps : Keeps (at_start input t st)
  unfolding at_start
  at_start-Keeps = search (Keeps-bind, Keeps-if, Keeps-ok, h) depth 12

  at_empty-Keeps : Keeps (at_empty input t st)
  unfolding at_empty
  at_empty-Keeps = search (Keeps-bind, Keeps-if, Keeps-ok, parse_point_attrs-HasPlace, h) depth 12

  end_child-Keeps : (o : Option ℕ) → Keeps (end_child input t o st)
  unfolding end_child
  end_child-Keeps none = Keeps-ok st h
  end_child-Keeps (some from) = search (Keeps-bind, Keeps-ok, h)

  at_end-Keeps : Keeps (at_end input t st)
  unfolding at_end
  at_end-Keeps =
      search (Keeps-then, leave-Keeps, Keeps-bind, Keeps-if, Keeps-ok, end_child-Keeps, h) depth 12

  decode_event-Keeps : (event : XmlEvent) → Keeps (decode_event input t event st)
  unfolding decode_event
  decode_event-Keeps start_tag = at_start-Keeps
  decode_event-Keeps empty_tag = at_empty-Keeps
  decode_event-Keeps end_tag = at_end-Keeps
  decode_event-Keeps other = Keeps-ok st h

decode_loop-Keeps :
    (input : Str) (tokens : List Token) (st : Decoding)
    → HasPlace st.view.point
    → Keeps (decode_loop input tokens st)
unfolding decode_loop
decode_loop-Keeps input [] st h = Keeps-ok st h
decode_loop-Keeps input (t ∷ tokens) st h =
    Keeps-then (decode_event input t t.event st) (decode_loop input tokens)
      (decode_event-Keeps input t st h t.event) (λ st' h'. decode_loop-Keeps input tokens st' h')

-- A view with a uid and a type, whose point, if there is one, has a latitude and a longitude.
abbrev pub IsComplete : CotEventView → Type 0
IsComplete view =
    (is_empty view.event.uid ≡ false) × (is_empty view.event.kind ≡ false) × HasPlace view.point

finish_decoding-IsComplete :
    (failure : Option String) (st : Decoding) (view : CotEventView)
    → HasPlace st.view.point
    → finish_decoding failure st ≡ ok view
    → IsComplete view
unfolding finish_decoding
finish_decoding-IsComplete (some message) st view h e = absurd (cc (e))
finish_decoding-IsComplete none st view h e = elim (Bool-cases (is_empty st.view.event.uid)) [
  | inl a ↦ absurd (ground (arith, a, e))
  | inr a ↦ elim (Bool-cases (is_empty st.view.event.kind)) [
    | inl b ↦ absurd (ground (arith, a, b, e))
    | inr b ↦ subst IsComplete (same_view (rw (a, b) at e)) (a, b, h)
  ]
]
  where
    same_view : {x y : CotEventView} → ok x ≡ ok y → x ≡ y
    same_view e = cc (e)

-- Whatever the input, and whatever events and positions the reader reports for it: a view that
-- `decode_xml` returns has a uid, a type and, if it has a point, a latitude and a longitude.
pub decode_xml-IsComplete :
    (read_events : Str → Events) (input : Str) (view : CotEventView)
    → decode_xml read_events input ≡ ok view
    → IsComplete view
unfolding decode_xml
decode_xml-IsComplete read_events input view e =
    let (st, e1, e2) =
      bind-eq-ok (finish_decoding (read_events input).failure)
        (decode_loop input (read_events input).tokens decoding_start) e in
    finish_decoding-IsComplete (read_events input).failure st view
      ((decode_loop-Keeps input (read_events input).tokens decoding_start tt).kept st e1) e2
