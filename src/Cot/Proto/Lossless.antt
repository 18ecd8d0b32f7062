-- ===== src/Cot/Proto/Lossless.antt =====
-- What `build_detail` of crates/tak-cot/src/proto.rs keeps of the children of a detail.
use tak_rs.Common.{
  ◌++◌, ◌+◌, Bool, true, false, List, [], ◌∷◌, Str, ◌≡◌, refl, ap, sym, ◌∙◌, arith, All, list_eq,
  nat_eq, length,
}
use mathlib.Core.Path.{subst}
use tak_rs.Cot.{ok, bind-eq-ok}
use tak_rs.Cot.Xml.{DetailChild, DetailView}
use tak_rs.Cot.Proto.{Detail, Formats, default_detail}
use tak_rs.Cot.Proto.Read.{append_raw, join_opaque, convert_child, convert_children, build_detail}
use tak_rs.Cot.Proto.Round.{
  typed_count, Grows, Grows-refl, Grows-trans, convert_child-Round, opaque_stays, grows_by, keep,
}
use tak_rs.Cot.Proto.Laws.{FormatLaws}
use tak_rs.Cot.Proto.Children.{IsPlainDetail, IsOpaque, joined, typed_children, build_detail-typed}

abbrev pub leftover : List DetailChild → List Bool → List DetailChild
leftover (child ∷ children) (true ∷ consumed) = leftover children consumed
leftover (child ∷ children) (false ∷ consumed) = child ∷ leftover children consumed
leftover _ _ = []

joined-leftover :
    (children : List DetailChild) (consumed : List Bool) (text : Str)
    → join_opaque children consumed text ≡ joined (leftover children consumed) text
unfolding join_opaque joined
joined-leftover (child ∷ children) (true ∷ consumed) text = joined-leftover children consumed text
joined-leftover (child ∷ children) (false ∷ consumed) text =
    joined-leftover children consumed (append_raw text child.raw)
joined-leftover [] consumed text = refl
joined-leftover (child ∷ children) [] text = refl

-- The consumed children, in order.
abbrev pub taken : List DetailChild → List Bool → List DetailChild
taken (child ∷ children) (true ∷ consumed) = child ∷ taken children consumed
taken (child ∷ children) (false ∷ consumed) = taken children consumed
taken _ _ = []

module _ {F T : Type 0} (formats : Formats F T) where
  -- What the loop leaves behind when it goes from `d` to `d'`.
  record Loop (children : List DetailChild) (d d' : Detail F) (consumed : List Bool) : Type 0 where
    grows : Grows d d'
    counts : typed_count d' + length (leftover children consumed) ≡ typed_count d + length children
    opaque : All (IsOpaque formats d') (leftover children consumed)
    alone :
        (all : List Bool) × (convert_children formats (taken children consumed) d ≡ ok (d', all))
        × ((text : Str) → join_opaque (taken children consumed) all text ≡ text)

  same-Loop :
      {children : List DetailChild} {d d1 d' : Detail F} {c1 c : List Bool}
      → Loop children d d1 c1
      → ◌≡◌ {A = Detail F × List Bool} (d1, c1) (d', c)
      → Loop children d d' c
  same-Loop {children} {d} l e = subst (λ (x : Detail F × List Bool). Loop children d x.0 x.1) e l

  -- One child in front of the loop.
  Loop-cons :
      (child : DetailChild) (children : List DetailChild) (d d1 d' : Detail F) (b : Bool)
      (consumed : List Bool)
      → convert_child formats child d ≡ ok (d1, b)
      → Loop children d1 d' consumed
      → Loop (child ∷ children) d d' (b ∷ consumed)
  unfolding convert_children join_opaque
  Loop-cons child children d d1 d' true consumed e l =
      let r = convert_child-Round formats child.name child.raw d d1 true e in
      let (all, run, text) = l.alone in
      record {
        grows = Grows-trans r.grows l.grows;
        counts = omega (arith, l.counts, r.counts);
        opaque = l.opaque;
        alone = (true ∷ all, rw (e, run) refl, text);
      }
  Loop-cons child children d d1 d' false consumed e l =
      let r = convert_child-Round formats child.name child.raw d d1 false e in
      record {
        grows = Grows-trans r.grows l.grows;
        counts = omega (arith, l.counts, r.counts);
        opaque = (
          opaque_stays formats child.name child.raw d d1 d' (Grows-trans r.grows l.grows) e,
          l.opaque,
        );
        alone =
            subst
              (λ x.
                (all : List Bool) × (convert_children formats (taken children consumed) x
                  ≡ ok (d', all))
                × ((text : Str) → join_opaque (taken children consumed) all text ≡ text))
              (r.same refl) l.alone;
      }

  convert_children-Loop :
      (children : List DetailChild) (d d' : Detail F) (consumed : List Bool)
      → convert_children formats children d ≡ ok (d', consumed)
      → Loop children d d' consumed
  unfolding convert_children join_opaque
  convert_children-Loop [] d d' consumed h =
      same-Loop {c1 = []}
        (record {
          grows = Grows-refl d;
          counts = omega arith;
          opaque = tt;
          alone = ([], refl, λ t. refl);
        })
        (cc (h))
  convert_children-Loop (child ∷ children) d d' consumed h =
      let ((d1, b), e, rest) = bind-eq-ok _ (convert_child formats child d) h in
      let ((d2, flags), run, end) = bind-eq-ok _ (convert_children formats children d1) rest in
      same-Loop
        (Loop-cons child children d d1 d2 b flags e
          (convert_children-Loop children d1 d2 flags run))
        (cc (end))

-- What is in a detail of the children that it was built from: which of them were consumed; one for
-- each typed message; alone they give the same typed messages; and the others are `xml_detail`, in
-- document order, and are left alone again when the typed messages are there.
pub record IsLossless {F T : Type 0} (formats : Formats F T) (view : DetailView) (d : Detail F)
    : Type 0 where
  pub consumed : List Bool
  pub text : d.xml_detail ≡ joined (leftover view.children consumed) []
  pub counts : typed_count d + length (leftover view.children consumed) ≡ length view.children
  pub alone :
      build_detail formats (record { raw = view.raw; children = taken view.children consumed })
      ≡ ok (record d { xml_detail = [] })
  pub opaque :
      All (IsOpaque formats (record d { xml_detail = [] })) (leftover view.children consumed)

module _ {F T : Type 0} (formats : Formats F T) where
  All-IsOpaque :
      (d d' : Detail F) (children : List DetailChild)
      → Grows d d'
      → All (IsOpaque formats d) children
      → All (IsOpaque formats d') children
  All-IsOpaque d d' [] g h = tt
  All-IsOpaque d d' (child ∷ children) g h =
      (opaque_stays formats child.name child.raw d d d' g h.0, All-IsOpaque d d' children g h.1)

  Loop-IsLossless :
      (view : DetailView) (d : Detail F) (consumed : List Bool)
      → Loop formats view.children default_detail d consumed
      → IsLossless formats view (record d { xml_detail = join_opaque view.children consumed [] })
  unfolding build_detail
  Loop-IsLossless view d consumed l = record {
    consumed = consumed;
    text = joined-leftover view.children consumed [];
    counts = omega (arith, l.counts);
    alone =
        let (all, run, text) = l.alone in
        rw run (ap (λ t. ok (record d { xml_detail = t })) (text []));
    opaque =
        All-IsOpaque d (record d { xml_detail = [] }) (leftover view.children consumed)
          (grows_by keep keep keep keep keep keep) l.opaque;
  }

  pub build_detail-IsLossless :
      (view : DetailView) (d : Detail F)
      → build_detail formats view ≡ ok d
      → IsLossless formats view d
  unfolding build_detail
  build_detail-IsLossless view d h =
      let ((d1, consumed), run, end) =
        bind-eq-ok _ (convert_children formats view.children default_detail) h in
      subst (IsLossless formats view) (cc (end)) (
        Loop-IsLossless view d1 consumed
          (convert_children-Loop formats view.children default_detail d1 consumed run))

  -- The writer's elements of a detail that `build_detail` made, and behind them the children that it
  -- left opaque, are built into the same detail again, if the texts need no escape.
  pub build_detail-again :
      FormatLaws formats
      → (view : DetailView) (d : Detail F) (raw : Str) → IsPlainDetail d
      → build_detail formats view ≡ ok d
      → (consumed : List Bool) × (build_detail formats (record {
        raw = raw;
        children = typed_children formats d ++ leftover view.children consumed;
      })
          ≡ ok d)
  build_detail-again laws view d raw p h =
      let l = build_detail-IsLossless view d h in
      (
        l.consumed,
        build_detail-typed formats laws d (leftover view.children l.consumed) raw p l.opaque
            ∙ ap (λ t. ok (record d { xml_detail = t })) (sym l.text),
      )
