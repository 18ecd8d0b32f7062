-- ===== src/Cot/Xml/Decode.antt =====
-- `decode_xml` of crates/tak-cot/src/xml.rs over the events of the reader of quick_xml, which is a
-- parameter: what it reads of an input, with the positions before and after each event.
use Prim.Native.String.{String}
use tak_rs.Common.{
  ℕ, ◌+◌, ◌-◌, ◌^◌, min, Bool, true, false, not, ◌&&◌, Option, none, some, List, [], ◌∷◌, ◌++◌,
  ◌==◌, ◌=?◌, leb, if◌then◌else◌, length, take, drop, get_elem?, is_empty, Str, str, list_eq,
  nat_eq,
}
use tak_rs.Cot.{Error, Result, ok, err, panic, ◌>>=◌, missing_event_attr}
use tak_rs.Cot.Xml.{
  CotEventView, DetailChild, no_event, is_ws, is_name_break, take_while, drop_while,
  parse_event_attrs, parse_point_attrs,
}

-- `Event`, as far as the decoder tells the events apart.
pub data XmlEvent : Type 0 where
  start_tag empty_tag end_tag other : XmlEvent

pub record Token : Type 0 where
  pub event : XmlEvent
  pub pos_before : ℕ
  pub pos_after : ℕ

-- The events up to the end of the input, or up to an error.
pub record Events : Type 0 where
  pub tokens : List Token
  pub failure : Option String

pub record Decoding : Type 0 where
  pub view : CotEventView
  pub depth : ℕ
  pub in_detail : Bool
  pub detail_inner_start : ℕ
  pub child_start : Option ℕ

-- `CotEventView::default()`, and the variables before the loop.
abbrev pub empty_view : CotEventView
empty_view = record { event = no_event; point = none; detail = record { raw = []; children = [] } }

abbrev pub decoding_start : Decoding
decoding_start = record {
  view = empty_view;
  depth = 0;
  in_detail = false;
  detail_inner_start = 0;
  child_start = none;
}

-- `&input[from..to]`
unfoldable pub slice_of : Str → ℕ → ℕ → Result Str
slice_of input from to =
    if leb from to && leb to (length input) then ok (take (to - from) (drop from input)) else panic

abbrev pub is_byte_at : ℕ → ℕ → Str → Bool
is_byte_at c i input = elim (get_elem? input i) [ none ↦ false | some b ↦ b == c ]

unfoldable pub element_name : Str → ℕ → Result Str
element_name input lt_pos =
    if not (is_byte_at b'<' lt_pos input)
    then err (Error.xml "expected '<'")
    else let from = if is_byte_at b'/' (lt_pos + 1) input then lt_pos + 2 else lt_pos + 1 in
      ok (take_while (λ b. not (is_name_break b)) (drop from input))

-- `trim_matches(is_ws)`
abbrev pub trim_end : Str → Str
trim_end [] = []
trim_end (c ∷ s) = let rest = trim_end s in if is_empty rest && is_ws c then [] else c ∷ rest

abbrev pub trim_ws : Str → Str
trim_ws s = trim_end (drop_while is_ws s)

abbrev pub depth_inc : ℕ → ℕ
depth_inc n = min (n + 1) (2 ^ 32 - 1)

abbrev pub push_child : DetailChild → Decoding → Decoding
push_child child st = record st {
  view = record st.view {
    detail = record st.view.detail { children = st.view.detail.children ++ (child ∷ []) };
  };
}

unfoldable pub at_start : Str → Token → Decoding → Result Decoding
unfolding slice_of element_name
at_start input t before =
    let st = record before { depth = depth_inc before.depth } in
    do
      name ← element_name input t.pos_before
      header ← slice_of input t.pos_before t.pos_after
      (if st.depth == 1 && (name =? str "event")
          then (do
            event ← parse_event_attrs header st.view.event
            ok (record st { view = record st.view { event = event } }))
          else if st.depth == 2 && (name =? str "detail")
          then ok (record st { in_detail = true; detail_inner_start = t.pos_after })
          else if st.depth == 3 && st.in_detail
          then ok (record st { child_start = some t.pos_before })
          else ok st)

unfoldable pub at_empty : Str → Token → Decoding → Result Decoding
unfolding slice_of element_name
at_empty input t st =
    let virtual_depth = depth_inc st.depth in
    do
      name ← element_name input t.pos_before
      header ← slice_of input t.pos_before t.pos_after
      (if virtual_depth == 1 && (name =? str "event")
          then (do
            event ← parse_event_attrs header st.view.event
            ok (record st { view = record st.view { event = event } }))
          else if virtual_depth == 2 && (name =? str "point")
          then (do
            point ← parse_point_attrs header
            ok (record st { view = record st.view { point = some point } }))
          else if virtual_depth == 3 && st.in_detail
          then ok (push_child (record { name = name; raw = header }) st)
          else ok st)

unfoldable pub end_child : Str → Token → Option ℕ → Decoding → Result Decoding
unfolding slice_of element_name
end_child input t none st = ok st
end_child input t (some from) st = do
  name ← element_name input from
  raw ← slice_of input from t.pos_after
  ok (push_child (record { name = name; raw = raw }) (record st { child_start = none }))

abbrev pub leave : Decoding → Result Decoding
leave st = ok (record st { depth = st.depth - 1 })

unfoldable pub at_end : Str → Token → Decoding → Result Decoding
unfolding end_child slice_of
at_end input t st =
    (if st.depth == 3 && st.in_detail
      then end_child input t st.child_start st
      else if st.depth == 2 && st.in_detail
      then (do
        raw ← slice_of input st.detail_inner_start t.pos_before
        ok (record st {
          view = record st.view { detail = record st.view.detail { raw = trim_ws raw } };
          in_detail = false;
        }))
      else ok st)
    >>= leave

-- One round of the loop, at its event.
unfoldable pub decode_event : Str → Token → XmlEvent → Decoding → Result Decoding
unfolding at_start at_empty at_end
decode_event input t start_tag st = at_start input t st
decode_event input t empty_tag st = at_empty input t st
decode_event input t end_tag st = at_end input t st
decode_event input t other st = ok st

unfoldable pub decode_loop : Str → List Token → Decoding → Result Decoding
unfolding decode_event
decode_loop input [] st = ok st
decode_loop input (t ∷ tokens) st = decode_event input t t.event st >>= decode_loop input tokens

unfoldable pub finish_decoding : Option String → Decoding → Result CotEventView
finish_decoding (some message) st = err (Error.xml message)
finish_decoding none st =
    if is_empty st.view.event.uid
    then err (missing_event_attr "uid")
    else if is_empty st.view.event.kind
    then err (missing_event_attr "type")
    else ok st.view

unfoldable pub decode_xml : (Str → Events) → Str → Result CotEventView
unfolding decode_loop finish_decoding
decode_xml read_events input =
    let events = read_events input in
    decode_loop input events.tokens decoding_start >>= finish_decoding events.failure
