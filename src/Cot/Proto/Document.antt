-- ===== src/Cot/Proto/Document.antt =====
-- The document that `takmessage_to_xml` of crates/tak-cot/src/proto.rs writes for a message.
use tak_rs.Common.{
  Option, some, none, [], ◌∷◌, ◌++◌, Str, str, refl, ap, sym, append_assoc, append-nil,
}
use tak_rs.Cot.{ok}
use tak_rs.Cot.Framing.{vec_writer}
use tak_rs.Cot.Xml.Written.{Writes, Writes-seq, Writes-same, Writes-text, event_text, point_text}
use tak_rs.Cot.Proto.{Detail, CotEvent, Formats}
use tak_rs.Cot.Proto.Write.{write_some, write_xml_detail, write_detail, write_cot}
use tak_rs.Cot.Proto.Children.{typed_children}
use tak_rs.Cot.Proto.Lines.{lines, OnSome, IsPlainSubs, Writes-typed_subs}
use tak_rs.Cot.Proto.Events.{event_of, point_of, IsPlainCot, Writes-cot_event, Writes-cot_point}

abbrev pub xml_detail_text : Str → Str
xml_detail_text [] = []
xml_detail_text (c ∷ text) = str "    " ++ ((c ∷ text) ++ str "\n")

Writes-xml_detail :
    (text : Str) → Writes (write_xml_detail vec_writer text) (Unit {0}) (xml_detail_text text)
unfolding write_xml_detail
Writes-xml_detail [] = record {
  appends = λ p out. ap (λ x. (ok tt, x)) (sym (append-nil out));
  demands = λ out w h. tt;
}
Writes-xml_detail (c ∷ text) =
    Writes-same
      (Writes-seq (Writes-seq (Writes-text (str "    ")) (Writes-text (c ∷ text)))
        (Writes-text (str "\n")))
      (λ p. tt) (λ p. ((tt, tt), tt)) (simp append_assoc)

module _ {F T : Type 0} (formats : Formats F T) where
  abbrev pub detail_lines : Detail F → Str
  detail_lines d = lines (typed_children formats d) ++ xml_detail_text d.xml_detail

  abbrev pub opt_detail_lines : Option (Detail F) → Str
  opt_detail_lines none = []
  opt_detail_lines (some d) = detail_lines d

  -- The messages that the writer accepts: each time has a text, and no text has one of the five
  -- characters.
  pub record IsSendable (cot : CotEvent F) : Type 0 where
    pub plain_event : IsPlainCot formats cot
    pub plain_subs : OnSome (IsPlainSubs formats) cot.detail

  abbrev pub cot_document : CotEvent F → Str
  cot_document cot =
      str "<?xml version=\"1.0\" encoding=\"UTF-8\"?>\n"
      ++ (event_text (event_of formats cot)
          ++ (point_text (point_of formats cot)
              ++ (str "  <detail>\n"
                  ++ (opt_detail_lines cot.detail ++ (str "  </detail>\n" ++ str "</event>\n")))))

  Writes-cot_detail :
      (o : Option (Detail F))
      → Writes
          (write_some vec_writer (write_detail formats vec_writer) o)
          (OnSome (IsPlainSubs formats) o)
          (opt_detail_lines o)
  unfolding write_detail
  Writes-cot_detail none = record {
    appends = λ p out. ap (λ x. (ok tt, x)) (sym (append-nil out));
    demands = λ out w h. tt;
  }
  Writes-cot_detail (some d) =
      Writes-same (Writes-seq (Writes-typed_subs formats d) (Writes-xml_detail d.xml_detail))
        (λ (p, _). p) (λ p. (p, tt)) refl

  -- The whole message into a vector succeeds exactly when it is sendable, and then it appends the
  -- document.
  pub write_cot-Writes :
      (cot : CotEvent F)
      → Writes (write_cot formats vec_writer (some cot)) (IsSendable cot) (cot_document cot)
  unfolding write_cot
  write_cot-Writes cot =
      Writes-same
        (Writes-seq
          (Writes-seq
            (Writes-seq
              (Writes-seq
                (Writes-seq
                  (Writes-seq (Writes-text (str "<?xml version=\"1.0\" encoding=\"UTF-8\"?>\n"))
                    (Writes-cot_event formats cot))
                  (Writes-cot_point formats cot))
                (Writes-text (str "  <detail>\n")))
              (Writes-cot_detail cot.detail))
            (Writes-text (str "  </detail>\n")))
          (Writes-text (str "</event>\n")))
        (λ ((((((_, e), _), _), d), _), _). record { plain_event = e; plain_subs = d })
        (λ p. ((((((tt, p.plain_event), tt), tt), p.plain_subs), tt), tt)) (simp append_assoc)
