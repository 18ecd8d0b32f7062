-- ===== src/Cot/Proto/Events.antt =====
-- The tags of event and point that `takmessage_to_xml` of crates/tak-cot/src/proto.rs writes.
use tak_rs.Common.{
  ℕ, Option, some, none, List, [], ◌∷◌, Str, str, ◌≡◌, refl, ap, sym, append_assoc, append-nil,
}
use tak_rs.Cot.{Result, ok, err, panic}
use tak_rs.Cot.Framing.{vec_writer}
use tak_rs.Cot.Xml.{EventAttrs, PointAttrs}
use tak_rs.Cot.Xml.Attrs.{IsPlain, rendered, render_all}
use tak_rs.Cot.Xml.Headers.{opt_attr}
use tak_rs.Cot.Xml.Written.{
  Writes, Writes-seq, Writes-same, Writes-text, event_text, point_text, render_all-append,
}
use tak_rs.Cot.Proto.{CotEvent, Formats}
use tak_rs.Cot.Proto.Write.{
  write_str_attr_opt, format_iso8601, write_formatted, write_time, write_cot_event, write_cot_point,
}
use tak_rs.Cot.Proto.Lines.{Writes-str_attr, Writes-f64_attr}

abbrev pub opt_text : Str → Option Str
opt_text [] = none
opt_text (c ∷ s) = some (c ∷ s)

Writes-str_attr_opt :
    (key value : Str)
    → Writes
        (write_str_attr_opt vec_writer key value)
        (IsPlain value)
        (render_all (opt_attr key (opt_text value)))
unfolding write_str_attr_opt
Writes-str_attr_opt key [] = record {
  appends = λ p out. ap (λ x. (ok tt, x)) (sym (append-nil out));
  demands = λ out w h. tt;
}
Writes-str_attr_opt key (c ∷ value) =
    Writes-same (Writes-str_attr key (c ∷ value)) (λ p. p) (λ p. p)
      (sym (append-nil (rendered key (c ∷ value))))

abbrev pub text_of : Result Str → Str
text_of (ok text) = text
text_of _ = []

-- A formatted text that needs no escape.
pub record IsText (r : Result Str) : Type 0 where
  pub formatted : r ≡ ok (text_of r)
  pub plain : IsPlain (text_of r)

Writes-formatted :
    (key : Str) (r : Result Str)
    → Writes (write_formatted vec_writer key r) (IsText r) (rendered key (text_of r))
unfolding write_formatted
Writes-formatted key (ok text) =
    Writes-same (Writes-str_attr key text) (λ p. record { formatted = refl; plain = p })
      (λ p. p.plain) refl
Writes-formatted key (err e) = record {
  appends = λ p out. absurd (cc (p.formatted));
  demands = λ out w h. absurd (cc (ap (λ (r : Result (Unit {0}) × List ℕ). r.0) h));
}
Writes-formatted key panic = record {
  appends = λ p out. absurd (cc (p.formatted));
  demands = λ out w h. absurd (cc (ap (λ (r : Result (Unit {0}) × List ℕ). r.0) h));
}

module _ {F T : Type 0} (formats : Formats F T) where
  open formats use {f64_display}

  abbrev pub time_text : ℕ → Str
  time_text ms = text_of (format_iso8601 formats ms)

  -- The attributes of the event and of the point that stand for a message.
  abbrev pub event_of : CotEvent F → EventAttrs
  event_of cot = record {
    version = some (str "2.0");
    uid = cot.uid;
    kind = cot.kind;
    time = time_text cot.send_time;
    start = time_text cot.start_time;
    stale = time_text cot.stale_time;
    how = cot.how;
    access = opt_text cot.access;
    qos = opt_text cot.qos;
    opex = opt_text cot.opex;
    caveat = opt_text cot.caveat;
    releaseable_to = opt_text cot.releaseable_to;
  }

  abbrev pub point_of : CotEvent F → PointAttrs
  point_of cot = record {
    lat = f64_display cot.lat;
    lon = f64_display cot.lon;
    hae = f64_display cot.hae;
    ce = f64_display cot.ce;
    le = f64_display cot.le;
  }

  pub record IsPlainCot (cot : CotEvent F) : Type 0 where
    pub uid : IsPlain cot.uid
    pub kind : IsPlain cot.kind
    pub time : IsText (format_iso8601 formats cot.send_time)
    pub start : IsText (format_iso8601 formats cot.start_time)
    pub stale : IsText (format_iso8601 formats cot.stale_time)
    pub how : IsPlain cot.how
    pub access : IsPlain cot.access
    pub qos : IsPlain cot.qos
    pub opex : IsPlain cot.opex
    pub caveat : IsPlain cot.caveat
    pub releaseable_to : IsPlain cot.releaseable_to

  Writes-time :
      (key : Str) (ms : ℕ)
      → Writes
          (write_time formats vec_writer key ms)
          (IsText (format_iso8601 formats ms))
          (rendered key (time_text ms))
  unfolding write_time
  Writes-time key ms = Writes-formatted key (format_iso8601 formats ms)

  pub Writes-cot_event :
      (cot : CotEvent F)
      → Writes (write_cot_event formats vec_writer cot) (IsPlainCot cot) (event_text (event_of cot))
  unfolding write_cot_event
  Writes-cot_event cot =
      Writes-same
        (Writes-seq
          (Writes-seq
            (Writes-seq
              (Writes-seq
                (Writes-seq
                  (Writes-seq
                    (Writes-seq
                      (Writes-seq
                        (Writes-seq
                          (Writes-seq
                            (Writes-seq
                              (Writes-seq
                                (Writes-seq (Writes-text (str "<event"))
                                  (Writes-str_attr (str "version") (str "2.0")))
                                (Writes-str_attr (str "uid") cot.uid))
                              (Writes-str_attr (str "type") cot.kind))
                            (Writes-time (str "time") cot.send_time))
                          (Writes-time (str "start") cot.start_time))
                        (Writes-time (str "stale") cot.stale_time))
                      (Writes-str_attr (str "how") cot.how))
                    (Writes-str_attr_opt (str "access") cot.access))
                  (Writes-str_attr_opt (str "qos") cot.qos))
                (Writes-str_attr_opt (str "opex") cot.opex))
              (Writes-str_attr_opt (str "caveat") cot.caveat))
            (Writes-str_attr_opt (str "releaseableTo") cot.releaseable_to))
          (Writes-text (str ">\n")))
        (λ (((((((((((((_, _), u), k), t1), t2), t3), h), a), q), o), c), r), _). record {
          uid = u;
          kind = k;
          time = t1;
          start = t2;
          stale = t3;
          how = h;
          access = a;
          qos = q;
          opex = o;
          caveat = c;
          releaseable_to = r;
        })
        (λ p. (
          (
            (
              (
                (
                  (
                    (
                      (
                        (((((tt, (refl, (refl, (refl, tt)))), p.uid), p.kind), p.time), p.start),
                        p.stale,
                      ),
                      p.how,
                    ),
                    p.access,
                  ),
                  p.qos,
                ),
                p.opex,
              ),
              p.caveat,
            ),
            p.releaseable_to,
          ),
          tt,
        ))
        (simp (append_assoc, render_all-append))

  pub Writes-cot_point :
      (cot : CotEvent F)
      → Writes (write_cot_point formats vec_writer cot) (Unit {0}) (point_text (point_of cot))
  unfolding write_cot_point
  Writes-cot_point cot =
      Writes-same
        (Writes-seq
          (Writes-seq
            (Writes-seq
              (Writes-seq
                (Writes-seq
                  (Writes-seq (Writes-text (str "  <point"))
                    (Writes-f64_attr formats (str "lat") cot.lat))
                  (Writes-f64_attr formats (str "lon") cot.lon))
                (Writes-f64_attr formats (str "hae") cot.hae))
              (Writes-f64_attr formats (str "ce") cot.ce))
            (Writes-f64_attr formats (str "le") cot.le))
          (Writes-text (str "/>\n")))
        (λ p. tt) (λ p. ((((((tt, tt), tt), tt), tt), tt), tt)) (simp append_assoc)
