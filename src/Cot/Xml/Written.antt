-- ===== src/Cot/Xml/Written.antt =====
-- What the encoder of crates/tak-cot/src/xml.rs writes, in terms of lists of attributes.
use tak_rs.Common.{
  ℕ, Option, none, some, List, [], ◌∷◌, ◌++◌, Str, str, ◌≡◌, refl, append_assoc, append-nil, All,
  All-append, All_parts,
}
use Prim.Native.String.{String}
use mathlib.Core.Path.{ap, ◌∙◌, sym, subst}
use tak_rs.Cot.{Result, ok, err, panic}
use tak_rs.Cot.Framing.{Write, vec_writer, ◌>>◌, and_then}
use tak_rs.Cot.Xml.{
  EventAttrs, PointAttrs, find_special, write_attr, write_opt, write_event, write_point,
}
use tak_rs.Cot.Xml.Attrs.{IsPlain, rendered, render_all, find_special-IsPlain}
use tak_rs.Cot.Xml.Headers.{opt_attr, event_attrs, point_attrs}

-- An action on a vector succeeds exactly under `P`, and then it appends the text.
pub record Writes (m : Write (List ℕ)) (P : Type 0) (text : Str) : Type 0 where
  pub appends : P → (out : List ℕ) → m out ≡ (ok tt, out ++ text)
  pub demands : (out w : List ℕ) → m out ≡ (ok tt, w) → P

pub Writes-seq :
    {m k : Write (List ℕ)} {P Q : Type 0} {s t : Str}
    → Writes m P s
    → Writes k Q t
    → Writes (m >> k) (P × Q) (s ++ t)
Writes-seq {m} {k} {P} {Q} {s} {t} a b = record {
  appends = λ (p, q) out.
      ap (and_then k) (a.appends p out)
      ∙ b.appends q (out ++ s)
      ∙ ap (λ x. (ok tt, x)) (append_assoc out s t);
  demands = λ out w h. split out w (m out) refl h;
}
  where
    split :
        (out w : List ℕ) (r : Result (Unit {0}) × List ℕ)
        → m out ≡ r
        → and_then k r ≡ (ok tt, w)
        → P × Q
    split out w (ok tt, w1) e h = (a.demands out w1 e, b.demands w1 w h)
    split out w (err x, w1) e h = absurd (cc (ap (λ (r : Result (Unit {0}) × List ℕ). r.0) h))
    split out w (panic, w1) e h = absurd (cc (ap (λ (r : Result (Unit {0}) × List ℕ). r.0) h))

pub Writes-text : (text : Str) → Writes (vec_writer.write_all text) (Unit {0}) text
Writes-text text = record { appends = λ p out. refl; demands = λ out w h. tt }

-- `write_attr` succeeds for values that need no escape.
pub Writes-attr :
    (key value : Str)
    → Writes (write_attr vec_writer key value) (IsPlain value) (rendered key value)
unfolding write_attr find_special
Writes-attr key value = record {
  appends = λ p out. rw (write_attr, plain value p) (simp append_assoc);
  demands = λ out w h. find_special-IsPlain value (found out w h (find_special value) refl);
}
  where
    plain : (v : Str) → IsPlain v → find_special v ≡ none
    plain [] p = refl
    plain (c ∷ v) p = rw (find_special, p.0) (plain v p.1)

    found :
        (out w : List ℕ)
        → write_attr vec_writer key value out ≡ (ok tt, w)
        → (o : Option ℕ) → find_special value ≡ o
        → find_special value ≡ none
    found out w h none e = e
    found out w h (some c) e =
        absurd (cc (ap (λ (r : Result (Unit {0}) × List ℕ). r.0) (rw (write_attr, e) at h)))

abbrev pub AllPlain : List (Str × Str) → Type 0
AllPlain attrs = All (λ (kv : Str × Str). IsPlain kv.1) attrs

pub Writes-same :
    {m : Write (List ℕ)} {P Q : Type 0} {s t : Str}
    → Writes m P s
    → (P → Q)
    → (Q → P)
    → s ≡ t
    → Writes m Q t
Writes-same a f g e = record {
  appends = λ q out. a.appends (g q) out ∙ ap (λ x. (ok tt, out ++ x)) e;
  demands = λ out w h. f (a.demands out w h);
}

Writes-opt :
    (key : Str) (o : Option Str)
    → Writes (write_opt vec_writer key o) (AllPlain (opt_attr key o)) (render_all (opt_attr key o))
unfolding write_opt
Writes-opt key none = record {
  appends = λ p out. ap (λ x. (ok tt, x)) (sym (append-nil out));
  demands = λ out w h. tt;
}
Writes-opt key (some v) =
    Writes-same (Writes-attr key v) (λ p. (p, tt)) (λ p. p.0) (sym (append-nil (rendered key v)))

pub render_all-append :
    (xs ys : List (Str × Str)) → render_all (xs ++ ys) ≡ render_all xs ++ render_all ys
render_all-append [] ys = refl
render_all-append ((key, value) ∷ xs) ys =
    ap (λ t. rendered key value ++ t) (render_all-append xs ys)
    ∙ sym (append_assoc (rendered key value) (render_all xs) (render_all ys))

-- The point's header is its five attributes.
abbrev pub point_text : PointAttrs → Str
point_text q = str "  <point" ++ (render_all (point_attrs q) ++ str "/>\n")

pub Writes-point :
    (q : PointAttrs)
    → Writes (write_point vec_writer (some q)) (AllPlain (point_attrs q)) (point_text q)
unfolding write_point
Writes-point q =
    Writes-same
      (Writes-seq
        (Writes-seq
          (Writes-seq
            (Writes-seq
              (Writes-seq
                (Writes-seq (Writes-text (str "  <point")) (Writes-attr (str "lat") q.lat))
                (Writes-attr (str "lon") q.lon))
              (Writes-attr (str "hae") q.hae))
            (Writes-attr (str "ce") q.ce))
          (Writes-attr (str "le") q.le))
        (Writes-text (str "/>\n")))
      (λ ((((((_, a), b), c), d), e), _). (a, (b, (c, (d, (e, tt))))))
      (λ (a, (b, (c, (d, (e, _))))). ((((((tt, a), b), c), d), e), tt)) (simp append_assoc)

abbrev pub event_text : EventAttrs → Str
event_text e = str "<event" ++ (render_all (event_attrs e) ++ str ">\n")

-- Text, and behind it attributes.
record Started (m : Write (List ℕ)) (pre : Str) (attrs : List (Str × Str)) : Type 0 where
  started : Writes m (AllPlain attrs) (pre ++ render_all attrs)

Started-seq :
    {m k : Write (List ℕ)} {pre : Str} {xs : List (Str × Str)} (ys : List (Str × Str))
    → Started m pre xs
    → Writes k (AllPlain ys) (render_all ys)
    → Started (m >> k) pre (xs ++ ys)
Started-seq {m} {k} {pre} {xs} ys a b = record {
  started =
      Writes-same (Writes-seq a.started b)
        (λ (p, q). All-append (λ (kv : Str × Str). IsPlain kv.1) xs ys p q)
        (All_parts (λ (kv : Str × Str). IsPlain kv.1) xs ys)
        (append_assoc pre (render_all xs) (render_all ys)
          ∙ ap (λ t. pre ++ t) (sym (render_all-append xs ys)));
}

Started-attr :
    {m : Write (List ℕ)} {pre : Str} {xs : List (Str × Str)} (key value : Str)
    → Started m pre xs
    → Started (m >> write_attr vec_writer key value) pre (xs ++ ((key, value) ∷ []))
Started-attr key value a = Started-seq ((key, value) ∷ []) a (
    Writes-same (Writes-attr key value) (λ p. (p, tt)) (λ p. p.0)
      (sym (append-nil (rendered key value))))

Started-text : (pre : Str) → Started (vec_writer.write_all pre) pre []
Started-text pre = record {
  started = Writes-same (Writes-text pre) (λ p. tt) (λ p. tt) (sym (append-nil pre));
}

Started-as :
    {m : Write (List ℕ)} {pre : Str} {xs ys : List (Str × Str)}
    → Started m pre xs
    → xs ≡ ys
    → Started m pre ys
Started-as {m} {pre} a e = subst (λ t. Started m pre t) e a

pub Writes-event :
    (e : EventAttrs) → Writes (write_event vec_writer e) (AllPlain (event_attrs e)) (event_text e)
unfolding write_event
Writes-event e =
    Writes-same
      (Writes-seq
        (Started-as {ys = event_attrs e}
          (opt "releaseableTo" e.releaseable_to (
            opt "caveat" e.caveat (
              opt "opex" e.opex (
                opt "qos" e.qos (
                  opt "access" e.access (
                    Started-attr (str "how") e.how (
                      Started-attr (str "stale") e.stale (
                        Started-attr (str "start") e.start (
                          Started-attr (str "time") e.time (
                            Started-attr (str "type") e.kind (
                              Started-attr (str "uid") e.uid
                                (opt "version" e.version (Started-text (str "<event"))))))))))))))
          (simp append_assoc)).started
        (Writes-text (str ">\n")))
      (λ (p, _). p) (λ p. (p, tt))
      (append_assoc (str "<event") (render_all (event_attrs e)) (str ">\n"))
  where
    opt :
        {m : Write (List ℕ)} {pre : Str} {xs : List (Str × Str)} (key : String) (o : Option Str)
        → Started m pre xs
        → Started (m >> write_opt vec_writer (str key) o) pre (xs ++ opt_attr (str key) o)
    opt key o a = Started-seq (opt_attr (str key) o) a (Writes-opt (str key) o)
